-- ===== src/Guarded.antt =====
-- cs_rcu_guarded.h: `rcu_guarded`, and the handles that lock its list at their first access.
pub mod Lifetime
use cs_signal.Prelude.{
  ℕ, Bool, true, false, Option, none, some, List, [], ◌∷◌, if◌then◌else◌, ◌>>=◌,
}
use cs_signal.RcuList.{Ptr, RcuList}
use cs_signal.RcuList.Guard.{rcu_read_lock, unlock, rcu_write_lock, rcu_write_unlock}
use cs_signal.Connections.{assign}

-- Which of the two classes a handle has.
pub data HandleKind : Type 0 where
  read_handle write_handle : HandleKind

-- A handle, with the address and the `m_zombie` of its guard.
pub record Handle : Type 0 where
  pub ptr : Ptr
  pub guard : ℕ
  pub zombie : Ptr
  pub accessed : Bool

-- `lock_read` and `lock_write` of the list at `p`; the guard has the address `g`.
abbrev pub make_handle : ℕ → ℕ → Handle
make_handle p g = record { ptr = some p; guard = g; zombie = none; accessed = false }

-- `rcu_guard::operator=` for the `m_zombie` of another guard. It has no `return` statement, so that a
-- call of it runs into the end of a function that is to return a value: a fault.
abbrev pub assign_guard : Ptr → Option Ptr
assign_guard zombie = none

-- The new handle, whose guard has the address `g`, and what is left of the other one.
abbrev pub moved : ℕ → Handle → Option (Handle × Handle)
moved g other = do
  zombie ← assign_guard other.zombie
  some (
    record { ptr = other.ptr; guard = g; zombie = zombie; accessed = other.accessed },
    record { ptr = none; guard = other.guard; zombie = none; accessed = false },
  )

-- The lists that are guarded, by their addresses.
abbrev pub GuardedLists {ℓ} : Type ℓ → Type ℓ
GuardedLists A = ℕ → Option (RcuList A)

module _ {ℓ} {A : Type ℓ} where
  unfoldable pub lock_of : HandleKind → ℕ → RcuList A → Option (ℕ × RcuList A)
  unfolding rcu_read_lock rcu_write_lock
  lock_of read_handle g l = some (rcu_read_lock g l)
  lock_of write_handle g l = rcu_write_lock g l

  unfoldable pub unlock_of : HandleKind → ℕ → RcuList A → Option (RcuList A)
  unfolding unlock rcu_write_unlock
  unlock_of read_handle z l = unlock z l
  unlock_of write_handle z l = rcu_write_unlock z l

  -- `access`: the lock, once.
  unfoldable pub access : HandleKind → Handle → GuardedLists A → Option (Handle × GuardedLists A)
  unfolding lock_of
  access kind h lists = if h.accessed then some (h, lists) else do
    p ← h.ptr
    l ← lists p
    (z, l') ← lock_of kind h.guard l
    some (record h { zombie = some z; accessed = true }, assign lists p (some l'))

  -- The destructor.
  unfoldable pub end_handle : HandleKind → Handle → GuardedLists A → Option (GuardedLists A)
  unfolding unlock_of
  end_handle kind h lists =
      if h.accessed
      then (do
        p ← h.ptr
        l ← lists p
        z ← h.zombie
        l' ← unlock_of kind z l
        some (assign lists p (some l')))
      else some lists

  -- The move constructor, and the end of the handle that was moved.
  unfoldable pub move_construct :
      HandleKind → ℕ → Handle → GuardedLists A → Option (Handle × GuardedLists A)
  unfolding end_handle
  move_construct kind g other lists = do
    (h, other') ← moved g other
    lists' ← end_handle kind other' lists
    some (h, lists')

  -- `operator=` from another handle, and the end of that one.
  unfoldable pub move_assign :
      HandleKind → Handle → Handle → GuardedLists A → Option (Handle × GuardedLists A)
  unfolding end_handle
  move_assign kind h other lists = do
    lists₁ ← end_handle kind h lists
    (h', other') ← moved h.guard other
    lists₂ ← end_handle kind other' lists₁
    some (h', lists₂)
