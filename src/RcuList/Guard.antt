-- ===== src/RcuList/Guard.antt =====
-- `rcu_guard` of cs_rcu_list.h: how a handle enters and leaves a list, and what leaving frees.
pub mod Zombies
pub mod Sound
pub mod Unlock
pub mod Modify
pub mod Mutex
pub mod Reclaimed
use cs_signal.Prelude.{
  ℕ, ◌+◌, Bool, true, false, ◌&&◌, Option, none, some, List, [], ◌∷◌, ◌++◌, ◌==◌, if◌then◌else◌,
  ◌>>=◌,
}
use cs_signal.RcuList.{Ptr, RcuList, ZombieListNode, update}

abbrev pub guard_entry : ℕ → ℕ → ZombieListNode
guard_entry z g = record { addr = z; owner = some g; zombie_node = none }

abbrev pub release : ZombieListNode → ZombieListNode
release e = record e { owner = none }

abbrev pub is_free : Option ℕ → Bool
is_free none = true
is_free (some g) = false

-- The first loop of `unlock`: whether no entry behind the guard's own one has an owner.
abbrev pub no_owner : List ZombieListNode → Bool
no_owner [] = true
no_owner (e ∷ es) = is_free e.owner && no_owner es

-- The entry at an address, with what stands before it and behind it: a fault if there is none.
abbrev pub find_entry :
    ℕ → List ZombieListNode → Option (List ZombieListNode × ZombieListNode × List ZombieListNode)
find_entry z [] = none
find_entry z (e ∷ es) =
    if e.addr == z
    then some ([], e, es)
    else do (newer, found, older) ← find_entry z es; some (e ∷ newer, found, older)

module _ {ℓ} {A : Type ℓ} where
  -- `destroy` and `deallocate` of a node: a fault if it is not allocated.
  abbrev pub free_node : Ptr → RcuList A → Option (RcuList A)
  free_node none l = some l
  free_node (some p) l = do _ ← l.nodes p; some (record l { nodes = update l.nodes p none })

  -- The second loop of `unlock`.
  pub reclaim : List ZombieListNode → RcuList A → Option (RcuList A)
  reclaim [] l = some l
  reclaim (e ∷ es) l = do l' ← free_node e.zombie_node l; reclaim es l'

  -- `rcu_read_lock` by the guard `g`: its `m_zombie`, and the list. The loop ends with a
  -- `compare_exchange_weak` that succeeds, which is the step that others see.
  unfoldable pub rcu_read_lock : ℕ → RcuList A → ℕ × RcuList A
  rcu_read_lock g l =
      (l.fresh, record l { zombies = guard_entry l.fresh g ∷ l.zombies; fresh = l.fresh + 1 })

  -- `unlock` by the guard whose `m_zombie` is `z`.
  unfoldable pub unlock : ℕ → RcuList A → Option (RcuList A)
  unfolding reclaim
  unlock z l = do
    (newer, e, older) ← find_entry z l.zombies
    if no_owner older
        then (do l' ← reclaim older l; some (record l' { zombies = newer ++ release e ∷ [] }))
        else some (record l { zombies = newer ++ release e ∷ older })

  -- `rcu_write_lock`: `none` where the mutex is held, since the guard then waits.
  unfoldable pub rcu_write_lock : ℕ → RcuList A → Option (ℕ × RcuList A)
  unfolding rcu_read_lock
  rcu_write_lock g l = elim l.write_mutex [
    | some h ↦ none
    | none ↦ let (z, l') = rcu_read_lock g l in some (z, record l' { write_mutex = some g })
  ]

  unfoldable pub rcu_write_unlock : ℕ → RcuList A → Option (RcuList A)
  rcu_write_unlock z l = unlock z (record l { write_mutex = none })
