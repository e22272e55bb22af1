-- ===== src/Guarded/Lifetime.antt =====
-- What a handle does to its list from its beginning to its end.
use cs_signal.Prelude.{
  ℕ, ◌≡◌, refl, ap, ◌∙◌, Bool, inl, inr, true, false, Bool_cases, Option_cases, Option, none, some,
  List, [], ◌∷◌, any, if◌then◌else◌, ◌>>=◌,
}
use cs_signal.RcuList.{RcuList}
use cs_signal.Connections.{assign}
use cs_signal.Connections.Lists.{assign_same, assign_twice}
use cs_signal.Guarded.{
  HandleKind, Handle, GuardedLists, lock_of, unlock_of, access, end_handle, move_construct,
  move_assign, make_handle,
}

-- What a client does with a handle: it uses `*` or `->`, it moves it into a new handle, whose guard is
-- at another address, and destroys the old one, or it assigns another handle to it.
pub data Use : Type 0 where
  touch : Use
  move : (guard : ℕ) → Use
  assign_from : (other : Handle) → Use

abbrev pub is_move : Use → Bool
is_move touch = false
is_move (move g) = true
is_move (assign_from other) = true

abbrev holding : ℕ → ℕ → ℕ → Handle
holding p g z = record { ptr = some p; guard = g; zombie = some z; accessed = true }

module _ {ℓ} {A : Type ℓ} (kind : HandleKind) where
  unfoldable pub apply_use : Use → Handle → GuardedLists A → Option (Handle × GuardedLists A)
  unfolding access move_construct move_assign
  apply_use touch h lists = access kind h lists
  apply_use (move g) h lists = move_construct kind g h lists
  apply_use (assign_from other) h lists = move_assign kind h other lists

  unfoldable pub use_all : List Use → Handle → GuardedLists A → Option (Handle × GuardedLists A)
  unfolding apply_use
  use_all [] h lists = some (h, lists)
  use_all (u ∷ us) h lists = do (h', lists') ← apply_use u h lists; use_all us h' lists'

  -- A handle for the list at `p`, from `lock_read` or `lock_write` to its destructor.
  unfoldable pub lifetime : ℕ → ℕ → List Use → GuardedLists A → Option (GuardedLists A)
  unfolding use_all
  lifetime p g us lists = do
    (h, lists') ← use_all us (make_handle p g) lists
    end_handle kind h lists'

  -- The list at `p`, locked by the guard `g` and unlocked with the entry of the lock.
  abbrev pub lock_once : ℕ → ℕ → GuardedLists A → Option (GuardedLists A)
  lock_once p g lists = do
    l ← lists p
    (z, l₁) ← lock_of kind g l
    l₂ ← unlock_of kind z l₁
    some (assign lists p (some l₂))

  -- Nothing where the handle is never accessed.
  abbrev pub once_if_used : ℕ → ℕ → List Use → GuardedLists A → Option (GuardedLists A)
  once_if_used p g [] lists = some lists
  once_if_used p g (u ∷ us) lists = lock_once p g lists

  end_with : List Use → Handle → GuardedLists A → Option (GuardedLists A)
  end_with us h lists = do (h', lists') ← use_all us h lists; end_handle kind h' lists'

  move_fault :
      (u : Use) (us : List Use) (h : Handle) (lists : GuardedLists A)
      → is_move u ≡ true
      → end_with (u ∷ us) h lists ≡ none
  unfolding end_with use_all
  move_fault touch us h lists m = cc
  move_fault (move g) us h lists m = refl
  move_fault (assign_from other) us h lists m = elim (Option_cases (end_handle kind h lists)) [
    | inl n ↦ rw n refl
    | inr (lists₁, n) ↦ rw n refl
  ]

  -- A handle that has locked unlocks at its end, with its own entry.
  holding_run :
      (p g z : ℕ) (us : List Use) (lists : GuardedLists A) (l : RcuList A)
      → lists p ≡ some l
      → end_with us (holding p g z) lists ≡ (
          if any is_move us
          then none
          else (do l' ← unlock_of kind z l; some (assign lists p (some l'))))
  unfolding end_with use_all end_handle access
  holding_run p g z [] lists l e = rw e refl
  holding_run p g z (touch ∷ us) lists l e = holding_run p g z us lists l e
  holding_run p g z (move g' ∷ us) lists l e = move_fault (move g') us (holding p g z) lists refl
  holding_run p g z (assign_from other ∷ us) lists l e =
      move_fault (assign_from other) us (holding p g z) lists refl

  -- The first access locks.
  locked_run :
      (p g z : ℕ) (us : List Use) (lists : GuardedLists A) (l l₁ : RcuList A)
      → lists p ≡ some l
      → lock_of kind g l ≡ some (z, l₁)
      → end_with (touch ∷ us) (make_handle p g) lists
        ≡ (if any is_move us then none else lock_once p g lists)
  unfolding end_with use_all access
  locked_run p g z us lists l l₁ e lock =
      rw (e, lock)
        (holding_run p g z us (assign lists p (some l₁)) l₁ (assign_same lists p (some l₁))
          ∙ ap (λ o. if any is_move us then none else o)
              (elim (Option_cases (unlock_of kind z l₁)) [
                | inl n ↦ rw n refl
                | inr (l₂, n) ↦ rw n (ap some (assign_twice lists p (some l₁) (some l₂)))
              ]))

  no_lock : (b : Bool) (o : Option (GuardedLists A)) → o ≡ none → none ≡ (if b then none else o)
  no_lock b o e = elim (Bool_cases b) [ inl m ↦ rw m refl | inr m ↦ rw (m, e) refl ]

  touch_run :
      (p g : ℕ) (us : List Use) (lists : GuardedLists A)
      → end_with (touch ∷ us) (make_handle p g) lists
        ≡ (if any is_move us then none else lock_once p g lists)
  unfolding end_with use_all access
  touch_run p g us lists = elim (Option_cases (lists p)) [
    | inl e ↦ rw e (no_lock (any is_move us) none refl)
    | inr (l, e) ↦ elim (Option_cases (lock_of kind g l)) [
      | inl n ↦ rw (e, n) (no_lock (any is_move us) none refl)
      | inr ((z, l₁), n) ↦ locked_run p g z us lists l l₁ e n
    ]
  ]

  -- A handle that is never moved and never assigned to locks its list at its first access and not
  -- again, however often it is accessed, and unlocks it once, with the entry of that lock; if it is
  -- never accessed it does neither. A handle that is moved or assigned to, before or after its first
  -- access, is a fault, since the assignment of its guard has no `return`.
  pub lifetime-once :
      (p g : ℕ) (us : List Use) (lists : GuardedLists A)
      → lifetime p g us lists ≡ (if any is_move us then none else once_if_used p g us lists)
  unfolding lifetime end_with end_handle
  lifetime-once p g [] lists = refl
  lifetime-once p g (touch ∷ us) lists = touch_run p g us lists
  lifetime-once p g (move g' ∷ us) lists = move_fault (move g') us (make_handle p g) lists refl
  lifetime-once p g (assign_from other ∷ us) lists =
      move_fault (assign_from other) us (make_handle p g) lists refl
