-- ===== src/RcuList/Guard/Reclaimed.antt =====
-- That nodes are freed in the end: `unlock` of `rcu_guard` after an `erase`.
use cs_signal.Prelude.{
  ℕ, ◌+◌, ◌≡◌, refl, ◌∙◌, true, false, Bool_cases, inl, inr, Option, none, some, [], ◌∷◌, ◌++◌,
  ◌>>=◌, arith,
}
use cs_signal.RcuList.{RcuList, erase, dead_entry}
use cs_signal.RcuList.Chain.{Cells}
use cs_signal.RcuList.Guard.{
  guard_entry, release, no_owner, unlock, rcu_read_lock, rcu_write_lock, rcu_write_unlock,
}
use cs_signal.RcuList.Guard.Zombies.{mem, dead_nodes}
use cs_signal.RcuList.Guard.Sound.{IsSound}
use cs_signal.RcuList.Guard.Unlock.{unlock-Unlocked}
use cs_signal.RcuList.Guard.Modify.{erase-IsSound, rcu_read_lock-IsSound, set_mutex-IsSound}

module _ {ℓ} {A : Type ℓ} where
  -- A read handle by the guard `h`, from its first access to its end.
  abbrev pub reading_handle : ℕ → RcuList A → Option (RcuList A)
  reading_handle h l = let (z, l') = rcu_read_lock h l in unlock z l'

  -- A write handle by the guard `g`, under which the node at `p` is erased.
  abbrev pub erasing_handle : ℕ → ℕ → RcuList A → Option (RcuList A)
  erasing_handle g p l = do
    (z, l₁) ← rcu_write_lock g l
    (_, l₂) ← erase (some p) l₁
    rcu_write_unlock z l₂

  -- What one handle leaves, where no guard is active before it: the nodes that waited are freed.
  record Reclaims (l : RcuList A) (xs : Cells A) (l' : RcuList A) : Type ℓ where
    sound : IsSound l' xs
    mutex_eq : l'.write_mutex ≡ none
    freed : (a : ℕ) → mem a (dead_nodes l.zombies) ≡ true → l'.nodes a ≡ none
    spared : (a : ℕ) → mem a (dead_nodes l.zombies) ≡ false → l'.nodes a ≡ l.nodes a

  reading_handle-Reclaims :
      (h : ℕ) (l : RcuList A) (xs : Cells A)
      → IsSound l xs
      → l.write_mutex ≡ none
      → no_owner l.zombies ≡ true
      → (l' : RcuList A) × (reading_handle h l ≡ some l')
        × Reclaims l xs l'
        × (l'.zombies ≡ release (guard_entry l.fresh h) ∷ [])
  unfolding rcu_read_lock
  reading_handle-Reclaims h l xs s m idle =
      let l₁ = (rcu_read_lock h l).1 in
      let (l', run, sound, u) =
        unlock-Unlocked l₁ xs [] (guard_entry l.fresh h) l.zombies (rcu_read_lock-IsSound h l xs s)
          refl in
      (
        l',
        run,
        record {
          sound = sound;
          mutex_eq = u.mutex_eq ∙ m;
          freed = λ a d. u.freed a (rw idle d);
          spared = λ a d. u.spared a (rw idle d);
        },
        u.zombies_eq ∙ rw idle refl,
      )

  module _ (l : RcuList A) (ys : Cells A) (c : ℕ × A) (zs : Cells A) (g h : ℕ)
      (s : IsSound l (ys ++ c ∷ zs)) (m : l.write_mutex ≡ none)
      (idle : no_owner l.zombies ≡ true) where
    erasing_handle-freed :
        (l' : RcuList A) × (erasing_handle g c.0 l ≡ some l')
        × IsSound l' (ys ++ zs)
        × (l'.write_mutex ≡ none)
        × (l'.zombies ≡ dead_entry (l.fresh + 1) c.0 ∷ release (guard_entry l.fresh g) ∷ [])
        × ((a : ℕ) → mem a (dead_nodes l.zombies) ≡ true → l'.nodes a ≡ none)
    unfolding rcu_read_lock rcu_write_lock rcu_write_unlock
    erasing_handle-freed =
        let e = guard_entry l.fresh g in
        let l₁ = record (rcu_read_lock g l).1 { write_mutex = some g } in
        let s₁ = set_mutex-IsSound _ _ (some g) (rcu_read_lock-IsSound g l _ s) in
        let (l₂, run₂, k, s₂) = erase-IsSound l₁ ys c zs s₁ in
        let l₃ = record l₂ { write_mutex = none } in
        let (l', run, sound, u) =
          unlock-Unlocked l₃ (ys ++ zs) (dead_entry (l.fresh + 1) c.0 ∷ []) e l.zombies
            (set_mutex-IsSound _ _ none s₂) k.zombies_eq in
        (
          l',
          rw (m, rcu_write_lock, run₂, rcu_write_unlock) run,
          sound,
          u.mutex_eq,
          u.zombies_eq ∙ rw idle refl,
          λ a d. u.freed a (rw idle d),
        )

    -- If no guard is active and the mutex is free: a write handle under which a node of the list is
    -- erased runs to its end, and so does a read handle after it. By then the node is freed, and so
    -- is every node that waited, the list is in order without the node, and the zombie list has the
    -- entry of the read handle alone.
    pub erase-freed :
        (l' : RcuList A) × ((erasing_handle g c.0 l >>= reading_handle h) ≡ some l')
        × IsSound l' (ys ++ zs)
        × (l'.nodes c.0 ≡ none)
        × ((a : ℕ) → mem a (dead_nodes l.zombies) ≡ true → l'.nodes a ≡ none)
        × (l'.write_mutex ≡ none)
        × ((z : ℕ) × (l'.zombies ≡ release (guard_entry z h) ∷ []))
    erase-freed =
        let (l₁, run, sound, mutex, zombies, freed) = erasing_handle-freed in
        let (l', run', r, rest) =
          reading_handle-Reclaims h l₁ (ys ++ zs) sound mutex (rw zombies refl) in
        (
          l',
          rw run run',
          r.sound,
          r.freed c.0 (rw zombies (ground arith)),
          λ a d. elim (Bool_cases (mem a (dead_nodes l₁.zombies))) [
            | inl dead ↦ r.freed a dead
            | inr other ↦ r.spared a other ∙ freed a d
          ],
          r.mutex_eq,
          (l₁.fresh, rest),
        )
