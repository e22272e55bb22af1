-- ===== src/SharedList/Items.antt =====
-- The operations of a list under a handle, in terms of its items.
use cs_signal.Prelude.{
  ℕ, ◌≡◌, refl, sym, ap, subst, ◌∙◌, ◌⊎◌, inl, inr, Bool, Bool_cases, Option_cases, Option, none,
  some, List, [], ◌∷◌, ◌++◌, map-append, append_assoc, reject, if◌then◌else◌, ◌>>=◌,
}
use mathlib.Core.Option
use cs_signal.RcuList.{RcuList, push_back}
use cs_signal.RcuList.Chain.{Cells, values}
use cs_signal.RcuList.Guard.Modify.{push_back-IsSound}
use cs_signal.RcuList.Iterator.{Flow, for_range, each, for_range-each, erase_matching, erase_found}
use cs_signal.RcuList.Iterator.EraseLoop.{Erases, keep, erase_matching-Erases}
use cs_signal.RcuList.Iterator.Find.{without_first, erase_found_cases}
use cs_signal.SharedList.Handles.{Locked}

module _ {ℓ} {A : Type ℓ} where
  -- A list without the first item that matches: `none` where none does.
  abbrev pub remove_first : (A → Bool) → List A → Option (List A)
  remove_first p [] = none
  remove_first p (v ∷ vs) = if p v then some vs else do ws ← remove_first p vs; some (v ∷ ws)

  pub values-keep : (p : A → Bool) (xs : Cells A) → values (keep p xs) ≡ reject p (values xs)
  values-keep p [] = refl
  values-keep p (c ∷ xs) = elim (Bool_cases (p c.1)) [
    | inl m ↦ rw m (values-keep p xs)
    | inr m ↦ rw m (ap (◌∷◌ c.1) (values-keep p xs))
  ]

  -- A test on the cells and on their items take out the same.
  values-without_first :
      (p : A → Bool) (xs : Cells A)
      → remove_first p (values xs) ≡ Option.map values (without_first p xs)
  values-without_first p [] = refl
  values-without_first p (c ∷ xs) = elim (Bool_cases (p c.1)) [
    | inl m ↦ rw m refl
    | inr m ↦ elim (Option_cases (without_first p xs)) [
      | inl f ↦ rw (m, values-without_first p xs, f) refl
      | inr (zs, f) ↦ rw (m, values-without_first p xs, f) refl
    ]
  ]

  -- `r` is a list under the handle with the entry `z`, with the items `ws`.
  abbrev pub Becomes : ℕ → Option ℕ → Option (RcuList A) → List A → Type ℓ
  Becomes z m r ws = (l' : RcuList A) × (r ≡ some l') × Locked l' z m ws

  module _ (l : RcuList A) (z : ℕ) (m : Option ℕ) (vs : List A) (k : Locked l z m vs) where
    pub append-Becomes : (v : A) → Becomes z m (push_back v l) (vs ++ v ∷ [])
    append-Becomes v =
        let (l', run, sound, zeq, f, meq) = push_back-IsSound v l k.cells k.sound in
        (
          l',
          run,
          record {
            cells = k.cells ++ (l.fresh, v) ∷ [];
            sound = sound;
            values_eq =
                map-append (λ (c : ℕ × A). c.1) k.cells ((l.fresh, v) ∷ [])
                ∙ ap (λ us. us ++ v ∷ []) k.values_eq;
            mutex_eq = meq ∙ k.mutex_eq;
            newer = k.newer;
            entry = k.entry;
            older = k.older;
            zombies_eq = zeq ∙ k.zombies_eq;
            addr_eq = k.addr_eq;
          },
        )

    Erases-Becomes :
        (p : A → Bool) (r : Option (RcuList A)) (xs : Cells A) (ws : List A)
        → values xs ≡ ws
        → Erases p l r xs
        → Becomes z m r ws
    Erases-Becomes p r xs ws same (l', run, sound, meq, es, zeq) = (
      l',
      run,
      record {
        cells = xs;
        sound = sound;
        values_eq = same;
        mutex_eq = meq ∙ k.mutex_eq;
        newer = es ++ k.newer;
        entry = k.entry;
        older = k.older;
        zombies_eq =
            zeq ∙ ap (◌++◌ es) k.zombies_eq ∙ sym (append_assoc es k.newer (k.entry ∷ k.older));
        addr_eq = k.addr_eq;
      },
    )

    pub purge-Becomes : (p : A → Bool) → Becomes z m (erase_matching p l) (reject p vs)
    purge-Becomes p =
        Erases-Becomes p _ _ _ (values-keep p k.cells ∙ ap (reject p) k.values_eq)
          (erase_matching-Erases p l k.cells k.sound)

    -- `erase` of what `find` returns, which faults where no item matches.
    pub drop-first :
        (p : A → Bool)
        → ((remove_first p vs ≡ none) × (erase_found p l ≡ none))
          ⊎ ((ws : List A) × (remove_first p vs ≡ some ws) × Becomes z m (erase_found p l) ws)
    drop-first p = elim (erase_found_cases p l k.cells k.sound) [
      | inl (e, fault) ↦ inl (
        subst (λ us. remove_first p us ≡ none) k.values_eq
            (values-without_first p k.cells ∙ ap (Option.map values) e),
        fault,
      )
      | inr (rest, e, er) ↦ inr (
        values rest,
        subst (λ us. remove_first p us ≡ some (values rest)) k.values_eq
            (values-without_first p k.cells ∙ ap (Option.map values) e),
        Erases-Becomes p _ rest _ refl er,
      )
    ]

    pub loop-each {κ} :
        {S : Type κ} (body : A → S → Option (Flow S)) (s : S) → for_range body l s ≡ each body vs s
    loop-each body s =
        for_range-each body l k.cells s k.sound.repr ∙ ap (λ ws. each body ws s) k.values_eq
