-- ===== src/RcuList/Iterator/Find.antt =====
-- `find` of cs_signal.h on a list, and the erasure of what it found.
use cs_signal.Prelude.{
  ℕ, zero, suc, ◌<◌, ◌≡◌, refl, ap, subst, ◌∙◌, true, false, inl, inr, Bool, Option, some, none, [],
  ◌∷◌, ◌++◌, arith, Bool_cases, length, ◌>>=◌, ◌⊎◌, if◌then◌else◌,
}
use cs_signal.RcuList.{Ptr, RcuList, dead_entry}
use cs_signal.RcuList.Chain.{Cells, first, Chain}
use cs_signal.RcuList.Bound.{length-le-fresh}
use cs_signal.RcuList.Guard.Sound.{IsSound}
use cs_signal.RcuList.Guard.Modify.{erase-IsSound}
use cs_signal.RcuList.Erase.{erase_null}
use cs_signal.RcuList.Iterator.{find_loop, find, erase_found}
use cs_signal.RcuList.Iterator.EraseLoop.{Erases}

module _ {ℓ} {A : Type ℓ} (matches : A → Bool) where
  -- The cells without the first that matches: `none` where none does.
  abbrev pub without_first : Cells A → Option (Cells A)
  without_first [] = none
  without_first (c ∷ xs) = if matches c.1 then some xs else do ys ← without_first xs; some (c ∷ ys)

  abbrev pub NoneOf : Cells A → Type 0
  NoneOf [] = Unit {0}
  NoneOf (c ∷ xs) = (matches c.1 ≡ false) × NoneOf xs

  -- No cell matches, or there is a first that does.
  match_cases :
      (xs : Cells A)
      → (NoneOf xs × (without_first xs ≡ none))
        ⊎ ((ys : Cells A) × (c : ℕ × A) × (zs : Cells A) × (xs ≡ ys ++ c ∷ zs)
            × NoneOf ys
            × (matches c.1 ≡ true)
            × (without_first xs ≡ some (ys ++ zs)))
  match_cases [] = inl (tt, refl)
  match_cases (c ∷ xs) = elim (Bool_cases (matches c.1)) [
    | inl m ↦ inr ([], c, xs, refl, tt, m, rw m)
    | inr m ↦ elim (match_cases xs) [
      | inl (others, e) ↦ inl ((m, others), rw (m, e))
      | inr (ys, d, zs, same, others, found, e) ↦
          inr (c ∷ ys, d, zs, ap (◌∷◌ c) same, (m, others), found, rw (m, e))
    ]
  ]

  find_loop_found :
      (fuel : ℕ) (l : RcuList A) (start : Ptr) (ys : Cells A) (c : ℕ × A) (zs : Cells A)
      → length (ys ++ c ∷ zs) < fuel
      → Chain l.nodes start (ys ++ c ∷ zs) none
      → NoneOf ys
      → matches c.1 ≡ true
      → find_loop matches fuel (first (ys ++ c ∷ zs) none) l ≡ some (some c.0)
  unfolding find_loop
  find_loop_found zero l start ys c zs h k others m = absurd (omega arith)
  find_loop_found (suc fuel) l start [] c zs h k others m = rw (k.0, m)
  find_loop_found (suc fuel) l start (y ∷ ys) c zs h k others m =
      rw (k.0, others.0, k.0)
        (find_loop_found fuel l (some y.0) ys c zs (omega arith) k.1 others.1 m)

  find_loop_absent :
      (fuel : ℕ) (l : RcuList A) (start : Ptr) (xs : Cells A)
      → length xs < fuel
      → Chain l.nodes start xs none
      → NoneOf xs
      → find_loop matches fuel (first xs none) l ≡ some none
  unfolding find_loop
  find_loop_absent zero l start xs h k others = absurd (omega arith)
  find_loop_absent (suc fuel) l start [] h k others = refl
  find_loop_absent (suc fuel) l start (x ∷ xs) h k others =
      rw (k.0, others.0, k.0) (find_loop_absent fuel l (some x.0) xs (omega arith) k.1 others.1)

  module _ (l : RcuList A) (xs : Cells A) (s : IsSound l xs) where
    enough : length xs < suc l.fresh
    enough = omega (arith, length-le-fresh xs s.repr)

    found-Erases :
        (ys : Cells A) (c : ℕ × A) (zs : Cells A)
        → xs ≡ ys ++ c ∷ zs
        → NoneOf ys
        → matches c.1 ≡ true
        → Erases matches l (erase_found matches l) (ys ++ zs)
    unfolding erase_found find
    found-Erases ys c zs same others m =
        let found : find_loop matches (suc l.fresh) l.head l ≡ some (some c.0) =
          ap (λ it. find_loop matches (suc l.fresh) it l)
            (s.repr.head_eq ∙ ap (λ ws. first ws none) same)
          ∙ find_loop_found (suc l.fresh) l none ys c zs
              (subst (λ ws. length ws < suc l.fresh) same enough)
              (subst (λ ws. Chain l.nodes none ws none) same s.repr.chain) others m in
        let (l', run, e, sound) = erase-IsSound l ys c zs (subst (IsSound l) same s) in
        (l', rw (found, run), sound, e.mutex_eq, dead_entry l.fresh c.0 ∷ [], e.zombies_eq)

    -- On a sound list, `erase` of what `find` returns takes out the first cell that matches. Where
    -- none matches it is given the end of the list, and faults.
    pub erase_found_cases :
        ((without_first xs ≡ none) × (erase_found matches l ≡ none))
        ⊎ ((rest : Cells A) × (without_first xs ≡ some rest)
            × Erases matches l (erase_found matches l) rest)
    unfolding erase_found find
    erase_found_cases = elim (match_cases xs) [
      | inl (others, e) ↦
          let found : find_loop matches (suc l.fresh) l.head l ≡ some none =
            ap (λ it. find_loop matches (suc l.fresh) it l) s.repr.head_eq
            ∙ find_loop_absent (suc l.fresh) l none xs enough s.repr.chain others in
          inl (e, rw (found, erase_null) refl)
      | inr (ys, c, zs, same, others, m, e) ↦ inr (ys ++ zs, e, found-Erases ys c zs same others m)
    ]
