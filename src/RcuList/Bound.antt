-- ===== src/RcuList/Bound.antt =====
-- The number of cells of a list, and of the addresses that were handed out.
use cs_signal.Prelude.{
  ℕ, zero, suc, ◌≤◌, ◌≡◌, ap, inl, inr, true, false, [], ◌∷◌, ◌++◌, ◌==◌, arith, length,
  length-append, Bool_cases, refl,
}
use cs_signal.RcuList.{RcuList}
use cs_signal.RcuList.Chain.{
  Cells, has, Distinct, Below, Repr, Distinct-middle, Below-middle, has-append,
}

module _ {ℓ} {A : Type ℓ} where
  pub has_split :
      (a : ℕ) (xs : Cells A)
      → has a xs ≡ true
      → (ys : Cells A) × (c : ℕ × A) × (zs : Cells A) × (xs ≡ ys ++ c ∷ zs) × (c.0 ≡ a)
  has_split a [] h = absurd (cc)
  has_split a (x ∷ xs) h = elim (Bool_cases (a == x.0)) [
    | inl e ↦ ([], x, xs, refl, ground arith)
    | inr e ↦
        let (ys, c, zs, same, found) = has_split a xs (rw e at h) in
        (x ∷ ys, c, zs, ap (◌∷◌ x) same, found)
  ]

  Below-tighten : (n : ℕ) (xs : Cells A) → Below (suc n) xs → has n xs ≡ false → Below n xs
  Below-tighten n [] b h = tt
  Below-tighten n (c ∷ xs) b h = (ground arith, Below-tighten n xs b.1 (ground arith))

  -- A list that holds the address `n` is one longer than a list below `n`.
  length-le_taken :
      (n : ℕ) (xs ys : Cells A) (c : ℕ × A) (zs : Cells A)
      → ((ws : Cells A) → Distinct ws → Below n ws → length ws ≤ n)
      → xs ≡ ys ++ c ∷ zs
      → c.0 ≡ n
      → Distinct xs
      → Below (suc n) xs
      → length xs ≤ suc n
  length-le_taken n xs ys c zs ih same found d b =
      let off = Distinct-middle ys c zs (rw same at d) in
      let below = Below-middle (suc n) ys c zs (rw same at b) in
      let absent : has n (ys ++ zs) ≡ false = rw (← found, has-append, off.0) off.1 in
      rw same (
        omega (
          arith,
          ih (ys ++ zs) off.2 (Below-tighten n (ys ++ zs) below absent),
          length-append ys zs,
          length-append ys (c ∷ zs),
        ))

  length-le : (n : ℕ) (xs : Cells A) → Distinct xs → Below n xs → length xs ≤ n
  length-le zero [] d b = omega arith
  length-le zero (c ∷ xs) d b = absurd (omega arith)
  length-le (suc n) xs d b = elim (Bool_cases (has n xs)) [
    | inr e ↦ omega (arith, length-le n xs d (Below-tighten n xs b e))
    | inl e ↦
        let (ys, c, zs, same, found) = has_split n xs e in
        length-le_taken n xs ys c zs (length-le n) same found d b
  ]

  pub length-le-fresh : {l : RcuList A} (xs : Cells A) → Repr l xs → length xs ≤ l.fresh
  length-le-fresh {l} xs r = length-le l.fresh xs r.distinct r.below
