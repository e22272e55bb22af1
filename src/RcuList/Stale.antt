-- ===== src/RcuList/Stale.antt =====
-- An iterator at a node that was erased, while its successor is erased too.
use cs_signal.Prelude.{ℕ, ◌≡◌, refl, ◌∙◌, false, none, some, ◌∷◌, ◌++◌, ◌>>=◌}
use cs_signal.RcuList.{RcuList, erase}
use cs_signal.RcuList.Chain.{Cells, has, has-append, first, Distinct-middle, Repr}
use cs_signal.RcuList.Erase.{erase-cell}
use cs_signal.RcuList.Iterator.{increment, dereference}

module _ {ℓ} {A : Type ℓ} where
  outside :
      (ys : Cells A) (c d : ℕ × A) (zs : Cells A)
      → has c.0 ys ≡ false
      → has c.0 (d ∷ zs) ≡ false
      → has c.0 (ys ++ d ∷ zs) ≡ false
  outside ys c d zs off_ys off_zs = rw (has-append c.0 ys (d ∷ zs), off_ys) off_zs

  -- In a list in order, let a node and then its successor be erased. Neither is in the list
  -- afterwards, but `operator++` at the first one still leads to the second, and `operator*` there
  -- gives the item that was erased.
  pub erase-erase-increment :
      (l : RcuList A) (ys : Cells A) (c d : ℕ × A) (zs : Cells A)
      → Repr l (ys ++ c ∷ d ∷ zs)
      → (l' : RcuList A) × ((do (it, l₁) ← erase (some c.0) l; erase it l₁)
          ≡ some (first zs none, l'))
        × Repr l' (ys ++ zs)
        × (increment (some c.0) l' ≡ some (some d.0))
        × (dereference (some d.0) l' ≡ some d.1)
  erase-erase-increment l ys c d zs r =
      let (l₁, run₁, e₁) = erase-cell l ys c (d ∷ zs) r in
      let (l₂, run₂, e₂) = erase-cell l₁ ys d zs e₁.holds in
      let (off_ys, off_zs, rest) = Distinct-middle ys c (d ∷ zs) r.distinct in
      let stale = e₂.same c.0 (outside ys c d zs off_ys off_zs) ∙ e₁.node_eq in
      (l₂, rw (run₁, run₂) refl, e₂.holds, rw stale refl, rw e₂.node_eq refl)
