-- ===== src/RcuList/Halves.antt =====
-- A list that is open at one place, and the writes that relink its two halves.
use cs_signal.Prelude.{
  ℕ, ◌≡◌, refl, sym, inl, inr, Option, none, some, [], ◌∷◌, ◌++◌, arith, snoc_cases, append_assoc,
  ◌∙◌,
}
use cs_signal.RcuList.{Ptr, RcuList, write, link_prev, link_next}
use cs_signal.RcuList.Chain.{
  Cells, SameOutside, Distinct, Below, first, last, live_node, Chain, Repr, has-append,
  first-append, first_middle, last-append, Chain-append, Chain-split, Chain-update, Distinct-middle,
  update_same, update_other,
}

module _ {ℓ} {A : Type ℓ} where
  -- The cells `ys` in front of a node and `zs` behind it: the first part ends at the pointer `q`,
  -- and the second one starts from the pointer `m`.
  pub record Halves (l : RcuList A) (ys zs : Cells A) (q m : Ptr) : Type ℓ where
    pub head_eq : l.head ≡ first ys q
    pub tail_eq : l.tail ≡ last m zs
    pub front : Chain l.nodes none ys q
    pub rear : Chain l.nodes m zs none

  -- A step on `l` that writes only to nodes of `xs` and to the ends, and leaves `Halves`.
  abbrev pub Relinks :
      RcuList A → Cells A → Option (RcuList A) → (ys zs : Cells A) (q m : Ptr) → Type ℓ
  Relinks l xs r ys zs q m =
      (l' : RcuList A) × (r ≡ some l')
      × Halves l' ys zs q m
      × SameOutside xs l.nodes l'.nodes
      × (l'.zombies ≡ l.zombies)
      × (l'.fresh ≡ l.fresh)
      × (l'.write_mutex ≡ l.write_mutex)

  module _ (l : RcuList A) (q m : Ptr) where
    link_prev-snoc :
        (xs : Cells A) (c : ℕ × A) (zs : Cells A) (q' : Ptr)
        → Halves l (xs ++ c ∷ []) zs q m
        → Distinct ((xs ++ c ∷ []) ++ zs)
        → Relinks l
            (xs ++ c ∷ [])
            (link_prev (last none (xs ++ c ∷ [])) q' l)
            (xs ++ c ∷ [])
            zs
            q'
            m
    link_prev-snoc xs c zs q' p d =
        let (front, node) = Chain-split l.nodes none xs (c ∷ []) q p.front in
        let off = Distinct-middle xs c zs (rw append_assoc at d) in
        (
          write c.0 (live_node q' (last none xs) c.1) l,
          rw (last-append none xs (c ∷ []), node.0),
          record {
            head_eq = p.head_eq ∙ first_middle xs c [] [] q q';
            tail_eq = p.tail_eq;
            front =
                Chain-append _ none xs (c ∷ []) q' (Chain-update _ _ _ _ xs _ off.0 front)
                  (update_same _ _ _, tt);
            rear = Chain-update _ _ _ _ zs _ off.1 p.rear;
          },
          λ a h. update_other _ _ _ _ (ground (arith, has-append a xs (c ∷ []))),
          refl,
          refl,
          refl,
        )

    pub link_prev-Halves :
        (ys zs : Cells A) (q' : Ptr)
        → Halves l ys zs q m
        → Distinct (ys ++ zs)
        → Relinks l ys (link_prev (last none ys) q' l) ys zs q' m
    link_prev-Halves ys zs q' p d = elim (snoc_cases ys) [
      | inl e ↦ rw e (
        record l { head = q' },
        refl,
        record { head_eq = refl; tail_eq = p.tail_eq; front = tt; rear = p.rear },
        λ a h. refl,
        refl,
        refl,
        refl,
      )
      | inr (xs, c, e) ↦ rw e (link_prev-snoc xs c zs q' (rw e at p) (rw e at d))
    ]

    pub link_next-Halves :
        (ys zs : Cells A) (m' : Ptr)
        → Halves l ys zs q m
        → Distinct (ys ++ zs)
        → Relinks l zs (link_next (first zs none) m' l) ys zs q m'
    link_next-Halves ys [] m' p d = (
      record l { tail = m' },
      refl,
      record { head_eq = p.head_eq; tail_eq = refl; front = p.front; rear = tt },
      λ a h. refl,
      refl,
      refl,
      refl,
    )
    link_next-Halves ys (c ∷ zs) m' p d =
        let off = Distinct-middle ys c zs d in
        (
          write c.0 (live_node (first zs none) m' c.1) l,
          rw p.rear.0,
          record {
            head_eq = p.head_eq;
            tail_eq = p.tail_eq;
            front = Chain-update _ _ _ _ ys _ off.0 p.front;
            rear = (update_same _ _ _, Chain-update _ _ _ _ zs _ off.1 p.rear.1);
          },
          λ a h. update_other _ _ _ _ (ground arith),
          refl,
          refl,
          refl,
        )

  -- Two halves that meet are a list.
  pub Halves-Repr :
      (l : RcuList A) (ys zs : Cells A)
      → Halves l ys zs (first zs none) (last none ys)
      → Distinct (ys ++ zs)
      → Below l.fresh (ys ++ zs)
      → Repr l (ys ++ zs)
  Halves-Repr l ys zs p d b = record {
    head_eq = p.head_eq ∙ sym (first-append ys zs none);
    tail_eq = p.tail_eq ∙ sym (last-append none ys zs);
    chain = Chain-append _ none ys zs none p.front p.rear;
    distinct = d;
    below = b;
  }
