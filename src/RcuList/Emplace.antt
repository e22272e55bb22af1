-- ===== src/RcuList/Emplace.antt =====
-- `emplace` of cs_rcu_list.h.
use cs_signal.Prelude.{
  ℕ, ◌+◌, ◌≡◌, refl, sym, inl, inr, false, true, Option, none, some, [], ◌∷◌, ◌++◌, arith,
  snoc_cases, ◌∙◌, ◌==◌,
}
use cs_signal.RcuList.{
  Ptr, Node, RcuList, update, new_node, emplace, emplace_node, emplace_middle, ptr_eq, push_front,
  push_back, link_next, link_prev, relink_back,
}
use cs_signal.RcuList.Chain.{
  Cells, last, Chain, Repr, first-append, last-append, Chain-split, Chain-update, has,
  Distinct-middle, update_same, update_other, not-has_middle, live_node, Distinct-insert,
  Below-not-has, Chain-append, Below-insert,
}
use cs_signal.RcuList.Push.{push_back-append, push_front-cons}
use cs_signal.RcuList.Halves.{Halves, link_prev-Halves, link_next-Halves}

module _ {ℓ} {A : Type ℓ} (v : A) (l : RcuList A) where
  -- At the head `emplace` is `push_front`.
  emplace_at_head : (h : ℕ) → l.head ≡ some h → emplace_node (some h) v l ≡ push_front v l
  unfolding push_front
  emplace_at_head h e = let same : (h == h) ≡ true = ground arith in rw (e, same, push_front, e)

  -- At the tail of a longer list `emplace` is `push_back`.
  emplace_at_tail :
      (h t : ℕ)
      → (h == t) ≡ false
      → l.head ≡ some h
      → l.tail ≡ some t
      → emplace_node (some t) v l ≡ push_back v l
  unfolding push_back
  emplace_at_tail h t ne e e' =
      let same : (t == t) ≡ true = ground arith in rw (e, e', ne, same, push_back, e', e)

  pub emplace_null : (h t : ℕ) → l.head ≡ some h → l.tail ≡ some t → emplace none v l ≡ none
  unfolding emplace
  emplace_null h t e e' = rw (e, e')

  -- The new node, as `emplace` of a middle cell fills it in.
  abbrev staged : ℕ → Ptr → RcuList A
  staged c m = record l {
    nodes =
        update
          (update (update l.nodes l.fresh (some (new_node v))) l.fresh
            (some (live_node (some c) none v)))
          l.fresh (some (live_node (some c) m v));
    fresh = l.fresh + 1;
  }

  relink_back_eq :
      (m q : Ptr) (d : ℕ) (l₁ : RcuList A) → m ≡ some d → relink_back m q l₁ ≡ link_prev m q l₁
  relink_back_eq m q d l₁ e = rw e

  emplace_middle_run :
      (c d : ℕ) (m : Ptr) (n : Node A) (l₁ l₂ : RcuList A)
      → (c == l.fresh) ≡ false
      → l.nodes c ≡ some n
      → n.back ≡ m
      → m ≡ some d
      → link_next (some c) (some l.fresh) (staged c m) ≡ some l₁
      → link_prev m (some l.fresh) l₁ ≡ some l₂
      → emplace_middle v (some c) l ≡ some l₂
  emplace_middle_run c d m n l₁ l₂ ne e back is_some run₁ run₂ =
      rw (update_other _ _ _ _ ne, e, update_same, update_same, back, run₁)
        (relink_back_eq m _ d l₁ is_some ∙ run₂)

  -- `emplace` at a cell that is neither the first nor the last puts the new cell before it.
  emplace_middle-Repr :
      (xs : Cells A) (d c : ℕ × A) (zs : Cells A)
      → Repr l ((xs ++ d ∷ []) ++ c ∷ zs)
      → (l' : RcuList A) × (emplace_middle v (some c.0) l ≡ some l')
        × Repr l' ((xs ++ d ∷ []) ++ (l.fresh, v) ∷ c ∷ zs)
  emplace_middle-Repr xs d c zs r =
      let ys : Cells A = xs ++ d ∷ [] in
      let (front, rear) = Chain-split l.nodes none ys (c ∷ zs) none r.chain in
      let off = not-has_middle l.fresh ys c zs (Below-not-has l.fresh (ys ++ c ∷ zs) r.below) in
      let off_c : has l.fresh (c ∷ zs) ≡ false = ground (arith, off) in
      let ne : (c.0 == l.fresh) ≡ false = ground (arith, off) in
      let back = last-append none xs (d ∷ []) in
      let skip =
        λ (start : Ptr) (ws : Cells A) (end : Ptr) (o : has l.fresh ws ≡ false)
            (p : Chain l.nodes start ws end).
          Chain-update _ l.fresh (some (live_node (some c.0) (last none ys) v)) start ws end o (
            Chain-update _ l.fresh (some (live_node (some c.0) none v)) start ws end o
              (Chain-update l.nodes l.fresh (some (new_node v)) start ws end o p)) in
      let start : Halves (staged c.0 (last none ys)) ys (c ∷ zs) (some c.0) (last none ys) =
        record {
          head_eq = r.head_eq ∙ first-append ys (c ∷ zs) none;
          tail_eq = r.tail_eq ∙ last-append none ys (c ∷ zs);
          front = skip none ys (some c.0) off.0 front;
          rear = skip (last none ys) (c ∷ zs) none off_c rear;
        } in
      let (l₁, run₁, halves₁, same₁, z₁, f₁, _) =
        link_next-Halves _ _ _ ys (c ∷ zs) (some l.fresh) start r.distinct in
      let (l₂, run₂, halves₂, same₂, z₂, f₂, _) =
        link_prev-Halves l₁ _ _ ys (c ∷ zs) (some l.fresh) halves₁ r.distinct in
      (
        l₂,
        emplace_middle_run c.0 d.0 (last none ys) _ l₁ l₂ ne rear.0 refl back run₁ run₂,
        record {
          head_eq = halves₂.head_eq ∙ sym (first-append ys ((l.fresh, v) ∷ c ∷ zs) none);
          tail_eq = halves₂.tail_eq ∙ sym (last-append none ys ((l.fresh, v) ∷ c ∷ zs));
          chain =
              Chain-append _ none ys ((l.fresh, v) ∷ c ∷ zs) none halves₂.front
                (same₂ l.fresh off.0 ∙ same₁ l.fresh off_c ∙ update_same _ _ _, halves₂.rear);
          distinct = Distinct-insert ys (l.fresh, v) (c ∷ zs) r.distinct off.0 off_c;
          below = rw (f₂, f₁) (Below-insert l.fresh ys (l.fresh, v) (c ∷ zs) (omega arith) r.below);
        },
      )

  -- Where a new cell goes: before the cell of the iterator, but behind it if that is the last of
  -- several.
  abbrev pub emplaced : Cells A → ℕ × A → ℕ × A → Cells A → Cells A
  emplaced [] new c zs = new ∷ c ∷ zs
  emplaced (y ∷ ys) new c [] = (y ∷ ys ++ c ∷ []) ++ new ∷ []
  emplaced (y ∷ ys) new c (z ∷ zs) = y ∷ ys ++ new ∷ c ∷ z ∷ zs

  abbrev Emplaces : Option (RcuList A) → Cells A → Type ℓ
  Emplaces r xs = (l' : RcuList A) × (r ≡ some l') × Repr l' xs

  last_ne :
      (a : ℕ) (m : Ptr) (z : ℕ × A) (zs : Cells A)
      → has a (z ∷ zs) ≡ false
      → ptr_eq (last m (z ∷ zs)) (some a) ≡ false
  last_ne a m z [] h = ground arith
  last_ne a m z (y ∷ zs) h = last_ne a (some z.0) y zs (ground arith)

  emplace_middle_eq :
      (h c : ℕ) (t : Ptr)
      → l.head ≡ some h
      → (h == c) ≡ false
      → l.tail ≡ t
      → ptr_eq t (some c) ≡ false
      → emplace_node (some c) v l ≡ emplace_middle v (some c) l
  emplace_middle_eq h c t e ne e' ne' = rw (e, ne, e', ne') refl

  emplace_before :
      (ws xs : Cells A) (d c : ℕ × A) (zs : Cells A)
      → ws ≡ xs ++ d ∷ []
      → Repr l (ws ++ c ∷ zs)
      → Emplaces (emplace_middle v (some c.0) l) (ws ++ (l.fresh, v) ∷ c ∷ zs)
  emplace_before ws xs d c zs e r = rw e (emplace_middle-Repr xs d c zs (rw e at r))

  emplace_node-Emplaces :
      (ys : Cells A) (c : ℕ × A) (zs : Cells A)
      → Repr l (ys ++ c ∷ zs)
      → Emplaces (emplace_node (some c.0) v l) (emplaced ys (l.fresh, v) c zs)
  emplace_node-Emplaces [] c zs r =
      let (l', run, r', _, _, _, _) = push_front-cons v l (c ∷ zs) r in
      (l', emplace_at_head c.0 r.head_eq ∙ run, r')
  emplace_node-Emplaces (y ∷ ys) c [] r =
      let (l', run, r', _, _, _, _) = push_back-append v l (y ∷ ys ++ c ∷ []) r in
      (
        l',
        emplace_at_tail y.0 c.0 ((not-has_middle y.0 ys c [] r.distinct.0).1) r.head_eq
              (r.tail_eq ∙ last-append none (y ∷ ys) (c ∷ []))
            ∙ run,
        r',
      )
  emplace_node-Emplaces (y ∷ ys) c (z ∷ zs) r = elim (snoc_cases (y ∷ ys)) [
    | inl e ↦ absurd (cc)
    | inr (xs, d, e) ↦
        let (l', run, r') = emplace_before (y ∷ ys) xs d c (z ∷ zs) e r in
        (
          l',
          emplace_middle_eq y.0 c.0 _ r.head_eq (not-has_middle y.0 ys c (z ∷ zs) r.distinct.0).1
                (r.tail_eq ∙ last-append none (y ∷ ys) (c ∷ z ∷ zs))
                (last_ne c.0 none z zs (Distinct-middle (y ∷ ys) c (z ∷ zs) r.distinct).1)
              ∙ run,
          r',
        )
  ]

  -- `emplace` at a cell of a list in order adds one cell, at an unused address, and returns its
  -- address. It stands before the cell, but behind it if that is the last one of several.
  pub emplace-emplaced :
      (ys : Cells A) (c : ℕ × A) (zs : Cells A)
      → Repr l (ys ++ c ∷ zs)
      → (l' : RcuList A) × (emplace (some c.0) v l ≡ some (some l.fresh, l'))
        × Repr l' (emplaced ys (l.fresh, v) c zs)
  unfolding emplace
  emplace-emplaced ys c zs r =
      let (l', run, r') = emplace_node-Emplaces ys c zs r in (l', rw run, r')
