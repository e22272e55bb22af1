-- ===== src/RcuList/Push.antt =====
-- `push_back` and `push_front` of cs_rcu_list.h.
use cs_signal.Prelude.{
  ℕ, ◌+◌, ◌≡◌, refl, sym, inl, inr, false, Option, none, some, [], ◌∷◌, ◌++◌, arith, snoc_cases,
  append-nil, ◌∙◌, ◌==◌,
}
use cs_signal.RcuList.{Node, RcuList, update, new_node, allocate, set_ends, push_back, push_front}
use cs_signal.RcuList.Chain.{
  Cells, has, SameOutside, live_node, Repr, not-has_middle, has-append, first-snoc, last-append,
  Chain-append, Chain-split, Chain-update, Distinct-middle, Distinct-insert, Below-not-has,
  Below-append, Below-mono, update_same, update_other,
}

update_thrice {ℓ} :
    {A : Type ℓ} (h : ℕ → Option (Node A)) (f t a : ℕ) (k m n : Option (Node A))
    → (a == f) ≡ false
    → (a == t) ≡ false
    → update (update (update h f k) f m) t n a ≡ h a
update_thrice h f t a k m n e e' =
    update_other _ _ _ _ e' ∙ update_other _ _ _ _ e ∙ update_other _ _ _ _ e

module _ {ℓ} {A : Type ℓ} (v : A) (l : RcuList A) where
  push_back_run :
      (t : ℕ) (n : Node A)
      → (t == l.fresh) ≡ false
      → l.tail ≡ some t
      → l.nodes t ≡ some n
      → push_back v l
        ≡ some (record {
          head = l.head;
          tail = some l.fresh;
          nodes =
              update
                (update
                  (update l.nodes l.fresh (some (new_node v)))
                  l.fresh
                  (some (live_node none (some t) v)))
                t
                (some (record n { next = some l.fresh }));
          zombies = l.zombies;
          write_mutex = l.write_mutex;
          fresh = l.fresh + 1;
        })
  unfolding push_back
  push_back_run t n ne e hn =
      rw (e, push_back, update_same, update_other _ _ _ _ ne, update_other _ _ _ _ ne, hn)

  abbrev pub Pushes : Option (RcuList A) → Cells A → Type ℓ
  Pushes r xs =
      (l' : RcuList A) × (r ≡ some l')
      × Repr l' xs
      × SameOutside xs l.nodes l'.nodes
      × (l'.zombies ≡ l.zombies)
      × (l'.fresh ≡ l.fresh + 1)
      × (l'.write_mutex ≡ l.write_mutex)

  push_back-snoc :
      (ys : Cells A) (t : ℕ × A)
      → Repr l (ys ++ t ∷ [])
      → Pushes (push_back v l) ((ys ++ t ∷ []) ++ (l.fresh, v) ∷ [])
  push_back-snoc ys t r =
      let (front, back) = Chain-split l.nodes none ys (t ∷ []) none r.chain in
      let off = (Distinct-middle ys t [] r.distinct).0 in
      let unused : has l.fresh (ys ++ t ∷ []) ≡ false =
        Below-not-has l.fresh (ys ++ t ∷ []) r.below in
      let unused' : has l.fresh ys ≡ false = ground (arith, has-append l.fresh ys (t ∷ [])) in
      let ne : (t.0 == l.fresh) ≡ false = ground (arith, has-append l.fresh ys (t ∷ [])) in
      let ne' : (l.fresh == t.0) ≡ false = ground (arith, has-append l.fresh ys (t ∷ [])) in
      (
        _,
        push_back_run t.0 _ ne (r.tail_eq ∙ last-append none ys (t ∷ [])) back.0,
        record {
          head_eq = r.head_eq ∙ sym (first-snoc ys t _ none none);
          tail_eq = sym (last-append none (ys ++ t ∷ []) ((l.fresh, v) ∷ []));
          chain =
              Chain-append _ none (ys ++ t ∷ []) ((l.fresh, v) ∷ []) none
                (Chain-append _ none ys (t ∷ []) (some l.fresh)
                  (Chain-update _ _ _ none ys _ off (
                    Chain-update _ _ _ none ys _ unused'
                      (Chain-update _ _ _ none ys _ unused' front)))
                  (update_same _ _ _, tt))
                (
                  rw (last-append none ys (t ∷ [])) (update_other _ _ _ _ ne' ∙ update_same _ _ _),
                  tt,
                );
          distinct =
              Distinct-insert (ys ++ t ∷ []) (l.fresh, v) [] (rw append-nil r.distinct) unused refl;
          below =
              Below-append _ (ys ++ t ∷ []) _ (Below-mono _ _ _ (omega arith) r.below)
                (omega arith);
        },
        λ a h.
            let off_f = not-has_middle a (ys ++ t ∷ []) (l.fresh, v) [] h in
            update_thrice _ _ _ a _ _ _ off_f.1 (not-has_middle a ys t [] off_f.0).1,
        refl,
        refl,
        refl,
      )

  push_back-nil : Repr l [] → Pushes (push_back v l) ((l.fresh, v) ∷ [])
  unfolding push_back
  push_back-nil r = (
    set_ends (some l.fresh) (some l.fresh) (allocate v l),
    rw (r.tail_eq, push_back),
    record {
      head_eq = refl;
      tail_eq = refl;
      chain = (update_same _ _ _, tt);
      distinct = (refl, tt);
      below = omega arith;
    },
    λ a h. update_other _ _ _ a (ground arith),
    refl,
    refl,
    refl,
  )

  -- `push_back` on a list in order adds one cell, at an unused address, behind the others. No node
  -- outside the list changes, nor do the zombie list and the mutex.
  pub push_back-append :
      (xs : Cells A) → Repr l xs → Pushes (push_back v l) (xs ++ (l.fresh, v) ∷ [])
  push_back-append xs r = elim (snoc_cases xs) [
    | inl e ↦ rw e (push_back-nil (rw e at r))
    | inr (ys, t, e) ↦ rw e (push_back-snoc ys t (rw e at r))
  ]

  push_front_run :
      (h : ℕ) (n : Node A)
      → (h == l.fresh) ≡ false
      → l.head ≡ some h
      → l.nodes h ≡ some n
      → push_front v l
        ≡ some (record {
          head = some l.fresh;
          tail = l.tail;
          nodes =
              update
                (update
                  (update l.nodes l.fresh (some (new_node v)))
                  l.fresh
                  (some (live_node (some h) none v)))
                h
                (some (record n { back = some l.fresh }));
          zombies = l.zombies;
          write_mutex = l.write_mutex;
          fresh = l.fresh + 1;
        })
  unfolding push_front
  push_front_run h n ne e hn =
      rw (e, push_front, update_same, update_other _ _ _ _ ne, update_other _ _ _ _ ne, hn)

  -- `push_front` on a list in order adds one cell, at an unused address, before the others. No node
  -- outside the list changes, nor do the zombie list and the mutex.
  pub push_front-cons : (xs : Cells A) → Repr l xs → Pushes (push_front v l) ((l.fresh, v) ∷ xs)
  unfolding push_front
  push_front-cons [] r = (
    set_ends (some l.fresh) (some l.fresh) (allocate v l),
    rw (r.head_eq, push_front),
    record {
      head_eq = refl;
      tail_eq = refl;
      chain = (update_same _ _ _, tt);
      distinct = (refl, tt);
      below = omega arith;
    },
    λ a h. update_other _ _ _ a (ground arith),
    refl,
    refl,
    refl,
  )
  push_front-cons (c ∷ xs) r =
      let unused = Below-not-has l.fresh (c ∷ xs) r.below in
      let unused' : has l.fresh xs ≡ false = ground arith in
      let ne : (c.0 == l.fresh) ≡ false = ground arith in
      let ne' : (l.fresh == c.0) ≡ false = ground arith in
      (
        _,
        push_front_run c.0 _ ne r.head_eq r.chain.0,
        record {
          head_eq = refl;
          tail_eq = r.tail_eq;
          chain = (
            update_other _ _ _ _ ne' ∙ update_same _ _ _,
            (
              update_same _ _ _,
              Chain-update _ _ _ _ xs _ r.distinct.0
                  (Chain-update _ _ _ _ xs _ unused' (Chain-update _ _ _ _ xs _ unused' r.chain.1)),
            ),
          );
          distinct = (unused, r.distinct);
          below = (omega arith, Below-mono _ _ (c ∷ xs) (omega arith) r.below);
        },
        λ a h. update_thrice _ _ _ a _ _ _ (ground arith) (ground arith),
        refl,
        refl,
        refl,
      )
