-- ===== src/RcuList/Guard/Modify.antt =====
-- Sound lists under `push_back`, `push_front`, `erase` and the locks.
use cs_signal.Prelude.{
  ℕ, ◌+◌, ◌≤◌, ◌≡◌, refl, sym, subst, ◌∙◌, Bool, false, ◌||◌, Option, none, some, List, [], ◌∷◌,
  ◌++◌, ◌==◌, arith,
}
use cs_signal.RcuList.{RcuList, ZombieListNode, Node, push_back, push_front, erase}
use cs_signal.RcuList.Chain.{
  Cells, has, has-append, Repr, Repr-frame, SameOutside, first, Distinct-middle, Below-split,
  Below-mono,
}
use cs_signal.RcuList.Push.{push_back-append, push_front-cons}
use cs_signal.RcuList.Erase.{erase-cell, ErasedTo}
use cs_signal.RcuList.Guard.{rcu_read_lock}
use cs_signal.RcuList.Guard.Zombies.{mem, AreDead, Spares, AreDead-Spares, LeadsTo}
use cs_signal.RcuList.Guard.Sound.{IsSound, Falling}

Falling-mono : (f f' : ℕ) (zs : List ZombieListNode) → f ≤ f' → Falling f zs → Falling f' zs
Falling-mono f f' [] h d = tt
Falling-mono f f' (z ∷ zs) h d = (omega arith, d.1)

or-eq_false : (a b : Bool) → (a || b) ≡ false → (a ≡ false) × (b ≡ false)
or-eq_false a b h = ground arith

module _ {ℓ} {A : Type ℓ} where
  -- One more cell at an unused address spares the dead nodes.
  grown-Spares :
      (f : ℕ) (h h' : ℕ → Option (Node A)) (xs xs' : Cells A)
      → ((p : ℕ) → has p xs' ≡ ((p == f) || has p xs))
      → SameOutside xs' h h'
      → Spares f (f + 1) h h' xs xs' []
  grown-Spares f h h' xs xs' cells same = record {
    keeps = λ p off below.
        let off' : has p xs' ≡ false = rw (cells p, off) (ground arith) in
        (same p off', off', refl);
    follows = λ p on. rw (cells p, on) (ground arith);
    grows = omega arith;
  }

  module _ (v : A) (l : RcuList A) (xs : Cells A) (s : IsSound l xs) where
    -- What adding a cell leaves: a sound list of the cells `xs'`, with the zombie list as it was.
    abbrev pub Grows : Option (RcuList A) → Cells A → Type ℓ
    Grows r xs' =
        (l' : RcuList A) × (r ≡ some l')
        × IsSound l' xs'
        × (l'.zombies ≡ l.zombies)
        × (l'.fresh ≡ l.fresh + 1)
        × (l'.write_mutex ≡ l.write_mutex)

    grown-IsSound :
        (xs' : Cells A) (l' : RcuList A)
        → ((p : ℕ) → has p xs' ≡ ((p == l.fresh) || has p xs))
        → Repr l' xs'
        → SameOutside xs' l.nodes l'.nodes
        → l'.zombies ≡ l.zombies
        → l'.fresh ≡ l.fresh + 1
        → IsSound l' xs'
    grown-IsSound xs' l' cells repr same z f =
        let dead =
          AreDead-Spares (grown-Spares l.fresh l.nodes l'.nodes xs xs' cells same) [] l.zombies
            s.dead in
        record {
          repr = repr;
          dead = rw (z, f) dead;
          falling = rw (z, f) (Falling-mono l.fresh _ l.zombies (omega arith) s.falling);
        }

    -- `push_back` keeps the list sound, dead nodes and all.
    pub push_back-IsSound : Grows (push_back v l) (xs ++ (l.fresh, v) ∷ [])
    push_back-IsSound =
        let (l', run, r, same, z, f, m) = push_back-append v l xs s.repr in
        (
          l',
          run,
          grown-IsSound _ l' (λ p. ground (arith, has-append p xs ((l.fresh, v) ∷ []))) r same z f,
          z,
          f,
          m,
        )

    -- So does `push_front`.
    pub push_front-IsSound : Grows (push_front v l) ((l.fresh, v) ∷ xs)
    push_front-IsSound =
        let (l', run, r, same, z, f, m) = push_front-cons v l xs s.repr in
        (l', run, grown-IsSound _ l' (λ p. refl) r same z f, z, f, m)

  pub has_middle :
      (p : ℕ) (ys : Cells A) (c : ℕ × A) (zs : Cells A)
      → has p (ys ++ c ∷ zs) ≡ (has p (ys ++ zs) || mem p (c.0 ∷ []))
  has_middle p ys c zs = ground (arith, has-append p ys (c ∷ zs), has-append p ys zs)

  erased-Spares :
      (l l' : RcuList A) (ys : Cells A) (c : ℕ × A) (zs : Cells A)
      → ErasedTo l ys c zs l'
      → Spares l.fresh (l.fresh + 1) l.nodes l'.nodes (ys ++ c ∷ zs) (ys ++ zs) (c.0 ∷ [])
  erased-Spares l l' ys c zs e = record {
    keeps = λ p off below.
        let (absent, other) = or-eq_false _ _ (sym (has_middle p ys c zs) ∙ off) in
        (e.same p off, absent, other);
    follows = λ p on. sym (has_middle p ys c zs) ∙ on;
    grows = omega arith;
  }

  pub first-LeadsTo : (ys zs : Cells A) → LeadsTo (ys ++ zs) [] (first zs none)
  first-LeadsTo ys [] = tt
  first-LeadsTo ys (z ∷ zs) = ground (arith, has-append z.0 ys (z ∷ zs))

  erased-IsSound :
      (l l' : RcuList A) (ys : Cells A) (c : ℕ × A) (zs : Cells A)
      → ErasedTo l ys c zs l'
      → IsSound l (ys ++ c ∷ zs)
      → IsSound l' (ys ++ zs)
  erased-IsSound l l' ys c zs e s =
      let off = Distinct-middle ys c zs s.repr.distinct in
      let absent : has c.0 (ys ++ zs) ≡ false = rw (has-append, off.0) off.1 in
      let below = (Below-split l.fresh ys (c ∷ zs) s.repr.below).1.0 in
      let old = AreDead-Spares (erased-Spares l l' ys c zs e) [] l.zombies s.dead in
      record {
        repr = e.holds;
        dead = rw e.zombies_eq (
          (_, e.node_eq, refl, rw e.fresh_eq (omega arith), absent, refl, first-LeadsTo ys zs),
          subst (λ f. AreDead f l'.nodes (ys ++ zs) (c.0 ∷ []) l.zombies) (sym e.fresh_eq) old,
        );
        falling = rw (e.zombies_eq, e.fresh_eq) (omega arith, s.falling);
      }

  -- `erase` of a cell keeps the list sound: the node is now the newest of the dead.
  pub erase-IsSound :
      (l : RcuList A) (ys : Cells A) (c : ℕ × A) (zs : Cells A)
      → IsSound l (ys ++ c ∷ zs)
      → (l' : RcuList A) × (erase (some c.0) l ≡ some (first zs none, l'))
        × ErasedTo l ys c zs l'
        × IsSound l' (ys ++ zs)
  erase-IsSound l ys c zs s =
      let (l', run, e) = erase-cell l ys c zs s.repr in
      (l', run, e, erased-IsSound l l' ys c zs e s)

  locked-Spares :
      (l : RcuList A) (xs : Cells A) → Spares l.fresh (l.fresh + 1) l.nodes l.nodes xs xs []
  locked-Spares l xs = record {
    keeps = λ p off below. (refl, off, refl);
    follows = λ p on. rw on refl;
    grows = omega arith;
  }

  -- `rcu_read_lock` keeps the list sound.
  pub rcu_read_lock-IsSound :
      (g : ℕ) (l : RcuList A) (xs : Cells A) → IsSound l xs → IsSound (rcu_read_lock g l).1 xs
  unfolding rcu_read_lock
  rcu_read_lock-IsSound g l xs s = record {
    repr =
        Repr-frame l _ xs s.repr refl refl (λ a m. refl)
          (Below-mono _ _ xs (omega arith) s.repr.below);
    dead = (tt, AreDead-Spares (locked-Spares l xs) [] l.zombies s.dead);
    falling = (omega arith, s.falling);
  }

  -- The mutex plays no part in the order of the list.
  pub set_mutex-IsSound :
      (l : RcuList A) (xs : Cells A) (m : Option ℕ)
      → IsSound l xs
      → IsSound (record l { write_mutex = m }) xs
  set_mutex-IsSound l xs m s = record {
    repr = Repr-frame l _ xs s.repr refl refl (λ a h. refl) s.repr.below;
    dead = s.dead;
    falling = s.falling;
  }
