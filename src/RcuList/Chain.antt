-- ===== src/RcuList/Chain.antt =====
-- What a heap of nodes stands for: the chain of a list of cells, and the list that it represents.
use cs_signal.Prelude.{
  ℕ, suc, ap, length, ◌+◌, ◌<◌, ◌≡◌, refl, Bool, true, false, ◌∙◌, ◌||◌, Option, none, some, List,
  [], ◌∷◌, ◌++◌, map, arith, ◌==◌,
}
use cs_signal.RcuList.{Ptr, Node, RcuList, update}

-- The cells of a list, in order: address and value.
abbrev pub Cells {ℓ} : Type ℓ → Type ℓ
Cells A = List (ℕ × A)

module _ {ℓ} {A : Type ℓ} where
  abbrev pub values : Cells A → List A
  values = map λ c. c.1

  pub length-values : (xs : Cells A) → length (values xs) ≡ length xs
  length-values [] = refl
  length-values (c ∷ xs) = ap suc (length-values xs)

  abbrev pub has : ℕ → Cells A → Bool
  has a [] = false
  has a (c ∷ xs) = (a == c.0) || has a xs

  abbrev pub Distinct : Cells A → Type 0
  Distinct [] = Unit {0}
  Distinct (c ∷ xs) = (has c.0 xs ≡ false) × Distinct xs

  abbrev pub Below : ℕ → Cells A → Type 0
  Below n [] = Unit {0}
  Below n (c ∷ xs) = (c.0 < n) × Below n xs

  -- The pointer to the first cell, and the one to the last.
  abbrev pub first : Cells A → Ptr → Ptr
  first [] end = end
  first (c ∷ xs) end = some c.0

  abbrev pub last : Ptr → Cells A → Ptr
  last start [] = start
  last start (c ∷ xs) = last (some c.0) xs

  abbrev pub live_node : Ptr → Ptr → A → Node A
  live_node next back v = record { next = next; back = back; deleted = false; item = v }

  -- In `h` the cells are linked both ways, between the pointers `start` and `end`.
  abbrev pub Chain : (ℕ → Option (Node A)) → Ptr → Cells A → Ptr → Type ℓ
  Chain h start [] end = Unit
  Chain h start (c ∷ xs) end =
      (h c.0 ≡ some (live_node (first xs end) start c.1)) × Chain h (some c.0) xs end

  -- The nodes of `g` outside `xs` are those of `h`.
  abbrev pub SameOutside : Cells A → (h g : ℕ → Option (Node A)) → Type ℓ
  SameOutside xs h g = (a : ℕ) → has a xs ≡ false → g a ≡ h a

  -- The list holds the cells `xs`.
  pub record Repr (l : RcuList A) (xs : Cells A) : Type ℓ where
    pub head_eq : l.head ≡ first xs none
    pub tail_eq : l.tail ≡ last none xs
    pub chain : Chain l.nodes none xs none
    pub distinct : Distinct xs
    pub below : Below l.fresh xs

  pub has-append : (a : ℕ) (xs ys : Cells A) → has a (xs ++ ys) ≡ (has a xs || has a ys)
  has-append a [] ys = refl
  has-append a (c ∷ xs) ys = ground (arith, has-append a xs ys)

  pub first-append : (xs ys : Cells A) (end : Ptr) → first (xs ++ ys) end ≡ first xs (first ys end)
  first-append [] ys end = refl
  first-append (c ∷ xs) ys end = refl

  pub first-snoc :
      (xs : Cells A) (c : ℕ × A) (ys : Cells A) (end end' : Ptr)
      → first ((xs ++ c ∷ []) ++ ys) end ≡ first (xs ++ c ∷ []) end'
  first-snoc [] c ys end end' = refl
  first-snoc (x ∷ xs) c ys end end' = refl

  pub first_middle :
      (xs : Cells A) (c : ℕ × A) (ys zs : Cells A) (end end' : Ptr)
      → first (xs ++ c ∷ ys) end ≡ first (xs ++ c ∷ zs) end'
  first_middle [] c ys zs end end' = refl
  first_middle (x ∷ xs) c ys zs end end' = refl

  pub last-append :
      (start : Ptr) (xs ys : Cells A) → last start (xs ++ ys) ≡ last (last start xs) ys
  last-append start [] ys = refl
  last-append start (c ∷ xs) ys = last-append (some c.0) xs ys

  pub Chain-append :
      (h : ℕ → Option (Node A)) (start : Ptr) (xs ys : Cells A) (end : Ptr)
      → Chain h start xs (first ys end)
      → Chain h (last start xs) ys end
      → Chain h start (xs ++ ys) end
  Chain-append h start [] ys end p q = q
  Chain-append h start (c ∷ xs) ys end p q =
      (rw (first-append xs ys end) p.0, Chain-append h (some c.0) xs ys end p.1 q)

  pub Chain-split :
      (h : ℕ → Option (Node A)) (start : Ptr) (xs ys : Cells A) (end : Ptr)
      → Chain h start (xs ++ ys) end
      → Chain h start xs (first ys end) × Chain h (last start xs) ys end
  Chain-split h start [] ys end p = (tt, p)
  Chain-split h start (c ∷ xs) ys end p =
      let (q, r) = Chain-split h (some c.0) xs ys end p.1 in
      ((rw (first-append xs ys end) at p.0, q), r)

  pub update_same : (h : ℕ → Option (Node A)) (a : ℕ) (n : Option (Node A)) → update h a n a ≡ n
  unfolding update
  update_same h a n = ground arith

  pub update_other :
      (h : ℕ → Option (Node A)) (a : ℕ) (n : Option (Node A)) (b : ℕ)
      → (b == a) ≡ false
      → update h a n b ≡ h b
  unfolding update
  update_other h a n b e = rw e

  -- A chain survives a write away from its cells.
  pub Chain-update :
      (h : ℕ → Option (Node A)) (a : ℕ) (n : Option (Node A)) (start : Ptr) (xs : Cells A)
      (end : Ptr)
      → has a xs ≡ false
      → Chain h start xs end
      → Chain (update h a n) start xs end
  unfolding update
  Chain-update h a n start [] end off p = p
  Chain-update h a n start (c ∷ xs) end off p =
      (ground arith, Chain-update h a n (some c.0) xs end (ground arith) p.1)

  pub Chain-frame :
      (h g : ℕ → Option (Node A)) (start : Ptr) (xs : Cells A) (end : Ptr)
      → ((a : ℕ) → has a xs ≡ true → g a ≡ h a)
      → Chain h start xs end
      → Chain g start xs end
  Chain-frame h g start [] end same p = p
  Chain-frame h g start (c ∷ xs) end same p = (
    same c.0 (ground arith) ∙ p.0,
    Chain-frame h g (some c.0) xs end (λ a m. same a (ground arith)) p.1,
  )

  pub Distinct-middle :
      (xs : Cells A) (c : ℕ × A) (ys : Cells A)
      → Distinct (xs ++ c ∷ ys)
      → (has c.0 xs ≡ false) × (has c.0 ys ≡ false) × Distinct (xs ++ ys)
  Distinct-middle [] c ys d = (refl, d.0, d.1)
  Distinct-middle (x ∷ xs) c ys d =
      ground (arith, Distinct-middle xs c ys d.1, has-append x.0 xs (c ∷ ys), has-append x.0 xs ys)

  pub Distinct-insert :
      (xs : Cells A) (c : ℕ × A) (ys : Cells A)
      → Distinct (xs ++ ys)
      → has c.0 xs ≡ false
      → has c.0 ys ≡ false
      → Distinct (xs ++ c ∷ ys)
  Distinct-insert [] c ys d p q = (q, d)
  Distinct-insert (x ∷ xs) c ys d p q =
      ground (arith, Distinct-insert xs c ys d.1, has-append x.0 xs (c ∷ ys), has-append x.0 xs ys)

  pub Below-not-has : (n : ℕ) (xs : Cells A) → Below n xs → has n xs ≡ false
  Below-not-has n [] b = refl
  Below-not-has n (c ∷ xs) b = ground (arith, Below-not-has n xs b.1)

  pub Below-append : (n : ℕ) (xs ys : Cells A) → Below n xs → Below n ys → Below n (xs ++ ys)
  Below-append n [] ys p q = q
  Below-append n (c ∷ xs) ys p q = (p.0, Below-append n xs ys p.1 q)

  pub Below-split : (n : ℕ) (xs ys : Cells A) → Below n (xs ++ ys) → Below n xs × Below n ys
  Below-split n [] ys p = (tt, p)
  Below-split n (c ∷ xs) ys p = let (q, r) = Below-split n xs ys p.1 in ((p.0, q), r)

  pub Below-mono : (m n : ℕ) (xs : Cells A) → m < n → Below m xs → Below n xs
  Below-mono m n [] h b = tt
  Below-mono m n (c ∷ xs) h b = (omega arith, Below-mono m n xs h b.1)

  pub Below-middle :
      (n : ℕ) (xs : Cells A) (c : ℕ × A) (ys : Cells A)
      → Below n (xs ++ c ∷ ys)
      → Below n (xs ++ ys)
  Below-middle n [] c ys b = b.1
  Below-middle n (x ∷ xs) c ys b = (b.0, Below-middle n xs c ys b.1)

  pub not-has_middle :
      (a : ℕ) (xs : Cells A) (c : ℕ × A) (ys : Cells A)
      → has a (xs ++ c ∷ ys) ≡ false
      → (has a xs ≡ false) × ((a == c.0) ≡ false) × (has a ys ≡ false)
  not-has_middle a xs c ys h = ground (arith, has-append a xs (c ∷ ys))

  pub Below-insert :
      (n : ℕ) (xs : Cells A) (c : ℕ × A) (ys : Cells A)
      → c.0 < n + 1
      → Below n (xs ++ ys)
      → Below (n + 1) (xs ++ c ∷ ys)
  Below-insert n [] c ys h b = (h, Below-mono n (n + 1) ys (omega arith) b)
  Below-insert n (x ∷ xs) c ys h b = (omega arith, Below-insert n xs c ys h b.1)

  -- A list whose ends and cells are as they were still represents them.
  pub Repr-frame :
      (l l' : RcuList A) (xs : Cells A)
      → Repr l xs
      → l'.head ≡ l.head
      → l'.tail ≡ l.tail
      → ((a : ℕ) → has a xs ≡ true → l'.nodes a ≡ l.nodes a)
      → Below l'.fresh xs
      → Repr l' xs
  Repr-frame l l' xs r head tail same below = record {
    head_eq = head ∙ r.head_eq;
    tail_eq = tail ∙ r.tail_eq;
    chain = Chain-frame l.nodes l'.nodes none xs none same r.chain;
    distinct = r.distinct;
    below = below;
  }
