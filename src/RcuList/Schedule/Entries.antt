-- ===== src/RcuList/Schedule/Entries.antt =====
-- Where an active guard stands in the zombie list, and what its thread may hold a pointer to.
use cs_signal.Prelude.{
  ℕ, ◌≡◌, refl, sym, ap, true, false, ◌||◌, Option, none, some, List, [], ◌∷◌, ◌++◌, ◌==◌, arith,
  subst, ◌⊎◌, inl, inr, Bool_cases, if◌then◌else◌,
}
use cs_signal.RcuList.{Ptr, Node, RcuList, ZombieListNode}
use cs_signal.RcuList.Chain.{
  Cells, has, has-append, first, last, live_node, Chain, Chain-split, Repr,
}
use cs_signal.RcuList.Guard.{no_owner, release}
use cs_signal.RcuList.Guard.Zombies.{mem, also, LeadsTo, AreDead, IsDead, mem-append, also-append}
use cs_signal.RcuList.Bound.{has_split}

module _ {ℓ} {A : Type ℓ} where
  LeadsTo-follows :
      (xs xs' : Cells A) (extra newer : List ℕ) (p : Ptr)
      → ((q : ℕ) → has q xs ≡ true → (has q xs' || mem q extra) ≡ true)
      → LeadsTo xs newer p
      → LeadsTo xs' (newer ++ extra) p
  LeadsTo-follows xs xs' extra newer none follows h = tt
  LeadsTo-follows xs xs' extra newer (some q) follows h =
      ground (arith, mem-append q newer extra, follows q)

  LeadsTo-more : (xs : Cells A) (newer : List ℕ) (p : Ptr) → LeadsTo xs [] p → LeadsTo xs newer p
  LeadsTo-more xs newer none h = tt
  LeadsTo-more xs newer (some q) h = ground arith

  LeadsTo-wider :
      (xs : Cells A) (newer : List ℕ) (p : ℕ) (q : Ptr)
      → LeadsTo xs newer q
      → LeadsTo xs (p ∷ newer) q
  LeadsTo-wider xs newer p none h = tt
  LeadsTo-wider xs newer p (some q) h = ground arith

  next-LeadsTo :
      (ys : Cells A) (c : ℕ × A) (zs : Cells A) → LeadsTo (ys ++ c ∷ zs) [] (first zs none)
  next-LeadsTo ys c [] = tt
  next-LeadsTo ys c (z ∷ zs) = ground (arith, has-append z.0 ys (c ∷ z ∷ zs))

  -- The entry of the guard `g` at the address `z` is in the zombie list, and `p` points into the
  -- list or to a node that died after the guard came.
  pub data Guards (xs : Cells A) (g z : ℕ) (p : Ptr) : List ℕ → List ZombieListNode → Type ℓ where
    here :
        {newer : List ℕ} {e : ZombieListNode} {es : List ZombieListNode}
        → e.addr ≡ z
        → e.owner ≡ some g
        → LeadsTo xs newer p
        → Guards xs g z p newer (e ∷ es)
    there :
        {newer : List ℕ} {e : ZombieListNode} {es : List ZombieListNode}
        → Guards xs g z p (also e.zombie_node newer) es
        → Guards xs g z p newer (e ∷ es)

  module _ {xs : Cells A} {g z : ℕ} {p : Ptr} where
    pub Guards-owner :
        {newer : List ℕ} {zs : List ZombieListNode} → Guards xs g z p newer zs → no_owner zs ≡ false
    Guards-owner (here a o h) = ground arith
    Guards-owner (there k) = ground (arith, Guards-owner k)

    pub Guards-split :
        {newer : List ℕ} {zs : List ZombieListNode}
        → Guards xs g z p newer zs
        → (ws : List ZombieListNode) × (e : ZombieListNode) × (es : List ZombieListNode) × (zs
            ≡ ws ++ e ∷ es)
          × (e.addr ≡ z)
    Guards-split (here {e} {es} a o h) = ([], e, es, refl, a)
    Guards-split (there {e = x} k) =
        let (ws, e, es, same, a) = Guards-split k in (x ∷ ws, e, es, ap (◌∷◌ x) same, a)

    pub Guards-unlock :
        {newer : List ℕ} (ws : List ZombieListNode) (e : ZombieListNode) (es : List ZombieListNode)
        → (e.addr == z) ≡ false
        → Guards xs g z p newer (ws ++ e ∷ es)
        → Guards xs g z p newer (ws ++ release e ∷ (if no_owner es then [] else es))
    Guards-unlock [] e es ne (here a o h) = absurd (ground arith)
    Guards-unlock [] e es ne (there k) = there (rw (Guards-owner k) k)
    Guards-unlock (w ∷ ws) e es ne (here a o h) = here a o h
    Guards-unlock (w ∷ ws) e es ne (there k) = there (Guards-unlock ws e es ne k)

    pub Guards-Spares :
        (xs' : Cells A) (extra newer : List ℕ) (zs : List ZombieListNode)
        → ((q : ℕ) → has q xs ≡ true → (has q xs' || mem q extra) ≡ true)
        → Guards xs g z p newer zs
        → Guards xs' g z p (newer ++ extra) zs
    Guards-Spares xs' extra newer [] follows k = elim k [ ]
    Guards-Spares xs' extra newer (e ∷ es) follows (here a o h) =
        here a o (LeadsTo-follows xs xs' extra newer p follows h)
    Guards-Spares xs' extra newer (e ∷ es) follows (there k) = there (
        subst (λ n. Guards xs' g z p n es) (sym (also-append e.zombie_node newer extra))
          (Guards-Spares xs' extra (also e.zombie_node newer) es follows k))

  module _ {xs : Cells A} {g z : ℕ} where
    -- A pointer into the list may be held under any guard.
    pub Guards-live :
        {p q : Ptr} {newer : List ℕ} {zs : List ZombieListNode}
        → LeadsTo xs [] q
        → Guards xs g z p newer zs
        → Guards xs g z q newer zs
    Guards-live {q} {newer} h (here a o k) = here a o (LeadsTo-more xs newer q h)
    Guards-live h (there k) = there (Guards-live h k)

  abbrev pub NewerDead : (ℕ → Option (Node A)) → Cells A → List ℕ → Type ℓ
  NewerDead h xs newer =
      (q : ℕ)
      → mem q newer ≡ true
      → (n : Node A) × (h q ≡ some n) × (n.deleted ≡ true) × LeadsTo xs newer n.next

  -- What a guarded pointer leads to: a cell of the list, or a dead node, which is still allocated
  -- and whose successor the guard protects too.
  abbrev pub Target : (ℕ → Option (Node A)) → Cells A → ℕ → (Ptr → Type ℓ) → Type ℓ
  Target h xs p K =
      (has p xs ≡ true) ⊎ ((n : Node A) × (h p ≡ some n) × (n.deleted ≡ true) × K n.next)

  NewerDead-also :
      (f : ℕ) (h : ℕ → Option (Node A)) (xs : Cells A) (newer : List ℕ) (q : Ptr)
      → NewerDead h xs newer
      → IsDead f h xs newer q
      → NewerDead h xs (also q newer)
  NewerDead-also f h xs newer none all d q m = all q m
  NewerDead-also f h xs newer (some p) all d q m = elim (Bool_cases (q == p)) [
    | inl e ↦
        let same : q ≡ p = ground arith in
        rw same (d.0, d.1, d.2, LeadsTo-wider xs newer p d.0.next d.6)
    | inr e ↦
        let (n, load, dead, next) = all q (rw e at m) in
        (n, load, dead, LeadsTo-wider xs newer p n.next next)
  ]

  pub Guards-view :
      (f : ℕ) (h : ℕ → Option (Node A)) (xs : Cells A) (g z p : ℕ) (newer : List ℕ)
      (zs : List ZombieListNode)
      → NewerDead h xs newer
      → AreDead f h xs newer zs
      → Guards xs g z (some p) newer zs
      → Target h xs p (λ q. Guards xs g z q newer zs)
  Guards-view f h xs g z p newer [] all d k = elim k [ ]
  Guards-view f h xs g z p newer (e ∷ es) all d (here a o k) = elim (Bool_cases (has p xs)) [
    | inl live ↦ inl live
    | inr gone ↦
        let (n, load, dead, next) = all p (ground arith) in inr (n, load, dead, here a o next)
  ]
  Guards-view f h xs g z p newer (e ∷ es) all d (there k) =
      elim (Guards-view f h xs g z p (also e.zombie_node newer) es
        (NewerDead-also f h xs newer e.zombie_node all d.0) d.1 k) [
          | inl live ↦ inl live
          | inr (n, load, dead, next) ↦ inr (n, load, dead, there next)
        ]

  pub live-next :
      (l : RcuList A) (xs : Cells A) (p : ℕ)
      → Repr l xs
      → has p xs ≡ true
      → (n : Node A) × (l.nodes p ≡ some n) × LeadsTo xs [] n.next
  live-next l xs p r m =
      let (ys, c, zs, same, found) = has_split p xs m in
      let chain : Chain l.nodes none (ys ++ c ∷ zs) none =
        subst (λ ws. Chain l.nodes none ws none) same r.chain in
      let load = (Chain-split l.nodes none ys (c ∷ zs) none chain).1.0 in
      let n : Node A = live_node (first zs none) (last none ys) c.1 in
      (
        n,
        subst (λ q. l.nodes q ≡ some n) found load,
        subst (λ ws. LeadsTo ws [] (first zs none)) (sym same) (next-LeadsTo ys c zs),
      )
