-- ===== src/RcuList/Guard/Zombies.antt =====
-- The nodes that wait in the zombie list: each is allocated and marked, stands in no cell, and its
-- successor is in the list or was erased later.
use cs_signal.Prelude.{
  ℕ, ◌<◌, ◌≡◌, refl, Bool, true, false, ◌||◌, Option, none, some, List, [], ◌∷◌, ◌++◌, ◌==◌, arith,
  ◌∙◌, ◌≤◌, ◌>>=◌, Bool_cases, inl, inr,
}
use cs_signal.RcuList.{Ptr, Node, RcuList, ZombieListNode, update}
use cs_signal.RcuList.Chain.{Cells, has, update_other, update_same}
use cs_signal.RcuList.Guard.{free_node, reclaim}

abbrev pub mem : ℕ → List ℕ → Bool
mem a [] = false
mem a (x ∷ xs) = (a == x) || mem a xs

abbrev pub also : Ptr → List ℕ → List ℕ
also none xs = xs
also (some p) xs = p ∷ xs

-- The nodes that the entries will free.
abbrev pub dead_nodes : List ZombieListNode → List ℕ
dead_nodes [] = []
dead_nodes (e ∷ es) = also e.zombie_node (dead_nodes es)

pub mem-append : (a : ℕ) (xs ys : List ℕ) → mem a (xs ++ ys) ≡ (mem a xs || mem a ys)
mem-append a [] ys = refl
mem-append a (x ∷ xs) ys = ground (arith, mem-append a xs ys)

pub also-append : (p : Ptr) (xs ys : List ℕ) → also p (xs ++ ys) ≡ also p xs ++ ys
also-append none xs ys = refl
also-append (some p) xs ys = refl

mem_ne : (q p : ℕ) (xs : List ℕ) → mem q xs ≡ false → mem p xs ≡ true → (q == p) ≡ false
mem_ne q p [] m m' = absurd (cc)
mem_ne q p (x ∷ xs) m m' = ground (arith, mem_ne q p xs)

mem-also : (p : ℕ) (xs : List ℕ) (q : Ptr) → mem p xs ≡ true → mem p (also q xs) ≡ true
mem-also p xs none m = m
mem-also p xs (some q) m = ground arith

module _ {ℓ} {A : Type ℓ} where
  -- Where a pointer of a dead node may lead: into the list, or to a node that died later.
  abbrev pub LeadsTo : Cells A → List ℕ → Ptr → Type 0
  LeadsTo xs newer none = Unit {0}
  LeadsTo xs newer (some q) = (has q xs || mem q newer) ≡ true

  abbrev pub IsDead : ℕ → (ℕ → Option (Node A)) → Cells A → List ℕ → Ptr → Type ℓ
  IsDead f h xs newer none = Unit
  IsDead f h xs newer (some p) =
      (n : Node A) × (h p ≡ some n)
      × (n.deleted ≡ true)
      × (p < f)
      × (has p xs ≡ false)
      × (mem p newer ≡ false)
      × LeadsTo xs newer n.next

  -- The entries, newest first; `newer` are the nodes that died after them.
  abbrev pub AreDead : ℕ → (ℕ → Option (Node A)) → Cells A → List ℕ → List ZombieListNode → Type ℓ
  AreDead f h xs newer [] = Unit
  AreDead f h xs newer (e ∷ es) =
      IsDead f h xs newer e.zombie_node × AreDead f h xs (also e.zombie_node newer) es

  -- What a change of the list must respect, for the dead nodes to stay as they are: `extra` are the
  -- cells that died in it.
  pub record Spares (f f' : ℕ) (h h' : ℕ → Option (Node A)) (xs xs' : Cells A) (extra : List ℕ)
      : Type ℓ where
    pub keeps :
        (p : ℕ)
        → has p xs ≡ false
        → p < f
        → (h' p ≡ h p) × (has p xs' ≡ false) × (mem p extra ≡ false)
    pub follows : (p : ℕ) → has p xs ≡ true → (has p xs' || mem p extra) ≡ true
    pub grows : f ≤ f'

  module _ {f f' : ℕ} {h h' : ℕ → Option (Node A)} {xs xs' : Cells A} {extra : List ℕ}
      (s : Spares f f' h h' xs xs' extra) where
    LeadsTo-Spares :
        (newer : List ℕ) (q : Ptr) → LeadsTo xs newer q → LeadsTo xs' (newer ++ extra) q
    LeadsTo-Spares newer none d = tt
    LeadsTo-Spares newer (some q) d = ground (arith, mem-append q newer extra, s.follows q)

    IsDead-Spares :
        (newer : List ℕ) (p : Ptr) → IsDead f h xs newer p → IsDead f' h' xs' (newer ++ extra) p
    IsDead-Spares newer none d = tt
    IsDead-Spares newer (some p) (n, e, dead, below, off, fresh, leads) =
        let k = s.keeps p off below in
        let grows = s.grows in
        (
          n,
          k.0 ∙ e,
          dead,
          omega arith,
          k.1,
          rw (mem-append, fresh) k.2,
          LeadsTo-Spares newer n.next leads,
        )

    -- A change that spares the dead nodes keeps them dead; those that die in it are newer.
    pub AreDead-Spares :
        (newer : List ℕ) (zs : List ZombieListNode)
        → AreDead f h xs newer zs
        → AreDead f' h' xs' (newer ++ extra) zs
    AreDead-Spares newer [] d = tt
    AreDead-Spares newer (e ∷ es) d = (
      IsDead-Spares newer e.zombie_node d.0,
      rw (also-append e.zombie_node newer extra) (AreDead-Spares (also e.zombie_node newer) es d.1),
    )

  IsDead-free :
      (f : ℕ) (h : ℕ → Option (Node A)) (xs : Cells A) (p : ℕ) (newer : List ℕ) (q : Ptr)
      → mem p newer ≡ true
      → IsDead f h xs newer q
      → IsDead f (update h p none) xs newer q
  IsDead-free f h xs p newer none m d = tt
  IsDead-free f h xs p newer (some q) m (n, e, dead, below, off, fresh, leads) =
      (n, update_other _ _ _ _ (mem_ne q p newer fresh m) ∙ e, dead, below, off, fresh, leads)

  -- Freeing a node that died later leaves these as they are.
  pub AreDead-free :
      (f : ℕ) (h : ℕ → Option (Node A)) (xs : Cells A) (p : ℕ) (newer : List ℕ)
      (zs : List ZombieListNode)
      → mem p newer ≡ true
      → AreDead f h xs newer zs
      → AreDead f (update h p none) xs newer zs
  AreDead-free f h xs p newer [] m d = tt
  AreDead-free f h xs p newer (e ∷ es) m d = (
    IsDead-free f h xs p newer e.zombie_node m d.0,
    AreDead-free f h xs p (also e.zombie_node newer) es (mem-also p newer e.zombie_node m) d.1,
  )

  -- What the second loop of `unlock` does: it frees the nodes of the entries, and nothing else.
  pub record Reclaimed (l : RcuList A) (dead : List ℕ) (l' : RcuList A) : Type ℓ where
    pub rest : l' ≡ record l { nodes = l'.nodes }
    pub freed : (a : ℕ) → mem a dead ≡ true → l'.nodes a ≡ none
    pub spared : (a : ℕ) → mem a dead ≡ false → l'.nodes a ≡ l.nodes a

  abbrev Reclaims : RcuList A → List ℕ → Option (RcuList A) → Type ℓ
  Reclaims l dead r = (l' : RcuList A) × (r ≡ some l') × Reclaimed l dead l'

  freed_step :
      (p a : ℕ) (dead : List ℕ) (l l' : RcuList A)
      → Reclaimed (record l { nodes = update l.nodes p none }) dead l'
      → mem a (p ∷ dead) ≡ true
      → l'.nodes a ≡ none
  freed_step p a dead l l' r m = elim (Bool_cases (mem a dead)) [
    | inl e ↦ r.freed a e
    | inr e ↦ let same : a ≡ p = ground arith in r.spared a e ∙ rw same (update_same l.nodes p none)
  ]

  reclaim_step :
      (l : RcuList A) (xs : Cells A) (newer : List ℕ) (p : Ptr) (es : List ZombieListNode)
      → IsDead l.fresh l.nodes xs newer p
      → AreDead l.fresh l.nodes xs (also p newer) es
      → ((l₁ : RcuList A)
          → AreDead l₁.fresh l₁.nodes xs (also p newer) es
          → Reclaims l₁ (dead_nodes es) (reclaim es l₁))
      → Reclaims l (also p (dead_nodes es)) (free_node p l >>= reclaim es)
  reclaim_step l xs newer none es d ds ih = ih l ds
  reclaim_step l xs newer (some p) es d ds ih =
      let l₁ = record l { nodes = update l.nodes p none } in
      let self : mem p (p ∷ newer) ≡ true = ground arith in
      let (l', run, r) = ih l₁ (AreDead-free l.fresh l.nodes xs p (p ∷ newer) es self ds) in
      (
        l',
        rw d.1 run,
        record {
          rest = r.rest;
          freed = λ a m. freed_step p a (dead_nodes es) l l' r m;
          spared = λ a m. r.spared a (ground arith) ∙ update_other _ _ _ _ (ground arith);
        },
      )

  pub reclaim-Reclaimed :
      (l : RcuList A) (xs : Cells A) (newer : List ℕ) (es : List ZombieListNode)
      → AreDead l.fresh l.nodes xs newer es
      → Reclaims l (dead_nodes es) (reclaim es l)
  unfolding reclaim
  reclaim-Reclaimed l xs newer [] d =
      (l, refl, record { rest = refl; freed = λ a m. absurd (cc); spared = λ a m. refl })
  reclaim-Reclaimed l xs newer (e ∷ es) d =
      reclaim_step l xs newer e.zombie_node es d.0 d.1
        λ l₁ d'. reclaim-Reclaimed l₁ xs (also e.zombie_node newer) es d'

  -- A node that died later, or stands in the list, is none of these.
  pub newer-not-dead :
      (f : ℕ) (h : ℕ → Option (Node A)) (xs : Cells A) (p : ℕ) (newer : List ℕ)
      (zs : List ZombieListNode)
      → (mem p newer || has p xs) ≡ true
      → AreDead f h xs newer zs
      → mem p (dead_nodes zs) ≡ false
  newer-not-dead f h xs p newer [] m d = refl
  newer-not-dead f h xs p newer (e ∷ es) m d = newer_step e.zombie_node d.0 (
      newer-not-dead f h xs p (also e.zombie_node newer) es
        (ground (arith, mem-also p newer e.zombie_node)) d.1)
    where
      newer_step :
          (q : Ptr)
          → IsDead f h xs newer q
          → mem p (dead_nodes es) ≡ false
          → mem p (also q (dead_nodes es)) ≡ false
      newer_step none d k = k
      newer_step (some q) d k = let off = d.4 in let fresh = d.5 in ground arith

  pub AreDead-suffix :
      (f : ℕ) (h : ℕ → Option (Node A)) (xs : Cells A) (newer : List ℕ)
      (zs ws : List ZombieListNode)
      → AreDead f h xs newer (zs ++ ws)
      → (newer' : List ℕ) × AreDead f h xs newer' ws
        × ((a : ℕ) → mem a newer ≡ true → mem a newer' ≡ true)
  AreDead-suffix f h xs newer [] ws d = (newer, d, λ a m. m)
  AreDead-suffix f h xs newer (e ∷ es) ws d =
      let (newer', d', keep) = AreDead-suffix f h xs (also e.zombie_node newer) es ws d.1 in
      (newer', d', λ a m. keep a (mem-also a newer e.zombie_node m))

  pub AreDead-prefix :
      (f : ℕ) (h g : ℕ → Option (Node A)) (xs : Cells A) (newer : List ℕ)
      (zs ws : List ZombieListNode)
      → AreDead f h xs newer (zs ++ ws)
      → ((a : ℕ) → mem a (dead_nodes ws) ≡ false → g a ≡ h a)
      → AreDead f g xs newer zs
  AreDead-prefix f h g xs newer [] ws d same = tt
  AreDead-prefix f h g xs newer (e ∷ es) ws d same = (
    step e.zombie_node d.0 d.1,
    AreDead-prefix f h g xs (also e.zombie_node newer) es ws d.1 same,
  )
    where
      step :
          (q : Ptr)
          → IsDead f h xs newer q
          → AreDead f h xs (also q newer) (es ++ ws)
          → IsDead f g xs newer q
      step none d ds = tt
      step (some q) d ds =
          let (newer', d', keep) = AreDead-suffix f h xs (q ∷ newer) es ws ds in
          let newest : mem q newer' ≡ true = keep q (ground arith) in
          let spared = same q (newer-not-dead f h xs q newer' ws (rw newest) d') in
          (d.0, spared ∙ d.1, d.2, d.3, d.4, d.5, d.6)
