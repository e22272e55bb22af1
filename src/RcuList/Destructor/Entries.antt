-- ===== src/RcuList/Destructor/Entries.antt =====
-- The second loop of `~rcu_list`.
use cs_signal.Prelude.{
  ℕ, ◌≤◌, ◌≡◌, refl, sym, ap, ◌∙◌, true, false, inl, inr, Bool_cases, Option, none, some, List, [],
  ◌∷◌, ◌++◌, ◌==◌, ◌||◌, if◌then◌else◌, ◌>>=◌, arith,
}
use mathlib.Core.Bool.{true≢false}
use cs_signal.RcuList.{Ptr, RcuList, ZombieListNode, update}
use cs_signal.RcuList.Chain.{update_same, update_other}
use cs_signal.RcuList.Guard.{is_free, no_owner, free_node}
use cs_signal.RcuList.Guard.Zombies.{mem, also, dead_nodes, IsDead, AreDead, AreDead-free}
use cs_signal.RcuList.Guard.Sound.{Falling}
use cs_signal.RcuList.Destructor.{free_zombies}

-- The zombie list up to its first entry with an owner, and from there on.
abbrev pub unowned : List ZombieListNode → List ZombieListNode
unowned [] = []
unowned (e ∷ es) = if is_free e.owner then e ∷ unowned es else []

abbrev pub from_owned : List ZombieListNode → List ZombieListNode
from_owned [] = []
from_owned (e ∷ es) = if is_free e.owner then from_owned es else e ∷ es

pub unowned_at :
    (newer : List ZombieListNode) (e : ZombieListNode) (older : List ZombieListNode) (g : ℕ)
    → no_owner newer ≡ true
    → e.owner ≡ some g
    → unowned (newer ++ e ∷ older) ≡ newer
unowned_at [] e older g before owned = rw owned refl
unowned_at (x ∷ newer) e older g before owned = elim (Bool_cases (is_free x.owner)) [
  | inl m ↦ rw m (ap (◌∷◌ x) (unowned_at newer e older g (rw m at before) owned))
  | inr m ↦ absurd (true≢false (sym (rw m at before)))
]

pub from_owned_at :
    (newer : List ZombieListNode) (e : ZombieListNode) (older : List ZombieListNode) (g : ℕ)
    → no_owner newer ≡ true
    → e.owner ≡ some g
    → from_owned (newer ++ e ∷ older) ≡ e ∷ older
from_owned_at [] e older g before owned = rw owned refl
from_owned_at (x ∷ newer) e older g before owned = elim (Bool_cases (is_free x.owner)) [
  | inl m ↦ rw m (from_owned_at newer e older g (rw m at before) owned)
  | inr m ↦ absurd (true≢false (sym (rw m at before)))
]

-- The entry of a guard waits for no node.
pub dead_nodes_around :
    (a : ℕ) (newer : List ZombieListNode) (e : ZombieListNode) (older : List ZombieListNode)
    → e.zombie_node ≡ none
    → mem a (dead_nodes (newer ++ e ∷ older))
      ≡ (mem a (dead_nodes newer) || mem a (dead_nodes older))
dead_nodes_around a [] e older guard = rw guard refl
dead_nodes_around a (x ∷ newer) e older guard =
    around x.zombie_node (dead_nodes_around a newer e older guard)
  where
    around :
        (p : Ptr)
        → mem a (dead_nodes (newer ++ e ∷ older))
          ≡ (mem a (dead_nodes newer) || mem a (dead_nodes older))
        → mem a (also p (dead_nodes (newer ++ e ∷ older)))
          ≡ (mem a (also p (dead_nodes newer)) || mem a (dead_nodes older))
    around none h = h
    around (some p) h = ground (arith, h)

Falling-mono : (m n : ℕ) (zs : List ZombieListNode) → m ≤ n → Falling m zs → Falling n zs
Falling-mono m n [] h f = tt
Falling-mono m n (e ∷ es) h f = (omega arith, f.1)

pub Falling-from_owned :
    (f : ℕ) (zs : List ZombieListNode) → Falling f zs → Falling f (from_owned zs)
Falling-from_owned f [] h = tt
Falling-from_owned f (e ∷ es) h = elim (Bool_cases (is_free e.owner)) [
  | inl m ↦
      rw m (Falling-mono e.addr f (from_owned es) (omega arith) (Falling-from_owned e.addr es h.1))
  | inr m ↦ rw m h
]

mem_cons_false :
    (a p : ℕ) (xs : List ℕ) → mem a (p ∷ xs) ≡ false → ((a == p) ≡ false) × (mem a xs ≡ false)
mem_cons_false a p xs m = ground arith

module _ {ℓ} {A : Type ℓ} where
  -- The second loop frees the nodes of the entries before the first that has an owner.
  pub record ZombiesFreed (l : RcuList A) (zs : List ZombieListNode) (l' : RcuList A) : Type ℓ where
    pub rest : l' ≡ record l { nodes = l'.nodes; zombies = from_owned zs }
    pub freed : (a : ℕ) → mem a (dead_nodes (unowned zs)) ≡ true → l'.nodes a ≡ none
    pub spared : (a : ℕ) → mem a (dead_nodes (unowned zs)) ≡ false → l'.nodes a ≡ l.nodes a
    pub newer : List ℕ
    pub dead : AreDead l.fresh l'.nodes [] newer (from_owned zs)

  abbrev FreesZombies : RcuList A → List ZombieListNode → Option (RcuList A) → Type ℓ
  FreesZombies l zs r = (l' : RcuList A) × (r ≡ some l') × ZombiesFreed l zs l'

  freed_one :
      (p a : ℕ) (dead : List ℕ) (l l' : RcuList A)
      → ((b : ℕ) → mem b dead ≡ true → l'.nodes b ≡ none)
      → ((b : ℕ) → mem b dead ≡ false → l'.nodes b ≡ update l.nodes p none b)
      → mem a (p ∷ dead) ≡ true
      → l'.nodes a ≡ none
  freed_one p a dead l l' freed spared m = elim (Bool_cases (mem a dead)) [
    | inl e ↦ freed a e
    | inr e ↦ let same : a ≡ p = ground arith in spared a e ∙ rw same (update_same l.nodes p none)
  ]

  free_step :
      (l : RcuList A) (newer : List ℕ) (e : ZombieListNode) (p : Ptr) (es : List ZombieListNode)
      → is_free e.owner ≡ true
      → e.zombie_node ≡ p
      → IsDead l.fresh l.nodes [] newer p
      → AreDead l.fresh l.nodes [] (also p newer) es
      → ((l₁ : RcuList A)
          → AreDead l₁.fresh l₁.nodes [] (also p newer) es
          → FreesZombies l₁ es (free_zombies es l₁))
      → FreesZombies l (e ∷ es) (free_node p l >>= free_zombies es)
  free_step l newer e none es free at d ds ih =
      let (l', run, k) = ih l ds in
      (
        l',
        run,
        record {
          rest = rw free k.rest;
          freed = λ a m. k.freed a (rw (free, at) at m);
          spared = λ a m. k.spared a (rw (free, at) at m);
          newer = k.newer;
          dead = rw free k.dead;
        },
      )
  free_step l newer e (some p) es free at d ds ih =
      let l₁ = record l { nodes = update l.nodes p none } in
      let self : mem p (p ∷ newer) ≡ true = ground arith in
      let (l', run, k) = ih l₁ (AreDead-free l.fresh l.nodes [] p (p ∷ newer) es self ds) in
      (
        l',
        rw d.1 run,
        record {
          rest = rw free k.rest;
          freed = λ a m. freed_one p a _ l l' k.freed k.spared (rw (free, at) at m);
          spared = λ a m.
              let (apart, other) = mem_cons_false a p _ (rw (free, at) at m) in
              k.spared a other ∙ update_other l.nodes p none a apart;
          newer = k.newer;
          dead = rw free k.dead;
        },
      )

  pub free_zombies-ZombiesFreed :
      (l : RcuList A) (newer : List ℕ) (zs : List ZombieListNode)
      → AreDead l.fresh l.nodes [] newer zs
      → FreesZombies l zs (free_zombies zs l)
  unfolding free_zombies
  free_zombies-ZombiesFreed l newer [] d = (
    record l { zombies = [] },
    refl,
    record {
      rest = refl;
      freed = λ a m. absurd (cc);
      spared = λ a m. refl;
      newer = newer;
      dead = tt;
    },
  )
  free_zombies-ZombiesFreed l newer (e ∷ es) d = elim (Bool_cases (is_free e.owner)) [
    | inl free ↦ rw free (
        free_step l newer e e.zombie_node es free refl d.0 d.1
          (λ l₁ ds. free_zombies-ZombiesFreed l₁ (also e.zombie_node newer) es ds))
    | inr owned ↦ rw owned (
      record l { zombies = e ∷ es },
      refl,
      record {
        rest = rw owned refl;
        freed = λ a m. absurd (true≢false (sym (rw owned at m)));
        spared = λ a m. refl;
        newer = newer;
        dead = rw owned d;
      },
    )
  ]
