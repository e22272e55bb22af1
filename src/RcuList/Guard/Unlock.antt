-- ===== src/RcuList/Guard/Unlock.antt =====
-- What `unlock` of `rcu_guard` frees.
use cs_signal.Prelude.{
  ℕ, ◌<◌, ◌≡◌, refl, ap, sym, ◌∙◌, true, false, ◌&&◌, Option, none, some, List, subst, [], ◌∷◌,
  ◌++◌, ◌==◌, arith, inl, inr, Bool_cases, append_assoc, if◌then◌else◌,
}
use cs_signal.RcuList.{RcuList, ZombieListNode, Node}
use cs_signal.RcuList.Chain.{Cells, has, Repr-frame}
use cs_signal.RcuList.Guard.{find_entry, release, no_owner, unlock}
use cs_signal.RcuList.Guard.Zombies.{
  mem, dead_nodes, AreDead, also, reclaim-Reclaimed, newer-not-dead, AreDead-prefix, AreDead-suffix,
}
use cs_signal.RcuList.Guard.Sound.{IsSound, Falling}

Falling-above :
    (f : ℕ) (newer : List ZombieListNode) (e : ZombieListNode) (older : List ZombieListNode)
    → Falling f (newer ++ e ∷ older)
    → e.addr < f
Falling-above f [] e older h = h.0
Falling-above f (x ∷ xs) e older h = omega (arith, Falling-above x.addr xs e older h.1)

pub find_entry_middle :
    (f : ℕ) (newer : List ZombieListNode) (e : ZombieListNode) (older : List ZombieListNode)
    → Falling f (newer ++ e ∷ older)
    → find_entry e.addr (newer ++ e ∷ older) ≡ some (newer, e, older)
find_entry_middle f [] e older h = ground arith
find_entry_middle f (x ∷ xs) e older h =
    let other : (x.addr == e.addr) ≡ false = ground (arith, Falling-above x.addr xs e older h.1) in
    rw (other, find_entry_middle x.addr xs e older h.1)

Falling-release :
    (f : ℕ) (newer : List ZombieListNode) (e : ZombieListNode) (older : List ZombieListNode)
    → Falling f (newer ++ e ∷ older)
    → Falling f (newer ++ release e ∷ older)
Falling-release f [] e older h = h
Falling-release f (x ∷ xs) e older h = (h.0, Falling-release x.addr xs e older h.1)

Falling-prefix : (f : ℕ) (zs ws : List ZombieListNode) → Falling f (zs ++ ws) → Falling f zs
Falling-prefix f [] ws h = tt
Falling-prefix f (z ∷ zs) ws h = (h.0, Falling-prefix z.addr zs ws h.1)

module _ {ℓ} {A : Type ℓ} where
  AreDead-release :
      (f : ℕ) (h : ℕ → Option (Node A)) (xs : Cells A) (died newer : List _) (e : ZombieListNode)
      (older : List ZombieListNode)
      → AreDead f h xs died (newer ++ e ∷ older)
      → AreDead f h xs died (newer ++ release e ∷ older)
  AreDead-release f h xs died [] e older d = d
  AreDead-release f h xs died (x ∷ newer) e older d =
      (d.0, AreDead-release f h xs (also x.zombie_node died) newer e older d.1)

  -- The list that `unlock` leaves: the guard's entry has no owner, and if no older entry has one
  -- either, the older entries are gone and exactly their nodes are freed.
  pub record Unlocked (l : RcuList A) (newer : List ZombieListNode) (e : ZombieListNode)
      (older : List ZombieListNode) (l' : RcuList A) : Type ℓ where
    pub zombies_eq : l'.zombies ≡ newer ++ release e ∷ (if no_owner older then [] else older)
    pub mutex_eq : l'.write_mutex ≡ l.write_mutex
    pub fresh_eq : l'.fresh ≡ l.fresh
    pub freed : (a : ℕ) → (no_owner older && mem a (dead_nodes older)) ≡ true → l'.nodes a ≡ none
    pub spared :
        (a : ℕ) → (no_owner older && mem a (dead_nodes older)) ≡ false → l'.nodes a ≡ l.nodes a

  module _ (l : RcuList A) (xs : Cells A) (newer : List ZombieListNode) (e : ZombieListNode)
      (older : List ZombieListNode) (s : IsSound l xs) (at : l.zombies ≡ newer ++ e ∷ older) where
    abbrev pub Unlocks : Option (RcuList A) → Type ℓ
    Unlocks r = (l' : RcuList A) × (r ≡ some l') × IsSound l' xs × Unlocked l newer e older l'

    falling : Falling l.fresh (newer ++ e ∷ older)
    falling = subst (Falling l.fresh) at s.falling

    dead : AreDead l.fresh l.nodes xs [] (newer ++ release e ∷ older)
    dead = AreDead-release _ _ _ [] newer e older (subst (AreDead l.fresh l.nodes xs []) at s.dead)

    found : find_entry e.addr l.zombies ≡ some (newer, e, older)
    found = ap (find_entry e.addr) at ∙ find_entry_middle l.fresh newer e older falling

    -- Where an older guard is active, nothing is freed.
    unlock_waits : no_owner older ≡ false → Unlocks (unlock e.addr l)
    unfolding unlock
    unlock_waits owned = (
      record l { zombies = newer ++ release e ∷ older },
      rw (found, unlock, owned),
      record {
        repr = Repr-frame l _ xs s.repr refl refl (λ a m. refl) s.repr.below;
        dead = dead;
        falling = Falling-release _ newer e older falling;
      },
      record {
        zombies_eq = rw owned;
        mutex_eq = refl;
        fresh_eq = refl;
        freed = λ a m. absurd (ground arith);
        spared = λ a m. refl;
      },
    )

    -- Where none is, the older entries go, and their nodes are freed.
    unlock_frees : no_owner older ≡ true → Unlocks (unlock e.addr l)
    unfolding unlock
    unlock_frees last =
        let split : newer ++ release e ∷ older ≡ (newer ++ release e ∷ []) ++ older =
          sym (append_assoc newer (release e ∷ []) older) in
        let dead' = subst (AreDead l.fresh l.nodes xs []) split dead in
        let (died, old, _) =
          AreDead-suffix l.fresh l.nodes xs [] (newer ++ release e ∷ []) older dead' in
        let (l₁, run, r) = reclaim-Reclaimed l xs died older old in
        let live = λ (a : ℕ) (m : has a xs ≡ true).
          r.spared a (newer-not-dead l.fresh l.nodes xs a died older (ground arith) old) in
        (
          record l { nodes = l₁.nodes; zombies = newer ++ release e ∷ [] },
          rw (found, unlock, last, run)
              (ap (λ (k : RcuList A). some (record k { zombies = newer ++ release e ∷ [] }))
                r.rest),
          record {
            repr = Repr-frame l _ xs s.repr refl refl live s.repr.below;
            dead = AreDead-prefix l.fresh l.nodes l₁.nodes xs [] _ older dead' r.spared;
            falling =
                Falling-prefix l.fresh _ older
                  (subst (Falling l.fresh) split (Falling-release _ newer e older falling));
          },
          record {
            zombies_eq = rw last;
            mutex_eq = refl;
            fresh_eq = refl;
            freed = λ a m. r.freed a (ground arith);
            spared = λ a m. r.spared a (ground arith);
          },
        )

    -- For the guard with the entry `e` of a sound list, `unlock` does not fault, and the list stays
    -- sound with the same cells. If no older entry has an owner, the older entries are gone and
    -- exactly their nodes are freed. Otherwise no node is freed and no entry goes. The guard's
    -- entry has no owner afterwards.
    pub unlock-Unlocked : Unlocks (unlock e.addr l)
    unlock-Unlocked = elim (Bool_cases (no_owner older)) [
      | inl last ↦ unlock_frees last
      | inr owned ↦ unlock_waits owned
    ]
