-- ===== src/RcuList/Destructor/Leftovers.antt =====
-- What `~rcu_list` frees and what it leaves, and the guards that are still active then.
use cs_signal.Prelude.{
  ℕ, suc, ◌≡◌, refl, sym, ap, subst, ◌∙◌, true, false, inl, inr, Bool_cases, none, some, List, [],
  ◌∷◌, ◌++◌, ◌||◌, ◌&&◌, arith, map, append_assoc,
}
use cs_signal.RcuList.{RcuList, ZombieListNode}
use cs_signal.RcuList.Chain.{Cells, has}
use cs_signal.RcuList.Bound.{length-le-fresh}
use cs_signal.RcuList.Guard.{no_owner, find_entry, unlock, release}
use cs_signal.RcuList.Guard.Zombies.{
  mem, dead_nodes, AreDead, Spares, AreDead-Spares, AreDead-suffix, reclaim-Reclaimed,
}
use cs_signal.RcuList.Guard.Sound.{IsSound, Falling}
use cs_signal.RcuList.Guard.Unlock.{find_entry_middle}
use cs_signal.RcuList.Destructor.{free_list, free_zombies, destroy_list}
use cs_signal.RcuList.Destructor.Entries.{
  unowned, from_owned, unowned_at, from_owned_at, dead_nodes_around, Falling-from_owned,
  ZombiesFreed, free_zombies-ZombiesFreed,
}
use cs_signal.RcuList.Destructor.Nodes.{CellsFreed, free_list-CellsFreed}

module _ {ℓ} {A : Type ℓ} where
  abbrev pub addresses : Cells A → List ℕ
  addresses = map λ c. c.0

  mem-addresses : (a : ℕ) (xs : Cells A) → mem a (addresses xs) ≡ has a xs
  mem-addresses a [] = refl
  mem-addresses a (x ∷ xs) = ground (arith, mem-addresses a xs)

  -- What `~rcu_list` leaves of the list `l` with the cells `xs`: the nodes of the list are freed, and
  -- those that wait in front of the first entry with an owner; no other node is, and the entries
  -- from there on are left.
  pub record Leftovers (l : RcuList A) (xs : Cells A) (l' : RcuList A) : Type ℓ where
    pub zombies_eq : l'.zombies ≡ from_owned l.zombies
    pub freed :
        (a : ℕ) → (has a xs || mem a (dead_nodes (unowned l.zombies))) ≡ true → l'.nodes a ≡ none
    pub spared :
        (a : ℕ)
        → (has a xs || mem a (dead_nodes (unowned l.zombies))) ≡ false
        → l'.nodes a ≡ l.nodes a
    pub newer : List ℕ
    pub dead : AreDead l'.fresh l'.nodes [] newer l'.zombies
    pub falling : Falling l'.fresh l'.zombies

  CellsFreed-Spares :
      (l l' : RcuList A) (xs : Cells A)
      → CellsFreed l xs l'
      → Spares l.fresh l.fresh l.nodes l'.nodes xs [] (addresses xs)
  CellsFreed-Spares l l' xs k = record {
    keeps = λ p off below. (k.spared p off, refl, mem-addresses p xs ∙ off);
    follows = λ p on. rw (mem-addresses p xs ∙ on) refl;
    grows = omega arith;
  }

  CellsFreed-Leftovers :
      (l l₁ l₂ : RcuList A) (xs : Cells A)
      → IsSound l xs
      → CellsFreed l xs l₁
      → ZombiesFreed l₁ l.zombies l₂
      → Leftovers l xs (record l₂ { head = none; tail = none })
  CellsFreed-Leftovers l l₁ l₂ xs s k₁ k₂ =
      let same : l₂.fresh ≡ l₁.fresh = ap (λ (k : RcuList A). k.fresh) k₂.rest in
      let same₁ : l₁.fresh ≡ l.fresh = ap (λ (k : RcuList A). k.fresh) k₁.rest in
      let zombies_eq : l₂.zombies ≡ from_owned l.zombies =
        ap (λ (k : RcuList A). k.zombies) k₂.rest in
      record {
        zombies_eq = zombies_eq;
        freed = λ a m. freed_two a m;
        spared = λ a m. k₂.spared a (ground arith) ∙ k₁.spared a (ground arith);
        newer = k₂.newer;
        dead =
            subst (AreDead l₂.fresh l₂.nodes [] k₂.newer) (sym zombies_eq) (
              subst (λ f. AreDead f l₂.nodes [] k₂.newer (from_owned l.zombies)) (sym same)
                k₂.dead);
        falling = subst (Falling l₂.fresh) (sym zombies_eq) (
            subst (λ f. Falling f (from_owned l.zombies)) (sym (same ∙ same₁))
              (Falling-from_owned l.fresh l.zombies s.falling));
      }
    where
      freed_two :
          (a : ℕ) → (has a xs || mem a (dead_nodes (unowned l.zombies))) ≡ true → l₂.nodes a ≡ none
      freed_two a m = elim (Bool_cases (mem a (dead_nodes (unowned l.zombies)))) [
        | inl e ↦ k₂.freed a e
        | inr e ↦ k₂.spared a e ∙ k₁.freed a (ground arith)
      ]

  destroy_list_run :
      (l l₁ l₂ : RcuList A)
      → free_list (suc l.fresh) l.head l ≡ some l₁
      → free_zombies l.zombies l₁ ≡ some l₂
      → destroy_list l ≡ some (record l₂ { head = none; tail = none })
  unfolding destroy_list
  destroy_list_run l l₁ l₂ first_run second_run = rw (first_run, second_run) refl

  -- `~rcu_list` of a list in order runs to its end and frees every node of the list, and every node
  -- that waits in front of the first zombie entry with an owner; it frees no other node, and leaves
  -- the entries from that one on, with their nodes still allocated.
  pub destroy_list-Leftovers :
      (l : RcuList A) (xs : Cells A)
      → IsSound l xs
      → (l' : RcuList A) × (destroy_list l ≡ some l') × Leftovers l xs l'
  destroy_list-Leftovers l xs s =
      let (l₁, run₁, k₁) =
        free_list-CellsFreed (suc l.fresh) none xs l s.repr.chain s.repr.distinct
          (omega (arith, length-le-fresh xs s.repr)) in
      let (l₂, run₂, k₂) = free_zombies-ZombiesFreed l₁ (addresses xs) l.zombies (
        subst (λ f. AreDead f l₁.nodes [] (addresses xs) l.zombies)
          (sym (ap (λ (k : RcuList A). k.fresh) k₁.rest))
          (AreDead-Spares (CellsFreed-Spares l l₁ xs k₁) [] l.zombies s.dead)) in
      (
        record l₂ { head = none; tail = none },
        destroy_list_run l l₁ l₂ (ap (λ it. free_list (suc l.fresh) it l) s.repr.head_eq ∙ run₁)
            run₂,
        CellsFreed-Leftovers l l₁ l₂ xs s k₁ k₂,
      )

  -- A guard of the destroyed list that is still active: its entry is left, `unlock` by it runs, and
  -- frees the nodes of the entries behind it if none of these has an owner.
  pub unlock-Leftovers :
      (l : RcuList A) (xs : Cells A) (l' : RcuList A) (newer : List ZombieListNode)
      (e : ZombieListNode) (older : List ZombieListNode)
      → Leftovers l xs l'
      → l'.zombies ≡ newer ++ e ∷ older
      → (l'' : RcuList A) × (unlock e.addr l' ≡ some l'')
        × ((a : ℕ) → (no_owner older && mem a (dead_nodes older)) ≡ true → l''.nodes a ≡ none)
        × ((a : ℕ)
            → (no_owner older && mem a (dead_nodes older)) ≡ false
            → l''.nodes a ≡ l'.nodes a)
  unfolding unlock
  unlock-Leftovers l xs l' newer e older k at =
      let found =
        ap (find_entry e.addr) at
        ∙ find_entry_middle l'.fresh newer e older (subst (Falling l'.fresh) at k.falling) in
      let split : newer ++ e ∷ older ≡ (newer ++ e ∷ []) ++ older =
        sym (append_assoc newer (e ∷ []) older) in
      let (died, old, _) =
        AreDead-suffix l'.fresh l'.nodes [] k.newer (newer ++ e ∷ []) older
          (subst (AreDead l'.fresh l'.nodes [] k.newer) (at ∙ split) k.dead) in
      let (l₁, run, r) = reclaim-Reclaimed l' [] died older old in
      elim (Bool_cases (no_owner older)) [
        | inl last ↦ (
          record l₁ { zombies = newer ++ release e ∷ [] },
          rw (found, unlock, last, run) refl,
          λ a m. r.freed a (ground arith),
          λ a m. r.spared a (ground arith),
        )
        | inr owned ↦ (
          record l' { zombies = newer ++ release e ∷ older },
          rw (found, unlock, owned) refl,
          λ a m. absurd (ground arith),
          λ a m. refl,
        )
      ]

  -- If a list in order is destroyed while one guard is active, whose entry is `e`, that guard can
  -- still leave: neither `~rcu_list` nor its `unlock` faults, and together they free every node of
  -- the list and every node that waited to be freed.
  pub destroy_list-unlock :
      (l : RcuList A) (xs : Cells A) (newer : List ZombieListNode) (e : ZombieListNode)
      (older : List ZombieListNode) (g : ℕ)
      → IsSound l xs
      → l.zombies ≡ newer ++ e ∷ older
      → e.owner ≡ some g
      → e.zombie_node ≡ none
      → no_owner newer ≡ true
      → no_owner older ≡ true
      → (l' : RcuList A) × (l'' : RcuList A) × (destroy_list l ≡ some l')
        × (unlock e.addr l' ≡ some l'')
        × ((a : ℕ)
            → (has a xs || mem a (dead_nodes (newer ++ e ∷ older))) ≡ true
            → l''.nodes a ≡ none)
  destroy_list-unlock l xs newer e older g s at owned guard before behind =
      let (l', run, k) = destroy_list-Leftovers l xs s in
      let (l'', run', freed, spared) =
        unlock-Leftovers l xs l' [] e older k
          (k.zombies_eq ∙ ap from_owned at ∙ from_owned_at newer e older g before owned) in
      (l', l'', run, run', λ a m. gone l' l'' k freed spared a m)
    where
      split :
          (a : ℕ)
          → mem a (dead_nodes (newer ++ e ∷ older))
            ≡ (mem a (dead_nodes (unowned l.zombies)) || mem a (dead_nodes older))
      split a =
          dead_nodes_around a newer e older guard
          ∙ ap (λ zs. mem a (dead_nodes zs) || mem a (dead_nodes older))
              (sym (ap unowned at ∙ unowned_at newer e older g before owned))

      gone :
          (l' l'' : RcuList A)
          → Leftovers l xs l'
          → ((a : ℕ) → (no_owner older && mem a (dead_nodes older)) ≡ true → l''.nodes a ≡ none)
          → ((a : ℕ)
              → (no_owner older && mem a (dead_nodes older)) ≡ false
              → l''.nodes a ≡ l'.nodes a)
          → (a : ℕ) → (has a xs || mem a (dead_nodes (newer ++ e ∷ older))) ≡ true
          → l''.nodes a ≡ none
      gone l' l'' k freed spared a m = elim (Bool_cases (mem a (dead_nodes older))) [
        | inl old ↦ freed a (rw behind old)
        | inr rest ↦ spared a (rw behind rest) ∙ k.freed a (ground (arith, split a))
      ]
