-- ===== src/RcuList/Erase.antt =====
-- `erase` of cs_rcu_list.h.
use cs_signal.Prelude.{ℕ, ◌+◌, ◌≡◌, refl, true, none, some, ◌∷◌, ◌++◌, arith, ◌∙◌}
use cs_signal.RcuList.{Ptr, Node, RcuList, write, dead_entry, bury, erase}
use cs_signal.RcuList.Chain.{
  Cells, SameOutside, first, last, Repr, first-append, last-append, Chain-split, Chain-update,
  Distinct-middle, Below-mono, update_same, update_other, Below-middle, not-has_middle,
}
use cs_signal.RcuList.Halves.{Halves, link_prev-Halves, link_next-Halves, Halves-Repr}

module _ {ℓ} {A : Type ℓ} where
  abbrev pub dead_node : Ptr → Ptr → A → Node A
  dead_node next back v = record { next = next; back = back; deleted = true; item = v }

  -- What `erase` of the cell `c` between `ys` and `zs` does: the list holds the other cells, the
  -- node keeps its item and its pointers and is marked, nodes that are in no cell are untouched, and
  -- the node has one entry, the newest, in the zombie list.
  pub record ErasedTo (l : RcuList A) (ys : Cells A) (c : ℕ × A) (zs : Cells A) (l' : RcuList A)
      : Type ℓ where
    pub holds : Repr l' (ys ++ zs)
    pub node_eq : l'.nodes c.0 ≡ some (dead_node (first zs none) (last none ys) c.1)
    pub same : SameOutside (ys ++ c ∷ zs) l.nodes l'.nodes
    pub zombies_eq : l'.zombies ≡ dead_entry l.fresh c.0 ∷ l.zombies
    pub fresh_eq : l'.fresh ≡ l.fresh + 1
    pub mutex_eq : l'.write_mutex ≡ l.write_mutex

  -- `erase` of a cell of a list in order returns the pointer behind it and takes the cell out. The
  -- node stays, with its item and its pointers, and is marked. It has the newest zombie entry, and
  -- no node outside the list changes.
  pub erase-cell :
      (l : RcuList A) (ys : Cells A) (c : ℕ × A) (zs : Cells A)
      → Repr l (ys ++ c ∷ zs)
      → (l' : RcuList A) × (erase (some c.0) l ≡ some (first zs none, l')) × ErasedTo l ys c zs l'
  unfolding erase
  erase-cell l ys c zs r =
      let (front, rear) = Chain-split l.nodes none ys (c ∷ zs) none r.chain in
      let off = Distinct-middle ys c zs r.distinct in
      let dead = dead_node (first zs none) (last none ys) c.1 in
      let l₀ = write c.0 dead l in
      let start : Halves l₀ ys zs (some c.0) (some c.0) = record {
        head_eq = r.head_eq ∙ first-append ys (c ∷ zs) none;
        tail_eq = r.tail_eq ∙ last-append none ys (c ∷ zs);
        front = Chain-update _ _ _ _ ys _ off.0 front;
        rear = Chain-update _ _ _ _ zs _ off.1 rear.1;
      } in
      let (l₁, run₁, halves₁, same₁, z₁, f₁, m₁) =
        link_prev-Halves l₀ _ _ ys zs (first zs none) start off.2 in
      let (l₂, run₂, halves₂, same₂, z₂, f₂, m₂) =
        link_next-Halves l₁ _ _ ys zs (last none ys) halves₁ off.2 in
      (
        bury c.0 l₂,
        rw (rear.0, run₁, run₂),
        record {
          holds =
              Halves-Repr (bury c.0 l₂) ys zs
                (record {
                  head_eq = halves₂.head_eq;
                  tail_eq = halves₂.tail_eq;
                  front = halves₂.front;
                  rear = halves₂.rear;
                })
                off.2
                (rw (f₂, f₁)
                  (Below-mono l.fresh _ (ys ++ zs) (omega arith) (Below-middle _ ys c zs r.below)));
          node_eq = same₂ c.0 off.1 ∙ same₁ c.0 off.0 ∙ update_same _ _ _;
          same = λ a h.
              let off_a = not-has_middle a ys c zs h in
              same₂ a off_a.2 ∙ same₁ a off_a.0 ∙ update_other _ _ _ _ off_a.1;
          zombies_eq = rw (f₂, f₁, z₂, z₁);
          fresh_eq = rw (f₂, f₁);
          mutex_eq = m₂ ∙ m₁;
        },
      )

  -- `erase` of a node that is marked already changes nothing and returns the node's own successor.
  pub erase-dead :
      (l : RcuList A) (p : ℕ) (n : Node A)
      → l.nodes p ≡ some n
      → n.deleted ≡ true
      → erase (some p) l ≡ some (n.next, l)
  unfolding erase
  erase-dead l p n e d = rw (e, d)

  -- `erase` of the end of a list dereferences a null pointer.
  pub erase_null : (l : RcuList A) → erase none l ≡ none
  unfolding erase
  erase_null l = refl
