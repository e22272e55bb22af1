-- ===== src/Connections/Connect/Results.antt =====
-- What `connect` does on every branch.
use cs_signal.Prelude.{
  sym, ℕ, ◌+◌, ◌≡◌, refl, ap, ◌∙◌, Bool, true, false, Bool_cases, inl, inr, Option, some, List, [],
  ◌∷◌, ◌++◌, ◌&&◌, any, if◌then◌else◌, ◌>>=◌,
}
use cs_signal.RcuList.{RcuList}
use cs_signal.RcuList.Guard.{rcu_write_lock, rcu_write_unlock}
use cs_signal.RcuList.Iterator.{flow_state, each}
use cs_signal.SharedList.{Locked, lock_write, unlock_write, loop-each}
use cs_signal.Connections.{ConnectStruct, SignalBase, World, put_list, put_senders, add_connection}
use cs_signal.Connections.Lists.{
  assign_same, assign_other, busy_of, HasLists, SameElsewhere, add_connection-Becomes,
}
use cs_signal.Connections.Connect.{search_body, already_there, connect_unless}

each-any {ℓ} :
    {A : Type ℓ} (p : A → Bool) (vs : List A)
    → (do f ← each (search_body p) vs false; some (flow_state f)) ≡ some (any p vs)
unfolding each
each-any p [] = refl
each-any p (v ∷ vs) = elim (Bool_cases (p v)) [ inl m ↦ rw m refl | inr m ↦ rw m (each-any p vs) ]

already_there-any {ℓ} :
    {A : Type ℓ} (p : A → Bool) (l : RcuList A) (z : ℕ) (m : Option ℕ) (vs : List A)
    → Locked l z m vs
    → already_there p l ≡ some (any p vs)
unfolding already_there
already_there-any p l z m vs k =
    ap (λ o. do f ← o; some (flow_state f)) (loop-each l z m vs k (search_body p) false)
    ∙ each-any p vs

-- A call leaves the world `w'` with result `b`, and the two lists hold `cs` and `ss`.
abbrev pub Leaves :
    World → ℕ → ℕ → Option (Bool × World) → Bool → List ConnectStruct → List ℕ → Type 0
Leaves w s r run b cs ss =
    (w' : World) × (run ≡ some (b, w')) × HasLists w' s r cs ss × SameElsewhere w s r w'

module _ (same : ConnectStruct → Bool) (g s r : ℕ) (c : ConnectStruct) (unique : Bool)
    (w : World) where
  refuse_run :
      (x : SignalBase) (z : ℕ) (l l' : RcuList ConnectStruct)
      → w.signals s ≡ some x
      → rcu_write_lock g x.connect_list ≡ some (z, l)
      → (if unique then already_there same l else some false) ≡ some true
      → rcu_write_unlock z l ≡ some l'
      → connect_unless same g s c unique w ≡ some (false, put_list s x l' w)
  unfolding connect_unless
  refuse_run x z l l' x_eq lock_eq there unlock_eq = rw (x_eq, lock_eq, there, unlock_eq) refl

  accept_run :
      (x x' : SignalBase) (z : ℕ) (l l' : RcuList ConnectStruct) (w' : World)
      → w.signals s ≡ some x
      → rcu_write_lock g x.connect_list ≡ some (z, l)
      → (if unique then already_there same l else some false) ≡ some false
      → add_connection (g + 1) s c (put_list s x l w) ≡ some w'
      → w'.signals s ≡ some x'
      → rcu_write_unlock z x'.connect_list ≡ some l'
      → connect_unless same g s c unique w ≡ some (true, put_list s x' l' w')
  unfolding connect_unless
  accept_run x x' z l l' w' x_eq lock_eq there add_eq x'_eq unlock_eq =
      rw (x_eq, lock_eq, there, add_eq, x'_eq, unlock_eq) refl

  searched :
      (l : RcuList ConnectStruct) (z : ℕ) (m : Option ℕ) (cs : List ConnectStruct)
      → Locked l z m cs
      → (if unique then already_there same l else some false) ≡ some (unique && any same cs)
  searched l z m cs k = elim (Bool_cases unique) [
    | inl u ↦ rw u (already_there-any same l z m cs k)
    | inr u ↦ rw u refl
  ]

  module _ (cs : List ConnectStruct) (ss : List ℕ) (h : HasLists w s r cs ss) where
    pub refuses :
        unique && any same cs ≡ true → Leaves w s r (connect_unless same g s c unique w) false cs ss
    refuses there =
        let (z, l, lock_eq, locked) = lock_write g h.sender.connect_list cs h.connections in
        let (l', unlock_eq, held) = unlock_write l z cs (some g) locked in
        (
          put_list s h.sender l' w,
          refuse_run h.sender z l l' h.sender_eq lock_eq
              (searched l z (some g) cs locked ∙ ap some there) unlock_eq,
          record {
            sender = record h.sender { connect_list = l' };
            sender_eq = assign_same w.signals s _;
            connections = held;
            receiver_list = h.receiver_list;
            receiver_eq = h.receiver_eq;
            senders = h.senders;
          },
          record {
            busy_eq = ap busy_of (assign_same w.signals s _) ∙ sym (ap busy_of h.sender_eq);
            other_signals = λ a n. assign_other w.signals s a _ n;
            other_slots = λ a n. refl;
            destroyed_eq = refl;
          },
        )

    pub accepts :
        c.receiver ≡ some r
        → unique && any same cs ≡ false
        → Leaves w s r (connect_unless same g s c unique w) true (cs ++ c ∷ []) (ss ++ s ∷ [])
    accepts to_r there =
        let x = h.sender in
        let (z, l, lock_eq, locked) = lock_write g x.connect_list cs h.connections in
        let x₁ : SignalBase = record x { connect_list = l } in
        let w₁ : World = put_list s x l w in
        let (k, m, add_eq, pushed, held_senders) =
          add_connection-Becomes (g + 1) s r c w₁ x₁ z (some g) cs h.receiver_list ss to_r
            (assign_same w.signals s (some x₁)) locked h.receiver_eq h.senders in
        let x₂ : SignalBase = record x { connect_list = k } in
        let w₂ : World = put_senders r m (put_list s x₁ k w₁) in
        let (l', unlock_eq, held) = unlock_write k z (cs ++ c ∷ []) (some g) pushed in
        (
          put_list s x₂ l' w₂,
          accept_run x x₂ z l l' w₂ h.sender_eq lock_eq
              (searched l z (some g) cs locked ∙ ap some there) add_eq
              (assign_same w₁.signals s (some x₂)) unlock_eq,
          record {
            sender = record x { connect_list = l' };
            sender_eq = assign_same w₂.signals s _;
            connections = held;
            receiver_list = m;
            receiver_eq = assign_same w.slots r _;
            senders = held_senders;
          },
          record {
            busy_eq = ap busy_of (assign_same w₂.signals s _) ∙ sym (ap busy_of h.sender_eq);
            other_signals = λ a n.
                assign_other w₂.signals s a _ n
                ∙ assign_other w₁.signals s a _ n
                ∙ assign_other w.signals s a _ n;
            other_slots = λ a n. assign_other w.slots r a _ n;
            destroyed_eq = refl;
          },
        )
