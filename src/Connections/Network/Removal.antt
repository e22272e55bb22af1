-- ===== src/Connections/Network/Removal.antt =====
-- Disconnections and destructors keep the invariant.
use cs_signal.Prelude.{
  ℕ, ◌≡◌, ◌≢◌, refl, sym, ap, subst, ◌∙◌, Bool, Bool_cases, inl, inr, Option, none, some, List, [],
  ◌==◌, ==_iff, any, reject, arith,
}
use mathlib.Core.Bool.{true≢false}
use mathlib.Core.Option.{none-ne-some, some-injective}
use cs_signal.RcuList.{Ptr}
use cs_signal.SharedList.{Holds}
use cs_signal.Bento.{Bento}
use cs_signal.Connections.{ConnectStruct, SignalBase, SlotBase, World, assign}
use cs_signal.Connections.Lists.{elsewhere-SameView, busy_of}
use cs_signal.Connections.Disconnect.{is_match, internal_disconnect}
use cs_signal.Connections.Disconnect.Balance.{
  times, links_to, Balanced, HaveReceivers, internal_disconnect-Balanced,
}
use cs_signal.Connections.Destroy.{mark_destroyed, destroy_signal, destroy_slot}
use cs_signal.Connections.Destroy.Purge.{SlotsStay}
use cs_signal.Connections.Destroy.Dangling.{destroy_signal-SendersAre}
use cs_signal.Connections.Destroy.Unlink.{SignalsStay, is_to}
use cs_signal.Connections.Destroy.Orphans.{destroy_slot-ConnectionsAre}
use cs_signal.Connections.Network.Counting.{
  count_of-reject, count_of-reject_other, count_of-reject_le, HaveReceivers-reject, nil_of_times,
  ==_apart, is_to_apart,
}
use cs_signal.Connections.Network.Invariant.{
  IsNet, assign-elim, IsNet-ReceiversExist, IsNet-SendersExist, IsNet-Known, IsNet-Remembered,
  SlotsStay-none, SignalsStay-none,
}

module _ (g s : ℕ) (w : World) (conns : ℕ → List ConnectStruct) (n : IsNet w conns) (x : SignalBase)
    (x_eq : w.signals s ≡ some x) where
  -- `internal_disconnect`.
  pub internal_disconnect-IsNet :
      (signal : Option Bento) (receiver : Ptr) (slot : Option Bento)
      → let p = is_match signal receiver slot in
        (w' : World) × (internal_disconnect g s signal receiver slot w ≡ some (any p (conns s), w'))
        × IsNet w' (assign conns s (reject p (conns s)))
        × SignalsStay w w'
        × SlotsStay w w'
        × (w'.being_destroyed ≡ w.being_destroyed)
  internal_disconnect-IsNet signal receiver slot =
      let p = is_match signal receiver slot in
      let (w', l, sends', run, here, held, are, bal, others, elsewhere, stay, destroyed) =
        internal_disconnect-Balanced g s signal receiver slot w x (conns s) n.sends x_eq
          (n.connections_are s x x_eq) n.senders_are (IsNet-ReceiversExist w conns n s) (n.have s)
          (n.balanced s) in
      (
        w',
        run,
        record {
          sends = sends';
          connections_are = λ a y e.
              assign-elim (λ a c. w'.signals a ≡ some y → Holds y.connect_list c) conns s _ a
                (λ f.
                  subst (λ (z : SignalBase). Holds z.connect_list (reject p (conns s)))
                    (some-injective (record x { connect_list = l }) y (sym here ∙ f)) held)
                (λ apart f. n.connections_are a y (sym (elsewhere a apart) ∙ f)) e;
          senders_are = are;
          no_signal = λ a e.
              assign-elim (λ a c. w'.signals a ≡ none → c ≡ []) conns s _ a
                (λ f. absurd (none-ne-some _ (sym f ∙ here)))
                (λ apart f. n.no_signal a (sym (elsewhere a apart) ∙ f)) e;
          no_slot =
              λ r e. no_pointers p sends' r bal others (n.no_slot r (SlotsStay-none w w' r stay e));
          balanced = λ a.
              assign-elim (λ a c. Balanced a c sends') conns s _ a bal
                (λ apart r. others a r apart ∙ n.balanced a r);
          have = λ a.
              assign-elim (λ a c. HaveReceivers c) conns s _ a
                (HaveReceivers-reject p (conns s) (n.have s)) (λ apart. n.have a);
        },
        elsewhere-SameView busy_of w.signals w'.signals s (ap busy_of here ∙ sym (ap busy_of x_eq))
            elsewhere,
        stay,
        destroyed,
      )
    where
      no_pointers :
          (p : ConnectStruct → Bool) (sends' : ℕ → List ℕ) (r : ℕ)
          → Balanced s (reject p (conns s)) sends'
          → ((t q : ℕ) → t ≢ s → times t (sends' q) ≡ times t (n.sends q))
          → n.sends r ≡ []
          → sends' r ≡ []
      no_pointers p sends' r bal others gone = nil_of_times (sends' r) λ t.
          elim (Bool_cases (t == s)) [
            | inl m ↦
                let fewer = count_of-reject_le p (is_to r) (conns s) in
                let before = sym (n.balanced s r) ∙ ap (times s) gone in
                let after = bal r in
                subst (λ u. times u (sends' r) ≡ 0) (sym ((==_iff t s).0 m))
                  (omega (arith, fewer, before, after))
            | inr m ↦ others t r (λ e. true≢false (sym ((==_iff t s).1 e) ∙ m)) ∙ ap (times t) gone
          ]

  -- `~SignalBase`.
  pub destroy_signal-IsNet :
      (w' : World) × (destroy_signal g s w ≡ some w')
      × IsNet w' (assign conns s [])
      × (w'.signals s ≡ none)
      × ((a : ℕ) → a ≢ s → w'.signals a ≡ w.signals a)
      × SlotsStay w w'
      × (w'.being_destroyed ≡ (mark_destroyed x.activate_busy s w).being_destroyed)
  destroy_signal-IsNet =
      let (w', run, gone, elsewhere, are, destroyed, stay) =
        destroy_signal-SendersAre g s w x (conns s) n.sends x_eq (n.connections_are s x x_eq)
          n.senders_are (IsNet-ReceiversExist w conns n s) (IsNet-Known w conns n s) in
      (
        w',
        run,
        record {
          sends = λ r. reject (λ t. t == s) (n.sends r);
          connections_are = λ a y e.
              assign-elim (λ a c. w'.signals a ≡ some y → Holds y.connect_list c) conns s [] a
                (λ f. absurd (none-ne-some y (sym gone ∙ f)))
                (λ apart f. n.connections_are a y (sym (elsewhere a apart) ∙ f)) e;
          senders_are = are;
          no_signal = λ a e.
              assign-elim (λ a c. w'.signals a ≡ none → c ≡ []) conns s [] a (λ f. refl)
                (λ apart f. n.no_signal a (sym (elsewhere a apart) ∙ f)) e;
          no_slot = λ r e. ap (reject (λ t. t == s)) (n.no_slot r (SlotsStay-none w w' r stay e));
          balanced = λ a r.
              assign-elim (λ a c. times a (reject (λ t. t == s) (n.sends r)) ≡ links_to r c) conns s
                [] a (count_of-reject (λ t. t == s) (n.sends r))
                (λ apart.
                  count_of-reject_other (λ t. t == s) (λ t. t == a) (n.sends r)
                    (λ t. ==_apart t s a apart)
                  ∙ n.balanced a r);
          have = λ a. assign-elim (λ a c. HaveReceivers c) conns s [] a tt (λ apart. n.have a);
        },
        gone,
        elsewhere,
        stay,
        destroyed,
      )

-- `~SlotBase`.
pub destroy_slot-IsNet :
    (g r : ℕ) (w : World) (conns : ℕ → List ConnectStruct) (n : IsNet w conns) (y : SlotBase)
    → w.slots r ≡ some y
    → (w' : World) × (destroy_slot g r w ≡ some w')
      × IsNet w' (λ s. reject (is_to r) (conns s))
      × (w'.slots r ≡ none)
      × ((a : ℕ) → a ≢ r → w'.slots a ≡ w.slots a)
      × SignalsStay w w'
      × (w'.being_destroyed ≡ w.being_destroyed)
destroy_slot-IsNet g r w conns n y y_eq =
    let (w', run, gone, elsewhere, are, destroyed, stay) =
      destroy_slot-ConnectionsAre g r w y.possible_senders (n.sends r) conns y_eq
        (n.senders_are r y y_eq) n.connections_are (IsNet-SendersExist w conns n r)
        (IsNet-Remembered w conns n r) in
    (
      w',
      run,
      record {
        sends = assign n.sends r [];
        connections_are = are;
        senders_are = λ p z e.
            assign-elim (λ p v. w'.slots p ≡ some z → Holds z.possible_senders v) n.sends r [] p
              (λ f. absurd (none-ne-some z (sym gone ∙ f)))
              (λ apart f. n.senders_are p z (sym (elsewhere p apart) ∙ f)) e;
        no_signal = λ s e. ap (reject (is_to r)) (n.no_signal s (SignalsStay-none w w' s stay e));
        no_slot = λ p e.
            assign-elim (λ p v. w'.slots p ≡ none → v ≡ []) n.sends r [] p (λ f. refl)
              (λ apart f. n.no_slot p (sym (elsewhere p apart) ∙ f)) e;
        balanced = λ s p.
            assign-elim (λ p v. times s v ≡ links_to p (reject (is_to r) (conns s))) n.sends r [] p
              (sym (count_of-reject (is_to r) (conns s)))
              (λ apart.
                n.balanced s p
                ∙ sym (
                    count_of-reject_other (is_to r) (is_to p) (conns s)
                      (λ c. is_to_apart c r p apart)));
        have = λ s. HaveReceivers-reject (is_to r) (conns s) (n.have s);
      },
      gone,
      elsewhere,
      stay,
      destroyed,
    )
