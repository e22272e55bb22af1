-- ===== src/Connections/Network/Growth.antt =====
-- New objects keep the invariant, and so does a new connection between them.
use cs_signal.Prelude.{ℕ, ◌≡◌, ◌≢◌, sym, subst, ◌∙◌, none, some, List, []}
use mathlib.Core.Option.{none-ne-some, some-injective}
use cs_signal.RcuList.{empty}
use cs_signal.SharedList.{Holds, empty-Holds}
use cs_signal.Connections.{ConnectStruct, SignalBase, SlotBase, World, assign}
use cs_signal.Connections.Lists.{HasLists, SameElsewhere}
use cs_signal.Connections.Disconnect.Balance.{times, links_to, HaveReceivers}
use cs_signal.Connections.Network.{add_signal, add_slot}
use cs_signal.Connections.Network.Invariant.{IsNet, assign-elim}

abbrev fresh_signal : SignalBase
fresh_signal = record { activate_busy = 0; connect_list = empty }

abbrev fresh_slot : SlotBase
fresh_slot = record { possible_senders = empty }

pub add_signal-IsNet :
    (s : ℕ) (w : World) (conns : ℕ → List ConnectStruct)
    → w.signals s ≡ none
    → IsNet w conns
    → IsNet (add_signal s w) conns
add_signal-IsNet s w conns unused n = record {
  sends = n.sends;
  connections_are = λ t x e.
      assign-elim (λ a o. o ≡ some x → Holds x.connect_list (conns a)) w.signals s
        (some fresh_signal) t
        (λ f.
          subst (λ (y : SignalBase). Holds y.connect_list (conns s))
            (some-injective fresh_signal x f)
            (subst (Holds empty) (sym (n.no_signal s unused)) empty-Holds))
        (λ apart f. n.connections_are t x f) e;
  senders_are = n.senders_are;
  no_signal = λ t e.
      assign-elim (λ a o. o ≡ none → conns a ≡ []) w.signals s (some fresh_signal) t
        (λ f. absurd (none-ne-some fresh_signal (sym f))) (λ apart f. n.no_signal t f) e;
  no_slot = n.no_slot;
  balanced = n.balanced;
  have = n.have;
}

pub add_slot-IsNet :
    (r : ℕ) (w : World) (conns : ℕ → List ConnectStruct)
    → w.slots r ≡ none
    → IsNet w conns
    → IsNet (add_slot r w) conns
add_slot-IsNet r w conns unused n = record {
  sends = n.sends;
  connections_are = n.connections_are;
  senders_are = λ p y e.
      assign-elim (λ a o. o ≡ some y → Holds y.possible_senders (n.sends a)) w.slots r
        (some fresh_slot) p
        (λ f.
          subst (λ (z : SlotBase). Holds z.possible_senders (n.sends r))
            (some-injective fresh_slot y f)
            (subst (Holds empty) (sym (n.no_slot r unused)) empty-Holds))
        (λ apart f. n.senders_are p y f) e;
  no_signal = n.no_signal;
  no_slot = λ p e.
      assign-elim (λ a o. o ≡ none → n.sends a ≡ []) w.slots r (some fresh_slot) p
        (λ f. absurd (none-ne-some fresh_slot (sym f))) (λ apart f. n.no_slot p f) e;
  balanced = n.balanced;
  have = n.have;
}

-- A change of the lists of one sender and of one receiver that keeps the balance.
pub IsNet-change :
    (w w' : World) (s r : ℕ) (cs : List ConnectStruct) (ss : List ℕ)
    (conns : ℕ → List ConnectStruct) (n : IsNet w conns)
    → HasLists w' s r cs ss
    → SameElsewhere w s r w'
    → times s ss ≡ links_to r cs
    → ((a : ℕ) → a ≢ s → times a ss ≡ times a (n.sends r))
    → ((p : ℕ) → p ≢ r → links_to p cs ≡ links_to p (conns s))
    → HaveReceivers cs
    → IsNet w' (assign conns s cs)
IsNet-change w w' s r cs ss conns n h same here at_r at_s have = record {
  sends = assign n.sends r ss;
  connections_are = λ a x e.
      assign-elim (λ a c. w'.signals a ≡ some x → Holds x.connect_list c) conns s cs a
        (λ f.
          subst (λ (y : SignalBase). Holds y.connect_list cs)
            (some-injective h.sender x (sym h.sender_eq ∙ f)) h.connections)
        (λ apart f. n.connections_are a x (sym (same.other_signals a apart) ∙ f)) e;
  senders_are = λ p y e.
      assign-elim (λ p v. w'.slots p ≡ some y → Holds y.possible_senders v) n.sends r ss p
        (λ f.
          subst (λ (z : SlotBase). Holds z.possible_senders ss)
            (some-injective (record { possible_senders = h.receiver_list }) y
              (sym h.receiver_eq ∙ f))
            h.senders)
        (λ apart f. n.senders_are p y (sym (same.other_slots p apart) ∙ f)) e;
  no_signal = λ a e.
      assign-elim (λ a c. w'.signals a ≡ none → c ≡ []) conns s cs a
        (λ f. absurd (none-ne-some h.sender (sym f ∙ h.sender_eq)))
        (λ apart f. n.no_signal a (sym (same.other_signals a apart) ∙ f)) e;
  no_slot = λ p e.
      assign-elim (λ p v. w'.slots p ≡ none → v ≡ []) n.sends r ss p
        (λ f. absurd (none-ne-some _ (sym f ∙ h.receiver_eq)))
        (λ apart f. n.no_slot p (sym (same.other_slots p apart) ∙ f)) e;
  balanced = λ a p.
      assign-elim (λ a c. times a (assign n.sends r ss p) ≡ links_to p c) conns s cs a
        (assign-elim (λ p v. times s v ≡ links_to p cs) n.sends r ss p here
          (λ apart. n.balanced s p ∙ sym (at_s p apart)))
        (λ apart.
          assign-elim (λ p v. times a v ≡ links_to p (conns a)) n.sends r ss p
            (at_r a apart ∙ n.balanced a r) (λ _. n.balanced a p));
  have = λ a. assign-elim (λ a c. HaveReceivers c) conns s cs a have (λ apart. n.have a);
}
