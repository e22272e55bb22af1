-- ===== src/Connections/Network/Linking.antt =====
-- `connect` keeps the invariant.
use cs_signal.Prelude.{
  is_some, ℕ, ◌+◌, ◌≡◌, ◌≢◌, refl, sym, ap, ap₂, ◌∙◌, Bool, true, false, inl, inr, Option, some,
  List, [], ◌∷◌, ◌++◌, ◌==◌, ==_iff, if◌then◌else◌, any, arith, not, ◌&&◌,
}
use cs_signal.Bento.{Bento}
use cs_signal.Connections.{ConnectStruct, ConnectionKind, SignalBase, SlotBase, World, assign}
use cs_signal.Connections.Lists.{HasLists, SameElsewhere, elsewhere-SameView, busy_of}
use cs_signal.Connections.Connect.{Outcome, invalid_argument, returned, connection}
use cs_signal.Connections.Network.Specification.{is_refused, is_same}
use cs_signal.Connections.Destroy.Purge.{SlotsStay}
use cs_signal.Connections.Connect.Overloads.{
  Connects, connect_method-Connects, connect_lambda-Connects, connect_bento-Connects,
}
use cs_signal.Connections.Destroy.Unlink.{is_to, SignalsStay}
use cs_signal.Connections.Disconnect.Balance.{times, links_to}
use cs_signal.Connections.Network.{Overload, with_method, with_lambda, with_bento, connect_as}
use cs_signal.Connections.Network.Counting.{count_of-append, HaveReceivers-append, ==_apart}
use cs_signal.Connections.Network.Invariant.{IsNet}
use cs_signal.Connections.Network.Growth.{IsNet-change}

-- The counts behind a new connection from `s` to `r`.
module _ (s r : ℕ) (signal slot : Bento) (kind : ConnectionKind) (cs : List ConnectStruct)
    (ss : List ℕ) where
  abbrev new_link : ConnectStruct
  new_link = connection signal r slot kind

  new_balance :
      times s ss ≡ links_to r cs → times s (ss ++ s ∷ []) ≡ links_to r (cs ++ new_link ∷ [])
  new_balance b =
      let at_s : times s (s ∷ []) ≡ 1 = rw ((==_iff s s).1 refl) refl in
      let at_r : links_to r (new_link ∷ []) ≡ 1 = rw ((==_iff r r).1 refl) refl in
      count_of-append (λ t. t == s) ss (s ∷ [])
      ∙ ap₂ (λ i j. i + j) b (at_s ∙ sym at_r)
      ∙ sym (count_of-append (is_to r) cs (new_link ∷ []))

  other_times : (a : ℕ) → a ≢ s → times a (ss ++ s ∷ []) ≡ times a ss
  other_times a apart =
      let none_new : times a (s ∷ []) ≡ 0 =
        rw (==_apart s a s (λ e. apart (sym e)) ((==_iff s s).1 refl)) refl in
      count_of-append (λ t. t == a) ss (s ∷ []) ∙ ap (λ i. times a ss + i) none_new ∙ omega arith

  other_links : (p : ℕ) → p ≢ r → links_to p (cs ++ new_link ∷ []) ≡ links_to p cs
  other_links p apart =
      let none_new : links_to p (new_link ∷ []) ≡ 0 =
        rw (==_apart r p r (λ e. apart (sym e)) ((==_iff r r).1 refl)) refl in
      count_of-append (is_to p) cs (new_link ∷ [])
      ∙ ap (λ i. links_to p cs + i) none_new
      ∙ omega arith

module _ (s r : ℕ) (w : World) (conns : ℕ → List ConnectStruct) (n : IsNet w conns) (x : SignalBase)
    (y : SlotBase) (x_eq : w.signals s ≡ some x) (y_eq : w.slots r ≡ some y) where
  lists : HasLists w s r (conns s) (n.sends r)
  lists = record {
    sender = x;
    sender_eq = x_eq;
    connections = n.connections_are s x x_eq;
    receiver_list = y.possible_senders;
    receiver_eq = y_eq;
    senders = n.senders_are r y y_eq;
  }

  -- A call ends, the objects are the same, and the invariant holds of the new connections.
  abbrev pub LinksTo : Option (Outcome × World) → Outcome → (ℕ → List ConnectStruct) → Type 0
  LinksTo run out conns' =
      (w' : World) × (run ≡ some (out, w'))
      × IsNet w' conns'
      × SignalsStay w w'
      × SlotsStay w w'
      × (w'.being_destroyed ≡ w.being_destroyed)

  same_objects :
      (w' : World) (cs : List ConnectStruct) (ss : List ℕ)
      → HasLists w' s r cs ss
      → SameElsewhere w s r w'
      → SignalsStay w w' × SlotsStay w w'
  same_objects w' cs ss h same = (
    elsewhere-SameView busy_of w.signals w'.signals s same.busy_eq same.other_signals,
    elsewhere-SameView is_some w.slots w'.slots r (ap is_some h.receiver_eq ∙ sym (ap is_some y_eq))
        same.other_slots,
  )

  Connects-LinksTo :
      (run : Option (Outcome × World)) (there : Bool) (signal slot : Bento) (kind : ConnectionKind)
      → let c = connection signal r slot kind in
        Connects w s r run there c (conns s) (n.sends r)
        → LinksTo run
            (returned (not there))
            (assign conns s (if there then conns s else conns s ++ c ∷ []))
  Connects-LinksTo run true signal slot kind (w', e, h, same) =
      let (signals, slots) = same_objects w' _ _ h same in
      (
        w',
        e,
        IsNet-change w w' s r (conns s) (n.sends r) conns n h same (n.balanced s r) (λ a _. refl)
            (λ p _. refl) (n.have s),
        signals,
        slots,
        same.destroyed_eq,
      )
  Connects-LinksTo run false signal slot kind (w', e, h, same) =
      let (signals, slots) = same_objects w' _ _ h same in
      (
        w',
        e,
        IsNet-change w w' s r _ _ conns n h same
            (new_balance s r signal slot kind (conns s) (n.sends r) (n.balanced s r))
            (other_times s r signal slot kind (conns s) (n.sends r))
            (other_links s r signal slot kind (conns s) (n.sends r))
            (HaveReceivers-append (conns s) _ (n.have s) ((r, refl), tt)),
        signals,
        slots,
        same.destroyed_eq,
      )

  -- What `connect` is to do to the connections, by any overload.
  abbrev pub LinksAs : Option (Outcome × World) → Bool → Bool → ConnectStruct → Type 0
  LinksAs run true there c = LinksTo run invalid_argument conns
  LinksAs run false there c =
      LinksTo run (returned (not there))
        (assign conns s (if there then conns s else conns s ++ c ∷ []))

  refused-LinksAs :
      (run : Option (Outcome × World)) (refused there : Bool) (c : ConnectStruct)
      → refused ≡ true
      → run ≡ some (invalid_argument, w)
      → LinksAs run refused there c
  refused-LinksAs run refused there c m e = rw m (w, e, n, λ a. refl, λ a. refl, refl)

  Connects-LinksAs :
      (run : Option (Outcome × World)) (refused there : Bool) (signal slot : Bento)
      (kind : ConnectionKind)
      → refused ≡ false
      → Connects w s r run there (connection signal r slot kind) (conns s) (n.sends r)
      → LinksAs run refused there (connection signal r slot kind)
  Connects-LinksAs run refused there signal slot kind m c =
      rw m (Connects-LinksTo run there signal slot kind c)

  pub connect_as-LinksAs :
      (o : Overload) (g : ℕ) (signal slot : Bento) (kind : ConnectionKind) (unique : Bool)
      → let c = connection signal r slot kind in
        LinksAs
          (connect_as o g s signal r slot kind unique w)
          (is_refused o signal slot)
          (unique && any (is_same o c) (conns s))
          c
  unfolding connect_as
  connect_as-LinksAs with_method g signal slot kind unique =
      elim (connect_method-Connects g s signal r slot kind unique w _ _ lists) [
        | inl (m, e) ↦ refused-LinksAs _ _ _ _ m e
        | inr (m, c) ↦ Connects-LinksAs _ _ _ signal slot kind m c
      ]
  connect_as-LinksAs with_lambda g signal slot kind unique =
      elim (connect_lambda-Connects g s signal r slot kind unique w _ _ lists) [
        | inl (m, e) ↦ refused-LinksAs _ _ _ _ m e
        | inr (m, c) ↦ Connects-LinksAs _ _ _ signal slot kind m c
      ]
  connect_as-LinksAs with_bento g signal slot kind unique =
      Connects-LinksTo _ _ signal slot kind
        (connect_bento-Connects g s signal r slot kind unique w _ _ lists)
