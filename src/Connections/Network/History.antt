-- ===== src/Connections/Network/History.antt =====
-- What holds after every history.
use cs_signal.Prelude.{
  ℕ, ◌≡◌, refl, ap, ◌∙◌, Bool, true, false, Bool_cases, inl, inr, Option, some, is_some,
  is_some-elim, is_some-false, List, [], ◌∷◌,
}
use cs_signal.Connections.{ConnectionKind, SignalBase, SlotBase, World}
use cs_signal.Bento.{Bento}
use cs_signal.Connections.Lists.{busy_of}
use cs_signal.Connections.Connect.{Outcome, connection}
use cs_signal.Connections.Network.{
  Operation, Output, new_signal, new_slot, connects, disconnects, delete_signal, delete_slot,
  is_legal, perform, run_history, nothing, add_signal, add_slot, connect_as,
}
use cs_signal.Connections.Destroy.{mark_destroyed}
use cs_signal.Connections.Network.Specification.{
  Abstract, is_allowed, specified, specified_history, initial, link,
}
use cs_signal.Connections.Network.Linking.{LinksAs, connect_as-LinksAs}
use cs_signal.Connections.Network.Removal.{
  internal_disconnect-IsNet, destroy_signal-IsNet, destroy_slot-IsNet,
}
use cs_signal.Connections.Network.Represents.{
  resting, Represents, not_holds, both, nothing-Represents, rests, view-assign,
  add_signal-Represents, add_slot-Represents, is_legal-is_allowed, relinked-Represents,
}

-- A result that is a world representing an abstract state, with the output that goes with it.
abbrev pub Refines {ℓ} : {A : Type ℓ} → Option (A × World) → A × Abstract → Type ℓ
Refines run (out, a) = (w' : World) × (run ≡ some (out, w')) × Represents w' a

connect_as-Refines :
    (w : World) (a : Abstract) (run : Option (Outcome × World)) (s r : ℕ) (refused there : Bool)
    (signal slot : Bento) (kind : ConnectionKind) (x : SignalBase) (y : SlotBase)
    (x_eq : w.signals s ≡ some x) (y_eq : w.slots r ≡ some y) (k : Represents w a)
    → let c = connection signal r slot kind in
      LinksAs s r w a.links k.net x y x_eq y_eq run refused there c
      → Refines run (link refused there s c a)
connect_as-Refines w a run s r true there signal slot kind x y x_eq y_eq k
      (w', e, net, signals, slots, destroyed) =
    (w', e, relinked-Represents w w' a _ k net signals slots destroyed)
connect_as-Refines w a run s r false there signal slot kind x y x_eq y_eq k
      (w', e, net, signals, slots, destroyed) =
    (w', e, relinked-Represents w w' a _ k net signals slots destroyed)

unmarked :
    (s : ℕ) (w : World) (n : ℕ) → n ≡ 0 → (mark_destroyed n s w).being_destroyed ≡ w.being_destroyed
unmarked s w n e = rw e refl

pub perform-Refines :
    (g : ℕ) (o : Operation) (w : World) (a : Abstract)
    → Represents w a
    → is_legal o w ≡ true
    → Refines (perform g o w) (specified o a)
unfolding perform
perform-Refines g (new_signal s) w a k h = (
  add_signal s w,
  refl,
  add_signal-Represents s w a k (is_some-false (w.signals s) (not_holds _ h)),
)
perform-Refines g (new_slot r) w a k h =
    (add_slot r w, refl, add_slot-Represents r w a k (is_some-false (w.slots r) (not_holds _ h)))
perform-Refines g (connects o s signal r slot kind unique) w a k h =
    let (has_s, has_r) = both _ _ h in
    let (x, x_eq) = is_some-elim (w.signals s) has_s in
    let (y, y_eq) = is_some-elim (w.slots r) has_r in
    let (w', run, k') =
      connect_as-Refines w a (connect_as o g s signal r slot kind unique w) s r _ _ signal slot kind
        x y x_eq y_eq k
        (connect_as-LinksAs s r w a.links k.net x y x_eq y_eq o g signal slot kind unique) in
    (w', rw run refl, k')
perform-Refines g (disconnects s signal receiver slot) w a k h =
    let (x, x_eq) = is_some-elim (w.signals s) h in
    let (w', run, net, signals, slots, destroyed) =
      internal_disconnect-IsNet g s w a.links k.net x x_eq signal receiver slot in
    (w', rw run refl, relinked-Represents w w' a _ k net signals slots destroyed)
perform-Refines g (delete_signal s) w a k h =
    let (x, x_eq) = is_some-elim (w.signals s) h in
    let (w', run, net, gone, elsewhere, slots, marked) =
      destroy_signal-IsNet g s w a.links k.net x x_eq in
    (
      w',
      rw run refl,
      record {
        net = net;
        signals =
            view-assign busy_of resting w'.signals a.has_signal s false (ap busy_of gone)
              (λ t apart. ap busy_of (elsewhere t apart) ∙ k.signals t);
        slots = λ p. slots p ∙ k.slots p;
        destroyed = marked ∙ unmarked s w _ (rests w a k s x x_eq) ∙ k.destroyed;
      },
    )
perform-Refines g (delete_slot r) w a k h =
    let (y, y_eq) = is_some-elim (w.slots r) h in
    let (w', run, net, gone, elsewhere, signals, destroyed) =
      destroy_slot-IsNet g r w a.links k.net y y_eq in
    (
      w',
      rw run refl,
      record {
        net = net;
        signals = λ t. signals t ∙ k.signals t;
        slots =
            view-assign is_some (λ b. b) w'.slots a.has_slot r false (ap is_some gone)
              (λ p apart. ap is_some (elsewhere p apart) ∙ k.slots p);
        destroyed = destroyed ∙ k.destroyed;
      },
    )

history_step :
    (g : ℕ) (o : Operation) (os : List Operation) (w w₁ w' : World) (out : Output)
    (outs : List Output)
    → is_legal o w ≡ true
    → perform g o w ≡ some (out, w₁)
    → run_history g os w₁ ≡ some (outs, w')
    → run_history g (o ∷ os) w ≡ some (out ∷ outs, w')
unfolding run_history
history_step g o os w w₁ w' out outs m run rest = rw (m, run, rest) refl

history_skip :
    (g : ℕ) (o : Operation) (os : List Operation) (w : World)
    → is_legal o w ≡ false
    → run_history g (o ∷ os) w ≡ run_history g os w
unfolding run_history
history_skip g o os w m = rw m refl

pub history-Refines :
    (g : ℕ) (os : List Operation) (w : World) (a : Abstract)
    → Represents w a
    → Refines (run_history g os w) (specified_history os a)
unfolding run_history
history-Refines g [] w a k = (w, refl, k)
history-Refines g (o ∷ os) w a k = elim (Bool_cases (is_allowed o a)) [
  | inr m ↦
      let (w', run, k') = history-Refines g os w a k in
      rw m (w', history_skip g o os w (is_legal-is_allowed o w a k ∙ m) ∙ run, k')
  | inl m ↦
      let legal = is_legal-is_allowed o w a k ∙ m in
      let (w₁, run, k₁) = perform-Refines g o w a k legal in
      let (w', rest, k') = history-Refines g os w₁ _ k₁ in
      rw m (w', history_step g o os w w₁ w' _ _ legal run rest, k')
]

-- Every history of creations, connections by any overload, disconnections with any arguments and
-- destructions, in one thread and outside of `activate`, runs to its end without a fault, where the
-- operations on objects that do not exist are left out. It returns what the specification says, and
-- leaves the connections of the specification, in its order. The lists are in order and not locked,
-- and a receiver has as many pointers to a sender as there are connections from the sender to it.
pub run_history-Refines :
    (g : ℕ) (os : List Operation)
    → Refines (run_history g os nothing) (specified_history os initial)
run_history-Refines g os = history-Refines g os nothing initial nothing-Represents
