-- ===== src/Connections/Network/Represents.antt =====
-- The worlds that represent an abstract state, which objects exist and how they are connected.
use cs_signal.Prelude.{
  sym, ℕ, ◌≡◌, ◌≢◌, refl, ap, ap₂, ◌∙◌, Bool, true, false, not, ◌&&◌, Option, none, some, is_some,
  List, [], arith,
}
use mathlib.Core.Option.{none-ne-some, some-injective}
use cs_signal.Connections.{ConnectStruct, SignalBase, World, assign}
use cs_signal.Connections.Lists.{busy_of, assign_same, assign_other}
use cs_signal.Connections.Network.{
  Operation, new_signal, new_slot, connects, disconnects, delete_signal, delete_slot, is_legal,
  nothing, add_signal, add_slot,
}
use cs_signal.Connections.Network.Specification.{Abstract, is_allowed, initial}
use cs_signal.Connections.Network.Invariant.{IsNet, assign-elim}
use cs_signal.Connections.Network.Growth.{add_signal-IsNet, add_slot-IsNet}
use cs_signal.Connections.Destroy.Unlink.{SignalsStay}
use cs_signal.Connections.Destroy.Purge.{SlotsStay}

-- `m_activateBusy` of a sender that exists, or does not, where no `activate` runs.
abbrev pub resting : Bool → Option ℕ
resting false = none
resting true = some 0

is_some-resting : (b : Bool) → is_some (resting b) ≡ b
is_some-resting false = refl
is_some-resting true = refl

resting_zero : (b : Bool) (n : ℕ) → resting b ≡ some n → n ≡ 0
resting_zero false n e = absurd (none-ne-some n e)
resting_zero true n e = sym (some-injective 0 n e)

is_some-busy_of : (o : Option SignalBase) → is_some (busy_of o) ≡ is_some o
is_some-busy_of none = refl
is_some-busy_of (some x) = refl

-- The world has the objects of the abstract state, with its connections, and keeps the invariant.
pub record Represents (w : World) (a : Abstract) : Type 0 where
  pub net : IsNet w a.links
  pub signals : (s : ℕ) → busy_of (w.signals s) ≡ resting (a.has_signal s)
  pub slots : (r : ℕ) → is_some (w.slots r) ≡ a.has_slot r
  pub destroyed : w.being_destroyed ≡ []

pub not_holds : (b : Bool) → not b ≡ true → b ≡ false
not_holds b h = ground arith

pub both : (a b : Bool) → (a && b) ≡ true → (a ≡ true) × (b ≡ true)
both a b h = ground arith

pub nothing-Represents : Represents nothing initial
nothing-Represents = record {
  net = record {
    sends = λ r. [];
    connections_are = λ s x e. absurd (none-ne-some x e);
    senders_are = λ r y e. absurd (none-ne-some y e);
    no_signal = λ s e. refl;
    no_slot = λ r e. refl;
    balanced = λ s r. refl;
    have = λ s. tt;
  };
  signals = λ s. refl;
  slots = λ r. refl;
  destroyed = refl;
}

module _ (w : World) (a : Abstract) (k : Represents w a) where
  pub has_signal_eq : (s : ℕ) → is_some (w.signals s) ≡ a.has_signal s
  has_signal_eq s =
      sym (is_some-busy_of (w.signals s))
      ∙ ap is_some (k.signals s)
      ∙ is_some-resting (a.has_signal s)

  -- No `activate` runs.
  pub rests : (s : ℕ) (x : SignalBase) → w.signals s ≡ some x → x.activate_busy ≡ 0
  rests s x e = resting_zero (a.has_signal s) x.activate_busy (sym (k.signals s) ∙ ap busy_of e)

-- What a reader `k` sees, where one address has changed.
pub view-assign {ℓ κ} :
    {A : Type ℓ} {B : Type κ} (k : Option A → B) (e : Bool → B) (f : ℕ → Option A) (h : ℕ → Bool)
    (p : ℕ) (b : Bool)
    → k (f p) ≡ e b
    → ((a : ℕ) → a ≢ p → k (f a) ≡ e (h a))
    → (a : ℕ) → k (f a) ≡ e (assign h p b a)
view-assign k e f h p b here there a = assign-elim (λ c v. k (f c) ≡ e v) h p b a here (there a)

pub add_signal-Represents :
    (s : ℕ) (w : World) (a : Abstract)
    → Represents w a
    → w.signals s ≡ none
    → Represents (add_signal s w) (record a { has_signal = assign a.has_signal s true })
add_signal-Represents s w a k unused = record {
  net = add_signal-IsNet s w a.links unused k.net;
  signals =
      view-assign busy_of resting (add_signal s w).signals a.has_signal s true
        (ap busy_of (assign_same w.signals s _))
        (λ t apart. ap busy_of (assign_other w.signals s t _ apart) ∙ k.signals t);
  slots = k.slots;
  destroyed = k.destroyed;
}

pub add_slot-Represents :
    (r : ℕ) (w : World) (a : Abstract)
    → Represents w a
    → w.slots r ≡ none
    → Represents (add_slot r w) (record a { has_slot = assign a.has_slot r true })
add_slot-Represents r w a k unused = record {
  net = add_slot-IsNet r w a.links unused k.net;
  signals = k.signals;
  slots =
      view-assign is_some (λ b. b) (add_slot r w).slots a.has_slot r true
        (ap is_some (assign_same w.slots r _))
        (λ p apart. ap is_some (assign_other w.slots r p _ apart) ∙ k.slots p);
  destroyed = k.destroyed;
}

pub is_legal-is_allowed :
    (o : Operation) (w : World) (a : Abstract) → Represents w a → is_legal o w ≡ is_allowed o a
is_legal-is_allowed (new_signal s) w a k = ap not (has_signal_eq w a k s)
is_legal-is_allowed (new_slot r) w a k = ap not (k.slots r)
is_legal-is_allowed (connects o s signal r slot kind unique) w a k =
    ap₂ (λ i j. i && j) (has_signal_eq w a k s) (k.slots r)
is_legal-is_allowed (disconnects s signal receiver slot) w a k = has_signal_eq w a k s
is_legal-is_allowed (delete_signal s) w a k = has_signal_eq w a k s
is_legal-is_allowed (delete_slot r) w a k = k.slots r

-- The same objects, with other connections.
pub relinked-Represents :
    (w w' : World) (a : Abstract) (links : ℕ → List ConnectStruct)
    → Represents w a
    → IsNet w' links
    → SignalsStay w w'
    → SlotsStay w w'
    → w'.being_destroyed ≡ w.being_destroyed
    → Represents w' (record a { links = links })
relinked-Represents w w' a links k net signals slots destroyed = record {
  net = net;
  signals = λ t. signals t ∙ k.signals t;
  slots = λ p. slots p ∙ k.slots p;
  destroyed = destroyed ∙ k.destroyed;
}
