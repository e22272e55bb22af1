-- ===== src/Activate/Behind.antt =====
-- What stands behind a slot in `activate` if the slots leave the sender alone.
use cs_signal.Prelude.{ℕ, ◌+◌, ◌≡◌, refl, ap, ◌∙◌, true, false, Option, some, List, [], ◌∷◌, arith}
use cs_signal.RcuList.{RcuList}
use cs_signal.Bento.{Bento}
use cs_signal.Connections.{ConnectStruct, SignalBase, SlotBase}
use cs_signal.Connections.Lists.{assign_back}
use cs_signal.Activate.{
  Machine, Completion, returned, threw, Environment, Emission, go_on, set_busy, is_destroyed,
  restore_locals, after_slot,
}
use cs_signal.Activate.Visit.{after_slot_returned, after_slot_threw}
use cs_signal.Activate.Quiet.{Keeps, QuietTo, caught}

-- Every connection has a receiver that exists.
abbrev pub HasReceiver : (ℕ → Option SlotBase) → ConnectStruct → Type 0
HasReceiver slots c = (r : ℕ) × (y : SlotBase) × (c.receiver ≡ some r) × (slots r ≡ some y)

abbrev pub HaveReceivers : (ℕ → Option SlotBase) → List ConnectStruct → Type 0
HaveReceivers slots [] = Unit {0}
HaveReceivers slots (c ∷ cs) = HasReceiver slots c × HaveReceivers slots cs

pub HaveReceivers-Keeps :
    (s : ℕ) (m m' : Machine) (cs : List ConnectStruct)
    → Keeps s m m'
    → HaveReceivers m.world.slots cs
    → HaveReceivers m'.world.slots cs
HaveReceivers-Keeps s m m' [] k h = tt
HaveReceivers-Keeps s m m' (c ∷ cs) k ((r, y, r_eq, y_eq), h) =
    let (y', y_eq') = k.slots r y y_eq in ((r, y', r_eq, y_eq'), HaveReceivers-Keeps s m m' cs k h)

-- The sender with another list, and the thread with the sender `x`.
abbrev pub with_list : RcuList ConnectStruct → SignalBase → SignalBase
with_list l x = record x { connect_list = l }

abbrev pub raised : SignalBase → SignalBase
raised x = record x { activate_busy = x.activate_busy + 1 }

abbrev pub at_rest : ℕ → SignalBase → Machine → Machine
at_rest s x m = set_busy s x x.activate_busy m

pub set_busy-at_rest :
    (s : ℕ) (x : SignalBase) (m : Machine)
    → m.world.signals s ≡ some (raised x)
    → set_busy s x (x.activate_busy + 1) (at_rest s x m) ≡ m
set_busy-at_rest s x m e =
    ap (λ f. record m { world = record m.world { signals = f } })
      (assign_back m.world.signals s (some x) (some (raised x)) e)

-- The current signal behind a slot, which left it as the second argument.
abbrev pub signal_after : Emission → Completion → Option Bento → Option Bento
signal_after e returned signal = signal
signal_after e threw signal = e.prior_signal

module _ (e : Emission) (x : SignalBase) where
  -- The thread while a slot runs.
  pub record IsRaised (m : Machine) : Type 0 where
    pub sender_eq : m.world.signals e.sender ≡ some (raised x)
    pub alive : is_destroyed e.sender m ≡ false
    pub free : m.destroyed_mutex ≡ false

  pub Keeps-IsRaised : (m m' : Machine) → Keeps e.sender m m' → IsRaised m → IsRaised m'
  Keeps-IsRaised m m' k i = record {
    sender_eq = k.sender_eq ∙ i.sender_eq;
    alive = k.alive_eq ∙ i.alive;
    free = k.mutex_eq ∙ i.free;
  }

module _ (env : Environment) (e : Emission) (q : QuietTo e.sender env) (x : SignalBase) where
  -- What stands behind a quiet slot.
  pub after_slot-caught :
      (m : Machine) (cs : List ConnectStruct) (done : Completion)
      → IsRaised e x m
      → HaveReceivers m.world.slots cs
      → (m' : Machine) × (caught env e (done, m) ≡ some m')
        × (after_slot env e x.activate_busy (done, m) ≡ some (go_on (at_rest e.sender x m')))
        × IsRaised e x m'
        × HaveReceivers m'.world.slots cs
  after_slot-caught m cs returned i h = (
    m,
    refl,
    after_slot_returned env e x.activate_busy m x.activate_busy (raised x) i.free i.alive
        i.sender_eq (omega arith),
    i,
    h,
  )
  after_slot-caught m cs threw i h =
      let (m₂, run, k) = q.handler (record (restore_locals e m) { destroyed_mutex = true }) in
      (
        record m₂ { current_sender = some e.sender; destroyed_mutex = false },
        rw run refl,
        after_slot_threw env e x.activate_busy m x.activate_busy (raised x) m₂ i.free i.alive run
            (k.sender_eq ∙ i.sender_eq) (omega arith),
        record { sender_eq = k.sender_eq ∙ i.sender_eq; alive = k.alive_eq ∙ i.alive; free = refl },
        HaveReceivers-Keeps e.sender _ m₂ cs k h,
      )

  -- If the slots leave the sender alone, and it is not in the set of destroyed senders: behind a
  -- slot that returns, the loop goes on with the current signal as the slot left it, and behind one
  -- that throws with the one from before `activate`. The current sender is the emitting one in both
  -- cases.
  pub after_slot-current_signal :
      (m : Machine) (done : Completion)
      → IsRaised e x m
      → m.current_sender ≡ some e.sender
      → (m' : Machine) × (after_slot env e x.activate_busy (done, m)
          ≡ some (go_on (at_rest e.sender x m')))
        × (m'.current_sender ≡ some e.sender)
        × (m'.current_signal ≡ signal_after e done m.current_signal)
  after_slot-current_signal m returned i here = (
    m,
    after_slot_returned env e x.activate_busy m x.activate_busy (raised x) i.free i.alive
        i.sender_eq (omega arith),
    here,
    refl,
  )
  after_slot-current_signal m threw i here =
      let (m₂, run, k) = q.handler (record (restore_locals e m) { destroyed_mutex = true }) in
      (
        record m₂ { current_sender = some e.sender; destroyed_mutex = false },
        after_slot_threw env e x.activate_busy m x.activate_busy (raised x) m₂ i.free i.alive run
            (k.sender_eq ∙ i.sender_eq) (omega arith),
        refl,
        k.locals.1,
      )
