-- ===== src/Activate/Quiet.antt =====
-- Slots that leave the sender alone, and what `activate` does with them.
use cs_signal.Prelude.{
  ℕ, ◌≡◌, refl, Bool, true, false, Option, none, some, List, [], ◌∷◌, if◌then◌else◌, ◌>>=◌,
}
use cs_signal.Bento.{Bento, TeaCup, Call, bento_eq}
use cs_signal.Connections.{
  ConnectStruct, ConnectionKind, SignalBase, SlotBase, auto_connection, direct_connection,
  queued_connection, blocking_queued_connection,
}
use cs_signal.Activate.{
  Machine, Completion, returned, threw, Action, PendingSlot, Environment, Emission, set_busy,
  is_destroyed, restore_locals, run_connection, run_call, queue,
}
use cs_signal.Activate.Locals.{SameLocals}
use cs_signal.Activate.Visit.{answer_of, Answers}
use cs_signal.Activate.Arguments.{Passed}

-- What a quiet step leaves as it is: the sender `s`, whether it is destroyed, the mutex, the
-- thread-local variables, and that receivers exist.
pub record Keeps (s : ℕ) (m m' : Machine) : Type 0 where
  pub sender_eq : m'.world.signals s ≡ m.world.signals s
  pub alive_eq : is_destroyed s m' ≡ is_destroyed s m
  pub mutex_eq : m'.destroyed_mutex ≡ m.destroyed_mutex
  pub locals : SameLocals m m'
  pub slots :
      (r : ℕ) (y : SlotBase)
      → m.world.slots r ≡ some y
      → (y' : SlotBase) × (m'.world.slots r ≡ some y')

abbrev pub IsQuiet : ℕ → Action → Type 0
IsQuiet s action =
    (m : Machine)
    → (done : Completion) × (m' : Machine) × (action m ≡ some (done, m')) × Keeps s m m'

-- Slots that leave the sender `s` alone, and a handler that does and returns. Slots may throw.
pub record QuietTo (s : ℕ) (env : Environment) : Type 0 where
  pub call_slot : (c : Call) → IsQuiet s (env.call_slot c)
  pub queue_slot : (p : PendingSlot) (kind : ConnectionKind) → IsQuiet s (env.queue_slot p kind)
  pub handler :
      (m : Machine)
      → (m' : Machine) × (env.handle_exception s m ≡ some (returned, m')) × Keeps s m m'
  pub compares : (r : ℕ) (m : Machine) → Answers env r m
  pub same_thread :
      (r : ℕ) (m : Machine) (x : SignalBase) (n : ℕ)
      → answer_of (env.compare_threads r (set_busy s x n m)) ≡ answer_of (env.compare_threads r m)

pub Keeps-refl : (s : ℕ) (m : Machine) → Keeps s m m
Keeps-refl s m = record {
  sender_eq = refl;
  alive_eq = refl;
  mutex_eq = refl;
  locals = (refl, refl);
  slots = λ r y e. (y, e);
}

module _ (s : ℕ) (env : Environment) (q : QuietTo s env) where
  run_call-IsQuiet : (o : Option Call) → IsQuiet s (run_call env.call_slot o)
  run_call-IsQuiet none m = (returned, m, refl, Keeps-refl s m)
  run_call-IsQuiet (some c) m = q.call_slot c m

  queue-IsQuiet :
      (g : Bento) (r : ℕ) (b : Bento) (copy : Bool) (left : List Passed) (kind : ConnectionKind)
      → IsQuiet s (queue env s g r b copy left kind)
  queue-IsQuiet g r b copy left kind m =
      let (done, m', run, k) = q.queue_slot _ kind _ in
      (
        done,
        m',
        run,
        record {
          sender_eq = k.sender_eq;
          alive_eq = k.alive_eq;
          mutex_eq = k.mutex_eq;
          locals = k.locals;
          slots = k.slots;
        },
      )

  -- However a connection reaches its slot, it is quiet.
  pub run_connection-IsQuiet :
      (g : Bento) (r : ℕ) (b : Bento) (cup : TeaCup) (left : List Passed) (kind : ConnectionKind)
      (same : Bool)
      → IsQuiet s (run_connection env s g r b cup left kind same)
  unfolding run_connection
  run_connection-IsQuiet g r b cup left auto_connection false m = queue-IsQuiet g r b true left _ m
  run_connection-IsQuiet g r b cup left auto_connection true m = run_call-IsQuiet _ m
  run_connection-IsQuiet g r b cup left queued_connection same m = queue-IsQuiet g r b true left _ m
  run_connection-IsQuiet g r b cup left blocking_queued_connection same m =
      queue-IsQuiet g r b false left _ m
  run_connection-IsQuiet g r b cup left direct_connection same m = run_call-IsQuiet _ m

-- `activate` without its list, its handle, `m_activateBusy` and the set of destroyed senders: the
-- slots of the connections of the signal, in order, and the handler for those that throw.
abbrev pub caught : Environment → Emission → Completion × Machine → Option Machine
caught env e (returned, m) = some m
caught env e (threw, m) = do
  (_, m') ← env.handle_exception e.sender (record (restore_locals e m) { destroyed_mutex = true })
  some (record m' { current_sender = some e.sender; destroyed_mutex = false })

unfoldable pub deliver : Environment → Emission → List ConnectStruct → Machine → Option Machine
deliver env e [] m = some m
deliver env e (c ∷ cs) m =
    if bento_eq c.signal_method e.signal
    then (do
      r ← c.receiver
      done ←
          run_connection env e.sender e.signal r c.slot_method e.data_pack e.left c.kind
            (answer_of (env.compare_threads r m)) m
      m' ← caught env e done
      deliver env e cs m')
    else deliver env e cs m
