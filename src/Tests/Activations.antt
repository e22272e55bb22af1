-- ===== src/Tests/Activations.antt =====
-- The theorems on `activate` at the world of one sender, one receiver and one connection.
use cs_signal.Prelude.{
  ℕ, ◌≡◌, refl, sym, ap, true, false, ◌==◌, ◌>>=◌, reject, none, some, Option, List, [], ◌∷◌, arith,
}
use mathlib.Core.Option.{some-injective}
use cs_signal.RcuList.{RcuList}
use cs_signal.RcuList.Guard.{unlock}
use cs_signal.SharedList.{Holds, lock_read}
use cs_signal.Bento.{bento_eq, Call, dynamic_cast, invoke}
use cs_signal.Connections.{ConnectStruct, assign, World, put_list}
use cs_signal.Connections.Lists.{assign_same}
use cs_signal.Connections.Destroy.{destroy_signal}
use cs_signal.Connections.Destroy.Purge.{SendersAre}
use cs_signal.Activate.Arguments.{TypeTable, Passed}
use cs_signal.Activate.Compare.{activate-compare_threads}
use cs_signal.Activate.{
  Machine, Completion, returned, threw, Environment, plain, run_call, go_on, after_slot, activate,
  emission, run_connection, decrement_busy, answers, compare_threw,
}
use cs_signal.Activate.Visit.{call_of}
use cs_signal.Activate.First.{starting}
use cs_signal.Activate.Locals.{
  SameLocals, HandlerKeeps, NeverThrows, answers-ne-compare_threw, activate-SameLocals,
}
use cs_signal.Activate.Quiet.{QuietTo, IsQuiet, Keeps-refl, deliver}
use cs_signal.Activate.Folding.{Effect, calm, effects, activate-effects}
use cs_signal.Activate.Delivery.{activate-deliver, delivering, delivered}
use cs_signal.Activate.Behind.{at_rest, after_slot-current_signal}
use cs_signal.Activate.Destroyed.{activate-destroy_signal, under_handle, running, Locked-Holds}
use cs_signal.Activate.Mutex.{activate-handle_exception, Serves, first_call}
use cs_signal.Tests.{one_item, one_item-Holds}
use cs_signal.Tests.Networks.{
  clicked, link, sender, receiver, network, known_senders, network-SendersAre,
  network-ReceiversExist, network-Known,
}

abbrev pub ready : Machine
ready = record {
  world = network;
  current_sender = some 9;
  current_signal = none;
  destroyed_mutex = false;
  memory = record { cells = λ _. 0; next = 50 };
}

-- The type 101 is a reference, and a moved value of another type is 0.
abbrev pub table : TypeTable
table = record { is_a = λ r k. true; is_reference = λ t. t == 101; left_by_move = λ t. 0 }

-- An rvalue of the type 100, and a reference to the variable 6.
abbrev pub arguments : List Passed
arguments =
    record { type = 100; value = 5; is_rvalue = true }
    ∷ record { type = 101; value = 6; is_rvalue = false }
    ∷ []

abbrev pub first_or : ℕ → List ℕ → ℕ
first_or d [] = d
first_or d (x ∷ xs) = x

-- Slots that store their first argument.
abbrev stored : Effect
stored c mem = record mem { cells = assign mem.cells 0 (first_or 0 c.arguments) }

-- A slot that does, and then throws.
abbrev storing : Environment
storing = plain table (λ c m. some (threw, record m { memory = stored c m.memory }))

abbrev result_or : Completion × Machine → Option (Completion × Machine) → Completion × Machine
result_or d none = d
result_or d (some r) = r

abbrev memory_of : Option (Completion × Machine) → Option ℕ
memory_of o = do (_, m) ← o; some (m.memory.cells 0)

-- The slot has the first argument of the signal, and its exception does not leave `activate`.
storing_stores : memory_of (activate storing 5 70 1 clicked arguments ready) ≡ some 5
unfolding activate run_connection invoke dynamic_cast bento_eq assign decrement_busy unlock
storing_stores = refl

storing-HandlerKeeps : HandlerKeeps storing
storing-HandlerKeeps s m done m' e =
    let same : (returned, m) ≡ (done, m') = some-injective (returned, m) (done, m') e in
    let back = sym same in
    (
      ap (λ (r : Completion × Machine). r.1.current_sender) back,
      ap (λ (r : Completion × Machine). r.1.current_signal) back,
    )

storing-NeverThrows : NeverThrows storing
storing-NeverThrows r m m' e = answers-ne-compare_threw true m m' e

storing_run :
    activate storing 5 70 1 clicked arguments ready
    ≡ some (result_or (returned, ready) (activate storing 5 70 1 clicked arguments ready))
unfolding activate run_connection invoke dynamic_cast bento_eq assign decrement_busy unlock
storing_run = refl

activate-SameLocals_example :
    SameLocals ready
      (result_or (returned, ready) (activate storing 5 70 1 clicked arguments ready)).1
activate-SameLocals_example =
    activate-SameLocals storing 5 70 1 clicked arguments ready
      (result_or (returned, ready) (activate storing 5 70 1 clicked arguments ready)).0
      (result_or (returned, ready) (activate storing 5 70 1 clicked arguments ready)).1
      storing-HandlerKeeps storing-NeverThrows storing_run

storing-IsQuiet : (o : Option Call) → IsQuiet 1 (run_call storing.call_slot o)
storing-IsQuiet none m = (returned, m, refl, Keeps-refl 1 m)
storing-IsQuiet (some c) m = (
  threw,
  record m { memory = stored c m.memory },
  refl,
  record {
    sender_eq = refl;
    alive_eq = refl;
    mutex_eq = refl;
    locals = (refl, refl);
    slots = λ r y e. (y, e);
  },
)

storing-QuietTo : QuietTo 1 storing
storing-QuietTo = record {
  call_slot = λ c. storing-IsQuiet (some c);
  queue_slot = λ p kind. storing-IsQuiet _;
  handler = λ m. (m, refl, Keeps-refl 1 m);
  compares = λ r m. refl;
  same_thread = λ r m x n. refl;
}

activate-deliver_example :
    (m' : Machine) × (l : RcuList ConnectStruct) × (deliver storing
        (emission table 1 clicked arguments ready)
        (link ∷ [])
        (delivering 70 1 clicked sender ready)
      ≡ some m')
    × (activate storing 5 70 1 clicked arguments ready
        ≡ some (returned, delivered 1 sender l ready m'))
    × Holds l (link ∷ [])
activate-deliver_example =
    activate-deliver storing 5 70 1 clicked arguments ready sender (link ∷ []) storing-QuietTo refl
      (one_item-Holds link) ((2, receiver, refl, refl), tt) refl refl (omega arith)

-- A slot that destroys the sender 1.
abbrev destroying : Environment
destroying =
    plain table (λ c m. do w ← destroy_signal 80 1 m.world; some (returned, record m { world = w }))

destroying_call :
    (w : World)
    → destroy_signal 80 1 (running 70 1 clicked sender ready).world ≡ some w
    → call_of destroying
        (emission table 1 clicked arguments ready)
        link
        (under_handle 70 sender)
        2
        (starting 70 1 clicked sender ready)
      ≡ some (returned, record (running 70 1 clicked sender ready) { world = w })
unfolding run_connection invoke dynamic_cast
destroying_call w e =
    ap (λ o. do v ← o; some (returned, record (running 70 1 clicked sender ready) { world = v })) e

activate-destroy_signal_example :
    (m' : Machine) × (activate destroying 5 70 1 clicked arguments ready ≡ some (returned, m'))
    × (m'.world.signals 1 ≡ none)
    × SendersAre m'.world (λ p. reject (λ t. t == 1) (known_senders p))
    × (m'.world.being_destroyed ≡ 1 ∷ [])
    × SameLocals ready m'
unfolding bento_eq
activate-destroy_signal_example =
    activate-destroy_signal destroying 5 70 1 clicked arguments ready sender (link ∷ []) link 2
      receiver refl (one_item-Holds link) refl refl refl refl (omega arith) 80 returned
      known_senders destroying_call refl refl network-SendersAre network-ReceiversExist
      network-Known

-- A slot that throws, and a handler that emits the signal again.
abbrev reporting : Environment
reporting = record {
  types = table;
  call_slot = λ c m. some (threw, m);
  compare_threads = λ r m. some (answers true, m);
  queue_slot = λ p kind m. some (threw, m);
  handle_exception = λ s m. activate storing 5 71 1 clicked arguments m;
}

network-Serves : Serves 1 clicked network (link ∷ [])
unfolding bento_eq
network-Serves = record {
  object = sender;
  object_eq = refl;
  holds = one_item-Holds link;
  connection = link;
  found = refl;
  receiver = 2;
  slot = receiver;
  receiver_eq = refl;
  slot_eq = refl;
}

running-Serves : Serves 1 clicked (running 70 1 clicked sender ready).world (link ∷ [])
unfolding bento_eq
running-Serves = record {
  object = record (under_handle 70 sender) { activate_busy = 2 };
  object_eq = assign_same _ 1 _;
  holds =
      Locked-Holds _ _ (link ∷ []) (lock_read 70 (one_item link) (link ∷ []) (one_item-Holds link));
  connection = link;
  found = refl;
  receiver = 2;
  slot = receiver;
  receiver_eq = refl;
  slot_eq = refl;
}

reporting_call :
    first_call reporting 70 1 clicked arguments ready (link ∷ []) network-Serves
    ≡ some (threw, running 70 1 clicked sender ready)
unfolding run_connection invoke dynamic_cast network-Serves
reporting_call = refl

activate-handle_exception_example : activate reporting 5 70 1 clicked arguments ready ≡ none
activate-handle_exception_example =
    activate-handle_exception reporting 5 70 1 clicked arguments ready (link ∷ []) network-Serves
      (running 70 1 clicked sender ready) storing 5 71 1 clicked arguments (link ∷ []) (omega arith)
      reporting_call refl refl refl (λ k. refl) storing-QuietTo running-Serves (omega arith)

activate-effects_example :
    (l : RcuList ConnectStruct) × (activate (calm table stored) 5 70 1 clicked arguments ready
      ≡ some (
        returned,
        record ready {
          world = put_list 1 sender l network;
          memory = effects table stored clicked arguments (link ∷ []) ready.memory;
        },
      ))
    × Holds l (link ∷ [])
activate-effects_example =
    activate-effects table stored clicked arguments 5 70 1 ready sender (link ∷ []) refl
      (one_item-Holds link) ((2, receiver, refl, refl), tt) refl refl (omega arith)

after_slot-current_signal_example :
    (m' : Machine) × (after_slot storing
        (emission table 1 clicked arguments ready)
        1
        (threw, running 70 1 clicked sender ready)
      ≡ some (go_on (at_rest 1 (under_handle 70 sender) m')))
    × (m'.current_sender ≡ some 1)
    × (m'.current_signal ≡ none)
after_slot-current_signal_example =
    after_slot-current_signal storing (emission table 1 clicked arguments ready) storing-QuietTo
      (under_handle 70 sender) (running 70 1 clicked sender ready) threw
      (record { sender_eq = assign_same _ 1 _; alive = refl; free = refl }) refl

-- A receiver whose `compareThreads` throws.
abbrev comparing : Environment
comparing = record storing { compare_threads = λ r m. some (compare_threw, m) }

activate-compare_threads_example :
    (m' : Machine) × (l : RcuList ConnectStruct) × (activate comparing 5 70 1 clicked arguments
        ready
      ≡ some (threw, m'))
    × (m'.current_sender ≡ some 1)
    × (m'.current_signal ≡ some clicked)
    × (m'.world.signals 1 ≡ some (record sender { connect_list = l }))
    × Holds l (link ∷ [])
unfolding bento_eq
activate-compare_threads_example =
    activate-compare_threads comparing 5 70 1 clicked arguments ready sender (link ∷ []) link 2
      receiver refl (one_item-Holds link) refl refl refl (omega arith) refl
