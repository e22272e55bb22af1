-- ===== src/Activate/Slots.antt =====
-- cs_slot.h and cs_slot.cpp: `PendingSlot`, the virtual functions of `SlotBase`, and how `activate`
-- has a slot called.
use cs_signal.Prelude.{ℕ, Bool, true, false, Option, none, some, List}
use cs_signal.RcuList.{Ptr}
use cs_signal.Bento.{Bento, TeaCup, Call, invoke}
use cs_signal.Activate.Arguments.{Memory, TypeTable, Passed, tea_cup_data}
use cs_signal.Connections.{
  World, ConnectionKind, auto_connection, direct_connection, queued_connection,
  blocking_queued_connection,
}

-- The objects, the program's own variables by their addresses, and what a thread sees: its two
-- thread-local variables, and whether it has the mutex of the set of destroyed senders.
pub record Machine : Type 0 where
  pub world : World
  pub current_sender : Ptr
  pub current_signal : Option Bento
  pub destroyed_mutex : Bool
  pub memory : Memory

pub data Completion : Type 0 where
  returned threw : Completion

-- `none` is a fault, or a wait that does not end.
abbrev pub Action : Type 0
Action = Machine → Option (Completion × Machine)

-- What `compareThreads` ends in.
pub data Comparison : Type 0 where
  answers : Bool → Comparison
  compare_threw : Comparison

pub record PendingSlot : Type 0 where
  pub sender : ℕ
  pub signal : Bento
  pub receiver : ℕ
  pub slot : Bento
  pub tea_cup : TeaCup

-- The code of the program: its types, the slots, and the virtual functions.
pub record Environment : Type 0 where
  pub types : TypeTable
  pub call_slot : Call → Action
  pub compare_threads : (receiver : ℕ) → Machine → Option (Comparison × Machine)
  pub queue_slot : PendingSlot → ConnectionKind → Action
  pub handle_exception : (sender : ℕ) → Action

abbrev pub run_call : (Call → Action) → Option Call → Action
run_call call none m = some (returned, m)
run_call call (some c) m = call c m

-- `invoke` of a slot on the receiver `r`.
abbrev pub invoke_slot : (ℕ → ℕ → Bool) → (Call → Action) → Bento → ℕ → TeaCup → Action
invoke_slot is_a call b r cup =
    run_call call (invoke b (some (record { addr = r; is_a = is_a r })) cup)

-- `PendingSlot::operator()`
abbrev pub run_pending : (ℕ → ℕ → Bool) → (Call → Action) → PendingSlot → Action
run_pending is_a call p = invoke_slot is_a call p.slot p.receiver p.tea_cup

-- `compareThreads` and `queueSlot` of `SlotBase`, and `handleException` of `SignalBase`.
abbrev pub base_compare_threads : ℕ → Machine → Option (Comparison × Machine)
base_compare_threads r m = some (answers true, m)

abbrev pub base_queue_slot :
    (ℕ → ℕ → Bool) → (Call → Action) → PendingSlot → ConnectionKind → Action
base_queue_slot is_a call p kind = run_pending is_a call p

abbrev pub base_handle_exception : ℕ → Action
base_handle_exception s m = some (returned, m)

-- A program that overrides nothing.
abbrev pub plain : TypeTable → (Call → Action) → Environment
plain types call = record {
  types = types;
  call_slot = call;
  compare_threads = base_compare_threads;
  queue_slot = base_queue_slot types.is_a call;
  handle_exception = base_handle_exception;
}

-- `SlotBase::sender`
abbrev pub slot_sender : Machine → Ptr
slot_sender m = m.current_sender

-- A `PendingSlot` with its own `TeaCup_Data`, for `queueSlot`.
abbrev pub queue :
    Environment
    → ℕ
    → Bento
    → ℕ
    → Bento
    → (needs_copying : Bool) → List Passed
    → ConnectionKind
    → Action
queue env s signal r b copy arguments kind m =
    let (cup, mem) = tea_cup_data env.types copy arguments m.memory in
    env.queue_slot (record { sender = s; signal = signal; receiver = r; slot = b; tea_cup = cup })
      kind (record m { memory = mem })

-- The three ways to a slot, by the kind of the connection and whether the receiver is in this
-- thread. A direct call has the tuple `cup` that the emission made; the others make one of what is
-- left of the arguments.
unfoldable pub run_connection :
    Environment → ℕ → Bento → ℕ → Bento → TeaCup → List Passed → ConnectionKind → Bool → Action
unfolding tea_cup_data
run_connection env s signal r b cup left auto_connection false =
    queue env s signal r b true left queued_connection
run_connection env s signal r b cup left auto_connection true =
    invoke_slot env.types.is_a env.call_slot b r cup
run_connection env s signal r b cup left queued_connection same =
    queue env s signal r b true left queued_connection
run_connection env s signal r b cup left blocking_queued_connection same =
    queue env s signal r b false left blocking_queued_connection
run_connection env s signal r b cup left direct_connection same =
    invoke_slot env.types.is_a env.call_slot b r cup
