-- ===== src/Activate.antt =====
-- cs_signal.h, cs_slot.h and cs_slot.cpp: `activate`, and the calls that it queues. The slots, and
-- what a program overrides of the virtual functions, are an `Environment`.
pub mod Arguments
mod Slots
pub mod Locals
pub mod Visit
pub mod Quiet
pub mod Folding
pub mod Mutex
pub mod Compare
pub mod Destroyed
pub mod First
pub mod Behind
pub mod Delivery
use cs_signal.Prelude.{
  ℕ, zero, suc, ◌+◌, Bool, true, false, Option, none, some, List, [], ◌∷◌, ◌==◌, if◌then◌else◌,
  ◌>>=◌, any, reject,
}
use cs_signal.RcuList.{Ptr, RcuList}
use cs_signal.RcuList.Iterator.{begin, dereference, increment}
use cs_signal.RcuList.Guard.{rcu_read_lock, unlock}
use cs_signal.Bento.{Bento, TeaCup, bento_eq}
use cs_signal.Activate.Arguments.{TypeTable, Passed, forwarded, pack}
use cs_signal.Connections.{ConnectStruct, SignalBase, World, assign, put_list}
unfoldable pub use Slots.*

-- What a call of `activate` keeps in its frame: `left` is what `data_pack` left of the arguments.
pub record Emission : Type 0 where
  pub sender : ℕ
  pub signal : Bento
  pub data_pack : TeaCup
  pub left : List Passed
  pub prior_sender : Ptr
  pub prior_signal : Option Bento

abbrev pub restore_locals : Emission → Machine → Machine
restore_locals e m = record m { current_sender = e.prior_sender; current_signal = e.prior_signal }

abbrev pub set_busy : ℕ → SignalBase → ℕ → Machine → Machine
set_busy s x n m = record m {
  world = record m.world {
    signals = assign m.world.signals s (some (record x { activate_busy = n }));
  };
}

-- `m_activateBusy--`. The count of a running activation is not zero.
abbrev pub pred_busy : ℕ → SignalBase → ℕ → Machine → Option Machine
pred_busy s x zero m = none
pred_busy s x (suc n) m = some (set_busy s x n m)

unfoldable pub decrement_busy : ℕ → Machine → Option Machine
decrement_busy s m = do x ← m.world.signals s; pred_busy s x x.activate_busy m

-- `std::lock_guard` on the mutex of the set of destroyed senders. A thread that has the mutex waits
-- for itself.
abbrev pub take_mutex : Bool → Machine → Option Machine
take_mutex true m = none
take_mutex false m = some (record m { destroyed_mutex = true })

unfoldable pub lock_destroyed : Machine → Option Machine
lock_destroyed m = take_mutex m.destroyed_mutex m

abbrev pub unlock_destroyed : Machine → Machine
unlock_destroyed m = record m { destroyed_mutex = false }

abbrev pub is_destroyed : ℕ → Machine → Bool
is_destroyed s m = any (λ t. t == s) m.world.being_destroyed

abbrev pub erase_destroyed : ℕ → List ℕ → List ℕ
erase_destroyed s ds = reject (λ t. t == s) ds

-- The outermost activation of a destroyed sender takes it out of the set.
abbrev pub forget_destroyed : ℕ → ℕ → Machine → Machine
forget_destroyed zero s m = record m {
  world = record m.world { being_destroyed = erase_destroyed s m.world.being_destroyed };
}
forget_destroyed (suc n) s m = m

-- How the loop goes on after a connection.
pub data Progress : Type 0 where
  go_on : Machine → Progress
  finish : Completion → Machine → Progress

abbrev pub next_connection : ℕ → Machine → Option Progress
next_connection s m = do m' ← decrement_busy s m; some (go_on m')

-- After `handleException`: it may throw, out of `activate`.
abbrev pub handled : ℕ → Completion × Machine → Option Progress
handled s (threw, m) = some (finish threw (unlock_destroyed m))
handled s (returned, m) =
    next_connection s (unlock_destroyed (record m { current_sender = some s }))

-- What stands behind the call of a slot, in the `try` block or in the `catch` block, and the
-- decrement. `old` is `old_activateBusy`.
unfoldable pub after_slot : Environment → Emission → ℕ → Completion × Machine → Option Progress
unfolding lock_destroyed
after_slot env e old (returned, m) = do
  m₁ ← lock_destroyed m
  if is_destroyed e.sender m₁
      then some
          (finish returned (unlock_destroyed (forget_destroyed old e.sender (restore_locals e m₁))))
      else next_connection e.sender (unlock_destroyed m₁)
after_slot env e old (threw, m) = do
  m₁ ← lock_destroyed (restore_locals e m)
  if is_destroyed e.sender m₁
      then some (finish returned (unlock_destroyed (forget_destroyed old e.sender m₁)))
      else (env.handle_exception e.sender m₁) >>= handled e.sender

-- The call of the slot under a raised `m_activateBusy`, behind `compareThreads`, which stands before
-- the `try` block: its exception leaves `activate`.
abbrev pub compared :
    Environment → Emission → ConnectStruct → ℕ → Comparison × Machine → Option Progress
compared env e c r (compare_threw, m) = some (finish threw m)
compared env e c r (answers same, m) = do
  x ← m.world.signals e.sender
  done ←
      run_connection env e.sender e.signal r c.slot_method e.data_pack e.left c.kind same
        (set_busy e.sender x (x.activate_busy + 1) m)
  after_slot env e x.activate_busy done

-- A connection whose receiver is `r`.
unfoldable pub visit_receiver :
    Environment → Emission → ConnectStruct → ℕ → Machine → Option Progress
unfolding run_connection after_slot
visit_receiver env e c r m = do
  _ ← m.world.slots r
  (env.compare_threads r m) >>= compared env e c r

-- The body of the loop.
unfoldable pub visit : Environment → Emission → ConnectStruct → Machine → Option Progress
unfolding visit_receiver
visit env e c m =
    if bento_eq c.signal_method e.signal
    then (do r ← c.receiver; visit_receiver env e c r m)
    else some (go_on m)

-- `++` on the iterator at `p`, in the list as the slot left it, and the rest of the loop.
abbrev pub advance :
    ℕ
    → ℕ
    → (Ptr → Machine → Option (Completion × Machine))
    → Progress
    → Option (Completion × Machine)
advance s p loop (finish done m) = some (done, m)
advance s p loop (go_on m) = do
  x ← m.world.signals s
  it ← increment (some p) x.connect_list
  loop it m

-- The loop over the connections. A slot may change the list, so that each round looks it up anew.
unfoldable pub activate_loop :
    Environment → Emission → ℕ → Ptr → Machine → Option (Completion × Machine)
unfolding visit
activate_loop env e zero it m = none
activate_loop env e (suc fuel) none m = some (returned, restore_locals e m)
activate_loop env e (suc fuel) (some p) m = do
  x ← m.world.signals e.sender
  c ← dereference (some p) x.connect_list
  progress ← visit env e c m
  advance e.sender p (activate_loop env e fuel) progress

-- The end of the read handle. If the sender is gone, the entry of the handle's guard is all that is
-- left of its list.
abbrev pub release_handle : ℕ → ℕ → Option SignalBase → Machine → Option Machine
release_handle z s none m = some m
release_handle z s (some x) m = do
  l ← unlock z x.connect_list
  some (record m { world = put_list s x l m.world })

abbrev pub conclude : ℕ → ℕ → Completion × Machine → Option (Completion × Machine)
conclude z s (done, m) = do m' ← release_handle z s (m.world.signals s) m; some (done, m')

-- The frame of a call, and the thread under its read handle.
abbrev pub emission : TypeTable → ℕ → Bento → List Passed → Machine → Emission
emission types s signal arguments m = record {
  sender = s;
  signal = signal;
  data_pack = pack arguments;
  left = forwarded types arguments;
  prior_sender = m.current_sender;
  prior_signal = m.current_signal;
}

abbrev pub entered : ℕ → Bento → SignalBase → RcuList ConnectStruct → Machine → Machine
entered s signal x l m = record {
  world = put_list s x l m.world;
  current_sender = some s;
  current_signal = some signal;
  destroyed_mutex = m.destroyed_mutex;
  memory = m.memory;
}

unfoldable pub activate :
    Environment → ℕ → ℕ → ℕ → Bento → List Passed → Machine → Option (Completion × Machine)
unfolding rcu_read_lock activate_loop
activate env fuel g s signal arguments m = do
  x ← m.world.signals s
  (z, l) ← some (rcu_read_lock g x.connect_list)
  done ←
      activate_loop env (emission env.types s signal arguments m) fuel (begin l)
        (entered s signal x l m)
  conclude z s done
