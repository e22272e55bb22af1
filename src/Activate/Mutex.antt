-- ===== src/Activate/Mutex.antt =====
-- The mutex of the set of destroyed senders, which `activate` has while `handleException` runs.
use cs_signal.Prelude.{
  ℕ, suc, ◌+◌, ◌<◌, ◌≡◌, refl, ◌∙◌, true, false, Option, none, some, List, length,
}
use cs_signal.RcuList.{Ptr}
use cs_signal.RcuList.Chain.{live_node}
use cs_signal.SharedList.{Holds}
use cs_signal.Bento.{Bento}
use cs_signal.Connections.{ConnectStruct, SignalBase, SlotBase, World}
use cs_signal.Connections.Lists.{assign_same}
use cs_signal.Activate.Arguments.{Passed, pack, forwarded}
use cs_signal.Activate.{
  Machine, Completion, threw, Environment, Emission, is_destroyed, restore_locals, activate_loop,
  activate, after_slot, visit, emission, set_busy,
}
use cs_signal.Activate.Visit.{
  answer_of, Answers, call_of, Visits, visit-after_slot, after_slot_waits, after_slot_stuck, locked,
}
use cs_signal.Activate.Quiet.{QuietTo, run_connection-IsQuiet}
use cs_signal.Activate.First.{first_match, first_match-bento_eq, starting, activate_at_first}
use cs_signal.Activate.Destroyed.{under_handle}

stuck_run :
    (env : Environment) (e : Emission) (left p : ℕ) (x : SignalBase) (c : ConnectStruct)
    (next back : Ptr) (m : Machine)
    → m.world.signals e.sender ≡ some x
    → x.connect_list.nodes p ≡ some (live_node next back c)
    → visit env e c m ≡ none
    → activate_loop env e (suc left) (some p) m ≡ none
unfolding activate_loop
stuck_run env e left p x c next back m x_eq node visited = rw (x_eq, node, visited) refl

-- The sender `s` has the connections `cs`, of which `connection` is the first of the signal, to a
-- receiver that exists.
pub record Serves (s : ℕ) (signal : Bento) (w : World) (cs : List ConnectStruct) : Type 0 where
  pub object : SignalBase
  pub object_eq : w.signals s ≡ some object
  pub holds : Holds object.connect_list cs
  pub connection : ConnectStruct
  pub found : first_match signal cs ≡ some connection
  pub receiver : ℕ
  pub slot : SlotBase
  pub receiver_eq : connection.receiver ≡ some receiver
  pub slot_eq : w.slots receiver ≡ some slot

-- The call of the first slot.
abbrev pub first_call :
    (env : Environment) (g s : ℕ) (signal : Bento) (arguments : List Passed) (m : Machine)
    (cs : List ConnectStruct)
    → Serves s signal m.world cs
    → Option (Completion × Machine)
first_call env g s signal arguments m cs v =
    call_of env (emission env.types s signal arguments m) v.connection (under_handle g v.object)
      v.receiver (starting g s signal v.object m)

module _ (env : Environment) (fuel g s : ℕ) (signal : Bento) (arguments : List Passed) (m : Machine)
    (cs : List ConnectStruct) (v : Serves s signal m.world cs) (enough : length cs < fuel) where
  activate_stuck :
      (done : Completion × Machine)
      → first_call env g s signal arguments m cs v ≡ some done
      → Answers env v.receiver (starting g s signal v.object m)
      → after_slot env (emission env.types s signal arguments m) v.object.activate_busy done ≡ none
      → activate env fuel g s signal arguments m ≡ none
  activate_stuck done call compare_eq stuck =
      let e = emission env.types s signal arguments m in
      let visits : Visits env e v.connection (under_handle g v.object) v.receiver v.slot
          (starting g s signal v.object m) =
        record {
          match = first_match-bento_eq signal cs v.connection v.found;
          receiver_eq = v.receiver_eq;
          slot_eq = v.slot_eq;
          sender_eq = assign_same m.world.signals s _;
          compare_eq = compare_eq;
        } in
      let visited =
        visit-after_slot env e v.connection (under_handle g v.object) v.receiver v.slot
          (starting g s signal v.object m) visits done call
        ∙ stuck in
      activate_at_first env fuel g s signal arguments m v.object cs v.connection v.object_eq v.holds
        v.found enough none
        (λ left p next back node.
          stuck_run env e left p (under_handle g v.object) v.connection next back _
            (assign_same m.world.signals s _) node visited)

  -- A thread that has the mutex does not come back from `activate` where a slot is to be called,
  -- though the slot itself returns.
  activate_waits :
      QuietTo s env → m.destroyed_mutex ≡ true → activate env fuel g s signal arguments m ≡ none
  activate_waits q held =
      let c = v.connection in
      let start = starting g s signal v.object m in
      let x = under_handle g v.object in
      let (done, m₁, call, k) =
        run_connection-IsQuiet s env q signal v.receiver c.slot_method (pack arguments)
          (forwarded env.types arguments) c.kind (answer_of (env.compare_threads v.receiver start))
          (set_busy s x (x.activate_busy + 1) start) in
      activate_stuck (done, m₁) call (q.compares v.receiver start)
        (after_slot_waits env (emission env.types s signal arguments m) x.activate_busy m₁ done
          (k.mutex_eq ∙ held))

-- If the first slot of a signal throws, whose receiver answers `compareThreads` without a change,
-- its sender is not in the set of destroyed senders, and `handleException` activates a signal that
-- has a slot to be called, one that leaves its sender alone, then `activate` never ends: the thread
-- waits for the mutex that it took itself.
pub activate-handle_exception :
    (env : Environment) (fuel g s : ℕ) (signal : Bento) (arguments : List Passed) (m : Machine)
    (cs : List ConnectStruct) (v : Serves s signal m.world cs) (m₁ : Machine) (inner : Environment)
    (fuel' g' t : ℕ) (signal' : Bento) (arguments' : List Passed) (cs' : List ConnectStruct)
    → length cs < fuel
    → first_call env g s signal arguments m cs v ≡ some (threw, m₁)
    → Answers env v.receiver (starting g s signal v.object m)
    → m₁.destroyed_mutex ≡ false
    → is_destroyed s m₁ ≡ false
    → ((k : Machine) → env.handle_exception s k ≡ activate inner fuel' g' t signal' arguments' k)
    → QuietTo t inner
    → Serves t signal' m₁.world cs'
    → length cs' < fuel'
    → activate env fuel g s signal arguments m ≡ none
activate-handle_exception env fuel g s signal arguments m cs v m₁ inner fuel' g' t signal'
      arguments' cs' enough call compare_eq free alive handles q v' enough' =
    let e = emission env.types s signal arguments m in
    activate_stuck env fuel g s signal arguments m cs v enough (threw, m₁) call compare_eq
      (after_slot_stuck env e v.object.activate_busy m₁ free alive (
        handles (locked (restore_locals e m₁))
        ∙ activate_waits inner fuel' g' t signal' arguments' (locked (restore_locals e m₁)) cs' v'
            enough' q refl))
