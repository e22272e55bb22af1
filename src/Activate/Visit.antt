-- ===== src/Activate/Visit.antt =====
-- What `activate` does at one connection, on every branch.
use cs_signal.Prelude.{
  Bool, false, ℕ, zero, suc, ◌+◌, ◌≡◌, refl, sym, ap, true, false, Option, none, some, List, ◌>>=◌,
}
use cs_signal.RcuList.{RcuList}
use cs_signal.RcuList.Guard.{rcu_read_lock, unlock}
use cs_signal.Bento.{Bento, bento_eq}
use cs_signal.Connections.{ConnectStruct, SignalBase, SlotBase, put_list}
use cs_signal.Activate.Arguments.{Passed}
use cs_signal.Activate.{
  Machine, Completion, returned, threw, Environment, Emission, go_on, finish, set_busy,
  decrement_busy, Comparison, answers, compare_threw, compared, lock_destroyed, unlock_destroyed,
  is_destroyed, forget_destroyed, restore_locals, after_slot, visit_receiver, visit, run_connection,
  activate_loop, activate, emission, entered, conclude,
}

pub visit_skips :
    (env : Environment) (e : Emission) (c : ConnectStruct) (m : Machine)
    → bento_eq c.signal_method e.signal ≡ false
    → visit env e c m ≡ some (go_on m)
unfolding visit
visit_skips env e c m other = rw other refl

-- The answer of `compareThreads`, if it gives one.
abbrev pub answer_of : Option (Comparison × Machine) → Bool
answer_of none = false
answer_of (some (compare_threw, m)) = false
answer_of (some (answers same, m)) = same

-- `compareThreads` of the receiver `r` gives an answer, and changes nothing.
abbrev pub Answers : Environment → ℕ → Machine → Type 0
Answers env r m = env.compare_threads r m ≡ some (answers (answer_of (env.compare_threads r m)), m)

-- The call of the slot of `c`, under a raised count.
abbrev pub call_of :
    Environment
    → Emission
    → ConnectStruct
    → SignalBase
    → ℕ
    → Machine
    → Option (Completion × Machine)
call_of env e c x r m =
    run_connection env e.sender e.signal r c.slot_method e.data_pack e.left c.kind
      (answer_of (env.compare_threads r m)) (set_busy e.sender x (x.activate_busy + 1) m)

module _ (env : Environment) (e : Emission) (c : ConnectStruct) (x : SignalBase) (r : ℕ)
    (y : SlotBase) (m : Machine) where
  -- A connection of the signal, whose receiver `r` exists.
  pub record Visits : Type 0 where
    pub match : bento_eq c.signal_method e.signal ≡ true
    pub receiver_eq : c.receiver ≡ some r
    pub slot_eq : m.world.slots r ≡ some y
    pub sender_eq : m.world.signals e.sender ≡ some x
    pub compare_eq : Answers env r m

  compared_run :
      (o : Option (Comparison × Machine)) (same : Bool) {done : Completion × Machine}
      → o ≡ some (answers same, m)
      → m.world.signals e.sender ≡ some x
      → run_connection env e.sender e.signal r c.slot_method e.data_pack e.left c.kind same
          (set_busy e.sender x (x.activate_busy + 1) m)
        ≡ some done
      → (o >>= compared env e c r) ≡ after_slot env e x.activate_busy done
  compared_run o same o_eq x_eq run = rw (o_eq, x_eq, run) refl

  module _ (v : Visits) (done : Completion × Machine)
      (call : call_of env e c x r m ≡ some done) where
    pub visit-after_slot : visit env e c m ≡ after_slot env e x.activate_busy done
    unfolding visit visit_receiver
    visit-after_slot =
        rw (v.match, v.receiver_eq, v.slot_eq)
          (compared_run (env.compare_threads r m) (answer_of (env.compare_threads r m)) v.compare_eq
            v.sender_eq call)

abbrev pub locked : Machine → Machine
locked m = record m { destroyed_mutex = true }

lock_destroyed_run : (m : Machine) → m.destroyed_mutex ≡ false → lock_destroyed m ≡ some (locked m)
unfolding lock_destroyed
lock_destroyed_run m free = rw free refl

unlock_destroyed_same : (m : Machine) → m.destroyed_mutex ≡ false → unlock_destroyed m ≡ m
unlock_destroyed_same m free = ap (λ b. record m { destroyed_mutex = b }) (sym free)

forget_destroyed_same :
    (old s : ℕ) (m : Machine)
    → m.destroyed_mutex ≡ false
    → unlock_destroyed (forget_destroyed old s (locked m)) ≡ forget_destroyed old s m
forget_destroyed_same zero s m free =
    ap (λ b. record (forget_destroyed zero s m) { destroyed_mutex = b }) (sym free)
forget_destroyed_same (suc n) s m free = ap (λ b. record m { destroyed_mutex = b }) (sym free)

decrement_busy_run :
    (s n : ℕ) (m : Machine) (x : SignalBase)
    → m.world.signals s ≡ some x
    → x.activate_busy ≡ suc n
    → decrement_busy s m ≡ some (set_busy s x n m)
unfolding decrement_busy
decrement_busy_run s n m x x_eq busy = rw (x_eq, busy) refl

module _ (env : Environment) (e : Emission) (old : ℕ) (m : Machine) where
  -- The slot came back and the sender is still there.
  pub after_slot_returned :
      (n : ℕ) (x : SignalBase)
      → m.destroyed_mutex ≡ false
      → is_destroyed e.sender m ≡ false
      → m.world.signals e.sender ≡ some x
      → x.activate_busy ≡ suc n
      → after_slot env e old (returned, m) ≡ some (go_on (set_busy e.sender x n m))
  unfolding after_slot
  after_slot_returned n x free alive x_eq busy =
      rw
        (
          lock_destroyed_run m free,
          alive,
          unlock_destroyed_same m free,
          decrement_busy_run e.sender n m x x_eq busy,
        )
        refl

  -- The slot came back, or threw, and the sender is in the set.
  pub after_slot_destroyed :
      (done : Completion)
      → m.destroyed_mutex ≡ false
      → is_destroyed e.sender m ≡ true
      → after_slot env e old (done, m)
        ≡ some (finish returned (forget_destroyed old e.sender (restore_locals e m)))
  unfolding after_slot
  after_slot_destroyed returned free dead =
      rw (lock_destroyed_run m free, dead)
        (ap (λ k. some (finish returned k))
          (forget_destroyed_same old e.sender (restore_locals e m) free))
  after_slot_destroyed threw free dead =
      rw (lock_destroyed_run (restore_locals e m) free, dead)
        (ap (λ k. some (finish returned k))
          (forget_destroyed_same old e.sender (restore_locals e m) free))

  -- The thread has the mutex already.
  pub after_slot_waits :
      (done : Completion) → m.destroyed_mutex ≡ true → after_slot env e old (done, m) ≡ none
  unfolding after_slot lock_destroyed
  after_slot_waits returned held = rw held refl
  after_slot_waits threw held = rw held refl

  -- The slot threw, and the handler does not come back.
  pub after_slot_stuck :
      m.destroyed_mutex ≡ false
      → is_destroyed e.sender m ≡ false
      → env.handle_exception e.sender (locked (restore_locals e m)) ≡ none
      → after_slot env e old (threw, m) ≡ none
  unfolding after_slot
  after_slot_stuck free alive stuck =
      rw (lock_destroyed_run (restore_locals e m) free, alive, stuck) refl

  -- The slot threw, the sender is still there, and the handler returned.
  pub after_slot_threw :
      (n : ℕ) (x : SignalBase) (m' : Machine)
      → m.destroyed_mutex ≡ false
      → is_destroyed e.sender m ≡ false
      → env.handle_exception e.sender (locked (restore_locals e m)) ≡ some (returned, m')
      → m'.world.signals e.sender ≡ some x
      → x.activate_busy ≡ suc n
      → after_slot env e old (threw, m)
        ≡ some (
            go_on (
              set_busy e.sender x n
                (unlock_destroyed (record m' { current_sender = some e.sender }))))
  unfolding after_slot
  after_slot_threw n x m' free alive run x_eq busy =
      rw
        (
          lock_destroyed_run (restore_locals e m) free,
          alive,
          run,
          decrement_busy_run e.sender n
              (unlock_destroyed (record m' { current_sender = some e.sender })) x x_eq busy,
        )
        refl

-- A call of `activate` by its loop and the end of its handle.
pub activate_run :
    (env : Environment) (fuel g s : ℕ) (signal : Bento) (arguments : List Passed) (m : Machine)
    (x : SignalBase) (result : Option (Completion × Machine))
    → m.world.signals s ≡ some x
    → activate_loop env
        (emission env.types s signal arguments m)
        fuel
        x.connect_list.head
        (entered s signal x (rcu_read_lock g x.connect_list).1 m)
      ≡ result
    → activate env fuel g s signal arguments m
      ≡ (result >>= conclude (rcu_read_lock g x.connect_list).0 s)
unfolding activate rcu_read_lock
activate_run env fuel g s signal arguments m x result x_eq run = rw (x_eq, run) refl

pub conclude_run :
    (z s : ℕ) (done : Completion) (m : Machine) (x : SignalBase) (l : RcuList ConnectStruct)
    → m.world.signals s ≡ some x
    → unlock z x.connect_list ≡ some l
    → conclude z s (done, m) ≡ some (done, record m { world = put_list s x l m.world })
conclude_run z s done m x l x_eq run = rw (x_eq, run) refl

pub conclude_gone :
    (z s : ℕ) (done : Completion) (m : Machine)
    → m.world.signals s ≡ none
    → conclude z s (done, m) ≡ some (done, m)
conclude_gone z s done m gone = rw gone refl
