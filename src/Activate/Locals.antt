-- ===== src/Activate/Locals.antt =====
-- The thread-local variables after `activate`.
use cs_signal.Prelude.{
  Bool, ℕ, zero, suc, ◌≡◌, ◌≢◌, List, refl, ◌∙◌, arith, Option, none, some, Ends, bind-Ends,
  if-Ends, Ends_of,
}
use cs_signal.RcuList.{Ptr}
use cs_signal.RcuList.Iterator.{begin, dereference, increment}
use cs_signal.RcuList.Guard.{unlock, rcu_read_lock}
use cs_signal.Connections.{ConnectStruct, SignalBase}
use cs_signal.Activate.Arguments.{Passed}
use cs_signal.Activate.{
  Machine, Completion, returned, threw, Environment, Emission, Progress, go_on, finish,
  restore_locals, next_connection, handled, after_slot, visit_receiver, visit, activate_loop,
  release_handle, activate, advance, Comparison, answers, compare_threw, compared, decrement_busy,
  is_destroyed, conclude, emission, entered, forget_destroyed, lock_destroyed,
}
use cs_signal.Bento.{Bento, bento_eq}

-- The two variables of `m'` are those of `m`.
abbrev pub SameLocals : Machine → Machine → Type 0
SameLocals m m' = (m'.current_sender ≡ m.current_sender) × (m'.current_signal ≡ m.current_signal)

-- The two variables are those that the emission found.
abbrev pub Restored : Emission → Machine → Type 0
Restored e m = (m.current_sender ≡ e.prior_sender) × (m.current_signal ≡ e.prior_signal)

-- An override of `handleException` that leaves the variables as they are, if it ends at all.
abbrev pub HandlerKeeps : Environment → Type 0
HandlerKeeps env =
    (s : ℕ) (m : Machine) (done : Completion) (m' : Machine)
    → env.handle_exception s m ≡ some (done, m')
    → SameLocals m m'

-- No override of `compareThreads` throws.
abbrev pub NeverThrows : Environment → Type 0
NeverThrows env = (r : ℕ) (m m' : Machine) → env.compare_threads r m ≢ some (compare_threw, m')

pub answers-ne-compare_threw :
    (same : Bool) (m m' : Machine)
    → ◌≢◌ {A = Option (Comparison × Machine)} (some (answers same, m)) (some (compare_threw, m'))
answers-ne-compare_threw same m m' e = cc

abbrev ExitRestores : Emission → Progress → Type 0
ExitRestores e (go_on m) = Unit {0}
ExitRestores e (finish done m) = Restored e m

forget_destroyed-Restored :
    (old s : ℕ) (e : Emission) (m : Machine) → Restored e m → Restored e (forget_destroyed old s m)
forget_destroyed-Restored zero s e m h = h
forget_destroyed-Restored (suc n) s e m h = h

lock_destroyed-SameLocals : (m : Machine) → Ends (SameLocals m) (lock_destroyed m)
unfolding lock_destroyed
lock_destroyed-SameLocals m = ground arith

next_connection-ExitRestores :
    (s : ℕ) (e : Emission) (m : Machine) → Ends (ExitRestores e) (next_connection s m)
next_connection-ExitRestores s e m =
    bind-Ends (ExitRestores e) (decrement_busy s m) (λ m'. some (go_on m')) (λ m' h. tt)

handled-ExitRestores :
    (s : ℕ) (e : Emission) (done : Completion) (m : Machine)
    → Restored e m
    → Ends (ExitRestores e) (handled s (done, m))
handled-ExitRestores s e threw m h = h
handled-ExitRestores s e returned m h = next_connection-ExitRestores s e _

after_slot-ExitRestores :
    (env : Environment) (e : Emission) (old : ℕ) (done : Completion) (m : Machine)
    → HandlerKeeps env
    → Ends (ExitRestores e) (after_slot env e old (done, m))
unfolding after_slot
after_slot-ExitRestores env e old returned m keeps =
    bind-Ends (ExitRestores e) (lock_destroyed m) _ (λ m₁ h.
      if-Ends (ExitRestores e) (is_destroyed e.sender m₁) _ _
        (forget_destroyed-Restored old e.sender e _ (refl, refl))
        (next_connection-ExitRestores e.sender e _))
after_slot-ExitRestores env e old threw m keeps =
    bind-Ends (ExitRestores e) (lock_destroyed (restore_locals e m)) _ (λ m₁ h.
      let same = Ends_of (SameLocals (restore_locals e m)) _ m₁ (lock_destroyed-SameLocals _) h in
      if-Ends (ExitRestores e) (is_destroyed e.sender m₁) _ _
        (forget_destroyed-Restored old e.sender e m₁ same)
        (bind-Ends (ExitRestores e) (env.handle_exception e.sender m₁) _ (λ (done, m₂) k.
          let (s, g) = keeps e.sender m₁ done m₂ k in
          handled-ExitRestores e.sender e done m₂ (s ∙ same.0, g ∙ same.1))))

compared-ExitRestores :
    (env : Environment) (e : Emission) (c : ConnectStruct) (r : ℕ) (answer : Comparison)
    (m m' : Machine)
    → HandlerKeeps env
    → NeverThrows env
    → env.compare_threads r m ≡ some (answer, m')
    → Ends (ExitRestores e) (compared env e c r (answer, m'))
compared-ExitRestores env e c r compare_threw m m' keeps never run = absurd (never r m m' run)
compared-ExitRestores env e c r (answers same) m m' keeps never run =
    bind-Ends (ExitRestores e) (m'.world.signals e.sender) _ (λ x _.
      bind-Ends (ExitRestores e) _ _
        (λ (done, m₂) _. after_slot-ExitRestores env e x.activate_busy done m₂ keeps))

visit-ExitRestores :
    (env : Environment) (e : Emission) (c : ConnectStruct) (m : Machine)
    → HandlerKeeps env
    → NeverThrows env
    → Ends (ExitRestores e) (visit env e c m)
unfolding visit visit_receiver
visit-ExitRestores env e c m keeps never =
    if-Ends (ExitRestores e) (bento_eq c.signal_method e.signal) _ _
      (bind-Ends (ExitRestores e) c.receiver _ (λ r _.
        bind-Ends (ExitRestores e) (m.world.slots r) _ (λ y _.
          bind-Ends (ExitRestores e) (env.compare_threads r m) _
            (λ (answer, m') run. compared-ExitRestores env e c r answer m m' keeps never run))))
      tt

abbrev EndRestores : Emission → Completion × Machine → Type 0
EndRestores e r = Restored e r.1

advance-Restored :
    (e : Emission) (p : ℕ) (loop : Ptr → Machine → Option (Completion × Machine))
    (progress : Progress)
    → ((it : Ptr) (m : Machine) → Ends (EndRestores e) (loop it m))
    → ExitRestores e progress
    → Ends (EndRestores e) (advance e.sender p loop progress)
advance-Restored e p loop (finish done m) h r = r
advance-Restored e p loop (go_on m) h r =
    bind-Ends (EndRestores e) (m.world.signals e.sender) _
      (λ x _. bind-Ends (EndRestores e) (increment (some p) x.connect_list) _ (λ it _. h it m))

activate_loop-Restored :
    (env : Environment) (e : Emission) (fuel : ℕ) (it : Ptr) (m : Machine)
    → HandlerKeeps env
    → NeverThrows env
    → Ends (EndRestores e) (activate_loop env e fuel it m)
unfolding activate_loop
activate_loop-Restored env e zero it m keeps never = tt
activate_loop-Restored env e (suc fuel) none m keeps never = (refl, refl)
activate_loop-Restored env e (suc fuel) (some p) m keeps never =
    bind-Ends (EndRestores e) (m.world.signals e.sender) _ (λ x _.
      bind-Ends (EndRestores e) (dereference (some p) x.connect_list) _ (λ c _.
        bind-Ends (EndRestores e) (visit env e c m) _ (λ progress h.
          advance-Restored e p (activate_loop env e fuel) progress
            (λ it' m'. activate_loop-Restored env e fuel it' m' keeps never)
            (Ends_of (ExitRestores e) _ progress (visit-ExitRestores env e c m keeps never) h))))

release_handle-SameLocals :
    (z s : ℕ) (o : Option SignalBase) (m : Machine) → Ends (SameLocals m) (release_handle z s o m)
release_handle-SameLocals z s none m = (refl, refl)
release_handle-SameLocals z s (some x) m =
    bind-Ends (SameLocals m) (unlock z x.connect_list) _ (λ l _. (refl, refl))

conclude-SameLocals :
    (z s : ℕ) (e : Emission) (done : Completion × Machine)
    → Restored e done.1
    → Ends (EndRestores e) (conclude z s done)
conclude-SameLocals z s e (done, m₁) h =
    bind-Ends (EndRestores e) (release_handle z s (m₁.world.signals s) m₁) _ (λ m₂ k.
      let same = Ends_of (SameLocals m₁) _ m₂ (release_handle-SameLocals z s _ m₁) k in
      (same.0 ∙ h.0, same.1 ∙ h.1))

-- If no override of `compareThreads` throws, and the override of `handleException` leaves the
-- current sender and the current signal as they are: whatever the slots do with them, and however
-- `activate` ends, at the end of the list, at the destruction of the sender or with an exception of
-- the handler, it leaves the two as it found them.
pub activate-SameLocals :
    (env : Environment) (fuel g s : ℕ) (signal : Bento) (arguments : List Passed) (m : Machine)
    (done : Completion) (m' : Machine)
    → HandlerKeeps env
    → NeverThrows env
    → activate env fuel g s signal arguments m ≡ some (done, m')
    → SameLocals m m'
unfolding activate
activate-SameLocals env fuel g s signal arguments m done m' keeps never =
    let e = emission env.types s signal arguments m in
    Ends_of (EndRestores e) _ (done, m')
      (bind-Ends (EndRestores e) (m.world.signals s) _ (λ x _.
        let l = (rcu_read_lock g x.connect_list).1 in
        let start = entered s signal x l m in
        bind-Ends (EndRestores e) (activate_loop env e fuel (begin l) start) _ (λ r h.
          conclude-SameLocals _ s e r (
            Ends_of (EndRestores e) _ r
              (activate_loop-Restored env e fuel (begin l) start keeps never) h))))
