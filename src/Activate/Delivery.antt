-- ===== src/Activate/Delivery.antt =====
-- What `activate` does if the slots leave the sender alone.
use cs_signal.Prelude.{
  ℕ, zero, suc, ◌<◌, ◌≡◌, refl, sym, ap, ap₂, subst, ◌∙◌, inl, inr, true, false, Bool_cases, none,
  some, List, [], ◌∷◌, length, arith,
}
use cs_signal.RcuList.{RcuList, Ptr}
use cs_signal.RcuList.Chain.{Cells, values, length-values, first, live_node, Chain}
use cs_signal.RcuList.Guard.{rcu_read_lock, unlock}
use cs_signal.SharedList.{Holds, lock_read, unlock_read}
use cs_signal.Bento.{Bento, bento_eq}
use cs_signal.Connections.{ConnectStruct, SignalBase, put_list}
use cs_signal.Connections.Lists.{assign_same, assign_twice}
use cs_signal.Activate.Arguments.{Passed}
use cs_signal.Activate.{
  Machine, Completion, returned, Environment, Emission, go_on, is_destroyed, restore_locals,
  activate_loop, activate, visit, emission, entered, conclude,
}
use cs_signal.Activate.Visit.{
  answer_of, activate_run, conclude_run, visit_skips, call_of, visit-after_slot,
}
use cs_signal.Activate.Quiet.{QuietTo, run_connection-IsQuiet, deliver}
use cs_signal.Activate.Behind.{
  HaveReceivers, HaveReceivers-Keeps, with_list, raised, at_rest, set_busy-at_rest, IsRaised,
  Keeps-IsRaised, after_slot-caught,
}

module _ (env : Environment) (e : Emission) (q : QuietTo e.sender env) (x : SignalBase) where
  -- A connection of the signal: the slot is called, and the loop goes on.
  visit-caught :
      (c : ConnectStruct) (cs : List ConnectStruct) (m : Machine)
      → bento_eq c.signal_method e.signal ≡ true
      → IsRaised e x m
      → HaveReceivers m.world.slots (c ∷ cs)
      → (m' : Machine) × (deliver env e (c ∷ cs) m ≡ deliver env e cs m')
        × (visit env e c (at_rest e.sender x m) ≡ some (go_on (at_rest e.sender x m')))
        × IsRaised e x m'
        × HaveReceivers m'.world.slots cs
  unfolding deliver
  visit-caught c cs m match i ((r, y, r_eq, y_eq), h) =
      let same = answer_of (env.compare_threads r m) in
      let (done, m₁, run, k) =
        run_connection-IsQuiet e.sender env q e.signal r c.slot_method e.data_pack e.left c.kind
          same m in
      let (m', catch, after, i', h') =
        after_slot-caught env e q x m₁ cs done (Keeps-IsRaised e x m m₁ k i)
          (HaveReceivers-Keeps e.sender m m₁ cs k h) in
      let call : call_of env e c x r (at_rest e.sender x m) ≡ some (done, m₁) =
        rw (q.same_thread r m x x.activate_busy, set_busy-at_rest e.sender x m i.sender_eq) run in
      (
        m',
        rw (match, r_eq, run, catch) refl,
        visit-after_slot env e c x r y (at_rest e.sender x m)
              (record {
                match = match;
                receiver_eq = r_eq;
                slot_eq = y_eq;
                sender_eq = assign_same m.world.signals e.sender (some x);
                compare_eq = q.compares r (at_rest e.sender x m);
              })
              (done, m₁) call
            ∙ after,
        i',
        h',
      )

  round_run :
      (fuel p : ℕ) (c : ConnectStruct) (next back : Ptr) (m m' : Machine) (r : Completion × Machine)
      → x.connect_list.nodes p ≡ some (live_node next back c)
      → visit env e c (at_rest e.sender x m) ≡ some (go_on (at_rest e.sender x m'))
      → activate_loop env e fuel next (at_rest e.sender x m') ≡ some r
      → activate_loop env e (suc fuel) (some p) (at_rest e.sender x m) ≡ some r
  unfolding activate_loop
  round_run fuel p c next back m m' r node visited rest =
      rw
        (
          assign_same m.world.signals e.sender (some x),
          node,
          visited,
          assign_same m'.world.signals e.sender (some x),
          node,
        )
        rest

  deliver_loop :
      (fuel : ℕ) (start : Ptr) (xs : Cells ConnectStruct) (m : Machine)
      → Chain x.connect_list.nodes start xs none
      → length xs < fuel
      → IsRaised e x m
      → HaveReceivers m.world.slots (values xs)
      → (m' : Machine) × (deliver env e (values xs) m ≡ some m')
        × (activate_loop env e fuel (first xs none) (at_rest e.sender x m)
            ≡ some (returned, restore_locals e (at_rest e.sender x m')))
        × IsRaised e x m'
  unfolding deliver activate_loop
  deliver_loop zero start xs m c f i h = absurd (omega arith)
  deliver_loop (suc fuel) start [] m c f i h = (m, refl, refl, i)
  deliver_loop (suc fuel) start (a ∷ xs) m c f i h =
      elim (Bool_cases (bento_eq a.1.signal_method e.signal)) [
        | inl match ↦
            let (m', one, visited, i', h') = visit-caught a.1 (values xs) m match i h in
            let (m₂, rest, run, i₂) = deliver_loop fuel (some a.0) xs m' c.1 (omega arith) i' h' in
            (m₂, one ∙ rest, round_run fuel a.0 a.1 _ start m m' _ c.0 visited run, i₂)
        | inr other ↦
            let (m₂, rest, run, i₂) = deliver_loop fuel (some a.0) xs m c.1 (omega arith) i h.1 in
            (
              m₂,
              rw other rest,
              round_run fuel a.0 a.1 _ start m m _ c.0 (visit_skips env e a.1 _ other) run,
              i₂,
            )
      ]

-- The thread in which the slots of `deliver` run: the sender's list is under the handle, and the
-- count is raised.
abbrev pub delivering : ℕ → ℕ → Bento → SignalBase → Machine → Machine
delivering g s signal x m = entered s signal (raised x) (rcu_read_lock g x.connect_list).1 m

-- The thread `m'` with the sender `x` at rest and the variables of `m`.
abbrev pub delivered : ℕ → SignalBase → RcuList ConnectStruct → Machine → Machine → Machine
delivered s x l m m' = record {
  world = put_list s x l m'.world;
  current_sender = m.current_sender;
  current_signal = m.current_signal;
  destroyed_mutex = m'.destroyed_mutex;
  memory = m'.memory;
}

at_rest-delivering :
    (s : ℕ) (signal : Bento) (x : SignalBase) (l : RcuList ConnectStruct) (m : Machine)
    → at_rest s (with_list l x) (entered s signal (raised x) l m) ≡ entered s signal x l m
at_rest-delivering s signal x l m =
    ap (λ f. record (entered s signal x l m) { world = record m.world { signals = f } })
      (assign_twice m.world.signals s _ _)

delivered_run :
    (env : Environment) (z s : ℕ) (x : SignalBase) (l l' : RcuList ConnectStruct) (m m' : Machine)
    (signal : Bento) (arguments : List Passed)
    → unlock z l ≡ some l'
    → conclude z s (
      returned,
      restore_locals (emission env.types s signal arguments m) (at_rest s (with_list l x) m'),
    )
      ≡ some (returned, delivered s x l' m m')
delivered_run env z s x l l' m m' signal arguments run =
    conclude_run z s returned _ (with_list l x) l' (assign_same m'.world.signals s _) run
    ∙ ap
        (λ f.
          some
            (returned, record (delivered s x l' m m') { world = record m'.world { signals = f } }))
        (assign_twice m'.world.signals s _ _)

-- For a sender that exists, is not in the set of destroyed senders, and has a list in order whose
-- connections have receivers that exist, in a thread that does not have the mutex: if the slots
-- leave the sender alone, `compareThreads` gives an answer that does not depend on the count and
-- changes nothing, and the handler returns, `activate` ends on fuel above the number of
-- connections. It calls the slots of the connections of the signal, in the order of the list, as
-- `deliver` does: none is called twice or left out, also not behind one that throws. The list, the
-- count and the thread-local variables are then as they were.
pub activate-deliver :
    (env : Environment) (fuel g s : ℕ) (signal : Bento) (arguments : List Passed) (m : Machine)
    (x : SignalBase) (cs : List ConnectStruct)
    → QuietTo s env
    → m.world.signals s ≡ some x
    → Holds x.connect_list cs
    → HaveReceivers m.world.slots cs
    → is_destroyed s m ≡ false
    → m.destroyed_mutex ≡ false
    → length cs < fuel
    → (m' : Machine) × (l : RcuList ConnectStruct) × (deliver env
          (emission env.types s signal arguments m)
          cs
          (delivering g s signal x m)
        ≡ some m')
      × (activate env fuel g s signal arguments m ≡ some (returned, delivered s x l m m'))
      × Holds l cs
unfolding rcu_read_lock
activate-deliver env fuel g s signal arguments m x cs q x_eq holds receivers alive free enough =
    let (z, l₁) = rcu_read_lock g x.connect_list in
    let locked = lock_read g x.connect_list cs holds in
    let e = emission env.types s signal arguments m in
    let (m', spec, run, i) =
      deliver_loop env e q (with_list l₁ x) fuel none locked.cells (delivering g s signal x m)
        locked.sound.repr.chain
        (subst (λ n. n < fuel) (sym (ap length locked.values_eq) ∙ length-values locked.cells)
          enough)
        (record { sender_eq = assign_same m.world.signals s _; alive = alive; free = free })
        (subst (HaveReceivers m.world.slots) (sym locked.values_eq) receivers) in
    let (l, unlock_eq, held) = unlock_read l₁ z cs locked in
    let start_run =
      ap₂ (λ it k. activate_loop env e fuel it k) locked.sound.repr.head_eq
        (sym (at_rest-delivering s signal x l₁ m))
      ∙ run in
    (
      m',
      l,
      subst (λ vs. deliver env e vs (delivering g s signal x m) ≡ some m') locked.values_eq spec,
      activate_run env fuel g s signal arguments m x (some _) x_eq start_run
          ∙ delivered_run env z s x l₁ l m m' signal arguments unlock_eq,
      held,
    )
