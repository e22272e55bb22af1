-- ===== src/Activate/Destroyed.antt =====
-- A slot that destroys the sender whose signal it serves.
use cs_signal.Prelude.{
  ℕ, zero, suc, ◌+◌, ◌<◌, ◌≡◌, refl, ap, ◌∙◌, inl, inr, true, false, Bool_cases, none, some, List,
  ◌∷◌, ◌==◌, ==_iff, length, any, reject, reject-any, arith,
}
use cs_signal.RcuList.{RcuList, Ptr}
use cs_signal.RcuList.Chain.{live_node}
use cs_signal.RcuList.Guard.{rcu_read_lock}
use cs_signal.SharedList.{Holds, lock_read, Locked}
use cs_signal.Bento.{Bento}
use cs_signal.Connections.{ConnectStruct, SignalBase, SlotBase, World}
use cs_signal.Connections.Lists.{assign_same}
use cs_signal.Connections.Destroy.{destroy_signal, insert_destroyed, mark_destroyed}
use cs_signal.Connections.Destroy.Purge.{SendersAre, ReceiversExist, ReceiversExist-mono}
use cs_signal.Connections.Destroy.Dangling.{Known, destroy_signal-SendersAre}
use cs_signal.Activate.Arguments.{Passed}
use cs_signal.Activate.{
  Machine, Completion, returned, Environment, Emission, finish, set_busy, is_destroyed,
  restore_locals, forget_destroyed, erase_destroyed, activate_loop, activate, visit, emission,
}
use cs_signal.Activate.Visit.{
  Answers, call_of, Visits, visit-after_slot, after_slot_destroyed, conclude_gone,
}
use cs_signal.Activate.Locals.{SameLocals}
use cs_signal.Activate.Behind.{raised}
use cs_signal.Activate.First.{first_match, first_match-bento_eq, starting, activate_at_first}

pub finish_run :
    (env : Environment) (e : Emission) (left p : ℕ) (x : SignalBase) (c : ConnectStruct)
    (next back : Ptr) (m : Machine) (done : Completion) (m' : Machine)
    → m.world.signals e.sender ≡ some x
    → x.connect_list.nodes p ≡ some (live_node next back c)
    → visit env e c m ≡ some (finish done m')
    → activate_loop env e (suc left) (some p) m ≡ some (done, m')
unfolding activate_loop
finish_run env e left p x c next back m done m' x_eq node visited = rw (x_eq, node, visited) refl

forget_destroyed-gone :
    (old s : ℕ) (m : Machine)
    → m.world.signals s ≡ none
    → (forget_destroyed old s m).world.signals s ≡ none
forget_destroyed-gone zero s m gone = gone
forget_destroyed-gone (suc n) s m gone = gone

forget_destroyed-SendersAre :
    (old s : ℕ) (m : Machine) (sends : ℕ → List ℕ)
    → SendersAre m.world sends
    → SendersAre (forget_destroyed old s m).world sends
forget_destroyed-SendersAre zero s m sends h = h
forget_destroyed-SendersAre (suc n) s m sends h = h

forget_destroyed-SameLocals :
    (old s : ℕ) (m m' : Machine) → SameLocals m m' → SameLocals m (forget_destroyed old s m')
forget_destroyed-SameLocals zero s m m' h = h
forget_destroyed-SameLocals (suc n) s m m' h = h

insert_destroyed-any : (s : ℕ) (ds : List ℕ) → any (λ t. t == s) (insert_destroyed s ds) ≡ true
insert_destroyed-any s ds = elim (Bool_cases (any (λ t. t == s) ds)) [
  | inl m ↦ rw (m, m) refl
  | inr m ↦ rw (m, (==_iff s s).1 refl) refl
]

-- The set of destroyed senders behind an activation of `s` in which `s` was destroyed: only a
-- running activation further out keeps it in the set.
abbrev pub destroyed_after : ℕ → ℕ → List ℕ → List ℕ
destroyed_after zero s ds = ds
destroyed_after (suc n) s ds = s ∷ ds

forget_destroyed-insert :
    (old s : ℕ) (m : Machine) (ds : List ℕ)
    → any (λ t. t == s) ds ≡ false
    → m.world.being_destroyed ≡ insert_destroyed s ds
    → (forget_destroyed old s m).world.being_destroyed ≡ destroyed_after old s ds
forget_destroyed-insert zero s m ds new e =
    ap (erase_destroyed s) e ∙ rw (new, (==_iff s s).1 refl) (reject-any (λ t. t == s) ds new)
forget_destroyed-insert (suc n) s m ds new e = e ∙ rw new refl

mark_destroyed-insert :
    (n s : ℕ) (w : World)
    → (mark_destroyed (n + 1) s w).being_destroyed ≡ insert_destroyed s w.being_destroyed
mark_destroyed-insert n s w =
    let next : n + 1 ≡ suc n = omega arith in ap (λ k. (mark_destroyed k s w).being_destroyed) next

abbrev pub under_handle : ℕ → SignalBase → SignalBase
under_handle g x = record x { connect_list = (rcu_read_lock g x.connect_list).1 }

pub Locked-Holds :
    (l : RcuList ConnectStruct) (z : ℕ) (cs : List ConnectStruct) → Locked l z none cs → Holds l cs
Locked-Holds l z cs k = record {
  cells = k.cells;
  sound = k.sound;
  values_eq = k.values_eq;
  idle = k.mutex_eq;
}

-- The thread while the first slot runs.
abbrev pub running : ℕ → ℕ → Bento → SignalBase → Machine → Machine
running g s signal x m =
    set_busy s (under_handle g x) (x.activate_busy + 1) (starting g s signal x m)

module _ (env : Environment) (fuel g s : ℕ) (signal : Bento) (arguments : List Passed) (m : Machine)
    (x : SignalBase) (cs : List ConnectStruct) (c : ConnectStruct) (r : ℕ) (y : SlotBase)
    (x_eq : m.world.signals s ≡ some x) (holds : Holds x.connect_list cs)
    (found : first_match signal cs ≡ some c) (receiver_eq : c.receiver ≡ some r)
    (slot_eq : m.world.slots r ≡ some y) (compare_eq : Answers env r (starting g s signal x m))
    (enough : length cs < fuel) where
  -- The slot is the last one, whether it returns or throws.
  pub activate_stops :
      (done : Completion) (m₁ : Machine)
      → call_of env
          (emission env.types s signal arguments m)
          c
          (under_handle g x)
          r
          (starting g s signal x m)
        ≡ some (done, m₁)
      → m₁.destroyed_mutex ≡ false
      → is_destroyed s m₁ ≡ true
      → m₁.world.signals s ≡ none
      → activate env fuel g s signal arguments m
        ≡ some (
          returned,
          forget_destroyed x.activate_busy s
              (restore_locals (emission env.types s signal arguments m) m₁),
        )
  activate_stops done m₁ call free dead gone =
      let e = emission env.types s signal arguments m in
      let visits : Visits env e c (under_handle g x) r y (starting g s signal x m) = record {
        match = first_match-bento_eq signal cs c found;
        receiver_eq = receiver_eq;
        slot_eq = slot_eq;
        sender_eq = assign_same m.world.signals s _;
        compare_eq = compare_eq;
      } in
      let visited =
        visit-after_slot env e c (under_handle g x) r y (starting g s signal x m) visits (done, m₁)
          call
        ∙ after_slot_destroyed env e x.activate_busy m₁ done free dead in
      activate_at_first env fuel g s signal arguments m x cs c x_eq holds found enough (some _)
        (λ left p next back node.
          finish_run env e left p (under_handle g x) c next back _ returned _
            (assign_same m.world.signals s _) node visited)
      ∙ conclude_gone _ s returned _ (forget_destroyed-gone x.activate_busy s _ gone)

  -- For a sender that exists with a list in order, of which `c` is the first connection of the
  -- signal, to a receiver that exists and whose `compareThreads` gives an answer and changes
  -- nothing, where the lists of the receivers are as `~SignalBase` wants them: if the slot of `c`
  -- destroys the sender, and then returns or throws, `activate` calls no further slot and no
  -- handler, and returns. Nothing of the sender is left in the world, also not in the receivers'
  -- lists; it is in the set of destroyed senders exactly if it was active before; and the
  -- thread-local variables are as they were.
  pub activate-destroy_signal :
      (h : ℕ) (done : Completion) (sends : ℕ → List ℕ)
      → ((w : World)
          → destroy_signal h s (running g s signal x m).world ≡ some w
          → call_of env
              (emission env.types s signal arguments m)
              c
              (under_handle g x)
              r
              (starting g s signal x m)
            ≡ some (done, record (running g s signal x m) { world = w }))
      → m.destroyed_mutex ≡ false
      → is_destroyed s m ≡ false
      → SendersAre m.world sends
      → ReceiversExist m.world cs
      → Known s cs sends
      → (m' : Machine) × (activate env fuel g s signal arguments m ≡ some (returned, m'))
        × (m'.world.signals s ≡ none)
        × SendersAre m'.world (λ p. reject (λ t. t == s) (sends p))
        × (m'.world.being_destroyed ≡ destroyed_after x.activate_busy s m.world.being_destroyed)
        × SameLocals m m'
  activate-destroy_signal h done sends call free new are live known =
      let (w, run, gone, others, are', marked, _) =
        destroy_signal-SendersAre h s (running g s signal x m).world (raised (under_handle g x)) cs
          sends (assign_same _ s _) (Locked-Holds _ _ cs (lock_read g x.connect_list cs holds)) are
          (ReceiversExist-mono m.world (running g s signal x m).world cs (λ p k. k) live) known in
      let inserted =
        marked ∙ mark_destroyed-insert x.activate_busy s (running g s signal x m).world in
      let stopped =
        activate_stops done (record (running g s signal x m) { world = w }) (call w run) free
          (ap (any (λ t. t == s)) inserted ∙ insert_destroyed-any s m.world.being_destroyed) gone in
      let n = x.activate_busy in
      (
        _,
        stopped,
        forget_destroyed-gone n s _ gone,
        forget_destroyed-SendersAre n s _ _ are',
        forget_destroyed-insert n s _ m.world.being_destroyed new inserted,
        forget_destroyed-SameLocals n s m _ (refl, refl),
      )
