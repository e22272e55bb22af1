-- ===== src/Activate/Compare.antt =====
-- An override of `compareThreads` that throws, outside of the `try` block of `activate`.
use cs_signal.Prelude.{ℕ, ◌<◌, ◌≡◌, refl, true, ◌∙◌, some, List, length}
use cs_signal.RcuList.{RcuList}
use cs_signal.SharedList.{Holds, lock_read, unlock_read}
use cs_signal.Bento.{Bento, bento_eq}
use cs_signal.Connections.{ConnectStruct, SignalBase, SlotBase, put_list}
use cs_signal.Connections.Lists.{assign_same}
use cs_signal.Activate.Arguments.{Passed}
use cs_signal.Activate.{
  Machine, threw, Environment, Emission, compare_threw, finish, activate, visit, emission,
}
use cs_signal.Activate.Visit.{conclude_run}
use cs_signal.Activate.First.{first_match, first_match-bento_eq, starting, activate_at_first}
use cs_signal.Activate.Destroyed.{under_handle, finish_run}

visit_compare_threw :
    (env : Environment) (e : Emission) (c : ConnectStruct) (r : ℕ) (y : SlotBase) (m m' : Machine)
    → bento_eq c.signal_method e.signal ≡ true
    → c.receiver ≡ some r
    → m.world.slots r ≡ some y
    → env.compare_threads r m ≡ some (compare_threw, m')
    → visit env e c m ≡ some (finish threw m')
unfolding visit
visit_compare_threw env e c r y m m' match r_eq y_eq run = rw (match, r_eq, y_eq, run) refl

-- For a sender that exists with a list in order, of which `c` is the first connection of the signal, to
-- a receiver that exists: if the override of `compareThreads` throws, and changes nothing, its
-- exception leaves `activate` before any slot is called, also past the `catch` block. The list and the
-- count of the sender are as before, but the thread keeps the sender as its current sender, and the
-- signal as its current signal.
pub activate-compare_threads :
    (env : Environment) (fuel g s : ℕ) (signal : Bento) (arguments : List Passed) (m : Machine)
    (x : SignalBase) (cs : List ConnectStruct) (c : ConnectStruct) (r : ℕ) (y : SlotBase)
    → m.world.signals s ≡ some x
    → Holds x.connect_list cs
    → first_match signal cs ≡ some c
    → c.receiver ≡ some r
    → m.world.slots r ≡ some y
    → length cs < fuel
    → env.compare_threads r (starting g s signal x m)
      ≡ some (compare_threw, starting g s signal x m)
    → (m' : Machine) × (l : RcuList ConnectStruct) × (activate env fuel g s signal arguments m
        ≡ some (threw, m'))
      × (m'.current_sender ≡ some s)
      × (m'.current_signal ≡ some signal)
      × (m'.world.signals s ≡ some (record x { connect_list = l }))
      × Holds l cs
activate-compare_threads env fuel g s signal arguments m x cs c r y x_eq holds found r_eq y_eq
      enough run =
    let e = emission env.types s signal arguments m in
    let start = starting g s signal x m in
    let x_eq' = assign_same m.world.signals s (some (under_handle g x)) in
    let visited =
      visit_compare_threw env e c r y start start (first_match-bento_eq signal cs c found) r_eq y_eq
        run in
    let (l, unlock_eq, held) = unlock_read _ _ cs (lock_read g x.connect_list cs holds) in
    (
      record start { world = put_list s (under_handle g x) l start.world },
      l,
      activate_at_first env fuel g s signal arguments m x cs c x_eq holds found enough
            (some (threw, start))
            (λ left p next back node.
              finish_run env e left p (under_handle g x) c next back start threw start x_eq' node
                visited)
          ∙ conclude_run _ s threw start (under_handle g x) l x_eq' unlock_eq,
      refl,
      refl,
      assign_same start.world.signals s _,
      held,
    )
