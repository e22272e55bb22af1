-- ===== src/Tests/Histories.antt =====
-- A history of operations on two senders and two receivers.
use cs_signal.Prelude.{ℕ, ◌≡◌, refl, true, false, none, some, List, [], ◌∷◌}
use cs_signal.SharedList.{Holds}
use cs_signal.Connections.Network.Unique.{AtMostOnce, run_history-AtMostOnce}
use cs_signal.Connections.{
  SignalBase, ConnectStruct, assign, World, auto_connection, direct_connection,
}
use cs_signal.Connections.Network.{
  Operation, Output, new_signal, new_slot, connects, with_method, with_lambda, disconnects,
  delete_signal, delete_slot, run_history, nothing, outcome, found, add_signal, add_slot,
}
use cs_signal.Connections.Connect.{returned}
use cs_signal.Connections.Network.Specification.{specified_history, initial}
use cs_signal.Connections.Network.Represents.{
  Represents, add_signal-Represents, add_slot-Represents, nothing-Represents,
}
use cs_signal.Connections.Network.History.{Refines, run_history-Refines}
use cs_signal.Connections.Network.Roundtrip.{connect-disconnect}
use cs_signal.Bento.{lambda, bento_eq}
use cs_signal.Tests.Networks.{clicked, on_click}

abbrev history : List Operation
history =
    new_signal 1
    ∷ new_slot 2
    ∷ connects with_method 1 clicked 2 on_click auto_connection false
    ∷ new_slot 3
    ∷ connects with_method 1 clicked 3 on_click direct_connection true
    ∷ connects with_lambda 1 clicked 2 (lambda 9 []) auto_connection false
    ∷ disconnects 1 (some clicked) (some 2) (some on_click)
    ∷ new_signal 4
    ∷ connects with_method 4 clicked 2 on_click auto_connection true
    ∷ delete_slot 2
    ∷ delete_signal 1
    ∷ disconnects 1 none none none
    ∷ []

run_history-Refines_example :
    Refines (run_history 50 history nothing) (specified_history history initial)
run_history-Refines_example = run_history-Refines 50 history

abbrev objects : World
objects = add_slot 2 (add_signal 1 nothing)

objects-Represents : Represents objects (record {
  has_signal = assign (λ s. false) 1 true;
  has_slot = assign (λ r. false) 2 true;
  links = λ s. [];
})
objects-Represents =
    add_slot-Represents 2 _ _ (add_signal-Represents 1 _ _ nothing-Represents refl) refl

connect-disconnect_example :
    Refines
      (run_history 50
        (connects with_method 1 clicked 2 on_click auto_connection true
          ∷ disconnects 1 (some clicked) (some 2) (some on_click)
          ∷ [])
        objects)
      (
        outcome (returned true) ∷ found true ∷ [],
        record {
          has_signal = assign (λ s. false) 1 true;
          has_slot = assign (λ r. false) 2 true;
          links = λ s. [];
        },
      )
unfolding assign bento_eq
connect-disconnect_example =
    connect-disconnect 50 with_method 1 clicked 2 on_click auto_connection true objects _
      objects-Represents refl refl refl refl refl refl

-- The second `connect` and the third are refused.
abbrev repeated : List Operation
repeated =
    new_signal 1
    ∷ new_slot 2
    ∷ connects with_method 1 clicked 2 on_click auto_connection true
    ∷ connects with_method 1 clicked 2 on_click direct_connection true
    ∷ connects with_lambda 1 clicked 2 (lambda 9 []) auto_connection true
    ∷ []

run_history-AtMostOnce_example :
    (outs : List Output) × (w : World) × (run_history 50 repeated nothing ≡ some (outs, w))
    × ((s : ℕ) (x : SignalBase)
        → w.signals s ≡ some x
        → (cs : List ConnectStruct) × Holds x.connect_list cs × AtMostOnce cs)
run_history-AtMostOnce_example = run_history-AtMostOnce 50 repeated refl
