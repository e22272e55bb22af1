-- ===== src/Tests/Programs.antt =====
-- A program that connects, emits, disconnects and emits again.
use cs_signal.Prelude.{◌+◌, ◌≡◌, refl, false, none, some, List, [], ◌∷◌, if◌then◌else◌}
use cs_signal.RcuList.{ptr_eq}
use cs_signal.Bento.{bento_eq, invoke, dynamic_cast}
use cs_signal.Connections.{assign, auto_connection, direct_connection}
use cs_signal.Connections.Network.{
  new_signal, new_slot, connects, with_method, disconnects, delete_slot,
}
use cs_signal.Connections.Network.Specification.{initial}
use cs_signal.Activate.Folding.{Effect, calm}
use cs_signal.Program.{Action, operates, emits, run_program, start}
use cs_signal.Program.Promises.{promised_program}
use cs_signal.Program.Refinement.{KeepsPromise, run_program-promised}
use cs_signal.Tests.Networks.{clicked, on_click}
use cs_signal.Tests.Activations.{table, arguments}
use cs_signal.Activate.Arguments.{Memory}

-- Each call counts at the address of its object.
abbrev count_calls : Effect
count_calls c mem = record mem {
  cells = λ a. if ptr_eq c.object (some a) then mem.cells a + 1 else mem.cells a;
}

abbrev blank : Memory
blank = record { cells = λ _. 0; next = 50 }

abbrev program : List Action
program =
    operates (new_signal 1)
    ∷ operates (new_slot 2)
    ∷ operates (new_slot 3)
    ∷ operates (connects with_method 1 clicked 2 on_click auto_connection false)
    ∷ operates (connects with_method 1 clicked 3 on_click direct_connection false)
    ∷ emits 1 clicked arguments
    ∷ operates (disconnects 1 (some clicked) (some 2) none)
    ∷ emits 1 clicked arguments
    ∷ operates (delete_slot 3)
    ∷ emits 1 clicked arguments
    ∷ []

run_program-promised_example :
    KeepsPromise
      (run_program (calm table count_calls) 50 program (start blank))
      (promised_program table count_calls program initial blank)
run_program-promised_example = run_program-promised table count_calls 50 program blank

-- The calls that the program makes: one of the receiver 2, and two of the receiver 3.
calls_made :
    (let (results, a, mem) = promised_program table count_calls program initial blank in
      mem.cells 2 ∷ mem.cells 3 ∷ [])
    ≡ 1 ∷ 2 ∷ []
unfolding assign bento_eq invoke dynamic_cast
calls_made = refl
