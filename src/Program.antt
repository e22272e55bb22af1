-- ===== src/Program.antt =====
-- What a program does in one thread, with `activate` of cs_signal.h among the operations.
pub mod Promises
pub mod Refinement
use cs_signal.Prelude.{
  ℕ, suc, Bool, false, is_some, Option, none, some, List, [], ◌∷◌, ◌>>=◌, if◌then◌else◌,
}
use cs_signal.Bento.{Bento}
use cs_signal.Connections.{SignalBase}
use cs_signal.Connections.Network.{Operation, Output, is_legal, perform, nothing}
use cs_signal.Activate.Arguments.{Memory, Passed}
use cs_signal.Activate.{Machine, Completion, Environment, activate}

pub data Action : Type 0 where
  operates : Operation → Action
  emits : (sender : ℕ) (signal : Bento) (arguments : List Passed) → Action

-- What an action ends with.
pub data Result : Type 0 where
  output : Output → Result
  completed : Completion → Result

-- Whether the objects of an action are there.
abbrev pub is_enabled : Action → Machine → Bool
is_enabled (operates o) m = is_legal o m.world
is_enabled (emits s signal arguments) m = is_some (m.world.signals s)

-- The fuel of `activate`: what was ever allocated for the list of the sender, plus one.
abbrev pub fuel_for : Option SignalBase → ℕ
fuel_for none = 0
fuel_for (some x) = suc x.connect_list.fresh

unfoldable pub act : Environment → ℕ → Action → Machine → Option (Result × Machine)
unfolding perform activate
act env g (operates o) m = do
  (out, w) ← perform g o m.world
  some (output out, record m { world = w })
act env g (emits s signal arguments) m = do
  (done, m') ← activate env (fuel_for (m.world.signals s)) g s signal arguments m
  some (completed done, m')

-- The actions one after the other. Those whose objects do not exist are left out.
unfoldable pub run_program :
    Environment → ℕ → List Action → Machine → Option (List Result × Machine)
unfolding act
run_program env g [] m = some ([], m)
run_program env g (c ∷ cs) m =
    let skip = run_program env g cs m in
    let after = (do
      (result, m₁) ← act env g c m
      (results, m') ← run_program env g cs m₁
      some (result ∷ results, m')) in
    if is_enabled c m then after else skip

-- A thread that has done nothing yet, with these variables.
abbrev pub start : Memory → Machine
start mem = record {
  world = nothing;
  current_sender = none;
  current_signal = none;
  destroyed_mutex = false;
  memory = mem;
}
