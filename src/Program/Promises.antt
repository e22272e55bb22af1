-- ===== src/Program/Promises.antt =====
-- What a program is to do that overrides nothing and whose slots only change variables.
use cs_signal.Prelude.{Bool, List, [], ◌∷◌, if◌then◌else◌}
use cs_signal.Connections.Network.Specification.{Abstract, is_allowed, specified}
use cs_signal.Activate.Arguments.{Memory, TypeTable}
use cs_signal.Activate.{returned}
use cs_signal.Activate.Folding.{Effect, effects}
use cs_signal.Program.{Action, operates, emits, Result, output, completed}

abbrev pub is_possible : Action → Abstract → Bool
is_possible (operates o) a = is_allowed o a
is_possible (emits s signal arguments) a = a.has_signal s

-- What is promised of an action: the result, the connections and the variables.
module _ (types : TypeTable) (effect : Effect) where
  abbrev pub promised : Action → Abstract → Memory → Result × Abstract × Memory
  promised (operates o) a mem = let (out, a') = specified o a in (output out, a', mem)
  promised (emits s signal arguments) a mem =
      (completed returned, a, effects types effect signal arguments (a.links s) mem)

  -- What is promised of a program: the actions whose objects do not exist are left out.
  abbrev pub promised_program : List Action → Abstract → Memory → List Result × Abstract × Memory
  promised_program [] a mem = ([], a, mem)
  promised_program (c ∷ cs) a mem =
      if is_possible c a
      then (let (result, a₁, mem₁) = promised c a mem in
          let (results, a', mem') = promised_program cs a₁ mem₁ in (result ∷ results, a', mem'))
      else promised_program cs a mem
