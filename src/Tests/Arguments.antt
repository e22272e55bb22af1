-- ===== src/Tests/Arguments.antt =====
-- What a slot does with a reference, by the kind of its connection.
use cs_signal.Prelude.{◌+◌, ℕ, ◌≡◌, refl, some, List, [], ◌∷◌}
use cs_signal.Bento.{method_ptr, bento_eq, dynamic_cast, invoke}
use cs_signal.Connections.{
  ConnectionKind, direct_connection, queued_connection, ConnectStruct, assign,
}
use cs_signal.Connections.Connect.{connection}
use cs_signal.Activate.Folding.{Effect, effects}
use cs_signal.Tests.Networks.{clicked}
use cs_signal.Tests.Activations.{table, arguments, first_or, ready}

-- A slot that writes its first argument to the variable that its second argument refers to.
abbrev second_or : ℕ → List ℕ → ℕ
second_or d [] = d
second_or d (x ∷ xs) = first_or d xs

abbrev writing : Effect
writing c mem = record mem {
  cells = assign mem.cells (second_or 0 c.arguments) (first_or 0 c.arguments + 1);
}

abbrev both_links : ConnectionKind → List ConnectStruct
both_links kind = connection clicked 2 (method_ptr 20 0 (100 ∷ 101 ∷ []) (some 7)) kind ∷ []

abbrev written : ConnectionKind → ℕ × ℕ
written kind =
    let mem = effects table writing clicked arguments (both_links kind) ready.memory in
    (mem.cells 6, mem.cells 51)

-- A direct slot writes to the variable, a queued one to its copy, and it has a moved value.
direct_writes : written direct_connection ≡ (6, 0)
unfolding bento_eq invoke dynamic_cast assign
direct_writes = refl

queued_writes : written queued_connection ≡ (0, 1)
unfolding bento_eq invoke dynamic_cast assign
queued_writes = refl
