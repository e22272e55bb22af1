-- ===== src/Activate/Arguments.antt =====
-- The arguments of `activate`, as cs_signal.h forwards them and as `TeaCup_Data` of cs_internal.h holds
-- them for a slot.
use cs_signal.Prelude.{ℕ, ◌+◌, Bool, true, false, not, ◌&&◌, List, [], ◌∷◌, if◌then◌else◌}
use cs_signal.Bento.{TeaCup}
use cs_signal.Connections.{assign}

-- The variables of the program by their addresses, those of copied arguments among them. The
-- addresses from `next` on are unused, and none is used twice.
pub record Memory : Type 0 where
  pub cells : ℕ → ℕ
  pub next : ℕ

-- What the program says of its types: which class a receiver can be cast to, which types are
-- references, and what a value of a type is after it was moved from.
pub record TypeTable : Type 0 where
  pub is_a : (receiver class : ℕ) → Bool
  pub is_reference : (type : ℕ) → Bool
  pub left_by_move : (type : ℕ) → ℕ

-- An argument: the type of the parameter, and the value, or the address of the variable if the type is
-- a reference.
pub record Passed : Type 0 where
  pub type : ℕ
  pub value : ℕ
  pub is_rvalue : Bool

abbrev pub types_of : List Passed → List ℕ
types_of [] = []
types_of (a ∷ rest) = a.type ∷ types_of rest

abbrev pub values_of : List Passed → List ℕ
values_of [] = []
values_of (a ∷ rest) = a.value ∷ values_of rest

-- What is left of the arguments when a `TeaCup_Data` was made of `std::forward<Ts>(Vs)...`: it takes
-- its parameters by value, so that a value that is an rvalue is moved from.
abbrev pub forwarded : TypeTable → List Passed → List Passed
forwarded types [] = []
forwarded types (a ∷ rest) =
    (if a.is_rvalue && not (types.is_reference a.type)
      then record a { value = types.left_by_move a.type }
      else a)
    ∷ forwarded types rest

-- One more variable, with the value `v`.
abbrev pub store : ℕ → Memory → Memory
store v mem = record { cells = assign mem.cells mem.next v; next = mem.next + 1 }

-- The value of an argument, or of the variable that it refers to.
abbrev pub read : TypeTable → Memory → Passed → ℕ
read types mem a = if types.is_reference a.type then mem.cells a.value else a.value

-- `m_copyOfData` and the tuple made of it: each argument, as it is in the memory `seen`, has a new
-- variable, and a reference is one to that variable.
unfoldable pub copied : TypeTable → Memory → List Passed → Memory → List ℕ × Memory
copied types seen [] mem = ([], mem)
copied types seen (a ∷ rest) mem =
    let (values, mem') = copied types seen rest (store (read types seen a) mem) in
    ((if types.is_reference a.type then mem.next else a.value) ∷ values, mem')

-- The constructor of `TeaCup_Data`, and what its `getData` gives a slot.
unfoldable pub tea_cup_data :
    TypeTable → (needs_copying : Bool) → List Passed → Memory → TeaCup × Memory
unfolding copied
tea_cup_data types true arguments mem =
    let (values, mem') = copied types mem arguments mem in
    (record { types = types_of arguments; values = values }, mem')
tea_cup_data types false arguments mem =
    (record { types = types_of arguments; values = values_of arguments }, mem)

-- The one of the direct calls, which is not copied.
abbrev pub pack : List Passed → TeaCup
pack arguments = record { types = types_of arguments; values = values_of arguments }
