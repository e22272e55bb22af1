-- ===== src/Connections/Network.antt =====
-- What a program does with senders and receivers in one thread, as a history of operations: cs_signal.h,
-- cs_signal.cpp and cs_slot.cpp together.
pub mod Specification
pub mod Counting
pub mod Invariant
pub mod Growth
pub mod Linking
pub mod Removal
pub mod Represents
pub mod History
pub mod Roundtrip
pub mod Unique
use cs_signal.Prelude.{
  is_some, is_some-elim, ℕ, zero, Bool, true, false, ◌&&◌, not, Option, none, some, List, [], ◌∷◌,
  ◌>>=◌, if◌then◌else◌,
}
use cs_signal.RcuList.{Ptr, empty}
use cs_signal.Bento.{Bento}
use cs_signal.Connections.{ConnectionKind, SignalBase, SlotBase, World, assign}
use cs_signal.Connections.Connect.{Outcome, connect_method, connect_lambda, connect_bento}
use cs_signal.Connections.Disconnect.{internal_disconnect}
use cs_signal.Connections.Destroy.{destroy_signal, destroy_slot}

pub data Overload : Type 0 where
  with_method with_lambda with_bento : Overload

pub data Operation : Type 0 where
  new_signal : (sender : ℕ) → Operation
  new_slot : (receiver : ℕ) → Operation
  connects :
      Overload
      → (sender : ℕ) (signal : Bento) (receiver : ℕ) (slot : Bento) (kind : ConnectionKind)
        (unique : Bool)
      → Operation
  disconnects :
      (sender : ℕ) (signal : Option Bento) (receiver : Ptr) (slot : Option Bento) → Operation
  delete_signal : (sender : ℕ) → Operation
  delete_slot : (receiver : ℕ) → Operation

-- What an operation returns.
pub data Output : Type 0 where
  done : Output
  outcome : Outcome → Output
  found : Bool → Output

-- Whether the objects are there that an operation is given. A new one gets an unused address.
abbrev pub is_legal : Operation → World → Bool
is_legal (new_signal s) w = not (is_some (w.signals s))
is_legal (new_slot r) w = not (is_some (w.slots r))
is_legal (connects o s signal r slot kind unique) w = is_some (w.signals s) && is_some (w.slots r)
is_legal (disconnects s signal receiver slot) w = is_some (w.signals s)
is_legal (delete_signal s) w = is_some (w.signals s)
is_legal (delete_slot r) w = is_some (w.slots r)

-- The constructors, and `m_activateBusy = 0`.
abbrev pub add_signal : ℕ → World → World
add_signal s w = record w {
  signals = assign w.signals s (some (record { activate_busy = 0; connect_list = empty }));
}

abbrev pub add_slot : ℕ → World → World
add_slot r w = record w { slots = assign w.slots r (some (record { possible_senders = empty })) }

unfoldable pub connect_as :
    Overload → ℕ → ℕ → Bento → ℕ → Bento → ConnectionKind → Bool → World → Option (Outcome × World)
unfolding connect_method connect_lambda connect_bento
connect_as with_method g s signal r slot kind unique w =
    connect_method g s signal r slot kind unique w
connect_as with_lambda g s signal r slot kind unique w =
    connect_lambda g s signal r slot kind unique w
connect_as with_bento g s signal r slot kind unique w =
    connect_bento g s signal r slot kind unique w

unfoldable pub perform : ℕ → Operation → World → Option (Output × World)
unfolding connect_as internal_disconnect destroy_signal destroy_slot
perform g (new_signal s) w = some (done, add_signal s w)
perform g (new_slot r) w = some (done, add_slot r w)
perform g (connects o s signal r slot kind unique) w = do
  (out, w') ← connect_as o g s signal r slot kind unique w
  some (outcome out, w')
perform g (disconnects s signal receiver slot) w = do
  (retval, w') ← internal_disconnect g s signal receiver slot w
  some (found retval, w')
perform g (delete_signal s) w = do w' ← destroy_signal g s w; some (done, w')
perform g (delete_slot r) w = do w' ← destroy_slot g r w; some (done, w')

-- A history: the outputs, and the world. A program gives an operation objects that exist, so that the
-- others are left out.
unfoldable pub run_history : ℕ → List Operation → World → Option (List Output × World)
unfolding perform
run_history g [] w = some ([], w)
run_history g (o ∷ os) w =
    let skip = run_history g os w in
    let after = (do
      (out, w₁) ← perform g o w
      (outs, w') ← run_history g os w₁
      some (out ∷ outs, w')) in
    if is_legal o w then after else skip

abbrev pub nothing : World
nothing = record { signals = λ s. none; slots = λ r. none; being_destroyed = [] }
