-- ===== src/Connections/Connect.antt =====
-- The overloads of `connect` in cs_signal.h.
pub mod Results
pub mod Overloads
use cs_signal.Prelude.{
  ℕ, ◌+◌, Bool, true, false, Option, none, some, List, [], ◌∷◌, ◌==◌, if◌then◌else◌, ◌>>=◌, ◌&&◌,
}
use cs_signal.RcuList.{RcuList, Ptr, ptr_eq}
use cs_signal.RcuList.Guard.{rcu_write_lock, rcu_write_unlock}
use cs_signal.RcuList.Iterator.{flow_state, Flow, next, leave, for_range}
use cs_signal.Bento.{Bento, lambda, function_ptr, method_ptr, const_method_ptr, bento_eq}
use cs_signal.Connections.{ConnectionKind, ConnectStruct, World, put_list, add_connection}

-- How a call of `connect` ends: with an exception, or with its result.
pub data Outcome : Type 0 where
  invalid_argument : Outcome
  returned : Bool → Outcome

abbrev pub is_null : Bento → Bool
is_null (lambda i us) = false
is_null (function_ptr s us p) = ptr_eq p none
is_null (method_ptr c s us p) = ptr_eq p none
is_null (const_method_ptr c s us p) = ptr_eq p none

-- The loop of `uniqueConnection`, which looks for a connection that exists.
abbrev pub search_body {ℓ} : {A : Type ℓ} → (A → Bool) → A → Bool → Option (Flow Bool)
search_body p v found = if p v then some (leave true) else some (next found)

unfoldable pub already_there {ℓ} : {A : Type ℓ} → (A → Bool) → RcuList A → Option Bool
already_there p l = do f ← for_range (search_body p) l false; some (flow_state f)

-- The part that the overloads share, from `lock_write` on: `same` is the test of the loop. The
-- handle's guard is `g`, that of the receiver's list `g + 1`.
unfoldable pub connect_unless :
    (ConnectStruct → Bool) → ℕ → ℕ → ConnectStruct → Bool → World → Option (Bool × World)
connect_unless same g s c unique w = do
  x ← w.signals s
  (z, l) ← rcu_write_lock g x.connect_list
  exists_already ← (if unique then already_there same l else some false)
  if exists_already then (do l' ← rcu_write_unlock z l; some (false, put_list s x l' w)) else (do
    w' ← add_connection (g + 1) s c (put_list s x l w)
    x' ← w'.signals s
    l' ← rcu_write_unlock z x'.connect_list
    some (true, put_list s x' l' w'))

-- The tests of the three loops: a connection of a lambda is the same whatever its slot is.
abbrev pub same_connection : ConnectStruct → ConnectStruct → Bool
same_connection c item =
    if ptr_eq item.receiver c.receiver
    then (if bento_eq item.signal_method c.signal_method
        then bento_eq item.slot_method c.slot_method
        else false)
    else false

abbrev pub same_signal : ConnectStruct → ConnectStruct → Bool
same_signal c item =
    if ptr_eq item.receiver c.receiver then bento_eq item.signal_method c.signal_method else false

abbrev pub connection : Bento → ℕ → Bento → ConnectionKind → ConnectStruct
connection signal r slot kind = record {
  signal_method = signal;
  receiver = some r;
  slot_method = slot;
  kind = kind;
}

abbrev pub returns : Option (Bool × World) → Option (Outcome × World)
returns result = do (b, w) ← result; some (returned b, w)

-- `connect` of a signal method and a slot method.
unfoldable pub connect_method :
    ℕ → ℕ → Bento → ℕ → Bento → ConnectionKind → Bool → World → Option (Outcome × World)
unfolding connect_unless
connect_method g s signal r slot kind unique w =
    let c = connection signal r slot kind in
    if is_null signal
    then some (invalid_argument, w)
    else if is_null slot
    then some (invalid_argument, w)
    else returns (connect_unless (same_connection c) g s c unique w)

-- `connect` of a signal method and a lambda or a function.
unfoldable pub connect_lambda :
    ℕ → ℕ → Bento → ℕ → Bento → ConnectionKind → Bool → World → Option (Outcome × World)
unfolding connect_unless
connect_lambda g s signal r slot kind unique w =
    let c = connection signal r slot kind in
    if is_null signal
    then some (invalid_argument, w)
    else returns (connect_unless (same_signal c) g s c unique w)

-- `connect` of two `Bento` objects, which does not look for null methods.
unfoldable pub connect_bento :
    ℕ → ℕ → Bento → ℕ → Bento → ConnectionKind → Bool → World → Option (Outcome × World)
unfolding connect_unless
connect_bento g s signal r slot kind unique w =
    let c = connection signal r slot kind in
    returns (connect_unless (same_connection c) g s c unique w)
