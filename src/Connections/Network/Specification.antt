-- ===== src/Connections/Network/Specification.antt =====
-- What the operations of cs_signal.h, cs_signal.cpp and cs_slot.cpp promise: a list of connections for
-- each sender.
use cs_signal.Prelude.{
  ℕ, Bool, true, false, not, ◌&&◌, ◌||◌, List, [], ◌∷◌, ◌++◌, any, reject, if◌then◌else◌,
}
use cs_signal.Bento.{Bento}
use cs_signal.Connections.{ConnectStruct, assign}
use cs_signal.Connections.Connect.{
  Outcome, invalid_argument, returned, is_null, same_connection, same_signal, connection,
}
use cs_signal.Connections.Disconnect.{is_match}
use cs_signal.Connections.Destroy.Unlink.{is_to}
use cs_signal.Connections.Network.{
  Overload, with_method, with_lambda, with_bento, Operation, new_signal, new_slot, connects,
  disconnects, delete_signal, delete_slot, Output, done, outcome, found,
}

-- Which objects exist, and the connections of each sender.
pub record Abstract : Type 0 where
  pub has_signal : ℕ → Bool
  pub has_slot : ℕ → Bool
  pub links : ℕ → List ConnectStruct

-- What the overloads do not share.
abbrev pub is_refused : Overload → Bento → Bento → Bool
is_refused with_method signal slot = is_null signal || is_null slot
is_refused with_lambda signal slot = is_null signal
is_refused with_bento signal slot = false

abbrev pub is_same : Overload → ConnectStruct → ConnectStruct → Bool
is_same with_method c item = same_connection c item
is_same with_lambda c item = same_signal c item
is_same with_bento c item = same_connection c item

-- A connection of `s` that is there already, or is not.
abbrev pub link_unless : Bool → ℕ → ConnectStruct → Abstract → Outcome × Abstract
link_unless there s c a = (
  returned (not there),
  record a { links = assign a.links s (if there then a.links s else a.links s ++ c ∷ []) },
)

abbrev pub link : Bool → Bool → ℕ → ConnectStruct → Abstract → Outcome × Abstract
link refused there s c a = if refused then (invalid_argument, a) else link_unless there s c a

abbrev pub is_allowed : Operation → Abstract → Bool
is_allowed (new_signal s) a = not (a.has_signal s)
is_allowed (new_slot r) a = not (a.has_slot r)
is_allowed (connects o s signal r slot kind unique) a = a.has_signal s && a.has_slot r
is_allowed (disconnects s signal receiver slot) a = a.has_signal s
is_allowed (delete_signal s) a = a.has_signal s
is_allowed (delete_slot r) a = a.has_slot r

abbrev pub specified : Operation → Abstract → Output × Abstract
specified (new_signal s) a = (done, record a { has_signal = assign a.has_signal s true })
specified (new_slot r) a = (done, record a { has_slot = assign a.has_slot r true })
specified (connects o s signal r slot kind unique) a =
    let c = connection signal r slot kind in
    let (out, a') =
      link (is_refused o signal slot) (unique && any (is_same o c) (a.links s)) s c a in
    (outcome out, a')
specified (disconnects s signal receiver slot) a =
    let p = is_match signal receiver slot in
    (found (any p (a.links s)), record a { links = assign a.links s (reject p (a.links s)) })
specified (delete_signal s) a =
    (done, record a { has_signal = assign a.has_signal s false; links = assign a.links s [] })
specified (delete_slot r) a = (
  done,
  record a { has_slot = assign a.has_slot r false; links = λ s. reject (is_to r) (a.links s) },
)

-- The outputs of a history, and what exists after it.
abbrev pub specified_history : List Operation → Abstract → List Output × Abstract
specified_history [] a = ([], a)
specified_history (o ∷ os) a =
    if is_allowed o a
    then (let (out, a₁) = specified o a in
        let (outs, a') = specified_history os a₁ in (out ∷ outs, a'))
    else specified_history os a

abbrev pub initial : Abstract
initial = record { has_signal = λ s. false; has_slot = λ r. false; links = λ s. [] }
