-- ===== src/Connections/Queries/Counts.antt =====
-- What the queries return, in terms of the connections of the sender and the senders of the receiver.
use cs_signal.Prelude.{
  ℕ, ◌+◌, ◌≡◌, refl, ap, ◌∙◌, Bool, false, Bool_cases, inl, inr, none, some, List, [], ◌∷◌,
  if◌then◌else◌, count_of, arith,
}
use cs_signal.RcuList.{RcuList, Ptr, ptr_eq}
use cs_signal.RcuList.Iterator.{next, each}
use cs_signal.SharedList.{Holds}
use cs_signal.Bento.{Bento, bento_eq}
use cs_signal.Connections.{ConnectStruct, SignalBase, World, put_list}
use cs_signal.Connections.Lists.{under_read_handle-each}
use cs_signal.Connections.Queries.{count_body, cnt_connections}

-- Whether a query for `receiver`, null for all of them, and `signal` is about a connection.
abbrev pub asked : Ptr → Bento → ConnectStruct → Bool
asked none signal c = bento_eq c.signal_method signal
asked (some r) signal c =
    if ptr_eq c.receiver (some r) then bento_eq c.signal_method signal else false

each-count :
    (receiver : Ptr) (signal : Bento) (cs : List ConnectStruct) (n : ℕ)
    → each (count_body receiver signal) cs n ≡ some (next (n + count_of (asked receiver signal) cs))
unfolding each
each-count receiver signal [] n = ap (λ k. some (next k)) (omega arith)
each-count none signal (c ∷ cs) n = elim (Bool_cases (bento_eq c.signal_method signal)) [
  | inl m ↦ rw m (each-count none signal cs (n + 1) ∙ ap (λ k. some (next k)) (omega arith))
  | inr m ↦ rw m (each-count none signal cs n)
]
each-count (some r) signal (c ∷ cs) n = elim (Bool_cases (ptr_eq c.receiver (some r))) [
  | inl q ↦ elim (Bool_cases (bento_eq c.signal_method signal)) [
    | inl m ↦
        rw (q, m) (each-count (some r) signal cs (n + 1) ∙ ap (λ k. some (next k)) (omega arith))
    | inr m ↦ rw (q, m) (each-count (some r) signal cs n)
  ]
  | inr q ↦ rw q (each-count (some r) signal cs n)
]

-- For a sender that exists with a list in order, `internal_cntConnections` returns the number of
-- its connections of the signal to the receiver, or to any receiver if that is null. The list has
-- the same items afterwards and is not locked.
pub cnt_connections-count_of :
    (g s : ℕ) (receiver : Ptr) (signal : Bento) (w : World) (x : SignalBase)
    (cs : List ConnectStruct)
    → w.signals s ≡ some x
    → Holds x.connect_list cs
    → (l : RcuList ConnectStruct) × (cnt_connections g s receiver signal w
        ≡ some (count_of (asked receiver signal) cs, put_list s x l w))
      × Holds l cs
unfolding cnt_connections
cnt_connections-count_of g s receiver signal w x cs x_eq h =
    let (l, run, held) =
      under_read_handle-each g (count_body receiver signal) x.connect_list cs 0
        (next (count_of (asked receiver signal) cs)) h
        (each-count receiver signal cs 0 ∙ ap (λ k. some (next k)) (omega arith)) in
    (l, rw (x_eq, run) refl, held)
