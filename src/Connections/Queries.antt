-- ===== src/Connections/Queries.antt =====
-- `internal_cntConnections` and `internal_receiverList` of cs_signal.cpp, and `internal_senderList`
-- of cs_slot.cpp.
pub mod Counts
pub mod Sets
use cs_signal.Prelude.{
  ℕ, ◌+◌, Bool, true, false, Option, none, some, List, [], ◌∷◌, ◌==◌, if◌then◌else◌, ◌>>=◌, not,
  any,
}
use cs_signal.RcuList.{RcuList, Ptr, ptr_eq}
use cs_signal.RcuList.Iterator.{flow_state, Flow, next, leave, for_range}
use cs_signal.Bento.{Bento, bento_eq}
use cs_signal.Connections.{ConnectStruct, World, put_list, put_senders, under_read_handle}

-- The body of the loop of `internal_cntConnections`; `receiver` is null to count all receivers.
abbrev pub count_body : Ptr → Bento → ConnectStruct → ℕ → Option (Flow ℕ)
count_body none signal item retval =
    if bento_eq item.signal_method signal then some (next (retval + 1)) else some (next retval)
count_body (some r) signal item retval =
    if ptr_eq item.receiver (some r)
    then (if bento_eq item.signal_method signal
        then some (next (retval + 1))
        else some (next retval))
    else some (next retval)

unfoldable pub cnt_connections : ℕ → ℕ → Ptr → Bento → World → Option (ℕ × World)
unfolding under_read_handle
cnt_connections g s receiver signal w = do
  x ← w.signals s
  (f, l) ← under_read_handle g (λ k. for_range (count_body receiver signal) k 0) x.connect_list
  some (flow_state f, put_list s x l w)

-- `std::set` of pointers: `insert` leaves a set alone that has the pointer.
abbrev pub insert_ptr : Ptr → List Ptr → List Ptr
insert_ptr p ps = if any (λ q. ptr_eq q p) ps then ps else p ∷ ps

abbrev pub receiver_body : Bento → ConnectStruct → List Ptr → Option (Flow (List Ptr))
receiver_body signal item retval =
    if bento_eq item.signal_method signal
    then some (next (insert_ptr item.receiver retval))
    else some (next retval)

unfoldable pub receiver_list : ℕ → ℕ → Bento → World → Option (List Ptr × World)
unfolding under_read_handle
receiver_list g s signal w = do
  x ← w.signals s
  (f, l) ← under_read_handle g (λ k. for_range (receiver_body signal) k []) x.connect_list
  some (flow_state f, put_list s x l w)

abbrev pub sender_body : ℕ → List Ptr → Option (Flow (List Ptr))
sender_body s retval = some (next (insert_ptr (some s) retval))

unfoldable pub sender_list : ℕ → ℕ → World → Option (List Ptr × World)
unfolding under_read_handle
sender_list g r w = do
  y ← w.slots r
  (f, l) ← under_read_handle g (λ k. for_range sender_body k []) y.possible_senders
  some (flow_state f, put_senders r l w)
