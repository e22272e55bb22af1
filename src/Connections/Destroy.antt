-- ===== src/Connections/Destroy.antt =====
-- The destructors: `~SignalBase` of cs_signal.cpp and `~SlotBase` of cs_slot.cpp.
pub mod Purge
pub mod Dangling
pub mod Unlink
pub mod Orphans
use cs_signal.Prelude.{
  ℕ, zero, suc, ◌+◌, Bool, true, false, Option, none, some, List, [], ◌∷◌, ◌==◌, if◌then◌else◌,
  ◌>>=◌, any,
}
use cs_signal.RcuList.{RcuList, ptr_eq}
use cs_signal.RcuList.Iterator.{flow_state, Flow, next, leave, for_range, erase_matching}
use cs_signal.Connections.{
  ConnectStruct, SignalBase, SlotBase, World, assign, put_list, put_senders, under_read_handle,
  under_write_handle,
}

-- The body of the loop of `~SignalBase`: every pointer to the sender `s` leaves the list of the
-- connection's receiver.
unfoldable pub forget_sender : ℕ → ℕ → ConnectStruct → World → Option (Flow World)
unfolding under_write_handle
forget_sender g s item w = elim item.receiver [
  | none ↦ some (next w)
  | some r ↦ (do
    y ← w.slots r
    m ← under_write_handle g (erase_matching (λ t. t == s)) y.possible_senders
    some (next (put_senders r m w)))
]

-- The body of the loop of `~SlotBase`: every connection to the receiver `r` leaves the list of the
-- sender.
unfoldable pub forget_receiver : ℕ → ℕ → ℕ → World → Option (Flow World)
unfolding under_write_handle
forget_receiver g r s w = do
  x ← w.signals s
  m ← under_write_handle g (erase_matching (λ c. ptr_eq c.receiver (some r))) x.connect_list
  some (next (put_list s x m w))

abbrev pub insert_destroyed : ℕ → List ℕ → List ℕ
insert_destroyed s ds = if any (λ t. t == s) ds then ds else s ∷ ds

abbrev pub mark_destroyed : ℕ → ℕ → World → World
mark_destroyed zero s w = w
mark_destroyed (suc n) s w = record w { being_destroyed = insert_destroyed s w.being_destroyed }

-- `~SignalBase` of `s`, after which the object is gone.
unfoldable pub destroy_signal : ℕ → ℕ → World → Option World
unfolding under_read_handle forget_sender
destroy_signal g s w = do
  x ← w.signals s
  let marked = mark_destroyed x.activate_busy s w
  (f, _) ← under_read_handle g (λ l. for_range (forget_sender (g + 1) s) l marked) x.connect_list
  let w' = flow_state f
  some (record w' { signals = assign w'.signals s none })

-- `~SlotBase` of `r`.
unfoldable pub destroy_slot : ℕ → ℕ → World → Option World
unfolding under_read_handle forget_receiver
destroy_slot g r w = do
  y ← w.slots r
  (f, _) ← under_read_handle g (λ l. for_range (forget_receiver (g + 1) r) l w) y.possible_senders
  let w' = flow_state f
  some (record w' { slots = assign w'.slots r none })
