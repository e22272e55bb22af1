-- ===== src/Connections/Destroy/Orphans.antt =====
-- What `~SlotBase` leaves in the senders.
use cs_signal.Prelude.{
  ℕ, ◌+◌, ◌≡◌, ◌≢◌, refl, ap, subst, ◌∙◌, sym, true, Bool_cases, inl, inr, none, some, List, ◌==◌,
  any, reject, reject-any,
}
use mathlib.Core.Bool.{true≢false}
use cs_signal.RcuList.{RcuList}
use cs_signal.RcuList.Iterator.{next, for_range}
use cs_signal.SharedList.{Holds}
use cs_signal.Connections.{ConnectStruct, World, assign, under_read_handle}
use cs_signal.Connections.Lists.{assign_same, assign_other, under_read_handle-each}
use cs_signal.Connections.Destroy.{forget_receiver, destroy_slot}
use cs_signal.Connections.Destroy.Unlink.{
  ConnectionsAre, SignalsStay, SendersExist, is_to, without_receiver, each-Unlinks,
}

-- A sender that has a connection to the receiver is known to it.
abbrev pub Remembered : ℕ → List ℕ → (ℕ → List ConnectStruct) → Type 0
Remembered r ss conns = (s : ℕ) → any (is_to r) (conns s) ≡ true → any (λ t. t == s) ss ≡ true

without_receiver-reject :
    (r : ℕ) (ss : List ℕ) (conns : ℕ → List ConnectStruct) (s : ℕ)
    → Remembered r ss conns
    → without_receiver r ss conns s ≡ reject (is_to r) (conns s)
without_receiver-reject r ss conns s known = elim (Bool_cases (any (λ t. t == s) ss)) [
  | inl m ↦ rw m refl
  | inr m ↦ elim (Bool_cases (any (is_to r) (conns s))) [
    | inl k ↦ absurd (true≢false (sym (known s k) ∙ m))
    | inr k ↦ rw m (sym (reject-any (is_to r) (conns s) k))
  ]
]

destroy_slot_run :
    (g r : ℕ) (w w' : World) (m l : RcuList ℕ)
    → w.slots r ≡ some (record { possible_senders = m })
    → under_read_handle g (λ k. for_range (forget_receiver (g + 1) r) k w) m ≡ some (next w', l)
    → destroy_slot g r w ≡ some (record w' { slots = assign w'.slots r none })
unfolding destroy_slot
destroy_slot_run g r w w' m l m_eq run = rw (m_eq, run) refl

-- For a receiver that exists with a list in order, if the senders that it knows exist, the senders'
-- lists are in order, and it knows each sender that has a connection to it: `~SlotBase` runs to its
-- end, takes the connections to the receiver out of the list of every sender, and leaves the other
-- connections. The receiver is gone, no other receiver changes, and no sender goes or has another
-- `m_activateBusy`.
pub destroy_slot-ConnectionsAre :
    (g r : ℕ) (w : World) (m : RcuList ℕ) (ss : List ℕ) (conns : ℕ → List ConnectStruct)
    → w.slots r ≡ some (record { possible_senders = m })
    → Holds m ss
    → ConnectionsAre w conns
    → SendersExist w ss
    → Remembered r ss conns
    → (w' : World) × (destroy_slot g r w ≡ some w')
      × (w'.slots r ≡ none)
      × ((a : ℕ) → a ≢ r → w'.slots a ≡ w.slots a)
      × ConnectionsAre w' (λ s. reject (is_to r) (conns s))
      × (w'.being_destroyed ≡ w.being_destroyed)
      × SignalsStay w w'
destroy_slot-ConnectionsAre g r w m ss conns m_eq h are live known =
    let (v, loop_eq, k) = each-Unlinks (g + 1) r ss w conns are live in
    let (l, run, held) =
      under_read_handle-each g (forget_receiver (g + 1) r) m ss w (next v) h loop_eq in
    (
      record v { slots = assign v.slots r none },
      destroy_slot_run g r w v m l m_eq run,
      assign_same v.slots r none,
      λ a apart. assign_other v.slots r a none apart ∙ ap (λ f. f a) k.slots_eq,
      λ s x e.
          subst (Holds x.connect_list) (without_receiver-reject r ss conns s known)
            (k.connections_are s x e),
      k.destroyed_eq,
      k.stay,
    )
