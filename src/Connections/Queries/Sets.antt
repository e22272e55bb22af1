-- ===== src/Connections/Queries/Sets.antt =====
-- The sets of receivers and of senders.
use cs_signal.Prelude.{
  ℕ, ◌≡◌, refl, subst, ◌∙◌, Bool, true, false, Bool_cases, if_Bool, inl, inr, some, List, [], ◌∷◌,
  if◌then◌else◌, any,
}
use cs_signal.RcuList.{RcuList, Ptr, ptr_eq}
use cs_signal.RcuList.Iterator.{next, each}
use cs_signal.SharedList.{Holds}
use cs_signal.Bento.{Bento, bento_eq}
use cs_signal.Bento.Equality.{ptr_eq_sound}
use cs_signal.Connections.{ConnectStruct, SignalBase, World, put_list, put_senders}
use cs_signal.Connections.Lists.{under_read_handle-each}
use cs_signal.Connections.Queries.{
  insert_ptr, receiver_body, receiver_list, sender_body, sender_list,
}

abbrev pub in_set : Ptr → List Ptr → Bool
in_set p ps = any (λ q. ptr_eq q p) ps

-- A pointer occurs once at most.
abbrev pub IsSetOf : List Ptr → Type 0
IsSetOf [] = Unit {0}
IsSetOf (p ∷ ps) = (in_set p ps ≡ false) × IsSetOf ps

insert_ptr-in_set :
    (p q : Ptr) (ps : List Ptr)
    → in_set p (insert_ptr q ps) ≡ (if ptr_eq q p then true else in_set p ps)
insert_ptr-in_set p q ps = elim (Bool_cases (in_set q ps)) [
  | inr m ↦ rw m refl
  | inl m ↦ elim (Bool_cases (ptr_eq q p)) [
    | inr n ↦ rw (m, n) refl
    | inl n ↦ rw (m, n) (subst (λ r. in_set r ps ≡ true) (ptr_eq_sound q p n) m)
  ]
]

insert_ptr-IsSetOf : (q : Ptr) (ps : List Ptr) → IsSetOf ps → IsSetOf (insert_ptr q ps)
insert_ptr-IsSetOf q ps h = elim (Bool_cases (in_set q ps)) [ inl m ↦ rw m h | inr m ↦ rw m (m, h) ]

-- Whether a connection is of a signal and to a receiver.
abbrev pub links : Bento → Ptr → ConnectStruct → Bool
links signal p c = if bento_eq c.signal_method signal then ptr_eq c.receiver p else false

links_either :
    (signal : Bento) (c : ConnectStruct) (cs : List ConnectStruct) (ps : List Ptr) (p : Ptr)
    → bento_eq c.signal_method signal ≡ true
    → (if any (links signal p) cs then true else in_set p (insert_ptr c.receiver ps))
      ≡ (if any (links signal p) (c ∷ cs) then true else in_set p ps)
links_either signal c cs ps p m = elim (Bool_cases (ptr_eq c.receiver p)) [
  | inl n ↦ elim (Bool_cases (any (links signal p) cs)) [
    | inl k ↦ rw (m, n, k) refl
    | inr k ↦ rw (k, insert_ptr-in_set p c.receiver ps, m, n) refl
  ]
  | inr n ↦ rw (insert_ptr-in_set p c.receiver ps, m, n) refl
]

each-receivers :
    (signal : Bento) (cs : List ConnectStruct) (ps : List Ptr)
    → IsSetOf ps
    → (qs : List Ptr) × (each (receiver_body signal) cs ps ≡ some (next qs))
      × IsSetOf qs
      × ((p : Ptr) → in_set p qs ≡ (if any (links signal p) cs then true else in_set p ps))
unfolding each
each-receivers signal [] ps h = (ps, refl, h, λ p. refl)
each-receivers signal (c ∷ cs) ps h = elim (Bool_cases (bento_eq c.signal_method signal)) [
  | inr m ↦
      let (qs, run, set, mem) = each-receivers signal cs ps h in
      (qs, rw m run, set, λ p. mem p ∙ rw m refl)
  | inl m ↦
      let (qs, run, set, mem) =
        each-receivers signal cs (insert_ptr c.receiver ps) (insert_ptr-IsSetOf c.receiver ps h) in
      (qs, rw m run, set, λ p. mem p ∙ links_either signal c cs ps p m)
]

-- For a sender that exists with a list in order, `internal_receiverList` returns each receiver of a
-- connection of the signal, once, and nothing else.
pub receiver_list-in_set :
    (g s : ℕ) (signal : Bento) (w : World) (x : SignalBase) (cs : List ConnectStruct)
    → w.signals s ≡ some x
    → Holds x.connect_list cs
    → (qs : List Ptr) × (l : RcuList ConnectStruct) × (receiver_list g s signal w
        ≡ some (qs, put_list s x l w))
      × Holds l cs
      × IsSetOf qs
      × ((p : Ptr) → in_set p qs ≡ any (links signal p) cs)
unfolding receiver_list
receiver_list-in_set g s signal w x cs x_eq h =
    let (qs, loop_eq, set, mem) = each-receivers signal cs [] tt in
    let (l, run, held) =
      under_read_handle-each g (receiver_body signal) x.connect_list cs [] (next qs) h loop_eq in
    (qs, l, rw (x_eq, run) refl, held, set, λ p. mem p ∙ if_Bool (any (links signal p) cs))

sender_either :
    (s : ℕ) (ss : List ℕ) (ps : List Ptr) (p : Ptr)
    → (if any (λ t. ptr_eq (some t) p) ss then true else in_set p (insert_ptr (some s) ps))
      ≡ (if any (λ t. ptr_eq (some t) p) (s ∷ ss) then true else in_set p ps)
sender_either s ss ps p = elim (Bool_cases (ptr_eq (some s) p)) [
  | inl n ↦ elim (Bool_cases (any (λ t. ptr_eq (some t) p) ss)) [
    | inl k ↦ rw (k, n) refl
    | inr k ↦ rw (k, insert_ptr-in_set p (some s) ps, n) refl
  ]
  | inr n ↦ rw (insert_ptr-in_set p (some s) ps, n) refl
]

each-senders :
    (ss : List ℕ) (ps : List Ptr)
    → IsSetOf ps
    → (qs : List Ptr) × (each sender_body ss ps ≡ some (next qs))
      × IsSetOf qs
      × ((p : Ptr) → in_set p qs ≡ (if any (λ s. ptr_eq (some s) p) ss then true else in_set p ps))
unfolding each
each-senders [] ps h = (ps, refl, h, λ p. refl)
each-senders (s ∷ ss) ps h =
    let (qs, run, set, mem) =
      each-senders ss (insert_ptr (some s) ps) (insert_ptr-IsSetOf (some s) ps h) in
    (qs, run, set, λ p. mem p ∙ sender_either s ss ps p)

-- For a receiver that exists with a list in order, `internal_senderList` returns each sender in its
-- list, once, and nothing else.
pub sender_list-in_set :
    (g r : ℕ) (w : World) (l : RcuList ℕ) (ss : List ℕ)
    → w.slots r ≡ some (record { possible_senders = l })
    → Holds l ss
    → (qs : List Ptr) × (l' : RcuList ℕ) × (sender_list g r w ≡ some (qs, put_senders r l' w))
      × Holds l' ss
      × IsSetOf qs
      × ((p : Ptr) → in_set p qs ≡ any (λ t. ptr_eq (some t) p) ss)
unfolding sender_list
sender_list-in_set g r w l ss l_eq h =
    let (qs, loop_eq, set, mem) = each-senders ss [] tt in
    let (l', run, held) = under_read_handle-each g sender_body l ss [] (next qs) h loop_eq in
    (qs, l', rw (l_eq, run) refl, held, set, λ p. mem p ∙ if_Bool (any (λ t. ptr_eq (some t) p) ss))
