-- ===== src/Connections/Destroy/Unlink.antt =====
-- The loop of `~SlotBase`.
use cs_signal.Prelude.{
  ℕ, ◌≡◌, ◌≢◌, refl, ap, subst, ◌∙◌, sym, Bool, Bool_cases, inl, inr, some, List, [], ◌∷◌, ◌==◌,
  ==_iff, if◌then◌else◌, any, reject, reject-reject,
}
use mathlib.Core.Bool.{true≢false}
use cs_signal.RcuList.{RcuList, ptr_eq}
use cs_signal.RcuList.Iterator.{next, continue, each, erase_matching}
use cs_signal.SharedList.{Holds, purge-Becomes}
use cs_signal.Connections.{ConnectStruct, SignalBase, World, put_list, under_write_handle}
use cs_signal.Connections.Lists.{
  SameView, assign-SameView, busy_of, assign_same, assign_other, under_write_handle-Holds,
}
use cs_signal.Connections.Destroy.{forget_receiver}
use cs_signal.Connections.Destroy.Purge.{some_or}

-- The lists of the senders that exist are in order, not locked, and hold `conns`.
abbrev pub ConnectionsAre : World → (ℕ → List ConnectStruct) → Type 0
ConnectionsAre w conns =
    (s : ℕ) (x : SignalBase) → w.signals s ≡ some x → Holds x.connect_list (conns s)

abbrev pub SignalExists : World → ℕ → Type 0
SignalExists w s = (x : SignalBase) × (w.signals s ≡ some x)

-- The senders of `w'` are those of `w`, with the same `m_activateBusy`.
abbrev pub SignalsStay : World → World → Type 0
SignalsStay w w' = SameView busy_of w.signals w'.signals

abbrev pub SendersExist : World → List ℕ → Type 0
SendersExist w [] = Unit {0}
SendersExist w (s ∷ ss) = SignalExists w s × SendersExist w ss

abbrev pub is_to : ℕ → ConnectStruct → Bool
is_to r c = ptr_eq c.receiver (some r)

-- What the loop leaves of the senders' lists.
abbrev pub without_receiver : ℕ → List ℕ → (ℕ → List ConnectStruct) → ℕ → List ConnectStruct
without_receiver r ss conns s = if any (λ t. t == s) ss then reject (is_to r) (conns s) else conns s

forget_receiver_run :
    (g r s : ℕ) (w : World) (x : SignalBase) (m : RcuList ConnectStruct)
    → w.signals s ≡ some x
    → under_write_handle g (erase_matching (is_to r)) x.connect_list ≡ some m
    → forget_receiver g r s w ≡ some (next (put_list s x m w))
unfolding forget_receiver
forget_receiver_run g r s w x m x_eq run = rw (x_eq, run) refl

put_list-ConnectionsAre :
    (w : World) (conns : ℕ → List ConnectStruct) (a : ℕ) (x : SignalBase)
    (m : RcuList ConnectStruct) (cs : List ConnectStruct)
    → ConnectionsAre w conns
    → Holds m cs
    → ConnectionsAre (put_list a x m w) (λ s. if a == s then cs else conns s)
put_list-ConnectionsAre w conns a x m cs h held s y e = elim (Bool_cases (a == s)) [
  | inl n ↦
      let here : some (record x { connect_list = m }) ≡ some y =
        sym (assign_same w.signals a _)
        ∙ ap (λ b. (put_list a x m w).signals b) ((==_iff a s).0 n)
        ∙ e in
      rw n (subst (λ (k : SignalBase). Holds k.connect_list cs) (ap (some_or y) here) held)
  | inr n ↦
      let apart : s ≢ a = λ f. true≢false (sym ((==_iff a s).1 (sym f)) ∙ n) in
      rw n (h s y (sym (assign_other w.signals a s _ apart) ∙ e))
]

put_list-SignalExists :
    (w : World) (a : ℕ) (x : SignalBase) (m : RcuList ConnectStruct) (s : ℕ)
    → SignalExists w s
    → SignalExists (put_list a x m w) s
put_list-SignalExists w a x m s (y, e) = elim (Bool_cases (s == a)) [
  | inl n ↦ (
    record x { connect_list = m },
    ap (λ b. (put_list a x m w).signals b) ((==_iff s a).0 n) ∙ assign_same w.signals a _,
  )
  | inr n ↦ (y, assign_other w.signals a s _ (λ f. true≢false (sym ((==_iff s a).1 f) ∙ n)) ∙ e)
]

SendersExist-put_list :
    (w : World) (a : ℕ) (x : SignalBase) (m : RcuList ConnectStruct) (ss : List ℕ)
    → SendersExist w ss
    → SendersExist (put_list a x m w) ss
SendersExist-put_list w a x m [] h = tt
SendersExist-put_list w a x m (s ∷ ss) h =
    (put_list-SignalExists w a x m s h.0, SendersExist-put_list w a x m ss h.1)

-- What the loop of `~SlotBase` does to the world `w`.
pub record Unlinks (r : ℕ) (ss : List ℕ) (w : World) (conns : ℕ → List ConnectStruct) (w' : World)
    : Type 0 where
  pub slots_eq : w'.slots ≡ w.slots
  pub destroyed_eq : w'.being_destroyed ≡ w.being_destroyed
  pub connections_are : ConnectionsAre w' (without_receiver r ss conns)
  pub stay : SignalsStay w w'

without_receiver-cons :
    (r a : ℕ) (ss : List ℕ) (conns : ℕ → List ConnectStruct) (s : ℕ)
    → without_receiver r ss (λ b. if a == b then reject (is_to r) (conns a) else conns b) s
      ≡ without_receiver r (a ∷ ss) conns s
without_receiver-cons r a ss conns s = elim (Bool_cases (a == s)) [
  | inl n ↦
      let same = ap (λ b. reject (is_to r) (conns b)) ((==_iff a s).0 n) in
      elim (Bool_cases (any (λ t. t == s) ss)) [
        | inl k ↦ rw (k, n) (reject-reject (is_to r) (conns a) ∙ same)
        | inr k ↦ rw (k, n) same
      ]
  | inr n ↦ rw n refl
]

-- The loop of `~SlotBase` runs to its end if the senders exist.
pub each-Unlinks :
    (g r : ℕ) (ss : List ℕ) (w : World) (conns : ℕ → List ConnectStruct)
    → ConnectionsAre w conns
    → SendersExist w ss
    → (w' : World) × (each (forget_receiver g r) ss w ≡ some (next w')) × Unlinks r ss w conns w'
unfolding each
each-Unlinks g r [] w conns h live = (
  w,
  refl,
  record { slots_eq = refl; destroyed_eq = refl; connections_are = h; stay = λ s. refl },
)
each-Unlinks g r (a ∷ ss) w conns h ((x, x_eq), live) =
    let p : ConnectStruct → Bool = is_to r in
    let (m, run, held) =
      under_write_handle-Holds g (erase_matching p) x.connect_list (conns a) (reject p (conns a))
        (h a x x_eq) (λ z k locked. purge-Becomes k z (some g) (conns a) locked p) in
    let step = forget_receiver_run g r a w x m x_eq run in
    let (w', rest, k) =
      each-Unlinks g r ss (put_list a x m w) _
        (put_list-ConnectionsAre w conns a x m (reject p (conns a)) h held)
        (SendersExist-put_list w a x m ss live) in
    (
      w',
      ap (λ o. continue o (λ v. each (forget_receiver g r) ss v)) step ∙ rest,
      record {
        slots_eq = k.slots_eq;
        destroyed_eq = k.destroyed_eq;
        stay = λ s. k.stay s ∙ assign-SameView busy_of w.signals a x _ x_eq refl s;
        connections_are = λ s y f.
            subst (Holds y.connect_list) (without_receiver-cons r a ss conns s)
              (k.connections_are s y f);
      },
    )
