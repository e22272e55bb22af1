-- ===== src/Connections/Destroy/Purge.antt =====
-- The loops of the destructors.
use cs_signal.Prelude.{
  is_some, ℕ, ◌≡◌, ◌≢◌, refl, ap, subst, ◌∙◌, sym, Bool, Bool_cases, Option_cases, inl, inr, Option,
  none, some, List, [], ◌∷◌, ◌==◌, ==_iff, if◌then◌else◌, any, reject, reject-reject,
}
use mathlib.Core.Bool.{true≢false}
use cs_signal.RcuList.{RcuList, ptr_eq}
use cs_signal.RcuList.Iterator.{next, continue, each, erase_matching}
use cs_signal.SharedList.{Holds, purge-Becomes}
use cs_signal.Connections.{ConnectStruct, SlotBase, World, put_senders, under_write_handle}
use cs_signal.Connections.Lists.{
  SameView, assign-SameView, assign_same, assign_other, under_write_handle-Holds,
}
use cs_signal.Connections.Destroy.{forget_sender}

-- The lists of the receivers that exist are in order, not locked, and hold `sends`.
abbrev pub SendersAre : World → (ℕ → List ℕ) → Type 0
SendersAre w sends =
    (r : ℕ) (y : SlotBase) → w.slots r ≡ some y → Holds y.possible_senders (sends r)

abbrev pub SlotExists : World → ℕ → Type 0
SlotExists w r = (y : SlotBase) × (w.slots r ≡ some y)

-- The receivers of `w'` are those of `w`.
abbrev pub SlotsStay : World → World → Type 0
SlotsStay w w' = SameView is_some w.slots w'.slots

-- The receivers of the connections exist.
abbrev pub ReceiversExist : World → List ConnectStruct → Type 0
ReceiversExist w [] = Unit {0}
ReceiversExist w (c ∷ cs) = ((r : ℕ) → c.receiver ≡ some r → SlotExists w r) × ReceiversExist w cs

-- What the loop leaves of the receivers' lists.
abbrev pub without_sender : ℕ → List ConnectStruct → (ℕ → List ℕ) → ℕ → List ℕ
without_sender s cs sends r =
    if any (λ c. ptr_eq c.receiver (some r)) cs then reject (λ t. t == s) (sends r) else sends r

forget_sender_run :
    (g s r : ℕ) (item : ConnectStruct) (w : World) (y : SlotBase) (m : RcuList ℕ)
    → item.receiver ≡ some r
    → w.slots r ≡ some y
    → under_write_handle g (erase_matching (λ t. t == s)) y.possible_senders ≡ some m
    → forget_sender g s item w ≡ some (next (put_senders r m w))
unfolding forget_sender
forget_sender_run g s r item w y m to_r y_eq run = rw (to_r, y_eq, run) refl

abbrev pub some_or {ℓ} : {A : Type ℓ} → A → Option A → A
some_or d none = d
some_or d (some v) = v

pub put_senders-SendersAre :
    (w : World) (sends : ℕ → List ℕ) (a : ℕ) (m : RcuList ℕ) (ws : List ℕ)
    → SendersAre w sends
    → Holds m ws
    → SendersAre (put_senders a m w) (λ r. if a == r then ws else sends r)
put_senders-SendersAre w sends a m ws h held r y e = elim (Bool_cases (a == r)) [
  | inl n ↦
      let here : some (record { possible_senders = m }) ≡ some y =
        sym (assign_same w.slots a _)
        ∙ ap (λ b. (put_senders a m w).slots b) ((==_iff a r).0 n)
        ∙ e in
      rw n (subst (λ (k : SlotBase). Holds k.possible_senders ws) (ap (some_or y) here) held)
  | inr n ↦
      let apart : r ≢ a = λ f. true≢false (sym ((==_iff a r).1 (sym f)) ∙ n) in
      rw n (h r y (sym (assign_other w.slots a r _ apart) ∙ e))
]

pub put_senders-SlotExists :
    (w : World) (a : ℕ) (m : RcuList ℕ) (r : ℕ) → SlotExists w r → SlotExists (put_senders a m w) r
put_senders-SlotExists w a m r (y, e) = elim (Bool_cases (r == a)) [
  | inl n ↦ (
    record { possible_senders = m },
    ap (λ b. (put_senders a m w).slots b) ((==_iff r a).0 n) ∙ assign_same w.slots a _,
  )
  | inr n ↦ (y, assign_other w.slots a r _ (λ f. true≢false (sym ((==_iff r a).1 f) ∙ n)) ∙ e)
]

pub ReceiversExist-mono :
    (w w' : World) (cs : List ConnectStruct)
    → ((r : ℕ) → SlotExists w r → SlotExists w' r)
    → ReceiversExist w cs
    → ReceiversExist w' cs
ReceiversExist-mono w w' [] f h = tt
ReceiversExist-mono w w' (c ∷ cs) f h = (λ r e. f r (h.0 r e), ReceiversExist-mono w w' cs f h.1)

-- What the loop of `~SignalBase` does to the world `w`.
pub record Forgets (s : ℕ) (cs : List ConnectStruct) (w : World) (sends : ℕ → List ℕ) (w' : World)
    : Type 0 where
  pub signals_eq : w'.signals ≡ w.signals
  pub destroyed_eq : w'.being_destroyed ≡ w.being_destroyed
  pub senders_are : SendersAre w' (without_sender s cs sends)
  pub stay : SlotsStay w w'

without_sender-cons :
    (s : ℕ) (c : ConnectStruct) (cs : List ConnectStruct) (sends : ℕ → List ℕ) (a r : ℕ)
    → c.receiver ≡ some a
    → without_sender s cs (λ b. if a == b then reject (λ t. t == s) (sends a) else sends b) r
      ≡ without_sender s (c ∷ cs) sends r
without_sender-cons s c cs sends a r e = elim (Bool_cases (a == r)) [
  | inl n ↦ elim (Bool_cases (any (λ d. ptr_eq d.receiver (some r)) cs)) [
    | inl k ↦
        rw (k, e, n)
          (reject-reject _ (sends a) ∙ ap (λ b. reject (λ t. t == s) (sends b)) ((==_iff a r).0 n))
    | inr k ↦ rw (k, e, n) (ap (λ b. reject (λ t. t == s) (sends b)) ((==_iff a r).0 n))
  ]
  | inr n ↦ rw (e, n) refl
]

-- One round of the loop.
forget_sender-Forgets :
    (g s : ℕ) (c : ConnectStruct) (w : World) (sends : ℕ → List ℕ) (a : ℕ)
    → c.receiver ≡ some a
    → SlotExists w a
    → SendersAre w sends
    → (m : RcuList ℕ) × (forget_sender g s c w ≡ some (next (put_senders a m w)))
      × SendersAre
          (put_senders a m w)
          (λ r. if a == r then reject (λ t. t == s) (sends a) else sends r)
forget_sender-Forgets g s c w sends a to_a (y, y_eq) h =
    let p : ℕ → Bool = λ t. t == s in
    let (m, run, held) =
      under_write_handle-Holds g (erase_matching p) y.possible_senders (sends a)
        (reject p (sends a)) (h a y y_eq)
        (λ z k locked. purge-Becomes k z (some g) (sends a) locked p) in
    (
      m,
      forget_sender_run g s a c w y m to_a y_eq run,
      put_senders-SendersAre w sends a m (reject p (sends a)) h held,
    )

-- The loop of `~SignalBase` runs to its end if the receivers exist.
pub each-Forgets :
    (g s : ℕ) (cs : List ConnectStruct) (w : World) (sends : ℕ → List ℕ)
    → SendersAre w sends
    → ReceiversExist w cs
    → (w' : World) × (each (forget_sender g s) cs w ≡ some (next w')) × Forgets s cs w sends w'
unfolding each forget_sender
each-Forgets g s [] w sends h live =
    (w, refl, record { signals_eq = refl; destroyed_eq = refl; senders_are = h; stay = λ r. refl })
each-Forgets g s (c ∷ cs) w sends h live = elim (Option_cases c.receiver) [
  | inl e ↦
      let (w', run, k) = each-Forgets g s cs w sends h live.1 in
      (
        w',
        rw (e, run) refl,
        record {
          signals_eq = k.signals_eq;
          destroyed_eq = k.destroyed_eq;
          senders_are = λ r y f. rw e (k.senders_are r y f);
          stay = k.stay;
        },
      )
  | inr (a, e) ↦
      let (m, step, are) = forget_sender-Forgets g s c w sends a e (live.0 a e) h in
      let (w', run, k) =
        each-Forgets g s cs (put_senders a m w) _ are
          (ReceiversExist-mono w (put_senders a m w) cs (put_senders-SlotExists w a m) live.1) in
      (
        w',
        ap (λ o. continue o (λ v. each (forget_sender g s) cs v)) step ∙ run,
        record {
          signals_eq = k.signals_eq;
          destroyed_eq = k.destroyed_eq;
          senders_are = λ r y f.
              subst (Holds y.possible_senders) (without_sender-cons s c cs sends a r e)
                (k.senders_are r y f);
          stay = λ r.
              let (y, y_eq) = live.0 a e in
              k.stay r ∙ assign-SameView is_some w.slots a y _ y_eq refl r;
        },
      )
]
