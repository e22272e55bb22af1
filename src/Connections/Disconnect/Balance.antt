-- ===== src/Connections/Disconnect/Balance.antt =====
-- The balance of connections and pointers, before and after `internal_disconnect`: a receiver has as
-- many pointers to a sender as there are connections from the sender to it.
use cs_signal.Prelude.{
  ℕ, zero, ◌+◌, ◌<◌, ◌≡◌, ◌≢◌, refl, sym, ap, subst, ◌∙◌, Bool, true, false, Bool_cases, inl, inr,
  Option, some, List, [], ◌∷◌, ◌==◌, ==_iff, if◌then◌else◌, any, reject, count_of, arith,
}
use cs_signal.RcuList.{RcuList, Ptr, ptr_eq}
use cs_signal.SharedList.{Holds, remove_first}
use cs_signal.Bento.{Bento}
use cs_signal.Connections.{ConnectStruct, SignalBase, World}
use cs_signal.Connections.Destroy.Purge.{SendersAre, ReceiversExist, SlotsStay}
use cs_signal.Connections.Disconnect.{is_match, internal_disconnect}
use cs_signal.Connections.Disconnect.Loop.{forget_each}
use cs_signal.Connections.Disconnect.Erased.{internal_disconnect-reject}

abbrev pub times : ℕ → List ℕ → ℕ
times s vs = count_of (λ t. t == s) vs

-- The number of connections to a receiver.
abbrev pub links_to : ℕ → List ConnectStruct → ℕ
links_to r cs = count_of (λ c. ptr_eq c.receiver (some r)) cs

abbrev pub Balanced : ℕ → List ConnectStruct → (ℕ → List ℕ) → Type 0
Balanced s cs sends = (r : ℕ) → times s (sends r) ≡ links_to r cs

-- Every connection has a receiver.
abbrev pub HaveReceivers : List ConnectStruct → Type 0
HaveReceivers [] = Unit {0}
HaveReceivers (c ∷ cs) = ((a : ℕ) × (c.receiver ≡ some a)) × HaveReceivers cs

apart_false : (v s t : ℕ) → v == s ≡ true → t ≢ s → v == t ≡ false
apart_false v s t m apart = elim (Bool_cases (v == t)) [
  | inl n ↦ absurd (apart (sym ((==_iff v t).0 n) ∙ (==_iff v s).0 m))
  | inr n ↦ n
]

-- One pointer less, and no other pointer goes.
remove_first-times :
    (s : ℕ) (vs : List ℕ)
    → zero < times s vs
    → (ws : List ℕ) × (remove_first (λ t. t == s) vs ≡ some ws)
      × (times s vs ≡ times s ws + 1)
      × ((t : ℕ) → t ≢ s → times t ws ≡ times t vs)
remove_first-times s [] h = absurd (omega arith)
remove_first-times s (v ∷ vs) h = elim (Bool_cases (v == s)) [
  | inl m ↦ (vs, rw m refl, rw m refl, λ t apart. rw (apart_false v s t m apart) refl)
  | inr m ↦
      let (ws, run, less, others) = remove_first-times s vs (rw m at h) in
      (
        v ∷ ws,
        rw (m, run) refl,
        rw m less,
        λ t apart. elim (Bool_cases (v == t)) [
          | inl n ↦ rw n (ap (λ k. k + 1) (others t apart))
          | inr n ↦ rw n (others t apart)
        ],
      )
]

-- The connections that stay, and the pointers of the receivers, after the loop.
abbrev pub Forgotten :
    (ConnectStruct → Bool) → ℕ → List ConnectStruct → (ℕ → List ℕ) → (ℕ → ℕ) → Type 0
Forgotten p s cs sends kept =
    (sends' : ℕ → List ℕ) × (forget_each p s cs sends ≡ some sends')
    × ((r : ℕ) → times s (sends' r) ≡ kept r + links_to r (reject p cs))
    × ((t r : ℕ) → t ≢ s → times t (sends' r) ≡ times t (sends r))

-- A connection to `a` counts for `a` alone.
links_to-cons :
    (c : ConnectStruct) (cs : List ConnectStruct) (a r : ℕ)
    → c.receiver ≡ some a
    → links_to r (c ∷ cs) ≡ (if a == r then links_to r cs + 1 else links_to r cs)
links_to-cons c cs a r e = rw e refl

passed :
    (c : ConnectStruct) (cs : List ConnectStruct) (a r k : ℕ)
    → c.receiver ≡ some a
    → k + links_to r (c ∷ cs) ≡ (if a == r then k + 1 else k) + links_to r cs
passed c cs a r k e = elim (Bool_cases (a == r)) [
  | inl n ↦ rw (e, n) (omega arith)
  | inr n ↦ rw (e, n) refl
]

-- A pointer of `a` goes with a connection to `a`.
taken :
    (s : ℕ) (c : ConnectStruct) (cs : List ConnectStruct) (sends : ℕ → List ℕ) (kept : ℕ → ℕ)
    (a : ℕ) (ws : List ℕ)
    → c.receiver ≡ some a
    → ((r : ℕ) → times s (sends r) ≡ kept r + links_to r (c ∷ cs))
    → times s (sends a) ≡ times s ws + 1
    → (r : ℕ) → times s (if a == r then ws else sends r) ≡ kept r + links_to r cs
taken s c cs sends kept a ws e b less r = elim (Bool_cases (a == r)) [
  | inl n ↦
      let one : links_to a (c ∷ cs) ≡ links_to a cs + 1 =
        links_to-cons c cs a a e ∙ rw ((==_iff a a).1 refl) refl in
      rw n (
        subst (λ q. times s ws ≡ kept q + links_to q cs) ((==_iff a r).0 n)
          (omega (arith, less, b a, one)))
  | inr n ↦ rw n (b r ∙ ap (λ k. kept r + k) (links_to-cons c cs a r e ∙ rw n refl))
]

present :
    (s : ℕ) (c : ConnectStruct) (cs : List ConnectStruct) (sends : ℕ → List ℕ) (kept : ℕ → ℕ)
    (a : ℕ)
    → c.receiver ≡ some a
    → ((r : ℕ) → times s (sends r) ≡ kept r + links_to r (c ∷ cs))
    → zero < times s (sends a)
present s c cs sends kept a e b =
    let one : links_to a (c ∷ cs) ≡ links_to a cs + 1 =
      links_to-cons c cs a a e ∙ rw ((==_iff a a).1 refl) refl in
    omega (arith, b a, one)

-- `kept` counts the connections that the loop has passed and left.
forget_each-Forgotten :
    (p : ConnectStruct → Bool) (s : ℕ) (cs : List ConnectStruct) (sends : ℕ → List ℕ) (kept : ℕ → ℕ)
    → HaveReceivers cs
    → ((r : ℕ) → times s (sends r) ≡ kept r + links_to r cs)
    → Forgotten p s cs sends kept
forget_each-Forgotten p s [] sends kept have b = (sends, refl, b, λ t r apart. refl)
forget_each-Forgotten p s (c ∷ cs) sends kept ((a, to_a), have) b = elim (Bool_cases (p c)) [
  | inl m ↦
      let (ws, run, less, others) =
        remove_first-times s (sends a) (present s c cs sends kept a to_a b) in
      let (sends', rest, bal, apart) =
        forget_each-Forgotten p s cs (λ r. if a == r then ws else sends r) kept have
          (taken s c cs sends kept a ws to_a b less) in
      (
        sends',
        rw (m, to_a, run) rest,
        λ r. rw m (bal r),
        λ t r h. apart t r h ∙ elim (Bool_cases (a == r)) [
          | inl n ↦ rw n (others t h ∙ ap (λ q. times t (sends q)) ((==_iff a r).0 n))
          | inr n ↦ rw n refl
        ],
      )
  | inr m ↦
      let (sends', rest, bal, apart) =
        forget_each-Forgotten p s cs sends (λ r. if a == r then kept r + 1 else kept r) have
          (λ r. b r ∙ passed c cs a r (kept r) to_a) in
      (sends', rw m rest, λ r. rw m (bal r ∙ sym (passed c (reject p cs) a r (kept r) to_a)), apart)
]

-- For a sender that exists with a list in order, if each connection has a receiver, the receivers
-- exist with lists in order, and each of them has as many pointers to the sender as there are
-- connections to it: `internal_disconnect` runs to its end and returns whether a connection
-- matched. Those that match are gone, each receiver has again as many pointers to the sender as
-- there are connections to it, and as many to each other sender as before. No other sender changes,
-- no receiver goes, and the set of destroyed senders is the same.
pub internal_disconnect-Balanced :
    (g s : ℕ) (signal : Option Bento) (receiver : Ptr) (slot : Option Bento) (w : World)
    (x : SignalBase) (cs : List ConnectStruct) (sends : ℕ → List ℕ)
    → w.signals s ≡ some x
    → Holds x.connect_list cs
    → SendersAre w sends
    → ReceiversExist w cs
    → HaveReceivers cs
    → Balanced s cs sends
    → (w' : World) × (l : RcuList ConnectStruct) × (sends' : ℕ → List ℕ) × (internal_disconnect g s
          signal receiver slot w
        ≡ some (any (is_match signal receiver slot) cs, w'))
      × (w'.signals s ≡ some (record x { connect_list = l }))
      × Holds l (reject (is_match signal receiver slot) cs)
      × SendersAre w' sends'
      × Balanced s (reject (is_match signal receiver slot) cs) sends'
      × ((t r : ℕ) → t ≢ s → times t (sends' r) ≡ times t (sends r))
      × ((a : ℕ) → a ≢ s → w'.signals a ≡ w.signals a)
      × SlotsStay w w'
      × (w'.being_destroyed ≡ w.being_destroyed)
internal_disconnect-Balanced g s signal receiver slot w x cs sends x_eq h are live have b =
    let p = is_match signal receiver slot in
    let (sends', e, bal, others) =
      forget_each-Forgotten p s cs sends (λ r. zero) have (λ r. b r ∙ omega arith) in
    let (w', l, run, here, held, are', elsewhere, stay, destroyed) =
      internal_disconnect-reject g s signal receiver slot w x cs sends sends' x_eq h are live e in
    (
      w',
      l,
      sends',
      run,
      here,
      held,
      are',
      λ r. bal r ∙ omega arith,
      others,
      elsewhere,
      stay,
      destroyed,
    )
