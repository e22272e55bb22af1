-- ===== src/Connections/Network/Counting.antt =====
-- Counts of connections and of pointers, and the objects that they lead to.
use cs_signal.Prelude.{
  ℕ, zero, ◌+◌, ◌≤◌, ◌<◌, ◌≡◌, ◌≢◌, refl, sym, ap, ◌∙◌, Bool, true, false, Bool_cases, inl, inr,
  Option, none, some, List, [], ◌∷◌, ◌++◌, ◌==◌, ==_iff, any, reject, count_of, arith,
}
use mathlib.Core.Bool.{true≢false}
use cs_signal.RcuList.{ptr_eq}
use cs_signal.Connections.{ConnectStruct, World}
use cs_signal.Connections.Destroy.Purge.{SlotExists, ReceiversExist}
use cs_signal.Connections.Destroy.Unlink.{SignalExists, SendersExist, is_to}
use cs_signal.Connections.Disconnect.Balance.{times, links_to, HaveReceivers}

module _ {ℓ} {A : Type ℓ} (p : A → Bool) where
  pub any-count_of : (xs : List A) → any p xs ≡ true → zero < count_of p xs
  any-count_of [] h = absurd (true≢false (sym h))
  any-count_of (x ∷ xs) h = elim (Bool_cases (p x)) [
    | inl m ↦ rw m (omega arith)
    | inr m ↦ rw m (any-count_of xs (rw m at h))
  ]

  pub count_of-any : (xs : List A) → zero < count_of p xs → any p xs ≡ true
  count_of-any [] h = absurd (omega arith)
  count_of-any (x ∷ xs) h = elim (Bool_cases (p x)) [
    | inl m ↦ rw m refl
    | inr m ↦ rw m (count_of-any xs (rw m at h))
  ]

  pub count_of-append : (xs ys : List A) → count_of p (xs ++ ys) ≡ count_of p xs + count_of p ys
  count_of-append [] ys = omega arith
  count_of-append (x ∷ xs) ys = elim (Bool_cases (p x)) [
    | inl m ↦ rw m (omega (arith, count_of-append xs ys))
    | inr m ↦ rw m (count_of-append xs ys)
  ]

  pub count_of-reject : (xs : List A) → count_of p (reject p xs) ≡ zero
  count_of-reject [] = refl
  count_of-reject (x ∷ xs) = elim (Bool_cases (p x)) [
    | inl m ↦ rw m (count_of-reject xs)
    | inr m ↦ rw (m, m) (count_of-reject xs)
  ]

  module _ (q : A → Bool) where
    pub count_of-reject_other :
        (xs : List A)
        → ((x : A) → q x ≡ true → p x ≡ false)
        → count_of q (reject p xs) ≡ count_of q xs
    count_of-reject_other [] h = refl
    count_of-reject_other (x ∷ xs) h = elim (Bool_cases (q x)) [
      | inl m ↦ rw (h x m, m) (ap (λ n. n + 1) (count_of-reject_other xs h))
      | inr m ↦ elim (Bool_cases (p x)) [
        | inl k ↦ rw (k, m) (count_of-reject_other xs h)
        | inr k ↦ rw (k, m) (count_of-reject_other xs h)
      ]
    ]

    pub count_of-reject_le : (xs : List A) → count_of q (reject p xs) ≤ count_of q xs
    count_of-reject_le [] = omega arith
    count_of-reject_le (x ∷ xs) = elim (Bool_cases (p x)) [
      | inl m ↦ elim (Bool_cases (q x)) [
        | inl k ↦ rw (m, k) (omega (arith, count_of-reject_le xs))
        | inr k ↦ rw (m, k) (count_of-reject_le xs)
      ]
      | inr m ↦ elim (Bool_cases (q x)) [
        | inl k ↦ rw (m, k) (omega (arith, count_of-reject_le xs))
        | inr k ↦ rw (m, k) (count_of-reject_le xs)
      ]
    ]

-- A number is not two different ones.
pub ==_apart : (v s t : ℕ) → t ≢ s → v == t ≡ true → v == s ≡ false
==_apart v s t apart m = elim (Bool_cases (v == s)) [
  | inl n ↦ absurd (apart (sym ((==_iff v t).0 m) ∙ (==_iff v s).0 n))
  | inr n ↦ n
]

pub is_to_apart : (c : ConnectStruct) (r p : ℕ) → p ≢ r → is_to p c ≡ true → is_to r c ≡ false
is_to_apart c r p apart m = by_receiver c.receiver m
  where
    by_receiver : (o : Option ℕ) → ptr_eq o (some p) ≡ true → ptr_eq o (some r) ≡ false
    by_receiver none m = refl
    by_receiver (some a) m = ==_apart a r p apart m

pub nil_of_times : (vs : List ℕ) → ((t : ℕ) → times t vs ≡ zero) → vs ≡ []
nil_of_times [] h = refl
nil_of_times (v ∷ vs) h = absurd (none_left (h v))
  where
    none_left : times v (v ∷ vs) ≡ zero → ⊥
    none_left e = let self = (==_iff v v).1 refl in let k = rw self at e in omega arith

pub HaveReceivers-reject :
    (p : ConnectStruct → Bool) (cs : List ConnectStruct)
    → HaveReceivers cs
    → HaveReceivers (reject p cs)
HaveReceivers-reject p [] h = tt
HaveReceivers-reject p (c ∷ cs) h = elim (Bool_cases (p c)) [
  | inl m ↦ rw m (HaveReceivers-reject p cs h.1)
  | inr m ↦ rw m (h.0, HaveReceivers-reject p cs h.1)
]

pub HaveReceivers-append :
    (cs ds : List ConnectStruct) → HaveReceivers cs → HaveReceivers ds → HaveReceivers (cs ++ ds)
HaveReceivers-append [] ds h k = k
HaveReceivers-append (c ∷ cs) ds h k = (h.0, HaveReceivers-append cs ds h.1 k)

-- The objects at the other ends exist if each that is counted does.
pub links_to-ReceiversExist :
    (w : World) (cs : List ConnectStruct)
    → ((r : ℕ) → zero < links_to r cs → SlotExists w r)
    → ReceiversExist w cs
links_to-ReceiversExist w [] h = tt
links_to-ReceiversExist w (c ∷ cs) h = (
  λ r e. h r (rw (e, (==_iff r r).1 refl) (omega arith)),
  links_to-ReceiversExist w cs (λ r k. h r (more r k)),
)
  where
    more : (r : ℕ) → zero < links_to r cs → zero < links_to r (c ∷ cs)
    more r k = elim (Bool_cases (ptr_eq c.receiver (some r))) [
      | inl m ↦ rw m (omega arith)
      | inr m ↦ rw m k
    ]

pub times-SendersExist :
    (w : World) (ss : List ℕ) → ((s : ℕ) → zero < times s ss → SignalExists w s) → SendersExist w ss
times-SendersExist w [] h = tt
times-SendersExist w (t ∷ ss) h =
    (h t (rw ((==_iff t t).1 refl) (omega arith)), times-SendersExist w ss (λ s k. h s (more s k)))
  where
    more : (s : ℕ) → zero < times s ss → zero < times s (t ∷ ss)
    more s k = elim (Bool_cases (t == s)) [ inl m ↦ rw m (omega arith) | inr m ↦ rw m k ]
