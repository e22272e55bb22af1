-- ===== src/Connections/Network/Unique.antt =====
-- `uniqueConnection` of `connect` in a history.
use cs_signal.Prelude.{
  not, sym, ℕ, ◌≡◌, refl, ◌∙◌, Bool, true, false, ◌&&◌, Bool_cases, inl, inr, some, List, [], ◌∷◌,
  ◌++◌, any, reject, arith,
}
use mathlib.Core.Bool.{true≢false}
use cs_signal.SharedList.{Holds}
use cs_signal.Bento.{Bento}
use cs_signal.Bento.Equality.{is_lambda, ptr_eq_refl, bento_eq_refl}
use cs_signal.Connections.{ConnectStruct, SignalBase, World, assign}
use cs_signal.Connections.Connect.{same_connection, connection}
use cs_signal.Connections.Destroy.Unlink.{is_to}
use cs_signal.Connections.Network.{
  Overload, with_method, with_lambda, with_bento, Operation, Output, new_signal, new_slot, connects,
  disconnects, delete_signal, delete_slot, run_history, nothing,
}
use cs_signal.Connections.Network.Specification.{
  Abstract, is_allowed, specified, specified_history, initial, is_same, is_refused, link,
}
use cs_signal.Connections.Network.Invariant.{assign-elim}
use cs_signal.Connections.Network.History.{run_history-Refines}

-- Methods and functions; only the overload for lambdas may have a lambda, as its slot.
abbrev pub no_lambdas : Overload → Bento → Bento → Bool
no_lambdas with_method signal slot = not (is_lambda signal) && not (is_lambda slot)
no_lambdas with_lambda signal slot = not (is_lambda signal)
no_lambdas with_bento signal slot = not (is_lambda signal) && not (is_lambda slot)

abbrev pub asks_unique : Operation → Bool
asks_unique (new_signal s) = true
asks_unique (new_slot r) = true
asks_unique (connects o s signal r slot kind unique) = unique && no_lambdas o signal slot
asks_unique (disconnects s signal receiver slot) = true
asks_unique (delete_signal s) = true
asks_unique (delete_slot r) = true

abbrev pub all_unique : List Operation → Bool
all_unique [] = true
all_unique (o ∷ os) = asks_unique o && all_unique os

-- The two have one receiver, one signal and one slot.
abbrev pub SameEnds : ConnectStruct → ConnectStruct → Type 0
SameEnds c d =
    (c.receiver ≡ d.receiver)
    × (c.signal_method ≡ d.signal_method)
    × (c.slot_method ≡ d.slot_method)

abbrev pub IsNew : ConnectStruct → List ConnectStruct → Type 0
IsNew c [] = Unit {0}
IsNew c (d ∷ ds) = (SameEnds c d → ⊥) × IsNew c ds

-- No two connections of the list have the same ends.
abbrev pub AtMostOnce : List ConnectStruct → Type 0
AtMostOnce [] = Unit {0}
AtMostOnce (c ∷ cs) = IsNew c cs × AtMostOnce cs

split_and : (p q : Bool) → (p && q) ≡ true → (p ≡ true) × (q ≡ true)
split_and p q h = ground arith

no_lambda : (b : Bool) → not b ≡ true → b ≡ false
no_lambda b h = ground arith

-- The test of `connect` finds what has the same ends.
same_connection-SameEnds :
    (c e : ConnectStruct)
    → (not (is_lambda c.signal_method) && not (is_lambda c.slot_method)) ≡ true
    → SameEnds e c
    → same_connection c e ≡ true
same_connection-SameEnds c e h (receiver, signal, slot) =
    let (m₁, m₂) = split_and _ _ h in
    rw
      (
        receiver,
        signal,
        slot,
        ptr_eq_refl c.receiver,
        bento_eq_refl c.signal_method (no_lambda _ m₁),
        bento_eq_refl c.slot_method (no_lambda _ m₂),
      )
      refl

is_same-SameEnds :
    (o : Overload) (c e : ConnectStruct)
    → no_lambdas o c.signal_method c.slot_method ≡ true
    → SameEnds e c
    → is_same o c e ≡ true
is_same-SameEnds with_method c e h same = same_connection-SameEnds c e h same
is_same-SameEnds with_lambda c e h (receiver, signal, slot) =
    rw (receiver, signal, ptr_eq_refl c.receiver, bento_eq_refl c.signal_method (no_lambda _ h))
      refl
is_same-SameEnds with_bento c e h same = same_connection-SameEnds c e h same

IsNew-append :
    (e c : ConnectStruct) (cs : List ConnectStruct)
    → IsNew e cs
    → (SameEnds e c → ⊥)
    → IsNew e (cs ++ c ∷ [])
IsNew-append e c [] k h = (h, tt)
IsNew-append e c (d ∷ ds) k h = (k.0, IsNew-append e c ds k.1 h)

-- A connection that the test did not find.
AtMostOnce-append :
    (o : Overload) (cs : List ConnectStruct) (c : ConnectStruct)
    → no_lambdas o c.signal_method c.slot_method ≡ true
    → AtMostOnce cs
    → any (is_same o c) cs ≡ false
    → AtMostOnce (cs ++ c ∷ [])
AtMostOnce-append o [] c m once h = (tt, tt)
AtMostOnce-append o (e ∷ es) c m once h = elim (Bool_cases (is_same o c e)) [
  | inl k ↦ absurd (true≢false (rw k at h))
  | inr k ↦ (
    IsNew-append e c es once.0 (λ same. true≢false (sym (is_same-SameEnds o c e m same) ∙ k)),
    AtMostOnce-append o es c m once.1 (rw k at h),
  )
]

IsNew-reject :
    (p : ConnectStruct → Bool) (c : ConnectStruct) (cs : List ConnectStruct)
    → IsNew c cs
    → IsNew c (reject p cs)
IsNew-reject p c [] k = tt
IsNew-reject p c (d ∷ ds) k = elim (Bool_cases (p d)) [
  | inl m ↦ rw m (IsNew-reject p c ds k.1)
  | inr m ↦ rw m (k.0, IsNew-reject p c ds k.1)
]

AtMostOnce-reject :
    (p : ConnectStruct → Bool) (cs : List ConnectStruct) → AtMostOnce cs → AtMostOnce (reject p cs)
AtMostOnce-reject p [] once = tt
AtMostOnce-reject p (c ∷ cs) once = elim (Bool_cases (p c)) [
  | inl m ↦ rw m (AtMostOnce-reject p cs once.1)
  | inr m ↦ rw m (IsNew-reject p c cs once.0, AtMostOnce-reject p cs once.1)
]

-- No sender has a connection twice.
abbrev pub IsUnique : Abstract → Type 0
IsUnique a = (s : ℕ) → AtMostOnce (a.links s)

relinked-IsUnique :
    (a : Abstract) (s : ℕ) (cs : List ConnectStruct)
    → IsUnique a
    → AtMostOnce cs
    → (t : ℕ) → AtMostOnce (assign a.links s cs t)
relinked-IsUnique a s cs k once t =
    assign-elim (λ t ds. AtMostOnce ds) a.links s cs t once (λ apart. k t)

link-IsUnique :
    (o : Overload) (refused there : Bool) (s : ℕ) (c : ConnectStruct) (a : Abstract)
    → IsUnique a
    → no_lambdas o c.signal_method c.slot_method ≡ true
    → any (is_same o c) (a.links s) ≡ there
    → IsUnique (link refused there s c a).1
link-IsUnique o true there s c a k m h = k
link-IsUnique o false true s c a k m h = relinked-IsUnique a s (a.links s) k (k s)
link-IsUnique o false false s c a k m h =
    relinked-IsUnique a s (a.links s ++ c ∷ []) k (AtMostOnce-append o (a.links s) c m (k s) h)

specified-IsUnique :
    (o : Operation) (a : Abstract) → IsUnique a → asks_unique o ≡ true → IsUnique (specified o a).1
specified-IsUnique (new_signal s) a k h = k
specified-IsUnique (new_slot r) a k h = k
specified-IsUnique (connects o s signal r slot kind unique) a k h =
    let (asked, m) = split_and unique _ h in
    link-IsUnique o (is_refused o signal slot) _ s (connection signal r slot kind) a k m
      (rw asked refl)
specified-IsUnique (disconnects s signal receiver slot) a k h =
    relinked-IsUnique a s _ k (AtMostOnce-reject _ (a.links s) (k s))
specified-IsUnique (delete_signal s) a k h = relinked-IsUnique a s [] k tt
specified-IsUnique (delete_slot r) a k h = λ s. AtMostOnce-reject (is_to r) (a.links s) (k s)

history-IsUnique :
    (os : List Operation) (a : Abstract)
    → IsUnique a
    → all_unique os ≡ true
    → IsUnique (specified_history os a).1
history-IsUnique [] a k h = k
history-IsUnique (o ∷ os) a k h =
    let (first, rest) = split_and _ _ h in
    elim (Bool_cases (is_allowed o a)) [
      | inl m ↦ rw m (history-IsUnique os _ (specified-IsUnique o a k first) rest)
      | inr m ↦ rw m (history-IsUnique os a k rest)
    ]

-- After every history in which each `connect`, by any overload, asks for a unique connection, and no
-- lambda is given except to the overload for lambdas, as the slot: the list of each sender is in order,
-- and no two of its connections have the same receiver, the same signal and the same slot.
pub run_history-AtMostOnce :
    (g : ℕ) (os : List Operation)
    → all_unique os ≡ true
    → (outs : List Output) × (w : World) × (run_history g os nothing ≡ some (outs, w))
      × ((s : ℕ) (x : SignalBase)
          → w.signals s ≡ some x
          → (cs : List ConnectStruct) × Holds x.connect_list cs × AtMostOnce cs)
run_history-AtMostOnce g os h =
    let (w, run, k) = run_history-Refines g os in
    let once = history-IsUnique os initial (λ s. tt) h in
    (_, w, run, λ s x e. (_, k.net.connections_are s x e, once s))
