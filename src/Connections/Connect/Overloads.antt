-- ===== src/Connections/Connect/Overloads.antt =====
-- The three overloads of `connect`, with the exceptions for null methods.
use cs_signal.Prelude.{
  ℕ, ◌≡◌, refl, ap, Bool, true, false, not, ◌||◌, ◌&&◌, Bool_cases, ◌⊎◌, inl, inr, Option, some,
  List, [], ◌∷◌, ◌++◌, any, if◌then◌else◌,
}
use cs_signal.Bento.{Bento}
use cs_signal.Connections.{ConnectionKind, ConnectStruct, World}
use cs_signal.Connections.Lists.{HasLists, SameElsewhere}
use cs_signal.Connections.Connect.{
  Outcome, invalid_argument, returned, is_null, returns, connect_unless, same_connection,
  same_signal, connection, connect_method, connect_lambda, connect_bento,
}
use cs_signal.Connections.Connect.Results.{refuses, accepts}

-- A call ends in the world `w'`, in which the lists of `s` and `r` are as before if the connection
-- was there already, and have one more item otherwise. The result says which.
abbrev pub Connects :
    World
    → ℕ
    → ℕ
    → Option (Outcome × World)
    → Bool
    → ConnectStruct
    → List ConnectStruct
    → List ℕ
    → Type 0
Connects w s r run there c cs ss =
    (w' : World) × (run ≡ some (returned (not there), w'))
    × HasLists w' s r (if there then cs else cs ++ c ∷ []) (if there then ss else ss ++ s ∷ [])
    × SameElsewhere w s r w'

module _ (g s : ℕ) (signal : Bento) (r : ℕ) (slot : Bento) (kind : ConnectionKind) (unique : Bool)
    (w : World) (cs : List ConnectStruct) (ss : List ℕ) (h : HasLists w s r cs ss) where
  abbrev c : ConnectStruct
  c = connection signal r slot kind

  unless-Connects :
      (same : ConnectStruct → Bool)
      → Connects w s r
          (returns (connect_unless same g s c unique w))
          (unique && any same cs)
          c
          cs
          ss
  unless-Connects same = elim (Bool_cases (unique && any same cs)) [
    | inl m ↦
        let (w', run, lists, elsewhere) = refuses same g s r c unique w cs ss h m in
        rw m (w', ap returns run, lists, elsewhere)
    | inr m ↦
        let (w', run, lists, elsewhere) = accepts same g s r c unique w cs ss h refl m in
        rw m (w', ap returns run, lists, elsewhere)
  ]

  -- `connect` of a slot method, of a sender and a receiver that exist with lists in order, throws
  -- if a method is null, and leaves the world alone. Otherwise it returns `false`, with the items
  -- of the lists as they were, if the caller wants a unique connection and there is one to the
  -- receiver with an equal signal and an equal slot. In the other cases it returns `true` and
  -- appends to the sender's and the receiver's list. No other object changes.
  pub connect_method-Connects :
      ((is_null signal || is_null slot ≡ true)
        × (connect_method g s signal r slot kind unique w ≡ some (invalid_argument, w)))
      ⊎ ((is_null signal || is_null slot ≡ false)
          × Connects w s r
              (connect_method g s signal r slot kind unique w)
              (unique && any (same_connection c) cs)
              c
              cs
              ss)
  unfolding connect_method
  connect_method-Connects = elim (Bool_cases (is_null signal)) [
    | inl m ↦ inl (rw m refl, rw m refl)
    | inr m ↦ elim (Bool_cases (is_null slot)) [
      | inl n ↦ inl (rw (m, n) refl, rw (m, n) refl)
      | inr n ↦ inr (rw (m, n) refl, rw (m, n) (unless-Connects (same_connection c)))
    ]
  ]

  -- `connect` of a lambda or a function, of a sender and a receiver that exist with lists in order,
  -- throws if the signal is null, and leaves the world alone. Otherwise it returns `false`, with
  -- the items of the lists as they were, if the caller wants a unique connection and there is one
  -- to the receiver with an equal signal, whatever its slot is. In the other cases it returns
  -- `true` and appends to the sender's and the receiver's list. No other object changes.
  pub connect_lambda-Connects :
      ((is_null signal ≡ true)
        × (connect_lambda g s signal r slot kind unique w ≡ some (invalid_argument, w)))
      ⊎ ((is_null signal ≡ false)
          × Connects w s r
              (connect_lambda g s signal r slot kind unique w)
              (unique && any (same_signal c) cs)
              c
              cs
              ss)
  unfolding connect_lambda
  connect_lambda-Connects = elim (Bool_cases (is_null signal)) [
    | inl m ↦ inl (m, rw m refl)
    | inr m ↦ inr (m, rw m (unless-Connects (same_signal c)))
  ]

  -- `connect` of two `Bento` objects, of a sender and a receiver that exist with lists in order,
  -- never throws. It returns `false`, with the items of the lists as they were, if the caller wants
  -- a unique connection and there is one to the receiver with an equal signal and an equal slot. In
  -- the other cases it returns `true` and appends to the sender's and the receiver's list. No other
  -- object changes.
  pub connect_bento-Connects :
      Connects w s r
        (connect_bento g s signal r slot kind unique w)
        (unique && any (same_connection c) cs)
        c
        cs
        ss
  unfolding connect_bento
  connect_bento-Connects = unless-Connects (same_connection c)
