-- ===== src/Connections/Network/Roundtrip.antt =====
-- `connect`, and `disconnect` of the same methods.
use cs_signal.Prelude.{
  ℕ, ◌≡◌, refl, sym, ap, ap₂, ◌∙◌, subst, fun_ext, Bool, true, false, ◌&&◌, some, List, [], ◌∷◌,
  ◌++◌, any, reject, ==_iff, Bool_cases, inl, inr, arith,
}
use mathlib.Core.Bool.{true≢false}
use cs_signal.Bento.{Bento, bento_eq}
use cs_signal.Connections.{ConnectionKind, World, assign}
use cs_signal.Connections.Lists.{assign_same, assign_other}
use cs_signal.Connections.Connect.{returned, connection}
use cs_signal.Connections.Disconnect.{is_match}
use cs_signal.Connections.Network.{
  Overload, connects, disconnects, is_legal, run_history, outcome, found,
}
use cs_signal.Connections.Network.Specification.{Abstract, specified_history, is_refused, is_same}
use cs_signal.Connections.Network.Invariant.{assign-elim}
use cs_signal.Connections.Network.Represents.{Represents, is_legal-is_allowed}
use cs_signal.Connections.Network.History.{Refines, history-Refines}

connection-is_match :
    (signal slot : Bento) (r : ℕ) (kind : ConnectionKind)
    → bento_eq signal signal ≡ true
    → bento_eq slot slot ≡ true
    → is_match (some signal) (some r) (some slot) (connection signal r slot kind) ≡ true
connection-is_match signal slot r kind m₁ m₂ = rw ((==_iff r r).1 refl, m₁, m₂) refl

any-last {ℓ} :
    {A : Type ℓ} (p : A → Bool) (xs : List A) (x : A) → p x ≡ true → any p (xs ++ x ∷ []) ≡ true
any-last p [] x m = rw m refl
any-last p (y ∷ ys) x m = elim (Bool_cases (p y)) [
  | inl h ↦ rw h refl
  | inr h ↦ rw h (any-last p ys x m)
]

reject-last {ℓ} :
    {A : Type ℓ} (p : A → Bool) (xs : List A) (x : A)
    → p x ≡ true
    → any p xs ≡ false
    → reject p (xs ++ x ∷ []) ≡ xs
reject-last p [] x m none_of = rw m refl
reject-last p (y ∷ ys) x m none_of = elim (Bool_cases (p y)) [
  | inl h ↦ absurd (true≢false (rw h at none_of))
  | inr h ↦ rw h (ap (◌∷◌ y) (reject-last p ys x m (rw h at none_of)))
]

-- A change at one address, undone.
assign-restored {ℓ} :
    {A : Type ℓ} (f : ℕ → A) (p : ℕ) (x y : A) → y ≡ f p → assign (assign f p x) p y ≡ f
assign-restored f p x y e =
    fun_ext (λ a.
      assign-elim (λ c v. v ≡ f c) (assign f p x) p y a e (λ apart. assign_other f p a x apart))

-- What the specification does to the connections, in the two steps.
specified-restored :
    (o : Overload) (s : ℕ) (signal : Bento) (r : ℕ) (slot : Bento) (kind : ConnectionKind)
    (unique : Bool) (a : Abstract)
    → (a.has_signal s && a.has_slot r) ≡ true
    → is_refused o signal slot ≡ false
    → bento_eq signal signal ≡ true
    → bento_eq slot slot ≡ true
    → any (is_match (some signal) (some r) (some slot)) (a.links s) ≡ false
    → (unique && any (is_same o (connection signal r slot kind)) (a.links s)) ≡ false
    → specified_history
        (connects o s signal r slot kind unique
          ∷ disconnects s (some signal) (some r) (some slot)
          ∷ [])
        a
      ≡ (outcome (returned true) ∷ found true ∷ [], a)
specified-restored o s signal r slot kind unique a allowed refused m₁ m₂ fresh there =
    let has_s : a.has_signal s ≡ true = ground arith in
    let p = is_match (some signal) (some r) (some slot) in
    let c = connection signal r slot kind in
    let made = a.links s ++ c ∷ [] in
    let hit = connection-is_match signal slot r kind m₁ m₂ in
    let at_s = assign_same a.links s made in
    let any_eq : any p (assign a.links s made s) ≡ true =
      ap (any p) at_s ∙ any-last p (a.links s) c hit in
    let rest_eq : reject p (assign a.links s made s) ≡ a.links s =
      ap (reject p) at_s ∙ reject-last p (a.links s) c hit fresh in
    rw (allowed, refused, there, has_s)
      (ap₂ (λ b conns. (outcome (returned true) ∷ found b ∷ [], record a { links = conns })) any_eq
        (assign-restored a.links s made _ rest_eq))

-- In a world that represents `a`, for a sender and a receiver that exist, and methods that no
-- overload refuses and that are equal to themselves, so that they are no lambdas: if no connection
-- has this receiver and these methods, and a call that asks for a unique connection does not find
-- one, then `connect`, by any overload, and `disconnect` of the same methods and receiver both
-- return `true`, and the world afterwards represents `a` again.
pub connect-disconnect :
    (g : ℕ) (o : Overload) (s : ℕ) (signal : Bento) (r : ℕ) (slot : Bento) (kind : ConnectionKind)
    (unique : Bool) (w : World) (a : Abstract)
    → Represents w a
    → is_legal (connects o s signal r slot kind unique) w ≡ true
    → is_refused o signal slot ≡ false
    → bento_eq signal signal ≡ true
    → bento_eq slot slot ≡ true
    → any (is_match (some signal) (some r) (some slot)) (a.links s) ≡ false
    → (unique && any (is_same o (connection signal r slot kind)) (a.links s)) ≡ false
    → Refines
        (run_history g
          (connects o s signal r slot kind unique
            ∷ disconnects s (some signal) (some r) (some slot)
            ∷ [])
          w)
        (outcome (returned true) ∷ found true ∷ [], a)
connect-disconnect g o s signal r slot kind unique w a k legal refused m₁ m₂ fresh there =
    let os =
      connects o s signal r slot kind unique
      ∷ disconnects s (some signal) (some r) (some slot)
      ∷ [] in
    let allowed =
      sym (is_legal-is_allowed (connects o s signal r slot kind unique) w a k) ∙ legal in
    subst (Refines (run_history g os w))
      (specified-restored o s signal r slot kind unique a allowed refused m₁ m₂ fresh there)
      (history-Refines g os w a k)
