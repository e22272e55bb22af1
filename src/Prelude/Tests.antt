-- ===== src/Prelude/Tests.antt =====
-- Boolean tests on the native numbers, the conditional, and the chain of fallible steps.
use Prim.Native.Nat.{ℕ, compare, Ordering}
use mathlib.Core.Path.{◌≡◌, refl, sym, subst}
use mathlib.Core.Logic.{◌↔◌, ◌⊎◌, inl, inr}
use mathlib.Core.Bool.{Bool, true, false, true≢false}
use mathlib.Core.Option.{Option, none, some}
use native.Mathlib.Omega.{arith}

infix 50 ◌==◌
abbrev pub ◌==◌ : ℕ → ℕ → Bool
a == b = elim (compare a b) [ Ordering.eq ↦ true | _ ↦ false ]

infix 1 if◌then◌else◌
abbrev pub if◌then◌else◌ {ℓ} : {A : Type ℓ} → Bool → A → A → A
if true then x else y = x
if false then x else y = y

pub ==_iff : (a b : ℕ) → ((a == b) ≡ true) ↔ (a ≡ b)
==_iff a b = ground arith

-- To split on a computed value and keep the equation.
pub Bool_cases : (b : Bool) → (b ≡ true) ⊎ (b ≡ false)
Bool_cases true = inl refl
Bool_cases false = inr refl

pub Option_cases {ℓ} : {A : Type ℓ} (o : Option A) → (o ≡ none) ⊎ ((a : A) × (o ≡ some a))
Option_cases none = inl refl
Option_cases (some a) = inr (a, refl)

-- `none` is a fault: a read or a write through a null or dangling pointer, or a loop that did not
-- end within its fuel.
infixl 5 ◌>>=◌
abbrev pub ◌>>=◌ {ℓ κ} : {A : Type ℓ} {B : Type κ} → Option A → (A → Option B) → Option B
none >>= f = none
some a >>= f = f a

pub if_Bool : (b : Bool) → (if b then true else false) ≡ b
if_Bool true = refl
if_Bool false = refl

-- What holds of the result of fallible steps, if there is one.
abbrev pub Ends {ℓ κ} : {A : Type ℓ} → (A → Type κ) → Option A → Type κ
Ends P none = Unit
Ends P (some a) = P a

pub bind-Ends {ℓ κ υ} :
    {A : Type ℓ} {B : Type κ} (P : B → Type υ) (o : Option A) (f : A → Option B)
    → ((a : A) → o ≡ some a → Ends P (f a))
    → Ends P (o >>= f)
bind-Ends P none f h = tt
bind-Ends P (some a) f h = h a refl

pub if-Ends {ℓ κ} :
    {A : Type ℓ} (P : A → Type κ) (b : Bool) (x y : Option A)
    → Ends P x
    → Ends P y
    → Ends P (if b then x else y)
if-Ends P true x y p q = p
if-Ends P false x y p q = q

pub Ends_of {ℓ κ} :
    {A : Type ℓ} (P : A → Type κ) (o : Option A) (a : A) → Ends P o → o ≡ some a → P a
Ends_of P o a h e = subst (Ends P) e h

pub bind_some {ℓ} : {A : Type ℓ} (o : Option A) → (o >>= some) ≡ o
bind_some none = refl
bind_some (some a) = refl

abbrev pub is_some {ℓ} : {A : Type ℓ} → Option A → Bool
is_some none = false
is_some (some a) = true

pub is_some-elim {ℓ} : {A : Type ℓ} (o : Option A) → is_some o ≡ true → (a : A) × (o ≡ some a)
is_some-elim none h = absurd (true≢false (sym h))
is_some-elim (some a) h = (a, refl)

pub is_some-false {ℓ} : {A : Type ℓ} (o : Option A) → is_some o ≡ false → o ≡ none
is_some-false none h = refl
is_some-false (some a) h = absurd (true≢false h)
