-- ===== src/Prelude/Lists.antt =====
-- Lists measured by native numbers, and what the components share about lists.
use Prim.Native.Nat.{ℕ, zero, suc, ◌+◌}
use mathlib.Core.Path.{◌≡◌, refl, ap, sym, ◌∙◌}
use mathlib.Core.Logic.{◌⊎◌, inl, inr}
use mathlib.Core.Bool.{Bool, true, false, true≢false}
use mathlib.Core.List.{List, [], ◌∷◌, ◌++◌}
use native.Mathlib.Omega.{arith}
use cs_signal.Prelude.Tests.{if◌then◌else◌, Bool_cases}

module _ {ℓ} {A : Type ℓ} where
  abbrev pub length : List A → ℕ
  length [] = 0
  length (x ∷ xs) = suc (length xs)

  pub length-append : (xs ys : List A) → length (xs ++ ys) ≡ length xs + length ys
  length-append [] ys = omega arith
  length-append (x ∷ xs) ys = omega (arith, length-append xs ys)

  abbrev pub take : ℕ → List A → List A
  take zero xs = []
  take (suc n) [] = []
  take (suc n) (x ∷ xs) = x ∷ take n xs

  abbrev pub any : (A → Bool) → List A → Bool
  any p [] = false
  any p (x ∷ xs) = if p x then true else any p xs

  abbrev pub count_of : (A → Bool) → List A → ℕ
  count_of p [] = 0
  count_of p (x ∷ xs) = if p x then count_of p xs + 1 else count_of p xs

  -- The items that fail a test, in order.
  abbrev pub reject : (A → Bool) → List A → List A
  reject p [] = []
  reject p (x ∷ xs) = if p x then reject p xs else x ∷ reject p xs

  -- A list is empty or has a last item.
  pub snoc_cases : (xs : List A) → (xs ≡ []) ⊎ ((ys : List A) × (y : A) × (xs ≡ ys ++ y ∷ []))
  snoc_cases [] = inl refl
  snoc_cases (x ∷ xs) = elim (snoc_cases xs) [
    | inl e ↦ inr ([], x, rw e)
    | inr (ys, y, e) ↦ inr (x ∷ ys, y, rw e)
  ]

pub reject-reject {ℓ} :
    {A : Type ℓ} (p : A → Bool) (vs : List A) → reject p (reject p vs) ≡ reject p vs
reject-reject p [] = refl
reject-reject p (v ∷ vs) = elim (Bool_cases (p v)) [
  | inl m ↦ rw m (reject-reject p vs)
  | inr m ↦ rw (m, m) (ap (◌∷◌ v) (reject-reject p vs))
]

pub reject-any {ℓ} : {A : Type ℓ} (p : A → Bool) (vs : List A) → any p vs ≡ false → reject p vs ≡ vs
reject-any p [] e = refl
reject-any p (v ∷ vs) e = elim (Bool_cases (p v)) [
  | inl m ↦ absurd (true≢false (sym (rw m refl) ∙ e))
  | inr m ↦ rw m (ap (◌∷◌ v) (reject-any p vs (rw m at e)))
]
