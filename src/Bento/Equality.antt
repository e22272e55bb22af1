-- ===== src/Bento/Equality.antt =====
-- `operator==` of the four instances of `Bento`.
use cs_signal.Prelude.{
  ℕ, ◌≡◌, refl, ap, subst, Bool, true, false, ◌&&◌, none, some, List, ◌==◌, ==_iff, ◌↔◌, sym,
}
use mathlib.Core.Bool.{true≢false}
use cs_signal.RcuList.{Ptr, ptr_eq}
use cs_signal.Bento.{Bento, lambda, function_ptr, method_ptr, const_method_ptr, list_eq, bento_eq}
use cs_signal.Bento.Arguments.{list_eq_refl, list_eq_sound}

abbrev pub is_lambda : Bento → Bool
is_lambda (lambda i xs) = true
is_lambda b = false

and_both : (p q : Bool) → p && q ≡ true → (p ≡ true) × (q ≡ true)
and_both true true e = (refl, refl)
and_both true false e = absurd (true≢false (sym e))
and_both false q e = absurd (true≢false (sym e))

pub ptr_eq_sound : (p q : Ptr) → ptr_eq p q ≡ true → p ≡ q
ptr_eq_sound none none e = refl
ptr_eq_sound none (some b) e = absurd (true≢false (sym e))
ptr_eq_sound (some a) none e = absurd (true≢false (sym e))
ptr_eq_sound (some a) (some b) e = ap some ((==_iff a b).0 e)

pub ptr_eq_refl : (p : Ptr) → ptr_eq p p ≡ true
ptr_eq_refl none = refl
ptr_eq_refl (some a) = (==_iff a a).1 refl

-- The parts that the classes with a pointer have in common.
abbrev same_method : ℕ → ℕ → List ℕ → List ℕ → Ptr → Ptr → Bool
same_method r s xs ys p q = (r == s) && (list_eq xs ys && ptr_eq p q)

same_method_sound :
    (r s : ℕ) (xs ys : List ℕ) (p q : Ptr)
    → same_method r s xs ys p q ≡ true
    → (r ≡ s) × (xs ≡ ys) × (p ≡ q)
same_method_sound r s xs ys p q e =
    let (e1, rest) = and_both (r == s) _ e in
    let (e2, e3) = and_both (list_eq xs ys) _ rest in
    ((==_iff r s).0 e1, list_eq_sound xs ys e2, ptr_eq_sound p q e3)

same_method_refl : (r : ℕ) (xs : List ℕ) (p : Ptr) → same_method r r xs xs p p ≡ true
same_method_refl r xs p = rw ((==_iff r r).1 refl, list_eq_refl xs, ptr_eq_refl p) refl

bento_eq_sound : (a b : Bento) → bento_eq a b ≡ true → (a ≡ b) × (is_lambda a ≡ false)
unfolding bento_eq
bento_eq_sound (lambda i xs) b e = absurd (true≢false (sym e))
bento_eq_sound (function_ptr r xs p) (function_ptr s ys q) e =
    let (e1, e2, e3) = same_method_sound r s xs ys p q e in (rw (e1, e2, e3) refl, refl)
bento_eq_sound (method_ptr c r xs p) (method_ptr d s ys q) e =
    let (e0, rest) = and_both (c == d) _ e in
    let (e1, e2, e3) = same_method_sound r s xs ys p q rest in
    (rw ((==_iff c d).0 e0, e1, e2, e3) refl, refl)
bento_eq_sound (const_method_ptr c r xs p) (const_method_ptr d s ys q) e =
    let (e0, rest) = and_both (c == d) _ e in
    let (e1, e2, e3) = same_method_sound r s xs ys p q rest in
    (rw ((==_iff c d).0 e0, e1, e2, e3) refl, refl)
bento_eq_sound a b e = absurd (true≢false (sym e))

pub bento_eq_refl : (a : Bento) → is_lambda a ≡ false → bento_eq a a ≡ true
unfolding bento_eq
bento_eq_refl (lambda i xs) e = absurd (true≢false e)
bento_eq_refl (function_ptr r xs p) e = same_method_refl r xs p
bento_eq_refl (method_ptr c r xs p) e = rw ((==_iff c c).1 refl) (same_method_refl r xs p)
bento_eq_refl (const_method_ptr c r xs p) e = rw ((==_iff c c).1 refl) (same_method_refl r xs p)

-- Two objects are equal for `operator==` if and only if they are of the same class and hold the
-- same pointer, and are no lambdas.
pub bento_eq_iff : (a b : Bento) → (bento_eq a b ≡ true) ↔ ((a ≡ b) × (is_lambda a ≡ false))
bento_eq_iff a b = (
  bento_eq_sound a b,
  λ (same, named). subst (λ c. bento_eq a c ≡ true) same (bento_eq_refl a named),
)
