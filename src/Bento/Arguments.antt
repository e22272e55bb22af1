-- ===== src/Bento/Arguments.antt =====
-- The casts of a `TeaCup`, and the parameter test of `connect`.
use cs_signal.Prelude.{
  ℕ, zero, suc, ◌≤◌, ◌≡◌, refl, sym, ap, ap₂, subst, ◌∙◌, true, false, Bool_cases, Option_cases,
  none, some, List, [], ◌∷◌, ◌++◌, ◌==◌, ==_iff, length, snoc_cases, length-append, inl, inr, ◌⊎◌,
  arith, append-nil, append_assoc, take,
}
use mathlib.Core.Bool.{true≢false}
use cs_signal.Bento.{
  list_eq, check_connect_args, remove_last, TeaCup, base, cast_chain, dynamic_cast,
}

pub list_eq_refl : (xs : List ℕ) → list_eq xs xs ≡ true
list_eq_refl [] = refl
list_eq_refl (a ∷ xs) = rw ((==_iff a a).1 refl, list_eq_refl xs) refl

pub list_eq_sound : (xs ys : List ℕ) → list_eq xs ys ≡ true → xs ≡ ys
list_eq_sound [] [] e = refl
list_eq_sound [] (b ∷ ys) e = absurd (grind arith)
list_eq_sound (a ∷ xs) [] e = absurd (grind arith)
list_eq_sound (a ∷ xs) (b ∷ ys) e = elim (Bool_cases (a == b)) [
  | inl m ↦ ap₂ (λ z zs. z ∷ zs) ((==_iff a b).0 m) (list_eq_sound xs ys (rw m at e))
  | inr m ↦ absurd (grind arith)
]

-- What the parameter test decides: the slot's parameters are the first ones of the signal.
pub check_connect_args_sound :
    (ts us : List ℕ) → check_connect_args ts us ≡ true → (rest : List ℕ) × (us ++ rest ≡ ts)
unfolding check_connect_args
check_connect_args_sound ts [] e = (ts, refl)
check_connect_args_sound [] (u ∷ us) e = absurd (grind arith)
check_connect_args_sound (t ∷ ts) (u ∷ us) e = elim (Bool_cases (t == u)) [
  | inl m ↦
      let (rest, same) = check_connect_args_sound ts us (rw m at e) in
      (rest, ap₂ (λ z zs. z ∷ zs) (sym ((==_iff t u).0 m)) same)
  | inr m ↦ absurd (grind arith)
]

pub check_connect_args_complete : (us rest : List ℕ) → check_connect_args (us ++ rest) us ≡ true
unfolding check_connect_args
check_connect_args_complete [] rest = refl
check_connect_args_complete (u ∷ us) rest =
    rw ((==_iff u u).1 refl) (check_connect_args_complete us rest)

remove_last-append {ℓ} : {A : Type ℓ} (xs : List A) (x : A) → remove_last (xs ++ x ∷ []) ≡ xs
remove_last-append [] x = refl
remove_last-append (y ∷ []) x = refl
remove_last-append (y ∷ z ∷ xs) x = ap (◌∷◌ y) (remove_last-append (z ∷ xs) x)

longer : (us zs : List ℕ) (z : ℕ) → list_eq (us ++ (zs ++ z ∷ [])) us ≡ false
longer us zs z = elim (Bool_cases (list_eq (us ++ (zs ++ z ∷ [])) us)) [
  | inl m ↦ absurd (
      omega (
        arith,
        ap length (list_eq_sound _ us m),
        length-append us (zs ++ z ∷ []),
        length-append zs (z ∷ []),
      ))
  | inr m ↦ m
]

abbrev cup : List ℕ → List ℕ → TeaCup
cup ts vs = record { types = ts; values = vs }

-- A base is found below a class that has more types.
cast_chain_found :
    (n : ℕ) (us rest vs ws : List ℕ)
    → length rest ≤ n
    → length ws ≡ length rest
    → cast_chain n (cup (us ++ rest) (vs ++ ws)) us ≡ some (cup us vs)
unfolding cast_chain
cast_chain_found zero us [] vs [] h e = rw (append-nil us, append-nil vs, list_eq_refl us) refl
cast_chain_found zero us [] vs (w ∷ ws) h e = absurd (omega arith)
cast_chain_found zero us (r ∷ rest) vs ws h e = absurd (omega arith)
cast_chain_found (suc n) us rest vs ws h e = elim (snoc_cases rest) [
  | inl f ↦ elim (snoc_cases ws) [
    | inl g ↦ rw (f, g, append-nil us, append-nil vs, list_eq_refl us) refl
    | inr (ys, y, g) ↦
        absurd (omega (arith, e, ap length f, ap length g, length-append ys (y ∷ [])))
  ]
  | inr (zs, z, f) ↦ elim (snoc_cases ws) [
    | inl g ↦ absurd (omega (arith, e, ap length f, ap length g, length-append zs (z ∷ [])))
    | inr (ys, y, g) ↦
        let same : length ys ≡ length zs = omega (
          arith,
          e,
          ap length f,
          ap length g,
          length-append zs (z ∷ []),
          length-append ys (y ∷ []),
        ) in
        let less : length zs ≤ n = omega (arith, h, ap length f, length-append zs (z ∷ [])) in
        rw
          (
            f,
            g,
            longer us zs z,
            sym (append_assoc us zs (z ∷ [])),
            remove_last-append (us ++ zs) z,
            sym (append_assoc vs ys (y ∷ [])),
            remove_last-append (vs ++ ys) y,
          )
          (cast_chain_found n us zs vs ys less same)
  ]
]

-- What a cast finds has the types asked for, and they are the first ones of the object's class.
cast_chain_sound :
    (n : ℕ) (c d : TeaCup) (us : List ℕ)
    → cast_chain n c us ≡ some d
    → (rest : List ℕ) × (us ++ rest ≡ c.types)
unfolding cast_chain
cast_chain_sound zero c d us e = elim (Bool_cases (list_eq c.types us)) [
  | inl m ↦ ([], append-nil us ∙ sym (list_eq_sound c.types us m))
  | inr m ↦ absurd (grind arith)
]
cast_chain_sound (suc n) c d us e = elim (Bool_cases (list_eq c.types us)) [
  | inl m ↦ ([], append-nil us ∙ sym (list_eq_sound c.types us m))
  | inr m ↦
      let (rest, same) = cast_chain_sound n (base c) d us (rw m at e) in
      elim (snoc_cases c.types) [
        | inl f ↦ (rest, same ∙ ap remove_last f ∙ sym f)
        | inr (ts, t, f) ↦ (
          rest ++ t ∷ [],
          sym (append_assoc us rest (t ∷ []))
              ∙ ap (λ zs. zs ++ t ∷ []) (same ∙ ap remove_last f ∙ remove_last-append ts t)
              ∙ sym f,
        )
      ]
]

-- A list of values, cut where a list of types is.
cut_values :
    (us rest vs : List ℕ)
    → length vs ≡ length (us ++ rest)
    → (ws : List ℕ) × (vs ≡ take (length us) vs ++ ws) × (length ws ≡ length rest)
cut_values [] rest vs e = (vs, refl, e)
cut_values (u ∷ us) rest [] e = absurd (omega arith)
cut_values (u ∷ us) rest (v ∷ vs) e =
    let (ws, same, rest_same) = cut_values us rest vs (omega arith) in
    (ws, ap (◌∷◌ v) same, rest_same)

cast_chain-take :
    (ts vs us rest ws : List ℕ)
    → us ++ rest ≡ ts
    → vs ≡ take (length us) vs ++ ws
    → length ws ≡ length rest
    → cast_chain (length ts) (cup ts vs) us ≡ some (cup us (take (length us) vs))
cast_chain-take ts vs us rest ws same cut len =
    let less : length rest ≤ length (us ++ rest) = omega (arith, length-append us rest) in
    subst (λ zs. cast_chain (length zs) (cup zs vs) us ≡ some (cup us (take (length us) vs))) same
      (subst
        (λ zs.
          cast_chain (length (us ++ rest)) (cup (us ++ rest) zs) us
          ≡ some (cup us (take (length us) vs)))
        (sym cut)
        (cast_chain_found (length (us ++ rest)) us rest (take (length us) vs) ws less len))

pub dynamic_cast_cases :
    (c : TeaCup) (us : List ℕ)
    → length c.values ≡ length c.types
    → ((check_connect_args c.types us ≡ true)
        × (dynamic_cast c us ≡ some (cup us (take (length us) c.values))))
      ⊎ ((check_connect_args c.types us ≡ false) × (dynamic_cast c us ≡ none))
unfolding dynamic_cast
dynamic_cast_cases c us e = elim (Bool_cases (check_connect_args c.types us)) [
  | inl m ↦
      let (rest, same) = check_connect_args_sound c.types us m in
      let (ws, cut, len) = cut_values us rest c.values (e ∙ ap length (sym same)) in
      inl (m, cast_chain-take c.types c.values us rest ws same cut len)
  | inr m ↦ elim (Option_cases (cast_chain (length c.types) c us)) [
    | inl f ↦ inr (m, f)
    | inr (d, f) ↦
        let (rest, same) = cast_chain_sound (length c.types) c d us f in
        absurd (
          true≢false (
            sym (
              subst (λ ts. check_connect_args ts us ≡ true) same
                (check_connect_args_complete us rest))
            ∙ m))
  ]
]
