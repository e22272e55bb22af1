-- ===== src/RcuList/Guard/Mutex.antt =====
-- Operations that leave the write mutex as it is.
use cs_signal.Prelude.{
  ℕ, ◌≡◌, refl, sym, ap, ◌∙◌, Bool_cases, inl, inr, Option, none, some, List, [], ◌∷◌, ◌>>=◌,
}
use mathlib.Core.Option.{none-ne-some, some-injective}
use cs_signal.RcuList.{
  Ptr, RcuList, ZombieListNode, store_next, store_back, link_prev, link_next, erase,
}
use cs_signal.RcuList.Guard.{find_entry, no_owner, free_node, reclaim, unlock}

-- Both parts of a chain of two steps that does not fail.
pub bind_some {ℓ κ} :
    {A : Type ℓ} {B : Type κ} (r : Option A) (f : A → Option B) (y : B)
    → (r >>= f) ≡ some y
    → (x : A) × (r ≡ some x) × (f x ≡ some y)
bind_some none f y e = absurd (none-ne-some y e)
bind_some (some x) f y e = (x, refl, e)

module _ {ℓ} {A : Type ℓ} where
  -- The operation leaves the mutex of `l` alone.
  abbrev pub SameMutex : RcuList A → Option (RcuList A) → Type ℓ
  SameMutex l r = (l' : RcuList A) → r ≡ some l' → l'.write_mutex ≡ l.write_mutex

  same :
      (l l' : RcuList A) (k : RcuList A)
      → k.write_mutex ≡ l.write_mutex
      → some k ≡ some l'
      → l'.write_mutex ≡ l.write_mutex
  same l l' k m e = sym (ap (λ (j : RcuList A). j.write_mutex) (some-injective k l' e)) ∙ m

  store_next-SameMutex : (p q : Ptr) (l : RcuList A) → SameMutex l (store_next p q l)
  store_next-SameMutex none q l l' e = absurd (none-ne-some l' e)
  store_next-SameMutex (some p) q l l' e =
      let (n, load, rest) = bind_some (l.nodes p) _ l' e in same l l' _ refl rest

  store_back-SameMutex : (p q : Ptr) (l : RcuList A) → SameMutex l (store_back p q l)
  store_back-SameMutex none q l l' e = absurd (none-ne-some l' e)
  store_back-SameMutex (some p) q l l' e =
      let (n, load, rest) = bind_some (l.nodes p) _ l' e in same l l' _ refl rest

  link_prev-SameMutex : (p q : Ptr) (l : RcuList A) → SameMutex l (link_prev p q l)
  link_prev-SameMutex none q l l' e = same l l' _ refl e
  link_prev-SameMutex (some p) q l l' e = store_next-SameMutex (some p) q l l' e

  link_next-SameMutex : (p q : Ptr) (l : RcuList A) → SameMutex l (link_next p q l)
  link_next-SameMutex none q l l' e = same l l' _ refl e
  link_next-SameMutex (some p) q l l' e = store_back-SameMutex (some p) q l l' e

  pub erase-SameMutex :
      (p : ℕ) (l : RcuList A) (it : Ptr) (l' : RcuList A)
      → erase (some p) l ≡ some (it, l')
      → l'.write_mutex ≡ l.write_mutex
  unfolding erase
  erase-SameMutex p l it l' e =
      let (n, load, rest) = bind_some (l.nodes p) _ (it, l') e in
      elim (Bool_cases n.deleted) [
        | inl d ↦
            ap (λ (o : Ptr × RcuList A). o.1.write_mutex)
              (sym (some-injective (n.next, l) (it, l') (rw d at rest)))
        | inr d ↦
            let (l₁, run₁, rest₁) = bind_some _ _ (it, l') (rw d at rest) in
            let (l₂, run₂, rest₂) = bind_some _ _ (it, l') rest₁ in
            ap (λ (o : Ptr × RcuList A). o.1.write_mutex) (sym (some-injective _ (it, l') rest₂))
            ∙ link_next-SameMutex n.next n.back l₁ l₂ run₂
            ∙ link_prev-SameMutex n.back n.next _ l₁ run₁
      ]

  free_node-SameMutex : (p : Ptr) (l : RcuList A) → SameMutex l (free_node p l)
  free_node-SameMutex none l l' e = same l l' l refl e
  free_node-SameMutex (some p) l l' e =
      let (n, load, rest) = bind_some (l.nodes p) _ l' e in same l l' _ refl rest

  reclaim-SameMutex : (es : List ZombieListNode) (l : RcuList A) → SameMutex l (reclaim es l)
  unfolding reclaim
  reclaim-SameMutex [] l l' e = same l l' l refl e
  reclaim-SameMutex (x ∷ es) l l' e =
      let (l₁, run, rest) = bind_some (free_node x.zombie_node l) _ l' e in
      reclaim-SameMutex es l₁ l' rest ∙ free_node-SameMutex x.zombie_node l l₁ run

  pub unlock-SameMutex : (z : ℕ) (l : RcuList A) → SameMutex l (unlock z l)
  unfolding unlock
  unlock-SameMutex z l l' e =
      let ((newer, x, older), found, rest) = bind_some (find_entry z l.zombies) _ l' e in
      elim (Bool_cases (no_owner older)) [
        | inl m ↦
            let (l₁, run, rest₁) = bind_some (reclaim older l) _ l' (rw m at rest) in
            same l l' _ (reclaim-SameMutex older l l₁ run) rest₁
        | inr m ↦ same l l' _ refl (rw m at rest)
      ]
