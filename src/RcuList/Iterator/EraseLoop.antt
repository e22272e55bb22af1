-- ===== src/RcuList/Iterator/EraseLoop.antt =====
-- The loop that erases the matching items of a list.
use cs_signal.Prelude.{
  ℕ, zero, suc, ◌<◌, ◌≡◌, refl, ap, subst, ◌∙◌, sym, inl, inr, Bool, Option, some, none, List, [],
  ◌∷◌, ◌++◌, arith, Bool_cases, length, reject, append_assoc,
}
use cs_signal.RcuList.{RcuList, ZombieListNode, dead_entry}
use cs_signal.RcuList.Chain.{Cells, first, Chain-split}
use cs_signal.RcuList.Bound.{length-le-fresh}
use cs_signal.RcuList.Guard.Sound.{IsSound}
use cs_signal.RcuList.Guard.Modify.{erase-IsSound}
use cs_signal.RcuList.Iterator.{erase_loop, erase_matching}

module _ {ℓ} {A : Type ℓ} (matches : A → Bool) where
  abbrev pub keep : Cells A → Cells A
  keep = reject (λ c. matches c.1)

  -- A list of the cells `xs`, reached from `l` by erasing: the zombie list has only grown.
  abbrev pub Erases : RcuList A → Option (RcuList A) → Cells A → Type ℓ
  Erases l r xs =
      (l' : RcuList A) × (r ≡ some l')
      × IsSound l' xs
      × (l'.write_mutex ≡ l.write_mutex)
      × (es : List ZombieListNode) × (l'.zombies ≡ es ++ l.zombies)

  erase_loop-Erases :
      (fuel : ℕ) (l : RcuList A) (ys zs : Cells A)
      → length zs < fuel
      → IsSound l (ys ++ zs)
      → Erases l (erase_loop matches fuel (first zs none) l) (ys ++ keep zs)
  unfolding erase_loop
  erase_loop-Erases zero l ys zs h s = absurd (omega arith)
  erase_loop-Erases (suc fuel) l ys [] h s = (l, refl, s, refl, [], refl)
  erase_loop-Erases (suc fuel) l ys (c ∷ zs) h s =
      let load = (Chain-split l.nodes none ys (c ∷ zs) none s.repr.chain).1.0 in
      elim (Bool_cases (matches c.1)) [
        | inl m ↦
            let (l₁, run₁, e, s₁) = erase-IsSound l ys c zs s in
            let (l₂, run₂, s₂, m₂, es, z₂) = erase_loop-Erases fuel l₁ ys zs (omega arith) s₁ in
            (
              l₂,
              rw (load, m, run₁) run₂,
              rw m s₂,
              m₂ ∙ e.mutex_eq,
              es ++ dead_entry l.fresh c.0 ∷ [],
              z₂
                  ∙ ap (◌++◌ es) e.zombies_eq
                  ∙ sym (append_assoc es (dead_entry l.fresh c.0 ∷ []) l.zombies),
            )
        | inr m ↦
            let moved = subst (IsSound l) (sym (append_assoc ys (c ∷ []) zs)) s in
            let (l₂, run₂, s₂, m₂, es, z₂) =
              erase_loop-Erases fuel l (ys ++ c ∷ []) zs (omega arith) moved in
            (
              l₂,
              rw (load, m, load) run₂,
              rw m (subst (IsSound l₂) (append_assoc ys (c ∷ []) (keep zs)) s₂),
              m₂,
              es,
              z₂,
            )
      ]

  -- On a sound list the loop that erases the items which match ends without a fault. It leaves the
  -- cells that do not match, in order, the list is sound, the mutex is as before and the zombie
  -- list has only grown.
  pub erase_matching-Erases :
      (l : RcuList A) (xs : Cells A) → IsSound l xs → Erases l (erase_matching matches l) (keep xs)
  unfolding erase_matching
  erase_matching-Erases l xs s =
      subst (λ it. Erases l (erase_loop matches (suc l.fresh) it l) (keep xs)) (sym s.repr.head_eq)
        (erase_loop-Erases (suc l.fresh) l [] xs (omega (arith, length-le-fresh xs s.repr)) s)
