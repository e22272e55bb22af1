-- ===== src/RcuList/Iterator.antt =====
-- The iterators of cs_rcu_list.h, and the loops over a list that its clients write.
pub mod EraseLoop
pub mod Find
use cs_signal.Prelude.{
  ℕ, zero, suc, ◌<◌, ◌≡◌, refl, Bool, true, false, Option, none, some, List, [], ◌∷◌, ◌++◌, arith,
  ◌>>=◌, length, ap, ◌∙◌,
}
use cs_signal.RcuList.{Ptr, Node, RcuList, load, erase}
use cs_signal.RcuList.Bound.{length-le-fresh}
use mathlib.Core.Path.{fun_ext}
use cs_signal.RcuList.Chain.{Cells, values, first, live_node, Chain, Repr}

-- How the body of a loop goes on: to the next item, or out of the loop.
pub data Flow {ℓ} (S : Type ℓ) : Type ℓ where
  next : S → Flow S
  leave : S → Flow S

-- The state that a loop ends with.
abbrev pub flow_state {ℓ} : {S : Type ℓ} → Flow S → S
flow_state (next s) = s
flow_state (leave s) = s

abbrev pub continue {ℓ} : {S : Type ℓ} → Option (Flow S) → (S → Option (Flow S)) → Option (Flow S)
continue none k = none
continue (some (leave s)) k = some (leave s)
continue (some (next s)) k = k s

module _ {ℓ} {A : Type ℓ} where
  -- `begin`, `operator*` and `operator++`; the iterator is equal to `end()` if it is null.
  abbrev pub begin : RcuList A → Ptr
  begin l = l.head

  abbrev pub dereference : Ptr → RcuList A → Option A
  dereference it l = do n ← load it l; some n.item

  abbrev pub increment : Ptr → RcuList A → Option Ptr
  increment it l = do n ← load it l; some n.next

module _ {ℓ κ} {A : Type ℓ} {S : Type κ} (body : A → S → Option (Flow S)) where
  -- `for (auto &item : list) body`, from an iterator on.
  for_each : ℕ → Ptr → RcuList A → S → Option (Flow S)
  for_each zero it l s = none
  for_each (suc fuel) none l s = some (next s)
  for_each (suc fuel) (some p) l s = do
    item ← dereference (some p) l
    it ← increment (some p) l
    continue (body item s) (λ s'. for_each fuel it l s')

  pub for_range : RcuList A → S → Option (Flow S)
  unfolding for_each
  for_range l s = for_each (suc l.fresh) (begin l) l s

  -- The same loop over the items alone.
  unfoldable pub each : List A → S → Option (Flow S)
  each [] s = some (next s)
  each (v ∷ vs) s = continue (body v s) (λ s'. each vs s')

  for_each-each :
      (fuel : ℕ) (l : RcuList A) (start : Ptr) (xs : Cells A) (s : S)
      → Chain l.nodes start xs none
      → length xs < fuel
      → for_each fuel (first xs none) l s ≡ each (values xs) s
  unfolding for_each each
  for_each-each zero l start xs s c h = absurd (omega arith)
  for_each-each (suc fuel) l start [] s c h = refl
  for_each-each (suc fuel) l start (x ∷ xs) s c h = rw c.0 (
      ap (continue (body x.1 s))
        (fun_ext λ s'. for_each-each fuel l (some x.0) xs s' c.1 (omega arith)))

  -- On a list in order, which the body cannot change, the loop gives what its body gives on the
  -- items in order, once each, up to the first at which the body leaves or faults.
  pub for_range-each :
      (l : RcuList A) (xs : Cells A) (s : S) → Repr l xs → for_range l s ≡ each (values xs) s
  unfolding for_range
  for_range-each l xs s r =
      ap (λ it. for_each (suc l.fresh) it l s) r.head_eq
      ∙ for_each-each (suc l.fresh) l none xs s r.chain (omega (arith, length-le-fresh xs r))

module _ {ℓ} {A : Type ℓ} (matches : A → Bool) where
  -- `while (it != end()) { if (matches *it) it = erase(it); else ++it; }`
  erase_loop : ℕ → Ptr → RcuList A → Option (RcuList A)
  erase_loop zero it l = none
  erase_loop (suc fuel) none l = some l
  erase_loop (suc fuel) (some p) l = do
    item ← dereference (some p) l
    elim (matches item) [
      | true ↦ (do (it, l') ← erase (some p) l; erase_loop fuel it l')
      | false ↦ (do it ← increment (some p) l; erase_loop fuel it l)
    ]

  pub erase_matching : RcuList A → Option (RcuList A)
  unfolding erase_loop
  erase_matching l = erase_loop (suc l.fresh) (begin l) l

  -- `find`: the first iterator whose item matches, or the end.
  find_loop : ℕ → Ptr → RcuList A → Option Ptr
  find_loop zero it l = none
  find_loop (suc fuel) none l = some none
  find_loop (suc fuel) (some p) l = do
    item ← dereference (some p) l
    elim (matches item) [
      | true ↦ some (some p)
      | false ↦ (do it ← increment (some p) l; find_loop fuel it l)
    ]

  pub find : RcuList A → Option Ptr
  unfolding find_loop
  find l = find_loop (suc l.fresh) (begin l) l

  -- `list.erase(find(list.begin(), list.end(), value))`
  pub erase_found : RcuList A → Option (RcuList A)
  erase_found l = do it ← find l; (_, l') ← erase it l; some l'
