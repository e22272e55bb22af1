-- ===== src/Connections/Network/Invariant.antt =====
-- The invariant of the objects and their lists.
use cs_signal.Prelude.{
  refl, some, Option, is_some, is_some-false, ℕ, zero, ◌<◌, ◌≡◌, ◌≢◌, sym, ap, subst, ◌∙◌,
  Bool_cases, Option_cases, inl, inr, none, List, [], ◌==◌, ==_iff, arith,
}
use mathlib.Core.Bool.{true≢false}
use mathlib.Core.Option.{none-ne-some}
use cs_signal.Connections.{ConnectStruct, SignalBase, World, assign}
use cs_signal.Connections.Lists.{busy_of, assign_same, assign_other}
use cs_signal.Connections.Destroy.Purge.{SendersAre, SlotExists, ReceiversExist, SlotsStay}
use cs_signal.Connections.Destroy.Dangling.{Known}
use cs_signal.Connections.Destroy.Unlink.{
  ConnectionsAre, SignalExists, SendersExist, SignalsStay, is_to,
}
use cs_signal.Connections.Destroy.Orphans.{Remembered}
use cs_signal.Connections.Disconnect.Balance.{times, links_to, Balanced, HaveReceivers}
use cs_signal.Connections.Network.Counting.{
  any-count_of, count_of-any, links_to-ReceiversExist, times-SendersExist,
}

-- The sender at each address has the connections `conns`, and the receiver at each has pointers:
-- the lists are in order and not locked, what does not exist has neither connections nor pointers,
-- every connection has a receiver, and a receiver has as many pointers to a sender as there are
-- connections from it.
pub record IsNet (w : World) (conns : ℕ → List ConnectStruct) : Type 0 where
  pub sends : ℕ → List ℕ
  pub connections_are : ConnectionsAre w conns
  pub senders_are : SendersAre w sends
  pub no_signal : (s : ℕ) → w.signals s ≡ none → conns s ≡ []
  pub no_slot : (r : ℕ) → w.slots r ≡ none → sends r ≡ []
  pub balanced : (s : ℕ) → Balanced s (conns s) sends
  pub have : (s : ℕ) → HaveReceivers (conns s)

module _ (w : World) (conns : ℕ → List ConnectStruct) (n : IsNet w conns) where
  linked-SlotExists : (s r : ℕ) → zero < links_to r (conns s) → SlotExists w r
  linked-SlotExists s r h = elim (Option_cases (w.slots r)) [
    | inr e ↦ e
    | inl e ↦
        let count = sym (n.balanced s r) ∙ ap (times s) (n.no_slot r e) in
        absurd (omega (arith, count))
  ]

  known-SignalExists : (r s : ℕ) → zero < times s (n.sends r) → SignalExists w s
  known-SignalExists r s h = elim (Option_cases (w.signals s)) [
    | inr e ↦ e
    | inl e ↦
        let count = n.balanced s r ∙ ap (links_to r) (n.no_signal s e) in
        absurd (omega (arith, count))
  ]

  pub IsNet-ReceiversExist : (s : ℕ) → ReceiversExist w (conns s)
  IsNet-ReceiversExist s = links_to-ReceiversExist w (conns s) (linked-SlotExists s)

  pub IsNet-SendersExist : (r : ℕ) → SendersExist w (n.sends r)
  IsNet-SendersExist r = times-SendersExist w (n.sends r) (known-SignalExists r)

  pub IsNet-Known : (s : ℕ) → Known s (conns s) n.sends
  IsNet-Known s r h =
      let k = any-count_of (λ t. t == s) (n.sends r) h in
      let b = n.balanced s r in count_of-any (is_to r) (conns s) (omega (arith, k, b))

  pub IsNet-Remembered : (r : ℕ) → Remembered r (n.sends r) conns
  IsNet-Remembered r s h =
      let k = any-count_of (is_to r) (conns s) h in
      let b = n.balanced s r in count_of-any (λ t. t == s) (n.sends r) (omega (arith, k, b))

pub SlotsStay-none : (w w' : World) (r : ℕ) → SlotsStay w w' → w'.slots r ≡ none → w.slots r ≡ none
SlotsStay-none w w' r stay e = is_some-false (w.slots r) (sym (stay r) ∙ ap is_some e)

busy_of-none : (o : Option SignalBase) → busy_of o ≡ none → o ≡ none
busy_of-none none e = refl
busy_of-none (some x) e = absurd (none-ne-some _ (sym e))

pub SignalsStay-none :
    (w w' : World) (s : ℕ) → SignalsStay w w' → w'.signals s ≡ none → w.signals s ≡ none
SignalsStay-none w w' s stay e = busy_of-none (w.signals s) (sym (stay s) ∙ ap busy_of e)

-- What holds of the value at `p` and of the others holds of an assignment.
pub assign-elim {ℓ κ} :
    {A : Type ℓ} (P : ℕ → A → Type κ) (f : ℕ → A) (p : ℕ) (v : A) (a : ℕ)
    → P p v
    → (a ≢ p → P a (f a))
    → P a (assign f p v a)
assign-elim P f p v a here there = elim (Bool_cases (a == p)) [
  | inl m ↦
      let same = (==_iff a p).0 m in
      subst (λ b. P b (assign f p v b)) (sym same) (subst (P p) (sym (assign_same f p v)) here)
  | inr m ↦
      let apart : a ≢ p = λ e. true≢false (sym ((==_iff a p).1 e) ∙ m) in
      subst (P a) (sym (assign_other f p a v apart)) (there apart)
]
