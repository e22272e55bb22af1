-- ===== src/Connections/Destroy/Dangling.antt =====
-- What `~SignalBase` leaves in the receivers.
use cs_signal.Prelude.{
  is_some, ℕ, zero, suc, ◌+◌, ◌≡◌, ◌≢◌, refl, ap, subst, ◌∙◌, sym, true, Bool_cases, inl, inr, none,
  some, List, [], ◌∷◌, ◌==◌, any, reject, reject-any,
}
use mathlib.Core.Bool.{true≢false}
use cs_signal.RcuList.{RcuList, ptr_eq}
use cs_signal.RcuList.Iterator.{next, for_range}
use cs_signal.SharedList.{Holds}
use cs_signal.Connections.{ConnectStruct, SignalBase, World, assign, under_read_handle}
use cs_signal.Connections.Lists.{assign_same, assign_other, under_read_handle-each}
use cs_signal.Connections.Destroy.{forget_sender, mark_destroyed, destroy_signal}
use cs_signal.Connections.Destroy.Purge.{
  SlotsStay, SendersAre, ReceiversExist, without_sender, each-Forgets,
}

-- A receiver that knows the sender has a connection from it.
abbrev pub Known : ℕ → List ConnectStruct → (ℕ → List ℕ) → Type 0
Known s cs sends =
    (r : ℕ) → any (λ t. t == s) (sends r) ≡ true → any (λ c. ptr_eq c.receiver (some r)) cs ≡ true

without_sender-reject :
    (s : ℕ) (cs : List ConnectStruct) (sends : ℕ → List ℕ) (r : ℕ)
    → Known s cs sends
    → without_sender s cs sends r ≡ reject (λ t. t == s) (sends r)
without_sender-reject s cs sends r known =
    elim (Bool_cases (any (λ c. ptr_eq c.receiver (some r)) cs)) [
      | inl m ↦ rw m refl
      | inr m ↦ elim (Bool_cases (any (λ t. t == s) (sends r))) [
        | inl k ↦ absurd (true≢false (sym (known r k) ∙ m))
        | inr k ↦ rw m (sym (reject-any _ (sends r) k))
      ]
    ]

marked-SendersAre :
    (n s : ℕ) (w : World) (sends : ℕ → List ℕ)
    → SendersAre w sends
    → SendersAre (mark_destroyed n s w) sends
marked-SendersAre zero s w sends h = h
marked-SendersAre (suc n) s w sends h = h

marked-slots : (n s : ℕ) (w : World) → (mark_destroyed n s w).slots ≡ w.slots
marked-slots zero s w = refl
marked-slots (suc n) s w = refl

marked-ReceiversExist :
    (n s : ℕ) (w : World) (cs : List ConnectStruct)
    → ReceiversExist w cs
    → ReceiversExist (mark_destroyed n s w) cs
marked-ReceiversExist n s w [] h = tt
marked-ReceiversExist zero s w (c ∷ cs) h = (h.0, marked-ReceiversExist zero s w cs h.1)
marked-ReceiversExist (suc n) s w (c ∷ cs) h = (h.0, marked-ReceiversExist (suc n) s w cs h.1)

marked-signals : (n s : ℕ) (w : World) → (mark_destroyed n s w).signals ≡ w.signals
marked-signals zero s w = refl
marked-signals (suc n) s w = refl

destroy_signal_run :
    (g s : ℕ) (w w' : World) (x : SignalBase) (l : RcuList ConnectStruct)
    → w.signals s ≡ some x
    → under_read_handle g
        (λ k. for_range (forget_sender (g + 1) s) k (mark_destroyed x.activate_busy s w))
        x.connect_list
      ≡ some (next w', l)
    → destroy_signal g s w ≡ some (record w' { signals = assign w'.signals s none })
unfolding destroy_signal
destroy_signal_run g s w w' x l x_eq run = rw (x_eq, run) refl

-- For a sender that exists with a list in order, if its connections' receivers exist, the
-- receivers' lists are in order, and a receiver that knows the sender has a connection from it:
-- `~SignalBase` runs to its end, takes the sender out of the list of every receiver, and leaves the
-- other items of these lists. The sender is gone, no other sender changes, no receiver goes, and it
-- is in the set of destroyed senders if an `activate` of it runs.
pub destroy_signal-SendersAre :
    (g s : ℕ) (w : World) (x : SignalBase) (cs : List ConnectStruct) (sends : ℕ → List ℕ)
    → w.signals s ≡ some x
    → Holds x.connect_list cs
    → SendersAre w sends
    → ReceiversExist w cs
    → Known s cs sends
    → (w' : World) × (destroy_signal g s w ≡ some w')
      × (w'.signals s ≡ none)
      × ((a : ℕ) → a ≢ s → w'.signals a ≡ w.signals a)
      × SendersAre w' (λ r. reject (λ t. t == s) (sends r))
      × (w'.being_destroyed ≡ (mark_destroyed x.activate_busy s w).being_destroyed)
      × SlotsStay w w'
destroy_signal-SendersAre g s w x cs sends x_eq h are live known =
    let n = x.activate_busy in
    let marked = mark_destroyed n s w in
    let (v, loop_eq, k) =
      each-Forgets (g + 1) s cs marked sends (marked-SendersAre n s w sends are)
        (marked-ReceiversExist n s w cs live) in
    let (l, run, held) =
      under_read_handle-each g (forget_sender (g + 1) s) x.connect_list cs marked (next v) h
        loop_eq in
    (
      record v { signals = assign v.signals s none },
      destroy_signal_run g s w v x l x_eq run,
      assign_same v.signals s none,
      λ a apart.
          assign_other v.signals s a none apart
          ∙ ap (λ f. f a) (k.signals_eq ∙ marked-signals n s w),
      λ r y e.
          subst (Holds y.possible_senders) (without_sender-reject s cs sends r known)
            (k.senders_are r y e),
      k.destroyed_eq,
      λ r. k.stay r ∙ ap (λ f. is_some (f r)) (marked-slots n s w),
    )
