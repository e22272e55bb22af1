-- ===== src/Connections/Disconnect/Loop.antt =====
-- The loop of `internal_disconnect`, cell by cell.
use cs_signal.Prelude.{
  ℕ, zero, suc, ◌<◌, ◌≡◌, refl, sym, ap, subst, ◌∙◌, Bool, true, false, Bool_cases, Option_cases,
  inl, inr, Option, none, some, List, [], ◌∷◌, ◌++◌, ◌==◌, if◌then◌else◌, ◌>>=◌, any, arith, length,
  append_assoc,
}
use mathlib.Core.Option.{none-ne-some, some-injective}
use cs_signal.RcuList.{RcuList, Ptr, erase}
use cs_signal.RcuList.Guard.{rcu_write_lock, rcu_write_unlock}
use cs_signal.RcuList.Chain.{Cells, values, first, Chain-split}
use cs_signal.RcuList.Guard.Sound.{IsSound}
use cs_signal.RcuList.Guard.Modify.{erase-IsSound}
use cs_signal.RcuList.Iterator.{dereference, increment, erase_found}
use cs_signal.RcuList.Iterator.EraseLoop.{keep}
use cs_signal.SharedList.{Holds, remove_first, drop-first, lock_write, unlock_write}
use cs_signal.Connections.{ConnectStruct, SlotBase, World, put_senders}
use cs_signal.Connections.Destroy.Purge.{
  SendersAre, SlotExists, put_senders-SendersAre, put_senders-SlotExists, ReceiversExist,
  ReceiversExist-mono,
}
use cs_signal.Connections.Disconnect.Drops.{Drops, Drops-nil, Drops-keep, Drops-erase}
use cs_signal.Connections.Disconnect.{disconnect_loop}

-- The receivers' lists after the connections that match are gone: one pointer to the sender less for
-- each of them. `none` where a list lacks one or a connection has no receiver.
abbrev pub forget_each :
    (ConnectStruct → Bool) → ℕ → List ConnectStruct → (ℕ → List ℕ) → Option (ℕ → List ℕ)
forget_each p s [] sends = some sends
forget_each p s (c ∷ cs) sends =
    if p c
    then (do
      a ← c.receiver
      ws ← remove_first (λ t. t == s) (sends a)
      forget_each p s cs (λ r. if a == r then ws else sends r))
    else forget_each p s cs sends

module _ (g s : ℕ) where
  -- The receiver's side of one match.
  drop_sender :
      (a : ℕ) (w : World) (sends : ℕ → List ℕ) (ws : List ℕ)
      → SlotExists w a
      → SendersAre w sends
      → remove_first (λ t. t == s) (sends a) ≡ some ws
      → (y : SlotBase) × (z : ℕ) × (m₁ m₂ m₃ : RcuList ℕ) × (w.slots a ≡ some y)
        × (rcu_write_lock g y.possible_senders ≡ some (z, m₁))
        × (erase_found (λ t. t == s) m₁ ≡ some m₂)
        × (rcu_write_unlock z m₂ ≡ some m₃)
        × Holds m₃ ws
  drop_sender a w sends ws (y, y_eq) are e =
      let (z, m₁, lock_eq, locked) = lock_write g y.possible_senders (sends a) (are a y y_eq) in
      elim (drop-first m₁ z (some g) (sends a) locked (λ t. t == s)) [
        | inl (f, fault) ↦ absurd (none-ne-some ws (sym f ∙ e))
        | inr (vs, f, (m₂, erase_eq, k)) ↦
            let (m₃, unlock_eq, held) = unlock_write m₂ z vs (some g) k in
            (
              y,
              z,
              m₁,
              m₂,
              m₃,
              y_eq,
              lock_eq,
              erase_eq,
              unlock_eq,
              subst (Holds m₃) (some-injective vs ws (sym f ∙ e)) held,
            )
      ]

if-true : (b : Bool) → (if b then true else true) ≡ true
if-true true = refl
if-true false = refl

module _ (p : ConnectStruct → Bool) (g s : ℕ) where
  -- One round of the loop at a match.
  match_run :
      (fuel : ℕ) (l l' : RcuList ConnectStruct) (c : ℕ × ConnectStruct) (it : Ptr) (w : World)
      (retval : Bool) (a : ℕ) (y : SlotBase) (z : ℕ) (m₁ m₂ m₃ : RcuList ℕ)
      → dereference (some c.0) l ≡ some c.1
      → p c.1 ≡ true
      → c.1.receiver ≡ some a
      → w.slots a ≡ some y
      → rcu_write_lock g y.possible_senders ≡ some (z, m₁)
      → erase_found (λ t. t == s) m₁ ≡ some m₂
      → erase (some c.0) l ≡ some (it, l')
      → rcu_write_unlock z m₂ ≡ some m₃
      → increment (some c.0) l' ≡ some it
      → disconnect_loop p g s (suc fuel) (some c.0) l w retval
        ≡ disconnect_loop p g s fuel it l' (put_senders a m₃ w) true
  unfolding disconnect_loop
  match_run fuel l l' c it w retval a y z m₁ m₂ m₃ load m to_a y_eq lock_eq found erased unlock_eq
        moved =
      rw (load, m, to_a, y_eq, lock_eq, found, erased, unlock_eq, moved) refl

  pass_run :
      (fuel : ℕ) (l : RcuList ConnectStruct) (c : ℕ × ConnectStruct) (it : Ptr) (w : World)
      (retval : Bool)
      → dereference (some c.0) l ≡ some c.1
      → p c.1 ≡ false
      → increment (some c.0) l ≡ some it
      → disconnect_loop p g s (suc fuel) (some c.0) l w retval
        ≡ disconnect_loop p g s fuel it l w retval
  unfolding disconnect_loop
  pass_run fuel l c it w retval load m moved = rw (load, m, moved) refl

  pub disconnect_loop-Drops :
      (fuel : ℕ) (l : RcuList ConnectStruct) (ys zs : Cells ConnectStruct) (w : World)
      (retval : Bool) (sends sends' : ℕ → List ℕ)
      → length zs < fuel
      → IsSound l (ys ++ zs)
      → SendersAre w sends
      → ReceiversExist w (values zs)
      → forget_each p s (values zs) sends ≡ some sends'
      → (l' : RcuList ConnectStruct) × (w' : World) × (disconnect_loop p g s fuel
            (first zs none)
            l
            w
            retval
          ≡ some (l', w', (if any p (values zs) then true else retval)))
        × Drops l (ys ++ keep p zs) w sends' l' w'
  unfolding disconnect_loop
  disconnect_loop-Drops zero l ys zs w retval sends sends' h k are live e = absurd (omega arith)
  disconnect_loop-Drops (suc fuel) l ys [] w retval sends sends' h k are live e =
      (l, w, refl, Drops-nil l (ys ++ []) w sends sends' k are (some-injective sends sends' e))
  disconnect_loop-Drops (suc fuel) l ys (c ∷ zs) w retval sends sends' h k are live e =
      let load = (Chain-split l.nodes none ys (c ∷ zs) none k.repr.chain).1.0 in
      elim (Bool_cases (p c.1)) [
        | inr m ↦
            let (l', w', run, d) =
              disconnect_loop-Drops fuel l (ys ++ c ∷ []) zs w retval sends sends' (omega arith)
                (subst (IsSound l) (sym (append_assoc ys (c ∷ []) zs)) k) are live.1 (rw m at e) in
            (
              l',
              w',
              pass_run fuel l c (first zs none) w retval (rw load refl) m (rw load refl) ∙ rw m run,
              rw m (Drops-keep l ys c (keep p zs) w sends' l' w' d),
            )
        | inl m ↦ elim (Option_cases c.1.receiver) [
          | inl f ↦ absurd (none-ne-some sends' (rw (m, f) at e))
          | inr (a, to_a) ↦ elim (Option_cases (remove_first (λ t. t == s) (sends a))) [
            | inl f ↦ absurd (none-ne-some sends' (rw (m, to_a, f) at e))
            | inr (ws, f) ↦
                let (y, z, m₁, m₂, m₃, y_eq, lock_eq, found, unlock_eq, held) =
                  drop_sender g s a w sends ws (live.0 a to_a) are f in
                let (l₁, erased, er, k₁) = erase-IsSound l ys c zs k in
                let w₁ : World = put_senders a m₃ w in
                let (l', w', run, d) =
                  disconnect_loop-Drops fuel l₁ ys zs w₁ true (λ r. if a == r then ws else sends r)
                    sends' (omega arith) k₁ (put_senders-SendersAre w sends a m₃ ws are held)
                    (ReceiversExist-mono w w₁ (values zs) (put_senders-SlotExists w a m₃) live.1)
                    (rw (m, to_a, f) at e) in
                (
                  l',
                  w',
                  match_run fuel l l₁ c (first zs none) w retval a y z m₁ m₂ m₃ (rw load refl) m
                        to_a y_eq lock_eq found erased unlock_eq (rw er.node_eq refl)
                      ∙ run
                      ∙ ap (λ b. some (l', w', b)) (if-true (any p (values zs)) ∙ sym (rw m refl)),
                  rw m (Drops-erase l l₁ ys c zs (ys ++ keep p zs) a m₃ w sends' l' w' y y_eq er d),
                )
          ]
        ]
      ]
