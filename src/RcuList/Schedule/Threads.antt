-- ===== src/RcuList/Schedule/Threads.antt =====
-- The invariant of a schedule: the list is sound and guards every active thread.
use cs_signal.Prelude.{
  ℕ, zero, suc, ◌+◌, ◌<◌, ◌≡◌, refl, ap, Bool, false, Option, none, some, List, [], ◌∷◌, ◌++◌, ◌==◌,
  arith, ◌⊎◌, inl, inr, Bool_cases,
}
use cs_signal.RcuList.{Ptr, RcuList}
use cs_signal.RcuList.Chain.{Cells}
use cs_signal.RcuList.Guard.Sound.{IsSound}
use cs_signal.RcuList.Schedule.{Thread, System, thread_at, as_writer, with_thread, run}
use cs_signal.RcuList.Schedule.Entries.{Guards}

pub thread_cases :
    (i : ℕ) (ts : List Thread)
    → (thread_at i ts ≡ none)
      ⊎ ((before : List Thread) × (t : Thread) × (after : List Thread) × (thread_at i ts
            ≡ some (before, t, after))
          × (ts ≡ before ++ t ∷ after))
thread_cases i [] = inl refl
thread_cases zero (t ∷ ts) = inr ([], t, ts, refl, refl)
thread_cases (suc i) (u ∷ ts) = elim (thread_cases i ts) [
  | inl e ↦ inl (rw e)
  | inr (before, t, after, e, same) ↦ inr (u ∷ before, t, after, rw e, ap (◌∷◌ u) same)
]

module _ {ℓ} {A : Type ℓ} where
  abbrev pub IsGuarded : RcuList A → Cells A → Thread → Type ℓ
  IsGuarded l xs t = Guards xs t.guard t.zombie t.position [] l.zombies

  -- The guards' addresses fall along the active threads, and each guard is in the zombie list.
  abbrev pub AreGuarded : RcuList A → Cells A → ℕ → List Thread → Type ℓ
  AreGuarded l xs f [] = Unit
  AreGuarded l xs f (t ∷ ts) = (t.zombie < f) × IsGuarded l xs t × AreGuarded l xs t.zombie ts

  pub record IsSafe (s : System A) : Type ℓ where
    pub cells : Cells A
    pub sound : IsSound s.list cells
    pub guarded : AreGuarded s.list cells s.list.fresh s.threads

  -- A change of the list carries the threads along, if it does so for each.
  pub carry :
      (l l' : RcuList A) (xs xs' : Cells A) (f f' : ℕ) (ts : List Thread)
      → f < f' + 1
      → ((t : Thread) → IsGuarded l xs t → IsGuarded l' xs' t)
      → AreGuarded l xs f ts
      → AreGuarded l' xs' f' ts
  carry l l' xs xs' f f' [] h k g = tt
  carry l l' xs xs' f f' (t ∷ ts) h k g =
      (omega arith, k t g.1, carry l l' xs xs' t.zombie t.zombie ts (omega arith) k g.2)

  pub IsGuarded-at :
      (l : RcuList A) (xs : Cells A) (f : ℕ) (before : List Thread) (t : Thread)
      (after : List Thread)
      → AreGuarded l xs f (before ++ t ∷ after)
      → (t.zombie < f) × IsGuarded l xs t
  IsGuarded-at l xs f [] t after g = (g.0, g.1)
  IsGuarded-at l xs f (u ∷ before) t after g =
      let r = IsGuarded-at l xs u.zombie before t after g.2 in (omega arith, r.1)

  pub replace :
      (l : RcuList A) (xs : Cells A) (f : ℕ) (before : List Thread) (t : Thread)
      (after : List Thread) (p : Ptr)
      → AreGuarded l xs f (before ++ t ∷ after)
      → IsGuarded l xs (record t { position = p })
      → AreGuarded l xs f (before ++ record t { position = p } ∷ after)
  replace l xs f [] t after p g new = (g.0, new, g.2)
  replace l xs f (u ∷ before) t after p g new =
      (g.0, g.1, replace l xs u.zombie before t after p g.2 new)

  -- Whether a thread has the mutex does not matter.
  pub AreGuarded-writes :
      (l : RcuList A) (xs : Cells A) (f : ℕ) (before : List Thread) (t : Thread)
      (after : List Thread) (b : Bool)
      → AreGuarded l xs f (before ++ t ∷ after)
      → AreGuarded l xs f (before ++ record t { writes = b } ∷ after)
  AreGuarded-writes l xs f [] t after b g = g
  AreGuarded-writes l xs f (u ∷ before) t after b g =
      (g.0, g.1, AreGuarded-writes l xs u.zombie before t after b g.2)

  module _ (l l' : RcuList A) (xs : Cells A) (z : ℕ)
      (k : (u : Thread) → (z == u.zombie) ≡ false → IsGuarded l xs u → IsGuarded l' xs u) where
    below_stay :
        (f f' : ℕ) (ts : List Thread)
        → f < z + 1
        → f < f' + 1
        → AreGuarded l xs f ts
        → AreGuarded l' xs f' ts
    below_stay f f' [] h h' g = tt
    below_stay f f' (u ∷ ts) h h' g = (
      omega arith,
      k u (ground arith) g.1,
      below_stay u.zombie u.zombie ts (omega arith) (omega arith) g.2,
    )

    -- The other threads stay guarded when the thread of the guard at `z` is gone.
    pub remove :
        (f : ℕ) (before : List Thread) (t : Thread) (after : List Thread)
        → t.zombie ≡ z
        → AreGuarded l xs f (before ++ t ∷ after)
        → AreGuarded l' xs f (before ++ after)
    remove f [] t after e g = below_stay t.zombie f after (omega arith) (omega arith) g.2
    remove f (u ∷ before) t after e g =
        let above = IsGuarded-at l xs u.zombie before t after g.2 in
        (g.0, k u (ground arith) g.1, remove u.zombie before t after e g.2)

  abbrev pub Safely : Option (System A) → Type ℓ
  Safely r = (s' : System A) × (r ≡ some s') × IsSafe s'

  pub with_thread_rule :
      (i : ℕ) (s : System A) (f : List Thread → Thread → List Thread → Option (System A))
      → IsSafe s
      → ((before : List Thread) (t : Thread) (after : List Thread)
          → s.threads ≡ before ++ t ∷ after
          → Safely (f before t after))
      → Safely (with_thread i s f)
  with_thread_rule i s f safe found = elim (thread_cases i s.threads) [
    | inl e ↦ (s, rw (e, with_thread), safe)
    | inr (before, t, after, e, same) ↦
        let (s', run, safe') = found before t after same in (s', rw (e, with_thread) run, safe')
  ]

  pub as_writer_rule :
      (t : Thread) (s : System A) (r : Option (System A))
      → IsSafe s
      → Safely r
      → Safely (as_writer t s r)
  as_writer_rule t s r safe k = elim (Bool_cases t.writes) [
    | inl w ↦ let (s', run, safe') = k in (s', rw w run, safe')
    | inr w ↦ (s, rw w, safe)
  ]
