-- ===== src/RcuList/Schedule/Steps.antt =====
-- Each kind of step, by a thread that is guarded.
use cs_signal.Prelude.{
  ℕ, ◌+◌, ◌≡◌, refl, sym, ap, ◌∙◌, Bool, true, false, Option, none, some, List, [], ◌∷◌, ◌++◌, ◌==◌,
  arith, subst, inl, inr, Bool_cases, ◌>>=◌,
}
use cs_signal.RcuList.{Ptr, RcuList, push_back, push_front}
use cs_signal.RcuList.Chain.{Cells, has, has-append, first}
use cs_signal.RcuList.Bound.{has_split}
use cs_signal.RcuList.Erase.{erase-dead, ErasedTo}
use cs_signal.RcuList.Guard.{rcu_read_lock, rcu_write_unlock, unlock}
use cs_signal.RcuList.Guard.Zombies.{LeadsTo}
use cs_signal.RcuList.Guard.Sound.{IsSound}
use cs_signal.RcuList.Guard.Unlock.{unlock-Unlocked}
use cs_signal.RcuList.Guard.Modify.{
  first-LeadsTo, has_middle, push_back-IsSound, push_front-IsSound, erase-IsSound,
  rcu_read_lock-IsSound, set_mutex-IsSound,
}
use cs_signal.RcuList.Schedule.{
  Thread, System, new_thread, move, step_lock, step_acquire, step_release, step_next, step_erase,
  step_leave, run,
}
use cs_signal.RcuList.Schedule.Entries.{
  Guards, Guards-split, Guards-unlock, Guards-Spares, Guards-live, Guards-view, live-next, here,
  there,
}
use cs_signal.RcuList.Schedule.Threads.{
  IsGuarded, AreGuarded, AreGuarded-writes, IsSafe, carry, IsGuarded-at, replace, remove, Safely,
}

module _ {ℓ} {A : Type ℓ} where
  module _ (s : System A) (safe : IsSafe s) where
    lock-IsGuarded :
        (g : ℕ) (l' : RcuList A)
        → l'.zombies ≡ (rcu_read_lock g s.list).1.zombies
        → l'.fresh ≡ (rcu_read_lock g s.list).1.fresh
        → AreGuarded l' safe.cells l'.fresh (new_thread g s.list.fresh ∷ s.threads)
    unfolding rcu_read_lock
    lock-IsGuarded g l' z f = (
      rw f (omega arith),
      rw z (here refl refl tt),
      carry s.list l' safe.cells safe.cells s.list.fresh s.list.fresh s.threads (omega arith)
          (λ t k. rw z (there k)) safe.guarded,
    )

    grow :
        (l' : RcuList A) (xs' : Cells A)
        → IsSound l' xs'
        → l'.zombies ≡ s.list.zombies
        → l'.fresh ≡ s.list.fresh + 1
        → ((q : ℕ) → has q safe.cells ≡ true → has q xs' ≡ true)
        → IsSafe (record s { list = l' })
    grow l' xs' sound z f more = record {
      cells = xs';
      sound = sound;
      guarded =
          carry s.list l' safe.cells xs' s.list.fresh l'.fresh s.threads (rw f (omega arith))
            (λ t k. rw z (Guards-Spares xs' [] [] s.list.zombies (λ q m. rw (more q m) refl) k))
            safe.guarded;
    }

    module _ (before : List Thread) (t : Thread) (after : List Thread)
        (at : s.threads ≡ before ++ t ∷ after) where
      guarded : AreGuarded s.list safe.cells s.list.fresh (before ++ t ∷ after)
      guarded = subst (AreGuarded s.list safe.cells s.list.fresh) at safe.guarded

      move-IsSafe :
          (p : Ptr)
          → Guards safe.cells t.guard t.zombie p [] s.list.zombies
          → IsSafe (move s before t after p)
      move-IsSafe p k = record {
        cells = safe.cells;
        sound = safe.sound;
        guarded = replace s.list safe.cells s.list.fresh before t after p guarded k;
      }

      pub begin-Safely : Safely (some (move s before t after s.list.head))
      begin-Safely =
          let k = (IsGuarded-at s.list safe.cells s.list.fresh before t after guarded).1 in
          let leads =
            subst (LeadsTo safe.cells []) (sym safe.sound.repr.head_eq)
              (first-LeadsTo [] safe.cells) in
          (_, refl, move-IsSafe s.list.head (Guards-live leads k))

      pub next-Safely : (p : Ptr) → t.position ≡ p → Safely (step_next s before t after p)
      next-Safely none e = (s, refl, safe)
      next-Safely (some p) e =
          let k : Guards safe.cells t.guard t.zombie (some p) [] s.list.zombies =
            subst (λ q. Guards safe.cells t.guard t.zombie q [] s.list.zombies) e
              (IsGuarded-at s.list safe.cells s.list.fresh before t after guarded).1 in
          elim (Guards-view s.list.fresh s.list.nodes safe.cells t.guard t.zombie p []
            s.list.zombies (λ q m. absurd (cc)) safe.sound.dead k) [
              | inl live ↦
                  let (n, load, leads) = live-next s.list safe.cells p safe.sound.repr live in
                  (_, rw load, move-IsSafe n.next (Guards-live leads k))
              | inr (n, load, dead, next) ↦ (_, rw load, move-IsSafe n.next next)
            ]

      -- The list after the cell `c` was erased, and the thread's iterator behind it.
      erased-IsSafe :
          (ys : Cells A) (c : ℕ × A) (zs : Cells A) (l' : RcuList A)
          → safe.cells ≡ ys ++ c ∷ zs
          → ErasedTo s.list ys c zs l'
          → IsSound l' (ys ++ zs)
          → IsSafe (move (record s { list = l' }) before t after (first zs none))
      erased-IsSafe ys c zs l' same e sound =
          let others = λ (u : Thread) (k : IsGuarded s.list safe.cells u).
            subst (Guards (ys ++ zs) u.guard u.zombie u.position []) (sym e.zombies_eq) (
              there (
                Guards-Spares (ys ++ zs) (c.0 ∷ []) [] s.list.zombies
                  (λ q m. sym (has_middle q ys c zs) ∙ sym (ap (has q) same) ∙ m) k)) in
          let stay =
            carry s.list l' safe.cells (ys ++ zs) s.list.fresh l'.fresh (before ++ t ∷ after)
              (rw e.fresh_eq (omega arith)) others guarded in
          record {
            cells = ys ++ zs;
            sound = sound;
            guarded = replace l' (ys ++ zs) l'.fresh before t after (first zs none) stay (
                Guards-live (first-LeadsTo ys zs)
                  (IsGuarded-at l' (ys ++ zs) l'.fresh before t after stay).1);
          }

      cell-Safely :
          (ys : Cells A) (c : ℕ × A) (zs : Cells A)
          → safe.cells ≡ ys ++ c ∷ zs
          → Safely (step_erase s before t after (some c.0))
      cell-Safely ys c zs same =
          let (l', run, e, sound) =
            erase-IsSound s.list ys c zs (subst (IsSound s.list) same safe.sound) in
          (_, rw run, erased-IsSafe ys c zs l' same e sound)

      pub erase-Safely : (p : Ptr) → t.position ≡ p → Safely (step_erase s before t after p)
      erase-Safely none e = (s, refl, safe)
      erase-Safely (some p) e =
          let k : Guards safe.cells t.guard t.zombie (some p) [] s.list.zombies =
            subst (λ q. Guards safe.cells t.guard t.zombie q [] s.list.zombies) e
              (IsGuarded-at s.list safe.cells s.list.fresh before t after guarded).1 in
          elim (Guards-view s.list.fresh s.list.nodes safe.cells t.guard t.zombie p []
            s.list.zombies (λ q m. absurd (cc)) safe.sound.dead k) [
              | inl live ↦
                  let (ys, c, zs, same, found) = has_split p safe.cells live in
                  subst (λ q. Safely (step_erase s before t after (some q))) found
                    (cell-Safely ys c zs same)
              | inr (n, load, dead, next) ↦
                  (_, rw (erase-dead s.list p n load dead), move-IsSafe n.next next)
            ]

      -- Leaving, from a list that differs in its mutex at most.
      left-Safely :
          (l₀ : RcuList A)
          → IsSound l₀ safe.cells
          → l₀.zombies ≡ s.list.zombies
          → l₀.fresh ≡ s.list.fresh
          → Safely
              (do l ← unlock t.zombie l₀; some (record { list = l; threads = before ++ after }))
      left-Safely l₀ sound z f =
          let k = (IsGuarded-at s.list safe.cells s.list.fresh before t after guarded).1 in
          let (ws, e, es, same, a) = Guards-split k in
          let (l', run, sound', u) = unlock-Unlocked l₀ safe.cells ws e es sound (z ∙ same) in
          let others =
            λ (v : Thread) (ne : (e.addr == v.zombie) ≡ false) (g : IsGuarded s.list safe.cells v).
              subst (Guards safe.cells v.guard v.zombie v.position []) (sym u.zombies_eq) (
                Guards-unlock ws e es ne
                  (subst (Guards safe.cells v.guard v.zombie v.position []) same g)) in
          (
            record { list = l'; threads = before ++ after },
            rw (← a, run),
            record {
              cells = safe.cells;
              sound = sound';
              guarded =
                  rw (u.fresh_eq, f)
                    (remove s.list l' safe.cells e.addr others s.list.fresh before t after (sym a)
                      guarded);
            },
          )

      -- The mutex is taken or given back, and the thread knows it.
      mutex-IsSafe :
          (m : Option ℕ) (b : Bool)
          → IsSafe (record {
            list = record s.list { write_mutex = m };
            threads = before ++ record t { writes = b } ∷ after;
          })
      mutex-IsSafe m b = record {
        cells = safe.cells;
        sound = set_mutex-IsSound s.list safe.cells m safe.sound;
        guarded =
            AreGuarded-writes (record s.list { write_mutex = m }) safe.cells s.list.fresh before t
              after b
              (carry s.list (record s.list { write_mutex = m }) safe.cells safe.cells s.list.fresh
                s.list.fresh (before ++ t ∷ after) (omega arith) (λ u k. k) guarded);
      }

      pub acquire-Safely : (m : Option ℕ) → Safely (some (step_acquire s before t after m))
      acquire-Safely (some holder) = (s, refl, safe)
      acquire-Safely none = (_, refl, mutex-IsSafe (some t.guard) true)

      pub release-Safely : Safely (some (step_release s before t after))
      release-Safely = elim (Bool_cases t.writes) [
        | inl w ↦ (_, refl, rw w (mutex-IsSafe none false))
        | inr w ↦ (_, refl, rw w safe)
      ]

      pub leave-Safely : Safely (step_leave s before t after)
      unfolding rcu_write_unlock
      leave-Safely = elim (Bool_cases t.writes) [
        | inl w ↦ rw w (
            left-Safely (record s.list { write_mutex = none })
              (set_mutex-IsSound s.list safe.cells none safe.sound) refl refl)
        | inr w ↦ rw w (left-Safely s.list safe.sound refl refl)
      ]

    pub append-Safely : (v : A) → Safely (do l ← push_back v s.list; some (record s { list = l }))
    append-Safely v =
        let (l', run, sound, z, f, m) = push_back-IsSound v s.list safe.cells safe.sound in
        (record s { list = l' }, rw run, grow l' _ sound z f λ q m. rw (has-append, m) refl)

    pub prepend-Safely : (v : A) → Safely (do l ← push_front v s.list; some (record s { list = l }))
    prepend-Safely v =
        let (l', run, sound, z, f, m) = push_front-IsSound v s.list safe.cells safe.sound in
        (record s { list = l' }, rw run, grow l' _ sound z f λ q m. ground arith)

    pub read_lock-IsSafe : (g : ℕ) → IsSafe (step_lock g s)
    unfolding rcu_read_lock
    read_lock-IsSafe g = record {
      cells = safe.cells;
      sound = rcu_read_lock-IsSound g s.list safe.cells safe.sound;
      guarded = lock-IsGuarded g (rcu_read_lock g s.list).1 refl refl;
    }
