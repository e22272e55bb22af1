-- ===== src/RcuList/Schedule/Exclusion.antt =====
-- How many threads write, and who has the mutex.
use cs_signal.Prelude.{
  ℕ, ◌+◌, ◌≤◌, ◌≡◌, refl, sym, ap, ◌∙◌, subst, Bool, true, false, Bool_cases, inl, inr, Option,
  none, some, List, [], ◌∷◌, ◌++◌, ◌>>=◌, if◌then◌else◌, arith,
}
use mathlib.Core.Option.{some-injective}
use cs_signal.RcuList.{Ptr, RcuList, push_back, push_front, erase}
use cs_signal.RcuList.Iterator.{increment}
use cs_signal.RcuList.Guard.{rcu_read_lock, rcu_write_unlock, unlock}
use cs_signal.RcuList.Guard.Modify.{push_back-IsSound, push_front-IsSound}
use cs_signal.RcuList.Guard.Mutex.{bind_some, erase-SameMutex, unlock-SameMutex}
use cs_signal.RcuList.Schedule.{
  Thread, System, Action, move, step, step_acquire, step_release, step_next, step_erase, step_leave,
  as_writer, with_thread, run, idle,
}
use cs_signal.RcuList.Schedule.Threads.{IsSafe, thread_cases}
use cs_signal.RcuList.Schedule.Safety.{step-Safely, idle-IsSafe, run-idle-Safely}

abbrev pub writers : List Thread → ℕ
writers [] = 0
writers (t ∷ ts) = if t.writes then writers ts + 1 else writers ts

abbrev one_if : Bool → ℕ
one_if true = 1
one_if false = 0

writers-append :
    (xs : List Thread) (t : Thread) (ys : List Thread)
    → writers (xs ++ t ∷ ys) ≡ writers xs + one_if t.writes + writers ys
writers-append [] t ys = elim (Bool_cases t.writes) [
  | inl w ↦ rw w (omega arith)
  | inr w ↦ rw w (omega arith)
]
writers-append (x ∷ xs) t ys = elim (Bool_cases x.writes) [
  | inl w ↦ rw w (omega (arith, writers-append xs t ys))
  | inr w ↦ rw w (writers-append xs t ys)
]

writers-removed : (xs ys : List Thread) → writers (xs ++ ys) ≡ writers xs + writers ys
writers-removed [] ys = omega arith
writers-removed (x ∷ xs) ys = elim (Bool_cases x.writes) [
  | inl w ↦ rw w (omega (arith, writers-removed xs ys))
  | inr w ↦ rw w (writers-removed xs ys)
]

-- Nobody writes while the mutex is free, and one thread does while it is held.
abbrev pub Exclusive : Option ℕ → ℕ → Type 0
Exclusive none n = n ≡ 0
Exclusive (some h) n = n ≡ 1

Exclusive-most : (m : Option ℕ) (n : ℕ) → Exclusive m n → n ≤ 1
Exclusive-most none n e = omega arith
Exclusive-most (some h) n e = omega arith

module _ {ℓ} {A : Type ℓ} where
  abbrev pub Excludes : System A → Type 0
  Excludes s = Exclusive s.list.write_mutex (writers s.threads)

  abbrev Leads : Option (System A) → Type ℓ
  Leads r = (s' : System A) → r ≡ some s' → Excludes s'

  arrives : (s : System A) → Excludes s → Leads (some s)
  arrives s e s' h = subst Excludes (some-injective s s' h) e

  -- The same number of writers, and the same mutex.
  stays :
      (s s' : System A)
      → s'.list.write_mutex ≡ s.list.write_mutex
      → writers s'.threads ≡ writers s.threads
      → Excludes s
      → Excludes s'
  stays s s' m n e =
      subst (λ k. Exclusive s'.list.write_mutex k) (sym n)
        (subst (λ q. Exclusive q (writers s.threads)) (sym m) e)

  with_thread-Leads :
      (i : ℕ) (s : System A) (f : List Thread → Thread → List Thread → Option (System A))
      → Excludes s
      → ((before : List Thread) (t : Thread) (after : List Thread)
          → s.threads ≡ before ++ t ∷ after
          → Leads (f before t after))
      → Leads (with_thread i s f)
  with_thread-Leads i s f e k = elim (thread_cases i s.threads) [
    | inl n ↦ rw (n, with_thread) (arrives s e)
    | inr (before, t, after, found, at) ↦ rw (found, with_thread) (k before t after at)
  ]

  as_writer-Leads :
      (t : Thread) (s : System A) (r : Option (System A))
      → Excludes s
      → Leads r
      → Leads (as_writer t s r)
  as_writer-Leads t s r e k = elim (Bool_cases t.writes) [
    | inl w ↦ rw w k
    | inr w ↦ rw w (arrives s e)
  ]

  module _ (s : System A) (safe : IsSafe s) (e : Excludes s) where
    append-Leads : (v : A) → Leads (do l ← push_back v s.list; some (record s { list = l }))
    append-Leads v s' h =
        let (l, run, sound, z, f, m) = push_back-IsSound v s.list safe.cells safe.sound in
        arrives (record s { list = l }) (stays s (record s { list = l }) m refl e) s' (rw run at h)

    prepend-Leads : (v : A) → Leads (do l ← push_front v s.list; some (record s { list = l }))
    prepend-Leads v s' h =
        let (l, run, sound, z, f, m) = push_front-IsSound v s.list safe.cells safe.sound in
        arrives (record s { list = l }) (stays s (record s { list = l }) m refl e) s' (rw run at h)

    module _ (before : List Thread) (t : Thread) (after : List Thread)
        (at : s.threads ≡ before ++ t ∷ after) where
      total : writers s.threads ≡ writers before + one_if t.writes + writers after
      total = ap writers at ∙ writers-append before t after

      alone : t.writes ≡ true → writers before + writers after ≡ 0
      alone w = omega (arith, total, ap one_if w, Exclusive-most s.list.write_mutex _ e)

      moved :
          (l : RcuList A) (p : Ptr)
          → l.write_mutex ≡ s.list.write_mutex
          → Excludes (move (record s { list = l }) before t after p)
      moved l p m =
          stays s (move (record s { list = l }) before t after p) m
            (writers-append before (record t { position = p }) after ∙ sym total) e

      next-Leads : (p : Ptr) → Leads (step_next s before t after p)
      next-Leads none s' h = arrives s e s' h
      next-Leads (some p) s' h =
          let (it, run, rest) = bind_some (increment (some p) s.list) _ s' h in
          arrives (move s before t after it) (moved s.list it refl) s' rest

      erase-Leads : (p : Ptr) → Leads (step_erase s before t after p)
      erase-Leads none s' h = arrives s e s' h
      erase-Leads (some p) s' h =
          let ((it, l), run, rest) = bind_some (erase (some p) s.list) _ s' h in
          arrives (move (record s { list = l }) before t after it)
            (moved l it (erase-SameMutex p s.list it l run)) s' rest

      acquire-Leads :
          (m : Option ℕ) → s.list.write_mutex ≡ m → Leads (some (step_acquire s before t after m))
      acquire-Leads (some h) f = arrives s e
      acquire-Leads none f =
          let free : writers s.threads ≡ 0 = subst (λ q. Exclusive q (writers s.threads)) f e in
          arrives (step_acquire s before t after none)
            (omega (arith, free, total, writers-append before (record t { writes = true }) after))

      release-Leads : Leads (some (step_release s before t after))
      release-Leads = elim (Bool_cases t.writes) [
        | inl w ↦ rw w (
            arrives
              (record {
                list = record s.list { write_mutex = none };
                threads = before ++ record t { writes = false } ∷ after;
              })
              (omega (arith, alone w, writers-append before (record t { writes = false }) after)))
        | inr w ↦ rw w (arrives s e)
      ]

      leave-Leads : Leads (step_leave s before t after)
      unfolding rcu_write_unlock
      leave-Leads s' h = elim (Bool_cases t.writes) [
        | inl w ↦
            let (l, run, rest) = bind_some (rcu_write_unlock t.zombie s.list) _ s' (rw w at h) in
            arrives (record { list = l; threads = before ++ after })
              (subst (λ q. Exclusive q (writers (before ++ after)))
                (sym (unlock-SameMutex t.zombie (record s.list { write_mutex = none }) l run))
                (omega (arith, alone w, writers-removed before after)))
              s' rest
        | inr w ↦
            let (l, run, rest) = bind_some (unlock t.zombie s.list) _ s' (rw w at h) in
            arrives (record { list = l; threads = before ++ after })
              (stays s (record { list = l; threads = before ++ after })
                (unlock-SameMutex t.zombie s.list l run)
                (omega (arith, total, ap one_if w, writers-removed before after)) e)
              s' rest
      ]

  step-Leads : (a : Action A) (s : System A) → IsSafe s → Excludes s → Leads (step a s)
  unfolding step rcu_read_lock
  step-Leads (Action.read_lock g) s safe e = arrives _ e
  step-Leads (Action.acquire i) s safe e =
      with_thread-Leads i s _ e
        λ before t after at. acquire-Leads s safe e before t after at s.list.write_mutex refl
  step-Leads (Action.release_mutex i) s safe e =
      with_thread-Leads i s _ e λ before t after at. release-Leads s safe e before t after at
  step-Leads (Action.to_begin i) s safe e =
      with_thread-Leads i s _ e
        λ before t after at. arrives _ (moved s safe e before t after at s.list s.list.head refl)
  step-Leads (Action.to_next i) s safe e =
      with_thread-Leads i s _ e
        λ before t after at. next-Leads s safe e before t after at t.position
  step-Leads (Action.append i v) s safe e =
      with_thread-Leads i s _ e
        λ before t after at. as_writer-Leads t s _ e (append-Leads s safe e v)
  step-Leads (Action.prepend i v) s safe e =
      with_thread-Leads i s _ e
        λ before t after at. as_writer-Leads t s _ e (prepend-Leads s safe e v)
  step-Leads (Action.erase_here i) s safe e = with_thread-Leads i s _ e λ before t after at.
      as_writer-Leads t s _ e (erase-Leads s safe e before t after at t.position)
  step-Leads (Action.leave i) s safe e =
      with_thread-Leads i s _ e λ before t after at. leave-Leads s safe e before t after at

  run-Leads : (acts : List (Action A)) (s : System A) → IsSafe s → Excludes s → Leads (run acts s)
  unfolding run
  run-Leads [] s safe e s' h = arrives s e s' h
  run-Leads (a ∷ acts) s safe e s' h =
      let (s₁, run₁, safe₁) = step-Safely a s safe in
      run-Leads acts s₁ safe₁ (step-Leads a s safe e s₁ run₁) s' (rw run₁ at h)

  -- Every schedule of steps, from an empty list that no thread uses, ends in a state in which no
  -- thread writes if the mutex is free, and exactly one does if it is held.
  pub run-idle-Excludes :
      (acts : List (Action A)) → (s : System A) × (run acts idle ≡ some s) × Excludes s
  run-idle-Excludes acts =
      let (s, h, safe) = run-idle-Safely acts in (s, h, run-Leads acts idle idle-IsSafe refl s h)
