-- ===== src/RcuList/Schedule/Safety.antt =====
-- Whether a step can read, write or free what is not there.
use cs_signal.Prelude.{refl, List, [], ◌∷◌}
use cs_signal.RcuList.Schedule.{System, Action, step, run, idle}
use cs_signal.RcuList.Schedule.Threads.{IsSafe, Safely, with_thread_rule, as_writer_rule}
use cs_signal.RcuList.Schedule.Steps.{
  begin-Safely, next-Safely, erase-Safely, acquire-Safely, release-Safely, leave-Safely,
  append-Safely, prepend-Safely, read_lock-IsSafe,
}

module _ {ℓ} {A : Type ℓ} where
  -- One step of any thread is safe.
  pub step-Safely : (a : Action A) (s : System A) → IsSafe s → Safely (step a s)
  unfolding step
  step-Safely (Action.read_lock g) s safe = (_, refl, read_lock-IsSafe s safe g)
  step-Safely (Action.acquire i) s safe =
      with_thread_rule i s _ safe
        λ before t after at. acquire-Safely s safe before t after at s.list.write_mutex
  step-Safely (Action.release_mutex i) s safe =
      with_thread_rule i s _ safe λ before t after at. release-Safely s safe before t after at
  step-Safely (Action.to_begin i) s safe =
      with_thread_rule i s _ safe λ before t after at. begin-Safely s safe before t after at
  step-Safely (Action.to_next i) s safe =
      with_thread_rule i s _ safe
        λ before t after at. next-Safely s safe before t after at t.position refl
  step-Safely (Action.append i v) s safe =
      with_thread_rule i s _ safe
        λ before t after at. as_writer_rule t s _ safe (append-Safely s safe v)
  step-Safely (Action.prepend i v) s safe =
      with_thread_rule i s _ safe
        λ before t after at. as_writer_rule t s _ safe (prepend-Safely s safe v)
  step-Safely (Action.erase_here i) s safe = with_thread_rule i s _ safe λ before t after at.
      as_writer_rule t s _ safe (erase-Safely s safe before t after at t.position refl)
  step-Safely (Action.leave i) s safe =
      with_thread_rule i s _ safe λ before t after at. leave-Safely s safe before t after at

  pub idle-IsSafe : IsSafe {A = A} idle
  idle-IsSafe = record {
    cells = [];
    sound = record {
      repr = record { head_eq = refl; tail_eq = refl; chain = tt; distinct = tt; below = tt };
      dead = tt;
      falling = tt;
    };
    guarded = tt;
  }

  run-Safely : (acts : List (Action A)) (s : System A) → IsSafe s → Safely (run acts s)
  unfolding run
  run-Safely [] s safe = (s, refl, safe)
  run-Safely (a ∷ acts) s safe =
      let (s₁, run₁, safe₁) = step-Safely a s safe in
      let (s₂, run₂, safe₂) = run-Safely acts s₁ safe₁ in (s₂, rw run₁ run₂, safe₂)

  -- Every schedule of steps of any threads, from an empty list that no thread uses, runs to its end
  -- without a fault. The list is in order afterwards, and the position of every active iterator is
  -- a node that is not freed before its thread leaves.
  pub run-idle-Safely : (acts : List (Action A)) → Safely (run acts idle)
  run-idle-Safely acts = run-Safely acts idle idle-IsSafe
