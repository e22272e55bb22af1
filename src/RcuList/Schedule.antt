-- ===== src/RcuList/Schedule.antt =====
-- Threads that read and write one list under its guards, as interleavings of their steps. A writer has
-- the mutex, and a reader that goes forward can see one store of `push_back`, `push_front` and `erase`
-- alone, so that an operation is one step.
pub mod Entries
pub mod Threads
pub mod Steps
pub mod Safety
pub mod Exclusion
use cs_signal.Prelude.{
  ℕ, zero, suc, Bool, true, false, Option, none, some, List, [], ◌∷◌, ◌++◌, ◌==◌, if◌then◌else◌,
  ◌>>=◌,
}
use cs_signal.RcuList.{Ptr, RcuList, Node, empty, load, push_back, push_front, erase}
use cs_signal.RcuList.Iterator.{begin, increment}
use cs_signal.RcuList.Guard.{rcu_read_lock, rcu_write_unlock, unlock}

-- A thread between its lock and its unlock: its guard, the guard's `m_zombie`, and its iterator.
pub record Thread : Type 0 where
  pub guard : ℕ
  pub zombie : ℕ
  pub writes : Bool
  pub position : Ptr

pub record System {ℓ} (A : Type ℓ) : Type ℓ where
  pub list : RcuList A
  pub threads : List Thread

-- One step. The number of a thread is its place among those that are active.
pub data Action {ℓ} (A : Type ℓ) : Type ℓ where
  read_lock : (guard : ℕ) → Action A
  acquire release_mutex : (thread : ℕ) → Action A
  to_begin to_next : (thread : ℕ) → Action A
  append prepend : (thread : ℕ) → A → Action A
  erase_here : (thread : ℕ) → Action A
  leave : (thread : ℕ) → Action A

abbrev pub thread_at : ℕ → List Thread → Option (List Thread × Thread × List Thread)
thread_at i [] = none
thread_at zero (t ∷ ts) = some ([], t, ts)
thread_at (suc i) (t ∷ ts) = do (before, r, after) ← thread_at i ts; some (t ∷ before, r, after)

abbrev pub new_thread : ℕ → ℕ → Thread
new_thread g z = record { guard = g; zombie = z; writes = false; position = none }

module _ {ℓ} {A : Type ℓ} where
  abbrev pub move : System A → List Thread → Thread → List Thread → Ptr → System A
  move s before t after p = record s { threads = before ++ record t { position = p } ∷ after }

  abbrev pub step_lock : ℕ → System A → System A
  step_lock g s =
      let (z, l) = rcu_read_lock g s.list in
      record { list = l; threads = new_thread g z ∷ s.threads }

  -- `m_write_mutex.lock()`: a guard that wants a mutex which is held waits, and nothing happens.
  abbrev pub step_acquire : System A → List Thread → Thread → List Thread → Option ℕ → System A
  step_acquire s before t after (some holder) = s
  step_acquire s before t after none = record {
    list = record s.list { write_mutex = some t.guard };
    threads = before ++ record t { writes = true } ∷ after;
  }

  -- `m_write_mutex.unlock()`, by the guard that has the mutex.
  abbrev pub step_release : System A → List Thread → Thread → List Thread → System A
  step_release s before t after =
      if t.writes
      then record {
        list = record s.list { write_mutex = none };
        threads = before ++ record t { writes = false } ∷ after;
      }
      else s

  -- `++it`, if `it != end()`
  abbrev pub step_next : System A → List Thread → Thread → List Thread → Ptr → Option (System A)
  step_next s before t after none = some s
  step_next s before t after (some p) = do
    it ← increment (some p) s.list
    some (move s before t after it)

  -- `it = list.erase(it)`, if `it != end()`
  abbrev pub step_erase : System A → List Thread → Thread → List Thread → Ptr → Option (System A)
  step_erase s before t after none = some s
  step_erase s before t after (some p) = do
    (it, l) ← erase (some p) s.list
    some (move (record s { list = l }) before t after it)

  abbrev pub step_leave : System A → List Thread → Thread → List Thread → Option (System A)
  step_leave s before t after = do
    l ← (if t.writes then rcu_write_unlock t.zombie s.list else unlock t.zombie s.list)
    some (record { list = l; threads = before ++ after })

  abbrev pub as_writer : Thread → System A → Option (System A) → Option (System A)
  as_writer t s r = if t.writes then r else some s

  abbrev pub with_thread :
      ℕ → System A → (List Thread → Thread → List Thread → Option (System A)) → Option (System A)
  with_thread i s f = elim (thread_at i s.threads) [
    | none ↦ some s
    | some (before, t, after) ↦ f before t after
  ]

  pub step : Action A → System A → Option (System A)
  step (read_lock g) s = some (step_lock g s)
  step (acquire i) s =
      with_thread i s λ before t after. some (step_acquire s before t after s.list.write_mutex)
  step (release_mutex i) s = with_thread i s λ before t after. some (step_release s before t after)
  step (to_begin i) s =
      with_thread i s λ before t after. some (move s before t after (begin s.list))
  step (to_next i) s = with_thread i s λ before t after. step_next s before t after t.position
  step (append i v) s =
      with_thread i s
        λ before t after. as_writer t s (do l ← push_back v s.list; some (record s { list = l }))
  step (prepend i v) s =
      with_thread i s
        λ before t after. as_writer t s (do l ← push_front v s.list; some (record s { list = l }))
  step (erase_here i) s =
      with_thread i s λ before t after. as_writer t s (step_erase s before t after t.position)
  step (leave i) s = with_thread i s λ before t after. step_leave s before t after

  -- A schedule: `none` if a step reads, writes or frees what is not there.
  pub run : List (Action A) → System A → Option (System A)
  run [] s = some s
  run (a ∷ as') s = do s' ← step a s; run as' s'

  abbrev pub idle : System A
  idle = record { list = empty; threads = [] }
