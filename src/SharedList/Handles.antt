-- ===== src/SharedList/Handles.antt =====
-- A list at rest and a list under a handle, and the locks that lead from one to the other.
use cs_signal.Prelude.{ℕ, ◌≡◌, refl, subst, ◌∙◌, Option, none, some, List, [], ◌∷◌, ◌++◌}
use cs_signal.RcuList.{RcuList, ZombieListNode, empty}
use cs_signal.RcuList.Chain.{Cells, values}
use cs_signal.RcuList.Guard.{guard_entry, rcu_read_lock, rcu_write_lock, rcu_write_unlock, unlock}
use cs_signal.RcuList.Guard.Sound.{IsSound}
use cs_signal.RcuList.Guard.Modify.{rcu_read_lock-IsSound, set_mutex-IsSound}
use cs_signal.RcuList.Guard.Unlock.{unlock-Unlocked}

module _ {ℓ} {A : Type ℓ} where
  -- The list is in order, holds the items `vs`, and no writer has it.
  pub record Holds (l : RcuList A) (vs : List A) : Type ℓ where
    pub cells : Cells A
    pub sound : IsSound l cells
    pub values_eq : values cells ≡ vs
    pub idle : l.write_mutex ≡ none

  -- The same under a handle whose guard has the zombie entry at `z`; `m` is who has the mutex.
  pub record Locked (l : RcuList A) (z : ℕ) (m : Option ℕ) (vs : List A) : Type ℓ where
    pub cells : Cells A
    pub sound : IsSound l cells
    pub values_eq : values cells ≡ vs
    pub mutex_eq : l.write_mutex ≡ m
    pub newer : List ZombieListNode
    pub entry : ZombieListNode
    pub older : List ZombieListNode
    pub zombies_eq : l.zombies ≡ newer ++ entry ∷ older
    pub addr_eq : entry.addr ≡ z

  pub empty-Holds : Holds (empty {A = A}) []
  empty-Holds = record {
    cells = [];
    sound = record {
      repr = record { head_eq = refl; tail_eq = refl; chain = tt; distinct = tt; below = tt };
      dead = tt;
      falling = tt;
    };
    values_eq = refl;
    idle = refl;
  }

  module _ (g : ℕ) (l : RcuList A) (vs : List A) (h : Holds l vs) where
    pub lock_read : Locked (rcu_read_lock g l).1 (rcu_read_lock g l).0 none vs
    unfolding rcu_read_lock
    lock_read = record {
      cells = h.cells;
      sound = rcu_read_lock-IsSound g l h.cells h.sound;
      values_eq = h.values_eq;
      mutex_eq = h.idle;
      newer = [];
      entry = guard_entry l.fresh g;
      older = l.zombies;
      zombies_eq = refl;
      addr_eq = refl;
    }

    pub lock_write :
        (z : ℕ) × (l' : RcuList A) × (rcu_write_lock g l ≡ some (z, l')) × Locked l' z (some g) vs
    unfolding rcu_read_lock rcu_write_lock
    lock_write = (
      l.fresh,
      record (rcu_read_lock g l).1 { write_mutex = some g },
      rw (h.idle, rcu_write_lock),
      record {
        cells = h.cells;
        sound = set_mutex-IsSound _ h.cells (some g) (rcu_read_lock-IsSound g l h.cells h.sound);
        values_eq = h.values_eq;
        mutex_eq = refl;
        newer = [];
        entry = guard_entry l.fresh g;
        older = l.zombies;
        zombies_eq = refl;
        addr_eq = refl;
      },
    )

  unlock-Holds :
      (l : RcuList A) (z : ℕ) (vs : List A)
      → Locked l z none vs
      → (l' : RcuList A) × (unlock z l ≡ some l') × Holds l' vs
  unlock-Holds l z vs k =
      let (l', run, sound, u) =
        unlock-Unlocked l k.cells k.newer k.entry k.older k.sound k.zombies_eq in
      (
        l',
        subst (λ a. unlock a l ≡ some l') k.addr_eq run,
        record {
          cells = k.cells;
          sound = sound;
          values_eq = k.values_eq;
          idle = u.mutex_eq ∙ k.mutex_eq;
        },
      )

  module _ (l : RcuList A) (z : ℕ) (vs : List A) where
    pub unlock_read : Locked l z none vs → (l' : RcuList A) × (unlock z l ≡ some l') × Holds l' vs
    unlock_read k = unlock-Holds l z vs k

    pub unlock_write :
        (m : Option ℕ)
        → Locked l z m vs
        → (l' : RcuList A) × (rcu_write_unlock z l ≡ some l') × Holds l' vs
    unfolding rcu_write_unlock
    unlock_write m k =
        unlock-Holds (record l { write_mutex = none }) z vs
          (record {
            cells = k.cells;
            sound = set_mutex-IsSound l k.cells none k.sound;
            values_eq = k.values_eq;
            mutex_eq = refl;
            newer = k.newer;
            entry = k.entry;
            older = k.older;
            zombies_eq = k.zombies_eq;
            addr_eq = k.addr_eq;
          })
