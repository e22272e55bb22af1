-- ===== src/Tests/RcuLists.antt =====
-- The theorems on cs_rcu_list.h at small lists.
use cs_signal.Prelude.{
  ◌>>=◌, ℕ, ◌≡◌, refl, true, false, ◌==◌, ◌⊎◌, ◌||◌, suc, Option, none, some, List, [], ◌∷◌, arith,
}
use cs_signal.RcuList.{RcuList, push_back, push_front, erase, emplace}
use cs_signal.RcuList.Chain.{Cells, Repr, has}
use cs_signal.RcuList.Push.{Pushes, push_back-append, push_front-cons}
use cs_signal.RcuList.Erase.{ErasedTo, erase-cell}
use cs_signal.RcuList.Stale.{erase-erase-increment}
use cs_signal.RcuList.Emplace.{emplace-emplaced, emplace_null}
use cs_signal.RcuList.Iterator.{
  increment, dereference, Flow, next, leave, for_range, each, for_range-each, erase_matching,
  erase_found,
}
use cs_signal.RcuList.Iterator.EraseLoop.{Erases, erase_matching-Erases}
use cs_signal.RcuList.Iterator.Find.{without_first, erase_found_cases}
use cs_signal.RcuList.Guard.{guard_entry, release, unlock}
use cs_signal.RcuList.Guard.Sound.{IsSound}
use cs_signal.RcuList.Guard.Unlock.{Unlocked, unlock-Unlocked}
use cs_signal.RcuList.Erase.{dead_node}
use cs_signal.RcuList.Guard.Reclaimed.{erasing_handle, reading_handle, erase-freed}
use cs_signal.RcuList.Guard.Zombies.{mem, dead_nodes}
use cs_signal.RcuList.Destructor.{destroy_list}
use cs_signal.RcuList.Destructor.Leftovers.{Leftovers, destroy_list-Leftovers, destroy_list-unlock}
use cs_signal.RcuList.Schedule.{System, Action, run, idle}
use cs_signal.RcuList.Schedule.Threads.{Safely}
use cs_signal.RcuList.Schedule.Safety.{run-idle-Safely}
use cs_signal.RcuList.Schedule.Exclusion.{Excludes, run-idle-Excludes}
use cs_signal.RcuList.{dead_entry}
use cs_signal.Tests.{
  two_items, two_cells, two_items-Repr, two_items-IsSound, haunted, haunted-IsSound,
}

-- A writer appends two items; a reader comes to the first one, which the writer then erases. Both
-- leave, the writer first, and a second reader frees the node.
abbrev schedule : List (Action ℕ)
schedule =
    Action.read_lock 1
    ∷ Action.acquire 0
    ∷ Action.append 0 7
    ∷ Action.append 0 9
    ∷ Action.read_lock 2
    ∷ Action.to_begin 0
    ∷ Action.to_begin 1
    ∷ Action.erase_here 1
    ∷ Action.release_mutex 1
    ∷ Action.leave 1
    ∷ Action.to_next 0
    ∷ Action.leave 0
    ∷ Action.read_lock 3
    ∷ Action.leave 0
    ∷ []

run-idle-Safely_example : Safely (run schedule idle)
run-idle-Safely_example = run-idle-Safely schedule

run-idle-Excludes_example : (s : System ℕ) × (run schedule idle ≡ some s) × Excludes s
run-idle-Excludes_example = run-idle-Excludes schedule

unlock-Unlocked_example :
    (l' : RcuList ℕ) × (unlock 4 haunted ≡ some l')
    × IsSound l' ((0, 7) ∷ [])
    × Unlocked haunted [] (guard_entry 4 6) (dead_entry 3 1 ∷ release (guard_entry 2 5) ∷ []) l'
unlock-Unlocked_example =
    unlock-Unlocked haunted ((0, 7) ∷ []) [] (guard_entry 4 6)
      (dead_entry 3 1 ∷ release (guard_entry 2 5) ∷ []) haunted-IsSound refl

-- The same list when no guard is active.
abbrev waiting : RcuList ℕ
waiting = record haunted { zombies = dead_entry 3 1 ∷ release (guard_entry 2 5) ∷ [] }

waiting-IsSound : IsSound waiting ((0, 7) ∷ [])
waiting-IsSound = record {
  repr = record {
    head_eq = refl;
    tail_eq = refl;
    chain = (refl, tt);
    distinct = (refl, tt);
    below = (omega arith, tt);
  };
  dead = ((dead_node none (some 0) 9, refl, refl, omega arith, refl, refl, tt), (tt, tt));
  falling = (omega arith, (omega arith, tt));
}

erase-freed_example :
    (l' : RcuList ℕ) × ((erasing_handle 6 0 waiting >>= reading_handle 7) ≡ some l')
    × IsSound l' []
    × (l'.nodes 0 ≡ none)
    × ((a : ℕ) → mem a (1 ∷ []) ≡ true → l'.nodes a ≡ none)
    × (l'.write_mutex ≡ none)
    × ((z : ℕ) × (l'.zombies ≡ release (guard_entry z 7) ∷ []))
erase-freed_example = erase-freed waiting [] (0, 7) [] 6 7 waiting-IsSound refl refl

erase-cell_example :
    (l' : RcuList ℕ) × (erase (some 1) two_items ≡ some (none, l'))
    × ErasedTo two_items ((0, 7) ∷ []) (1, 9) [] l'
erase-cell_example = erase-cell two_items ((0, 7) ∷ []) (1, 9) [] two_items-Repr

erase-erase-increment_example :
    (l : RcuList ℕ) × ((do (it, l₁) ← erase (some 0) two_items; erase it l₁) ≡ some (none, l))
    × Repr l []
    × (increment (some 0) l ≡ some (some 1))
    × (dereference (some 1) l ≡ some 9)
erase-erase-increment_example = erase-erase-increment two_items [] (0, 7) (1, 9) [] two_items-Repr

push_back-append_example :
    Pushes 5 two_items (push_back 5 two_items) ((0, 7) ∷ (1, 9) ∷ (2, 5) ∷ [])
push_back-append_example = push_back-append 5 two_items two_cells two_items-Repr

push_front-cons_example :
    Pushes 5 two_items (push_front 5 two_items) ((2, 5) ∷ (0, 7) ∷ (1, 9) ∷ [])
push_front-cons_example = push_front-cons 5 two_items two_cells two_items-Repr

emplace-emplaced_example :
    (l' : RcuList ℕ) × (emplace (some 1) 5 two_items ≡ some (some 2, l'))
    × Repr l' ((0, 7) ∷ (1, 9) ∷ (2, 5) ∷ [])
emplace-emplaced_example = emplace-emplaced 5 two_items ((0, 7) ∷ []) (1, 9) [] two_items-Repr

emplace_null_example : emplace none 5 two_items ≡ none
emplace_null_example = emplace_null 5 two_items 0 1 refl refl

-- Counts the items up to the first 9.
abbrev count_until_nine : ℕ → ℕ → Option (Flow ℕ)
count_until_nine v n = elim (v == 9) [ true ↦ some (leave n) | false ↦ some (next (suc n)) ]

for_range-each_example :
    for_range count_until_nine two_items 0 ≡ each count_until_nine (7 ∷ 9 ∷ []) 0
for_range-each_example = for_range-each count_until_nine two_items two_cells 0 two_items-Repr

erase_matching-Erases_example :
    Erases (λ v. v == 9) two_items (erase_matching (λ v. v == 9) two_items) ((0, 7) ∷ [])
erase_matching-Erases_example =
    erase_matching-Erases (λ v. v == 9) two_items two_cells two_items-IsSound

erase_found_cases_example :
    ((without_first (λ v. v == 9) two_cells ≡ none) × (erase_found (λ v. v == 9) two_items ≡ none))
    ⊎ ((rest : Cells ℕ) × (without_first (λ v. v == 9) two_cells ≡ some rest)
        × Erases (λ v. v == 9) two_items (erase_found (λ v. v == 9) two_items) rest)
erase_found_cases_example = erase_found_cases (λ v. v == 9) two_items two_cells two_items-IsSound

destroy_list-Leftovers_example :
    (l' : RcuList ℕ) × (destroy_list haunted ≡ some l') × Leftovers haunted ((0, 7) ∷ []) l'
destroy_list-Leftovers_example = destroy_list-Leftovers haunted ((0, 7) ∷ []) haunted-IsSound

destroy_list-unlock_example :
    (l' : RcuList ℕ) × (l'' : RcuList ℕ) × (destroy_list haunted ≡ some l')
    × (unlock 4 l' ≡ some l'')
    × ((a : ℕ)
        → (has {A = ℕ} a ((0, 7) ∷ [])
            || mem a
                (dead_nodes (guard_entry 4 6 ∷ dead_entry 3 1 ∷ release (guard_entry 2 5) ∷ [])))
          ≡ true
        → l''.nodes a ≡ none)
destroy_list-unlock_example =
    destroy_list-unlock haunted ((0, 7) ∷ []) [] (guard_entry 4 6)
      (dead_entry 3 1 ∷ release (guard_entry 2 5) ∷ []) 6 haunted-IsSound refl refl refl refl refl
