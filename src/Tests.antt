-- ===== src/Tests.antt =====
-- Small lists, with and without dead nodes, on which the theorems are tried.
pub mod RcuLists
pub mod Bentos
pub mod Guards
pub mod Histories
pub mod Networks
pub mod Programs
pub mod Activations
pub mod Arguments
use cs_signal.Prelude.{
  ℕ, zero, suc, ◌≡◌, refl, true, false, Option, none, some, List, [], ◌∷◌, arith,
}
use cs_signal.RcuList.{Node, RcuList, dead_entry}
use cs_signal.RcuList.Chain.{Cells, Repr, live_node}
use cs_signal.RcuList.Erase.{dead_node}
use cs_signal.RcuList.Guard.{guard_entry, release}
use cs_signal.RcuList.Guard.Sound.{IsSound}
use cs_signal.SharedList.{Holds}

abbrev two_nodes : ℕ → Option (Node ℕ)
two_nodes zero = some (live_node (some 1) none 7)
two_nodes (suc zero) = some (live_node none (some 0) 9)
two_nodes (suc (suc a)) = none

abbrev pub two_items : RcuList ℕ
two_items = record {
  head = some 0;
  tail = some 1;
  nodes = two_nodes;
  zombies = [];
  write_mutex = none;
  fresh = 2;
}

abbrev pub two_cells : Cells ℕ
two_cells = (0, 7) ∷ (1, 9) ∷ []

pub two_items-Repr : Repr two_items two_cells
two_items-Repr = record {
  head_eq = refl;
  tail_eq = refl;
  chain = (refl, (refl, tt));
  distinct = (refl, (refl, tt));
  below = (omega arith, (omega arith, tt));
}

pub two_items-IsSound : IsSound two_items two_cells
two_items-IsSound = record { repr = two_items-Repr; dead = tt; falling = tt }

abbrev one_node {ℓ} : {A : Type ℓ} → A → ℕ → Option (Node A)
one_node v zero = some (live_node none none v)
one_node v (suc a) = none

abbrev pub one_item {ℓ} : {A : Type ℓ} → A → RcuList A
one_item v = record {
  head = some 0;
  tail = some 0;
  nodes = one_node v;
  zombies = [];
  write_mutex = none;
  fresh = 1;
}

pub one_item-IsSound {ℓ} : {A : Type ℓ} (v : A) → IsSound (one_item v) ((0, v) ∷ [])
one_item-IsSound v = record {
  repr = record {
    head_eq = refl;
    tail_eq = refl;
    chain = (refl, tt);
    distinct = (refl, tt);
    below = (omega arith, tt);
  };
  dead = tt;
  falling = tt;
}

pub one_item-Holds {ℓ} : {A : Type ℓ} (v : A) → Holds (one_item v) (v ∷ [])
one_item-Holds v = record {
  cells = (0, v) ∷ [];
  sound = one_item-IsSound v;
  values_eq = refl;
  idle = refl;
}

-- A list of one item, and a node that was erased from it while the guard 5 was active: that guard has
-- left, and the guard 6 is active since.
abbrev haunted_nodes : ℕ → Option (Node ℕ)
haunted_nodes zero = some (live_node none none 7)
haunted_nodes (suc zero) = some (dead_node none (some 0) 9)
haunted_nodes (suc (suc a)) = none

abbrev pub haunted : RcuList ℕ
haunted = record {
  head = some 0;
  tail = some 0;
  nodes = haunted_nodes;
  zombies = guard_entry 4 6 ∷ dead_entry 3 1 ∷ release (guard_entry 2 5) ∷ [];
  write_mutex = none;
  fresh = 5;
}

pub haunted-IsSound : IsSound haunted ((0, 7) ∷ [])
haunted-IsSound = record {
  repr = record {
    head_eq = refl;
    tail_eq = refl;
    chain = (refl, tt);
    distinct = (refl, tt);
    below = (omega arith, tt);
  };
  dead = (tt, ((dead_node none (some 0) 9, refl, refl, omega arith, refl, refl, tt), (tt, tt)));
  falling = (omega arith, (omega arith, (omega arith, tt)));
}
