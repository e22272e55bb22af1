-- ===== src/RcuList.antt =====
-- cs_rcu_list.h: the doubly linked list behind `SharedList`, over an explicit heap of nodes.
pub mod Chain
pub mod Push
pub mod Halves
pub mod Erase
pub mod Emplace
pub mod Bound
pub mod Stale
pub mod Iterator
pub mod Guard
pub mod Schedule
pub mod Destructor
use cs_signal.Prelude.{
  ℕ, ◌+◌, Bool, true, false, Option, none, some, List, [], ◌∷◌, ◌==◌, if◌then◌else◌, ◌>>=◌,
}

-- A pointer; `none` is `nullptr`.
abbrev pub Ptr : Type 0
Ptr = Option ℕ

pub record Node {ℓ} (A : Type ℓ) : Type ℓ where
  pub next : Ptr
  pub back : Ptr
  pub deleted : Bool
  pub item : A

-- An entry of the zombie list: a guard that is or was active, or a node that waits to be freed.
pub record ZombieListNode : Type 0 where
  pub addr : ℕ
  pub owner : Option ℕ
  pub zombie_node : Ptr

-- `zombies` is the chain from `m_zombie_head`, newest first. `write_mutex` is the guard that holds
-- `m_write_mutex`, if one does. `fresh` is the next address that the
-- allocator returns: every address from there on is unused.
pub record RcuList {ℓ} (A : Type ℓ) : Type ℓ where
  pub head : Ptr
  pub tail : Ptr
  pub nodes : ℕ → Option (Node A)
  pub zombies : List ZombieListNode
  pub write_mutex : Option ℕ
  pub fresh : ℕ

-- The zombie entry that `erase` pushes in front of the zombie list.
abbrev pub dead_entry : ℕ → ℕ → ZombieListNode
dead_entry z p = record { addr = z; owner = none; zombie_node = some p }

abbrev pub ptr_eq : Ptr → Ptr → Bool
ptr_eq none none = true
ptr_eq none (some b) = false
ptr_eq (some a) none = false
ptr_eq (some a) (some b) = a == b

module _ {ℓ} {A : Type ℓ} where
  unfoldable pub update : (ℕ → Option (Node A)) → ℕ → Option (Node A) → ℕ → Option (Node A)
  update h p c a = if a == p then c else h a

  abbrev pub write : ℕ → Node A → RcuList A → RcuList A
  write p n l = record l { nodes = update l.nodes p (some n) }

  -- The node that a pointer stands for: a fault at `nullptr` and at an address that holds none.
  abbrev pub load : Ptr → RcuList A → Option (Node A)
  load none l = none
  load (some p) l = l.nodes p

  abbrev pub store_next : Ptr → Ptr → RcuList A → Option (RcuList A)
  store_next none q l = none
  store_next (some p) q l = do n ← l.nodes p; some (write p (record n { next = q }) l)

  abbrev pub store_back : Ptr → Ptr → RcuList A → Option (RcuList A)
  store_back none q l = none
  store_back (some p) q l = do n ← l.nodes p; some (write p (record n { back = q }) l)

  abbrev pub empty : RcuList A
  empty = record {
    head = none;
    tail = none;
    nodes = λ _. none;
    zombies = [];
    write_mutex = none;
    fresh = 0;
  }

  abbrev pub new_node : A → Node A
  new_node v = record { next = none; back = none; deleted = false; item = v }

  -- `allocate_unique`: the new node has the address `l.fresh`.
  abbrev pub allocate : A → RcuList A → RcuList A
  allocate v l = record (write l.fresh (new_node v) l) { fresh = l.fresh + 1 }

  abbrev pub set_ends : Ptr → Ptr → RcuList A → RcuList A
  set_ends p q l = record l { head = p; tail = q }

  -- `push_back` and `emplace_back`
  pub push_back : A → RcuList A → Option (RcuList A)
  push_back v l = elim l.tail [
    | none ↦ some (set_ends (some l.fresh) (some l.fresh) (allocate v l))
    | some t ↦ do
      l' ← store_back (some l.fresh) (some t) (allocate v l)
      l'' ← store_next (some t) (some l.fresh) l'
      some (record l'' { tail = some l.fresh })
  ]

  -- `push_front` and `emplace_front`
  pub push_front : A → RcuList A → Option (RcuList A)
  push_front v l = elim l.head [
    | none ↦ some (set_ends (some l.fresh) (some l.fresh) (allocate v l))
    | some h ↦ do
      l' ← store_next (some l.fresh) (some h) (allocate v l)
      l'' ← store_back (some h) (some l.fresh) l'
      some (record l'' { head = some l.fresh })
  ]

  abbrev pub link_prev : Ptr → Ptr → RcuList A → Option (RcuList A)
  link_prev none q l = some (record l { head = q })
  link_prev (some p) q l = store_next (some p) q l

  abbrev pub link_next : Ptr → Ptr → RcuList A → Option (RcuList A)
  link_next none q l = some (record l { tail = q })
  link_next (some p) q l = store_back (some p) q l

  abbrev pub bury : ℕ → RcuList A → RcuList A
  bury p l = record l { zombies = dead_entry l.fresh p ∷ l.zombies; fresh = l.fresh + 1 }

  -- `erase`: the iterator behind the erased node, and the list.
  abbrev pub erase_node : ℕ → Node A → RcuList A → Option (Ptr × RcuList A)
  erase_node p n l = if n.deleted then some (n.next, l) else do
    l' ← link_prev n.back n.next (write p (record n { deleted = true }) l)
    l'' ← link_next n.next n.back l'
    some (n.next, bury p l'')

  pub erase : Ptr → RcuList A → Option (Ptr × RcuList A)
  erase none l = none
  erase (some p) l = do n ← l.nodes p; erase_node p n l

  abbrev pub emplace_empty : A → RcuList A → Option (RcuList A)
  emplace_empty v l = some (set_ends (some l.fresh) (some l.fresh) (allocate v l))

  abbrev pub emplace_head : A → Ptr → RcuList A → Option (RcuList A)
  emplace_head v old_head l = do
    l₁ ← store_next (some l.fresh) old_head (allocate v l)
    l₂ ← store_back old_head (some l.fresh) l₁
    some (record l₂ { head = some l.fresh })

  abbrev pub emplace_tail : A → Ptr → RcuList A → Option (RcuList A)
  emplace_tail v old_tail l = do
    l₁ ← store_back (some l.fresh) old_tail (allocate v l)
    l₂ ← store_next old_tail (some l.fresh) l₁
    some (record l₂ { tail = some l.fresh })

  abbrev pub relink_back : Ptr → Ptr → RcuList A → Option (RcuList A)
  relink_back none q l = some l
  relink_back (some p) q l = store_next (some p) q l

  abbrev pub emplace_middle : A → Ptr → RcuList A → Option (RcuList A)
  emplace_middle v iter l = do
    current ← load iter (allocate v l)
    l₁ ← store_next (some l.fresh) iter (allocate v l)
    l₂ ← store_back (some l.fresh) current.back l₁
    l₃ ← store_back iter (some l.fresh) l₂
    relink_back current.back (some l.fresh) l₃

  abbrev pub emplace_node : Ptr → A → RcuList A → Option (RcuList A)
  emplace_node iter v l =
      if ptr_eq l.head none
      then emplace_empty v l
      else if ptr_eq l.head iter
      then emplace_head v l.head l
      else if ptr_eq l.tail iter
      then emplace_tail v l.tail l
      else emplace_middle v iter l

  -- `emplace`: the iterator at the new node, and the list.
  pub emplace : Ptr → A → RcuList A → Option (Ptr × RcuList A)
  emplace iter v l = do l' ← emplace_node iter v l; some (some l.fresh, l')
