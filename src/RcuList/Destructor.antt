-- ===== src/RcuList/Destructor.antt =====
-- `~rcu_list` of cs_rcu_list.h.
pub mod Nodes
pub mod Entries
pub mod Leftovers
use cs_signal.Prelude.{ℕ, zero, suc, Option, none, some, List, [], ◌∷◌, if◌then◌else◌, ◌>>=◌}
use cs_signal.RcuList.{Ptr, RcuList, ZombieListNode, load}
use cs_signal.RcuList.Guard.{is_free, free_node}

module _ {ℓ} {A : Type ℓ} where
  -- The first loop: the nodes of the list, from `n` on.
  unfoldable pub free_list : ℕ → Ptr → RcuList A → Option (RcuList A)
  free_list zero n l = none
  free_list (suc fuel) none l = some l
  free_list (suc fuel) (some p) l = do
    current ← load (some p) l
    l' ← free_node (some p) l
    free_list fuel current.next l'

  -- The second loop: the zombie entries and their nodes, up to the first entry with an owner.
  unfoldable pub free_zombies : List ZombieListNode → RcuList A → Option (RcuList A)
  free_zombies [] l = some (record l { zombies = [] })
  free_zombies (e ∷ es) l =
      if is_free e.owner
      then (do l' ← free_node e.zombie_node l; free_zombies es l')
      else some (record l { zombies = e ∷ es })

  -- What is left of a list: its members are gone, so that there are no ends any more, but the nodes
  -- and the entries that were not freed are still allocated.
  unfoldable pub destroy_list : RcuList A → Option (RcuList A)
  unfolding free_list free_zombies
  destroy_list l = do
    l₁ ← free_list (suc l.fresh) l.head l
    l₂ ← free_zombies l.zombies l₁
    some (record l₂ { head = none; tail = none })
