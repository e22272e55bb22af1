-- ===== src/Connections/Disconnect.antt =====
-- `disconnect` and `internal_disconnect` of cs_signal.h.
pub mod Drops
pub mod Loop
pub mod Erased
pub mod Balance
use cs_signal.Prelude.{
  ℕ, zero, suc, ◌+◌, Bool, true, false, Option, none, some, List, [], ◌∷◌, ◌==◌, ◌&&◌,
  if◌then◌else◌, ◌>>=◌,
}
use cs_signal.RcuList.{RcuList, Ptr, ptr_eq, erase}
use cs_signal.RcuList.Guard.{rcu_write_lock, rcu_write_unlock}
use cs_signal.RcuList.Iterator.{begin, dereference, increment, erase_found}
use cs_signal.Bento.{Bento, bento_eq}
use cs_signal.Connections.{ConnectStruct, World, put_list, put_senders}

abbrev pub slot_matches : Option Bento → ConnectStruct → Bool
slot_matches none temp = true
slot_matches (some slot) temp = bento_eq slot temp.slot_method

-- `isMatch`: `none` is a null pointer, which matches everything.
abbrev pub is_match : Option Bento → Ptr → Option Bento → ConnectStruct → Bool
is_match none none slot temp = true
is_match none (some r) slot temp =
    if ptr_eq (some r) temp.receiver then slot_matches slot temp else false
is_match (some signal) (some r) slot temp =
    if ptr_eq (some r) temp.receiver
    then bento_eq signal temp.signal_method && slot_matches slot temp
    else false
is_match (some signal) none slot temp = bento_eq signal temp.signal_method

-- The loop, over the list `l` of the sender `s`, whose write handle is held. A match takes one pointer
-- to the sender out of the receiver's list, which faults if there is none, then the node out of
-- `l`, and then lets the receiver's list go. The loop goes on from the erased node.
pub disconnect_loop :
    (ConnectStruct → Bool)
    → ℕ
    → ℕ
    → ℕ
    → Ptr
    → RcuList ConnectStruct
    → World
    → Bool
    → Option (RcuList ConnectStruct × World × Bool)
disconnect_loop matches g s zero it l w retval = none
disconnect_loop matches g s (suc fuel) none l w retval = some (l, w, retval)
disconnect_loop matches g s (suc fuel) (some p) l w retval = do
  temp ← dereference (some p) l
  elim (matches temp) [
    | false ↦ (do it ← increment (some p) l; disconnect_loop matches g s fuel it l w retval)
    | true ↦ (do
      r ← temp.receiver
      y ← w.slots r
      (z, m₁) ← rcu_write_lock g y.possible_senders
      m₂ ← erase_found (λ t. t == s) m₁
      (_, l') ← erase (some p) l
      m₃ ← rcu_write_unlock z m₂
      it ← increment (some p) l'
      disconnect_loop matches g s fuel it l' (put_senders r m₃ w) true)
  ]

unfoldable pub internal_disconnect :
    ℕ → ℕ → Option Bento → Ptr → Option Bento → World → Option (Bool × World)
unfolding disconnect_loop
internal_disconnect g s signal receiver slot w = do
  x ← w.signals s
  (z, l) ← rcu_write_lock g x.connect_list
  (l', w', retval) ←
      disconnect_loop (is_match signal receiver slot) (g + 1) s (suc l.fresh) (begin l) l w false
  l'' ← rcu_write_unlock z l'
  some (retval, put_list s x l'' w')

-- `disconnect` of a signal method and a slot method, and of a signal method and a function.
unfoldable pub disconnect : ℕ → ℕ → Bento → ℕ → Bento → World → Option (Bool × World)
unfolding internal_disconnect
disconnect g s signal r slot w = internal_disconnect g s (some signal) (some r) (some slot) w
