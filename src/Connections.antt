-- ===== src/Connections.antt =====
-- cs_signal.h, cs_signal.cpp and cs_slot.cpp: the objects that are connected, and the list that each
-- of them keeps. A sender has its connections, a receiver the senders that have one to it.
pub mod Lists
pub mod Connect
pub mod Queries
pub mod Disconnect
pub mod Destroy
pub mod Network
use cs_signal.Prelude.{
  ℕ, ◌+◌, Bool, true, false, Option, none, some, List, [], ◌∷◌, ◌==◌, if◌then◌else◌, ◌>>=◌,
}
use cs_signal.RcuList.{RcuList, push_back}
use cs_signal.RcuList.Guard.{rcu_read_lock, unlock, rcu_write_lock, rcu_write_unlock}
use cs_signal.Bento.{Bento}

pub data ConnectionKind : Type 0 where
  auto_connection : ConnectionKind
  direct_connection : ConnectionKind
  queued_connection : ConnectionKind
  blocking_queued_connection : ConnectionKind

pub record ConnectStruct : Type 0 where
  pub signal_method : Bento
  pub receiver : Option ℕ
  pub slot_method : Bento
  pub kind : ConnectionKind

pub record SignalBase : Type 0 where
  pub activate_busy : ℕ
  pub connect_list : RcuList ConnectStruct

pub record SlotBase : Type 0 where
  pub possible_senders : RcuList ℕ

-- The objects that exist, by their addresses, and the set that `activate` looks destroyed senders up in.
pub record World : Type 0 where
  pub signals : ℕ → Option SignalBase
  pub slots : ℕ → Option SlotBase
  pub being_destroyed : List ℕ

unfoldable pub assign {ℓ} : {A : Type ℓ} → (ℕ → A) → ℕ → A → ℕ → A
assign f p v a = if a == p then v else f a

-- The world with other lists in a sender and in a receiver.
abbrev pub put_list : ℕ → SignalBase → RcuList ConnectStruct → World → World
put_list s x l w = record w { signals = assign w.signals s (some (record x { connect_list = l })) }

abbrev pub put_senders : ℕ → RcuList ℕ → World → World
put_senders r l w = record w { slots = assign w.slots r (some (record { possible_senders = l })) }

-- The change of a list under a write handle whose guard is `g`.
unfoldable pub under_write_handle {ℓ} :
    {A : Type ℓ} → ℕ → (RcuList A → Option (RcuList A)) → RcuList A → Option (RcuList A)
under_write_handle g change l = do
  (z, l₁) ← rcu_write_lock g l
  l₂ ← change l₁
  rcu_write_unlock z l₂

-- A use of a list under a read handle.
unfoldable pub under_read_handle {ℓ κ} :
    {A : Type ℓ} {B : Type κ} → ℕ → (RcuList A → Option B) → RcuList A → Option (B × RcuList A)
under_read_handle g use_list l = do
  (z, l₁) ← some (rcu_read_lock g l)
  b ← use_list l₁
  l₂ ← unlock z l₁
  some (b, l₂)

-- `addConnection` of `s`, for a caller that has the write handle of its list.
unfoldable pub add_connection : ℕ → ℕ → ConnectStruct → World → Option World
unfolding under_write_handle
add_connection g s c w = do
  x ← w.signals s
  l ← push_back c x.connect_list
  elim c.receiver [
    | none ↦ some (put_list s x l w)
    | some r ↦ (do
      y ← w.slots r
      m ← under_write_handle g (push_back s) y.possible_senders
      some (put_senders r m (put_list s x l w)))
  ]
