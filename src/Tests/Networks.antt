-- ===== src/Tests/Networks.antt =====
-- The theorems on connections at a world of one sender, one receiver and one connection.
use cs_signal.Prelude.{
  ℕ, zero, suc, ◌≡◌, ◌≢◌, refl, sym, ap, subst, true, false, ◌==◌, ◌⊎◌, ◌||◌, if◌then◌else◌, any,
  reject, count_of, none, some, Option, List, [], ◌∷◌, arith,
}
use mathlib.Core.Option.{none-ne-some}
use cs_signal.RcuList.{RcuList, Ptr, ptr_eq}
use cs_signal.SharedList.{Holds}
use cs_signal.Bento.{bento_eq, Bento, lambda, method_ptr}
use cs_signal.Connections.{
  auto_connection, ConnectStruct, SignalBase, SlotBase, World, put_list, put_senders,
}
use cs_signal.Connections.Lists.{HasLists}
use cs_signal.Connections.Connect.{
  invalid_argument, is_null, connection, connect_method, connect_lambda, same_connection,
}
use cs_signal.Connections.Connect.Overloads.{
  Connects, connect_method-Connects, connect_lambda-Connects,
}
use cs_signal.Connections.Queries.{cnt_connections, receiver_list, sender_list}
use cs_signal.Connections.Queries.Counts.{asked, cnt_connections-count_of}
use cs_signal.Connections.Queries.Sets.{
  in_set, IsSetOf, links, receiver_list-in_set, sender_list-in_set,
}
use cs_signal.Connections.Destroy.{destroy_signal}
use cs_signal.Connections.Destroy.Purge.{SendersAre, ReceiversExist, SlotsStay}
use cs_signal.Connections.Destroy.Dangling.{Known, destroy_signal-SendersAre}
use cs_signal.Connections.Destroy.{destroy_slot}
use cs_signal.Connections.Destroy.Unlink.{ConnectionsAre, SignalsStay, is_to}
use cs_signal.Connections.Destroy.Orphans.{Remembered, destroy_slot-ConnectionsAre}
use cs_signal.Connections.Disconnect.{internal_disconnect}
use cs_signal.Connections.Disconnect.Erased.{internal_disconnect-reject}
use cs_signal.Connections.Disconnect.Balance.{Balanced, times, internal_disconnect-Balanced}
use cs_signal.Tests.{one_item, one_item-Holds}

abbrev pub clicked : Bento
clicked = method_ptr 10 0 (100 ∷ 101 ∷ []) (some 5)

abbrev pub on_click : Bento
on_click = method_ptr 20 0 (100 ∷ []) (some 6)

abbrev pub link : ConnectStruct
link = connection clicked 2 on_click auto_connection

abbrev pub sender : SignalBase
sender = record { activate_busy = 1; connect_list = one_item link }

abbrev pub receiver : SlotBase
receiver = record { possible_senders = one_item 1 }

abbrev signals_of : ℕ → Option SignalBase
signals_of zero = none
signals_of (suc zero) = some sender
signals_of (suc (suc a)) = none

abbrev slots_of : ℕ → Option SlotBase
slots_of zero = none
slots_of (suc zero) = none
slots_of (suc (suc zero)) = some receiver
slots_of (suc (suc (suc a))) = none

abbrev pub network : World
network = record { signals = signals_of; slots = slots_of; being_destroyed = [] }

abbrev pub known_senders : ℕ → List ℕ
known_senders zero = []
known_senders (suc zero) = []
known_senders (suc (suc zero)) = 1 ∷ []
known_senders (suc (suc (suc a))) = []

network-HasLists : HasLists network 1 2 (link ∷ []) (1 ∷ [])
network-HasLists = record {
  sender = sender;
  sender_eq = refl;
  connections = one_item-Holds link;
  receiver_list = one_item 1;
  receiver_eq = refl;
  senders = one_item-Holds 1;
}

abbrev pub senders_or : RcuList ℕ → Option SlotBase → RcuList ℕ
senders_or l none = l
senders_or l (some y) = y.possible_senders

pub network-SendersAre : SendersAre network known_senders
network-SendersAre zero y e = absurd (none-ne-some y e)
network-SendersAre (suc zero) y e = absurd (none-ne-some y e)
network-SendersAre (suc (suc zero)) y e =
    subst (λ l. Holds l (1 ∷ [])) (ap (senders_or y.possible_senders) e) (one_item-Holds 1)
network-SendersAre (suc (suc (suc a))) y e = absurd (none-ne-some y e)

abbrev ptr_or : ℕ → Ptr → ℕ
ptr_or d none = d
ptr_or d (some a) = a

pub network-ReceiversExist : ReceiversExist network (link ∷ [])
network-ReceiversExist = (λ r e. (receiver, ap network.slots (sym (ap (ptr_or 2) e))), tt)

network-Balanced : Balanced 1 (link ∷ []) known_senders
network-Balanced zero = refl
network-Balanced (suc zero) = refl
network-Balanced (suc (suc zero)) = refl
network-Balanced (suc (suc (suc a))) = ground arith

pub network-Known : Known 1 (link ∷ []) known_senders
network-Known zero e = e
network-Known (suc zero) e = e
network-Known (suc (suc zero)) e = refl
network-Known (suc (suc (suc a))) e = ground arith

connect_method-Connects_example :
    ((is_null clicked || is_null on_click ≡ true)
      × (connect_method 50 1 clicked 2 on_click auto_connection true network
          ≡ some (invalid_argument, network)))
    ⊎ ((is_null clicked || is_null on_click ≡ false)
        × Connects network 1 2
            (connect_method 50 1 clicked 2 on_click auto_connection true network)
            (any (same_connection link) (link ∷ []))
            link
            (link ∷ [])
            (1 ∷ []))
connect_method-Connects_example =
    connect_method-Connects 50 1 clicked 2 on_click auto_connection true network (link ∷ [])
      (1 ∷ []) network-HasLists

connect_lambda-Connects_example :
    ((is_null clicked ≡ true)
      × (connect_lambda 50 1 clicked 2 (lambda 8 []) auto_connection false network
          ≡ some (invalid_argument, network)))
    ⊎ ((is_null clicked ≡ false)
        × Connects network 1 2
            (connect_lambda 50 1 clicked 2 (lambda 8 []) auto_connection false network)
            false
            (connection clicked 2 (lambda 8 []) auto_connection)
            (link ∷ [])
            (1 ∷ []))
connect_lambda-Connects_example =
    connect_lambda-Connects 50 1 clicked 2 (lambda 8 []) auto_connection false network (link ∷ [])
      (1 ∷ []) network-HasLists

cnt_connections-count_example :
    (l : RcuList ConnectStruct) × (cnt_connections 50 1 (some 2) clicked network
      ≡ some (count_of (asked (some 2) clicked) (link ∷ []), put_list 1 sender l network))
    × Holds l (link ∷ [])
cnt_connections-count_example =
    cnt_connections-count_of 50 1 (some 2) clicked network sender (link ∷ []) refl
      (one_item-Holds link)

receiver_list-in_set_example :
    (qs : List Ptr) × (l : RcuList ConnectStruct) × (receiver_list 50 1 clicked network
      ≡ some (qs, put_list 1 sender l network))
    × Holds l (link ∷ [])
    × IsSetOf qs
    × ((p : Ptr) → in_set p qs ≡ any (links clicked p) (link ∷ []))
receiver_list-in_set_example =
    receiver_list-in_set 50 1 clicked network sender (link ∷ []) refl (one_item-Holds link)

sender_list-in_set_example :
    (qs : List Ptr) × (l : RcuList ℕ) × (sender_list 50 2 network
      ≡ some (qs, put_senders 2 l network))
    × Holds l (1 ∷ [])
    × IsSetOf qs
    × ((p : Ptr) → in_set p qs ≡ any (λ t. ptr_eq (some t) p) (1 ∷ []))
sender_list-in_set_example =
    sender_list-in_set 50 2 network (one_item 1) (1 ∷ []) refl (one_item-Holds 1)

destroy_signal-SendersAre_example :
    (w : World) × (destroy_signal 50 1 network ≡ some w)
    × (w.signals 1 ≡ none)
    × ((a : ℕ) → a ≢ 1 → w.signals a ≡ network.signals a)
    × SendersAre w (λ r. reject (λ t. t == 1) (known_senders r))
    × (w.being_destroyed ≡ 1 ∷ [])
    × SlotsStay network w
destroy_signal-SendersAre_example =
    destroy_signal-SendersAre 50 1 network sender (link ∷ []) known_senders refl
      (one_item-Holds link) network-SendersAre network-ReceiversExist network-Known

abbrev no_senders : ℕ → List ℕ
no_senders r = if 2 == r then [] else known_senders r

internal_disconnect-reject_example :
    (w : World) × (l : RcuList ConnectStruct) × (internal_disconnect 50 1
        (some clicked)
        (some 2)
        none
        network
      ≡ some (true, w))
    × (w.signals 1 ≡ some (record sender { connect_list = l }))
    × Holds l []
    × SendersAre w no_senders
    × ((a : ℕ) → a ≢ 1 → w.signals a ≡ network.signals a)
    × SlotsStay network w
    × (w.being_destroyed ≡ [])
unfolding bento_eq
internal_disconnect-reject_example =
    internal_disconnect-reject 50 1 (some clicked) (some 2) none network sender (link ∷ [])
      known_senders no_senders refl (one_item-Holds link) network-SendersAre network-ReceiversExist
      refl

internal_disconnect-Balanced_example :
    (w : World) × (l : RcuList ConnectStruct) × (sends : ℕ → List ℕ) × (internal_disconnect 50 1
        (some clicked)
        none
        none
        network
      ≡ some (true, w))
    × (w.signals 1 ≡ some (record sender { connect_list = l }))
    × Holds l []
    × SendersAre w sends
    × Balanced 1 [] sends
    × ((t r : ℕ) → t ≢ 1 → times t (sends r) ≡ times t (known_senders r))
    × ((a : ℕ) → a ≢ 1 → w.signals a ≡ network.signals a)
    × SlotsStay network w
    × (w.being_destroyed ≡ [])
unfolding bento_eq
internal_disconnect-Balanced_example =
    internal_disconnect-Balanced 50 1 (some clicked) none none network sender (link ∷ [])
      known_senders refl (one_item-Holds link) network-SendersAre network-ReceiversExist
      ((2, refl), tt) network-Balanced

abbrev known_connections : ℕ → List ConnectStruct
known_connections zero = []
known_connections (suc zero) = link ∷ []
known_connections (suc (suc a)) = []

abbrev connections_or : RcuList ConnectStruct → Option SignalBase → RcuList ConnectStruct
connections_or l none = l
connections_or l (some x) = x.connect_list

network-ConnectionsAre : ConnectionsAre network known_connections
network-ConnectionsAre zero x e = absurd (none-ne-some x e)
network-ConnectionsAre (suc zero) x e =
    subst (λ l. Holds l (link ∷ [])) (ap (connections_or x.connect_list) e) (one_item-Holds link)
network-ConnectionsAre (suc (suc a)) x e = absurd (none-ne-some x e)

network-Remembered : Remembered 2 (1 ∷ []) known_connections
network-Remembered zero e = e
network-Remembered (suc zero) e = refl
network-Remembered (suc (suc a)) e = ground arith

destroy_slot-ConnectionsAre_example :
    (w : World) × (destroy_slot 50 2 network ≡ some w)
    × (w.slots 2 ≡ none)
    × ((a : ℕ) → a ≢ 2 → w.slots a ≡ network.slots a)
    × ConnectionsAre w (λ s. reject (is_to 2) (known_connections s))
    × (w.being_destroyed ≡ [])
    × SignalsStay network w
destroy_slot-ConnectionsAre_example =
    destroy_slot-ConnectionsAre 50 2 network (one_item 1) (1 ∷ []) known_connections refl
      (one_item-Holds 1) network-ConnectionsAre ((sender, refl), tt) network-Remembered
