-- ===== src/Connections/Disconnect/Drops.antt =====
-- What the loop of `internal_disconnect` leaves, round by round.
use cs_signal.Prelude.{
  is_some, ℕ, ◌≡◌, refl, sym, ap, subst, ◌∙◌, some, List, [], ◌∷◌, ◌++◌, append_assoc,
}
use cs_signal.RcuList.{RcuList, ZombieListNode, dead_entry}
use cs_signal.RcuList.Chain.{Cells}
use cs_signal.RcuList.Guard.Sound.{IsSound}
use cs_signal.SharedList.{Holds}
use cs_signal.Connections.{ConnectStruct, SlotBase, World, put_senders}
use cs_signal.Connections.Destroy.Purge.{SendersAre, SlotsStay}
use cs_signal.Connections.Lists.{assign-SameView}
use cs_signal.RcuList.Erase.{ErasedTo}

-- What the loop leaves of the sender's list `l`, now `l'`, and of the world `w`, now `w'`.
pub record Drops (l : RcuList ConnectStruct) (xs : Cells ConnectStruct) (w : World)
    (sends : ℕ → List ℕ) (l' : RcuList ConnectStruct) (w' : World) : Type 0 where
  pub sound : IsSound l' xs
  pub mutex_eq : l'.write_mutex ≡ l.write_mutex
  pub buried : List ZombieListNode
  pub zombies_eq : l'.zombies ≡ buried ++ l.zombies
  pub senders_are : SendersAre w' sends
  pub signals_eq : w'.signals ≡ w.signals
  pub destroyed_eq : w'.being_destroyed ≡ w.being_destroyed
  pub stay : SlotsStay w w'

-- At the end of the list nothing is left to do.
pub Drops-nil :
    (l : RcuList ConnectStruct) (xs : Cells ConnectStruct) (w : World) (sends sends' : ℕ → List ℕ)
    → IsSound l xs
    → SendersAre w sends
    → sends ≡ sends'
    → Drops l xs w sends' l w
Drops-nil l xs w sends sends' k are e = record {
  sound = k;
  mutex_eq = refl;
  buried = [];
  zombies_eq = refl;
  senders_are = λ r y f. subst (λ fs. Holds y.possible_senders (fs r)) e (are r y f);
  signals_eq = refl;
  destroyed_eq = refl;
  stay = λ r. refl;
}

-- A cell that stays behind.
pub Drops-keep :
    (l : RcuList ConnectStruct) (ys : Cells ConnectStruct) (c : ℕ × ConnectStruct)
    (zs : Cells ConnectStruct) (w : World) (sends : ℕ → List ℕ) (l' : RcuList ConnectStruct)
    (w' : World)
    → Drops l ((ys ++ c ∷ []) ++ zs) w sends l' w'
    → Drops l (ys ++ c ∷ zs) w sends l' w'
Drops-keep l ys c zs w sends l' w' d = record {
  sound = subst (IsSound l') (append_assoc ys (c ∷ []) zs) d.sound;
  mutex_eq = d.mutex_eq;
  buried = d.buried;
  zombies_eq = d.zombies_eq;
  senders_are = d.senders_are;
  signals_eq = d.signals_eq;
  destroyed_eq = d.destroyed_eq;
  stay = d.stay;
}

-- A cell that was erased first.
pub Drops-erase :
    (l l₁ : RcuList ConnectStruct) (ys : Cells ConnectStruct) (c : ℕ × ConnectStruct)
    (zs xs : Cells ConnectStruct) (a : ℕ) (m : RcuList ℕ) (w : World) (sends : ℕ → List ℕ)
    (l' : RcuList ConnectStruct) (w' : World) (y : SlotBase)
    → w.slots a ≡ some y
    → ErasedTo l ys c zs l₁
    → Drops l₁ xs (put_senders a m w) sends l' w'
    → Drops l xs w sends l' w'
Drops-erase l l₁ ys c zs xs a m w sends l' w' y y_eq er d = record {
  sound = d.sound;
  mutex_eq = d.mutex_eq ∙ er.mutex_eq;
  buried = d.buried ++ dead_entry l.fresh c.0 ∷ [];
  zombies_eq =
      d.zombies_eq
      ∙ ap (◌++◌ d.buried) er.zombies_eq
      ∙ sym (append_assoc d.buried (dead_entry l.fresh c.0 ∷ []) l.zombies);
  senders_are = d.senders_are;
  signals_eq = d.signals_eq;
  destroyed_eq = d.destroyed_eq;
  stay = λ r. d.stay r ∙ assign-SameView is_some w.slots a y _ y_eq refl r;
}
