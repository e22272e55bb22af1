-- ===== src/Connections/Disconnect/Erased.antt =====
-- What `internal_disconnect` does to the lists of the sender and of the receivers.
use cs_signal.Prelude.{
  ℕ, suc, ◌+◌, ◌≡◌, ◌≢◌, refl, sym, ap, subst, ◌∙◌, Bool, false, if_Bool, Option, some, List, [],
  ◌∷◌, ◌++◌, any, reject, arith, append_assoc,
}
use cs_signal.RcuList.{RcuList, Ptr}
use cs_signal.RcuList.Guard.{rcu_write_lock, rcu_write_unlock}
use cs_signal.RcuList.Chain.{values}
use cs_signal.RcuList.Bound.{length-le-fresh}
use cs_signal.RcuList.Iterator.{begin}
use cs_signal.RcuList.Iterator.EraseLoop.{keep}
use cs_signal.SharedList.{Holds, Locked, lock_write, unlock_write, values-keep}
use cs_signal.Bento.{Bento}
use cs_signal.Connections.{ConnectStruct, SignalBase, World, put_list}
use cs_signal.Connections.Lists.{assign_same, assign_other}
use cs_signal.Connections.Destroy.Purge.{SendersAre, ReceiversExist, SlotsStay}
use cs_signal.Connections.Disconnect.Loop.{forget_each, disconnect_loop-Drops}
use cs_signal.Connections.Disconnect.{is_match, disconnect_loop, internal_disconnect}

module _ (p : ConnectStruct → Bool) (g s : ℕ) where
  -- The same for a list under a handle, by its items.
  dropped-Locked :
      (l : RcuList ConnectStruct) (z : ℕ) (m : Option ℕ) (cs : List ConnectStruct) (w : World)
      (sends sends' : ℕ → List ℕ)
      → Locked l z m cs
      → SendersAre w sends
      → ReceiversExist w cs
      → forget_each p s cs sends ≡ some sends'
      → (l' : RcuList ConnectStruct) × (w' : World) × (disconnect_loop p g s
            (suc l.fresh)
            (begin l)
            l
            w
            false
          ≡ some (l', w', any p cs))
        × Locked l' z m (reject p cs)
        × SendersAre w' sends'
        × (w'.signals ≡ w.signals)
        × (w'.being_destroyed ≡ w.being_destroyed)
        × SlotsStay w w'
  dropped-Locked l z m cs w sends sends' k are live e =
      let (l', w', run, d) =
        disconnect_loop-Drops p g s (suc l.fresh) l [] k.cells w false sends sends'
          (omega (arith, length-le-fresh k.cells k.sound.repr)) k.sound are
          (subst (ReceiversExist w) (sym k.values_eq) live)
          (subst (λ vs. forget_each p s vs sends ≡ some sends') (sym k.values_eq) e) in
      (
        l',
        w',
        ap (λ it. disconnect_loop p g s (suc l.fresh) it l w false) k.sound.repr.head_eq
            ∙ run
            ∙ ap (λ b. some (l', w', b))
                (if_Bool (any p (values k.cells)) ∙ ap (any p) k.values_eq),
        record {
          cells = keep p k.cells;
          sound = d.sound;
          values_eq = values-keep p k.cells ∙ ap (reject p) k.values_eq;
          mutex_eq = d.mutex_eq ∙ k.mutex_eq;
          newer = d.buried ++ k.newer;
          entry = k.entry;
          older = k.older;
          zombies_eq =
              d.zombies_eq
              ∙ ap (◌++◌ d.buried) k.zombies_eq
              ∙ sym (append_assoc d.buried k.newer (k.entry ∷ k.older));
          addr_eq = k.addr_eq;
        },
        d.senders_are,
        d.signals_eq,
        d.destroyed_eq,
        d.stay,
      )

module _ (g s : ℕ) (signal : Option Bento) (receiver : Ptr) (slot : Option Bento) where
  internal_disconnect_run :
      (w w' : World) (x : SignalBase) (z : ℕ) (l l' l'' : RcuList ConnectStruct) (retval : Bool)
      → w.signals s ≡ some x
      → rcu_write_lock g x.connect_list ≡ some (z, l)
      → disconnect_loop (is_match signal receiver slot) (g + 1) s (suc l.fresh) (begin l) l w false
        ≡ some (l', w', retval)
      → rcu_write_unlock z l' ≡ some l''
      → internal_disconnect g s signal receiver slot w ≡ some (retval, put_list s x l'' w')
  unfolding internal_disconnect
  internal_disconnect_run w w' x z l l' l'' retval x_eq lock_eq run unlock_eq =
      rw (x_eq, lock_eq, run, unlock_eq) refl

  -- For a sender that exists with a list in order, if its connections' receivers exist with lists
  -- in order, and know the sender once for each connection that matches: `internal_disconnect` runs
  -- to its end and returns whether a connection matched. It takes those that match out of the
  -- sender's list, and one pointer to the sender for each of them out of the receiver's list. No
  -- other sender changes, no receiver goes, and the set of destroyed senders is the same.
  pub internal_disconnect-reject :
      (w : World) (x : SignalBase) (cs : List ConnectStruct) (sends sends' : ℕ → List ℕ)
      → w.signals s ≡ some x
      → Holds x.connect_list cs
      → SendersAre w sends
      → ReceiversExist w cs
      → forget_each (is_match signal receiver slot) s cs sends ≡ some sends'
      → (w' : World) × (l : RcuList ConnectStruct) × (internal_disconnect g s signal receiver slot w
          ≡ some (any (is_match signal receiver slot) cs, w'))
        × (w'.signals s ≡ some (record x { connect_list = l }))
        × Holds l (reject (is_match signal receiver slot) cs)
        × SendersAre w' sends'
        × ((a : ℕ) → a ≢ s → w'.signals a ≡ w.signals a)
        × SlotsStay w w'
        × (w'.being_destroyed ≡ w.being_destroyed)
  internal_disconnect-reject w x cs sends sends' x_eq h are live e =
      let p = is_match signal receiver slot in
      let (z, l, lock_eq, locked) = lock_write g x.connect_list cs h in
      let (l', v, run, k, are', signals_eq, destroyed, stay) =
        dropped-Locked p (g + 1) s l z (some g) cs w sends sends' locked are live e in
      let (l'', unlock_eq, held) = unlock_write l' z (reject p cs) (some g) k in
      (
        put_list s x l'' v,
        l'',
        internal_disconnect_run w v x z l l' l'' (any p cs) x_eq lock_eq run unlock_eq,
        assign_same v.signals s (some (record x { connect_list = l'' })),
        held,
        are',
        λ a apart.
            assign_other v.signals s a (some (record x { connect_list = l'' })) apart
            ∙ ap (λ f. f a) signals_eq,
        stay,
        destroyed,
      )
