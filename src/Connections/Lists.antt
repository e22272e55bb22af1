-- ===== src/Connections/Lists.antt =====
-- The lists of a sender and of a receiver in the world, by their items, and what `addConnection`
-- makes of them.
use cs_signal.Prelude.{
  subst, ℕ, ◌≡◌, ◌≢◌, refl, ◌∙◌, Bool_cases, inl, inr, Option, none, some, List, [], ◌∷◌, ◌++◌,
  ◌==◌, ==_iff, sym, ap,
}
use mathlib.Core.Path.{fun_ext}
use mathlib.Core.Bool.{true≢false}
use cs_signal.RcuList.{RcuList, push_back}
use cs_signal.SharedList.{
  Holds, Locked, lock_write, unlock_write, Becomes, append-Becomes, lock_read, unlock_read,
  loop-each,
}
use cs_signal.RcuList.Iterator.{Flow, each, for_range}
use cs_signal.Connections.{
  ConnectStruct, SignalBase, World, assign, put_list, put_senders, under_write_handle,
  under_read_handle, add_connection,
}

pub assign_same {ℓ} : {A : Type ℓ} (f : ℕ → A) (p : ℕ) (v : A) → assign f p v p ≡ v
unfolding assign
assign_same f p v = rw ((==_iff p p).1 refl) refl

pub assign_other {ℓ} : {A : Type ℓ} (f : ℕ → A) (p a : ℕ) (v : A) → a ≢ p → assign f p v a ≡ f a
unfolding assign
assign_other f p a v h = elim (Bool_cases (a == p)) [
  | inl m ↦ absurd (h ((==_iff a p).0 m))
  | inr m ↦ rw m refl
]

-- Two writes at one address are the second one, and a write of what is there is none.
pub assign_twice {ℓ} :
    {A : Type ℓ} (f : ℕ → A) (s : ℕ) (a b : A) → assign (assign f s a) s b ≡ assign f s b
unfolding assign
assign_twice f s a b =
    fun_ext λ p. elim (Bool_cases (p == s)) [ inl m ↦ rw m refl | inr m ↦ rw m refl ]

pub assign_back {ℓ} :
    {A : Type ℓ} (f : ℕ → A) (s : ℕ) (a b : A) → f s ≡ b → assign (assign f s a) s b ≡ f
unfolding assign
assign_back f s a b e = fun_ext λ p. elim (Bool_cases (p == s)) [
  | inl m ↦ rw m (sym e ∙ ap f (sym ((==_iff p s).0 m)))
  | inr m ↦ rw m refl
]

-- What a reader `k` sees of two functions is the same at every address.
abbrev pub SameView {ℓ κ} :
    {A : Type ℓ} {B : Type κ} → (Option A → B) → (ℕ → Option A) → (ℕ → Option A) → Type κ
SameView k f f' = (a : ℕ) → k (f' a) ≡ k (f a)

pub assign-SameView {ℓ κ} :
    {A : Type ℓ} {B : Type κ} (k : Option A → B) (f : ℕ → Option A) (p : ℕ) (u v : A)
    → f p ≡ some u
    → k (some v) ≡ k (some u)
    → SameView k f (assign f p (some v))
unfolding assign
assign-SameView k f p u v e same a = elim (Bool_cases (a == p)) [
  | inl m ↦ rw m (same ∙ sym (ap k (ap f ((==_iff a p).0 m) ∙ e)))
  | inr m ↦ rw m refl
]

pub elsewhere-SameView {ℓ κ} :
    {A : Type ℓ} {B : Type κ} (k : Option A → B) (f f' : ℕ → Option A) (p : ℕ)
    → k (f' p) ≡ k (f p)
    → ((a : ℕ) → a ≢ p → f' a ≡ f a)
    → SameView k f f'
elsewhere-SameView k f f' p here h a = elim (Bool_cases (a == p)) [
  | inl m ↦ let same = (==_iff a p).0 m in subst (λ b. k (f' b) ≡ k (f b)) (sym same) here
  | inr m ↦ ap k (h a (λ e. true≢false (sym ((==_iff a p).1 e) ∙ m)))
]

-- `m_activateBusy` of the sender, if there is one.
abbrev pub busy_of : Option SignalBase → Option ℕ
busy_of none = none
busy_of (some x) = some x.activate_busy

-- A change of a list under a handle, in terms of the items.
pub under_write_handle-Holds {ℓ} :
    {A : Type ℓ} (g : ℕ) (change : RcuList A → Option (RcuList A)) (l : RcuList A) (vs ws : List A)
    → Holds l vs
    → ((z : ℕ) (k : RcuList A) → Locked k z (some g) vs → Becomes z (some g) (change k) ws)
    → (l' : RcuList A) × (under_write_handle g change l ≡ some l') × Holds l' ws
unfolding under_write_handle
under_write_handle-Holds g change l vs ws h law =
    let (z, l₁, locked_eq, locked) = lock_write g l vs h in
    let (l₂, change_eq, changed) = law z l₁ locked in
    let (l₃, unlock_eq, held) = unlock_write l₂ z ws (some g) changed in
    (l₃, rw (locked_eq, change_eq, unlock_eq) refl, held)

-- A loop under a read handle runs over the items.
pub under_read_handle-each {ℓ κ} :
    {A : Type ℓ} {S : Type κ} (g : ℕ) (body : A → S → Option (Flow S)) (l : RcuList A) (vs : List A)
    (s : S) (f : Flow S)
    → Holds l vs
    → each body vs s ≡ some f
    → (l' : RcuList A) × (under_read_handle g (λ k. for_range body k s) l ≡ some (f, l'))
      × Holds l' vs
unfolding under_read_handle
under_read_handle-each g body l vs s f h e =
    let locked = lock_read g l vs h in
    let (l', unlock_eq, held) = unlock_read _ _ vs locked in
    (l', rw (loop-each _ _ none vs locked body s ∙ e, unlock_eq) refl, held)

-- `s` is a sender with the connections `cs`, `r` a receiver with the possible senders `ss`.
pub record HasLists (w : World) (s r : ℕ) (cs : List ConnectStruct) (ss : List ℕ) : Type 0 where
  pub sender : SignalBase
  pub sender_eq : w.signals s ≡ some sender
  pub connections : Holds sender.connect_list cs
  pub receiver_list : RcuList ℕ
  pub receiver_eq : w.slots r ≡ some (record { possible_senders = receiver_list })
  pub senders : Holds receiver_list ss

-- Nothing but the sender `s` and the receiver `r` is different.
pub record SameElsewhere (w : World) (s r : ℕ) (w' : World) : Type 0 where
  pub busy_eq : busy_of (w'.signals s) ≡ busy_of (w.signals s)
  pub other_signals : (a : ℕ) → a ≢ s → w'.signals a ≡ w.signals a
  pub other_slots : (a : ℕ) → a ≢ r → w'.slots a ≡ w.slots a
  pub destroyed_eq : w'.being_destroyed ≡ w.being_destroyed

add_connection_run :
    (g s r : ℕ) (c : ConnectStruct) (w : World) (x : SignalBase) (k : RcuList ConnectStruct)
    (l l' : RcuList ℕ)
    → c.receiver ≡ some r
    → w.signals s ≡ some x
    → push_back c x.connect_list ≡ some k
    → w.slots r ≡ some (record { possible_senders = l })
    → under_write_handle g (push_back s) l ≡ some l'
    → add_connection g s c w ≡ some (put_senders r l' (put_list s x k w))
unfolding add_connection
add_connection_run g s r c w x k l l' to_r x_eq push_eq l_eq run =
    rw (x_eq, push_eq, to_r, l_eq, run) refl

-- A caller that has the write handle of the sender's list appends to both lists.
pub add_connection-Becomes :
    (g s r : ℕ) (c : ConnectStruct) (w : World) (x : SignalBase) (z : ℕ) (m : Option ℕ)
    (cs : List ConnectStruct) (l : RcuList ℕ) (ss : List ℕ)
    → c.receiver ≡ some r
    → w.signals s ≡ some x
    → Locked x.connect_list z m cs
    → w.slots r ≡ some (record { possible_senders = l })
    → Holds l ss
    → (k : RcuList ConnectStruct) × (l' : RcuList ℕ) × (add_connection g s c w
        ≡ some (put_senders r l' (put_list s x k w)))
      × Locked k z m (cs ++ c ∷ [])
      × Holds l' (ss ++ s ∷ [])
add_connection-Becomes g s r c w x z m cs l ss to_r x_eq locked l_eq held =
    let (k, push_eq, pushed) = append-Becomes x.connect_list z m cs locked c in
    let (l', run, held') =
      under_write_handle-Holds g (push_back s) l ss (ss ++ s ∷ []) held
        (λ z' k' locked'. append-Becomes k' z' (some g) ss locked' s) in
    (k, l', add_connection_run g s r c w x k l l' to_r x_eq push_eq l_eq run, pushed, held')
