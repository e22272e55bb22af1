-- ===== src/Program/Refinement.antt =====
-- Programs that override nothing and whose slots only change variables, and what they do.
use cs_signal.Prelude.{
  ℕ, suc, ◌<◌, ◌≡◌, refl, sym, ap, subst, ◌∙◌, true, false, inl, inr, Bool_cases, Option, none,
  some, is_some, is_some-elim, List, [], ◌∷◌, length, ◌>>=◌, arith,
}
use mathlib.Core.Option.{none-ne-some, some-injective}
use cs_signal.RcuList.{RcuList}
use cs_signal.RcuList.Chain.{length-values}
use cs_signal.RcuList.Bound.{length-le-fresh}
use cs_signal.SharedList.{Holds}
use cs_signal.Bento.{Bento}
use cs_signal.Connections.{ConnectStruct, SignalBase, World, put_list}
use cs_signal.Connections.Lists.{busy_of, assign-SameView}
use cs_signal.Connections.Destroy.Purge.{ReceiversExist}
use cs_signal.Connections.Disconnect.Balance
use cs_signal.Connections.Network.Specification.{Abstract, initial}
use cs_signal.Connections.Network.Invariant.{IsNet, IsNet-ReceiversExist, assign-elim}
use cs_signal.Connections.Network.Represents.{
  Represents, nothing-Represents, is_legal-is_allowed, has_signal_eq, relinked-Represents,
}
use cs_signal.Connections.Network.History.{perform-Refines}
use cs_signal.Activate.Arguments.{Memory, TypeTable, Passed}
use cs_signal.Activate.{Machine, Completion, Environment, returned, is_destroyed, activate}
use cs_signal.Activate.Behind.{HaveReceivers}
use cs_signal.Activate.Folding.{Effect, calm, effects, activate-effects}
use cs_signal.Program.Promises.{is_possible, promised, promised_program}
use cs_signal.Program.{
  Action, operates, emits, Result, completed, is_enabled, fuel_for, act, run_program, start,
}

-- The thread is outside of `activate`, and has these connections and variables.
pub record IsAt (a : Abstract) (mem : Memory) (m : Machine) : Type 0 where
  pub represents : Represents m.world a
  pub memory_eq : m.memory ≡ mem
  pub sender_eq : m.current_sender ≡ none
  pub signal_eq : m.current_signal ≡ none
  pub mutex_eq : m.destroyed_mutex ≡ false

abbrev pub KeepsPromise {ℓ} : {A : Type ℓ} → Option (A × Machine) → A × Abstract × Memory → Type ℓ
KeepsPromise run (out, a, mem) = (m' : Machine) × (run ≡ some (out, m')) × IsAt a mem m'

-- A list of the same items in place of the sender's.
put_list-IsNet :
    (s : ℕ) (w : World) (conns : ℕ → List ConnectStruct) (x : SignalBase)
    (l : RcuList ConnectStruct)
    → Holds l (conns s)
    → IsNet w conns
    → IsNet (put_list s x l w) conns
put_list-IsNet s w conns x l held n = record {
  sends = n.sends;
  connections_are = λ t y e.
      assign-elim (λ t o. o ≡ some y → Holds y.connect_list (conns t)) w.signals s _ t
        (λ f.
          subst (λ (z : SignalBase). Holds z.connect_list (conns s))
            (some-injective (record x { connect_list = l }) y f) held)
        (λ apart f. n.connections_are t y f) e;
  senders_are = n.senders_are;
  no_signal = λ t e.
      assign-elim (λ t o. o ≡ none → conns t ≡ []) w.signals s _ t
        (λ f. absurd (none-ne-some _ (sym f))) (λ apart f. n.no_signal t f) e;
  no_slot = n.no_slot;
  balanced = n.balanced;
  have = n.have;
}

put_list-Represents :
    (s : ℕ) (w : World) (a : Abstract) (x : SignalBase) (l : RcuList ConnectStruct)
    → w.signals s ≡ some x
    → Holds l (a.links s)
    → Represents w a
    → Represents (put_list s x l w) a
put_list-Represents s w a x l x_eq held k =
    relinked-Represents w (put_list s x l w) a a.links k (put_list-IsNet s w a.links x l held k.net)
      (assign-SameView busy_of w.signals s x _ x_eq refl) (λ r. refl) refl

receivers_there :
    (w : World) (cs : List ConnectStruct)
    → Balance.HaveReceivers cs
    → ReceiversExist w cs
    → HaveReceivers w.slots cs
receivers_there w [] have live = tt
receivers_there w (c ∷ cs) ((r, to_r), have) (exists, live) =
    let (y, y_eq) = exists r to_r in ((r, y, to_r, y_eq), receivers_there w cs have live)

Holds-fuel :
    (x : SignalBase) (cs : List ConnectStruct)
    → Holds x.connect_list cs
    → length cs < suc x.connect_list.fresh
Holds-fuel x cs h =
    let same : length cs ≡ length h.cells = ap length (sym h.values_eq) ∙ length-values h.cells in
    omega (arith, same, length-le-fresh h.cells h.sound.repr)

undestroyed : (s : ℕ) (m : Machine) → m.world.being_destroyed ≡ [] → is_destroyed s m ≡ false
undestroyed s m e = rw e refl

is_enabled-is_possible :
    (c : Action) (m : Machine) (a : Abstract)
    → Represents m.world a
    → is_enabled c m ≡ is_possible c a
is_enabled-is_possible (operates o) m a k = is_legal-is_allowed o m.world a k
is_enabled-is_possible (emits s signal arguments) m a k = has_signal_eq m.world a k s

emits_run :
    (env : Environment) (g s : ℕ) (signal : Bento) (arguments : List Passed) (m m' : Machine)
    (x : SignalBase) (done : Completion)
    → m.world.signals s ≡ some x
    → activate env (fuel_for (some x)) g s signal arguments m ≡ some (done, m')
    → act env g (emits s signal arguments) m ≡ some (completed done, m')
unfolding act
emits_run env g s signal arguments m m' x done x_eq run =
    ap (λ o. o >>= λ (done', m₁). some (completed done', m₁))
      (ap (λ o. activate env (fuel_for o) g s signal arguments m) x_eq ∙ run)

module _ (types : TypeTable) (effect : Effect) (g : ℕ) where
  emits-kept :
      (s : ℕ) (signal : Bento) (arguments : List Passed) (m : Machine) (a : Abstract) (mem : Memory)
      → IsAt a mem m
      → is_some (m.world.signals s) ≡ true
      → let c = emits s signal arguments in
        KeepsPromise (act (calm types effect) g c m) (promised types effect c a mem)
  emits-kept s signal arguments m a mem k h =
      let (x, x_eq) = is_some-elim (m.world.signals s) h in
      let cs = a.links s in
      let n = k.represents.net in
      let held = n.connections_are s x x_eq in
      let live = receivers_there m.world cs (n.have s) (IsNet-ReceiversExist m.world a.links n s) in
      let (l, run, held') =
        activate-effects types effect signal arguments (fuel_for (some x)) g s m x cs x_eq held live
          (undestroyed s m k.represents.destroyed) k.mutex_eq (Holds-fuel x cs held) in
      (
        record m {
          world = put_list s x l m.world;
          memory = effects types effect signal arguments cs m.memory;
        },
        emits_run (calm types effect) g s signal arguments m _ x returned x_eq run,
        record {
          represents = put_list-Represents s m.world a x l x_eq held' k.represents;
          memory_eq = ap (effects types effect signal arguments cs) k.memory_eq;
          sender_eq = k.sender_eq;
          signal_eq = k.signal_eq;
          mutex_eq = k.mutex_eq;
        },
      )

  act-kept :
      (c : Action) (m : Machine) (a : Abstract) (mem : Memory)
      → IsAt a mem m
      → is_enabled c m ≡ true
      → KeepsPromise (act (calm types effect) g c m) (promised types effect c a mem)
  unfolding act
  act-kept (operates o) m a mem k h =
      let (w, run, k') = perform-Refines g o m.world a k.represents h in
      (
        record m { world = w },
        rw run refl,
        record {
          represents = k';
          memory_eq = k.memory_eq;
          sender_eq = k.sender_eq;
          signal_eq = k.signal_eq;
          mutex_eq = k.mutex_eq;
        },
      )
  act-kept (emits s signal arguments) m a mem k h = emits-kept s signal arguments m a mem k h

  program_step :
      (c : Action) (cs : List Action) (m m₁ m' : Machine) (result : Result) (results : List Result)
      → is_enabled c m ≡ true
      → act (calm types effect) g c m ≡ some (result, m₁)
      → run_program (calm types effect) g cs m₁ ≡ some (results, m')
      → run_program (calm types effect) g (c ∷ cs) m ≡ some (result ∷ results, m')
  unfolding run_program
  program_step c cs m m₁ m' result results h run rest = rw (h, run, rest) refl

  program_skip :
      (c : Action) (cs : List Action) (m : Machine)
      → is_enabled c m ≡ false
      → run_program (calm types effect) g (c ∷ cs) m ≡ run_program (calm types effect) g cs m
  unfolding run_program
  program_skip c cs m h = rw h refl

  program-kept :
      (cs : List Action) (m : Machine) (a : Abstract) (mem : Memory)
      → IsAt a mem m
      → KeepsPromise
          (run_program (calm types effect) g cs m)
          (promised_program types effect cs a mem)
  unfolding run_program
  program-kept [] m a mem k = (m, refl, k)
  program-kept (c ∷ cs) m a mem k = elim (Bool_cases (is_possible c a)) [
    | inr h ↦
        let (m', run, k') = program-kept cs m a mem k in
        let skip = is_enabled-is_possible c m a k.represents ∙ h in
        rw h (m', program_skip c cs m skip ∙ run, k')
    | inl h ↦
        let enabled = is_enabled-is_possible c m a k.represents ∙ h in
        let (m₁, run, k₁) = act-kept c m a mem k enabled in
        let (m', rest, k') = program-kept cs m₁ _ _ k₁ in
        rw h (m', program_step c cs m m₁ m' _ _ enabled run rest, k')
  ]

  pub run_program-promised :
      (cs : List Action) (mem : Memory)
      → KeepsPromise
          (run_program (calm types effect) g cs (start mem))
          (promised_program types effect cs initial mem)
  run_program-promised cs mem = program-kept cs (start mem) initial mem (record {
    represents = nothing-Represents;
    memory_eq = refl;
    sender_eq = refl;
    signal_eq = refl;
    mutex_eq = refl;
  })
