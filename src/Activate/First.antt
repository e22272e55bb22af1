-- ===== src/Activate/First.antt =====
-- The way of the loop of `activate` to the first connection of its signal.
use cs_signal.Prelude.{
  ℕ, zero, suc, ◌<◌, ◌≡◌, refl, ◌∙◌, sym, ap, subst, inl, inr, true, false, Bool_cases, Option,
  none, some, List, [], ◌∷◌, if◌then◌else◌, ◌>>=◌, length, arith,
}
use mathlib.Core.Option.{none-ne-some, some-injective}
use cs_signal.RcuList.{RcuList, Ptr}
use cs_signal.RcuList.Guard.{rcu_read_lock}
use cs_signal.SharedList.{Holds, lock_read}
use cs_signal.Connections.Lists.{assign_same}
use cs_signal.RcuList.Chain.{Cells, values, length-values, first, live_node, Chain}
use cs_signal.Bento.{Bento, bento_eq}
use cs_signal.Connections.{ConnectStruct, SignalBase}
use cs_signal.Activate.Arguments.{Passed}
use cs_signal.Activate.{
  Machine, Environment, Emission, Completion, activate_loop, activate, emission, entered, conclude,
}
use cs_signal.Activate.Visit.{visit_skips, activate_run}

-- The first connection of a signal.
abbrev pub first_match : Bento → List ConnectStruct → Option ConnectStruct
first_match signal [] = none
first_match signal (c ∷ cs) =
    if bento_eq c.signal_method signal then some c else first_match signal cs

pub first_match-bento_eq :
    (signal : Bento) (cs : List ConnectStruct) (c : ConnectStruct)
    → first_match signal cs ≡ some c
    → bento_eq c.signal_method signal ≡ true
first_match-bento_eq signal [] c e = absurd (none-ne-some c e)
first_match-bento_eq signal (b ∷ cs) c e = elim (Bool_cases (bento_eq b.signal_method signal)) [
  | inl m ↦
      let same = some-injective b c (rw m at e) in
      subst (λ d. bento_eq d.signal_method signal ≡ true) same m
  | inr m ↦ first_match-bento_eq signal cs c (rw m at e)
]

-- The loop is at the node of the connection `c`, with some fuel.
pub record Reaches (env : Environment) (e : Emission) (l : RcuList ConnectStruct) (fuel : ℕ)
    (it : Ptr) (m : Machine) (c : ConnectStruct) : Type 0 where
  pub left : ℕ
  pub at_node : ℕ
  pub next : Ptr
  pub back : Ptr
  pub node : l.nodes at_node ≡ some (live_node next back c)
  pub loop : activate_loop env e fuel it m ≡ activate_loop env e (suc left) (some at_node) m

module _ (env : Environment) (e : Emission) (x : SignalBase) (m : Machine)
    (x_eq : m.world.signals e.sender ≡ some x) where
  skip_run :
      (fuel p : ℕ) (c : ConnectStruct) (next back : Ptr)
      → x.connect_list.nodes p ≡ some (live_node next back c)
      → bento_eq c.signal_method e.signal ≡ false
      → activate_loop env e (suc fuel) (some p) m ≡ activate_loop env e fuel next m
  unfolding activate_loop
  skip_run fuel p c next back node other =
      rw (x_eq, node, visit_skips env e c m other, x_eq, node) refl

  pub first_match-Reaches :
      (fuel : ℕ) (start : Ptr) (xs : Cells ConnectStruct) (c : ConnectStruct)
      → Chain x.connect_list.nodes start xs none
      → length xs < fuel
      → first_match e.signal (values xs) ≡ some c
      → Reaches env e x.connect_list fuel (first xs none) m c
  first_match-Reaches fuel start [] c chain enough f = absurd (none-ne-some c f)
  first_match-Reaches zero start (a ∷ xs) c chain enough f = absurd (omega arith)
  first_match-Reaches (suc fuel) start (a ∷ xs) c chain enough f =
      elim (Bool_cases (bento_eq a.1.signal_method e.signal)) [
        | inl match ↦ record {
          left = fuel;
          at_node = a.0;
          next = first xs none;
          back = start;
          node =
              subst (λ d. x.connect_list.nodes a.0 ≡ some (live_node (first xs none) start d))
                (some-injective a.1 c (rw match at f)) chain.0;
          loop = refl;
        }
        | inr other ↦
            let r =
              first_match-Reaches fuel (some a.0) xs c chain.1 (omega arith) (rw other at f) in
            record {
              left = r.left;
              at_node = r.at_node;
              next = r.next;
              back = r.back;
              node = r.node;
              loop = skip_run fuel a.0 a.1 (first xs none) start chain.0 other ∙ r.loop;
            }
      ]

-- The thread at the call of the first slot of the signal: the current sender and signal are set, and
-- the sender's list is under the read handle.
abbrev pub starting : ℕ → ℕ → Bento → SignalBase → Machine → Machine
starting g s signal x m = entered s signal x (rcu_read_lock g x.connect_list).1 m

module _ (env : Environment) (fuel g s : ℕ) (signal : Bento) (arguments : List Passed) (m : Machine)
    (x : SignalBase) (cs : List ConnectStruct) (c : ConnectStruct)
    (x_eq : m.world.signals s ≡ some x) (holds : Holds x.connect_list cs)
    (found : first_match signal cs ≡ some c) (enough : length cs < fuel) where
  reaches :
      let l = (rcu_read_lock g x.connect_list).1 in
      Reaches env
        (emission env.types s signal arguments m)
        l
        fuel
        l.head
        (starting g s signal x m)
        c
  reaches =
      let l = (rcu_read_lock g x.connect_list).1 in
      let e = emission env.types s signal arguments m in
      let locked = lock_read g x.connect_list cs holds in
      subst (λ it. Reaches env e l fuel it (starting g s signal x m) c)
        (sym locked.sound.repr.head_eq)
        (first_match-Reaches env e (record x { connect_list = l }) (starting g s signal x m)
          (assign_same m.world.signals s _) fuel none locked.cells c locked.sound.repr.chain
          (subst (λ n. n < fuel) (sym (ap length locked.values_eq) ∙ length-values locked.cells)
            enough)
          (subst (λ vs. first_match signal vs ≡ some c) (sym locked.values_eq) found))

  -- What `activate` does is what it does at the first connection of the signal, if that is where
  -- it ends.
  pub activate_at_first :
      (result : Option (Completion × Machine))
      → ((left p : ℕ) (next back : Ptr)
          → (rcu_read_lock g x.connect_list).1.nodes p ≡ some (live_node next back c)
          → activate_loop env
              (emission env.types s signal arguments m)
              (suc left)
              (some p)
              (starting g s signal x m)
            ≡ result)
      → activate env fuel g s signal arguments m
        ≡ (result >>= conclude (rcu_read_lock g x.connect_list).0 s)
  unfolding rcu_read_lock
  activate_at_first result h =
      let r = reaches in
      activate_run env fuel g s signal arguments m x result x_eq
        (r.loop ∙ h r.left r.at_node r.next r.back r.node)
