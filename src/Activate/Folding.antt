-- ===== src/Activate/Folding.antt =====
-- `activate` in a program that overrides nothing and whose slots only change its variables.
use cs_signal.Prelude.{
  ◌+◌, map, ℕ, ◌<◌, ◌≡◌, refl, sym, ap, ◌∙◌, true, false, inl, inr, Bool_cases, Option, none, some,
  List, [], ◌∷◌, if◌then◌else◌, ◌>>=◌, length,
}
use mathlib.Core.Option.{some-injective}
use cs_signal.RcuList.{RcuList}
use cs_signal.SharedList.{Holds}
use cs_signal.Bento.{Bento, TeaCup, Call, bento_eq, invoke}
use cs_signal.Connections.{
  ConnectStruct, ConnectionKind, SignalBase, put_list, auto_connection, direct_connection,
  queued_connection, blocking_queued_connection,
}
use cs_signal.Connections.Lists.{assign_twice}
use cs_signal.Activate.Arguments.{
  Memory, TypeTable, Passed, types_of, forwarded, read, store, copied, pack, tea_cup_data,
}
use cs_signal.Activate.{
  Machine, Completion, returned, Environment, plain, run_call, run_connection, activate,
  is_destroyed, emission,
}
use cs_signal.Activate.Quiet.{QuietTo, caught, IsQuiet, Keeps, Keeps-refl, deliver}
use cs_signal.Activate.Delivery.{activate-deliver, delivering, delivered}
use cs_signal.Activate.Behind.{HaveReceivers}

-- What a slot does to the variables, by the call that reaches it.
abbrev pub Effect : Type 0
Effect = Call → Memory → Memory

abbrev pub apply : Effect → Option Call → Memory → Memory
apply effect none mem = mem
apply effect (some c) mem = effect c mem

-- A program whose slots have these effects, and overrides nothing.
abbrev pub calm : TypeTable → Effect → Environment
calm types effect = plain types (λ c m. some (returned, record m { memory = effect c m.memory }))

module _ (types : TypeTable) (effect : Effect) (signal : Bento) (arguments : List Passed) where
  abbrev pub call_with : TeaCup → ConnectStruct → Option Call
  call_with cup c = do
    r ← c.receiver
    invoke c.slot_method (some (record { addr = r; is_a = types.is_a r })) cup

  -- The values in new variables, one after the other.
  abbrev pub with_variables : List ℕ → Memory → Memory
  with_variables [] mem = mem
  with_variables (v ∷ vs) mem = with_variables vs (store v mem)

  -- The arguments, of which the `k`-th, if it is a reference, refers to the variable `n + k`.
  abbrev pub referring : ℕ → List Passed → List ℕ
  referring n [] = []
  referring n (a ∷ rest) =
      (if types.is_reference a.type then n else a.value) ∷ referring (n + 1) rest

  copied-with_variables :
      (seen : Memory) (left : List Passed) (mem : Memory)
      → copied types seen left mem
        ≡ (referring mem.next left, with_variables (map (read types seen) left) mem)
  unfolding copied
  copied-with_variables seen [] mem = refl
  copied-with_variables seen (a ∷ rest) mem =
      ap
        (λ (r : List ℕ × Memory).
          ((if types.is_reference a.type then mem.next else a.value) ∷ r.0, r.1))
        (copied-with_variables seen rest (store (read types seen a) mem))

  -- The effect of one slot. A queued one has its own copy of what is left of the arguments, a
  -- blocking one has what is left of them, and the others have the arguments.
  abbrev pub effect_of : ConnectStruct → ConnectionKind → Memory → Memory
  effect_of c auto_connection mem = apply effect (call_with (pack arguments) c) mem
  effect_of c direct_connection mem = apply effect (call_with (pack arguments) c) mem
  effect_of c queued_connection mem =
      let left = forwarded types arguments in
      apply effect
        (call_with (record { types = types_of left; values = referring mem.next left }) c)
        (with_variables (map (read types mem) left) mem)
  effect_of c blocking_queued_connection mem =
      apply effect (call_with (pack (forwarded types arguments)) c) mem

  -- The effects of the slots of the signal, in the order of the connections.
  abbrev pub effects : List ConnectStruct → Memory → Memory
  effects [] mem = mem
  effects (c ∷ cs) mem =
      if bento_eq c.signal_method signal
      then effects cs (effect_of c c.kind mem)
      else effects cs mem

  calm-run_call :
      (o : Option Call) (m : Machine)
      → run_call (calm types effect).call_slot o m
        ≡ some (returned, record m { memory = apply effect o m.memory })
  calm-run_call none m = refl
  calm-run_call (some c) m = refl

  -- In this program the receiver is in the thread of the sender.
  calm-run_connection :
      (s r : ℕ) (c : ConnectStruct) (kind : ConnectionKind) (m : Machine)
      → c.receiver ≡ some r
      → run_connection
          (calm types effect)
          s
          signal
          r
          c.slot_method
          (pack arguments)
          (forwarded types arguments)
          kind
          true
          m
        ≡ some (returned, record m { memory = effect_of c kind m.memory })
  unfolding run_connection tea_cup_data
  calm-run_connection s r c auto_connection m e = rw e (calm-run_call _ m)
  calm-run_connection s r c queued_connection m e =
      let left = forwarded types arguments in
      rw e (calm-run_call _ (record m { memory = (copied types m.memory left m.memory).1 }))
      ∙ ap
          (λ (r : List ℕ × Memory). some (
            returned,
            record m {
              memory =
                  apply effect (call_with (record { types = types_of left; values = r.0 }) c) r.1;
            },
          ))
          (copied-with_variables m.memory left m.memory)
  calm-run_connection s r c blocking_queued_connection m e = rw e (calm-run_call _ m)
  calm-run_connection s r c direct_connection m e = rw e (calm-run_call _ m)

  Keeps-memory : (s : ℕ) (m : Machine) (mem : Memory) → Keeps s m (record m { memory = mem })
  Keeps-memory s m mem = record {
    sender_eq = refl;
    alive_eq = refl;
    mutex_eq = refl;
    locals = (refl, refl);
    slots = λ r y e. (y, e);
  }

  run_call-IsQuiet :
      (s : ℕ) (o : Option Call) → IsQuiet s (run_call (calm types effect).call_slot o)
  run_call-IsQuiet s o m = (returned, _, calm-run_call o m, Keeps-memory s m _)

  calm-QuietTo : (s : ℕ) → QuietTo s (calm types effect)
  calm-QuietTo s = record {
    compares = λ r m. refl;
    call_slot = λ c. run_call-IsQuiet s (some c);
    queue_slot = λ p kind. run_call-IsQuiet s _;
    handler = λ m. (m, refl, Keeps-refl s m);
    same_thread = λ r m x n. refl;
  }

  deliver-effects :
      (s : ℕ) (cs : List ConnectStruct) (m₀ m : Machine)
      → HaveReceivers m.world.slots cs
      → deliver (calm types effect) (emission types s signal arguments m₀) cs m
        ≡ some (record m { memory = effects cs m.memory })
  unfolding deliver
  deliver-effects s [] m₀ m h = refl
  deliver-effects s (c ∷ cs) m₀ m ((r, y, r_eq, y_eq), h) =
      elim (Bool_cases (bento_eq c.signal_method signal)) [
        | inl match ↦
            let env = calm types effect in
            let e = emission types s signal arguments m₀ in
            let go : Completion × Machine → Option Machine =
              λ done. caught env e done >>= deliver env e cs in
            let one_slot : Machine → ℕ → Option Machine = λ k q.
              run_connection env s signal q c.slot_method (pack arguments)
                (forwarded types arguments) c.kind true k
              >>= go in
            rw match (
              ap (λ o. o >>= one_slot m) r_eq
              ∙ ap (λ o. o >>= go) (calm-run_connection s r c c.kind m r_eq)
              ∙ deliver-effects s cs m₀ _ h)
        | inr other ↦ rw other (deliver-effects s cs m₀ m h)
      ]

  pub activate-effects :
      (fuel g s : ℕ) (m : Machine) (x : SignalBase) (cs : List ConnectStruct)
      → m.world.signals s ≡ some x
      → Holds x.connect_list cs
      → HaveReceivers m.world.slots cs
      → is_destroyed s m ≡ false
      → m.destroyed_mutex ≡ false
      → length cs < fuel
      → (l : RcuList ConnectStruct) × (activate (calm types effect) fuel g s signal arguments m
          ≡ some
              (returned, record m { world = put_list s x l m.world; memory = effects cs m.memory }))
        × Holds l cs
  activate-effects fuel g s m x cs x_eq holds receivers alive free enough =
      let (m', l, spec, run, held) =
        activate-deliver (calm types effect) fuel g s signal arguments m x cs (calm-QuietTo s) x_eq
          holds receivers alive free enough in
      let start = delivering g s signal x m in
      let same : record start { memory = effects cs m.memory } ≡ m' =
        some-injective _ m' (sym (deliver-effects s cs m start receivers) ∙ spec) in
      (
        l,
        run
            ∙ ap (λ k. some (returned, delivered s x l m k)) (sym same)
            ∙ ap
                (λ f. some (
                  returned,
                  record m { world = record m.world { signals = f }; memory = effects cs m.memory },
                ))
                (assign_twice m.world.signals s _ _),
        held,
      )
