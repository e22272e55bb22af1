-- ===== src/Bento/Delivery.antt =====
-- What `invoke` passes to a slot.
use cs_signal.Prelude.{
  ℕ, ◌≡◌, refl, Bool, true, false, Option, none, some, List, length, take, inl, inr, ◌&&◌, ◌>>=◌,
  Bool_cases, if◌then◌else◌,
}
use cs_signal.Bento.{
  Bento, lambda, function_ptr, method_ptr, const_method_ptr, TeaCup, Receiver, check_connect_args,
  unpack_args, invoke,
}
use cs_signal.Bento.Arguments.{dynamic_cast_cases}

-- The parameters of the slot.
abbrev pub parameters : Bento → List ℕ
parameters (lambda i us) = us
parameters (function_ptr r us p) = us
parameters (method_ptr c r us p) = us
parameters (const_method_ptr c r us p) = us

-- Whether the receiver lets the slot run: a function and a lambda do not look at it, a method wants
-- an object of its class.
abbrev pub can_receive : Bento → Option Receiver → Bool
can_receive (lambda i us) r = true
can_receive (function_ptr s us p) r = true
can_receive (method_ptr c s us p) none = false
can_receive (method_ptr c s us p) (some r) = r.is_a c
can_receive (const_method_ptr c s us p) none = false
can_receive (const_method_ptr c s us p) (some r) = r.is_a c

-- The object that the slot is called on.
abbrev pub callee : Bento → Option Receiver → Option ℕ
callee (lambda i us) r = none
callee (function_ptr s us p) r = none
callee (method_ptr c s us p) r = do x ← r; some x.addr
callee (const_method_ptr c s us p) r = do x ← r; some x.addr

unpack_args_cases :
    (o : Option ℕ) (b : Bento) (us : List ℕ) (c : TeaCup)
    → length c.values ≡ length c.types
    → unpack_args o b us c ≡ (
        if check_connect_args c.types us
        then some (record { object = o; method = b; arguments = take (length us) c.values })
        else none)
unpack_args_cases o b us c e = elim (dynamic_cast_cases c us e) [
  | inl (m, f) ↦ rw (m, f, unpack_args) refl
  | inr (m, f) ↦ rw (m, f, unpack_args) refl
]

pub invoke-take :
    (b : Bento) (r : Option Receiver) (c : TeaCup)
    → length c.values ≡ length c.types
    → invoke b r c ≡ (
        if can_receive b r && check_connect_args c.types (parameters b)
        then some (record {
          object = callee b r;
          method = b;
          arguments = take (length (parameters b)) c.values;
        })
        else none)
unfolding invoke
invoke-take (lambda i us) r c e = unpack_args_cases none _ us c e
invoke-take (function_ptr s us p) r c e = unpack_args_cases none _ us c e
invoke-take (method_ptr cls s us p) none c e = refl
invoke-take (const_method_ptr cls s us p) none c e = refl
invoke-take (method_ptr cls s us p) (some r) c e = elim (Bool_cases (r.is_a cls)) [
  | inl m ↦ rw m (unpack_args_cases (some r.addr) _ us c e)
  | inr m ↦ rw m refl
]
invoke-take (const_method_ptr cls s us p) (some r) c e = elim (Bool_cases (r.is_a cls)) [
  | inl m ↦ rw m (unpack_args_cases (some r.addr) _ us c e)
  | inr m ↦ rw m refl
]
