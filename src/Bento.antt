-- ===== src/Bento.antt =====
-- cs_internal.h: the arguments of a signal (`TeaCup`), the objects that hold signal and slot methods
-- (`Bento`), and the test that `connect` makes of their parameters. Types, classes and method
-- addresses are numbers.
pub mod Arguments
pub mod Equality
pub mod Delivery
pub mod Copies
use cs_signal.Prelude.{
  ℕ, zero, suc, ◌+◌, Bool, true, false, ◌&&◌, Option, none, some, List, [], ◌∷◌, ◌==◌,
  if◌then◌else◌, length, ◌>>=◌,
}
use cs_signal.RcuList.{Ptr, ptr_eq}

abbrev pub list_eq : List ℕ → List ℕ → Bool
list_eq [] [] = true
list_eq [] (b ∷ ys) = false
list_eq (a ∷ xs) [] = false
list_eq (a ∷ xs) (b ∷ ys) = (a == b) && list_eq xs ys

-- `cs_check_connect_args` on the parameter types of the signal and of the slot. `false` stands for
-- the value `false` and for a call that selects no specialization: neither compiles.
unfoldable pub check_connect_args : List ℕ → List ℕ → Bool
check_connect_args ts [] = true
check_connect_args [] (u ∷ us) = false
check_connect_args (t ∷ ts) (u ∷ us) = if t == u then check_connect_args ts us else false

-- `removeLastType`, and `funcRemoveData` on the tuple of those types.
abbrev pub remove_last {ℓ} : {A : Type ℓ} → List A → List A
remove_last [] = []
remove_last (x ∷ []) = []
remove_last (x ∷ y ∷ ys) = x ∷ remove_last (y ∷ ys)

-- A `TeaCup_Data<Ts...>`: the types, and what `getData` of the most derived class returns.
pub record TeaCup : Type 0 where
  pub types : List ℕ
  pub values : List ℕ

-- The base class of a `TeaCup<Ts...>`, whose `m_lambda` drops the last value of the derived one.
abbrev pub base : TeaCup → TeaCup
base c = record { types = remove_last c.types; values = remove_last c.values }

-- `dynamic_cast<const TeaCup<us...> *>(c)`: the base that has those types, `none` for a null pointer.
cast_chain : ℕ → TeaCup → List ℕ → Option TeaCup
cast_chain zero c us = if list_eq c.types us then some c else none
cast_chain (suc n) c us =
    let up = cast_chain n (base c) us in if list_eq c.types us then some c else up

unfoldable pub dynamic_cast : TeaCup → List ℕ → Option TeaCup
unfolding cast_chain
dynamic_cast c us = cast_chain (length c.types) c us

-- The four instances of `Bento`. A lambda has a class of its own, `id`.
pub data Bento : Type 0 where
  lambda : (id : ℕ) (args : List ℕ) → Bento
  function_ptr : (ret : ℕ) (args : List ℕ) (method_ptr : Ptr) → Bento
  method_ptr : (cls ret : ℕ) (args : List ℕ) (method_ptr : Ptr) → Bento
  const_method_ptr : (cls ret : ℕ) (args : List ℕ) (method_ptr : Ptr) → Bento

-- `operator==`: `dynamic_cast` of the right operand to the left one's class, then the pointers.
unfoldable pub bento_eq : Bento → Bento → Bool
bento_eq (lambda i xs) b = false
bento_eq (function_ptr r xs p) (function_ptr s ys q) = (r == s) && (list_eq xs ys && ptr_eq p q)
bento_eq (method_ptr c r xs p) (method_ptr d s ys q) =
    (c == d) && ((r == s) && (list_eq xs ys && ptr_eq p q))
bento_eq (const_method_ptr c r xs p) (const_method_ptr d s ys q) =
    (c == d) && ((r == s) && (list_eq xs ys && ptr_eq p q))
bento_eq a b = false

-- A `SlotBase *` that is not null: its address, and the classes that it can be cast to.
pub record Receiver : Type 0 where
  pub addr : ℕ
  pub is_a : ℕ → Bool

-- A call of a method on an object, `none` for a function or a lambda, with its arguments.
pub record Call : Type 0 where
  pub object : Option ℕ
  pub method : Bento
  pub arguments : List ℕ

abbrev pub unpack_args : Option ℕ → Bento → List ℕ → TeaCup → Option Call
unpack_args o b us c = do
  cup ← dynamic_cast c us
  some (record { object = o; method = b; arguments = cup.values })

abbrev pub invoke_method : ℕ → List ℕ → Bento → Option Receiver → TeaCup → Option Call
invoke_method cls us b none c = none
invoke_method cls us b (some r) c = if r.is_a cls then unpack_args (some r.addr) b us c else none

-- `invoke`: the call it makes, `none` if it returns without one.
unfoldable pub invoke : Bento → Option Receiver → TeaCup → Option Call
invoke (lambda i us) r c = unpack_args none (lambda i us) us c
invoke (function_ptr s us p) r c = unpack_args none (function_ptr s us p) us c
invoke (method_ptr cls s us p) r c = invoke_method cls us (method_ptr cls s us p) r c
invoke (const_method_ptr cls s us p) r c = invoke_method cls us (const_method_ptr cls s us p) r c
