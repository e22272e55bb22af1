-- ===== src/Tests/Bentos.antt =====
-- The theorems on cs_internal.h at a signal of two parameters, of the types 100 and 101, and slots that
-- take the first one.
use cs_signal.Prelude.{
  ◌≡◌, refl, true, false, ◌==◌, ◌⊎◌, ◌↔◌, ◌&&◌, if◌then◌else◌, none, some, [], ◌∷◌,
}
use cs_signal.Bento.{
  Bento, function_ptr, method_ptr, TeaCup, Receiver, check_connect_args, dynamic_cast, invoke,
  bento_eq,
}
use cs_signal.Bento.Arguments.{dynamic_cast_cases}
use cs_signal.Bento.Equality.{bento_eq_iff, is_lambda}
use cs_signal.Bento.Copies.{Argument, value, reference, make_data, get_data, get_data-make_data}
use cs_signal.Bento.Delivery.{invoke-take, can_receive}

abbrev two_values : TeaCup
two_values = record { types = 100 ∷ 101 ∷ []; values = 7 ∷ 9 ∷ [] }

abbrev button : Receiver
button = record { addr = 2; is_a = λ cls. cls == 20 }

abbrev set_value : Bento
set_value = method_ptr 20 0 (100 ∷ []) (some 6)

dynamic_cast_cases_example :
    ((check_connect_args (100 ∷ 101 ∷ []) (100 ∷ []) ≡ true)
      × (dynamic_cast two_values (100 ∷ []) ≡ some (record { types = 100 ∷ []; values = 7 ∷ [] })))
    ⊎ ((check_connect_args (100 ∷ 101 ∷ []) (100 ∷ []) ≡ false)
        × (dynamic_cast two_values (100 ∷ []) ≡ none))
dynamic_cast_cases_example = dynamic_cast_cases two_values (100 ∷ []) refl

invoke-take_example : invoke set_value (some button) two_values ≡ (
    if can_receive set_value (some button) && check_connect_args (100 ∷ 101 ∷ []) (100 ∷ [])
    then some (record { object = some 2; method = set_value; arguments = 7 ∷ [] })
    else none)
invoke-take_example = invoke-take set_value (some button) two_values refl

bento_eq_iff_example :
    (bento_eq set_value (function_ptr 0 (100 ∷ []) (some 6)) ≡ true)
    ↔ ((set_value ≡ function_ptr 0 (100 ∷ []) (some 6)) × (is_lambda set_value ≡ false))
bento_eq_iff_example = bento_eq_iff set_value (function_ptr 0 (100 ∷ []) (some 6))

abbrev counter : Argument
counter = reference 0

get_data-make_data_example :
    get_data (λ _. 8) (make_data true (λ _. 7) (value 3 ∷ counter ∷ [])) ≡ some (3 ∷ 7 ∷ [])
get_data-make_data_example = get_data-make_data true (λ _. 7) (λ _. 8) (value 3 ∷ counter ∷ [])
