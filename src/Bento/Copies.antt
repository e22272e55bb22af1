-- ===== src/Bento/Copies.antt =====
-- `TeaCup_Data` of cs_internal.h: the arguments of a signal, and the copy that a queued call makes.
use cs_signal.Prelude.{
  ℕ, zero, suc, ◌≡◌, refl, ap, subst, ◌++◌, append_assoc, length, ◌>>=◌, Bool, true, false, Option,
  none, some, List, [], ◌∷◌, map, if◌then◌else◌,
}

-- An argument of `activate`: a value, or a reference to the variable at an address.
pub data Argument : Type 0 where
  value : ℕ → Argument
  reference : (variable : ℕ) → Argument

-- A component of `m_data`: a value, or a reference to a variable or to a component of the copy.
pub data Datum : Type 0 where
  stored : ℕ → Datum
  to_variable : ℕ → Datum
  to_copy : (index : ℕ) → Datum

pub record TeaCupData : Type 0 where
  pub copy_of_data : Option (List ℕ)
  pub data_tuple : List Datum

-- What an argument is while the variables are `memory`.
abbrev pub current : (ℕ → ℕ) → Argument → ℕ
current memory (value n) = n
current memory (reference x) = memory x

-- `convert_tuple` of the copy, from the component `k` on.
abbrev pub convert_tuple : ℕ → List Argument → List ℕ → List Datum
convert_tuple k [] vs = []
convert_tuple k (a ∷ bs) [] = []
convert_tuple k (value n ∷ bs) (v ∷ vs) = stored v ∷ convert_tuple (suc k) bs vs
convert_tuple k (reference x ∷ bs) (v ∷ vs) = to_copy k ∷ convert_tuple (suc k) bs vs

abbrev pub uncopied : Argument → Datum
uncopied (value n) = stored n
uncopied (reference x) = to_variable x

-- The constructor.
unfoldable pub make_data : (needs_copying : Bool) → (ℕ → ℕ) → List Argument → TeaCupData
make_data true memory arguments = record {
  copy_of_data = some (map (current memory) arguments);
  data_tuple = convert_tuple 0 arguments (map (current memory) arguments);
}
make_data false memory arguments = record {
  copy_of_data = none;
  data_tuple = map uncopied arguments;
}

abbrev pub component : ℕ → List ℕ → Option ℕ
component k [] = none
component zero (v ∷ vs) = some v
component (suc k) (v ∷ vs) = component k vs

abbrev pub read_datum : (ℕ → ℕ) → Option (List ℕ) → Datum → Option ℕ
read_datum memory copy (stored n) = some n
read_datum memory copy (to_variable x) = some (memory x)
read_datum memory copy (to_copy k) = do vs ← copy; component k vs

abbrev pub read_tuple : (ℕ → ℕ) → Option (List ℕ) → List Datum → Option (List ℕ)
read_tuple memory copy [] = some []
read_tuple memory copy (d ∷ ds) = do
  v ← read_datum memory copy d
  vs ← read_tuple memory copy ds
  some (v ∷ vs)

-- What a slot that has the result of `getData` reads from it.
unfoldable pub get_data : (ℕ → ℕ) → TeaCupData → Option (List ℕ)
get_data memory d = read_tuple memory d.copy_of_data d.data_tuple

read-uncopied :
    (memory : ℕ → ℕ) (arguments : List Argument)
    → read_tuple memory none (map uncopied arguments) ≡ some (map (current memory) arguments)
read-uncopied memory [] = refl
read-uncopied memory (value n ∷ bs) = rw (read-uncopied memory bs) refl
read-uncopied memory (reference x ∷ bs) = rw (read-uncopied memory bs) refl

component-append :
    (vs : List ℕ) (v : ℕ) (ws : List ℕ) → component (length vs) (vs ++ v ∷ ws) ≡ some v
component-append [] v ws = refl
component-append (u ∷ vs) v ws = component-append vs v ws

length-snoc : (vs : List ℕ) (v : ℕ) → length (vs ++ v ∷ []) ≡ suc (length vs)
length-snoc [] v = refl
length-snoc (u ∷ vs) v = ap suc (length-snoc vs v)

next_component :
    (memory later : ℕ → ℕ) (vs : List ℕ) (v : ℕ) (bs : List Argument)
    → let ws = map (current memory) bs in
      read_tuple later (some ((vs ++ v ∷ []) ++ ws)) (convert_tuple (length (vs ++ v ∷ [])) bs ws)
        ≡ some ws
      → read_tuple later (some (vs ++ v ∷ ws)) (convert_tuple (suc (length vs)) bs ws) ≡ some ws
next_component memory later vs v bs h =
    let ws = map (current memory) bs in
    subst (λ c. read_tuple later (some c) (convert_tuple (suc (length vs)) bs ws) ≡ some ws)
      (append_assoc vs (v ∷ []) ws)
      (subst (λ k. read_tuple later (some ((vs ++ v ∷ []) ++ ws)) (convert_tuple k bs ws) ≡ some ws)
        (length-snoc vs v) h)

-- The components behind the first ones, which are `vs`.
read-convert_tuple :
    (memory later : ℕ → ℕ) (vs : List ℕ) (arguments : List Argument)
    → read_tuple later
        (some (vs ++ map (current memory) arguments))
        (convert_tuple (length vs) arguments (map (current memory) arguments))
      ≡ some (map (current memory) arguments)
read-convert_tuple memory later vs [] = refl
read-convert_tuple memory later vs (value n ∷ bs) =
    let rest =
      next_component memory later vs n bs (read-convert_tuple memory later (vs ++ n ∷ []) bs) in
    rw rest refl
read-convert_tuple memory later vs (reference x ∷ bs) =
    let v = memory x in
    let rest =
      next_component memory later vs v bs (read-convert_tuple memory later (vs ++ v ∷ []) bs) in
    rw (component-append vs v (map (current memory) bs), rest) refl

-- A slot that gets a copied tuple reads the arguments as they were when the tuple was made,
-- whatever became of the variables since; with a tuple that is not copied it reads the values, and
-- the variables as they are when it runs.
pub get_data-make_data :
    (needs_copying : Bool) (memory later : ℕ → ℕ) (arguments : List Argument)
    → get_data later (make_data needs_copying memory arguments)
      ≡ some (map (current (if needs_copying then memory else later)) arguments)
unfolding make_data get_data
get_data-make_data true memory later arguments = read-convert_tuple memory later [] arguments
get_data-make_data false memory later arguments = read-uncopied later arguments
