-- ===== src/Serializers/Reader.antt =====
-- The loop of `DeSerialize`, which UrlSerializer.cpp and SingleLineSerializer.cpp both write out:
-- they differ in the separator of pairs and in how a value is unescaped.
pub mod Run
pub mod Trimmed
use orekacxx.Common.{
  ℕ, Bool, true, false, ◌||◌, ◌&&◌, not, List, [], ◌∷◌, ◌++◌, Option, none, some, ◌==◌,
  if◌then◌else◌,
}
use orekacxx.Common.Outcome.{Outcome, done, throws, faults, ◌>>=◌}
use orekacxx.Serializers.Chars.{is_alnum, str_eq}

abbrev pub is_nil {ℓ} : {A : Type ℓ} → List A → Bool
is_nil [] = true
is_nil (x ∷ xs) = false

-- The map of keys to values, in the order in which the keys came.
abbrev pub Pairs : Type 0
Pairs = List (List ℕ × List ℕ)

unfoldable pub find : List ℕ → Pairs → Option (List ℕ)
find k [] = none
find k ((j, v) ∷ m) = if str_eq j k then some v else find k m

-- `std::map::insert`, which leaves a key that is there alone.
unfoldable pub insert : List ℕ → List ℕ → Pairs → Pairs
insert k v [] = (k, v) ∷ []
insert k v ((j, w) ∷ m) = if str_eq j k then (j, w) ∷ m else (j, w) ∷ insert k v m

pub data State : Type 0 where
  start_state key_state value_state error_state : State

pub record Reader : Type 0 where
  pub state : State
  pub key : List ℕ
  pub value : List ℕ
  pub map : Pairs

abbrev pub reader_init : Reader
reader_init = record { state = start_state; key = []; value = []; map = [] }

-- The switch on the state.
unfoldable pub read_char : ℕ → Reader → ℕ → Reader
read_char separator r c = elim r.state [
  | start_state ↦
      if c == separator
      then r
      else if is_alnum c
      then record r { state = key_state; key = c ∷ [] }
      else record r { state = error_state }
  | key_state ↦
      if is_alnum c
      then record r { key = r.key ++ c ∷ [] }
      else if c == b'='
      then record r { state = value_state; value = [] }
      else record r { state = error_state }
  | value_state ↦
      if c == b'='
      then record r { state = error_state }
      else if c == separator
      then record r { state = start_state }
      else record r { value = r.value ++ c ∷ [] }
  | error_state ↦ record r { state = error_state }
]

abbrev pub is_start : State → Bool
is_start start_state = true
is_start _ = false

abbrev pub is_error : State → Bool
is_error error_state = true
is_error _ = false

-- What follows the switch: a pair is stored when its separator, or the end of the input, is met.
unfoldable pub store_pair : (List ℕ → Outcome (List ℕ)) → Bool → Reader → Outcome Reader
store_pair unescape last r =
    if (is_start r.state || last) && not (is_nil r.key)
    then (unescape r.value >>= λ unescaped.
        done (record r { key = []; value = []; map = insert r.key unescaped r.map }))
    else done r

-- The loop stops behind an error.
unfoldable pub read_all : ℕ → (List ℕ → Outcome (List ℕ)) → Reader → List ℕ → Outcome Reader
read_all separator unescape r [] = done r
read_all separator unescape r (c ∷ cs) = elim (is_error r.state) [
  | true ↦ done r
  | false ↦ store_pair unescape (is_nil cs) (read_char separator r c) >>= λ r'.
      read_all separator unescape r' cs
]
