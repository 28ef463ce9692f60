-- ===== src/Serializers/SingleLine.antt =====
-- orkbasecxx/serializers/SingleLineSerializer.cpp.
pub mod RoundTrip
use orekacxx.Common.{ℕ, Bool, ◌∷◌, [], List, ◌++◌, ◌==◌, if◌then◌else◌}
use orekacxx.Common.Outcome.{Outcome, done, ◌>>=◌}
use orekacxx.Serializers.Reader.{Reader, Pairs, reader_init, read_all}

unfoldable pub escape_char : ℕ → List ℕ
escape_char c =
    if c == b' '
    then b'%' ∷ b's' ∷ []
    else if c == b'%'
    then b'%' ∷ b'p' ∷ []
    else if c == b'='
    then b'%' ∷ b'e' ∷ []
    else c ∷ []

unfoldable pub escape_single_line : List ℕ → List ℕ
escape_single_line [] = []
escape_single_line (c ∷ cs) = escape_char c ++ escape_single_line cs

-- The characters behind a `%`; any other, and the end of the text, stands for nothing.
unfoldable pub escaped : ℕ → List ℕ
escaped c =
    if c == b's'
    then b' ' ∷ []
    else if c == b'p'
    then b'%' ∷ []
    else if c == b'e'
    then b'=' ∷ []
    else []

pub data Place : Type 0 where
  plain percent : Place

unfoldable pub unescape_from : Place → List ℕ → List ℕ
unescape_from plain [] = []
unescape_from percent [] = []
unescape_from plain (c ∷ cs) =
    let escape = unescape_from percent cs in
    let literal = c ∷ unescape_from plain cs in if c == b'%' then escape else literal
unescape_from percent (c ∷ cs) = escaped c ++ unescape_from plain cs

unfoldable pub unescape_single_line : List ℕ → List ℕ
unfolding unescape_from
unescape_single_line = unescape_from plain

unfoldable pub add_string : List ℕ → List ℕ → List ℕ → List ℕ
add_string output key value = output ++ (key ++ b'=' ∷ (escape_single_line value ++ b' ' ∷ []))

-- `Serialize`, for an object whose `Define` hands on these fields in this order.
unfoldable pub serialize_from : List ℕ → Pairs → List ℕ
serialize_from output [] = output
serialize_from output ((k, v) ∷ fs) = serialize_from (add_string output k v) fs

unfoldable pub serialize : Pairs → List ℕ
serialize = serialize_from []

-- `DeSerialize` up to the object's `Define`. `trim` is the string class's.
unfoldable pub deserialize : (List ℕ → List ℕ) → List ℕ → Outcome Reader
deserialize trim input = read_all b' ' (λ s. done (unescape_single_line s)) reader_init (trim input)
