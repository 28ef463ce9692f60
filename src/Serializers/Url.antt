-- ===== src/Serializers/Url.antt =====
-- orkbasecxx/serializers/UrlSerializer.cpp.
pub mod RoundTrip
use orekacxx.Common.{ℕ, ◌/◌, ◌%◌, Bool, ◌∷◌, [], List, ◌++◌, get_or, ◌==◌, if◌then◌else◌}
use orekacxx.Common.Outcome.{Outcome, done, throws, ◌>>=◌}
use orekacxx.Serializers.Chars.{codes, strchr, strtol_16, until_nul}
use orekacxx.Serializers.Reader.{Reader, Pairs, reader_init, read_all}

unfoldable pub url_ok_chars : List ℕ
url_ok_chars = codes "-.0123456789@ABCDEFGHIJKLMNOPQRSTUVWXYZ_abcdefghijklmnopqrstuvwxyz"

unfoldable pub hex_digits : List ℕ
hex_digits = codes "0123456789ABCDEF"

unfoldable pub escape_char : ℕ → List ℕ
escape_char c =
    if c == b' '
    then b'+' ∷ []
    else if strchr url_ok_chars c
    then c ∷ []
    else b'%' ∷ get_or hex_digits (c / 16) 0 ∷ get_or hex_digits (c % 16) 0 ∷ []

unfoldable pub escape_url : List ℕ → List ℕ
escape_url [] = []
escape_url (c ∷ cs) = escape_char c ++ escape_url cs

-- Where the loop of `UnEscapeUrl` stands: at the start of a round, behind a `%`, or behind the first
-- of two digits. `GetAt` throws behind the end of the text.
pub data Place : Type 0 where
  plain percent : Place
  digit : ℕ → Place

unfoldable pub unescape_from : Place → List ℕ → Outcome (List ℕ)
unescape_from plain [] = done []
unescape_from percent [] = throws
unescape_from (digit d) [] = throws
unescape_from plain (c ∷ cs) =
    let literal = (λ (x : ℕ). unescape_from plain cs >>= λ out. done (x ∷ out)) in
    let escape = unescape_from percent cs in
    if c == b'+' then literal b' ' else if c == b'%' then escape else literal c
unescape_from percent (c ∷ cs) =
    let literal = unescape_from plain cs >>= λ out. done (b'%' ∷ out) in
    let hex = unescape_from (digit c) cs in if c == b'%' then literal else hex
unescape_from (digit d) (c ∷ cs) = unescape_from plain cs >>= λ out. done (strtol_16 d c ∷ out)

unfoldable pub unescape_url : List ℕ → Outcome (List ℕ)
unfolding unescape_from
unescape_url = unescape_from plain

-- `AddString` appends to `m_output`; the fields come from the object's `Define`. The escaped value goes
-- through `(PCSTR)`, so what stands behind a zero byte is lost.
unfoldable pub add_string : List ℕ → List ℕ → List ℕ → List ℕ
add_string output key value = output ++ (key ++ b'=' ∷ (until_nul (escape_url value) ++ b'&' ∷ []))

-- `Serialize`, for an object whose `Define` hands on these fields in this order.
unfoldable pub serialize_from : List ℕ → Pairs → List ℕ
serialize_from output [] = output
serialize_from output ((k, v) ∷ fs) = serialize_from (add_string output k v) fs

unfoldable pub serialize : Pairs → List ℕ
serialize = serialize_from []

-- `DeSerialize` up to the object's `Define`. `trim` is the string class's.
unfoldable pub deserialize : (List ℕ → List ℕ) → List ℕ → Outcome Reader
deserialize trim input = read_all b'&' unescape_url reader_init (trim input)
