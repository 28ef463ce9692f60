-- ===== src/Serializers/Url/RoundTrip.antt =====
-- Escaping for a URL and back.
use orekacxx.Common.{
  ℕ, ◌<◌, ◌/◌, ◌%◌, ◌≡◌, refl, ap, ◌∙◌, Bool, true, false, not, ◌&&◌, List, [], ◌∷◌, ◌++◌, get_or,
  arith, All, ◌==◌, ==_iff, inl, inr, Bool-cases, if◌then◌else◌, ◌||◌,
}
use orekacxx.Common.Bytes.{every_byte, every_byte_lem}
use orekacxx.Common.Outcome.{done, ◌>>=◌}
use orekacxx.Serializers.Chars.{
  is_space, is_alnum, IsTrimmed, strchr, strtol_16, contains, str_eq, until_nul,
}
use orekacxx.Serializers.Url.{serialize, serialize_from}
use orekacxx.Serializers.Reader.Trimmed.{written-IsTrimmed}
use orekacxx.Serializers.Reader.{read_all, reader_init}
use orekacxx.Common.{All-map}
use mathlib.Core.List.{append-nil, append_assoc}
use orekacxx.Serializers.Reader.{Pairs, start_state}
use orekacxx.Serializers.Reader.Run.{
  all_plain, all_plain-append, written, AreFields, AreNew-nil, read_written,
}
use orekacxx.Serializers.Url.{
  add_string, deserialize, escape_char, escape_url, plain, unescape_from, unescape_url,
  url_ok_chars, hex_digits,
}

abbrev pub IsByte : ℕ → Type 0
IsByte c = c < 256

-- What the loop needs to know of a byte and its escape.
abbrev escape_test : ℕ → Bool
escape_test c =
    if c == b' '
    then true
    else if strchr url_ok_chars c
    then not (c == b'+') && (not (c == b'%') && (not (c == b'=') && not (c == b'&')))
    else not (get_or hex_digits (c / 16) 0 == b'%')
      && (strtol_16 (get_or hex_digits (c / 16) 0) (get_or hex_digits (c % 16) 0) == c)

escape_table : every_byte escape_test ≡ true
unfolding every_byte strchr contains strtol_16 url_ok_chars hex_digits
escape_table = refl

escape_byte : (c : ℕ) → IsByte c → escape_test c ≡ true
escape_byte = every_byte_lem escape_test escape_table

and_true : (a b : Bool) → (a && b) ≡ true → (a ≡ true) × (b ≡ true)
and_true a b h = ground arith

-- A byte that stands for itself.
unescape-plain :
    (c : ℕ) (rest : List ℕ)
    → (c == b'+') ≡ false
    → (c == b'%') ≡ false
    → unescape_from plain (c ∷ rest) ≡ (unescape_from plain rest >>= λ out. done (c ∷ out))
unfolding unescape_from
unescape-plain c rest h k = rw (h, k)

unescape-hex :
    (c hi lo : ℕ) (rest : List ℕ)
    → (hi == b'%') ≡ false
    → strtol_16 hi lo ≡ c
    → unescape_from plain (b'%' ∷ hi ∷ lo ∷ rest)
      ≡ (unescape_from plain rest >>= λ out. done (c ∷ out))
unfolding unescape_from
unescape-hex c hi lo rest h k = rw (h, k)

unescape-escape_char :
    (c : ℕ) (rest : List ℕ)
    → IsByte c
    → unescape_from plain (escape_char c ++ rest)
      ≡ (unescape_from plain rest >>= λ out. done (c ∷ out))
unfolding escape_char
unescape-escape_char c rest h =
    let t = escape_byte c h in
    elim (Bool-cases (c == b' ')) [
      | inl space ↦ rw (space, (==_iff c b' ').0 space) (unfold unescape_from in refl)
      | inr other ↦ elim (Bool-cases (strchr url_ok_chars c)) [
        | inl ok ↦
            rw (other, ok)
              (unescape-plain c rest (ground (arith, rw (other, ok) at t))
                (ground (arith, rw (other, ok) at t)))
        | inr bad ↦
            rw (other, bad)
              (unescape-hex c _ _ rest (ground (arith, rw (other, bad) at t))
                ((==_iff _ c).0 (and_true _ _ (rw (other, bad) at t)).1))
      ]
    ]

escape_url-plain_from : (s : List ℕ) → All IsByte s → unescape_from plain (escape_url s) ≡ done s
unfolding escape_url unescape_from
escape_url-plain_from [] h = refl
escape_url-plain_from (c ∷ cs) h =
    unescape-escape_char c (escape_url cs) h.0 ∙ rw (escape_url-plain_from cs h.1)

-- Unescaping gives back every text of bytes that was escaped, and throws for none.
pub unescape_url-escape_url : (s : List ℕ) → All IsByte s → unescape_url (escape_url s) ≡ done s
unfolding unescape_url
unescape_url-escape_url s h = escape_url-plain_from s h

plain_table : every_byte (λ c. all_plain b'&' (escape_char c)) ≡ true
unfolding every_byte strchr contains escape_char url_ok_chars hex_digits
plain_table = refl

escape_url-plain : (s : List ℕ) → All IsByte s → all_plain b'&' (escape_url s) ≡ true
unfolding escape_url
escape_url-plain [] h = refl
escape_url-plain (c ∷ cs) h =
    all_plain-append b'&' (escape_char c) (escape_url cs) (every_byte_lem _ plain_table c h.0)
      (escape_url-plain cs h.1)

-- The fields, the values as C strings.
unfoldable pub as_c_strings : Pairs → Pairs
as_c_strings [] = []
as_c_strings ((k, v) ∷ fs) = (k, until_nul v) ∷ as_c_strings fs

until_nul-append : (a b : List ℕ) → contains 0 a ≡ false → until_nul (a ++ b) ≡ a ++ until_nul b
unfolding until_nul contains
until_nul-append [] b h = refl
until_nul-append (c ∷ cs) b h = elim (Bool-cases (c == 0)) [
  | inl nul ↦ absurd (ground (arith, h, nul))
  | inr other ↦ rw other (ap (◌∷◌ c) (until_nul-append cs b (ground (arith, h))))
]

no_nul_table : every_byte (λ c. c == 0 || not (contains 0 (escape_char c))) ≡ true
unfolding every_byte strchr contains escape_char url_ok_chars hex_digits
no_nul_table = refl

escape_char-no_nul : (c : ℕ) → IsByte c → (c == 0) ≡ false → contains 0 (escape_char c) ≡ false
escape_char-no_nul c b h =
    let t = every_byte_lem (λ c. c == 0 || not (contains 0 (escape_char c))) no_nul_table c b in
    ground (arith, h, t)

until_nul-nul : (rest : List ℕ) → until_nul (escape_char 0 ++ rest) ≡ []
unfolding until_nul escape_char strchr contains url_ok_chars
until_nul-nul rest = refl

-- A zero byte is not escaped, and no escape holds one.
until_nul-escape_url :
    (v : List ℕ) → All IsByte v → until_nul (escape_url v) ≡ escape_url (until_nul v)
unfolding escape_url
until_nul-escape_url [] b = unfold until_nul in refl
until_nul-escape_url (c ∷ cs) b = elim (Bool-cases (c == 0)) [
  | inl nul ↦
      ap (λ x. until_nul (escape_char x ++ escape_url cs)) ((==_iff c 0).0 nul)
      ∙ (until_nul-nul (escape_url cs) ∙ (unfold until_nul in rw nul refl))
  | inr other ↦
      until_nul-append (escape_char c) (escape_url cs) (escape_char-no_nul c b.0 other)
      ∙ (ap (◌++◌ (escape_char c)) (until_nul-escape_url cs b.1)
          ∙ (unfold until_nul in rw other refl))
]

until_nul-bytes : (v : List ℕ) → All IsByte v → All IsByte (until_nul v)
unfolding until_nul
until_nul-bytes [] b = tt
until_nul-bytes (c ∷ cs) b = elim (Bool-cases (c == 0)) [
  | inl nul ↦ rw nul tt
  | inr other ↦ rw other (b.0, until_nul-bytes cs b.1)
]

as_c_strings-bytes :
    (fs : Pairs) → All (λ f. All IsByte f.1) fs → All (λ f. All IsByte f.1) (as_c_strings fs)
unfolding as_c_strings
as_c_strings-bytes [] b = tt
as_c_strings-bytes ((k, v) ∷ fs) b = (until_nul-bytes v b.0, as_c_strings-bytes fs b.1)

as_c_strings-keys :
    (k : List ℕ) (fs : Pairs)
    → All (λ f. str_eq k f.0 ≡ false) fs
    → All (λ f. str_eq k f.0 ≡ false) (as_c_strings fs)
unfolding as_c_strings
as_c_strings-keys k [] h = tt
as_c_strings-keys k ((j, v) ∷ fs) h = (h.0, as_c_strings-keys k fs h.1)

as_c_strings-AreFields : (fs : Pairs) → AreFields fs → AreFields (as_c_strings fs)
unfolding as_c_strings
as_c_strings-AreFields [] f = tt
as_c_strings-AreFields ((k, v) ∷ fs) f =
    (f.0, as_c_strings-keys k fs f.1, as_c_strings-AreFields fs f.2)

serialize_from-written :
    (fs : Pairs) (output : List ℕ)
    → All (λ f. All IsByte f.1) fs
    → serialize_from output fs ≡ output ++ written b'&' escape_url (as_c_strings fs)
unfolding serialize_from add_string as_c_strings
serialize_from-written [] output b = rw append-nil
serialize_from-written ((k, v) ∷ fs) output b =
    serialize_from-written fs (add_string output k v) b.1
    ∙ rw (until_nul-escape_url v b.0) (simp append_assoc)

-- Reading what was written gives the fields back: with keys that are alphanumeric, not empty and
-- different, and values that are bytes, `DeSerialize` on the output of `Serialize` ends normally, at the
-- start of a pair, with exactly the fields in its map, each value up to its first zero byte. `trim`
-- leaves trimmed text alone.
pub deserialize-serialize :
    (trim : List ℕ → List ℕ)
    → ((s : List ℕ) → IsTrimmed s → trim s ≡ s)
    → (fs : Pairs) → AreFields fs
    → All (λ f. All IsByte f.1) fs
    → deserialize trim (serialize fs)
      ≡ done (record { state = start_state; key = []; value = []; map = as_c_strings fs })
unfolding serialize deserialize
deserialize-serialize trim keeps fs f b =
    let e = serialize_from-written fs [] b in
    let g = as_c_strings-AreFields fs f in
    ap (read_all b'&' unescape_url reader_init) (
      ap trim e
      ∙ keeps _ (written-IsTrimmed b'&' escape_url (as_c_strings fs) (unfold is_space in refl) g))
    ∙ read_written b'&' unescape_url escape_url (unfold is_alnum in refl) refl (as_c_strings fs) []
        g
        (All-map (λ v h. (escape_url-plain v.1 h, unescape_url-escape_url v.1 h)) (as_c_strings fs)
          (as_c_strings-bytes fs b))
        (AreNew-nil (as_c_strings fs))
