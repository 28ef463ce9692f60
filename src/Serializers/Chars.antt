-- ===== src/Serializers/Chars.antt =====
-- Bytes of text, as the serializers test them: the C library's functions in the "C" locale.
use Prim.Native.String.{String}
use Prim.Native.Char.{code}
use mathlib.Core.Path.{◌≡◌, refl}
use orekacxx.Common.{
  ℕ, ◌+◌, ◌-◌, ◌*◌, ◌%◌, Bool, true, false, ◌&&◌, ◌||◌, List, [], ◌∷◌, Option, none, some, leb,
  ◌==◌, arith, ◌↔◌, if◌then◌else◌,
}

abbrev pub codes : String → List ℕ
codes String.[] = []
codes (String.◌∷◌ c s) = code c ∷ codes s

unfoldable pub is_alnum : ℕ → Bool
is_alnum c =
    (leb b'0' c && leb c b'9') || ((leb b'A' c && leb c b'Z') || (leb b'a' c && leb c b'z'))

-- Blank, tab, line feed, vertical tab, form feed, carriage return.
unfoldable pub is_space : ℕ → Bool
is_space c = c == 32 || (leb 9 c && leb c 13)

unfoldable pub contains : ℕ → List ℕ → Bool
contains c [] = false
contains c (x ∷ xs) = c == x || contains c xs

-- What a conversion to a C string keeps of a text: the bytes before the first zero.
unfoldable pub until_nul : List ℕ → List ℕ
until_nul [] = []
until_nul (c ∷ cs) = if c == 0 then [] else c ∷ until_nul cs

-- `strchr(s, c) != NULL`: the terminating zero of `s` counts.
unfoldable pub strchr : List ℕ → ℕ → Bool
unfolding contains
strchr s c = c == 0 || contains c s

unfoldable pub hex_value : ℕ → Option ℕ
hex_value c =
    if leb b'0' c && leb c b'9'
    then some (c - b'0')
    else if leb b'A' c && leb c b'F'
    then some (c - b'A' + 10)
    else if leb b'a' c && leb c b'f'
    then some (c - b'a' + 10)
    else none

abbrev or_zero : Option ℕ → ℕ
or_zero none = 0
or_zero (some n) = n

-- `(char)strtol(pchHex, NULL, 16)` for the two characters and a terminating zero: digits up to the
-- first character that is none, after white space or a sign. A prefix `0x` is a zero here.
unfoldable pub strtol_16 : ℕ → ℕ → ℕ
unfolding hex_value is_space
strtol_16 c d = elim (hex_value c) [
  | some hi ↦ elim (hex_value d) [ some lo ↦ hi * 16 + lo | none ↦ hi ]
  | none ↦
      if c == b'-'
      then (256 - or_zero (hex_value d)) % 256
      else if is_space c || c == b'+'
      then or_zero (hex_value d)
      else 0
]

unfoldable pub str_eq : List ℕ → List ℕ → Bool
str_eq [] [] = true
str_eq [] (y ∷ ys) = false
str_eq (x ∷ xs) [] = false
str_eq (x ∷ xs) (y ∷ ys) = x == y && str_eq xs ys

str_eq-eq : (s t : List ℕ) → str_eq s t ≡ true → s ≡ t
unfolding str_eq
str_eq-eq [] [] h = refl
str_eq-eq [] (y ∷ ys) h = absurd (ground arith)
str_eq-eq (x ∷ xs) [] h = absurd (ground arith)
str_eq-eq (x ∷ xs) (y ∷ ys) h = grind (arith, str_eq-eq xs ys)

str_eq_self : (s : List ℕ) → str_eq s s ≡ true
unfolding str_eq
str_eq_self [] = refl
str_eq_self (c ∷ cs) = ground (arith, str_eq_self cs)

pub str_eq_iff : (s t : List ℕ) → (str_eq s t ≡ true) ↔ (s ≡ t)
unfolding str_eq
str_eq_iff s t = (str_eq-eq s t, λ e. rw e (str_eq_self t))

abbrev pub starts_with_space : List ℕ → Bool
starts_with_space [] = false
starts_with_space (c ∷ cs) = is_space c

abbrev pub ends_with_space : List ℕ → Bool
ends_with_space [] = false
ends_with_space (c ∷ []) = is_space c
ends_with_space (c ∷ d ∷ cs) = ends_with_space (d ∷ cs)

-- A text that neither starts nor ends with white space.
abbrev pub IsTrimmed : List ℕ → Type 0
IsTrimmed s = (starts_with_space s ≡ false) × (ends_with_space s ≡ false)
