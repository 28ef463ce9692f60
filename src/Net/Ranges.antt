-- ===== src/Net/Ranges.antt =====
-- `inet_ntopV4`, `inet_pton4` and `IpRanges` of orkbasecxx/Utils.cpp. An address is the number that its
-- four bytes are in network order.
pub mod Printed
pub mod Blocks
use Prim.Native.Nat.{min}
use orekacxx.Common.{
  ℕ, ◌+◌, ◌-◌, ◌*◌, ◌/◌, ◌%◌, ◌^◌, ◌<◌, Bool, true, false, not, ◌&&◌, ◌||◌, List, [], ◌∷◌, ◌++◌,
  Option, none, some, length, leb, ltb, ◌==◌, if◌then◌else◌,
}
use orekacxx.Serializers.Chars.{is_space}
use orekacxx.Common.Int.{ℤ, pos, negsuc}
use orekacxx.Common.Outcome.{Outcome, done, throws, ◌>>=◌}

-- `%u` of a byte.
unfoldable pub decimal : ℕ → List ℕ
decimal b =
    if ltb b 10
    then (48 + b) ∷ []
    else if ltb b 100
    then (48 + b / 10) ∷ (48 + b % 10) ∷ []
    else (48 + b / 100) ∷ (48 + b / 10 % 10) ∷ (48 + b % 10) ∷ []

-- The destination is long enough for any address.
unfoldable pub inet_ntop_v4 : (a b c d : ℕ) → List ℕ
inet_ntop_v4 a b c d = decimal a ++ b'.' ∷ (decimal b ++ b'.' ∷ (decimal c ++ b'.' ∷ decimal d))

-- The variables of the loop: `before` is the number that the finished bytes of `tmp` make, `current` is
-- `*tp`.
pub record Pton : Type 0 where
  pub saw_digit : Bool
  pub octets : ℕ
  pub before : ℕ
  pub current : ℕ

abbrev pub pton_init : Pton
pton_init = record { saw_digit = false; octets = 0; before = 0; current = 0 }

-- A digit; `none` is the result 0 of the function.
unfoldable pub digit_step : Pton → ℕ → Option Pton
digit_step s digit =
    let val = s.current * 10 + digit in
    if ltb 255 val
    then none
    else if s.saw_digit
    then some (record s { current = val })
    else if ltb 4 (s.octets + 1)
    then none
    else some (record s { current = val; octets = s.octets + 1; saw_digit = true })

unfoldable pub pton_step : Pton → ℕ → Option Pton
pton_step s ch =
    if leb b'0' ch && leb ch b'9'
    then digit_step s (ch - b'0')
    else if ch == b'.' && s.saw_digit
    then (if s.octets == 4
        then none
        else some
            (record s { before = s.before * 256 + s.current; current = 0; saw_digit = false }))
    else none

abbrev pub and_go_on {ℓ κ} : {A : Type ℓ} {B : Type κ} → Option A → (A → Option B) → Option B
and_go_on none f = none
and_go_on (some a) f = f a

unfoldable pub pton_loop : Pton → List ℕ → Option ℕ
pton_loop s [] = if ltb s.octets 4 then none else some (s.before * 256 + s.current)
pton_loop s (ch ∷ src) = and_go_on (pton_step s ch) (λ s'. pton_loop s' src)

unfoldable pub inet_pton4 : List ℕ → Option ℕ
inet_pton4 src = pton_loop pton_init src

-- One entry of the two lists that `Compute` fills.
pub record Range : Type 0 where
  pub prefix : ℕ
  pub bit_width : ℕ

-- `Find('/')`: what stands before the first slash and behind it.
unfoldable pub at_slash : List ℕ → Option (List ℕ × List ℕ)
at_slash [] = none
at_slash (c ∷ cs) =
    if c == b'/'
    then some ([], cs)
    else (elim (at_slash cs) [ none ↦ none | some p ↦ some (c ∷ p.0, p.1) ])

-- The digits to the end of a text.
unfoldable pub digits_value : ℕ → List ℕ → Option ℕ
digits_value k [] = some k
digits_value k (c ∷ cs) =
    let rest = digits_value (k * 10 + (c - b'0')) cs in
    if leb b'0' c && leb c b'9' then rest else none

-- A `long` as an `int`.
abbrev pub to_int : ℕ → ℤ
to_int n = let w = n % 2 ^ 32 in if ltb w (2 ^ 31) then pos w else negsuc (2 ^ 32 - w - 1)

abbrev pub signed_value : Bool → List ℕ → Option ℤ
signed_value minus [] = none
signed_value minus (c ∷ cs) = elim (digits_value 0 (c ∷ cs)) [
  | none ↦ none
  | some n ↦ some (if minus then to_int (2 ^ 64 - min n (2 ^ 63)) else to_int (min n (2 ^ 63 - 1)))
]

abbrev pub after_sign : List ℕ → Option ℤ
after_sign [] = none
after_sign (c ∷ cs) =
    if c == b'-'
    then signed_value true cs
    else if c == b'+'
    then signed_value false cs
    else signed_value false (c ∷ cs)

unfoldable pub after_space : List ℕ → List ℕ
after_space [] = []
after_space (c ∷ cs) = if is_space c then after_space cs else c ∷ cs

-- `StringToInt` of Utils.h: `strtol`, which must come to the end of the text; `none` is its
-- exception. An empty text is 0.
unfoldable pub string_to_int : List ℕ → Option ℤ
string_to_int [] = some (pos 0)
string_to_int (c ∷ cs) = after_sign (after_space (c ∷ cs))

-- A prefix length that is no number, negative or 0, or more than 32 is refused.
abbrev pub checked_length : Option ℤ → Outcome ℕ
checked_length none = throws
checked_length (some (negsuc k)) = throws
checked_length (some (pos n)) = if ltb n 1 || ltb 32 n then throws else done n

abbrev pub range_at : Option ℕ → ℕ → Outcome Range
range_at none n = throws
range_at (some a) n = done (record { prefix = a / 2 ^ (32 - n); bit_width = 32 - n })

-- An entry with a slash that is not its first character.
abbrev pub compute_at : List ℕ → Option (List ℕ × List ℕ) → Outcome Range
compute_at entry none = range_at (inet_pton4 entry) 32
compute_at entry (some ([], bits)) = range_at (inet_pton4 entry) 32
compute_at entry (some (c ∷ cs, bits)) =
    checked_length (string_to_int bits) >>= λ n. range_at (inet_pton4 (c ∷ cs)) n

unfoldable pub compute : List (List ℕ) → Outcome (List Range)
compute [] = done []
compute (entry ∷ entries) =
    compute_at entry (at_slash entry) >>= λ r. compute entries >>= λ rs. done (r ∷ rs)

unfoldable pub matches : List Range → ℕ → Bool
matches [] ip = false
matches (r ∷ rs) ip = ip / 2 ^ r.bit_width == r.prefix || matches rs ip
