-- ===== src/SipTcp/Search.antt =====
-- The searches at the top of SipTcp.cpp, and the number that `sscanf` reads. A pointer is the list of
-- the bytes that can be read from it on, `n` is how far the end of the search is from it, and a read
-- behind the last byte is a fault. A place that is found is given by its distance.
pub mod Found
pub mod First
use orekacxx.Common.{
  ℕ, zero, suc, ◌+◌, ◌-◌, ◌*◌, ◌^◌, Bool, true, false, ◌&&◌, ◌||◌, List, [], ◌∷◌, Option, none,
  some, length, leb, ltb, ◌==◌, if◌then◌else◌,
}
use orekacxx.Common.Int.{ℤ, pos, negsuc}
use orekacxx.Common.Outcome.{Outcome, done, faults, ◌>>=◌}
use orekacxx.Serializers.Chars.{is_space}

-- `tolower` and `toupper` in the "C" locale.
abbrev pub tolower : ℕ → ℕ
tolower c = if leb b'A' c && leb c b'Z' then c + 32 else c

abbrev pub toupper : ℕ → ℕ
toupper c = if leb b'a' c && leb c b'z' then c - 32 else c

-- `strncasecmp(toFind, ptr, strlen(toFind)) == 0`, which reads up to the first difference. The texts
-- that are searched for hold no zero.
unfoldable pub matches : List ℕ → List ℕ → Outcome Bool
matches [] m = done true
matches (c ∷ cs) [] = faults
matches (c ∷ cs) (b ∷ bs) = if tolower c == tolower b then matches cs bs else done false

abbrev pub further : Option ℕ → Option ℕ
further none = none
further (some i) = some (suc i)

-- Looks at one place, where the loops call `strncasecmp` only at the start and where `memchr` or
-- `memnchr` stops.
abbrev pub looked_at : Bool → List ℕ → List ℕ → Outcome Bool
looked_at true text m = matches text m
looked_at false text m = done false

abbrev pub here_or : Bool → Outcome (Option ℕ) → Outcome (Option ℕ)
here_or true rest = done (some 0)
here_or false rest = rest >>= λ r. done (further r)

-- The two loops, which differ by the bytes at which they stop.
unfoldable pub search_from : (ℕ → Bool) → List ℕ → Bool → List ℕ → ℕ → Outcome (Option ℕ)
search_from stops text at_start m zero = done none
search_from stops text at_start [] (suc n) = faults
search_from stops text at_start (b ∷ bs) (suc n) =
    let rest = search_from stops text false bs n in
    looked_at (at_start || stops b) text (b ∷ bs) >>= λ hit. here_or hit rest

abbrev pub first_of : List ℕ → ℕ
first_of [] = 0
first_of (c ∷ cs) = c

-- `memchr` tells the cases apart.
abbrev pub memchr_stops : List ℕ → ℕ → Bool
memchr_stops text b = b == first_of text

abbrev pub memnchr_stops : List ℕ → ℕ → Bool
memnchr_stops text b = b == tolower (first_of text) || b == toupper (first_of text)

abbrev pub past : ℕ → Option ℕ → Option ℕ
past n none = none
past n (some i) = some (i + n)

-- The place behind the text.
unfoldable pub mem_find_after : List ℕ → List ℕ → ℕ → Outcome (Option ℕ)
mem_find_after text m n =
    search_from (memchr_stops text) text true m n >>= λ r. done (past (length text) r)

unfoldable pub mem_find_str : List ℕ → List ℕ → ℕ → Outcome (Option ℕ)
mem_find_str text m n = search_from (memnchr_stops text) text true m n

unfoldable pub skip_space : List ℕ → Outcome (List ℕ)
skip_space [] = faults
skip_space (b ∷ bs) = if is_space b then skip_space bs else done (b ∷ bs)

abbrev pub is_digit : ℕ → Bool
is_digit b = leb b'0' b && leb b b'9'

-- The decimal digits, behind the number so far.
unfoldable pub digits_from : ℕ → List ℕ → Outcome ℕ
digits_from k [] = faults
digits_from k (b ∷ bs) = if is_digit b then digits_from (k * 10 + (b - b'0')) bs else done k

-- A number that is no `int` is undefined.
abbrev pub int_value : Bool → ℕ → Outcome (Option ℤ)
int_value true zero = done (some (pos 0))
int_value true (suc k) = if ltb k (2 ^ 31) then done (some (negsuc k)) else faults
int_value false k = if ltb k (2 ^ 31) then done (some (pos k)) else faults

-- The number. That `sscanf` goes over the white space behind it then changes nothing.
unfoldable pub convert : Bool → List ℕ → Outcome (Option ℤ)
convert minus m = digits_from 0 m >>= int_value minus

-- Without a digit there is no conversion.
unfoldable pub read_number : Bool → List ℕ → Outcome (Option ℤ)
read_number minus [] = faults
read_number minus (b ∷ bs) = if is_digit b then convert minus (b ∷ bs) else done none

abbrev pub after_sign : List ℕ → Outcome (Option ℤ)
after_sign [] = faults
after_sign (b ∷ bs) =
    if b == b'-'
    then read_number true bs
    else if b == b'+'
    then read_number false bs
    else read_number false (b ∷ bs)

-- `sscanf(ptr, "%d\r\n", &contentLen)`; `none` leaves the variable as it is.
unfoldable pub scan_int : List ℕ → Outcome (Option ℤ)
scan_int m = skip_space m >>= after_sign
