-- ===== src/Parsing/Name.antt =====
-- `GrabSipName` of ParsingUtils.cpp, with its own `memFindStr`, and the other searches of that file.
pub mod Quoted
use orekacxx.Common.{
  ℕ, zero, suc, ◌+◌, Bool, true, false, not, ◌&&◌, ◌||◌, List, [], ◌∷◌, Option, none, some, take,
  length, ◌==◌, leb, if◌then◌else◌,
}
use orekacxx.Common.Outcome.{Outcome, done, faults, ◌>>=◌}
use orekacxx.Serializers.Chars.{codes}
use orekacxx.SipTcp.Search.{
  matches, search_from, memchr_stops, memnchr_stops, looked_at, here_or, past,
}
use orekacxx.Parsing.{skip_whitespaces}

-- `memFindStr`: no more bytes are compared than stand before the end, so the start of the text is
-- found just before it.
unfoldable pub find_clipped : List ℕ → Bool → List ℕ → ℕ → Outcome (Option ℕ)
find_clipped text at_start m zero = done none
find_clipped text at_start [] (suc n) = faults
find_clipped text at_start (b ∷ bs) (suc n) =
    let rest = find_clipped text false bs n in
    looked_at (at_start || memchr_stops text b) (take (suc n) text) (b ∷ bs) >>= λ hit.
    here_or hit rest

-- `memFindAfter` of this file goes from place to place by `memnchr`.
unfoldable pub mem_find_after : List ℕ → List ℕ → ℕ → Outcome (Option ℕ)
mem_find_after text m n =
    search_from (memnchr_stops text) text true m n >>= λ r. done (past (length text) r)

abbrev pub ends_line : ℕ → Bool
ends_line b = b == 13 || b == 10

-- How far an end of line is, at the limit at most; the start where there is none.
unfoldable pub mem_find_eol : ℕ → List ℕ → ℕ → Outcome ℕ
mem_find_eol passed [] n = faults
mem_find_eol passed (b ∷ bs) zero = done (if ends_line b then passed else 0)
mem_find_eol passed (b ∷ bs) (suc n) =
    let rest = mem_find_eol (suc passed) bs n in if ends_line b then done passed else rest

-- The bytes before `<sip:` without the quotation marks round the name and the blank behind it.
unfoldable pub unquoted : Bool → List ℕ → List ℕ
unquoted at_start [] = []
unquoted at_start (b ∷ bs) =
    let rest = unquoted false bs in
    if at_start && b == b'"'
    then rest
    else if leb (length bs) 1 && b == b'"'
    then []
    else if length bs == 0 && b == b' '
    then []
    else b ∷ rest

abbrev pub sip_mark : List ℕ
sip_mark = codes "<sip:"

abbrev pub before_mark : List ℕ → Option ℕ → List ℕ
before_mark m none = []
before_mark m (some i) = unquoted true (take i m)

unfoldable pub grab_sip_name : List ℕ → ℕ → Outcome (List ℕ)
grab_sip_name m n = skip_whitespaces m n >>= λ p.
    find_clipped sip_mark true p.0 p.1 >>= λ name_end. done (before_mark p.0 name_end)
