-- ===== src/Parsing.antt =====
-- orkaudio/audiocaptureplugins/voip/ParsingUtils.cpp: the helpers that take words, lines and the parts
-- of SIP addresses out of a message. A pointer is the list of the bytes that can be read from it on,
-- `n` is how far the limit is from it, and a read behind the last byte is a fault. What a helper
-- appends to its output is its result.
pub mod Longest
pub mod Address
pub mod Overrun
pub mod Name
use orekacxx.Common.{
  ℕ, zero, suc, ◌+◌, ◌-◌, Bool, true, false, not, ◌&&◌, ◌||◌, List, [], ◌∷◌, ◌++◌, Option, none,
  some, take, drop, length, leb, ◌==◌, if◌then◌else◌,
}
use orekacxx.Common.Outcome.{Outcome, done, faults, ◌>>=◌}
use orekacxx.Serializers.Chars.{codes, is_alnum}
use orekacxx.SipTcp.Search.{
  matches, search_from, memchr_stops, memnchr_stops, first_of, here_or, past,
}

-- The loops that go on while `ok` holds of the byte, which they read before they look at the limit.
unfoldable pub grab_while : (ℕ → Bool) → List ℕ → ℕ → Outcome (List ℕ)
grab_while ok [] n = faults
grab_while ok (b ∷ bs) zero = done []
grab_while ok (b ∷ bs) (suc n) =
    let rest = grab_while ok bs n in if ok b then (rest >>= λ w. done (b ∷ w)) else done []

-- Where such a loop stops: the bytes from there on, and the limit.
unfoldable pub skip_while : (ℕ → Bool) → List ℕ → ℕ → Outcome (List ℕ × ℕ)
skip_while ok [] n = faults
skip_while ok (b ∷ bs) zero = done (b ∷ bs, 0)
skip_while ok (b ∷ bs) (suc n) =
    let rest = skip_while ok bs n in if ok b then rest else done (b ∷ bs, suc n)

abbrev pub in_line : ℕ → Bool
in_line b = not (b == 0) && (not (b == 13) && not (b == 10))

abbrev pub in_token : ℕ → Bool
in_token b = in_line b && not (b == 32)

abbrev pub is_blank : ℕ → Bool
is_blank b = b == 32

unfoldable pub grab_token : List ℕ → ℕ → Outcome (List ℕ)
grab_token m n = grab_while in_token m n

unfoldable pub grab_token_accept_space : List ℕ → ℕ → Outcome (List ℕ)
grab_token_accept_space m n = grab_while in_line m n

unfoldable pub skip_whitespaces : List ℕ → ℕ → Outcome (List ℕ × ℕ)
skip_whitespaces m n = skip_while is_blank m n

unfoldable pub grab_token_skip_leading_whitespaces : List ℕ → ℕ → Outcome (List ℕ)
grab_token_skip_leading_whitespaces m n = skip_whitespaces m n >>= λ p. grab_token p.0 p.1

-- A loop that has no limit.
unfoldable pub grab_on : (ℕ → Bool) → List ℕ → Outcome (List ℕ)
grab_on ok [] = faults
grab_on ok (b ∷ bs) =
    let rest = grab_on ok bs in if ok b then (rest >>= λ w. done (b ∷ w)) else done []

-- The last byte before the limit is not taken for a token.
unfoldable pub grab_alpha_num_token : List ℕ → ℕ → Outcome (List ℕ)
grab_alpha_num_token m n = skip_while (λ b. not (is_alnum b)) m n >>= λ p.
    if p.1 == 1 then done [] else grab_on is_alnum p.0

unfoldable pub grab_alpha_num_token_skip_leading_whitespaces : List ℕ → ℕ → Outcome (List ℕ)
grab_alpha_num_token_skip_leading_whitespaces m n =
    skip_whitespaces m n >>= λ p. grab_alpha_num_token p.0 p.1

-- `strchr(userStart, '@')`: what follows the place, and the limit from there, if it is not passed.
-- A place before which the text ends is none.
unfoldable pub behind_at : List ℕ → ℕ → Outcome (Option (List ℕ × ℕ))
behind_at [] n = faults
behind_at (b ∷ bs) n =
    let rest = behind_at bs (n - 1) in
    if b == b'@' then done (some (bs, n - 1)) else if b == 0 then done none else rest

abbrev pub in_domain : ℕ → Bool
in_domain b = is_alnum b || (b == b'.' || (b == b'-' || b == b'_'))

abbrev pub starts_text : List ℕ → Outcome Bool
starts_text [] = faults
starts_text (b ∷ bs) = done (not (b == 0))

unfoldable pub grab_domain : Option (List ℕ × ℕ) → Outcome (List ℕ)
grab_domain none = done []
grab_domain (some (m, n)) =
    starts_text m >>= λ text. if text && not (n == 0) then grab_while in_domain m n else done []

unfoldable pub grab_sip_uri_domain : List ℕ → ℕ → Outcome (List ℕ)
grab_sip_uri_domain m n =
    skip_whitespaces m n >>= λ p. if p.1 == 0 then done [] else (behind_at p.0 p.1 >>= grab_domain)

abbrev pub in_user : ℕ → Bool
in_user b =
    is_alnum b
    || (b == b'#'
        || (b == b'*' || (b == b'.' || (b == b'+' || (b == b'-' || (b == b'_' || b == b'%'))))))

unfoldable pub grab_sip_uri_user : List ℕ → ℕ → Outcome (List ℕ)
grab_sip_uri_user m n =
    skip_whitespaces m n >>= λ p. if p.1 == 0 then done [] else grab_while in_user p.0 p.1

abbrev pub in_address : ℕ → Bool
in_address b =
    is_alnum b
    || (b == b'#'
        || (b == b'*'
            || (b == b'.'
                || (b == b'+' || (b == b'-' || (b == b'_' || (b == b':' || b == b'@')))))))

-- A colon ends the address behind the first at sign.
unfoldable pub grab_address : Bool → List ℕ → ℕ → Outcome (List ℕ)
grab_address passed [] n = faults
grab_address passed (b ∷ bs) zero = done []
grab_address passed (b ∷ bs) (suc n) =
    let rest = grab_address (passed || b == b'@') bs n in
    if not (in_address b) || (b == b':' && passed) then done [] else (rest >>= λ w. done (b ∷ w))

unfoldable pub grab_sip_user_address : List ℕ → ℕ → Outcome (List ℕ)
grab_sip_user_address m n =
    skip_whitespaces m n >>= λ p. if p.1 == 0 then done [] else grab_address false p.0 p.1

-- From the start to the stop, which is taken too.
unfoldable pub grab_string : List ℕ → ℕ → Outcome (List ℕ)
grab_string m n = if leb (n + 1) (length m) then done (take (n + 1) m) else faults

-- Looks at the limit first. With the line goes how far its end is.
unfoldable pub grab_line : List ℕ → ℕ → Outcome (List ℕ)
grab_line m zero = done []
grab_line [] (suc n) = faults
grab_line (b ∷ bs) (suc n) =
    let rest = grab_line bs n in
    if b == 13 || b == 10 then done [] else (rest >>= λ w. done (b ∷ w))

unfoldable pub grab_line_skip_leading_whitespace : List ℕ → ℕ → Outcome (List ℕ)
grab_line_skip_leading_whitespace m n = skip_whitespaces m n >>= λ p. grab_line p.0 p.1

abbrev pub is_graph : ℕ → Bool
is_graph b = leb 33 b && leb b 126

-- The pointer that is returned is behind the word; `none` is a null pointer.
unfoldable pub grab_displayable_token : List ℕ → ℕ → Outcome (Option (List ℕ))
grab_displayable_token m n = skip_while (λ b. not (is_graph b)) m n >>= λ p.
    if p.1 == 1 then done none else (grab_while is_graph p.0 p.1 >>= λ w. done (some w))
