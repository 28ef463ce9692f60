-- ===== src/SipTcp/Messages/Framing.antt =====
-- Complete messages in a stream.
use mathlib.Core.List.{append_assoc}
use orekacxx.Common.{
  ℕ, zero, suc, ◌+◌, ◌-◌, ◌%◌, ◌^◌, ◌≤◌, ◌<◌, ◌≡◌, refl, sym, ap, ◌∙◌, List, [], ◌∷◌, ◌++◌, Option,
  none, some, length, drop, arith, All, length-append, Bool-cases, inl, inr, drop-all, leb,
}
use orekacxx.Common.Int.{ℤ, pos, ◌+ℤ◌}
use orekacxx.Common.Outcome.{done, >>=-eq-done}
use orekacxx.SipTcp.Search.{mem_find_after, scan_int, skip_space, search_from}
use orekacxx.SipTcp.Search.Found.{scan_int-append, mem_find_after-append}
use orekacxx.SipTcp.Messages.{
  content_length, empty_line, complete, measure_at, message_len, move, stream_loop,
  parse_sip_stream,
}

drop-append : (n : ℕ) (xs ys : List ℕ) → n ≤ length xs → drop n (xs ++ ys) ≡ drop n xs ++ ys
drop-append zero xs ys h = refl
drop-append (suc n) [] ys h = absurd (omega arith)
drop-append (suc n) (x ∷ xs) ys h = drop-append n xs ys (omega arith)

pub drop-append_left : (xs ys : List ℕ) → drop (length xs) (xs ++ ys) ≡ ys
drop-append_left [] ys = refl
drop-append_left (x ∷ xs) ys = drop-append_left xs ys

suc_sum : (n k : ℕ) → suc n + k ≡ suc (n + k)
suc_sum n k = omega arith

drop_more : (n k : ℕ) (xs : List ℕ) → drop (n + k) xs ≡ drop k (drop n xs)
drop_more zero k xs = ap (λ j. drop j xs) (omega arith)
drop_more (suc n) k [] = drop-all (suc n + k) [] (omega arith) ∙ sym (drop-all k [] (omega arith))
drop_more (suc n) k (x ∷ xs) = ap (λ j. drop j (x ∷ xs)) (suc_sum n k) ∙ drop_more n k xs

-- A number is read before the last byte.
nothing : {v : Option ℤ} → ¬ (scan_int [] ≡ done v)
unfolding scan_int skip_space
nothing h = cc

pub scan_int-lt : (i : ℕ) (m : List ℕ) (v : Option ℤ) → scan_int (drop i m) ≡ done v → i < length m
scan_int-lt i m v h = elim (Bool-cases (leb (length m) i)) [
  | inl out ↦ let e = drop-all i m (ground arith) in absurd (nothing (rw e at h))
  | inr within ↦ ground arith
]

complete-append :
    (n n' i : ℕ) (len : Option ℤ) (j : ℕ) (z : ℤ)
    → n ≤ n'
    → complete n i len (some j) ≡ done (some z)
    → complete n' i len (some j) ≡ done (some z)
unfolding complete
complete-append n n' i none j z le h = cc
complete-append n n' i (some len) j z le h = ground arith

pub complete_header :
    (n i : ℕ) (len : Option ℤ) (header : Option ℕ) (z : ℤ)
    → complete n i len header ≡ done (some z)
    → (j : ℕ) × (header ≡ some j)
unfolding complete
complete_header n i len none z h = cc
complete_header n i len (some j) z h = (j, refl)

pub measure_at_number :
    (m : List ℕ) (n : ℕ) (found : Option ℕ) (z : ℤ)
    → measure_at m n found ≡ done (some z)
    → (i : ℕ) × (found ≡ some i)
unfolding measure_at
measure_at_number m n none z h = cc
measure_at_number m n (some i) z h = (i, refl)

measure_at-append :
    (m r : List ℕ) (n n' i : ℕ) (z : ℤ)
    → n ≤ n'
    → measure_at m n (some i) ≡ done (some z)
    → measure_at (m ++ r) n' (some i) ≡ done (some z)
unfolding measure_at
measure_at-append m r n n' i z le h =
    let (len, scanned, more) = >>=-eq-done (scan_int (drop i m)) _ h in
    let (header, ended, whole) =
      >>=-eq-done (mem_find_after empty_line (drop i m) (n - i)) (complete n i len) more in
    let (j, at) = complete_header n i len header z whole in
    let found =
      mem_find_after-append empty_line (drop i m) r (n - i) (n' - i) j (omega arith)
        (ended ∙ ap done at) in
    rw
      (
        drop-append i m r (omega (arith, scan_int-lt i m len scanned)),
        scan_int-append (drop i m) r len scanned,
        found,
      )
      (complete-append n n' i len j z le (rw at at whole))

-- A complete message is measured alike with more bytes behind.
message_len-append :
    (m r : List ℕ) (n n' : ℕ) (z : ℤ)
    → n ≤ n'
    → message_len m n ≡ done (some z)
    → message_len (m ++ r) n' ≡ done (some z)
unfolding message_len
message_len-append m r n n' z le h =
    let (found, placed, measured) =
      >>=-eq-done (mem_find_after content_length m n) (measure_at m n) h in
    let (i, at) = measure_at_number m n found z measured in
    rw (mem_find_after-append content_length m r n n' i le (placed ∙ ap done at))
      (measure_at-append m r n n' i z le (rw at at measured))

pub move_ahead : (p k : ℕ) → move p (pos k) ≡ done (p + k)
unfolding move ◌+ℤ◌
move_ahead p k = ground arith

-- A whole SIP message: a header that names a length and that an empty line ends, and a body of that
-- length.
pub record IsMessage (msg : List ℕ) : Type 0 where
  pub header : List ℕ
  pub body : List ℕ
  pub number_at : ℕ
  pub header_rest : ℕ
  pub is_both : msg ≡ header ++ body
  pub names_length : mem_find_after content_length msg (length msg) ≡ done (some number_at)
  pub states : scan_int (drop number_at msg) ≡ done (some (pos (length body)))
  pub ends :
      mem_find_after empty_line (drop number_at msg) (length msg - number_at)
      ≡ done (some header_rest)
  pub header_length : length header ≡ number_at + header_rest

complete_whole :
    (n i j k : ℕ) → n ≡ i + j + k → complete n i (some (pos k)) (some j) ≡ done (some (pos n))
unfolding complete ◌+ℤ◌
complete_whole n i j k e = ground arith

message_len_whole :
    (msg : List ℕ) → IsMessage msg → message_len msg (length msg) ≡ done (some (pos (length msg)))
unfolding message_len measure_at
message_len_whole msg w =
    rw (w.names_length, w.states, w.ends)
      (complete_whole (length msg) w.number_at w.header_rest (length w.body) (
        ap length w.is_both
        ∙ length-append w.header w.body
        ∙ ap (λ h. h + length w.body) w.header_length))

abbrev pub concat : List (List ℕ) → List ℕ
concat [] = []
concat (msg ∷ msgs) = msg ++ concat msgs

module _ {ℓ} {S : Type ℓ} (parse : List ℕ → ℕ → ℕ → S → S) (m : List ℕ) where
  -- The parser on each of the messages that follow one another from a position on, in their order.
  abbrev pub parse_each : ℕ → List (List ℕ) → S → S
  parse_each p [] s = s
  parse_each p (msg ∷ msgs) s = parse_each (p + length msg) msgs (parse m p (p + length msg) s)

  stream_loop-frames :
      (start end fuel p : ℕ) (msgs : List (List ℕ)) (rest behind : List ℕ) (offset : ℕ) (s : S)
      → length msgs < fuel
      → All IsMessage msgs
      → drop p m ≡ concat msgs ++ (rest ++ behind)
      → end ≡ p + length (concat msgs) + length rest
      → message_len (rest ++ behind) (length rest) ≡ done none
      → start ≤ p
      → end < 2 ^ 64
      → offset ≡ p - start
      → stream_loop parse m start end fuel p offset s
        ≡ done (some (parse_each p msgs s, p + length (concat msgs) - start))
  unfolding stream_loop
  stream_loop-frames start end zero p msgs rest behind offset s f w at e none_open below bound o =
      absurd (omega arith)
  stream_loop-frames start end (suc fuel) p [] rest behind offset s f w at e none_open below bound
        o =
      let nothing_left : message_len (drop p m) (end - p) ≡ done none =
        ap (λ l. message_len l (end - p)) at
        ∙ ap (message_len (rest ++ behind)) (omega (arith, e))
        ∙ none_open in
      rw nothing_left (ap (λ d. done (some (s, d))) (omega (arith, o)))
  stream_loop-frames start end (suc fuel) p (msg ∷ msgs) rest behind offset s f w at e none_open
        below bound o =
      let split = append_assoc msg (concat msgs) (rest ++ behind) in
      let total = length-append msg (concat msgs) in
      let first =
        message_len-append msg (concat msgs ++ (rest ++ behind)) (length msg) (end - p) _
          (omega (arith, e, total)) (message_len_whole msg w.0) in
      let next =
        drop_more p (length msg) m
        ∙ ap (drop (length msg)) (at ∙ split)
        ∙ drop-append_left msg (concat msgs ++ (rest ++ behind)) in
      let more =
        stream_loop-frames start end fuel (p + length msg) msgs rest behind
          ((p + length msg + 2 ^ 64 - start) % 2 ^ 64) (parse m p (p + length msg) s) (omega arith)
          w.1 next (omega (arith, e, total)) none_open (omega arith) bound
          (omega (arith, e, total)) in
      let measured : message_len (drop p m) (end - p) ≡ done (some (pos (length msg))) =
        ap (λ l. message_len l (end - p)) (at ∙ split) ∙ first in
      rw (measured, move_ahead p (length msg))
        (more
          ∙ ap
              (λ d.
                done (some (parse_each (p + length msg) msgs (parse m p (p + length msg) s), d)))
              (omega (arith, total)))

nothing_found : {i : ℕ} → ¬ (done none ≡ done (some i))
nothing_found h = cc

IsMessage-length : (msg : List ℕ) → IsMessage msg → 1 ≤ length msg
unfolding mem_find_after search_from
IsMessage-length [] w = absurd (nothing_found w.names_length)
IsMessage-length (b ∷ msg) w = omega arith

length-concat : (msgs : List (List ℕ)) → All IsMessage msgs → length msgs ≤ length (concat msgs)
length-concat [] w = omega arith
length-concat (msg ∷ msgs) w =
    omega (arith, length-append msg (concat msgs), IsMessage-length msg w.0, length-concat msgs w.1)

-- In a buffer that holds whole messages one behind the other, and then bytes in which no message is
-- complete, each message is parsed once, in the order of the stream, from its first byte to its
-- last, and the offset that is returned is the number of their bytes. What stands before the
-- buffer and behind it does not matter.
pub parse_sip_stream-frames {ℓ} :
    {S : Type ℓ} (parse : List ℕ → ℕ → ℕ → S → S) (before : List ℕ) (msgs : List (List ℕ))
    (rest behind : List ℕ) (s : S)
    → All IsMessage msgs
    → message_len (rest ++ behind) (length rest) ≡ done none
    → length before + length (concat msgs) + length rest < 2 ^ 64
    → let m = before ++ (concat msgs ++ (rest ++ behind)) in
      parse_sip_stream parse m
        (length before)
        (length before + length (concat msgs) + length rest)
        s
      ≡ done (some (parse_each parse m (length before) msgs s, length (concat msgs)))
unfolding parse_sip_stream
parse_sip_stream-frames parse before msgs rest behind s w none_open bound =
    let m = before ++ (concat msgs ++ (rest ++ behind)) in
    let end = length before + length (concat msgs) + length rest in
    stream_loop-frames parse m (length before) end (end + 2) (length before) msgs rest behind 0 s
      (omega (arith, length-concat msgs w)) w (drop-append_left before _) refl none_open
      (omega arith) bound (omega arith)
    ∙ ap (λ d. done (some (parse_each parse m (length before) msgs s, d))) (omega arith)
