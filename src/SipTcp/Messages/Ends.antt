-- ===== src/SipTcp/Messages/Ends.antt =====
-- When the loop of `ParseSipStream` ends, and when it does not.
use native.Mathlib.Numerals.{unary_clauses}
use native.Mathlib.Nat.{add-zero, zero-add}
use orekacxx.Common.{
  ℕ, zero, suc, ◌+◌, ◌-◌, ◌≤◌, ◌<◌, ◌≡◌, ◌≢◌, refl, sym, ap, ◌∙◌, Bool, true, false, ◌&&◌, not,
  List, [], ◌∷◌, Option, none, some, length, drop, arith, some-injective,
}
use orekacxx.Common.Int.{ℤ, pos, negsuc, ◌+ℤ◌}
use orekacxx.Common.Outcome.{Outcome, done, throws, faults, >>=-eq-done, done-injective}
use orekacxx.SipTcp.Search.{mem_find_after, scan_int, skip_space, search_from, memchr_stops}
use orekacxx.SipTcp.Search.Found.{past-some}
use orekacxx.SipTcp.Messages.Framing.{complete_header, measure_at_number, move_ahead}
use orekacxx.SipTcp.Messages.{
  content_length, empty_line, complete, measure_at, message_len, stream_loop, parse_sip_stream,
}

abbrev is_negative : Outcome (Option ℤ) → Bool
is_negative (done (some (negsuc k))) = true
is_negative (done (some (pos k))) = false
is_negative (done none) = false
is_negative throws = false
is_negative faults = false

drop-nil : {A : Type 0} (k : ℕ) → drop {A = A} k [] ≡ []
drop-nil zero = refl
drop-nil (suc k) = refl

-- Is there a negative number behind the Content-Length that a search ended at?
unfoldable pub negative_behind : List ℕ → Outcome (Option ℕ) → Bool
negative_behind m (done (some i)) = is_negative (scan_int (drop i m))
negative_behind m (done none) = false
negative_behind m throws = false
negative_behind m faults = false

-- Does a search from the first place find a Content-Length with a negative number behind it?
unfoldable pub finds_negative : List ℕ → ℕ → Bool
finds_negative m n = negative_behind m (mem_find_after content_length m n)

-- From none of the first `n` places on a Content-Length is found with a negative number behind it.
unfoldable pub no_negative_length : List ℕ → ℕ → Bool
no_negative_length m zero = true
no_negative_length [] (suc n) = true
no_negative_length (b ∷ m) (suc n) = not (finds_negative (b ∷ m) (suc n)) && no_negative_length m n

no_negative_length-nil : (n : ℕ) → no_negative_length [] n ≡ true
unfolding no_negative_length
no_negative_length-nil zero = refl
no_negative_length-nil (suc n) = refl

no_negative_length-zero : (m : List ℕ) → no_negative_length m zero ≡ true
unfolding no_negative_length
no_negative_length-zero m = refl

no_negative_length-drop :
    (i : ℕ) (m : List ℕ) (n : ℕ)
    → no_negative_length m n ≡ true
    → no_negative_length (drop i m) (n - i) ≡ true
unfolding no_negative_length
no_negative_length-drop zero m n h = simp unary_clauses h
no_negative_length-drop (suc i) [] n h = no_negative_length-nil (n - suc i)
no_negative_length-drop (suc i) (b ∷ m) zero h =
    let none_left : 0 - suc i ≡ 0 = omega arith in rw none_left (no_negative_length-zero (drop i m))
no_negative_length-drop (suc i) (b ∷ m) (suc n) h =
    simp unary_clauses (no_negative_length-drop i m n (ground (arith, h)))

and_first : (a b : Bool) → (a && b) ≡ true → a ≡ true
and_first a b h = ground arith

flipped : (a : Bool) → not a ≡ true → a ≡ false
flipped a h = ground arith

search_nothing : (m : List ℕ) (i : ℕ) → mem_find_after content_length m 0 ≢ done (some i)
unfolding mem_find_after search_from
search_nothing m i h = cc

scan_int_nil : (v : Option ℤ) → scan_int [] ≢ done v
unfolding scan_int skip_space
scan_int_nil v h = cc

finds_negative_at :
    (m : List ℕ) (n i : ℕ)
    → mem_find_after content_length m n ≡ done (some i)
    → finds_negative m n ≡ is_negative (scan_int (drop i m))
unfolding finds_negative negative_behind
finds_negative_at m n i e = ap (negative_behind m) e

found_number :
    (m : List ℕ) (n i : ℕ)
    → no_negative_length m n ≡ true
    → mem_find_after content_length m n ≡ done (some i)
    → (v : Option ℤ) → scan_int (drop i m) ≡ done v
    → is_negative (scan_int (drop i m)) ≡ false
unfolding no_negative_length
found_number m zero i h e v s = absurd (search_nothing m i e)
found_number [] (suc n) i h e v s = absurd (scan_int_nil v (ap scan_int (sym (drop-nil i)) ∙ s))
found_number (b ∷ m) (suc n) i h e v s =
    sym (finds_negative_at (b ∷ m) (suc n) i e) ∙ flipped _ (and_first _ _ h)

scan_int-positive :
    (m : List ℕ) (len : ℤ)
    → is_negative (scan_int m) ≡ false
    → scan_int m ≡ done (some len)
    → (k : ℕ) × (len ≡ pos k)
scan_int-positive m (pos k) h e = (k, refl)
scan_int-positive m (negsuc k) h e = absurd (ground (arith, rw e at h))

mem_find_after-le : (t m : List ℕ) (n i : ℕ) → mem_find_after t m n ≡ done (some i) → length t ≤ i
unfolding mem_find_after
mem_find_after-le t m n i h =
    let (p, found, moved) = >>=-eq-done (search_from (memchr_stops t) t true m n) _ h in
    let (j, at, same) = past-some (length t) p i (done-injective moved) in
    omega (arith, some-injective same)

complete_number :
    (n i : ℕ) (len : Option ℤ) (j : ℕ) (z : ℤ)
    → complete n i len (some j) ≡ done (some z)
    → (l : ℤ) × (len ≡ some l)
unfolding complete
complete_number n i none j z h = cc
complete_number n i (some l) j z h = (l, refl)

complete_positive :
    (n i j k : ℕ) (z : ℤ)
    → 1 ≤ i
    → complete n i (some (pos k)) (some j) ≡ done (some z)
    → (d : ℕ) × (z ≡ pos (suc d))
unfolding complete ◌+ℤ◌
complete_positive n i j k z p h = (i + j + k - 1, ground arith)

measure_at-advances :
    (m : List ℕ) (n i : ℕ) (z : ℤ)
    → no_negative_length m n ≡ true
    → mem_find_after content_length m n ≡ done (some i)
    → 1 ≤ i
    → measure_at m n (some i) ≡ done (some z)
    → (d : ℕ) × (z ≡ pos (suc d))
unfolding measure_at
measure_at-advances m n i z h f p e =
    let (len, scanned, more) = >>=-eq-done (scan_int (drop i m)) _ e in
    let (header, ended, whole) =
      >>=-eq-done (mem_find_after empty_line (drop i m) (n - i)) (complete n i len) more in
    let (j, at) = complete_header n i len header z whole in
    let (l, number) = complete_number n i len j z (rw at at whole) in
    let (k, positive) =
      scan_int-positive (drop i m) l (found_number m n i h f len scanned)
        (scanned ∙ ap done number) in
    complete_positive n i j k z p (
      sym (ap (λ x. complete n i x (some j)) (number ∙ ap some positive))
      ∙ sym (ap (complete n i len) at)
      ∙ whole)

-- A complete message has at least one byte.
message_len-advances :
    (m : List ℕ) (n : ℕ) (z : ℤ)
    → no_negative_length m n ≡ true
    → message_len m n ≡ done (some z)
    → (d : ℕ) × (z ≡ pos (suc d))
unfolding message_len
message_len-advances m n z h e =
    let (found, placed, measured) =
      >>=-eq-done (mem_find_after content_length m n) (measure_at m n) e in
    let (i, at) = measure_at_number m n found z measured in
    measure_at-advances m n i z h (placed ∙ ap done at)
      (omega (arith, mem_find_after-le content_length m n i (placed ∙ ap done at)))
      (rw at at measured)

message_len-room : (m : List ℕ) (n : ℕ) (z : ℤ) → message_len m n ≡ done (some z) → 1 ≤ n
unfolding message_len mem_find_after search_from measure_at
message_len-room m zero z h = cc
message_len-room m (suc n) z h = omega arith

complete_back :
    (n i j k : ℕ) → i + j ≡ suc k → complete n i (some (negsuc k)) (some j) ≡ done (some (pos 0))
unfolding complete ◌+ℤ◌
complete_back n i j k back = ground arith

message_len_back :
    (m : List ℕ) (n i j k : ℕ)
    → mem_find_after content_length m n ≡ done (some i)
    → scan_int (drop i m) ≡ done (some (negsuc k))
    → mem_find_after empty_line (drop i m) (n - i) ≡ done (some j)
    → i + j ≡ suc k
    → message_len m n ≡ done (some (pos 0))
unfolding message_len measure_at
message_len_back m n i j k f number e back = rw (f, number, e) (complete_back n i j k back)

drop-drop : (p k : ℕ) (m : List ℕ) → drop (p + k) m ≡ drop k (drop p m)
drop-drop zero k m = rw zero-add
drop-drop (suc p) k [] = drop-nil (suc p + k) ∙ sym (drop-nil k)
drop-drop (suc p) k (b ∷ m) =
    let e : suc p + k ≡ suc (p + k) = omega arith in rw e (drop-drop p k m)

module _ {ℓ} {S : Type ℓ} (parse : List ℕ → ℕ → ℕ → S → S) (m : List ℕ) (start end : ℕ) where
  no_negative_length-ahead :
      (p k : ℕ)
      → no_negative_length (drop p m) (end - p) ≡ true
      → no_negative_length (drop (p + k) m) (end - (p + k)) ≡ true
  no_negative_length-ahead p k h =
      let there : end - (p + k) ≡ end - p - k = omega arith in
      rw (there, drop-drop p k m) (no_negative_length-drop k (drop p m) (end - p) h)

  loop_step :
      (fuel p offset : ℕ) (s : S) (o : Outcome (Option ℤ))
      → no_negative_length (drop p m) (end - p) ≡ true
      → end - p < suc fuel
      → message_len (drop p m) (end - p) ≡ o
      → ((q offset : ℕ) (s : S)
          → no_negative_length (drop q m) (end - q) ≡ true
          → end - q < fuel
          → stream_loop parse m start end fuel q offset s ≢ done none)
      → stream_loop parse m start end (suc fuel) p offset s ≢ done none
  unfolding stream_loop
  loop_step fuel p offset s throws h f e again r = cc
  loop_step fuel p offset s faults h f e again r = cc
  loop_step fuel p offset s (done none) h f e again r = cc
  loop_step fuel p offset s (done (some z)) h f e again r =
      let (k, ahead) = message_len-advances (drop p m) (end - p) z h e in
      let room = message_len-room (drop p m) (end - p) z e in
      again (p + suc k) _ _ (no_negative_length-ahead p (suc k) h) (omega (arith, room))
        (rw (e ∙ ap (λ z. done (some z)) ahead, move_ahead p (suc k)) at r)

  stream_loop-returns :
      (fuel p offset : ℕ) (s : S)
      → no_negative_length (drop p m) (end - p) ≡ true
      → end - p < fuel
      → stream_loop parse m start end fuel p offset s ≢ done none
  stream_loop-returns zero p offset s h f = absurd (omega arith)
  stream_loop-returns (suc fuel) p offset s h f =
      loop_step fuel p offset s _ h f refl (λ q offset s. stream_loop-returns fuel q offset s)

-- Where no Content-Length that a search from `start` or a later place finds before `end` has a negative
-- number behind it, the loop ends: within the rounds that are granted it returns, or reads what it must
-- not, a number that is missing or a byte that is not there.
pub parse_sip_stream-ends {ℓ} :
    {S : Type ℓ} (parse : List ℕ → ℕ → ℕ → S → S) (m : List ℕ) (start end : ℕ) (s : S)
    → no_negative_length (drop start m) (end - start) ≡ true
    → parse_sip_stream parse m start end s ≢ done none
unfolding parse_sip_stream
parse_sip_stream-ends parse m start end s h =
    stream_loop-returns parse m start end (end + 2) start 0 s h (omega arith)

-- A negative Content-Length that leads back to the start of its own message keeps the loop there: it
-- does not end within any number of rounds.
pub stream_loop-hangs {ℓ} :
    {S : Type ℓ} (parse : List ℕ → ℕ → ℕ → S → S) (m : List ℕ) (start end i j k : ℕ)
    → mem_find_after content_length (drop start m) (end - start) ≡ done (some i)
    → scan_int (drop i (drop start m)) ≡ done (some (negsuc k))
    → mem_find_after empty_line (drop i (drop start m)) (end - start - i) ≡ done (some j)
    → i + j ≡ suc k
    → (fuel offset : ℕ) (s : S) → stream_loop parse m start end fuel start offset s ≡ done none
unfolding stream_loop
stream_loop-hangs parse m start end i j k f n e back zero offset s = refl
stream_loop-hangs parse m start end i j k f n e back (suc fuel) offset s =
    let stays : message_len (drop start m) (end - start) ≡ done (some (pos 0)) =
      message_len_back (drop start m) (end - start) i j k f n e back in
    rw (stays, move_ahead start 0, add-zero)
      (stream_loop-hangs parse m start end i j k f n e back fuel _ _)
