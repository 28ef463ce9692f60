-- ===== src/SipTcp/Search/Found.antt =====
-- What the searches find, and that more bytes behind do not change it.
use orekacxx.Common.{
  ℕ, zero, suc, ◌+◌, ◌-◌, ◌*◌, ◌≤◌, ◌≡◌, refl, ap, ◌∙◌, Bool, true, false, ◌||◌, List, [], ◌∷◌,
  ◌++◌, Option, none, some, length, arith, Bool-cases, inl, inr,
}
use orekacxx.Common.Int.{ℤ}
use orekacxx.Common.Outcome.{Outcome, done, faults, throws, >>=-eq-done, done-injective}
use orekacxx.SipTcp.Search.{
  matches, search_from, memchr_stops, looked_at, here_or, mem_find_after, past, scan_int,
  skip_space, digits_from, convert, read_number, is_digit, after_sign, int_value,
}
use orekacxx.Serializers.Chars.{is_space}

matches-append : (t m r : List ℕ) (b : Bool) → matches t m ≡ done b → matches t (m ++ r) ≡ done b
unfolding matches
matches-append [] m r b h = h
matches-append (c ∷ cs) [] r b h = cc
matches-append (c ∷ cs) (x ∷ m) r b h = ground (arith, matches-append cs m r b)

looked_at-append :
    (here : Bool) (t m r : List ℕ) (b : Bool)
    → looked_at here t m ≡ done b
    → looked_at here t (m ++ r) ≡ done b
looked_at-append true t m r b h = matches-append t m r b h
looked_at-append false t m r b h = h

here_or-append :
    (hit : Bool) (x y : Outcome (Option ℕ)) (i : ℕ)
    → ((j : ℕ) → x ≡ done (some j) → y ≡ done (some j))
    → here_or hit x ≡ done (some i)
    → here_or hit y ≡ done (some i)
here_or-append true x y i f h = h
here_or-append false (done none) y i f h = cc
here_or-append false (done (some j)) y i f h = rw (f j refl) h
here_or-append false throws y i f h = cc
here_or-append false faults y i f h = cc

-- A place that was found is found again with more bytes behind, and with a later end.
pub search_from-append :
    (stops : ℕ → Bool) (t : List ℕ) (first : Bool) (m r : List ℕ) (n n' i : ℕ)
    → n ≤ n'
    → search_from stops t first m n ≡ done (some i)
    → search_from stops t first (m ++ r) n' ≡ done (some i)
unfolding search_from
search_from-append stops t first m r zero n' i le h = cc
search_from-append stops t first [] r (suc n) n' i le h = cc
search_from-append stops t first (x ∷ m) r (suc n) zero i le h = absurd (omega arith)
search_from-append stops t first (x ∷ m) r (suc n) (suc n') i le h =
    let (hit, tried, went) =
      >>=-eq-done (looked_at (first || stops x) t (x ∷ m))
        (λ hit. here_or hit (search_from stops t false m n)) h in
    rw (looked_at-append (first || stops x) t (x ∷ m) r hit tried) (
      here_or-append hit _ _ i (λ j. search_from-append stops t false m r n n' j (omega arith))
        went)

skip_space-append : (m r s : List ℕ) → skip_space m ≡ done s → skip_space (m ++ r) ≡ done (s ++ r)
unfolding skip_space
skip_space-append [] r s h = cc
skip_space-append (b ∷ m) r s h = elim (Bool-cases (is_space b)) [
  | inl e ↦ rw e (skip_space-append m r s (rw e at h))
  | inr e ↦ ground arith
]

digits_from-append :
    (m r : List ℕ) (k d : ℕ) → digits_from k m ≡ done d → digits_from k (m ++ r) ≡ done d
unfolding digits_from
digits_from-append [] r k d h = cc
digits_from-append (b ∷ m) r k d h = elim (Bool-cases (is_digit b)) [
  | inl e ↦ rw e (digits_from-append m r (k * 10 + (b - 48)) d (rw e at h))
  | inr e ↦ ground arith
]

convert-append :
    (minus : Bool) (m r : List ℕ) (v : Option ℤ)
    → convert minus m ≡ done v
    → convert minus (m ++ r) ≡ done v
unfolding convert
convert-append minus m r v h =
    let (d, got, value) = >>=-eq-done (digits_from 0 m) (int_value minus) h in
    rw (digits_from-append m r 0 d got) value

read_number-append :
    (minus : Bool) (m r : List ℕ) (v : Option ℤ)
    → read_number minus m ≡ done v
    → read_number minus (m ++ r) ≡ done v
unfolding read_number
read_number-append minus [] r v h = cc
read_number-append minus (b ∷ m) r v h = ground (arith, convert-append minus (b ∷ m) r v)

after_sign-append :
    (m r : List ℕ) (v : Option ℤ) → after_sign m ≡ done v → after_sign (m ++ r) ≡ done v
after_sign-append [] r v h = cc
after_sign-append (b ∷ m) r v h = ground (
  arith,
  read_number-append true m r v,
  read_number-append false m r v,
  read_number-append false (b ∷ m) r v,
)

pub scan_int-append :
    (m r : List ℕ) (v : Option ℤ) → scan_int m ≡ done v → scan_int (m ++ r) ≡ done v
unfolding scan_int
scan_int-append m r v h =
    let (s, skipped, value) = >>=-eq-done (skip_space m) _ h in
    rw (skip_space-append m r s skipped) (after_sign-append s r v value)

pub past-some :
    (n : ℕ) (p : Option ℕ) (i : ℕ)
    → past n p ≡ some i
    → (j : ℕ) × (p ≡ some j) × (past n (some j) ≡ some i)
past-some n none i h = cc
past-some n (some j) i h = (j, refl, h)

pub mem_find_after-append :
    (t m r : List ℕ) (n n' i : ℕ)
    → n ≤ n'
    → mem_find_after t m n ≡ done (some i)
    → mem_find_after t (m ++ r) n' ≡ done (some i)
unfolding mem_find_after
mem_find_after-append t m r n n' i le h =
    let (p, found, moved) = >>=-eq-done (search_from (memchr_stops t) t true m n) _ h in
    let (j, at, same) = past-some (length t) p i (done-injective moved) in
    rw (search_from-append (memchr_stops t) t true m r n n' j le (found ∙ ap done at))
      (ap done same)
