-- ===== src/SipTcp/Search/First.antt =====
-- Which place the searches find.
use mathlib.Core.Path.{subst}
use orekacxx.Common.{
  ℕ, zero, suc, ◌+◌, ◌≤◌, ◌<◌, ◌≡◌, refl, ◌∙◌, Bool, true, false, ◌||◌, List, [], ◌∷◌, Option, none,
  some, length, drop, arith, Bool-cases, inl, inr, ◌==◌,
}
use orekacxx.Common.Outcome.{Outcome, done, >>=-eq-done, done-injective}
use orekacxx.Serializers.Chars.{contains}
use orekacxx.SipTcp.Search.{
  matches, search_from, looked_at, here_or, mem_find_after, mem_find_str, further, tolower,
  memchr_stops, memnchr_stops,
}

-- What a search for a text means, in upper or lower case: the first place before the end at which the
-- text stands, or that there is none.
unfoldable pub IsFirst : List ℕ → List ℕ → ℕ → Option ℕ → Type 0
IsFirst t m n none = (j : ℕ) → j < n → matches t (drop j m) ≡ done false
IsFirst t m n (some i) =
    (i < n)
    × (matches t (drop i m) ≡ done true)
    × ((j : ℕ) → j < i → matches t (drop j m) ≡ done false)

-- A byte at which `memnchr` does not stop starts no match.
memnchr_skips :
    (c : ℕ) (cs : List ℕ) (b : ℕ) (m : List ℕ)
    → memnchr_stops (c ∷ cs) b ≡ false
    → matches (c ∷ cs) (b ∷ m) ≡ done false
unfolding matches
memnchr_skips c cs b m h = ground arith

looked_at-matches :
    (first : Bool) (c : ℕ) (cs : List ℕ) (b : ℕ) (m : List ℕ) (hit : Bool)
    → looked_at (first || memnchr_stops (c ∷ cs) b) (c ∷ cs) (b ∷ m) ≡ done hit
    → matches (c ∷ cs) (b ∷ m) ≡ done hit
looked_at-matches true c cs b m hit h = h
looked_at-matches false c cs b m hit h = elim (Bool-cases (memnchr_stops (c ∷ cs) b)) [
  | inl e ↦ rw e at h
  | inr e ↦ memnchr_skips c cs b m e ∙ (rw e at h)
]

IsFirst-here :
    (t : List ℕ) (b : ℕ) (m : List ℕ) (n : ℕ)
    → matches t (b ∷ m) ≡ done true
    → IsFirst t (b ∷ m) (suc n) (some 0)
unfolding IsFirst
IsFirst-here t b m n h = (omega arith, h, λ j lt. absurd (omega arith))

none_before :
    (t : List ℕ) (b : ℕ) (m : List ℕ) (n : ℕ)
    → matches t (b ∷ m) ≡ done false
    → ((j : ℕ) → suc j < n → matches t (drop j m) ≡ done false)
    → (j : ℕ) → j < n
    → matches t (drop j (b ∷ m)) ≡ done false
none_before t b m n h f zero lt = h
none_before t b m n h f (suc j) lt = f j lt

IsFirst-further :
    (t : List ℕ) (b : ℕ) (m : List ℕ) (n : ℕ) (r : Option ℕ)
    → matches t (b ∷ m) ≡ done false
    → IsFirst t m n r
    → IsFirst t (b ∷ m) (suc n) (further r)
unfolding IsFirst
IsFirst-further t b m n none h f = none_before t b m (suc n) h (λ j lt. f j (omega arith))
IsFirst-further t b m n (some i) h f =
    (omega (arith, f.0), f.1, none_before t b m (suc i) h (λ j lt. f.2 j (omega arith)))

IsFirst-end : (t m : List ℕ) → IsFirst t m 0 none
unfolding IsFirst
IsFirst-end t m j lt = absurd (omega arith)

here_or-IsFirst :
    (t : List ℕ) (b : ℕ) (m : List ℕ) (n : ℕ) (hit : Bool) (rest : Outcome (Option ℕ))
    (r : Option ℕ)
    → matches t (b ∷ m) ≡ done hit
    → ((r : Option ℕ) → rest ≡ done r → IsFirst t m n r)
    → here_or hit rest ≡ done r
    → IsFirst t (b ∷ m) (suc n) r
here_or-IsFirst t b m n true rest r h f e =
    subst (IsFirst t (b ∷ m) (suc n)) (done-injective e) (IsFirst-here t b m n h)
here_or-IsFirst t b m n false rest r h f e =
    let (q, found, moved) = >>=-eq-done rest _ e in
    subst (IsFirst t (b ∷ m) (suc n)) (done-injective moved)
      (IsFirst-further t b m n q h (f q found))

search_from-IsFirst :
    (c : ℕ) (cs : List ℕ) (first : Bool) (m : List ℕ) (n : ℕ) (r : Option ℕ)
    → search_from (memnchr_stops (c ∷ cs)) (c ∷ cs) first m n ≡ done r
    → IsFirst (c ∷ cs) m n r
unfolding search_from
search_from-IsFirst c cs first m zero r h =
    subst (IsFirst (c ∷ cs) m 0) (done-injective h) (IsFirst-end (c ∷ cs) m)
search_from-IsFirst c cs first [] (suc n) r h = cc
search_from-IsFirst c cs first (b ∷ m) (suc n) r h =
    let (hit, tried, went) =
      >>=-eq-done (looked_at (first || memnchr_stops (c ∷ cs) b) (c ∷ cs) (b ∷ m))
        (λ hit. here_or hit (search_from (memnchr_stops (c ∷ cs)) (c ∷ cs) false m n)) h in
    here_or-IsFirst (c ∷ cs) b m n hit _ r (looked_at-matches first c cs b m hit tried)
      (λ r. search_from-IsFirst c cs false m n r) went

matches-done : (t m : List ℕ) → length t ≤ length m → (b : Bool) × (matches t m ≡ done b)
unfolding matches
matches-done [] m le = (true, refl)
matches-done (c ∷ cs) [] le = absurd (omega arith)
matches-done (c ∷ cs) (b ∷ m) le = elim (Bool-cases (tolower c == tolower b)) [
  | inl e ↦ rw e (matches-done cs m (omega arith))
  | inr e ↦ (false, rw e refl)
]

looked_at-done :
    (here : Bool) (t m : List ℕ) → length t ≤ length m → (b : Bool) × (looked_at here t m ≡ done b)
looked_at-done true t m le = matches-done t m le
looked_at-done false t m le = (false, refl)

here_or-done : (hit : Bool) (r : Option ℕ) → (q : Option ℕ) × (here_or hit (done r) ≡ done q)
here_or-done true r = (some 0, refl)
here_or-done false r = (further r, refl)

search_from-done :
    (stops : ℕ → Bool) (c : ℕ) (cs : List ℕ) (first : Bool) (m : List ℕ) (n : ℕ)
    → n + length cs ≤ length m
    → (r : Option ℕ) × (search_from stops (c ∷ cs) first m n ≡ done r)
unfolding search_from
search_from-done stops c cs first m zero le = (none, refl)
search_from-done stops c cs first [] (suc n) le = absurd (omega arith)
search_from-done stops c cs first (b ∷ m) (suc n) le =
    let (hit, looked) = looked_at-done (first || stops b) (c ∷ cs) (b ∷ m) (omega arith) in
    let (r, found) = search_from-done stops c cs false m n (omega arith) in
    let (q, got) = here_or-done hit r in (q, rw (looked, found) got)

-- `memFindStr` answers with the first place before the end at which the text stands, in upper or lower
-- case, and with none only where there is none. The text is not empty, and behind the last place
-- as many bytes can be read as it has.
pub mem_find_str-IsFirst :
    (c : ℕ) (cs m : List ℕ) (n : ℕ)
    → n + length cs ≤ length m
    → (r : Option ℕ) × (mem_find_str (c ∷ cs) m n ≡ done r) × IsFirst (c ∷ cs) m n r
unfolding mem_find_str
mem_find_str-IsFirst c cs m n le =
    let (r, h) = search_from-done (memnchr_stops (c ∷ cs)) c cs true m n le in
    (r, h, search_from-IsFirst c cs true m n r h)

search_from_blind :
    (c : ℕ) (cs m : List ℕ) (n : ℕ)
    → n ≤ length m
    → contains c m ≡ false
    → search_from (memchr_stops (c ∷ cs)) (c ∷ cs) false m n ≡ done none
unfolding search_from contains
search_from_blind c cs m zero le a = refl
search_from_blind c cs [] (suc n) le a = absurd (omega arith)
search_from_blind c cs (b ∷ m) (suc n) le a = ground (arith, search_from_blind c cs m n)

-- `memFindAfter` does not find a text whose first letter stands there only in the other case, though it
-- compares without regard to case: behind its start it looks at that one byte alone.
pub mem_find_after-other_case :
    (c : ℕ) (cs : List ℕ) (b : ℕ) (m : List ℕ) (n : ℕ)
    → n ≤ length m
    → contains c m ≡ false
    → matches (c ∷ cs) (b ∷ m) ≡ done false
    → mem_find_after (c ∷ cs) (b ∷ m) (suc n) ≡ done none
unfolding mem_find_after search_from
mem_find_after-other_case c cs b m n le a h = rw (h, search_from_blind c cs m n le a) refl
