-- ===== src/Parsing/Longest.antt =====
-- The words that the loops of ParsingUtils.cpp take.
use orekacxx.Common.{
  ℕ, zero, suc, ◌+◌, ◌≤◌, ◌<◌, ◌≡◌, refl, ap, ◌⊎◌, inl, inr, Bool, true, false, List, [], ◌∷◌, ◌++◌,
  length, replicate, arith, All, Bool-cases,
}
use orekacxx.Common.Outcome.{done}
use orekacxx.Parsing.{
  grab_while, skip_while, in_token, is_blank, grab_token, skip_whitespaces,
  grab_token_skip_leading_whitespaces,
}

-- The first byte is none that the loop goes over.
abbrev pub StopsAt : (ℕ → Bool) → List ℕ → Type 0
StopsAt ok [] = ⊥
StopsAt ok (b ∷ bs) = ok b ≡ false

-- The longest word of such bytes at the start and before the limit.
pub record IsLongest (ok : ℕ → Bool) (m : List ℕ) (n : ℕ) (w : List ℕ) : Type 0 where
  pub rest : List ℕ
  pub is_prefix : m ≡ w ++ rest
  pub all_ok : All (λ b. ok b ≡ true) w
  pub within : length w ≤ n
  pub stops : (length w ≡ n) ⊎ StopsAt ok rest

IsLongest-cons :
    (ok : ℕ → Bool) (b : ℕ) (m : List ℕ) (n : ℕ) (w : List ℕ)
    → ok b ≡ true
    → IsLongest ok m n w
    → IsLongest ok (b ∷ m) (suc n) (b ∷ w)
IsLongest-cons ok b m n w h l = record {
  rest = l.rest;
  is_prefix = ap (◌∷◌ b) l.is_prefix;
  all_ok = (h, l.all_ok);
  within = omega (arith, l.within);
  stops = elim l.stops [ inl e ↦ inl (ap suc e) | inr e ↦ inr e ];
}

grab_while-IsLongest :
    (ok : ℕ → Bool) (m : List ℕ) (n : ℕ)
    → n < length m
    → (w : List ℕ) × (grab_while ok m n ≡ done w) × IsLongest ok m n w
unfolding grab_while
grab_while-IsLongest ok [] n lt = absurd (omega arith)
grab_while-IsLongest ok (b ∷ m) zero lt = (
  [],
  refl,
  record { rest = b ∷ m; is_prefix = refl; all_ok = tt; within = omega arith; stops = inl refl },
)
grab_while-IsLongest ok (b ∷ m) (suc n) lt = elim (Bool-cases (ok b)) [
  | inl e ↦
      let (w, got, l) = grab_while-IsLongest ok m n (omega arith) in
      (b ∷ w, rw (e, got) refl, IsLongest-cons ok b m n w e l)
  | inr e ↦ (
    [],
    rw e refl,
    record { rest = b ∷ m; is_prefix = refl; all_ok = tt; within = omega arith; stops = inr e },
  )
]

skip_while-blanks :
    (k : ℕ) (m : List ℕ) (n n' : ℕ)
    → n' ≡ k + n
    → StopsAt is_blank m
    → skip_while is_blank (replicate k 32 ++ m) n' ≡ done (m, n)
unfolding skip_while
skip_while-blanks zero [] n n' e h = elim h [ ]
skip_while-blanks zero (b ∷ m) n zero e h = ap (λ j. done (b ∷ m, j)) (omega arith)
skip_while-blanks zero (b ∷ m) n (suc n') e h = rw h (ap (λ j. done (b ∷ m, j)) (omega arith))
skip_while-blanks (suc k) m n zero e h = absurd (omega arith)
skip_while-blanks (suc k) m n (suc n') e h = skip_while-blanks k m n n' (omega arith) h

-- The blanks in front are skipped.
pub skip_whitespaces-blanks :
    (k : ℕ) (m : List ℕ) (n : ℕ)
    → StopsAt is_blank m
    → skip_whitespaces (replicate k 32 ++ m) (k + n) ≡ done (m, n)
unfolding skip_whitespaces
skip_whitespaces-blanks k m n h = skip_while-blanks k m n (k + n) refl h

-- It skips the blanks and takes the longest token behind them, which holds no zero, blank or end of
-- line, up to the limit. The byte at the limit can be read.
pub grab_token_skip_leading_whitespaces-IsLongest :
    (k : ℕ) (m : List ℕ) (n : ℕ)
    → StopsAt is_blank m
    → n < length m
    → (w : List ℕ) × (grab_token_skip_leading_whitespaces (replicate k 32 ++ m) (k + n) ≡ done w)
      × IsLongest in_token m n w
unfolding grab_token_skip_leading_whitespaces grab_token
grab_token_skip_leading_whitespaces-IsLongest k m n h lt =
    rw (skip_whitespaces-blanks k m n h) (grab_while-IsLongest in_token m n lt)
