-- ===== src/Mixer/Ring/Laws.antt =====
-- What the pointer arithmetic and the two loops of the circular buffer do.
use orekacxx.Common.{
  ℕ, zero, suc, ◌+◌, ◌-◌, ◌≤◌, ◌<◌, ◌≡◌, refl, ◌≢◌, ◌∙◌, inl, inr, List, [], ◌∷◌, set, length,
  length-set, arith, leb, ltb, ==_iff, Bool-cases, ◌==◌, if◌then◌else◌,
}
use orekacxx.Common.Int.{ℤ, pos}
use orekacxx.Mixer.Ring.{add_offset, next, mix, sample, zero_run, advance, mix_run}

-- How far `j` lies behind `ptr`, going round.
unfoldable pub behind : ℕ → ℕ → ℕ → ℕ
behind size ptr j = if leb ptr j then j - ptr else size + j - ptr

get_or-set :
    (buffer : List ℤ) (i j : ℕ) (v : ℤ)
    → i < length buffer
    → sample (set buffer i v) j ≡ (if i == j then v else sample buffer j)
get_or-set [] i j v h = elim h [ ]
get_or-set (x ∷ xs) zero zero v h = refl
get_or-set (x ∷ xs) zero (suc j) v h = ground arith
get_or-set (x ∷ xs) (suc i) zero v h = ground arith
get_or-set (x ∷ xs) (suc i) (suc j) v h = get_or-set xs i j v (omega arith) ∙ ground arith

module _ (size : ℕ) where
  pub next-lt : (ptr : ℕ) → ptr < size → next size ptr < size
  unfolding next
  next-lt ptr h = ground arith

  pub add_offset-lt : (ptr n : ℕ) → ptr < size → n ≤ size → add_offset size ptr n < size
  unfolding add_offset
  add_offset-lt ptr n h k = ground arith

  behind-next :
      (ptr j : ℕ)
      → ptr < size
      → j < size
      → ptr ≢ j
      → behind size ptr j ≡ suc (behind size (next size ptr) j)
  unfolding next behind
  behind-next ptr j h k e = ground arith

  behind_round : (ptr : ℕ) → ptr < size → suc (behind size (next size ptr) ptr) ≡ size
  unfolding next behind
  behind_round ptr h = ground arith

  pub behind_self : (ptr : ℕ) → behind size ptr ptr ≡ 0
  unfolding behind
  behind_self ptr = ground arith

  pub length-zero_run :
      (n ptr : ℕ) (buffer : List ℤ) → length (zero_run size buffer ptr n) ≡ length buffer
  unfolding zero_run
  length-zero_run zero ptr buffer = refl
  length-zero_run (suc n) ptr buffer =
      length-zero_run n (next size ptr) (set buffer ptr (pos 0)) ∙ length-set buffer ptr (pos 0)

  pub length-mix_run :
      (ss : List ℤ) (ptr : ℕ) (buffer : List ℤ)
      → length (mix_run size buffer ptr ss) ≡ length buffer
  unfolding mix_run
  length-mix_run [] ptr buffer = refl
  length-mix_run (s ∷ ss) ptr buffer =
      length-mix_run ss (next size ptr) _ ∙ length-set buffer ptr (mix (sample buffer ptr) s)

  -- Walking is adding.
  pub advance-add_offset :
      (n ptr : ℕ) → ptr < size → n ≤ size → advance size ptr n ≡ add_offset size ptr n
  unfolding advance add_offset next
  advance-add_offset zero ptr h k = ground arith
  advance-add_offset (suc n) ptr h k =
      advance-add_offset n (next size ptr) (next-lt ptr h) (omega arith) ∙ ground arith

  -- Silence is written to the `n` places from the pointer on, round the end, and to no other.
  pub sample-zero_run :
      (n ptr j : ℕ) (buffer : List ℤ)
      → length buffer ≡ size
      → ptr < size
      → j < size
      → n ≤ size
      → sample (zero_run size buffer ptr n) j
        ≡ (if ltb (behind size ptr j) n then pos 0 else sample buffer j)
  unfolding zero_run
  sample-zero_run zero ptr j buffer l h k m = ground arith
  sample-zero_run (suc n) ptr j buffer l h k m =
      sample-zero_run n (next size ptr) j (set buffer ptr (pos 0))
        (length-set buffer ptr (pos 0) ∙ l) (next-lt ptr h) k (omega arith)
      ∙ ground (
        arith,
        get_or-set buffer ptr j (pos 0),
        behind-next ptr j,
        behind_round ptr,
        behind_self ptr,
      )

  -- The payload is mixed into its places from the pointer on, round the end, and into no other.
  pub sample-mix_run :
      (ss : List ℤ) (ptr j : ℕ) (buffer : List ℤ)
      → length buffer ≡ size
      → ptr < size
      → j < size
      → length ss ≤ size
      → sample (mix_run size buffer ptr ss) j ≡ (
          if ltb (behind size ptr j) (length ss)
          then mix (sample buffer j) (sample ss (behind size ptr j))
          else sample buffer j)
  unfolding mix_run
  sample-mix_run [] ptr j buffer l h k m = ground arith
  sample-mix_run (s ∷ ss) ptr j buffer l h k m =
      let v = mix (sample buffer ptr) s in
      let rest =
        sample-mix_run ss (next size ptr) j (set buffer ptr v) (length-set buffer ptr v ∙ l)
          (next-lt ptr h) k (omega arith) in
      let written = get_or-set buffer ptr j v in
      rest ∙ (elim (Bool-cases (ptr == j)) [
        | inl e ↦ ground (arith, written, (==_iff ptr j).0 e, behind_round ptr, behind_self ptr)
        | inr e ↦ rw (behind-next ptr j h k (ground arith)) (ground (arith, written))
      ])
