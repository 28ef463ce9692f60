-- ===== src/Parsing/Overrun.antt =====
-- A loop that does not look at the limit.
use mathlib.Core.List.{append_assoc}
use orekacxx.Common.{
  ℕ, suc, ◌≡◌, refl, sym, ap, ◌∙◌, Bool, true, false, not, List, [], ◌∷◌, ◌++◌, length, arith, All,
  ◌==◌, append-All,
}
use orekacxx.Common.Outcome.{done}
use orekacxx.Serializers.Chars.{is_alnum}
use orekacxx.Parsing.{grab_on, skip_while, grab_alpha_num_token}

grab_on-all :
    (ok : ℕ → Bool) (w : List ℕ) (e : ℕ) (rest : List ℕ)
    → All (λ b. ok b ≡ true) w
    → ok e ≡ false
    → grab_on ok (w ++ e ∷ rest) ≡ done w
unfolding grab_on
grab_on-all ok [] e rest a h = rw h refl
grab_on-all ok (b ∷ w) e rest a h = rw (a.0, grab_on-all ok w e rest a.1 h) refl

skip_while-here :
    (b : ℕ) (m : List ℕ) (n : ℕ)
    → is_alnum b ≡ true
    → skip_while (λ d. not (is_alnum d)) (b ∷ m) (suc n) ≡ done (b ∷ m, suc n)
unfolding skip_while
skip_while-here b m n h = rw h refl

not_one : (n : ℕ) → (suc (suc n) == 1) ≡ false
not_one n = ground arith

-- `GrabAlphaNumToken` goes over its limit: a token of two bytes at least that reaches the limit is taken
-- with all the alphanumeric bytes that stand behind the limit.
pub grab_alpha_num_token-overrun :
    (b c : ℕ) (w more : List ℕ) (e : ℕ) (rest : List ℕ)
    → All (λ d. is_alnum d ≡ true) (b ∷ c ∷ w)
    → All (λ d. is_alnum d ≡ true) more
    → is_alnum e ≡ false
    → grab_alpha_num_token ((b ∷ c ∷ w) ++ (more ++ e ∷ rest)) (length (b ∷ c ∷ w))
      ≡ done ((b ∷ c ∷ w) ++ more)
unfolding grab_alpha_num_token
grab_alpha_num_token-overrun b c w more e rest a m h =
    rw (skip_while-here b (c ∷ (w ++ (more ++ e ∷ rest))) (suc (length w)) a.0, not_one (length w))
      (ap (λ l. grab_on is_alnum (b ∷ c ∷ l)) (sym (append_assoc w more (e ∷ rest)))
        ∙ grab_on-all is_alnum (b ∷ c ∷ (w ++ more)) e rest (append-All _ (b ∷ c ∷ w) more a m) h)
