-- ===== src/Parsing/Address.antt =====
-- The parts of a SIP address.
use orekacxx.Common.{
  ℕ, zero, suc, ◌+◌, ◌-◌, ◌≤◌, ◌≡◌, refl, ap, Bool, true, false, List, [], ◌∷◌, ◌++◌, some, length,
  replicate, arith, All, Bool-cases, inl, inr, not, ◌&&◌, ◌==◌,
}
use orekacxx.Common.Outcome.{done}
use orekacxx.Serializers.Chars.{is_alnum}
use orekacxx.Parsing.{
  grab_while, in_user, in_domain, is_blank, behind_at, grab_domain, grab_sip_uri_domain,
  grab_sip_uri_user,
}
use orekacxx.Parsing.Longest.{StopsAt, skip_whitespaces-blanks}

grab_while-all :
    (ok : ℕ → Bool) (w : List ℕ) (e : ℕ) (rest : List ℕ) (n : ℕ)
    → All (λ b. ok b ≡ true) w
    → ok e ≡ false
    → length w ≤ n
    → grab_while ok (w ++ e ∷ rest) n ≡ done w
unfolding grab_while
grab_while-all ok [] e rest zero a h le = refl
grab_while-all ok [] e rest (suc n) a h le = rw h refl
grab_while-all ok (b ∷ w) e rest zero a h le = absurd (omega arith)
grab_while-all ok (b ∷ w) e rest (suc n) a h le =
    rw (a.0, grab_while-all ok w e rest n a.1 h (omega arith)) refl

user_byte-at : (b : ℕ) → in_user b ≡ true → (b == b'@') ≡ false
unfolding is_alnum
user_byte-at b h = ground arith

user_byte_zero : (b : ℕ) → in_user b ≡ true → (b == 0) ≡ false
unfolding is_alnum
user_byte_zero b h = ground arith

user_byte_blank : (b : ℕ) → in_user b ≡ true → is_blank b ≡ false
unfolding is_alnum
user_byte_blank b h = ground arith

domain_byte_zero : (b : ℕ) → in_domain b ≡ true → (b == 0) ≡ false
unfolding is_alnum
domain_byte_zero b h = ground arith

at_ends_user : in_user b'@' ≡ false
unfolding is_alnum
at_ends_user = refl

StopsAt-user :
    (user m : List ℕ) → All (λ b. in_user b ≡ true) user → StopsAt is_blank (user ++ b'@' ∷ m)
StopsAt-user [] m a = refl
StopsAt-user (b ∷ user) m a = user_byte_blank b a.0

behind_at-user :
    (user m : List ℕ) (n : ℕ)
    → All (λ b. in_user b ≡ true) user
    → behind_at (user ++ b'@' ∷ m) n ≡ done (some (m, n - suc (length user)))
unfolding behind_at
behind_at-user [] m n a = refl
behind_at-user (b ∷ user) m n a =
    rw (user_byte-at b a.0, user_byte_zero b a.0, behind_at-user user m (n - 1) a.1)
      (ap (λ j. done (some (m, j))) (omega arith))

positive : (n : ℕ) → 1 ≤ n → (n == 0) ≡ false
positive n h = ground arith

grab_domain-all :
    (domain : List ℕ) (e : ℕ) (rest : List ℕ) (n : ℕ)
    → All (λ b. in_domain b ≡ true) domain
    → in_domain e ≡ false
    → length domain ≤ n
    → grab_domain (some (domain ++ e ∷ rest, n)) ≡ done domain
unfolding grab_domain
grab_domain-all [] e rest n a s le = elim (Bool-cases (not (e == 0) && not (n == 0))) [
  | inl goes ↦ rw goes (grab_while-all in_domain [] e rest n tt s le)
  | inr ends ↦ rw ends refl
]
grab_domain-all (b ∷ domain) e rest n a s le =
    rw (domain_byte_zero b a.0, positive n (omega arith))
      (grab_while-all in_domain (b ∷ domain) e rest n a s le)

-- An address of a user and a domain, blanks before it and a byte behind it that no domain has, is
-- taken apart: `GrabSipUriUser` gives the user and `GrabSipUriDomain` the domain. The limit is at
-- the end of the domain or behind it.
pub grab_sip_uri-parts :
    (k : ℕ) (user domain : List ℕ) (e : ℕ) (rest : List ℕ) (n : ℕ)
    → All (λ b. in_user b ≡ true) user
    → All (λ b. in_domain b ≡ true) domain
    → in_domain e ≡ false
    → length user + 1 + length domain ≤ n
    → let m = replicate k 32 ++ (user ++ b'@' ∷ (domain ++ e ∷ rest)) in
      (grab_sip_uri_user m (k + n) ≡ done user) × (grab_sip_uri_domain m (k + n) ≡ done domain)
unfolding grab_sip_uri_user grab_sip_uri_domain
grab_sip_uri-parts k user domain e rest n u d s le =
    let text = user ++ b'@' ∷ (domain ++ e ∷ rest) in
    let skipped = skip_whitespaces-blanks k text n (StopsAt-user user _ u) in
    let room = positive n (omega arith) in
    (
      rw (skipped, room)
          (grab_while-all in_user user 64 (domain ++ e ∷ rest) n u at_ends_user (omega arith)),
      rw (skipped, room, behind_at-user user (domain ++ e ∷ rest) n u)
          (grab_domain-all domain e rest (n - suc (length user)) d s (omega arith)),
    )
