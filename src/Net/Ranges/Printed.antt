-- ===== src/Net/Ranges/Printed.antt =====
-- Addresses that are printed and read.
use mathlib.Core.List.{append-nil}
use orekacxx.Common.{
  ℕ, ◌+◌, ◌*◌, ◌/◌, ◌%◌, ◌≤◌, ◌<◌, ◌≡◌, refl, sym, ap, ◌∙◌, true, false, List, [], ◌∷◌, ◌++◌, some,
  arith, Bool-cases, inl, inr, ltb,
}
use orekacxx.Net.Ranges.{decimal, inet_ntop_v4, Pton, digit_step, pton_step, pton_loop, inet_pton4}

-- Before the first digit of an octet, and behind its last.
abbrev fresh : ℕ → ℕ → Pton
fresh octets before = record { saw_digit = false; octets = octets; before = before; current = 0 }

abbrev read_to : ℕ → ℕ → ℕ → Pton
read_to octets before current = record {
  saw_digit = true;
  octets = octets + 1;
  before = before;
  current = current;
}

first_digit :
    (octets before d : ℕ) (src : List ℕ)
    → octets < 4
    → d < 10
    → pton_loop (fresh octets before) ((48 + d) ∷ src) ≡ pton_loop (read_to octets before d) src
unfolding pton_loop pton_step digit_step
first_digit octets before d src h le = ground arith

next_digit :
    (octets before current d : ℕ) (src : List ℕ)
    → d < 10
    → current * 10 + d < 256
    → pton_loop (read_to octets before current) ((48 + d) ∷ src)
      ≡ pton_loop (read_to octets before (current * 10 + d)) src
unfolding pton_loop pton_step digit_step
next_digit octets before current d src h le = ground arith

one_digit : (b : ℕ) → b < 10 → decimal b ≡ (48 + b) ∷ []
unfolding decimal
one_digit b h = ground arith

two_digits : (b : ℕ) → 10 ≤ b → b < 100 → decimal b ≡ (48 + b / 10) ∷ (48 + b % 10) ∷ []
unfolding decimal
two_digits b l h = ground arith

three_digits :
    (b : ℕ) → 100 ≤ b → decimal b ≡ (48 + b / 100) ∷ (48 + b / 10 % 10) ∷ (48 + b % 10) ∷ []
unfolding decimal
three_digits b l = ground arith

-- A printed byte is read as an octet.
octet_read :
    (octets before b : ℕ) (src : List ℕ)
    → octets < 4
    → b < 256
    → pton_loop (fresh octets before) (decimal b ++ src) ≡ pton_loop (read_to octets before b) src
octet_read octets before b src h byte = elim (Bool-cases (ltb b 10)) [
  | inl small ↦ rw (one_digit b (ground arith)) (first_digit octets before b src h (ground arith))
  | inr big ↦ elim (Bool-cases (ltb b 100)) [
    | inl two ↦ rw (two_digits b (ground arith) (ground arith)) (
        first_digit octets before (b / 10) _ h (ground arith)
        ∙ next_digit octets before (b / 10) (b % 10) src (omega arith) (omega arith)
        ∙ ap (λ n. pton_loop (read_to octets before n) src) (omega arith))
    | inr three ↦ rw (three_digits b (ground arith)) (
        first_digit octets before (b / 100) _ h (omega arith)
        ∙ next_digit octets before (b / 100) (b / 10 % 10) _ (omega arith) (omega arith)
        ∙ next_digit octets before (b / 100 * 10 + b / 10 % 10) (b % 10) src (omega arith)
            (omega arith)
        ∙ ap (λ n. pton_loop (read_to octets before n) src) (omega arith))
  ]
]

dot_read :
    (octets before current : ℕ) (src : List ℕ)
    → octets < 3
    → pton_loop (read_to octets before current) (b'.' ∷ src)
      ≡ pton_loop (fresh (octets + 1) (before * 256 + current)) src
unfolding pton_loop pton_step digit_step
dot_read octets before current src h = ground arith

octet_dot :
    (octets before b octets' before' : ℕ) (src : List ℕ)
    → octets < 3
    → b < 256
    → octets' ≡ octets + 1
    → before' ≡ before * 256 + b
    → pton_loop (fresh octets before) (decimal b ++ b'.' ∷ src)
      ≡ pton_loop (fresh octets' before') src
octet_dot octets before b octets' before' src h byte e f =
    rw (e, f)
      (octet_read octets before b (b'.' ∷ src) (omega arith) byte ∙ dot_read octets before b src h)

last_octet : (before d : ℕ) → pton_loop (read_to 3 before d) [] ≡ some (before * 256 + d)
unfolding pton_loop
last_octet before d = refl

-- The number that the four bytes of an address are.
abbrev pub address_of : (a b c d : ℕ) → ℕ
address_of a b c d = ((a * 256 + b) * 256 + c) * 256 + d

-- What `inet_ntopV4` prints, `inet_pton4` reads back.
pub inet_pton4-inet_ntop_v4 :
    (a b c d : ℕ)
    → a < 256
    → b < 256
    → c < 256
    → d < 256
    → inet_pton4 (inet_ntop_v4 a b c d) ≡ some (address_of a b c d)
unfolding inet_pton4 inet_ntop_v4
inet_pton4-inet_ntop_v4 a b c d la lb lc ld =
    octet_dot 0 0 a 1 a _ (omega arith) la refl (omega arith)
    ∙ octet_dot 1 a b 2 (a * 256 + b) _ (omega arith) lb refl refl
    ∙ octet_dot 2 (a * 256 + b) c 3 ((a * 256 + b) * 256 + c) _ (omega arith) lc refl refl
    ∙ ap (pton_loop (fresh 3 ((a * 256 + b) * 256 + c))) (sym (append-nil (decimal d)))
    ∙ octet_read 3 ((a * 256 + b) * 256 + c) d [] (omega arith) ld
    ∙ last_octet ((a * 256 + b) * 256 + c) d
