-- ===== src/Net/Ranges/Blocks.antt =====
-- Blocks of addresses as they stand in the configuration.
use native.Mathlib.Nat.{le-div_iff_mul-le, div-lt_iff_lt-mul, add-mul, one-mul, one-le-pow}
use orekacxx.Common.{
  ℕ, ◌+◌, ◌-◌, ◌*◌, ◌/◌, ◌^◌, ◌≤◌, ◌<◌, ◌≡◌, refl, ap, ◌∙◌, Bool, true, false, ◌&&◌, ◌||◌, List, [],
  ◌∷◌, ◌++◌, map, Option, none, some, arith, All, leb, ltb, ◌==◌, ==_iff,
}
use orekacxx.Common.Bytes.{every_byte, every_byte_lem}
use orekacxx.Common.Int.{ℤ, pos, negsuc}
use orekacxx.Common.Outcome.{done}
use orekacxx.Serializers.Chars.{contains, is_space}
use orekacxx.Net.Ranges.{
  decimal, inet_ntop_v4, inet_pton4, Range, at_slash, string_to_int, after_space, digits_value,
  compute, matches,
}
use orekacxx.Net.Ranges.{pton_loop, compute_at}
use orekacxx.Net.Ranges.Printed.{address_of, inet_pton4-inet_ntop_v4}

contains-append :
    (c : ℕ) (xs ys : List ℕ)
    → contains c xs ≡ false
    → contains c ys ≡ false
    → contains c (xs ++ ys) ≡ false
unfolding contains
contains-append c [] ys h g = g
contains-append c (x ∷ xs) ys h g = ground (arith, contains-append c xs ys)

at_slash-append : (w r : List ℕ) → contains b'/' w ≡ false → at_slash (w ++ b'/' ∷ r) ≡ some (w, r)
unfolding at_slash contains
at_slash-append [] r h = refl
at_slash-append (c ∷ w) r h = ground (arith, at_slash-append w r)

no_slash : (b : ℕ) → contains b'/' (decimal b) ≡ false
unfolding decimal contains
no_slash b = ground arith

abbrev is_number : Option ℤ → ℕ → Bool
is_number none n = false
is_number (some (pos k)) n = k == n
is_number (some (negsuc k)) n = false

is_number_lem : (o : Option ℤ) (n : ℕ) → is_number o n ≡ true → o ≡ some (pos n)
is_number_lem none n h = cc
is_number_lem (some (pos k)) n h = ap (λ j. some (pos j)) ((==_iff k n).0 h)
is_number_lem (some (negsuc k)) n h = cc

abbrev number_test : ℕ → Bool
number_test n = is_number (string_to_int (decimal n)) n

number_table : every_byte number_test ≡ true
unfolding every_byte string_to_int after_space digits_value decimal is_space
number_table = refl

string_to_int-decimal : (n : ℕ) → n < 256 → string_to_int (decimal n) ≡ some (pos n)
string_to_int-decimal n h = is_number_lem _ n (every_byte_lem number_test number_table n h)

block_lem : (ip k q : ℕ) → 0 < k → (ip / k == q) ≡ (leb (q * k) ip && ltb ip (q * k + k))
block_lem ip k q h = ground (
  arith,
  (le-div_iff_mul-le {k = k} {x = q} {y = ip} h).0,
  (le-div_iff_mul-le {k = k} {x = q} {y = ip} h).1,
  (div-lt_iff_lt-mul {k = k} {x = ip} {y = q + 1} h).0,
  (div-lt_iff_lt-mul {k = k} {x = ip} {y = q + 1} h).1,
  add-mul q 1 k,
  one-mul k,
)

-- A block of the configuration: an address, and how many of its first bits count.
pub record Block : Type 0 where
  pub a : ℕ
  pub b : ℕ
  pub c : ℕ
  pub d : ℕ
  pub bits : ℕ

abbrev pub IsBlock : Block → Type 0
IsBlock k = (k.a < 256) × (k.b < 256) × (k.c < 256) × (k.d < 256) × (1 ≤ k.bits) × (k.bits ≤ 32)

-- As it is written, for one `192.168.0.0/16`.
abbrev pub entry : Block → List ℕ
entry k = inet_ntop_v4 k.a k.b k.c k.d ++ b'/' ∷ decimal k.bits

-- The number of its addresses, and the first of them.
abbrev pub block_size : Block → ℕ
block_size k = 2 ^ (32 - k.bits)

abbrev pub first_address : Block → ℕ
first_address k = address_of k.a k.b k.c k.d / block_size k * block_size k

abbrev pub in_some_block : List Block → ℕ → Bool
in_some_block [] ip = false
in_some_block (k ∷ ks) ip =
    (leb (first_address k) ip && ltb ip (first_address k + block_size k)) || in_some_block ks ip

abbrev range_of : Block → Range
range_of k = record { prefix = address_of k.a k.b k.c k.d / block_size k; bit_width = 32 - k.bits }

no_empty : {x : ℕ} → ¬ (inet_pton4 [] ≡ some x)
unfolding inet_pton4 pton_loop
no_empty h = cc

in_range : (n : ℕ) → 1 ≤ n → n ≤ 32 → (ltb n 1 || ltb 32 n) ≡ false
in_range n l h = ground arith

contains_dot : (xs : List ℕ) → contains 47 xs ≡ false → contains 47 (b'.' ∷ xs) ≡ false
unfolding contains
contains_dot xs h = h

compute_at-some :
    (e text bits : List ℕ) (n x : ℕ)
    → inet_pton4 text ≡ some x
    → string_to_int bits ≡ some (pos n)
    → 1 ≤ n
    → n ≤ 32
    → compute_at e (some (text, bits))
      ≡ done (record { prefix = x / 2 ^ (32 - n); bit_width = 32 - n })
compute_at-some e [] bits n x p s l h = absurd (no_empty p)
compute_at-some e (c ∷ cs) bits n x p s l h = rw (s, in_range n l h, p) refl

printed_no_slash : (a b c d : ℕ) → contains b'/' (inet_ntop_v4 a b c d) ≡ false
unfolding inet_ntop_v4
printed_no_slash a b c d = contains-append 47 (decimal a) _ (no_slash a) (
    contains_dot _ (
      contains-append 47 (decimal b) _ (no_slash b) (
        contains_dot _
          (contains-append 47 (decimal c) _ (no_slash c) (contains_dot _ (no_slash d))))))

compute_entry :
    (k : Block) → IsBlock k → compute_at (entry k) (at_slash (entry k)) ≡ done (range_of k)
compute_entry k h =
    let text = inet_ntop_v4 k.a k.b k.c k.d in
    ap (compute_at (entry k))
      (at_slash-append text (decimal k.bits) (printed_no_slash k.a k.b k.c k.d))
    ∙ compute_at-some (entry k) text (decimal k.bits) k.bits (address_of k.a k.b k.c k.d)
        (inet_pton4-inet_ntop_v4 k.a k.b k.c k.d h.0 h.1 h.2 h.3)
        (string_to_int-decimal k.bits (omega (arith, h.5))) h.4 h.5

compute-map : (ks : List Block) → All IsBlock ks → compute (map entry ks) ≡ done (map range_of ks)
unfolding compute
compute-map [] h = refl
compute-map (k ∷ ks) h = rw (compute_entry k h.0, compute-map ks h.1) refl

matches-map : (ks : List Block) (ip : ℕ) → matches (map range_of ks) ip ≡ in_some_block ks ip
unfolding matches
matches-map [] ip = refl
matches-map (k ∷ ks) ip =
    rw
      (
        block_lem ip (block_size k) (address_of k.a k.b k.c k.d / block_size k)
            (one-le-pow (32 - k.bits) 2 (omega arith)),
        matches-map ks ip,
      )
      refl

-- Blocks that are written with their number of bits, 1 to 32, are read by `Compute`, and `Matches` then
-- holds of just the addresses that lie in one of them: from the first address, which has zeros
-- behind those bits, up to as many as the other bits can tell apart.
pub matches-compute :
    (ks : List Block)
    → All IsBlock ks
    → (rs : List Range) × (compute (map entry ks) ≡ done rs)
      × ((ip : ℕ) → matches rs ip ≡ in_some_block ks ip)
matches-compute ks h = (map range_of ks, compute-map ks h, matches-map ks)
