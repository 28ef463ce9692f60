-- ===== src/Net/IpHeader/Laws.antt =====
-- How the fields of an IP header survive copies, appends and a new packet length.
use orekacxx.Common.{
  ℕ, ◌-◌, ◌^◌, ◌≤◌, ◌<◌, ◌≡◌, refl, List, [], ◌∷◌, ◌++◌, arith, length, take, length-set,
  get_or-append, get_or-take,
}
use orekacxx.Net.IpHeader.{
  byte_at, packet_id, offset, fragment_flags, header_len, packet_len, payload_len, is_last_fragment,
  set_packet_len,
}

pub payload_len-sub :
    (p : List ℕ)
    → header_len p ≤ packet_len p
    → packet_len p < 2 ^ 16
    → payload_len p ≡ packet_len p - header_len p
unfolding payload_len
payload_len-sub p h k = omega arith

-- The fields of the fixed part of the header.
pub record SameHeader (p q : List ℕ) : Type 0 where
  pub same_id : packet_id p ≡ packet_id q
  pub same_offset : offset p ≡ offset q
  pub same_last : is_last_fragment p ≡ is_last_fragment q
  pub same_header_len : header_len p ≡ header_len q
  pub same_packet_len : packet_len p ≡ packet_len q

SameHeader-of_bytes :
    (p q : List ℕ) → ((i : ℕ) → i < 20 → byte_at p i ≡ byte_at q i) → SameHeader p q
unfolding packet_id offset is_last_fragment fragment_flags header_len packet_len
SameHeader-of_bytes p q h = record {
  same_id = ground (arith, h 4, h 5);
  same_offset = ground (arith, h 6, h 7);
  same_last = ground (arith, h 6, h 7);
  same_header_len = ground (arith, h 0);
  same_packet_len = ground (arith, h 2, h 3);
}

pub SameHeader-take : (n : ℕ) (p : List ℕ) → 20 ≤ n → SameHeader (take n p) p
SameHeader-take n p h = SameHeader-of_bytes (take n p) p (λ i lt. get_or-take n p i 0 (omega arith))

pub SameHeader-append : (p q : List ℕ) → 20 ≤ length p → SameHeader (p ++ q) p
SameHeader-append p q h =
    SameHeader-of_bytes (p ++ q) p (λ i lt. get_or-append p q i 0 (omega arith))

pub length-set_packet_len : (b : List ℕ) (n : ℕ) → length (set_packet_len b n) ≡ length b
unfolding set_packet_len
length-set_packet_len b n = omega (arith, length-set {0})

pub packet_len-set_packet_len :
    (b : List ℕ) (n : ℕ) → 4 ≤ length b → n < 2 ^ 16 → packet_len (set_packet_len b n) ≡ n
unfolding set_packet_len packet_len
packet_len-set_packet_len (x ∷ y ∷ z ∷ w ∷ r) n h k = omega arith
packet_len-set_packet_len (x ∷ y ∷ z ∷ []) n h k = absurd (omega arith)
packet_len-set_packet_len (x ∷ y ∷ []) n h k = absurd (omega arith)
packet_len-set_packet_len (x ∷ []) n h k = absurd (omega arith)
packet_len-set_packet_len [] n h k = absurd (omega arith)

pub header_len-set_packet_len :
    (b : List ℕ) (n : ℕ) → header_len (set_packet_len b n) ≡ header_len b
unfolding set_packet_len header_len
header_len-set_packet_len (x ∷ b) n = refl
header_len-set_packet_len [] n = refl

pub set_packet_len-append :
    (b c : List ℕ) (n : ℕ) → 4 ≤ length b → set_packet_len (b ++ c) n ≡ set_packet_len b n ++ c
unfolding set_packet_len
set_packet_len-append (x ∷ y ∷ z ∷ w ∷ r) c n h = refl
set_packet_len-append (x ∷ y ∷ z ∷ []) c n h = absurd (omega arith)
set_packet_len-append (x ∷ y ∷ []) c n h = absurd (omega arith)
set_packet_len-append (x ∷ []) c n h = absurd (omega arith)
set_packet_len-append [] c n h = absurd (omega arith)

pub set_packet_len_twice :
    (b : List ℕ) (m n : ℕ)
    → 4 ≤ length b
    → set_packet_len (set_packet_len b m) n ≡ set_packet_len b n
unfolding set_packet_len
set_packet_len_twice (x ∷ y ∷ z ∷ w ∷ r) m n h = refl
set_packet_len_twice (x ∷ y ∷ z ∷ []) m n h = absurd (omega arith)
set_packet_len_twice (x ∷ y ∷ []) m n h = absurd (omega arith)
set_packet_len_twice (x ∷ []) m n h = absurd (omega arith)
set_packet_len_twice [] m n h = absurd (omega arith)
