-- ===== src/Net/Fragments/Pieces.antt =====
-- What the reassembly of IpFragmentation.cpp is held against: a datagram cut into fragments, in the
-- order of their offsets, and the packet that they make together.
use orekacxx.Common.{
  ℕ, ◌+◌, ◌-◌, ◌^◌, ◌≤◌, ◌<◌, ◌≡◌, refl, sym, ap, ◌∙◌, Bool, true, false, List, [], ◌∷◌, ◌++◌, map,
  arith, length, take, drop, length-take, drop-take, take-all,
}
use mathlib.Core.Path.{ap₂}
use orekacxx.Net.IpHeader.{
  packet_len, header_len, payload_len, offset, is_last_fragment, set_packet_len,
}
use orekacxx.Net.IpHeader.Laws.{SameHeader, SameHeader-take, payload_len-sub}

abbrev pub is_nil {ℓ} : {A : Type ℓ} → List A → Bool
is_nil [] = true
is_nil (x ∷ xs) = false

-- A fragment with a whole header and some payload, all of it captured.
pub record IsFragment (p : List ℕ) : Type 0 where
  pub header_whole : 20 ≤ header_len p
  pub not_empty : header_len p < packet_len p
  pub captured : packet_len p ≤ length p
  pub word : packet_len p < 2 ^ 16

abbrev pub payload : List ℕ → List ℕ
payload p = take (payload_len p) (drop (header_len p) p)

abbrev pub payloads : List (List ℕ) → List ℕ
payloads [] = []
payloads (p ∷ ps) = payload p ++ payloads ps

abbrev pub total : List (List ℕ) → ℕ
total [] = 0
total (p ∷ ps) = payload_len p + total ps

-- The fragments follow one another from `start` on, and the last one alone is marked as last.
abbrev pub IsPieces : ℕ → List (List ℕ) → Type 0
IsPieces start [] = Unit {0}
IsPieces start (p ∷ ps) =
    IsFragment p
    × (offset p ≡ start)
    × (is_last_fragment p ≡ is_nil ps)
    × IsPieces (start + payload_len p) ps

-- The header of the first fragment, with the new length, before all the payloads.
abbrev pub reassembled : List (List ℕ) → List ℕ
reassembled [] = []
reassembled (p ∷ ps) =
    set_packet_len (take (packet_len p) p ++ payloads ps) (header_len p + total (p ∷ ps))

-- The bytes of the packet that a fragment is, with none of what follows it in memory.
abbrev pub copy : List ℕ → List ℕ
copy p = take (packet_len p) p

pub payload_len-fragment : (p : List ℕ) → IsFragment p → payload_len p ≡ packet_len p - header_len p
payload_len-fragment p f = payload_len-sub p (omega arith) f.word

pub length-copy : (p : List ℕ) → IsFragment p → length (copy p) ≡ packet_len p
length-copy p f = omega (arith, length-take (packet_len p) p)

pub copy-SameHeader : (p : List ℕ) → IsFragment p → SameHeader (copy p) p
copy-SameHeader p f = SameHeader-take (packet_len p) p (omega arith)

pub copy-IsFragment : (p : List ℕ) → IsFragment p → IsFragment (copy p)
copy-IsFragment p f =
    let s = copy-SameHeader p f in
    let e = length-copy p f in
    record {
      header_whole = omega arith;
      not_empty = omega arith;
      captured = omega arith;
      word = omega arith;
    }

pub payload_len-copy : (p : List ℕ) → IsFragment p → payload_len (copy p) ≡ payload_len p
payload_len-copy p f =
    let s = copy-SameHeader p f in
    omega (arith, payload_len-fragment p f, payload_len-fragment (copy p) (copy-IsFragment p f))

pub payload-copy : (p : List ℕ) → IsFragment p → payload (copy p) ≡ payload p
payload-copy p f =
    let s = copy-SameHeader p f in
    let e : packet_len p ≡ header_len p + payload_len p = omega (arith, payload_len-fragment p f) in
    ap₂ (λ m h. take m (drop h (copy p))) (payload_len-copy p f) s.same_header_len
    ∙ ap (λ m. take (payload_len p) (drop (header_len p) (take m p))) e
    ∙ ap (take (payload_len p)) (drop-take (header_len p) (payload_len p) p)
    ∙ take-all (payload_len p) (payload p)
        (omega (arith, length-take (payload_len p) (drop (header_len p) p)))

pub total-copy :
    (ps : List (List ℕ)) (start : ℕ) → IsPieces start ps → total (map copy ps) ≡ total ps
total-copy [] start h = refl
total-copy (p ∷ ps) start h =
    omega (arith, payload_len-copy p h.0, total-copy ps (start + payload_len p) h.3)

pub payloads-copy :
    (ps : List (List ℕ)) (start : ℕ) → IsPieces start ps → payloads (map copy ps) ≡ payloads ps
payloads-copy [] start h = refl
payloads-copy (p ∷ ps) start h =
    ap₂ ◌++◌ (payload-copy p h.0) (payloads-copy ps (start + payload_len p) h.3)

is_nil-map : (ps : List (List ℕ)) → is_nil (map copy ps) ≡ is_nil ps
is_nil-map [] = refl
is_nil-map (p ∷ ps) = refl

pub copies-IsPieces :
    (ps : List (List ℕ)) (start : ℕ) → IsPieces start ps → IsPieces start (map copy ps)
copies-IsPieces [] start h = tt
copies-IsPieces (p ∷ ps) start h =
    let s = copy-SameHeader p h.0 in
    (
      copy-IsFragment p h.0,
      s.same_offset ∙ h.1,
      s.same_last ∙ h.2 ∙ sym (is_nil-map ps),
      rw (payload_len-copy p h.0) (copies-IsPieces ps (start + payload_len p) h.3),
    )

copy-copy : (p : List ℕ) → IsFragment p → copy (copy p) ≡ copy p
copy-copy p f =
    let s = copy-SameHeader p f in
    take-all (packet_len (copy p)) (copy p) (omega (arith, length-copy p f))

pub reassembled-copies :
    (ps : List (List ℕ)) → IsPieces 0 ps → reassembled (map copy ps) ≡ reassembled ps
reassembled-copies [] i = refl
reassembled-copies (p ∷ ps) i =
    let s = copy-SameHeader p i.0 in
    ap₂ set_packet_len (ap₂ ◌++◌ (copy-copy p i.0) (payloads-copy ps (0 + payload_len p) i.3))
      (ap₂ ◌+◌ s.same_header_len (total-copy (p ∷ ps) 0 i))
