-- ===== src/Net/Fragments/WaitAll/Joins.antt =====
-- `join_all`: the fragments of a datagram, in order, make the reassembled packet.
use orekacxx.Common.{
  ℕ, ◌+◌, ◌^◌, ◌≤◌, ◌<◌, ◌≡◌, refl, sym, ap, ◌∙◌, false, List, [], ◌∷◌, ◌++◌, some, arith, length,
  length-append,
}
use mathlib.Core.Path.{ap₂}
use native.Mathlib.Nat.{zero-add}
use mathlib.Core.List.{append-nil, append_assoc}
use orekacxx.Common.Outcome.{done}
use orekacxx.Net.IpHeader.{header_len, payload_len, set_packet_len}
use orekacxx.Net.IpHeader.Laws.{set_packet_len-append, set_packet_len_twice, length-set_packet_len}
use orekacxx.Net.SizedBuffer.{Allocator}
use orekacxx.Net.SizedBuffer.Laws.{ServesPackets, get_header_lem}
use orekacxx.Net.Fragments.Pieces.{
  IsPieces, payload, payloads, total, reassembled, copy, length-copy, payload_len-fragment,
}
use orekacxx.Net.Fragments.Forward.{Forward, forward_init, settle}
use orekacxx.Net.Fragments.Forward.Joins.{
  IsJoined, joined, joined-IsJoined, copy-IsJoined, forward_add_joins, forward_add_starts,
}
use orekacxx.Net.Fragments.WaitAll.{join_all}

-- The buffer after all of `ps`.
abbrev all_joined : List ℕ → ℕ → ℕ → List (List ℕ) → List ℕ
all_joined b h n [] = b
all_joined b h n (p ∷ ps) = all_joined (joined b h n p) h (n + payload_len p) ps

all_joined_lem :
    (b : List ℕ) (h n : ℕ) (p : List ℕ) (ps : List (List ℕ))
    → 4 ≤ length b
    → all_joined b h n (p ∷ ps) ≡ set_packet_len (b ++ payloads (p ∷ ps)) (h + n + total (p ∷ ps))
all_joined_lem b h n p [] l = rw append-nil (ap (set_packet_len (b ++ payload p)) (omega arith))
all_joined_lem b h n p (q ∷ ps) l =
    let rest = payloads (q ∷ ps) in
    let len = h + n + payload_len p in
    let fin = h + (n + payload_len p) + total (q ∷ ps) in
    let long : 4 ≤ length (b ++ payload p) = omega (arith, length-append b (payload p)) in
    all_joined_lem (joined b h n p) h (n + payload_len p) q ps (rw length-set_packet_len long)
    ∙ ap (λ c. set_packet_len c fin) (sym (set_packet_len-append (b ++ payload p) rest len long))
    ∙ set_packet_len_twice ((b ++ payload p) ++ rest) len fin
        (omega (arith, length-append (b ++ payload p) rest))
    ∙ ap₂ set_packet_len (append_assoc b (payload p) rest) (omega arith)

module _ (a : Allocator) (now : ℕ) (serves : ServesPackets a) where
  join_all_rest :
      (ps : List (List ℕ)) {b : List ℕ} {h n : ℕ} (s : Forward)
      → IsJoined b h n
      → IsPieces n ps
      → h + n + total ps < 2 ^ 16
      → s.packet_data ≡ some b
      → s.dropped ≡ false
      → (s' : Forward) × (join_all a now s ps ≡ done s')
        × (s'.dropped ≡ false)
        × (s'.packet_data ≡ some (all_joined b h n ps))
  unfolding join_all
  join_all_rest [] s j i w e d = (s, refl, d, e)
  join_all_rest (p ∷ ps) {b} {h} {n} s j i w e d =
      let f = i.0 in
      let next = record (settle now p s (joined b h n p)) { dropped = false } in
      rw
        (
          get_header_lem p (omega arith),
          forward_add_joins a now serves s p j f i.1 (omega arith) e,
          d,
        )
        (join_all_rest ps next (joined-IsJoined a now serves p j f (omega arith)) i.3 (omega arith)
          refl refl)

  -- At least two fragments that make a datagram of a lawful length are joined.
  pub join_all_pieces :
      (p q : List ℕ) (ps : List (List ℕ))
      → IsPieces 0 (p ∷ q ∷ ps)
      → header_len p + total (p ∷ q ∷ ps) < 2 ^ 16
      → (s' : Forward) × (join_all a now forward_init (p ∷ q ∷ ps) ≡ done s')
        × (s'.dropped ≡ false)
        × (s'.packet_data ≡ some (reassembled (p ∷ q ∷ ps)))
  unfolding join_all
  join_all_pieces p q ps i w =
      let f = i.0 in
      let e = payload_len-fragment p f in
      let first = settle now p forward_init (copy p) in
      let rest =
        join_all_rest (q ∷ ps) first (copy-IsJoined a now serves p f) (rw zero-add at i.3)
          (omega arith) refl refl in
      rw (get_header_lem p (omega arith), forward_add_starts a now serves p f i.1)
        (
          rest.0,
          rest.1,
          rest.2,
          rest.3
              ∙ ap some (
                  all_joined_lem (copy p) (header_len p) (payload_len p) q ps
                    (omega (arith, length-copy p f))
                  ∙ ap (set_packet_len (copy p ++ payloads (q ∷ ps))) (omega arith)),
        )
