-- ===== src/Net/Fragments/Forward/Joins.antt =====
-- The forward algorithm takes the fragments of a datagram in their order and joins them.
use orekacxx.Common.{
  ℕ, ◌+◌, ◌^◌, ◌≤◌, ◌<◌, ◌≡◌, List, ◌++◌, some, arith, length, drop, length-append, length-take,
  length-drop,
}
use orekacxx.Common.Outcome.{done}
use orekacxx.Net.IpHeader.{packet_len, header_len, payload_len, offset, set_packet_len}
use orekacxx.Net.IpHeader.Laws.{
  SameHeader-append, payload_len-sub, length-set_packet_len, packet_len-set_packet_len,
  header_len-set_packet_len,
}
use orekacxx.Net.SizedBuffer.{Allocator}
use orekacxx.Net.SizedBuffer.Laws.{ServesPackets, append_lem, reset_lem, get_header_lem}
use orekacxx.Net.Fragments.Pieces.{
  IsFragment, payload, payload_len-fragment, copy, copy-SameHeader, length-copy,
}
use orekacxx.Net.Fragments.Forward.{
  Forward, forward_init, forward_add, start_packet, extend_packet, settle,
}

-- A buffer that holds a packet with a header of `h` bytes and a payload of `n`.
pub record IsJoined (b : List ℕ) (h n : ℕ) : Type 0 where
  pub header : header_len b ≡ h
  pub header_whole : 20 ≤ h
  pub packet : packet_len b ≡ h + n
  pub bytes : length b ≡ h + n
  pub word : h + n < 2 ^ 16

-- The buffer after one more fragment.
abbrev pub joined : List ℕ → ℕ → ℕ → List ℕ → List ℕ
joined b h n p = set_packet_len (b ++ payload p) (h + n + payload_len p)

module _ (a : Allocator) (now : ℕ) (serves : ServesPackets a) where
  length-payload : (p : List ℕ) → IsFragment p → length (payload p) ≡ payload_len p
  length-payload p f = omega (
    arith,
    payload_len-fragment p f,
    length-take (payload_len p) (drop (header_len p) p),
    length-drop (header_len p) p,
  )

  payload_len-joined : {b : List ℕ} {h n : ℕ} → IsJoined b h n → payload_len b ≡ n
  payload_len-joined {b} j = omega (arith, payload_len-sub b (omega arith) (omega arith))

  pub joined-IsJoined :
      {b : List ℕ} {h n : ℕ} (p : List ℕ)
      → IsJoined b h n
      → IsFragment p
      → h + n + payload_len p < 2 ^ 16
      → IsJoined (joined b h n p) h (n + payload_len p)
  joined-IsJoined {b} {h} {n} p j f w =
      let l = length-payload p f in
      let e = length-append b (payload p) in
      let s = SameHeader-append b (payload p) (omega arith) in
      let m = length-set_packet_len (b ++ payload p) (h + n + payload_len p) in
      let k = packet_len-set_packet_len (b ++ payload p) (h + n + payload_len p) (omega arith) w in
      let o = header_len-set_packet_len (b ++ payload p) (h + n + payload_len p) in
      record {
        header = omega arith;
        header_whole = omega arith;
        packet = omega arith;
        bytes = omega arith;
        word = omega arith;
      }

  extend_packet_joins :
      {b : List ℕ} {h n : ℕ} (s : Forward) (p : List ℕ)
      → IsJoined b h n
      → IsFragment p
      → offset p ≡ n
      → h + n + payload_len p < 2 ^ 16
      → extend_packet a now s b p ≡ done (settle now p s (joined b h n p))
  unfolding extend_packet
  extend_packet_joins {b} {h} {n} s p j f o w =
      let pf = payload_len-fragment p f in
      let s' = SameHeader-append b (payload p) (omega arith) in
      ground (
        arith,
        get_header_lem b,
        payload_len-joined j,
        append_lem a b (drop (header_len p) p) (payload_len p) serves,
        length-drop (header_len p) p,
        get_header_lem (b ++ payload p),
        length-append b (payload p),
        s'.same_header_len,
        s'.same_packet_len,
        payload_len-sub (b ++ payload p),
        length-payload p f,
      )

  -- The next fragment of the datagram is taken, and its payload is added.
  pub forward_add_joins :
      {b : List ℕ} {h n : ℕ} (s : Forward) (p : List ℕ)
      → IsJoined b h n
      → IsFragment p
      → offset p ≡ n
      → h + n + payload_len p < 2 ^ 16
      → s.packet_data ≡ some b
      → forward_add a now s p ≡ done (settle now p s (joined b h n p))
  unfolding forward_add
  forward_add_joins s p j f o w e = rw (e, forward_add, extend_packet_joins s p j f o w)

  pub copy-IsJoined : (p : List ℕ) → IsFragment p → IsJoined (copy p) (header_len p) (payload_len p)
  copy-IsJoined p f =
      let s = copy-SameHeader p f in
      let e = length-copy p f in
      let k = payload_len-fragment p f in
      record {
        header = omega arith;
        header_whole = omega arith;
        packet = omega arith;
        bytes = omega arith;
        word = omega arith;
      }

  -- The first fragment is copied.
  pub forward_add_starts :
      (p : List ℕ)
      → IsFragment p
      → offset p ≡ 0
      → forward_add a now forward_init p ≡ done (settle now p forward_init (copy p))
  unfolding forward_add start_packet
  forward_add_starts p f o = ground (arith, reset_lem a p (packet_len p) serves)
