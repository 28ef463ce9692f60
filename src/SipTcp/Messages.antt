-- ===== src/SipTcp/Messages.antt =====
-- `ParseSipMessage` and `ParseSipStream` of SipTcp.cpp. The pointers are positions in one list of
-- bytes that can be read, `m`. `S` is what the parsers of SIP requests and responses keep.
pub mod Framing
pub mod Ends
use orekacxx.Common.{
  ℕ, zero, suc, ◌+◌, ◌-◌, ◌%◌, ◌^◌, Bool, true, false, List, [], ◌∷◌, Option, none, some, drop,
  if◌then◌else◌,
}
use orekacxx.Common.Int.{ℤ, pos, negsuc, ◌+ℤ◌, ltb_ℤ}
use orekacxx.Common.Outcome.{Outcome, done, faults, ◌>>=◌}
use orekacxx.Serializers.Chars.{codes}
use orekacxx.SipTcp.Search.{mem_find_after, scan_int}

-- The header that the parsers take, its fields in the order of the host; the sum is of `size_t`, of
-- which `htons` takes 16 bits.
pub record UdpHeader : Type 0 where
  pub source : ℕ
  pub dest : ℕ
  pub len : ℕ

-- One parser, on a message between two positions: whether it had use for it.
abbrev pub Parser {ℓ} : Type ℓ → Type ℓ
Parser S = UdpHeader → List ℕ → ℕ → ℕ → S → S × Bool

-- The parsers of SipParsers.cpp, for the Ethernet and IP headers at hand.
pub record Parsers {ℓ} (S : Type ℓ) : Type ℓ where
  pub try_sip_invite : Parser S
  pub try_sip_200_ok : Parser S
  pub try_sip_notify : Parser S
  pub try_sip_session_progress : Parser S
  pub try_sip_302_moved_temporarily : Parser S
  pub try_sip_bye : Parser S
  pub try_sip_refer : Parser S
  pub try_sip_info : Parser S
  pub try_sip_subscribe : Parser S
  pub try_log_failed_sip : Parser S

module _ {ℓ} {S : Type ℓ} where
  -- `if(!usefulPacket)`.
  abbrev pub unless_useful : S × Bool → (S → S × Bool) → S × Bool
  unless_useful (s, true) try = (s, true)
  unless_useful (s, false) try = try s

  unfoldable pub parse_sip_message : Parsers S → ℕ → ℕ → List ℕ → ℕ → ℕ → S → S × Bool
  parse_sip_message p source dest m payload packet_end s =
      let udp : UdpHeader = record {
        source = source;
        dest = dest;
        len = (packet_end + 2 ^ 64 - payload + 8) % 2 ^ 16;
      } in
      let first = p.try_sip_invite udp m payload packet_end s in
      let second = unless_useful first (p.try_sip_200_ok udp m payload packet_end) in
      let third = unless_useful second (p.try_sip_notify udp m payload packet_end) in
      let fourth = unless_useful third (p.try_sip_session_progress udp m payload packet_end) in
      let fifth = unless_useful fourth (p.try_sip_302_moved_temporarily udp m payload packet_end) in
      let sixth = unless_useful fifth (p.try_sip_bye udp m payload packet_end) in
      let seventh = unless_useful sixth (p.try_sip_refer udp m payload packet_end) in
      let eighth = unless_useful seventh (p.try_sip_info udp m payload packet_end) in
      let ninth = unless_useful eighth (p.try_sip_subscribe udp m payload packet_end) in
      unless_useful ninth (p.try_log_failed_sip udp m payload packet_end)

abbrev pub content_length : List ℕ
content_length = codes "Content-Length: "

-- Two ends of line.
abbrev pub empty_line : List ℕ
empty_line = 13 ∷ 10 ∷ 13 ∷ 10 ∷ []

-- Where the message ends, `i` being the place of the number and `j` from there the end of the header.
-- A number that was not read is a variable without a value.
unfoldable pub complete : ℕ → ℕ → Option ℤ → Option ℕ → Outcome (Option ℤ)
complete n i len none = done none
complete n i none (some j) = faults
complete n i (some len) (some j) =
    let message_end = pos (i + j) +ℤ len in
    if ltb_ℤ (pos n) message_end then done none else done (some message_end)

unfoldable pub measure_at : List ℕ → ℕ → Option ℕ → Outcome (Option ℤ)
measure_at m n none = done none
measure_at m n (some i) = scan_int (drop i m) >>= λ len.
    mem_find_after empty_line (drop i m) (n - i) >>= λ header. complete n i len header

-- How far the end of a complete message is from its start, before the end of the buffer, `n` away.
unfoldable pub message_len : List ℕ → ℕ → Outcome (Option ℤ)
message_len m n = mem_find_after content_length m n >>= measure_at m n

-- There is no place before the first byte.
unfoldable pub move : ℕ → ℤ → Outcome ℕ
move p len = elim (pos p +ℤ len) [ pos q ↦ done q | negsuc k ↦ faults ]

module _ {ℓ} {S : Type ℓ} (parse : List ℕ → ℕ → ℕ → S → S) (m : List ℕ) (start end : ℕ) where
  -- The loop, `none` when it takes more rounds than `fuel`. The offset is a difference of pointers as
  -- a `size_t`.
  unfoldable pub stream_loop : ℕ → ℕ → ℕ → S → Outcome (Option (S × ℕ))
  stream_loop zero p offset s = done none
  stream_loop (suc fuel) p offset s = message_len (drop p m) (end - p) >>= λ len. elim len [
    | none ↦ done (some (s, offset))
    | some z ↦ move p z >>= λ q. stream_loop fuel q ((q + 2 ^ 64 - start) % 2 ^ 64) (parse m p q s)
  ]

  -- A message ends at the end of the buffer at most, so a loop that ends makes fewer rounds.
  unfoldable pub parse_sip_stream : S → Outcome (Option (S × ℕ))
  parse_sip_stream s = stream_loop (end + 2) start 0 s
