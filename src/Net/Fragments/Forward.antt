-- ===== src/Net/Fragments/Forward.antt =====
-- `ForwardSequentialAlgorithm` of IpFragmentation.cpp. `now` is what `time(NULL)` returns.
pub mod Joins
use orekacxx.Common.{
  ℕ, ◌+◌, ◌%◌, ◌^◌, Bool, true, false, ◌||◌, List, Option, none, some, drop, ◌==◌, if◌then◌else◌,
}
use orekacxx.Common.Outcome.{Outcome, done, ◌>>=◌, catch}
use orekacxx.Net.IpHeader.{
  header_len, packet_len, payload_len, offset, is_last_fragment, set_packet_len,
}
use orekacxx.Net.SizedBuffer.{Allocator, append, reset, get_header}

pub record Forward : Type 0 where
  pub dropped : Bool
  pub packet_data : Option (List ℕ)
  pub last_update : ℕ
  pub is_complete : Bool

abbrev pub forward_init : Forward
forward_init = record { dropped = false; packet_data = none; last_update = 0; is_complete = false }

-- What both do with a fragment that they take.
abbrev pub settle : ℕ → List ℕ → Forward → List ℕ → Forward
settle now p s packet = record s {
  packet_data = some packet;
  last_update = now;
  is_complete = is_last_fragment p || s.is_complete;
}

-- The first fragment, which must start the packet.
unfoldable pub start_packet : Allocator → ℕ → Forward → List ℕ → Outcome Forward
start_packet a now s p =
    if offset p == 0
    then (reset a p (packet_len p) >>= λ b. done (settle now p s b))
    else done (record s { dropped = true })

-- A later fragment, which must start where the packet ends so far.
unfoldable pub extend_packet : Allocator → ℕ → Forward → List ℕ → List ℕ → Outcome Forward
extend_packet a now s b p = get_header b >>= λ original.
    if payload_len original == offset p
    then (do
      b' ← append a b (drop (header_len p) p) (payload_len p)
      h ← get_header b'
      let len = (header_len h + payload_len h + payload_len p) % 2 ^ 64
      done (settle now p s (set_packet_len b' len)))
    else done (record s { dropped = true })

unfoldable pub forward_add : Allocator → ℕ → Forward → List ℕ → Outcome Forward
unfolding start_packet extend_packet
forward_add a now s p =
    catch
      (elim s.packet_data [ none ↦ start_packet a now s p | some b ↦ extend_packet a now s b p ])
      (record s { dropped = true })
