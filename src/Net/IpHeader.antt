-- ===== src/Net/IpHeader.antt =====
-- `IpHeaderStruct` of orkaudio/audiocaptureplugins/common/PacketHeaderDefs.h. A pointer to it is
-- the list of the bytes that stand in memory from it on. The fields in network order are read
-- through `ntohs` on a little-endian machine, which gives the big-endian value of the two bytes.
pub mod Laws
use orekacxx.Common.{ℕ, ◌+◌, ◌-◌, ◌*◌, ◌/◌, ◌%◌, ◌^◌, Bool, not, ◌||◌, List, get_or, set, ltb, ◌==◌}

-- sizeof(IpHeaderStruct)
abbrev pub ip_header_size : ℕ
ip_header_size = 20

abbrev pub byte_at : List ℕ → ℕ → ℕ
byte_at p i = get_or p i 0

abbrev pub ntohs_at : List ℕ → ℕ → ℕ
ntohs_at p i = byte_at p i * 256 + byte_at p (i + 1)

unfoldable pub packet_id : List ℕ → ℕ
packet_id p = ntohs_at p 4

-- The last 13 bits, times 8.
unfoldable pub offset : List ℕ → ℕ
offset p = ntohs_at p 6 % 2 ^ 13 * 2 ^ 3

-- The first 3 bits.
unfoldable pub fragment_flags : List ℕ → ℕ
fragment_flags p = ntohs_at p 6 / 2 ^ 13

unfoldable pub header_len : List ℕ → ℕ
header_len p = byte_at p 0 % 16 * 4

unfoldable pub packet_len : List ℕ → ℕ
packet_len p = ntohs_at p 2

-- A difference of two `size_t`, which wraps.
unfoldable pub payload_len : List ℕ → ℕ
payload_len p = (packet_len p + 2 ^ 64 - header_len p) % 2 ^ 64

unfoldable pub is_last_fragment : List ℕ → Bool
is_last_fragment p = fragment_flags p % 2 == 0

unfoldable pub is_fragmented : List ℕ → Bool
is_fragmented p = not (is_last_fragment p) || ltb 0 (offset p)

-- `htons` takes the low 16 bits of its argument.
unfoldable pub set_packet_len : List ℕ → ℕ → List ℕ
set_packet_len p len = set (set p 2 (len % 2 ^ 16 / 256)) 3 (len % 256)
