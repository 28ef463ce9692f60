-- ===== src/Net/TcpHeader.antt =====
-- `TcpHeaderStruct` of orkaudio/audiocaptureplugins/common/PacketHeaderDefs.h, at a position of the
-- bytes of an IP packet; the fields in the order of the host.
use orekacxx.Common.{ℕ, zero, suc, ◌+◌, ◌*◌, ◌/◌, ◌^◌, ◌<◌, List, [], ◌∷◌, get_or, All, arith}
use orekacxx.Net.IpHeader.{byte_at, ntohs_at}

-- sizeof(TcpHeaderStruct)
abbrev pub tcp_header_size : ℕ
tcp_header_size = 20

abbrev pub ntohl_at : List ℕ → ℕ → ℕ
ntohl_at p i = ntohs_at p i * 65536 + ntohs_at p (i + 2)

unfoldable pub source : List ℕ → ℕ → ℕ
source p tcp = ntohs_at p tcp

unfoldable pub dest : List ℕ → ℕ → ℕ
dest p tcp = ntohs_at p (tcp + 2)

unfoldable pub seq : List ℕ → ℕ → ℕ
seq p tcp = ntohl_at p (tcp + 4)

-- The upper 4 bits of their byte.
unfoldable pub off : List ℕ → ℕ → ℕ
off p tcp = byte_at p (tcp + 12) / 16

get_or-byte : (p : List ℕ) (i : ℕ) → All (λ b. b < 256) p → get_or p i 0 < 256
get_or-byte [] i a = omega arith
get_or-byte (b ∷ p) zero a = a.0
get_or-byte (b ∷ p) (suc i) a = get_or-byte p i a.1

-- A sequence number has 32 bits.
pub seq-lt : (p : List ℕ) (tcp : ℕ) → All (λ b. b < 256) p → seq p tcp < 2 ^ 32
unfolding seq
seq-lt p tcp a = omega (
  arith,
  get_or-byte p (tcp + 4) a,
  get_or-byte p (tcp + 4 + 1) a,
  get_or-byte p (tcp + 4 + 2) a,
  get_or-byte p (tcp + 4 + 2 + 1) a,
)
