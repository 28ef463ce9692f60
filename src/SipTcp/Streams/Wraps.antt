-- ===== src/SipTcp/Streams/Wraps.antt =====
-- The sequence number that a stream expects, where the 32 bits of the segments wrap.
use orekacxx.Common.{ℕ, ◌+◌, ◌^◌, ◌≤◌, ◌<◌, ◌≡◌, true, false, List, arith, All}
use orekacxx.Net.TcpHeader.{seq, seq-lt}
use orekacxx.SipTcp.Streams.{Stream, Segment, waits_for, took}

-- A stream that takes a segment which reaches the end of the 32 bits of the sequence numbers waits for
-- none ever after: what it expects is kept in 64 bits. The segments' bytes are bytes, and a
-- segment is at most 65535 of them.
pub waits_for-took :
    (t : Stream) (g next : Segment) (len consumed : ℕ) (buffer : List ℕ)
    → All (λ b. b < 256) g.bytes
    → All (λ b. b < 256) next.bytes
    → waits_for t g ≡ true
    → len < 65536
    → 2 ^ 32 ≤ seq g.bytes g.tcp + len
    → waits_for (took t len consumed buffer) next ≡ false
unfolding waits_for took
waits_for-took t g next len consumed buffer bytes bytes' waits small wraps =
    ground (arith, seq-lt g.bytes g.tcp bytes, seq-lt next.bytes next.tcp bytes')
