-- ===== src/SipTcp/Streams.antt =====
-- `SafeBuffer` (SafeBuffer.cpp), `SipTcpStream` (SipTcp.h) and `TrySipTcp` (SipTcp.cpp). A buffer is
-- the list of its `m_size` bytes; behind them stands a zero. A number that is no length is negative.
pub mod Open
pub mod Segments
pub mod Starts
pub mod Wraps
use orekacxx.Common.{
  ℕ, ◌+◌, ◌-◌, ◌*◌, ◌%◌, ◌^◌, Bool, true, false, not, ◌&&◌, ◌||◌, List, [], ◌∷◌, ◌++◌, Option, none,
  some, length, take, drop, leb, ltb, ◌==◌, if◌then◌else◌,
}
use orekacxx.Common.Int.{ℤ, pos, negsuc, sub_ℕ}
use orekacxx.Common.Outcome.{Outcome, done, throws, faults, ◌>>=◌, and_then}
use orekacxx.Serializers.Chars.{codes}
use orekacxx.Net.IpHeader.{packet_len}
use orekacxx.Net.TcpHeader.{tcp_header_size, ntohl_at, source, dest, seq, off}
use orekacxx.SipTcp.Messages.{Parsers, parse_sip_message, parse_sip_stream}

-- `memcpy` of `len` bytes behind those of a buffer.
abbrev copied : List ℕ → List ℕ → ℕ → Outcome (List ℕ)
copied b src len = if leb len (length src) then done (b ++ take len src) else faults

-- `Store` and `Add`. `serves` tells the sizes that `calloc` and `realloc` can serve; the sum of the
-- sizes is an `int`.
unfoldable pub store : (ℕ → Bool) → List ℕ → ℕ → Outcome (List ℕ)
store serves src len =
    if leb (2 ^ 31) (len + 1)
    then faults
    else if serves (len + 1)
    then copied [] src len
    else throws

unfoldable pub add : (ℕ → Bool) → List ℕ → List ℕ → ℤ → Outcome (List ℕ)
add serves b src (negsuc k) = faults
add serves b src (pos len) =
    if length b == 0
    then store serves src len
    else if leb (2 ^ 31) (length b + len + 1)
    then faults
    else if serves (length b + len + 1)
    then copied b src len
    else throws

pub record Stream : Type 0 where
  pub sender_ip : ℕ
  pub receiver_ip : ℕ
  pub sender_port : ℕ
  pub receiver_port : ℕ
  pub expecting_seq_no : ℕ
  pub last_seq_no : ℕ
  pub offset : ℕ
  pub entry_time : ℕ
  pub buffer : List ℕ

-- A TCP segment: the bytes from the IP header on, and where in them the TCP header is.
pub record Segment : Type 0 where
  pub bytes : List ℕ
  pub tcp : ℕ

abbrev pub payload_at : Segment → ℕ
payload_at g = g.tcp + off g.bytes g.tcp * 4

unfoldable pub payload_len : Segment → ℤ
payload_len g = sub_ℕ (packet_len g.bytes) (payload_at g)

unfoldable pub same_ends : Stream → Segment → Bool
same_ends t g =
    (t.sender_ip == ntohl_at g.bytes 12 && t.receiver_ip == ntohl_at g.bytes 16)
    && (t.sender_port == source g.bytes g.tcp && t.receiver_port == dest g.bytes g.tcp)

unfoldable pub is_duplicate : Segment → List Stream → Bool
is_duplicate g [] = false
is_duplicate g (t ∷ ts) =
    (same_ends t g && leb (seq g.bytes g.tcp) t.last_seq_no) || is_duplicate g ts

unfoldable pub waits_for : Stream → Segment → Bool
waits_for t g = same_ends t g && t.expecting_seq_no == seq g.bytes g.tcp

-- How a message may start.
abbrev pub sip_starts : List (List ℕ)
sip_starts =
    codes "INVITE"
    ∷ codes "ACK"
    ∷ codes "BYE"
    ∷ codes "SIP/2.0 200"
    ∷ codes "SIP/2.0 183 Session Progress"
    ∷ codes "REFER"
    ∷ codes "INFO"
    ∷ codes "SUBSCRIBE"
    ∷ codes "SIP/2.0 302 Moved Temporarily"
    ∷ codes "NOTIFY"
    ∷ codes "SIP/2.0 4"
    ∷ codes "SIP/2.0 5"
    ∷ codes "SIP/2.0 6"
    ∷ codes "CANCEL "
    ∷ []

abbrev pub any_start : (List ℕ → List ℕ → Bool) → List ℕ → List (List ℕ) → Bool
any_start starts_with payload [] = false
any_start starts_with payload (t ∷ ts) = starts_with payload t || any_start starts_with payload ts

-- SIP_RESPONSE_SESSION_PROGRESS_SIZE+3 bytes at least.
unfoldable pub starts_message : (List ℕ → List ℕ → Bool) → Segment → ℤ → Bool
starts_message starts_with g (negsuc k) = false
starts_message starts_with g (pos len) =
    leb 31 len && any_start starts_with (drop (payload_at g) g.bytes) sip_starts

-- 60 seconds after its first segment a stream is given up.
unfoldable pub is_over : ℕ → Stream → Bool
is_over now t = t.offset == length t.buffer || leb (t.entry_time + 60) now

-- The effects of a call: the parsers' state, the static list, and the Boolean that is returned.
-- `none` is a call that does not end.
abbrev pub Result {ℓ} : Type ℓ → Type ℓ
Result S = Outcome (Option (S × List Stream × Bool))

-- The members of a new stream; the sum is of 32 bits.
unfoldable pub new_stream : ℕ → Segment → ℕ → ℕ → List ℕ → Stream
new_stream now g len offset buffer = record {
  sender_ip = ntohl_at g.bytes 12;
  receiver_ip = ntohl_at g.bytes 16;
  sender_port = source g.bytes g.tcp;
  receiver_port = dest g.bytes g.tcp;
  expecting_seq_no = (seq g.bytes g.tcp + len) % 2 ^ 32;
  last_seq_no = seq g.bytes g.tcp;
  offset = offset;
  entry_time = now;
  buffer = buffer;
}

-- A stream that got a segment. Its sum is of `unsigned long`, 64 bits.
unfoldable pub took : Stream → ℕ → ℕ → List ℕ → Stream
took t len consumed buffer = record t {
  offset = (t.offset + consumed) % 2 ^ 64;
  expecting_seq_no = (t.expecting_seq_no + len) % 2 ^ 64;
  buffer = buffer;
}

abbrev pub keep_or_erase : ℕ → Stream → List Stream → List Stream
keep_or_erase now t ts = if is_over now t then ts else t ∷ ts

-- What `ParseSipStream` does with each message.
abbrev pub parse_one {ℓ} : {S : Type ℓ} → Parsers S → Segment → List ℕ → ℕ → ℕ → S → S
parse_one ps g m p q s =
    (parse_sip_message ps (source g.bytes g.tcp) (dest g.bytes g.tcp) m p q s).0

-- The allocator and the parsers. `now` is what `time(NULL)` returns during the call.
module _ {ℓ} {S : Type ℓ} (serves : ℕ → Bool) (ps : Parsers S) where
  -- A segment that starts a message: what is incomplete makes a stream.
  unfoldable pub start_stream : ℕ → Segment → ℕ → S → List Stream → Result S
  start_stream now g len s ts =
      let at = payload_at g in
      and_then (parse_sip_stream (parse_one ps g) g.bytes at (at + len) s) (λ parsed.
        if parsed.1 == len
        then done (some (parsed.0, ts, true))
        else (add serves [] (drop at g.bytes) (pos len) >>= λ b.
            done (some (parsed.0, ts ++ new_stream now g len parsed.1 b ∷ [], true))))

  -- The body of the loop up to the question whether the stream is over. `Add` copies no negative number
  -- of bytes.
  unfoldable pub continue_stream : Segment → ℤ → S → Stream → Outcome (Option (S × Stream))
  continue_stream g (negsuc k) s t = faults
  continue_stream g (pos len) s t =
      add serves t.buffer (drop (payload_at g) g.bytes) (pos len) >>= λ b.
      and_then (parse_sip_stream (parse_one ps g) (b ++ 0 ∷ []) t.offset (length b) s)
        (λ parsed. done (some (parsed.0, took t len parsed.1 b)))

  abbrev pub visit : Segment → ℤ → S → Stream → Outcome (Option (S × Stream))
  visit g len s t = if waits_for t g then continue_stream g len s t else done (some (s, t))

  -- The loop over the list.
  unfoldable pub continue_streams : ℕ → Segment → ℤ → S → List Stream → Result S
  continue_streams now g len s [] = done (some (s, [], false))
  continue_streams now g len s (t ∷ ts) = and_then (visit g len s t) (λ v.
      and_then (continue_streams now g len v.0 ts)
        (λ r. done (some (r.0, keep_or_erase now v.1 r.1, waits_for t g || r.2))))

  -- A segment that is no duplicate. `starts_with` is boost's, on the bytes from a pointer on.
  unfoldable pub take_segment :
      (List ℕ → List ℕ → Bool) → ℕ → Segment → ℤ → S → List Stream → Result S
  take_segment starts_with now g (negsuc k) s ts = continue_streams now g (negsuc k) s ts
  take_segment starts_with now g (pos len) s ts =
      if starts_message starts_with g (pos len)
      then start_stream now g len s ts
      else continue_streams now g (pos len) s ts

  unfoldable pub try_sip_tcp : (List ℕ → List ℕ → Bool) → ℕ → Segment → S → List Stream → Result S
  try_sip_tcp starts_with now g s ts =
      if ltb (length g.bytes) (g.tcp + tcp_header_size)
      then faults
      else if is_duplicate g ts
      then done (some (s, ts, true))
      else take_segment starts_with now g (payload_len g) s ts
