-- ===== src/SipTcp/Streams/Segments.antt =====
-- Messages that come in one segment or in several.
use mathlib.Core.List.{append_assoc}
use orekacxx.Common.{
  ℕ, ◌+◌, ◌^◌, ◌≤◌, ◌<◌, ◌≡◌, refl, ap, ◌∙◌, Bool, true, false, List, [], ◌∷◌, ◌++◌, none, some,
  length, take, drop, arith, All, length-append, length-take, le→ltb,
}
use orekacxx.Common.Int.{ℤ, pos}
use orekacxx.Common.Outcome.{done}
use orekacxx.Net.TcpHeader.{tcp_header_size}
use orekacxx.SipTcp.Messages.{Parsers, message_len}
use orekacxx.SipTcp.Messages.Framing.{IsMessage, concat, parse_each, parse_sip_stream-frames}
use orekacxx.SipTcp.Streams.{
  Stream, Segment, add, payload_at, payload_len, is_duplicate, waits_for, starts_message, is_over,
  took, parse_one, continue_stream, keep_or_erase, continue_streams, take_segment, try_sip_tcp,
}

-- Streams that a segment does not concern, and that are not over.
abbrev pub IsQuiet : ℕ → Segment → Stream → Type 0
IsQuiet now g t = (waits_for t g ≡ false) × (is_over now t ≡ false)

-- `Add` of bytes that are there, to a buffer that is not empty, where memory suffices.
add-some :
    (serves : ℕ → Bool) (b src : List ℕ) (len : ℕ)
    → 0 < length b
    → length b + len + 1 < 2 ^ 31
    → serves (length b + len + 1) ≡ true
    → len ≤ length src
    → add serves b src (pos len) ≡ done (b ++ take len src)
unfolding add
add-some serves b src len p small served le = ground arith

abbrev pub payload_of : Segment → ℕ → List ℕ
payload_of g len = take len (drop (payload_at g) g.bytes)

abbrev pub joined : Stream → Segment → ℕ → List ℕ
joined t g len = t.buffer ++ payload_of g len

-- The payload was captured, and memory suffices to add it.
pub record Fits (serves : ℕ → Bool) (t : Stream) (g : Segment) (len : ℕ) : Type 0 where
  pub not_empty : 0 < length t.buffer
  pub small : length t.buffer + len + 1 < 2 ^ 31
  pub served : serves (length t.buffer + len + 1) ≡ true
  pub there : len ≤ length (drop (payload_at g) g.bytes)

-- With the payload the buffer holds what was parsed before, whole messages, and bytes in which none is
-- complete.
pub record Completes (t : Stream) (g : Segment) (len : ℕ) (parsed : List ℕ) (msgs : List (List ℕ))
    (rest : List ℕ) : Type 0 where
  pub bytes_are : joined t g len ≡ parsed ++ (concat msgs ++ rest)
  pub offset_at : t.offset ≡ length parsed
  pub whole : All IsMessage msgs
  pub none_open : message_len (rest ++ 0 ∷ []) (length rest) ≡ done none

module _ {ℓ} {S : Type ℓ} (serves : ℕ → Bool) (ps : Parsers S) where
  continue_streams-quiet :
      (now : ℕ) (g : Segment) (len : ℤ) (s : S) (ts : List Stream)
      → All (IsQuiet now g) ts
      → continue_streams serves ps now g len s ts ≡ done (some (s, ts, false))
  unfolding continue_streams
  continue_streams-quiet now g len s [] q = refl
  continue_streams-quiet now g len s (t ∷ ts) q =
      rw (q.0.0, continue_streams-quiet now g len s ts q.1, q.0.1) refl

  -- Only the stream that waits for the segment changes.
  continue_streams-one :
      (now : ℕ) (g : Segment) (len : ℤ) (s s' : S) (xs : List Stream) (t t' : Stream)
      (ys : List Stream)
      → All (IsQuiet now g) xs
      → All (IsQuiet now g) ys
      → waits_for t g ≡ true
      → continue_stream serves ps g len s t ≡ done (some (s', t'))
      → continue_streams serves ps now g len s (xs ++ t ∷ ys)
        ≡ done (some (s', xs ++ keep_or_erase now t' ys, true))
  unfolding continue_streams
  continue_streams-one now g len s s' [] t t' ys qx qy w c =
      rw (w, c, continue_streams-quiet now g len s' ys qy) refl
  continue_streams-one now g len s s' (x ∷ xs) t t' ys qx qy w c =
      rw (qx.0.0, continue_streams-one now g len s s' xs t t' ys qx.1 qy w c, qx.0.1) refl

  -- The stream that waits for the segment, when the buffer then holds whole messages behind what is
  -- parsed, and `rest`.
  continue_stream-parses :
      (g : Segment) (s : S) (t : Stream) (len : ℕ) (parsed rest : List ℕ) (msgs : List (List ℕ))
      → Fits serves t g len
      → Completes t g len parsed msgs rest
      → continue_stream serves ps g (pos len) s t
        ≡ done (
            some (
              parse_each (parse_one ps g) (joined t g len ++ 0 ∷ []) t.offset msgs s,
              took t len (length (concat msgs)) (joined t g len),
            ))
  unfolding continue_stream
  continue_stream-parses g s t len parsed rest msgs f c =
      let b = joined t g len in
      let memory : b ++ 0 ∷ [] ≡ parsed ++ (concat msgs ++ (rest ++ 0 ∷ [])) =
        ap (λ l. l ++ 0 ∷ []) c.bytes_are
        ∙ append_assoc parsed (concat msgs ++ rest) (0 ∷ [])
        ∙ ap (λ l. parsed ++ l) (append_assoc (concat msgs) rest (0 ∷ [])) in
      let size : length b ≡ length parsed + length (concat msgs) + length rest =
        ap length c.bytes_are
        ∙ length-append parsed (concat msgs ++ rest)
        ∙ omega (arith, length-append (concat msgs) rest) in
      let small = f.small in
      let total = length-append t.buffer (payload_of g len) in
      let taken = length-take len (drop (payload_at g) g.bytes) in
      let frames =
        parse_sip_stream-frames (parse_one ps g) parsed msgs rest (0 ∷ []) s c.whole c.none_open
          (omega (arith, size, total, taken, f.small)) in
      rw
        (
          add-some serves t.buffer (drop (payload_at g) g.bytes) len f.not_empty f.small f.served
              f.there,
          memory,
          size,
          c.offset_at,
          frames,
        )
        refl

-- A segment that is there with its header, that no stream takes for a duplicate, and that does not
-- start a message itself.
pub record InnerSegment (starts_with : List ℕ → List ℕ → Bool) (g : Segment) (ts : List Stream)
    (len : ℕ) : Type 0 where
  pub captured : g.tcp + tcp_header_size ≤ length g.bytes
  pub new : is_duplicate g ts ≡ false
  pub has_length : payload_len g ≡ pos len
  pub inner : starts_message starts_with g (pos len) ≡ false

-- The list behind a stream that took all but `rest`.
abbrev pub unless_parsed : List ℕ → Stream → List Stream → List Stream
unless_parsed [] t ts = ts
unless_parsed (b ∷ rest) t ts = t ∷ ts

length-joined :
    (t : Stream) (g : Segment) (len : ℕ) (parsed : List ℕ) (msgs : List (List ℕ)) (rest : List ℕ)
    → Completes t g len parsed msgs rest
    → length (joined t g len) ≡ t.offset + length (concat msgs) + length rest
length-joined t g len parsed msgs rest c =
    ap length c.bytes_are
    ∙ length-append parsed (concat msgs ++ rest)
    ∙ omega (arith, c.offset_at, length-append (concat msgs) rest)

kept_unless_parsed :
    (now : ℕ) (t : Stream) (len total : ℕ) (b rest : List ℕ) (ys : List Stream)
    → length b ≡ t.offset + total + length rest
    → length b < 2 ^ 31
    → now < t.entry_time + 60
    → keep_or_erase now (took t len total b) ys ≡ unless_parsed rest (took t len total b) ys
unfolding is_over took
kept_unless_parsed now t len total b [] ys size small young = ground arith
kept_unless_parsed now t len total b (r ∷ rest) ys size small young = ground arith

-- A segment that a stream waits for: the messages that its bytes complete are parsed in their order,
-- each once, with the stream's earlier bytes before them. The stream is taken off the list when
-- nothing is left to parse, and stays with the bytes of the segment otherwise; the other streams
-- stay as they are. The call returns true. No other stream waits for the segment or is over, the
-- one that does is younger than a minute, the payload was captured, and memory suffices.
pub try_sip_tcp-continues {ℓ} :
    {S : Type ℓ} (serves : ℕ → Bool) (ps : Parsers S) (starts_with : List ℕ → List ℕ → Bool)
    (now : ℕ) (g : Segment) (s : S) (xs : List Stream) (t : Stream) (ys : List Stream) (len : ℕ)
    (parsed rest : List ℕ) (msgs : List (List ℕ))
    → InnerSegment starts_with g (xs ++ t ∷ ys) len
    → All (IsQuiet now g) xs
    → All (IsQuiet now g) ys
    → waits_for t g ≡ true
    → now < t.entry_time + 60
    → Fits serves t g len
    → Completes t g len parsed msgs rest
    → try_sip_tcp serves ps starts_with now g s (xs ++ t ∷ ys)
      ≡ done (
          some (
            parse_each (parse_one ps g) (joined t g len ++ 0 ∷ []) t.offset msgs s,
            xs ++ unless_parsed rest (took t len (length (concat msgs)) (joined t g len)) ys,
            true,
          ))
unfolding try_sip_tcp take_segment
try_sip_tcp-continues serves ps starts_with now g s xs t ys len parsed rest msgs k qx qy w young f
      c =
    let one =
      continue_streams-one serves ps now g (pos len) s _ xs t _ ys qx qy w
        (continue_stream-parses serves ps g s t len parsed rest msgs f c) in
    let kept =
      kept_unless_parsed now t len (length (concat msgs)) (joined t g len) rest ys
        (length-joined t g len parsed msgs rest c)
        (omega (
          arith,
          length-append t.buffer (payload_of g len),
          length-take len (drop (payload_at g) g.bytes),
          f.small,
        ))
        young in
    rw (le→ltb _ _ k.captured, k.new, k.has_length, k.inner)
      (one
        ∙ ap
            (λ l. done (
              some (
                parse_each (parse_one ps g) (joined t g len ++ 0 ∷ []) t.offset msgs s,
                xs ++ l,
                true,
              )))
            kept)
