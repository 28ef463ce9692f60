-- ===== src/SipTcp/Streams/Starts.antt =====
-- Segments that start a message.
use mathlib.Core.List.{append_assoc}
use orekacxx.Common.{
  ℕ, ◌+◌, ◌^◌, ◌≤◌, ◌<◌, ◌≡◌, refl, sym, ap, ◌∙◌, Bool, true, false, List, [], ◌∷◌, ◌++◌, some,
  none, length, take, drop, arith, All, length-append, take-append_left, le→ltb, ◌==◌,
}
use orekacxx.Common.Int.{pos}
use orekacxx.Common.Outcome.{done}
use orekacxx.Net.TcpHeader.{tcp_header_size}
use orekacxx.SipTcp.Messages.{Parsers, message_len, parse_sip_stream}
use orekacxx.SipTcp.Messages.Framing.{
  IsMessage, concat, parse_each, parse_sip_stream-frames, drop-append_left,
}
use orekacxx.SipTcp.Streams.{
  Stream, Segment, store, add, payload_at, payload_len, is_duplicate, starts_message, new_stream,
  parse_one, start_stream, take_segment, try_sip_tcp,
}

-- A segment that starts a message: its bytes are its headers, whole messages, bytes in which none is
-- complete, and what was captured behind the packet. Memory suffices for its payload.
pub record StartSegment (serves : ℕ → Bool) (starts_with : List ℕ → List ℕ → Bool) (g : Segment)
    (ts : List Stream) (headers : List ℕ) (msgs : List (List ℕ)) (rest behind : List ℕ)
    : Type 0 where
  pub bytes_are : g.bytes ≡ headers ++ (concat msgs ++ (rest ++ behind))
  pub captured : g.tcp + tcp_header_size ≤ length g.bytes
  pub headers_end : payload_at g ≡ length headers
  pub has_length : payload_len g ≡ pos (length (concat msgs) + length rest)
  pub new : is_duplicate g ts ≡ false
  pub outer : starts_message starts_with g (pos (length (concat msgs) + length rest)) ≡ true
  pub whole : All IsMessage msgs
  pub none_open : message_len (rest ++ behind) (length rest) ≡ done none
  pub served : serves (length (concat msgs) + length rest + 1) ≡ true
  pub small : length headers + length (concat msgs) + length rest + 1 < 2 ^ 31

add_new :
    (serves : ℕ → Bool) (src : List ℕ) (len : ℕ)
    → len + 1 < 2 ^ 31
    → serves (len + 1) ≡ true
    → len ≤ length src
    → add serves [] src (pos len) ≡ done (take len src)
unfolding add store
add_new serves src len small served le = ground arith

-- The list with the stream that keeps the bytes, if any is left.
abbrev pub with_stream : List ℕ → Stream → List Stream → List Stream
with_stream [] t ts = ts
with_stream (b ∷ rest) t ts = ts ++ t ∷ []

payload_bytes :
    (msgs rest behind : List ℕ)
    → take (length msgs + length rest) (msgs ++ (rest ++ behind)) ≡ msgs ++ rest
payload_bytes msgs rest behind =
    ap (λ n. take n (msgs ++ (rest ++ behind))) (sym (length-append msgs rest))
    ∙ ap (take (length (msgs ++ rest))) (sym (append_assoc msgs rest behind))
    ∙ take-append_left (msgs ++ rest) behind

frames_at {ℓ} :
    {S : Type ℓ} (parse : List ℕ → ℕ → ℕ → S → S) (m : List ℕ) (start : ℕ) (headers : List ℕ)
    (msgs : List (List ℕ)) (rest behind : List ℕ) (s : S)
    → m ≡ headers ++ (concat msgs ++ (rest ++ behind))
    → start ≡ length headers
    → All IsMessage msgs
    → message_len (rest ++ behind) (length rest) ≡ done none
    → length headers + length (concat msgs) + length rest < 2 ^ 64
    → parse_sip_stream parse m start (start + (length (concat msgs) + length rest)) s
      ≡ done (some (parse_each parse m start msgs s, length (concat msgs)))
frames_at parse m start headers msgs rest behind s bytes at whole none_open small =
    let end : length headers + (length (concat msgs) + length rest)
        ≡ length headers + length (concat msgs) + length rest =
      omega arith in
    rw (bytes, at, end)
      (parse_sip_stream-frames parse headers msgs rest behind s whole none_open small)

payload_there :
    (msgs rest behind : List ℕ) → length msgs + length rest ≤ length (msgs ++ (rest ++ behind))
payload_there msgs rest behind =
    omega (arith, length-append msgs (rest ++ behind), length-append rest behind)

start_stream-parses {ℓ} :
    {S : Type ℓ} (serves : ℕ → Bool) (ps : Parsers S) (starts_with : List ℕ → List ℕ → Bool)
    (now : ℕ) (g : Segment) (s : S) (ts : List Stream) (headers : List ℕ) (msgs : List (List ℕ))
    (rest behind : List ℕ)
    → StartSegment serves starts_with g ts headers msgs rest behind
    → start_stream serves ps now g (length (concat msgs) + length rest) s ts
      ≡ done (
          some (
            parse_each (parse_one ps g) g.bytes (payload_at g) msgs s,
            with_stream rest
                (new_stream now g
                  (length (concat msgs) + length rest)
                  (length (concat msgs))
                  (concat msgs ++ rest))
                ts,
            true,
          ))
unfolding start_stream
start_stream-parses serves ps starts_with now g s ts headers msgs [] behind h =
    let whole : (length (concat msgs) == length (concat msgs) + 0) ≡ true = ground arith in
    let parsed =
      frames_at (parse_one ps g) g.bytes (payload_at g) headers msgs [] behind s h.bytes_are
        h.headers_end h.whole h.none_open (omega (arith, h.small)) in
    rw (parsed, whole) refl
start_stream-parses serves ps starts_with now g s ts headers msgs (b ∷ rest) behind h =
    let part : (length (concat msgs) == length (concat msgs) + length (b ∷ rest)) ≡ false =
      ground arith in
    let parsed =
      frames_at (parse_one ps g) g.bytes (payload_at g) headers msgs (b ∷ rest) behind s h.bytes_are
        h.headers_end h.whole h.none_open (omega (arith, h.small)) in
    let payload : drop (payload_at g) g.bytes ≡ concat msgs ++ ((b ∷ rest) ++ behind) =
      ap (λ n. drop n g.bytes) h.headers_end
      ∙ ap (drop (length headers)) h.bytes_are
      ∙ drop-append_left headers _ in
    let added =
      add_new serves (concat msgs ++ ((b ∷ rest) ++ behind))
        (length (concat msgs) + length (b ∷ rest)) (omega (arith, h.small)) h.served
        (payload_there (concat msgs) (b ∷ rest) behind) in
    rw (parsed, part, payload, added, payload_bytes (concat msgs) (b ∷ rest) behind) refl

-- A new segment that starts a message: the whole messages in it are parsed in their order, each once,
-- and the call returns true. If bytes are left, a stream with the payload, parsed as far, goes to
-- the end of the list; otherwise the list stays as it is.
pub try_sip_tcp-starts {ℓ} :
    {S : Type ℓ} (serves : ℕ → Bool) (ps : Parsers S) (starts_with : List ℕ → List ℕ → Bool)
    (now : ℕ) (g : Segment) (s : S) (ts : List Stream) (headers : List ℕ) (msgs : List (List ℕ))
    (rest behind : List ℕ)
    → StartSegment serves starts_with g ts headers msgs rest behind
    → try_sip_tcp serves ps starts_with now g s ts
      ≡ done (
          some (
            parse_each (parse_one ps g) g.bytes (payload_at g) msgs s,
            with_stream rest
                (new_stream now g
                  (length (concat msgs) + length rest)
                  (length (concat msgs))
                  (concat msgs ++ rest))
                ts,
            true,
          ))
unfolding try_sip_tcp take_segment
try_sip_tcp-starts serves ps starts_with now g s ts headers msgs rest behind h =
    rw (le→ltb _ _ h.captured, h.new, h.has_length, h.outer)
      (start_stream-parses serves ps starts_with now g s ts headers msgs rest behind h)
