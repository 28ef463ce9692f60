-- ===== src/Tests/Segments.antt =====
-- TCP segments that carry SIP messages, for SipTcp.cpp.
use orekacxx.Common.{
  ℕ, ◌+◌, ◌*◌, ◌≤◌, ◌^◌, ◌-◌, ◌≡◌, refl, Bool, true, false, List, [], ◌∷◌, ◌++◌, none, some, arith,
  All, leb,
}
use orekacxx.Common.Int.{◌+ℤ◌}
use orekacxx.Common.Outcome.{done}
use orekacxx.Serializers.Chars.{codes, is_space}
use orekacxx.Dtmf.{starts_with}
use orekacxx.Net.IpHeader.{packet_len}
use orekacxx.Net.TcpHeader.{source, dest, seq, off}
use orekacxx.SipTcp.Search.{
  matches, search_from, mem_find_after, scan_int, skip_space, read_number, convert, digits_from,
}
use orekacxx.SipTcp.Messages.{Parsers, Parser, parse_sip_message, complete, measure_at, message_len}
use orekacxx.SipTcp.Messages.Framing.{IsMessage}
use orekacxx.SipTcp.Streams.{
  Stream, Segment, payload_len, same_ends, is_duplicate, waits_for, starts_message, is_over, took,
  try_sip_tcp,
}
use orekacxx.SipTcp.Streams.Open.{IsOpen, try_sip_tcp-IsOpen}
use orekacxx.SipTcp.Streams.Wraps.{waits_for-took}
use orekacxx.SipTcp.Streams.Segments.{Fits, Completes, InnerSegment, try_sip_tcp-continues}
use orekacxx.SipTcp.Streams.Starts.{StartSegment, try_sip_tcp-starts}

abbrev ip_part : ℕ → List ℕ
ip_part len =
    69 ∷ 0 ∷ 0 ∷ len ∷ 0 ∷ 0 ∷ 0 ∷ 0 ∷ 64 ∷ 6 ∷ 0 ∷ 0 ∷ 10 ∷ 0 ∷ 0 ∷ 1 ∷ 10 ∷ 0 ∷ 0 ∷ 2 ∷ []

-- Ports 5060, sequence number in its last byte, five words of header.
abbrev tcp_part : ℕ → List ℕ
tcp_part low =
    19 ∷ 196 ∷ 19 ∷ 196 ∷ 0 ∷ 0 ∷ 0 ∷ low ∷ 0 ∷ 0 ∷ 0 ∷ 0 ∷ 80 ∷ 24 ∷ 0 ∷ 0 ∷ 0 ∷ 0 ∷ 0 ∷ 0 ∷ []

abbrev bye_start : List ℕ
bye_start = codes "BYE sip:a@b" ++ (13 ∷ 10 ∷ codes "Content-Le")

abbrev bye_end : List ℕ
bye_end = codes "ngth: 0" ++ (13 ∷ 10 ∷ 13 ∷ 10 ∷ [])

abbrev bye : List ℕ
bye = bye_start ++ bye_end

abbrev headers_of : ℕ → ℕ → List ℕ
headers_of len low = ip_part len ++ tcp_part low

abbrev whole_segment : Segment
whole_segment = record { bytes = headers_of 74 100 ++ bye; tcp = 20 }

abbrev second_segment : Segment
second_segment = record { bytes = headers_of 51 123 ++ bye_end; tcp = 20 }

abbrev waiting : Stream
waiting = record {
  sender_ip = 10 * 2 ^ 24 + 1;
  receiver_ip = 10 * 2 ^ 24 + 2;
  sender_port = 5060;
  receiver_port = 5060;
  expecting_seq_no = 123;
  last_seq_no = 100;
  offset = 0;
  entry_time = 1000;
  buffer = bye_start;
}

abbrev other : Stream
other = record waiting { sender_port = 5070 }

-- Where the messages end that the parser of BYE requests got, the last first.
abbrev no_use : Parser (List ℕ)
no_use udp m payload packet_end s = (s, false)

abbrev noted : Parser (List ℕ)
noted udp m payload packet_end s = (packet_end ∷ s, true)

abbrev some_parsers : Parsers (List ℕ)
some_parsers = record {
  try_sip_invite = no_use;
  try_sip_200_ok = no_use;
  try_sip_notify = no_use;
  try_sip_session_progress = no_use;
  try_sip_302_moved_temporarily = no_use;
  try_sip_bye = noted;
  try_sip_refer = no_use;
  try_sip_info = no_use;
  try_sip_subscribe = no_use;
  try_log_failed_sip = no_use;
}

abbrev small_sizes : ℕ → Bool
small_sizes n = leb n 1000

abbrev begins : List ℕ → List ℕ → Bool
begins m t = starts_with t m

bye_whole : IsMessage bye
unfolding message_len mem_find_after search_from matches measure_at scan_int skip_space is_space
    read_number convert digits_from complete ◌+ℤ◌
bye_whole = record {
  header = bye;
  body = [];
  number_at = 29;
  header_rest = 5;
  is_both = refl;
  names_length = refl;
  states = refl;
  ends = refl;
  header_length = refl;
}

nothing_left : message_len (0 ∷ []) 0 ≡ done none
unfolding message_len mem_find_after search_from measure_at
nothing_left = refl

none_left : message_len [] 0 ≡ done none
unfolding message_len mem_find_after search_from measure_at
none_left = refl

whole_segment-StartSegment :
    StartSegment small_sizes begins whole_segment (other ∷ []) (headers_of 74 100) (bye ∷ []) [] []
unfolding payload_len packet_len off source dest seq is_duplicate same_ends starts_message
    starts_with
whole_segment-StartSegment = record {
  bytes_are = refl;
  captured = omega arith;
  headers_end = refl;
  has_length = refl;
  new = refl;
  outer = refl;
  whole = (bye_whole, tt);
  none_open = none_left;
  served = refl;
  small = omega arith;
}

try_sip_tcp-starts_example :
    try_sip_tcp small_sizes some_parsers begins 1000 whole_segment [] (other ∷ [])
    ≡ done (some (74 ∷ [], other ∷ [], true))
unfolding parse_sip_message off
try_sip_tcp-starts_example =
    try_sip_tcp-starts small_sizes some_parsers begins 1000 whole_segment [] (other ∷ [])
      (headers_of 74 100) (bye ∷ []) [] [] whole_segment-StartSegment

second_segment-InnerSegment : InnerSegment begins second_segment (other ∷ waiting ∷ []) 11
unfolding payload_len packet_len off source dest seq is_duplicate same_ends starts_message
    starts_with
second_segment-InnerSegment = record {
  captured = omega arith;
  new = refl;
  has_length = refl;
  inner = refl;
}

other_quiet : (waits_for other second_segment ≡ false) × (is_over 1010 other ≡ false)
unfolding waits_for same_ends source dest seq is_over
other_quiet = (refl, refl)

waiting_waits : waits_for waiting second_segment ≡ true
unfolding waits_for same_ends source dest seq
waiting_waits = refl

second_segment-Fits : Fits small_sizes waiting second_segment 11
unfolding off
second_segment-Fits = record {
  not_empty = omega arith;
  small = omega arith;
  served = refl;
  there = omega arith;
}

second_segment-Completes : Completes waiting second_segment 11 [] (bye ∷ []) []
unfolding off
second_segment-Completes = record {
  bytes_are = refl;
  offset_at = refl;
  whole = (bye_whole, tt);
  none_open = nothing_left;
}

try_sip_tcp-continues_example :
    try_sip_tcp small_sizes some_parsers begins 1010 second_segment [] (other ∷ waiting ∷ [])
    ≡ done (some (34 ∷ [], other ∷ [], true))
unfolding parse_sip_message off
try_sip_tcp-continues_example =
    try_sip_tcp-continues small_sizes some_parsers begins 1010 second_segment [] (other ∷ [])
      waiting [] 11 [] [] (bye ∷ []) second_segment-InnerSegment (other_quiet, tt) tt waiting_waits
      (omega arith) second_segment-Fits second_segment-Completes

try_sip_tcp-IsOpen_example : All IsOpen (other ∷ [])
try_sip_tcp-IsOpen_example =
    try_sip_tcp-IsOpen small_sizes some_parsers begins 1010 second_segment [] (other ∷ waiting ∷ [])
      (34 ∷ [], other ∷ [], true) (refl, (refl, tt)) try_sip_tcp-continues_example

-- A stream and a segment at the end of the sequence numbers.
abbrev late : Stream
late = record waiting { expecting_seq_no = 2 ^ 32 - 10 }

abbrev late_segment : Segment
late_segment = record {
  bytes =
      ip_part 60
      ++ (19
          ∷ 196
          ∷ 19
          ∷ 196
          ∷ 255
          ∷ 255
          ∷ 255
          ∷ 246
          ∷ 0
          ∷ 0
          ∷ 0
          ∷ 0
          ∷ 80
          ∷ 24
          ∷ 0
          ∷ 0
          ∷ 0
          ∷ 0
          ∷ 0
          ∷ 0
          ∷ codes "12345678901234567890");
  tcp = 20;
}

late_waits : waits_for late late_segment ≡ true
unfolding waits_for same_ends source dest seq
late_waits = refl

late_seq : 2 ^ 32 ≤ seq late_segment.bytes 20 + 20
unfolding seq
late_seq = omega arith

waits_for-took_example :
    waits_for (took late 20 0 (bye_start ++ codes "12345678901234567890")) second_segment ≡ false
waits_for-took_example =
    waits_for-took late late_segment second_segment 20 0 _ (ground arith) (ground arith) late_waits
      (omega arith) late_seq
