-- ===== src/Tests/Streams.antt =====
-- SIP messages in a stream of bytes, for SipTcp.cpp.
use orekacxx.Common.{
  ℕ, ◌+◌, ◌≡◌, ◌≢◌, refl, true, false, List, [], ◌∷◌, ◌++◌, Option, none, some, length, drop, arith,
}
use orekacxx.Common.Int.{negsuc, ◌+ℤ◌}
use orekacxx.Common.Outcome.{done}
use orekacxx.Serializers.Chars.{codes, contains, is_space}
use orekacxx.SipTcp.Search.{
  matches, search_from, mem_find_after, mem_find_str, scan_int, skip_space, read_number, convert,
  digits_from,
}
use orekacxx.SipTcp.Search.First.{IsFirst, mem_find_str-IsFirst, mem_find_after-other_case}
use orekacxx.SipTcp.Messages.{
  content_length, empty_line, complete, measure_at, message_len, stream_loop, parse_sip_stream,
}
use orekacxx.SipTcp.Messages.Framing.{IsMessage, parse_sip_stream-frames}
use orekacxx.SipTcp.Messages.Ends.{
  no_negative_length, finds_negative, negative_behind, parse_sip_stream-ends, stream_loop-hangs,
}

abbrev end_of_line : List ℕ
end_of_line = 13 ∷ 10 ∷ []

abbrev message_1 : List ℕ
message_1 = codes "BYE x" ++ (end_of_line ++ (codes "Content-Length: 0" ++ empty_line))

abbrev message_2 : List ℕ
message_2 = codes "Content-Length: 2" ++ (empty_line ++ codes "hi")

-- The messages' ends, the last first.
abbrev note : List ℕ → ℕ → ℕ → List ℕ → List ℕ
note m p q ends = q ∷ ends

message_1_whole : IsMessage message_1
unfolding message_len mem_find_after search_from matches measure_at scan_int skip_space is_space
    read_number convert digits_from complete ◌+ℤ◌
message_1_whole = record {
  header = message_1;
  body = [];
  number_at = 23;
  header_rest = 5;
  is_both = refl;
  names_length = refl;
  states = refl;
  ends = refl;
  header_length = refl;
}

message_2_whole : IsMessage message_2
unfolding message_len mem_find_after search_from matches measure_at scan_int skip_space is_space
    read_number convert digits_from complete ◌+ℤ◌
message_2_whole = record {
  header = codes "Content-Length: 2" ++ empty_line;
  body = codes "hi";
  number_at = 16;
  header_rest = 5;
  is_both = refl;
  names_length = refl;
  states = refl;
  ends = refl;
  header_length = refl;
}

nothing_complete : message_len (codes "ACK" ++ (0 ∷ [])) 3 ≡ done none
unfolding message_len mem_find_after search_from matches measure_at scan_int skip_space is_space
    read_number convert digits_from complete ◌+ℤ◌
nothing_complete = refl

parse_sip_stream-frames_example :
    parse_sip_stream note
      (codes "ab" ++ ((message_1 ++ (message_2 ++ [])) ++ (codes "ACK" ++ (0 ∷ []))))
      2
      (2 + length (message_1 ++ (message_2 ++ [])) + 3)
      []
    ≡ done (
        some (
          (2 + length message_1 + length message_2) ∷ (2 + length message_1) ∷ [],
          length (message_1 ++ (message_2 ++ [])),
        ))
parse_sip_stream-frames_example =
    parse_sip_stream-frames note (codes "ab") (message_1 ∷ message_2 ∷ []) (codes "ACK") (0 ∷ []) []
      (message_1_whole, (message_2_whole, tt)) nothing_complete (omega arith)

message_2_positive : no_negative_length message_2 (length message_2) ≡ true
unfolding no_negative_length finds_negative negative_behind mem_find_after search_from matches
    scan_int skip_space is_space read_number convert digits_from
message_2_positive = refl

parse_sip_stream-ends_example : parse_sip_stream note message_2 0 (length message_2) [] ≢ done none
parse_sip_stream-ends_example =
    parse_sip_stream-ends note message_2 0 (length message_2) [] message_2_positive

-- A length that leads back by all of the 23 bytes of the message.
abbrev message_back : List ℕ
message_back = codes "Content-Length: -23" ++ empty_line

back_number : mem_find_after content_length message_back 23 ≡ done (some 16)
unfolding mem_find_after search_from matches
back_number = refl

back_value : scan_int (drop 16 message_back) ≡ done (some (negsuc 22))
unfolding scan_int skip_space is_space read_number convert digits_from
back_value = refl

back_header : mem_find_after empty_line (drop 16 message_back) 7 ≡ done (some 7)
unfolding mem_find_after search_from matches
back_header = refl

stream_loop-hangs_example : stream_loop note message_back 0 23 1000 0 0 [] ≡ done none
stream_loop-hangs_example =
    stream_loop-hangs note message_back 0 23 16 7 22 back_number back_value back_header refl 1000 0
      []

mem_find_str-IsFirst_example :
    (r : Option ℕ) × (mem_find_str (codes "tag=") (codes ";x;TAG=1") 5 ≡ done r)
    × IsFirst (codes "tag=") (codes ";x;TAG=1") 5 r
mem_find_str-IsFirst_example = mem_find_str-IsFirst _ _ (codes ";x;TAG=1") 5 (omega arith)

abbrev lower_header : List ℕ
lower_header = codes "content-length: 2"

no_capital : contains (67) lower_header ≡ false
unfolding contains
no_capital = refl

other_case_start : matches content_length (10 ∷ lower_header) ≡ done false
unfolding matches
other_case_start = refl

mem_find_after-other_case_example :
    mem_find_after content_length (10 ∷ lower_header) (1 + length lower_header) ≡ done none
mem_find_after-other_case_example =
    mem_find_after-other_case _ _ 10 lower_header (length lower_header) (omega arith) no_capital
      other_case_start
