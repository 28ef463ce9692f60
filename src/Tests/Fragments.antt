-- ===== src/Tests/Fragments.antt =====
-- A datagram in two pieces, for IpFragmentation.cpp.
use mathlib.Core.List.{Permᴰ}
use orekacxx.Common.{
  ℕ, ◌+◌, ◌^◌, ◌<◌, ◌≡◌, ◌≢◌, refl, true, false, List, [], ◌∷◌, some, none, Option, arith,
}
use orekacxx.Common.Outcome.{done}
use orekacxx.Net.IpHeader.{
  packet_len, header_len, payload_len, offset, is_last_fragment, packet_id, fragment_flags,
}
use orekacxx.Net.SizedBuffer.{get_header, get, Allocator, reset, write, memcpy, resize}
use orekacxx.Net.SizedBuffer.Laws.{ServesPackets}
use orekacxx.Net.Fragments.Pieces.{IsFragment, IsPieces, total, reassembled}
use orekacxx.Net.Fragments.Forward.{forward_add, start_packet}
use orekacxx.Net.Fragments.WaitAll.{
  join_all, WaitAll, wait_all_init, wait_all_add, find_place, check_sizes,
}
use orekacxx.Net.Fragments.WaitAll.Arrivals.{add_all, add_all-reassembled}
use orekacxx.Net.Fragments.Table.{
  Table, find, store, erase, expire_check, expire, handle_ip_fragment, retire,
}
use orekacxx.Net.Fragments.Table.Laws.{wait_all_add_exclusive, AllOpen, handle_ip_fragment-keeps}

abbrev ample : Allocator
ample = record { serves = λ n. true; junk = 0 }

-- Identification 7; 8 bytes of payload, and 3 at offset 8.
abbrev first_piece : List ℕ
first_piece =
    69 ∷ 0 ∷ 0 ∷ 28 ∷ 0 ∷ 7 ∷ 32 ∷ 0 ∷ 64 ∷ 17 ∷ 0 ∷ 0 ∷ 10 ∷ 0 ∷ 0 ∷ 1 ∷ 10 ∷ 0 ∷ 0 ∷ 2 ∷ 1 ∷ 2 ∷ 3
    ∷ 4 ∷ 5 ∷ 6 ∷ 7 ∷ 8 ∷ []

abbrev last_piece : List ℕ
last_piece =
    69 ∷ 0 ∷ 0 ∷ 23 ∷ 0 ∷ 7 ∷ 0 ∷ 1 ∷ 64 ∷ 17 ∷ 0 ∷ 0 ∷ 10 ∷ 0 ∷ 0 ∷ 1 ∷ 10 ∷ 0 ∷ 0 ∷ 2 ∷ 9 ∷ 10
    ∷ 11 ∷ []

-- A header alone, at offset 0, with more fragments to come.
abbrev empty_piece : List ℕ
empty_piece =
    69 ∷ 0 ∷ 0 ∷ 20 ∷ 0 ∷ 7 ∷ 32 ∷ 0 ∷ 64 ∷ 17 ∷ 0 ∷ 0 ∷ 10 ∷ 0 ∷ 0 ∷ 1 ∷ 10 ∷ 0 ∷ 0 ∷ 2 ∷ []

ample-ServesPackets : ServesPackets ample
ample-ServesPackets n h = refl

first_piece-IsFragment : IsFragment first_piece
unfolding packet_len header_len
first_piece-IsFragment = record {
  header_whole = omega arith;
  not_empty = omega arith;
  captured = omega arith;
  word = omega arith;
}

last_piece-IsFragment : IsFragment last_piece
unfolding packet_len header_len
last_piece-IsFragment = record {
  header_whole = omega arith;
  not_empty = omega arith;
  captured = omega arith;
  word = omega arith;
}

two-IsPieces : IsPieces 0 (first_piece ∷ last_piece ∷ [])
unfolding offset is_last_fragment fragment_flags payload_len packet_len header_len
two-IsPieces = (first_piece-IsFragment, refl, refl, (last_piece-IsFragment, refl, refl, tt))

pieces_fit : header_len first_piece + total (first_piece ∷ last_piece ∷ []) < 2 ^ 16
unfolding payload_len packet_len header_len
pieces_fit = omega arith

add_all-reassembled_example :
    (s : WaitAll) × (add_all ample wait_all_init ((1, last_piece) ∷ (2, first_piece) ∷ []) ≡ done s)
    × (s.is_complete ≡ true)
    × (s.dropped ≡ false)
    × (s.packet_data ≡ some (reassembled (first_piece ∷ last_piece ∷ [])))
add_all-reassembled_example =
    add_all-reassembled ample ample-ServesPackets first_piece last_piece [] two-IsPieces pieces_fit
      ((1, last_piece) ∷ (2, first_piece) ∷ []) (Permᴰ.swap refl refl)

abbrev nothing_yet : Option (List ℕ)
nothing_yet = none

abbrev empty_table : Table
empty_table = record { last_check = 0; fragment_map = [] }

abbrev one_seen : WaitAll
one_seen = record {
  ordered_fragments = first_piece ∷ [];
  final_size = 0;
  last_update = 5;
  current_size = 8;
  is_complete = false;
  dropped = false;
  packet_data = none;
}

abbrev one_entry : Table
one_entry = record { last_check = 0; fragment_map = (7, one_seen) ∷ [] }

first_handled : handle_ip_fragment ample 5 empty_table first_piece ≡ done (one_entry, none)
unfolding handle_ip_fragment retire wait_all_add check_sizes find_place reset write memcpy resize
    store erase expire_check expire find packet_id packet_len offset is_last_fragment fragment_flags
    payload_len header_len
first_handled = refl

handle_ip_fragment-keeps_example :
    AllOpen one_entry.fragment_map
    × ((j : ℕ)
        → j ≢ packet_id first_piece
        → find j one_entry.fragment_map ≡ find j (expire_check 5 empty_table).fragment_map)
    × (nothing_yet ≢ none → find (packet_id first_piece) one_entry.fragment_map ≡ none)
handle_ip_fragment-keeps_example =
    handle_ip_fragment-keeps ample 5 empty_table one_entry first_piece none tt first_handled

abbrev completed : WaitAll
completed = record {
  ordered_fragments = empty_piece ∷ [];
  final_size = 0;
  last_update = 1;
  current_size = 0;
  is_complete = true;
  dropped = false;
  packet_data = some empty_piece;
}

empty_piece_added : wait_all_add ample 1 wait_all_init empty_piece ≡ done completed
unfolding wait_all_add check_sizes join_all forward_add start_packet find_place get_header get reset
    write memcpy resize packet_len offset is_last_fragment fragment_flags payload_len header_len
empty_piece_added = refl

wait_all_add_exclusive_example : completed.dropped ≡ false
wait_all_add_exclusive_example =
    wait_all_add_exclusive ample 1 wait_all_init completed empty_piece empty_piece_added
      (refl, refl) refl
