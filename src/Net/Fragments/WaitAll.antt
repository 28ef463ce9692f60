-- ===== src/Net/Fragments/WaitAll.antt =====
-- `WaitAllAndSortAlgorithm` of IpFragmentation.cpp.
pub mod Joins
pub mod Order
pub mod Arrivals
use orekacxx.Common.{
  ℕ, ◌+◌, ◌%◌, ◌^◌, Bool, true, false, not, ◌&&◌, List, [], ◌∷◌, ◌++◌, Option, none, ltb, ◌==◌,
  if◌then◌else◌,
}
use orekacxx.Common.Outcome.{Outcome, done, ◌>>=◌, catch}
use orekacxx.Net.IpHeader.{packet_len, payload_len, offset, is_last_fragment}
use orekacxx.Net.SizedBuffer.{Allocator, reset, get_header}
use orekacxx.Net.Fragments.Forward.{Forward, forward_init, forward_add}

pub record WaitAll : Type 0 where
  pub ordered_fragments : List (List ℕ)
  pub final_size : ℕ
  pub last_update : ℕ
  pub current_size : ℕ
  pub is_complete : Bool
  pub dropped : Bool
  pub packet_data : Option (List ℕ)

abbrev pub wait_all_init : WaitAll
wait_all_init = record {
  ordered_fragments = [];
  final_size = 0;
  last_update = 0;
  current_size = 0;
  is_complete = false;
  dropped = false;
  packet_data = none;
}

-- What the search for the place of a fragment finds.
pub data Place : Type 0 where
  retransmission : Place
  between : List (List ℕ) → List (List ℕ) → Place

abbrev pub after_fragment : List ℕ → Place → Place
after_fragment f retransmission = retransmission
after_fragment f (between before after) = between (f ∷ before) after

-- The loop over the ordered fragments: the first that starts further on, if none starts here.
unfoldable pub find_place : ℕ → List (List ℕ) → Outcome Place
find_place start [] = done (between [] [])
find_place start (f ∷ fs) =
    let rest = find_place start fs in
    get_header f >>= λ header.
    if offset header == start
    then done retransmission
    else if ltb start (offset header)
    then done (between [] (f ∷ fs))
    else rest >>= λ place. done (after_fragment f place)

-- The loop that hands the fragments to the forward algorithm, until it drops one.
unfoldable pub join_all : Allocator → ℕ → Forward → List (List ℕ) → Outcome Forward
join_all a now s [] = done s
join_all a now s (f ∷ fs) = get_header f >>= λ header. forward_add a now s header >>= λ s'.
    elim s'.dropped [ true ↦ done s' | false ↦ join_all a now s' fs ]

-- What follows the insertion, up to the end of the `try` block. A throw here keeps what is counted.
unfoldable pub check_sizes : Allocator → ℕ → WaitAll → Outcome WaitAll
check_sizes a now s =
    if not (s.final_size == 0) && ltb s.final_size s.current_size
    then done (record s { dropped = true })
    else if s.current_size == s.final_size
    then catch
        (join_all a now forward_init s.ordered_fragments >>= (λ joined.
          if joined.dropped
          then done (record s { dropped = true })
          else done (record s {
            packet_data = joined.packet_data;
            is_complete = true;
            last_update = now;
          })))
        (record s { dropped = true })
    else done (record s { last_update = now })

-- The state when a new fragment stands in its place and the sizes are counted.
abbrev pub place_fragment : WaitAll → List ℕ → List (List ℕ) → WaitAll
place_fragment s p fragments = record s {
  ordered_fragments = fragments;
  final_size = if is_last_fragment p then (offset p + payload_len p) % 2 ^ 64 else s.final_size;
  current_size = (s.current_size + payload_len p) % 2 ^ 64;
}

-- A throw in the search or in the copy leaves the members as they were.
unfoldable pub wait_all_add : Allocator → ℕ → WaitAll → List ℕ → Outcome WaitAll
wait_all_add a now s p =
    catch
      (find_place (offset p) s.ordered_fragments >>= λ place. elim place [
        | retransmission ↦ done s
        | between before after ↦ reset a p (packet_len p) >>= λ copy.
            check_sizes a now (place_fragment s p (before ++ copy ∷ after))
      ])
      (record s { dropped = true })
