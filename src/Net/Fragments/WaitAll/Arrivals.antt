-- ===== src/Net/Fragments/WaitAll/Arrivals.antt =====
-- The fragments of a datagram, in whatever order they come, are reassembled with the last of them.
use mathlib.Core.List.{Permᴰ}
use mathlib.Core.List.Permᴰ
use orekacxx.Common.{
  All, All-append, ℕ, ◌+◌, ◌^◌, ◌≤◌, ◌<◌, ◌≡◌, refl, ap, ◌∙◌, ◌≢◌, true, false, List, [], ◌∷◌, ◌++◌,
  map, some, arith, if◌then◌else◌,
}
use orekacxx.Common.Outcome.{Outcome, done, ◌>>=◌, catch}
use orekacxx.Net.IpHeader.{packet_len, header_len, payload_len, offset, is_last_fragment}
use orekacxx.Net.SizedBuffer.{Allocator}
use orekacxx.Net.SizedBuffer.Laws.{ServesPackets, reset_lem}
use orekacxx.Net.Fragments.Pieces.{
  IsFragment, IsPieces, total, reassembled, copy, payload_len-fragment, copies-IsPieces, total-copy,
  reassembled-copies, copy-SameHeader,
}
use orekacxx.Net.Fragments.Forward.{Forward, forward_init}
use orekacxx.Net.Fragments.WaitAll.{
  WaitAll, wait_all_init, wait_all_add, find_place, check_sizes, join_all, place_fragment,
}
use orekacxx.Net.Fragments.WaitAll.Joins.{join_all_pieces}
use orekacxx.Net.Fragments.WaitAll.Order.{
  All-sort, All-perm, any_last, any_last-perm, Distinct-perm, total-perm, sort, sort-perm,
  sort-pieces, IsPieces-Distinct, IsPieces-IsFragment, IsPieces-ends, any_last-pieces, total-append,
  find_place_new,
}

-- Fragments that come at the given times.
abbrev pub add_all : Allocator → WaitAll → List (ℕ × List ℕ) → Outcome WaitAll
add_all a s [] = done s
add_all a s ((now, p) ∷ ps) = wait_all_add a now s p >>= λ s'. add_all a s' ps

abbrev pub fragment : ℕ × List ℕ → List ℕ
fragment e = e.1

-- The state when the fragments of `seen` have come, of a datagram with `size` bytes of payload.
record HasSeen (seen : List (List ℕ)) (size : ℕ) (s : WaitAll) : Type 0 where
  ordered : s.ordered_fragments ≡ map copy (sort seen)
  current : s.current_size ≡ total seen
  final : s.final_size ≡ (if any_last seen then size else 0)
  open_yet : s.is_complete ≡ false
  kept : s.dropped ≡ false

-- What is known of a fragment before it is added.
record IsNext (seen : List (List ℕ)) (size : ℕ) (p : List ℕ) : Type 0 where
  whole : IsFragment p
  all_whole : All IsFragment seen
  new : All (λ q. offset q ≢ offset p) seen
  ends : is_last_fragment p ≡ true → offset p + payload_len p ≡ size
  within : total (p ∷ seen) ≤ size
  small : size < 2 ^ 16

-- The state with the new fragment in its place.
abbrev counted : ℕ → WaitAll → List (List ℕ) → List ℕ → WaitAll
counted size s seen p = record {
  ordered_fragments = map copy (sort (p ∷ seen));
  final_size = if any_last (p ∷ seen) then size else 0;
  last_update = s.last_update;
  current_size = total (p ∷ seen);
  is_complete = s.is_complete;
  dropped = s.dropped;
  packet_data = s.packet_data;
}

module _ (a : Allocator) (serves : ServesPackets a) where
  -- A new fragment is put in its place and counted before the sizes are checked.
  wait_all_add_next :
      (now size : ℕ) (s : WaitAll) (seen : List (List ℕ)) (p : List ℕ)
      → HasSeen seen size s
      → IsNext seen size p
      → wait_all_add a now s p
        ≡ catch (check_sizes a now (counted size s seen p)) (record s { dropped = true })
  unfolding wait_all_add
  wait_all_add_next now size s seen p h n =
      let (before, after, found, placed) =
        find_place_new p (sort seen) (All-sort _ seen n.all_whole) (All-sort _ seen n.new) in
      let e : place_fragment s p (map copy (sort (p ∷ seen))) ≡ counted size s seen p =
        ground (arith, h.current, h.final, n.ends) in
      rw
        (
          ap (find_place (offset p)) h.ordered ∙ found,
          reset_lem a p (packet_len p) serves n.whole.captured n.whole.word,
        )
        (ap (λ t. catch (check_sizes a now t) (record s { dropped = true }))
          (ap (place_fragment s p) placed ∙ e))

  -- As long as a fragment is missing, the fragment is kept and nothing else happens.
  wait_all_add_partial :
      (now size : ℕ) (s : WaitAll) (seen : List (List ℕ)) (p : List ℕ)
      → HasSeen seen size s
      → IsNext seen size p
      → total (p ∷ seen) < size
      → wait_all_add a now s p ≡ done (record (counted size s seen p) { last_update = now })
  unfolding check_sizes
  wait_all_add_partial now size s seen p h n lt =
      wait_all_add_next now size s seen p h n ∙ ground (arith, payload_len-fragment p n.whole)

  wait_all_add_complete :
      (now size : ℕ) (s : WaitAll) (seen : List (List ℕ)) (p : List ℕ) (f : Forward)
      → HasSeen seen size s
      → IsNext seen size p
      → total (p ∷ seen) ≡ size
      → any_last (p ∷ seen) ≡ true
      → join_all a now forward_init (map copy (sort (p ∷ seen))) ≡ done f
      → f.dropped ≡ false
      → wait_all_add a now s p
        ≡ done (record (counted size s seen p) {
          last_update = now;
          is_complete = true;
          packet_data = f.packet_data;
        })
  unfolding check_sizes
  wait_all_add_complete now size s seen p f h n e l j d =
      wait_all_add_next now size s seen p h n ∙ ground (arith, payload_len-fragment p n.whole)

-- A datagram in at least two pieces, of a lawful length.
module _ (a : Allocator) (serves : ServesPackets a) (p q : List ℕ) (ps : List (List ℕ))
    (pieces : IsPieces 0 (p ∷ q ∷ ps)) (fits : header_len p + total (p ∷ q ∷ ps) < 2 ^ 16) where
  abbrev whole : List (List ℕ)
  whole = p ∷ q ∷ ps

  perm-IsNext :
      (x : List ℕ) (others seen : List (List ℕ))
      → Permᴰ (x ∷ (others ++ seen)) whole
      → IsNext seen (total whole) x
  perm-IsNext x others seen d =
      let fragments = All-perm _ d (IsPieces-IsFragment 0 whole pieces) in
      let ends = All-perm _ d (IsPieces-ends 0 (total whole) whole pieces (omega arith)) in
      let distinct = Distinct-perm d (IsPieces-Distinct 0 whole pieces) in
      record {
        whole = fragments.0;
        all_whole = (All-append _ others seen fragments.1).1;
        new = (All-append _ others seen distinct.0).1;
        ends = ends.0;
        within = omega (arith, total-perm d, total-append others seen);
        small = omega arith;
      }

  -- The fragment that completes the datagram.
  add_last :
      (now : ℕ) (x : List ℕ) (seen : List (List ℕ)) (s : WaitAll)
      → Permᴰ (x ∷ seen) whole
      → HasSeen seen (total whole) s
      → (s' : WaitAll) × (wait_all_add a now s x ≡ done s')
        × (s'.is_complete ≡ true)
        × (s'.dropped ≡ false)
        × (s'.packet_data ≡ some (reassembled whole))
  add_last now x seen s d h =
      let n = perm-IsNext x [] seen d in
      let sorted = sort-perm d (IsPieces-Distinct 0 whole pieces) ∙ sort-pieces 0 whole pieces in
      let (f, joins, kept, packet) =
        join_all_pieces a now serves (copy p) (copy q) (map copy ps)
          (copies-IsPieces whole 0 pieces)
          (omega
            (arith, (copy-SameHeader p pieces.0).same_header_len, total-copy whole 0 pieces)) in
      (
        _,
        wait_all_add_complete a serves now (total whole) s seen x f h n (total-perm d)
            (any_last-perm d ∙ any_last-pieces 0 p (q ∷ ps) pieces)
            (ap (λ l. join_all a now forward_init (map copy l)) sorted ∙ joins) kept,
        refl,
        h.kept,
        packet ∙ ap some (reassembled-copies whole pieces),
      )

  add_rest :
      (now : ℕ) (x : List ℕ) (rest : List (ℕ × List ℕ)) (seen : List (List ℕ)) (s : WaitAll)
      → Permᴰ (x ∷ (map fragment rest ++ seen)) whole
      → HasSeen seen (total whole) s
      → (s' : WaitAll) × (add_all a s ((now, x) ∷ rest) ≡ done s')
        × (s'.is_complete ≡ true)
        × (s'.dropped ≡ false)
        × (s'.packet_data ≡ some (reassembled whole))
  add_rest now x [] seen s d h =
      let (s', added, complete, kept, packet) = add_last now x seen s d h in
      (s', rw added, complete, kept, packet)
  add_rest now x ((later, y) ∷ rest) seen s d h =
      let n = perm-IsNext x (y ∷ map fragment rest) seen d in
      let fragments = All-perm _ d (IsPieces-IsFragment 0 whole pieces) in
      let next = record (counted (total whole) s seen x) { last_update = now } in
      let missing : total (x ∷ seen) < total whole = omega (
        arith,
        total-perm d,
        total-append (map fragment rest) seen,
        payload_len-fragment y fragments.1.0,
      ) in
      let d' = Permᴰ.trans (Permᴰ.middle x (y ∷ map fragment rest) seen) d in
      rw (wait_all_add_partial a serves now (total whole) s seen x h n missing) (
        add_rest later y rest (x ∷ seen) next d' (record {
          ordered = refl;
          current = refl;
          final = refl;
          open_yet = h.open_yet;
          kept = h.kept;
        }))

-- Whatever the order in which the fragments of a datagram come, each once, and whatever the times,
-- none of them faults, the last to come completes the reassembly, nothing is dropped, and the packet
-- is the header of the first piece, with the total length, before the payloads in the order of the
-- offsets. The datagram has at least two pieces, its length fits 16 bits, and memory suffices.
pub add_all-reassembled :
    (a : Allocator)
    → ServesPackets a
    → (p q : List ℕ) (ps : List (List ℕ)) → IsPieces 0 (p ∷ q ∷ ps)
    → header_len p + total (p ∷ q ∷ ps) < 2 ^ 16
    → (arrivals : List (ℕ × List ℕ)) → Permᴰ (map fragment arrivals) (p ∷ q ∷ ps)
    → (s : WaitAll) × (add_all a wait_all_init arrivals ≡ done s)
      × (s.is_complete ≡ true)
      × (s.dropped ≡ false)
      × (s.packet_data ≡ some (reassembled (p ∷ q ∷ ps)))
add_all-reassembled a serves p q ps pieces fits [] d =
    absurd (omega (arith, total-perm d, payload_len-fragment p pieces.0))
add_all-reassembled a serves p q ps pieces fits ((now, x) ∷ rest) d =
    add_rest a serves p q ps pieces fits now x rest [] wait_all_init
      (Permᴰ.trans (Permᴰ.append-nil (x ∷ map fragment rest)) d)
      (record { ordered = refl; current = refl; final = refl; open_yet = refl; kept = refl })
