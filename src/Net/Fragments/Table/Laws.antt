-- ===== src/Net/Fragments/Table/Laws.antt =====
-- The table of `HandleIpFragment`: packets with other identifications are left alone, nothing that is
-- finished stays, and no entry is erased twice.
use orekacxx.Common.{
  All, ℕ, ◌++◌, ◌||◌, ==_refl, ◌≡◌, refl, ◌≢◌, inl, inr, true, false, List, [], ◌∷◌, Option, some,
  none, arith, length, ltb, Bool-cases, ◌==◌, if◌then◌else◌,
}
use orekacxx.Common.Outcome.{done, ◌>>=◌, >>=-eq-done, catch-eq-done}
use orekacxx.Net.IpHeader.{packet_id, packet_len, offset, ip_header_size}
use orekacxx.Net.SizedBuffer.{Allocator, reset}
use orekacxx.Net.Fragments.WaitAll.{
  WaitAll, wait_all_add, check_sizes, find_place, Place, retransmission, between, place_fragment,
}
use orekacxx.Net.Fragments.Table.{
  Table, find, erase, store, expire, expire_check, retire, handle_ip_fragment, or_new,
}

find-erase :
    (j k : ℕ) (m : List (ℕ × WaitAll)) → find j (erase k m) ≡ (if k == j then none else find j m)
unfolding find erase
find-erase j k [] = ground arith
find-erase j k ((i, w) ∷ m) = ground (arith, find-erase j k m)

find-store :
    (j k : ℕ) (w : WaitAll) (m : List (ℕ × WaitAll))
    → find j (store k w m) ≡ (if k == j then some w else find j m)
unfolding find store
find-store j k w m = ground (arith, find-erase j k m)

-- What `retire` leaves of the table: the entry itself if the reassembly goes on.
retire_table :
    (j k : ℕ) (t t' : Table) (w : WaitAll) (r : Option (List ℕ))
    → retire k t w ≡ done (t', r)
    → find j t'.fragment_map ≡ (
        if k == j
        then (if w.is_complete then none else if w.dropped then none else some w)
        else find j t.fragment_map)
unfolding retire
retire_table j k t t' w r h =
    ground (arith, find-store j k w t.fragment_map, find-erase j k (store k w t.fragment_map))

-- Neither complete nor dropped: still under reassembly.
abbrev pub IsOpen : WaitAll → Type 0
IsOpen s = (s.is_complete ≡ false) × (s.dropped ≡ false)

abbrev pub AllOpen : List (ℕ × WaitAll) → Type 0
AllOpen m = All (λ e. IsOpen e.1) m

join_all-check :
    (a : Allocator) (now : ℕ) (s s' : WaitAll)
    → check_sizes a now s ≡ done s'
    → IsOpen s
    → s'.is_complete ≡ true
    → s'.dropped ≡ false
unfolding check_sizes
join_all-check a now s s' h o c = ground arith

wait_all_add_placed :
    (a : Allocator) (now : ℕ) (s s' : WaitAll) (p : List ℕ) (place : Place)
    → (elim place [
      | retransmission ↦ done s
      | between before after ↦ reset a p (packet_len p) >>= λ copy.
          check_sizes a now (place_fragment s p (before ++ copy ∷ after))
    ])
      ≡ done s'
    → IsOpen s
    → s'.is_complete ≡ true
    → s'.dropped ≡ false
wait_all_add_placed a now s s' p retransmission h o c = ground arith
wait_all_add_placed a now s s' p (between before after) h o c =
    let (copy, e, rest) = >>=-eq-done (reset a p (packet_len p)) _ h in
    join_all-check a now (place_fragment s p (before ++ copy ∷ after)) s' rest o c

-- A fragment that is added to an open reassembly, neither complete nor dropped, never leaves it both
-- complete and dropped: its entry is erased once at most.
pub wait_all_add_exclusive :
    (a : Allocator) (now : ℕ) (s s' : WaitAll) (p : List ℕ)
    → wait_all_add a now s p ≡ done s'
    → IsOpen s
    → s'.is_complete ≡ true
    → s'.dropped ≡ false
unfolding wait_all_add
wait_all_add_exclusive a now s s' p h o c = elim (catch-eq-done _ _ h) [
  | inl e ↦
      let (place, found, rest) = >>=-eq-done (find_place (offset p) s.ordered_fragments) _ e in
      wait_all_add_placed a now s s' p place rest o c
  | inr e ↦ absurd (cc (e.1, o.0))
]

AllOpen-erase : (k : ℕ) (m : List (ℕ × WaitAll)) → AllOpen m → AllOpen (erase k m)
unfolding erase
AllOpen-erase k [] o = tt
AllOpen-erase k ((j, w) ∷ m) o = ground (arith, AllOpen-erase k m o.1)

AllOpen-expire : (now : ℕ) (m : List (ℕ × WaitAll)) → AllOpen m → AllOpen (expire now m)
unfolding expire
AllOpen-expire now [] o = tt
AllOpen-expire now ((j, w) ∷ m) o = ground (arith, AllOpen-expire now m o.1)

AllOpen-find : (k : ℕ) (m : List (ℕ × WaitAll)) → AllOpen m → IsOpen (or_new (find k m))
unfolding find
AllOpen-find k [] o = (refl, refl)
AllOpen-find k ((j, w) ∷ m) o = ground (arith, AllOpen-find k m o.1)

retire_map :
    (k : ℕ) (t t' : Table) (w : WaitAll) (r : Option (List ℕ))
    → retire k t w ≡ done (t', r)
    → t'.fragment_map ≡ (
        if w.is_complete || w.dropped
        then erase k (store k w t.fragment_map)
        else store k w t.fragment_map)
unfolding retire
retire_map k t t' w r h = ground arith

AllOpen-retire :
    (k : ℕ) (t t' : Table) (w : WaitAll) (r : Option (List ℕ))
    → AllOpen t.fragment_map
    → retire k t w ≡ done (t', r)
    → AllOpen t'.fragment_map
unfolding store erase
AllOpen-retire k t t' w r o h = elim (Bool-cases (w.is_complete || w.dropped)) [
  | inl e ↦
      rw (retire_map k t t' w r h, e, ==_refl k)
        (AllOpen-erase k (erase k t.fragment_map) (AllOpen-erase k t.fragment_map o))
  | inr e ↦
      rw (retire_map k t t' w r h, e)
        ((ground arith, ground arith), AllOpen-erase k t.fragment_map o)
]

AllOpen-expire_check :
    (now : ℕ) (t : Table) → AllOpen t.fragment_map → AllOpen (expire_check now t).fragment_map
unfolding expire_check
AllOpen-expire_check now t o = ground (arith, AllOpen-expire now t.fragment_map o)

retire_returns :
    (k : ℕ) (t t' : Table) (w : WaitAll) (r : Option (List ℕ))
    → retire k t w ≡ done (t', r)
    → r ≢ none
    → w.is_complete ≡ true
unfolding retire
retire_returns k t t' w r h n = ground arith

-- One fragment, of identification `k`, on a table that holds open reassemblies alone. Where the call
-- ends normally, the table holds open ones alone again, every other identification keeps what the
-- time-out leaves it, and `k` has no entry once its packet is returned.
pub handle_ip_fragment-keeps :
    (a : Allocator) (now : ℕ) (t t' : Table) (p : List ℕ) (r : Option (List ℕ))
    → AllOpen t.fragment_map
    → handle_ip_fragment a now t p ≡ done (t', r)
    → AllOpen t'.fragment_map
      × ((j : ℕ)
          → j ≢ packet_id p
          → find j t'.fragment_map ≡ find j (expire_check now t).fragment_map)
      × (r ≢ none → find (packet_id p) t'.fragment_map ≡ none)
unfolding handle_ip_fragment
handle_ip_fragment-keeps a now t t' p r o h = elim (Bool-cases (ltb (length p) ip_header_size)) [
  | inl short ↦ absurd (cc (rw short at h))
  | inr long ↦
      let t₁ = expire_check now t in
      let k = packet_id p in
      let (w, added, rest) =
        >>=-eq-done (wait_all_add a now (or_new (find k t₁.fragment_map)) p) _ (rw long at h) in
      let found = λ (j : ℕ). retire_table j k t₁ t' w r rest in
      (
        AllOpen-retire k t₁ t' w r (AllOpen-expire_check now t o) rest,
        (λ j ne. ground (arith, found j)),
        (λ n. ground (arith, found k, retire_returns k t₁ t' w r rest n)),
      )
]
