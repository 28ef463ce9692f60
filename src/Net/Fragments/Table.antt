-- ===== src/Net/Fragments/Table.antt =====
-- `HandleIpFragment` of IpFragmentation.cpp: its static map and its time-out. The map is an
-- association list; the source only searches it, filters it, inserts and erases. The mutex that
-- the function holds makes each call one step.
pub mod Laws
use orekacxx.Common.{
  ℕ, ◌+◌, List, [], ◌∷◌, Option, none, some, leb, ltb, length, ◌==◌, if◌then◌else◌,
}
use orekacxx.Common.Outcome.{Outcome, done, faults, ◌>>=◌}
use orekacxx.Net.IpHeader.{packet_id, ip_header_size}
use orekacxx.Net.SizedBuffer.{Allocator, get_header}
use orekacxx.Net.Fragments.WaitAll.{WaitAll, wait_all_init, wait_all_add}

abbrev pub timeout_sec : ℕ
timeout_sec = 60

pub record Table : Type 0 where
  pub last_check : ℕ
  pub fragment_map : List (ℕ × WaitAll)

unfoldable pub find : ℕ → List (ℕ × WaitAll) → Option WaitAll
find k [] = none
find k ((j, w) ∷ m) = if j == k then some w else find k m

unfoldable pub erase : ℕ → List (ℕ × WaitAll) → List (ℕ × WaitAll)
erase k [] = []
erase k ((j, w) ∷ m) = if j == k then erase k m else (j, w) ∷ erase k m

-- Assigns through the shared pointer of the entry, or makes the entry.
unfoldable pub store : ℕ → WaitAll → List (ℕ × WaitAll) → List (ℕ × WaitAll)
store k w m = (k, w) ∷ erase k m

-- Keeps what was updated less than `timeout_sec` ago.
unfoldable pub expire : ℕ → List (ℕ × WaitAll) → List (ℕ × WaitAll)
expire now [] = []
expire now ((j, w) ∷ m) =
    if leb (w.last_update + timeout_sec) now then expire now m else (j, w) ∷ expire now m

unfoldable pub expire_check : ℕ → Table → Table
expire_check now t =
    if leb (t.last_check + timeout_sec) now
    then record { last_check = now; fragment_map = expire now t.fragment_map }
    else t

-- An `erase` of an iterator that is erased already is a fault.
unfoldable pub retire : ℕ → Table → WaitAll → Outcome (Table × Option (List ℕ))
retire k t w =
    let m = store k w t.fragment_map in
    let gone = record t { fragment_map = erase k m } in
    if w.is_complete
    then (if w.dropped then faults else elim w.packet_data [
      | none ↦ faults
      | some b ↦ get_header b >>= λ _. done (gone, some b)
    ])
    else if w.dropped
    then done (gone, none)
    else done (record t { fragment_map = m }, none)

abbrev pub or_new : Option WaitAll → WaitAll
or_new none = wait_all_init
or_new (some w) = w

-- The table after the call, and the packet that is complete with it.
unfoldable pub handle_ip_fragment :
    Allocator → ℕ → Table → List ℕ → Outcome (Table × Option (List ℕ))
handle_ip_fragment a now t p =
    if ltb (length p) ip_header_size
    then faults
    else (let t' = expire_check now t in
        wait_all_add a now (or_new (find (packet_id p) t'.fragment_map)) p >>= λ w.
        retire (packet_id p) t' w)
