-- ===== src/Lru/Cache/Answers.antt =====
-- What the calls of OrkLruMap.h that only read answer.
use orekacxx.Common.{
  ℕ, ◌≤◌, ◌<◌, ◌≡◌, refl, sym, ap, ◌∙◌, List, [], ◌∷◌, map, Option, none, some, length, length-map,
  length-append, leb, arith, Bool-cases, inl, inr, Option-cases,
}
use orekacxx.Common.Outcome.{done}
use orekacxx.Lru.{
  Key, LruMap, lru_init, no_ts, count, get_value, get_entry_ts, get_oldest_ts, find_slot, node_at,
}
use orekacxx.Lru.Entries.{Entry, node, slot, keyed_slot, entry_of, find_slot-entries}
use orekacxx.Lru.Refines.{Holds, node_at-entries}
use orekacxx.Lru.Cache.{
  Call, insert, remove_key, drop_oldest, clear_all, resize, Item, Cache, empty_cache, rest_of,
  room_made, oldest_ts, item_of, all_but, cached, cached_all, perform_all,
}
use orekacxx.Lru.Cache.Follows.{item, Follows, Follows-perform_all}

module _ {ℓ} {K V : Type ℓ} ⦃k : Key K⦄ where
  abbrev pub value_in : Option (Item K V) → Option V
  value_in none = none
  value_in (some i) = some i.value

  abbrev pub ts_in : Option (Item K V) → ℕ
  ts_in none = no_ts
  ts_in (some i) = i.ts

  -- Every read of the map is answered from the cache, and the cache is not too full.
  pub record Answers (m : LruMap K V) (c : Cache K V) : Type ℓ where
    pub values : (key : K) → get_value key m ≡ value_in (item_of key c.items)
    pub times : (key : K) → get_entry_ts key m ≡ done (ts_in (item_of key c.items))
    pub oldest : get_oldest_ts m ≡ oldest_ts c.items
    pub number : count m ≡ length c.items
    pub within : count m ≤ m.size

  item_of-entries :
      (key : K) (es : List (Entry K V))
      → item_of key (map item es)
        ≡ (elim (entry_of key es) [ none ↦ none | some e ↦ some (item e) ])
  item_of-entries key [] = refl
  item_of-entries key (e ∷ es) = ground (arith, item_of-entries key es)

  pub length-all_but : (key : K) (is : List (Item K V)) → length (all_but key is) ≤ length is
  length-all_but key [] = omega arith
  length-all_but key (i ∷ is) = ground (arith, length-all_but key is)

  length-rest_of : (is : List (Item K V)) → length (rest_of is) ≤ length is
  length-rest_of [] = omega arith
  length-rest_of (i ∷ is) = omega arith

  length-room_made :
      (size : ℕ) (is : List (Item K V))
      → 0 < size
      → length is ≤ size
      → length (room_made size is) < size
  length-room_made size [] p h = ground arith
  length-room_made size (i ∷ is) p h = ground arith

  cached_within :
      (call : Call K V) (c : Cache K V)
      → 0 < c.size
      → length c.items ≤ c.size
      → (length (cached c call).items ≤ (cached c call).size) × (0 < (cached c call).size)
  cached_within (insert key v now) c p h = (
    omega (
      arith,
      length-append (all_but key (room_made c.size c.items))
          (record { key = key; value = v; ts = now } ∷ []),
      length-all_but key (room_made c.size c.items),
      length-room_made c.size c.items p h,
    ),
    p,
  )
  cached_within (remove_key key) c p h = (omega (arith, length-all_but key c.items), p)
  cached_within drop_oldest c p h = (omega (arith, length-rest_of c.items), p)
  cached_within clear_all c p h = (omega arith, p)
  cached_within (resize n) c p h = elim (Bool-cases (leb c.size n)) [
    | inl larger ↦ rw larger (ground arith, ground arith)
    | inr smaller ↦ rw smaller (h, p)
  ]

  cached_all_within :
      (calls : List (Call K V)) (c : Cache K V)
      → 0 < c.size
      → length c.items ≤ c.size
      → length (cached_all c calls).items ≤ (cached_all c calls).size
  cached_all_within [] c p h = h
  cached_all_within (call ∷ calls) c p h =
      let w = cached_within call c p h in cached_all_within calls (cached c call) w.1 w.0

  entry_slot :
      (key : K) (m : LruMap K V) (es : List (Entry K V))
      → Holds m es
      → find_slot key m.map ≡ (elim (entry_of key es) [ none ↦ none | some e ↦ some (slot e) ])
  entry_slot key m es h = ap (find_slot key) h.in_map ∙ find_slot-entries key es

  get_value-entries :
      (key : K) (m : LruMap K V) (es : List (Entry K V))
      → Holds m es
      → get_value key m ≡ value_in (item_of key (map item es))
  unfolding get_value
  get_value-entries key m es h = elim (Option-cases (entry_of key es)) [
    | inl missing ↦ ground (arith, entry_slot key m es h, item_of-entries key es)
    | inr (e, found) ↦ ground (arith, entry_slot key m es h, item_of-entries key es)
  ]

  get_entry_ts-entries :
      (key : K) (m : LruMap K V) (es : List (Entry K V))
      → Holds m es
      → get_entry_ts key m ≡ done (ts_in (item_of key (map item es)))
  unfolding get_entry_ts
  get_entry_ts-entries key m es h = elim (Option-cases (entry_of key es)) [
    | inl missing ↦ ground (arith, entry_slot key m es h, item_of-entries key es)
    | inr (e, found) ↦
        let at = node_at-entries key es e h.distinct found in
        let there : node_at e.id m.list ≡ some (node e) = ap (node_at e.id) h.in_list ∙ at.0 in
        ground (arith, entry_slot key m es h, item_of-entries key es)
  ]

  get_oldest_ts-entries :
      (m : LruMap K V) (es : List (Entry K V))
      → Holds m es
      → get_oldest_ts m ≡ oldest_ts (map item es)
  unfolding get_oldest_ts
  get_oldest_ts-entries m [] h = ground arith
  get_oldest_ts-entries m (e ∷ es) h = ground arith

  count-entries :
      (m : LruMap K V) (es : List (Entry K V)) → Holds m es → count m ≡ length (map item es)
  unfolding count
  count-entries m es h = ap length h.in_map ∙ length-map es keyed_slot ∙ sym (length-map es item)

  pub Follows-Answers :
      (m : LruMap K V) (c : Cache K V) → Follows m c → length c.items ≤ c.size → Answers m c
  Follows-Answers m c f w =
      let es = f.entries in
      let number = count-entries m es f.holds ∙ ap length f.same_items in
      record {
        values = λ key.
            get_value-entries key m es f.holds ∙ ap (λ l. value_in (item_of key l)) f.same_items;
        times = λ key.
            get_entry_ts-entries key m es f.holds
            ∙ ap (λ l. done (ts_in (item_of key l))) f.same_items;
        oldest = get_oldest_ts-entries m es f.holds ∙ ap oldest_ts f.same_items;
        number = number;
        within = omega (arith, number, f.same_size);
      }

-- After any calls on a new map that has room for one entry at least, none of which faults, every read
-- (`GetValue`, `GetEntryTs`, `GetOldestTs`, `Count`) is answered as from the cache on which the
-- same calls were made: one list, oldest first, which gives up its first item whenever it is full
-- before an insertion, and which holds a key once. There are never more entries than the size.
pub perform_all-Answers {ℓ} :
    {K V : Type ℓ} ⦃k : Key K⦄ (size : ℕ) (calls : List (Call K V))
    → 0 < size
    → (m : LruMap K V) × (perform_all calls (lru_init size) ≡ done m)
      × Answers m (cached_all (empty_cache size) calls)
perform_all-Answers {K} {V} size calls p =
    let start : Follows (lru_init {K = K} {V = V} size) (empty_cache size) = record {
      entries = [];
      holds = record { in_list = refl; in_map = refl; distinct = tt; fresh = tt };
      same_items = refl;
      same_size = refl;
    } in
    let (m, ran, f) = Follows-perform_all calls (lru_init size) (empty_cache size) start p in
    (m, ran, Follows-Answers m _ f (cached_all_within calls (empty_cache size) p (omega arith)))
