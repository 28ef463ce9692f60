-- ===== src/Lru/Cache/Follows.antt =====
-- The map of OrkLruMap.h follows the cache that it means to be.
use mathlib.Core.Path.{ap₂}
use mathlib.Core.List.{map-append}
use orekacxx.Common.{
  ℕ, ◌<◌, ◌≡◌, refl, ap, ◌∙◌, Bool, false, List, [], ◌∷◌, ◌++◌, map, length-map, leb, All, arith,
  Bool-cases, inl, inr,
}
use orekacxx.Common.Outcome.{done}
use orekacxx.Lru.{Key, LruMap, insert_pair, remove, remove_oldest, clear, set_size, push_back}
use orekacxx.Lru.Entries.{Entry, node, without}
use orekacxx.Lru.Refines.{
  Holds, Holds-remove, Holds-push_back, Holds-make_room, Holds-tail, evicted,
}
use orekacxx.Lru.{Node, erase_key}
use orekacxx.Lru.Cache.{
  Call, insert, remove_key, drop_oldest, clear_all, resize, Item, Cache, rest_of, room_made,
  all_but, cached, cached_all, perform, perform_all,
}

abbrev pub item {ℓ} : {K V : Type ℓ} → Entry K V → Item K V
item e = record { key = e.key; value = e.value; ts = e.ts }

module _ {ℓ} {K V : Type ℓ} ⦃k : Key K⦄ where
  -- The state stands for the cache.
  pub record Follows (m : LruMap K V) (c : Cache K V) : Type ℓ where
    pub entries : List (Entry K V)
    pub holds : Holds m entries
    pub same_items : map item entries ≡ c.items
    pub same_size : m.size ≡ c.size

  items-without :
      (key : K) (es : List (Entry K V)) → map item (without key es) ≡ all_but key (map item es)
  items-without key [] = refl
  items-without key (e ∷ es) = ground (arith, items-without key es)

  items-evicted :
      (size : ℕ) (es : List (Entry K V))
      → 0 < size
      → map item (evicted size es) ≡ room_made size (map item es)
  items-evicted size [] p = ground arith
  items-evicted size (e ∷ es) p = ground (arith, length-map es (item {K = K} {V = V}))

  items_without_key :
      (key : K) (es : List (Entry K V)) → All (λ e. k.same e.key key ≡ false) (without key es)
  items_without_key key [] = tt
  items_without_key key (e ∷ es) = elim (Bool-cases (k.same e.key key)) [
    | inl out ↦ rw out (items_without_key key es)
    | inr stays ↦ rw stays (stays, items_without_key key es)
  ]

  pub Follows-insert :
      (key : K) (v : V) (now : ℕ) (m : LruMap K V) (c : Cache K V)
      → Follows m c
      → 0 < c.size
      → (m' : LruMap K V) × (insert_pair key v now m ≡ done m')
        × Follows m' (cached c (insert key v now))
  unfolding insert_pair push_back
  Follows-insert key v now m c f p =
      let (m₁, made, h₁, s₁, i₁) =
        Holds-make_room m f.entries f.holds (omega (arith, f.same_size)) in
      let (m₂, gone, h₂, s₂, i₂) = Holds-remove key m₁ (evicted m.size f.entries) h₁ in
      let es = without key (evicted m.size f.entries) in
      (
        push_back key v now m₂,
        rw (made, gone),
        record {
          entries = es ++ record { id = m₂.next_id; key = key; value = v; ts = now } ∷ [];
          holds = Holds-push_back key v now m₂ es h₂ (items_without_key key _);
          same_items =
              map-append item es _
              ∙ ap (λ l. l ++ record { key = key; value = v; ts = now } ∷ [])
                  (items-without key (evicted m.size f.entries)
                    ∙ ap (all_but key) (
                        items-evicted m.size f.entries (omega (arith, f.same_size))
                        ∙ ap₂ room_made f.same_size f.same_items));
          same_size = s₂ ∙ s₁ ∙ f.same_size;
        },
      )

  Follows-remove :
      (key : K) (m : LruMap K V) (c : Cache K V)
      → Follows m c
      → (m' : LruMap K V) × (b : Bool) × (remove key m ≡ done (m', b))
        × Follows m' (cached c (remove_key key))
  Follows-remove key m c f =
      let (m', gone, h, s, i) = Holds-remove key m f.entries f.holds in
      (
        m',
        _,
        gone,
        record {
          entries = without key f.entries;
          holds = h;
          same_items = items-without key f.entries ∙ ap (all_but key) f.same_items;
          same_size = s ∙ f.same_size;
        },
      )

  oldest_empty : (m : LruMap K V) → m.list ≡ [] → remove_oldest m ≡ m
  unfolding remove_oldest
  oldest_empty m h = ground arith

  oldest_rest :
      (m : LruMap K V) (n : Node K) (ns : List (Node K))
      → m.list ≡ n ∷ ns
      → remove_oldest m ≡ record m { list = ns; map = erase_key n.key m.map }
  unfolding remove_oldest
  oldest_rest m n ns h = ground arith

  Holds-oldest :
      (m : LruMap K V) (es : List (Entry K V))
      → Holds m es
      → (rest : List (Entry K V)) × Holds (remove_oldest m) rest
        × (map item rest ≡ rest_of (map item es))
        × ((remove_oldest m).size ≡ m.size)
  Holds-oldest m [] h = let same = oldest_empty m h.in_list in ([], rw same h, refl, rw same refl)
  Holds-oldest m (e ∷ es) h =
      let step = oldest_rest m (node e) (map node es) h.in_list in
      (es, rw step (Holds-tail m e es h), refl, rw step refl)

  set_size_smaller : (n : ℕ) (m : LruMap K V) → leb m.size n ≡ false → set_size n m ≡ m
  unfolding set_size
  set_size_smaller n m h = ground arith

  Follows-resize :
      (n : ℕ) (m : LruMap K V) (c : Cache K V)
      → Follows m c
      → 0 < c.size
      → Follows (set_size n m) (cached c (resize n)) × (0 < (cached c (resize n)).size)
  unfolding set_size
  Follows-resize n m c f p = elim (Bool-cases (leb c.size n)) [
    | inl larger ↦
        rw (f.same_size, larger)
          (
            record {
              entries = f.entries;
              holds = record {
                in_list = f.holds.in_list;
                in_map = f.holds.in_map;
                distinct = f.holds.distinct;
                fresh = f.holds.fresh;
              };
              same_items = f.same_items;
              same_size = refl;
            },
            ground arith,
          )
    | inr smaller ↦
        rw (set_size_smaller n m (ap (λ x. leb x n) f.same_size ∙ smaller), smaller) (f, p)
  ]

  Follows-perform :
      (call : Call K V) (m : LruMap K V) (c : Cache K V)
      → Follows m c
      → 0 < c.size
      → (m' : LruMap K V) × (perform call m ≡ done m')
        × Follows m' (cached c call)
        × (0 < (cached c call).size)
  unfolding perform clear
  Follows-perform (insert key v now) m c f p =
      let (m', done_, g) = Follows-insert key v now m c f p in (m', done_, g, p)
  Follows-perform (remove_key key) m c f p =
      let (m', b, gone, g) = Follows-remove key m c f in (m', rw gone, g, p)
  Follows-perform drop_oldest m c f p =
      let (rest, h, i, s) = Holds-oldest m f.entries f.holds in
      (
        remove_oldest m,
        refl,
        record {
          entries = rest;
          holds = h;
          same_items = i ∙ ap rest_of f.same_items;
          same_size = s ∙ f.same_size;
        },
        p,
      )
  Follows-perform clear_all m c f p = (
    clear m,
    refl,
    record {
      entries = [];
      holds = record { in_list = refl; in_map = refl; distinct = tt; fresh = tt };
      same_items = refl;
      same_size = f.same_size;
    },
    p,
  )
  Follows-perform (resize n) m c f p =
      let (g, q) = Follows-resize n m c f p in (set_size n m, refl, g, q)

  pub Follows-perform_all :
      (calls : List (Call K V)) (m : LruMap K V) (c : Cache K V)
      → Follows m c
      → 0 < c.size
      → (m' : LruMap K V) × (perform_all calls m ≡ done m') × Follows m' (cached_all c calls)
  unfolding perform_all
  Follows-perform_all [] m c f p = (m, refl, f)
  Follows-perform_all (call ∷ calls) m c f p =
      let (m', once, g, q) = Follows-perform call m c f p in
      rw once (Follows-perform_all calls m' (cached c call) g q)
