-- ===== src/Tests/Caches.antt =====
-- A map of two entries, for OrkLruMap.h.
use orekacxx.Common.{ℕ, ◌≡◌, refl, ◌<◌, List, [], ◌∷◌, none, ◌==◌, ==_iff, arith}
use orekacxx.Common.Outcome.{done}
use orekacxx.Lru.{Key, LruMap, lru_init, insert_pair, get_value, count}
use orekacxx.Lru.Cache.{Call, insert, remove_key, Item, Cache, empty_cache, cached_all, perform_all}
use orekacxx.Lru.Cache.Follows.{Follows}
use orekacxx.Lru.Cache.Answers.{Answers, perform_all-Answers}
use orekacxx.Lru.Cache.Evicts.{insert_pair-drops_oldest}

instance abbrev number_key : Key ℕ
number_key = record { same = ◌==◌; same_iff = ==_iff }

abbrev some_calls : List (Call ℕ ℕ)
some_calls = insert 1 10 100 ∷ insert 2 20 101 ∷ insert 3 30 102 ∷ remove_key 2 ∷ []

perform_all-Answers_example :
    (m : LruMap ℕ ℕ) × (perform_all some_calls (lru_init 2) ≡ done m)
    × Answers m (cached_all (empty_cache 2) some_calls)
perform_all-Answers_example = perform_all-Answers 2 some_calls (omega arith)

abbrev item_1 : Item ℕ ℕ
item_1 = record { key = 1; value = 10; ts = 100 }

abbrev item_2 : Item ℕ ℕ
item_2 = record { key = 2; value = 20; ts = 101 }

abbrev full_map : LruMap ℕ ℕ
full_map = record {
  size = 2;
  list = record { id = 0; key = 1; ts = 100 } ∷ record { id = 1; key = 2; ts = 101 } ∷ [];
  map = (1, record { value = 10; position = 0 }) ∷ (2, record { value = 20; position = 1 }) ∷ [];
  next_id = 2;
}

abbrev full_cache : Cache ℕ ℕ
full_cache = record { size = 2; items = item_1 ∷ item_2 ∷ [] }

full_map-Follows : Follows full_map full_cache
full_map-Follows = record {
  entries =
      record { id = 0; key = 1; value = 10; ts = 100 }
      ∷ record { id = 1; key = 2; value = 20; ts = 101 }
      ∷ [];
  holds = record {
    in_list = refl;
    in_map = refl;
    distinct = (((refl, refl), tt), (tt, tt));
    fresh = (omega arith, (omega arith, tt));
  };
  same_items = refl;
  same_size = refl;
}

insert_pair-drops_oldest_example :
    (m' : LruMap ℕ ℕ) × (insert_pair 2 21 102 full_map ≡ done m')
    × (get_value 1 m' ≡ none)
    × (count m' < m'.size)
insert_pair-drops_oldest_example =
    insert_pair-drops_oldest full_map full_cache item_1 item_2 (item_2 ∷ []) 2 21 102
      full_map-Follows (omega arith) refl refl (refl, tt) refl refl
