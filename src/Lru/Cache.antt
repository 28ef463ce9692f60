-- ===== src/Lru/Cache.antt =====
-- The cache that OrkLruMap.h means to be: its items in one list, oldest first.
pub mod Follows
pub mod Answers
pub mod Evicts
use orekacxx.Common.{
  ℕ, suc, ◌+◌, ◌≤◌, ◌<◌, ◌≡◌, Bool, true, false, List, [], ◌∷◌, ◌++◌, Option, none, some, length,
  leb, if◌then◌else◌,
}
use orekacxx.Common.Outcome.{Outcome, done, ◌>>=◌}
use orekacxx.Lru.{Key, LruMap, insert_pair, remove, remove_oldest, clear, set_size, no_ts}

pub data Call {ℓ} (K V : Type ℓ) : Type ℓ where
  insert : K → V → ℕ → Call K V
  remove_key : K → Call K V
  drop_oldest clear_all : Call K V
  resize : ℕ → Call K V

pub record Item {ℓ} (K V : Type ℓ) : Type ℓ where
  pub key : K
  pub value : V
  pub ts : ℕ

pub record Cache {ℓ} (K V : Type ℓ) : Type ℓ where
  pub size : ℕ
  pub items : List (Item K V)

abbrev pub empty_cache {ℓ} : {K V : Type ℓ} → ℕ → Cache K V
empty_cache size = record { size = size; items = [] }

module _ {ℓ} {K V : Type ℓ} where
  abbrev pub rest_of : List (Item K V) → List (Item K V)
  rest_of [] = []
  rest_of (i ∷ is) = is

  -- The oldest item makes room when the cache is full, whether or not the new key is in it.
  abbrev pub room_made : ℕ → List (Item K V) → List (Item K V)
  room_made size items = if leb size (length items) then rest_of items else items

  abbrev pub oldest_ts : List (Item K V) → ℕ
  oldest_ts [] = no_ts
  oldest_ts (i ∷ is) = i.ts

module _ {ℓ} {K V : Type ℓ} ⦃k : Key K⦄ where
  abbrev pub item_of : K → List (Item K V) → Option (Item K V)
  item_of key [] = none
  item_of key (i ∷ is) = if k.same i.key key then some i else item_of key is

  abbrev pub all_but : K → List (Item K V) → List (Item K V)
  all_but key [] = []
  all_but key (i ∷ is) = if k.same i.key key then all_but key is else i ∷ all_but key is

  abbrev pub cached : Cache K V → Call K V → Cache K V
  cached c (insert key v now) = record c {
    items =
        all_but key (room_made c.size c.items) ++ record { key = key; value = v; ts = now } ∷ [];
  }
  cached c (remove_key key) = record c { items = all_but key c.items }
  cached c drop_oldest = record c { items = rest_of c.items }
  cached c clear_all = record c { items = [] }
  cached c (resize n) = if leb c.size n then record c { size = n } else c

  abbrev pub cached_all : Cache K V → List (Call K V) → Cache K V
  cached_all c [] = c
  cached_all c (call ∷ calls) = cached_all (cached c call) calls

  -- One call on the map itself.
  unfoldable pub perform : Call K V → LruMap K V → Outcome (LruMap K V)
  perform (insert key v now) m = insert_pair key v now m
  perform (remove_key key) m = remove key m >>= λ r. done r.0
  perform drop_oldest m = done (remove_oldest m)
  perform clear_all m = done (clear m)
  perform (resize n) m = done (set_size n m)

  unfoldable pub perform_all : List (Call K V) → LruMap K V → Outcome (LruMap K V)
  perform_all [] m = done m
  perform_all (call ∷ calls) m = perform call m >>= perform_all calls
