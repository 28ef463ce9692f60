-- ===== src/Lru.antt =====
-- orkbasecxx/OrkLruMap.h. A position in `m_list` is named by a number that no other node of the list
-- has had, so that the positions which `m_map` holds stay good while other nodes come and go. The
-- map is an association list; the order in which it can be walked is not modelled.
pub mod Entries
pub mod Refines
pub mod Cache
use orekacxx.Common.{
  ℕ, ◌+◌, ◌-◌, ◌^◌, ◌≡◌, ◌↔◌, Bool, true, false, List, [], ◌∷◌, ◌++◌, Option, none, some, length,
  leb, ◌==◌, if◌then◌else◌,
}
use orekacxx.Common.Outcome.{Outcome, done, faults, ◌>>=◌}

-- The keys' order decides when two of them are the same.
pub record Key {ℓ} (K : Type ℓ) : Type ℓ where
  pub same : K → K → Bool
  pub same_iff : (a b : K) → (same a b ≡ true) ↔ (a ≡ b)

pub record Node {ℓ} (K : Type ℓ) : Type ℓ where
  pub id : ℕ
  pub key : K
  pub ts : ℕ

-- A value of the map: the pair of the program's value and the position in the list.
pub record Slot {ℓ} (V : Type ℓ) : Type ℓ where
  pub value : V
  pub position : ℕ

pub record LruMap {ℓ} (K V : Type ℓ) : Type ℓ where
  pub size : ℕ
  pub list : List (Node K)
  pub map : List (K × Slot V)
  pub next_id : ℕ

abbrev pub lru_init {ℓ} : {K V : Type ℓ} → ℕ → LruMap K V
lru_init size = record { size = size; list = []; map = []; next_id = 0 }

-- What `uint64_t ts = -1` is.
abbrev pub no_ts : ℕ
no_ts = 2 ^ 64 - 1

module _ {ℓ} {K : Type ℓ} where
  -- The node at a position of the list.
  unfoldable pub node_at : ℕ → List (Node K) → Option (Node K)
  node_at id [] = none
  node_at id (n ∷ ns) = if n.id == id then some n else node_at id ns

  unfoldable pub erase_node : ℕ → List (Node K) → List (Node K)
  erase_node id [] = []
  erase_node id (n ∷ ns) = if n.id == id then ns else n ∷ erase_node id ns

module _ {ℓ} {K V : Type ℓ} where
  unfoldable pub push_back : K → V → ℕ → LruMap K V → LruMap K V
  push_back key v now m = record m {
    list = m.list ++ record { id = m.next_id; key = key; ts = now } ∷ [];
    map = m.map ++ (key, record { value = v; position = m.next_id }) ∷ [];
    next_id = m.next_id + 1;
  }

  unfoldable pub clear : LruMap K V → LruMap K V
  clear m = record m { list = []; map = [] }

  -- The size never shrinks.
  unfoldable pub set_size : ℕ → LruMap K V → LruMap K V
  set_size size m = if leb m.size size then record m { size = size } else m

  unfoldable pub get_oldest_ts : LruMap K V → ℕ
  get_oldest_ts m = elim m.list [ [] ↦ no_ts | n ∷ ns ↦ n.ts ]

  unfoldable pub count : LruMap K V → ℕ
  count m = length m.map

module _ {ℓ} {K V : Type ℓ} ⦃k : Key K⦄ where
  unfoldable pub find_slot : K → List (K × Slot V) → Option (Slot V)
  find_slot key [] = none
  find_slot key ((j, s) ∷ m) = if k.same j key then some s else find_slot key m

  unfoldable pub erase_key : K → List (K × Slot V) → List (K × Slot V)
  erase_key key [] = []
  erase_key key ((j, s) ∷ m) = if k.same j key then erase_key key m else (j, s) ∷ erase_key key m

  -- `front` of an empty list is undefined.
  unfoldable pub make_room : LruMap K V → Outcome (LruMap K V)
  make_room m =
      if leb m.size (length m.map)
      then (elim m.list [
        | [] ↦ faults
        | n ∷ ns ↦ done (record m { list = ns; map = erase_key n.key m.map })
      ])
      else done m

  -- Erases an entry that is there, through the position that it holds.
  unfoldable pub remove : K → LruMap K V → Outcome (LruMap K V × Bool)
  remove key m = elim (find_slot key m.map) [
    | none ↦ done (m, false)
    | some s ↦ elim (node_at s.position m.list) [
      | none ↦ faults
      | some _ ↦
          done (record m { list = erase_node s.position m.list; map = erase_key key m.map }, true)
    ]
  ]

  -- `now` is what `time(NULL)` returns.
  unfoldable pub insert_pair : K → V → ℕ → LruMap K V → Outcome (LruMap K V)
  insert_pair key v now m =
      make_room m >>= λ m'. remove key m' >>= λ r. done (push_back key v now r.0)

  unfoldable pub remove_oldest : LruMap K V → LruMap K V
  remove_oldest m = elim m.list [
    | [] ↦ m
    | n ∷ ns ↦ record m { list = ns; map = erase_key n.key m.map }
  ]

  unfoldable pub get_value : K → LruMap K V → Option V
  get_value key m = elim (find_slot key m.map) [ none ↦ none | some s ↦ some s.value ]

  -- A position that is not in the list cannot be read.
  unfoldable pub get_entry_ts : K → LruMap K V → Outcome ℕ
  get_entry_ts key m = elim (find_slot key m.map) [
    | none ↦ done no_ts
    | some s ↦ elim (node_at s.position m.list) [ none ↦ faults | some n ↦ done n.ts ]
  ]
