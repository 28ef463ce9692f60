-- ===== src/Lru/Entries.antt =====
-- What the list and the map of OrkLruMap.h hold together: one entry for each key, oldest first.
use orekacxx.Common.{
  ℕ, ◌≡◌, refl, false, List, [], ◌∷◌, map, Option, none, some, arith, All, ◌==◌, Bool-cases, inl,
  inr, if◌then◌else◌,
}
use orekacxx.Lru.{Key, Node, Slot, find_slot, erase_key}

pub record Entry {ℓ} (K V : Type ℓ) : Type ℓ where
  pub id : ℕ
  pub key : K
  pub value : V
  pub ts : ℕ

module _ {ℓ} {K V : Type ℓ} where
  abbrev pub node : Entry K V → Node K
  node e = record { id = e.id; key = e.key; ts = e.ts }

  abbrev pub slot : Entry K V → Slot V
  slot e = record { value = e.value; position = e.id }

  abbrev pub keyed_slot : Entry K V → K × Slot V
  keyed_slot e = (e.key, slot e)

module _ {ℓ} {K V : Type ℓ} ⦃k : Key K⦄ where
  abbrev pub entry_of : K → List (Entry K V) → Option (Entry K V)
  entry_of key [] = none
  entry_of key (e ∷ es) = if k.same e.key key then some e else entry_of key es

  abbrev pub without : K → List (Entry K V) → List (Entry K V)
  without key [] = []
  without key (e ∷ es) = if k.same e.key key then without key es else e ∷ without key es

  -- No two entries share a key or a position.
  abbrev pub Distinct : List (Entry K V) → Type 0
  Distinct [] = Unit {0}
  Distinct (e ∷ es) =
      All (λ f. (k.same f.key e.key ≡ false) × ((f.id == e.id) ≡ false)) es × Distinct es

  pub find_slot-entries :
      (key : K) (es : List (Entry K V))
      → find_slot key (map keyed_slot es)
        ≡ (elim (entry_of key es) [ none ↦ none | some e ↦ some (slot e) ])
  unfolding find_slot
  find_slot-entries key [] = refl
  find_slot-entries key (e ∷ es) = ground (arith, find_slot-entries key es)

  pub erase_key-entries :
      (key : K) (es : List (Entry K V))
      → erase_key key (map keyed_slot es) ≡ map keyed_slot (without key es)
  unfolding erase_key
  erase_key-entries key [] = refl
  erase_key-entries key (e ∷ es) = ground (arith, erase_key-entries key es)

  pub without_absent :
      (key : K) (es : List (Entry K V))
      → All (λ f. k.same f.key key ≡ false) es
      → without key es ≡ es
  without_absent key [] h = refl
  without_absent key (e ∷ es) h = ground (arith, without_absent key es h.1)

  pub All-without {κ} :
      (P : Entry K V → Type κ) (key : K) (es : List (Entry K V)) → All P es → All P (without key es)
  All-without P key [] h = tt
  All-without P key (e ∷ es) h = elim (Bool-cases (k.same e.key key)) [
    | inl out ↦ rw out (All-without P key es h.1)
    | inr stays ↦ rw stays (h.0, All-without P key es h.1)
  ]

  pub without-Distinct : (key : K) (es : List (Entry K V)) → Distinct es → Distinct (without key es)
  without-Distinct key [] d = tt
  without-Distinct key (e ∷ es) d = elim (Bool-cases (k.same e.key key)) [
    | inl out ↦ rw out (without-Distinct key es d.1)
    | inr stays ↦ rw stays (All-without _ key es d.0, without-Distinct key es d.1)
  ]
