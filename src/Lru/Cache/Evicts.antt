-- ===== src/Lru/Cache/Evicts.antt =====
-- An insertion that evicts an entry though it needs no room.
use orekacxx.Common.{
  ℕ, ◌<◌, ◌≡◌, refl, ap, ◌∙◌, false, List, [], ◌∷◌, ◌++◌, none, some, length, length-append, All,
  append-All, arith, Bool-cases, inl, inr,
}
use orekacxx.Common.Outcome.{done}
use orekacxx.Lru.{Key, LruMap, count, get_value, insert_pair}
use orekacxx.Lru.Cache.{insert, Item, Cache, room_made, item_of, all_but, cached}
use orekacxx.Lru.Cache.Follows.{Follows-insert, Follows}
use orekacxx.Lru.Cache.Answers.{value_in, length-all_but, Follows-Answers}

module _ {ℓ} {K V : Type ℓ} ⦃k : Key K⦄ where
  item_of_absent :
      (key : K) (is : List (Item K V))
      → All (λ i. k.same i.key key ≡ false) is
      → item_of key is ≡ none
  item_of_absent key [] a = refl
  item_of_absent key (i ∷ is) a = ground (arith, item_of_absent key is a.1)

  All-all_but {κ} :
      (P : Item K V → Type κ) (key : K) (is : List (Item K V)) → All P is → All P (all_but key is)
  All-all_but P key [] a = tt
  All-all_but P key (i ∷ is) a = elim (Bool-cases (k.same i.key key)) [
    | inl out ↦ rw out (All-all_but P key is a.1)
    | inr stays ↦ rw stays (a.0, All-all_but P key is a.1)
  ]

  all_but-lt :
      (key : K) (is : List (Item K V)) (i : Item K V)
      → item_of key is ≡ some i
      → length (all_but key is) < length is
  all_but-lt key [] i h = cc
  all_but-lt key (j ∷ is) i h = ground (arith, all_but-lt key is i, length-all_but key is)

  room_made-full :
      (size : ℕ) (i : Item K V) (is : List (Item K V))
      → length (i ∷ is) ≡ size
      → room_made size (i ∷ is) ≡ is
  room_made-full size i is h = ground arith

-- An insertion under a key that is there already, on a full map, still drops the oldest entry, of
-- another key: the map then holds one entry less than its size.
pub insert_pair-drops_oldest {ℓ} :
    {K V : Type ℓ} ⦃k : Key K⦄ (m : LruMap K V) (c : Cache K V) (oldest held : Item K V)
    (rest : List (Item K V)) (key : K) (v : V) (now : ℕ)
    → Follows m c
    → 0 < c.size
    → c.items ≡ oldest ∷ rest
    → length c.items ≡ c.size
    → All (λ i. k.same i.key oldest.key ≡ false) rest
    → k.same key oldest.key ≡ false
    → item_of key rest ≡ some held
    → (m' : LruMap K V) × (insert_pair key v now m ≡ done m')
      × (get_value oldest.key m' ≡ none)
      × (count m' < m'.size)
insert_pair-drops_oldest {K} {V} m c oldest held rest key v now f p e full alone other found =
    let (m', put, g) = Follows-insert key v now m c f p in
    let new : Item K V = record { key = key; value = v; ts = now } in
    let left : (cached c (insert key v now)).items ≡ all_but key rest ++ new ∷ [] =
      rw e
        (ap (λ l. all_but key l ++ new ∷ []) (room_made-full c.size oldest rest (rw e at full))) in
    let short = all_but-lt key rest held found in
    let a =
      Follows-Answers m' (cached c (insert key v now)) g
        (omega (arith, ap length left, length-append (all_but key rest) (new ∷ []), ap length e)) in
    (
      m',
      put,
      a.values oldest.key
          ∙ ap value_in (
              ap (item_of oldest.key) left
              ∙ item_of_absent oldest.key _ (
                  append-All _ (all_but key rest) (new ∷ []) (All-all_but _ key rest alone)
                    (other, tt))),
      omega (
        arith,
        a.number,
        g.same_size,
        ap length left,
        length-append (all_but key rest) (new ∷ []),
        ap length e,
      ),
    )
