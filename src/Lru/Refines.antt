-- ===== src/Lru/Refines.antt =====
-- The list and the map of OrkLruMap.h stay in step, whatever is called.
use mathlib.Core.List.{map-append}
use orekacxx.Common.{
  ℕ, ◌<◌, ◌≡◌, refl, sym, ap, ◌∙◌, Bool, true, false, List, [], ◌∷◌, ◌++◌, map, Option, none, some,
  length, arith, All, leb, ◌==◌, Bool-cases, inl, inr, length-map, if◌then◌else◌,
}
use mathlib.Core.Path.{subst}
use orekacxx.Common.{==_refl, All-map, some-injective, All-both, append-All, Option-cases}
use orekacxx.Common.Outcome.{done}
use orekacxx.Lru.{
  Key, LruMap, find_slot, erase_key, node_at, erase_node, make_room, remove, push_back,
}
use orekacxx.Lru.Entries.{
  Entry, node, slot, keyed_slot, entry_of, without, Distinct, find_slot-entries, erase_key-entries,
  without_absent, All-without, without-Distinct,
}

same_sym {ℓ} : {K : Type ℓ} ⦃k : Key K⦄ (a b : K) → k.same a b ≡ false → k.same b a ≡ false
same_sym ⦃k⦄ a b h = elim (Bool-cases (k.same b a)) [
  | inl equal ↦ cc (h, (k.same_iff a b).1 (sym ((k.same_iff b a).0 equal)))
  | inr different ↦ different
]

module _ {ℓ} {K V : Type ℓ} ⦃k : Key K⦄ where
  -- The list and the map hold the same entries, and no position is used twice.
  pub record Holds (m : LruMap K V) (es : List (Entry K V)) : Type ℓ where
    pub in_list : m.list ≡ map node es
    pub in_map : m.map ≡ map keyed_slot es
    pub distinct : Distinct es
    pub fresh : All (λ e. e.id < m.next_id) es

  pub entry_of-All {κ} :
      (P : Entry K V → Type κ) (key : K) (es : List (Entry K V)) (e : Entry K V)
      → All P es
      → entry_of key es ≡ some e
      → P e
  entry_of-All P key [] e a h = cc
  entry_of-All P key (f ∷ es) e a h = elim (Bool-cases (k.same f.key key)) [
    | inl here ↦ subst P (some-injective (rw here at h)) a.0
    | inr later ↦ entry_of-All P key es e a.1 (rw later at h)
  ]

  pub without_rest :
      (f : Entry K V) (es : List (Entry K V)) → Distinct (f ∷ es) → without f.key es ≡ es
  without_rest f es d = without_absent f.key es (All-map (λ x h. h.0) es d.0)

  pub node_at-entries :
      (key : K) (es : List (Entry K V)) (e : Entry K V)
      → Distinct es
      → entry_of key es ≡ some e
      → (node_at e.id (map node es) ≡ some (node e))
        × (erase_node e.id (map node es) ≡ map node (without key es))
  unfolding node_at erase_node
  node_at-entries key [] e d h = cc
  node_at-entries key (f ∷ es) e d h = elim (Bool-cases (k.same f.key key)) [
    | inl here ↦
        let others =
          subst (λ x. without x es ≡ es) ((k.same_iff f.key key).0 here) (without_rest f es d) in
        subst
          (λ x.
            (node_at x.id (map node (f ∷ es)) ≡ some (node x))
            × (erase_node x.id (map node (f ∷ es)) ≡ map node (without key (f ∷ es))))
          (some-injective (rw here at h))
          (rw (==_refl f.id, here) (refl, ap (map node) (sym others)))
    | inr later ↦
        let found : entry_of key es ≡ some e = rw later at h in
        let ne : (f.id == e.id) ≡ false = ground (arith, (entry_of-All _ key es e d.0 found).1) in
        let rest = node_at-entries key es e d.1 found in
        rw (ne, later) (rest.0, ap (◌∷◌ (node f)) rest.1)
  ]

  pub without_missing :
      (key : K) (es : List (Entry K V)) → entry_of key es ≡ none → without key es ≡ es
  without_missing key [] h = refl
  without_missing key (e ∷ es) h = ground (arith, without_missing key es)

  abbrev pub is_some : Option (Entry K V) → Bool
  is_some none = false
  is_some (some e) = true

  -- `Remove` says whether the key was there.
  pub Holds-remove :
      (key : K) (m : LruMap K V) (es : List (Entry K V))
      → Holds m es
      → (m' : LruMap K V) × (remove key m ≡ done (m', is_some (entry_of key es)))
        × Holds m' (without key es)
        × (m'.size ≡ m.size)
        × (m'.next_id ≡ m.next_id)
  unfolding remove
  Holds-remove key m es h = elim (Option-cases (entry_of key es)) [
    | inl missing ↦
        let slotless : find_slot key m.map ≡ none =
          ap (find_slot key) h.in_map ∙ rw missing at (find_slot-entries key es) in
        (m, rw (slotless, missing, remove), rw (without_missing key es missing) h, refl, refl)
    | inr (e, found) ↦
        let at = node_at-entries key es e h.distinct found in
        let there : find_slot key m.map ≡ some (slot e) =
          ap (find_slot key) h.in_map ∙ rw found at (find_slot-entries key es) in
        let node_there : node_at e.id m.list ≡ some (node e) = ap (node_at e.id) h.in_list ∙ at.0 in
        (
          record m { list = erase_node e.id m.list; map = erase_key key m.map },
          rw (there, node_there, found, remove),
          record {
            in_list = ap (erase_node e.id) h.in_list ∙ at.1;
            in_map = ap (erase_key key) h.in_map ∙ erase_key-entries key es;
            distinct = without-Distinct key es h.distinct;
            fresh = All-without _ key es h.fresh;
          },
          refl,
          refl,
        )
  ]

  Distinct-append :
      (es : List (Entry K V)) (e : Entry K V)
      → Distinct es
      → All (λ f. (k.same f.key e.key ≡ false) × (f.id < e.id)) es
      → Distinct (es ++ e ∷ [])
  Distinct-append [] e d a = (tt, tt)
  Distinct-append (f ∷ es) e d a = (
    append-All _ es (e ∷ []) d.0 ((same_sym f.key e.key a.0.0, ground arith), tt),
    Distinct-append es e d.1 a.1,
  )

  pub Holds-push_back :
      (key : K) (v : V) (now : ℕ) (m : LruMap K V) (es : List (Entry K V))
      → Holds m es
      → All (λ e. k.same e.key key ≡ false) es
      → Holds
          (push_back key v now m)
          (es ++ record { id = m.next_id; key = key; value = v; ts = now } ∷ [])
  unfolding push_back
  Holds-push_back key v now m es h absent =
      let e : Entry K V = record { id = m.next_id; key = key; value = v; ts = now } in
      record {
        in_list = ap (λ l. l ++ node e ∷ []) h.in_list ∙ sym (map-append node es (e ∷ []));
        in_map =
            ap (λ l. l ++ keyed_slot e ∷ []) h.in_map ∙ sym (map-append keyed_slot es (e ∷ []));
        distinct = Distinct-append es e h.distinct (All-both _ _ es absent h.fresh);
        fresh =
            append-All _ es (e ∷ []) (All-map (λ f l. omega arith) es h.fresh) (omega arith, tt);
      }

  -- Eviction of the oldest entry, as `make_room` does it when the map is full.
  abbrev pub evicted : ℕ → List (Entry K V) → List (Entry K V)
  evicted size [] = []
  evicted size (e ∷ es) = if leb size (length (e ∷ es)) then es else e ∷ es

  pub Holds-tail :
      (m : LruMap K V) (e : Entry K V) (es : List (Entry K V))
      → Holds m (e ∷ es)
      → Holds (record m { list = map node es; map = erase_key e.key m.map }) es
  Holds-tail m e es h = record {
    in_list = refl;
    in_map =
        rw (h.in_map, erase_key-entries e.key (e ∷ es), (k.same_iff e.key e.key).1 refl)
          (ap (map keyed_slot) (without_rest e es h.distinct));
    distinct = h.distinct.1;
    fresh = h.fresh.1;
  }

  pub Holds-make_room :
      (m : LruMap K V) (es : List (Entry K V))
      → Holds m es
      → 0 < m.size
      → (m' : LruMap K V) × (make_room m ≡ done m')
        × Holds m' (evicted m.size es)
        × (m'.size ≡ m.size)
        × (m'.next_id ≡ m.next_id)
  unfolding make_room
  Holds-make_room m [] h p = (m, rw h.in_map (ground arith), h, refl, refl)
  Holds-make_room m (e ∷ es) h p =
      let n = ap length h.in_map ∙ length-map (e ∷ es) keyed_slot in
      elim (Bool-cases (leb m.size (length (e ∷ es)))) [
        | inl full ↦ (
          record m { list = map node es; map = erase_key e.key m.map },
          ground (arith, n),
          rw full (Holds-tail m e es h),
          refl,
          refl,
        )
        | inr room ↦ (m, ground (arith, n), rw room h, refl, refl)
      ]
