-- ===== src/Voip/Stops/Removed.antt =====
-- What `RemoveFromMediaAddressMap` of VoIpSession.cpp leaves in the map of media addresses.
use orekacxx.Common.{
  ℕ, ◌≡◌, ◌≢◌, refl, true, List, [], ◌∷◌, none, some, arith, Bool-cases, Option-cases, inl, inr,
  ◌==◌, ==_iff, ==_refl, ltb, length, ◌∙◌, sym,
}
use orekacxx.Serializers.Chars.{contains}
use orekacxx.Voip.OrderedMap.{find, by_number, by_text}
use orekacxx.Voip.OrderedMap.Laws.{
  find-erase_number, find-erase, same_self, Distinct, erase-Distinct,
}
use orekacxx.Voip.Stops.{remove_from_media_address_map, remove_each, erase_call}

pub find-remove :
    (i a b j : ℕ) (m : List (ℕ × ℕ))
    → find b (remove_from_media_address_map i a m) ≡ some j
    → find b m ≡ some j
unfolding remove_from_media_address_map
find-remove i a b j m h = ground (arith, find-erase_number b a m, h)

pub remove-keeps :
    (i a b j : ℕ) (m : List (ℕ × ℕ))
    → find b m ≡ some j
    → j ≢ i
    → find b (remove_from_media_address_map i a m) ≡ some j
unfolding remove_from_media_address_map
remove-keeps i a b j m h n = ground (arith, find-erase_number b a m, h, n)

pub remove-gone :
    (i a : ℕ) (m : List (ℕ × ℕ)) → a ≢ 0 → find a (remove_from_media_address_map i a m) ≢ some i
unfolding remove_from_media_address_map
remove-gone i a m n h = ground (arith, find-erase_number a a m, ==_refl a, h, n)

pub find-remove_each :
    (i : ℕ) (addresses : List ℕ) (b j : ℕ) (m : List (ℕ × ℕ))
    → find b (remove_each i addresses m) ≡ some j
    → find b m ≡ some j
unfolding remove_each
find-remove_each i [] b j m h = h
find-remove_each i (a ∷ rest) b j m h = find-remove i a b j m (find-remove_each i rest b j _ h)

pub remove_each-keeps :
    (i : ℕ) (addresses : List ℕ) (b j : ℕ) (m : List (ℕ × ℕ))
    → find b m ≡ some j
    → j ≢ i
    → find b (remove_each i addresses m) ≡ some j
unfolding remove_each
remove_each-keeps i [] b j m h n = h
remove_each-keeps i (a ∷ rest) b j m h n =
    remove_each-keeps i rest b j _ (remove-keeps i a b j m h n) n

pub remove_each-gone :
    (i : ℕ) (addresses : List ℕ) (b : ℕ) (m : List (ℕ × ℕ))
    → contains b addresses ≡ true
    → b ≢ 0
    → find b (remove_each i addresses m) ≢ some i
unfolding remove_each contains
remove_each-gone i [] b m c n h = absurd (ground (arith, c))
remove_each-gone i (a ∷ rest) b m c n h = elim (Bool-cases (b == a)) [
  | inl e ↦
      remove-gone i b m n (
        rw ((==_iff b a).0 e) (find-remove_each i rest a i _ (ground (arith, h, (==_iff b a).0 e))))
  | inr e ↦ remove_each-gone i rest b _ (ground (arith, c, e)) n h
]

pub remove-Distinct :
    (i a : ℕ) (m : List (ℕ × ℕ)) → Distinct m → Distinct (remove_from_media_address_map i a m)
unfolding remove_from_media_address_map
remove-Distinct i a m d = elim (Bool-cases (a == 0)) [
  | inl e ↦ rw e d
  | inr e ↦ elim (Option-cases (find a m)) [
    | inl absent ↦ rw (e, absent) d
    | inr (j, there) ↦ elim (Bool-cases (j == i)) [
      | inl own ↦ rw (e, there, own) (erase-Distinct a m d)
      | inr other ↦ rw (e, there, other) d
    ]
  ]
]

pub remove_each-Distinct :
    (i : ℕ) (addresses : List ℕ) (m : List (ℕ × ℕ))
    → Distinct m
    → Distinct (remove_each i addresses m)
unfolding remove_each
remove_each-Distinct i [] m d = d
remove_each-Distinct i (a ∷ rest) m d = remove_each-Distinct i rest _ (remove-Distinct i a m d)

pub find-erase_call :
    (id c : List ℕ) (j : ℕ) (m : List (List ℕ × ℕ))
    → find c (erase_call id m) ≡ some j
    → find c m ≡ some j
unfolding erase_call
find-erase_call id c j m h = ground (arith, find-erase c id m, h)

pub erase_call-Distinct :
    (id : List ℕ) (m : List (List ℕ × ℕ)) → Distinct m → Distinct (erase_call id m)
unfolding erase_call
erase_call-Distinct id m d = elim (Bool-cases (ltb 0 (length id))) [
  | inl e ↦ rw e (erase-Distinct id m d)
  | inr e ↦ rw e d
]

-- The call ID's own entry, where there is one.
pub erase_call-gone :
    (id : List ℕ) (m : List (List ℕ × ℕ))
    → ltb 0 (length id) ≡ true
    → find id (erase_call id m) ≡ none
unfolding erase_call
erase_call-gone id m h = rw h (find-erase id id m ∙ rw (same_self id) refl)

pub erase_call-keeps :
    (id c : List ℕ) (m : List (List ℕ × ℕ)) → c ≢ id → find c (erase_call id m) ≡ find c m
unfolding erase_call
erase_call-keeps id c m n = elim (Bool-cases (by_text.same id c)) [
  | inl e ↦ absurd (n (sym ((by_text.same_iff id c).0 e)))
  | inr e ↦ ground (arith, find-erase c id m, e)
]
