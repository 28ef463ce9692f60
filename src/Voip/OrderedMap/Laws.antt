-- ===== src/Voip/OrderedMap/Laws.antt =====
-- What `find` finds after `erase` and `insert` of `std::map`, and what the loops over its entries meet.
use orekacxx.Common.{
  ◌≡◌, refl, sym, ◌∙◌, true, false, List, [], ◌∷◌, none, some, Bool-cases, ◌==◌, ℕ, Option-cases,
  inl, inr, arith, if◌then◌else◌, ℕ, ◌⊎◌, ap, some-injective, if_true, if_false, ==_iff, ==_refl,
}
use orekacxx.Serializers.Chars.{str_eq, str_eq_iff}
use orekacxx.Voip.OrderedMap.{KeyOrder, by_number, by_text, find, erase, place, insert}

module _ {ℓ} {K : Type ℓ} ⦃k : KeyOrder K⦄ where
  pub same_self : (a : K) → k.same a a ≡ true
  same_self a = (k.same_iff a a).1 refl

  same_trans : (a b c : K) → k.same a b ≡ true → k.same b c ≡ true → k.same a c ≡ true
  same_trans a b c p q = (k.same_iff a c).1 ((k.same_iff a b).0 p ∙ (k.same_iff b c).0 q)

  same_sym : (a b : K) → k.same a b ≡ true → k.same b a ≡ true
  same_sym a b p = (k.same_iff b a).1 (sym ((k.same_iff a b).0 p))

module _ {ℓ} {K V : Type ℓ} ⦃k : KeyOrder K⦄ where
  pub find-erase :
      (a b : K) (m : List (K × V)) → find a (erase b m) ≡ (if k.same b a then none else find a m)
  unfolding find erase
  find-erase a b [] = ground arith
  find-erase a b ((j, v) ∷ m) = elim (Bool-cases (k.same j b)) [
    | inl out ↦ rw (out, find-erase a b m) (ground (arith, same_trans b j a (same_sym j b out)))
    | inr stays ↦ rw (stays, find-erase a b m) (ground (arith, same_trans j a b, same_sym b a))
  ]

  absent_rest :
      (b j : K) (w : V) (m : List (K × V))
      → find b ((j, w) ∷ m) ≡ none
      → k.same j b ≡ false
      → find b m ≡ none
  unfolding find
  absent_rest b j w m h other = ground (arith, h, other)

  absent_first :
      (b j : K) (w : V) (m : List (K × V)) → find b ((j, w) ∷ m) ≡ none → k.same j b ≡ false
  unfolding find
  absent_first b j w m h = ground (arith, h)

  pub find-place :
      (a b : K) (v : V) (m : List (K × V))
      → find b m ≡ none
      → find a (place b v m) ≡ (if k.same b a then some v else find a m)
  unfolding find place
  find-place a b v [] h = refl
  find-place a b v ((j, w) ∷ m) h = elim (Bool-cases (k.same j b)) [
    | inl there ↦ absurd (ground (arith, h, there))
    | inr other ↦ elim (Bool-cases (k.before b j)) [
      | inl first ↦ rw first refl
      | inr later ↦
          rw (later, find-place a b v m (absent_rest b j w m h other))
            (ground (arith, same_trans j a b, same_sym b a, other))
    ]
  ]

  -- An insertion under a new key.
  pub find-insert :
      (a b : K) (v : V) (m : List (K × V))
      → find b m ≡ none
      → find a (insert b v m) ≡ (if k.same b a then some v else find a m)
  unfolding insert
  find-insert a b v m h = ground (arith, find-place a b v m h)

  -- No key twice: each entry is found by its key.
  abbrev pub Distinct : List (K × V) → Type ℓ
  Distinct [] = Unit
  Distinct ((j, v) ∷ m) = (find j m ≡ none) × Distinct m

  pub erase-Distinct : (b : K) (m : List (K × V)) → Distinct m → Distinct (erase b m)
  unfolding erase
  erase-Distinct b [] d = tt
  erase-Distinct b ((j, v) ∷ m) d = elim (Bool-cases (k.same j b)) [
    | inl out ↦ rw out (erase-Distinct b m d.1)
    | inr stays ↦ rw stays (ground (arith, find-erase j b m, d.0), erase-Distinct b m d.1)
  ]

  pub place-Distinct :
      (b : K) (v : V) (m : List (K × V)) → find b m ≡ none → Distinct m → Distinct (place b v m)
  unfolding place find
  place-Distinct b v [] h d = (refl, tt)
  place-Distinct b v ((j, w) ∷ m) h d = elim (Bool-cases (k.before b j)) [
    | inl first ↦ rw first (h, d)
    | inr later ↦ rw later (
      rw (find-place j b v m (absent_rest b j w m h (absent_first b j w m h)))
          (ground (arith, d.0, same_sym b j, absent_first b j w m h)),
      place-Distinct b v m (absent_rest b j w m h (absent_first b j w m h)) d.1,
    )
  ]

  insert-absent : (b : K) (v : V) (m : List (K × V)) → find b m ≡ none → insert b v m ≡ place b v m
  unfolding insert
  insert-absent b v m h = ground (arith, h)

  pub insert-present :
      (b : K) (v : V) (m : List (K × V)) (w : V) → find b m ≡ some w → insert b v m ≡ m
  unfolding insert
  insert-present b v m w h = ground (arith, h)

  pub insert-Distinct : (b : K) (v : V) (m : List (K × V)) → Distinct m → Distinct (insert b v m)
  unfolding insert
  insert-Distinct b v m d = elim (Option-cases (find b m)) [
    | inl absent ↦ rw (insert-absent b v m absent) (place-Distinct b v m absent d)
    | inr (w, there) ↦ rw (insert-present b v m w there) d
  ]

-- On keys that are numbers, `find` after an erasure.
pub find-erase_number :
    {V : Type 0} (a b : ℕ) (m : List (ℕ × V))
    → find a (erase b m) ≡ (if b == a then none else find a m)
unfolding by_number
find-erase_number a b m = find-erase a b m

-- On keys that are numbers, `find` after an insertion under a new key.
pub find-insert_number :
    {V : Type 0} (a b : ℕ) (v : V) (m : List (ℕ × V))
    → find b m ≡ none
    → find a (insert b v m) ≡ (if b == a then some v else find a m)
unfolding by_number
find-insert_number a b v m h = find-insert a b v m h

-- On keys that are texts, `find` after an erasure.
pub find-erase_text :
    {V : Type 0} (a b : List ℕ) (m : List (List ℕ × V))
    → find a (erase b m) ≡ (if str_eq b a then none else find a m)
unfolding by_text
find-erase_text a b m = find-erase a b m

-- On keys that are texts, `find` after an insertion under a new key.
pub find-insert_text :
    {V : Type 0} (a b : List ℕ) (v : V) (m : List (List ℕ × V))
    → find b m ≡ none
    → find a (insert b v m) ≡ (if str_eq b a then some v else find a m)
unfolding by_text
find-insert_text a b v m h = find-insert a b v m h

-- An insertion leaves what was there, or adds its entry.
pub find-insert_any :
    (a b i j : ℕ) (m : List (ℕ × ℕ))
    → find a (insert b i m) ≡ some j
    → ((a ≡ b) × (j ≡ i)) ⊎ (find a m ≡ some j)
find-insert_any a b i j m h = elim (Option-cases (find b m)) [
  | inl absent ↦ ground (arith, find-insert_number a b i m absent, h)
  | inr (k, there) ↦ inr (ap (λ n. find a n) (sym (insert-present b i m k there)) ∙ h)
]

pub find-insert_any_text :
    (a b : List ℕ) (i j : ℕ) (m : List (List ℕ × ℕ))
    → find a (insert b i m) ≡ some j
    → ((a ≡ b) × (j ≡ i)) ⊎ (find a m ≡ some j)
find-insert_any_text a b i j m h = elim (Option-cases (find b m)) [
  | inr (k, there) ↦ inr (ap (λ n. find a n) (sym (insert-present b i m k there)) ∙ h)
  | inl absent ↦
      let eq = find-insert_text a b i m absent in
      elim (Bool-cases (str_eq b a)) [
        | inl e ↦ inl (sym ((str_eq_iff b a).0 e), some-injective (sym h ∙ (eq ∙ if_true _ _ e)))
        | inr e ↦ inr (sym (if_false _ _ e) ∙ (sym eq ∙ h))
      ]
]

pub find-first : (b j : ℕ) (m : List (ℕ × ℕ)) → find b ((b, j) ∷ m) ≡ some j
unfolding find by_number
find-first b j m = rw (==_refl b) refl

pub find-rest :
    (a b i j : ℕ) (m : List (ℕ × ℕ))
    → find b m ≡ none
    → find a m ≡ some i
    → find a ((b, j) ∷ m) ≡ some i
unfolding find by_number
find-rest a b i j m absent h = elim (Bool-cases (b == a)) [
  | inl e ↦ absurd (ground (arith, sym absent ∙ ap (λ k. find k m) ((==_iff b a).0 e) ∙ h))
  | inr e ↦ rw e h
]
