-- ===== src/Voip/OrderedMap.antt =====
-- `std::map`, as orkaudio/audiocaptureplugins/voip/VoIpSession.cpp uses it: the entries in the order of
-- their keys, one for each key.
pub mod Laws
use orekacxx.Common.{
  ℕ, ◌≡◌, ◌↔◌, Bool, true, false, ◌&&◌, ◌||◌, List, [], ◌∷◌, map, Option, none, some, ltb, ◌==◌,
  ==_iff, if◌then◌else◌,
}
use orekacxx.Serializers.Chars.{str_eq, str_eq_iff}

pub record KeyOrder {ℓ} (K : Type ℓ) : Type ℓ where
  pub same : K → K → Bool
  pub before : K → K → Bool
  pub same_iff : (a b : K) → (same a b ≡ true) ↔ (a ≡ b)

-- The order of strings, by their bytes.
unfoldable pub text_before : List ℕ → List ℕ → Bool
text_before s [] = false
text_before [] (y ∷ ys) = true
text_before (x ∷ xs) (y ∷ ys) = ltb x y || x == y && text_before xs ys

instance unfoldable pub by_number : KeyOrder ℕ
by_number = record { same = ◌==◌; before = ltb; same_iff = ==_iff }

instance unfoldable pub by_text : KeyOrder (List ℕ)
by_text = record { same = str_eq; before = text_before; same_iff = str_eq_iff }

module _ {ℓ} {K V : Type ℓ} where
  abbrev pub values : List (K × V) → List V
  values m = map (λ e. e.1) m

module _ {ℓ} {K V : Type ℓ} ⦃k : KeyOrder K⦄ where
  unfoldable pub find : K → List (K × V) → Option V
  find key [] = none
  find key ((j, v) ∷ m) = if k.same j key then some v else find key m

  unfoldable pub erase : K → List (K × V) → List (K × V)
  erase key [] = []
  erase key ((j, v) ∷ m) = if k.same j key then erase key m else (j, v) ∷ erase key m

  -- Where a new entry goes.
  unfoldable pub place : K → V → List (K × V) → List (K × V)
  place key v [] = (key, v) ∷ []
  place key v ((j, w) ∷ m) =
      if k.before key j then (key, v) ∷ (j, w) ∷ m else (j, w) ∷ place key v m

  -- An entry that is there already stays as it is.
  unfoldable pub insert : K → V → List (K × V) → List (K × V)
  insert key v m = elim (find key m) [ none ↦ place key v m | some _ ↦ m ]
