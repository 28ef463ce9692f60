-- ===== src/Serializers/Reader/Run.antt =====
-- What the loop of `DeSerialize` makes of well-formed pairs.
use mathlib.Core.List.{append_assoc, append-nil}
use orekacxx.Common.{
  ℕ, ◌≡◌, refl, ap, ◌∙◌, Bool, true, false, not, ◌&&◌, List, [], ◌∷◌, ◌++◌, none, arith, ◌==◌,
  ==_refl, All,
}
use orekacxx.Common.Outcome.{Outcome, done}
use orekacxx.Serializers.Chars.{is_alnum, str_eq}
use orekacxx.Serializers.Reader.{
  Reader, Pairs, start_state, key_state, value_state, find, insert, read_char, store_pair, read_all,
  is_nil, is_error,
}

abbrev pub all_alnum : List ℕ → Bool
all_alnum [] = true
all_alnum (c ∷ cs) = is_alnum c && all_alnum cs

-- Neither an equals sign nor the separator.
abbrev pub all_plain : ℕ → List ℕ → Bool
all_plain separator [] = true
all_plain separator (c ∷ cs) = not (c == b'=') && (not (c == separator) && all_plain separator cs)

pub all_plain-append :
    (separator : ℕ) (xs ys : List ℕ)
    → all_plain separator xs ≡ true
    → all_plain separator ys ≡ true
    → all_plain separator (xs ++ ys) ≡ true
all_plain-append separator [] ys h k = k
all_plain-append separator (x ∷ xs) ys h k = ground (arith, all_plain-append separator xs ys)

str_eq_refl : (k : List ℕ) → str_eq k k ≡ true
unfolding str_eq
str_eq_refl [] = refl
str_eq_refl (c ∷ cs) = rw (==_refl c, str_eq_refl cs)

is_nil-append : (xs ys : List ℕ) → is_nil ys ≡ false → is_nil (xs ++ ys) ≡ false
is_nil-append [] ys h = h
is_nil-append (x ∷ xs) ys h = refl

-- A key that is not in the map goes to its end.
insert_new : (k v : List ℕ) (m : Pairs) → find k m ≡ none → insert k v m ≡ m ++ (k, v) ∷ []
unfolding insert find
insert_new k v [] h = refl
insert_new k v ((j, w) ∷ m) h = ground (arith, insert_new k v m)

abbrev at_key : List ℕ → List ℕ → Pairs → Reader
at_key k v m = record { state = key_state; key = k; value = v; map = m }

abbrev at_value : List ℕ → List ℕ → Pairs → Reader
at_value k v m = record { state = value_state; key = k; value = v; map = m }

abbrev pub at_start : List ℕ → Pairs → Reader
at_start v m = record { state = start_state; key = []; value = v; map = m }

module _ (separator : ℕ) (unescape : List ℕ → Outcome (List ℕ)) where
  -- A character that is not the last, and that stores no pair.
  step :
      (r r' : Reader) (c : ℕ) (more : List ℕ)
      → is_error r.state ≡ false
      → is_nil more ≡ false
      → store_pair unescape false (read_char separator r c) ≡ done r'
      → read_all separator unescape r (c ∷ more) ≡ read_all separator unescape r' more
  unfolding read_all
  step r r' c more h n e = ground arith

  read_key :
      (ks k v : List ℕ) (m : Pairs) (more : List ℕ)
      → all_alnum ks ≡ true
      → is_nil more ≡ false
      → read_all separator unescape (at_key k v m) (ks ++ more)
        ≡ read_all separator unescape (at_key (k ++ ks) v m) more
  unfolding read_char store_pair
  read_key [] k v m more h n = rw append-nil
  read_key (x ∷ ks) k v m more h n =
      step (at_key k v m) (at_key (k ++ x ∷ []) v m) x (ks ++ more) refl (is_nil-append ks more n)
        (ground arith)
      ∙ read_key ks (k ++ x ∷ []) v m more (ground arith) n
      ∙ ap (λ l. read_all separator unescape (at_key l v m) more) (append_assoc k (x ∷ []) ks)

  read_value :
      (vs k v : List ℕ) (m : Pairs) (more : List ℕ)
      → all_plain separator vs ≡ true
      → is_nil more ≡ false
      → read_all separator unescape (at_value k v m) (vs ++ more)
        ≡ read_all separator unescape (at_value k (v ++ vs) m) more
  unfolding read_char store_pair
  read_value [] k v m more h n = rw append-nil
  read_value (x ∷ vs) k v m more h n =
      step (at_value k v m) (at_value k (v ++ x ∷ []) m) x (vs ++ more) refl
        (is_nil-append vs more n) (ground arith)
      ∙ read_value vs k (v ++ x ∷ []) m more (ground arith) n
      ∙ ap (λ l. read_all separator unescape (at_value k l m) more) (append_assoc v (x ∷ []) vs)

  module _ (alnum_separator : is_alnum separator ≡ false)
      (equals : (b'=' == separator) ≡ false) where
    -- From the start of a pair up to its value.
    pub read_to_value :
        (x : ℕ) (ks v : List ℕ) (m : Pairs) (more : List ℕ)
        → all_alnum (x ∷ ks) ≡ true
        → is_nil more ≡ false
        → read_all separator unescape (at_start v m) (x ∷ (ks ++ b'=' ∷ more))
          ≡ read_all separator unescape (at_value (x ∷ ks) [] m) more
    unfolding read_char store_pair is_alnum
    read_to_value x ks v m more h n =
        step (at_start v m) (at_key (x ∷ []) v m) x (ks ++ b'=' ∷ more) refl
          (is_nil-append ks (b'=' ∷ more) refl) (ground arith)
        ∙ read_key ks (x ∷ []) v m (b'=' ∷ more) (ground arith) refl
        ∙ step (at_key (x ∷ ks) v m) (at_value (x ∷ ks) [] m) b'=' more refl n refl

    -- The separator behind a value stores the pair.
    pub read_separator :
        (x : ℕ) (ks v u : List ℕ) (m : Pairs) (more : List ℕ)
        → unescape v ≡ done u
        → read_all separator unescape (at_value (x ∷ ks) v m) (separator ∷ more)
          ≡ read_all separator unescape (at_start [] (insert (x ∷ ks) u m)) more
    unfolding read_char store_pair read_all
    read_separator x ks v u m more e = ground (arith, ==_refl separator)

-- Well-formed fields: a key is not empty and is alphanumeric, and no two fields share one.
abbrev pub IsKey : List ℕ → Type 0
IsKey [] = ⊥
IsKey (c ∷ cs) = all_alnum (c ∷ cs) ≡ true

abbrev pub AreFields : Pairs → Type 0
AreFields [] = Unit {0}
AreFields ((k, v) ∷ fs) = IsKey k × All (λ f. str_eq k f.0 ≡ false) fs × AreFields fs

-- No field has a key of the map.
abbrev pub AreNew : Pairs → Pairs → Type 0
AreNew m [] = Unit {0}
AreNew m ((k, v) ∷ fs) = (find k m ≡ none) × AreNew m fs

find-append :
    (j k v : List ℕ) (m : Pairs)
    → find j m ≡ none
    → str_eq k j ≡ false
    → find j (m ++ (k, v) ∷ []) ≡ none
unfolding find
find-append j k v [] h e = rw e
find-append j k v ((i, w) ∷ m) h e = ground (arith, find-append j k v m)

pub AreNew-append :
    (k v : List ℕ) (m fs : Pairs)
    → AreNew m fs
    → All (λ f. str_eq k f.0 ≡ false) fs
    → AreNew (m ++ (k, v) ∷ []) fs
AreNew-append k v m [] n a = tt
AreNew-append k v m ((j, w) ∷ fs) n a =
    (find-append j k v m n.0 a.0, AreNew-append k v m fs n.1 a.1)

pub AreNew-nil : (fs : Pairs) → AreNew [] fs
unfolding find
AreNew-nil [] = tt
AreNew-nil (f ∷ fs) = (refl, AreNew-nil fs)

-- The value is escaped into plain text that unescapes to it.
abbrev pub IsEscaped : ℕ → (List ℕ → Outcome (List ℕ)) → (List ℕ → List ℕ) → List ℕ → Type 0
IsEscaped separator unescape escape v =
    (all_plain separator (escape v) ≡ true) × (unescape (escape v) ≡ done v)

-- What the fields are written as, one behind the other.
abbrev pub written : ℕ → (List ℕ → List ℕ) → Pairs → List ℕ
written separator escape [] = []
written separator escape ((k, v) ∷ fs) =
    k ++ b'=' ∷ (escape v ++ separator ∷ written separator escape fs)

module _ (separator : ℕ) (unescape : List ℕ → Outcome (List ℕ)) (escape : List ℕ → List ℕ)
    (alnum_separator : is_alnum separator ≡ false) (equals : (b'=' == separator) ≡ false) where
  read_field :
      (k v w : List ℕ) (m : Pairs) (more : List ℕ)
      → IsKey k
      → IsEscaped separator unescape escape v
      → find k m ≡ none
      → read_all separator unescape (at_start w m) (k ++ b'=' ∷ (escape v ++ separator ∷ more))
        ≡ read_all separator unescape (at_start [] (m ++ (k, v) ∷ [])) more
  read_field [] v w m more h e n = absurd h
  read_field (x ∷ ks) v w m more h e n =
      read_to_value separator unescape alnum_separator equals x ks w m
        (escape v ++ separator ∷ more) h (is_nil-append (escape v) (separator ∷ more) refl)
      ∙ read_value separator unescape (escape v) (x ∷ ks) [] m (separator ∷ more) e.0 refl
      ∙ read_separator separator unescape alnum_separator equals x ks (escape v) v m more e.1
      ∙ ap (λ l. read_all separator unescape (at_start [] l) more) (insert_new (x ∷ ks) v m n)

  pub read_written :
      (fs m : Pairs)
      → AreFields fs
      → All (λ f. IsEscaped separator unescape escape f.1) fs
      → AreNew m fs
      → read_all separator unescape (at_start [] m) (written separator escape fs)
        ≡ done (at_start [] (m ++ fs))
  unfolding read_all
  read_written [] m f e n = rw append-nil
  read_written ((k, v) ∷ fs) m f e n =
      read_field k v [] m (written separator escape fs) f.0 e.0 n.0
      ∙ read_written fs (m ++ (k, v) ∷ []) f.2 e.1 (AreNew-append k v m fs n.1 f.1)
      ∙ ap (λ l. done (at_start [] l)) (append_assoc m ((k, v) ∷ []) fs)
