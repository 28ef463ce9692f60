-- ===== src/Serializers/Reader/Trimmed.antt =====
-- The output of the serializers starts with a key and ends with a separator.
use orekacxx.Common.{ℕ, ◌≡◌, refl, ◌∙◌, true, false, List, [], ◌∷◌, ◌++◌, arith}
use orekacxx.Serializers.Chars.{is_alnum, is_space, ends_with_space, IsTrimmed}
use orekacxx.Serializers.Reader.{Pairs}
use orekacxx.Serializers.Reader.Run.{AreFields, written}

ends-append :
    (xs : List ℕ) (c : ℕ) (cs : List ℕ) → ends_with_space (xs ++ c ∷ cs) ≡ ends_with_space (c ∷ cs)
ends-append [] c cs = refl
ends-append (x ∷ []) c cs = refl
ends-append (x ∷ y ∷ xs) c cs = ends-append (y ∷ xs) c cs

alnum_not_space : (c : ℕ) → is_alnum c ≡ true → is_space c ≡ false
unfolding is_alnum is_space
alnum_not_space c h = ground arith

module _ (separator : ℕ) (escape : List ℕ → List ℕ) where
  ends-written :
      (fs : Pairs)
      → AreFields fs
      → ends_with_space (separator ∷ written separator escape fs) ≡ is_space separator
  ends-written [] f = refl
  ends-written (([], v) ∷ fs) f = absurd f.0
  ends-written ((x ∷ ks, v) ∷ fs) f =
      ends-append (x ∷ ks) b'=' (escape v ++ separator ∷ written separator escape fs)
      ∙ ends-append (b'=' ∷ escape v) separator (written separator escape fs)
      ∙ ends-written fs f.2

  pub written-IsTrimmed :
      (fs : Pairs)
      → is_space separator ≡ false
      → AreFields fs
      → IsTrimmed (written separator escape fs)
  written-IsTrimmed [] h f = (refl, refl)
  written-IsTrimmed (([], v) ∷ fs) h f = absurd f.0
  written-IsTrimmed ((x ∷ ks, v) ∷ fs) h f = (
    alnum_not_space x (ground arith),
    ends-append (x ∷ ks) b'=' (escape v ++ separator ∷ written separator escape fs)
        ∙ ends-append (b'=' ∷ escape v) separator (written separator escape fs)
        ∙ ends-written fs f.2
        ∙ h,
  )
