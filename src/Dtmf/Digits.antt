-- ===== src/Dtmf/Digits.antt =====
-- `DtmfDigitToEnum` against `DtmfDigitToString`.
use mathlib.Core.Path.{fun_ext}
use orekacxx.Common.{
  ℕ, ◌+◌, ◌<◌, ◌≡◌, refl, Bool, true, ◌&&◌, List, map, leb, ltb, ◌==◌, ==_iff, if◌then◌else◌,
}
use orekacxx.Common.Bytes.{every_byte, every_byte_lem}
use orekacxx.Serializers.Chars.{str_eq}
use orekacxx.Dtmf.{dtmf_digit_to_string, dtmf_digit_to_enum, first_same}

abbrev pub to_lower : ℕ → ℕ
to_lower c = if leb b'A' c && leb c b'Z' then c + 32 else c

abbrev pub same_but_case : List ℕ → List ℕ → Bool
same_but_case s t = str_eq (map to_lower s) (map to_lower t)

abbrev digit_test : ℕ → Bool
digit_test e =
    dtmf_digit_to_enum same_but_case (dtmf_digit_to_string e) == (if ltb e 12 then e else 12)

digit_table : every_byte digit_test ≡ true
unfolding every_byte dtmf_digit_to_enum first_same dtmf_digit_to_string str_eq
digit_table = refl

-- The number of an event's name is the number of the event, for the twelve digits, and the one of the
-- unknown digit for every other byte. The string class compares without regard to case.
pub dtmf_digit_to_enum-to_string :
    (same : List ℕ → List ℕ → Bool)
    → ((s t : List ℕ) → same s t ≡ same_but_case s t)
    → (e : ℕ) → e < 256
    → dtmf_digit_to_enum same (dtmf_digit_to_string e) ≡ (if ltb e 12 then e else 12)
dtmf_digit_to_enum-to_string same law e h =
    rw (fun_ext (λ s. fun_ext (law s))) ((==_iff _ _).0 (every_byte_lem digit_test digit_table e h))
