-- ===== src/Tests/Texts.antt =====
-- Texts to escape and fields to write, for UrlSerializer.cpp and SingleLineSerializer.cpp.
use orekacxx.Common.{All, ℕ, ◌≡◌, refl, true, List, [], ◌∷◌, arith, ◌++◌}
use orekacxx.Common.Outcome.{done}
use orekacxx.Serializers.Chars.{codes, is_alnum, str_eq, until_nul}
use orekacxx.Serializers.Reader.{Pairs, start_state}
use orekacxx.Serializers.Reader.Run.{AreFields, all_plain}
use orekacxx.Serializers.Url.{escape_url, unescape_url, serialize, deserialize}
use orekacxx.Serializers.Url.RoundTrip.{
  IsByte, unescape_url-escape_url, deserialize-serialize, as_c_strings,
}
use orekacxx.Serializers.SingleLine.{escape_single_line, unescape_single_line}
use orekacxx.Serializers.SingleLine.RoundTrip.{escape_single_line_lem}

abbrev url_text : List ℕ
url_text = codes "a b%"

url_text-IsByte : All IsByte url_text
url_text-IsByte = (omega arith, (omega arith, (omega arith, (omega arith, tt))))

unescape_url-escape_url_example : unescape_url (escape_url url_text) ≡ done url_text
unescape_url-escape_url_example = unescape_url-escape_url url_text url_text-IsByte

abbrev fields : Pairs
fields = (codes "type", codes "stop" ++ (0 ∷ 9 ∷ [])) ∷ (codes "party", url_text) ∷ []

fields-AreFields : AreFields fields
unfolding is_alnum str_eq
fields-AreFields = (refl, (refl, tt), (refl, tt, tt))

fields-IsByte : All (λ f. All IsByte f.1) fields
fields-IsByte = (
  (omega arith, (omega arith, (omega arith, (omega arith, (omega arith, (omega arith, tt)))))),
  (url_text-IsByte, tt),
)

deserialize-serialize_example :
    deserialize (λ s. s) (serialize fields)
    ≡ done (record { state = start_state; key = []; value = []; map = as_c_strings fields })
deserialize-serialize_example =
    deserialize-serialize (λ s. s) (λ s h. refl) fields fields-AreFields fields-IsByte

-- The second value comes back whole, the first one without what stands behind the zero byte.
fields_kept : as_c_strings fields ≡ (codes "type", codes "stop") ∷ (codes "party", url_text) ∷ []
unfolding as_c_strings until_nul
fields_kept = refl

abbrev line_text : List ℕ
line_text = codes "a = b\\"

escape_single_line_lem_example :
    (all_plain b' ' (escape_single_line line_text) ≡ true)
    × (unescape_single_line (escape_single_line line_text) ≡ line_text)
escape_single_line_lem_example = escape_single_line_lem line_text
