-- ===== src/Serializers/SingleLine/RoundTrip.antt =====
-- Escaping for a line of key-value pairs and back.
use orekacxx.Common.{ℕ, ◌≡◌, refl, ap, ◌∙◌, true, List, [], ◌∷◌, ◌++◌, arith}
use orekacxx.Serializers.Reader.Run.{all_plain, all_plain-append}
use orekacxx.Serializers.SingleLine.{
  escape_char, escape_single_line, plain, escaped, unescape_from, unescape_single_line,
}

unescape-escape_char :
    (c : ℕ) (rest : List ℕ)
    → unescape_from plain (escape_char c ++ rest) ≡ c ∷ unescape_from plain rest
unfolding unescape_from escape_char escaped
unescape-escape_char c rest = ground arith

unescape_from-escape : (s : List ℕ) → unescape_from plain (escape_single_line s) ≡ s
unfolding escape_single_line unescape_from
unescape_from-escape [] = refl
unescape_from-escape (c ∷ cs) =
    unescape-escape_char c (escape_single_line cs) ∙ ap (◌∷◌ c) (unescape_from-escape cs)

escape_char-plain : (c : ℕ) → all_plain b' ' (escape_char c) ≡ true
unfolding escape_char
escape_char-plain c = ground arith

escape-plain : (s : List ℕ) → all_plain b' ' (escape_single_line s) ≡ true
unfolding escape_single_line
escape-plain [] = refl
escape-plain (c ∷ cs) =
    all_plain-append b' ' (escape_char c) (escape_single_line cs) (escape_char-plain c)
      (escape-plain cs)

-- An escaped text holds no space and no equals sign, and unescaping it gives the text back.
pub escape_single_line_lem :
    (s : List ℕ)
    → (all_plain b' ' (escape_single_line s) ≡ true)
      × (unescape_single_line (escape_single_line s) ≡ s)
unfolding unescape_single_line
escape_single_line_lem s = (escape-plain s, unescape_from-escape s)
