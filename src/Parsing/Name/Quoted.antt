-- ===== src/Parsing/Name/Quoted.antt =====
-- A display name between quotation marks.
use orekacxx.Common.{
  ℕ, zero, suc, ◌+◌, ◌≤◌, ◌≡◌, refl, ap, ◌∙◌, true, false, List, [], ◌∷◌, ◌++◌, some, length,
  replicate, arith, take-all, length-append, take-append_left,
}
use orekacxx.Common.Outcome.{done}
use orekacxx.Serializers.Chars.{codes, contains}
use orekacxx.SipTcp.Search.{matches}
use orekacxx.Parsing.Longest.{skip_whitespaces-blanks}
use orekacxx.Parsing.Name.{find_clipped, sip_mark, unquoted, grab_sip_name}

-- Behind bytes that cannot start it, the mark is found where it stands.
find_clipped-plain :
    (w rest : List ℕ) (n : ℕ)
    → contains b'<' w ≡ false
    → length w + 5 ≤ n
    → find_clipped sip_mark false (w ++ (sip_mark ++ rest)) n ≡ done (some (length w))
unfolding find_clipped contains matches
find_clipped-plain [] rest zero h le = absurd (omega arith)
find_clipped-plain [] rest (suc n) h le = rw (take-all n (codes "sip:") (omega arith)) refl
find_clipped-plain (b ∷ w) rest zero h le = absurd (omega arith)
find_clipped-plain (b ∷ w) rest (suc n) h le = ground (arith, find_clipped-plain w rest n)

find_clipped-quoted :
    (w rest : List ℕ) (n : ℕ)
    → contains b'<' w ≡ false
    → suc (length w) + 5 ≤ n
    → find_clipped sip_mark true (b'"' ∷ (w ++ (sip_mark ++ rest))) n ≡ done (some (suc (length w)))
unfolding find_clipped matches
find_clipped-quoted w rest zero h le = absurd (omega arith)
find_clipped-quoted w rest (suc n) h le = rw (find_clipped-plain w rest n h (omega arith)) refl

contains-quoted :
    (name : List ℕ) → contains b'<' name ≡ false → contains b'<' (name ++ codes "\" ") ≡ false
unfolding contains
contains-quoted [] h = refl
contains-quoted (b ∷ name) h = ground (arith, contains-quoted name)

-- The closing mark and the blank are left out, and nothing before them is.
unquoted-name : (name : List ℕ) → unquoted false (name ++ codes "\" ") ≡ name
unfolding unquoted
unquoted-name [] = refl
unquoted-name (b ∷ name) = ground (arith, unquoted-name name, length-append name (codes "\" "))

unquoted_first : (r : List ℕ) → unquoted true (b'"' ∷ r) ≡ unquoted false r
unfolding unquoted
unquoted_first r = refl

-- A name between quotation marks, with blanks before it and one behind it, and the address in its
-- brackets: `GrabSipName` gives the name as it stands between the marks. The name holds no `<`, and
-- the limit is behind the mark `<sip:` or at its end.
pub grab_sip_name-quoted :
    (k : ℕ) (name rest : List ℕ) (n : ℕ)
    → contains b'<' name ≡ false
    → length name + 8 ≤ n
    → grab_sip_name (replicate k 32 ++ b'"' ∷ ((name ++ codes "\" ") ++ (sip_mark ++ rest))) (k + n)
      ≡ done name
unfolding grab_sip_name
grab_sip_name-quoted k name rest n plain le =
    let region = name ++ codes "\" " in
    rw
      (
        skip_whitespaces-blanks k (b'"' ∷ (region ++ (sip_mark ++ rest))) n refl,
        find_clipped-quoted region rest n (contains-quoted name plain)
            (omega (arith, length-append name (codes "\" "))),
      )
      (ap (λ l. done (unquoted true (b'"' ∷ l))) (take-append_left region (sip_mark ++ rest))
        ∙ ap done (unquoted_first region)
        ∙ ap done (unquoted-name name))
