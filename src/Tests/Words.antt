-- ===== src/Tests/Words.antt =====
-- Words and addresses in a message, for ParsingUtils.cpp.
use orekacxx.Common.{ℕ, ◌+◌, ◌≡◌, refl, false, List, [], ◌++◌, replicate, arith}
use orekacxx.Common.Outcome.{done}
use orekacxx.Serializers.Chars.{codes, contains, is_alnum}
use orekacxx.Parsing.{
  in_token, grab_token_skip_leading_whitespaces, grab_sip_uri_user, grab_sip_uri_domain,
  grab_alpha_num_token,
}
use orekacxx.Parsing.Longest.{IsLongest, grab_token_skip_leading_whitespaces-IsLongest}
use orekacxx.Parsing.Address.{grab_sip_uri-parts}
use orekacxx.Parsing.Name.{grab_sip_name}
use orekacxx.Parsing.Name.Quoted.{grab_sip_name-quoted}
use orekacxx.Parsing.Overrun.{grab_alpha_num_token-overrun}

grab_token_skip_leading_whitespaces-IsLongest_example :
    (w : List ℕ) × (grab_token_skip_leading_whitespaces
        (replicate 2 32 ++ codes "INVITE sip")
        (2 + 8)
      ≡ done w)
    × IsLongest in_token (codes "INVITE sip") 8 w
grab_token_skip_leading_whitespaces-IsLongest_example =
    grab_token_skip_leading_whitespaces-IsLongest 2 (codes "INVITE sip") 8 refl (omega arith)

grab_sip_uri-parts_example :
    (grab_sip_uri_user (codes "  bob@ex.org>") 12 ≡ done (codes "bob"))
    × (grab_sip_uri_domain (codes "  bob@ex.org>") 12 ≡ done (codes "ex.org"))
unfolding is_alnum
grab_sip_uri-parts_example =
    grab_sip_uri-parts 2 (codes "bob") (codes "ex.org") 62 [] 10 (refl, (refl, (refl, tt)))
      (refl, (refl, (refl, (refl, (refl, (refl, tt)))))) refl (omega arith)

grab_alpha_num_token-overrun_example : grab_alpha_num_token (codes "ab12 ") 2 ≡ done (codes "ab12")
unfolding is_alnum
grab_alpha_num_token-overrun_example =
    grab_alpha_num_token-overrun 97 98 [] (codes "12") 32 [] (refl, (refl, tt)) (refl, (refl, tt))
      refl

no_bracket : contains 60 (codes "Ann B.") ≡ false
unfolding contains
no_bracket = refl

grab_sip_name-quoted_example :
    grab_sip_name (codes " \"Ann B.\" <sip:ann@x>") 20 ≡ done (codes "Ann B.")
grab_sip_name-quoted_example =
    grab_sip_name-quoted 1 (codes "Ann B.") (codes "ann@x>") 19 no_bracket (omega arith)
