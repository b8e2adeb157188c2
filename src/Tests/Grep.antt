-- ===== src/Tests/Grep.antt =====
-- A regular expression and texts.
use hyu_ele.Base.{◌≡◌, refl, ◌↔◌, true, false, [], ◌∷◌}
use hyu_ele.Grep.{matchhere, matchstar, match_loop, regex_match}
use hyu_ele.Grep.Language.{Found, regex_match-Found}

-- `b*.$` finds "abc", and `^b` does not.
finds_later : regex_match (98 ∷ 42 ∷ 46 ∷ 36 ∷ []) (97 ∷ 98 ∷ 99 ∷ []) ≡ true
unfolding regex_match match_loop matchhere matchstar
finds_later = refl

not_at_start : regex_match (94 ∷ 98 ∷ []) (97 ∷ 98 ∷ 99 ∷ []) ≡ false
unfolding regex_match match_loop matchhere matchstar
not_at_start = refl

regex_match-Found_example :
    (regex_match (98 ∷ 42 ∷ 46 ∷ 36 ∷ []) (97 ∷ 98 ∷ 99 ∷ []) ≡ true)
    ↔ Found (98 ∷ 42 ∷ 46 ∷ 36 ∷ []) (97 ∷ 98 ∷ 99 ∷ [])
regex_match-Found_example = regex_match-Found (98 ∷ 42 ∷ 46 ∷ 36 ∷ []) (97 ∷ 98 ∷ 99 ∷ [])
