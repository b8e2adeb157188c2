-- ===== src/Grep.antt =====
-- The regular expressions of xv6-public/grep.c. A string is the list of its characters before the zero
-- that ends it, so that reading at its end gives 0, which is none of the characters tested for.
pub mod Language
use hyu_ele.Base.{ℕ, ◌==◌, Bool, true, false, ◌&&◌, ◌||◌, if◌then◌else◌, List, [], ◌∷◌}

abbrev pub star : ℕ
star = 42

abbrev pub dot : ℕ
dot = 46

abbrev pub caret : ℕ
caret = 94

abbrev pub dollar : ℕ
dollar = 36

-- matchstar(c, re, text), where `here` is matchhere(re, _).
unfoldable pub matchstar : (List ℕ → Bool) → ℕ → List ℕ → Bool
matchstar here c [] = here []
matchstar here c (x ∷ text) =
    let rest = matchstar here c text in
    if here (x ∷ text) then true else if x == c || c == dot then rest else false

-- The last test of matchhere, where `here` is matchhere(re + 1, _).
abbrev pub matchone : (List ℕ → Bool) → ℕ → List ℕ → Bool
matchone here c [] = false
matchone here c (x ∷ text) = if c == dot || c == x then here text else false

abbrev pub is_end : List ℕ → Bool
is_end [] = true
is_end (x ∷ text) = false

unfoldable pub matchhere : List ℕ → List ℕ → Bool
matchhere [] text = true
matchhere (c ∷ []) text = if c == dollar then is_end text else matchone (λ t. true) c text
matchhere (c ∷ d ∷ re) text =
    let repeated = matchstar (λ t. matchhere re t) c text in
    let single = matchone (λ t. matchhere (d ∷ re) t) c text in
    if d == star then repeated else single

unfoldable pub match_loop : List ℕ → List ℕ → Bool
match_loop re [] = matchhere re []
match_loop re (x ∷ text) =
    let rest = match_loop re text in if matchhere re (x ∷ text) then true else rest

unfoldable pub regex_match : List ℕ → List ℕ → Bool
regex_match [] text = match_loop [] text
regex_match (c ∷ re) text = if c == caret then matchhere re text else match_loop (c ∷ re) text
