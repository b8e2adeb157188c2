-- ===== src/Grep/Language.antt =====
-- The texts that a regular expression of grep finds, and that match finds exactly these.
use hyu_ele.Base.{
  ℕ, ◌≡◌, refl, sym, ◌∙◌, ap, ◌==◌, ==_iff, Bool, true, false, Bool-cases, ◌||◌, if◌then◌else◌,
  List, [], ◌∷◌, ◌++◌, ◌⊎◌, inl, inr, ◌↔◌,
}
use hyu_ele.Grep.{
  star, dot, caret, dollar, matchstar, matchone, is_end, matchhere, match_loop, regex_match,
}

-- The pieces of a regular expression, in order: a character, a character repeated any number of times,
-- and the end of the text.
pub data Pattern : Type 0 where
  done : Pattern
  at_end : Pattern
  one : ℕ → Pattern → Pattern
  many : ℕ → Pattern → Pattern

-- A star behind a character repeats it, and a dollar sign is the end where it is last; both stand for
-- themselves elsewhere.
abbrev pub parse : List ℕ → Pattern
parse [] = done
parse (c ∷ []) = if c == dollar then at_end else one c done
parse (c ∷ d ∷ re) =
    let repeated = many c (parse re) in
    let single = one c (parse (d ∷ re)) in if d == star then repeated else single

-- A dot admits every character.
abbrev pub Admits : ℕ → ℕ → Type 0
Admits c x = (c ≡ dot) ⊎ (c ≡ x)

abbrev pub AllAdmitted : ℕ → List ℕ → Type 0
AllAdmitted c [] = Unit {0}
AllAdmitted c (x ∷ u) = Admits c x × AllAdmitted c u

-- The text begins with an instance of the pattern.
abbrev pub Begins : Pattern → List ℕ → Type 0
Begins done text = Unit {0}
Begins at_end text = text ≡ []
Begins (one c p) text = (x : ℕ) × (t : List ℕ) × (text ≡ x ∷ t) × Admits c x × Begins p t
Begins (many c p) text =
    (u : List ℕ) × (t : List ℕ) × (text ≡ u ++ t) × AllAdmitted c u × Begins p t

abbrev pub Occurs : Pattern → List ℕ → Type 0
Occurs p text = (u : List ℕ) × (t : List ℕ) × (text ≡ u ++ t) × Begins p t

-- What a regular expression finds: an instance at the start of the text behind a caret, and anywhere
-- in it otherwise.
abbrev pub Found : List ℕ → List ℕ → Type 0
Found [] text = Occurs done text
Found (c ∷ re) text = if c == caret then Begins (parse re) text else Occurs (parse (c ∷ re)) text

either_true : (a b : Bool) → (a || b) ≡ true → a ≡ true ⊎ b ≡ true
either_true true b h = inl refl
either_true false b h = inr h

true_either : (a b : Bool) → a ≡ true ⊎ b ≡ true → (a || b) ≡ true
true_either true b h = refl
true_either false b (inl h) = absurd (cc h)
true_either false b (inr h) = h

repeats-Admits : (c x : ℕ) → (x == c || c == dot) ≡ true → Admits c x
repeats-Admits c x h = elim (either_true (x == c) (c == dot) h) [
  | inl a ↦ inr (sym ((==_iff x c).0 a))
  | inr a ↦ inl ((==_iff c dot).0 a)
]

Admits-repeats : (c x : ℕ) → Admits c x → (x == c || c == dot) ≡ true
Admits-repeats c x (inl e) = true_either (x == c) (c == dot) (inr ((==_iff c dot).1 e))
Admits-repeats c x (inr e) = true_either (x == c) (c == dot) (inl ((==_iff x c).1 (sym e)))

matches-Admits : (c x : ℕ) → (c == dot || c == x) ≡ true → Admits c x
matches-Admits c x h = elim (either_true (c == dot) (c == x) h) [
  | inl a ↦ inl ((==_iff c dot).0 a)
  | inr a ↦ inr ((==_iff c x).0 a)
]

Admits-matches : (c x : ℕ) → Admits c x → (c == dot || c == x) ≡ true
Admits-matches c x (inl e) = true_either (c == dot) (c == x) (inl ((==_iff c dot).1 e))
Admits-matches c x (inr e) = true_either (c == dot) (c == x) (inr ((==_iff c x).1 e))

module _ (here : List ℕ → Bool) (P : List ℕ → Type 0) (sound : (t : List ℕ) → here t ≡ true → P t)
    (complete : (t : List ℕ) → P t → here t ≡ true) where
  matchstar_sound :
      (c : ℕ) (text : List ℕ)
      → matchstar here c text ≡ true
      → (u : List ℕ) × (t : List ℕ) × (text ≡ u ++ t) × AllAdmitted c u × P t
  unfolding matchstar
  matchstar_sound c [] h = ([], [], refl, tt, sound [] h)
  matchstar_sound c (x ∷ text) h = elim (Bool-cases (here (x ∷ text))) [
    | inl a ↦ ([], x ∷ text, refl, tt, sound (x ∷ text) a)
    | inr a ↦ elim (Bool-cases (x == c || c == dot)) [
      | inl b ↦
          let later : matchstar here c text ≡ true = sym (rw (a, b) refl) ∙ h in
          let (u, t, e, all, p) = matchstar_sound c text later in
          (x ∷ u, t, ap (λ l. x ∷ l) e, (repeats-Admits c x b, all), p)
      | inr b ↦ let none_left : false ≡ true = sym (rw (a, b) refl) ∙ h in absurd (cc none_left)
    ]
  ]

  matchstar_complete :
      (c : ℕ) (u t : List ℕ) → AllAdmitted c u → P t → matchstar here c (u ++ t) ≡ true
  unfolding matchstar
  matchstar_complete c [] [] a p = complete [] p
  matchstar_complete c [] (x ∷ t) a p = rw (complete (x ∷ t) p) refl
  matchstar_complete c (x ∷ u) t (a, rest) p = elim (Bool-cases (here (x ∷ u ++ t))) [
    | inl b ↦ rw b refl
    | inr b ↦ rw (b, Admits-repeats c x a) (matchstar_complete c u t rest p)
  ]

  matchone_sound :
      (c : ℕ) (text : List ℕ)
      → matchone here c text ≡ true
      → (x : ℕ) × (t : List ℕ) × (text ≡ x ∷ t) × Admits c x × P t
  matchone_sound c [] h = absurd (cc h)
  matchone_sound c (x ∷ text) h = elim (Bool-cases (c == dot || c == x)) [
    | inl a ↦
        let later : here text ≡ true = sym (rw a refl) ∙ h in
        (x, text, refl, matches-Admits c x a, sound text later)
    | inr a ↦ let none_left : false ≡ true = sym (rw a refl) ∙ h in absurd (cc none_left)
  ]

  matchone_complete : (c x : ℕ) (t : List ℕ) → Admits c x → P t → matchone here c (x ∷ t) ≡ true
  matchone_complete c x t a p = rw (Admits-matches c x a) (complete t p)

matchstar_iff :
    (here : List ℕ → Bool) (P : List ℕ → Type 0)
    → ((t : List ℕ) → (here t ≡ true) ↔ P t)
    → (c : ℕ) (text : List ℕ)
    → (matchstar here c text ≡ true)
      ↔ ((u : List ℕ) × (t : List ℕ) × (text ≡ u ++ t) × AllAdmitted c u × P t)
matchstar_iff here P iff c text = (
  matchstar_sound here P (λ t. (iff t).0) (λ t. (iff t).1) c text,
  λ (u, t, e, all, p).
      rw e (matchstar_complete here P (λ t. (iff t).0) (λ t. (iff t).1) c u t all p),
)

matchone_iff :
    (here : List ℕ → Bool) (P : List ℕ → Type 0)
    → ((t : List ℕ) → (here t ≡ true) ↔ P t)
    → (c : ℕ) (text : List ℕ)
    → (matchone here c text ≡ true) ↔ ((x : ℕ) × (t : List ℕ) × (text ≡ x ∷ t) × Admits c x × P t)
matchone_iff here P iff c text = (
  matchone_sound here P (λ t. (iff t).0) (λ t. (iff t).1) c text,
  λ (x, t, e, a, p). rw e (matchone_complete here P (λ t. (iff t).0) (λ t. (iff t).1) c x t a p),
)

is_end_sound : (text : List ℕ) → is_end text ≡ true → text ≡ []
is_end_sound [] h = refl
is_end_sound (x ∷ text) h = absurd (cc h)

is_end_complete : (text : List ℕ) → text ≡ [] → is_end text ≡ true
is_end_complete text e = rw e refl

-- matchhere decides whether the text begins with an instance.
matchhere-Begins : (re text : List ℕ) → (matchhere re text ≡ true) ↔ Begins (parse re) text
unfolding matchhere
matchhere-Begins [] text = (λ h. tt, λ b. refl)
matchhere-Begins (c ∷ []) text = elim (Bool-cases (c == dollar)) [
  | inl e ↦ rw e (is_end_sound text, is_end_complete text)
  | inr e ↦ rw e (matchone_iff (λ t. true) (λ t. Unit {0}) (λ t. (λ h. tt, λ b. refl)) c text)
]
matchhere-Begins (c ∷ d ∷ re) text = elim (Bool-cases (d == star)) [
  | inl e ↦
      rw e (matchstar_iff (λ t. matchhere re t) (Begins (parse re)) (matchhere-Begins re) c text)
  | inr e ↦ rw e (
      matchone_iff (λ t. matchhere (d ∷ re) t) (Begins (parse (d ∷ re))) (matchhere-Begins (d ∷ re))
        c text)
]

match_loop_sound : (re text : List ℕ) → match_loop re text ≡ true → Occurs (parse re) text
unfolding match_loop
match_loop_sound re [] h = ([], [], refl, (matchhere-Begins re []).0 h)
match_loop_sound re (x ∷ text) h = elim (Bool-cases (matchhere re (x ∷ text))) [
  | inl a ↦ ([], x ∷ text, refl, (matchhere-Begins re (x ∷ text)).0 a)
  | inr a ↦
      let later : match_loop re text ≡ true = sym (rw a refl) ∙ h in
      let (u, t, e, b) = match_loop_sound re text later in (x ∷ u, t, ap (λ l. x ∷ l) e, b)
]

match_loop_complete : (re u t : List ℕ) → Begins (parse re) t → match_loop re (u ++ t) ≡ true
unfolding match_loop
match_loop_complete re [] [] b = (matchhere-Begins re []).1 b
match_loop_complete re [] (x ∷ t) b = rw ((matchhere-Begins re (x ∷ t)).1 b) refl
match_loop_complete re (x ∷ u) t b = elim (Bool-cases (matchhere re (x ∷ u ++ t))) [
  | inl a ↦ rw a refl
  | inr a ↦ rw a (match_loop_complete re u t b)
]

match_loop-Occurs : (re text : List ℕ) → (match_loop re text ≡ true) ↔ Occurs (parse re) text
match_loop-Occurs re text =
    (match_loop_sound re text, λ (u, t, e, b). rw e (match_loop_complete re u t b))

-- match returns true exactly where the regular expression finds the text: behind a caret where the text
-- begins with an instance of the expression, and otherwise where an instance occurs in the text.
pub regex_match-Found : (re text : List ℕ) → (regex_match re text ≡ true) ↔ Found re text
unfolding regex_match
regex_match-Found [] text = match_loop-Occurs [] text
regex_match-Found (c ∷ re) text = elim (Bool-cases (c == caret)) [
  | inl e ↦ rw e (matchhere-Begins re text)
  | inr e ↦ rw e (match_loop-Occurs (c ∷ re) text)
]
