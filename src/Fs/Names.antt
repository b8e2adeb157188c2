-- ===== src/Fs/Names.antt =====
-- The elements of a path name: skipelem of xv6-public/fs.c. A string is the list of its characters
-- before the zero that ends it.
use mathlib.Core.Path.{subst}
use mathlib.Core.List.{append-nil}
use hyu_ele.Base.{
  ℕ, ◌≡◌, ◌≢◌, refl, sym, ◌∙◌, ap, ◌==◌, ==_iff, false, Bool-cases, if◌then◌else◌, List, [], ◌∷◌,
  ◌++◌, Option, none, some, take, length, length-take, ◌⊎◌, inl, inr, All, All-left, All-right,
  update, zero, suc, ◌+◌, ◌≤◌, ◌<◌, leb, true, ==_of_ne, dec_lt, arith,
}
use hyu_ele.Str.{Memory, text}

abbrev pub slash : ℕ
slash = 47

abbrev pub dirsiz : ℕ
dirsiz = 14

unfoldable pub skip_slashes : List ℕ → List ℕ
skip_slashes [] = []
skip_slashes (c ∷ path) = let rest = skip_slashes path in if c == slash then rest else c ∷ path

-- The characters before the next slash, and what follows them.
unfoldable pub split_element : List ℕ → List ℕ × List ℕ
split_element [] = ([], [])
split_element (c ∷ path) =
    let (s, rest) = split_element path in if c == slash then ([], c ∷ path) else (c ∷ s, rest)

-- memmove of `n` bytes of a string to place `i` of a buffer outside of it; behind the string stands its
-- zero.
unfoldable pub copy_chars : ℕ → List ℕ → ℕ → Memory → Memory
copy_chars zero s i name = name
copy_chars (suc n) [] i name = copy_chars n [] (i + 1) (update name i 0)
copy_chars (suc n) (c ∷ s) i name = copy_chars n s (i + 1) (update name i c)

-- The part of skipelem behind the leading slashes: the rest of the path and the buffer `name`.
unfoldable pub take_element : List ℕ → Memory → Option (List ℕ × Memory)
take_element [] name = none
take_element (c ∷ path) name =
    let s = c ∷ path in
    let (element, rest) = split_element s in
    let len = length element in
    some (
      skip_slashes rest,
      (if leb dirsiz len
          then copy_chars dirsiz s 0 name
          else update (copy_chars len s 0 name) len 0),
    )

unfoldable pub skipelem : List ℕ → Memory → Option (List ℕ × Memory)
skipelem path name = take_element (skip_slashes path) name

abbrev pub AllSlashes : List ℕ → Type 0
AllSlashes = All (λ c. c ≡ slash)

abbrev pub NoSlash : List ℕ → Type 0
NoSlash = All (λ c. c ≢ slash)

-- The string is empty or goes on with another character than a slash, or with a slash.
abbrev pub NotAtSlash : List ℕ → Type 0
NotAtSlash [] = Unit {0}
NotAtSlash (c ∷ path) = c ≢ slash

abbrev pub AtSlash : List ℕ → Type 0
AtSlash [] = Unit {0}
AtSlash (c ∷ path) = c ≡ slash

apart : (c : ℕ) → (c == slash) ≡ false → c ≢ slash
apart c h e = let t = (==_iff c slash).1 e in cc (t, h)

skip_slashes-splits :
    (path : List ℕ)
    → (lead : List ℕ) × (path ≡ lead ++ skip_slashes path)
      × AllSlashes lead
      × NotAtSlash (skip_slashes path)
unfolding skip_slashes
skip_slashes-splits [] = ([], refl, tt, tt)
skip_slashes-splits (c ∷ path) = elim (Bool-cases (c == slash)) [
  | inl h ↦
      let (lead, e, all, n) = skip_slashes-splits path in
      (c ∷ lead, rw h (ap (λ l. c ∷ l) e), ((==_iff c slash).0 h, all), rw h n)
  | inr h ↦ ([], rw h refl, tt, rw h (apart c h))
]

split_element-splits :
    (path : List ℕ)
    → (path ≡ (split_element path).0 ++ (split_element path).1)
      × NoSlash (split_element path).0
      × AtSlash (split_element path).1
unfolding split_element
split_element-splits [] = (refl, tt, tt)
split_element-splits (c ∷ path) = elim (Bool-cases (c == slash)) [
  | inl h ↦ rw h (refl, tt, (==_iff c slash).0 h)
  | inr h ↦
      let (e, all, at) = split_element-splits path in rw h (ap (λ l. c ∷ l) e, (apart c h, all), at)
]

-- `path` is slashes, the element `s`, slashes and `rest`, split where its slashes are.
pub record Element (path s rest : List ℕ) : Type 0 where
  pub lead : List ℕ
  pub gap : List ℕ
  pub whole : path ≡ lead ++ (s ++ (gap ++ rest))
  pub lead_slashes : AllSlashes lead
  pub some_chars : s ≢ []
  pub no_slash : NoSlash s
  pub gap_slashes : AllSlashes gap
  pub rest_start : NotAtSlash rest
  pub divided : gap ≡ [] → rest ≡ []

both_starts : (path : List ℕ) → AtSlash path → NotAtSlash path → path ≡ []
both_starts [] a n = refl
both_starts (c ∷ path) a n = absurd (n a)

split_element-nonempty : (c : ℕ) (path : List ℕ) → c ≢ slash → (split_element (c ∷ path)).0 ≢ []
unfolding split_element
split_element-nonempty c path n e = elim (Bool-cases (c == slash)) [
  | inl h ↦ n ((==_iff c slash).0 h)
  | inr h ↦ let nothing : c ∷ (split_element path).0 ≡ [] = sym (rw h refl) ∙ e in cc nothing
]

abbrev NonZero : ℕ → Type 0
NonZero c = c ≢ 0

-- The buffer has the characters `s` from place `i` on.
abbrev Holds : Memory → ℕ → List ℕ → Type 0
Holds m i [] = Unit {0}
Holds m i (c ∷ s) = (m i ≡ c) × Holds m (i + 1) s

copy_chars-before : (n : ℕ) (s : List ℕ) (i k : ℕ) (m : Memory) → k < i → copy_chars n s i m k ≡ m k
unfolding copy_chars
copy_chars-before zero s i k m h = refl
copy_chars-before (suc n) [] i k m h =
    copy_chars-before n [] (i + 1) k (update m i 0) (omega arith)
    ∙ rw (==_of_ne k i (λ e. omega arith)) refl
copy_chars-before (suc n) (c ∷ s) i k m h =
    copy_chars-before n s (i + 1) k (update m i c) (omega arith)
    ∙ rw (==_of_ne k i (λ e. omega arith)) refl

copy_chars-after :
    (n : ℕ) (s : List ℕ) (i k : ℕ) (m : Memory) → i + n ≤ k → copy_chars n s i m k ≡ m k
unfolding copy_chars
copy_chars-after zero s i k m h = refl
copy_chars-after (suc n) [] i k m h =
    copy_chars-after n [] (i + 1) k (update m i 0) (omega arith)
    ∙ rw (==_of_ne k i (λ e. omega arith)) refl
copy_chars-after (suc n) (c ∷ s) i k m h =
    copy_chars-after n s (i + 1) k (update m i c) (omega arith)
    ∙ rw (==_of_ne k i (λ e. omega arith)) refl

copy_chars-Holds :
    (n : ℕ) (s rest : List ℕ) (i : ℕ) (m : Memory)
    → Holds (copy_chars n (s ++ rest) i m) i (take n s)
unfolding copy_chars
copy_chars-Holds zero s rest i m = tt
copy_chars-Holds (suc n) [] rest i m = tt
copy_chars-Holds (suc n) (c ∷ s) rest i m = (
  copy_chars-before n (s ++ rest) (i + 1) i (update m i c) (omega arith)
      ∙ rw ((==_iff i i).1 refl) refl,
  copy_chars-Holds n s rest (i + 1) (update m i c),
)

Holds-update :
    (s : List ℕ) (m : Memory) (i k v : ℕ)
    → i + length s ≤ k
    → Holds m i s
    → Holds (update m k v) i s
Holds-update [] m i k v h a = tt
Holds-update (c ∷ s) m i k v h a =
    (rw (==_of_ne i k (λ e. omega arith)) a.0, Holds-update s m (i + 1) k v (omega arith) a.1)

text-Holds :
    (k : ℕ) (s : List ℕ) (m : Memory) (i : ℕ)
    → Holds m i s
    → All NonZero s
    → (length s ≡ k) ⊎ ((length s < k) × (m (i + length s) ≡ 0))
    → text k m i ≡ s
unfolding text
text-Holds zero [] m i a n h = refl
text-Holds zero (c ∷ s) m i a n (inl h) = absurd (omega arith)
text-Holds zero (c ∷ s) m i a n (inr h) = absurd (omega (arith, h.0))
text-Holds (suc k) [] m i a n (inl h) = absurd (omega arith)
text-Holds (suc k) [] m i a n (inr h) =
    let at : m i ≡ 0 = subst (λ x. m x ≡ 0) (omega arith) h.1 in rw ((==_iff (m i) 0).1 at) refl
text-Holds (suc k) (c ∷ s) m i a n h =
    let fits : (length s ≡ k) ⊎ ((length s < k) × (m (i + 1 + length s) ≡ 0)) = elim h [
      | inl e ↦ inl (omega arith)
      | inr e ↦ inr (omega (arith, e.0), subst (λ x. m x ≡ 0) (omega arith) e.1)
    ] in
    let rest = text-Holds k s m (i + 1) a.1 n.1 fits in
    rw (==_of_ne (m i) 0 (λ z. n.0 (sym a.0 ∙ z)), a.0, rest) refl

All-take : (k : ℕ) (s : List ℕ) → All NonZero s → All NonZero (take k s)
All-take zero s a = tt
All-take (suc k) [] a = tt
All-take (suc k) (c ∷ s) a = (a.0, All-take k s a.1)

take_all : (k : ℕ) (s : List ℕ) → length s ≤ k → take k s ≡ s
take_all zero [] h = refl
take_all zero (c ∷ s) h = absurd (omega arith)
take_all (suc k) [] h = refl
take_all (suc k) (c ∷ s) h = ap (λ l. c ∷ l) (take_all k s (omega arith))

-- The buffer is the string `take dirsiz s`, and behind its first DIRSIZ bytes it is as it was.
abbrev pub Named : List ℕ → Memory → Memory → Type 0
Named s name name' =
    (text dirsiz name' 0 ≡ take dirsiz s) × ((k : ℕ) → name' (dirsiz + k) ≡ name (dirsiz + k))

copy-Named :
    (s rest : List ℕ) (name : Memory)
    → All NonZero s
    → Named s name (
        if leb dirsiz (length s)
        then copy_chars dirsiz (s ++ rest) 0 name
        else update (copy_chars (length s) (s ++ rest) 0 name) (length s) 0)
copy-Named s rest name nz = elim (dec_lt (length s) dirsiz) [
  | yes short ↦
      let test : leb dirsiz (length s) ≡ false = ground arith in
      let copied : Memory = copy_chars (length s) (s ++ rest) 0 name in
      let has : Holds copied 0 s =
        subst (Holds copied 0) (take_all (length s) s (omega arith))
          (copy_chars-Holds (length s) s rest 0 name) in
      let same : (length s == length s) ≡ true = (==_iff (length s) (length s)).1 refl in
      let ends : update copied (length s) 0 (0 + length s) ≡ 0 =
        (let plus : length s ≡ 0 + length s = omega arith in
          subst (λ k. update copied (length s) 0 k ≡ 0) plus (rw same refl)) in
      rw test (
        text-Holds dirsiz s (update copied (length s) 0) 0
              (Holds-update s copied 0 (length s) 0 (omega arith) has) nz (inr (short, ends))
            ∙ sym (take_all dirsiz s (omega arith)),
        λ k.
            rw (==_of_ne (dirsiz + k) (length s) (λ e. omega arith))
              (copy_chars-after (length s) (s ++ rest) 0 (dirsiz + k) name (omega arith)),
      )
  | no long ↦
      let test : leb dirsiz (length s) ≡ true = ground arith in
      rw test (
        text-Holds dirsiz (take dirsiz s) (copy_chars dirsiz (s ++ rest) 0 name) 0
            (copy_chars-Holds dirsiz s rest 0 name) (All-take dirsiz s nz)
            (inl (omega (arith, length-take dirsiz s))),
        λ k. copy_chars-after dirsiz (s ++ rest) 0 (dirsiz + k) name (omega arith),
      )
]

take_element-Element :
    (path lead p : List ℕ) (name : Memory)
    → All NonZero path
    → path ≡ lead ++ p
    → AllSlashes lead
    → NotAtSlash p
    → (AllSlashes path × (take_element p name ≡ none))
      ⊎ ((s rest : List ℕ) × (name' : Memory) × Element path s rest
          × Named s name name'
          × (take_element p name ≡ some (rest, name')))
unfolding take_element
take_element-Element path lead [] name nz e all n =
    inl (subst AllSlashes (sym (e ∙ append-nil lead)) all, refl)
take_element-Element path lead (c ∷ p) name nz e all n =
    let here_nz = All-right NonZero lead (c ∷ p) (subst (All NonZero) e nz) in
    let (whole, chars, at) = split_element-splits (c ∷ p) in
    let behind = (split_element (c ∷ p)).1 in
    let (gap, whole', slashes, start) = skip_slashes-splits behind in
    let s = (split_element (c ∷ p)).0 in
    let len = length s in
    let name' : Memory =
      if leb dirsiz len
      then copy_chars dirsiz (c ∷ p) 0 name
      else update (copy_chars len (c ∷ p) 0 name) len 0 in
    let called : Named s name name' =
      subst
        (λ l. Named s name (
          if leb dirsiz len
          then copy_chars dirsiz l 0 name
          else update (copy_chars len l 0 name) len 0))
        (sym whole)
        (copy-Named s behind name
          (All-left NonZero s behind (subst (All NonZero) whole here_nz))) in
    inr (
      s,
      skip_slashes behind,
      name',
      record {
        lead = lead;
        gap = gap;
        whole = e ∙ ap (λ l. lead ++ l) (whole ∙ ap (λ l. (split_element (c ∷ p)).0 ++ l) whole');
        lead_slashes = all;
        some_chars = split_element-nonempty c p n;
        no_slash = chars;
        gap_slashes = slashes;
        rest_start = start;
        divided = λ z.
            let same : behind ≡ skip_slashes behind =
              whole' ∙ ap (λ l. l ++ skip_slashes behind) z in
            both_starts (skip_slashes behind) (subst AtSlash same at) start;
      },
      called,
      refl,
    )

-- For a path without a zero: skipelem finds no element exactly in a path of slashes alone; else it
-- returns what follows the first element and the slashes behind it, and leaves in the buffer the string
-- of the first DIRSIZ characters of that element, as strncmp reads it, and writes nothing behind the
-- first DIRSIZ bytes.
pub skipelem-Element :
    (path : List ℕ) (name : Memory)
    → All (λ c. c ≢ 0) path
    → (AllSlashes path × (skipelem path name ≡ none))
      ⊎ ((s rest : List ℕ) × (name' : Memory) × Element path s rest
          × Named s name name'
          × (skipelem path name ≡ some (rest, name')))
unfolding skipelem
skipelem-Element path name nz =
    let (lead, e, all, n) = skip_slashes-splits path in
    take_element-Element path lead (skip_slashes path) name nz e all n
