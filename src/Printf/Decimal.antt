-- ===== src/Printf/Decimal.antt =====
-- What printint prints fits its buffer, and atoi reads it back.
use mathlib.Core.Path.{subst}
use hyu_ele.Base.{
  ℕ, zero, suc, ◌+◌, ◌-◌, ◌*◌, ◌/◌, ◌%◌, ◌^◌, ◌<◌, ◌≤◌, ◌≡◌, refl, sym, ◌∙◌, ap, Bool, true, false,
  Bool-cases, ◌==◌, ==_iff, ltb_of_lt, leb, ◌&&◌, if◌then◌else◌, some, List, [], ◌∷◌, length, arith,
  ◌⊎◌, inl, inr,
}
use hyu_ele.Base.Int.{ℤ, pos, negsuc, pos_part, neg_part, ltb_ℤ}
use hyu_ele.Printf.{digit, put_digits, to_uint, put_sign, printint, atoi_loop, atoi}

abbrev tens : ℕ → ℕ
tens zero = 1
tens (suc n) = tens n * 10

-- A base at least ten takes a decimal digit off.
abbrev Shrinks : ℕ → Type 0
Shrinks base = (x b : ℕ) → x < b * 10 → x / base < b

put_digits-fit :
    (n k x base : ℕ) (buf : List ℕ)
    → Shrinks base
    → x < tens (suc k)
    → k < n
    → (out : List ℕ) × (put_digits n x base buf ≡ some out) × (length out ≤ length buf + suc k)
unfolding put_digits
put_digits-fit zero k x base buf shrinks small room = absurd (omega arith)
put_digits-fit (suc n) zero x base buf shrinks small room =
    let last : (x / base == 0) ≡ true =
      (==_iff (x / base) 0).1 (let less = shrinks x 1 small in omega arith) in
    (digit (x % base) ∷ buf, rw last refl, omega arith)
put_digits-fit (suc n) (suc k) x base buf shrinks small room =
    let (out, run, short) =
      put_digits-fit n k (x / base) base (digit (x % base) ∷ buf) shrinks
        (shrinks x (tens (suc k)) small) (omega arith) in
    elim (Bool-cases (x / base == 0)) [
      | inl z ↦ (digit (x % base) ∷ buf, rw z refl, omega arith)
      | inr z ↦ (out, rw z run, omega arith)
    ]

ten-Shrinks : Shrinks 10
ten-Shrinks x b h = omega arith

sixteen-Shrinks : Shrinks 16
sixteen-Shrinks x b h = omega arith

-- Reading a decimal digit.
atoi_digit :
    (d : ℕ) (s : List ℕ) (n : ℕ)
    → d < 10
    → n * 10 + d < 2 ^ 32
    → atoi_loop (digit d ∷ s) n ≡ atoi_loop s (n * 10 + d)
unfolding atoi_loop
atoi_digit d s n h small =
    let char : digit d ≡ 48 + d = rw (ltb_of_lt d 10 h) refl in
    let value : (n * 10 + (48 + d) - 48) % 2 ^ 32 ≡ n * 10 + d = omega arith in
    let low : leb 48 (48 + d) ≡ true = ground arith in
    let high : leb (48 + d) 57 ≡ true = ground arith in rw (char, low, high, value) refl

atoi-put_digits :
    (n x : ℕ) (buf out : List ℕ)
    → x < 2 ^ 32
    → put_digits n x 10 buf ≡ some out
    → atoi_loop out 0 ≡ atoi_loop buf x
unfolding put_digits
atoi-put_digits zero x buf out s e = absurd (cc e)
atoi-put_digits (suc n) x buf out s e = elim (Bool-cases (x / 10 == 0)) [
  | inl z ↦
      let here : digit (x % 10) ∷ buf ≡ out = (let t = rw z at e in cc t) in
      let only : 0 * 10 + x % 10 ≡ x = (let y = (==_iff (x / 10) 0).0 z in omega arith) in
      ap (λ l. atoi_loop l 0) (sym here)
      ∙ atoi_digit (x % 10) buf 0 (omega arith) (omega arith)
      ∙ ap (atoi_loop buf) only
  | inr z ↦
      let rest : put_digits n (x / 10) 10 (digit (x % 10) ∷ buf) ≡ some out = rw z at e in
      let whole : x / 10 * 10 + x % 10 ≡ x = omega arith in
      atoi-put_digits n (x / 10) (digit (x % 10) ∷ buf) out (omega arith) rest
      ∙ atoi_digit (x % 10) buf (x / 10) (omega arith) (omega arith)
      ∙ ap (atoi_loop buf) whole
]

fits :
    (base : ℕ) (x : ℕ)
    → base ≡ 10 ⊎ base ≡ 16
    → x < 10000000000
    → (out : List ℕ) × (put_digits 16 x base [] ≡ some out) × (length out ≤ 10)
fits base x (inl e) h =
    let shrinks : Shrinks base = rw e ten-Shrinks in
    put_digits-fit 16 9 x base [] shrinks (omega arith) (omega arith)
fits base x (inr e) h =
    let shrinks : Shrinks base = rw e sixteen-Shrinks in
    put_digits-fit 16 9 x base [] shrinks (omega arith) (omega arith)

uint_size :
    (xx : ℤ) (neg : Bool)
    → pos_part xx < 4294967296
    → neg_part xx ≤ 2147483648
    → (if neg then neg_part xx else to_uint xx) < 10000000000
uint_size xx true high low = omega arith
uint_size (pos n) false high low = omega arith
uint_size (negsuc n) false high low = omega arith

put_sign-fits :
    (neg : Bool) (buf : List ℕ)
    → length buf ≤ 10
    → (out : List ℕ) × (put_sign neg (some buf) ≡ some out) × (length out ≤ 11)
unfolding put_sign
put_sign-fits false buf h = (buf, refl, omega arith)
put_sign-fits true buf h =
    (45 ∷ buf, rw (ltb_of_lt (length buf) 16 (omega arith)) refl, omega arith)

-- For each int and each uint, in the bases ten and sixteen: printint stays inside its buffer of 16
-- characters, and prints at most 11.
pub printint-fits :
    (xx : ℤ) (base : ℕ) (sgn : Bool)
    → base ≡ 10 ⊎ base ≡ 16
    → pos_part xx < 4294967296
    → neg_part xx ≤ 2147483648
    → (out : List ℕ) × (printint xx base sgn ≡ some out) × (length out ≤ 11)
unfolding printint
printint-fits xx base sgn bases high low =
    let neg = sgn && ltb_ℤ xx (pos 0) in
    let size : (if neg then neg_part xx else to_uint xx) < 10000000000 =
      uint_size xx neg high low in
    let (buf, run, short) = fits base (if neg then neg_part xx else to_uint xx) bases size in
    subst (λ o. (out : List ℕ) × (put_sign neg o ≡ some out) × (length out ≤ 11)) (sym run)
      (put_sign-fits neg buf short)

put_sign_none : (neg : Bool) (buf : List ℕ) → neg ≡ false → put_sign neg (some buf) ≡ some buf
unfolding put_sign
put_sign_none neg buf e = rw e refl

printint_positive :
    (x : ℕ) (buf : List ℕ) → put_digits 16 x 10 [] ≡ some buf → printint (pos x) 10 true ≡ some buf
unfolding printint
printint_positive x buf run =
    let sign : ltb_ℤ (pos x) (pos 0) ≡ false = ground arith in
    let same : (if ltb_ℤ (pos x) (pos 0) then 0 else x) ≡ x = ground arith in
    ap (λ y. put_sign (ltb_ℤ (pos x) (pos 0)) (put_digits 16 y 10 [])) same
    ∙ ap (put_sign (ltb_ℤ (pos x) (pos 0))) run
    ∙ put_sign_none (ltb_ℤ (pos x) (pos 0)) buf sign

-- atoi reads back what printint prints in base ten of an int that is not negative.
pub atoi-printint :
    (x : ℕ)
    → x < 2147483648
    → (out : List ℕ) × (printint (pos x) 10 true ≡ some out) × (atoi out ≡ x)
unfolding atoi atoi_loop
atoi-printint x h =
    let (buf, run, short) = fits 10 x (inl refl) (omega arith) in
    (buf, printint_positive x buf run, atoi-put_digits 16 x [] buf (omega arith) run)
