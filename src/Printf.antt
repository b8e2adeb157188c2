-- ===== src/Printf.antt =====
-- printint of xv6-public/printf.c, and atoi of xv6-public/ulib.c. A string is the list of its
-- characters; what printint passes to putc is the list of them in order.
pub mod Decimal
use hyu_ele.Base.{
  ℕ, zero, suc, ◌+◌, ◌-◌, ◌*◌, ◌/◌, ◌%◌, ◌^◌, Bool, ◌==◌, ltb, leb, ◌&&◌, if◌then◌else◌, Option,
  none, some, List, [], ◌∷◌, length,
}
use hyu_ele.Base.Int.{ℤ, pos, negsuc, neg_part, pos_part, ltb_ℤ}

-- `digits[d]`
abbrev pub digit : ℕ → ℕ
digit d = if ltb d 10 then 48 + d else 55 + d

-- sizeof(buf)
abbrev pub buf_size : ℕ
buf_size = 16

-- The loop that fills `buf`, which is printed from its end, while it has room for `n` characters.
unfoldable pub put_digits : ℕ → ℕ → ℕ → List ℕ → Option (List ℕ)
put_digits zero x base buf = none
put_digits (suc n) x base buf =
    let buf' = digit (x % base) ∷ buf in
    let rest = put_digits n (x / base) base buf' in if x / base == 0 then some buf' else rest

-- The conversion of an int to a uint.
abbrev pub to_uint : ℤ → ℕ
to_uint (pos n) = n
to_uint (negsuc n) = 2 ^ 32 - (n + 1)

unfoldable pub put_sign : Bool → Option (List ℕ) → Option (List ℕ)
put_sign neg none = none
put_sign neg (some buf) =
    if neg then (if ltb (length buf) buf_size then some (45 ∷ buf) else none) else some buf

-- `none` where `buf` is too small.
unfoldable pub printint : ℤ → ℕ → Bool → Option (List ℕ)
printint xx base sgn =
    let neg = sgn && ltb_ℤ xx (pos 0) in
    let x = if neg then neg_part xx else to_uint xx in put_sign neg (put_digits buf_size x base [])

-- The loop of atoi, with the number so far. The int is held by the natural number of its 32 bits, and
-- what overflows it wraps.
unfoldable pub atoi_loop : List ℕ → ℕ → ℕ
atoi_loop [] n = n
atoi_loop (c ∷ s) n =
    let rest = atoi_loop s ((n * 10 + c - 48) % 2 ^ 32) in if leb 48 c && leb c 57 then rest else n

unfoldable pub atoi : List ℕ → ℕ
atoi s = atoi_loop s 0
