-- ===== src/Str.antt =====
-- The memory and string functions of xv6-public/string.c. A function that writes to the memory it
-- reads from has the memory and addresses; the others have a buffer and an index for each pointer.
pub mod Move
pub mod Fill
pub mod Name
use hyu_ele.Base.{
  ℕ, zero, suc, ◌+◌, ◌-◌, ◌*◌, ◌/◌, ◌%◌, ◌==◌, ◌!=◌, ltb, ◌&&◌, if◌then◌else◌, update, List, [],
  ◌∷◌,
}
use hyu_ele.Base.Int.{ℤ, pos, sub_ℕ}

-- A byte at each address, or at each index of an array.
abbrev pub Memory : Type 0
Memory = ℕ → ℕ

-- `rep stosb` and `rep stosl` of x86.h, for the rounds that are left.
unfoldable pub stosb : ℕ → ℕ → ℕ → Memory → Memory
stosb zero addr data_byte m = m
stosb (suc cnt) addr data_byte m = stosb cnt (addr + 1) data_byte (update m addr (data_byte % 256))

abbrev pub put_long : Memory → ℕ → ℕ → Memory
put_long m a w =
    let m1 = update m a (w % 256) in
    let m2 = update m1 (a + 1) (w / 256 % 256) in
    let m3 = update m2 (a + 2) (w / 65536 % 256) in update m3 (a + 3) (w / 16777216 % 256)

unfoldable pub stosl : ℕ → ℕ → ℕ → Memory → Memory
stosl zero addr data_long m = m
stosl (suc cnt) addr data_long m = stosl cnt (addr + 4) data_long (put_long m addr data_long)

unfoldable pub memset : ℕ → ℕ → ℕ → Memory → Memory
memset dst c n m =
    let b = c % 256 in
    if dst % 4 == 0 && n % 4 == 0
    then stosl (n / 4) dst (b * 16777216 + b * 65536 + b * 256 + b) m
    else stosb n dst c m

-- The two loops of memmove, from the end and from the start.
unfoldable pub move_back : ℕ → ℕ → ℕ → Memory → Memory
move_back zero d s m = m
move_back (suc n) d s m = move_back n (d - 1) (s - 1) (update m (d - 1) (m (s - 1)))

unfoldable pub move_on : ℕ → ℕ → ℕ → Memory → Memory
move_on zero d s m = m
move_on (suc n) d s m = move_on n (d + 1) (s + 1) (update m d (m s))

unfoldable pub memmove : ℕ → ℕ → ℕ → Memory → Memory
memmove dst src n m =
    if ltb src dst && ltb dst (src + n)
    then move_back n (dst + n) (src + n) m
    else move_on n dst src m

unfoldable pub memcmp : ℕ → Memory → ℕ → Memory → ℕ → ℤ
memcmp zero p i q j = pos 0
memcmp (suc n) p i q j =
    let rest = memcmp n p (i + 1) q (j + 1) in if p i != q j then sub_ℕ (p i) (q j) else rest

unfoldable pub strncmp : ℕ → Memory → ℕ → Memory → ℕ → ℤ
strncmp zero p i q j = pos 0
strncmp (suc n) p i q j =
    let rest = strncmp n p (i + 1) q (j + 1) in
    if p i != 0 && p i == q j then rest else sub_ℕ (p i) (q j)

-- The second loop of strncpy.
unfoldable pub fill_zeros : ℕ → Memory → ℕ → Memory
fill_zeros zero s i = s
fill_zeros (suc n) s i = fill_zeros n (update s i 0) (i + 1)

unfoldable pub strncpy : ℕ → Memory → ℕ → Memory → ℕ → Memory
strncpy zero s i t j = s
strncpy (suc n) s i t j =
    let s' = update s i (t j) in
    let on = strncpy n s' (i + 1) t (j + 1) in if t j != 0 then on else fill_zeros n s' (i + 1)

-- safestrcpy with `n` counted down to one.
unfoldable pub safe_loop : ℕ → Memory → ℕ → Memory → ℕ → Memory
safe_loop zero s i t j = update s i 0
safe_loop (suc n) s i t j =
    let s' = update s i (t j) in
    let on = safe_loop n s' (i + 1) t (j + 1) in if t j != 0 then on else update s' (i + 1) 0

unfoldable pub safestrcpy : ℕ → Memory → ℕ → Memory → ℕ → Memory
safestrcpy zero s i t j = s
safestrcpy (suc n) s i t j = safe_loop n s i t j

-- The string that stands in the `n` bytes from index `i` on, up to the zero that ends it.
unfoldable pub text : ℕ → Memory → ℕ → List ℕ
text zero p i = []
text (suc n) p i = let rest = text n p (i + 1) in if p i == 0 then [] else p i ∷ rest
