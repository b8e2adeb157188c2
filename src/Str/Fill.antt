-- ===== src/Str/Fill.antt =====
-- memset, with bytes and with words.
use hyu_ele.Base.{
  ℕ, zero, suc, ◌+◌, ◌*◌, ◌/◌, ◌%◌, ◌<◌, ◌≡◌, refl, ◌∙◌, ltb, ◌==◌, Bool-cases, ◌&&◌, if◌then◌else◌,
  update, arith, inl, inr,
}
use hyu_ele.Str.{Memory, stosb, stosl, put_long, memset}

-- The bytes `m` gives, but the `n` from `dst` on are `b`.
abbrev pub filled : ℕ → ℕ → ℕ → Memory → Memory
filled dst b n m j = if ltb j dst then m j else if ltb j (dst + n) then b else m j

stosb-filled : (n d c : ℕ) (m : Memory) (j : ℕ) → stosb n d c m j ≡ filled d (c % 256) n m j
unfolding stosb
stosb-filled zero d c m j = ground arith
stosb-filled (suc n) d c m j = stosb-filled n (d + 1) c (update m d (c % 256)) j ∙ ground arith

abbrev four : ℕ → ℕ
four b = b * 16777216 + b * 65536 + b * 256 + b

put_long-filled :
    (d b : ℕ) (m : Memory) (j : ℕ) → b < 256 → put_long m d (four b) j ≡ filled d b 4 m j
put_long-filled d b m j h =
    let e0 : four b % 256 ≡ b = omega arith in
    let e1 : four b / 256 % 256 ≡ b = omega arith in
    let e2 : four b / 65536 % 256 ≡ b = omega arith in
    let e3 : four b / 16777216 % 256 ≡ b = omega arith in rw (e0, e1, e2, e3) (ground arith)

stosl-filled :
    (n d b : ℕ) (m : Memory) (j : ℕ) → b < 256 → stosl n d (four b) m j ≡ filled d b (n * 4) m j
unfolding stosl
stosl-filled zero d b m j h = ground arith
stosl-filled (suc n) d b m j h =
    let step = put_long-filled d b m j h in
    stosl-filled n (d + 4) b (put_long m d (four b)) j h ∙ rw step (ground arith)

-- memset sets its `n` bytes to the low byte of `c`, whether it stores bytes or words, and no other
-- byte changes.
pub memset-filled :
    (dst c n : ℕ) (m : Memory) (j : ℕ) → memset dst c n m j ≡ filled dst (c % 256) n m j
unfolding memset
memset-filled dst c n m j = elim (Bool-cases (dst % 4 == 0 && n % 4 == 0)) [
  | inr h ↦ rw h (stosb-filled n dst c m j)
  | inl h ↦
      let whole : n / 4 * 4 ≡ n = ground arith in
      let low : c % 256 < 256 = omega arith in
      rw h (stosl-filled (n / 4) dst (c % 256) m j low ∙ rw whole refl)
]
