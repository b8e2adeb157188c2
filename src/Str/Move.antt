-- ===== src/Str/Move.antt =====
-- memmove.
use hyu_ele.Base.{
  ℕ, zero, suc, ◌+◌, ◌-◌, ◌≤◌, ◌≡◌, refl, ◌∙◌, ltb, ltb_of_lt, ltb_of_le, if◌then◌else◌, update,
  arith, ◌⊎◌, inl, inr, dec_lt,
}
use hyu_ele.Str.{Memory, move_back, move_on, memmove}

-- The bytes `m` gives, but those from `dst` on come from `src`, for `n` bytes.
abbrev pub moved : ℕ → ℕ → ℕ → Memory → Memory
moved dst src n m j =
    if ltb j dst then m j else if ltb j (dst + n) then m (src + (j - dst)) else m j

move_on-moved :
    (n d s : ℕ) (m : Memory) (j : ℕ) → d ≤ s ⊎ s + n ≤ d → move_on n d s m j ≡ moved d s n m j
unfolding move_on
move_on-moved zero d s m j h = ground arith
move_on-moved (suc n) d s m j h =
    let rest = move_on-moved n (d + 1) (s + 1) (update m d (m s)) j (ground arith) in
    rest ∙ ground arith

move_back-moved :
    (n d s : ℕ) (m : Memory) (j : ℕ)
    → n ≤ s
    → s ≤ d
    → move_back n d s m j ≡ moved (d - n) (s - n) n m j
unfolding move_back
move_back-moved zero d s m j h i = ground arith
move_back-moved (suc n) d s m j h i =
    let rest =
      move_back-moved n (d - 1) (s - 1) (update m (d - 1) (m (s - 1))) j (omega arith)
        (omega arith) in
    rest ∙ ground arith

-- memmove copies its `n` bytes as they were before the call, also where the two ranges overlap, and
-- no other byte changes.
pub memmove-moved :
    (dst src n : ℕ) (m : Memory) (j : ℕ) → memmove dst src n m j ≡ moved dst src n m j
unfolding memmove
memmove-moved dst src n m j = elim (dec_lt src dst) [
  | no a ↦ rw (ltb_of_le src dst (omega arith)) (move_on-moved n dst src m j (inl (omega arith)))
  | yes a ↦ elim (dec_lt dst (src + n)) [
    | no b ↦
        rw (ltb_of_lt src dst a, ltb_of_le dst (src + n) (omega arith))
          (move_on-moved n dst src m j (inr (omega arith)))
    | yes b ↦
        let from : dst + n - n ≡ dst = omega arith in
        let to : src + n - n ≡ src = omega arith in
        rw (ltb_of_lt src dst a, ltb_of_lt dst (src + n) b)
          (move_back-moved n (dst + n) (src + n) m j (omega arith) (omega arith)
            ∙ rw (from, to) refl)
  ]
]
