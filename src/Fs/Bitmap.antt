-- ===== src/Fs/Bitmap.antt =====
-- balloc and bfree on the free map.

use hyu_ele.Base.{
  ℕ, zero, suc, ◌+◌, ◌*◌, ◌/◌, ◌%◌, ◌<◌, ◌≤◌, ◌≡◌, refl, ◌∙◌, Bool, true, false, Bool-cases, ltb,
  ltb_of_lt, ltb_of_le, if◌then◌else◌, update, arith, some, none, ◌⊎◌, inl, inr, dec_lt, [], ◌∷◌,
  ◌++◌,
}
use hyu_ele.Base.Run.{ok, panic}
use hyu_ele.Fs.{
  Fs, bsize, bpb, bblock, bit_at, mask, set_byte, bzero, take_block, balloc_bits, balloc_blocks,
  balloc,
}

-- The bit of block `c` in the free map.
abbrev pub in_use : Fs → ℕ → Bool
in_use s c = bit_at s (bblock s c) (c % bpb)

-- The state after balloc took block `c`.
abbrev pub taken : ℕ → Fs → Fs
taken c s =
    let t =
      set_byte (bblock s c) (c % bpb / 8)
        (s.data_at (bblock s c) (c % bpb / 8) + mask (c % bpb % 8)) s in
    record t {
      data_at = update t.data_at c (λ i. if ltb i bsize then 0 else t.data_at c i);
      logged = (s.logged ++ bblock s c ∷ []) ++ c ∷ [];
    }

take_block-taken :
    (s : Fs) (b bi : ℕ)
    → b % bpb ≡ 0
    → bi < bpb
    → take_block b bi s ≡ ok (some (b + bi), taken (b + bi) s)
unfolding take_block bzero
take_block-taken s b bi h l =
    let e : (b + bi) / bpb ≡ b / bpb = omega arith in
    let f : (b + bi) % bpb ≡ bi = omega arith in rw (e, f) refl

busy_at :
    (s : Fs) (b bi : ℕ) → b % bpb ≡ 0 → bi < bpb → bit_at s (bblock s b) bi ≡ in_use s (b + bi)
busy_at s b bi h l =
    let e : (b + bi) / bpb ≡ b / bpb = omega arith in
    let f : (b + bi) % bpb ≡ bi = omega arith in rw (e, f) refl

-- The least block that is not in use is `c`.
pub record IsLeast (s : Fs) (c : ℕ) : Type 0 where
  pub in_range : c < s.size
  pub unused : in_use s c ≡ false
  pub lower : (e : ℕ) → e < c → in_use s e ≡ true

balloc_bits-hit :
    (n b bi c : ℕ) (s : Fs)
    → IsLeast s c
    → b % bpb ≡ 0
    → bi + n ≡ bpb
    → b + bi ≤ c
    → c < b + bpb
    → balloc_bits n b bi s ≡ ok (some c, taken c s)
unfolding balloc_bits
balloc_bits-hit zero b bi c s l h e f g = absurd (omega arith)
balloc_bits-hit (suc n) b bi c s l h e f g = elim (dec_lt (b + bi) c) [
  | yes p ↦
      let size = l.in_range in
      rw
        (
          ltb_of_lt (b + bi) s.size (omega arith),
          busy_at s b bi h (omega arith) ∙ l.lower (b + bi) p,
        )
        (balloc_bits-hit n b (bi + 1) c s l h (omega arith) (omega arith) g)
  | no p ↦
      let size = l.in_range in
      let here : b + bi ≡ c = omega arith in
      let idle : in_use s (b + bi) ≡ false = rw here l.unused in
      rw
        (
          ltb_of_lt (b + bi) s.size (omega arith),
          busy_at s b bi h (omega arith) ∙ idle,
          take_block-taken s b bi h (omega arith),
          here,
        )
        refl
]

balloc_bits-miss :
    (n b bi : ℕ) (s : Fs)
    → b % bpb ≡ 0
    → bi + n ≡ bpb
    → ((e : ℕ) → e < b + bpb → e < s.size → in_use s e ≡ true)
    → balloc_bits n b bi s ≡ ok (none, s)
unfolding balloc_bits
balloc_bits-miss zero b bi s h e f = refl
balloc_bits-miss (suc n) b bi s h e f = elim (dec_lt (b + bi) s.size) [
  | yes p ↦
      rw (ltb_of_lt (b + bi) s.size p, busy_at s b bi h (omega arith) ∙ f (b + bi) (omega arith) p)
        (balloc_bits-miss n b (bi + 1) s h (omega arith) f)
  | no p ↦ rw (ltb_of_le (b + bi) s.size (omega arith)) refl
]

balloc_blocks-hit :
    (n b c : ℕ) (s : Fs)
    → IsLeast s c
    → b % bpb ≡ 0
    → b ≤ c
    → c < b + n * bpb
    → balloc_blocks n b s ≡ ok (c, taken c s)
unfolding balloc_blocks
balloc_blocks-hit zero b c s l h f g = absurd (omega arith)
balloc_blocks-hit (suc n) b c s l h f g = elim (dec_lt c (b + bpb)) [
  | yes p ↦
      let size = l.in_range in
      rw (ltb_of_lt b s.size (omega arith), balloc_bits-hit bpb b 0 c s l h refl (omega arith) p)
        refl
  | no p ↦
      let size = l.in_range in
      rw
        (
          ltb_of_lt b s.size (omega arith),
          balloc_bits-miss bpb b 0 s h refl (λ e i j. l.lower e (omega arith)),
        )
        (balloc_blocks-hit n (b + bpb) c s l (omega arith) (omega arith) (omega arith))
]

-- Every block is in use.
abbrev pub Full : Fs → Type 0
Full s = (e : ℕ) → e < s.size → in_use s e ≡ true

balloc_blocks-Full :
    (n b : ℕ) (s : Fs)
    → Full s
    → b % bpb ≡ 0
    → s.size + bpb ≤ b + n * bpb
    → b < s.size + bpb
    → balloc_blocks n b s ≡ panic
unfolding balloc_blocks
balloc_blocks-Full zero b s l h g k = absurd (omega arith)
balloc_blocks-Full (suc n) b s l h g k = elim (dec_lt b s.size) [
  | yes p ↦
      rw (ltb_of_lt b s.size p, balloc_bits-miss bpb b 0 s h refl (λ e i j. l e j))
        (balloc_blocks-Full n (b + bpb) s l (omega arith) (omega arith) (omega arith))
  | no p ↦ rw (ltb_of_le b s.size (omega arith)) refl
]

first_or_all :
    (n : ℕ) (s : Fs) → n ≤ s.size → ((e : ℕ) → e < n → in_use s e ≡ true) ⊎ ((c : ℕ) × IsLeast s c)
first_or_all zero s h = inl (λ e l. absurd (omega arith))
first_or_all (suc n) s h = elim (first_or_all n s (omega arith)) [
  | inr found ↦ inr found
  | inl low ↦ elim (Bool-cases (in_use s n)) [
    | inl busy ↦ inl (λ e l. elim (dec_lt e n) [
      | yes p ↦ low e p
      | no p ↦ let at : e ≡ n = omega arith in rw at busy
    ])
    | inr idle ↦ inr (n, record { in_range = omega arith; unused = idle; lower = low })
  ]
]

-- balloc panics exactly where every block is in use; otherwise it takes the block of least number that
-- is not in use: it sets the bit of that block, clears its bytes, and logs the two blocks it wrote.
pub balloc-IsLeast :
    (s : Fs)
    → (Full s × (balloc s ≡ panic)) ⊎ ((c : ℕ) × IsLeast s c × (balloc s ≡ ok (c, taken c s)))
unfolding balloc
balloc-IsLeast s = elim (first_or_all s.size s (omega arith)) [
  | inl full ↦
      inl (full, balloc_blocks-Full (s.size / bpb + 2) 0 s full refl (omega arith) (omega arith))
  | inr (c, l) ↦
      let size = l.in_range in
      inr (c, l, balloc_blocks-hit (s.size / bpb + 2) 0 c s l refl (omega arith) (omega arith))
]
