-- ===== src/Fs/Content.antt =====
-- The content of a file as a sequence of bytes: bmap does not change it.
use hyu_ele.Base.{
  ℕ, zero, suc, ◌+◌, ◌*◌, ◌/◌, ◌%◌, ◌<◌, ◌≤◌, ◌≡◌, ◌≢◌, refl, sym, ◌∙◌, ap, Bool-cases, ◌==◌,
  ==_iff, ==_of_ne, if◌then◌else◌, arith, ◌⊎◌, inl, inr,
}
use hyu_ele.Fs.{Fs, word_of, bsize, bmap}
use hyu_ele.Fs.Grow.{Grows}
use hyu_ele.Fs.Keep.{Keeps}
use hyu_ele.Fs.Tree.{Reaches, top, entry}
use hyu_ele.Fs.Unique.{Fine}
use hyu_ele.Fs.Route.{
  Route, from, then_entry, levels, value, EndsAt, value-Reaches, value-Grows, fetch-AtEnd,
}
use hyu_ele.Fs.Room.{Few-mono, Takes-mono}
use hyu_ele.Fs.Fetch.{Fetched, Gives}
use hyu_ele.Fs.Bmap.{route_of, tree_size, block_of, route_of-EndsAt, bmap-fetch}
use hyu_ele.Fs.Distinct.{value-injective}

-- Byte `j` of block `b`; the null block reads as zeros.
abbrev pub byte_in : Fs → ℕ → ℕ → ℕ
byte_in s b j = if b == 0 then 0 else s.data_at b j

-- Byte `k` of a file. A block that the tree does not have reads as zeros.
abbrev pub file_byte : Fs → ℕ → ℕ → ℕ
file_byte s q k = byte_in s (block_of s q (k / bsize)) (k % bsize)

below_four : (n : ℕ) → n < 4 → n ≡ 0 ⊎ (n ≡ 1 ⊎ (n ≡ 2 ⊎ n ≡ 3))
below_four zero h = inl refl
below_four (suc zero) h = inr (inl refl)
below_four (suc (suc zero)) h = inr (inr (inl refl))
below_four (suc (suc (suc n))) h = inr (inr (inr (omega arith)))

byte_zero : (d : ℕ → ℕ) (j : ℕ) → word_of d (j / 4) ≡ 0 → d j ≡ 0
byte_zero d j h = elim (below_four (j % 4) (omega arith)) [
  | inl e ↦ let at : j ≡ j / 4 * 4 = omega arith in ap d at ∙ omega arith
  | inr (inl e) ↦ let at : j ≡ j / 4 * 4 + 1 = omega arith in ap d at ∙ omega arith
  | inr (inr (inl e)) ↦ let at : j ≡ j / 4 * 4 + 2 = omega arith in ap d at ∙ omega arith
  | inr (inr (inr e)) ↦ let at : j ≡ j / 4 * 4 + 3 = omega arith in ap d at ∙ omega arith
]

Reaches-ne : (s : Fs) (q l b : ℕ) → Reaches s q l b → b ≢ 0
Reaches-ne s q l b (top h e a n) = n
Reaches-ne s q l b (entry r h a n) = n

Reaches-Route :
    (s : Fs) (q l b : ℕ) → Reaches s q l b → (r : Route) × EndsAt r l × (value s q r ≡ b)
Reaches-Route s q l b (top {k} h e a n) = (from k, (h, e), a)
Reaches-Route s q l b (entry {c} {i} r h a n) =
    let (t, e, v) = Reaches-Route s q (suc l) c r in
    let w : value s q (then_entry t i) ≡ b = rw (v, ==_of_ne c 0 (Reaches-ne s q (suc l) c r)) a in
    (then_entry t i, (e, h), w)

module _ (s s' : Fs) (grows : Grows s s') (keeps : Keeps s s') (good : Fine s)
    (good' : Fine s') where
  -- A block that was null and is not is new, and zero.
  new_zero :
      (q n j : ℕ)
      → n < tree_size
      → j < bsize
      → block_of s q n ≡ 0
      → block_of s' q n ≢ 0
      → s'.data_at (block_of s' q n) j ≡ 0
  new_zero q n j h i z w =
      let at = route_of-EndsAt n h in
      elim (keeps.fresh q 0 (block_of s' q n) (value-Reaches s' q (route_of n) 0 at w)) [
        | inr (_, zeros) ↦
            byte_zero (s'.data_at (block_of s' q n)) j (zeros refl (j / 4) (omega arith))
        | inl old ↦
            let (r, e, v) = Reaches-Route s q 0 (block_of s' q n) old in
            let v' = value-Grows s s' q r 0 grows good.sound e (λ y. w (sym v ∙ y)) ∙ v in
            let (_, same) =
              value-injective s' q q r (route_of n) 0 0 good'.unique e at (λ y. w (sym v' ∙ y))
                v' in
            absurd (w (sym v ∙ ap (value s q) same ∙ z))
      ]

  same_block :
      (q n j : ℕ)
      → n < tree_size
      → j < bsize
      → byte_in s' (block_of s' q n) j ≡ byte_in s (block_of s q n) j
  same_block q n j h i = elim (Bool-cases (block_of s q n == 0)) [
    | inr set ↦
        let w : block_of s q n ≢ 0 =
          (λ y. let t = (==_iff (block_of s q n) 0).1 y in cc (t, set)) in
        let at = route_of-EndsAt n h in
        ap (λ b. byte_in s' b j) (value-Grows s s' q (route_of n) 0 grows good.sound at w)
        ∙ ap (λ d. if block_of s q n == 0 then 0 else d j)
            (keeps.content q (block_of s q n) (value-Reaches s q (route_of n) 0 at w))
    | inl null ↦ elim (Bool-cases (block_of s' q n == 0)) [
      | inl null' ↦ rw (null, null') refl
      | inr set ↦
          rw (null, set)
            (new_zero q n j h i ((==_iff (block_of s q n) 0).0 null)
              (λ y. let t = (==_iff (block_of s' q n) 0).1 y in cc (t, set)))
    ]
  ]

  pub same_byte : (q k : ℕ) → k / bsize < tree_size → file_byte s' q k ≡ file_byte s q k
  same_byte q k h = same_block q (k / bsize) (k % bsize) h (omega arith)

levels-bound : (r : Route) (l : ℕ) → EndsAt r l → levels r + l ≤ 3
levels-bound (from k) l e = let high = e.0 in let at = e.1 in omega arith
levels-bound (then_entry r i) l e = let rest = levels-bound r (suc l) e.0 in omega arith

pub bmap-Fetched :
    (q bn : ℕ) (s : Fs)
    → bn < tree_size
    → Fine s
    → Gives 3 s
        (block_of s q bn)
        (bmap q bn s)
        (λ v s'. Fetched 4 s s' q 0 (block_of s q bn) v × (block_of s' q bn ≡ v))
bmap-Fetched q bn s h good = elim (fetch-AtEnd q (route_of bn) 0 s (route_of-EndsAt bn h) good) [
  | inl (z, few, run) ↦
      let low = levels-bound (route_of bn) 0 (route_of-EndsAt bn h) in
      inl (z, Few-mono (levels (route_of bn)) 3 s (omega arith) few, bmap-fetch q bn s h ∙ run)
  | inr (v, s', run, (g, now)) ↦
      let low = levels-bound (route_of bn) 0 (route_of-EndsAt bn h) in
      inr (
        v,
        s',
        bmap-fetch q bn s h ∙ run,
        (
          record {
            grows = g.grows;
            keeps = g.keeps;
            fine = g.fine;
            takes = Takes-mono (suc (levels (route_of bn))) 4 s s' (omega arith) g.takes;
            reached = g.reached;
            nonzero = g.nonzero;
            how = g.how;
          },
          now,
        ),
      )
]
