-- ===== src/Fs/Bmap.antt =====
-- bmap on the blocks of a file.
use hyu_ele.Base.{
  ℕ, ◌+◌, ◌-◌, ◌/◌, ◌%◌, ◌<◌, ◌≤◌, ◌≡◌, ◌≢◌, refl, sym, ◌∙◌, false, ltb, ltb_of_lt, ltb_of_le,
  if◌then◌else◌, arith, ◌⊎◌, inl, inr, dec_lt,
}
use hyu_ele.Base.Run.{ok, panic, out_of_fuel, Run, and_then}
use hyu_ele.Fs.{
  Fs, ndirect, nindirect, nindirect2, nindirect3, follow_addr, follow_entry, bmap, bmap_single,
  bmap_double, bmap_triple,
}
use hyu_ele.Fs.Bitmap.{in_use}
use hyu_ele.Fs.Grow.{Owned, Grows}
use hyu_ele.Fs.Unique.{Fine}
use hyu_ele.Fs.Fetch.{Gives}
use hyu_ele.Fs.Route.{
  Route, from, then_entry, levels, value, EndsAt, fetch, value-Grows, fetch-AtEnd,
}

-- The route to block `bn` of a file.
abbrev pub route_of : ℕ → Route
route_of bn =
    let bn1 = bn - ndirect in
    let bn2 = bn1 - nindirect in
    let bn3 = bn2 - nindirect2 in
    if ltb bn ndirect
    then from bn
    else if ltb bn1 nindirect
    then then_entry (from ndirect) bn1
    else if ltb bn2 nindirect2
    then then_entry (then_entry (from (ndirect + 1)) (bn2 / nindirect)) (bn2 % nindirect)
    else then_entry
        (then_entry (then_entry (from (ndirect + 2)) (bn3 / nindirect2))
          (bn3 % nindirect2 / nindirect))
        (bn3 % nindirect2 % nindirect)

-- The number of blocks that the tree of an inode can hold.
abbrev pub tree_size : ℕ
tree_size = ndirect + nindirect + nindirect2 + nindirect3

and_then_assoc :
    {A B C : Type 0} (r : Run A) (f : A → Run B) (g : B → Run C)
    → and_then (and_then r f) g ≡ and_then r (λ a. and_then (f a) g)
and_then_assoc (ok a) f g = refl
and_then_assoc panic f g = refl
and_then_assoc out_of_fuel f g = refl

and_then_triple :
    {A : Type 0} (r : Run A) (f g h : A → Run A)
    → and_then r (λ a. and_then (f a) (λ b. and_then (g b) h))
      ≡ and_then (and_then (and_then r f) g) h
and_then_triple (ok a) f g h = sym (and_then_assoc (f a) g h)
and_then_triple panic f g h = refl
and_then_triple out_of_fuel f g h = refl

-- Block `bn` of a file, or null where the tree does not have it yet.
abbrev pub block_of : Fs → ℕ → ℕ → ℕ
block_of s q bn = value s q (route_of bn)

pub route_of-EndsAt : (bn : ℕ) → bn < tree_size → EndsAt (route_of bn) 0
route_of-EndsAt bn h = elim (dec_lt bn 10) [
  | yes a ↦ rw (ltb_of_lt bn 10 a) (omega arith, omega arith)
  | no a ↦ elim (dec_lt (bn - 10) 128) [
    | yes b ↦
        rw (ltb_of_le bn 10 (omega arith), ltb_of_lt (bn - 10) 128 b)
          ((omega arith, omega arith), omega arith)
    | no b ↦ elim (dec_lt (bn - 10 - 128) 16384) [
      | yes c ↦
          rw
            (
              ltb_of_le bn 10 (omega arith),
              ltb_of_le (bn - 10) 128 (omega arith),
              ltb_of_lt (bn - 10 - 128) 16384 c,
            )
            (((omega arith, omega arith), omega arith), omega arith)
      | no c ↦
          rw
            (
              ltb_of_le bn 10 (omega arith),
              ltb_of_le (bn - 10) 128 (omega arith),
              ltb_of_le (bn - 10 - 128) 16384 (omega arith),
            )
            ((((omega arith, omega arith), omega arith), omega arith), omega arith)
    ]
  ]
]

pub bmap-fetch : (q bn : ℕ) (s : Fs) → bn < tree_size → bmap q bn s ≡ fetch q (route_of bn) s
unfolding bmap bmap_single bmap_double bmap_triple fetch
bmap-fetch q bn s h = elim (dec_lt bn 10) [
  | yes a ↦ rw (ltb_of_lt bn 10 a) refl
  | no a ↦ elim (dec_lt (bn - 10) 128) [
    | yes b ↦ rw (ltb_of_le bn 10 (omega arith), ltb_of_lt (bn - 10) 128 b) refl
    | no b ↦ elim (dec_lt (bn - 10 - 128) 16384) [
      | yes c ↦
          rw
            (
              ltb_of_le bn 10 (omega arith),
              ltb_of_le (bn - 10) 128 (omega arith),
              ltb_of_lt (bn - 10 - 128) 16384 c,
            )
            (sym (and_then_assoc (follow_addr q 11 s) _ _))
      | no c ↦
          rw
            (
              ltb_of_le bn 10 (omega arith),
              ltb_of_le (bn - 10) 128 (omega arith),
              ltb_of_le (bn - 10 - 128) 16384 (omega arith),
              ltb_of_lt (bn - 10 - 128 - 16384) 2097152 (omega arith),
            )
            (let k = bn - ndirect - nindirect - nindirect2 in
              and_then_triple (follow_addr q 12 s) (λ x. follow_entry x.0 (k / nindirect2) x.1)
                (λ x. follow_entry x.0 (k % nindirect2 / nindirect) x.1)
                (λ x. follow_entry x.0 (k % nindirect2 % nindirect) x.1))
    ]
  ]
]

-- Where the free map and the trees fit together, bmap of a block number in range finds or makes the
-- block. Either it panics, and then the file had no such block and no more blocks are free than the
-- route to it goes through blocks of pointers, so none for a direct block and at most three else;
-- or it returns the number, not null, of a block of the file's own, which is the old one, and then
-- nothing changed, or, where the file had no such block, one that was not in use before. The free
-- map and the trees fit together again, no pointer of any file is taken back, no block is freed,
-- and every block that was written was logged. A block number out of range panics.
pub bmap-maps :
    (q bn : ℕ) (s : Fs)
    → Fine s
    → (bn < tree_size
        → Gives (levels (route_of bn)) s (block_of s q bn) (bmap q bn s) (λ v s'.
          (block_of s' q bn ≡ v)
          × Owned s' v
          × (((block_of s q bn ≡ v) × (s' ≡ s)) ⊎ ((block_of s q bn ≡ 0) × (in_use s v ≡ false)))
          × (v ≢ 0)
          × Fine s'
          × Grows s s'
          × ((p n : ℕ) → n < tree_size → block_of s p n ≢ 0 → block_of s' p n ≡ block_of s p n)))
      × (tree_size ≤ bn → bmap q bn s ≡ panic)
unfolding bmap
bmap-maps q bn s good = (
  λ h. elim (fetch-AtEnd q (route_of bn) 0 s (route_of-EndsAt bn h) good) [
    | inl (z, full, run) ↦ inl (z, full, bmap-fetch q bn s h ∙ run)
    | inr (v, s', run, (g, now)) ↦ inr (
      v,
      s',
      bmap-fetch q bn s h ∙ run,
      (
        now,
        g.fine.sound q 0 v g.reached,
        elim g.how [ inl (z, idle, _) ↦ inr (z, idle) | inr same ↦ inl same ],
        g.nonzero,
        g.fine,
        g.grows,
        λ p n k z. value-Grows s s' p (route_of n) 0 g.grows good.sound (route_of-EndsAt n k) z,
      ),
    )
  ],
  λ h.
      rw
        (
          ltb_of_le bn 10 (omega arith),
          ltb_of_le (bn - 10) 128 (omega arith),
          ltb_of_le (bn - 10 - 128) 16384 (omega arith),
          ltb_of_le (bn - 10 - 128 - 16384) 2097152 (omega arith),
        )
        refl,
)
