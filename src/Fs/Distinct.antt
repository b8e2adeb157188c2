-- ===== src/Fs/Distinct.antt =====
-- Different blocks of files are different blocks of the disk.
use hyu_ele.Base.{
  ℕ, suc, ◌+◌, ◌-◌, ◌*◌, ◌<◌, ◌≡◌, ◌≢◌, inl, inr, refl, sym, ◌∙◌, ap, ==_of_ne, ltb_of_lt,
  ltb_of_le, arith, dec_lt,
}
use hyu_ele.Fs.{Fs, word_at, bmap}
use hyu_ele.Base.Run.{Run, ok}
use hyu_ele.Fs.Fetch.{Gives}
use mathlib.Core.Path.{subst}
use hyu_ele.Fs.Unique.{Fine, Slot, root, cell, Points, by_root, by_cell, Unique}
use hyu_ele.Fs.Route.{Route, from, then_entry, value, EndsAt, value-Reaches}
use hyu_ele.Fs.Bmap.{route_of, tree_size, block_of, route_of-EndsAt, bmap-maps}

abbrev slot_of : Fs → ℕ → Route → Slot
slot_of s q (from k) = root q k
slot_of s q (then_entry r i) = cell (value s q r) i

entry_set : (s : Fs) (q : ℕ) (r : Route) (i : ℕ) → value s q (then_entry r i) ≢ 0 → value s q r ≢ 0
entry_set s q r i n z = n (rw z refl)

value-Points :
    (s : Fs) (q : ℕ) (r : Route) (l : ℕ)
    → EndsAt r l
    → value s q r ≢ 0
    → Points s (slot_of s q r) (value s q r)
value-Points s q (from k) l e n = by_root e.0 refl n
value-Points s q (then_entry r i) l e n =
    let m = entry_set s q r i n in
    let same : word_at s (value s q r) i ≡ value s q (then_entry r i) =
      rw (==_of_ne (value s q r) 0 m) refl in
    by_cell (value-Reaches s q r (suc l) e.0 m) e.1 same n

pub value-injective :
    (s : Fs) (q p : ℕ) (r t : Route) (l m : ℕ)
    → Unique s
    → EndsAt r l
    → EndsAt t m
    → value s q r ≢ 0
    → value s q r ≡ value s p t
    → (q ≡ p) × (r ≡ t)
value-injective s q p (from k) (from j) l m one e f n h =
    let same =
      one (root q k) (root p j) (value s q (from k)) (value-Points s q (from k) l e n)
        (rw h (value-Points s p (from j) m f (λ z. n (h ∙ z)))) in
    (cc same, cc same)
value-injective s q p (from k) (then_entry t j) l m one e f n h =
    let same =
      one (root q k) (cell (value s p t) j) (value s q (from k)) (value-Points s q (from k) l e n)
        (rw h (value-Points s p (then_entry t j) m f (λ z. n (h ∙ z)))) in
    absurd (cc same)
value-injective s q p (then_entry r i) (from j) l m one e f n h =
    let same =
      one (cell (value s q r) i) (root p j) (value s q (then_entry r i))
        (value-Points s q (then_entry r i) l e n)
        (rw h (value-Points s p (from j) m f (λ z. n (h ∙ z)))) in
    absurd (cc same)
value-injective s q p (then_entry r i) (then_entry t j) l m one e f n h =
    let same =
      one (cell (value s q r) i) (cell (value s p t) j) (value s q (then_entry r i))
        (value-Points s q (then_entry r i) l e n)
        (rw h (value-Points s p (then_entry t j) m f (λ z. n (h ∙ z)))) in
    let (file, route) =
      value-injective s q p r t (suc l) (suc m) one e.0 f.0 (entry_set s q r i n) (cc same) in
    let entry_same : i ≡ j = cc same in (file, cc (route, entry_same))

-- The block number of a route.
abbrev number : Route → ℕ
number (from k) = k
number (then_entry (from k) i) = 10 + i
number (then_entry (then_entry (from k) i) j) = 138 + (i * 128 + j)
number (then_entry (then_entry (then_entry r i) j) k) = 16522 + (i * 16384 + (j * 128 + k))

number-route_of : (n : ℕ) → n < tree_size → number (route_of n) ≡ n
number-route_of n h = elim (dec_lt n 10) [
  | yes a ↦ rw (ltb_of_lt n 10 a) refl
  | no a ↦ elim (dec_lt (n - 10) 128) [
    | yes b ↦ rw (ltb_of_le n 10 (omega arith), ltb_of_lt (n - 10) 128 b) (omega arith)
    | no b ↦ elim (dec_lt (n - 10 - 128) 16384) [
      | yes c ↦
          rw
            (
              ltb_of_le n 10 (omega arith),
              ltb_of_le (n - 10) 128 (omega arith),
              ltb_of_lt (n - 10 - 128) 16384 c,
            )
            (omega arith)
      | no c ↦
          rw
            (
              ltb_of_le n 10 (omega arith),
              ltb_of_le (n - 10) 128 (omega arith),
              ltb_of_le (n - 10 - 128) 16384 (omega arith),
            )
            (omega arith)
    ]
  ]
]

pub block_of-injective :
    (s : Fs) (q p n m : ℕ)
    → Unique s
    → n < tree_size
    → m < tree_size
    → block_of s q n ≢ 0
    → block_of s q n ≡ block_of s p m
    → (q ≡ p) × (n ≡ m)
block_of-injective s q p n m one h k z e =
    let (same, route) =
      value-injective s q p (route_of n) (route_of m) 0 0 one (route_of-EndsAt n h)
        (route_of-EndsAt m k) z e in
    (same, sym (number-route_of n h) ∙ ap number route ∙ number-route_of m k)

-- What holds of the result of a run that returned.
Gives-ok :
    (k old v : ℕ) (s t : Fs) (r : Run (ℕ × Fs)) (P : ℕ → Fs → Type 0)
    → Gives k s old r P
    → r ≡ ok (v, t)
    → P v t
Gives-ok k old v s t r P (inl (z, few, e)) h = let wrong = sym e ∙ h in cc wrong
Gives-ok k old v s t r P (inr (v', t', e, p)) h =
    let both = sym e ∙ h in
    let same : ◌≡◌ {A = ℕ × Fs} (v', t') (v, t) = cc both in subst (λ x. P x.0 x.1) same p

-- Where the free map and the trees fit together, two calls of bmap, one after the other, for block
-- numbers in range return the same block of the disk only for the same block number of the same inode,
-- whether the calls found their blocks or made them.
pub bmap-injective :
    (s t u : Fs) (q p n m v : ℕ)
    → Fine s
    → n < tree_size
    → m < tree_size
    → bmap q n s ≡ ok (v, t)
    → bmap p m t ≡ ok (v, u)
    → (q ≡ p) × (n ≡ m)
bmap-injective s t u q p n m v good h k e f =
    let one = Gives-ok _ (block_of s q n) v s t (bmap q n s) _ ((bmap-maps q n s good).0 h) e in
    let (now, _, _, set, good', _, _) = one in
    let two = Gives-ok _ (block_of t p m) v t u (bmap p m t) _ ((bmap-maps p m t good').0 k) f in
    let (now', _, _, _, good'', _, keeps) = two in
    let kept : block_of u q n ≡ v = keeps q n h (λ z. set (sym now ∙ z)) ∙ now in
    block_of-injective u q p n m good''.unique h k (λ z. set (sym kept ∙ z)) (kept ∙ sym now')
