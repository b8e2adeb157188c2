-- ===== src/Fs/Write.antt =====
-- The loop of writei stores the bytes of its buffer into the file.
use hyu_ele.Base.{
  ℕ, zero, suc, ◌+◌, ◌-◌, ◌*◌, ◌/◌, ◌%◌, ◌<◌, ◌≤◌, ◌≡◌, ◌≢◌, refl, sym, ◌∙◌, ap, Bool-cases, ◌==◌,
  ==_iff, ==_of_ne, ltb_of_lt, ltb_of_le, min, arith, ◌⊎◌, inl, inr, dec_lt, ◌++◌, ◌∷◌, [],
}
use hyu_ele.Base.Run.{Run, ok, panic}
use hyu_ele.Fs.{Fs, bsize}
use hyu_ele.Fs.Unique.{Fine}
use hyu_ele.Fs.Room.{Few, Few-mono, Few-earlier, Takes, Takes-trans, Takes-none}
use hyu_ele.Fs.Fetch.{Fetched}
use hyu_ele.Fs.Steady.{Only, same_map}
use hyu_ele.Fs.Bmap.{tree_size, block_of}
use hyu_ele.Fs.Content.{file_byte, byte_in, same_byte, bmap-Fetched}
use hyu_ele.Fs.Distinct.{block_of-injective}
use hyu_ele.Fs.Moves.{
  Moves, Moves-refl, Moves-trans, null_before, Grows-Moves, Only-Moves, away, here, Leaf-block,
}
use hyu_ele.Fs.File.{Buffer, copy_bytes, set_block, writei_loop}

-- Inode `q` has from `off` on the `left` bytes of `src` from `tot` on; no other byte changed.
pub record Wrote (s s' : Fs) (q : ℕ) (src : Buffer) (tot off left : ℕ) : Type 0 where
  pub moves : Moves s s'
  pub inside : (k : ℕ) → off ≤ k → k < off + left → file_byte s' q k ≡ src (tot + (k - off))
  pub present : (k : ℕ) → off ≤ k → k < off + left → block_of s' q (k / bsize) ≢ 0
  pub outside :
      (p k : ℕ)
      → k / bsize < tree_size
      → p ≢ q ⊎ (k < off ⊎ off + left ≤ k)
      → file_byte s' p k ≡ file_byte s p k

-- The number of blocks of a file that `left` bytes from `off` on lie in.
abbrev pub span : ℕ → ℕ → ℕ
span off left = (off % bsize + left + (bsize - 1)) / bsize

-- A run on the bytes from `off` on ends with a result that `P` holds of, or panics where the file
-- does not have the block of one of these bytes, and less than four blocks are free in `s` for each
-- block that the bytes lie in.
abbrev pub Stops : {A : Type 0} → Fs → ℕ → ℕ → ℕ → Run (A × Fs) → (A → Fs → Type 0) → Type 0
Stops {A} s q off left r P =
    ((k : ℕ) × (off ≤ k)
      × (k < off + left)
      × (block_of s q (k / bsize) ≡ 0)
      × Few (span off left * 4 - 1) s
      × (r ≡ panic))
    ⊎ ((v : A) × (s' : Fs) × (r ≡ ok (v, s')) × P v s')

-- The bound of the bytes from `off` on, by that of the bytes after a round.
pub Few-round :
    (s t : Fs) (off m left rest : ℕ)
    → left ≡ m + rest
    → 0 < rest
    → (0 < rest → off % bsize + m ≡ bsize)
    → Takes 4 s t
    → Few (span (off + m) rest * 4 - 1) t
    → Few (span off left * 4 - 1) s
Few-round s t off m left rest e some_left whole takes few =
    let full = whole some_left in
    Few-mono (4 + (span (off + m) rest * 4 - 1)) (span off left * 4 - 1) s (omega arith)
      (Few-earlier 4 (span (off + m) rest * 4 - 1) s t takes few)

Wrote-nothing :
    (s : Fs) (q : ℕ) (src : Buffer) (tot off left : ℕ)
    → Fine s
    → left ≡ 0
    → Wrote s s q src tot off left
Wrote-nothing s q src tot off left good z = record {
  moves = Moves-refl s good;
  inside = λ k a b. absurd (omega arith);
  present = λ k a b. absurd (omega arith);
  outside = λ p k h n. refl;
}

pub copy_bytes_outside :
    (dst : Buffer) (o : ℕ) (src : Buffer) (p m j : ℕ)
    → j < o ⊎ o + m ≤ j
    → copy_bytes dst o src p m j ≡ dst j
copy_bytes_outside dst o src p m j (inl h) = rw (ltb_of_lt j o h) refl
copy_bytes_outside dst o src p m j (inr h) =
    rw (ltb_of_le j o (omega arith), ltb_of_le j (o + m) h) refl

-- The state after one round of the loop.
abbrev stored : ℕ → (Buffer → Buffer) → Fs → Fs
stored v f s = record (set_block v f s) { logged = s.logged ++ v ∷ [] }

module _ (s s1 : Fs) (q v tot off m : ℕ) (src : Buffer) (good : Fine s)
    (g : Fetched 4 s s1 q 0 (block_of s q (off / bsize)) v) (now : block_of s1 q (off / bsize) ≡ v)
    (h : off / bsize < tree_size) (fits : off % bsize + m ≤ bsize) where
  abbrev next : Fs
  next = stored v (λ d. copy_bytes d (off % bsize) src tot m) s1

  next-Only : Only s1 next v
  next-Only = record {
    size = refl;
    start = refl;
    addrs = λ p k. refl;
    others = λ b n. rw (==_of_ne b v n) refl;
  }

  new_data : next.data_at v ≡ copy_bytes (s1.data_at v) (off % bsize) src tot m
  new_data = rw ((==_iff v v).1 refl) refl

  last-Moves : Moves s1 next
  last-Moves =
      let disk = (g.fine.sound q 0 v g.reached).on_disk in
      Only-Moves s1 next v next-Only (Leaf-block s1 q v g.fine g.reached) (omega arith) g.fine
        (λ p. (refl, refl, refl)) refl

  round_here :
      (k : ℕ)
      → k / bsize ≡ off / bsize
      → file_byte next q k ≡ copy_bytes (s1.data_at v) (off % bsize) src tot m (k % bsize)
  round_here k e =
      here s1 next v next-Only q k (Leaf-block s1 q v g.fine g.reached) (rw e h)
        (ap (block_of s1 q) e ∙ now) g.nonzero
      ∙ ap (λ d. d (k % bsize)) new_data

  old_here : (k : ℕ) → k / bsize ≡ off / bsize → file_byte s1 q k ≡ s1.data_at v (k % bsize)
  old_here k e =
      ap (λ b. byte_in s1 b (k % bsize)) (ap (block_of s1 q) e ∙ now)
      ∙ rw (==_of_ne v 0 g.nonzero) refl

  round_inside : (k : ℕ) → off ≤ k → k < off + m → file_byte next q k ≡ src (tot + (k - off))
  round_inside k a b =
      let block : k / bsize ≡ off / bsize = omega arith in
      let shift : k % bsize - off % bsize ≡ k - off = omega arith in
      round_here k block
      ∙ rw
          (
            ltb_of_le (k % bsize) (off % bsize) (omega arith),
            ltb_of_lt (k % bsize) (off % bsize + m) (omega arith),
          )
          (ap (λ i. src (tot + i)) shift)

  round_outside :
      (p k : ℕ)
      → k / bsize < tree_size
      → p ≢ q ⊎ (k < off ⊎ off + m ≤ k)
      → file_byte next p k ≡ file_byte s1 p k
  round_outside p k i n = elim (Bool-cases (block_of s1 p (k / bsize) == v)) [
    | inr other ↦
        away s1 next v next-Only p k (Leaf-block s1 q v g.fine g.reached) i
          (λ e. let t = (==_iff (block_of s1 p (k / bsize)) v).1 e in cc (t, other))
    | inl at ↦
        let e = (==_iff (block_of s1 p (k / bsize)) v).0 at in
        let (file, block) =
          block_of-injective s1 p q (k / bsize) (off / bsize) g.fine.unique i h
            (λ z. g.nonzero (sym e ∙ z)) (e ∙ sym now) in
        elim n [
          | inl apart ↦ absurd (apart file)
          | inr side ↦
              ap (λ x. file_byte next x k) file
              ∙ round_here k block
              ∙ copy_bytes_outside (s1.data_at v) (off % bsize) src tot m (k % bsize)
                  (elim side [ inl a ↦ inl (omega arith) | inr b ↦ inr (omega arith) ])
              ∙ sym (old_here k block)
              ∙ ap (λ x. file_byte s1 x k) (sym file)
        ]
  ]

  pub round-Takes : Takes 4 s next
  round-Takes =
      Takes-trans 4 0 s s1 next g.takes (
        Takes-none s1 next refl (same_map s1 next v next-Only (Leaf-block s1 q v g.fine g.reached)))

  pub round-Wrote : Wrote s next q src tot off m
  round-Wrote = record {
    moves = Moves-trans s s1 next (Grows-Moves s s1 g.grows g.keeps good g.fine) last-Moves;
    inside = round_inside;
    present = λ k a b z.
        let block : k / bsize ≡ off / bsize = omega arith in
        let at = ap (block_of s1 q) block ∙ now in
        let n = g.nonzero in
        n (sym (last-Moves.kept q (k / bsize) (rw block h) (λ y. n (sym at ∙ y)) ∙ at) ∙ z);
    outside = λ p k i n. round_outside p k i n ∙ same_byte s s1 g.grows g.keeps good g.fine p k i;
  }

Wrote-trans :
    (s t u : Fs) (q : ℕ) (src : Buffer) (tot off m left rest : ℕ)
    → left ≡ m + rest
    → off + left ≤ tree_size * bsize
    → Wrote s t q src tot off m
    → Wrote t u q src (tot + m) (off + m) rest
    → Wrote s u q src tot off left
Wrote-trans s t u q src tot off m left rest e fits f g = record {
  moves = Moves-trans s t u f.moves g.moves;
  inside = λ k a b. elim (dec_lt k (off + m)) [
    | yes h ↦ g.outside q k (omega arith) (inr (inl h)) ∙ f.inside k a h
    | no h ↦
        let at : tot + m + (k - (off + m)) ≡ tot + (k - off) = omega arith in
        g.inside k (omega arith) (omega arith) ∙ ap src at
  ];
  present = λ k a b. elim (dec_lt k (off + m)) [
    | yes h ↦
        let n = f.present k a h in (λ z. n (null_before t u q (k / bsize) g.moves (omega arith) z))
    | no h ↦ g.present k (omega arith) (omega arith)
  ];
  outside = λ p k i n.
      g.outside p k i (elim n [
        | inl apart ↦ inl apart
        | inr (inl a) ↦ inr (inl (omega arith))
        | inr (inr b) ↦ inr (inr (omega arith))
      ])
      ∙ f.outside p k i (elim n [
        | inl apart ↦ inl apart
        | inr (inl a) ↦ inr (inl a)
        | inr (inr b) ↦ inr (inr (omega arith))
      ]);
}

after_round :
    (s t : Fs) (q : ℕ) (src : Buffer) (tot off m left rest : ℕ) (r : Run (ℕ × Fs))
    → left ≡ m + rest
    → off + left ≤ tree_size * bsize
    → (0 < rest → off % bsize + m ≡ bsize)
    → Takes 4 s t
    → Wrote s t q src tot off m
    → Stops t q
        (off + m)
        rest
        r
        (λ o s'. (o ≡ off + m + rest) × Wrote t s' q src (tot + m) (off + m) rest)
    → Stops s q off left r (λ o s'. (o ≡ off + left) × Wrote s s' q src tot off left)
after_round s t q src tot off m left rest r e fits whole takes f (inl (k, a, b, z, full, run)) =
    inl (
      k,
      omega arith,
      omega arith,
      null_before s t q (k / bsize) f.moves (omega arith) z,
      Few-round s t off m left rest e (omega arith) whole takes full,
      run,
    )
after_round s t q src tot off m left rest r e fits whole takes f (inr (o, u, run, (end, g))) =
    inr (o, u, run, (omega arith, Wrote-trans s t u q src tot off m left rest e fits f g))

-- The loop of writei, with fuel for a round a byte.
pub writei_loop-Wrote :
    (fuel q : ℕ) (src : Buffer) (tot off n : ℕ) (s : Fs)
    → Fine s
    → n - tot ≤ fuel
    → off + (n - tot) ≤ tree_size * bsize
    → Stops s q off
        (n - tot)
        (writei_loop fuel q src tot off n s)
        (λ o s'. (o ≡ off + (n - tot)) × Wrote s s' q src tot off (n - tot))
unfolding writei_loop
writei_loop-Wrote zero q src tot off n s good enough fits = inr (
  off,
  s,
  rw (ltb_of_le tot n (omega arith)) refl,
  (omega arith, Wrote-nothing s q src tot off (n - tot) good (omega arith)),
)
writei_loop-Wrote (suc fuel) q src tot off n s good enough fits = elim (dec_lt tot n) [
  | no h ↦ inr (
    off,
    s,
    rw (ltb_of_le tot n (omega arith)) refl,
    (omega arith, Wrote-nothing s q src tot off (n - tot) good (omega arith)),
  )
  | yes h ↦ elim (bmap-Fetched q (off / bsize) s (omega arith) good) [
    | inl (z, full, run) ↦ inl (
      off,
      omega arith,
      omega arith,
      z,
      Few-mono 3 (span off (n - tot) * 4 - 1) s (omega arith) full,
      rw (ltb_of_lt tot n h, run) refl,
    )
    | inr (v, s1, run, (g, now)) ↦
        let m = min (n - tot) (bsize - off % bsize) in
        let t = next s s1 q v tot off m src good g now (omega arith) (ground arith) in
        let step : Wrote s t q src tot off m =
          round-Wrote s s1 q v tot off m src good g now (omega arith) (ground arith) in
        let moves = step.moves in
        let rest =
          writei_loop-Wrote fuel q src (tot + m) (off + m) n t moves.fine (ground arith)
            (ground arith) in
        rw (ltb_of_lt tot n h, run)
          (after_round s t q src tot off m (n - tot) (n - (tot + m)) _ (ground arith) fits
            (λ i. ground arith)
            (round-Takes s s1 q v tot off m src good g now (omega arith) (ground arith)) step rest)
  ]
]
