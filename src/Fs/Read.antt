-- ===== src/Fs/Read.antt =====
-- The loop of readi copies the bytes of a file into its buffer.
use mathlib.Core.Path.{subst}
use hyu_ele.Base.{
  ℕ, zero, suc, ◌+◌, ◌-◌, ◌*◌, ◌/◌, ◌%◌, ◌<◌, ◌≤◌, ◌≡◌, ◌≢◌, refl, sym, ◌∙◌, ap, ==_of_ne,
  ltb_of_lt, ltb_of_le, min, arith, ◌⊎◌, inl, inr, dec_lt,
}
use hyu_ele.Base.Run.{Run}
use hyu_ele.Fs.{Fs, bsize}
use hyu_ele.Fs.Unique.{Fine}
use hyu_ele.Fs.Room.{Few-mono, Takes}
use hyu_ele.Fs.Fetch.{Fetched}
use hyu_ele.Fs.Bmap.{tree_size, block_of}
use hyu_ele.Fs.Content.{file_byte, byte_in, same_byte, bmap-Fetched}
use hyu_ele.Fs.Moves.{Moves, Moves-refl, Moves-trans, null_before, Grows-Moves}
use hyu_ele.Fs.Write.{Stops, Few-round, span, copy_bytes_outside}
use hyu_ele.Fs.File.{Buffer, copy_bytes, readi_loop}

-- `dst'` has from `tot` on the `left` bytes of file `q` from `off` on, and is `dst` elsewhere; no byte
-- of a file changed.
pub record Copied (s s' : Fs) (q : ℕ) (dst dst' : Buffer) (tot off left : ℕ) : Type 0 where
  pub moves : Moves s s'
  pub steady : ((k : ℕ) → off ≤ k → k < off + left → block_of s q (k / bsize) ≢ 0) → s' ≡ s
  pub bytes : (p k : ℕ) → k / bsize < tree_size → file_byte s' p k ≡ file_byte s p k
  pub inside : (j : ℕ) → tot ≤ j → j < tot + left → dst' j ≡ file_byte s q (off + (j - tot))
  pub outside : (j : ℕ) → j < tot ⊎ tot + left ≤ j → dst' j ≡ dst j

Copied-nothing :
    (s : Fs) (q : ℕ) (dst : Buffer) (tot off left : ℕ)
    → Fine s
    → left ≡ 0
    → Copied s s q dst dst tot off left
Copied-nothing s q dst tot off left good z = record {
  moves = Moves-refl s good;
  steady = λ h. refl;
  bytes = λ p k h. refl;
  inside = λ j a b. absurd (omega arith);
  outside = λ j n. refl;
}

copy_bytes_inside :
    (dst : Buffer) (o : ℕ) (src : Buffer) (p m j : ℕ)
    → o ≤ j
    → j < o + m
    → copy_bytes dst o src p m j ≡ src (p + (j - o))
copy_bytes_inside dst o src p m j a b = rw (ltb_of_le j o a, ltb_of_lt j (o + m) b) refl

module _ (s s1 : Fs) (q v tot off m : ℕ) (dst : Buffer) (good : Fine s)
    (g : Fetched 4 s s1 q 0 (block_of s q (off / bsize)) v) (now : block_of s1 q (off / bsize) ≡ v)
    (h : off / bsize < tree_size) (fits : off % bsize + m ≤ bsize) (some_bytes : 0 < m) where
  in_page : (k : ℕ) → k / bsize ≡ off / bsize → s1.data_at v (k % bsize) ≡ file_byte s q k
  in_page k e =
      sym (
        ap (λ b. byte_in s1 b (k % bsize)) (ap (block_of s1 q) e ∙ now)
        ∙ rw (==_of_ne v 0 g.nonzero) refl)
      ∙ same_byte s s1 g.grows g.keeps good g.fine q k (rw e h)

  pub round-Copied : Copied s s1 q dst (copy_bytes dst tot (s1.data_at v) (off % bsize) m) tot off m
  round-Copied = record {
    moves = Grows-Moves s s1 g.grows g.keeps good g.fine;
    steady = λ h. elim g.how [
      | inl (z, _, _) ↦ absurd (h off (omega arith) (omega arith) z)
      | inr (_, stay) ↦ stay
    ];
    bytes = same_byte s s1 g.grows g.keeps good g.fine;
    inside = λ j a b.
        let k = off + (j - tot) in
        let at : off % bsize + (j - tot) ≡ k % bsize = omega arith in
        copy_bytes_inside dst tot (s1.data_at v) (off % bsize) m j a b
        ∙ ap (s1.data_at v) at
        ∙ in_page k (omega arith);
    outside = λ j n. copy_bytes_outside dst tot (s1.data_at v) (off % bsize) m j n;
  }

Copied-trans :
    (s t u : Fs) (q : ℕ) (d1 d2 d3 : Buffer) (tot off m left rest : ℕ)
    → left ≡ m + rest
    → off + left ≤ tree_size * bsize
    → Copied s t q d1 d2 tot off m
    → Copied t u q d2 d3 (tot + m) (off + m) rest
    → Copied s u q d1 d3 tot off left
Copied-trans s t u q d1 d2 d3 tot off m left rest e fits f g = record {
  moves = Moves-trans s t u f.moves g.moves;
  steady = λ h.
      let here = f.steady (λ k a b. h k a (omega arith)) in
      g.steady (λ k a b.
        subst (λ x. block_of x q (k / bsize) ≢ 0) (sym here) (h k (omega arith) (omega arith)))
      ∙ here;
  bytes = λ p k h. g.bytes p k h ∙ f.bytes p k h;
  inside = λ j a b. elim (dec_lt j (tot + m)) [
    | yes h ↦ g.outside j (inl h) ∙ f.inside j a h
    | no h ↦
        let at : off + m + (j - (tot + m)) ≡ off + (j - tot) = omega arith in
        g.inside j (omega arith) (omega arith)
        ∙ ap (file_byte t q) at
        ∙ f.bytes q (off + (j - tot)) (omega arith)
  ];
  outside = λ j n.
      g.outside j (elim n [ inl a ↦ inl (omega arith) | inr b ↦ inr (omega arith) ])
      ∙ f.outside j (elim n [ inl a ↦ inl a | inr b ↦ inr (omega arith) ]);
}

after_round :
    (s t : Fs) (q : ℕ) (d1 d2 : Buffer) (tot off m left rest : ℕ) (r : Run (Buffer × Fs))
    → left ≡ m + rest
    → off + left ≤ tree_size * bsize
    → (0 < rest → off % bsize + m ≡ bsize)
    → Copied s t q d1 d2 tot off m
    → Takes 4 s t
    → Stops t q (off + m) rest r (λ d s'. Copied t s' q d2 d (tot + m) (off + m) rest)
    → Stops s q off left r (λ d s'. Copied s s' q d1 d tot off left)
after_round s t q d1 d2 tot off m left rest r e fits whole f takes (inl (k, a, b, z, full, run)) =
    inl (
      k,
      omega arith,
      omega arith,
      null_before s t q (k / bsize) f.moves (omega arith) z,
      Few-round s t off m left rest e (omega arith) whole takes full,
      run,
    )
after_round s t q d1 d2 tot off m left rest r e fits whole f takes (inr (d, u, run, g)) =
    inr (d, u, run, Copied-trans s t u q d1 d2 d tot off m left rest e fits f g)

-- The loop of readi, with fuel for a round a byte.
pub readi_loop-Copied :
    (fuel q : ℕ) (dst : Buffer) (tot off n : ℕ) (s : Fs)
    → Fine s
    → n - tot ≤ fuel
    → off + (n - tot) ≤ tree_size * bsize
    → Stops s q off
        (n - tot)
        (readi_loop fuel q dst tot off n s)
        (λ d s'. Copied s s' q dst d tot off (n - tot))
unfolding readi_loop
readi_loop-Copied zero q dst tot off n s good enough fits = inr (
  dst,
  s,
  rw (ltb_of_le tot n (omega arith)) refl,
  Copied-nothing s q dst tot off (n - tot) good (omega arith),
)
readi_loop-Copied (suc fuel) q dst tot off n s good enough fits = elim (dec_lt tot n) [
  | no h ↦ inr (
    dst,
    s,
    rw (ltb_of_le tot n (omega arith)) refl,
    Copied-nothing s q dst tot off (n - tot) good (omega arith),
  )
  | yes h ↦ elim (bmap-Fetched q (off / bsize) s (omega arith) good) [
    | inl (z, full, run) ↦ inl (
      off,
      omega arith,
      omega arith,
      z,
      Few-mono 3 (span off (n - tot) * 4 - 1) s (omega arith) full,
      rw (ltb_of_lt tot n h, run) refl,
    )
    | inr (v, s1, run, (g, now)) ↦
        let m = min (n - tot) (bsize - off % bsize) in
        let dst' : Buffer = copy_bytes dst tot (s1.data_at v) (off % bsize) m in
        let step =
          round-Copied s s1 q v tot off m dst good g now (omega arith) (ground arith)
            (ground arith) in
        let rest =
          readi_loop-Copied fuel q dst' (tot + m) (off + m) n s1 g.fine (ground arith)
            (ground arith) in
        rw (ltb_of_lt tot n h, run)
          (after_round s s1 q dst dst' tot off m (n - tot) (n - (tot + m)) _ (ground arith) fits
            (λ i. ground arith) step g.takes rest)
  ]
]
