-- ===== src/Fs/Writei.antt =====
-- writei on a file that is no device.
use mathlib.Core.Path.{subst}
use hyu_ele.Base.{
  ℕ, ◌+◌, ◌-◌, ◌*◌, ◌/◌, ◌%◌, ◌^◌, ◌<◌, ◌≤◌, ◌≡◌, ◌≢◌, refl, sym, ◌∙◌, ap, false, ◌==◌, ==_of_ne,
  ltb, ltb_of_lt, ltb_of_le, if◌then◌else◌, arith, ◌⊎◌, inl, inr, dec_lt, some, none,
}
use hyu_ele.Base.Run.{ok, ◌>>=◌}
use hyu_ele.Fs.{Fs, bsize}
use hyu_ele.Fs.Unique.{Fine}
use hyu_ele.Fs.Bmap.{tree_size, block_of}
use hyu_ele.Fs.Content.{file_byte}
use hyu_ele.Fs.Moves.{Moves, Spare, null_before}
use hyu_ele.Fs.Write.{Wrote, Stops, writei_loop-Wrote}
use hyu_ele.Fs.Resize.{Resized, grow_file-Resized}
use hyu_ele.Fs.File.{Buffer, Devsw, t_dev, maxfile, ipb, iblock, writei_loop, grow_file, writei}

-- The file `q` has the first `n` bytes of `src` from `off` on, and is at least that long.
pub record Written (s s' : Fs) (q : ℕ) (src : Buffer) (off n : ℕ) : Type 0 where
  pub fine : Fine s'
  pub spare : Spare s' (iblock s' (s'.inode q).inum)
  pub type : (s'.inode q).type ≡ (s.inode q).type
  pub inside : (k : ℕ) → off ≤ k → k < off + n → file_byte s' q k ≡ src (k - off)
  pub present : (k : ℕ) → off ≤ k → k < off + n → block_of s' q (k / bsize) ≢ 0
  pub kept : (p i : ℕ) → i < tree_size → block_of s p i ≢ 0 → block_of s' p i ≢ 0
  pub outside :
      (p k : ℕ)
      → k / bsize < tree_size
      → p ≢ q ⊎ (k < off ⊎ off + n ≤ k)
      → file_byte s' p k ≡ file_byte s p k
  pub size :
      (s'.inode q).size ≡ (if ltb (s.inode q).size (off + n) then off + n else (s.inode q).size)
  pub other_sizes : (p : ℕ) → p ≢ q → (s'.inode p).size ≡ (s.inode p).size

pub Spare-after :
    (s t : Fs) (q : ℕ)
    → Moves s t
    → Spare s (iblock s (s.inode q).inum)
    → Spare t (iblock t (t.inode q).inum)
Spare-after s t q f spare =
    let (same, _, _) = f.meta q in
    subst (λ x. Spare t x)
      (sym (ap (λ i. i / ipb + t.inodestart) same ∙ ap (λ x. (s.inode q).inum / ipb + x) f.start))
      (f.spare (iblock s (s.inode q).inum) spare)

-- The loop and the end of writei, in one.
Wrote-Resized :
    (s t u : Fs) (q : ℕ) (src : Buffer) (off n : ℕ)
    → off + n ≤ tree_size * bsize
    → Wrote s t q src 0 off n
    → Resized t u q (if ltb (t.inode q).size (off + n) then off + n else (t.inode q).size)
    → Written s u q src off n
Wrote-Resized s t u q src off n fits f g =
    let (_, kind, size) = f.moves.meta q in
    record {
      fine = g.fine;
      spare = g.spare;
      type = g.type ∙ kind;
      inside = λ k a b.
          let at : 0 + (k - off) ≡ k - off = omega arith in
          g.bytes q k (omega arith) ∙ f.inside k a b ∙ ap src at;
      present = λ k a b z. f.present k a b (sym (g.blocks q (k / bsize) (omega arith)) ∙ z);
      kept = λ p i h z y. z (null_before s t p i f.moves h (sym (g.blocks p i h) ∙ y));
      outside = λ p k i side. g.bytes p k i ∙ f.outside p k i side;
      size = g.resized ∙ ap (λ x. if ltb x (off + n) then off + n else x) size;
      other_sizes = λ p apart. let (_, _, other) = f.moves.meta p in g.other_sizes p apart ∙ other;
    }

whole_loop :
    (q : ℕ) (src : Buffer) (off n : ℕ) (s : Fs)
    → Fine s
    → off + n ≤ tree_size * bsize
    → Stops s q off n
        (writei_loop n q src 0 off n s)
        (λ o s'. (o ≡ off + n) × Wrote s s' q src 0 off n)
whole_loop q src off n s good fits =
    let whole : n - 0 ≡ n = omega arith in
    subst
      (λ l.
        Stops s q off l (writei_loop n q src 0 off n s)
          (λ o s'. (o ≡ off + l) × Wrote s s' q src 0 off l))
      whole (writei_loop-Wrote n q src 0 off n s good (omega arith) (omega arith))

content-Written :
    (q : ℕ) (src : Buffer) (off n : ℕ) (s : Fs)
    → Fine s
    → Spare s (iblock s (s.inode q).inum)
    → off ≤ (s.inode q).size
    → off + n ≤ tree_size * bsize
    → Stops s q off n
        ((do o ← writei_loop n q src 0 off n; grow_file q o n) s)
        (λ r s'. (r ≡ some n) × Written s s' q src off n)
content-Written q src off n s good spare low fits = elim (whole_loop q src off n s good fits) [
  | inl (k, a, b, z, full, run) ↦ inl (k, a, b, z, full, rw run refl)
  | inr (o, t, run, (end, f)) ↦
      let (_, _, same) = f.moves.meta q in
      let some_bytes : o ≤ (t.inode q).size ⊎ 0 < n = elim (dec_lt 0 n) [
        | yes h ↦ inr h
        | no h ↦ inl (omega arith)
      ] in
      let (u, run', g) =
        grow_file-Resized q o n t f.moves.fine (Spare-after s t q f.moves spare) some_bytes in
      inr (
        some n,
        u,
        rw (run, run') refl,
        (refl, Wrote-Resized s t u q src off n fits f (rw (sym end) g)),
      )
]

-- Where the free map and the trees fit together, no file has the block of the inode, and the file
-- is no device: writei refuses to start behind the end of the file, and to write behind MAXFILE
-- blocks, also where the sum wraps around; it then returns -1 and changes nothing. Else it stores
-- the bytes of its buffer into the file, no other byte of any file changes, the file grows to hold
-- them, and it returns their number; or it panics, where the file lacks the block of one of these
-- bytes, and less than four blocks of the disk are free for each block that the bytes lie in.
-- After a return the free map and the trees fit together again.
pub writei-writes :
    (dev : Devsw) (q : ℕ) (src : Buffer) (off n : ℕ) (s : Fs)
    → Fine s
    → Spare s (iblock s (s.inode q).inum)
    → (s.inode q).type ≢ t_dev
    → off < 4294967296
    → n < 4294967296
    → (((s.inode q).size < off ⊎ maxfile * bsize < off + n)
        × (writei dev q src off n s ≡ ok (none, s)))
      ⊎ ((off ≤ (s.inode q).size)
          × (off + n ≤ maxfile * bsize)
          × Stops s q off n
              (writei dev q src off n s)
              (λ r s'. (r ≡ some n) × Written s s' q src off n))
unfolding writei
writei-writes dev q src off n s good spare kind h i =
    let file : ((s.inode q).type == t_dev) ≡ false = ==_of_ne (s.inode q).type t_dev kind in
    elim (dec_lt (s.inode q).size off) [
      | yes a ↦ inl (inl a, rw (file, ltb_of_lt (s.inode q).size off a) refl)
      | no a ↦
          let within = ltb_of_le (s.inode q).size off (omega arith) in
          elim (dec_lt (maxfile * bsize) (off + n)) [
            | yes b ↦ inl (
              inr b,
              elim (dec_lt ((off + n) % 2 ^ 32) off) [
                | yes w ↦ rw (file, within, ltb_of_lt ((off + n) % 2 ^ 32) off w) refl
                | no w ↦
                    rw
                      (
                        file,
                        within,
                        ltb_of_le ((off + n) % 2 ^ 32) off (omega arith),
                        ltb_of_lt (maxfile * bsize) ((off + n) % 2 ^ 32) (omega arith),
                      )
                      refl
              ],
            )
            | no b ↦
                let plain : (off + n) % 2 ^ 32 ≡ off + n = omega arith in
                inr (
                  omega arith,
                  omega arith,
                  rw
                      (
                        file,
                        within,
                        plain,
                        ltb_of_le (off + n) off (omega arith),
                        ltb_of_le (maxfile * bsize) (off + n) (omega arith),
                      )
                      (content-Written q src off n s good spare (omega arith) (omega arith)),
                )
          ]
    ]
