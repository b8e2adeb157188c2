-- ===== src/Fs/Readi.antt =====
-- readi on a file that is no device, and after a writei.
use mathlib.Core.Path.{subst}
use hyu_ele.Base.{
  ℕ, ◌+◌, ◌-◌, ◌*◌, ◌/◌, ◌%◌, ◌^◌, ◌<◌, ◌≤◌, ◌≡◌, ◌≢◌, refl, sym, ◌∙◌, ap, false, ◌==◌, ==_of_ne,
  ltb, ltb_of_lt, ltb_of_le, if◌then◌else◌, arith, ◌⊎◌, inl, inr, dec_lt, some, none, Option,
}
use hyu_ele.Base.Run.{ok, ◌>>=◌, pure}
use hyu_ele.Fs.{Fs, bsize}
use hyu_ele.Fs.Unique.{Fine}
use hyu_ele.Fs.Bmap.{tree_size, block_of}
use hyu_ele.Fs.Content.{file_byte}
use hyu_ele.Fs.Moves.{Moves, Spare}
use hyu_ele.Fs.Write.{Stops}
use hyu_ele.Fs.Read.{Copied, readi_loop-Copied}
use hyu_ele.Fs.Writei.{Written, writei-writes}
use hyu_ele.Fs.File.{Buffer, Devsw, t_dev, maxfile, iblock, readi_loop, readi, writei}

-- The buffer `dst'` has the `n` bytes of file `q` from `off` on, and is `dst` from there on; no byte of
-- a file changed.
pub record ReadOff (s s' : Fs) (q : ℕ) (dst dst' : Buffer) (off n : ℕ) : Type 0 where
  pub moves : Moves s s'
  pub steady : ((k : ℕ) → off ≤ k → k < off + n → block_of s q (k / bsize) ≢ 0) → s' ≡ s
  pub bytes : (p k : ℕ) → k / bsize < tree_size → file_byte s' p k ≡ file_byte s p k
  pub inside : (j : ℕ) → j < n → dst' j ≡ file_byte s q (off + j)
  pub outside : (j : ℕ) → n ≤ j → dst' j ≡ dst j

-- What readi reads of the `n` bytes from `off` on, up to the end of the file.
abbrev pub readable : Fs → ℕ → ℕ → ℕ → ℕ
readable s q off n = if ltb (s.inode q).size (off + n) then (s.inode q).size - off else n

whole_loop :
    (q : ℕ) (dst : Buffer) (off n : ℕ) (s : Fs)
    → Fine s
    → off + n ≤ tree_size * bsize
    → Stops s q off n (readi_loop n q dst 0 off n s) (λ d s'. Copied s s' q dst d 0 off n)
whole_loop q dst off n s good fits =
    let whole : n - 0 ≡ n = omega arith in
    subst
      (λ l. Stops s q off l (readi_loop n q dst 0 off n s) (λ d s'. Copied s s' q dst d 0 off l))
      whole (readi_loop-Copied n q dst 0 off n s good (omega arith) (omega arith))

content_read :
    (q : ℕ) (dst : Buffer) (off n : ℕ) (s : Fs)
    → Fine s
    → off + n ≤ tree_size * bsize
    → Stops {A = Option ℕ × Buffer} s q off n
        ((do d ← readi_loop n q dst 0 off n; pure (some n, d)) s)
        (λ r s'. (r.0 ≡ some n) × ReadOff s s' q dst r.1 off n)
content_read q dst off n s good fits = elim (whole_loop q dst off n s good fits) [
  | inl (k, a, b, z, full, run) ↦ inl (k, a, b, z, full, rw run refl)
  | inr (d, t, run, f) ↦ inr (
    (some n, d),
    t,
    rw run refl,
    (
      refl,
      record {
        moves = f.moves;
        steady = f.steady;
        bytes = f.bytes;
        inside = λ j h.
            let at : off + (j - 0) ≡ off + j = omega arith in
            f.inside j (omega arith) (omega arith) ∙ ap (file_byte s q) at;
        outside = λ j h. f.outside j (inr (omega arith));
      },
    ),
  )
]

-- Where the free map and the trees fit together, the size of the file is one that a tree can hold, and
-- the file is no device: readi refuses to start behind the end of the file, and an offset and a length
-- whose sum wraps around; it then returns -1 and changes nothing. Else it copies the bytes of the file
-- to the buffer, up to the end of the file, and returns their number; no byte of any file changes, and
-- nothing at all where the file has the blocks of these bytes. Or it panics, where the file lacks the
-- block of one of these bytes, and less than four blocks of the disk are free for each block that the
-- bytes lie in.
pub readi-reads :
    (dev : Devsw) (q : ℕ) (dst : Buffer) (off n : ℕ) (s : Fs)
    → Fine s
    → (s.inode q).type ≢ t_dev
    → (s.inode q).size ≤ tree_size * bsize
    → off < 4294967296
    → n < 4294967296
    → (((s.inode q).size < off ⊎ 4294967296 ≤ off + n)
        × (readi dev q dst off n s ≡ ok ((none, dst), s)))
      ⊎ ((off ≤ (s.inode q).size)
          × Stops {A = Option ℕ × Buffer} s q off
              (readable s q off n)
              (readi dev q dst off n s)
              (λ r s'.
                (r.0 ≡ some (readable s q off n))
                × ReadOff s s' q dst r.1 off (readable s q off n)))
unfolding readi
readi-reads dev q dst off n s good kind small h i =
    let file : ((s.inode q).type == t_dev) ≡ false = ==_of_ne (s.inode q).type t_dev kind in
    elim (dec_lt (s.inode q).size off) [
      | yes a ↦ inl (inl a, rw (file, ltb_of_lt (s.inode q).size off a) refl)
      | no a ↦
          let within = ltb_of_le (s.inode q).size off (omega arith) in
          elim (dec_lt (off + n) 4294967296) [
            | no b ↦ inl (
              inr (omega arith),
              rw (file, within, ltb_of_lt ((off + n) % 2 ^ 32) off (omega arith)) refl,
            )
            | yes b ↦
                let plain : (off + n) % 2 ^ 32 ≡ off + n = omega arith in
                inr (
                  omega arith,
                  rw (file, within, plain, ltb_of_le (off + n) off (omega arith))
                      (content_read q dst off (readable s q off n) s good (ground arith)),
                )
          ]
    ]

long_enough :
    (s s' : Fs) (q : ℕ) (src : Buffer) (off n : ℕ)
    → Written s s' q src off n
    → off + n ≤ (s'.inode q).size
long_enough s s' q src off n w =
    let size = w.size in
    elim (dec_lt (s.inode q).size (off + n)) [
      | yes h ↦
          let grown : (s'.inode q).size ≡ off + n =
            size ∙ rw (ltb_of_lt (s.inode q).size (off + n) h) refl in
          omega arith
      | no h ↦
          let same : (s'.inode q).size ≡ (s.inode q).size =
            size ∙ rw (ltb_of_le (s.inode q).size (off + n) (omega arith)) refl in
          omega arith
    ]

size_in_tree :
    (s s' : Fs) (q : ℕ) (src : Buffer) (off n : ℕ)
    → Written s s' q src off n
    → (s.inode q).size ≤ tree_size * bsize
    → off + n ≤ maxfile * bsize
    → (s'.inode q).size ≤ tree_size * bsize
size_in_tree s s' q src off n w small fits = let size = w.size in ground arith

read_back :
    (dev : Devsw) (q : ℕ) (src dst : Buffer) (off n : ℕ) (s s' : Fs)
    → Written s s' q src off n
    → (s'.inode q).type ≢ t_dev
    → (s'.inode q).size ≤ tree_size * bsize
    → off + n ≤ maxfile * bsize
    → (d : Buffer) × (s'' : Fs) × (readi dev q dst off n s' ≡ ok ((some n, d), s''))
      × ((j : ℕ) → j < n → d j ≡ src j)
read_back dev q src dst off n s s' w kind small fits =
    let long = long_enough s s' q src off n w in
    let all : readable s' q off n ≡ n = rw (ltb_of_le (s'.inode q).size (off + n) long) refl in
    elim (readi-reads dev q dst off n s' w.fine kind small (omega arith) (omega arith)) [
      | inl (inl a, _) ↦ absurd (omega arith)
      | inl (inr a, _) ↦ absurd (omega arith)
      | inr (_, inl (k, a, b, z, _, _)) ↦ absurd (w.present k a (omega arith) z)
      | inr (_, inr ((c, d), t, run, (e, f))) ↦ (
        d,
        t,
        run ∙ ap (λ r. ok ((r, d), t)) (e ∙ ap some all),
        λ j h.
            let shift : off + j - off ≡ j = omega arith in
            f.inside j (omega arith)
            ∙ w.inside (off + j) (omega arith) (omega arith)
            ∙ ap src shift,
      )
    ]

-- What writei stored, readi reads. Where the free map and the trees fit together, no file has the block
-- of the inode, the file is no device, and the bytes are in range: writei returns their number, and a
-- readi of as many bytes at the same offset then returns that number too and leaves the bytes in its
-- buffer; or writei panics, where the file lacks a block of them, and less than four blocks of the
-- disk are free for each block that they lie in.
pub readi-writei :
    (dev : Devsw) (q : ℕ) (src dst : Buffer) (off n : ℕ) (s : Fs)
    → Fine s
    → Spare s (iblock s (s.inode q).inum)
    → (s.inode q).type ≢ t_dev
    → (s.inode q).size ≤ tree_size * bsize
    → off ≤ (s.inode q).size
    → off + n ≤ maxfile * bsize
    → Stops s q off n (writei dev q src off n s) (λ r s'.
      (r ≡ some n)
      × ((d : Buffer) × (s'' : Fs) × (readi dev q dst off n s' ≡ ok ((some n, d), s''))
          × ((j : ℕ) → j < n → d j ≡ src j)))
readi-writei dev q src dst off n s good spare kind small low fits =
    elim (writei-writes dev q src off n s good spare kind (omega arith) (omega arith)) [
      | inl (inl a, _) ↦ absurd (omega arith)
      | inl (inr a, _) ↦ absurd (omega arith)
      | inr (_, _, inl panics) ↦ inl panics
      | inr (_, _, inr (r, t, run, (e, w))) ↦ inr (
        r,
        t,
        run,
        (
          e,
          read_back dev q src dst off n s t w (λ x. kind (sym w.type ∙ x))
              (size_in_tree s t q src off n w small fits) fits,
        ),
      )
    ]
