-- ===== src/Fs/Slots.antt =====
-- A directory as a sequence of slots, and the read of one of them.
use hyu_ele.Base.{
  ℕ, zero, suc, ◌+◌, ◌*◌, ◌/◌, ◌<◌, ◌≤◌, ◌≡◌, ◌≢◌, refl, sym, ◌∙◌, ap, ltb_of_le, arith, inl, inr,
  some, List,
}
use hyu_ele.Base.Run.{ok}
use hyu_ele.Str.{Memory, text}
use hyu_ele.Fs.{Fs, bsize}
use hyu_ele.Fs.Unique.{Fine}
use hyu_ele.Fs.Bmap.{tree_size, block_of}
use hyu_ele.Fs.Content.{file_byte}
use hyu_ele.Fs.Moves.{Moves, Moves-refl, Moves-trans, Spare, null_before}
use hyu_ele.Fs.Names.{dirsiz}
use hyu_ele.Fs.File.{Buffer, Devsw, iblock, readi}
use hyu_ele.Fs.Readi.{readable, readi-reads}
use hyu_ele.Fs.Writei.{Spare-after}
use hyu_ele.Fs.Dir.{t_dir, dirent_size, dirent_inum}

-- The inode number and the name in slot `k` of directory `dp`.
abbrev pub inum_at : Fs → ℕ → ℕ → ℕ
inum_at s dp k = file_byte s dp (k * 16) + file_byte s dp (k * 16 + 1) * 256

abbrev pub name_at : Fs → ℕ → ℕ → List ℕ
name_at s dp k = text dirsiz (file_byte s dp) (k * 16 + 2)

-- A directory of `count` slots: its bytes are all there.
pub record IsDir (s : Fs) (dp count : ℕ) : Type 0 where
  pub fine : Fine s
  pub spare : Spare s (iblock s (s.inode dp).inum)
  pub type : (s.inode dp).type ≡ t_dir
  pub size : (s.inode dp).size ≡ count * 16
  pub small : count * 16 ≤ tree_size * bsize
  pub filled : (k : ℕ) → k < count * 16 → block_of s dp (k / bsize) ≢ 0

-- From `s` to `s'` files were only read, and had the blocks that were read.
pub record Reads (s s' : Fs) : Type 0 where
  pub moves : Moves s s'
  pub state : s' ≡ s
  pub bytes : (p k : ℕ) → k / bsize < tree_size → file_byte s' p k ≡ file_byte s p k

pub Reads-refl : (s : Fs) → Fine s → Reads s s
Reads-refl s good = record { moves = Moves-refl s good; state = refl; bytes = λ p k h. refl }

pub text-same :
    (n : ℕ) (p q : Memory) (i j : ℕ)
    → ((k : ℕ) → k < n → p (i + k) ≡ q (j + k))
    → text n p i ≡ text n q j
unfolding text
text-same zero p q i j h = refl
text-same (suc n) p q i j h =
    let i0 : i + 0 ≡ i = omega arith in
    let j0 : j + 0 ≡ j = omega arith in
    let first : p i ≡ q j = ap p (sym i0) ∙ h 0 (omega arith) ∙ ap q j0 in
    let rest = text-same n p q (i + 1) (j + 1) (λ k l.
      let i1 : i + 1 + k ≡ i + (k + 1) = omega arith in
      let j1 : j + 1 + k ≡ j + (k + 1) = omega arith in
      ap p i1 ∙ h (k + 1) (omega arith) ∙ sym (ap q j1)) in
    rw (first, rest) refl

module _ (b : Fs) (dp count : ℕ) (dir : IsDir b dp count) where
  pub IsDir-Reads : (s : Fs) → Reads b s → IsDir s dp count
  IsDir-Reads s r =
      let (_, kind, size) = r.moves.meta dp in
      record {
        fine = r.moves.fine;
        spare = Spare-after b s dp r.moves dir.spare;
        type = kind ∙ dir.type;
        size = size ∙ dir.size;
        small = dir.small;
        filled = λ k h z.
            let small = dir.small in
            dir.filled k h (null_before b s dp (k / bsize) r.moves (omega arith) z);
      }

  -- The local entry after the read of slot `k`.
  pub record SlotRead (s : Fs) (dev : Devsw) (k : ℕ) (de : Buffer) : Type 0 where
    pub entry : Buffer
    pub state : Fs
    pub runs : readi dev dp de (k * 16) dirent_size s ≡ ok ((some dirent_size, entry), state)
    pub reads : Reads b state
    pub inum : dirent_inum entry ≡ inum_at b dp k
    pub name : text dirsiz entry 2 ≡ name_at b dp k

  pub read_slot :
      (s : Fs) (dev : Devsw) (k : ℕ) (de : Buffer) → Reads b s → k < count → SlotRead s dev k de
  read_slot s dev k de r h =
      let here = IsDir-Reads s r in
      let small = dir.small in
      let size = here.size in
      let whole : readable s dp (k * 16) 16 ≡ 16 =
        rw (ltb_of_le (s.inode dp).size (k * 16 + 16) (omega arith)) refl in
      elim (readi-reads dev dp de (k * 16) 16 s here.fine (λ e. let t = here.type in cc (t, e))
        (omega arith) (omega arith) (omega arith)) [
          | inl (inl x, _) ↦ absurd (omega arith)
          | inl (inr x, _) ↦ absurd (omega arith)
          | inr (_, inl (i, low, high, z, _, _)) ↦ absurd (here.filled i (omega arith) z)
          | inr (_, inr ((c, d), t, run, (e, f))) ↦
              let byte : (j : ℕ) → j < 16 → d j ≡ file_byte b dp (k * 16 + j) =
                λ j l. f.inside j (omega arith) ∙ r.bytes dp (k * 16 + j) (omega arith) in
              let at : k * 16 + 0 ≡ k * 16 = omega arith in
              let first : d 0 ≡ file_byte b dp (k * 16) =
                byte 0 (omega arith) ∙ ap (file_byte b dp) at in
              record {
                entry = d;
                state = t;
                runs = run ∙ ap (λ x. ok ((x, d), t)) (e ∙ ap some whole);
                reads = record {
                  moves = Moves-trans b s t r.moves f.moves;
                  state = f.steady (λ i low high. here.filled i (omega arith)) ∙ r.state;
                  bytes = λ p i l. f.bytes p i l ∙ r.bytes p i l;
                };
                inum = rw (first, byte 1 (omega arith)) refl;
                name = text-same dirsiz d (file_byte b dp) 2 (k * 16 + 2) (λ j l.
                    let split : k * 16 + 2 + j ≡ k * 16 + (2 + j) = omega arith in
                    byte (2 + j) (omega arith) ∙ sym (ap (file_byte b dp) split));
              }
        ]
