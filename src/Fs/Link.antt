-- ===== src/Fs/Link.antt =====
-- A directory after its new entry is written.

use hyu_ele.Base.{
  ℕ, ◌+◌, ◌-◌, ◌*◌, ◌/◌, ◌%◌, ◌<◌, ◌≤◌, ◌≡◌, ◌≢◌, refl, sym, ◌∙◌, ap, ltb, if◌then◌else◌, arith,
  inl, inr, dec_lt,
}
use hyu_ele.Str.{Memory, text}
use hyu_ele.Fs.{Fs, bsize}
use hyu_ele.Fs.Bmap.{tree_size}
use hyu_ele.Fs.Content.{file_byte}
use hyu_ele.Fs.Names.{dirsiz}
use hyu_ele.Fs.File.{Buffer}
use hyu_ele.Fs.Writei.{Written}
use hyu_ele.Fs.Dir.{new_dirent}
use hyu_ele.Fs.Slots.{IsDir, IsDir-Reads, Reads, inum_at, name_at, text-same}
use hyu_ele.Fs.Empty.{new_dirent_name, new_dirent_inum}

abbrev pub slots_after : ℕ → ℕ → ℕ
slots_after count k = if ltb count (k + 1) then k + 1 else count

-- The name stands in slot `k` with the number; the other slots and the other files stay.
pub record Linked (s s' : Fs) (dp count k : ℕ) (name : Memory) (inum : ℕ) : Type 0 where
  pub dir : IsDir s' dp (slots_after count k)
  pub number : inum_at s' dp k ≡ inum % 65536
  pub named : name_at s' dp k ≡ text dirsiz name 0
  pub numbers : (i : ℕ) → i < count → i ≢ k → inum_at s' dp i ≡ inum_at s dp i
  pub names : (i : ℕ) → i < count → i ≢ k → name_at s' dp i ≡ name_at s dp i
  pub files : (p i : ℕ) → i / bsize < tree_size → p ≢ dp → file_byte s' p i ≡ file_byte s p i

module _ (s t u : Fs) (dp count k : ℕ) (d : Buffer) (name : Memory) (inum : ℕ)
    (dir : IsDir s dp count) (r : Reads s t) (h : k ≤ count)
    (fits : k * 16 + 16 ≤ tree_size * bsize)
    (w : Written t u dp (new_dirent d name inum) (k * 16) 16) where
  after-IsDir : IsDir u dp (slots_after count k)
  after-IsDir =
      let here = IsDir-Reads s dp count dir t r in
      let size = here.size in
      let small = here.small in
      let total = w.size in
      record {
        fine = w.fine;
        spare = w.spare;
        type = w.type ∙ here.type;
        size = total ∙ rw size (ground arith);
        small = ground arith;
        filled = λ j l. elim (dec_lt j (k * 16)) [
          | yes i ↦ w.kept dp (j / bsize) (omega arith) (here.filled j (omega arith))
          | no i ↦ elim (dec_lt j (k * 16 + 16)) [
            | yes i' ↦ w.present j (omega arith) i'
            | no i' ↦
                let old : j < count * 16 = ground arith in
                w.kept dp (j / bsize) (omega arith) (here.filled j old)
          ]
        ];
      }

  -- The bytes of the slot, and those of another.
  entry_byte : (j : ℕ) → j < 16 → file_byte u dp (k * 16 + j) ≡ new_dirent d name inum j
  entry_byte j l =
      let at : k * 16 + j - k * 16 ≡ j = omega arith in
      w.inside (k * 16 + j) (omega arith) (omega arith) ∙ ap (new_dirent d name inum) at

  other_byte :
      (i j : ℕ)
      → i < count
      → i ≢ k
      → j < 16
      → file_byte u dp (i * 16 + j) ≡ file_byte s dp (i * 16 + j)
  other_byte i j a n l =
      let small = dir.small in
      w.outside dp (i * 16 + j) (omega arith)
        (elim (dec_lt i k) [ yes x ↦ inr (inl (omega arith)) | no x ↦ inr (inr (ground arith)) ])
      ∙ r.bytes dp (i * 16 + j) (omega arith)

  pub entry-Linked : Linked s u dp count k name inum
  entry-Linked =
      let start : (i : ℕ) → i * 16 + 0 ≡ i * 16 = (λ i. omega arith) in
      let split : (i j : ℕ) → i * 16 + 2 + j ≡ i * 16 + (2 + j) = (λ i j. omega arith) in
      record {
        dir = after-IsDir;
        number =
            let first : file_byte u dp (k * 16) ≡ new_dirent d name inum 0 =
              ap (file_byte u dp) (sym (start k)) ∙ entry_byte 0 (omega arith) in
            rw (first, entry_byte 1 (omega arith)) (new_dirent_inum d name inum);
        named =
            text-same dirsiz (file_byte u dp) (new_dirent d name inum) (k * 16 + 2) 2
              (λ j l. ap (file_byte u dp) (split k j) ∙ entry_byte (2 + j) (omega arith))
            ∙ new_dirent_name d name inum;
        numbers = λ i a n.
            let first : file_byte u dp (i * 16) ≡ file_byte s dp (i * 16) =
              ap (file_byte u dp) (sym (start i))
              ∙ other_byte i 0 a n (omega arith)
              ∙ ap (file_byte s dp) (start i) in
            rw (first, other_byte i 1 a n (omega arith)) refl;
        names = λ i a n.
            text-same dirsiz (file_byte u dp) (file_byte s dp) (i * 16 + 2) (i * 16 + 2) (λ j l.
              ap (file_byte u dp) (split i j)
              ∙ other_byte i (2 + j) a n (omega arith)
              ∙ ap (file_byte s dp) (sym (split i j)));
        files = λ p i l n. w.outside p i l (inl n) ∙ r.bytes p i l;
      }
