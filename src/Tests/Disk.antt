-- ===== src/Tests/Disk.antt =====
-- A disk of 64 blocks with its free map in block 10: the blocks below 16 are in use, and inode 1 has
-- block 12 as its first.
use mathlib.Core.Path.{subst}
use hyu_ele.Base.{
  [], ℕ, suc, ◌≡◌, ◌≢◌, refl, sym, ◌∙◌, true, Bool-cases, ◌==◌, ==_iff, ltb, if◌then◌else◌, arith,
  inl, inr, [],
}
use hyu_ele.Fs.{Fs}
use hyu_ele.Fs.Bitmap.{in_use}
use hyu_ele.Fs.Grow.{Laid, Owned}
use hyu_ele.Fs.Tree.{Reaches, top, entry, Sound}
use hyu_ele.Fs.Unique.{Slot, root, Points, by_root, by_cell, Unique, Fine}
use hyu_ele.Fs.File.{iblock}
use hyu_ele.Fs.Moves.{Spare}

abbrev pub first_block : ℕ → ℕ → ℕ
first_block q k = if q == 1 then (if k == 0 then 12 else 0) else 0

-- Every inode has this type and this size. Block 12 starts with the entry "." of a directory.
abbrev pub disk_of : ℕ → ℕ → Fs
disk_of type size = record {
  size = 64;
  ninodes = 16;
  inodestart = 2;
  bmapstart = 10;
  data_at = λ b i.
      if b == 10
      then (if ltb i 2 then 255 else 0)
      else if b == 12
      then (if i == 0 then 1 else if i == 2 then 46 else 0)
      else 0;
  inode = λ q. record {
    inum = q;
    ref = 1;
    valid = true;
    type = type;
    major = 0;
    minor = 0;
    nlink = 1;
    size = size;
    addrs = first_block q;
  };
  logged = [];
}

first_block-root : (q k b : ℕ) → first_block q k ≡ b → b ≢ 0 → (q ≡ 1) × (k ≡ 0) × (b ≡ 12)
first_block-root q k b e n = elim (Bool-cases (q == 1)) [
  | inr z ↦ absurd (n (sym e ∙ rw z refl))
  | inl y ↦ elim (Bool-cases (k == 0)) [
    | inr z ↦ absurd (n (sym e ∙ rw (y, z) refl))
    | inl z ↦ ((==_iff q 1).0 y, (==_iff k 0).0 z, sym e ∙ rw (y, z) refl)
  ]
]

module _ (type size : ℕ) where
  abbrev disk : Fs
  disk = disk_of type size

  disk-Laid : Laid disk
  disk-Laid = record {
    small = omega arith;
    plain = λ c h idle e k z.
        let at : c ≡ 10 = omega arith in
        let busy : in_use disk c ≡ true = rw at refl in absurd (cc (busy, idle));
    boot = refl;
  }

  only_direct : (q l b : ℕ) → Reaches disk q l b → (l ≡ 0) × (b ≡ 12)
  only_direct q l b (top {k} h a e n) =
      let (_, at, eq) = first_block-root q k b e n in (a ∙ rw at refl, eq)
  only_direct q l b (entry {c} r h e n) = let (z, _) = only_direct q (suc l) c r in absurd (cc z)

  disk-Sound : Sound disk
  disk-Sound q l b r =
      let (_, at) = only_direct q l b r in
      subst (λ v. Owned disk v) (sym at)
        (record { on_disk = omega arith; busy = refl; plain = λ e k z. omega arith })

  only_root : (x : Slot) (b : ℕ) → Points disk x b → x ≡ root 1 0
  only_root x b (by_root {q} {k} h e n) =
      let (file, at, _) = first_block-root q k b e n in cc (file, at)
  only_root x b (by_cell {q} {l} {c} r h e n) =
      let (z, _) = only_direct q (suc l) c r in absurd (cc z)

  disk-Unique : Unique disk
  disk-Unique x y b p q = only_root x b p ∙ sym (only_root y b q)

  pub disk-Fine : Fine disk
  disk-Fine = record { laid = disk-Laid; sound = disk-Sound; unique = disk-Unique }

  pub disk-Spare : Spare disk (iblock disk 1)
  disk-Spare = record {
    owned = record { on_disk = omega arith; busy = refl; plain = λ e k z. omega arith };
    no_file = λ q l b r z. let (_, at) = only_direct q l b r in let same = sym at ∙ z in cc same;
  }
