-- ===== src/Fs/Inodes.antt =====
-- iupdate and ilock: an inode that is written to the disk is read back from it.

use hyu_ele.Base.{
  ℕ, ◌+◌, ◌*◌, ◌/◌, ◌%◌, ◌<◌, ◌≤◌, ◌≡◌, ◌≢◌, refl, sym, ◌∙◌, ap, true, false, ◌==◌, ==_iff,
  ==_of_ne, Bool-cases, ltb_of_lt, arith, ◌⊎◌, inl, inr, update, ◌++◌, ◌∷◌, [],
}
use hyu_ele.Base.Run.{ok, panic, fail, when}
use hyu_ele.Fs.{Fs, Inode, word_of}
use hyu_ele.Fs.File.{Buffer, iblock, put_dinode, iupdate}
use hyu_ele.Fs.Dinode.{half_of, get_dinode, dip, read_inode, ilock}
use hyu_ele.Fs.Layout.{SameFields, InRange, get-put_dinode, put_dinode_other}

-- The inode `inum` as the disk has it. The fields that the disk does not keep are those of `i`.
abbrev pub disk_inode : Fs → ℕ → Inode → Inode
disk_inode s inum i = get_dinode i (dip inum) (s.data_at (iblock s inum))

-- The blocks of inodes are as in `s`, but for inode `inum`, whose place has the fields of `i`.
pub record Stored (s s' : Fs) (inum : ℕ) (i : Inode) : Type 0 where
  pub start : s'.inodestart ≡ s.inodestart
  pub stored : (j : Inode) → SameFields (disk_inode s' inum j) i
  pub others : (n : ℕ) (j : Inode) → n ≢ inum → SameFields (disk_inode s' n j) (disk_inode s n j)
  pub cache : (q : ℕ) → s'.inode q ≡ s.inode q

SameFields-trans : (i j k : Inode) → SameFields i j → SameFields j k → SameFields i k
SameFields-trans i j k f g = record {
  type = f.type ∙ g.type;
  major = f.major ∙ g.major;
  minor = f.minor ∙ g.minor;
  nlink = f.nlink ∙ g.nlink;
  size = f.size ∙ g.size;
  addrs = λ k h. f.addrs k h ∙ g.addrs k h;
}

-- Two blocks that agree on the 64 bytes of an inode have the same inode there.
pub same_bytes :
    (w : ℕ) (d e : Buffer) (j : Inode)
    → ((p : ℕ) → w * 4 ≤ p → p < w * 4 + 64 → d p ≡ e p)
    → SameFields (get_dinode j w d) (get_dinode j w e)
unfolding get_dinode
same_bytes w d e j at =
    let word : (v : ℕ) → w ≤ v → v < w + 16 → word_of d v ≡ word_of e v = (λ v a b.
      rw
        (
          at (v * 4) (omega arith) (omega arith),
          at (v * 4 + 1) (omega arith) (omega arith),
          at (v * 4 + 2) (omega arith) (omega arith),
          at (v * 4 + 3) (omega arith) (omega arith),
        )
        refl) in
    let half : (p : ℕ) → w * 4 ≤ p → p + 1 < w * 4 + 64 → half_of d p ≡ half_of e p =
      (λ p a b. rw (at p a (omega arith), at (p + 1) (omega arith) b) refl) in
    record {
      type = half (w * 4) (omega arith) (omega arith);
      major = half (w * 4 + 2) (omega arith) (omega arith);
      minor = half (w * 4 + 4) (omega arith) (omega arith);
      nlink = half (w * 4 + 6) (omega arith) (omega arith);
      size = word (w + 2) (omega arith) (omega arith);
      addrs = λ k l. rw (ltb_of_lt k 13 l) (word (w + 3 + k) (omega arith) (omega arith));
    }

module _ (s : Fs) (ip : ℕ) where
  abbrev inum : ℕ
  inum = (s.inode ip).inum

  abbrev pub written : Fs
  written = record s {
    data_at =
        update s.data_at (iblock s inum)
          (put_dinode (s.inode ip) (dip inum) (s.data_at (iblock s inum)));
    logged = s.logged ++ iblock s inum ∷ [];
  }

  place : (n : ℕ) (j : Inode) → n ≢ inum → SameFields (disk_inode written n j) (disk_inode s n j)
  place n j apart = same_bytes (dip n) _ (s.data_at (iblock s n)) j (λ p a b.
      elim (Bool-cases (iblock s n == iblock s inum)) [
        | inr x ↦ rw x refl
        | inl x ↦
            let same : iblock s n ≡ iblock s inum = (==_iff _ _).0 x in
            let near : n / 8 ≡ inum / 8 = omega arith in
            let far : n % 8 ≢ inum % 8 = (λ e. apart (omega arith)) in
            rw x (
              put_dinode_other (s.inode ip) (dip inum) (s.data_at (iblock s inum)) p (ground arith)
              ∙ sym (ap (λ b. s.data_at b p) same))
      ])

  written-Stored : InRange (s.inode ip) → Stored s written inum (s.inode ip)
  written-Stored small = record {
    start = refl;
    stored = λ j.
        rw ((==_iff (iblock s inum) (iblock s inum)).1 refl)
          (get-put_dinode (s.inode ip) (dip inum) (s.data_at (iblock s inum)) small j);
    others = place;
    cache = λ q. refl;
  }

-- iupdate writes the fields of the entry to the place of its inode on the disk, and leaves the other
-- inodes of the disk and the cache alone, where each field fits its place.
pub iupdate-Stored :
    (ip : ℕ) (s : Fs)
    → InRange (s.inode ip)
    → (s' : Fs) × (iupdate ip s ≡ ok (tt, s')) × Stored s s' (s.inode ip).inum (s.inode ip)
unfolding iupdate
iupdate-Stored ip s small = (written s ip, refl, written-Stored s ip small)

-- The entry `q` has what the disk has of its inode; nothing else changed.
pub record Locked (s s' : Fs) (q : ℕ) : Type 0 where
  pub valid : (s'.inode q).valid ≡ true
  pub fields : SameFields (s'.inode q) (disk_inode s (s.inode q).inum (s.inode q))
  pub kept : ((s'.inode q).inum ≡ (s.inode q).inum) × ((s'.inode q).ref ≡ (s.inode q).ref)
  pub others : (a : ℕ) → a ≢ q → s'.inode a ≡ s.inode a
  pub data_at : s'.data_at ≡ s.data_at

module _ (q : ℕ) (s : Fs) where
  abbrev found : Inode
  found = disk_inode s (s.inode q).inum (s.inode q)

  -- The two assignments of ilock to the entry, one after the other.
  abbrev read : Fs
  read = record s { inode = update s.inode q found }

  abbrev filled : Fs
  filled = record read { inode = update read.inode q (record (read.inode q) { valid = true }) }

  self : (q == q) ≡ true
  self = (==_iff q q).1 refl

  read_found : read.inode q ≡ found
  read_found = rw self refl

  filled_found : filled.inode q ≡ record found { valid = true }
  filled_found = rw self refl

  filled-Locked : Locked s filled q
  unfolding get_dinode
  filled-Locked = record {
    valid = ap (λ i. i.valid) filled_found;
    fields = record {
      type = ap (λ i. i.type) filled_found;
      major = ap (λ i. i.major) filled_found;
      minor = ap (λ i. i.minor) filled_found;
      nlink = ap (λ i. i.nlink) filled_found;
      size = ap (λ i. i.size) filled_found;
      addrs = λ k h. ap (λ i. i.addrs k) filled_found;
    };
    kept = (ap (λ i. i.inum) filled_found, ap (λ i. i.ref) filled_found);
    others = λ a n. let apart = ==_of_ne a q n in rw apart refl;
    data_at = refl;
  }

  read_inode_runs : read_inode q s ≡ when ((filled.inode q).type == 0) fail filled
  unfolding read_inode
  read_inode_runs = refl

  ilock_runs : 0 < (s.inode q).ref → (s.inode q).valid ≡ false → ilock q s ≡ read_inode q s
  unfolding ilock
  ilock_runs live fresh =
      let used = ==_of_ne (s.inode q).ref 0 (λ e. omega arith) in simp (used, fresh) refl

-- ilock of an entry that was not read yet, and has a reference: it panics where the disk has no such
-- inode, and else fills the entry from the disk.
pub ilock-Locked :
    (q : ℕ) (s : Fs)
    → 0 < (s.inode q).ref
    → (s.inode q).valid ≡ false
    → (((disk_inode s (s.inode q).inum (s.inode q)).type ≡ 0) × (ilock q s ≡ panic))
      ⊎ (((disk_inode s (s.inode q).inum (s.inode q)).type ≢ 0)
          × ((s' : Fs) × (ilock q s ≡ ok (tt, s')) × Locked s s' q))
ilock-Locked q s live fresh =
    let start = ilock_runs q s live fresh ∙ read_inode_runs q s in
    let kind : ((filled q s).inode q).type ≡ (found q s).type =
      ap (λ i. i.type) (filled_found q s) in
    elim (Bool-cases (((filled q s).inode q).type == 0)) [
      | inl z ↦ inl (sym kind ∙ (==_iff _ 0).0 z, start ∙ ap (λ b. when b fail (filled q s)) z)
      | inr z ↦ inr (
        λ e. let t = (==_iff _ 0).1 (kind ∙ e) in cc (t, z),
        (filled q s, start ∙ ap (λ b. when b fail (filled q s)) z, filled-Locked q s),
      )
    ]

disk_inode_on :
    (u s : Fs) (n m : ℕ) (j i : Inode)
    → u.inodestart ≡ s.inodestart
    → u.data_at ≡ s.data_at
    → n ≡ m
    → SameFields (disk_inode s m j) i
    → SameFields (disk_inode u n j) i
disk_inode_on u s n m j i start blocks same f = rw (same, start, blocks) f

-- Where each field of an entry fits its place, and its type is not 0: after iupdate of the entry, ilock
-- of an entry of the same inode that has a reference and whose inode has not been read yet, in any later
-- state in which the disk has these blocks, does not panic and gives that entry the same fields.
pub ilock-iupdate :
    (ip : ℕ) (s : Fs)
    → InRange (s.inode ip)
    → (s.inode ip).type ≢ 0
    → (s' : Fs) × (iupdate ip s ≡ ok (tt, s'))
      × ((q : ℕ) (u : Fs)
          → u.inodestart ≡ s'.inodestart
          → u.data_at ≡ s'.data_at
          → (u.inode q).inum ≡ (s.inode ip).inum
          → 0 < (u.inode q).ref
          → (u.inode q).valid ≡ false
          → (u' : Fs) × (ilock q u ≡ ok (tt, u')) × SameFields (u'.inode q) (s.inode ip))
ilock-iupdate ip s small kind =
    let (s', run, f) = iupdate-Stored ip s small in
    (
      s',
      run,
      λ q u start blocks same live fresh.
          let on_disk : SameFields (disk_inode u (u.inode q).inum (u.inode q)) (s.inode ip) =
            disk_inode_on u s' (u.inode q).inum (s.inode ip).inum (u.inode q) (s.inode ip) start
              blocks same (f.stored (u.inode q)) in
          elim (ilock-Locked q u live fresh) [
            | inl (none_there, _) ↦ absurd (kind (sym on_disk.type ∙ none_there))
            | inr (_, (u', run', g)) ↦ (u', run', SameFields-trans _ _ _ g.fields on_disk)
          ],
    )
