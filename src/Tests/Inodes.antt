-- ===== src/Tests/Inodes.antt =====
-- Inodes of a small disk that has them in blocks 2 and 3, all of them zero.
use hyu_ele.Base.{ℕ, ◌<◌, ◌≤◌, ◌≡◌, ◌≢◌, arith, ◌⊎◌, false}
use hyu_ele.Base.Run.{ok, panic}
use hyu_ele.Fs.{Fs}
use hyu_ele.Fs.Cache.{iget}
use hyu_ele.Fs.File.{iupdate}
use hyu_ele.Fs.Dinode.{ilock, ialloc}
use hyu_ele.Fs.Layout.{SameFields, InRange}
use hyu_ele.Fs.Inodes.{ilock-iupdate}
use hyu_ele.Fs.Ialloc.{type_at, Claimed, ialloc-first}
use hyu_ele.Tests.Disk.{disk_of, first_block}

abbrev disk : Fs
disk = disk_of 2 100

first_block_small : (k : ℕ) → first_block 3 k < 4294967296
first_block_small k = omega arith

entry-InRange : InRange (disk.inode 3)
entry-InRange = record {
  type = omega arith;
  major = omega arith;
  minor = omega arith;
  nlink = omega arith;
  size = omega arith;
  addrs = λ k h. first_block_small k;
}

ilock-iupdate_example :
    (s' : Fs) × (iupdate 3 disk ≡ ok (tt, s'))
    × ((q : ℕ) (u : Fs)
        → u.inodestart ≡ s'.inodestart
        → u.data_at ≡ s'.data_at
        → (u.inode q).inum ≡ 3
        → 0 < (u.inode q).ref
        → (u.inode q).valid ≡ false
        → (u' : Fs) × (ilock q u ≡ ok (tt, u')) × SameFields (u'.inode q) (disk.inode 3))
ilock-iupdate_example = ilock-iupdate 3 disk entry-InRange (λ e. cc e)

ialloc-first_example :
    (((m : ℕ) → 1 ≤ m → m < 16 → type_at disk m ≢ 0) × (ialloc 1 disk ≡ panic))
    ⊎ ((n : ℕ) × (1 ≤ n)
        × (n < 16)
        × ((m : ℕ) → 1 ≤ m → m < n → type_at disk m ≢ 0)
        × (type_at disk n ≡ 0)
        × ((s' : Fs) × (ialloc 1 disk ≡ iget n s') × Claimed disk s' n 1))
ialloc-first_example = ialloc-first 1 disk
