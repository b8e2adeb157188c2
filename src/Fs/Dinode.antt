-- ===== src/Fs/Dinode.antt =====
-- The inodes on the disk: ilock, ialloc and stati of xv6-public/fs.c. The sleep lock of an inode is left
-- to Locks.
use hyu_ele.Base.{ℕ, zero, suc, ◌+◌, ◌*◌, ◌%◌, ◌==◌, true, not, ltb, if◌then◌else◌}
use hyu_ele.Base.Run.{fail, stuck, modify, gets, when, ◌>>=◌, ◌>>◌}
use hyu_ele.Str.{memset}
use hyu_ele.Fs.{D, Inode, word_of, set_inode, call_log_write}
use hyu_ele.Fs.Cache.{iget}
use hyu_ele.Fs.File.{Buffer, ipb, iblock, put_half, set_block}

-- A short at index `i`.
abbrev pub half_of : Buffer → ℕ → ℕ
half_of d i = d i + d (i + 1) * 256

-- What ilock reads from the struct dinode of 64 bytes that starts at word `w` of a block.
unfoldable pub get_dinode : Inode → ℕ → Buffer → Inode
get_dinode i w d = record i {
  type = half_of d (w * 4);
  major = half_of d (w * 4 + 2);
  minor = half_of d (w * 4 + 4);
  nlink = half_of d (w * 4 + 6);
  size = word_of d (w + 2);
  addrs = λ k. if ltb k 13 then word_of d (w + 3 + k) else i.addrs k;
}

-- Word `dip` of a block, where the inode `inum` starts.
abbrev pub dip : ℕ → ℕ
dip inum = inum % ipb * 16

unfoldable pub read_inode : ℕ → D (Unit {0})
read_inode ip = do
  i ← gets (λ s. s.inode ip)
  page ← gets (λ s. s.data_at (iblock s i.inum))
  set_inode ip (λ j. get_dinode j (dip i.inum) page)
  set_inode ip (λ j. record j { valid = true })
  type ← gets (λ s. (s.inode ip).type)
  when (type == 0) fail

unfoldable pub ilock : ℕ → D (Unit {0})
ilock ip = do i ← gets (λ s. s.inode ip); when (i.ref == 0) fail; when (not i.valid) (read_inode ip)

pub record Stat : Type 0 where
  pub ino : ℕ
  pub type : ℕ
  pub nlink : ℕ
  pub size : ℕ

unfoldable pub stati : ℕ → D Stat
stati ip = gets (λ s. record {
  ino = (s.inode ip).inum;
  type = (s.inode ip).type;
  nlink = (s.inode ip).nlink;
  size = (s.inode ip).size;
})

-- The branch of ialloc for a free inode.
unfoldable pub claim : ℕ → ℕ → D ℕ
claim inum type = do
  blk ← gets (λ s. iblock s inum)
  modify (set_block blk (λ d. put_half (memset (dip inum * 4) 0 64 d) (dip inum * 4) type))
  call_log_write blk
  iget inum

unfoldable pub ialloc_loop : ℕ → ℕ → ℕ → D ℕ
ialloc_loop zero inum type = stuck
ialloc_loop (suc n) inum type = do
  ninodes ← gets (λ s. s.ninodes)
  kind ← gets (λ s. half_of (s.data_at (iblock s inum)) (dip inum * 4))
  let next = ialloc_loop n (inum + 1) type
  (if ltb inum ninodes then (if kind == 0 then claim inum type else next) else fail)

unfoldable pub ialloc : ℕ → D ℕ
ialloc type = do ninodes ← gets (λ s. s.ninodes); ialloc_loop (ninodes + 1) 1 type
