-- ===== src/Fs.antt =====
-- The file system on its blocks (xv6-public/fs.c and xv6-public/fs.h): the free map, the block tree
-- of an inode, and what a file system call hands to the log. One device; a block is its bytes, and
-- the buffer cache is transparent, so that bread and brelse leave no trace.
pub mod Bytes
pub mod Bitmap
pub mod Freemap
pub mod Grow
pub mod Tree
pub mod Enter
pub mod Unique
pub mod Keep
pub mod Room
pub mod Fetch
pub mod Route
pub mod Bmap
pub mod Distinct
pub mod Names
pub mod Cache
pub mod Steady
pub mod Content
pub mod Moves
pub mod File
pub mod Write
pub mod Resize
pub mod Writei
pub mod Read
pub mod Readi
pub mod Release
pub mod Dinode
pub mod Layout
pub mod Inodes
pub mod Ialloc
pub mod Dir
pub mod Slots
pub mod Lookup
pub mod Empty
pub mod Link
pub mod Dirlink
use hyu_ele.Base.{
  ℕ, zero, suc, ◌+◌, ◌-◌, ◌*◌, ◌/◌, ◌%◌, ◌^◌, Bool, true, false, not, ◌==◌, ◌!=◌, ltb,
  if◌then◌else◌, update, Option, none, some, List, [], ◌∷◌, ◌++◌,
}
use hyu_ele.Base.Run.{M, pure, fail, stuck, modify, gets, when, ◌>>=◌, ◌>>◌}

abbrev pub bsize : ℕ
bsize = 512

abbrev pub ndirect : ℕ
ndirect = 10

abbrev pub nindirect : ℕ
nindirect = 128

abbrev pub nindirect2 : ℕ
nindirect2 = 16384

abbrev pub nindirect3 : ℕ
nindirect3 = 2097152

-- Bits of a block of the free map.
abbrev pub bpb : ℕ
bpb = 4096

-- struct inode: the cached copy of an inode, without its lock and its device.
pub record Inode : Type 0 where
  pub inum : ℕ
  pub ref : ℕ
  pub valid : Bool
  pub type : ℕ
  pub major : ℕ
  pub minor : ℕ
  pub nlink : ℕ
  pub size : ℕ
  pub addrs : ℕ → ℕ

-- The superblock, the bytes of each block, the entries of the inode cache, and the blocks that were
-- passed to log_write, in order.
pub record Fs : Type 0 where
  pub size : ℕ
  pub ninodes : ℕ
  pub inodestart : ℕ
  pub bmapstart : ℕ
  pub data_at : ℕ → ℕ → ℕ
  pub inode : ℕ → Inode
  pub logged : List ℕ

abbrev pub D : Type 0 → Type 0
D = M Fs

-- A call of log_write, kept as an event: the log itself is in Log.
abbrev pub call_log_write : ℕ → D (Unit {0})
call_log_write b = modify (λ s. record s { logged = s.logged ++ b ∷ [] })

-- BBLOCK(b, sb)
abbrev pub bblock : Fs → ℕ → ℕ
bblock s b = b / bpb + s.bmapstart

-- `1 << k`, and `byte & m` for such a mask `m`.
abbrev pub mask : ℕ → ℕ
mask k = 2 ^ k

abbrev pub has_bit : ℕ → ℕ → Bool
has_bit byte k = (byte / mask k) % 2 != 0

-- `bp->data[bi/8] & (1 << (bi % 8))` in block `blk`.
abbrev pub bit_at : Fs → ℕ → ℕ → Bool
bit_at s blk bi = has_bit (s.data_at blk (bi / 8)) (bi % 8)

abbrev pub set_byte : ℕ → ℕ → ℕ → Fs → Fs
set_byte b i v s = record s { data_at = update s.data_at b (update (s.data_at b) i v) }

unfoldable pub bzero : ℕ → D (Unit {0})
bzero b = do
  modify (λ s. record s {
    data_at = update s.data_at b (λ i. if ltb i bsize then 0 else s.data_at b i);
  })
  call_log_write b

-- The branch of balloc for a free block: the bit is clear, so that `|=` adds the mask.
unfoldable pub take_block : ℕ → ℕ → D (Option ℕ)
take_block b bi = do
  modify (λ s. set_byte (bblock s b) (bi / 8) (s.data_at (bblock s b) (bi / 8) + mask (bi % 8)) s)
  blk ← gets (λ s. bblock s b)
  call_log_write blk
  bzero (b + bi)
  pure (some (b + bi))

-- The inner loop of balloc, for the rounds that are left, and the outer one.
unfoldable pub balloc_bits : ℕ → ℕ → ℕ → D (Option ℕ)
balloc_bits zero b bi = pure none
balloc_bits (suc n) b bi = do
  size ← gets (λ s. s.size)
  busy ← gets (λ s. bit_at s (bblock s b) bi)
  let rest = balloc_bits n b (bi + 1)
  (if ltb (b + bi) size then (if busy then rest else take_block b bi) else pure none)

abbrev pub or_else : Option ℕ → D ℕ → D ℕ
or_else (some b) rest = pure b
or_else none rest = rest

unfoldable pub balloc_blocks : ℕ → ℕ → D ℕ
balloc_blocks zero b = stuck
balloc_blocks (suc n) b = do
  size ← gets (λ s. s.size)
  let rest = balloc_blocks n (b + bpb)
  let scan = (do r ← balloc_bits bpb b 0; or_else r rest)
  (if ltb b size then scan else fail)

unfoldable pub balloc : D ℕ
balloc = do size ← gets (λ s. s.size); balloc_blocks (size / bpb + 2) 0

-- The bit is set, so that `&= ~m` takes the mask off.
unfoldable pub bfree : ℕ → D (Unit {0})
bfree b = do
  blk ← gets (λ s. bblock s b)
  byte ← gets (λ s. s.data_at blk (b % bpb / 8))
  when (not (has_bit byte (b % bpb % 8))) fail
  modify (set_byte blk (b % bpb / 8) (byte - mask (b % bpb % 8)))
  call_log_write blk

-- `a[i]` of a block seen as an array of uint, and its assignment.
abbrev pub word_of : (ℕ → ℕ) → ℕ → ℕ
word_of d i = d (i * 4) + d (i * 4 + 1) * 256 + d (i * 4 + 2) * 65536 + d (i * 4 + 3) * 16777216

abbrev pub put_word : (ℕ → ℕ) → ℕ → ℕ → ℕ → ℕ
put_word d i v =
    update
      (update (update (update d (i * 4) (v % 256)) (i * 4 + 1) (v / 256 % 256)) (i * 4 + 2)
        (v / 65536 % 256))
      (i * 4 + 3) (v / 16777216 % 256)

abbrev pub word_at : Fs → ℕ → ℕ → ℕ
word_at s b i = word_of (s.data_at b) i

abbrev pub set_word : ℕ → ℕ → ℕ → Fs → Fs
set_word b i v s = record s { data_at = update s.data_at b (put_word (s.data_at b) i v) }

abbrev pub set_inode : ℕ → (Inode → Inode) → D (Unit {0})
set_inode ip f = modify (λ s. record s { inode = update s.inode ip (f (s.inode ip)) })

-- bmap's two ways to follow a pointer, which allocate where it is null: `ip->addrs[k]`, and entry `i`
-- of the indirect block `b`.
unfoldable pub follow_addr : ℕ → ℕ → D ℕ
follow_addr ip k = do
  addr ← gets (λ s. (s.inode ip).addrs k)
  let fresh = (do b ← balloc; set_inode ip (λ i. record i { addrs = update i.addrs k b }); pure b)
  (if addr == 0 then fresh else pure addr)

unfoldable pub follow_entry : ℕ → ℕ → D ℕ
follow_entry b i = do
  addr ← gets (λ s. word_at s b i)
  let fresh = (do n ← balloc; modify (set_word b i n); call_log_write b; pure n)
  (if addr == 0 then fresh else pure addr)

-- The three levels of bmap below the direct blocks.
unfoldable pub bmap_single : ℕ → ℕ → D ℕ
bmap_single ip bn = do b ← follow_addr ip ndirect; follow_entry b bn

unfoldable pub bmap_double : ℕ → ℕ → D ℕ
bmap_double ip bn = do
  b ← follow_addr ip (ndirect + 1)
  c ← follow_entry b (bn / nindirect)
  follow_entry c (bn % nindirect)

unfoldable pub bmap_triple : ℕ → ℕ → D ℕ
bmap_triple ip bn = do
  b ← follow_addr ip (ndirect + 2)
  c ← follow_entry b (bn / nindirect2)
  e ← follow_entry c (bn % nindirect2 / nindirect)
  follow_entry e (bn % nindirect2 % nindirect)

unfoldable pub bmap : ℕ → ℕ → D ℕ
bmap ip bn =
    let bn1 = bn - ndirect in
    let bn2 = bn1 - nindirect in
    let bn3 = bn2 - nindirect2 in
    if ltb bn ndirect
    then follow_addr ip bn
    else if ltb bn1 nindirect
    then bmap_single ip bn1
    else if ltb bn2 nindirect2
    then bmap_double ip bn2
    else if ltb bn3 nindirect3
    then bmap_triple ip bn3
    else fail
