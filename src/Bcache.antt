-- ===== src/Bcache.antt =====
-- The buffer cache (xv6-public/bio.c and xv6-public/buf.h) on the memory disk of
-- xv6-public/memide.c. A buffer is its number, from 1 on; number 0 is bcache.head. bcache.lock makes
-- each function one step up to its acquiresleep.
pub mod Lists
pub mod Ready
pub mod Scan
pub mod Get
pub mod Content
pub mod Read
pub mod Write
pub mod Release
use hyu_ele.Base.{
  ℕ, zero, suc, ◌+◌, ◌-◌, ◌*◌, Bool, true, false, not, ◌&&◌, ◌||◌, ◌==◌, ◌!=◌, leb, if◌then◌else◌,
  update, Option, none, some,
}
use hyu_ele.Base.Run.{M, pure, fail, stuck, modify, gets, when, ◌>>=◌, ◌>>◌}
use hyu_ele.Links.{Links, set_next, set_prev, list_head_init}

abbrev pub nbuf : ℕ
nbuf = 30

-- struct buf without its links: the flags B_VALID and B_DIRTY, the thread that holds its sleep lock,
-- or 0, and its bytes.
pub record Buf : Type 0 where
  pub valid : Bool
  pub dirty : Bool
  pub dev : ℕ
  pub blockno : ℕ
  pub holder : ℕ
  pub refcnt : ℕ
  pub bytes : ℕ → ℕ

-- bcache, and the memory disk: its size in blocks and the bytes of each block.
pub record Bcache : Type 0 where
  pub links : Links
  pub buf : ℕ → Buf
  pub disksize : ℕ
  pub memdisk : ℕ → ℕ → ℕ

abbrev pub B : Type 0 → Type 0
B = M Bcache

abbrev pub set_buf : ℕ → (Buf → Buf) → Bcache → Bcache
set_buf b f s = record s { buf = update s.buf b (f (s.buf b)) }

-- `b` between the head and the first buffer.
unfoldable pub put_front : ℕ → Links → Links
unfolding set_next set_prev
put_front b m =
    let m1 = set_next b (m.next 0) m in
    let m2 = set_prev b 0 m1 in let m3 = set_prev (m2.next 0) b m2 in set_next 0 b m3

-- The loop of binit from `b` on, for the buffers that are left.
unfoldable pub binit_loop : ℕ → ℕ → Links → Links
binit_loop zero b m = m
binit_loop (suc n) b m = binit_loop n (b + 1) (put_front b m)

unfoldable pub binit : B (Unit {0})
binit = modify (λ s. record s { links = binit_loop nbuf 1 (list_head_init 0 s.links) })

abbrev pub caches : ℕ → ℕ → Buf → Bool
caches dev blockno b = b.dev == dev && b.blockno == blockno

-- The two loops of bget, for the buffers that are left.
unfoldable pub find_cached : ℕ → ℕ → ℕ → ℕ → B (Option ℕ)
find_cached zero b dev blockno = stuck
find_cached (suc n) b dev blockno = do
  hit ← gets (λ s. caches dev blockno (s.buf b))
  next ← gets (λ s. s.links.next b)
  let rest = find_cached n next dev blockno
  let found = (do modify (set_buf b (λ x. record x { refcnt = x.refcnt + 1 })); pure (some b))
  (if b == 0 then pure none else if hit then found else rest)

abbrev pub unused : Buf → Bool
unused b = b.refcnt == 0 && not b.dirty

unfoldable pub find_unused : ℕ → ℕ → ℕ → ℕ → B ℕ
find_unused zero b dev blockno = stuck
find_unused (suc n) b dev blockno = do
  hit ← gets (λ s. unused (s.buf b))
  prev ← gets (λ s. s.links.prev b)
  let rest = find_unused n prev dev blockno
  let found = (do
    modify (
        set_buf b (λ x. record x {
          dev = dev;
          blockno = blockno;
          valid = false;
          dirty = false;
          refcnt = 1;
        }))
    pure b)
  (if b == 0 then fail else if hit then found else rest)

-- bget up to its acquiresleep.
unfoldable pub bget : ℕ → ℕ → B ℕ
bget dev blockno = do
  first ← gets (λ s. s.links.next 0)
  r ← find_cached (nbuf + 1) first dev blockno
  last ← gets (λ s. s.links.prev 0)
  let recycled = find_unused (nbuf + 1) last dev blockno
  elim r [ some b ↦ pure b | none ↦ recycled ]

unfoldable pub iderw : ℕ → ℕ → B (Unit {0})
iderw me b = do
  x ← gets (λ s. s.buf b)
  when (x.holder != me) fail
  when (x.valid && not x.dirty) fail
  when (x.dev != 1) fail
  size ← gets (λ s. s.disksize)
  when (leb size x.blockno) fail
  let write = modify (λ s.
      set_buf b (λ y. record y { dirty = false; valid = true })
        (record s { memdisk = update s.memdisk x.blockno x.bytes }))
  let read = modify (λ s. set_buf b (λ y. record y { bytes = s.memdisk x.blockno; valid = true }) s)
  (if x.dirty then write else read)

-- bread from the acquiresleep of bget on, where no thread holds the lock of `b`.
unfoldable pub bread_locked : ℕ → ℕ → B ℕ
bread_locked me b = do
  modify (set_buf b (λ x. record x { holder = me }))
  valid ← gets (λ s. (s.buf b).valid)
  when (not valid) (iderw me b)
  pure b

unfoldable pub bwrite : ℕ → ℕ → B (Unit {0})
bwrite me b = do
  holder ← gets (λ s. (s.buf b).holder)
  when (holder != me) fail
  modify (set_buf b (λ x. record x { dirty = true }))
  iderw me b

-- brelse's move of `b` to the front of the list.
unfoldable pub to_front : ℕ → Links → Links
unfolding set_next set_prev put_front
to_front b m =
    let m1 = set_prev (m.next b) (m.prev b) m in
    let m2 = set_next (m1.prev b) (m1.next b) m1 in put_front b m2

unfoldable pub brelse : ℕ → ℕ → B (Unit {0})
brelse me b = do
  holder ← gets (λ s. (s.buf b).holder)
  when (holder != me) fail
  modify (set_buf b (λ x. record x { holder = 0; refcnt = x.refcnt - 1 }))
  count ← gets (λ s. (s.buf b).refcnt)
  when (count == 0) (modify (λ s. record s { links = to_front b s.links }))
