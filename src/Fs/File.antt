-- ===== src/Fs/File.antt =====
-- The content of a file: iupdate, readi and writei of xv6-public/fs.c. A buffer is the function of its
-- bytes, and a device is an argument, as devsw[] is in C.
use hyu_ele.Base.{
  ℕ, zero, suc, ◌+◌, ◌-◌, ◌*◌, ◌/◌, ◌%◌, ◌^◌, ◌==◌, ltb, leb, ◌||◌, ◌&&◌, if◌then◌else◌, update,
  min, Option, none, some,
}
use hyu_ele.Base.Run.{pure, stuck, modify, gets, ◌>>=◌, ◌>>◌}
use hyu_ele.Fs.{Fs, D, Inode, bsize, put_word, set_inode, call_log_write, bmap}

abbrev pub t_dev : ℕ
t_dev = 3

abbrev pub ndev : ℕ
ndev = 10

-- MAXFILE: the lesser of the blocks of a tree and 0.9 * FSSIZE.
abbrev pub maxfile : ℕ
maxfile = 36000

abbrev pub ipb : ℕ
ipb = 8

-- IBLOCK(i, sb)
abbrev pub iblock : Fs → ℕ → ℕ
iblock s i = i / ipb + s.inodestart

abbrev pub Buffer : Type 0
Buffer = ℕ → ℕ

-- The effect of memmove(dst + o, src + p, m) on two buffers that do not overlap.
abbrev pub copy_bytes : Buffer → ℕ → Buffer → ℕ → ℕ → Buffer
copy_bytes dst o src p m j =
    if ltb j o then dst j else if ltb j (o + m) then src (p + (j - o)) else dst j

-- devsw[]: the functions of a device, by its major number. A short that is below 0 is a natural from
-- 32768 on.
pub record Devsw : Type 0 where
  pub read : ℕ → Option (ℕ → Buffer → ℕ → D (Option ℕ × Buffer))
  pub write : ℕ → Option (ℕ → Buffer → ℕ → D (Option ℕ))

abbrev pub put_half : Buffer → ℕ → ℕ → Buffer
put_half d i v = update (update d i (v % 256)) (i + 1) (v / 256 % 256)

-- The copy of the first `n` of `ip->addrs` to the words from `w` on.
abbrev pub put_addrs : ℕ → (ℕ → ℕ) → ℕ → Buffer → Buffer
put_addrs zero addrs w d = d
put_addrs (suc n) addrs w d = put_word (put_addrs n addrs w d) (w + n) (addrs n)

-- The struct dinode of 64 bytes that starts at word `w` of a block.
unfoldable pub put_dinode : Inode → ℕ → Buffer → Buffer
put_dinode i w d =
    let d1 = put_half d (w * 4) i.type in
    let d2 = put_half d1 (w * 4 + 2) i.major in
    let d3 = put_half d2 (w * 4 + 4) i.minor in
    let d4 = put_half d3 (w * 4 + 6) i.nlink in
    put_addrs 13 i.addrs (w + 3) (put_word d4 (w + 2) i.size)

abbrev pub set_block : ℕ → (Buffer → Buffer) → Fs → Fs
set_block b f s = record s { data_at = update s.data_at b (f (s.data_at b)) }

unfoldable pub iupdate : ℕ → D (Unit {0})
iupdate ip = do
  i ← gets (λ s. s.inode ip)
  blk ← gets (λ s. iblock s i.inum)
  modify (set_block blk (put_dinode i (i.inum % ipb * 16)))
  call_log_write blk

-- The rounds of readi and writei from `tot` on.
unfoldable pub readi_loop : ℕ → ℕ → Buffer → ℕ → ℕ → ℕ → D Buffer
readi_loop zero ip dst tot off n = if ltb tot n then stuck else pure dst
readi_loop (suc k) ip dst tot off n =
    let m = min (n - tot) (bsize - off % bsize) in
    let round = (do
      b ← bmap ip (off / bsize)
      page ← gets (λ s. s.data_at b)
      readi_loop k ip (copy_bytes dst tot page (off % bsize) m) (tot + m) (off + m) n) in
    if ltb tot n then round else pure dst

unfoldable pub readi : Devsw → ℕ → Buffer → ℕ → ℕ → D (Option ℕ × Buffer)
readi dev ip dst off n = do
  i ← gets (λ s. s.inode ip)
  let absent = pure (none, dst)
  let device : D (Option ℕ × Buffer) = elim (dev.read i.major) [
    | none ↦ absent
    | some f ↦ f ip dst n
  ]
  let n' = if ltb i.size ((off + n) % 2 ^ 32) then i.size - off else n
  let content = (do dst' ← readi_loop n' ip dst 0 off n'; pure (some n', dst'))
  (if i.type == t_dev
      then (if leb ndev i.major then absent else device)
      else if ltb i.size off || ltb ((off + n) % 2 ^ 32) off
      then absent
      else content)

unfoldable pub writei_loop : ℕ → ℕ → Buffer → ℕ → ℕ → ℕ → D ℕ
writei_loop zero ip src tot off n = if ltb tot n then stuck else pure off
writei_loop (suc k) ip src tot off n =
    let m = min (n - tot) (bsize - off % bsize) in
    let round = (do
      b ← bmap ip (off / bsize)
      modify (set_block b (λ d. copy_bytes d (off % bsize) src tot m))
      call_log_write b
      writei_loop k ip src (tot + m) (off + m) n) in
    if ltb tot n then round else pure off

-- The end of writei, after the loop has come to `off`.
unfoldable pub grow_file : ℕ → ℕ → ℕ → D (Option ℕ)
grow_file ip off n = do
  i ← gets (λ s. s.inode ip)
  let larger = (do set_inode ip (λ j. record j { size = off }); iupdate ip; pure (some n))
  (if ltb 0 n && ltb i.size off then larger else pure (some n))

unfoldable pub writei : Devsw → ℕ → Buffer → ℕ → ℕ → D (Option ℕ)
writei dev ip src off n = do
  i ← gets (λ s. s.inode ip)
  let absent = pure none
  let device : D (Option ℕ) = elim (dev.write i.major) [ none ↦ absent | some f ↦ f ip src n ]
  let content = (do off' ← writei_loop n ip src 0 off n; grow_file ip off' n)
  (if i.type == t_dev
      then (if leb ndev i.major then absent else device)
      else if ltb i.size off || ltb ((off + n) % 2 ^ 32) off
      then absent
      else if ltb (maxfile * bsize) ((off + n) % 2 ^ 32)
      then absent
      else content)
