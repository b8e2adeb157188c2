-- ===== src/Fs/Dir.antt =====
-- Directories: dirlookup and dirlink of xv6-public/fs.c. A directory is a file of entries of 16 bytes:
-- a number of 2 bytes, and a name of 14. `de` is what the local entry of a function holds at first,
-- which C leaves open.
use hyu_ele.Base.{
  ℕ, zero, suc, ◌+◌, ◌*◌, ◌/◌, ◌%◌, ◌^◌, Bool, false, ◌==◌, ltb, if◌then◌else◌, Option, none, some,
}
use hyu_ele.Base.Run.{pure, fail, stuck, gets, ◌>>=◌, ◌>>◌}
use hyu_ele.Base.Int.{pos, eq_ℤ, ℤ}
use hyu_ele.Str.{Memory, strncmp, strncpy}
use hyu_ele.Fs.{D}
use hyu_ele.Fs.Names.{dirsiz}
use hyu_ele.Fs.Cache.{iget}
use hyu_ele.Fs.File.{Buffer, Devsw, put_half, readi, writei}
use hyu_ele.Fs.Release.{iput}

abbrev pub t_dir : ℕ
t_dir = 1

-- sizeof(struct dirent), and its fields.
abbrev pub dirent_size : ℕ
dirent_size = 16

abbrev pub dirent_inum : Buffer → ℕ
dirent_inum de = de 0 + de 1 * 256

abbrev pub dirent_name : ℕ
dirent_name = 2

unfoldable pub namecmp : Memory → ℕ → Memory → ℕ → ℤ
namecmp s i t j = strncmp dirsiz s i t j

-- `readi(...) != sizeof(de)` and `writei(...) != sizeof(de)`: -1 is `none`.
abbrev pub is_whole : Option ℕ → Bool
is_whole none = false
is_whole (some n) = n == dirent_size

-- The loop of dirlookup from `off` on: the inode, and the offset that goes to `*poff`.
unfoldable pub dirlookup_loop : ℕ → Devsw → ℕ → Memory → ℕ → Buffer → D (Option (ℕ × ℕ))
dirlookup_loop zero dev dp name off de = stuck
dirlookup_loop (suc n) dev dp name off de = do
  i ← gets (λ s. s.inode dp)
  let round : D (Option (ℕ × ℕ)) = (do
    (r, de') ← readi dev dp de off dirent_size
    let next = dirlookup_loop n dev dp name ((off + dirent_size) % 2 ^ 32) de'
    let found = (do ip ← iget (dirent_inum de'); pure (some (ip, off)))
    (if is_whole r
        then (if dirent_inum de' == 0
            then next
            else if eq_ℤ (namecmp name 0 de' dirent_name) (pos 0)
            then found
            else next)
        else fail))
  (if ltb off i.size then round else pure none)

unfoldable pub dirlookup : Devsw → ℕ → Memory → Buffer → D (Option (ℕ × ℕ))
dirlookup dev dp name de = do
  i ← gets (λ s. s.inode dp)
  let scan = dirlookup_loop (i.size / dirent_size + 2) dev dp name 0 de
  (if i.type == t_dir then scan else fail)

-- The loop of dirlink from `off` on: where it ends, and the entry it read last.
unfoldable pub find_empty : ℕ → Devsw → ℕ → ℕ → Buffer → D (ℕ × Buffer)
find_empty zero dev dp off de = stuck
find_empty (suc n) dev dp off de = do
  i ← gets (λ s. s.inode dp)
  let round : D (ℕ × Buffer) = (do
    (r, de') ← readi dev dp de off dirent_size
    let next = find_empty n dev dp (off + dirent_size) de'
    (if is_whole r then (if dirent_inum de' == 0 then pure (off, de') else next) else fail))
  (if ltb off i.size then round else pure (off, de))

unfoldable pub new_dirent : Buffer → Memory → ℕ → Buffer
new_dirent de name inum = put_half (strncpy dirsiz de dirent_name name 0) 0 inum

unfoldable pub add_dirent : Devsw → ℕ → Memory → ℕ → Buffer → D (Option ℕ)
add_dirent dev dp name inum de = do
  i ← gets (λ s. s.inode dp)
  (off, de') ← find_empty (i.size / dirent_size + 2) dev dp 0 de
  r ← writei dev dp (new_dirent de' name inum) off dirent_size
  (if is_whole r then pure (some 0) else fail)

-- What dirlink does after the call of dirlookup.
unfoldable pub link_new : Option (ℕ × ℕ) → Devsw → ℕ → Memory → ℕ → Buffer → D (Option ℕ)
link_new (some (ip, off)) dev dp name inum de = do iput ip; pure none
link_new none dev dp name inum de = add_dirent dev dp name inum de

unfoldable pub dirlink : Devsw → ℕ → Memory → ℕ → Buffer → Buffer → D (Option ℕ)
dirlink dev dp name inum de0 de = do
  found ← dirlookup dev dp name de0
  link_new found dev dp name inum de
