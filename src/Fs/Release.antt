-- ===== src/Fs/Release.antt =====
-- The end of an inode: itrunc and iput of xv6-public/fs.c. The sleep lock of an inode is left to Locks.
use hyu_ele.Base.{ℕ, zero, suc, ◌+◌, ◌-◌, false, ◌==◌, ◌!=◌, ◌&&◌, update}
use hyu_ele.Base.Run.{pure, gets, when, ◌>>=◌, ◌>>◌}
use hyu_ele.Fs.{D, ndirect, nindirect, word_at, set_inode, bfree}
use hyu_ele.Fs.File.{iupdate}

-- The loop over the entries of block `b` from `i` on, which frees what an entry that is set points to.
unfoldable pub free_entries : (ℕ → D (Unit {0})) → ℕ → ℕ → ℕ → D (Unit {0})
free_entries free zero b i = pure tt
free_entries free (suc n) b i = do
  a ← gets (λ s. word_at s b i)
  when (a != 0) (free a)
  free_entries free n b (i + 1)

-- An indirect block at each of the three levels, with what it points to.
unfoldable pub free_single : ℕ → D (Unit {0})
free_single b = do free_entries bfree nindirect b 0; bfree b

unfoldable pub free_double : ℕ → D (Unit {0})
free_double b = do free_entries free_single nindirect b 0; bfree b

unfoldable pub free_triple : ℕ → D (Unit {0})
free_triple b = do free_entries free_double nindirect b 0; bfree b

unfoldable pub drop_addr : (ℕ → D (Unit {0})) → ℕ → ℕ → D (Unit {0})
drop_addr free ip k = do
  a ← gets (λ s. (s.inode ip).addrs k)
  when (a != 0) (do free a; set_inode ip (λ i. record i { addrs = update i.addrs k 0 }))

unfoldable pub drop_direct : ℕ → ℕ → ℕ → D (Unit {0})
drop_direct zero ip i = pure tt
drop_direct (suc n) ip i = do drop_addr bfree ip i; drop_direct n ip (i + 1)

unfoldable pub itrunc : ℕ → D (Unit {0})
itrunc ip = do
  drop_direct ndirect ip 0
  drop_addr free_single ip ndirect
  drop_addr free_double ip (ndirect + 1)
  drop_addr free_triple ip (ndirect + 2)
  set_inode ip (λ i. record i { size = 0 })
  iupdate ip

-- A caller of iput has a reference, so that the count is not 0 where one is taken off.
unfoldable pub iput : ℕ → D (Unit {0})
iput ip = do
  i ← gets (λ s. s.inode ip)
  when (i.valid && i.nlink == 0 && i.ref == 1) (do
    itrunc ip
    set_inode ip (λ j. record j { type = 0 })
    iupdate ip
    set_inode ip (λ j. record j { valid = false }))
  set_inode ip (λ j. record j { ref = j.ref - 1 })
