-- ===== src/Tests/Fs.antt =====
-- The free map, the block tree, the content of files and the inode cache of a small disk.

use hyu_ele.Base.{
  All, List, [], ◌∷◌, ℕ, ◌+◌, ◌*◌, some, none, Option, ◌<◌, ◌≤◌, ◌≡◌, ◌≢◌, refl, true, false, ◌==◌,
  if◌then◌else◌, arith, ◌⊎◌, [],
}
use hyu_ele.Base.Run.{ok, panic}
use hyu_ele.Fs.{follow_addr, bsize, Fs, balloc, bfree, bmap, bblock}
use hyu_ele.Fs.Bitmap.{in_use, taken, Full, IsLeast, balloc-IsLeast}
use hyu_ele.Fs.Freemap.{freed, bfree-frees}
use hyu_ele.Fs.Grow.{Owned, Grows}
use hyu_ele.Fs.Unique.{Fine}
use hyu_ele.Fs.Fetch.{Gives}
use hyu_ele.Fs.Route.{levels}
use hyu_ele.Fs.Bmap.{route_of, tree_size, block_of, bmap-maps}
use hyu_ele.Fs.Distinct.{bmap-injective}
use hyu_ele.Fs.File.{Buffer, Devsw, maxfile, writei, readi}
use hyu_ele.Fs.Names.{AllSlashes, Element, Named, skipelem, skipelem-Element}
use hyu_ele.Str.{Memory}
use hyu_ele.Fs.Cache.{NotCached, AllBusy, OneEntry, Counted, ninode, iget, iget-Counted}
use hyu_ele.Fs.Write.{Stops}
use hyu_ele.Fs.Writei.{Written, writei-writes}
use hyu_ele.Tests.Disk.{disk_of, disk-Fine, disk-Spare}
use hyu_ele.Fs.Readi.{ReadOff, readable, readi-reads, readi-writei}

abbrev disk : Fs
disk = disk_of 2 100

balloc-IsLeast_example :
    (Full disk × (balloc disk ≡ panic))
    ⊎ ((c : ℕ) × IsLeast disk c × (balloc disk ≡ ok (c, taken c disk)))
balloc-IsLeast_example = balloc-IsLeast disk

bmap-disk : bmap 1 0 disk ≡ ok (12, disk)
unfolding bmap follow_addr
bmap-disk = refl

bmap-injective_example : (◌≡◌ {A = ℕ} 1 1) × (◌≡◌ {A = ℕ} 0 0)
bmap-injective_example =
    bmap-injective disk disk disk 1 1 0 0 12 (disk-Fine 2 100) (omega arith) (omega arith) bmap-disk
      bmap-disk

bfree-frees_example :
    ((in_use disk 12 ≡ true)
      × (bfree 12 disk ≡ ok (tt, freed 12 disk))
      × ((e : ℕ) → in_use (freed 12 disk) e ≡ (if e == 12 then false else in_use disk e))
      × ((d i : ℕ) → d ≢ bblock disk 12 → (freed 12 disk).data_at d i ≡ disk.data_at d i))
    ⊎ ((in_use disk 12 ≡ false) × (bfree 12 disk ≡ panic))
bfree-frees_example = bfree-frees 12 disk

-- Block 200 lies behind the doubly indirect block.
bmap-maps_example :
    (200 < tree_size
      → Gives (levels (route_of 200)) disk (block_of disk 1 200) (bmap 1 200 disk) (λ v s'.
        (block_of s' 1 200 ≡ v)
        × Owned s' v
        × (((block_of disk 1 200 ≡ v) × (s' ≡ disk))
            ⊎ ((block_of disk 1 200 ≡ 0) × (in_use disk v ≡ false)))
        × (v ≢ 0)
        × Fine s'
        × Grows disk s'
        × ((p n : ℕ)
            → n < tree_size
            → block_of disk p n ≢ 0
            → block_of s' p n ≡ block_of disk p n)))
    × (tree_size ≤ 200 → bmap 1 200 disk ≡ panic)
bmap-maps_example = bmap-maps 1 200 disk (disk-Fine 2 100)

abbrev no_device : Devsw
no_device = record { read = λ m. none; write = λ m. none }

abbrev letters : Buffer
letters j = 65 + j

-- The last byte of the file and 600 bytes behind it, which takes a second block.
writei-writes_example :
    (((100 < 99) ⊎ (maxfile * bsize < 99 + 601))
      × (writei no_device 1 letters 99 601 disk ≡ ok (none, disk)))
    ⊎ ((99 ≤ 100)
        × (99 + 601 ≤ maxfile * bsize)
        × Stops disk 1 99 601
            (writei no_device 1 letters 99 601 disk)
            (λ r s'. (r ≡ some 601) × Written disk s' 1 letters 99 601))
writei-writes_example =
    writei-writes no_device 1 letters 99 601 disk (disk-Fine 2 100) (disk-Spare 2 100) (λ z. cc z)
      (omega arith) (omega arith)

readi-reads_example :
    (((100 < 20) ⊎ (4294967296 ≤ 20 + 200))
      × (readi no_device 1 letters 20 200 disk ≡ ok ((none, letters), disk)))
    ⊎ ((20 ≤ 100)
        × Stops {A = Option ℕ × Buffer} disk 1 20
            (readable disk 1 20 200)
            (readi no_device 1 letters 20 200 disk)
            (λ r s'.
              (r.0 ≡ some (readable disk 1 20 200))
              × ReadOff disk s' 1 letters r.1 20 (readable disk 1 20 200)))
readi-reads_example =
    readi-reads no_device 1 letters 20 200 disk (disk-Fine 2 100) (λ z. cc z) (omega arith)
      (omega arith) (omega arith)

readi-writei_example : Stops disk 1 99 601 (writei no_device 1 letters 99 601 disk) (λ r s'.
    (r ≡ some 601)
    × ((d : Buffer) × (s'' : Fs) × (readi no_device 1 letters 99 601 s' ≡ ok ((some 601, d), s''))
        × ((j : ℕ) → j < 601 → d j ≡ letters j)))
readi-writei_example =
    readi-writei no_device 1 letters letters 99 601 disk (disk-Fine 2 100) (disk-Spare 2 100)
      (λ z. cc z) (omega arith) (omega arith) (omega arith)

-- "/usr//r"
abbrev usr : List ℕ
usr = 47 ∷ 117 ∷ 115 ∷ 114 ∷ 47 ∷ 47 ∷ 114 ∷ []

usr-NonZero : All (λ c. c ≢ 0) usr
usr-NonZero = (
  (λ e. cc e),
  ((λ e. cc e), ((λ e. cc e), ((λ e. cc e), ((λ e. cc e), ((λ e. cc e), ((λ e. cc e), tt)))))),
)

skipelem-Element_example :
    (AllSlashes usr × (skipelem usr (λ _. 9) ≡ none))
    ⊎ ((s rest : List ℕ) × (name' : Memory) × Element usr s rest
        × Named s (λ _. 9) name'
        × (skipelem usr (λ _. 9) ≡ some (rest, name')))
skipelem-Element_example = skipelem-Element usr (λ _. 9) usr-NonZero

-- Entries 1 and 2 hold the inodes 1 and 2.
abbrev cached : Fs
cached = record disk {
  inode = λ a. record (disk.inode a) { ref = if a == 1 then 1 else if a == 2 then 3 else 0 };
}

cached-OneEntry : OneEntry cached
cached-OneEntry a b h i la lb e = e

iget-Counted_example :
    (NotCached cached ninode 7 × AllBusy cached ninode × (iget 7 cached ≡ panic))
    ⊎ ((p : ℕ) × (s' : Fs) × (iget 7 cached ≡ ok (p, s')) × Counted cached s' p 7)
iget-Counted_example = iget-Counted 7 cached cached-OneEntry
