-- ===== src/Tests/Dir.antt =====
-- A directory of six slots on a small disk, with the entry "." in the first.
use hyu_ele.Base.{
  ℕ, zero, suc, ◌*◌, ◌/◌, ◌<◌, ◌≡◌, refl, sym, ◌∙◌, ap, get_or, ◌==◌, if◌then◌else◌, arith, ◌⊎◌,
  none, some,
}
use hyu_ele.Base.Run.{ok, pure, ◌>>=◌}
use hyu_ele.Str.{Memory, text}
use hyu_ele.Fs.{Fs}
use hyu_ele.Fs.Bmap.{block_of}
use hyu_ele.Fs.Cache.{iget}
use hyu_ele.Fs.File.{Buffer, Devsw}
use hyu_ele.Fs.Write.{Stops}
use hyu_ele.Fs.Dir.{dirlookup, dirlink}
use hyu_ele.Fs.Slots.{IsDir, Reads}
use hyu_ele.Fs.Lookup.{Names, Missing, give, dirlookup-first}
use hyu_ele.Fs.Empty.{FirstEmpty}
use hyu_ele.Fs.Link.{Linked}
use hyu_ele.Fs.Dirlink.{refuse, dirlink-links, dirlookup-dirlink}
use hyu_ele.Tests.Disk.{disk_of, disk-Fine, disk-Spare}

abbrev home : Fs
home = disk_of 1 96

-- "a", and what the stack held.
abbrev letter : Memory
letter j = if j == 0 then 97 else 0

abbrev garbage : Buffer
garbage j = 7

abbrev no_device : Devsw
no_device = record { read = λ m. none; write = λ m. none }

home-IsDir : IsDir home 1 6
home-IsDir = record {
  fine = disk-Fine 1 96;
  spare = disk-Spare 1 96;
  type = refl;
  size = refl;
  small = omega arith;
  filled = λ k h z.
      let first : k / 512 ≡ 0 = omega arith in
      let t : block_of home 1 0 ≡ 0 = ap (block_of home 1) (sym first) ∙ z in cc t;
}

letter-Missing : Missing home 1 0 6 letter
unfolding text
letter-Missing zero a h used e =
    let t : ◌≡◌ {A = ℕ} 46 97 = ap (λ l. get_or l 0 0) e in absurd (omega arith)
letter-Missing (suc zero) a h used e = used refl
letter-Missing (suc (suc zero)) a h used e = used refl
letter-Missing (suc (suc (suc zero))) a h used e = used refl
letter-Missing (suc (suc (suc (suc zero)))) a h used e = used refl
letter-Missing (suc (suc (suc (suc (suc zero))))) a h used e = used refl
letter-Missing (suc (suc (suc (suc (suc (suc n)))))) a h used e = absurd (omega arith)

dirlookup-first_example :
    (Missing home 1 0 6 letter
      × ((s' : Fs) × (dirlookup no_device 1 letter garbage home ≡ ok (none, s')) × Reads home s'))
    ⊎ ((k : ℕ) × (k < 6)
        × Missing home 1 0 k letter
        × Names home 1 k letter
        × ((s' : Fs) × (dirlookup no_device 1 letter garbage home ≡ give home 1 k s')
            × Reads home s'))
dirlookup-first_example = dirlookup-first no_device 1 6 letter garbage home home-IsDir

dirlink-links_example :
    ((k : ℕ) × (k < 6)
      × Names home 1 k letter
      × ((s' : Fs) × (dirlink no_device 1 letter 5 garbage garbage home ≡ refuse home 1 k s')
          × Reads home s'))
    ⊎ (Missing home 1 0 6 letter
        × ((k : ℕ) × FirstEmpty home 1 6 k
            × Stops home 1
                (k * 16)
                16
                (dirlink no_device 1 letter 5 garbage garbage home)
                (λ r u. (r ≡ some 0) × Linked home u 1 6 k letter 5)))
dirlink-links_example =
    dirlink-links no_device 1 6 letter 5 garbage garbage home home-IsDir (omega arith)

dirlookup-dirlink_example :
    (k : ℕ) × FirstEmpty home 1 6 k
    × Stops home 1 (k * 16) 16 (dirlink no_device 1 letter 5 garbage garbage home) (λ r u.
      (r ≡ some 0)
      × ((d : Buffer)
          → (v : Fs) × (dirlookup no_device 1 letter d u
              ≡ (do ip ← iget 5; pure (some (ip, k * 16))) v)
            × Reads u v))
dirlookup-dirlink_example =
    dirlookup-dirlink no_device 1 6 letter 5 garbage garbage home home-IsDir (omega arith)
      letter-Missing (omega arith) (omega arith)
