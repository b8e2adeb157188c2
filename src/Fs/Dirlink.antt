-- ===== src/Fs/Dirlink.antt =====
-- dirlink enters a name into a directory, and dirlookup finds it there.

use hyu_ele.Base.{
  ℕ, ◌+◌, ◌*◌, ◌/◌, ◌<◌, ◌≤◌, ◌≡◌, refl, sym, ◌∙◌, ap, arith, ◌⊎◌, inl, inr, some, none, ℕ_discrete,
  Option,
}
use hyu_ele.Base.Run.{Run-cases, pure, ◌>>=◌, ◌>>◌}
use hyu_ele.Str.{Memory}
use hyu_ele.Fs.{Fs, D, bsize}
use hyu_ele.Fs.Cache.{iget}
use hyu_ele.Fs.File.{Buffer, Devsw, maxfile}
use hyu_ele.Fs.Write.{Stops}
use hyu_ele.Fs.Writei.{writei-writes}
use hyu_ele.Fs.Moves.{null_before}
use hyu_ele.Fs.Release.{iput}
use hyu_ele.Fs.Dir.{new_dirent, add_dirent, link_new, dirlink, dirlookup}
use hyu_ele.Fs.Slots.{IsDir, IsDir-Reads, Reads, inum_at}
use hyu_ele.Fs.Empty.{FirstEmpty, find_empty-first}
use hyu_ele.Fs.Link.{slots_after, Linked, entry-Linked}
use hyu_ele.Fs.Lookup.{Names, Missing, give, dirlookup-first}

-- dirlink where slot `k` has the name: the inode is got and put back.
abbrev pub refuse : Fs → ℕ → ℕ → D (Option ℕ)
refuse b dp k = do ip ← iget (inum_at b dp k); iput ip; pure none

-- The end of dirlink, from a state `t` that reads of `s` came to.
pub add_dirent-Linked :
    (dev : Devsw) (dp count : ℕ) (name : Memory) (inum : ℕ) (de : Buffer) (s t : Fs)
    → IsDir s dp count
    → Reads s t
    → count * 16 + 16 ≤ maxfile * bsize
    → (k : ℕ) × FirstEmpty s dp count k
      × Stops s dp
          (k * 16)
          16
          (add_dirent dev dp name inum de t)
          (λ r u. (r ≡ some 0) × Linked s u dp count k name inum)
unfolding add_dirent
add_dirent-Linked dev dp count name inum de s t dir r room =
    let now = IsDir-Reads s dp count dir t r in
    let total = now.size in
    let (k, first, ends) =
      find_empty-first s dp count dir dev ((t.inode dp).size / 16 + 2) 0 de t r (omega arith)
        (omega arith) (λ i l. absurd (omega arith)) in
    let low = first.in_range in
    let v = ends.state in
    let here = IsDir-Reads s dp count dir v ends.reads in
    let size = here.size in
    let written =
      writei-writes dev dp (new_dirent ends.entry name inum) (k * 16) 16 v here.fine here.spare
        (λ e. let z = here.type in cc (z, e)) (omega arith) (omega arith) in
    (
      k,
      first,
      rw ends.runs (elim written [
        | inl (inl x, _) ↦ absurd (omega arith)
        | inl (inr x, _) ↦ absurd (omega arith)
        | inr (_, _, inl (j, a, b, z, full, run)) ↦ inl (
          j,
          a,
          b,
          null_before s v dp (j / bsize) ends.reads.moves (omega arith) z,
          rw (sym ends.reads.state) full,
          rw run refl,
        )
        | inr (_, _, inr (c, u, run, (e, w))) ↦ inr (
          some 0,
          u,
          rw (run, e) refl,
          (
            refl,
            entry-Linked s v u dp count k ends.entry name inum dir ends.reads low (omega arith) w,
          ),
        )
      ]),
    )

give-refuse :
    (dev : Devsw) (dp k : ℕ) (name : Memory) (inum : ℕ) (de : Buffer) (b s : Fs)
    → (do found ← give b dp k; link_new found dev dp name inum de) s ≡ refuse b dp k s
unfolding link_new
give-refuse dev dp k name inum de b s = elim (Run-cases (iget (inum_at b dp k) s)) [
  | inl e ↦ rw e refl
  | inr (inl e) ↦ rw e refl
  | inr (inr (a, t, e)) ↦ rw e refl
]

-- In a directory all of whose bytes are there, and with room for one more slot: dirlink refuses a name
-- that a slot has, and changes no file before it puts the inode back. Else it enters the name and the
-- low 16 bits of the number into the first slot that is empty, or behind the last, and returns 0; the
-- other slots and the other files stay, and it is a directory all of whose bytes are there again. Or
-- it panics, where the file lacks the block of the slot and at most three blocks of the disk are free.
pub dirlink-links :
    (dev : Devsw) (dp count : ℕ) (name : Memory) (inum : ℕ) (de0 de : Buffer) (s : Fs)
    → IsDir s dp count
    → count * 16 + 16 ≤ maxfile * bsize
    → ((k : ℕ) × (k < count)
        × Names s dp k name
        × ((s' : Fs) × (dirlink dev dp name inum de0 de s ≡ refuse s dp k s') × Reads s s'))
      ⊎ (Missing s dp 0 count name
          × ((k : ℕ) × FirstEmpty s dp count k
              × Stops s dp
                  (k * 16)
                  16
                  (dirlink dev dp name inum de0 de s)
                  (λ r u. (r ≡ some 0) × Linked s u dp count k name inum)))
unfolding dirlink link_new
dirlink-links dev dp count name inum de0 de s dir room =
    elim (dirlookup-first dev dp count name de0 s dir) [
      | inl (fresh, (t, run, r)) ↦
          inr (fresh, rw run (add_dirent-Linked dev dp count name inum de s t dir r room))
      | inr (k, h, _, named, (t, run, r)) ↦
          inl (k, h, named, (t, rw run (give-refuse dev dp k name inum de s t), r))
    ]

finds_new :
    (dev : Devsw) (dp count : ℕ) (name : Memory) (inum : ℕ) (s u : Fs) (k : ℕ)
    → Missing s dp 0 count name
    → 0 < inum
    → inum < 65536
    → k ≤ count
    → Linked s u dp count k name inum
    → (d : Buffer)
    → (v : Fs) × (dirlookup dev dp name d u ≡ (do ip ← iget inum; pure (some (ip, k * 16))) v)
      × Reads u v
finds_new dev dp count name inum s u k fresh low high h f d =
    let number : inum_at u dp k ≡ inum = f.number ∙ omega arith in
    let inside : k < slots_after count k = ground arith in
    elim (dirlookup-first dev dp (slots_after count k) name d u f.dir) [
      | inl (none_on, _) ↦ absurd (none_on k (omega arith) inside (λ z. omega arith) f.named)
      | inr (i, a, _, named, (v, run, r)) ↦ elim (ℕ_discrete i k) [
        | yes e ↦ (
          v,
          run
              ∙ ap (λ x. give u dp x v) e
              ∙ ap (λ x. (do ip ← iget x; pure (some (ip, k * 16))) v) number,
          r,
        )
        | no n ↦
            let old : i < count = ground arith in
            absurd (
              fresh i (omega arith) old (λ z. named.used (f.numbers i old n ∙ z))
                (sym (f.names i old n) ∙ named.same))
      ]
    ]

-- In a directory all of whose bytes are there, and with room for one more slot: after dirlink of a new
-- name with a number that is not 0 and has 16 bits, dirlookup of the name gets the inode of that
-- number, and returns it with the offset of the slot that dirlink wrote, the first that was empty or
-- the one behind the last; or dirlink panicked, where the directory lacks the block of that slot and
-- at most three blocks of the disk are free.
pub dirlookup-dirlink :
    (dev : Devsw) (dp count : ℕ) (name : Memory) (inum : ℕ) (de0 de : Buffer) (s : Fs)
    → IsDir s dp count
    → count * 16 + 16 ≤ maxfile * bsize
    → Missing s dp 0 count name
    → 0 < inum
    → inum < 65536
    → (k : ℕ) × FirstEmpty s dp count k
      × Stops s dp (k * 16) 16 (dirlink dev dp name inum de0 de s) (λ r u.
        (r ≡ some 0)
        × ((d : Buffer)
            → (v : Fs) × (dirlookup dev dp name d u
                ≡ (do ip ← iget inum; pure (some (ip, k * 16))) v)
              × Reads u v))
dirlookup-dirlink dev dp count name inum de0 de s dir room fresh low high =
    elim (dirlink-links dev dp count name inum de0 de s dir room) [
      | inl (k, h, named, _) ↦ absurd (fresh k (omega arith) h named.used named.same)
      | inr (_, (k, first, inl panics)) ↦ (k, first, inl panics)
      | inr (_, (k, first, inr (c, u, run, (e, f)))) ↦ (
        k,
        first,
        inr (
          c,
          u,
          run,
          (e, λ d. finds_new dev dp count name inum s u k fresh low high first.in_range f d),
        ),
      )
    ]
