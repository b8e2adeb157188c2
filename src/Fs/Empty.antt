-- ===== src/Fs/Empty.antt =====
-- Where dirlink enters a name: the first empty slot. And the entry that it writes.
use mathlib.Core.Path.{subst}
use hyu_ele.Base.{
  ℕ, zero, suc, ◌+◌, ◌*◌, ◌%◌, ◌<◌, ◌≤◌, ◌≡◌, ◌≢◌, refl, sym, ◌∙◌, ◌==◌, ==_iff, ==_of_ne,
  ltb_of_lt, ltb_of_le, Bool-cases, arith, inl, inr, dec_lt, ℕ_discrete,
}
use hyu_ele.Base.Run.{Run, ok}
use hyu_ele.Str.{Memory, text, strncpy}
use hyu_ele.Str.Name.{text-strncpy}
use hyu_ele.Fs.{Fs}
use hyu_ele.Fs.Names.{dirsiz}
use hyu_ele.Fs.File.{Buffer, Devsw}
use hyu_ele.Fs.Dir.{dirent_size, dirent_inum, find_empty, new_dirent}
use hyu_ele.Fs.Slots.{IsDir, Reads, read_slot, inum_at, text-same}

-- Slot `k` is the first empty one, or the one behind the last.
pub record FirstEmpty (s : Fs) (dp count k : ℕ) : Type 0 where
  pub in_range : k ≤ count
  pub before : (i : ℕ) → i < k → inum_at s dp i ≢ 0
  pub empty : k < count → inum_at s dp k ≡ 0

module _ (b : Fs) (dp count : ℕ) (dir : IsDir b dp count) (dev : Devsw) where
  -- find_empty ends at slot `k`.
  pub record Ends (r : Run ((ℕ × Buffer) × Fs)) (k : ℕ) : Type 0 where
    pub entry : Buffer
    pub state : Fs
    pub runs : r ≡ ok ((k * 16, entry), state)
    pub reads : Reads b state

  pub find_empty-first :
      (n k : ℕ) (de : Buffer) (s : Fs)
      → Reads b s
      → k ≤ count
      → count < k + n
      → ((i : ℕ) → i < k → inum_at b dp i ≢ 0)
      → (e : ℕ) × FirstEmpty b dp count e × Ends (find_empty n dev dp (k * 16) de s) e
  unfolding find_empty
  find_empty-first zero k de s r h fuel used = absurd (omega arith)
  find_empty-first (suc n) k de s r h fuel used =
      let (_, _, size) = r.moves.meta dp in
      let total = dir.size in
      elim (dec_lt k count) [
        | no i ↦ (
          k,
          record { in_range = h; before = used; empty = λ l. absurd (omega arith) },
          record {
            entry = de;
            state = s;
            runs = rw (ltb_of_le (k * 16) (s.inode dp).size (omega arith)) refl;
            reads = r;
          },
        )
        | yes i ↦
            let slot = read_slot b dp count dir s dev k de r i in
            let shift : k * 16 + dirent_size ≡ (k + 1) * 16 = omega arith in
            rw (ltb_of_lt (k * 16) (s.inode dp).size (omega arith), slot.runs)
              (elim (Bool-cases (dirent_inum slot.entry == 0)) [
                | inl z ↦ rw z (
                  k,
                  record {
                    in_range = h;
                    before = used;
                    empty = λ l. sym slot.inum ∙ (==_iff _ 0).0 z;
                  },
                  record {
                    entry = slot.entry;
                    state = slot.state;
                    runs = refl;
                    reads = slot.reads;
                  },
                )
                | inr z ↦
                    let here : inum_at b dp k ≢ 0 =
                      (λ e. let t = (==_iff _ 0).1 (slot.inum ∙ e) in cc (t, z)) in
                    rw (z, shift)
                      (find_empty-first n (k + 1) slot.entry slot.state slot.reads (omega arith)
                        (omega arith)
                        (λ j l. elim (ℕ_discrete j k) [
                          | yes e ↦ subst (λ x. inum_at b dp x ≢ 0) (sym e) here
                          | no e ↦ used j (omega arith)
                        ]))
              ])
      ]

module _ (d : Buffer) (name : Memory) (inum : ℕ) where
  pub new_dirent_name : text dirsiz (new_dirent d name inum) 2 ≡ text dirsiz name 0
  unfolding new_dirent
  new_dirent_name =
      text-same dirsiz (new_dirent d name inum) (strncpy dirsiz d 2 name 0) 2 2 (λ k l.
        rw (==_of_ne (2 + k) 0 (λ e. omega arith), ==_of_ne (2 + k) 1 (λ e. omega arith)) refl)
      ∙ text-strncpy dirsiz d 2 name 0

  pub new_dirent_inum : new_dirent d name inum 0 + new_dirent d name inum 1 * 256 ≡ inum % 65536
  unfolding new_dirent
  new_dirent_inum = omega arith
