-- ===== src/Fs/Lookup.antt =====
-- dirlookup finds the first slot of a name.
use mathlib.Core.Path.{subst}
use hyu_ele.Base.{
  ℕ, zero, suc, ◌+◌, ◌*◌, ◌/◌, ◌%◌, ◌<◌, ◌≤◌, ◌≡◌, ◌≢◌, refl, sym, ◌∙◌, ap, true, false, ◌==◌,
  ==_iff, ltb_of_lt, ltb_of_le, Bool-cases, arith, ◌⊎◌, inl, inr, dec_lt, some, none, ℕ_discrete,
  Option,
}
use hyu_ele.Base.Run.{Run, ok, pure, ◌>>=◌}
use hyu_ele.Base.Int.{pos, eq_ℤ, eq_of_parts}
use hyu_ele.Str.{Memory, text}
use hyu_ele.Str.Name.{strncmp-text}
use hyu_ele.Fs.{Fs, D}
use hyu_ele.Fs.Names.{dirsiz}
use hyu_ele.Fs.Cache.{iget}
use hyu_ele.Fs.File.{Buffer, Devsw}
use hyu_ele.Fs.Dir.{t_dir, dirent_size, dirent_inum, namecmp, dirlookup_loop, dirlookup}
use hyu_ele.Fs.Slots.{IsDir, Reads, Reads-refl, read_slot, inum_at, name_at}

-- Slot `k` has an entry of this name.
pub record Names (s : Fs) (dp k : ℕ) (name : Memory) : Type 0 where
  pub used : inum_at s dp k ≢ 0
  pub same : name_at s dp k ≡ text dirsiz name 0

-- None of the slots from `k` on, below `count`, has the name.
abbrev pub Missing : Fs → ℕ → ℕ → ℕ → Memory → Type 0
Missing s dp k count name =
    (i : ℕ) → k ≤ i → i < count → inum_at s dp i ≢ 0 → name_at s dp i ≢ text dirsiz name 0

-- The end of dirlookup at slot `k`.
abbrev pub give : Fs → ℕ → ℕ → D (Option (ℕ × ℕ))
give b dp k = do ip ← iget (inum_at b dp k); pure (some (ip, k * 16))

namecmp-text :
    (name : Memory) (de : Buffer)
    → (eq_ℤ (namecmp name 0 de 2) (pos 0) ≡ true → text dirsiz name 0 ≡ text dirsiz de 2)
      × (eq_ℤ (namecmp name 0 de 2) (pos 0) ≡ false → text dirsiz name 0 ≢ text dirsiz de 2)
unfolding namecmp
namecmp-text name de =
    let law = strncmp-text dirsiz name 0 de 2 in
    (
      λ h. law.0 (eq_of_parts _ (pos 0) ((==_iff _ _).0 h)),
      λ h e. let z = law.1 e in let t : eq_ℤ (pos 0) (pos 0) ≡ false = rw z at h in cc t,
    )

module _ (b : Fs) (dp count : ℕ) (dir : IsDir b dp count) (dev : Devsw) (name : Memory) where
  -- What a run of the loop from slot `k` on comes to.
  abbrev Outcome : ℕ → Run (Option (ℕ × ℕ) × Fs) → Type 0
  Outcome k r =
      (Missing b dp k count name × ((s' : Fs) × (r ≡ ok (none, s')) × Reads b s'))
      ⊎ ((i : ℕ) × (k ≤ i)
          × (i < count)
          × Missing b dp k i name
          × Names b dp i name
          × ((s' : Fs) × (r ≡ give b dp i s') × Reads b s'))

  -- A slot that does not have the name is passed over.
  further :
      (k : ℕ) (r : Run (Option (ℕ × ℕ) × Fs))
      → (inum_at b dp k ≢ 0 → name_at b dp k ≢ text dirsiz name 0)
      → Outcome (k + 1) r
      → Outcome k r
  further k r other (inl (none_on, run)) = inl (
    λ i a c used. elim (ℕ_discrete i k) [
      | yes e ↦
          subst (λ x. name_at b dp x ≢ text dirsiz name 0) (sym e)
            (other (λ z. used (ap (inum_at b dp) e ∙ z)))
      | no e ↦ none_on i (omega arith) c used
    ],
    run,
  )
  further k r other (inr (i, a, c, none_on, named, run)) = inr (
    i,
    omega arith,
    c,
    λ j d l used. elim (ℕ_discrete j k) [
      | yes e ↦
          subst (λ x. name_at b dp x ≢ text dirsiz name 0) (sym e)
            (other (λ z. used (ap (inum_at b dp) e ∙ z)))
      | no e ↦ none_on j (omega arith) l used
    ],
    named,
    run,
  )

  loop-Outcome :
      (n k : ℕ) (de : Buffer) (s : Fs)
      → Reads b s
      → k ≤ count
      → count < k + n
      → Outcome k (dirlookup_loop n dev dp name (k * 16) de s)
  unfolding dirlookup_loop
  loop-Outcome zero k de s r h fuel = absurd (omega arith)
  loop-Outcome (suc n) k de s r h fuel =
      let (_, _, size) = r.moves.meta dp in
      let total = dir.size in
      elim (dec_lt k count) [
        | no i ↦ inl (
          λ a c d. absurd (omega arith),
          (s, rw (ltb_of_le (k * 16) (s.inode dp).size (omega arith)) refl, r),
        )
        | yes i ↦
            let slot = read_slot b dp count dir s dev k de r i in
            let small = dir.small in
            let shift : (k * 16 + dirent_size) % 4294967296 ≡ (k + 1) * 16 = omega arith in
            let rest =
              loop-Outcome n (k + 1) slot.entry slot.state slot.reads (omega arith) (omega arith) in
            let (equal, unequal) = namecmp-text name slot.entry in
            rw (ltb_of_lt (k * 16) (s.inode dp).size (omega arith), slot.runs)
              (elim (Bool-cases (dirent_inum slot.entry == 0)) [
                | inl z ↦
                    rw (z, shift)
                      (further k _ (λ u. absurd (u (sym slot.inum ∙ (==_iff _ 0).0 z))) rest)
                | inr z ↦ elim (Bool-cases (eq_ℤ (namecmp name 0 slot.entry 2) (pos 0))) [
                  | inr y ↦
                      rw (z, y, shift) (further k _ (λ u e. unequal y (sym e ∙ sym slot.name)) rest)
                  | inl y ↦
                      rw (z, y)
                        (inr (
                          k,
                          omega arith,
                          i,
                          λ j a c. absurd (omega arith),
                          record {
                            used = λ e. let t = (==_iff _ 0).1 (slot.inum ∙ e) in cc (t, z);
                            same = sym slot.name ∙ sym (equal y);
                          },
                          (slot.state, rw slot.inum refl, slot.reads),
                        ))
                ]
              ])
      ]

-- In a directory all of whose bytes are there, dirlookup passes the entries of other names and the
-- empty ones over. Where no slot has the name it returns 0, and else it gets the inode of the first
-- slot that has, and returns it with the offset of the slot. Before it does, no byte of a file changes.
pub dirlookup-first :
    (dev : Devsw) (dp count : ℕ) (name : Memory) (de : Buffer) (s : Fs)
    → IsDir s dp count
    → (Missing s dp 0 count name
        × ((s' : Fs) × (dirlookup dev dp name de s ≡ ok (none, s')) × Reads s s'))
      ⊎ ((k : ℕ) × (k < count)
          × Missing s dp 0 k name
          × Names s dp k name
          × ((s' : Fs) × (dirlookup dev dp name de s ≡ give s dp k s') × Reads s s'))
unfolding dirlookup
dirlookup-first dev dp count name de s dir =
    let total = dir.size in
    let run =
      loop-Outcome s dp count dir dev name ((s.inode dp).size / 16 + 2) 0 de s
        (Reads-refl s dir.fine) (omega arith) (omega arith) in
    rw ((==_iff (s.inode dp).type t_dir).1 dir.type) (elim run [
      | inl none_on ↦ inl none_on
      | inr (k, _, h, none_on, named, found) ↦ inr (k, h, none_on, named, found)
    ])
