-- ===== src/Fs/Cache.antt =====
-- The inode cache: iget and idup of xv6-public/fs.c, for the one device.
use hyu_ele.Base.{
  ℕ, zero, suc, ◌+◌, ◌<◌, ◌≡◌, ◌≢◌, refl, sym, ◌∙◌, ap, Bool, true, false, Bool-cases, ◌==◌, ==_iff,
  ==_of_ne, ltb, ltb_of_lt, ◌&&◌, if◌then◌else◌, update, arith, Option, none, some, ◌⊎◌, inl, inr,
  dec_lt,
}
use hyu_ele.Base.Run.{Run, ok, panic, pure, fail, gets, ◌>>=◌, ◌>>◌}
use hyu_ele.Fs.{Fs, D, Inode, set_inode}

abbrev pub ninode : ℕ
ninode = 50

unfoldable pub idup : ℕ → D ℕ
idup ip = do set_inode ip (λ i. record i { ref = i.ref + 1 }); pure ip

-- The end of iget: an entry that is not in use becomes that of inode `inum`.
unfoldable pub recycle : Option ℕ → ℕ → D ℕ
recycle none inum = fail
recycle (some ip) inum = do
  set_inode ip (λ i. record i { inum = inum; ref = 1; valid = false })
  pure ip

abbrev pub note_empty : Option ℕ → ℕ → ℕ → Option ℕ
note_empty (some e) ref ip = some e
note_empty none ref ip = if ref == 0 then some ip else none

-- The loop of iget from `ip` on, for the entries that are left.
unfoldable pub iget_loop : ℕ → ℕ → Option ℕ → ℕ → D ℕ
iget_loop zero ip empty inum = recycle empty inum
iget_loop (suc n) ip empty inum = do
  i ← gets (λ s. s.inode ip)
  let rest = iget_loop n (ip + 1) (note_empty empty i.ref ip) inum
  (if ltb 0 i.ref && i.inum == inum then idup ip else rest)

unfoldable pub iget : ℕ → D ℕ
iget inum = iget_loop ninode 0 none inum

-- No inode has two entries.
abbrev pub OneEntry : Fs → Type 0
OneEntry s =
    (a b : ℕ)
    → a < ninode
    → b < ninode
    → 0 < (s.inode a).ref
    → 0 < (s.inode b).ref
    → (s.inode a).inum ≡ (s.inode b).inum
    → a ≡ b

-- None of the first `n` entries is the one of inode `inum`.
abbrev pub NotCached : Fs → ℕ → ℕ → Type 0
NotCached s n inum = (a : ℕ) → a < n → 0 < (s.inode a).ref → (s.inode a).inum ≢ inum

abbrev pub AllBusy : Fs → ℕ → Type 0
AllBusy s n = (a : ℕ) → a < n → 0 < (s.inode a).ref

abbrev Empty : Fs → ℕ → Option ℕ → Type 0
Empty s n none = AllBusy s n
Empty s n (some e) = (e < n) × ((s.inode e).ref ≡ 0)

-- What iget does: an entry that is there is counted up, and else a free one is taken.
abbrev Outcome : Fs → ℕ → Run (ℕ × Fs) → Type 0
Outcome s inum r =
    (NotCached s ninode inum × AllBusy s ninode × (r ≡ panic))
    ⊎ ((p : ℕ) × (p < ninode)
        × (((0 < (s.inode p).ref) × ((s.inode p).inum ≡ inum) × (r ≡ idup p s))
            ⊎ (((s.inode p).ref ≡ 0) × NotCached s ninode inum × (r ≡ recycle (some p) inum s))))

note_empty-Empty :
    (s : Fs) (n : ℕ) (o : Option ℕ) → Empty s n o → Empty s (n + 1) (note_empty o (s.inode n).ref n)
note_empty-Empty s n (some e) h = (omega arith, h.1)
note_empty-Empty s n none h = elim (Bool-cases ((s.inode n).ref == 0)) [
  | inl z ↦ rw z (omega arith, (==_iff (s.inode n).ref 0).0 z)
  | inr z ↦ rw z (λ a k. elim (dec_lt a n) [
    | yes i ↦ h a i
    | no i ↦
        let at : a ≡ n = omega arith in let live : 0 < (s.inode n).ref = ground arith in rw at live
  ])
]

both_true : (a b : Bool) → (a && b) ≡ true → (a ≡ true) × (b ≡ true)
both_true true b h = (refl, h)
both_true false b h = absurd (cc h)

not_here :
    (ip inum : ℕ) (s : Fs)
    → NotCached s ip inum
    → (ltb 0 (s.inode ip).ref && (s.inode ip).inum == inum) ≡ false
    → NotCached s (ip + 1) inum
not_here ip inum s miss other a k live same = elim (dec_lt a ip) [
  | yes i ↦ miss a i live same
  | no i ↦
      let at : ip ≡ a = omega arith in
      let live' : 0 < (s.inode ip).ref = rw at live in
      let same' : (s.inode ip).inum ≡ inum = ap (λ x. (s.inode x).inum) at ∙ same in
      let here : (ltb 0 (s.inode ip).ref && (s.inode ip).inum == inum) ≡ true =
        rw (ltb_of_lt 0 (s.inode ip).ref live') ((==_iff (s.inode ip).inum inum).1 same') in
      cc (here, other)
]

iget_loop-Outcome :
    (n ip : ℕ) (o : Option ℕ) (inum : ℕ) (s : Fs)
    → ip + n ≡ ninode
    → NotCached s ip inum
    → Empty s ip o
    → Outcome s inum (iget_loop n ip o inum s)
unfolding iget_loop recycle
iget_loop-Outcome zero ip none inum s e miss empty =
    inl (λ a k. miss a (omega arith), λ a k. empty a (omega arith), refl)
iget_loop-Outcome zero ip (some p) inum s e miss empty =
    inr (p, omega arith, inr (empty.1, λ a k. miss a (omega arith), refl))
iget_loop-Outcome (suc n) ip o inum s e miss empty =
    elim (Bool-cases (ltb 0 (s.inode ip).ref && (s.inode ip).inum == inum)) [
      | inl hit ↦
          let (live, same) = both_true (ltb 0 (s.inode ip).ref) ((s.inode ip).inum == inum) hit in
          let held : 0 < (s.inode ip).ref = ground arith in
          inr (ip, omega arith, inl (held, (==_iff (s.inode ip).inum inum).0 same, rw hit refl))
      | inr other ↦ rw other (
          iget_loop-Outcome n (ip + 1) (note_empty o (s.inode ip).ref ip) inum s (omega arith)
            (not_here ip inum s miss other) (note_empty-Empty s ip o empty))
    ]

-- Entry `p` is the one of inode `inum`, with one reference more than before; the others stay.
pub record Counted (s s' : Fs) (p inum : ℕ) : Type 0 where
  pub in_range : p < ninode
  pub entry : (s'.inode p).inum ≡ inum
  pub counted : (s'.inode p).ref ≡ (s.inode p).ref + 1
  pub others : (a : ℕ) → a ≢ p → s'.inode a ≡ s.inode a
  pub reread : (s.inode p).ref ≡ 0 → (s'.inode p).valid ≡ false
  pub unique : OneEntry s'

module _ (s s' : Fs) (p : ℕ) (others : (a : ℕ) → a ≢ p → s'.inode a ≡ s.inode a) where
  -- A change of entry `p` alone, which no other live entry has the inode of.
  OneEntry-change :
      OneEntry s
      → ((a : ℕ) → a < ninode → a ≢ p → 0 < (s.inode a).ref → (s.inode a).inum ≢ (s'.inode p).inum)
      → OneEntry s'
  OneEntry-change one free a b h i la lb e = elim (Bool-cases (a == p)) [
    | inl x ↦ elim (Bool-cases (b == p)) [
      | inl y ↦ (==_iff a p).0 x ∙ sym ((==_iff b p).0 y)
      | inr y ↦
          let n : b ≢ p = (λ z. let t = (==_iff b p).1 z in cc (t, y)) in
          let same = ap (λ v. v.inum) (others b n) in
          absurd (
            free b i n (rw (sym (others b n)) lb)
              (sym same ∙ sym e ∙ ap (λ v. (s'.inode v).inum) ((==_iff a p).0 x)))
    ]
    | inr x ↦
        let n : a ≢ p = (λ z. let t = (==_iff a p).1 z in cc (t, x)) in
        let same = ap (λ v. v.inum) (others a n) in
        elim (Bool-cases (b == p)) [
          | inl y ↦ absurd (
              free a h n (rw (sym (others a n)) la)
                (sym same ∙ e ∙ ap (λ v. (s'.inode v).inum) ((==_iff b p).0 y)))
          | inr y ↦
              let m : b ≢ p = (λ z. let t = (==_iff b p).1 z in cc (t, y)) in
              one a b h i (rw (sym (others a n)) la) (rw (sym (others b m)) lb)
                (sym same ∙ e ∙ ap (λ v. v.inum) (others b m))
        ]
  ]

idup-Counted :
    (p inum : ℕ) (s : Fs)
    → p < ninode
    → 0 < (s.inode p).ref
    → (s.inode p).inum ≡ inum
    → OneEntry s
    → (s' : Fs) × (idup p s ≡ ok (p, s')) × Counted s s' p inum
unfolding idup
idup-Counted p inum s h live same one =
    let new : Inode = record (s.inode p) { ref = (s.inode p).ref + 1 } in
    let t : Fs = record s { inode = update s.inode p new } in
    let at : t.inode p ≡ new = rw ((==_iff p p).1 refl) refl in
    let others : (a : ℕ) → a ≢ p → t.inode a ≡ s.inode a = (λ a n. rw (==_of_ne a p n) refl) in
    (
      t,
      refl,
      record {
        in_range = h;
        entry = ap (λ i. i.inum) at ∙ same;
        counted = ap (λ i. i.ref) at;
        others = others;
        reread = λ z. absurd (omega arith);
        unique =
            OneEntry-change s t p others one
              (λ a k n la e. n (one a p k h la live (e ∙ ap (λ i. i.inum) at)));
      },
    )

recycle-Counted :
    (p inum : ℕ) (s : Fs)
    → p < ninode
    → (s.inode p).ref ≡ 0
    → NotCached s ninode inum
    → OneEntry s
    → (s' : Fs) × (recycle (some p) inum s ≡ ok (p, s')) × Counted s s' p inum
unfolding recycle
recycle-Counted p inum s h free miss one =
    let new : Inode = record (s.inode p) { inum = inum; ref = 1; valid = false } in
    let t : Fs = record s { inode = update s.inode p new } in
    let at : t.inode p ≡ new = rw ((==_iff p p).1 refl) refl in
    let others : (a : ℕ) → a ≢ p → t.inode a ≡ s.inode a = (λ a n. rw (==_of_ne a p n) refl) in
    (
      t,
      refl,
      record {
        in_range = h;
        entry = ap (λ i. i.inum) at;
        counted = ap (λ i. i.ref) at ∙ omega arith;
        others = others;
        reread = λ z. ap (λ i. i.valid) at;
        unique =
            OneEntry-change s t p others one (λ a k n la e. miss a k la (e ∙ ap (λ i. i.inum) at));
      },
    )

-- iget returns an entry of the inode, with one reference more than before, and changes no other entry.
-- An entry that was not in use is marked to be read from the disk. Where no inode had two entries, none
-- has two afterwards. iget panics only where all entries are in use and none is the inode's.
pub iget-Counted :
    (inum : ℕ) (s : Fs)
    → OneEntry s
    → (NotCached s ninode inum × AllBusy s ninode × (iget inum s ≡ panic))
      ⊎ ((p : ℕ) × (s' : Fs) × (iget inum s ≡ ok (p, s')) × Counted s s' p inum)
unfolding iget
iget-Counted inum s one =
    elim (iget_loop-Outcome ninode 0 none inum s refl (λ a k. absurd (omega arith))
      (λ a k. absurd (omega arith))) [
        | inl full ↦ inl full
        | inr (p, h, inl (live, same, run)) ↦
            let (t, run', c) = idup-Counted p inum s h live same one in inr (p, t, run ∙ run', c)
        | inr (p, h, inr (free, miss, run)) ↦
            let (t, run', c) = recycle-Counted p inum s h free miss one in inr (p, t, run ∙ run', c)
      ]
