-- ===== src/Fs/Ialloc.antt =====
-- ialloc takes the first free inode.
use mathlib.Core.Path.{subst}
use hyu_ele.Base.{
  ℕ, zero, suc, ◌+◌, ◌*◌, ◌/◌, ◌%◌, ◌<◌, ◌≤◌, ◌≡◌, ◌≢◌, refl, sym, ◌∙◌, ap, ◌==◌, ==_iff,
  Bool-cases, if◌then◌else◌, ltb_of_lt, ltb_of_le, arith, ◌⊎◌, inl, inr, dec_lt, ℕ_discrete, update,
  ◌++◌, ◌∷◌, [],
}
use hyu_ele.Base.Run.{Run, panic}
use hyu_ele.Str.{memset}
use hyu_ele.Str.Fill.{memset-filled}
use hyu_ele.Fs.{Fs, Inode}
use hyu_ele.Fs.Cache.{iget}
use hyu_ele.Fs.File.{Buffer, iblock, put_half}
use hyu_ele.Fs.Dinode.{half_of, dip, claim, ialloc_loop, ialloc}
use hyu_ele.Fs.Layout.{SameFields}
use hyu_ele.Fs.Inodes.{disk_inode, same_bytes}

-- The type of inode `n` on the disk: 0 for a free one.
abbrev pub type_at : Fs → ℕ → ℕ
type_at s n = half_of (s.data_at (iblock s n)) (dip n * 4)

-- On the disk inode `n` has this type and else zeros; the other inodes and the cache stay.
pub record Claimed (s s' : Fs) (n type : ℕ) : Type 0 where
  pub bytes :
      (k : ℕ)
      → k < 64
      → s'.data_at (iblock s n) (dip n * 4 + k)
        ≡ (if k == 0 then type % 256 else if k == 1 then type / 256 % 256 else 0)
  pub others : (m : ℕ) (j : Inode) → m ≢ n → SameFields (disk_inode s' m j) (disk_inode s m j)
  pub cache : (q : ℕ) → s'.inode q ≡ s.inode q
  pub logged : s'.logged ≡ s.logged ++ iblock s n ∷ []

module _ (s : Fs) (n type : ℕ) where
  abbrev wiped : Buffer → Buffer
  wiped d = put_half (memset (dip n * 4) 0 64 d) (dip n * 4) type

  abbrev claimed : Fs
  claimed = record s {
    data_at = update s.data_at (iblock s n) (wiped (s.data_at (iblock s n)));
    logged = s.logged ++ iblock s n ∷ [];
  }

  wiped_in :
      (d : Buffer) (k : ℕ)
      → k < 64
      → wiped d (dip n * 4 + k)
        ≡ (if k == 0 then type % 256 else if k == 1 then type / 256 % 256 else 0)
  wiped_in d k h = let zeros = memset-filled (dip n * 4) 0 64 d (dip n * 4 + k) in ground arith

  wiped_out : (d : Buffer) (p : ℕ) → p < dip n * 4 ⊎ dip n * 4 + 64 ≤ p → wiped d p ≡ d p
  wiped_out d p h = let same = memset-filled (dip n * 4) 0 64 d p in ground arith

  claimed_place :
      (m : ℕ) (j : Inode) → m ≢ n → SameFields (disk_inode claimed m j) (disk_inode s m j)
  claimed_place m j apart = same_bytes (dip m) _ (s.data_at (iblock s m)) j (λ p a b.
      elim (Bool-cases (iblock s m == iblock s n)) [
        | inr x ↦ rw x refl
        | inl x ↦
            let same : iblock s m ≡ iblock s n = (==_iff _ _).0 x in
            let near : m / 8 ≡ n / 8 = omega arith in
            let far : m % 8 ≢ n % 8 = (λ e. apart (omega arith)) in
            rw x (
              wiped_out (s.data_at (iblock s n)) p (ground arith)
              ∙ sym (ap (λ b. s.data_at b p) same))
      ])

  claimed-Claimed : Claimed s claimed n type
  claimed-Claimed = record {
    bytes = λ k h.
        rw ((==_iff (iblock s n) (iblock s n)).1 refl) (wiped_in (s.data_at (iblock s n)) k h);
    others = claimed_place;
    cache = λ q. refl;
    logged = refl;
  }

  claim_runs : claim n type s ≡ iget n claimed
  unfolding claim
  claim_runs = refl

-- Where ialloc stops, from inode `from` on.
abbrev Outcome : Fs → ℕ → ℕ → Run (ℕ × Fs) → Type 0
Outcome s from type r =
    (((m : ℕ) → from ≤ m → m < s.ninodes → type_at s m ≢ 0) × (r ≡ panic))
    ⊎ ((n : ℕ) × (from ≤ n)
        × (n < s.ninodes)
        × ((m : ℕ) → from ≤ m → m < n → type_at s m ≢ 0)
        × (type_at s n ≡ 0)
        × ((s' : Fs) × (r ≡ iget n s') × Claimed s s' n type))

further :
    (s : Fs) (n end : ℕ)
    → type_at s n ≢ 0
    → ((m : ℕ) → n + 1 ≤ m → m < end → type_at s m ≢ 0)
    → (m : ℕ) → n ≤ m
    → m < end
    → type_at s m ≢ 0
further s n end taken later m h l = elim (ℕ_discrete m n) [
  | yes e ↦ subst (λ x. type_at s x ≢ 0) (sym e) taken
  | no e ↦ later m (omega arith) l
]

ialloc_loop-Outcome :
    (k n type : ℕ) (s : Fs)
    → n ≤ s.ninodes + 1
    → s.ninodes + 1 < n + k
    → Outcome s n type (ialloc_loop k n type s)
unfolding ialloc_loop
ialloc_loop-Outcome zero n type s l h = absurd (omega arith)
ialloc_loop-Outcome (suc k) n type s l h = elim (dec_lt n s.ninodes) [
  | no a ↦ inl (λ m b c. absurd (omega arith), rw (ltb_of_le n s.ninodes (omega arith)) refl)
  | yes a ↦ elim (Bool-cases (type_at s n == 0)) [
    | inl z ↦ inr (
      n,
      omega arith,
      a,
      λ m b c. absurd (omega arith),
      (==_iff _ 0).0 z,
      (
        claimed s n type,
        rw (ltb_of_lt n s.ninodes a, z) (claim_runs s n type),
        claimed-Claimed s n type,
      ),
    )
    | inr z ↦
        let taken : type_at s n ≢ 0 = (λ e. let t = (==_iff _ 0).1 e in cc (t, z)) in
        rw (ltb_of_lt n s.ninodes a, z)
          (elim (ialloc_loop-Outcome k (n + 1) type s (omega arith) (omega arith)) [
            | inl (none_on, run) ↦ inl (further s n s.ninodes taken none_on, run)
            | inr (m, b, c, none_on, free, run) ↦
                inr (m, omega arith, c, further s n m taken none_on, free, run)
          ])
  ]
]

-- ialloc panics where no inode from 1 on is free. Else it takes the first free one: on the disk that
-- inode gets the type, and zeros in its other fields, its block is logged and the other inodes stay;
-- and it returns the entry that iget gives for it.
pub ialloc-first :
    (type : ℕ) (s : Fs)
    → (((m : ℕ) → 1 ≤ m → m < s.ninodes → type_at s m ≢ 0) × (ialloc type s ≡ panic))
      ⊎ ((n : ℕ) × (1 ≤ n)
          × (n < s.ninodes)
          × ((m : ℕ) → 1 ≤ m → m < n → type_at s m ≢ 0)
          × (type_at s n ≡ 0)
          × ((s' : Fs) × (ialloc type s ≡ iget n s') × Claimed s s' n type))
unfolding ialloc
ialloc-first type s = ialloc_loop-Outcome (s.ninodes + 1) 1 type s (omega arith) (omega arith)
