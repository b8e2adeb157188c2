-- ===== src/Fs/Fetch.antt =====
-- One pointer of bmap: follow_addr and follow_entry keep the trees sound.

use hyu_ele.Base.{
  arith, ℕ, suc, ◌<◌, ◌≡◌, ◌≢◌, refl, ◌∙◌, false, Bool-cases, ◌==◌, ==_iff, ◌⊎◌, inl, inr,
}
use hyu_ele.Base.Run.{ok, panic, Run}
use hyu_ele.Fs.{Fs, word_at, nindirect, follow_addr, follow_entry}
use hyu_ele.Fs.Bitmap.{in_use, taken, balloc-IsLeast}
use hyu_ele.Fs.Room.{Few, Full-Few, Takes, Takes-mono, Takes-none, Takes-one}
use hyu_ele.Fs.Grow.{
  marks, in_use-written, Grows, Grows-refl, taken-Laid, taken-zero, written, written-Laid, not_zero,
}
use hyu_ele.Fs.Enter.{
  apart, still, entered-Grows, entered-Sound, pointed-Sound, zero-after, word-entered,
}
use hyu_ele.Fs.Keep.{Keeps, Keeps-refl, pointed-Keeps, written-Keeps}
use hyu_ele.Fs.Unique.{Fine, pointed-Unique, after-Unique}
use hyu_ele.Fs.Tree.{
  height, Reaches, top, entry, pointed, pointed-Grows, addrs-pointed, Reaches-Grows,
}

-- With at most `n` new blocks, from `s` to `s'` the pointer `v` was fetched for inode `q`, for a
-- block at height `l`. It is the old one, and nothing changed, or the old one is null and `v` is a
-- new block, whose words are null.
pub record Fetched (n : ℕ) (s s' : Fs) (q l old v : ℕ) : Type 0 where
  pub grows : Grows s s'
  pub keeps : Keeps s s'
  pub fine : Fine s'
  pub takes : Takes n s s'
  pub reached : Reaches s' q l v
  pub nonzero : v ≢ 0
  pub how :
      ((old ≡ 0) × (in_use s v ≡ false) × ((i : ℕ) → i < nindirect → word_at s' v i ≡ 0))
      ⊎ ((old ≡ v) × (s' ≡ s))

-- A run from `s` ends with a pointer that `P` holds of, or panics where the old pointer is null and at
-- most `n` blocks are free in `s`.
abbrev pub Gives : ℕ → Fs → ℕ → Run (ℕ × Fs) → (ℕ → Fs → Type 0) → Type 0
Gives n s old r P =
    ((old ≡ 0) × Few n s × (r ≡ panic)) ⊎ ((v : ℕ) × (s' : Fs) × (r ≡ ok (v, s')) × P v s')

none_taken : (s : Fs) → Takes 1 s s
none_taken s = Takes-mono 0 1 s s (omega arith) (Takes-none s s refl (λ c h. refl))

pub follow_addr-Fetched :
    (q k : ℕ) (s : Fs)
    → k < 13
    → Fine s
    → Gives 0 s
        ((s.inode q).addrs k)
        (follow_addr q k s)
        (λ v s'. Fetched 1 s s' q (height k) ((s.inode q).addrs k) v × ((s'.inode q).addrs k ≡ v))
unfolding follow_addr
follow_addr-Fetched q k s i good =
    let l = good.laid in
    let f = good.sound in
    elim (Bool-cases ((s.inode q).addrs k == 0)) [
      | inr set ↦
          let n = apart ((s.inode q).addrs k) 0 set in
          inr (
            (s.inode q).addrs k,
            s,
            rw set refl,
            (
              record {
                grows = Grows-refl s;
                keeps = Keeps-refl s;
                fine = good;
                takes = none_taken s;
                reached = top i refl refl n;
                nonzero = n;
                how = inr (refl, refl);
              },
              refl,
            ),
          )
      | inl null ↦ elim (balloc-IsLeast s) [
        | inl (full, run) ↦
            inl ((==_iff ((s.inode q).addrs k) 0).0 null, Full-Few s full, rw (null, run) refl)
        | inr (c, least, run) ↦
            let h = least.in_range in
            let idle = least.unused in
            let z = (==_iff ((s.inode q).addrs k) 0).0 null in
            let now : ((pointed q k c (taken c s)).inode q).addrs k ≡ c =
              addrs-pointed q k c (taken c s) q k
              ∙ rw ((==_iff q q).1 refl, (==_iff k k).1 refl) refl in
            let n = not_zero s c l h idle in
            inr (
              c,
              pointed q k c (taken c s),
              rw (null, run) refl,
              (
                record {
                  grows = pointed-Grows s c l h idle f q k z;
                  keeps = pointed-Keeps s c h idle good q k;
                  fine = record {
                    laid =
                        (let t = taken-Laid s c l h idle in
                          record { small = t.small; plain = t.plain; boot = t.boot });
                    sound = pointed-Sound s c l h idle f q k z;
                    unique = pointed-Unique s c l h idle f good.unique q k;
                  };
                  takes =
                      Takes-one s (pointed q k c (taken c s)) c refl
                        (λ e j. marks s c l h idle e j);
                  reached = top i refl now n;
                  nonzero = n;
                  how = inl (z, idle, taken-zero s c l h idle);
                },
                now,
              ),
            )
      ]
    ]

pub follow_entry-Fetched :
    (q l b i : ℕ) (s : Fs)
    → i < nindirect
    → Reaches s q (suc l) b
    → Fine s
    → Gives 0 s
        (word_at s b i)
        (follow_entry b i s)
        (λ v s'. Fetched 1 s s' q l (word_at s b i) v × (word_at s' b i ≡ v))
unfolding follow_entry
follow_entry-Fetched q l b i s g r good =
    let la = good.laid in
    let f = good.sound in
    elim (Bool-cases (word_at s b i == 0)) [
      | inr set ↦
          let n = apart (word_at s b i) 0 set in
          inr (
            word_at s b i,
            s,
            rw set refl,
            (
              record {
                grows = Grows-refl s;
                keeps = Keeps-refl s;
                fine = good;
                takes = none_taken s;
                reached = entry r g refl n;
                nonzero = n;
                how = inr (refl, refl);
              },
              refl,
            ),
          )
      | inl null ↦ elim (balloc-IsLeast s) [
        | inl (full, run) ↦
            inl ((==_iff (word_at s b i) 0).0 null, Full-Few s full, rw (null, run) refl)
        | inr (c, least, run) ↦
            let h = least.in_range in
            let idle = least.unused in
            let o = f q (suc l) b r in
            let z = (==_iff (word_at s b i) 0).0 null in
            let n = not_zero s c la h idle in
            let grown = entered-Grows s c la h idle f b i o z in
            let now = word-entered s c la h idle f b i o z in
            inr (
              c,
              written b i c (taken c s),
              rw (null, run) refl,
              (
                record {
                  grows = grown;
                  keeps = written-Keeps s c h idle good q l b i r z;
                  fine = record {
                    laid =
                        written-Laid (taken c s) b i c (still s c la h idle f b i o z)
                          (taken-Laid s c la h idle);
                    sound = entered-Sound s c la h idle f b i o z;
                    unique = after-Unique s c la h idle f good.unique b i o z;
                  };
                  takes = Takes-one s (written b i c (taken c s)) c refl (λ e j.
                      in_use-written (taken c s) b i c (still s c la h idle f b i o z) e j
                      ∙ marks s c la h idle e j);
                  reached = entry (Reaches-Grows s _ q (suc l) b grown f r) g now n;
                  nonzero = n;
                  how = inl (z, idle, zero-after s c la h idle f b i o z);
                },
                now,
              ),
            )
      ]
    ]
