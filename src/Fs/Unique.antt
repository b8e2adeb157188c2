-- ===== src/Fs/Unique.antt =====
-- No block has two pointers to it.

use hyu_ele.Base.{
  ℕ, suc, ◌<◌, ◌≡◌, ◌≢◌, refl, sym, ◌∙◌, ap, false, Bool-cases, ◌==◌, ==_iff, ◌⊎◌, inl, inr,
}
use hyu_ele.Fs.{Fs, word_at, nindirect}
use hyu_ele.Fs.Bitmap.{in_use, taken}
use hyu_ele.Fs.Grow.{Laid, Owned, written, taken-zero}
use hyu_ele.Fs.Tree.{
  height, Reaches, top, entry, Sound, pointed, Reaches-pointed, word-taken, addrs-pointed,
}
use hyu_ele.Fs.Enter.{apart, Reaches-after, word-after, word-entered, zero-after}

-- A place of a pointer: `addrs[k]` of an inode, or entry `i` of a block.
pub data Slot : Type 0 where
  root : (q k : ℕ) → Slot
  cell : (c i : ℕ) → Slot

pub data Points (s : Fs) : Slot → ℕ → Type 0 where
  by_root : {q k b : ℕ} → k < 13 → (s.inode q).addrs k ≡ b → b ≢ 0 → Points s (root q k) b
  by_cell :
      {q l c i b : ℕ}
      → Reaches s q (suc l) c
      → i < nindirect
      → word_at s c i ≡ b
      → b ≢ 0
      → Points s (cell c i) b

abbrev pub Unique : Fs → Type 0
Unique s = (x y : Slot) (b : ℕ) → Points s x b → Points s y b → x ≡ y

Points-Reaches : (s : Fs) (x : Slot) (b : ℕ) → Points s x b → (q : ℕ) × (l : ℕ) × Reaches s q l b
Points-Reaches s x b (by_root {q} {k} h a n) = (q, height k, top h refl a n)
Points-Reaches s x b (by_cell {q} {l} r h a n) = (q, l, entry r h a n)

old_ne_new :
    (s : Fs) (c : ℕ) (x : Slot) (b : ℕ) → Sound s → in_use s c ≡ false → Points s x b → b ≢ c
old_ne_new s c x b f idle p e =
    let (q, l, r) = Points-Reaches s x b p in
    let o = f q l b r in cc (o.busy, ap (λ v. in_use s v) e, idle)

-- Every pointer of `u` is one of `s`, or is the one at `new` to `c`, which was not in use.
Unique-new :
    (s u : Fs) (c : ℕ) (new : Slot)
    → Sound s
    → in_use s c ≡ false
    → ((x : Slot) (b : ℕ) → Points u x b → Points s x b ⊎ ((x ≡ new) × (b ≡ c)))
    → Unique s
    → Unique u
Unique-new s u c new f idle back one x y b p q = elim (back x b p) [
  | inl p' ↦ elim (back y b q) [
    | inl q' ↦ one x y b p' q'
    | inr (_, e) ↦ absurd (old_ne_new s c x b f idle p' e)
  ]
  | inr (e, d) ↦ elim (back y b q) [
    | inl q' ↦ absurd (old_ne_new s c y b f idle q' d)
    | inr (e', _) ↦ e ∙ sym e'
  ]
]

module _ (s : Fs) (c : ℕ) (l : Laid s) (h : c < s.size) (idle : in_use s c ≡ false) (f : Sound s)
    (one : Unique s) where
  back_pointed :
      (p k : ℕ) (x : Slot) (b : ℕ)
      → Points (pointed p k c (taken c s)) x b
      → Points s x b ⊎ ((x ≡ root p k) × (b ≡ c))
  back_pointed p k x b (by_root {q} {k = j} i a n) =
      let now = addrs-pointed p k c (taken c s) q j in
      elim (Bool-cases (q == p)) [
        | inr v ↦ inl (by_root i (sym (now ∙ rw v refl) ∙ a) n)
        | inl v ↦ elim (Bool-cases (j == k)) [
          | inr w ↦ inl (by_root i (sym (now ∙ rw (v, w) refl) ∙ a) n)
          | inl w ↦ inr (cc ((==_iff q p).0 v, (==_iff j k).0 w), sym a ∙ now ∙ rw (v, w) refl)
        ]
      ]
  back_pointed p k x b (by_cell {q} {l = m} {c = d} {i} r j a n) =
      elim (Reaches-pointed s c l h idle f p k q (suc m) d r) [
        | inl old ↦
            inl (by_cell old j (sym (word-taken s c l h idle f d i (f q (suc m) d old)) ∙ a) n)
        | inr new ↦
            absurd (n (sym a ∙ ap (λ v. word_at (taken c s) v i) new ∙ taken-zero s c l h idle i j))
      ]

  pub pointed-Unique : (p k : ℕ) → Unique (pointed p k c (taken c s))
  pointed-Unique p k =
      Unique-new s (pointed p k c (taken c s)) c (root p k) f idle (back_pointed p k) one

  module _ (b i : ℕ) (o : Owned s b) (z : word_at s b i ≡ 0) where
    back_after :
        (x : Slot) (d : ℕ)
        → Points (written b i c (taken c s)) x d
        → Points s x d ⊎ ((x ≡ cell b i) × (d ≡ c))
    back_after x d (by_root j a n) = inl (by_root j a n)
    back_after x d (by_cell {q} {l = m} {c = e} {i = j} r k a n) =
        elim (Reaches-after s c l h idle f b i o z q (suc m) e r) [
          | inr new ↦ absurd (
              n (
                sym a
                ∙ ap (λ v. word_at (written b i c (taken c s)) v j) new
                ∙ zero-after s c l h idle f b i o z j k))
          | inl old ↦
              let own = f q (suc m) e old in
              elim (Bool-cases (e == b)) [
                | inr v ↦ inl (
                    by_cell old k
                      (sym (word-after s c l h idle f b i o z e j own (inl (apart e b v))) ∙ a) n)
                | inl v ↦ elim (Bool-cases (j == i)) [
                  | inr w ↦ inl (
                      by_cell old k
                        (sym (word-after s c l h idle f b i o z e j own (inr (apart j i w))) ∙ a) n)
                  | inl w ↦ inr (
                    cc ((==_iff e b).0 v, (==_iff j i).0 w),
                    sym a
                        ∙ ap (λ v. word_at (written b i c (taken c s)) v j) ((==_iff e b).0 v)
                        ∙ ap (word_at (written b i c (taken c s)) b) ((==_iff j i).0 w)
                        ∙ word-entered s c l h idle f b i o z,
                  )
                ]
              ]
        ]

    pub after-Unique : Unique (written b i c (taken c s))
    after-Unique = Unique-new s (written b i c (taken c s)) c (cell b i) f idle back_after one

-- The free map and the trees fit together.
pub record Fine (s : Fs) : Type 0 where
  pub laid : Laid s
  pub sound : Sound s
  pub unique : Unique s
