-- ===== src/Fs/Tree.antt =====
-- The block trees of the inodes, and what a new pointer does to them.
use hyu_ele.Base.{
  ℕ, suc, ◌-◌, ◌<◌, ◌≡◌, ◌≢◌, refl, sym, ◌∙◌, ap, true, false, Bool-cases, ◌==◌, ==_iff,
  if◌then◌else◌, update, ◌⊎◌, inl, inr, [],
}
use mathlib.Core.List.{append-nil}
use hyu_ele.Fs.{Fs, word_at, word_of, nindirect}
use hyu_ele.Fs.Bitmap.{in_use, taken}
use hyu_ele.Fs.Grow.{Laid, Owned, Grows, Grows-trans, taken-Grows, taken-zero, Owned-ne, data-taken}

-- The height of the tree behind `ip->addrs[k]`.
abbrev pub height : ℕ → ℕ
height k = k - 9

-- Inode `q` has the block `b`, at height `l`: 0 for a block of the file, 1 to 3 for an indirect block.
pub data Reaches (s : Fs) (q : ℕ) : ℕ → ℕ → Type 0 where
  top : {l k b : ℕ} → k < 13 → l ≡ height k → (s.inode q).addrs k ≡ b → b ≢ 0 → Reaches s q l b
  entry :
      {l c i b : ℕ}
      → Reaches s q (suc l) c
      → i < nindirect
      → word_at s c i ≡ b
      → b ≢ 0
      → Reaches s q l b

-- Every block that an inode has is its own to use.
abbrev pub Sound : Fs → Type 0
Sound s = (q l b : ℕ) → Reaches s q l b → Owned s b

pub Reaches-Grows :
    (s s' : Fs) (q l b : ℕ) → Grows s s' → Sound s → Reaches s q l b → Reaches s' q l b
Reaches-Grows s s' q l b g f (top {k} h e a n) = top h e (g.addrs q k (λ z. n (sym a ∙ z)) ∙ a) n
Reaches-Grows s s' q l b g f (entry {c} {i} r h a n) =
    entry (Reaches-Grows s s' q (suc l) c g f r) h
      (g.words c i (f q (suc l) c r) (λ z. n (sym a ∙ z)) ∙ a) n

-- `ip->addrs[k] = v`
abbrev pub pointed : ℕ → ℕ → ℕ → Fs → Fs
pointed p k v s = record s {
  inode = update s.inode p (record (s.inode p) { addrs = update (s.inode p).addrs k v });
}

pub addrs-pointed :
    (p k v : ℕ) (s : Fs) (q j : ℕ)
    → ((pointed p k v s).inode q).addrs j
      ≡ (if q == p then (if j == k then v else (s.inode q).addrs j) else (s.inode q).addrs j)
addrs-pointed p k v s q j = elim (Bool-cases (q == p)) [
  | inl e ↦ rw e (ap (λ m. if j == k then v else (s.inode m).addrs j) (sym ((==_iff q p).0 e)))
  | inr e ↦ rw e refl
]

module _ (s : Fs) (c : ℕ) (l : Laid s) (h : c < s.size) (idle : in_use s c ≡ false)
    (f : Sound s) where
  pub word-taken : (d i : ℕ) → Owned s d → word_at (taken c s) d i ≡ word_at s d i
  word-taken d i o =
      ap (λ m. word_of m i) (data-taken s c l h idle d (Owned-ne s c l h idle d o) (o.plain c h))

  set_already :
      (p k q j : ℕ)
      → (s.inode p).addrs k ≡ 0
      → (q == p) ≡ true
      → (j == k) ≡ true
      → (s.inode q).addrs j ≡ 0
  set_already p k q j z e d =
      ap (λ m. (s.inode m).addrs j) ((==_iff q p).0 e)
      ∙ ap (λ m. (s.inode p).addrs m) ((==_iff j k).0 d)
      ∙ z

  pub pointed-Grows : (p k : ℕ) → (s.inode p).addrs k ≡ 0 → Grows s (pointed p k c (taken c s))
  pointed-Grows p k z =
      Grows-trans s (taken c s) (pointed p k c (taken c s)) (taken-Grows s c l h idle) (record {
        size = refl;
        start = refl;
        used = λ e i b. b;
        words = λ b i o n. refl;
        addrs = λ q j n. addrs-pointed p k c (taken c s) q j ∙ elim (Bool-cases (q == p)) [
          | inr e ↦ rw e refl
          | inl e ↦ elim (Bool-cases (j == k)) [
            | inr d ↦ rw (e, d) refl
            | inl d ↦ absurd (n (set_already p k q j z e d))
          ]
        ];
        logs = record {
          new = [];
          log = sym (append-nil (taken c s).logged);
          others = λ b i n. refl;
        };
      })

  pub Reaches-pointed :
      (p k q m b : ℕ) → Reaches (pointed p k c (taken c s)) q m b → Reaches s q m b ⊎ (b ≡ c)
  Reaches-pointed p k q m b (top {k = j} i e a n) =
      let now = addrs-pointed p k c (taken c s) q j in
      elim (Bool-cases (q == p)) [
        | inr x ↦ inl (top i e (sym (now ∙ rw x refl) ∙ a) n)
        | inl x ↦ elim (Bool-cases (j == k)) [
          | inr y ↦ inl (top i e (sym (now ∙ rw (x, y) refl) ∙ a) n)
          | inl y ↦ inr (sym a ∙ now ∙ rw (x, y) refl)
        ]
      ]
  Reaches-pointed p k q m b (entry {c = d} {i} r j a n) = elim (Reaches-pointed p k q (suc m) d r) [
    | inl old ↦ inl (entry old j (sym (word-taken d i (f q (suc m) d old)) ∙ a) n)
    | inr new ↦
        absurd (n (sym a ∙ ap (λ v. word_at (taken c s) v i) new ∙ taken-zero s c l h idle i j))
  ]
