-- ===== src/Fs/Keep.antt =====
-- What a step of bmap leaves alone: the blocks of files, the metadata, the layout.
use hyu_ele.Base.{
  ℕ, suc, ◌<◌, ◌≡◌, refl, sym, ◌∙◌, ap, false, Bool-cases, ◌==◌, ==_iff, arith, ◌⊎◌, inl, inr,
}
use hyu_ele.Fs.{Fs, Inode, word_at, nindirect}
use hyu_ele.Fs.Bitmap.{in_use, taken}
use hyu_ele.Fs.Grow.{Grows, written, data-taken, data-written, Owned-ne, taken-zero}
use hyu_ele.Fs.Tree.{height, Reaches, top, entry, Sound, pointed, Reaches-pointed, Reaches-Grows}
use hyu_ele.Fs.Enter.{still, zero-after, Reaches-after}
use hyu_ele.Fs.Unique.{root, cell, by_root, by_cell, Unique, Fine}

-- A block stands at one height.
pub one_height : (s : Fs) (q p l m b : ℕ) → Unique s → Reaches s q l b → Reaches s p m b → l ≡ m
one_height s q p l m b one (top {k} h e a n) (top {k = j} h' e' a' n') =
    let same = one (root q k) (root p j) b (by_root h a n) (by_root h' a' n') in
    let index : k ≡ j = cc same in e ∙ ap height index ∙ sym e'
one_height s q p l m b one (top {k} h e a n) (entry {c} {i} r h' a' n') =
    absurd (cc (one (root q k) (cell c i) b (by_root h a n) (by_cell r h' a' n')))
one_height s q p l m b one (entry {c} {i} r h a n) (top {k} h' e' a' n') =
    absurd (cc (one (cell c i) (root p k) b (by_cell r h a n) (by_root h' a' n')))
one_height s q p l m b one (entry {c} {i} r h a n) (entry {c = d} {i = j} r' h' a' n') =
    let same = one (cell c i) (cell d j) b (by_cell r h a n) (by_cell r' h' a' n') in
    let block : c ≡ d = cc same in
    let up = one_height s q p (suc l) (suc m) c one r (rw block r') in omega arith

abbrev pub SameMeta : Inode → Inode → Type 0
SameMeta i j = (i.inum ≡ j.inum) × (i.type ≡ j.type) × (i.size ≡ j.size)

-- From `s` to `s'` the blocks of files keep their bytes, and a block that is new in a file is zero.
pub record Keeps (s s' : Fs) : Type 0 where
  pub content : (q b : ℕ) → Reaches s q 0 b → s'.data_at b ≡ s.data_at b
  pub meta : (q : ℕ) → SameMeta (s'.inode q) (s.inode q)
  pub start : s'.inodestart ≡ s.inodestart
  pub fresh :
      (q l b : ℕ)
      → Reaches s' q l b
      → Reaches s q l b
        ⊎ ((in_use s b ≡ false) × (l ≡ 0 → (i : ℕ) → i < nindirect → word_at s' b i ≡ 0))

pub Keeps-refl : (s : Fs) → Keeps s s
Keeps-refl s = record {
  content = λ q b r. refl;
  meta = λ q. (refl, refl, refl);
  start = refl;
  fresh = λ q l b r. inl r;
}

pub idle_before :
    (s t : Fs) (v : ℕ) → Grows s t → v < t.size → in_use t v ≡ false → in_use s v ≡ false
idle_before s t v g h idle = elim (Bool-cases (in_use s v)) [
  | inr e ↦ e
  | inl e ↦ let e1 = g.used v (rw (sym g.size) h) e in absurd (cc (e1, idle))
]

pub Keeps-trans :
    (s t u : Fs) → Grows s t → Grows t u → Sound s → Sound u → Keeps s t → Keeps t u → Keeps s u
Keeps-trans s t u g g' f f' k k' = record {
  content = λ q b r. k'.content q b (Reaches-Grows s t q 0 b g f r) ∙ k.content q b r;
  meta = λ q. let (a, b, c) = k.meta q in let (a', b', c') = k'.meta q in (a' ∙ a, b' ∙ b, c' ∙ c);
  start = k'.start ∙ k.start;
  fresh = λ q l b r. elim (k'.fresh q l b r) [
    | inr (idle, zeros) ↦
        inr (idle_before s t b g (rw (sym g'.size) (f' q l b r).on_disk) idle, zeros)
    | inl r' ↦ elim (k.fresh q l b r') [
      | inl old ↦ inl old
      | inr (idle, zeros) ↦ inr (
        idle,
        λ z i h.
            ap (λ d. word_at (record u { data_at = λ j. d }) b i) (k'.content q b (rw (sym z) r'))
            ∙ zeros z i h,
      )
    ]
  ];
}

meta_pointed : (p k c : ℕ) (s : Fs) (q : ℕ) → SameMeta ((pointed p k c s).inode q) (s.inode q)
meta_pointed p k c s q = elim (Bool-cases (q == p)) [
  | inr e ↦ rw e (refl, refl, refl)
  | inl e ↦
      let same = sym ((==_iff q p).0 e) in
      rw e (
        ap (λ m. (s.inode m).inum) same,
        ap (λ m. (s.inode m).type) same,
        ap (λ m. (s.inode m).size) same,
      )
]

module _ (s : Fs) (c : ℕ) (h : c < s.size) (idle : in_use s c ≡ false) (good : Fine s) where
  kept_data : (q b : ℕ) → Reaches s q 0 b → (taken c s).data_at b ≡ s.data_at b
  kept_data q b r =
      let o = good.sound q 0 b r in
      data-taken s c good.laid h idle b (Owned-ne s c good.laid h idle b o) (o.plain c h)

  pub pointed-Keeps : (p k : ℕ) → Keeps s (pointed p k c (taken c s))
  pointed-Keeps p k = record {
    content = kept_data;
    meta = meta_pointed p k c (taken c s);
    start = refl;
    fresh = λ q l b r. elim (Reaches-pointed s c good.laid h idle good.sound p k q l b r) [
      | inl old ↦ inl old
      | inr e ↦ inr (
        ap (in_use s) e ∙ idle,
        λ z i j. ap (λ d. word_at (taken c s) d i) e ∙ taken-zero s c good.laid h idle i j,
      )
    ];
  }

  pub written-Keeps :
      (p m b i : ℕ)
      → Reaches s p (suc m) b
      → word_at s b i ≡ 0
      → Keeps s (written b i c (taken c s))
  written-Keeps p m b i at z =
      let o = good.sound p (suc m) b at in
      record {
        content = λ q d r.
            data-written (taken c s) b i c (still s c good.laid h idle good.sound b i o z) d (λ e.
              let up = one_height s p q (suc m) 0 b good.unique at (rw (sym e) r) in absurd (cc up))
            ∙ kept_data q d r;
        meta = λ q. (refl, refl, refl);
        start = refl;
        fresh = λ q l d r. elim (Reaches-after s c good.laid h idle good.sound b i o z q l d r) [
          | inl old ↦ inl old
          | inr e ↦ inr (
            ap (in_use s) e ∙ idle,
            λ _ j g.
                ap (λ v. word_at (written b i c (taken c s)) v j) e
                ∙ zero-after s c good.laid h idle good.sound b i o z j g,
          )
        ];
      }
