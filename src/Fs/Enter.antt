-- ===== src/Fs/Enter.antt =====
-- A new pointer keeps the trees sound.
use mathlib.Core.Path.{subst}
use hyu_ele.Base.{
  ℕ, suc, ◌<◌, ◌≡◌, ◌≢◌, sym, ◌∙◌, ap, false, Bool-cases, ◌==◌, ==_iff, arith, ◌⊎◌, inl, inr,
}
use hyu_ele.Fs.{Fs, word_at, nindirect}
use hyu_ele.Fs.Bitmap.{in_use, taken}
use hyu_ele.Fs.Grow.{
  Laid, Owned, Grows, Owned-Grows, Grows-trans, taken-Owned, taken-Grows, taken-zero, Owned-ne,
  written, written-Grows, word-written, word-written_other,
}
use hyu_ele.Fs.Tree.{
  Reaches, top, entry, Sound, pointed, pointed-Grows, Reaches-pointed, word-taken,
}

pub apart : (a b : ℕ) → (a == b) ≡ false → a ≢ b
apart a b h e = absurd (ground arith)

module _ (s : Fs) (c : ℕ) (l : Laid s) (h : c < s.size) (idle : in_use s c ≡ false)
    (f : Sound s) where
  pub pointed-Sound : (p k : ℕ) → (s.inode p).addrs k ≡ 0 → Sound (pointed p k c (taken c s))
  pointed-Sound p k z q m b r = elim (Reaches-pointed s c l h idle f p k q m b r) [
    | inl old ↦ Owned-Grows s _ b (pointed-Grows s c l h idle f p k z) (f q m b old)
    | inr e ↦
        let o = taken-Owned s c l h idle in
        subst (Owned (pointed p k c (taken c s))) (sym e)
          (record { on_disk = o.on_disk; busy = o.busy; plain = o.plain })
  ]

  module _ (b i : ℕ) (o : Owned s b) (z : word_at s b i ≡ 0) where
    pub still : Owned (taken c s) b
    still = Owned-Grows s (taken c s) b (taken-Grows s c l h idle) o

    abbrev pub after : Fs
    after = written b i c (taken c s)

    pub entered-Grows : Grows s after
    entered-Grows =
        Grows-trans s (taken c s) (written b i c (taken c s)) (taken-Grows s c l h idle)
          (written-Grows (taken c s) b i c still (word-taken s c l h idle f b i o ∙ z))

    pub word-after : (d j : ℕ) → Owned s d → d ≢ b ⊎ j ≢ i → word_at after d j ≡ word_at s d j
    word-after d j p n =
        word-written_other (taken c s) b i c still d j n ∙ word-taken s c l h idle f d j p

    pub word-entered : word_at after b i ≡ c
    word-entered = let small = l.small in word-written (taken c s) b i c still (omega arith)

    pub zero-after : (j : ℕ) → j < nindirect → word_at after c j ≡ 0
    zero-after j g =
        word-written_other (taken c s) b i c still c j
          (inl (λ e. Owned-ne s c l h idle b o (sym e)))
        ∙ taken-zero s c l h idle j g

    pub Reaches-after : (q m d : ℕ) → Reaches after q m d → Reaches s q m d ⊎ (d ≡ c)
    Reaches-after q m d (top {k} x e a n) = inl (top x e a n)
    Reaches-after q m d (entry {c = p} {i = j} r x a n) = elim (Reaches-after q (suc m) p r) [
      | inr new ↦ absurd (n (sym a ∙ ap (λ v. word_at after v j) new ∙ zero-after j x))
      | inl old ↦ elim (Bool-cases (p == b)) [
        | inr y ↦ inl (
            entry old x (sym (word-after p j (f q (suc m) p old) (inl (λ e. apart p b y e))) ∙ a) n)
        | inl y ↦ elim (Bool-cases (j == i)) [
          | inr w ↦ inl (
              entry old x (sym (word-after p j (f q (suc m) p old) (inr (λ e. apart j i w e))) ∙ a)
                n)
          | inl w ↦ inr (
              sym a
              ∙ ap (λ v. word_at after v j) ((==_iff p b).0 y)
              ∙ ap (word_at after b) ((==_iff j i).0 w)
              ∙ word-entered)
        ]
      ]
    ]

    pub entered-Sound : Sound after
    entered-Sound q m d r = elim (Reaches-after q m d r) [
      | inl old ↦ Owned-Grows s after d entered-Grows (f q m d old)
      | inr e ↦ subst (Owned after) (sym e) (
          Owned-Grows (taken c s) after c
            (written-Grows (taken c s) b i c still (word-taken s c l h idle f b i o ∙ z))
            (taken-Owned s c l h idle))
    ]
