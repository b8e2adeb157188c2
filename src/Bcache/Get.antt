-- ===== src/Bcache/Get.antt =====
-- bget: the buffer of a block, found or recycled.
use mathlib.Core.Path.{subst}
use hyu_ele.Base.{
  ℕ, ◌+◌, ◌≡◌, ◌≢◌, refl, sym, ◌∙◌, ap, Bool, true, false, not, ◌&&◌, Bool-cases, ◌==◌, ==_iff,
  arith, List, ◌∷◌, ◌++◌, All, ◌⊎◌, inl, inr, ℕ_discrete,
}
use hyu_ele.Base.Run.{ok, panic}
use hyu_ele.Bcache.{Buf, Bcache, nbuf, caches, unused, set_buf, bget}
use hyu_ele.Bcache.Lists.{backwards, Seg-Back, length-backwards, backwards-All, All-backwards}
use hyu_ele.Bcache.Ready.{In, In-mid, In-backwards, All-In, Ready, SameBlock}
use hyu_ele.Bcache.Scan.{referenced, recycled, find_cached-lem, find_unused-lem}
use hyu_ele.Bcache.Content.{Holds, buf_at, buf_other, Ready-change, Holds-same_field}

both_true : (a b : Bool) → (a && b) ≡ true → (a ≡ true) × (b ≡ true)
both_true true b h = (refl, h)
both_true false b h = absurd (cc h)

caches_parts : (dev n : ℕ) (b : Buf) → caches dev n b ≡ true → (b.dev ≡ dev) × (b.blockno ≡ n)
caches_parts dev n b h =
    let (p, q) = both_true (b.dev == dev) (b.blockno == n) h in
    ((==_iff b.dev dev).0 p, (==_iff b.blockno n).0 q)

caches_of : (dev n : ℕ) (b : Buf) → b.dev ≡ dev → b.blockno ≡ n → caches dev n b ≡ true
caches_of dev n b p q = rw ((==_iff b.dev dev).1 p) ((==_iff b.blockno n).1 q)

unused_parts : (b : Buf) → unused b ≡ true → (b.refcnt ≡ 0) × (b.dirty ≡ false)
unused_parts b h =
    let (p, q) = both_true (b.refcnt == 0) (not b.dirty) h in
    ((==_iff b.refcnt 0).0 p, clean b.dirty q)
  where
    clean : (x : Bool) → not x ≡ true → x ≡ false
    clean true e = absurd (cc e)
    clean false e = refl

-- The buffer `b` is the block now, with one reference more, and no other buffer changed. It is the one
-- that was the block before, or, where there was none, the one released longest ago of those that no
-- thread refers to and the log has not changed.
pub record Got (s s' : Bcache) (xs : List ℕ) (b dev blockno : ℕ) : Type 0 where
  pub listed : In b xs
  pub which : ((s'.buf b).dev ≡ dev) × ((s'.buf b).blockno ≡ blockno)
  pub how :
      ((caches dev blockno (s.buf b) ≡ true) × (s'.buf b ≡ referenced (s.buf b)))
      ⊎ (All (λ x. caches dev blockno (s.buf x) ≡ false) xs
          × (unused (s.buf b) ≡ true)
          × ((ys zs : List ℕ) × (backwards xs ≡ ys ++ b ∷ zs)
              × All (λ x. unused (s.buf x) ≡ false) ys)
          × (s'.buf b ≡ recycled dev blockno (s.buf b)))
  pub others : (x : ℕ) → x ≢ b → s'.buf x ≡ s.buf x
  pub same_disk : s'.memdisk ≡ s.memdisk
  pub ready : Ready s' xs
  pub holds : (n : ℕ) (d : ℕ → ℕ) → Holds s xs n d → Holds s' xs n d

referenced-Ready :
    (s : Bcache) (xs : List ℕ) (b : ℕ) → In b xs → Ready s xs → Ready (set_buf b referenced s) xs
referenced-Ready s xs b i r =
    Ready-change b referenced s xs r (λ v. (refl, refl)) (λ z. absurd (omega (arith, z)))
      (r.kept b i) (r.real b i)

module _ (s : Bcache) (xs : List ℕ) (b dev n : ℕ) (r : Ready s xs) (i : In b xs)
    (miss : All (λ x. caches dev n (s.buf x) ≡ false) xs) (free : unused (s.buf b) ≡ true) where
  abbrev next : Bcache
  next = set_buf b (recycled dev n) s

  -- No other buffer is the block.
  alone : (x : ℕ) → In x xs → x ≢ b → (next.buf x).dev ≡ dev → (next.buf x).blockno ≡ n → ⊥
  alone x j d p q =
      let same = buf_other b (recycled dev n) s x d in
      let hit =
        caches_of dev n (s.buf x) (ap (λ w. w.dev) (sym same) ∙ p)
          (ap (λ w. w.blockno) (sym same) ∙ q) in
      let no_hit = All-In (λ y. caches dev n (s.buf y) ≡ false) x xs miss j in cc (hit, no_hit)

  at_dev : (x : ℕ) → x ≡ b → (next.buf x).dev ≡ dev
  at_dev x e = ap (λ y. (next.buf y).dev) e ∙ ap (λ w. w.dev) (buf_at b (recycled dev n) s)

  at_blockno : (x : ℕ) → x ≡ b → (next.buf x).blockno ≡ n
  at_blockno x e =
      ap (λ y. (next.buf y).blockno) e ∙ ap (λ w. w.blockno) (buf_at b (recycled dev n) s)

  recycled-one : (x y : ℕ) → In x xs → In y xs → SameBlock (next.buf x) (next.buf y) → x ≡ y
  recycled-one x y j k h = elim (ℕ_discrete x b) [
    | yes e ↦ elim (ℕ_discrete y b) [
      | yes f ↦ e ∙ sym f
      | no d ↦ absurd (alone y k d (sym h.1 ∙ at_dev x e) (sym h.2 ∙ at_blockno x e))
    ]
    | no c ↦ elim (ℕ_discrete y b) [
      | yes f ↦ absurd (alone x j c (h.1 ∙ at_dev y f) (h.2 ∙ at_blockno y f))
      | no d ↦
          let sx = buf_other b (recycled dev n) s x c in
          let sy = buf_other b (recycled dev n) s y d in
          r.one x y j k (
            (λ e. h.0 (ap (λ w. w.dev) sx ∙ e)),
            ap (λ w. w.dev) (sym sx) ∙ h.1 ∙ ap (λ w. w.dev) sy,
            ap (λ w. w.blockno) (sym sx) ∙ h.2 ∙ ap (λ w. w.blockno) sy,
          )
    ]
  ]

  not_valid : (x : ℕ) → x ≡ b → (next.buf x).valid ≡ false
  not_valid x e = ap (λ y. (next.buf y).valid) e ∙ ap (λ w. w.valid) (buf_at b (recycled dev n) s)

  recycled-Ready : Ready next xs
  recycled-Ready = record {
    ring = r.ring;
    few = r.few;
    one = recycled-one;
    clean = λ x j z d v. elim (ℕ_discrete x b) [
      | yes e ↦
          let count =
            ap (λ y. (next.buf y).refcnt) e ∙ ap (λ w. w.refcnt) (buf_at b (recycled dev n) s) in
          absurd (omega (arith, z, count))
      | no c ↦
          let same = buf_other b (recycled dev n) s x c in
          ap (λ w. w.bytes) same
          ∙ r.clean x j (ap (λ w. w.refcnt) (sym same) ∙ z) (ap (λ w. w.dirty) (sym same) ∙ d)
              (ap (λ w. w.valid) (sym same) ∙ v)
          ∙ ap (λ w. s.memdisk w.blockno) (sym same)
    ];
    kept = λ x j d. elim (ℕ_discrete x b) [
      | yes e ↦
          let no_change =
            ap (λ y. (next.buf y).dirty) e ∙ ap (λ w. w.dirty) (buf_at b (recycled dev n) s) in
          absurd (cc (no_change, d))
      | no c ↦
          let same = buf_other b (recycled dev n) s x c in
          ap (λ w. w.valid) same ∙ r.kept x j (ap (λ w. w.dirty) (sym same) ∙ d)
    ];
    real = λ x j v. elim (ℕ_discrete x b) [
      | yes e ↦ let w = not_valid x e in absurd (cc (v, w))
      | no c ↦
          let same = buf_other b (recycled dev n) s x c in
          ap (λ w. w.dev) same ∙ r.real x j (ap (λ w. w.valid) (sym same) ∙ v)
    ];
  }

  recycled-Holds : (m : ℕ) (d : ℕ → ℕ) → Holds s xs m d → Holds next xs m d
  recycled-Holds m d h = record {
    cached = λ x j p q v. elim (ℕ_discrete x b) [
      | yes e ↦ let w = not_valid x e in absurd (cc (v, w))
      | no c ↦
          let same = buf_other b (recycled dev n) s x c in
          ap (λ w. w.bytes) same
          ∙ h.cached x j (ap (λ w. w.dev) (sym same) ∙ p) (ap (λ w. w.blockno) (sym same) ∙ q)
              (ap (λ w. w.valid) (sym same) ∙ v)
    ];
    uncached = λ empty. elim (Bool-cases (caches 1 m (s.buf b) && (s.buf b).valid)) [
      | inl held ↦
          let (hit, v) = both_true (caches 1 m (s.buf b)) (s.buf b).valid held in
          let (p, q) = caches_parts 1 m (s.buf b) hit in
          let (z, c) = unused_parts (s.buf b) free in
          ap s.memdisk (sym q) ∙ sym (r.clean b i z c v) ∙ h.cached b i p q v
      | inr bare ↦ h.uncached (λ x j p q. elim (ℕ_discrete x b) [
        | yes e ↦ elim (Bool-cases (s.buf b).valid) [
          | inr v ↦ ap (λ y. (s.buf y).valid) e ∙ v
          | inl v ↦
              let hit =
                caches_of 1 m (s.buf b) (ap (λ y. (s.buf y).dev) (sym e) ∙ p)
                  (ap (λ y. (s.buf y).blockno) (sym e) ∙ q) in
              let held : (caches 1 m (s.buf b) && (s.buf b).valid) ≡ true = rw hit v in
              absurd (cc (held, bare))
        ]
        | no c ↦
            let same = buf_other b (recycled dev n) s x c in
            ap (λ w. w.valid) (sym same)
            ∙ empty x j (ap (λ w. w.dev) same ∙ p) (ap (λ w. w.blockno) same ∙ q)
      ])
    ];
  }

-- bget of a block of a device finds its buffer or recycles one, as Got says; no block has two buffers
-- afterwards either, and the content of every block stays. bget panics only where no buffer is the
-- block and every buffer is referred to or changed.
pub bget-Got :
    (s : Bcache) (xs : List ℕ) (dev blockno : ℕ)
    → Ready s xs
    → (All (λ x. caches dev blockno (s.buf x) ≡ false) xs
        × All (λ x. unused (s.buf x) ≡ false) xs
        × (bget dev blockno s ≡ panic))
      ⊎ ((b : ℕ) × (s' : Bcache) × (bget dev blockno s ≡ ok (b, s')) × Got s s' xs b dev blockno)
unfolding bget
bget-Got s xs dev n r =
    let none_zero = r.ring.distinct.0 in
    elim (find_cached-lem s dev n (nbuf + 1) 0 xs (let few = r.few in omega arith) none_zero
      r.ring.linked) [
        | inr (ys, b, zs, e, hit, run) ↦
            let parts = caches_parts dev n (s.buf b) hit in
            let at = buf_at b referenced s in
            inr (
              b,
              set_buf b referenced s,
              rw run refl,
              record {
                listed = subst (In b) (sym e) (In-mid b ys zs);
                which = (ap (λ w. w.dev) at ∙ parts.0, ap (λ w. w.blockno) at ∙ parts.1);
                how = inl (hit, at);
                others = buf_other b referenced s;
                same_disk = refl;
                ready = referenced-Ready s xs b (subst (In b) (sym e) (In-mid b ys zs)) r;
                holds =
                    λ m d. Holds-same_field b referenced s xs m d (λ v. (refl, refl, refl, refl));
              },
            )
        | inl (miss, run) ↦
            elim (find_unused-lem s dev n (nbuf + 1) 0 (backwards xs)
              (let few = r.few in omega (arith, length-backwards xs))
              (backwards-All (λ x. 0 ≢ x) xs none_zero) (Seg-Back s.links 0 0 xs r.ring.linked)) [
                | inl (busy, run') ↦ inl (
                  miss,
                  All-backwards (λ x. unused (s.buf x) ≡ false) xs busy,
                  rw (run, run') refl,
                )
                | inr (ys, b, zs, e, busy, free, run') ↦
                    let i = In-backwards b xs (subst (In b) (sym e) (In-mid b ys zs)) in
                    let at = buf_at b (recycled dev n) s in
                    inr (
                      b,
                      set_buf b (recycled dev n) s,
                      rw (run, run') refl,
                      record {
                        listed = i;
                        which = (ap (λ w. w.dev) at, ap (λ w. w.blockno) at);
                        how = inr (miss, free, (ys, zs, e, busy), at);
                        others = buf_other b (recycled dev n) s;
                        same_disk = refl;
                        ready = recycled-Ready s xs b dev n r i miss free;
                        holds = recycled-Holds s xs b dev n r i miss free;
                      },
                    )
              ]
      ]
