-- ===== src/Bcache/Content.antt =====
-- The content of a block as its readers see it: that of a valid buffer of it, and else the disk's.
use mathlib.Core.Path.{subst}
use hyu_ele.Base.{ℕ, ◌≡◌, ◌≢◌, refl, sym, ◌∙◌, ap, true, false, ==_iff, ==_of_ne, List, ℕ_discrete}
use hyu_ele.Bcache.{Buf, Bcache, set_buf}
use hyu_ele.Bcache.Ready.{In, Ready}

pub record Holds (s : Bcache) (xs : List ℕ) (n : ℕ) (d : ℕ → ℕ) : Type 0 where
  pub cached :
      (b : ℕ)
      → In b xs
      → (s.buf b).dev ≡ 1
      → (s.buf b).blockno ≡ n
      → (s.buf b).valid ≡ true
      → (s.buf b).bytes ≡ d
  pub uncached :
      ((b : ℕ) → In b xs → (s.buf b).dev ≡ 1 → (s.buf b).blockno ≡ n → (s.buf b).valid ≡ false)
      → s.memdisk n ≡ d

module _ (b : ℕ) (f : Buf → Buf) (s : Bcache) where
  pub buf_at : (set_buf b f s).buf b ≡ f (s.buf b)
  buf_at = rw ((==_iff b b).1 refl) refl

  pub buf_other : (x : ℕ) → x ≢ b → (set_buf b f s).buf x ≡ s.buf x
  buf_other x n = rw (==_of_ne x b n) refl

  pub same_field :
      {A : Type 0} (g : Buf → A)
      → ((v : Buf) → g (f v) ≡ g v)
      → (x : ℕ) → g ((set_buf b f s).buf x) ≡ g (s.buf x)
  same_field g h x = elim (ℕ_discrete x b) [
    | yes e ↦
        ap (λ y. g ((set_buf b f s).buf y)) e
        ∙ ap g buf_at
        ∙ h (s.buf b)
        ∙ ap (λ y. g (s.buf y)) (sym e)
    | no n ↦ ap g (buf_other x n)
  ]

-- Changes of the other fields of a buffer.
pub Holds-same_field :
    (b : ℕ) (f : Buf → Buf) (s : Bcache) (xs : List ℕ) (n : ℕ) (d : ℕ → ℕ)
    → ((v : Buf)
        → ((f v).dev ≡ v.dev)
          × ((f v).blockno ≡ v.blockno)
          × ((f v).valid ≡ v.valid)
          × ((f v).bytes ≡ v.bytes))
    → Holds s xs n d
    → Holds (set_buf b f s) xs n d
Holds-same_field b f s xs n d h c =
    let dev = same_field b f s (λ v. v.dev) (λ v. (h v).0) in
    let blockno = same_field b f s (λ v. v.blockno) (λ v. (h v).1) in
    let valid = same_field b f s (λ v. v.valid) (λ v. (h v).2) in
    let bytes = same_field b f s (λ v. v.bytes) (λ v. (h v).3) in
    record {
      cached = λ x i p q r.
          bytes x ∙ c.cached x i (sym (dev x) ∙ p) (sym (blockno x) ∙ q) (sym (valid x) ∙ r);
      uncached =
          λ none. c.uncached (λ x i p q. sym (valid x) ∙ none x i (dev x ∙ p) (blockno x ∙ q));
    }

-- A change of one buffer that leaves it the same block.
pub Ready-change :
    (b : ℕ) (f : Buf → Buf) (s : Bcache) (xs : List ℕ)
    → Ready s xs
    → ((v : Buf) → ((f v).dev ≡ v.dev) × ((f v).blockno ≡ v.blockno))
    → ((f (s.buf b)).refcnt ≡ 0
        → (f (s.buf b)).dirty ≡ false
        → (f (s.buf b)).valid ≡ true
        → (f (s.buf b)).bytes ≡ s.memdisk (s.buf b).blockno)
    → ((f (s.buf b)).dirty ≡ true → (f (s.buf b)).valid ≡ true)
    → ((f (s.buf b)).valid ≡ true → (s.buf b).dev ≡ 1)
    → Ready (set_buf b f s) xs
Ready-change b f s xs r h clean kept real =
    let dev = same_field b f s (λ v. v.dev) (λ v. (h v).0) in
    let blockno = same_field b f s (λ v. v.blockno) (λ v. (h v).1) in
    record {
      ring = r.ring;
      few = r.few;
      one = λ x y i j g.
          r.one x y i j
            ((λ e. g.0 (dev x ∙ e)), sym (dev x) ∙ g.1 ∙ dev y, sym (blockno x) ∙ g.2 ∙ blockno y);
      clean = λ x i.
          either x
            (λ y v. v.refcnt ≡ 0 → v.dirty ≡ false → v.valid ≡ true → v.bytes ≡ s.memdisk v.blockno)
            (λ z d v. clean z d v ∙ ap s.memdisk (sym (h (s.buf b)).1)) (r.clean x i);
      kept = λ x i. either x (λ y v. v.dirty ≡ true → v.valid ≡ true) kept (r.kept x i);
      real = λ x i.
          either x (λ y v. v.valid ≡ true → v.dev ≡ 1) (λ v. (h (s.buf b)).0 ∙ real v) (r.real x i);
    }
  where
    either :
        (x : ℕ) (P : ℕ → Buf → Type 0)
        → P b (f (s.buf b))
        → P x (s.buf x)
        → P x ((set_buf b f s).buf x)
    either x P at other = elim (ℕ_discrete x b) [
      | yes e ↦
          subst (λ y. P y ((set_buf b f s).buf y)) (sym e) (subst (P b) (sym (buf_at b f s)) at)
      | no n ↦ subst (P x) (sym (buf_other b f s x n)) other
    ]
