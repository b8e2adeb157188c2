-- ===== src/Bcache/Read.antt =====
-- bread behind its bget, and bwrite.
use mathlib.Core.Path.{fun_ext}
use hyu_ele.Base.{
  ℕ, ◌<◌, ◌≡◌, ◌≢◌, refl, sym, ◌∙◌, ap, true, false, not, ◌&&◌, Bool-cases, ◌!=◌, ==_iff, ==_of_ne,
  leb, update, arith, List, inl, inr, ℕ_discrete,
}
use hyu_ele.Base.Run.{ok}
use hyu_ele.Bcache.{Buf, Bcache, set_buf, iderw, bread_locked}
use hyu_ele.Bcache.Ready.{In, Ready}
use hyu_ele.Bcache.Content.{Holds, buf_at, buf_other, same_field, Holds-same_field, Ready-change}

abbrev held : ℕ → Buf → Buf
held me b = record b { holder = me }

abbrev filled : ℕ → (ℕ → ℕ) → Buf → Buf
filled me d b = record b { holder = me; bytes = d; valid = true }

leb_of_lt : (a b : ℕ) → a < b → leb b a ≡ false
leb_of_lt a b h = ground arith

pub !=_refl : (a : ℕ) → (a != a) ≡ false
!=_refl a = ground arith

iderw-reads :
    (me b : ℕ) (s : Bcache)
    → (s.buf b).holder ≡ me
    → (s.buf b).valid ≡ false
    → (s.buf b).dirty ≡ false
    → (s.buf b).dev ≡ 1
    → (s.buf b).blockno < s.disksize
    → iderw me b s
      ≡ ok (tt, set_buf b (λ y. record y { bytes = s.memdisk (s.buf b).blockno; valid = true }) s)
unfolding iderw
iderw-reads me b s h v d dev small =
    let size = leb_of_lt (s.buf b).blockno s.disksize small in
    let mine : ((s.buf b).holder != me) ≡ false = ap (λ k. k != me) h ∙ !=_refl me in
    let disk : ((s.buf b).dev != 1) ≡ false = ap (λ k. k != 1) dev in
    simp (mine, v, disk, size, d) refl

pub iderw-writes :
    (me b : ℕ) (s : Bcache)
    → (s.buf b).holder ≡ me
    → (s.buf b).dirty ≡ true
    → (s.buf b).dev ≡ 1
    → (s.buf b).blockno < s.disksize
    → iderw me b s
      ≡ ok (
        tt,
        set_buf b
            (λ y. record y { dirty = false; valid = true })
            (record s { memdisk = update s.memdisk (s.buf b).blockno (s.buf b).bytes }),
      )
unfolding iderw
iderw-writes me b s h d dev small =
    let size = leb_of_lt (s.buf b).blockno s.disksize small in
    let mine : ((s.buf b).holder != me) ≡ false = ap (λ k. k != me) h ∙ !=_refl me in
    let disk : ((s.buf b).dev != 1) ≡ false = ap (λ k. k != 1) dev in
    let work : ((s.buf b).valid && not true) ≡ false = elim (Bool-cases (s.buf b).valid) [
      | inl v ↦ rw v refl
      | inr v ↦ rw v refl
    ] in
    simp (mine, d, work, disk, size) refl

pub set_buf_twice :
    (b : ℕ) (f g : Buf → Buf) (s : Bcache)
    → set_buf b g (set_buf b f s) ≡ set_buf b (λ v. g (f v)) s
set_buf_twice b f g s =
    ap (λ m. record s { buf = m })
      (fun_ext (λ x. elim (ℕ_discrete x b) [
        | yes e ↦ rw ((==_iff x b).1 e, (==_iff b b).1 refl) refl
        | no n ↦ rw (==_of_ne x b n) refl
      ]))

-- What a caller of bread gets: the buffer is valid and has the content of the block.
pub record Delivered (s s' : Bcache) (xs : List ℕ) (me b n : ℕ) (d : ℕ → ℕ) : Type 0 where
  pub holder : (s'.buf b).holder ≡ me
  pub valid : (s'.buf b).valid ≡ true
  pub bytes : (s'.buf b).bytes ≡ d
  pub others : (x : ℕ) → x ≢ b → s'.buf x ≡ s.buf x
  pub ready : Ready s' xs
  pub holds : (m : ℕ) (e : ℕ → ℕ) → Holds s xs m e → Holds s' xs m e

module _ (s : Bcache) (xs : List ℕ) (me b n : ℕ) (d : ℕ → ℕ) (r : Ready s xs) (i : In b xs)
    (dev : (s.buf b).dev ≡ 1) (block : (s.buf b).blockno ≡ n) (h : Holds s xs n d) where
  valid-Delivered : (s.buf b).valid ≡ true → Delivered s (set_buf b (held me) s) xs me b n d
  valid-Delivered v =
      let at = buf_at b (held me) s in
      record {
        holder = ap (λ w. w.holder) at;
        valid = ap (λ w. w.valid) at ∙ v;
        bytes = ap (λ w. w.bytes) at ∙ h.cached b i dev block v;
        others = buf_other b (held me) s;
        ready =
            Ready-change b (held me) s xs r (λ v. (refl, refl)) (r.clean b i) (r.kept b i)
              (r.real b i);
        holds = λ m e. Holds-same_field b (held me) s xs m e (λ v. (refl, refl, refl, refl));
      }

  -- An invalid buffer of the block hides nothing: no valid one is the block.
  on_disk : (s.buf b).valid ≡ false → s.memdisk n ≡ d
  on_disk v = h.uncached (λ x j p q.
      let same = r.one b x i j ((λ e. cc (e, dev)), dev ∙ sym p, block ∙ sym q) in
      ap (λ y. (s.buf y).valid) (sym same) ∙ v)

  abbrev read : Bcache
  read = set_buf b (filled me (s.memdisk n)) s

  read-Holds : (s.buf b).valid ≡ false → (m : ℕ) (e : ℕ → ℕ) → Holds s xs m e → Holds read xs m e
  read-Holds v m e g =
      let at = buf_at b (filled me (s.memdisk n)) s in
      let dev_same = same_field b (filled me (s.memdisk n)) s (λ w. w.dev) (λ w. refl) in
      let block_same = same_field b (filled me (s.memdisk n)) s (λ w. w.blockno) (λ w. refl) in
      let other = buf_other b (filled me (s.memdisk n)) s in
      record {
        cached = λ x j p q w. elim (ℕ_discrete x b) [
          | yes y ↦
              let number : m ≡ n = sym q ∙ block_same x ∙ ap (λ z. (s.buf z).blockno) y ∙ block in
              ap (λ z. (read.buf z).bytes) y
              ∙ ap (λ z. z.bytes) at
              ∙ ap s.memdisk (sym number)
              ∙ g.uncached (λ x' j' p' q'.
                let same =
                  r.one b x' i j' ((λ f. cc (f, dev)), dev ∙ sym p', block ∙ sym number ∙ sym q') in
                ap (λ z. (s.buf z).valid) (sym same) ∙ v)
          | no c ↦
              ap (λ z. z.bytes) (other x c)
              ∙ g.cached x j (sym (dev_same x) ∙ p) (sym (block_same x) ∙ q)
                  (ap (λ z. z.valid) (sym (other x c)) ∙ w)
        ];
        uncached = λ empty. g.uncached (λ x j p q. elim (ℕ_discrete x b) [
          | yes y ↦ ap (λ z. (s.buf z).valid) y ∙ v
          | no c ↦
              ap (λ z. z.valid) (sym (other x c)) ∙ empty x j (dev_same x ∙ p) (block_same x ∙ q)
        ]);
      }

  read-Delivered : (s.buf b).valid ≡ false → Delivered s read xs me b n d
  read-Delivered v =
      let at = buf_at b (filled me (s.memdisk n)) s in
      record {
        holder = ap (λ w. w.holder) at;
        valid = ap (λ w. w.valid) at;
        bytes = ap (λ w. w.bytes) at ∙ on_disk v;
        others = buf_other b (filled me (s.memdisk n)) s;
        ready =
            Ready-change b (filled me (s.memdisk n)) s xs r (λ w. (refl, refl))
              (λ _ _ _. ap s.memdisk (sym block)) (λ _. refl) (λ _. dev);
        holds = read-Holds v;
      }

  not_dirty : (s.buf b).valid ≡ false → (s.buf b).dirty ≡ false
  not_dirty v = elim (Bool-cases (s.buf b).dirty) [
    | inr e ↦ e
    | inl e ↦ let w = r.kept b i e in absurd (cc (w, v))
  ]

  -- bread, once the lock of the buffer of a block is free, returns that buffer, valid and with the
  -- content of the block: the bytes that were last in the cache, or else those of the disk. The content
  -- of every block stays.
  pub bread_locked-Delivered :
      n < s.disksize
      → (s' : Bcache) × (bread_locked me b s ≡ ok (b, s')) × Delivered s s' xs me b n d
  unfolding bread_locked
  bread_locked-Delivered small = elim (Bool-cases (s.buf b).valid) [
    | inl v ↦ (set_buf b (held me) s, rw ((==_iff b b).1 refl, v) refl, valid-Delivered v)
    | inr v ↦ (
      read,
      (let t = set_buf b (held me) s in
          let at = buf_at b (held me) s in
          let size : (t.buf b).blockno < s.disksize = rw (ap (λ w. w.blockno) at ∙ block) small in
          let run =
            iderw-reads me b t (ap (λ w. w.holder) at) (ap (λ w. w.valid) at ∙ v)
              (ap (λ w. w.dirty) at ∙ not_dirty v) (ap (λ w. w.dev) at ∙ dev) size in
          let number : (t.buf b).blockno ≡ n = ap (λ w. w.blockno) at ∙ block in
          let empty : (t.buf b).valid ≡ false = ap (λ w. w.valid) at ∙ v in
          let fill : Buf → Buf =
            (λ y. record y { bytes = s.memdisk (t.buf b).blockno; valid = true }) in
          rw (empty, run)
            (ap (λ q. ok (b, q))
              (set_buf_twice b (held me) fill s
                ∙ ap (λ k. set_buf b (filled me (s.memdisk k)) s) number))),
      read-Delivered v,
    )
  ]
