-- ===== src/Bcache/Write.antt =====
-- bwrite puts a buffer on the disk.

use hyu_ele.Base.{
  ℕ, ◌<◌, ◌≡◌, ◌≢◌, refl, sym, ◌∙◌, ap, true, false, ==_iff, ==_of_ne, ◌!=◌, update, List,
  ℕ_discrete,
}
use hyu_ele.Base.Run.{ok}
use hyu_ele.Bcache.{Buf, Bcache, set_buf, bwrite}
use hyu_ele.Bcache.Ready.{In, Ready}
use hyu_ele.Bcache.Content.{Holds, buf_at, buf_other, same_field}
use hyu_ele.Bcache.Read.{ !=_refl, iderw-writes, set_buf_twice}

abbrev marked : Buf → Buf
marked b = record b { dirty = true }

abbrev written : Buf → Buf
written b = record b { dirty = false; valid = true }

module _ (s : Bcache) (xs : List ℕ) (b : ℕ) (r : Ready s xs) (i : In b xs)
    (dev : (s.buf b).dev ≡ 1) where
  abbrev on_disk : ℕ → ℕ → ℕ
  on_disk = update s.memdisk (s.buf b).blockno (s.buf b).bytes

  abbrev saved : Bcache
  saved = set_buf b written (record s { memdisk = on_disk })

  saved_dev : (x : ℕ) → (saved.buf x).dev ≡ (s.buf x).dev
  saved_dev = same_field b written s (λ v. v.dev) (λ v. refl)

  saved_blockno : (x : ℕ) → (saved.buf x).blockno ≡ (s.buf x).blockno
  saved_blockno = same_field b written s (λ v. v.blockno) (λ v. refl)

  saved_bytes : (x : ℕ) → (saved.buf x).bytes ≡ (s.buf x).bytes
  saved_bytes = same_field b written s (λ v. v.bytes) (λ v. refl)

  -- The other buffers are other blocks of the disk.
  other_block :
      (x : ℕ) → In x xs → x ≢ b → (s.buf x).dev ≡ 1 → (s.buf x).blockno ≢ (s.buf b).blockno
  other_block x j n p e = n (r.one x b j i ((λ z. cc (z, p)), p ∙ sym dev, e))

  disk_at : on_disk (s.buf b).blockno ≡ (s.buf b).bytes
  disk_at = rw ((==_iff (s.buf b).blockno (s.buf b).blockno).1 refl) refl

  disk_other : (m : ℕ) → m ≢ (s.buf b).blockno → on_disk m ≡ s.memdisk m
  disk_other m n = rw (==_of_ne m (s.buf b).blockno n) refl

  saved-Ready : Ready saved xs
  saved-Ready = record {
    ring = r.ring;
    few = r.few;
    one = λ x y j k g. r.one x y j k (
      (λ e. g.0 (saved_dev x ∙ e)),
      sym (saved_dev x) ∙ g.1 ∙ saved_dev y,
      sym (saved_blockno x) ∙ g.2 ∙ saved_blockno y,
    );
    clean = λ x j z d v. elim (ℕ_discrete x b) [
      | yes e ↦
          saved_bytes x
          ∙ ap (λ y. (s.buf y).bytes) e
          ∙ sym disk_at
          ∙ ap (λ y. on_disk (s.buf y).blockno) (sym e)
          ∙ ap on_disk (sym (saved_blockno x))
      | no n ↦
          let same = buf_other b written s x n in
          let valid = ap (λ w. w.valid) (sym same) ∙ v in
          saved_bytes x
          ∙ r.clean x j (ap (λ w. w.refcnt) (sym same) ∙ z) (ap (λ w. w.dirty) (sym same) ∙ d) valid
          ∙ sym (disk_other (s.buf x).blockno (other_block x j n (r.real x j valid)))
          ∙ ap on_disk (sym (saved_blockno x))
    ];
    kept = λ x j d. elim (ℕ_discrete x b) [
      | yes e ↦ ap (λ y. (saved.buf y).valid) e ∙ ap (λ w. w.valid) (buf_at b written s)
      | no n ↦
          let same = buf_other b written s x n in
          ap (λ w. w.valid) same ∙ r.kept x j (ap (λ w. w.dirty) (sym same) ∙ d)
    ];
    real = λ x j v. elim (ℕ_discrete x b) [
      | yes e ↦ saved_dev x ∙ ap (λ y. (s.buf y).dev) e ∙ dev
      | no n ↦ saved_dev x ∙ r.real x j (ap (λ w. w.valid) (sym (buf_other b written s x n)) ∙ v)
    ];
  }

  saved-Holds : Holds saved xs (s.buf b).blockno (s.buf b).bytes
  saved-Holds = record {
    cached = λ x j p q v. elim (ℕ_discrete x b) [
      | yes e ↦ saved_bytes x ∙ ap (λ y. (s.buf y).bytes) e
      | no n ↦ absurd (other_block x j n (sym (saved_dev x) ∙ p) (sym (saved_blockno x) ∙ q))
    ];
    uncached = λ _. disk_at;
  }

  others-Hold : (m : ℕ) (d : ℕ → ℕ) → m ≢ (s.buf b).blockno → Holds s xs m d → Holds saved xs m d
  others-Hold m d n h =
      let apart : (x : ℕ) → (s.buf x).blockno ≡ m → x ≢ b =
        (λ x q e. n (sym q ∙ ap (λ y. (s.buf y).blockno) e)) in
      record {
        cached = λ x j p q v.
            let number = sym (saved_blockno x) ∙ q in
            let same = buf_other b written s x (apart x number) in
            saved_bytes x
            ∙ h.cached x j (sym (saved_dev x) ∙ p) number (ap (λ w. w.valid) (sym same) ∙ v);
        uncached = λ none.
            disk_other m n
            ∙ h.uncached (λ x j p q.
              ap (λ w. w.valid) (sym (buf_other b written s x (apart x q)))
              ∙ none x j (saved_dev x ∙ p) (saved_blockno x ∙ q));
      }

  -- In a cache as bget needs it: bwrite, by the thread that holds it, of a buffer of device 1 whose
  -- block lies on the disk does not panic and puts the bytes of the buffer on the disk, at that block
  -- and no other. The cache is as bget needs it again, the content of the block is then that of the
  -- buffer, and the content of every other block stays.
  pub bwrite-Holds :
      (me : ℕ)
      → (s.buf b).holder ≡ me
      → (s.buf b).blockno < s.disksize
      → (s' : Bcache) × (bwrite me b s ≡ ok (tt, s'))
        × (s'.memdisk (s.buf b).blockno ≡ (s.buf b).bytes)
        × ((m : ℕ) → m ≢ (s.buf b).blockno → s'.memdisk m ≡ s.memdisk m)
        × Ready s' xs
        × Holds s' xs (s.buf b).blockno (s.buf b).bytes
        × ((m : ℕ) (d : ℕ → ℕ) → m ≢ (s.buf b).blockno → Holds s xs m d → Holds s' xs m d)
  unfolding bwrite
  bwrite-Holds me mine small =
      let t = set_buf b marked s in
      let at = buf_at b marked s in
      let pass : ((s.buf b).holder != me) ≡ false = ap (λ k. k != me) mine ∙ !=_refl me in
      let block = ap (λ w. w.blockno) at in
      let run =
        iderw-writes me b t (ap (λ w. w.holder) at ∙ mine) (ap (λ w. w.dirty) at)
          (ap (λ w. w.dev) at ∙ dev) (rw block small) in
      (
        saved,
        rw pass (
            run
            ∙ ap (λ q. ok (tt, q))
                (ap
                    (λ w.
                      set_buf b written (record t { memdisk = update s.memdisk w.blockno w.bytes }))
                    at
                  ∙ set_buf_twice b marked written (record s { memdisk = on_disk }))),
        disk_at,
        disk_other,
        saved-Ready,
        saved-Holds,
        others-Hold,
      )
