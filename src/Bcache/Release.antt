-- ===== src/Bcache/Release.antt =====
-- brelse and binit.

use hyu_ele.Base.{
  ℕ, suc, ◌+◌, ◌-◌, ◌<◌, ◌≡◌, ◌≢◌, refl, ◌∙◌, ap, true, false, ◌==◌, ==_iff, Bool-cases,
  if◌then◌else◌, arith, List, [], ◌∷◌, ◌++◌, length, ◌⊎◌, inl, inr, ◌!=◌,
}
use hyu_ele.Base.Run.{ok, panic}
use hyu_ele.Links.Laws.{list_head_init-IsRing}
use hyu_ele.Links.{list_head_init}
use hyu_ele.Bcache.{Buf, Bcache, nbuf, set_buf, to_front, binit_loop, brelse, binit}
use hyu_ele.Bcache.Lists.{to_front-IsRing, binit_loop-IsRing, down}
use hyu_ele.Bcache.Ready.{In-mid, In-to_front, In-from_front, Ready}
use hyu_ele.Bcache.Content.{Holds, buf_at, Holds-same_field, Ready-change}
use hyu_ele.Bcache.Read.{ !=_refl}

abbrev dropped : Buf → Buf
dropped b = record b { holder = 0; refcnt = b.refcnt - 1 }

abbrev in_front : ℕ → Bcache → Bcache
in_front b s = record s { links = to_front b s.links }

length-move : (b : ℕ) (ys zs : List ℕ) → length (b ∷ (ys ++ zs)) ≡ length (ys ++ b ∷ zs)
length-move b [] zs = refl
length-move b (y ∷ ys) zs = ap suc (length-move b ys zs)

in_front-Ready :
    (s : Bcache) (b : ℕ) (ys zs : List ℕ)
    → Ready s (ys ++ b ∷ zs)
    → Ready (in_front b s) (b ∷ (ys ++ zs))
in_front-Ready s b ys zs r =
    let few = r.few in
    record {
      ring = to_front-IsRing b s.links ys zs r.ring;
      few = omega (arith, length-move b ys zs);
      one = λ x y i j. r.one x y (In-to_front x b ys zs i) (In-to_front y b ys zs j);
      clean = λ x i. r.clean x (In-to_front x b ys zs i);
      kept = λ x i. r.kept x (In-to_front x b ys zs i);
      real = λ x i. r.real x (In-to_front x b ys zs i);
    }

in_front-Holds :
    (s : Bcache) (b : ℕ) (ys zs : List ℕ) (n : ℕ) (d : ℕ → ℕ)
    → Holds s (ys ++ b ∷ zs) n d
    → Holds (in_front b s) (b ∷ (ys ++ zs)) n d
in_front-Holds s b ys zs n d h = record {
  cached = λ x i. h.cached x (In-to_front x b ys zs i);
  uncached = λ none. h.uncached (λ x i. none x (In-from_front x b ys zs i));
}

-- The list after brelse: the buffer is the first one where its last reference went.
abbrev pub order : ℕ → ℕ → List ℕ → List ℕ → List ℕ
order count b ys zs = if count == 1 then b ∷ (ys ++ zs) else ys ++ b ∷ zs

-- brelse by the thread that holds the buffer gives back the lock and one reference, and with the last
-- reference moves the buffer to the front of the list, as `order` says, so that the buffers stay ordered
-- by their last release. It keeps the cache as bget needs it, and the content of every block, where a
-- buffer that was changed is marked so. By another thread it panics.
pub brelse-Ready :
    (me b : ℕ) (s : Bcache) (ys zs : List ℕ)
    → Ready s (ys ++ b ∷ zs)
    → 0 < (s.buf b).refcnt
    → ((s.buf b).refcnt ≡ 1
        → (s.buf b).dirty ≡ false
        → (s.buf b).valid ≡ true
        → (s.buf b).bytes ≡ s.memdisk (s.buf b).blockno)
    → (((s.buf b).holder ≢ me) × (brelse me b s ≡ panic))
      ⊎ (((s.buf b).holder ≡ me)
          × ((s' : Bcache) × (brelse me b s ≡ ok (tt, s'))
              × ((s'.buf b).refcnt + 1 ≡ (s.buf b).refcnt)
              × ((s'.buf b).holder ≡ 0)
              × Ready s' (order (s.buf b).refcnt b ys zs)
              × ((n : ℕ) (d : ℕ → ℕ)
                  → Holds s (ys ++ b ∷ zs) n d
                  → Holds s' (order (s.buf b).refcnt b ys zs) n d)))
unfolding brelse
brelse-Ready me b s ys zs r live settled = elim (Bool-cases ((s.buf b).holder == me)) [
  | inr other ↦
      let stranger : ((s.buf b).holder != me) ≡ true = ground arith in
      let n : (s.buf b).holder ≢ me =
        (λ e. let t = (==_iff (s.buf b).holder me).1 e in cc (t, other)) in
      inl (n, rw stranger refl)
  | inl same ↦
      let mine = (==_iff (s.buf b).holder me).0 same in
      let pass : ((s.buf b).holder != me) ≡ false = ap (λ k. k != me) mine ∙ !=_refl me in
      let t : Bcache = set_buf b dropped s in
      let at = buf_at b dropped s in
      let count : (t.buf b).refcnt ≡ (s.buf b).refcnt - 1 = ap (λ w. w.refcnt) at in
      let ready : Ready t (ys ++ b ∷ zs) =
        Ready-change b dropped s (ys ++ b ∷ zs) r (λ v. (refl, refl))
          (λ z. settled (omega (arith, z))) (r.kept b (In-mid b ys zs))
          (r.real b (In-mid b ys zs)) in
      let holds : (n : ℕ) (d : ℕ → ℕ) → Holds s (ys ++ b ∷ zs) n d → Holds t (ys ++ b ∷ zs) n d =
        (λ n d. Holds-same_field b dropped s (ys ++ b ∷ zs) n d (λ v. (refl, refl, refl, refl))) in
      inr (
        mine,
        elim (Bool-cases ((s.buf b).refcnt == 1)) [
          | inl last ↦
              let gone : ((t.buf b).refcnt == 0) ≡ true = ground arith in
              (
                in_front b t,
                rw (pass, gone) refl,
                omega arith,
                ap (λ w. w.holder) at,
                rw last (in_front-Ready t b ys zs ready),
                rw last (λ n d h. in_front-Holds t b ys zs n d (holds n d h)),
              )
          | inr more ↦
              let left : ((t.buf b).refcnt == 0) ≡ false = ground arith in
              (
                t,
                rw (pass, left) refl,
                omega arith,
                ap (λ w. w.holder) at,
                rw more ready,
                rw more holds,
              )
        ],
      )
]

-- A buffer of the kernel's zeroed memory.
abbrev pub IsBlank : Buf → Type 0
IsBlank b = (b.dev ≡ 0) × (b.valid ≡ false) × (b.dirty ≡ false)

-- binit of zeroed buffers makes the cache ready, with the buffers NBUF down to 1 in the list.
pub binit-Ready :
    (s : Bcache)
    → ((b : ℕ) → IsBlank (s.buf b))
    → (s' : Bcache) × (binit s ≡ ok (tt, s')) × Ready s' (down nbuf 1 []) × (s'.buf ≡ s.buf)
unfolding binit
binit-Ready s blank =
    let m = binit_loop nbuf 1 (list_head_init 0 s.links) in
    (
      record s { links = m },
      refl,
      record {
        ring =
            binit_loop-IsRing nbuf 1 (list_head_init 0 s.links) [] (list_head_init-IsRing 0 s.links)
              (omega arith, tt);
        few = omega arith;
        one = λ x y i j h. absurd (h.0 (blank x).0);
        clean = λ x i z d v. let n = (blank x).1 in absurd (cc (n, v));
        kept = λ x i d. let n = (blank x).2 in absurd (cc (n, d));
        real = λ x i v. let n = (blank x).1 in absurd (cc (n, v));
      },
      refl,
    )
