-- ===== src/Bcache/Scan.antt =====
-- The two loops of bget over the list.

use hyu_ele.Base.{
  ℕ, zero, suc, ◌+◌, ◌<◌, ◌≡◌, refl, sym, ap, true, false, Bool-cases, ◌==◌, ==_of_ne, arith, none,
  some, List, [], ◌∷◌, ◌++◌, NotIn, All, length, ◌⊎◌, inl, inr,
}
use hyu_ele.Base.Run.{ok, panic}
use hyu_ele.Links.Ring.{Seg}
use hyu_ele.Bcache.{Buf, Bcache, caches, unused, set_buf, find_cached, find_unused}
use hyu_ele.Bcache.Lists.{Back}

-- bget's two changes of a buffer.
abbrev pub referenced : Buf → Buf
referenced b = record b { refcnt = b.refcnt + 1 }

abbrev pub recycled : ℕ → ℕ → Buf → Buf
recycled dev blockno b = record b {
  dev = dev;
  blockno = blockno;
  valid = false;
  dirty = false;
  refcnt = 1;
}

-- Either no buffer of the list is the block, and nothing changes, or the first one that is gets one
-- reference more.
pub find_cached-lem :
    (s : Bcache) (dev blockno fuel a : ℕ) (xs : List ℕ)
    → length xs < fuel
    → NotIn 0 xs
    → Seg s.links a xs 0
    → (All (λ x. caches dev blockno (s.buf x) ≡ false) xs
        × (find_cached fuel (s.links.next a) dev blockno s ≡ ok (none, s)))
      ⊎ ((ys : List ℕ) × (b : ℕ) × (zs : List ℕ) × (xs ≡ ys ++ b ∷ zs)
          × (caches dev blockno (s.buf b) ≡ true)
          × (find_cached fuel (s.links.next a) dev blockno s ≡ ok (some b, set_buf b referenced s)))
unfolding find_cached
find_cached-lem s dev blockno zero a xs few n g = absurd (omega arith)
find_cached-lem s dev blockno (suc fuel) a [] few n g = inl (tt, rw (g.0) refl)
find_cached-lem s dev blockno (suc fuel) a (x ∷ xs) few n g =
    let real : (x == 0) ≡ false = ==_of_ne x 0 (λ e. n.0 (sym e)) in
    elim (Bool-cases (caches dev blockno (s.buf x))) [
      | inl hit ↦ inr ([], x, xs, refl, hit, rw (g.0, real, hit) refl)
      | inr miss ↦ elim (find_cached-lem s dev blockno fuel x xs (omega arith) n.1 g.2) [
        | inl (all, run) ↦ inl ((miss, all), rw (g.0, real, miss) run)
        | inr (ys, b, zs, e, hit, run) ↦
            inr (x ∷ ys, b, zs, ap (λ l. x ∷ l) e, hit, rw (g.0, real, miss) run)
      ]
    ]

-- Either every buffer of the list is in use, and bget panics, or the first one from the end that is not
-- becomes the block.
pub find_unused-lem :
    (s : Bcache) (dev blockno fuel a : ℕ) (rs : List ℕ)
    → length rs < fuel
    → NotIn 0 rs
    → Back s.links a rs 0
    → (All (λ x. unused (s.buf x) ≡ false) rs
        × (find_unused fuel (s.links.prev a) dev blockno s ≡ panic))
      ⊎ ((ys : List ℕ) × (b : ℕ) × (zs : List ℕ) × (rs ≡ ys ++ b ∷ zs)
          × All (λ x. unused (s.buf x) ≡ false) ys
          × (unused (s.buf b) ≡ true)
          × (find_unused fuel (s.links.prev a) dev blockno s
              ≡ ok (b, set_buf b (recycled dev blockno) s)))
unfolding find_unused
find_unused-lem s dev blockno zero a rs few n g = absurd (omega arith)
find_unused-lem s dev blockno (suc fuel) a [] few n g = inl (tt, rw g refl)
find_unused-lem s dev blockno (suc fuel) a (x ∷ rs) few n g =
    let real : (x == 0) ≡ false = ==_of_ne x 0 (λ e. n.0 (sym e)) in
    elim (Bool-cases (unused (s.buf x))) [
      | inl free ↦ inr ([], x, rs, refl, tt, free, rw (g.0, real, free) refl)
      | inr busy ↦ elim (find_unused-lem s dev blockno fuel x rs (omega arith) n.1 g.1) [
        | inl (all, run) ↦ inl ((busy, all), rw (g.0, real, busy) run)
        | inr (ys, b, zs, e, all, free, run) ↦
            inr (x ∷ ys, b, zs, ap (λ l. x ∷ l) e, (busy, all), free, rw (g.0, real, busy) run)
      ]
    ]
