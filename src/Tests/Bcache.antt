-- ===== src/Tests/Bcache.antt =====
-- Two buffers: the first is block 7, clean and free, and thread 9 holds the second, block 5.
use mathlib.Core.Path.{subst}
use hyu_ele.Base.{
  ℕ, ◌+◌, ◌≡◌, ◌≢◌, refl, sym, true, false, ◌==◌, if◌then◌else◌, arith, List, [], ◌∷◌, All, ◌⊎◌,
  inl, inr,
}
use hyu_ele.Base.Run.{ok, panic}
use hyu_ele.Bcache.{Bcache, caches, unused, bget, bread_locked, bwrite, brelse}
use hyu_ele.Bcache.Ready.{In, Ready, SameBlock}
use hyu_ele.Bcache.Content.{Holds}
use hyu_ele.Bcache.Get.{Got, bget-Got}
use hyu_ele.Bcache.Read.{Delivered, bread_locked-Delivered}
use hyu_ele.Bcache.Write.{bwrite-Holds}
use hyu_ele.Bcache.Release.{order, brelse-Ready}

abbrev listed : List ℕ
listed = 1 ∷ 2 ∷ []

abbrev cache : Bcache
cache = record {
  links = record {
    prev = λ a. if a == 0 then 2 else if a == 1 then 0 else 1;
    next = λ a. if a == 0 then 1 else if a == 1 then 2 else 0;
  };
  buf = λ b.
      if b == 1
      then record {
        valid = true;
        dirty = false;
        dev = 1;
        blockno = 7;
        holder = 0;
        refcnt = 0;
        bytes = λ i. 7;
      }
      else record {
        valid = true;
        dirty = true;
        dev = 1;
        blockno = 5;
        holder = 9;
        refcnt = 1;
        bytes = λ i. 55;
      };
  disksize = 100;
  memdisk = λ n i. n;
}

for_each : (P : ℕ → Type 0) → P 1 → P 2 → (b : ℕ) → In b listed → P b
for_each P p q b (inl e) = subst P (sym e) p
for_each P p q b (inr (inl e)) = subst P (sym e) q
for_each P p q b (inr (inr i)) = elim i [ ]

cache-Ready : Ready cache listed
cache-Ready = record {
  ring = record {
    linked = (refl, refl, (refl, refl, (refl, refl)));
    distinct = ((omega arith, (omega arith, tt)), ((omega arith, tt), (tt, tt)));
  };
  few = omega arith;
  one = λ x y i j h.
      for_each (λ x. SameBlock (cache.buf x) (cache.buf y) → x ≡ y)
        (λ g.
          for_each (λ y. SameBlock (cache.buf 1) (cache.buf y) → 1 ≡ y) (λ _. refl)
            (λ k. absurd (omega (arith, k.2))) y j g)
        (λ g.
          for_each (λ y. SameBlock (cache.buf 2) (cache.buf y) → 2 ≡ y)
            (λ k. absurd (omega (arith, k.2))) (λ _. refl) y j g)
        x i h;
  clean =
      for_each
        (λ b.
          (cache.buf b).refcnt ≡ 0
          → (cache.buf b).dirty ≡ false
          → (cache.buf b).valid ≡ true
          → (cache.buf b).bytes ≡ cache.memdisk (cache.buf b).blockno)
        (λ z d v. refl) (λ z d v. absurd (cc z));
  kept =
      for_each (λ b. (cache.buf b).dirty ≡ true → (cache.buf b).valid ≡ true) (λ d. refl)
        (λ d. refl);
  real = for_each (λ b. (cache.buf b).valid ≡ true → (cache.buf b).dev ≡ 1) (λ v. refl) (λ v. refl);
}

-- Block 8 takes the first buffer.
bget-Got_example :
    (All (λ x. caches 1 8 (cache.buf x) ≡ false) listed
      × All (λ x. unused (cache.buf x) ≡ false) listed
      × (bget 1 8 cache ≡ panic))
    ⊎ ((b : ℕ) × (s' : Bcache) × (bget 1 8 cache ≡ ok (b, s')) × Got cache s' listed b 1 8)
bget-Got_example = bget-Got cache listed 1 8 cache-Ready

sevens : Holds cache listed 7 (λ i. 7)
sevens = record {
  cached =
      for_each
        (λ b.
          (cache.buf b).dev ≡ 1
          → (cache.buf b).blockno ≡ 7
          → (cache.buf b).valid ≡ true
          → (cache.buf b).bytes ≡ (λ i. 7))
        (λ p q v. refl) (λ p q v. absurd (omega (arith, q)));
  uncached = λ none. refl;
}

bread_locked-Delivered_example :
    (s' : Bcache) × (bread_locked 3 1 cache ≡ ok (1, s')) × Delivered cache s' listed 3 1 7 (λ i. 7)
bread_locked-Delivered_example =
    bread_locked-Delivered cache listed 3 1 7 (λ i. 7) cache-Ready (inl refl) refl refl sevens
      (omega arith)

brelse-Ready_example :
    (((cache.buf 2).holder ≢ 9) × (brelse 9 2 cache ≡ panic))
    ⊎ (((cache.buf 2).holder ≡ 9)
        × ((s' : Bcache) × (brelse 9 2 cache ≡ ok (tt, s'))
            × ((s'.buf 2).refcnt + 1 ≡ (cache.buf 2).refcnt)
            × ((s'.buf 2).holder ≡ 0)
            × Ready s' (order (cache.buf 2).refcnt 2 (1 ∷ []) [])
            × ((n : ℕ) (d : ℕ → ℕ)
                → Holds cache listed n d
                → Holds s' (order (cache.buf 2).refcnt 2 (1 ∷ []) []) n d)))
brelse-Ready_example =
    brelse-Ready 9 2 cache (1 ∷ []) [] cache-Ready (omega arith) (λ _ d. absurd (cc d))

bwrite-Holds_example :
    (s' : Bcache) × (bwrite 9 2 cache ≡ ok (tt, s'))
    × (s'.memdisk 5 ≡ (λ i. 55))
    × ((m : ℕ) → m ≢ 5 → s'.memdisk m ≡ cache.memdisk m)
    × Ready s' listed
    × Holds s' listed 5 (λ i. 55)
    × ((m : ℕ) (d : ℕ → ℕ) → m ≢ 5 → Holds cache listed m d → Holds s' listed m d)
bwrite-Holds_example =
    bwrite-Holds cache listed 2 cache-Ready (inr (inl refl)) refl 9 refl (omega arith)
