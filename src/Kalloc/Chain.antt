-- ===== src/Kalloc/Chain.antt =====
-- kfree and kalloc on the list of free pages.
use hyu_ele.Base.{
  ◌⊎◌, inl, inr, true, ℕ, ◌%◌, ◌<◌, ◌≤◌, ◌≡◌, ◌≢◌, refl, List, [], ◌∷◌, NotIn, Distinct, update,
  arith, ◌||◌, ◌!=◌, ltb, leb, false,
}
use hyu_ele.Base.Run.{ok}
use hyu_ele.Kalloc.{Kmem, kfree, kalloc, pgsize, phystop, v2p}

-- From address `r` the chain leads through the pages `ps` to null.
abbrev pub IsChain : (ℕ → ℕ) → ℕ → List ℕ → Type 0
IsChain next r [] = r ≡ 0
IsChain next r (p ∷ ps) = (r ≡ p) × (p ≢ 0) × IsChain next (next p) ps

-- The free pages are `ps`, each once.
pub record Free (k : Kmem) (ps : List ℕ) : Type 0 where
  pub chain : IsChain k.next k.freelist ps
  pub distinct : Distinct ps

IsChain-update :
    (next : ℕ → ℕ) (v w r : ℕ) (ps : List ℕ)
    → NotIn v ps
    → IsChain next r ps
    → IsChain (update next v w) r ps
IsChain-update next v w r [] n c = c
IsChain-update next v w r (p ∷ ps) n c =
    let same : update next v w p ≡ next p = (let q = n.0 in ground arith) in
    (c.0, c.1, rw same (IsChain-update next v w (next p) ps n.1 c.2))

-- kfree of a page that is not free does not panic and puts it in front of the free pages, so that the
-- next kalloc returns it and leaves the free pages as they were. The page is aligned, not below the end
-- of the kernel, which is not at 0, and below PHYSTOP.
pub kfree-Free :
    (last v : ℕ) (k : Kmem) (ps : List ℕ)
    → Free k ps
    → NotIn v ps
    → 0 < last
    → last ≤ v
    → v % pgsize ≡ 0
    → v2p v < phystop
    → (k' : Kmem) × (kfree last v k ≡ ok (tt, k'))
      × Free k' (v ∷ ps)
      × ((k'' : Kmem) × (kalloc k' ≡ ok (v, k'')) × Free k'' ps)
unfolding kfree kalloc
kfree-Free last v k ps f n a b c d =
    let fine : (v % pgsize != 0 || ltb v last || leb phystop (v2p v)) ≡ false = ground arith in
    let there : (v != 0) ≡ true = ground arith in
    let k' : Kmem = record { next = update k.next v k.freelist; freelist = v } in
    let same : update k.next v k.freelist v ≡ k.freelist = ground arith in
    let rest = IsChain-update k.next v k.freelist k.freelist ps n f.chain in
    (
      k',
      rw fine refl,
      record { chain = (refl, omega arith, rw same rest); distinct = (n, f.distinct) },
      (
        record k' { freelist = k'.next v },
        rw there refl,
        record { chain = rw same rest; distinct = f.distinct },
      ),
    )

-- kalloc returns null, and changes nothing, exactly where no page is free; otherwise it returns a free
-- page, which is free no longer.
pub kalloc-Free :
    (k : Kmem) (ps : List ℕ)
    → Free k ps
    → ((ps ≡ []) × (kalloc k ≡ ok (0, k)))
      ⊎ ((p : ℕ) × (qs : List ℕ) × (k' : Kmem) × (ps ≡ p ∷ qs)
          × (p ≢ 0)
          × (kalloc k ≡ ok (p, k'))
          × Free k' qs
          × NotIn p qs)
unfolding kalloc
kalloc-Free k [] f = let e : k.freelist ≡ 0 = f.chain in inl (refl, rw e refl)
kalloc-Free k (p ∷ qs) f =
    let e : k.freelist ≡ p = f.chain.0 in
    let there : (p != 0) ≡ true = (let q = f.chain.1 in ground arith) in
    inr (
      p,
      qs,
      record k { freelist = k.next p },
      refl,
      f.chain.1,
      rw (e, there) refl,
      record { chain = f.chain.2; distinct = f.distinct.1 },
      f.distinct.0,
    )
