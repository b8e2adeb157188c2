-- ===== src/Stride/Pop.antt =====
-- popheap.
use hyu_ele.Base.{
  ℕ, zero, suc, ◌+◌, ◌-◌, ◌*◌, ◌/◌, ◌<◌, ◌≤◌, ◌≡◌, refl, ◌∙◌, ltb, leb, update, ℕ_discrete,
  Bool-cases, inl, inr, arith, ap,
}
use hyu_ele.Base.Int.{ℤ, ◌≤ℤ◌, ltb_ℤ, leb_ℤ}
use hyu_ele.Base.Run.{ok}
use hyu_ele.Ptable.{Ptable}
use hyu_ele.Stride.{lower_child, pop_loop, popheap}
use hyu_ele.Stride.Heap.{
  Array, count, count-update, count-shift, count-last, count-zero, root_least, one_if, IsHeap,
  DownInv, down_step,
}
use hyu_ele.Stride.Push.{HasMains, key_of, main_thread-ok, with_heap}

module _ (main : ℕ → ℕ) where
  -- `lower_child` picks a child of `i` that has no higher pass than any child.
  lower_child-least :
      (i : ℕ) (t : Ptable)
      → HasMains main t.proc
      → 0 < i
      → i * 2 ≤ t.size
      → (j : ℕ) × (lower_child (i * 2) t ≡ ok (j, t))
        × (j / 2 ≡ i)
        × (1 < j)
        × (j ≤ t.size)
        × ((c : ℕ)
            → 1 < c
            → c ≤ t.size
            → c / 2 ≡ i
            → key_of main t.proc (t.minheap j) ≤ℤ key_of main t.proc (t.minheap c))
  unfolding lower_child
  lower_child-least i t r hi le = elim (Bool-cases (ltb (i * 2) t.size)) [
    | inl more ↦
        let l = t.minheap (i * 2) in
        let q = t.minheap (i * 2 + 1) in
        elim (Bool-cases (ltb_ℤ (key_of main t.proc q) (key_of main t.proc l))) [
          | inl lt ↦ (
            i * 2 + 1,
            rw (more, main_thread-ok main t l r, main_thread-ok main t q r, lt),
            omega arith,
            omega arith,
            ground arith,
            λ c a b e. least_of_two i c (t.minheap) _ a e (ground arith) (ground arith),
          )
          | inr ge ↦ (
            i * 2,
            rw (more, main_thread-ok main t l r, main_thread-ok main t q r, ge),
            omega arith,
            omega arith,
            omega arith,
            λ c a b e. least_of_two i c (t.minheap) _ a e (ground arith) (ground arith),
          )
        ]
    | inr end ↦ (
      i * 2,
      rw end,
      omega arith,
      omega arith,
      omega arith,
      λ c a b e. (let d : c ≡ i * 2 = ground arith in rw d (omega arith)),
    )
  ]
    where
      least_of_two :
          (i c : ℕ) (h : Array) (k : ℤ)
          → 1 < c
          → c / 2 ≡ i
          → k ≤ℤ key_of main t.proc (h (i * 2))
          → k ≤ℤ key_of main t.proc (h (i * 2 + 1))
          → k ≤ℤ key_of main t.proc (h c)
      least_of_two i c h k a e p q = elim (ℕ_discrete c (i * 2)) [
        | yes d ↦ rw d p
        | no d ↦ let d' : c ≡ i * 2 + 1 = omega arith in rw d' q
      ]

  pop_loop-places :
      (k i p : ℕ) (t : Ptable)
      → HasMains main t.proc
      → DownInv (key_of main t.proc) (update t.minheap i p) t.size i
      → 0 < i
      → 0 < k
      → t.size < i + k
      → (j : ℕ) × (h : Array) × (pop_loop k p i t ≡ ok (j, with_heap t h))
        × IsHeap (key_of main t.proc) (update h j p) t.size
        × ((x : ℕ)
            → i ≤ t.size
            → count (update h j p) t.size x ≡ count (update t.minheap i p) t.size x)
  unfolding pop_loop
  pop_loop-places zero i p t r v hi hk f = absurd (omega arith)
  pop_loop-places (suc k) i p t r v hi hk f = elim (Bool-cases (leb (i * 2) t.size)) [
    | inr done ↦ (i, t.minheap, rw done, (λ c a b. v.edges c a b (ground arith)), λ x l. refl)
    | inl go ↦
        let (j, pick, half, one, inside, low) = lower_child-least i t r hi (ground arith) in
        elim (Bool-cases (leb_ℤ (key_of main t.proc p) (key_of main t.proc (t.minheap j)))) [
          | inl le ↦ (
            i,
            t.minheap,
            rw (go, pick, main_thread-ok main t p r, main_thread-ok main t (t.minheap j) r, le),
            (λ c a b. elim (ℕ_discrete (c / 2) i) [
              | yes e ↦ ground (arith, low c)
              | no ne ↦ v.edges c a b ne
            ]),
            λ x l. refl,
          )
          | inr gt ↦
              let t' = with_heap t (update t.minheap i (t.minheap j)) in
              let (j', h, run, heap, same) =
                pop_loop-places k j p t' r
                  (down_step _ t.minheap t.size i j p v hi half one inside (ground arith) low)
                  (omega arith) (omega arith) (omega arith) in
              (
                j',
                h,
                rw (go, pick, main_thread-ok main t p r, main_thread-ok main t (t.minheap j) r, gt)
                    run,
                heap,
                λ x l.
                    same x inside
                    ∙ count-shift t.minheap t.size i j p x hi l (omega arith) inside (omega arith),
              )
        ]
  ]

  -- popheap on a non-empty heap returns an entry that no entry of the heap has a lower pass than,
  -- takes exactly one occurrence of it out, keeps the heap order, and changes only the heap. It needs
  -- no more rounds of its loop than the size.
  pub popheap-least :
      (t : Ptable)
      → HasMains main t.proc
      → IsHeap (key_of main t.proc) t.minheap t.size
      → 0 < t.size
      → (h : Array) × (popheap t ≡ ok (t.minheap 1, record t { size = t.size - 1; minheap = h }))
        × IsHeap (key_of main t.proc) h (t.size - 1)
        × ((x : ℕ) → count h (t.size - 1) x + one_if (t.minheap 1) x ≡ count t.minheap t.size x)
        × ((c : ℕ)
            → 0 < c
            → c ≤ t.size
            → key_of main t.proc (t.minheap 1) ≤ℤ key_of main t.proc (t.minheap c))
  unfolding popheap
  popheap-least t r v pos =
      let n = t.size - 1 in
      let last = t.minheap t.size in
      let shrunk : Ptable = record t { size = n } in
      let (j, h, run, heap, same) =
        pop_loop-places t.size 1 last shrunk r
          (record {
            edges = λ c a b ne. ground (arith, v c);
            bridged = λ c a b d e. absurd (omega arith);
          })
          (omega arith) pos (omega arith) in
      (
        update h j last,
        rw run,
        heap,
        λ x. elim (ℕ_discrete n 0) [
          | yes e ↦ omega (
            arith,
            count-zero (update h j last) n x e,
            count-zero t.minheap n x e,
            count-last t.minheap t.size x pos,
            ap (λ (i : ℕ). one_if (t.minheap i) x) (only e),
          )
          | no ne ↦ omega (
            arith,
            same x (omega arith),
            count-update t.minheap n 1 last x (omega arith) (omega arith),
            count-last t.minheap t.size x pos,
          )
        ],
        λ c a b. root_least (key_of main t.proc) t.minheap t.size v c c (omega arith) a b,
      )
    where
      only : t.size - 1 ≡ 0 → t.size ≡ 1
      only e = omega arith
