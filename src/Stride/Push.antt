-- ===== src/Stride/Push.antt =====
-- getminpass and pushheap.
use hyu_ele.Base.{
  ℕ, zero, suc, ◌+◌, ◌/◌, ◌<◌, ◌≤◌, ◌≡◌, refl, ==_iff, ==_of_ne, ◌∙◌, update, ℕ_discrete,
  Bool-cases, inl, inr, arith,
}
use hyu_ele.Base.Int.{ℤ, ltb_ℤ}
use hyu_ele.Base.Run.{ok}
use hyu_ele.Ptable.{Ptable, Proc, nproc_max}
use hyu_ele.Threads.{main_loop, main_thread}
use hyu_ele.Stride.{pass_of, push_loop, pushheap}
use hyu_ele.Stride.Heap.{
  Array, count, count-grow, count-shift, one_if, IsHeap, UpInv, up_step, up_done,
}

-- Every thread has a main thread, `main q`.
abbrev pub HasMains : (ℕ → ℕ) → (ℕ → Proc) → Type 0
HasMains main proc = (q : ℕ) → main_loop nproc_max proc q ≡ ok (main q)

-- The pass by which the heap is ordered.
abbrev pub key_of : (ℕ → ℕ) → (ℕ → Proc) → ℕ → ℤ
key_of main proc q = (proc (main q)).pass

-- `t` with another heap array.
abbrev pub with_heap : Ptable → Array → Ptable
with_heap t h = record t { minheap = h }

module _ (main : ℕ → ℕ) where
  pub main_thread-ok :
      (t : Ptable) (q : ℕ) → HasMains main t.proc → main_thread q t ≡ ok (main q, t)
  unfolding main_thread
  main_thread-ok t q h = rw (h q)

  pub pass_of-ok :
      (t : Ptable) (q : ℕ) → HasMains main t.proc → pass_of q t ≡ ok (key_of main t.proc q, t)
  pass_of-ok t q h = rw (main_thread-ok t q h)

  pub push_loop-places :
      (k i p : ℕ) (t : Ptable)
      → HasMains main t.proc
      → UpInv (key_of main t.proc) (update t.minheap i p) t.size i
      → 0 < i
      → i ≤ t.size
      → i ≤ k
      → (j : ℕ) × (h : Array) × (push_loop k (main p) i t ≡ ok (j, with_heap t h))
        × ((0 < j) × (j ≤ t.size))
        × IsHeap (key_of main t.proc) (update h j p) t.size
        × ((x : ℕ) → count (update h j p) t.size x ≡ count (update t.minheap i p) t.size x)
  unfolding push_loop
  push_loop-places zero i p t r v hi li f = absurd (omega arith)
  push_loop-places (suc k) i p t r v hi li f = elim (ℕ_discrete i 1) [
    | yes e ↦ (
      i,
      t.minheap,
      rw ((==_iff i 1).1 e),
      (hi, li),
      up_done _ _ _ i v (λ q. absurd (omega arith)),
      λ x. refl,
    )
    | no ne ↦
        elim (Bool-cases (ltb_ℤ (key_of main t.proc p) (key_of main t.proc (t.minheap (i / 2))))) [
          | inl lt ↦
              let t' = with_heap t (update t.minheap i (t.minheap (i / 2))) in
              let (j, h, run, inside, heap, same) =
                push_loop-places k (i / 2) p t' r
                  (up_step _ t.minheap t.size i p v (omega arith) li (ground arith)) (omega arith)
                  (omega arith) (omega arith) in
              (
                j,
                h,
                rw (==_of_ne i 1 ne, main_thread-ok t (t.minheap (i / 2)) r, lt) run,
                inside,
                heap,
                λ x.
                    same x
                    ∙ count-shift t.minheap t.size i (i / 2) p x hi li (omega arith) (omega arith)
                        (omega arith),
              )
          | inr ge ↦ (
            i,
            t.minheap,
            rw (==_of_ne i 1 ne, main_thread-ok t (t.minheap (i / 2)) r, ge),
            (hi, li),
            up_done _ _ _ i v (λ q. ground arith),
            λ x. refl,
          )
        ]
  ]

  -- pushheap on a heap adds exactly the given entry, keeps the heap order, and changes only the heap.
  -- It needs no more rounds of its loop than the new size.
  pub pushheap-IsHeap :
      (p : ℕ) (t : Ptable)
      → HasMains main t.proc
      → IsHeap (key_of main t.proc) t.minheap t.size
      → (h : Array) × (pushheap p t ≡ ok (tt, record t { size = t.size + 1; minheap = h }))
        × IsHeap (key_of main t.proc) h (t.size + 1)
        × ((x : ℕ) → count h (t.size + 1) x ≡ count t.minheap t.size x + one_if p x)
  unfolding pushheap
  pushheap-IsHeap p t r v =
      let n = t.size + 1 in
      let grown : Ptable = record t { size = n } in
      let (j, h, run, inside, heap, same) =
        push_loop-places n n p grown r
          (record {
            edges = λ c hc lc ne. ground (arith, v c);
            bridged = λ c a b l e. absurd (omega arith);
          })
          (omega arith) (omega arith) (omega arith) in
      (
        update h j p,
        rw (main_thread-ok grown p r, run),
        heap,
        λ x. same x ∙ count-grow t.minheap t.size p x,
      )
