-- ===== src/Threads/Main.antt =====
-- main_thread: the end of the `thmain` chain of a thread.
use hyu_ele.Base.{ℕ, zero, suc, ◌<◌, ◌≡◌, ◌≢◌, sym, ◌==◌, Bool-cases, ==_iff, arith, inl, inr}
use hyu_ele.Base.Run.{ok}
use hyu_ele.Ptable.{Ptable, Proc, nproc_max}
use hyu_ele.Threads.{main_loop, main_thread}

-- `r` is met on the way from `th` along `thmain`.
pub data Above (proc : ℕ → Proc) (r : ℕ) : ℕ → Type 0 where
  here : Above proc r r
  up : {th : ℕ} → Above proc r (proc th).thmain → Above proc r th

main_loop-ends :
    (k : ℕ) (proc : ℕ → Proc) (rank : ℕ → ℕ) (th : ℕ)
    → ((q : ℕ) → q ≢ (proc q).thmain → rank (proc q).thmain < rank q)
    → rank th < k
    → (r : ℕ) × (main_loop k proc th ≡ ok r) × ((proc r).thmain ≡ r) × Above proc r th
unfolding main_loop
main_loop-ends zero proc rank th f h = absurd (omega arith)
main_loop-ends (suc k) proc rank th f h = elim (Bool-cases (th == (proc th).thmain)) [
  | inl e ↦ (th, rw e, sym ((==_iff _ _).0 e), here)
  | inr e ↦
      let down = f th (ground arith) in
      let (r, run, root, way) = main_loop-ends k proc rank (proc th).thmain f (omega arith) in
      (r, rw e run, root, up way)
]

-- Where the `thmain` links do not go round in a circle and a chain has fewer than NPROC steps,
-- main_thread ends, changes nothing, and returns the thread at the end of the chain, which is its own
-- main thread.
pub main_thread-root :
    (t : Ptable) (rank : ℕ → ℕ) (th : ℕ)
    → ((q : ℕ) → q ≢ (t.proc q).thmain → rank (t.proc q).thmain < rank q)
    → rank th < nproc_max
    → (r : ℕ) × (main_thread th t ≡ ok (r, t)) × ((t.proc r).thmain ≡ r) × Above t.proc r th
unfolding main_thread
main_thread-root t rank th f h =
    let (r, run, root, way) = main_loop-ends nproc_max t.proc rank th f h in (r, rw run, root, way)
