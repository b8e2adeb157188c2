-- ===== src/Stride.antt =====
-- The stride scheduler of proc.c: the heap of processes by their main thread's pass, the share of
-- CPU time, and the passes after a turn. `minheap` is indexed from 1.
pub mod Heap
pub mod Push
pub mod Pop
pub mod Share
use hyu_ele.Base.{
  ℕ, zero, suc, ◌+◌, ◌-◌, ◌*◌, ◌/◌, Bool, true, false, not, ◌&&◌, ◌||◌, ◌==◌, ◌!=◌, ltb, leb,
  if◌then◌else◌, update,
}
use hyu_ele.Base.Int.{ℤ, pos, negsuc, ◌+ℤ◌, ◌-ℤ◌, leb_ℤ, ltb_ℤ}
use hyu_ele.Base.Run.{pure, fail, stuck, modify, gets, when, ◌>>=◌, ◌>>◌}
use hyu_ele.Links.{list_add}
use hyu_ele.Ptable.{
  K, Ptable, Proc, reserve, largenum, maxint, barrier, list_entry, run_node, run_head, set_proc,
  get_proc, next_of, on_links, is_mlfq,
}
use hyu_ele.Threads.{threads_apply, main_thread, ready_thread, sleeping_thread, routine_set_stride}
use hyu_ele.Mlfq.{ring_fuel, dequeue_proc}

-- `main_thread(p)->pass`
abbrev pub pass_of : ℕ → K ℤ
pass_of p = do main ← main_thread p; gets (λ t. (t.proc main).pass)

abbrev pub heap_at : ℕ → K ℕ
heap_at i = gets (λ t. t.minheap i)

abbrev pub set_heap : ℕ → ℕ → K (Unit {0})
set_heap i p = modify (λ t. record t { minheap = update t.minheap i p })

unfoldable pub getminpass : K ℤ
getminpass = do
  size ← gets (λ t. t.size)
  first ← heap_at 1
  (if ltb 0 size then pass_of first else pure maxint)

-- The while loop of pushheap; it returns the last `i`.
unfoldable pub push_loop : ℕ → ℕ → ℕ → K ℕ
push_loop zero main i = stuck
push_loop (suc k) main i = do
  above ← heap_at (i / 2)
  let rest = push_loop k main (i / 2)
  (if i == 1 then pure i else (do
    mine ← gets (λ t. (t.proc main).pass)
    theirs ← pass_of above
    (if ltb_ℤ mine theirs then (set_heap i above >> rest) else pure i)))

unfoldable pub pushheap : ℕ → K (Unit {0})
pushheap p = do
  modify (λ t. record t { size = t.size + 1 })
  i ← gets (λ t. t.size)
  main ← main_thread p
  hole ← push_loop i main i
  set_heap hole p

-- `child++` where the right child has the lower pass.
unfoldable pub lower_child : ℕ → K ℕ
lower_child child = do
  size ← gets (λ t. t.size)
  left ← heap_at child
  right ← heap_at (child + 1)
  (if ltb child size
      then (do l ← pass_of left; r ← pass_of right; pure (if ltb_ℤ r l then child + 1 else child))
      else pure child)

-- The for loop of popheap, whose `child` is `2 * parent` at its test; it returns the last `parent`.
unfoldable pub pop_loop : ℕ → ℕ → ℕ → K ℕ
pop_loop zero last parent = stuck
pop_loop (suc k) last parent = do
  size ← gets (λ t. t.size)
  let rest = pop_loop k last
  (if leb (parent * 2) size
      then (do
        child ← lower_child (parent * 2)
        moved ← heap_at child
        mine ← pass_of last
        theirs ← pass_of moved
        (if leb_ℤ mine theirs then pure parent else (set_heap parent moved >> rest child)))
      else pure parent)

-- It is called with `0 < size` alone, so that `size--` does not stop at 0.
unfoldable pub popheap : K ℕ
popheap = do
  size ← gets (λ t. t.size)
  least ← heap_at 1
  last ← heap_at size
  modify (λ t. record t { size = t.size - 1 })
  hole ← pop_loop size last 1
  set_heap hole last
  pure least

-- set_cpu_share(share) called by thread `p`, under ptable.lock.
unfoldable pub join_stride : ℕ → ℕ → K (Unit {0})
join_stride p main = do
  dequeue_proc p
  minpass ← getminpass
  mlfqpass ← gets (λ t. t.mlfq_pass)
  set_proc main (λ e. record e { pass = if ltb_ℤ minpass mlfqpass then minpass else mlfqpass })
  threads_apply main routine_set_stride
  on_links (list_add (run_node p) run_head)

abbrev pub fails : ℤ
fails = negsuc 0

unfoldable pub grant_share : ℕ → ℤ → K ℤ
grant_share p share = do
  main ← main_thread p
  e ← get_proc p
  m ← get_proc main
  free ← gets (λ t. t.mlfq_tickets)
  let remain = if is_mlfq e.type then free else free +ℤ m.tickets
  (if leb_ℤ reserve (remain -ℤ share)
      then (do
        when (is_mlfq e.type) (join_stride p main)
        modify (λ t. record t { mlfq_tickets = remain -ℤ share })
        set_proc main (λ x. record x { tickets = share })
        pure (pos 0))
      else pure fails)

unfoldable pub set_cpu_share : ℕ → ℤ → K ℤ
set_cpu_share p share =
    if ltb_ℤ share (pos 1) || ltb_ℤ (pos 100 -ℤ reserve) share
    then pure fails
    else grant_share p share

-- STRD(t): a division by zero traps.
unfoldable pub strd : ℤ → K ℤ
strd (pos zero) = fail
strd (pos (suc n)) = pure (pos (largenum / suc n))
strd (negsuc n) = pure (pos 0 -ℤ pos (largenum / suc n))

-- `main_thread(q)->pass -= minpass`
abbrev pub lower_pass : ℤ → ℕ → K (Unit {0})
lower_pass minpass q = do
  main ← main_thread q
  set_proc main (λ e. record e { pass = e.pass -ℤ minpass })

-- The loops over the heap, from index `i` for `n` entries, and over the ring of running threads.
unfoldable pub lower_heap : ℕ → ℕ → ℤ → K (Unit {0})
lower_heap zero i minpass = pure tt
lower_heap (suc n) i minpass = do q ← heap_at i; lower_pass minpass q; lower_heap n (i + 1) minpass

unfoldable pub lower_run : ℕ → ℕ → ℤ → K (Unit {0})
lower_run zero itr minpass = stuck
lower_run (suc k) itr minpass = do
  nxt ← next_of itr
  let rest = lower_run k nxt minpass
  (if itr == run_head then pure tt else (lower_pass minpass (list_entry itr) >> rest))

-- `p == 0 || p->type == MLFQ`
abbrev pub plays_mlfq : ℕ → K Bool
plays_mlfq p = gets (λ t. (p == 0) || is_mlfq (t.proc p).type)

-- The overflow handling, and the increments after a turn of `p`.
unfoldable pub rebase : ℕ → K (Unit {0})
rebase p = do
  shared ← plays_mlfq p
  mlfqpass ← gets (λ t. t.mlfq_pass)
  minpass ← (if shared then pure mlfqpass else pass_of p)
  size ← gets (λ t. t.size)
  first ← next_of run_head
  when (ltb_ℤ barrier minpass) (do
    lower_heap size 1 minpass
    lower_run ring_fuel first minpass
    modify (λ t. record t { mlfq_pass = t.mlfq_pass -ℤ minpass }))

unfoldable pub advance_mlfq : K (Unit {0})
advance_mlfq = do
  tickets ← gets (λ t. t.mlfq_tickets)
  step ← strd tickets
  modify (λ t. record t { mlfq_pass = t.mlfq_pass +ℤ step })

unfoldable pub advance_stride : ℕ → K (Unit {0})
advance_stride p = do
  main ← main_thread p
  e ← get_proc main
  step ← strd e.tickets
  set_proc main (λ x. record x { pass = x.pass +ℤ step })
  ready ← ready_thread p
  nxt ← (if ready != 0 then pure ready else sleeping_thread p)
  when (nxt != 0) (pushheap nxt)

unfoldable pub stridelogic : ℕ → K (Unit {0})
stridelogic p = do
  rebase p
  shared ← plays_mlfq p
  (if shared then advance_mlfq else advance_stride p)
