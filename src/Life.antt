-- ===== src/Life.antt =====
-- The life of a process and of a thread: pinit, allocproc, freeproc, wait and exit of
-- xv6-public/proc.c, and thread_exit of xv6-public/thread.c, as far as they change the process
-- table. What they do with memory, files and the file system is left out. A function that sleeps
-- is cut there, as in Sched.
pub mod Join
pub mod Alloc
pub mod Boot
use hyu_ele.Base.{
  ℕ, zero, suc, ◌+◌, ◌-◌, Bool, true, false, not, ◌&&◌, ◌||◌, ◌==◌, ◌!=◌, if◌then◌else◌, update,
}
use hyu_ele.Base.Int.{ℤ, pos, negsuc, ◌+ℤ◌, ◌-ℤ◌}
use hyu_ele.Base.Run.{pure, fail, stuck, modify, gets, when, ◌>>=◌, ◌>>◌}
use hyu_ele.Links.{
  list_add, list_add_tail, list_del, list_empty, list_head_init, list_bulk_move_tail,
}
use hyu_ele.Ptable.{
  K, Proc, nproc_max, qsize, list_entry, children_node, sibling_node, free_node, thgroup_node,
  queue_head, run_head, sleep_head, free_head, set_proc, get_proc, next_of, on_links, unused,
  embryo, zombie, mlfq, is_mlfq, is_zombie,
}
use hyu_ele.Threads.{
  Routine, threads_apply, main_thread, get_thread, terminate_proc, routine_usurp_proc,
}
use hyu_ele.Mlfq.{ring_fuel, dequeue_thread, dequeue_proc, set_pin}
use hyu_ele.Sched.{sched, sleep, wakeup1, wakeup}

abbrev pub add_nproc : ℤ → K (Unit {0})
add_nproc d = modify (λ t. record t { nproc = t.nproc +ℤ d })

-- pinit: the loops over the levels from `l` on and over the entries from `p` on.
unfoldable pub pinit_queues : ℕ → ℕ → K (Unit {0})
pinit_queues zero l = pure tt
pinit_queues (suc n) l = do
  on_links (list_head_init (queue_head l))
  set_pin l (queue_head l)
  pinit_queues n (l + 1)

unfoldable pub pinit_free : ℕ → ℕ → K (Unit {0})
pinit_free zero p = pure tt
pinit_free (suc n) p = do on_links (list_add_tail (free_node p) free_head); pinit_free n (p + 1)

unfoldable pub pinit : K (Unit {0})
pinit = do
  pinit_queues qsize 0
  on_links (list_head_init run_head)
  on_links (list_head_init sleep_head)
  on_links (list_head_init free_head)
  pinit_free nproc_max 1
  modify (λ t. record t { mlfq_tickets = pos 100 })

-- allocproc; `kstack` tells whether kalloc has a page.
unfoldable pub give_back : ℕ → K ℕ
give_back p = do
  set_proc p (λ x. record x { state = unused })
  add_nproc (pos 1)
  on_links (list_add (free_node p) free_head)
  pure 0

unfoldable pub take_free : Bool → K ℕ
take_free kstack = do
  first ← next_of free_head
  let p = list_entry first
  add_nproc (negsuc 0)
  on_links (list_del (free_node p))
  set_proc p (λ x. record x { state = embryo })
  on_links (list_head_init (children_node p))
  (if kstack then pure p else give_back p)

unfoldable pub allocproc : Bool → K ℕ
allocproc kstack = do
  none ← gets (λ t. list_empty free_head t.links)
  (if none then pure 0 else take_free kstack)

-- The enumeration's value 0 is MLFQ.
abbrev pub cleared : Proc → Proc
cleared x = record x {
  pid = 0;
  parent = 0;
  type = mlfq;
  killed = 0;
  tickets = pos 0;
  pass = pos 0;
  ticks = 0;
  privlevel = 0;
  state = unused;
}

unfoldable pub freeproc : ℕ → K (Unit {0})
freeproc p = do set_proc p cleared; add_nproc (pos 1); on_links (list_add (free_node p) free_head)

-- wait() of thread `p`, one round of its loop: the scan for a child that exited.
pub data Round : Type 0 where
  returns : ℤ → Round
  switches : ℕ → Round

unfoldable pub reap : ℕ → K ℕ
reap child = do
  e ← get_proc child
  on_links (list_del (sibling_node child))
  freeproc child
  pure e.pid

unfoldable pub scan_children : ℕ → ℕ → ℕ → K ℕ
scan_children zero p itr = stuck
scan_children (suc k) p itr = do
  nxt ← next_of itr
  e ← get_proc (list_entry itr)
  let rest = scan_children k p nxt
  (if itr == children_node p
      then pure 0
      else (if e.tid == 0 && is_zombie e.state then pure (list_entry itr) else rest))

unfoldable pub wait : ℕ → K Round
wait p = do
  first ← next_of (children_node p)
  child ← scan_children ring_fuel p first
  childless ← gets (λ t. list_empty (children_node p) t.links)
  e ← get_proc p
  let found = (do pid ← reap child; pure (returns (pos pid)))
  let doze = (do q ← sleep p p; pure (switches q))
  (if child != 0
      then found
      else (if childless || (e.killed != 0) then pure (returns (negsuc 0)) else doze))

-- The loop that hands the children of a process on.
unfoldable pub adopt_loop : ℕ → ℕ → ℕ → (ℕ → K (Unit {0})) → K (Unit {0})
adopt_loop zero p itr adopt = stuck
adopt_loop (suc k) p itr adopt = do
  let rest = (do nxt ← next_of itr; adopt_loop k p nxt adopt)
  (if itr == children_node p then pure tt else (adopt (list_entry itr) >> rest))

unfoldable pub adopt_by_init : ℕ → ℕ → K (Unit {0})
adopt_by_init initproc child = do
  set_proc child (λ x. record x { parent = initproc })
  e ← get_proc child
  when (is_zombie e.state) (wakeup1 initproc)

-- exit() of `p` from its second acquire of ptable.lock up to the switch: the other threads are gone.
unfoldable pub leave_scheduler : ℕ → K (Unit {0})
leave_scheduler p = do
  e ← get_proc p
  let share = modify (λ t. record t { mlfq_tickets = t.mlfq_tickets +ℤ e.tickets })
  (if is_mlfq e.type then dequeue_proc p else share)

unfoldable pub exit_proc : ℕ → ℕ → K ℕ
exit_proc initproc p = do
  e ← get_proc p
  wakeup1 e.parent
  first ← next_of (children_node p)
  adopt_loop ring_fuel p first (adopt_by_init initproc)
  on_links (list_bulk_move_tail (children_node p) (children_node initproc))
  leave_scheduler p
  set_proc p (λ x. record x { state = zombie })
  sched p

-- thread_exit(retval) of `th` up to the switch; a main thread returns at once, with 0.
abbrev pub routine_handle_orphan_thread : ℕ → Routine
routine_handle_orphan_thread main th = do
  e ← get_proc th
  when (e.thmain == main)
      (do root ← main_thread main; set_proc th (λ x. record x { thmain = root }))
  pure false

unfoldable pub adopt_by_main : ℕ → ℕ → K (Unit {0})
adopt_by_main th child = do main ← main_thread th; set_proc child (λ x. record x { parent = main })

unfoldable pub quit_thread : ℕ → ℕ → K ℕ
quit_thread th retval = do
  set_proc th (λ x. record x { retval = retval })
  e ← get_proc th
  wakeup1 e.thmain
  threads_apply th (routine_handle_orphan_thread th)
  first ← next_of (children_node th)
  adopt_loop ring_fuel th first (adopt_by_main th)
  main ← main_thread th
  on_links (list_bulk_move_tail (children_node th) (children_node main))
  when (is_mlfq e.type) (dequeue_thread th)
  set_proc th (λ x. record x { state = zombie })
  sched th

unfoldable pub thread_exit : ℕ → ℕ → K ℕ
thread_exit th retval = do
  e ← get_proc th
  let quit = quit_thread th retval
  (if e.thmain == th then pure 0 else quit)
