-- ===== src/Life/Join.antt =====
-- thread_join, __free_thread, __usurp_proc and the first part of monopolize_proc of
-- xv6-public/thread.c on the process table.
use hyu_ele.Base.{ℕ, not, ◌&&◌, ◌||◌, ◌==◌, ◌!=◌, if◌then◌else◌}
use hyu_ele.Base.Int.{pos}
use hyu_ele.Base.Run.{pure, when, ◌>>=◌, ◌>>◌}
use hyu_ele.Links.{list_add, list_del}
use hyu_ele.Ptable.{
  K, sibling_node, free_node, thgroup_node, free_head, set_proc, get_proc, on_links, is_mlfq,
  is_zombie,
}
use hyu_ele.Threads.{threads_apply, main_thread, get_thread, terminate_proc, routine_usurp_proc}
use hyu_ele.Sched.{sleep, wakeup1}
use hyu_ele.Life.{cleared, add_nproc}

unfoldable pub free_thread : ℕ → K (Unit {0})
free_thread th = do
  set_proc th (λ x. record (cleared x) { tid = 0; retval = 0 })
  add_nproc (pos 1)
  on_links (list_add (free_node th) free_head)

-- One round of thread_join(tid) by thread `p`: it fails, it stores the value that the thread left, or
-- it sleeps and sched chooses the thread that goes on.
pub data Joining : Type 0 where
  fails : Joining
  joined : (retval : ℕ) → Joining
  switches : ℕ → Joining

unfoldable pub reap_thread : ℕ → K Joining
reap_thread th = do
  e ← get_proc th
  on_links (list_del (thgroup_node th))
  on_links (list_del (sibling_node th))
  free_thread th
  pure (joined e.retval)

unfoldable pub thread_join : ℕ → ℕ → K Joining
thread_join p tid = do
  th ← get_thread p tid
  e ← get_proc p
  x ← get_proc th
  let gone = reap_thread th
  let doze = (do q ← sleep p p; pure (switches q))
  (if th == 0 || (e.killed != 0)
      then pure fails
      else (if is_zombie x.state && x.thmain == p then gone else doze))

-- The memory and the files that the thread takes over are left out.
unfoldable pub usurp_proc : ℕ → K (Unit {0})
usurp_proc th = do
  main ← main_thread th
  m ← get_proc main
  set_proc th (λ x. record x { ticks = m.ticks })
  e ← get_proc th
  when (not (is_mlfq e.type)) (set_proc th (λ x. record x { tickets = m.tickets; pass = m.pass }))
  threads_apply th (routine_usurp_proc th)
  set_proc main (λ x. record x { tid = e.tid })
  set_proc th (λ x. record x { tid = 0 })

-- monopolize_proc up to its second release of ptable.lock; the joins follow.
unfoldable pub monopolize : ℕ → K (Unit {0})
monopolize p = do
  e ← get_proc p
  when (p != e.thmain) (wakeup1 e.thmain >> usurp_proc p)
  terminate_proc p
  set_proc p (λ x. record x { killed = 0 })
