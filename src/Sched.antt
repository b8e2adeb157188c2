-- ===== src/Sched.antt =====
-- Sleeping, waking and the switch of threads (sleep, wakeup, kill, yield, sched and scheduler of
-- xv6-public/proc.c, and xv6-public/futex.c). A channel is an address; that of entry `p` is `p`. A
-- function that gives up the CPU is cut at swtch, and what follows is a function of its own.
use hyu_ele.Base.{ℕ, zero, suc, ◌+◌, ◌%◌, Bool, not, ◌&&◌, ◌||◌, ◌==◌, ◌!=◌, leb, if◌then◌else◌}
use hyu_ele.Base.Int.{ℤ, pos, negsuc, ltb_ℤ}
use hyu_ele.Base.Run.{pure, fail, stuck, modify, gets, when, ◌>>=◌, ◌>>◌}
use hyu_ele.Links.{list_add, list_del}
use hyu_ele.Ptable.{
  K, nproc_max, dtq, boost_interval, list_entry, sleep_node, run_node, run_head, sleep_head,
  set_proc, get_proc, next_of, on_links, sleeping, runnable, running, is_runnable, is_running,
  is_sleeping, is_mlfq,
}
use hyu_ele.Threads.{main_thread, ready_thread, terminate_proc, get_thread}
use hyu_ele.Mlfq.{ring_fuel, enqueue_thread, dequeue_thread, mlfqselect, mlfqlogic, priority_boost}
use hyu_ele.Stride.{getminpass, popheap, stridelogic}

-- sched() of thread `p`: 0 when it switches to the scheduler, otherwise the thread of the process
-- that goes on, which is RUNNING. The lock and interrupt checks are no part of the table.
unfoldable pub sched : ℕ → K ℕ
sched p = do
  main ← main_thread p
  nxt ← ready_thread p
  e ← get_proc p
  when (is_running e.state) fail
  m ← get_proc main
  let go_on = (do set_proc nxt (λ x. record x { state = running }); pure nxt)
  (if nxt == 0 || m.ticks % dtq == 0 then pure 0 else go_on)

-- yield() up to the switch.
unfoldable pub yield : ℕ → K ℕ
yield p = do
  main ← main_thread p
  set_proc main (λ x. record x { ticks = x.ticks + 1 })
  m ← get_proc main
  when (is_mlfq m.type) (modify (λ t. record t { mlfq_ticks = t.mlfq_ticks + 1 }))
  set_proc p (λ x. record x { state = runnable })
  sched p

-- sleep(chan, lk) of thread `p` up to the switch, and what it does when it runs again.
unfoldable pub sleep : ℕ → ℕ → K ℕ
sleep p chan = do
  set_proc p (λ x. record x { chan = chan })
  e ← get_proc p
  when (is_mlfq e.type) (dequeue_thread p)
  set_proc p (λ x. record x { state = sleeping })
  on_links (list_add (sleep_node p) sleep_head)
  sched p

unfoldable pub tidy_up : ℕ → K (Unit {0})
tidy_up p = set_proc p (λ x. record x { chan = 0 })

-- What wakeup1 and kill do with a thread that sleeps.
unfoldable pub wake : ℕ → K (Unit {0})
wake p = do
  on_links (list_del (sleep_node p))
  set_proc p (λ x. record x { state = runnable })
  e ← get_proc p
  when (is_mlfq e.type) (enqueue_thread p)

unfoldable pub wakeup_loop : ℕ → ℕ → ℕ → K (Unit {0})
wakeup_loop zero chan itr = stuck
wakeup_loop (suc k) chan itr = do
  nxt ← next_of itr
  e ← get_proc (list_entry itr)
  let rest = wakeup_loop k chan nxt
  let body = when (e.chan == chan) (wake (list_entry itr))
  (if itr == sleep_head then pure tt else (body >> rest))

unfoldable pub wakeup1 : ℕ → K (Unit {0})
wakeup1 chan = do itr ← next_of sleep_head; wakeup_loop ring_fuel chan itr

-- wakeup is wakeup1 under ptable.lock.
unfoldable pub wakeup : ℕ → K (Unit {0})
wakeup chan = wakeup1 chan

-- kill(pid), from entry `p` on for `n` entries.
unfoldable pub kill_found : ℕ → K ℤ
kill_found p = do
  terminate_proc p
  e ← get_proc p
  when (is_sleeping e.state) (wake p)
  pure (pos 0)

unfoldable pub kill_loop : ℕ → ℕ → ℕ → K ℤ
kill_loop zero p pid = pure (negsuc 0)
kill_loop (suc n) p pid = do
  e ← get_proc p
  let rest = kill_loop n (p + 1) pid
  (if e.pid == pid then kill_found p else rest)

-- The entries are numbered from 1.
unfoldable pub kill : ℕ → K ℤ
kill pid = kill_loop nproc_max 1 pid

-- futex_wait by thread `p` on a word that holds `value` returns at once, or sleeps, and sched chooses
-- the thread that goes on.
pub data Waits : Type 0 where
  returns : ℤ → Waits
  switches : ℕ → Waits

unfoldable pub futex_wait : ℕ → ℕ → ℕ → K Waits
futex_wait p value tid = do
  e ← get_proc p
  let go = (do q ← sleep p p; pure (switches q))
  (if value == tid
      then (if tid == e.tid then go else pure (returns (negsuc 0)))
      else pure (returns (pos 0)))

unfoldable pub futex_wake : ℕ → ℕ → K ℤ
futex_wake p value = do
  th ← get_thread p value
  let found = (do wakeup th; pure (pos 0))
  (if th != 0 then found else pure (negsuc 0))

-- One round of scheduler() up to its swtch: the entry that it selects, and whether it runs.
unfoldable pub choose : K ℕ
choose = do
  least ← getminpass
  pass ← gets (λ t. t.mlfq_pass)
  (if ltb_ℤ least pass then popheap else mlfqselect)

unfoldable pub dispatch : ℕ → K (Unit {0})
dispatch p = do
  e ← get_proc p
  when (not (is_mlfq e.type)) (on_links (list_add (run_node p) run_head))
  set_proc p (λ x. record x { state = running })

unfoldable pub select_next : K (ℕ × Bool)
select_next = do
  p ← choose
  e ← get_proc p
  let runs = (p != 0) && is_runnable e.state
  when runs (dispatch p)
  pure (p, runs)

-- The rest of the round, for the entry `p` that was selected, whether it ran, and `cur`, which is
-- c->proc: the thread that gave the CPU back, or 0 when none ran.
unfoldable pub account : ℕ → ℕ → K (Unit {0})
account p cur = do
  e ← get_proc p
  let leave = on_links (list_del (run_node p))
  (if is_mlfq e.type then mlfqlogic cur else leave)

unfoldable pub end_round : ℕ → Bool → ℕ → K (Unit {0})
end_round p ran cur = do
  when ran (account p cur)
  ticks ← gets (λ t. t.mlfq_ticks)
  when (leb boost_interval ticks) priority_boost
  e ← get_proc p
  stridelogic (if p == 0 || is_sleeping e.state then p else cur)
