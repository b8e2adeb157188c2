-- ===== src/Tests/Threads.antt =====
-- A process with the threads 1, 2 and 3, of which 3 is RUNNABLE.
use hyu_ele.Base.{ℕ, ◌≡◌, ◌≢◌, ◌<◌, [], ◌∷◌, arith, if◌then◌else◌, ◌==◌}
use hyu_ele.Base.Int.{pos}
use hyu_ele.Base.Run.{ok}
use hyu_ele.Links.{Links, list_head_init, list_add_tail, list_add_between}
use hyu_ele.Ptable.{Ptable, Proc, ProcState, sleeping, runnable, running, mlfq, is_runnable}
use hyu_ele.Threads.{threads_apply, main_thread, routine_is_ready}
use hyu_ele.Threads.Walk.{IsGroup, apply_list, threads_apply-eq, query-KeepsGroups}
use hyu_ele.Threads.Main.{main_thread-root, Above}

abbrev pub thread : ℕ → ProcState → Proc
thread main st = record {
  state = st;
  pid = 1;
  parent = 0;
  chan = 0;
  killed = 0;
  type = mlfq;
  tickets = pos 0;
  pass = pos 0;
  ticks = 0;
  privlevel = 0;
  tid = 0;
  thmain = main;
  retval = 0;
}

abbrev links : Links
links =
    list_add_tail 30 14
      (list_add_tail 22 14 (list_head_init 14 (record { prev = λ _. 0; next = λ _. 0 })))

abbrev table : Ptable
table = record {
  proc = λ q.
      if q == 3 then thread 1 runnable else if q == 2 then thread 1 sleeping else thread q running;
  links = links;
  mlfq_tickets = pos 100;
  mlfq_pass = pos 0;
  mlfq_ticks = 0;
  pin = λ l. 4096;
  size = 0;
  minheap = λ _. 0;
  nproc = pos 253;
  nextpid = 2;
}

table-IsGroup : IsGroup table 1 (2 ∷ 3 ∷ [])
unfolding list_add_tail list_add_between list_head_init
table-IsGroup = (record { linked = omega arith; distinct = omega arith }, omega arith)

threads_apply-eq_example :
    threads_apply 1 routine_is_ready table ≡ apply_list routine_is_ready (2 ∷ 3 ∷ 1 ∷ []) table
threads_apply-eq_example =
    threads_apply-eq routine_is_ready 1 (2 ∷ 3 ∷ []) table
      (query-KeepsGroups (λ p. is_runnable p.state)) table-IsGroup

abbrev depth : ℕ → ℕ
depth q = if q == 3 then 1 else if q == 2 then 1 else 0

depth_falls : (q : ℕ) → q ≢ (table.proc q).thmain → depth (table.proc q).thmain < depth q
depth_falls q h = ground arith

main_thread-root_example :
    (r : ℕ) × (main_thread 3 table ≡ ok (r, table))
    × ((table.proc r).thmain ≡ r)
    × Above table.proc r 3
main_thread-root_example = main_thread-root table depth 3 depth_falls (omega arith)
