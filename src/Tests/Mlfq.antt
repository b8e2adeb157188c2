-- ===== src/Tests/Mlfq.antt =====
-- Level 1 holds the threads 2, which runs, and 3, which is RUNNABLE.
use hyu_ele.Base.{
  NotIn, ℕ, ◌+◌, ◌<◌, ◌≡◌, ◌≢◌, refl, true, [], ◌∷◌, arith, if◌then◌else◌, ◌==◌, update,
}
use hyu_ele.Base.Int.{pos}
use hyu_ele.Base.Run.{ok}
use hyu_ele.Links.{Links, list_head_init, list_add_tail, list_add_between, list_empty}
use hyu_ele.Ptable.{Ptable, Proc, ProcState, runnable, running, mlfq, queue_head, mlfq_node}
use hyu_ele.Threads.{
  main_loop, main_thread, threads_loop, threads_apply, ready_thread, ready_or_running_thread,
}
use hyu_ele.Mlfq.{
  concatqueue, mlfqselect, select_in, select_pinned, repin_running, pin_next_thread, repin_thread,
  repin_away, is_proc_pinned, ready_proc, ready_proc_loop,
}
use hyu_ele.Mlfq.Select.{Offers, mlfqselect-highest}
use hyu_ele.Mlfq.Concat.{IsQueue, concatqueue-IsQueue}

abbrev task : ℕ → ProcState → Proc
task q st = record {
  state = st;
  pid = q;
  parent = 0;
  chan = 0;
  killed = 0;
  type = mlfq;
  tickets = pos 0;
  pass = pos 0;
  ticks = 0;
  privlevel = 1;
  tid = 0;
  thmain = q;
  retval = 0;
}

abbrev links : Links
links = list_head_init 22 (
    list_head_init 30 (
      list_add_tail 27 4097 (
        list_add_tail 19 4097
          (list_head_init 4097 (list_head_init 4096 (record { prev = λ _. 0; next = λ _. 0 }))))))

abbrev table : Ptable
table = record {
  proc = λ q. if q == 3 then task 3 runnable else task q running;
  links = links;
  mlfq_tickets = pos 100;
  mlfq_pass = pos 0;
  mlfq_ticks = 0;
  pin = λ l. if l == 1 then 27 else 4096 + l;
  size = 0;
  minheap = λ _. 0;
  nproc = pos 254;
  nextpid = 4;
}

-- The pin of level 1 is at the thread that runs.
abbrev busy : Ptable
busy = record table { pin = λ l. if l == 1 then 19 else 4096 + l }

lower_empty : (k : ℕ) → k < 1 → list_empty (queue_head k) table.links ≡ true
unfolding list_add_tail list_add_between list_head_init
lower_empty k h = ground arith

table-Offers : Offers 1 table 3
unfolding main_thread main_loop list_add_tail list_add_between list_head_init
table-Offers = record {
  filled = refl;
  is_candidate = refl;
  is_entry = omega arith;
  idle = refl;
  main = 3;
  has_main = refl;
  at_level = refl;
}

mlfqselect-highest_example :
    mlfqselect table ≡ ok (3, record table { pin = update table.pin 1 (mlfq_node 3) })
mlfqselect-highest_example = mlfqselect-highest 1 3 table (omega arith) lower_empty table-Offers

busy_run : select_in 1 busy ≡ ok (2, record busy { pin = update (update busy.pin 1 27) 1 19 })
unfolding select_in select_pinned repin_running pin_next_thread repin_thread repin_away
    is_proc_pinned ready_proc ready_proc_loop main_thread main_loop threads_loop threads_apply
    ready_thread ready_or_running_thread list_add_tail list_add_between list_head_init
busy_run = refl

source-IsQueue : IsQueue table 1 (19 ∷ 27 ∷ [])
unfolding list_add_tail list_add_between list_head_init
source-IsQueue = record {
  ring = record { linked = omega arith; distinct = omega arith };
  pinned = λ h. h.1.1.0 refl;
}

target-IsQueue : IsQueue table 0 []
unfolding list_add_tail list_add_between list_head_init
target-IsQueue = record {
  ring = record { linked = omega arith; distinct = omega arith };
  pinned = λ h. h.0 refl;
}

concatqueue-IsQueue_example :
    (pin' : ℕ → ℕ) × (links' : Links) × (concatqueue 1 0 table
      ≡ ok (tt, record table { pin = pin'; links = links' }))
    × IsQueue (record table { pin = pin'; links = links' }) 1 []
    × IsQueue (record table { pin = pin'; links = links' }) 0 (19 ∷ 27 ∷ [])
    × (pin' 0 ≡ 27)
    × ((k : ℕ) → k ≢ 1 → k ≢ 0 → pin' k ≡ table.pin k)
    × ((y : ℕ)
        → NotIn y (queue_head 0 ∷ queue_head 1 ∷ 19 ∷ 27 ∷ [])
        → (links'.next y ≡ table.links.next y) × (links'.prev y ≡ table.links.prev y))
concatqueue-IsQueue_example =
    concatqueue-IsQueue 1 0 table (19 ∷ 27 ∷ []) [] (omega arith) source-IsQueue target-IsQueue
      (omega arith)
