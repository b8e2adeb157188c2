-- ===== src/Tests/Stride.antt =====
-- The heap of the stride scheduler with two processes in it.
use hyu_ele.Base.{◌⊎◌, ℕ, ◌+◌, ◌-◌, ◌≤◌, ◌<◌, ◌≡◌, refl, arith, if◌then◌else◌, ◌==◌, ==_iff}
use hyu_ele.Base.Int.{ℤ, ◌+ℤ◌, pos, ◌≤ℤ◌}
use hyu_ele.Base.Run.{ok}
use hyu_ele.Ptable.{Ptable, Proc, runnable, stride}
use hyu_ele.Threads.{main_thread, main_loop}
use hyu_ele.Stride.{set_cpu_share, fails, pushheap, popheap}
use hyu_ele.Stride.Heap.{Array, count, IsHeap, one_if}
use hyu_ele.Stride.Push.{HasMains, key_of, pushheap-IsHeap}
use hyu_ele.Stride.Share.{set_cpu_share-conserves}
use hyu_ele.Stride.Pop.{popheap-least}

abbrev worker : ℕ → Proc
worker q = record {
  state = runnable;
  pid = q;
  parent = 0;
  chan = 0;
  killed = 0;
  type = stride;
  tickets = pos 10;
  pass = pos (100 - q);
  ticks = 0;
  privlevel = 0;
  tid = 0;
  thmain = q;
  retval = 0;
}

-- Entry 9 has pass 91, entry 4 has pass 96.
abbrev table : Ptable
table = record {
  proc = worker;
  links = record { prev = λ _. 0; next = λ _. 0 };
  mlfq_tickets = pos 80;
  mlfq_pass = pos 95;
  mlfq_ticks = 0;
  pin = λ _. 0;
  size = 2;
  minheap = λ i. if i == 1 then 9 else 4;
  nproc = pos 254;
  nextpid = 5;
}

abbrev self : ℕ → ℕ
self q = q

worker-HasMains : HasMains self worker
unfolding main_loop
worker-HasMains q = rw ((==_iff q q).1 refl)

table-IsHeap : IsHeap (key_of self worker) table.minheap 2
table-IsHeap c h l = let e : c ≡ 2 = omega arith in rw e (omega arith)

pushheap-IsHeap_example :
    (h : Array) × (pushheap 20 table ≡ ok (tt, record table { size = 3; minheap = h }))
    × IsHeap (key_of self worker) h 3
    × ((x : ℕ) → count h 3 x ≡ count table.minheap 2 x + one_if 20 x)
pushheap-IsHeap_example = pushheap-IsHeap self 20 table worker-HasMains table-IsHeap

popheap-least_example :
    (h : Array) × (popheap table ≡ ok (9, record table { size = 1; minheap = h }))
    × IsHeap (key_of self worker) h 1
    × ((x : ℕ) → count h 1 x + one_if 9 x ≡ count table.minheap 2 x)
    × ((c : ℕ) → 0 < c → c ≤ 2 → key_of self worker 9 ≤ℤ key_of self worker (table.minheap c))
popheap-least_example = popheap-least self table worker-HasMains table-IsHeap (omega arith)

-- Entry 9 asks for 30 of the 80 + 10 tickets.
set_cpu_share-conserves_example :
    (t' : Ptable) × (r : ℤ) × (set_cpu_share 9 (pos 30) table ≡ ok (r, t'))
    × (((r ≡ fails) × (t' ≡ table)) ⊎ ((r ≡ pos 0) × ((t'.proc 9).tickets ≡ pos 30)))
    × (t'.mlfq_tickets +ℤ (t'.proc 9).tickets ≡ pos 80 +ℤ pos 10)
    × (pos 20 ≤ℤ pos 80 → pos 20 ≤ℤ t'.mlfq_tickets)
unfolding main_thread main_loop
set_cpu_share-conserves_example = set_cpu_share-conserves 9 9 (pos 30) table refl refl
