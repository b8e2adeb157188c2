-- ===== src/Mlfq.antt =====
-- The multi-level feedback queues of proc.c: a ring of RUNNABLE and RUNNING threads for each level,
-- and a pin for each level, which is the node to run next or the queue's head.
pub mod Select
pub mod Concat
use hyu_ele.Base.{
  ℕ, zero, suc, ◌+◌, ◌-◌, ◌%◌, Bool, true, false, not, ◌&&◌, ◌||◌, ◌==◌, ◌!=◌, ltb, leb,
  if◌then◌else◌, update,
}
use hyu_ele.Base.Run.{pure, fail, stuck, modify, gets, when, ◌>>=◌, ◌>>◌}
use hyu_ele.Links.{
  list_add_after, list_add_tail, list_del, list_empty, list_bulk_move_tail, list_is_head,
}
use hyu_ele.Ptable.{
  K, nproc_max, qsize, tq, ta, list_entry, mlfq_node, queue_head, sleep_head, set_proc, get_proc,
  next_of, on_links, is_runnable, is_running,
}
use hyu_ele.Threads.{
  Routine, threads_apply, main_thread, ready_thread, ready_or_running_thread, is_ready_or_running,
}

-- `main_thread(p)->privlevel`
abbrev pub level_of : ℕ → K ℕ
level_of p = do main ← main_thread p; gets (λ t. (t.proc main).privlevel)

abbrev pub get_pin : ℕ → K ℕ
get_pin l = gets (λ t. t.pin l)

abbrev pub set_pin : ℕ → ℕ → K (Unit {0})
set_pin l a = modify (λ t. record t { pin = update t.pin l a })

-- A walk along a ring of at most NPROC entries and its head ends within this many rounds.
abbrev pub ring_fuel : ℕ
ring_fuel = nproc_max + 2

abbrev pub routine_is_pinned : ℕ → Routine
routine_is_pinned pin th = pure (mlfq_node th == pin)

abbrev pub routine_enqueue_remain : ℕ → Routine
routine_enqueue_remain pivot th = do
  p ← get_proc th
  when (th != pivot && is_ready_or_running p)
      (on_links (list_add_after (mlfq_node th) (mlfq_node pivot)))
  pure false

abbrev pub routine_dequeue_proc : Routine
routine_dequeue_proc th = do
  p ← get_proc th
  when (is_ready_or_running p) (on_links (list_del (mlfq_node th)))
  pure false

unfoldable pub ready_proc_loop : ℕ → ℕ → ℕ → ℕ → ℕ → K ℕ
ready_proc_loop zero q start pid itr = stuck
ready_proc_loop (suc k) q start pid itr = do
  nxt ← next_of itr
  np ← get_proc (list_entry itr)
  let rest = ready_proc_loop k q start pid nxt
  let hit = not (list_is_head itr q) && (np.pid != pid && is_runnable np.state)
  (if itr == start then pure 0 else (if hit then pure (list_entry itr) else rest))

unfoldable pub ready_proc : ℕ → K ℕ
ready_proc p = do
  level ← level_of p
  e ← get_proc p
  start ← next_of (mlfq_node p)
  let run = ready_proc_loop ring_fuel (queue_head level) (mlfq_node p) e.pid start
  (if is_ready_or_running e then run else fail)

unfoldable pub is_proc_pinned : ℕ → ℕ → K Bool
is_proc_pinned p pin = do th ← threads_apply p (routine_is_pinned pin); pure (th != 0)

abbrev pub or_queue : ℕ → ℕ → ℕ
or_queue nxt level = if nxt != 0 then mlfq_node nxt else queue_head level

-- No thread of the process is left to pin: pin one of another process, or the head.
unfoldable pub repin_away : ℕ → ℕ → K (Unit {0})
repin_away th level = do
  anchor ← ready_or_running_thread th
  other ← (if anchor == 0 then fail else ready_proc anchor)
  set_pin level (or_queue other level)

-- The body of pin_next_thread's `if(is_proc_pinned(..))`.
unfoldable pub repin_thread : ℕ → Bool → ℕ → K (Unit {0})
repin_thread th self level = do
  nxt ← ready_thread th
  let away = repin_away th level
  (if nxt != 0 && (self || nxt != th) then set_pin level (mlfq_node nxt) else away)

unfoldable pub pin_next_thread : ℕ → Bool → K (Unit {0})
pin_next_thread th self = do
  level ← level_of th
  pin ← get_pin level
  pinned ← is_proc_pinned th pin
  when pinned (repin_thread th self level)

-- The body of pin_next_proc's `if(is_proc_pinned(..))`, and what it does where no other process is
-- ready.
unfoldable pub repin_own : ℕ → Bool → ℕ → K (Unit {0})
repin_own p self level = do
  nxt ← (if self then ready_thread p else pure 0)
  set_pin level (or_queue nxt level)

unfoldable pub repin_proc : ℕ → Bool → ℕ → K (Unit {0})
repin_proc p self level = do
  anchor ← ready_or_running_thread p
  other ← (if anchor == 0 then fail else ready_proc anchor)
  (if other != 0 then set_pin level (mlfq_node other) else repin_own p self level)

unfoldable pub pin_next_proc : ℕ → Bool → K (Unit {0})
pin_next_proc p self = do
  level ← level_of p
  pin ← get_pin level
  pinned ← is_proc_pinned p pin
  when pinned (repin_proc p self level)

-- No thread of the process is in the queue: it goes to the end.
abbrev pub append_thread : ℕ → K (Unit {0})
append_thread th = do
  level ← level_of th
  on_links (list_add_tail (mlfq_node th) (queue_head level))

unfoldable pub enqueue_thread : ℕ → K (Unit {0})
enqueue_thread th = do
  e ← get_proc th
  when (not (is_runnable e.state)) fail
  pivot ← ready_or_running_thread th
  let beside = on_links (list_add_after (mlfq_node th) (mlfq_node pivot))
  (if th == pivot then append_thread th else beside)

unfoldable pub enqueue_proc : ℕ → K (Unit {0})
enqueue_proc p = do
  e ← get_proc p
  when (not (is_ready_or_running e)) fail
  append_thread p
  threads_apply p (routine_enqueue_remain p)
  pure tt

unfoldable pub concatqueue : ℕ → ℕ → K (Unit {0})
concatqueue src dst = do
  empty ← gets (λ t. list_empty (queue_head dst) t.links)
  spin ← get_pin src
  when (empty && spin != queue_head src) (set_pin dst spin)
  set_pin src (queue_head src)
  on_links (list_bulk_move_tail (queue_head src) (queue_head dst))

unfoldable pub dequeue_thread : ℕ → K (Unit {0})
dequeue_thread th = do pin_next_thread th false; on_links (list_del (mlfq_node th))

unfoldable pub dequeue_proc : ℕ → K (Unit {0})
dequeue_proc p = do pin_next_proc p false; threads_apply p routine_dequeue_proc; pure tt

-- The body of mlfqselect's loop for a queue that holds a thread: the entry to run, or 0 for the C
-- `continue`. First what it does for a pinned thread that runs on another CPU, then the return.
unfoldable pub repin_running : ℕ → ℕ → K (Unit {0})
repin_running l p = do
  pin_next_thread p false
  again ← get_pin l
  when (again == queue_head l) (pin_next_proc p false)

unfoldable pub select_pinned : ℕ → ℕ → K ℕ
select_pinned l p = do level ← level_of p; when (level != l) fail; set_pin l (mlfq_node p); pure p

unfoldable pub select_in : ℕ → K ℕ
select_in l = do
  pin ← get_pin l
  first ← next_of (queue_head l)
  let p = if pin == queue_head l then list_entry first else list_entry pin
  e ← get_proc p
  when (is_running e.state) (repin_running l p)
  now ← get_pin l
  (if is_running e.state && now == queue_head l then pure 0 else select_pinned l p)

-- `for(l = QSIZE - n; l < QSIZE; l++)`; no entry has the null pointer, so 0 goes on to the next level.
unfoldable pub select_loop : ℕ → K ℕ
select_loop zero = pure 0
select_loop (suc n) = do
  let l = qsize - suc n
  empty ← gets (λ t. list_empty (queue_head l) t.links)
  p ← (if empty then pure 0 else select_in l)
  let rest = select_loop n
  (if p == 0 then rest else pure p)

unfoldable pub mlfqselect : K ℕ
mlfqselect = select_loop qsize

abbrev pub renew : ℕ → K (Unit {0})
renew p = set_proc p (λ e. record e { privlevel = 0; ticks = 0 })

-- `for(itr = q->next; itr != q; itr = itr->next)` over the entries of a queue.
unfoldable pub renew_loop : ℕ → ℕ → ℕ → K (Unit {0})
renew_loop zero q itr = stuck
renew_loop (suc k) q itr = do
  nxt ← next_of itr
  let rest = renew_loop k q nxt
  (if itr == q then pure tt else (renew (list_entry itr) >> rest))

abbrev pub renew_queue : ℕ → K (Unit {0})
renew_queue q = do itr ← next_of q; renew_loop ring_fuel q itr

unfoldable pub priority_boost : K (Unit {0})
priority_boost = do
  renew_queue (queue_head 1)
  concatqueue 1 0
  renew_queue (queue_head 2)
  concatqueue 2 0
  renew_queue sleep_head
  modify (λ t. record t { mlfq_ticks = 0 })

-- The demotion to level `l + 1`.
unfoldable pub demote : ℕ → ℕ → ℕ → K (Unit {0})
demote p main l = do
  dequeue_proc p
  set_proc main (λ x. record x { privlevel = l + 1; ticks = 0 })
  th ← ready_or_running_thread p
  when (th != 0) (enqueue_proc th)

unfoldable pub mlfqlogic : ℕ → K (Unit {0})
mlfqlogic p = do
  main ← main_thread p
  e ← get_proc main
  let l = e.privlevel
  let used_up = ltb l (qsize - 1) && leb (ta l) e.ticks
  let turn = if e.ticks % tq l == 0 then pin_next_proc p true else pin_next_thread p true
  (if used_up then demote p main l else turn)
