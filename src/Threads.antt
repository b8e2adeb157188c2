-- ===== src/Threads.antt =====
-- thread.c: the threads of a process, which form a ring through `thgroup`, and the search and
-- update functions that walk it.
pub mod Walk
pub mod Main
pub mod Queries
use hyu_ele.Base.{ℕ, zero, suc, ◌+◌, Bool, true, false, ◌||◌, ◌==◌, if◌then◌else◌}
use hyu_ele.Base.Run.{Run, ok, out_of_fuel, and_then, pure, stuck, gets, ◌>>=◌, ◌>>◌}
use hyu_ele.Ptable.{
  K, Ptable, Proc, nproc_max, list_entry, thgroup_node, set_proc, get_proc, next_of, is_runnable,
  is_running, is_sleeping, stride,
}

-- A callback returns a pointer; whether it is null is all that the loop looks at.
abbrev pub Routine : Type 0
Routine = ℕ → K Bool

-- The do-while loop of threads_apply0 and threads_apply1, which differ in the callback's type alone.
-- `itr` moves on before the routine runs.
unfoldable pub threads_loop : ℕ → Routine → ℕ → ℕ → K ℕ
threads_loop zero routine start itr = stuck
threads_loop (suc k) routine start itr = do
  nxt ← next_of itr
  stop ← routine (list_entry itr)
  let rest = threads_loop k routine start nxt
  if stop then pure (list_entry itr) else if nxt == start then pure 0 else rest

unfoldable pub threads_apply : ℕ → Routine → K ℕ
threads_apply p routine = do
  start ← next_of (thgroup_node p)
  threads_loop nproc_max routine start start

abbrev pub routine_get_thread : ℕ → Routine
routine_get_thread tid th = gets (λ t. (t.proc th).tid == tid)

abbrev pub routine_is_ready : Routine
routine_is_ready th = gets (λ t. is_runnable (t.proc th).state)

abbrev pub routine_is_sleeping : Routine
routine_is_sleeping th = gets (λ t. is_sleeping (t.proc th).state)

abbrev pub is_ready_or_running : Proc → Bool
is_ready_or_running p = is_runnable p.state || is_running p.state

abbrev pub routine_is_ready_or_running : Routine
routine_is_ready_or_running th = gets (λ t. is_ready_or_running (t.proc th))

abbrev pub routine_kill_thread : Routine
routine_kill_thread th = set_proc th (λ p. record p { killed = 1 }) >> pure false

abbrev pub routine_usurp_proc : ℕ → Routine
routine_usurp_proc main th = set_proc th (λ p. record p { thmain = main }) >> pure false

abbrev pub routine_set_stride : Routine
routine_set_stride th = set_proc th (λ p. record p { type = stride }) >> pure false

unfoldable pub get_thread : ℕ → ℕ → K ℕ
get_thread p tid = threads_apply p (routine_get_thread tid)

unfoldable pub ready_thread : ℕ → K ℕ
ready_thread th = threads_apply th routine_is_ready

unfoldable pub sleeping_thread : ℕ → K ℕ
sleeping_thread th = threads_apply th routine_is_sleeping

unfoldable pub ready_or_running_thread : ℕ → K ℕ
ready_or_running_thread th = threads_apply th routine_is_ready_or_running

unfoldable pub terminate_proc : ℕ → K (Unit {0})
terminate_proc p = threads_apply p routine_kill_thread >> pure tt

-- `while(th != th->thmain) th = th->thmain;` over the entries.
unfoldable pub main_loop : ℕ → (ℕ → Proc) → ℕ → Run ℕ
main_loop zero proc th = out_of_fuel
main_loop (suc k) proc th =
    let rest = main_loop k proc (proc th).thmain in if th == (proc th).thmain then ok th else rest

unfoldable pub main_thread : ℕ → K ℕ
main_thread th t = and_then (main_loop nproc_max t.proc th) (λ r. ok (r, t))

-- The do-while loop of thread_size.
unfoldable pub size_loop : ℕ → ℕ → ℕ → ℕ → K ℕ
size_loop zero start itr size = stuck
size_loop (suc k) start itr size = do
  nxt ← next_of itr
  let rest = size_loop k start nxt (size + 1)
  if nxt == start then pure (size + 1) else rest

unfoldable pub thread_size : ℕ → K ℕ
thread_size p = size_loop nproc_max (thgroup_node p) (thgroup_node p) 0
