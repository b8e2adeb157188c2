-- ===== src/Mlfq/Select.antt =====
-- mlfqselect: the thread that a level offers, and the level that is served.

use hyu_ele.Base.{
  dec_lt, ℕ, zero, suc, ◌+◌, ◌-◌, ◌<◌, ◌≡◌, ◌≢◌, refl, true, false, ◌==◌, ==_iff, ==_of_ne,
  if◌then◌else◌, update, arith,
}
use hyu_ele.Base.Run.{ok}
use hyu_ele.Links.{list_empty}
use hyu_ele.Ptable.{Ptable, qsize, list_entry, mlfq_node, queue_head, is_running}
use hyu_ele.Threads.{main_thread}
use hyu_ele.Mlfq.{select_pinned, select_in, select_loop, mlfqselect}

-- The entry at the pin of level `l`; the first of the queue where the pin is the queue's head.
abbrev pub candidate : ℕ → Ptable → ℕ
candidate l t =
    if t.pin l == queue_head l
    then list_entry (t.links.next (queue_head l))
    else list_entry (t.pin l)

-- Level `l` offers the entry `p`: it has threads, and the candidate does not run on another CPU and
-- belongs to a process of this level.
pub record Offers (l : ℕ) (t : Ptable) (p : ℕ) : Type 0 where
  pub filled : list_empty (queue_head l) t.links ≡ false
  pub is_candidate : candidate l t ≡ p
  pub is_entry : p ≢ 0
  pub idle : is_running (t.proc p).state ≡ false
  pub main : ℕ
  pub has_main : main_thread p t ≡ ok (main, t)
  pub at_level : (t.proc main).privlevel ≡ l

select_in-offered :
    (l p : ℕ) (t : Ptable)
    → Offers l t p
    → select_in l t ≡ ok (p, record t { pin = update t.pin l (mlfq_node p) })
unfolding select_in select_pinned
select_in-offered l p t o =
    ground (arith, o.is_candidate, o.idle, o.has_main, o.at_level, (==_iff l l).1 refl)

select_loop-highest :
    (n l p : ℕ) (t : Ptable)
    → qsize - n < l + 1
    → l < qsize
    → n < qsize + 1
    → ((k : ℕ) → k < l → list_empty (queue_head k) t.links ≡ true)
    → Offers l t p
    → select_loop n t ≡ ok (p, record t { pin = update t.pin l (mlfq_node p) })
unfolding select_loop
select_loop-highest zero l p t h i j low o = absurd (omega arith)
select_loop-highest (suc n) l p t h i j low o = elim (dec_lt (qsize - suc n) l) [
  | yes e ↦
      rw (low (qsize - suc n) e) (select_loop-highest n l p t (omega arith) i (omega arith) low o)
  | no e ↦
      let at : qsize - suc n ≡ l = omega arith in
      rw (at, o.filled, select_in-offered l p t o, ==_of_ne p 0 o.is_entry) refl
]

-- Where the levels below `l` are empty and level `l` offers a thread, mlfqselect returns that thread,
-- pins it at its level, and changes nothing else.
pub mlfqselect-highest :
    (l p : ℕ) (t : Ptable)
    → l < qsize
    → ((k : ℕ) → k < l → list_empty (queue_head k) t.links ≡ true)
    → Offers l t p
    → mlfqselect t ≡ ok (p, record t { pin = update t.pin l (mlfq_node p) })
unfolding mlfqselect
mlfqselect-highest l p t h low o =
    select_loop-highest qsize l p t (omega arith) h (omega arith) low o
