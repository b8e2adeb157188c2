-- ===== src/Xem.antt =====
-- xem.c: the semaphore of the user library, and the ring of waiting threads in it. What runs
-- between taking the semaphore's guard and giving it back is one step; the system calls futex_wait
-- and futex_wake appear as what they are asked to do.
pub mod Queue
pub mod Lock
use hyu_ele.Base.{
  ℕ, zero, suc, ◌+◌, ◌%◌, Bool, true, false, ◌==◌, ◌!=◌, if◌then◌else◌, update, Option, none, some,
}
use hyu_ele.Base.Int.{ℤ, pos, negsuc, ◌+ℤ◌, ◌-ℤ◌, leb_ℤ}

-- user.h
abbrev pub xemqsz : ℕ
xemqsz = 64

abbrev pub unused : ℤ
unused = negsuc 0

-- queue_t and xem_t
pub record WaitQueue : Type 0 where
  pub head : ℕ
  pub rear : ℕ
  pub queue : ℕ → ℤ

pub record Xem : Type 0 where
  pub guard : ℕ
  pub count : ℤ
  pub q : WaitQueue

unfoldable pub queue_init : WaitQueue
queue_init = record { head = 0; rear = 0; queue = λ _. unused }

unfoldable pub queue_empty : WaitQueue → Bool
queue_empty q = q.head == q.rear

-- The slot that the key went to, `none` for a null pointer.
unfoldable pub queue_add : WaitQueue → ℤ → Option ℕ × WaitQueue
queue_add q key =
    let nxt = (q.rear + 1) % xemqsz in
    if nxt != q.head
    then (some q.rear, record q { queue = update q.queue q.rear key; rear = nxt })
    else (none, q)

-- The key that `queue_head` points at.
unfoldable pub queue_head : WaitQueue → ℤ
queue_head q = q.queue q.head

unfoldable pub queue_remove : WaitQueue → WaitQueue
queue_remove q = record q { queue = update q.queue q.head unused; head = (q.head + 1) % xemqsz }

unfoldable pub xem_init : Xem
unfolding queue_init
xem_init = record { guard = 0; count = pos 1; q = queue_init }

-- How xem_wait leaves the guarded section: with the semaphore, bound for futex_wait on the slot that
-- holds its thread identifier, or with -1 because the ring is full.
pub data Entry : Type 0 where
  acquired : Entry
  waits : (slot : ℕ) → Entry
  refused : Entry

-- What follows queue_add.
abbrev pub enter : Xem → Option ℕ × WaitQueue → Entry × Xem
enter s (some slot, q') = (waits slot, record s { q = q'; guard = 0 })
enter s (none, q') = (refused, s)

-- From `test_and_set` winning the guard on. The refusal returns without giving the guard back.
unfoldable pub xem_wait : ℤ → Xem → Entry × Xem
xem_wait tid s =
    let held : Xem = record s { guard = 1; count = s.count -ℤ pos 1 } in
    if leb_ℤ (pos 0) held.count
    then (acquired, record held { guard = 0 })
    else enter held (queue_add held.q tid)

-- The thread that futex_wake is called for, if any, and the semaphore after xem_unlock.
unfoldable pub xem_unlock : Xem → Option ℤ × Xem
xem_unlock s =
    let up = s.count +ℤ pos 1 in
    if queue_empty s.q
    then (none, record s { count = up; guard = 0 })
    else (some (queue_head s.q), record s { count = up; guard = 0; q = queue_remove s.q })

-- `while(test_and_set(&sema->guard, 1) == 1)`, for the rounds that are left, without the sleeps.
unfoldable pub take_guard : ℕ → Xem → Option Xem
take_guard zero s = none
take_guard (suc n) s =
    let held : Xem = record s { guard = 1 } in
    let rest = take_guard n held in if s.guard == 1 then rest else some held

-- The two calls from their first line on; `none` where the guard is not taken in `n` rounds.
unfoldable pub xem_wait_call : ℕ → ℤ → Xem → Option (Entry × Xem)
xem_wait_call n tid s = elim (take_guard n s) [ none ↦ none | some held ↦ some (xem_wait tid held) ]

unfoldable pub xem_unlock_call : ℕ → Xem → Option (Option ℤ × Xem)
xem_unlock_call n s = elim (take_guard n s) [ none ↦ none | some held ↦ some (xem_unlock held) ]
