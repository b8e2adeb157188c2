-- ===== src/Locks/Spin.antt =====
-- acquire, release and holding of xv6-public/spinlock.c on several processors, a shared access at a
-- time. The pushcli and popcli around them are those of Locks.
use hyu_ele.Base.{ℕ, ◌≡◌, ◌≢◌, Option, some, none, update}

-- struct spinlock, without what it keeps for debugging alone.
pub record Spinlock : Type 0 where
  pub locked : ℕ
  pub cpu : Option ℕ

-- Where a processor stands. A processor calls release only between acquire and release.
pub data Pc : Type 0 where
  outside : Pc
  checking : Pc  -- in the holding of acquire, after `lock->locked`
  spinning : Pc  -- before the xchg
  taken : Pc  -- behind the loop
  inside : Pc
  looking : Pc  -- in the holding of release, after `lock->locked`
  clearing : Pc  -- before `lk->cpu = 0`
  unlocking : Pc  -- before the store of 0
  panicked : Pc

-- One step of processor `me`.
pub data Move (me : ℕ) (l : Spinlock) : Pc → Spinlock → Pc → Type 0 where
  see_free : l.locked ≡ 0 → Move me l outside l spinning
  see_locked : l.locked ≢ 0 → Move me l outside l checking
  not_mine : l.cpu ≢ some me → Move me l checking l spinning
  acquire_panic : l.cpu ≡ some me → Move me l checking l panicked
  xchg_fail : l.locked ≢ 0 → Move me l spinning (record l { locked = 1 }) spinning
  xchg_take : l.locked ≡ 0 → Move me l spinning (record l { locked = 1 }) taken
  set_cpu : Move me l taken (record l { cpu = some me }) inside
  still_locked : l.locked ≢ 0 → Move me l inside l looking
  free_panic : l.locked ≡ 0 → Move me l inside l panicked
  mine : l.cpu ≡ some me → Move me l looking l clearing
  release_panic : l.cpu ≢ some me → Move me l looking l panicked
  clear_cpu : Move me l clearing (record l { cpu = none }) unlocking
  unlock : Move me l unlocking (record l { locked = 0 }) outside

pub record System : Type 0 where
  pub lock : Spinlock
  pub at : ℕ → Pc

-- initlock, before any processor uses the lock.
abbrev pub start : System
start = record { lock = record { locked = 0; cpu = none }; at = λ a. outside }

abbrev pub after : System → ℕ → Spinlock → Pc → System
after s a l pc = record { lock = l; at = update s.at a pc }

-- Steps of the processors in any order.
pub data Runs (s : System) : System → Type 0 where
  stay : Runs s s
  step :
      {t : System} {l : Spinlock} {pc : Pc}
      → Runs s t
      → (a : ℕ) → Move a t.lock (t.at a) l pc
      → Runs s (after t a l pc)
