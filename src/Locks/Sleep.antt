-- ===== src/Locks/Sleep.antt =====
-- The locks that processes sleep on (xv6-public/sleeplock.c). The spin lock inside makes each operation
-- one step on the lock and the process table, up to the sleep.
use hyu_ele.Base.{ℕ, Bool, true, false, ◌&&◌, ◌==◌, if◌then◌else◌}
use hyu_ele.Base.Run.{pure, ◌>>=◌, ◌>>◌}
use hyu_ele.Ptable.{K, get_proc}
use hyu_ele.Sched.{sleep, wakeup}

-- struct sleeplock without its spin lock and its name.
pub record Sleeplock : Type 0 where
  pub locked : Bool
  pub pid : ℕ
  pub tid : ℕ

-- `tid` is set to 0 as well.
unfoldable pub initsleeplock : Sleeplock
initsleeplock = record { locked = false; pid = 0; tid = 0 }

-- How one round of acquiresleep ends: with the lock taken, or asleep, and sched chooses the thread
-- that goes on.
pub data Acquiring : Type 0 where
  takes : Sleeplock → Acquiring
  switches : ℕ → Acquiring

-- Thread `p` acquires the lock at address `lk`.
unfoldable pub acquiresleep : ℕ → ℕ → Sleeplock → K Acquiring
acquiresleep p lk s = do
  e ← get_proc p
  let doze = (do q ← sleep p lk; pure (switches q))
  let free = pure (takes (record { locked = true; pid = e.pid; tid = e.tid }))
  (if s.locked then doze else free)

unfoldable pub releasesleep : ℕ → Sleeplock → K Sleeplock
releasesleep lk s = do wakeup lk; pure (record s { locked = false; pid = 0 })

unfoldable pub holdingsleep : ℕ → Sleeplock → K Bool
holdingsleep p s = do e ← get_proc p; pure (s.locked && (s.pid == e.pid && s.tid == e.tid))
