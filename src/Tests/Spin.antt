-- ===== src/Tests/Spin.antt =====
-- Processor 1 owns the lock and processor 2 spins.
use hyu_ele.Base.{ℕ, ◌≡◌, ◌≢◌, refl, true}
use hyu_ele.Locks.Spin.{
  spinning, taken, panicked, see_free, xchg_take, System, start, after, Runs, stay, step,
}
use hyu_ele.Locks.Exclusion.{owns, runs-exclude}
use hyu_ele.Locks.Progress.{runs-progress}

abbrev both_spin : System
both_spin = after (after start 1 start.lock spinning) 2 start.lock spinning

abbrev contended : System
contended = after both_spin 1 (record start.lock { locked = 1 }) taken

contended-Runs : Runs start contended
contended-Runs = step (step (step stay 1 (see_free refl)) 2 (see_free refl)) 1 (xchg_take refl)

runs-exclude_example :
    ((a b : ℕ) → owns (contended.at a) ≡ true → owns (contended.at b) ≡ true → a ≡ b)
    × ((a : ℕ) → owns (contended.at a) ≡ true → contended.lock.locked ≢ 0)
    × ((a : ℕ) → contended.at a ≢ panicked)
runs-exclude_example = runs-exclude contended contended-Runs

runs-progress_example : (s' : System) × Runs contended s' × (s'.at 2 ≡ taken)
runs-progress_example = runs-progress contended contended-Runs 2 refl
