-- ===== src/Locks.antt =====
-- The interrupt nesting of a CPU: pushcli and popcli of xv6-public/spinlock.c.
pub mod Nesting
pub mod Sleep
pub mod Spin
pub mod Exclusion
pub mod Progress
use hyu_ele.Base.{ℕ, ◌+◌, ◌-◌, Bool, true, false, ◌&&◌, ◌==◌, if◌then◌else◌}
use hyu_ele.Base.Run.{M, pure, fail, modify, gets, when, ◌>>=◌, ◌>>◌}

-- The interrupt flag of the processor, and the fields of struct cpu that the nesting uses.
pub record Cpu : Type 0 where
  pub interrupts : Bool
  pub ncli : ℕ
  pub intena : Bool

unfoldable pub pushcli : M Cpu (Unit {0})
pushcli = do
  flags ← gets (λ c. c.interrupts)
  modify (λ c. record c { interrupts = false })
  n ← gets (λ c. c.ncli)
  when (n == 0) (modify (λ c. record c { intena = flags }))
  modify (λ c. record c { ncli = c.ncli + 1 })

-- With `ncli` at 0 the decrement gives -1 and the panic.
unfoldable pub popcli : M Cpu (Unit {0})
popcli = do
  flags ← gets (λ c. c.interrupts)
  when flags fail
  n ← gets (λ c. c.ncli)
  when (n == 0) fail
  modify (λ c. record c { ncli = n - 1 })
  on ← gets (λ c. c.intena)
  when ((n - 1) == 0 && on) (modify (λ c. record c { interrupts = true }))
