-- ===== src/Kalloc.antt =====
-- The page allocator (xv6-public/kalloc.c): a chain of free pages, each with the address of the next
-- in its first word. `last` is the linker's symbol `end`. The lock makes each call one step.
pub mod Chain
use hyu_ele.Base.{ℕ, ◌+◌, ◌-◌, ◌%◌, ◌||◌, ◌!=◌, ltb, leb, if◌then◌else◌, update}
use hyu_ele.Base.Run.{M, pure, fail, modify, gets, when, ◌>>=◌, ◌>>◌}

abbrev pub pgsize : ℕ
pgsize = 4096

abbrev pub kernbase : ℕ
kernbase = 0x80000000

abbrev pub phystop : ℕ
phystop = 0xE000000

-- V2P, on 32 bits.
abbrev pub v2p : ℕ → ℕ
v2p a = (a + 4294967296 - kernbase) % 4294967296

pub record Kmem : Type 0 where
  pub freelist : ℕ
  pub next : ℕ → ℕ

-- The fill with junk leaves no trace in the first word, which is written after it.
unfoldable pub kfree : ℕ → ℕ → M Kmem (Unit {0})
kfree last v = do
  when (v % pgsize != 0 || ltb v last || leb phystop (v2p v)) fail
  r ← gets (λ k. k.freelist)
  modify (λ k. record k { next = update k.next v r; freelist = v })

unfoldable pub kalloc : M Kmem ℕ
kalloc = do
  r ← gets (λ k. k.freelist)
  when (r != 0) (modify (λ k. record k { freelist = k.next r }))
  pure r
