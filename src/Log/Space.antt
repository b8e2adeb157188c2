-- ===== src/Log/Space.antt =====
-- The room in the log: what begin_op reserves, and what log_write does with it.
use hyu_ele.Base.{
  ℕ, zero, suc, ◌+◌, ◌-◌, ◌*◌, ◌<◌, ◌≤◌, ◌≡◌, ◌≢◌, ◌==◌, if◌then◌else◌, update, some, inl, inr,
  arith, ==_iff, ℕ_discrete, Bool-cases,
}
use hyu_ele.Log.{Log, LogHeader, maxopblocks, logsize, absorb_loop, log_write}

-- Whether `b` is among the first `n` blocks of a header.
abbrev pub Has : LogHeader → ℕ → Type 0
Has h b = (i : ℕ) × (i < h.n) × (h.block i ≡ b)

abbrev pub Lacks : LogHeader → ℕ → Type 0
Lacks h b = (i : ℕ) → i < h.n → h.block i ≢ b

-- Every running operation may still log its maximum number of blocks.
abbrev pub HasRoom : Log → Type 0
HasRoom s = s.lh.n + s.outstanding * maxopblocks ≤ logsize

-- The search of log_write stops at the first place that holds the block, or at the end.
absorb_loop-finds :
    (k i b : ℕ) (h : LogHeader)
    → (i ≤ absorb_loop k i b h)
      × (absorb_loop k i b h ≤ i + k)
      × (absorb_loop k i b h < i + k → h.block (absorb_loop k i b h) ≡ b)
      × ((j : ℕ) → i ≤ j → j < absorb_loop k i b h → h.block j ≢ b)
unfolding absorb_loop
absorb_loop-finds zero i b h =
    (omega arith, omega arith, (λ l. absurd (omega arith)), λ j l m. absurd (omega arith))
absorb_loop-finds (suc k) i b h = elim (Bool-cases (h.block i == b)) [
  | inl e ↦ rw e (omega arith, omega arith, (λ l. (==_iff _ _).0 e), λ j l m. absurd (omega arith))
  | inr e ↦
      let (lo, hi, found, missed) = absorb_loop-finds k (i + 1) b h in
      rw e (
        omega arith,
        omega arith,
        (λ l. found (omega arith)),
        λ j l m. elim (ℕ_discrete j i) [
          | yes q ↦ rw q (λ p. ground arith)
          | no q ↦ missed j (omega arith) m
        ],
      )
]

-- log_write inside a transaction with room in the log succeeds and changes the header alone. A block
-- that the header has already is absorbed; a new one is put behind the others. The blocks that were
-- there stay.
pub log_write-records :
    (b : ℕ) (s : Log)
    → s.lh.n < logsize
    → s.lh.n < s.size - 1
    → 0 < s.outstanding
    → (h : LogHeader) × (log_write b s ≡ some (record s { lh = h }))
      × Has h b
      × ((j : ℕ) → j < s.lh.n → h.block j ≡ s.lh.block j)
      × (Has s.lh b → h.n ≡ s.lh.n)
      × (Lacks s.lh b → h.n ≡ s.lh.n + 1)
unfolding log_write
log_write-records b s l1 l2 l3 =
    let i = absorb_loop s.lh.n 0 b s.lh in
    let (lo, hi, found, missed) = absorb_loop-finds s.lh.n 0 b s.lh in
    (
      record { n = if i == s.lh.n then s.lh.n + 1 else s.lh.n; block = update s.lh.block i b },
      ground arith,
      (i, ground arith, ground arith),
      (λ j lt. ground (arith, found)),
      (λ has. ground (arith, missed has.0)),
      λ lacks. ground (arith, found, lacks i),
    )
