-- ===== src/Log/Reserve.antt =====
-- begin_op, log_write and end_op as steps of several running operations, in a log of LOGSIZE blocks as
-- mkfs.c makes it: one block is the header, and log_write also refuses the last block behind it.
use hyu_ele.Base.{
  ℕ, zero, suc, ◌+◌, ◌-◌, ◌*◌, ◌≤◌, ◌≡◌, refl, ◌∙◌, true, false, ◌==◌, ltb, if◌then◌else◌, some,
  List, [], ◌∷◌, ◌++◌, length, length-append, arith, ℕ_discrete, All, All-left, All-right,
  All-append, ◌⊎◌, inl, inr,
}
use hyu_ele.Log.{
  Log, LogHeader, maxopblocks, logsize, copy_block, install_loop, install_trans, write_log_loop,
  write_log, write_head, begin_op, end_op, log_write, commit,
}
use hyu_ele.Log.Space.{log_write-records}

-- The blocks that an operation may put into the log: of the MAXOPBLOCKS blocks that begin_op keeps free
-- for it, all but one.
abbrev pub allowance : ℕ
allowance = maxopblocks - 1

abbrev pub sum : List ℕ → ℕ
sum [] = 0
sum (x ∷ xs) = x + sum xs

sum-append : (xs ys : List ℕ) → sum (xs ++ ys) ≡ sum xs + sum ys
sum-append [] ys = omega arith
sum-append (x ∷ xs) ys = omega (arith, sum-append xs ys)

-- The fields that a commit leaves alone.
pub record SameBooks (s s' : Log) : Type 0 where
  pub size : s'.size ≡ s.size
  pub outstanding : s'.outstanding ≡ s.outstanding
  pub committing : s'.committing ≡ s.committing

install_loop-SameBooks : (k tail : ℕ) (s : Log) → SameBooks s (install_loop k tail s)
unfolding install_loop copy_block
install_loop-SameBooks zero tail s = record { size = refl; outstanding = refl; committing = refl }
install_loop-SameBooks (suc k) tail s =
    let r =
      install_loop-SameBooks k (tail + 1) (copy_block (s.lh.block tail) (s.start + tail + 1) s) in
    record { size = r.size; outstanding = r.outstanding; committing = r.committing }

write_log_loop-SameBooks : (k tail : ℕ) (s : Log) → SameBooks s (write_log_loop k tail s)
unfolding write_log_loop copy_block
write_log_loop-SameBooks zero tail s = record { size = refl; outstanding = refl; committing = refl }
write_log_loop-SameBooks (suc k) tail s =
    let r =
      write_log_loop-SameBooks k (tail + 1) (copy_block (s.start + tail + 1) (s.lh.block tail) s) in
    record { size = r.size; outstanding = r.outstanding; committing = r.committing }

-- A commit empties the log.
commit-empties : (s : Log) → SameBooks s (commit s) × ((commit s).lh.n ≡ 0)
unfolding commit write_head install_trans write_log
commit-empties s = elim (ℕ_discrete s.lh.n 0) [
  | yes z ↦
      let idle : ltb 0 s.lh.n ≡ false = ground arith in
      rw idle (record { size = refl; outstanding = refl; committing = refl }, z)
  | no nz ↦
      let busy : ltb 0 s.lh.n ≡ true = ground arith in
      let w = write_log_loop-SameBooks s.lh.n 0 s in
      let s2 = write_head (write_log s) in
      let i = install_loop-SameBooks s2.lh.n 0 s2 in
      rw busy (
        record {
          size = i.size ∙ w.size;
          outstanding = i.outstanding ∙ w.outstanding;
          committing = i.committing ∙ w.committing;
        },
        refl,
      )
]

-- The log with the operations that run: for each, how many blocks it may still put into the log. A call
-- of log_write that adds no block to the log, since it is there already, is free.
pub data Step : Log → List ℕ → Log → List ℕ → Type 0 where
  start : {s s' : Log} {rs : List ℕ} → begin_op s ≡ (true, s') → Step s rs s' (allowance ∷ rs)
  write :
      {s s' : Log} (xs ys : List ℕ) (r b : ℕ)
      → log_write b s ≡ some s'
      → Step s (xs ++ suc r ∷ ys) s' (xs ++ r ∷ ys)
  absorb :
      {s s' : Log} {rs : List ℕ} (b : ℕ)
      → log_write b s ≡ some s'
      → s'.lh.n ≡ s.lh.n
      → Step s rs s' rs
  finish :
      {s s' : Log} (xs ys : List ℕ) (r : ℕ)
      → end_op s ≡ some s'
      → Step s (xs ++ r ∷ ys) s' (xs ++ ys)

pub data Reach (s : Log) (rs : List ℕ) : Log → List ℕ → Type 0 where
  here : Reach s rs s rs
  next : {t u : Log} {ts us : List ℕ} → Reach s rs t ts → Step t ts u us → Reach s rs u us

pub record Reserved (s : Log) (rs : List ℕ) : Type 0 where
  pub counted : s.outstanding ≡ length rs
  pub fits : s.lh.n + sum rs + length rs ≤ logsize
  pub each : All (λ r. r ≤ allowance) rs
  pub idle : s.committing ≡ false
  pub area : logsize ≤ s.size

sum-le : (rs : List ℕ) → All (λ r. r ≤ allowance) rs → sum rs ≤ length rs * allowance
sum-le [] a = omega arith
sum-le (r ∷ rs) a = omega (arith, sum-le rs a.1, a.0)

start-Reserved :
    (s s' : Log) (rs : List ℕ)
    → begin_op s ≡ (true, s')
    → Reserved s rs
    → Reserved s' (allowance ∷ rs)
unfolding begin_op
start-Reserved s s' rs e v =
    ground (arith, v.counted, v.fits, v.idle, v.area, v.each, sum-le rs v.each)

log_write-grows :
    (b : ℕ) (s s' : Log) → log_write b s ≡ some s' → (s'.lh.n ≤ s.lh.n + 1) × SameBooks s s'
unfolding log_write
log_write-grows b s s' e = ground arith

write-Reserved :
    (s s' : Log) (xs ys : List ℕ) (r b : ℕ)
    → log_write b s ≡ some s'
    → Reserved s (xs ++ suc r ∷ ys)
    → Reserved s' (xs ++ r ∷ ys)
write-Reserved s s' xs ys r b e v =
    let (grown, same) = log_write-grows b s s' e in
    let P : ℕ → Type 0 = λ x. x ≤ allowance in
    let right = All-right P xs (suc r ∷ ys) v.each in
    record {
      counted = omega (
        arith,
        v.counted,
        same.outstanding,
        length-append xs (suc r ∷ ys),
        length-append xs (r ∷ ys),
      );
      fits = omega (
        arith,
        v.fits,
        grown,
        sum-append xs (suc r ∷ ys),
        sum-append xs (r ∷ ys),
        length-append xs (suc r ∷ ys),
        length-append xs (r ∷ ys),
      );
      each =
          All-append P xs (r ∷ ys) (All-left P xs (suc r ∷ ys) v.each)
            (omega (arith, right.0), right.1);
      idle = same.committing ∙ v.idle;
      area = rw same.size v.area;
    }

absorb-Reserved :
    (s s' : Log) (rs : List ℕ) (b : ℕ)
    → log_write b s ≡ some s'
    → s'.lh.n ≡ s.lh.n
    → Reserved s rs
    → Reserved s' rs
absorb-Reserved s s' rs b e n v =
    let (grown, same) = log_write-grows b s s' e in
    record {
      counted = same.outstanding ∙ v.counted;
      fits = omega (arith, v.fits, n);
      each = v.each;
      idle = same.committing ∙ v.idle;
      area = rw same.size v.area;
    }

end_op-cases :
    (s s' : Log)
    → end_op s ≡ some s'
    → (s'.outstanding ≡ s.outstanding - 1)
      × (s'.size ≡ s.size)
      × (s'.committing ≡ s.committing)
      × (s'.lh.n ≤ s.lh.n)
      × (s.outstanding ≤ 1 → s'.lh.n ≡ 0)
unfolding end_op
end_op-cases s s' e =
    let held : Log = record s { outstanding = s.outstanding - 1; committing = true } in
    let (same, empty) = commit-empties held in ground (arith, same.outstanding, same.size, empty)

finish-Reserved :
    (s s' : Log) (xs ys : List ℕ) (r : ℕ)
    → end_op s ≡ some s'
    → Reserved s (xs ++ r ∷ ys)
    → Reserved s' (xs ++ ys)
finish-Reserved s s' xs ys r e v =
    let (out, size, idle, less, last) = end_op-cases s s' e in
    let P : ℕ → Type 0 = λ x. x ≤ allowance in
    record {
      counted = omega (arith, out, v.counted, length-append xs (r ∷ ys), length-append xs ys);
      fits = omega (
        arith,
        v.fits,
        less,
        sum-append xs (r ∷ ys),
        sum-append xs ys,
        length-append xs (r ∷ ys),
        length-append xs ys,
      );
      each = All-append P xs ys (All-left P xs (r ∷ ys) v.each) (All-right P xs (r ∷ ys) v.each).1;
      idle = idle ∙ v.idle;
      area = rw size v.area;
    }

Step-Reserved : {s s' : Log} {rs rs' : List ℕ} → Step s rs s' rs' → Reserved s rs → Reserved s' rs'
Step-Reserved (start {s} {s'} {rs} e) v = start-Reserved s s' rs e v
Step-Reserved (write {s} {s'} xs ys r b e) v = write-Reserved s s' xs ys r b e v
Step-Reserved (absorb {s} {s'} {rs} b e n) v = absorb-Reserved s s' rs b e n v
Step-Reserved (finish {s} {s'} xs ys r e) v = finish-Reserved s s' xs ys r e v

Reach-Reserved :
    {s : Log} {rs : List ℕ} {s' : Log} {rs' : List ℕ}
    → Reach s rs s' rs'
    → Reserved s rs
    → Reserved s' rs'
Reach-Reserved here v = v
Reach-Reserved (next r st) v = Step-Reserved st (Reach-Reserved r v)

end_op-ends : (s : Log) → s.committing ≡ false → (t : Log) × (end_op s ≡ some t)
unfolding end_op
end_op-ends s h =
    let fewer : Log = record s { outstanding = s.outstanding - 1 } in
    let done = commit (record fewer { committing = true }) in
    ((if fewer.outstanding == 0 then record done { committing = false } else fewer), rw h)

-- In a log of at least LOGSIZE blocks, whatever operations began, logged and ended before, each of them
-- putting at most MAXOPBLOCKS - 1 blocks into the log: a running operation either has put that many
-- or can log any block without a panic, and it can end without a panic.
pub log_write-never-panics :
    {s s' : Log} {rs rs' : List ℕ} (xs ys : List ℕ) (r b : ℕ)
    → Reserved s rs
    → Reach s rs s' rs'
    → rs' ≡ xs ++ r ∷ ys
    → ((r ≡ 0) ⊎ ((h : LogHeader) × (log_write b s' ≡ some (record s' { lh = h }))))
      × ((t : Log) × (end_op s' ≡ some t))
log_write-never-panics {s'} xs ys zero b v way e =
    (inl refl, end_op-ends s' (Reach-Reserved way v).idle)
log_write-never-panics {s'} xs ys (suc r) b v way e =
    let w = Reach-Reserved way v in
    let lens = length-append xs (suc r ∷ ys) in
    let sums = sum-append xs (suc r ∷ ys) in
    let fits : s'.lh.n + sum (xs ++ suc r ∷ ys) + length (xs ++ suc r ∷ ys) ≤ logsize =
      rw e at w.fits in
    let counted : s'.outstanding ≡ length (xs ++ suc r ∷ ys) = rw e at w.counted in
    let got =
      log_write-records b s' (omega (arith, fits, sums, lens))
        (omega (arith, fits, sums, lens, w.area)) (omega (arith, counted, lens)) in
    (inr (got.0, got.1), end_op-ends s' w.idle)
