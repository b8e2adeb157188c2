-- ===== src/Pipe.antt =====
-- Pipes (xv6-public/pipe.c): a ring of PIPESIZE bytes with two counters of 32 bits that only grow, so
-- that they wrap around. Operations run under p->lock, up to their return or to the sleep.
pub mod Window
pub mod Fifo
use hyu_ele.Base.{
  ℕ, zero, suc, ◌+◌, ◌%◌, Bool, true, false, not, ◌&&◌, ◌||◌, ◌==◌, if◌then◌else◌, update, List, [],
  ◌∷◌, ◌++◌, length,
}
use hyu_ele.Base.Int.{ℤ, pos, negsuc}

abbrev pub pipesize : ℕ
pipesize = 512

-- The range of a uint.
abbrev pub uint_range : ℕ
uint_range = 4294967296

-- The two channels on which processes wait for a pipe: `&p->nread` and `&p->nwrite`.
pub data Channel : Type 0 where
  readers writers : Channel

-- struct pipe, and the calls of wakeup so far.
pub record Pipe : Type 0 where
  pub data_at : ℕ → ℕ
  pub nread : ℕ
  pub nwrite : ℕ
  pub readopen : Bool
  pub writeopen : Bool
  pub wakeups : List Channel

-- How far a call gets: it returns a value, or it sleeps and goes on with the bytes that are left.
pub data Progress : Type 0 where
  returns : ℤ → Progress
  sleeps : (left : List ℕ) → Progress

abbrev pub wakeup : Channel → Pipe → Pipe
wakeup c p = record p { wakeups = p.wakeups ++ c ∷ [] }

-- The pipe that pipealloc sets up.
unfoldable pub new_pipe : (ℕ → ℕ) → Pipe
new_pipe garbage = record {
  data_at = garbage;
  nread = 0;
  nwrite = 0;
  readopen = true;
  writeopen = true;
  wakeups = [];
}

-- The result says whether the page of the pipe is freed.
unfoldable pub pipeclose : Bool → Pipe → Bool × Pipe
pipeclose writable p =
    let q =
      if writable
      then wakeup readers (record p { writeopen = false })
      else wakeup writers (record p { readopen = false }) in
    (not q.readopen && not q.writeopen, q)

-- `p->data[p->nwrite++ % PIPESIZE] = c`
unfoldable pub put_byte : ℕ → Pipe → Pipe
put_byte c p = record p {
  data_at = update p.data_at (p.nwrite % pipesize) c;
  nwrite = (p.nwrite + 1) % uint_range;
}

-- The for loop over the bytes that are left. A call that was woken goes on at the test of `full`.
-- `n` is what the call returns.
unfoldable pub write_loop : Bool → ℕ → List ℕ → Pipe → Progress × Pipe
write_loop killed n [] p = (returns (pos n), wakeup readers p)
write_loop killed n (c ∷ cs) p =
    let rest = write_loop killed n cs (put_byte c p) in
    let full = p.nwrite == (p.nread + pipesize) % uint_range in
    let stop =
      if not p.readopen || killed
      then (returns (negsuc 0), p)
      else (sleeps (c ∷ cs), wakeup readers p) in
    if full then stop else rest

unfoldable pub pipewrite : Bool → List ℕ → Pipe → Progress × Pipe
pipewrite killed bytes p = write_loop killed (length bytes) bytes p

-- The copy loop of piperead: the bytes that it stores at `addr`.
unfoldable pub read_loop : ℕ → Pipe → List ℕ × Pipe
read_loop zero p = ([], p)
read_loop (suc k) p =
    let (cs, q) = read_loop k (record p { nread = (p.nread + 1) % uint_range }) in
    if p.nread == p.nwrite then ([], p) else (p.data_at (p.nread % pipesize) ∷ cs, q)

-- What the call returns or waits for, the bytes, and the pipe. A call that was woken starts again.
unfoldable pub piperead : Bool → ℕ → Pipe → Progress × List ℕ × Pipe
piperead killed n p =
    let (cs, q) = read_loop n p in
    let wait = if killed then (returns (negsuc 0), [], p) else (sleeps [], [], p) in
    if p.nread == p.nwrite && p.writeopen
    then wait
    else (returns (pos (length cs)), cs, wakeup writers q)
