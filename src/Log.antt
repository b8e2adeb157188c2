-- ===== src/Log.antt =====
-- log.c: the redo log of the file system. The contents of a block are only moved, so they are any
-- number. `view` is what bread returns: the buffer cache over the device. Every bwrite is also noted
-- in `trace`, so that a crash between any two writes can be spoken of. The header block has a type of
-- its own.
pub mod Replay
pub mod Copy
pub mod Recover
pub mod Atomic
pub mod Space
pub mod Reserve
use hyu_ele.Base.{
  ℕ, zero, suc, ◌+◌, ◌-◌, ◌*◌, Bool, true, false, ◌&&◌, ◌||◌, ◌==◌, ltb, leb, if◌then◌else◌, update,
  List, [], ◌∷◌, ◌++◌, Option, none, some,
}

-- param.h
abbrev pub maxopblocks : ℕ
maxopblocks = 10

abbrev pub logsize : ℕ
logsize = maxopblocks * 3

-- struct logheader
pub record LogHeader : Type 0 where
  pub n : ℕ
  pub block : ℕ → ℕ

-- The device: its blocks, and the header block of the log.
pub record Device : Type 0 where
  pub block : ℕ → ℕ
  pub header : LogHeader

-- One write that reaches the device.
pub data Write : Type 0 where
  put : (blockno : ℕ) (value : ℕ) → Write
  head : LogHeader → Write

-- struct log with the cache and the device behind it.
pub record Log : Type 0 where
  pub start : ℕ
  pub size : ℕ
  pub outstanding : ℕ
  pub committing : Bool
  pub lh : LogHeader
  pub view : ℕ → ℕ
  pub dev : Device
  pub trace : List Write

abbrev pub perform : Write → Device → Device
perform (put b v) d = record d { block = update d.block b v }
perform (head h) d = record d { header = h }

-- `memmove(to->data, from->data, BSIZE); bwrite(to);`
unfoldable pub copy_block : ℕ → ℕ → Log → Log
copy_block to from s =
    let v = s.view from in
    record s {
      view = update s.view to v;
      dev = perform (put to v) s.dev;
      trace = s.trace ++ put to v ∷ [];
    }

-- The loops of install_trans and write_log, from `tail` on for the rounds that are left.
unfoldable pub install_loop : ℕ → ℕ → Log → Log
install_loop zero tail s = s
install_loop (suc k) tail s =
    install_loop k (tail + 1) (copy_block (s.lh.block tail) (s.start + tail + 1) s)

unfoldable pub install_trans : Log → Log
install_trans s = install_loop s.lh.n 0 s

unfoldable pub write_log_loop : ℕ → ℕ → Log → Log
write_log_loop zero tail s = s
write_log_loop (suc k) tail s =
    write_log_loop k (tail + 1) (copy_block (s.start + tail + 1) (s.lh.block tail) s)

unfoldable pub write_log : Log → Log
write_log s = write_log_loop s.lh.n 0 s

-- The first `n` block numbers of a header over those of another.
abbrev pub copy_header : LogHeader → LogHeader → LogHeader
copy_header from to = record {
  n = from.n;
  block = λ i. if ltb i from.n then from.block i else to.block i;
}

unfoldable pub read_head : Log → Log
read_head s = record s { lh = copy_header s.dev.header s.lh }

unfoldable pub write_head : Log → Log
write_head s =
    let h = copy_header s.lh s.dev.header in
    record s { dev = perform (head h) s.dev; trace = s.trace ++ head h ∷ [] }

-- `log.lh.n = 0`
abbrev pub forget : Log → Log
forget s = record s { lh = record { n = 0; block = s.lh.block } }

unfoldable pub recover_from_log : Log → Log
recover_from_log s = write_head (forget (install_trans (read_head s)))

unfoldable pub commit : Log → Log
commit s =
    if ltb 0 s.lh.n then write_head (forget (install_trans (write_head (write_log s)))) else s

-- One round of begin_op's loop; false if it sleeps.
unfoldable pub begin_op : Log → Bool × Log
begin_op s =
    if s.committing || ltb logsize (s.lh.n + (s.outstanding + 1) * maxopblocks)
    then (false, s)
    else (true, record s { outstanding = s.outstanding + 1 })

-- end_op is called between a begin_op and its end, so that `outstanding` is not 0; `none` is the
-- panic. The commit runs while `committing` keeps every other begin_op out.
unfoldable pub end_op : Log → Option Log
end_op s =
    let last = (s.outstanding - 1) == 0 in
    let done = commit (record s { outstanding = s.outstanding - 1; committing = true }) in
    if s.committing
    then none
    else some (
        if last
        then record done { committing = false }
        else record s { outstanding = s.outstanding - 1 })

-- The index at which log_write puts the block number: the first that holds it already, or `n`.
unfoldable pub absorb_loop : ℕ → ℕ → ℕ → LogHeader → ℕ
absorb_loop zero i b h = i
absorb_loop (suc k) i b h =
    let rest = absorb_loop k (i + 1) b h in if h.block i == b then i else rest

-- `none` is one of the two panics.
unfoldable pub log_write : ℕ → Log → Option Log
log_write b s =
    let i = absorb_loop s.lh.n 0 b s.lh in
    let h : LogHeader = record {
      n = if i == s.lh.n then s.lh.n + 1 else s.lh.n;
      block = update s.lh.block i b;
    } in
    if leb logsize s.lh.n || leb (s.size - 1) s.lh.n || ltb s.outstanding 1
    then none
    else some (record s { lh = h })
