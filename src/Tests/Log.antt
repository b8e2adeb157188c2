-- ===== src/Tests/Log.antt =====
-- A transaction of one block, and a log with one running operation.
use hyu_ele.Base.{ℕ, ◌≡◌, ◌⊎◌, refl, List, [], ◌∷◌, arith, false, some}
use hyu_ele.Log.{
  Log, LogHeader, Write, put, head, begin_op, end_op, log_write, commit, copy_header, copy_block,
  install_loop, install_trans, write_log_loop, write_log, write_head,
}
use hyu_ele.Log.Replay.{replay}
use hyu_ele.Log.Recover.{recovered, AllOld, AllNew}
use hyu_ele.Log.Atomic.{commit-atomic}
use hyu_ele.Log.Reserve.{Reserved, Reach, here, next, start, log_write-never-panics}

abbrev empty_head : LogHeader
empty_head = record { n = 0; block = λ _. 0 }

-- Block 50 is to become 7.
abbrev busy : Log
busy = record {
  start = 2;
  size = 30;
  outstanding = 1;
  committing = false;
  lh = record { n = 1; block = λ _. 50 };
  view = λ _. 7;
  dev = record { block = λ _. 3; header = empty_head };
  trace = [];
}

abbrev cut : List Write
cut = put 3 7 ∷ head (copy_header busy.lh empty_head) ∷ []

commit-atomic_example :
    AllOld busy (recovered busy (replay cut busy.dev)).block
    ⊎ AllNew busy (recovered busy (replay cut busy.dev)).block
unfolding commit write_log write_log_loop install_trans install_loop write_head copy_block
commit-atomic_example =
    commit-atomic busy cut
      (put 50 7
        ∷ head (copy_header (record { n = 0; block = λ _. 50 }) (copy_header busy.lh empty_head))
        ∷ [])
      (omega arith) refl refl

abbrev quiet : Log
quiet = record busy { outstanding = 0; lh = empty_head }

quiet-Reserved : Reserved quiet []
quiet-Reserved = record {
  counted = refl;
  fits = omega arith;
  each = tt;
  idle = refl;
  area = omega arith;
}

quiet-Reach : Reach quiet [] (record quiet { outstanding = 1 }) (9 ∷ [])
unfolding begin_op
quiet-Reach = next here (start refl)

log_write-never-panics_example :
    ((◌≡◌ {A = ℕ} 9 0)
      ⊎ ((h : LogHeader) × (log_write 60 (record quiet { outstanding = 1 })
            ≡ some (record quiet { outstanding = 1; lh = h }))))
    × ((t : Log) × (end_op (record quiet { outstanding = 1 }) ≡ some t))
log_write-never-panics_example = log_write-never-panics [] [] 9 60 quiet-Reserved quiet-Reach refl
