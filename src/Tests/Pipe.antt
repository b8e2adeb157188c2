-- ===== src/Tests/Pipe.antt =====
-- A pipe whose write counter has wrapped around, with two bytes in it, and an empty one.
use hyu_ele.Base.{◌≡◌, refl, true, false, [], ◌∷◌, arith, if◌then◌else◌, ◌==◌}
use hyu_ele.Base.Int.{pos}
use hyu_ele.Pipe.{Pipe, returns, pipewrite, piperead}
use hyu_ele.Pipe.Window.{window, pending}
use hyu_ele.Pipe.Fifo.{piperead-pipewrite}

abbrev wrapped : Pipe
wrapped = record {
  data_at = λ i. if i == 511 then 65 else 66;
  nread = 4294967295;
  nwrite = 1;
  readopen = true;
  writeopen = true;
  wakeups = [];
}

wrapped-pending : pending wrapped ≡ 65 ∷ 66 ∷ []
unfolding window
wrapped-pending = refl

abbrev idle : Pipe
idle = record wrapped { nwrite = 4294967295 }

idle-pending : pending idle ≡ []
unfolding window
idle-pending = refl

piperead-pipewrite_example :
    (p' p'' : Pipe) × (pipewrite false (67 ∷ 68 ∷ []) idle ≡ (returns (pos 2), p'))
    × (piperead false 9 p' ≡ (returns (pos 2), 67 ∷ 68 ∷ [], p''))
    × (pending p'' ≡ [])
piperead-pipewrite_example =
    piperead-pipewrite 67 (68 ∷ []) 9 idle (omega arith) idle-pending (omega arith) (omega arith)
