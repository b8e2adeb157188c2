-- ===== src/Tests/Life.antt =====
-- A table whose free list holds the entries 5 and 6.
use hyu_ele.Base.{◌+◌, ◌≡◌, refl, true, false, [], ◌∷◌, arith}
use hyu_ele.Base.Int.{pos}
use hyu_ele.Base.Run.{ok}
use hyu_ele.Links.{Links, list_head_init, list_add_tail, list_add_between}
use hyu_ele.Ptable.{Ptable, Proc, zombie, mlfq, unused, embryo}
use hyu_ele.Life.{allocproc}
use hyu_ele.Life.Alloc.{FreeList, allocproc-FreeList}

abbrev dead : Proc
dead = record {
  state = zombie;
  pid = 9;
  parent = 1;
  chan = 0;
  killed = 1;
  type = mlfq;
  tickets = pos 0;
  pass = pos 0;
  ticks = 4;
  privlevel = 1;
  tid = 0;
  thmain = 1;
  retval = 0;
}

abbrev links : Links
links =
    list_add_tail 52 4120
      (list_add_tail 44 4120 (list_head_init 4120 (record { prev = λ _. 0; next = λ _. 0 })))

abbrev table : Ptable
table = record {
  proc = λ _. dead;
  links = links;
  mlfq_tickets = pos 100;
  mlfq_pass = pos 0;
  mlfq_ticks = 0;
  pin = λ l. 4096 + l;
  size = 0;
  minheap = λ _. 0;
  nproc = pos 2;
  nextpid = 10;
}

table-FreeList : FreeList table (5 ∷ 6 ∷ [])
unfolding list_add_tail list_add_between list_head_init
table-FreeList = record {
  ring = record { linked = omega arith; distinct = omega arith };
  counted = refl;
}

allocproc-FreeList_example :
    ((t' : Ptable) × (allocproc true table ≡ ok (5, t'))
      × FreeList t' (6 ∷ [])
      × ((t'.proc 5).state ≡ embryo))
    × ((t' : Ptable) × (allocproc false table ≡ ok (0, t'))
        × FreeList t' (5 ∷ 6 ∷ [])
        × ((t'.proc 5).state ≡ unused))
allocproc-FreeList_example = allocproc-FreeList 5 (6 ∷ []) table table-FreeList (omega arith)
