-- ===== src/Ptable.antt =====
-- proc.h and scheduler.h: the process table. A `struct proc *` is a number, 1 to NPROC for the
-- entries of `ptable.proc` and 0 for the null pointer; a list_head inside an entry, and the heads of
-- the kernel's queues, are nodes of one store of links (list.h). What is modelled of an entry is what
-- the scheduler and the thread code read: page tables, stacks, files and names are left out.
use hyu_ele.Base.{ℕ, ◌+◌, ◌*◌, ◌/◌, Bool, true, false, ◌==◌, if◌then◌else◌, update}
use hyu_ele.Base.Int.{ℤ, pos}
use hyu_ele.Base.Run.{M, modify, gets}
use hyu_ele.Links.{Links}

-- param.h and scheduler.h
abbrev pub nproc_max : ℕ
nproc_max = 256

abbrev pub qsize : ℕ
qsize = 3

abbrev pub boost_interval : ℕ
boost_interval = 200

abbrev pub reserve : ℤ
reserve = pos 20

abbrev pub dtq : ℕ
dtq = 5

-- TQ(l) and TA(l)
abbrev pub tq : ℕ → ℕ
tq l = if l == 0 then 5 else 10 * l

abbrev pub ta : ℕ → ℕ
ta l = 4 * tq l

abbrev pub largenum : ℕ
largenum = 1000

abbrev pub maxint : ℤ
maxint = pos 0x7fffffff

abbrev pub barrier : ℤ
barrier = pos 0x6fffffff

pub data ProcState : Type 0 where
  unused embryo sleeping runnable running zombie : ProcState

pub data SchedType : Type 0 where
  mlfq stride : SchedType

abbrev pub is_runnable : ProcState → Bool
is_runnable runnable = true
is_runnable _ = false

abbrev pub is_running : ProcState → Bool
is_running running = true
is_running _ = false

abbrev pub is_sleeping : ProcState → Bool
is_sleeping sleeping = true
is_sleeping _ = false

abbrev pub is_zombie : ProcState → Bool
is_zombie zombie = true
is_zombie _ = false

abbrev pub is_mlfq : SchedType → Bool
is_mlfq mlfq = true
is_mlfq stride = false

-- struct proc. `ticks` is a uint.
pub record Proc : Type 0 where
  pub state : ProcState
  pub pid : ℕ
  pub parent : ℕ
  pub chan : ℕ
  pub killed : ℕ
  pub type : SchedType
  pub tickets : ℤ
  pub pass : ℤ
  pub ticks : ℕ
  pub privlevel : ℕ
  pub tid : ℕ
  pub thmain : ℕ
  pub retval : ℕ

-- struct ptable, with struct mlfq and struct stride; `nproc` and `nextpid` are globals of proc.c.
pub record Ptable : Type 0 where
  pub proc : ℕ → Proc
  pub links : Links
  pub mlfq_tickets : ℤ
  pub mlfq_pass : ℤ
  pub mlfq_ticks : ℕ
  pub pin : ℕ → ℕ
  pub size : ℕ
  pub minheap : ℕ → ℕ
  pub nproc : ℤ
  pub nextpid : ℕ

-- The nodes inside entry `p`, and `list_entry`, which finds the entry of a node.
abbrev pub children_node : ℕ → ℕ
children_node p = p * 8

abbrev pub sibling_node : ℕ → ℕ
sibling_node p = p * 8 + 1

abbrev pub sleep_node : ℕ → ℕ
sleep_node p = p * 8 + 2

abbrev pub mlfq_node : ℕ → ℕ
mlfq_node p = p * 8 + 3

abbrev pub free_node : ℕ → ℕ
free_node p = p * 8 + 4

abbrev pub run_node : ℕ → ℕ
run_node p = p * 8 + 5

abbrev pub thgroup_node : ℕ → ℕ
thgroup_node p = p * 8 + 6

abbrev pub list_entry : ℕ → ℕ
list_entry a = a / 8

-- The heads: `&ptable.mlfq.queue[l]`, `&ptable.stride.run`, `&ptable.sleep`, `&ptable.free`.
abbrev pub queue_head : ℕ → ℕ
queue_head l = 4096 + l

abbrev pub run_head : ℕ
run_head = 4104

abbrev pub sleep_head : ℕ
sleep_head = 4112

abbrev pub free_head : ℕ
free_head = 4120

abbrev pub K : Type 0 → Type 0
K = M Ptable

-- `p->f = v` for a change `f` of the entry, and a statement of list.h.
abbrev pub set_proc : ℕ → (Proc → Proc) → K (Unit {0})
set_proc p f = modify (λ t. record t { proc = update t.proc p (f (t.proc p)) })

abbrev pub on_links : (Links → Links) → K (Unit {0})
on_links f = modify (λ t. record t { links = f t.links })

abbrev pub get_proc : ℕ → K Proc
get_proc p = gets (λ t. t.proc p)

abbrev pub next_of : ℕ → K ℕ
next_of a = gets (λ t. t.links.next a)
