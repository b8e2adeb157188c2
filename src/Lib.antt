-- ===== src/Lib.antt =====
-- Verification library of the scheduler, threads, semaphores, log, file content, pipes and pages
-- of an xv6 kernel (xv6-public/), which has an MLFQ and a stride scheduler, threads and user
-- semaphores.
--
-- Parts and files:
--   Base      Boolean tests, functions updated at an index, lists, integers over the native
--             naturals, and the monad `M S A = S → Run (A × S)` whose outcomes are a result, a panic,
--             and the end of the fuel.
--   Links     xv6-public/list.h. A node is an address; the memory gives each its prev and next.
--             `IsRing m h xs` says that the ring of head `h` holds the nodes `xs` in order.
--   Ptable    struct proc, struct mlfq, struct stride and struct ptable of xv6-public/proc.h and
--             xv6-public/scheduler.h. An entry is a number from 1 on, the null pointer is 0, and the
--             list nodes inside entry `p` have the addresses 8 * p to 8 * p + 7.
--   Threads   xv6-public/thread.c: main_thread, the walks over the threads of a process and their
--             routines. A C function pointer is an argument of the walk.
--   Mlfq      The MLFQ functions of xv6-public/proc.c: queues, pins, selection, boost.
--   Stride    The stride functions of xv6-public/proc.c: the heap of passes, set_cpu_share,
--             stridelogic.
--   Sched     sched, yield, sleep, wakeup, kill and the rounds of scheduler in xv6-public/proc.c, and
--             xv6-public/futex.c. Each function is cut where it gives up the CPU.
--   Life      pinit, allocproc, freeproc, wait and exit of xv6-public/proc.c, and thread_exit,
--             thread_join and monopolize_proc of xv6-public/thread.c, on the process table.
--   Xem       xv6-public/xem.c: the ring of waiting threads and the semaphore, whose guard is taken
--             in rounds of test_and_set. A thread that is to wait, and one to wake, are results.
--   Log       xv6-public/log.c: transactions, commit and recovery over a device of blocks, with the
--             trace of its writes.
--   Pipe      xv6-public/pipe.c: the ring of bytes with its two counters of 32 bits.
--   Kalloc    xv6-public/kalloc.c: the chain of free pages.
--   Locks     xv6-public/spinlock.c, pushcli and popcli on one processor and acquire and release on
--             several, a shared access at a time, and xv6-public/sleeplock.c on the process table.
--   Bcache    xv6-public/bio.c: the list of buffers on the memory disk of xv6-public/memide.c.
--             `Holds s xs n d` says that readers see the bytes d in block n.
--   Str       xv6-public/string.c. `text n p i` is the string in the n bytes from index i on.
--   Fs        xv6-public/fs.c: the free map and the block tree of an inode (balloc, bfree, bmap), on
--             the bytes of the blocks, and in Fs/File.antt the content of a file (iupdate, readi,
--             writei). Names are compared with Str. The buffer cache is taken as transparent, which
--             Bcache shows of it, a call of log_write is an event, and the
--             functions of devsw[] are an argument. `file_byte s q k` is byte k of file q.
--             Fs/Room.antt says how many blocks are free: `Few k s` is at most k of them.
--             Fs/Names.antt has skipelem with its buffer, Fs/Cache.antt iget and idup, and
--             Fs/Release.antt itrunc and iput, Fs/Dinode.antt ilock, ialloc and stati. Fs/Dir.antt
--             has dirlookup and dirlink:
--             `inum_at s dp k` and `name_at s dp k` are slot k of a directory.
--   Printf    printint of xv6-public/printf.c, whose fuel is the room in its buffer, and atoi of
--             xv6-public/ulib.c.
--   Grep      The matcher of regular expressions of xv6-public/grep.c.
--   Tests     Concrete states.
--
-- The schedulers keep their queues in the rings of Links; Mlfq and Stride call the walks of Threads
-- to go from one thread of a process to another, and Stride calls Mlfq when a process changes its
-- scheduler. Everything on the process table runs under ptable.lock, so that an operation is one
-- step on the table.
--
-- Numbers: `pass` and `tickets` are C ints and modelled as integers without bounds. Indices, levels
-- and counters are naturals; the counters of a pipe wrap around. Where C subtracts one from a
-- natural, the model stops at 0, and the functions that do so say why the case does not come up.
--
-- Loops run on fuel. The loop that takes the guard of a semaphore has as many rounds as the caller
-- says; one is enough where the guard is free. The walk of a chain or a group has NPROC rounds and
-- that of a queue as many as there can be threads; the loops of the heap have as many rounds as the
-- heap has entries. A heap loop halves or doubles its index, so that it ends before. balloc has a
-- round for each block of the free map, and readi and writei have one for each byte, of which a
-- round copies at least one. The loops over a directory have one for each of its slots, and two
-- more, and ialloc one for each inode of the disk.
--
-- Not modelled: the readers-writer lock of xem.c, fork and thread_create, what a process has of
-- memory and files, the walk along a path (namex), page tables, devices, traps and user programs
-- other than the matcher of grep and the parts of their library named above.
pub mod Base
pub mod Links
pub mod Ptable
pub mod Threads
pub mod Mlfq
pub mod Stride
pub mod Sched
pub mod Life
pub mod Xem
pub mod Log
pub mod Pipe
pub mod Kalloc
pub mod Locks
pub mod Bcache
pub mod Str
pub mod Fs
pub mod Grep
pub mod Printf
pub mod Tests
