-- ===== src/Tests.antt =====
-- Runs of the definitions on small inputs, and the theorems at inputs that meet their hypotheses.
mod Links
mod Threads
mod Mlfq
mod Stride
mod Printf
mod Xem
mod Life
mod Log
mod Pipe
mod Disk
mod Fs
mod Dir
mod Inodes
mod Str
mod Grep
mod Bcache
mod Spin
mod Kalloc
