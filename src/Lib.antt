-- ===== src/Lib.antt =====
-- A model of the xv6 kernel of TDT4186 - OS/Labs/Lab3, with the theorems that make its parts correct.
--
-- The parts, from the bottom up, and the files that model them (paths are those below that folder;
-- each file names the code that it is about in full):
--   * Str: the string functions (kernel/string.c), on a byte memory that is a function.
--   * Alloc: physical pages with reference counts (kernel/kalloc.c). Alloc.Inv has the invariant of
--     the free list, Alloc.Boot the loop of kinit, Alloc.Refs the counts.
--   * Lock: spinlocks and the nesting of push_off (kernel/spinlock.c), as CPUs that take one lock,
--     one access of memory a step; Lock.Sleep: sleep locks (kernel/sleeplock.c).
--   * Pipe: pipes (kernel/pipe.c); Console: the line editor (kernel/console.c); Uart: the transmit
--     buffer (kernel/uart.c). Base.Ring has what their rings share: counters that wrap.
--   * Bio: the buffer cache (kernel/bio.c), whose buffers are held by sleep locks.
--   * Log: the redo log (kernel/log.c). Every write of the disk is recorded in order, so that a crash
--     is a prefix of the writes; Log.Space has the reservations of begin_op.
--   * Proc: the process table (kernel/proc.c). Proc.Life has fork, exit and wait, over an interface
--     `Services` of what they call of the allocator, the page tables and the file system;
--     Proc.Wakeup has sleep and wakeup on two CPUs, line by line; Proc.Reach has sequences of calls.
--   * Syscall: arguments and dispatch of system calls (kernel/syscall.c, kernel/sysproc.c).
--   * File: the table of open files and the loop of filewrite on an inode (kernel/file.c).
--   * Vm: page tables and the memory of processes (kernel/vm.c, kernel/riscv.h), over Alloc. Vm has
--     walk, mappages and uvmunmap, Vm.User the functions on a process's memory, Vm.Transfer the copies
--     between it and the kernel. Vm.Tree says which pages are tables, and for what; Vm.View makes of
--     the tables of a root a map from pages to entries, and Vm.Mapped, Vm.Unmap, Vm.Fork say what the
--     operations do to these maps; Vm.Addr and Vm.Translate carry this to walkaddr.
--   * Trap: the copy-on-write fault and devintr (kernel/trap.c), over Vm.
--   * Fs: the block bitmap, the blocks of a file and the names in a path (kernel/fs.c).
--   * Descriptors: dup, close and pipe (kernel/sysfile.c), over File.
--   * Printf: the kernel's printf (kernel/printf.c).
--   * Ulib: the library of the user programs (user/ulib.c).
--   * Grep: the pattern matcher (user/grep.c).
--   * Base: the names that all share: tests, lists, results, maps, integers and rings.
--
-- Names are those of the C code; a function of the code that is split has its parts beside it. State is
-- a record that a step takes and returns. A panic is a value of Base.Outcome. A function that may
-- sleep is modelled up to the sleep, and says that it sleeps; the caller goes round its loop again.
-- What a device, a user's memory or another CPU answers is an argument. Where a lock is held through a
-- function, it is one step; in Alloc, where kalloc counts FREE_PAGES outside its locks, calls do not overlap; where the order of accesses matters (Lock, Proc.Wakeup, the writes of
-- Log) each access is a step of its own.
--
-- Numbers: a w-bit counter has its wrap written out. Addresses and sizes are natural numbers; a pid is
-- the bits of an int, which wraps, and the theorem on pids says up to where. Loops
-- that the types do not bound run on fuel: kinit has one round for each of the 32768 pages of
-- physical memory and one to see the end; Control-U has one for each byte of the input buffer and one
-- more, and the buffer holds the whole line; filewrite has one for each byte, and each of its rounds writes one at least;
-- strlen takes its fuel as an argument, since a memory without a NUL has no end; mappages, uvmcopy and balloc have a round for each page or group of blocks, and
-- one or two more; copyin and copyout have one for each byte and one more; freewalk goes down three levels.
--
-- In Vm the words of the pages that are tables are kept apart from the bytes of all other memory, so that a
-- page is used as one or the other; the invariant IsForest says that no free page is a table. A
-- flag below 2^10 is joined to an address by a sum, since the low bits of the address are 0. The TLB is
-- not modelled. In Fs the buffer cache is what its callers see of it, one content for each block; only
-- bmap holds a buffer through a call that reads others. The ints of balloc do not overflow on a disk of
-- at most 2^31 - BPB blocks, and Fs has no panic of bread or log_write, which Bio and Log have.
--
-- Not modelled: the kernel's own page table and the rest of the trap handlers (kernel/vm.c, kernel/trap.c),
-- inodes, directories and the calls on them (kernel/fs.c, kernel/sysfile.c), exec (kernel/exec.c), the disk
-- driver, boot code, the assembly, mkfs, malloc and printf of the user library, the shell, and the user
-- programs other than the matcher of grep. These are hardware, code that only calls other code, or not
-- reached yet.
pub mod Base
pub mod Str
pub mod Alloc
pub mod Lock
pub mod Pipe
pub mod Console
pub mod Bio
pub mod Log
pub mod Proc
pub mod Grep
pub mod Uart
pub mod Syscall
pub mod File
pub mod Vm
pub mod Trap
pub mod Fs
pub mod Printf
pub mod Descriptors
pub mod Ulib
