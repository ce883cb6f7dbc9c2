-- ===== src/Lib.antt =====
-- A model of the core of a teaching operating system: xv6 (xv6-public/) with a stride scheduler that
-- holds an MLFQ class, light-weight processes (threads), and a log that is installed late.
--
-- The parts, and the files that model them. A function of the C code keeps its name.
--   Base           tests on numbers, arrays as lists, searches, the C `int` as an integer, with its
--                  overflow as `wrap_int`.
--   Log            xv6-public/log.c. `Machine` is `struct log` with the buffer cache and the disk;
--                  every `bwrite` adds the disk's former state to `past`, so that a theorem on all of
--                  `past` is one on crashes at any moment. Log.Recover is about `initlog`, Log.Commit
--                  and Log.Mixed about `commit`, Log.Record about `log_write`, Log.Full about `sync`
--                  and a full log.
--   Bio            xv6-public/bio.c: `bget` and `brelse`. `order` is the list through `next`.
--   File           xv6-public/file.c: the reference counts of open files.
--   Fs             xv6-public/fs.c: `balloc`, `bmap`, `bfree` and, in Fs.Trunc, `itrunc`. `addrs` is
--                  that of the inode at hand, `words` are the indirect blocks. A path
--                  is an entry of `addrs` with an index for each level.
--   Dir            xv6-public/fs.c: directories (`dirlookup`, `dirlink`) and path names (`skipelem`,
--                  `namex`), with `strncmp` and `strncpy` of xv6-public/string.c. The fuel of `namex`
--                  is one round for each element; more than the bytes of the path is enough.
--   Pipe           xv6-public/pipe.c: `pipewrite` and `piperead` on the ring buffer.
--   Grep           xv6-public/grep.c: `matchhere`, `matchstar`, and `match` (here `match_text`).
--   Kalloc         xv6-public/kalloc.c: the free list of pages, as a list of addresses.
--   Paging         xv6-public/vm.c: `walkpgdir`, `mappages`, `allocuvm`, `deallocuvm`, `freevm` on memory
--                  as pages of words. Addresses are `uint` and wrap around. The loop of `deallocuvm`
--                  has fuel, one round for each page of the old size and one more, and goes on by a
--                  page or a table in each. Paging.Space says which page of memory is what.
--   Print          xv6-public/printf.c: `printint`, with the characters that it writes, and `atoi` of
--                  xv6-public/ulib.c, on words.
--   Proc           xv6-public/proc.h. `struct proc *` is an index into `ptable.proc`.
--   Proc.Stride    the shares, strides and passes of xv6-public/proc.c: `get_num`, `update_strd`,
--                  `init_pass`, `get_min_pass`, `cpu_share`, `run_MLFQ` (here `run_mlfq`). The sums of
--                  `cpu_share` wrap at 32 bits.
--   Proc.Table     the life of a process in xv6-public/proc.c: `allocproc`, `get_base`, `wakeup1`,
--                  `kill`, `wait`, `thread_join`. It allocates and frees stacks by Kalloc; its calls of
--                  `freevm`, `deallocuvm`, `idup` and `iput` are recorded in order. A pid is what 32 bits
--                  hold of the count of the pids given out.
--   Proc.Life      `fork`, and in Proc.Life.Thread `thread_create` and `growproc`, in Proc.Life.Exit `exit`
--                  and `thread_exit`. Files are counted by File. What `copyuvm` and `allocuvm` of
--                  xv6-public/vm.c answer is an argument, `Vm`. `exit` is its code up to its first
--                  sleep, `exit_round` what it does after one.
--   Proc.Sched     `scheduler`, `yield` and `sleep`, and a step relation on the table and the CPUs: any
--                  running process may make any of the calls above, any CPU may look for a process, and
--                  sleepers may be woken at any time.
--   Shell          xv6-public/sh.c: `gettoken` and `peek`. A text is the list of characters up to `es`.
--   Shell.Parser   the parser, `parsecmd`. Its functions have fuel, one for each call below them and each
--                  round of a loop; four for each character and four more are enough. A word of a command
--                  is its text.
--   Spin           xv6-public/spinlock.c: one lock that all CPUs take and release, in the steps that are
--                  atomic in the code, in any order of the CPUs.
--   Syscall        xv6-public/syscall.c: arguments are read from user memory, which is a byte at each
--                  address, for a process of Proc; xv6-public/sysfile.c: `argfd`, `fdalloc`, `sys_dup`,
--                  `sys_close` on its descriptors and on the table of File.
--   Strings        xv6-public/string.c: `memmove` and `safestrcpy`. Memory is a function.
--
-- Loops are structural recursion on the list, or on the number of rounds that the C loop makes
-- (`install_from`, `free_pages`), so that only `namex`, `deallocuvm` and the shell's parser
-- need fuel. A panic, a sleep and a trap are results. A loop that sleeps and tries again is modelled by one round of it.
--
-- Not modelled: the spin locks inside the other parts (each function is one step; most hold one lock
-- throughout, and `fork`, `exit` and `thread_exit` hold `ptable.lock` in their last part only), the
-- inode cache and the inodes on the disk, the overflow of `int` elsewhere than in `cpu_share` and the
-- pids, the panics of `dirlink` when `readi` or `writei` comes up short, the context of a process, the
-- bytes of user memory, and the parts of the kernel and the user programs that no file above names.
pub mod Base
pub mod Bio
pub mod Dir
pub mod File
pub mod Fs
pub mod Grep
pub mod Kalloc
pub mod Log
pub mod Paging
pub mod Pipe
pub mod Print
pub mod Proc
pub mod Shell
pub mod Spin
pub mod Strings
pub mod Syscall
