-- ===== src/Lib.antt =====
-- A model of the a-os kernel, a 32-bit x86 teaching kernel in C, with the theorems that make its
-- core components correct.
--
-- The program's parts and the files that model them:
--   Base: words of 32 bits with their wrap-around, C arrays as lists, masks and shifts, tests.
--   Bitmap: kernel/src/bitmap.c. `bitmap_set` is `assign`; the other operations keep their names
--     without the prefix. The memory behind `bits` may be longer than `len`.
--   LinkedList: kernel/src/list.c, over a memory of `prev` and `next` fields (`Links`).
--   Memory: kernel/src/memory.c. Frames (`palloc`, `pfree`) and virtual runs (`vaddr_acquire`,
--     `vaddr_release`) rest on the bitmap; `page_acquire` and `page_release` join them to the page
--     tables, which map themselves at 0xffc00000. Memory.Setup is `pool_init`, and Memory.Blocks the
--     size classes and arenas of `mem_alloc`; Memory.Heap has `mem_alloc` and `mem_free` with the free
--     lists, and Memory.Malloc is about them.
--   Thread: kernel/src/thread.c, kernel/src/sched.c and the handler of kernel/src/timer.c. A task is
--     named by its address; the two global lists are the lists of the tasks in them, which
--     LinkedList relates to the pointers. Each call runs with interrupts disabled and is one step.
--   IoQueue: kernel/src/ioqueue.c, and the pipes of kernel/src/file.c over it. A call that would
--     block is `none`, and the mutex makes the rest of a call one step.
--   Disk: `ide_read` and `ide_write` of kernel/src/ide.c, over the bytes of a disk and of a buffer.
--     Disk.Partition is `ide_get_partition`, and Disk.Scan what it finds on a disk.
--   Inode: kernel/src/inode.c on a mounted partition with its disk (`Volume`). Inode has the bitmaps'
--     operations, Inode.Table the inode table and the open inodes, Inode.Data blk_read and blk_write,
--     Inode.Transfer inode_read and inode_write, and Inode.Release the operations that give blocks
--     back. A pointer to an open inode is the inode's number.
--   Fs: kernel/src/fs.c: the layout and the contents that `fs_format` gives a partition, and the volume
--     that `fs_mount` makes of it. Fs.Root has the root directory, whose entries are the mounted
--     partitions, and `fs_init`.
--   Dir: kernel/src/dir.c over the mounted partitions (`FileSystem`). Dir.Path has paths as text,
--     Dir.Search the search of directories and of paths, Dir.Install the changes of directories,
--     Dir.Stream directory streams, and Dir.Cwd the current directory.
--   File: the tables of open files of kernel/src/file.c: `fd_acquire`, `task_install`, `sys_close`,
--     `sys_lseek`, `sys_pipe` and `sys_dup2`. `open_inode` is `sys_open` from the open inode on. The
--     size of the table is a parameter, 8192 in the code. File.Calls joins them to Dir, Inode and
--     IoQueue: `sys_open`, `sys_unlink`, `sys_stat`, `sys_read` and `sys_write`.
--   Process: `sys_wait` and `sys_exit` of kernel/src/process.c, over Thread and Pid. Process.Images has
--     the pages and descriptors that a process gives back or shares.
--   Lock: kernel/src/lock.c. The section of a call under its spin lock is one step.
--   Pid: `pid_init`, `pid_acquire` and `pid_release` of kernel/src/thread.c, on the bitmap, with the
--     16 bits of a `pid_t`.
--   CString: lib/src/string.c, over a memory of bytes by address.
--   Printf: `itoa` and `vsprintf` of lib/src/stdio.c, on the text written so far as a list of bytes.
--   Timer: the rest of kernel/src/timer.c: units of time, the counter, and the sleeps.
--   Keyboard: the interrupt handler of kernel/src/keyboard.c. The byte read from the port is an
--     argument, and the character given to `ioq_put` is the result. Keyboard.Layout has the characters
--     of a US keyboard, apart from the code's table.
--
-- Conventions: an address, a word or a byte is a natural number, and arithmetic that the C code does
-- on 32 bits is written with its wrap-around (`add32`, `sub32`, `mul32`). Well-formedness bounds the
-- signed indices of the C code below 2 ^ 31. NULL and -1 are `none`; a failed assertion, a fault and
-- a blocked call are `none` of the whole call.
--
-- Fuel: the byte loop of `bitmap_acquire` gets `len` rounds, after which its own test fails; the bit
-- loop gets 9, since the shifted byte is 0 after 8; the run loop gets one round for each bit of the
-- bitmap. The walks of a linked list take their fuel as an argument, and one more round than the
-- list has elements is enough; so with the string functions and the bytes of a string.
--
-- The rounds of a disk transfer get one for each sector, and the loops over the blocks of a file one
-- for each block. `itoa` gets 32, since a base of 2 or more has no longer numeral for 32 bits. Taking
-- a path apart gets one round for each of its bytes, since every round drops one at least, and the
-- climb of `sys_getcwd` the 16 rows the kernel's path may have. The scan of partition tables gets its
-- depth as an argument, and one more than the logical partitions of a chain is enough.
--
-- Not modelled: assembly (boot, `switch_to`, interrupt entries), port input and output, the
-- identification of drives, the loading and copying of processes, user programs and the output of
-- the printed text. The LBA registers hold 28 bits, and the sectors of Disk are taken to lie below
-- 2 ^ 28, where nothing is cut off. A call of a lock is modelled up to where it waits, and IoQueue
-- knows only the count of a semaphore. `kmalloc` in the file system is taken to succeed, and its
-- buffers have no address.
pub mod Base
pub mod Bitmap
pub mod CString
pub mod Dir
pub mod Disk
pub mod File
pub mod Fs
pub mod Inode
pub mod IoQueue
pub mod Keyboard
pub mod LinkedList
pub mod Lock
pub mod Memory
pub mod Pid
pub mod Printf
pub mod Process
pub mod Thread
pub mod Timer
