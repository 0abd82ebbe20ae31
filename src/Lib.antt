-- ===== src/Lib.antt =====
-- A teaching operating system kernel for RISC-V (two harts, Sv39 paging), modelled from its C sources.
--
-- The program. Tasks live in a table of PCBs. Each hart has a current task; a task that has to wait
-- is put on the queue of what it waits for (a lock, a barrier, a condition variable, a mailbox, the
-- end of another task, a wake-up time) and do_scheduler gives the hart to another one. The kernel
-- runs under one lock, so the model runs one kernel operation at a time, on the hart `hart`. The
-- page allocator serves the tasks from two bitmaps and keeps a record of every page; pages of the
-- tasks move between memory and the card, and a page fault brings them back. The file system reads
-- and writes the card through a cache of sectors.
--
-- The files.
-- - Kernel: the data of include/os/sched.h and include/os/lock.h, and the state that the operations
--   share: the PCB table, the queues by the index of their head, the current task of each hart, the
--   timer, the tables of locks, barriers, conditions and mailboxes, and the page memory.
-- - Sched: kernel/sched/sched.c and check_sleeping of kernel/sched/time.c, with do_block, do_unblock,
--   get_next_running, do_scheduler and do_sleep under their own names. Sched/Queues has the invariant
--   IsSound, Sched/Wake the waking loops, Sched/Pick the choice of a task, Sched/Sleep the scheduler,
--   Sched/Keeps and Sched/Frame what an operation leaves alone.
-- - Links: the same queues as the next and prev pointers of include/os/list.h, write by write;
--   Links/Chain and Links/Refine relate rings and lists, Links/Tasks relates them to Sched.
-- - Lock: kernel/locking/lock.c, with a file each for Mutex, Barrier, Condition and Mailbox.
-- - Process: do_exit, do_kill, do_waitpid, do_pthread_join, do_taskset -p and the searches of the PCB
--   table of kernel/sched/sched.c.
-- - Mm: kernel/mm/mm.c, kernel/mm/ioremap.c, include/os/mm.h and arch/riscv/include/pgtable.h.
--   Mm/Bitmap has the page bitmaps, Mm/PageNode the records of the pages and their recycling, Mm/Alloc
--   the allocators of a page from a bitmap; where an allocator of the source goes on to swap_page_out
--   its model there returns none, and Mm/Swap has it whole. Mm/Pte is a page table entry, Mm/Walk the
--   walk to it (kva2pte, uva2pte), Mm/Swap swap_page_out and swap_page_in, Mm/Paging create_PageNode,
--   alloc_page_helper, umap_page, iomap_page, ioremap and iounmap, Mm/Fault handle_page_fault,
--   check_uva_mem, do_mprotect, do_brk and do_sbrk, Mm/Shm the shared pages. Memory for page tables
--   and pages is a function from addresses to words of 8 bytes.
-- - Fs/Cache: the sector cache of kernel/fs/fs.c (find_free_buf, search_buf, brefill, bwrite, bread,
--   bflush). Fs/Cache/Caches says which sectors a cache stands for. Fs/State has the buffers and the
--   open files, Fs/Maps find_free_inode, find_free_block and free_block, Fs/Blocks blockid2sector and
--   alloc_inode_block, Fs/Files do_read, do_write, do_lseek and do_close. Fs/Paths has parse_path,
--   Fs/Inodes the fields of an inode, Fs/Dirs the entries in dentry_buffer and find_inode, Fs/Create
--   do_touch, do_mkdir and do_ln, Fs/Free free_inode, Fs/Remove do_rm and do_rmdir, Fs/Open do_open,
--   do_cd and do_cat, Fs/Mkfs init_bcache, do_mkfs, do_statfs and, in Fs/Mkfs/Flush, do_vmflush and
--   init_fs. Fs/Create/Frame says what the steps of do_touch leave alone.
-- - Smp: lock_kernel and unlock_kernel of kernel/smp/smp.c as steps of the harts.
-- - Drivers/Screen: the screen buffer of drivers/screen.c, with the characters that the terminal shows.
-- - Libs: memcpy, memset, bzero, strlen, strcpy, strcat and the equality test of strcmp of libs/string.c.
-- - Prelude: shared names, Boolean tests, lists, arrays, loops, the laws of the bit operations
--   (Prelude/Digits) and steps that may fail (Prelude/Maybe). Tests: a small state, runs of the
--   model on it, and the theorems at concrete inputs.
--
-- Conventions. A pointer into a table is an index, the two pid 0 tasks follow the table. A circular
-- list with a head is the list of its nodes, head.next first. A returned -1 or NULL is none. A C loop
-- over a table is a recursion on the number of rounds left, so it needs no fuel. A waiting loop
-- `while (cond) { do_block; do_scheduler; }` is modelled by its rounds: the result of a round says
-- whether the loop is left, and if not, the caller is in the queue and makes the next round when it
-- runs again.
--
-- Fuel. The waking loop `while (queue not empty) do_unblock(first)` gets as fuel the length of the
-- queue, and each round takes one task from it. do_kill searches the table again after each PCB that
-- it ends; it gets its fuel as an argument, and one round for each slot and one more are enough,
-- because each round ends a task and no task comes to life. The search of swap_page_out gets one round
-- for each page in memory and one more, because each round clears the bits of a page that was used.
-- The search of shm_page_get for an address gets its fuel as an argument, and nest_rmdir the depth to
-- which the stack of the kernel lets it call itself.
--
-- Parameters. The SD card behind the firmware calls bios_sd_read and bios_sd_write is the interface
-- SdCard of Fs/Cache: a sector reads as it was last written, and a write changes no other sector. For
-- the swap it is the interface SwapCard of Mm/Swap, with the same laws for 8 sectors at a time. The
-- addresses of the static buffers of the file system are the parameter Buffers, get_timer is an
-- argument, in the directories as a function of the number of its calls so far.
--
-- Not modelled. Assembly (switch_to, trap entry), the network and interrupt drivers, formatted output
-- and the boot loader, which mostly move registers and device memory. The mailboxes take user pointers
-- to point to pages that are in memory. Lengths and counters are natural numbers, wrapped around only
-- where the text of a definition says so. TLB flushes have no effect on the model. A failed assert, a
-- write through a null pointer or behind an array of kernel data ends a definition with none, but
-- for these: the screen and the buffers of the file system are written at any address;
-- unmark_page_free and mark_page_allocated take a bitmap without its bound, which their callers know,
-- and shm_page_dt does not test it; recycling a page without a bit in its bitmap changes no bit, and
-- what the source overwrites behind the bitmap is not in the model. share_pgtable,
-- init_mem_manager, do_exec, do_pthread_create, do_ls, do_pwd and the library of the user programs
-- have no model yet, and what the operations of the file system print has none.
pub mod Prelude
pub mod Libs
pub mod Mm
pub mod Kernel
pub mod Links
pub mod Sched
pub mod Lock
pub mod Process
pub mod Smp
pub mod Drivers
pub mod Fs
mod Tests
