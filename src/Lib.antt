-- ===== src/Lib.antt =====
-- The kernel of linux-0.11 (linux-0.11/ in the repository): models of its task management, memory
-- management, file system and block layer in antt, and proofs about them.
--
-- Base has what the models share: Boolean tests (Base.Tests), arrays as lists (Base.Lists), signed
-- integers over the native numbers (Base.Int), and the bits of words (Base.Bits).
--
-- Kernel is linux-0.11/kernel. Kernel.Task is the process descriptor of include/linux/sched.h; the
-- task table is a list of slots, and a task is known by its slot.
--   Kernel.Sched: schedule() of kernel/sched.c, its check of signals and alarms, and its scan. Its
--     endless loop runs on fuel, of which two rounds are enough.
--   Kernel.Wait: sleep_on and wake_up of kernel/sched.c as steps of a wait queue, so that the two
--     halves of sleep_on interleave with other tasks.
--   Kernel.Timer: add_timer, and the part of do_timer that counts timers down.
--   Kernel.Mktime: kernel/mktime.c.
--   Kernel.Ids: the calls of kernel/sys.c that change ids, groups, sessions and the break, and
--     sys_nice and sys_alarm.
--   Kernel.Signal: kernel/signal.c. Kernel.Kill: send_sig and sys_kill of kernel/exit.c.
--   Kernel.Exit: release, tell_father, kill_session, do_exit and sys_waitpid of kernel/exit.c, on
--     the task table.
--   Kernel.Fork: find_empty_process of kernel/fork.c, whose search for a number runs on fuel of which
--     one more than the table has slots is enough, and verify_area and copy_mem, with the number of
--     bytes as the fuel of the loop over pages.
--   Kernel.Number and Kernel.Vsprintf: kernel/vsprintf.c. The loop over the format runs on fuel of its
--     length, and the one over digits on 32, since a word has no more of them.
--   Kernel.Tty: the queues of include/linux/tty.h, and copy_to_cooked and tty_intr of
--     kernel/chr_drv/tty_io.c. The loops run on fuel of the size of a queue, since each pass takes a
--     character; the terminal's own function for writing is an argument. Kernel.Output: the loop of
--     tty_write that fills the write queue, likewise.
-- Mm is linux-0.11/mm/memory.c: Mm.Pages has get_free_page, free_page and memory_init over
-- memory_map and memory word by word, Mm.Tables the operations on page tables and directories.
-- Fs is linux-0.11/fs:
--   Fs.Pipe: the loops of read_pipe and write_pipe, on fuel of the number of bytes asked for, since
--     each pass moves one at least. They end where the code returns or sleeps.
--   Fs.Descriptors: fs/fcntl.c, sys_close of fs/open.c and sys_pipe of fs/pipe.c over the
--     descriptors of a task and the counts of file_table.
--   Fs.Bitmap: fs/bitmap.c.
--   Fs.Buffer: the buffer cache of fs/buffer.c, with buffers by number and its queues as lists. getblk
--     is a function for each part between two sleeps. buffer_init runs on fuel of one for each KB.
--   Fs.Names: permission, match, find_entry and add_entry of fs/namei.c, on the entries of a directory
--     by number. The search runs on fuel of the number of entries, add_entry on two more.
--   Fs.Path: get_dir of fs/namei.c over Fs.Names, on slots of the inode table. The walk runs on fuel of
--     the length of the path and one, since each pass takes a '/'.
--   Fs.Zones: _bmap of fs/inode.c, over new_block of Fs.Bitmap, and the tree of a file's blocks.
--   Fs.Regular: file_read and file_write of fs/file_dev.c over Fs.Zones, and sys_read for files. The
--     loops run on fuel of the number of bytes, since each pass moves one at least.
--   Fs.Truncate: fs/truncate.c, over free_block of Fs.Bitmap and the tree of Fs.Zones.
-- Malloc is linux-0.11/lib/malloc.c, over get_free_page and free_page of Mm.Pages.
-- Block is linux-0.11/kernel/blk_drv/ll_rw_blk.c with the request of blk.h; Fs.Buffer uses it.
--
-- Words are natural numbers, and arithmetic that wraps in the source has its modulus written out.
-- An `int` or `long` that can be negative is an integer, and a sum that can leave its 32 bits wraps
-- with wrap32 of Base.Int.
-- `panic` and a call that ends the task are results. sleep_on inside of a call is a result too, and
-- what another part finds or gives, as the inode of a pipe, the count of a buffer from getblk for
-- fs/bitmap.c, or what sync_inodes does to buffers, is an argument. Not modelled: assembly, hardware,
-- the drivers, terminals but for their queues, and program loading; the inode table, super blocks,
-- the calls that make and remove names, and devices as files.
pub mod Base
pub mod Block
pub mod Fs
pub mod Kernel
pub mod Malloc
pub mod Mm
