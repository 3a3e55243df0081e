-- ===== src/Lib.antt =====
-- MazukiOS, a small kernel for 32-bit x86 (folder sys/kernel): its own core logic as functions on
-- explicit states, with what makes it correct.
--
-- Parts and files:
--   Base           numbers, tests, lists and results that all parts share; a C `int` is a ℤ.
--   Ring           the circular buffers that vfs.c writes out three times: bytes of a pipe, bytes of
--                  a stream socket, datagrams of a datagram socket. Ring.Contents has the queue that
--                  a ring stands for, Ring.Transfer the loops that copy in and out.
--   Alloc          sys/kernel/alloc.c. The chain from `free_list` is a list of blocks, each with the
--                  offset of its header in the array; `alloc` and `alloc_free` keep their names.
--                  Alloc.Tiling has what the chain keeps, Usage, Apart and Reuse are about the
--                  pointers in use.
--   Vfs            sys/kernel/fs/vfs.c and vfs.h. Vfs.State has the tables and `allocate_fd`,
--                  Vfs.Pipe `vfs_pipe` and the two ends, Vfs.Inet the datagram sockets, Vfs.Unix the
--                  stream sockets, Vfs.Calls the calls that choose by the descriptor's type,
--                  Vfs.Close `vfs_close`, Vfs.Requests a history of calls. Vfs.Ownership has the
--                  invariant that ties descriptors to the tables behind them.
--   Filesystem     sys/kernel/fs/filesystem.c: `fs_create`, `fs_delete`, `fs_write` and `fs_read` on
--                  the disk, the bitmap and the file table. Filesystem.Bitmap reads the bitmap as a
--                  set, Filesystem.Blocks and Filesystem.WriteBlocks have the loops over a file's
--                  slots, Filesystem.Invariant, Operations and History the invariant between files
--                  and bitmap, Filesystem.Files what a program sees, with Names about the names.
--   Io             Files behind descriptors. Io.State has the nodes of vfs.h and the whole kernel
--                  state, Io.Procfs sys/kernel/fs/procfs.c, Io.Devtmpfs sys/kernel/fs/devtmpfs.c,
--                  Io.Ramfs the nodes on the block file system, Io.Open `vfs_open`, Io.Transfer
--                  `vfs_read` and `vfs_write`. Io.Text, Random and Again are about reading; Io.Owned,
--                  Entries, Table, Kept, Mounts, Safe and Boot about opening.
--   Syscall        Syscall.Api is sys/kernel/api.c, Syscall.State and Handler sys/kernel/syscall.c.
--                  Syscall.Line is about reading from the keyboard, Keeps and Memory about `brk` and
--                  `mmap2`, Seek and Writev about those calls.
--   Network        sys/kernel/drivers/rtl8139.c: what is done with a frame. Network.Checksum is about the
--                  sum, Network.Copy about the loops, Network.Udp and Reply about the bytes of a
--                  reply, Network.Echo about the datagrams that get one.
--   Initramfs      sys/kernel/main.c: the numbers in the headers of the initial archive, in
--                  Initramfs.Hex, and the loop that puts its files into the block file system.
--   Klibc          sys/kernel/klibc.c. Klibc.Memory has the functions on bytes and strings, with
--                  Text, Compare, Copy and Find about them; Klibc.Number `itoa` and `atoi`, with
--                  RoundTrip and Room; Klibc.Print `printf`, Klibc.Line the line input and `fgets`,
--                  Klibc.Scan `scanf`, with ScanPrint.
--   Keyboard       sys/kernel/drivers/keyboard.c: scancodes, shift, and the buffer of characters.
--   Vga            sys/kernel/drivers/vga.c: the cells of the text screen; Vga.Scroll has its loops.
--   Framebuffer    sys/kernel/drivers/framebuffer.c: the bytes of a graphic screen, with the font;
--                  Framebuffer.Frame has the bytes that a character touches.
--   Tty            sys/kernel/tty.c. Tty.Keeps and Tty.Sound have what every character keeps,
--                  Tty.Sequence the escape sequences, Tty.Tab the tabulator, Tty.Typed and Tty.Text
--                  printable text.
--   Descriptors    sys/kernel/gdt.c and sys/kernel/idt.c: the tables of segments and gates;
--                  Descriptors.Decode reads them as the processor does.
--
-- How they interact: a descriptor keeps a pointer into one of the tables of vfs.c or to a block of
-- the heap of alloc.c; here it keeps which table and which index or address. A call that would
-- follow a pointer to something else than its cast says returns `none`, so that a theorem that a
-- call returns `some` also says that no such pointer is met. The line input of klibc.c reads the
-- characters that `keyboard_getc` returns; here they are a list. The terminal draws on one of the
-- two screens, and its state holds the states of both. The state of Io holds those of Vfs,
-- Filesystem and Tty; a node on the heap is kept by its address. vfs.c reads the table of files
-- with entries of another size than filesystem.c has, so Io reads its bytes. Syscall works on the
-- state of Io, the segments of Descriptors and the break of the program; a call's registers and
-- what they point to are its arguments, and the characters of the keyboard are a list. Network
-- stands alone: no socket uses the card.
--
-- Bounds: the sizes of the tables are those of the source; a ring's loops recurse on the bytes to
-- copy, the walks of the heap on its chain, the loops of the file system on the slots of a file
-- and those of klibc.c on the bytes, so that no fuel is needed. Fuel is taken by the digits of
-- `itoa`: 32 divisions by a base from two on bring any 32-bit number to 0, and the tabulator's
-- loop: 8 rounds reach a column that 8 divides. With base 0 the C code of `itoa` faults and with
-- base 1 its loop does not end; that is outside the model. A program that reads a file to its end
-- takes as fuel the number of calls it may make, the loop over the initial archive takes fuel since
-- headers with sizes that wrap keep it at one place, and folding a sum of 32 bits takes three
-- rounds. Sums that the C code takes on 32 bits and that can wrap keep `% 2 ^ 32`.
--
-- Not modelled: port input and output, interrupts and assembly; the contents of allocated memory
-- but for nodes; the process table, with the calls exit, fork, execve and exit_group; the ELF
-- loader and the buffer that the network card fills, which are left to a later version; user space
-- and the musl headers under world.
pub mod Base
pub mod Ring
pub mod Alloc
pub mod Vfs
pub mod Filesystem
pub mod Klibc
pub mod Keyboard
pub mod Vga
pub mod Framebuffer
pub mod Tty
pub mod Descriptors
pub mod Io
pub mod Syscall
pub mod Network
pub mod Initramfs
