-- ===== src/Vfs.antt =====
-- sys/kernel/fs/vfs.c: the descriptor table, pipes, UNIX stream sockets and loopback datagram
-- sockets, a child for each. An operation returns `none` where the C code would follow a pointer
-- that does not point to what its cast says.
pub mod State
pub mod Pipe
pub mod Inet
pub mod Unix
pub mod Calls
pub mod Close
pub mod Requests
pub mod Ownership
mod Tests
