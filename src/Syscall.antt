-- ===== src/Syscall.antt =====
-- sys/kernel/api.c and sys/kernel/syscall.c: the calls of a program on the files, the terminal, the
-- sockets and its memory.
pub mod Api
pub mod State
pub mod Handler
pub mod Line
pub mod Keeps
pub mod Memory
pub mod Seek
pub mod Writev
mod Tests
