-- ===== src/Io.antt =====
-- Files behind descriptors: `vfs_open`, `vfs_read` and `vfs_write` of sys/kernel/fs/vfs.c over its
-- three kinds of nodes, those of procfs.c, of devtmpfs.c and of the block file system.
pub mod State
pub mod Procfs
pub mod Devtmpfs
pub mod Ramfs
pub mod Open
pub mod Transfer
pub mod Text
pub mod Again
pub mod Random
pub mod Entries
pub mod Table
pub mod Kept
pub mod Owned
pub mod Mounts
pub mod Safe
pub mod Boot
pub mod Samples
mod Tests
