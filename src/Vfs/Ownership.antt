-- ===== src/Vfs/Ownership.antt =====
-- Who owns what: every descriptor points to a live entry of its own table, and every entry in use
-- is held by as many descriptors as it says. A child for each kind of change.
pub mod Refs
pub mod Open
pub mod Pipes
pub mod Sockets
pub mod Shut
pub mod Close
pub mod Calls
pub mod OnSocket
pub mod Accept
pub mod History
