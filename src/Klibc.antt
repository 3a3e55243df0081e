-- ===== src/Klibc.antt =====
-- sys/kernel/klibc.c: the kernel's string, memory and number functions. A pointer into a buffer is
-- the list of the bytes from there to the buffer's end; a function returns `none` where it would
-- read or write past that end. The buffers of one call do not overlap.
pub mod Memory
pub mod Text
pub mod Compare
pub mod Copy
pub mod Find
pub mod Number
pub mod RoundTrip
pub mod Room
pub mod Print
pub mod Line
pub mod Scan
pub mod ScanPrint
mod Tests
