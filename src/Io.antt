-- ===== src/Io.antt =====
-- What the decoder uses of `io::BufRead`, `io::Write` (core2, or std) and of the crate byteorder:
-- interfaces with the laws that their documentation gives (Interface, Endian), the crate's own reader
-- (Cursor) and its extension methods (Ext).
pub mod Cursor
pub mod Vec
pub mod Ext
pub mod Endian
pub mod Interface
