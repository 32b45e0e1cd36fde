-- ===== src/Lzma.antt =====
-- src/decode/lzma.rs: the decoder of LZMA streams.
pub mod Params
pub mod State
pub mod Literal
pub mod Distance
pub mod Step
pub mod Process
pub mod Errors
