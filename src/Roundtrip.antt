-- ===== src/Roundtrip.antt =====
-- src/encode against src/decode: what the encoder writes, the decoder reads.
pub mod Span
pub mod Encoding
pub mod Target
pub mod Decoding
pub mod Code
pub mod Writes
pub mod Reads
pub mod Literal
pub mod Input
pub mod Tree
pub mod Length
pub mod Encoder
pub mod Written
pub mod Count
pub mod Decoder
pub mod Step
pub mod Loop
pub mod Header
pub mod Opening
pub mod Whole
pub mod Inverse
pub mod Bytes
pub mod Process
pub mod Coded
pub mod Flushed
pub mod SetUp
