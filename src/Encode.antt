-- ===== src/Encode.antt =====
-- src/encode: the encoder that the tests of the crate use.
pub mod Options
pub mod Number
pub mod RangeEncoder
pub mod DumbEncoder
