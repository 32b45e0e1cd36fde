-- ===== src/Encode/Options.antt =====
-- src/encode/options.rs: what the encoder writes of the unpacked size.
use lzma_no_std_rs.Base.{ℕ, Option, none}

pub data UnpackedSize : Type 0 where
  write_to_header : Option ℕ → UnpackedSize
  skip_writing_to_header : UnpackedSize

pub record Options : Type 0 where
  pub unpacked_size : UnpackedSize

abbrev pub default : Options
default = record { unpacked_size = write_to_header none }
