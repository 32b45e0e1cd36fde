-- ===== src/Options.antt =====
-- src/decode/options.rs. `GuaranteedOption` is `Option`.
use lzma_no_std_rs.Base.{ℕ, Option}

pub data UnpackedSize : Type 0 where
  read_from_header : UnpackedSize
  read_header_but_use_provided : Option ℕ → UnpackedSize
  use_provided : Option ℕ → UnpackedSize

pub record Options : Type 0 where
  pub unpacked_size : UnpackedSize

abbrev pub default : Options
default = record { unpacked_size = read_from_header }
