-- ===== src/Error.antt =====
-- src/error.rs: the errors of the crate. The fields keep their order in the source.
use lzma_no_std_rs.Base.{ℕ}
use lzma_no_std_rs.Io.Interface.{IoError}

pub data LzmaError : Type 0 where
  -- distance, dict_size
  match_distance_is_beyond_dictionary_size : ℕ → ℕ → LzmaError
  -- distance, output_len
  match_distance_is_beyond_output_size : ℕ → ℕ → LzmaError
  -- distance, dict_size
  lz_distance_is_beyond_dictionary_size : ℕ → ℕ → LzmaError
  -- distance, output_len
  lz_distance_is_beyond_output_size : ℕ → ℕ → LzmaError
  -- invalid_properties
  invalid_header : ℕ → LzmaError
  eos_found_but_more_bytes_available : LzmaError
  -- unpacked_size, decompressed_data
  processed_data_does_not_match_unpacked_size : ℕ → ℕ → LzmaError
  data_stream_is_too_short : LzmaError

pub data StreamError : Type 0 where
  failed_to_read_lzma_header invalid_state : StreamError

pub data Error : Type 0 where
  -- needed, available
  dictionary_buffer_too_small : ℕ → ℕ → Error
  probabilities_buffer_too_small : ℕ → ℕ → Error
  io_error : IoError → Error
  header_too_short : IoError → Error
  lzma_error : LzmaError → Error
  stream_error : StreamError → Error
