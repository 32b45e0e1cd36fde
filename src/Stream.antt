-- ===== src/Stream.antt =====
-- src/decode/stream.rs: the decoder that is fed chunk by chunk. Here are its types and its state.
pub mod Header
pub mod Feed
pub mod Finish
pub mod Reset
pub mod Status
pub mod Poison
use lzma_no_std_rs.Base.{
  ℕ, zero, suc, ◌+◌, ◌-◌, ◌*◌, ◌/◌, ◌%◌, ◌^◌, ◌≤◌, ◌<◌, min, bit_xor, ◌≡◌, refl, sym, ap, ap₂, ◌∙◌,
  subst, ◌≢◌, ◌⊎◌, inl, inr, Bool, true, false, ◌&&◌, ◌||◌, not, Option, none, some, List, [], ◌∷◌,
  ◌++◌, map, append-nil, append_assoc, arith, ltb, leb, ◌==◌, if◌then◌else◌, ltb→lt, lt→ltb, ltb→le,
  le→ltb, leb→le, ==_iff, Bool-cases, length, get_elem?, get_or, set, take, drop, replicate, All,
  length-append, length-set, length-replicate, length-take, length-drop, length-map,
  take-append-drop, take-length, take-set, take-suc-set, get_or-set_self, get_or-set_ne,
  get_elem?-eq-get_or, set-get_or, set-get_elem?, get_or-append_left, get_or-append_right,
  replicate-map, All-set, All-get_elem?, All-append, All-append_right, All-append_left,
  All-replicate, All-map_const, u8, u16, u32, u64, usize, shr, shl, low_bits, to_num, Result, ok,
  err, panic, Outcome, M, next, ◌>>=◌, ◌>>◌, return, throw, panics, gets, modify, expect, when,
  put_back, zoom, convert, relabel, map_err, of_io, Post, next-Post, Post-mono, put_back-Post,
  relabel-Post, Keeps, >>=-Keeps, when-Keeps, Sum-cases,
}
use lzma_no_std_rs.Io.Interface.{IoError, other}
use lzma_no_std_rs.Io.Endian.{Endian}
use lzma_no_std_rs.Io.Cursor
use lzma_no_std_rs.Io.Cursor.{Cursor}
use lzma_no_std_rs.Io.Cursor.Reader.{cursor_reader}
use lzma_no_std_rs.Error.{Error, io_error, header_too_short, stream_error, StreamError}
use lzma_no_std_rs.Options
use lzma_no_std_rs.Options.{Options}
use lzma_no_std_rs.LzBuffer
use lzma_no_std_rs.RangeDecoder
use lzma_no_std_rs.RangeDecoder.{RangeDecoder, from_parts}
use lzma_no_std_rs.Lzma.Params.{LzmaParams}
use lzma_no_std_rs.Lzma.Params
use lzma_no_std_rs.Lzma.State.{
  DecoderState, ProcessingStatus, new as new_decoder, reset as reset_decoder, set_params,
}
use lzma_no_std_rs.Lzma.Step.{Session, on_output}
use lzma_no_std_rs.Lzma.Process.{process, process_stream}

abbrev pub min_header_len : ℕ
min_header_len = 5

abbrev pub max_header_len : ℕ
max_header_len = min_header_len + 8

abbrev pub start_bytes : ℕ
start_bytes = 5

abbrev pub max_tmp_len : ℕ
max_tmp_len = max_header_len + start_bytes

pub record RunState : Type 0 where
  pub range : ℕ
  pub code : ℕ

pub data State : Type 0 where
  uninitialized invalid_state header : State
  running : RunState → State

pub data StreamStatus : Type 0 where
  uninitialized processing_header : StreamStatus
  -- unpacked_data_processed, unpacked_size
  processing_data : ℕ → Option ℕ → StreamStatus
  invalid_state eos_reached : StreamStatus

pub record Stream : Type 0 where
  pub decoder : DecoderState
  pub tmp : Cursor
  pub state : State
  pub options : Options

abbrev pub empty_tmp : Cursor
empty_tmp = record { inner = replicate max_tmp_len 0; pos = 0 }

unfoldable pub new_with_options : ℕ → ℕ → Options → Stream
new_with_options dict_mem_limit probs_mem_limit options = record {
  decoder = new_decoder dict_mem_limit probs_mem_limit;
  tmp = empty_tmp;
  state = State.uninitialized;
  options = options;
}

unfoldable pub new : ℕ → ℕ → Stream
unfolding new_with_options
new dict_mem_limit probs_mem_limit = new_with_options dict_mem_limit probs_mem_limit Options.default

unfoldable pub reset : M Error Stream (Unit {0})
reset = do
  zoom (λ s. s.decoder) (λ d s. record s { decoder = d }) reset_decoder
  modify (λ s. record s { tmp = empty_tmp })
  modify (λ s. record s { state = header })

-- `self.state.take()`
unfoldable pub take_state : M Error Stream State
take_state s = (ok s.state, record s { state = State.invalid_state })

unfoldable shown : ℕ → Option ℕ → ProcessingStatus → M Error Stream StreamStatus
shown processed size ProcessingStatus.uninitialized = return StreamStatus.uninitialized
shown processed size ProcessingStatus.continue = return (processing_data processed size)
shown processed size ProcessingStatus.finished = return eos_reached

unfoldable data_status : M Error Stream StreamStatus
unfolding shown
data_status = do
  params ← (λ s. expect s.decoder.params s)
  processed ← gets (λ s. u64 (s.decoder.output.len + s.tmp.pos))
  status ← gets (λ s. s.decoder.processing_status)
  shown processed params.unpacked_size status

unfoldable status_of : State → M Error Stream StreamStatus
status_of header = return processing_header
status_of (running run) = data_status
status_of State.invalid_state = return StreamStatus.invalid_state
status_of State.uninitialized = return StreamStatus.uninitialized

unfoldable pub get_stream_status : M Error Stream StreamStatus
unfolding data_status status_of
get_stream_status s = status_of s.state s

-- Part of the input goes to `tmp`, behind what is in it.
unfoldable pub fill_tmp : Cursor → M Error Stream Cursor
fill_tmp input = do
  start ← gets (λ s. s.tmp.pos)
  inner ← gets (λ s. s.tmp.inner)
  let got = Cursor.read (length inner - start) input
  if ltb (length inner) start then panics else do
    bytes ← (λ s. relabel io_error (of_io (got.0, s)))
    if not (ltb (length bytes) (2 ^ 64 - 1)) then throw (io_error other) else do
      modify λ s. record s {
        tmp = record {
          inner = take start inner ++ bytes ++ drop (start + length bytes) inner;
          pos = start + length bytes;
        };
      }
      return got.1

-- The bytes in `tmp`.
abbrev pub kept : Stream → List ℕ
kept s = take s.tmp.pos s.tmp.inner
