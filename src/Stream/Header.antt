-- ===== src/Stream/Header.antt =====
-- src/decode/stream.rs, `read_header` and the first half of `write`: the header, from the input or from
-- what was kept of it in `tmp`.
use lzma_no_std_rs.Base.{
  ℕ, ◌-◌, ◌++◌, ltb, ◌==◌, if◌then◌else◌, take, drop, Result, ok, err, panic, M, ◌>>=◌, ◌>>◌,
  return, throw, panics, gets, modify, put_back,
}
use lzma_no_std_rs.Io.Interface.{IoError, BufRead}
use lzma_no_std_rs.Io.Endian.{Endian}
use lzma_no_std_rs.Io.Cursor
use lzma_no_std_rs.Io.Cursor.{Cursor}
use lzma_no_std_rs.Io.Cursor.Reader.{cursor_reader}
use lzma_no_std_rs.Error.{Error, header_too_short, stream_error, StreamError}
use lzma_no_std_rs.Options.{Options}
use lzma_no_std_rs.RangeDecoder
use lzma_no_std_rs.RangeDecoder.{RangeDecoder, from_parts}
use lzma_no_std_rs.Lzma.Params.{LzmaParams}
use lzma_no_std_rs.Lzma.Params
use lzma_no_std_rs.Lzma.State.{DecoderState, set_params}
use lzma_no_std_rs.Stream.{Stream, State, header, running, fill_tmp, kept}

abbrev pub with_input :
    Stream → Result Error State × (Cursor × DecoderState) → Result Error (State × Cursor) × Stream
with_input s (ok st, (input, d)) = (ok (st, input), record s { decoder = d })
with_input s (err x, (input, d)) = (err x, record s { decoder = d })
with_input s (panic, (input, d)) = (panic, record s { decoder = d })

-- The bytes behind the header stay in `tmp`.
unfoldable pub discard : State → ℕ → M Error Stream (Unit {0})
discard (running run) position = do
  tmp ← gets (λ s. s.tmp)
  let new_len = tmp.pos - position
  if ltb tmp.pos position
      then panics
      else modify λ s. record s {
        tmp = record {
          inner = take new_len (drop position tmp.inner) ++ drop new_len tmp.inner;
          pos = new_len;
        };
      }
discard _ position = return tt

-- What `write` makes of the state that comes out of the header.
unfoldable pub settle : State × Cursor → M Error Stream (State × Cursor)
settle (header, input) = do
  position ← gets (λ s. s.tmp.pos)
  if position == 0
      then (do input' ← fill_tmp (Cursor.set_position 0 input); return (header, input'))
      else return (header, input)
settle (running run, input) = return (running run, input)
settle (State.invalid_state, input) = throw (stream_error StreamError.invalid_state)
settle (State.uninitialized, input) = panics

module _ ⦃e : Endian⦄ (dict_mem_limit probs_mem_limit : ℕ) where
  module _ {R : Type 0} ⦃rd : BufRead R⦄ where
    -- With the range decoder made, or not.
    open_data :
        LzmaParams
        → DecoderState
        → Result IoError (Unit {0}) × RangeDecoder R
        → Result Error State × (R × DecoderState)
    open_data params d (ok u, c) =
        put_back (λ d' _. (c.stream, d')) (c.stream, d)
          ((set_params dict_mem_limit probs_mem_limit params
              >> return (running (record { range = c.range; code = c.code })))
            d)
    open_data params d (err x, c) = (ok header, (c.stream, d))
    open_data params d (panic, c) = (panic, (c.stream, d))

    after_header :
        Result Error LzmaParams × R → DecoderState → Result Error State × (R × DecoderState)
    unfolding open_data
    after_header (ok params, r) d = open_data params d (RangeDecoder.new r)
    after_header (err (header_too_short x), r) d = (ok header, (r, d))
    after_header (err x, r) d = (err x, (r, d))
    after_header (panic, r) d = (panic, (r, d))

    -- `Stream::read_header`
    unfoldable pub read_header : Options → M Error (R × DecoderState) State
    unfolding after_header
    read_header options s = after_header (Params.read_header options s.0) s.1

  -- `read_header` on a slice or on the input, with the decoder of the stream.
  abbrev pub parse_header : Cursor → M Error Stream (State × Cursor)
  parse_header input s = with_input s (read_header s.options (input, s.decoder))

  unfoldable pub header_from_tmp : Cursor → M Error Stream (State × Cursor)
  header_from_tmp input = do
    input' ← fill_tmp input
    bytes ← gets kept
    res ← parse_header (Cursor.new bytes)
    discard res.0 res.1.pos
    return (res.0, input')

  unfoldable pub header_write : Cursor → M Error Stream (State × Cursor)
  header_write input = do
    position ← gets (λ s. s.tmp.pos)
    res ← (if ltb 0 position then header_from_tmp input else parse_header input)
    settle res
