-- ===== src/Decompress.antt =====
-- src/lib.rs: decompression of a whole input.
pub mod Total
use lzma_no_std_rs.Base.{ℕ, ok, M, next, ◌>>=◌, ◌>>◌, put_back, zoom, relabel, map_err}
use lzma_no_std_rs.Io.Interface.{BufRead, Write}
use lzma_no_std_rs.Io.Endian.{Endian}
use lzma_no_std_rs.Error.{Error, io_error, lzma_error, data_stream_is_too_short}
use lzma_no_std_rs.Options
use lzma_no_std_rs.Options.{Options}
use lzma_no_std_rs.LzBuffer
use lzma_no_std_rs.RangeDecoder
use lzma_no_std_rs.RangeDecoder.{RangeDecoder}
use lzma_no_std_rs.Lzma.Params.{read_header}
use lzma_no_std_rs.Lzma.State.{DecoderState}
use lzma_no_std_rs.Lzma.State
use lzma_no_std_rs.Lzma.Step.{on_output}
use lzma_no_std_rs.Lzma.Process.{process}

module _ {R W : Type 0} ⦃rd : BufRead R⦄ ⦃wr : Write W⦄ ⦃e : Endian⦄ where
  -- `decoder.process(output, &mut rangecoder)?; decoder.output.finish(output)?`, on a local decoder
  unfoldable pub decode_all : DecoderState → M Error (RangeDecoder R × W) (Unit {0})
  decode_all decoder s =
      put_back (λ t _. (t.0, t.1.1)) s
        ((process >> on_output (map_err io_error LzBuffer.finish)) (s.0, (decoder, s.1)))

  -- The input and the output are what is left of the state.
  unfoldable pub lzma_decompress_with_options : ℕ → ℕ → Options → M Error (R × W) (Unit {0})
  unfolding decode_all
  lzma_decompress_with_options dict_mem_limit probs_mem_limit options = do
    params ← zoom (λ s. s.0) (λ r s. (r, s.1)) (read_header options)
    decoder ← (λ s.
        put_back (λ _ s. s) s
          ((State.reset
              >> State.set_params dict_mem_limit probs_mem_limit params
              >> (λ d. (ok d, d)))
            (State.new dict_mem_limit probs_mem_limit)))
    λ s.
        let opened = RangeDecoder.new s.0 in
        put_back (λ t _. (t.0.stream, t.1)) s
          (next (relabel (λ _. lzma_error data_stream_is_too_short) (opened.0, (opened.1, s.1)))
            (λ _. decode_all decoder))

  unfoldable pub lzma_decompress : ℕ → ℕ → M Error (R × W) (Unit {0})
  unfolding lzma_decompress_with_options
  lzma_decompress dict_mem_limit probs_mem_limit =
      lzma_decompress_with_options dict_mem_limit probs_mem_limit Options.default
