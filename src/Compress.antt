-- ===== src/Compress.antt =====
-- src/lib.rs: compression of a whole input.
use lzma_no_std_rs.Base.{M, next, put_back}
use lzma_no_std_rs.Io.Interface.{IoError, BufRead, Write}
use lzma_no_std_rs.Io.Endian.{Endian}
use lzma_no_std_rs.Encode.Options
use lzma_no_std_rs.Encode.Options.{Options}
use lzma_no_std_rs.Encode.DumbEncoder.{from_stream, process}

module _ {R W : Type 0} ⦃rd : BufRead R⦄ ⦃wr : Write W⦄ ⦃e : Endian⦄ where
  -- The input and the output are what is left of the state.
  unfoldable pub lzma_compress_with_options : Options → M IoError (R × W) (Unit {0})
  lzma_compress_with_options options s =
      let opened = from_stream options s.1 in
      put_back (λ u _. (u.0, u.1.0.stream)) s (next (opened.0, (s.0, opened.1)) (λ _. process))

  unfoldable pub lzma_compress : M IoError (R × W) (Unit {0})
  unfolding lzma_compress_with_options
  lzma_compress = lzma_compress_with_options Options.default
