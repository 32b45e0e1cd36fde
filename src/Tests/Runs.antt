-- ===== src/Tests/Runs.antt =====
-- The decoder on whole inputs.
use lzma_no_std_rs.Base.{ℕ, List, [], ◌∷◌, Result}
use lzma_no_std_rs.Io.Cursor
use lzma_no_std_rs.Io.Cursor.{Cursor}
use lzma_no_std_rs.Io.Cursor.Reader.{cursor_reader}
use lzma_no_std_rs.Io.Vec.{vec_writer}
use lzma_no_std_rs.Error.{Error}
use lzma_no_std_rs.Decompress.{lzma_decompress}
use lzma_no_std_rs.Compress.{lzma_compress}
use lzma_no_std_rs.Io.Interface.{IoError}
use lzma_no_std_rs.Tests.Bytes.{byteorder, empty_lzma}

run_empty : Result Error (Unit {0}) × List ℕ
run_empty = let done = lzma_decompress 4096 8 (Cursor.new empty_lzma, []) in (done.0, done.1.1)

-- "Hello\n"
abbrev pub hello : List ℕ
hello = 72 ∷ 101 ∷ 108 ∷ 108 ∷ 111 ∷ 10 ∷ []

compress_hello : Result IoError (Unit {0}) × List ℕ
compress_hello = let done = lzma_compress (Cursor.new hello, []) in (done.0, done.1.1)
