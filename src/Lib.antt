-- ===== src/Lib.antt =====
-- The LZMA decoder of this crate and its encoder of literals (src/lib.rs, src/decode, src/encode), modelled
-- and proved.
--
-- The program. A compressed input starts with a header, `LzmaParams::read_header`. Behind it stand bits
-- in a range code: `RangeDecoder` turns bytes into bits, by probabilities that adapt, `BitTree` and
-- `LenDecoder` turn bits into numbers. `DecoderState::process_next_inner` decodes one literal or one copy
-- and gives it to the dictionary, `LzCircularBuffer`, which writes to the sink each time it is full.
-- `process_mode` repeats this on a whole input (`lzma_decompress`) or, chunk by chunk, for
-- `decode::stream::Stream`, which keeps the bytes that are too few for a step and looks ahead with
-- `try_process_next` before it takes one. The encoder, which the crate keeps for tests, writes every byte of
-- the input as a literal (`Encoder::process`), by `RangeEncoder`.
--
-- Which file models which part. Functions keep their names; methods of a struct stand in its module.
--   Io/Interface  std::io's BufRead and Write: records of operations with the laws that the code relies on
--   Io/Endian     what byteorder gives: words of bytes, as a record with laws
--   Io/Cursor     src/io/cursor.rs, with Seek and Write; Io/Cursor/Reader shows that it meets the laws of
--                 a reader
--   Io/Ext        src/io/io_ext.rs, the methods that the crate calls
--   Io/Vec        a Vec<u8> as a sink
--   Error, Options   src/error.rs and src/decode/options.rs
--   Util          src/decode/util.rs
--   LzBuffer      src/decode/lzbuffer.rs; History is the abstract view of it, the list of all bytes sent
--                 through; Valid, Append, Copy, Reset prove that the operations follow it
--   RangeDecoder  src/decode/rangecoder.rs, with BitTree and LenDecoder; Safe is about one bit, Trees
--                 and Reverse about trees of bits, Sound about how methods compose, Errors about where their
--                 errors come from, Lookahead about reading without update
--   Lzma/Params, Lzma/State, Lzma/Literal, Lzma/Distance, Lzma/Step, Lzma/Process
--                 src/decode/lzma.rs: the header, `DecoderState`, `decode_literal`, `decode_distance`,
--                 `process_next_inner`, `process_mode`; Lzma/State/Valid is the invariant of the decoder,
--                 the modules named Sound prove that methods keep it, Lzma/Step/Progress puts
--                 them together for a step, Lzma/Errors says where the errors of a literal and of a distance
--                 come from, Lzma/Process/Total is about the loop of `process_mode`
--   Decompress, Compress   src/lib.rs; Decompress/Total is about a whole call
--   Encode        src/encode: Options, RangeEncoder (its Value says which number the output stands for, Flush,
--                 Held, Shift and Finish what `write_low` and `finish` make of it), DumbEncoder, here with the
--                 names of `Encoder`
--   Roundtrip     encoder and decoder together. Span is the interval that both narrow, Code what a piece
--                 of input makes of it and of the probabilities; Encoding, Writes, Encoder, Bytes, Process and
--                 Written go up the encoder, Target, Decoding, Reads, Decoder, Step, Loop, Opening and Whole the
--                 decoder, with Flushed and SetUp; Literal, Input, Coded and Header serve both, Inverse puts them
--                 together; Tree and Length are codes that only the decoder has: a number on a tree of bits,
--                 and a length of `LenDecoder`
--   Stream        src/decode/stream.rs: Header is `read_header` and the first half of `write`, Feed is
--                 `read_data`, `write`, `write_all`, Finish is `finish`
--   Base          lists, words and effects that the modules share
--
-- How state is modelled. A method is a function from its state to an outcome (a value, an error or a
-- panic) and the state that it leaves, also on errors (Base/Effects). `&mut` arguments are part of that
-- state: the sink beside the buffer, the range decoder beside the decoder. A match on the source's nested
-- branches is one definition for each branch, composed in the order of the source. Const generics are
-- arguments (`dict_mem_limit`, `probs_mem_limit`). Indexing out of bounds, `%` by zero and the `panic!`s
-- of the source are panics; arithmetic wraps to the width of its type, as in a build without overflow
-- checks, with `usize` of 64 bits.
--
-- Bounds and fuel. `log2_loop` has fuel 65, one more than a word has bits. The loop of `process_mode` has
-- fuel 2 ^ 32 for each byte left and one more, since each round takes range or a byte (see the weight in
-- RangeDecoder/Safe); running out of it counts as a panic. `write_loop` has one more than the bytes of the
-- chunk, since a round takes a byte at least.
--
-- The encoder's `flush_loop` has fuel `cachesz`, 2 ^ 32 for 0, where the counter wraps; its `normalize_loop`
-- has fuel 4, as three rounds make a range above 0 large enough; `bytes_loop` one more than the bytes of the
-- input. Running out of them counts as a panic.
--
-- Not modelled: logging, the layout of `GuaranteedOption` (here `Option`), the methods of src/io/io_ext.rs
-- that nothing calls, and the `Debug` instance of `Stream`.
pub mod Base
pub mod Io
pub mod Error
pub mod Options
pub mod LzBuffer
pub mod Util
pub mod RangeDecoder
pub mod Lzma
pub mod Decompress
pub mod Stream
pub mod Tests
pub mod Compress
pub mod Encode
pub mod Roundtrip
