-- ===== src/Stream/Finish.antt =====
-- src/decode/stream.rs, `finish`.
use lzma_no_std_rs.Base.{
  ltb, if◌then◌else◌, Result, ok, err, panic, M, ◌>>=◌, return, throw, panics, gets, put_back,
  map_err,
}
use lzma_no_std_rs.Io.Interface.{Write}
use lzma_no_std_rs.Io.Cursor
use lzma_no_std_rs.Io.Cursor.{Cursor}
use lzma_no_std_rs.Io.Cursor.Reader.{cursor_reader}
use lzma_no_std_rs.Error.{Error, io_error, stream_error, StreamError}
use lzma_no_std_rs.LzBuffer
use lzma_no_std_rs.RangeDecoder.{from_parts}
use lzma_no_std_rs.Lzma.Process.{process}
use lzma_no_std_rs.Stream.{Stream, State, header, running, RunState, reset, take_state, kept}
use lzma_no_std_rs.Stream.Feed.{on_stream, on_input}

-- The result of `m`, after `k` on the state that it left: `k` runs also if `m` failed.
abbrev pub keep_result :
    {S A B : Type 0}
    → Result Error A × S
    → M Error S B
    → (Result Error A → Result Error B → Result Error A)
    → Result Error A × S
keep_result (panic, s) k pick = (panic, s)
keep_result (r, s) k pick = let (q, s') = k s in (pick r q, s')

-- `a.and(b)`
abbrev both : Result Error (Unit {0}) → Result Error (Unit {0}) → Result Error (Unit {0})
both (ok u) q = q
both (err x) (ok u) = err x
both (err x) (err y) = err x
both r panic = panic
both panic q = panic

-- The first result, if the second is no panic.
abbrev pub first : {A B : Type 0} → Result Error A → Result Error B → Result Error A
first r (ok b) = r
first r (err y) = r
first r panic = panic

module _ {W : Type 0} ⦃wr : Write W⦄ where
  finish_data : RunState → M Error (Stream × W) (Unit {0})
  finish_data run s =
      keep_result
        ((on_input (from_parts (Cursor.new (kept s.0)) run.range run.code) process >>= λ _.
            return tt)
          s)
        (λ t.
          put_back (λ b u. (record u.0 { decoder = record u.0.decoder { output = b.0 } }, b.1)) t
            (map_err io_error LzBuffer.finish (t.0.decoder.output, t.1)))
        both

  unfoldable pub finish_in : State → M Error (Stream × W) (Unit {0})
  unfolding finish_data
  finish_in header = do
    position ← on_stream (gets (λ s. s.tmp.pos))
    if ltb 0 position
        then throw (stream_error StreamError.failed_to_read_lzma_header)
        else return tt
  finish_in (running run) = finish_data run
  finish_in State.invalid_state = throw (stream_error StreamError.invalid_state)
  finish_in State.uninitialized = panics

  unfoldable pub finish : M Error (Stream × W) (Unit {0})
  finish s = keep_result ((on_stream take_state >>= finish_in) s) (on_stream reset) first
