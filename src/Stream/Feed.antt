-- ===== src/Stream/Feed.antt =====
-- src/decode/stream.rs, `read_data`, `write` and `write_all`.
use lzma_no_std_rs.Base.{
  ℕ, zero, suc, List, [], ◌∷◌, ltb, ◌==◌, if◌then◌else◌, length, drop, Result, ok, err, panic, M,
  ◌>>=◌, ◌>>◌, return, throw, panics, gets, modify, zoom,
}
use lzma_no_std_rs.Io.Interface.{Write, write_zero}
use lzma_no_std_rs.Io.Endian.{Endian}
use lzma_no_std_rs.Io.Cursor
use lzma_no_std_rs.Io.Cursor.{Cursor}
use lzma_no_std_rs.Io.Cursor.Reader.{cursor_reader}
use lzma_no_std_rs.Error.{Error, io_error, stream_error, StreamError}
use lzma_no_std_rs.RangeDecoder.{RangeDecoder, from_parts}
use lzma_no_std_rs.Lzma.Step.{Session}
use lzma_no_std_rs.Lzma.Process.{process_stream}
use lzma_no_std_rs.Stream.{
  Stream, State, header, running, RunState, StreamStatus, take_state, get_stream_status, kept,
}
use lzma_no_std_rs.Stream.Header.{header_write}

-- The state of `write` and `finish` is the stream beside the sink.
abbrev pub on_stream : {A W : Type 0} → M Error Stream A → M Error (Stream × W) A
on_stream = zoom (λ s. s.0) (λ t s. (t, s.1))

abbrev pub hand_back :
    {A W : Type 0}
    → Stream × W
    → Result Error A × (RangeDecoder Cursor × Session W)
    → Result Error (A × RangeDecoder Cursor) × (Stream × W)
hand_back s (ok a, (c, t)) = (ok (a, c), (record s.0 { decoder = t.0 }, t.1))
hand_back s (err x, (c, t)) = (err x, (record s.0 { decoder = t.0 }, t.1))
hand_back s (panic, (c, t)) = (panic, (record s.0 { decoder = t.0 }, t.1))

module _ {W : Type 0} ⦃wr : Write W⦄ where
  -- A method of the decoder with a range decoder of its own, which comes back with the value.
  abbrev pub on_input :
      {A : Type 0}
      → RangeDecoder Cursor
      → M Error (RangeDecoder Cursor × Session W) A
      → M Error (Stream × W) (A × RangeDecoder Cursor)
  on_input c m s = hand_back s (m (c, (s.0.decoder, s.1)))

  -- The state after the input, and the input.
  unfoldable pub read_data : RunState → Cursor → M Error (Stream × W) (RunState × Cursor)
  read_data run input = do
    done ← on_input (from_parts input run.range run.code) process_stream
    return (record { range = done.1.range; code = done.1.code }, done.1.stream)

  unfoldable pub data_write : RunState → Cursor → M Error (Stream × W) (State × Cursor)
  unfolding read_data
  data_write run input = do
    bytes ← on_stream (gets kept)
    position ← on_stream (gets (λ s. s.tmp.pos))
    run' ←
        (if ltb 0 position
          then (do
            res ← read_data run (Cursor.new bytes)
            on_stream (modify (λ s. record s { tmp = Cursor.set_position 0 s.tmp }))
            return res.0)
          else return run)
    res ← read_data run' input
    return (running res.0, res.1)

  module _ ⦃e : Endian⦄ (dict_mem_limit probs_mem_limit : ℕ) where
    unfoldable pub write_in : State → Cursor → M Error (Stream × W) (State × Cursor)
    write_in header input = on_stream (header_write dict_mem_limit probs_mem_limit input)
    write_in (running run) input = data_write run input
    write_in State.invalid_state input = throw (stream_error StreamError.invalid_state)
    write_in State.uninitialized input = panics

    -- How many bytes of the chunk were read.
    unfoldable pub write : List ℕ → M Error (Stream × W) ℕ
    unfolding write_in
    write chunk = do
      status ← on_stream get_stream_status
      elim status [ StreamStatus.uninitialized ↦ panics | _ ↦ return tt ]
      state ← on_stream take_state
      res ← write_in state (Cursor.new chunk)
      on_stream (modify (λ s. record s { state = res.0 }))
      return res.1.pos

    -- The loop of `write_all`: a round that goes on takes a byte at least.
    unfoldable pub write_loop : ℕ → List ℕ → M Error (Stream × W) (Unit {0})
    write_loop zero buf = panics
    write_loop (suc fuel) buf = elim buf [
      | [] ↦ return tt
      | x ∷ rest ↦ do
        n ← write (x ∷ rest)
        if n == 0
            then throw (io_error write_zero)
            else if ltb (length (x ∷ rest)) n
            then panics
            else write_loop fuel (drop n (x ∷ rest))
    ]

    unfoldable pub write_all : List ℕ → M Error (Stream × W) (Unit {0})
    unfolding write_loop
    write_all buf = write_loop (suc (length buf)) buf
