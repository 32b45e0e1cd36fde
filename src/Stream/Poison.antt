-- ===== src/Stream/Poison.antt =====
-- src/decode/stream.rs, `write`: an error leaves the stream in `InvalidState`, where it refuses all input.
use lzma_no_std_rs.Base.{
  ℕ, ◌≡◌, refl, ◌∙◌, Option, none, some, List, ltb, Result, ok, err, panic, M, ◌>>=◌, ◌>>◌, return,
  panics, modify, expect, put_back, Keeps, >>=-Keeps, if-Keeps,
}
use lzma_no_std_rs.Base.{Upto, next-Upto, Keeps-Upto}
use lzma_no_std_rs.Io.Interface.{Write}
use lzma_no_std_rs.Io.Endian.{Endian}
use lzma_no_std_rs.Io.Cursor
use lzma_no_std_rs.Io.Cursor.{Cursor}
use lzma_no_std_rs.Io.Cursor.Reader.{cursor_reader}
use lzma_no_std_rs.Error.{Error}
use lzma_no_std_rs.RangeDecoder.{from_parts}
use lzma_no_std_rs.Lzma.State.{ProcessingStatus}
use lzma_no_std_rs.Lzma.Process.{process_stream}
use lzma_no_std_rs.Stream.{
  Stream, State, header, running, RunState, kept, take_state, get_stream_status, StreamStatus,
  processing_header, processing_data, eos_reached, status_of, data_status, shown,
}
use lzma_no_std_rs.Stream.Header.{header_write}
use lzma_no_std_rs.Stream.Feed.{on_stream, on_input, read_data, data_write, write_in, write}
use lzma_no_std_rs.Stream.Status.{hand_back-keeps, Poisoned, Settled, header_write-Upto, IsLive}
use lzma_no_std_rs.Error.{stream_error, StreamError}

abbrev Unknown : {A S : Type 0} → A → S → Type 0
Unknown a s = Unit

abbrev Never : {S : Type 0} → S → Type 0
Never s = ⊥

-- The state is read without an error.
expect-Upto : {A : Type 0} (o : Option A) (s : Stream) → Upto Unknown Never (expect {E = Error} o s)
expect-Upto none s = tt
expect-Upto (some a) s = tt

shown-Upto :
    (n : ℕ) (size : Option ℕ) (status : ProcessingStatus) (s : Stream)
    → Upto Unknown Never (shown n size status s)
unfolding shown
shown-Upto n size ProcessingStatus.uninitialized s = tt
shown-Upto n size ProcessingStatus.continue s = tt
shown-Upto n size ProcessingStatus.finished s = tt

status_of-Upto : (st : State) (s : Stream) → Upto Unknown Never (status_of st s)
unfolding status_of data_status shown
status_of-Upto header s = tt
status_of-Upto (running run) s =
    next-Upto Unknown Unknown Never (expect s.decoder.params s) _ (expect-Upto s.decoder.params s)
      (λ params t _. shown-Upto _ _ t.decoder.processing_status t)
status_of-Upto State.invalid_state s = tt
status_of-Upto State.uninitialized s = tt

status-Upto : (s : Stream) → Upto Unknown Never (get_stream_status s)
unfolding get_stream_status
status-Upto s = status_of-Upto s.state s

module _ {W : Type 0} ⦃wr : Write W⦄ where
  abbrev stream_state : Stream × W → State
  stream_state s = s.0.state

  abbrev pub Bare : Stream × W → Type 0
  Bare s = Poisoned s.0

  abbrev SettledOn : State × Cursor → Stream × W → Type 0
  SettledOn res s = Settled res s.0

  lifted :
      (s : Stream × W) (o : Result Error StreamStatus × Stream)
      → Upto Unknown Never o
      → Upto Unknown Bare (put_back {S = Stream × W} (λ t u. (t, u.1)) s o)
  lifted s (ok a, t) h = tt
  lifted s (err x, t) h = absurd h
  lifted s (panic, t) h = tt

  status_on : (s : Stream × W) → Upto Unknown Bare (on_stream get_stream_status s)
  status_on s = lifted s (get_stream_status s.0) (status-Upto s.0)

  guard-Upto :
      (status : StreamStatus) (s : Stream × W)
      → Upto Unknown Bare (
          let guard : M Error (Stream × W) (Unit {0}) = elim status [
            | StreamStatus.uninitialized ↦ panics
            | _ ↦ return tt
          ] in
          guard s)
  guard-Upto StreamStatus.uninitialized s = tt
  guard-Upto processing_header s = tt
  guard-Upto (processing_data n size) s = tt
  guard-Upto StreamStatus.invalid_state s = tt
  guard-Upto eos_reached s = tt

  read_data-Keeps :
      (run : RunState) (input : Cursor) → Keeps stream_state (read_data {W = W} run input)
  unfolding read_data
  read_data-Keeps run input =
      >>=-Keeps stream_state (on_input (from_parts input run.range run.code) process_stream) _
        (λ s.
          hand_back-keeps s
            (process_stream (from_parts input run.range run.code, (s.0.decoder, s.1))))
        (λ a s. refl)

  kept_data-Keeps :
      (run : RunState) (bytes : List ℕ)
      → Keeps stream_state (
          read_data {W = W} run (Cursor.new bytes) >>= λ res.
          on_stream {W = W} (modify (λ s. record s { tmp = Cursor.set_position 0 s.tmp }))
          >> return res.0)
  kept_data-Keeps run bytes =
      >>=-Keeps stream_state (read_data run (Cursor.new bytes)) _
        (read_data-Keeps run (Cursor.new bytes)) (λ res s. refl)

  data_write-Upto :
      (run : RunState) (input : Cursor) (s : Stream × W)
      → Bare s
      → Upto SettledOn Bare (data_write run input s)
  unfolding data_write
  data_write-Upto run input s h =
      next-Upto (λ _. Bare) SettledOn Bare _
        (λ run'. read_data run' input >>= λ res. return (running res.0, res.1))
        (Keeps-Upto Bare _ (
          if-Keeps stream_state (ltb 0 s.0.tmp.pos) _ _ (kept_data-Keeps run (kept s.0)) (λ t. refl)
            s
          ∙ h))
        λ run' t k.
          next-Upto (λ _. Bare) SettledOn Bare (read_data run' input t) _
            (Keeps-Upto Bare (read_data run' input t) (read_data-Keeps run' input t ∙ k))
            (λ res u l. (tt, l))

  module _ ⦃e : Endian⦄ (dict_mem_limit probs_mem_limit : ℕ) where
    header_on-Upto :
        (o : Result Error (State × Cursor) × Stream) (s : Stream × W)
        → Upto Settled Poisoned o
        → Upto SettledOn Bare (put_back {S = Stream × W} (λ t u. (t, u.1)) s o)
    header_on-Upto (ok res, t) s h = h
    header_on-Upto (err x, t) s h = h
    header_on-Upto (panic, t) s h = h

    write_in-Upto :
        (st : State) (input : Cursor) (s : Stream × W)
        → Bare s
        → Upto SettledOn Bare (write_in dict_mem_limit probs_mem_limit st input s)
    unfolding write_in
    write_in-Upto header input s h =
        header_on-Upto (header_write dict_mem_limit probs_mem_limit input s.0) s
          (header_write-Upto dict_mem_limit probs_mem_limit input s.0 h)
    write_in-Upto (running run) input s h = data_write-Upto run input s h
    write_in-Upto State.invalid_state input s h = h
    write_in-Upto State.uninitialized input s h = tt

    refuses-Bare :
        (again : List ℕ) (s : Stream × W)
        → Bare s
        → (write dict_mem_limit probs_mem_limit again s).0
          ≡ err (stream_error StreamError.invalid_state)
    unfolding write take_state write_in get_stream_status status_of
    refuses-Bare again s h = rw h refl

    refused :
        (again : List ℕ) (o : Result Error ℕ × (Stream × W)) (x : Error)
        → o.0 ≡ err x
        → Upto (λ _ s'. IsLive s'.0.state) Bare o
        → (write dict_mem_limit probs_mem_limit again o.1).0
          ≡ err (stream_error StreamError.invalid_state)
    refused again (err y, s) x e h = refuses-Bare again s h
    refused again (ok n, s) x e h = cc
    refused again (panic, s) x e h = cc

    -- A call of write that returns a count leaves the stream waiting for its header or running, and
    -- one that returns an error leaves it in InvalidState.
    pub write-Upto :
        (chunk : List ℕ) (s : Stream × W)
        → Upto (λ _ s'. IsLive s'.0.state) Bare (write dict_mem_limit probs_mem_limit chunk s)
    unfolding write take_state
    write-Upto chunk s =
        next-Upto Unknown _ Bare (on_stream get_stream_status s) _ (status_on s) λ status t _.
          next-Upto Unknown _ Bare _ _ (guard-Upto status t) λ u v _.
            next-Upto SettledOn _ Bare
              (write_in dict_mem_limit probs_mem_limit v.0.state (Cursor.new chunk)
                (record v.0 { state = State.invalid_state }, v.1))
              _
              (write_in-Upto v.0.state (Cursor.new chunk)
                (record v.0 { state = State.invalid_state }, v.1) refl)
              (λ res w live. live.0)

    -- After a call of write that returned an error, every further call of write, on any chunk,
    -- returns the error InvalidState.
    pub write-refuses :
        (chunk again : List ℕ) (s : Stream × W) (x : Error)
        → (write dict_mem_limit probs_mem_limit chunk s).0 ≡ err x
        → (write dict_mem_limit probs_mem_limit again
            (write dict_mem_limit probs_mem_limit chunk s).1).0
          ≡ err (stream_error StreamError.invalid_state)
    write-refuses chunk again s x e =
        refused again (write dict_mem_limit probs_mem_limit chunk s) x e (write-Upto chunk s)
