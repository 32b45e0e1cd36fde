-- ===== src/Lzma/Process.antt =====
-- src/decode/lzma.rs, `process_mode` and what it calls: the loop over the steps, on the input at hand or
-- on what was kept of it for the next call.
pub mod Probe
pub mod Valid
pub mod Slice
pub mod Fill
pub mod Rounds
pub mod Total
use lzma_no_std_rs.Base.{
  ℕ, zero, suc, ◌+◌, ◌-◌, ◌*◌, ◌/◌, ◌%◌, ◌^◌, ◌≤◌, ◌<◌, min, bit_xor, ◌≡◌, refl, sym, ap, ap₂, ◌∙◌,
  subst, ◌≢◌, ◌⊎◌, inl, inr, Bool, true, false, ◌&&◌, ◌||◌, not, Option, none, some, List, [], ◌∷◌,
  ◌++◌, map, append-nil, append_assoc, arith, ltb, leb, ◌==◌, if◌then◌else◌, ltb→lt, lt→ltb, ltb→le,
  le→ltb, leb→le, ==_iff, Bool-cases, length, get_elem?, get_or, set, take, drop, replicate, All,
  length-append, length-set, length-replicate, length-take, length-drop, length-map,
  take-append-drop, take-length, take-set, take-suc-set, get_or-set_self, get_or-set_ne,
  get_elem?-eq-get_or, set-get_or, set-get_elem?, get_or-append_left, get_or-append_right,
  replicate-map, All-set, All-get_elem?, All-append, All-append_right, All-append_left,
  All-replicate, All-map_const, u8, u16, u32, u64, usize, shr, shl, low_bits, to_num, Result, ok,
  err, panic, Outcome, M, next, ◌>>=◌, ◌>>◌, return, throw, panics, gets, modify, expect, when,
  put_back, zoom, convert, relabel, map_err, of_io, Post, next-Post, Post-mono, put_back-Post,
  relabel-Post, Keeps, >>=-Keeps, when-Keeps, Sum-cases,
}
use lzma_no_std_rs.Io.Interface.{IoError, BufRead, Write}
use lzma_no_std_rs.Io.Cursor
use lzma_no_std_rs.Io.Cursor.{Cursor}
use lzma_no_std_rs.Io.Cursor.Reader.{cursor_reader}
use lzma_no_std_rs.Error.{Error, io_error, lzma_error, processed_data_does_not_match_unpacked_size}
use lzma_no_std_rs.RangeDecoder.{
  RangeDecoder, from_parts, set_parts, read_into, is_eof, is_finished_ok,
}
use lzma_no_std_rs.Lzma.Params.{LzmaParams}
use lzma_no_std_rs.Lzma.State.{
  DecoderState, ProcessingMode, partial, finish, ProcessingStatus, uninitialized, get_params,
  continue, finished, max_required_input,
}
use lzma_no_std_rs.Lzma.Literal.{on_coder, on_state}
use lzma_no_std_rs.Lzma.Step.{
  on_decoder, Session, read_decoder, update_decoder, process_next, process_next_inner,
}

-- How a round of the loop ends: with the next one, with `break`, or with `return Ok(())`.
pub data Round : Type 0 where
  again break return_ok : Round

-- `.is_err()`: the error is dropped, what was done stays.
abbrev pub is_err_of : {E S A : Type 0} → Result E A × S → Result E Bool × S
is_err_of (ok a, s) = (ok false, s)
is_err_of (err e, s) = (ok true, s)
is_err_of (panic, s) = (panic, s)

abbrev pub is_err : {E S A : Type 0} → M E S A → M E S Bool
is_err m s = is_err_of (m s)

-- A method with a range decoder of its own, on a slice: it comes back with the value.
abbrev pub hand_back :
    {C T S A : Type 0} → C → Result Error A × (T × S) → Result Error (A × T) × (C × S)
hand_back c (ok a, (t, s)) = (ok (a, t), (c, s))
hand_back c (err e, (t, s)) = (err e, (c, s))
hand_back c (panic, (t, s)) = (panic, (c, s))

abbrev pub is_partial : ProcessingMode → Bool
is_partial partial = true
is_partial finish = false

abbrev pub position : DecoderState → ℕ
position d = d.partial_input_buf.pos

abbrev pub after_step : ProcessingStatus → Round
after_step finished = break
after_step _ = again

module _ {R W : Type 0} ⦃rd : BufRead R⦄ ⦃wr : Write W⦄ where
  abbrev pub on_slice :
      {A : Type 0}
      → List ℕ
      → M Error (RangeDecoder Cursor × Session W) A
      → M Error (RangeDecoder R × Session W) (A × RangeDecoder Cursor)
  on_slice buf m s = hand_back s.0 (m (from_parts (Cursor.new buf) s.0.range s.0.code, s.1))

  unfoldable pub try_process_next : List ℕ → M Error (RangeDecoder R × Session W) (Unit {0})
  try_process_next buf = do _ ← on_slice buf (process_next_inner false); return tt

  -- `&mut self.partial_input_buf.get_mut()[start..]` takes what `read` gives.
  unfoldable pub read_partial_input_buf : M Error (RangeDecoder R × Session W) (Unit {0})
  read_partial_input_buf = do
    start ← read_decoder (λ d. d.partial_input_buf.pos)
    inner ← read_decoder (λ d. d.partial_input_buf.inner)
    if ltb (length inner) start then panics else do
      bytes ← on_coder (map_err io_error (read_into (length inner - start)))
      update_decoder λ d. record d {
        partial_input_buf = record {
          inner = take start inner ++ bytes ++ drop (start + length bytes) inner;
          pos = start + length bytes;
        };
      }

  -- The test for the end of the input, in streaming mode and in synchronous mode.
  unfoldable pub at_end : ProcessingMode → M Error (RangeDecoder R × Session W) Bool
  at_end partial = do
    eof ← on_coder (map_err io_error is_eof)
    read_decoder (λ d. eof && (position d == 0))
  at_end finish = do
    finished_ok ← on_coder (map_err io_error is_finished_ok)
    read_decoder (λ d. finished_ok && (position d == 0))

  -- The test at the head of the loop.
  unfoldable pub is_done : ProcessingMode → Option ℕ → M Error (RangeDecoder R × Session W) Bool
  is_done mode (some unpacked_size) = read_decoder (λ d. leb unpacked_size d.output.len)
  is_done mode none = at_end mode

  -- `mode == Partial && short && self.try_process_next(..).is_err()`
  unfoldable pub is_starved :
      ProcessingMode → Bool → List ℕ → M Error (RangeDecoder R × Session W) Bool
  is_starved mode short buf =
      if is_partial mode && short then is_err (try_process_next buf) else return false

  -- What a step left of the kept bytes moves to the front of the buffer.
  unfoldable pub keep_rest : List ℕ → ℕ → ℕ → M Error (RangeDecoder R × Session W) (Unit {0})
  keep_rest tmp end used =
      if ltb end used
      then panics
      else update_decoder λ d. record d {
        partial_input_buf = record {
          inner = take (end - used) (drop used tmp) ++ drop (end - used) d.partial_input_buf.inner;
          pos = end - used;
        };
      }

  -- A round with kept bytes.
  unfoldable pub kept_round : ProcessingMode → M Error (RangeDecoder R × Session W) Round
  kept_round mode = do
    read_partial_input_buf
    tmp ← read_decoder (λ d. d.partial_input_buf.inner)
    end ← read_decoder position
    starved ← is_starved mode (ltb end max_required_input) (take end tmp)
    if starved then return return_ok else do
      done ← on_slice (take end tmp) process_next
      on_coder (modify (set_parts done.1.range done.1.code))
      keep_rest tmp end done.1.stream.pos
      return (after_step done.0)

  -- A round on the input itself.
  unfoldable pub input_round : ProcessingMode → M Error (RangeDecoder R × Session W) Round
  input_round mode = do
    buf ← on_coder (
        map_err io_error
          (λ c. put_back (λ r c. record c { stream = r }) c (of_io (rd.fill_buf c.stream))))
    starved ← is_starved mode (ltb (length buf) max_required_input) buf
    if starved
        then (do read_partial_input_buf; return return_ok)
        else do status ← process_next; return (after_step status)

  unfoldable pub round : ProcessingMode → Option ℕ → M Error (RangeDecoder R × Session W) Round
  round mode unpacked_size = do
    done ← is_done mode unpacked_size
    kept ← read_decoder (λ d. ltb 0 (position d))
    if done then return break else if kept then kept_round mode else input_round mode

  -- The loop; running out of fuel counts as a panic.
  unfoldable pub process_loop :
      ℕ → ProcessingMode → Option ℕ → M Error (RangeDecoder R × Session W) Round
  process_loop zero mode unpacked_size = panics
  process_loop (suc fuel) mode unpacked_size = do
    r ← round mode unpacked_size
    elim r [
      | again ↦ process_loop fuel mode unpacked_size
      | break ↦ return break
      | return_ok ↦ return return_ok
    ]

  -- The check behind the loop.
  unfoldable pub check_size :
      ProcessingMode → Option ℕ → M Error (RangeDecoder R × Session W) (Unit {0})
  check_size partial unpacked_size = return tt
  check_size finish none = return tt
  check_size finish (some unpacked_size) = do
    len ← read_decoder (λ d. d.output.len)
    if unpacked_size == len
        then return tt
        else throw (lzma_error (processed_data_does_not_match_unpacked_size unpacked_size len))

  -- Each round shrinks the range, or takes a byte of the input.
  abbrev pub fuel_for : RangeDecoder R × Session W → ℕ
  fuel_for s = (length (rd.pending s.0.stream) + s.1.0.partial_input_buf.pos + 1) * 2 ^ 32

  unfoldable pub process_mode : ProcessingMode → M Error (RangeDecoder R × Session W) (Unit {0})
  process_mode mode = do
    status ← read_decoder (λ d. d.processing_status)
    elim status [ uninitialized ↦ panics | _ ↦ return tt ]
    params ← on_decoder (on_state get_params)
    r ← (λ s. process_loop (fuel_for s) mode params.unpacked_size s)
    elim r [ return_ok ↦ return tt | _ ↦ check_size mode params.unpacked_size ]

  unfoldable pub process : M Error (RangeDecoder R × Session W) (Unit {0})
  process = process_mode finish

  unfoldable pub process_stream : M Error (RangeDecoder R × Session W) (Unit {0})
  process_stream = process_mode partial
