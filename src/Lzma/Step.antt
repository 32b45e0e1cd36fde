-- ===== src/Lzma/Step.antt =====
-- src/decode/lzma.rs, `process_next_inner`: one literal, one copy, or the end marker. The state is the
-- range decoder beside the pair of the decoder and the sink.
pub mod Pure
pub mod Rep
pub mod Goes
pub mod Select
pub mod Sound
pub mod Reader
pub mod Partial
pub mod Safe
pub mod Progress
use lzma_no_std_rs.Base.{
  ℕ, zero, suc, ◌+◌, ◌-◌, ◌*◌, ◌/◌, ◌%◌, ◌^◌, ◌≤◌, ◌<◌, min, bit_xor, ◌≡◌, refl, sym, ap, ap₂, ◌∙◌,
  subst, ◌≢◌, ◌⊎◌, inl, inr, Bool, true, false, ◌&&◌, ◌||◌, not, Option, none, some, List, [], ◌∷◌,
  ◌++◌, map, append-nil, append_assoc, arith, ltb, leb, ◌==◌, if◌then◌else◌, ltb→lt, lt→ltb, ltb→le,
  le→ltb, leb→le, ==_iff, Bool-cases, length, get_elem?, get_or, set, take, drop, replicate, All,
  length-append, length-set, length-replicate, length-take, length-drop, length-map,
  take-append-drop, take-length, take-set, take-suc-set, get_or-set_self, get_or-set_ne,
  get_elem?-eq-get_or, set-get_or, set-get_elem?, get_or-append_left, get_or-append_right,
  replicate-map, All-set, All-get_elem?, All-append, All-append_right, All-append_left,
  All-replicate, All-map_const, u8, u16, u32, u64, usize, shr, shl, low_bits, to_num, Result, ok,
  err, panic, Outcome, M, next, ◌>>=◌, ◌>>◌, return, throw, panics, gets, modify, expect, when,
  put_back, zoom, convert, relabel, map_err, of_io, Post, next-Post, Post-mono, put_back-Post,
  relabel-Post, Keeps, >>=-Keeps, when-Keeps, Sum-cases,
}
use lzma_no_std_rs.Base.{on_field}
use lzma_no_std_rs.Io.Interface.{IoError, BufRead, Write}
use lzma_no_std_rs.Error.{Error, io_error, lzma_error, eos_found_but_more_bytes_available}
use lzma_no_std_rs.LzBuffer
use lzma_no_std_rs.LzBuffer.{LzCircularBuffer}
use lzma_no_std_rs.RangeDecoder.{RangeDecoder, is_finished_ok}
use lzma_no_std_rs.RangeDecoder.LenDecoder
use lzma_no_std_rs.Lzma.Params.{LzmaParams}
use lzma_no_std_rs.Lzma.State.{
  DecoderState, ProcessingStatus, continue, finished, match_bit_at, rep_bit_at, rep_g0_bit_at,
  get_params, read_len, read_rep_len, rep_g1_bit_at, rep_g2_bit_at, rep_0long_bit_at,
}
use lzma_no_std_rs.Lzma.Literal.{on_state, on_coder, decode_literal}
use lzma_no_std_rs.Lzma.Distance.{decode_distance}

abbrev pub Session : Type 0 → Type 0
Session W = DecoderState × W

-- The next value of `state`, after a literal, a short repeat, a repeat and a match.
abbrev pub after_literal : ℕ → ℕ
after_literal state = if ltb state 4 then 0 else if ltb state 10 then state - 3 else state - 6

abbrev pub after_short_rep : ℕ → ℕ
after_short_rep state = if ltb state 7 then 9 else 11

abbrev pub after_rep : ℕ → ℕ
after_rep state = if ltb state 7 then 8 else 11

abbrev pub after_match : ℕ → ℕ
after_match state = if ltb state 7 then 7 else 10

-- `for i in (0..idx).rev() { self.rep[i + 1] = self.rep[i]; }`
unfoldable pub shift_rep : ℕ → List ℕ → List ℕ
shift_rep zero rep = rep
shift_rep (suc i) rep = shift_rep i (set rep (suc i) (get_or rep i 0))

-- The distance at `idx` moves to the front.
unfoldable pub move_to_front : ℕ → List ℕ → List ℕ
unfolding shift_rep
move_to_front idx rep = set (shift_rep idx rep) 0 (get_or rep idx 0)

-- `rep[3] = rep[2]; rep[2] = rep[1]; rep[1] = rep[0]`
unfoldable pub make_room : List ℕ → List ℕ
make_room rep =
    let third = set rep 3 (get_or rep 2 0) in
    let second = set third 2 (get_or third 1 0) in set second 1 (get_or second 0 0)

module _ {R W : Type 0} where
  -- A method of the decoder, without the sink.
  abbrev pub on_decoder :
      {A : Type 0}
      → M Error (RangeDecoder R × DecoderState) A
      → M Error (RangeDecoder R × Session W) A
  on_decoder = on_field (λ s. s.0) (λ d s. (d, s.1))

  abbrev pub update_decoder :
      (DecoderState → DecoderState) → M Error (RangeDecoder R × Session W) (Unit {0})
  update_decoder f = modify (λ s. (s.0, (f s.1.0, s.1.1)))

  abbrev pub read_decoder :
      {A : Type 0} → (DecoderState → A) → M Error (RangeDecoder R × Session W) A
  read_decoder f = gets (λ s. f s.1.0)

  -- A method of the output buffer, with the sink.
  abbrev pub on_output :
      {A : Type 0} → M Error (LzCircularBuffer × W) A → M Error (RangeDecoder R × Session W) A
  on_output = zoom (λ s. (s.1.0.output, s.1.1)) (λ b s. (s.0, (record s.1.0 { output = b.0 }, b.1)))

module _ {R W : Type 0} ⦃rd : BufRead R⦄ ⦃wr : Write W⦄ where
  -- `if update { len += 2; … append_lz … } Ok(Continue)`
  unfoldable pub copy_match : ℕ → Bool → M Error (RangeDecoder R × Session W) ProcessingStatus
  copy_match len update = do
    when update do
      rep_0 ← read_decoder (λ d. get_or d.rep 0 0)
      on_output (LzBuffer.append_lz (usize (len + 2)) (usize (rep_0 + 1)))
    return continue

  unfoldable pub literal_step : Bool → M Error (RangeDecoder R × Session W) ProcessingStatus
  literal_step update = do
    byte ← on_decoder (decode_literal update)
    when update do
      on_output (LzBuffer.append_literal byte)
      update_decoder (λ d. record d { state = after_literal d.state })
    return continue

  unfoldable pub short_rep_step : Bool → M Error (RangeDecoder R × Session W) ProcessingStatus
  short_rep_step update = do
    when update do
      update_decoder (λ d. record d { state = after_short_rep d.state })
      rep_0 ← read_decoder (λ d. get_or d.rep 0 0)
      on_output (LzBuffer.append_lz 1 (usize (rep_0 + 1)))
    return continue

  -- A repeat with a length.
  unfoldable pub long_rep_step : ℕ → Bool → M Error (RangeDecoder R × Session W) ProcessingStatus
  long_rep_step pos_state update = do
    len ← on_decoder (read_rep_len pos_state update)
    when update (update_decoder (λ d. record d { state = after_rep d.state }))
    copy_match len update

  -- `idx`, from 1 to 3
  unfoldable pub rep_index : Bool → M Error (RangeDecoder R × Session W) ℕ
  rep_index update = do
    state ← read_decoder (λ d. d.state)
    g1 ← on_decoder (rep_g1_bit_at state update)
    if not g1
        then return 1
        else do g2 ← on_decoder (rep_g2_bit_at state update); return (if g2 then 3 else 2)

  unfoldable pub rep_step : ℕ → Bool → M Error (RangeDecoder R × Session W) ProcessingStatus
  rep_step pos_state update = do
    state ← read_decoder (λ d. d.state)
    g0 ← on_decoder (rep_g0_bit_at state update)
    if not g0
        then (do
          long ← on_decoder (rep_0long_bit_at (usize (shl state 4) + pos_state) update)
          if not long then short_rep_step update else long_rep_step pos_state update)
        else do
          idx ← rep_index update
          when update (update_decoder (λ d. record d { rep = move_to_front idx d.rep }))
          long_rep_step pos_state update

  -- The distance 0xFFFF_FFFF is the end marker.
  unfoldable pub end_step : M Error (RangeDecoder R × Session W) ProcessingStatus
  end_step = do
    finished_ok ← on_coder (map_err io_error is_finished_ok)
    if finished_ok
        then (do update_decoder (λ d. record d { processing_status = finished }); return finished)
        else throw (lzma_error eos_found_but_more_bytes_available)

  unfoldable pub match_step : ℕ → Bool → M Error (RangeDecoder R × Session W) ProcessingStatus
  match_step pos_state update = do
    when update (update_decoder (λ d. record d { rep = make_room d.rep }))
    len ← on_decoder (read_len pos_state update)
    when update (update_decoder (λ d. record d { state = after_match d.state }))
    rep_0 ← on_decoder (decode_distance len update)
    when update (update_decoder (λ d. record d { rep = set d.rep 0 rep_0 }))
    if update && (rep_0 == 0xFFFF_FFFF) then end_step else copy_match len update

  unfoldable pub process_next_inner : Bool → M Error (RangeDecoder R × Session W) ProcessingStatus
  process_next_inner update = do
    params ← on_decoder (on_state get_params)
    pos_state ← read_decoder (λ d. low_bits d.output.len params.pb)
    state ← read_decoder (λ d. d.state)
    is_match ← on_decoder (match_bit_at (usize (shl state 4) + pos_state) update)
    if not is_match then literal_step update else do
      is_rep ← on_decoder (rep_bit_at state update)
      if is_rep then rep_step pos_state update else match_step pos_state update

  unfoldable pub process_next : M Error (RangeDecoder R × Session W) ProcessingStatus
  process_next = process_next_inner true
