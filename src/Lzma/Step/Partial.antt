-- ===== src/Lzma/Step/Partial.antt =====
-- src/decode/lzma.rs, `process_next_inner`: a step leaves `partial_input_buf` alone.
use lzma_no_std_rs.Base.{
  ℕ, ◌+◌, ◌-◌, ◌^◌, refl, ap, Bool, ◌&&◌, not, ltb, ◌==◌, if◌then◌else◌, usize, shl, low_bits, M,
  ◌>>=◌, return, when, map_err, Keeps, >>=-Keeps, when-Keeps, if-Keeps,
}
use lzma_no_std_rs.Io.Interface.{BufRead, Write}
use lzma_no_std_rs.Io.Cursor.{Cursor}
use lzma_no_std_rs.Error.{Error, io_error}
use lzma_no_std_rs.LzBuffer.Pure.{Reads}
use lzma_no_std_rs.LzBuffer.{last_or, append_literal}
use lzma_no_std_rs.RangeDecoder.{RangeDecoder, get, is_finished_ok}
use lzma_no_std_rs.Lzma.Literal.{
  literal_bits, read_match_byte, decode_literal, on_state, on_coder, lit_state_of, on_literal_probs,
  find_probs,
}
use lzma_no_std_rs.Lzma.Distance.{
  decode_distance, read_pos_slot, read_pos_bits, read_align, direct_bits,
}
use lzma_no_std_rs.Lzma.State.{
  DecoderState, on_output, get_params, match_bit_at, rep_bit_at, rep_g0_bit_at, rep_g1_bit_at,
  rep_g2_bit_at, rep_0long_bit_at, read_len, read_rep_len,
}
use lzma_no_std_rs.Lzma.Step
use lzma_no_std_rs.Lzma.Step.{
  Session, on_decoder, literal_step, long_rep_step, rep_index, rep_step, short_rep_step, match_step,
  end_step, copy_match, process_next_inner,
}
use lzma_no_std_rs.Lzma.Step.Pure.{get_params-Reads, find_probs-Reads, read_match_byte-Reads}

module _ {R : Type 0} where
  abbrev tmp_of : RangeDecoder R × DecoderState → Cursor
  tmp_of s = s.1.partial_input_buf

  abbrev Spared : {A : Type 0} → M Error (RangeDecoder R × DecoderState) A → Type 0
  Spared m = Keeps tmp_of m

  >>=-Spared :
      {A B : Type 0} (m : M Error (RangeDecoder R × DecoderState) A)
      (f : A → M Error (RangeDecoder R × DecoderState) B)
      → Spared m
      → ((a : A) → Spared (f a))
      → Spared (m >>= f)
  >>=-Spared m f = >>=-Keeps tmp_of m f

  if-Spared :
      {A : Type 0} (b : Bool) (m n : M Error (RangeDecoder R × DecoderState) A)
      → Spared m
      → Spared n
      → Spared (if b then m else n)
  if-Spared b m n = if-Keeps tmp_of b m n

  on_state-Spared : {A : Type 0} (m : M Error DecoderState A) → Reads m → Spared (on_state m)
  on_state-Spared m h s = ap (λ d. d.partial_input_buf) (h s.1)

module _ {R : Type 0} ⦃rd : BufRead R⦄ where
  decode_literal-Spared : (update : Bool) → Spared (decode_literal {R = R} update)
  unfolding decode_literal
  decode_literal-Spared update =
      >>=-Spared (on_state get_params) _ (on_state-Spared get_params get_params-Reads) λ params.
        >>=-Spared (on_state (on_output (last_or 0))) _ (λ s. refl)
          λ prev_byte s.
            let lit_state : ℕ = lit_state_of params s.1.output.len prev_byte in
            >>=-Spared (on_state (find_probs lit_state)) _
              (on_state-Spared (find_probs lit_state) (find_probs-Reads lit_state))
              (λ _.
                >>=-Spared (on_state read_match_byte) _
                  (on_state-Spared read_match_byte read_match_byte-Reads)
                  λ matched.
                    >>=-Spared (on_literal_probs lit_state (literal_bits update matched)) _
                      (λ s. refl) (λ result s. refl))
              s

  decode_distance-Spared : (n : ℕ) (update : Bool) → Spared (decode_distance {R = R} n update)
  unfolding decode_distance read_pos_slot read_pos_bits read_align
  decode_distance-Spared n update =
      >>=-Spared (read_pos_slot _ update) _ (λ s. refl)
        λ pos_slot.
          if-Spared (ltb pos_slot 4) _ _ (λ s. refl)
            (if-Spared (ltb pos_slot 14) _ _
              (>>=-Spared (read_pos_bits _ _ update) _ (λ s. refl) (λ low s. refl))
              (>>=-Spared (on_coder (get (usize (direct_bits pos_slot + 2 ^ 64 - 4)))) _ (λ s. refl)
                λ high. >>=-Spared (read_align update) _ (λ s. refl) (λ low s. refl)))

  match_bit_at-Spared : (i : ℕ) (update : Bool) → Spared (match_bit_at {R = R} i update)
  unfolding match_bit_at
  match_bit_at-Spared i update s = refl

  rep_bit_at-Spared : (i : ℕ) (update : Bool) → Spared (rep_bit_at {R = R} i update)
  unfolding rep_bit_at
  rep_bit_at-Spared i update s = refl

  rep_g0_bit_at-Spared : (i : ℕ) (update : Bool) → Spared (rep_g0_bit_at {R = R} i update)
  unfolding rep_g0_bit_at
  rep_g0_bit_at-Spared i update s = refl

  rep_g1_bit_at-Spared : (i : ℕ) (update : Bool) → Spared (rep_g1_bit_at {R = R} i update)
  unfolding rep_g1_bit_at
  rep_g1_bit_at-Spared i update s = refl

  rep_g2_bit_at-Spared : (i : ℕ) (update : Bool) → Spared (rep_g2_bit_at {R = R} i update)
  unfolding rep_g2_bit_at
  rep_g2_bit_at-Spared i update s = refl

  rep_0long_bit_at-Spared : (i : ℕ) (update : Bool) → Spared (rep_0long_bit_at {R = R} i update)
  unfolding rep_0long_bit_at
  rep_0long_bit_at-Spared i update s = refl

  read_len-Spared : (i : ℕ) (update : Bool) → Spared (read_len {R = R} i update)
  unfolding read_len
  read_len-Spared i update s = refl

  read_rep_len-Spared : (i : ℕ) (update : Bool) → Spared (read_rep_len {R = R} i update)
  unfolding read_rep_len
  read_rep_len-Spared i update s = refl

-- The same for the steps, whose state is the decoder beside the sink.
module _ {R W : Type 0} ⦃rd : BufRead R⦄ ⦃wr : Write W⦄ where
  abbrev pub kept_of : RangeDecoder R × Session W → Cursor
  kept_of s = s.1.0.partial_input_buf

  abbrev Leaves : {A : Type 0} → M Error (RangeDecoder R × Session W) A → Type 0
  Leaves m = Keeps kept_of m

  >>=-Leaves :
      {A B : Type 0} (m : M Error (RangeDecoder R × Session W) A)
      (f : A → M Error (RangeDecoder R × Session W) B)
      → Leaves m
      → ((a : A) → Leaves (f a))
      → Leaves (m >>= f)
  >>=-Leaves m f = >>=-Keeps kept_of m f

  if-Leaves :
      {A : Type 0} (b : Bool) (m n : M Error (RangeDecoder R × Session W) A)
      → Leaves m
      → Leaves n
      → Leaves (if b then m else n)
  if-Leaves b m n = if-Keeps kept_of b m n

  when-Leaves :
      (b : Bool) (m : M Error (RangeDecoder R × Session W) (Unit {0}))
      → Leaves m
      → Leaves (when b m)
  when-Leaves b m h = when-Keeps kept_of b m (λ _. h)

  on_decoder-Leaves :
      {A : Type 0} (m : M Error (RangeDecoder R × DecoderState) A)
      → Keeps (λ s. s.1.partial_input_buf) m
      → Leaves (on_decoder m)
  on_decoder-Leaves m h s = h (s.0, s.1.0)

  copy_match-Leaves : (len : ℕ) (update : Bool) → Leaves (copy_match len update)
  unfolding copy_match
  copy_match-Leaves len update =
      >>=-Leaves (when update _) _ (when-Leaves update _ (λ s. refl)) (λ _ s. refl)

  literal_step-Leaves : (update : Bool) → Leaves (literal_step update)
  unfolding literal_step
  literal_step-Leaves update =
      >>=-Leaves (on_decoder (decode_literal update)) _
        (on_decoder-Leaves (decode_literal update) (decode_literal-Spared update))
        λ byte.
          >>=-Leaves (when update _) _
            (when-Leaves update _
              (>>=-Leaves (Step.on_output (append_literal byte)) _ (λ s. refl) (λ _ s. refl)))
            (λ _ s. refl)

  short_rep_step-Leaves : (update : Bool) → Leaves (short_rep_step update)
  unfolding short_rep_step
  short_rep_step-Leaves update =
      >>=-Leaves (when update _) _ (when-Leaves update _ (λ s. refl)) (λ _ s. refl)

  long_rep_step-Leaves : (pos_state : ℕ) (update : Bool) → Leaves (long_rep_step pos_state update)
  unfolding long_rep_step
  long_rep_step-Leaves pos_state update =
      >>=-Leaves (on_decoder (read_rep_len pos_state update)) _
        (on_decoder-Leaves (read_rep_len pos_state update) (read_rep_len-Spared pos_state update))
        λ len.
          >>=-Leaves (when update _) _ (when-Leaves update _ (λ s. refl))
            (λ _. copy_match-Leaves len update)

  rep_index-Leaves : (update : Bool) → Leaves (rep_index update)
  unfolding rep_index
  rep_index-Leaves update s =
      >>=-Leaves (on_decoder (rep_g1_bit_at s.1.0.state update)) _
        (on_decoder-Leaves (rep_g1_bit_at s.1.0.state update)
          (rep_g1_bit_at-Spared s.1.0.state update))
        (λ g1.
          if-Leaves (not g1) (return 1) _ (λ s. refl)
            (>>=-Leaves (on_decoder (rep_g2_bit_at s.1.0.state update)) _
              (on_decoder-Leaves (rep_g2_bit_at s.1.0.state update)
                (rep_g2_bit_at-Spared s.1.0.state update))
              (λ g2 s. refl)))
        s

  rep_step-Leaves : (pos_state : ℕ) (update : Bool) → Leaves (rep_step pos_state update)
  unfolding rep_step
  rep_step-Leaves pos_state update s =
      let i : ℕ = usize (shl s.1.0.state 4) + pos_state in
      >>=-Leaves (on_decoder (rep_g0_bit_at s.1.0.state update)) _
        (on_decoder-Leaves (rep_g0_bit_at s.1.0.state update)
          (rep_g0_bit_at-Spared s.1.0.state update))
        (λ g0.
          if-Leaves (not g0) _ _
            (>>=-Leaves (on_decoder (rep_0long_bit_at i update)) _
              (on_decoder-Leaves (rep_0long_bit_at i update) (rep_0long_bit_at-Spared i update))
              (λ long.
                if-Leaves (not long) (short_rep_step update) (long_rep_step pos_state update)
                  (short_rep_step-Leaves update) (long_rep_step-Leaves pos_state update)))
            (>>=-Leaves (rep_index update) _ (rep_index-Leaves update) (λ idx.
              >>=-Leaves (when update _) _ (when-Leaves update _ (λ s. refl))
                (λ _. long_rep_step-Leaves pos_state update))))
        s

  end_step-Leaves : Leaves end_step
  unfolding end_step
  end_step-Leaves =
      >>=-Leaves (on_coder (map_err io_error is_finished_ok)) _ (λ s. refl)
        (λ finished_ok. if-Leaves finished_ok _ _ (λ s. refl) (λ s. refl))

  match_step-Leaves : (pos_state : ℕ) (update : Bool) → Leaves (match_step pos_state update)
  unfolding match_step
  match_step-Leaves pos_state update =
      >>=-Leaves (when update _) _ (when-Leaves update _ (λ s. refl)) λ _.
        >>=-Leaves (on_decoder (read_len pos_state update)) _
          (on_decoder-Leaves (read_len pos_state update) (read_len-Spared pos_state update))
          λ len. >>=-Leaves (when update _) _ (when-Leaves update _ (λ s. refl)) λ _.
            >>=-Leaves (on_decoder (decode_distance len update)) _
              (on_decoder-Leaves (decode_distance len update) (decode_distance-Spared len update))
              λ rep_0. >>=-Leaves (when update _) _ (when-Leaves update _ (λ s. refl)) (λ _.
                if-Leaves (update && (rep_0 == 0xFFFF_FFFF)) end_step (copy_match len update)
                  end_step-Leaves (copy_match-Leaves len update))

  -- A step leaves what is kept for the next call as it was, whatever comes of it.
  pub process_next_inner-Leaves : (update : Bool) → Leaves (process_next_inner update)
  unfolding process_next_inner
  process_next_inner-Leaves update =
      >>=-Leaves (on_decoder (on_state get_params)) _
        (on_decoder-Leaves (on_state get_params) (on_state-Spared get_params get_params-Reads))
        λ params s.
          let pos_state : ℕ = low_bits s.1.0.output.len params.pb in
          let i : ℕ = usize (shl s.1.0.state 4) + pos_state in
          >>=-Leaves (on_decoder (match_bit_at i update)) _
            (on_decoder-Leaves (match_bit_at i update) (match_bit_at-Spared i update))
            (λ is_match.
              if-Leaves (not is_match) (literal_step update) _ (literal_step-Leaves update) (
                >>=-Leaves (on_decoder (rep_bit_at s.1.0.state update)) _
                  (on_decoder-Leaves (rep_bit_at s.1.0.state update)
                    (rep_bit_at-Spared s.1.0.state update))
                  (λ is_rep.
                    if-Leaves is_rep (rep_step pos_state update) (match_step pos_state update)
                      (rep_step-Leaves pos_state update) (match_step-Leaves pos_state update))))
            s
