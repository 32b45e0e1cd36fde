-- ===== src/Lzma/Step/Pure.antt =====
-- src/decode/lzma.rs, `try_process_next`: a step with `update` false tries the input and changes nothing
-- but the range decoder.
use lzma_no_std_rs.Base.{
  ℕ, zero, suc, ◌+◌, ◌-◌, ◌^◌, ◌≡◌, refl, ap, false, not, Option, none, some, List, ltb, leb, ◌==◌,
  get_elem?, get_or, usize, shr, shl, low_bits, to_num, M, return, map_err, >>=-Keeps, if-Keeps,
}
use lzma_no_std_rs.Base.{Spares, at_elem, at_elem-Spares, on_field-Spares, >>=-Spares, if-Spares}
use lzma_no_std_rs.Io.Interface.{BufRead, Write}
use lzma_no_std_rs.Error.{Error, io_error}
use lzma_no_std_rs.LzBuffer.Pure.{Reads, last_or-Reads, last_n-Reads, expect-Reads}
use lzma_no_std_rs.LzBuffer.{last_or, last_n}
use lzma_no_std_rs.RangeDecoder.{RangeDecoder, decode_bit_at, get, parse_reverse_bit_tree}
use lzma_no_std_rs.RangeDecoder.BitTree
use lzma_no_std_rs.RangeDecoder.LenDecoder
use lzma_no_std_rs.RangeDecoder.Lookahead.{
  decode_bit_at-Spares, parse-Spares, parse_reverse-Spares, parse_reverse_bit_tree-Spares,
  decode-Spares,
}
use lzma_no_std_rs.Lzma.Literal.{
  plain_loop, matched_loop, literal_bits, read_match_byte, decode_literal, on_state, on_coder,
  lit_state_of, on_literal_probs, find_probs, byte_back,
}
use lzma_no_std_rs.Lzma.Distance.{
  decode_distance, read_pos_slot, read_pos_bits, read_align, direct_bits,
}
use lzma_no_std_rs.Lzma.State.{
  DecoderState, on_output, bit_of, get_params, match_bit_at, rep_bit_at, rep_g0_bit_at,
  rep_g1_bit_at, rep_g2_bit_at, rep_0long_bit_at, read_len, read_rep_len,
}
use lzma_no_std_rs.Lzma.Step.{
  on_decoder, literal_step, long_rep_step, rep_index, rep_step, short_rep_step, match_step,
  copy_match, process_next_inner,
}
use lzma_no_std_rs.LzBuffer.{LzCircularBuffer}

module _ {R : Type 0} ⦃rd : BufRead R⦄ where
  plain_loop-Spares : (fuel result : ℕ) → Spares (plain_loop {R = R} false fuel result)
  unfolding plain_loop
  plain_loop-Spares zero result s = refl
  plain_loop-Spares (suc fuel) result s =
      if-Spares (ltb result 0x100) _ _
        (>>=-Spares (decode_bit_at result false) _ (decode_bit_at-Spares result)
          (λ bit. plain_loop-Spares fuel _))
        (λ s. refl) s

  matched_loop-Spares :
      (fuel match_byte result : ℕ) → Spares (matched_loop {R = R} false fuel match_byte result)
  unfolding matched_loop
  matched_loop-Spares zero match_byte result s = refl
  matched_loop-Spares (suc fuel) match_byte result s =
      if-Spares (ltb result 0x100) _ _
        (>>=-Spares (decode_bit_at _ false) _ (decode_bit_at-Spares _) (λ bit.
          if-Spares (low_bits (shr match_byte 7) 1 == to_num bit) _ _ (matched_loop-Spares fuel _ _)
            (λ s. refl)))
        (λ s. refl) s

  literal_bits-Spares : (o : Option ℕ) → Spares (literal_bits {R = R} false o)
  unfolding literal_bits
  literal_bits-Spares none = plain_loop-Spares 8 1
  literal_bits-Spares (some b) =
      >>=-Spares (matched_loop false 8 b 1) _ (matched_loop-Spares 8 b 1)
        (λ result. plain_loop-Spares 8 result)

-- A method that only reads the decoder.
on_state-Spares :
    {R A S : Type 0} (m : M Error S A)
    → Reads m
    → Spares (on_state {R = R} {E = Error} {A = A} {S = S} m)
on_state-Spares m h s = h s.1

on_output-Reads : {A : Type 0} (m : M Error LzCircularBuffer A) → Reads m → Reads (on_output m)
on_output-Reads m h d = ap (λ b. record d { output = b }) (h d.output)

byte_back-Reads : Reads byte_back
unfolding byte_back
byte_back-Reads d =
    >>=-Keeps (λ d. d) (on_output (last_n (usize (get_or d.rep 0 0 + 1))))
      (λ byte. return (some byte))
      (on_output-Reads (last_n (usize (get_or d.rep 0 0 + 1))) (last_n-Reads _)) (λ byte d. refl) d

pub read_match_byte-Reads : Reads read_match_byte
unfolding read_match_byte
read_match_byte-Reads d =
    if-Keeps (λ d. d) (leb 7 d.state) byte_back (return none) byte_back-Reads (λ d. refl) d

pub get_params-Reads : Reads get_params
unfolding get_params
get_params-Reads = expect-Reads (λ (d : DecoderState). d.params)

pub find_probs-Reads : (i : ℕ) → Reads (find_probs i)
unfolding find_probs
find_probs-Reads i = expect-Reads (λ (d : DecoderState). get_elem? d.literal_probs i)

module _ {R : Type 0} ⦃rd : BufRead R⦄ where
  decode_literal-Spares : Spares (decode_literal {R = R} false)
  unfolding decode_literal
  decode_literal-Spares =
      >>=-Spares (on_state get_params) _ (on_state-Spares get_params get_params-Reads) λ params.
        >>=-Spares (on_state (on_output (last_or 0))) _
          (on_state-Spares (on_output (last_or 0)) (on_output-Reads (last_or 0) (last_or-Reads 0)))
          λ prev_byte s.
            let lit_state : ℕ = lit_state_of params s.1.output.len prev_byte in
            >>=-Spares (on_state (find_probs lit_state)) _
              (on_state-Spares (find_probs lit_state) (find_probs-Reads lit_state))
              (λ _.
                >>=-Spares (on_state read_match_byte) _
                  (on_state-Spares read_match_byte read_match_byte-Reads)
                  λ matched.
                    >>=-Spares (on_literal_probs lit_state (literal_bits false matched)) _
                      (on_field-Spares (λ d. d.literal_probs)
                        (λ t d. record d { literal_probs = t })
                        (at_elem lit_state (map_err io_error (literal_bits false matched)))
                        (λ d. refl)
                        (at_elem-Spares lit_state (map_err io_error (literal_bits false matched))
                          (literal_bits-Spares matched)))
                      (λ result s. refl))
              s

  read_rep_len-Spares : (i : ℕ) → Spares (read_rep_len {R = R} i false)
  unfolding read_rep_len
  read_rep_len-Spares i =
      on_field-Spares (λ d. d.rep_len_decoder) (λ t d. record d { rep_len_decoder = t })
        (map_err io_error (LenDecoder.decode i false)) (λ d. refl) (decode-Spares i)

  read_len-Spares : (i : ℕ) → Spares (read_len {R = R} i false)
  unfolding read_len
  read_len-Spares i =
      on_field-Spares (λ d. d.len_decoder) (λ t d. record d { len_decoder = t })
        (map_err io_error (LenDecoder.decode i false)) (λ d. refl) (decode-Spares i)

  coded :
      (get : DecoderState → List ℕ) (put : List ℕ → DecoderState → DecoderState)
      → ((d : DecoderState) → put (get d) d ≡ d)
      → (i : ℕ) → Spares (bit_of {R = R} get put i false)
  coded get put same i =
      on_field-Spares get put (map_err io_error (decode_bit_at i false)) same
        (decode_bit_at-Spares i)

  match_bit-Spares : (i : ℕ) → Spares (match_bit_at {R = R} i false)
  unfolding match_bit_at
  match_bit-Spares = coded (λ d. d.is_match) (λ t d. record d { is_match = t }) (λ d. refl)

  rep_bit-Spares : (i : ℕ) → Spares (rep_bit_at {R = R} i false)
  unfolding rep_bit_at
  rep_bit-Spares = coded (λ d. d.is_rep) (λ t d. record d { is_rep = t }) (λ d. refl)

  rep_g0_bit-Spares : (i : ℕ) → Spares (rep_g0_bit_at {R = R} i false)
  unfolding rep_g0_bit_at
  rep_g0_bit-Spares = coded (λ d. d.is_rep_g0) (λ t d. record d { is_rep_g0 = t }) (λ d. refl)

  rep_g1_bit-Spares : (i : ℕ) → Spares (rep_g1_bit_at {R = R} i false)
  unfolding rep_g1_bit_at
  rep_g1_bit-Spares = coded (λ d. d.is_rep_g1) (λ t d. record d { is_rep_g1 = t }) (λ d. refl)

  rep_g2_bit-Spares : (i : ℕ) → Spares (rep_g2_bit_at {R = R} i false)
  unfolding rep_g2_bit_at
  rep_g2_bit-Spares = coded (λ d. d.is_rep_g2) (λ t d. record d { is_rep_g2 = t }) (λ d. refl)

  rep_0long_bit-Spares : (i : ℕ) → Spares (rep_0long_bit_at {R = R} i false)
  unfolding rep_0long_bit_at
  rep_0long_bit-Spares =
      coded (λ d. d.is_rep_0long) (λ t d. record d { is_rep_0long = t }) (λ d. refl)

  read_pos_slot-Spares : (i : ℕ) → Spares (read_pos_slot {R = R} i false)
  unfolding read_pos_slot
  read_pos_slot-Spares i =
      on_field-Spares (λ d. d.pos_slot_decoder) (λ t d. record d { pos_slot_decoder = t })
        (at_elem i (map_err io_error (BitTree.parse false))) (λ d. refl)
        (at_elem-Spares i (map_err io_error (BitTree.parse false)) parse-Spares)

  read_pos_bits-Spares : (n offset : ℕ) → Spares (read_pos_bits {R = R} n offset false)
  unfolding read_pos_bits
  read_pos_bits-Spares n offset =
      on_field-Spares (λ d. d.pos_decoders) (λ t d. record d { pos_decoders = t })
        (map_err io_error (parse_reverse_bit_tree n offset false)) (λ d. refl)
        (parse_reverse_bit_tree-Spares n offset)

  read_align-Spares : Spares (read_align {R = R} false)
  unfolding read_align
  read_align-Spares =
      on_field-Spares (λ d. d.align_decoder) (λ t d. record d { align_decoder = t })
        (map_err io_error (BitTree.parse_reverse false)) (λ d. refl) parse_reverse-Spares

  decode_distance-Spares : (n : ℕ) → Spares (decode_distance {R = R} n false)
  unfolding decode_distance
  decode_distance-Spares n =
      >>=-Spares (read_pos_slot _ false) _ (read_pos_slot-Spares _) λ pos_slot.
        if-Spares (ltb pos_slot 4) _ _ (λ s. refl)
          (if-Spares (ltb pos_slot 14) _ _
            (>>=-Spares (read_pos_bits _ _ false) _ (read_pos_bits-Spares _ _) (λ low s. refl))
            (>>=-Spares (on_coder (get (usize (direct_bits pos_slot + 2 ^ 64 - 4)))) _ (λ s. refl)
              λ high. >>=-Spares (read_align false) _ read_align-Spares (λ low s. refl)))

-- The same for the steps, whose state is the decoder beside the sink.
module _ {R W : Type 0} ⦃rd : BufRead R⦄ ⦃wr : Write W⦄ where
  on_decoder-Spares :
      {A : Type 0} (m : M Error (RangeDecoder R × DecoderState) A)
      → Spares m
      → Spares (on_decoder {R = R} {W = W} m)
  on_decoder-Spares m = on_field-Spares (λ s. s.0) (λ d s. (d, s.1)) m (λ s. refl)

  literal_step-Spares : Spares (literal_step {R = R} {W = W} false)
  unfolding literal_step
  literal_step-Spares =
      >>=-Spares (on_decoder (decode_literal false)) _
        (on_decoder-Spares (decode_literal false) decode_literal-Spares) (λ byte s. refl)

  long_rep_step-Spares : (pos_state : ℕ) → Spares (long_rep_step {R = R} {W = W} pos_state false)
  unfolding long_rep_step copy_match
  long_rep_step-Spares pos_state =
      >>=-Spares (on_decoder (read_rep_len pos_state false)) _
        (on_decoder-Spares (read_rep_len pos_state false) (read_rep_len-Spares pos_state))
        (λ len s. refl)

  rep_index-Spares : Spares (rep_index {R = R} {W = W} false)
  unfolding rep_index
  rep_index-Spares s =
      >>=-Spares (on_decoder (rep_g1_bit_at s.1.0.state false)) _
        (on_decoder-Spares (rep_g1_bit_at s.1.0.state false) (rep_g1_bit-Spares s.1.0.state))
        (λ g1.
          if-Spares (not g1) (return 1) _ (λ s. refl)
            (>>=-Spares (on_decoder (rep_g2_bit_at s.1.0.state false)) _
              (on_decoder-Spares (rep_g2_bit_at s.1.0.state false) (rep_g2_bit-Spares s.1.0.state))
              (λ g2 s. refl)))
        s

  rep_step-Spares : (pos_state : ℕ) → Spares (rep_step {R = R} {W = W} pos_state false)
  unfolding rep_step short_rep_step
  rep_step-Spares pos_state s =
      let i : ℕ = usize (shl s.1.0.state 4) + pos_state in
      >>=-Spares (on_decoder (rep_g0_bit_at s.1.0.state false)) _
        (on_decoder-Spares (rep_g0_bit_at s.1.0.state false) (rep_g0_bit-Spares s.1.0.state))
        (λ g0.
          if-Spares (not g0) _ _
            (>>=-Spares (on_decoder (rep_0long_bit_at i false)) _
              (on_decoder-Spares (rep_0long_bit_at i false) (rep_0long_bit-Spares i))
              (λ long.
                if-Spares (not long) (short_rep_step false) (long_rep_step pos_state false)
                  (λ s. refl) (long_rep_step-Spares pos_state)))
            (>>=-Spares (rep_index false) _ rep_index-Spares
              (λ idx. long_rep_step-Spares pos_state)))
        s

  match_step-Spares : (pos_state : ℕ) → Spares (match_step {R = R} {W = W} pos_state false)
  unfolding match_step copy_match
  match_step-Spares pos_state =
      >>=-Spares (on_decoder (read_len pos_state false)) _
        (on_decoder-Spares (read_len pos_state false) (read_len-Spares pos_state))
        λ len.
          >>=-Spares (on_decoder (decode_distance len false)) _
            (on_decoder-Spares (decode_distance len false) (decode_distance-Spares len))
            (λ rep_0 s. refl)

  -- A step with `update` false leaves the decoder and the sink exactly as they were, whatever its
  -- outcome.
  pub process_next_inner-Spares : Spares (process_next_inner {R = R} {W = W} false)
  unfolding process_next_inner
  process_next_inner-Spares =
      >>=-Spares (on_decoder (on_state get_params)) _
        (on_decoder-Spares (on_state get_params) (on_state-Spares get_params get_params-Reads))
        λ params s.
          let pos_state : ℕ = low_bits s.1.0.output.len params.pb in
          let i : ℕ = usize (shl s.1.0.state 4) + pos_state in
          >>=-Spares (on_decoder (match_bit_at i false)) _
            (on_decoder-Spares (match_bit_at i false) (match_bit-Spares i))
            (λ is_match. if-Spares (not is_match) (literal_step false) _ literal_step-Spares (
              >>=-Spares (on_decoder (rep_bit_at s.1.0.state false)) _
                (on_decoder-Spares (rep_bit_at s.1.0.state false) (rep_bit-Spares s.1.0.state))
                (λ is_rep.
                  if-Spares is_rep (rep_step {R = R} {W = W} pos_state false)
                    (match_step {R = R} {W = W} pos_state false) (rep_step-Spares pos_state)
                    (match_step-Spares pos_state))))
            s
