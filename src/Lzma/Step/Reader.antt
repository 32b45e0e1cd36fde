-- ===== src/Lzma/Step/Reader.antt =====
-- src/decode/lzma.rs, `process_next_inner`: a step touches its reader by reading only.
use lzma_no_std_rs.Base.{
  ℕ, zero, suc, ◌+◌, ◌-◌, ◌^◌, Bool, ◌&&◌, not, Option, none, some, ltb, ◌==◌, if◌then◌else◌, usize,
  shr, shl, low_bits, to_num, M, ◌>>=◌, return, when, map_err,
}
use lzma_no_std_rs.Base.{
  Retains, >>=-Retains, if-Retains, when-Retains, at_elem, at_elem-Retains, on_field-Retains,
}
use lzma_no_std_rs.Io.Interface.{BufRead, Write}
use lzma_no_std_rs.Error.{Error, io_error}
use lzma_no_std_rs.LzBuffer.{last_or, append_literal}
use lzma_no_std_rs.RangeDecoder.{RangeDecoder, decode_bit_at, get, is_finished_ok}
use lzma_no_std_rs.RangeDecoder.BitTree
use lzma_no_std_rs.RangeDecoder.Reader.{
  IsKept, Reads, get-Alone, is_finished_ok-Alone, decode_bit_at-Retains, parse-Retains,
  parse_reverse-Retains, parse_reverse_bit_tree-Retains, decode-Retains,
}
use lzma_no_std_rs.Lzma.Literal.{
  plain_loop, matched_loop, literal_bits, read_match_byte, decode_literal, on_state, on_coder,
  lit_state_of, on_literal_probs, find_probs,
}
use lzma_no_std_rs.Lzma.Distance.{
  decode_distance, read_pos_slot, read_pos_bits, read_align, direct_bits,
}
use lzma_no_std_rs.Lzma.State.{
  DecoderState, on_output, get_params, match_bit_at, rep_bit_at, rep_g0_bit_at, rep_g1_bit_at,
  rep_g2_bit_at, rep_0long_bit_at, read_len, read_rep_len,
}
use lzma_no_std_rs.Lzma.Step
use lzma_no_std_rs.Lzma.Step.{
  Session, on_decoder, literal_step, long_rep_step, rep_index, rep_step, short_rep_step, match_step,
  end_step, copy_match, process_next_inner,
}

module _ {R : Type 0} ⦃rd : BufRead R⦄ (K : R → Type 0) (kept : IsKept K) where
  abbrev Still : {S A : Type 0} → M Error (RangeDecoder R × S) A → Type 0
  Still m = Retains (Reads K kept) m

  >>=-Still :
      {E S A B : Type 0} (m : M E (RangeDecoder R × S) A) (f : A → M E (RangeDecoder R × S) B)
      → Retains (Reads K kept) m
      → ((a : A) → Retains (Reads K kept) (f a))
      → Retains (Reads K kept) (m >>= f)
  >>=-Still m f = >>=-Retains (Reads K kept) m f

  if-Still :
      {E S A : Type 0} (b : Bool) (m n : M E (RangeDecoder R × S) A)
      → Retains (Reads K kept) m
      → Retains (Reads K kept) n
      → Retains (Reads K kept) (if b then m else n)
  if-Still b m n = if-Retains (Reads K kept) b m n

  plain_loop-Retains :
      (update : Bool) (fuel result : ℕ) → Retains (Reads K kept) (plain_loop update fuel result)
  unfolding plain_loop
  plain_loop-Retains update zero result s k = k
  plain_loop-Retains update (suc fuel) result s k =
      if-Still (ltb result 0x100) _ _
        (>>=-Still (decode_bit_at result update) _ (decode_bit_at-Retains K kept result update)
          (λ bit. plain_loop-Retains update fuel _))
        (λ s k. k) s k

  matched_loop-Retains :
      (update : Bool) (fuel match_byte result : ℕ)
      → Retains (Reads K kept) (matched_loop update fuel match_byte result)
  unfolding matched_loop
  matched_loop-Retains update zero match_byte result s k = k
  matched_loop-Retains update (suc fuel) match_byte result s k =
      if-Still (ltb result 0x100) _ _
        (>>=-Still (decode_bit_at _ update) _ (decode_bit_at-Retains K kept _ update) (λ bit.
          if-Still (low_bits (shr match_byte 7) 1 == to_num bit) _ _
            (matched_loop-Retains update fuel _ _) (λ s k. k)))
        (λ s k. k) s k

  literal_bits-Retains :
      (update : Bool) (o : Option ℕ) → Retains (Reads K kept) (literal_bits update o)
  unfolding literal_bits
  literal_bits-Retains update none = plain_loop-Retains update 8 1
  literal_bits-Retains update (some b) =
      >>=-Still (matched_loop update 8 b 1) _ (matched_loop-Retains update 8 b 1)
        (λ result. plain_loop-Retains update 8 result)

  decode_literal-Retains : (update : Bool) → Still (decode_literal update)
  unfolding decode_literal
  decode_literal-Retains update =
      >>=-Still (on_state get_params) _ (λ s k. k)
        λ params.
          >>=-Still (on_state (on_output (last_or 0))) _ (λ s k. k)
            λ prev_byte s.
              let lit_state : ℕ = lit_state_of params s.1.output.len prev_byte in
              >>=-Still (on_state (find_probs lit_state)) _ (λ s k. k)
                (λ _.
                  >>=-Still (on_state read_match_byte) _ (λ s k. k)
                    λ matched.
                      >>=-Still (on_literal_probs lit_state (literal_bits update matched)) _
                        (on_field-Retains (Reads K kept) (λ d. d.literal_probs)
                          (λ t d. record d { literal_probs = t })
                          (at_elem lit_state (map_err io_error (literal_bits update matched)))
                          (at_elem-Retains (Reads K kept) lit_state
                            (map_err io_error (literal_bits update matched))
                            (literal_bits-Retains update matched)))
                        (λ result s k. k))
                s

  read_len-Retains : (i : ℕ) (update : Bool) → Still (read_len i update)
  unfolding read_len
  read_len-Retains i update s = decode-Retains K kept i update (s.0, s.1.len_decoder)

  read_rep_len-Retains : (i : ℕ) (update : Bool) → Still (read_rep_len i update)
  unfolding read_rep_len
  read_rep_len-Retains i update s = decode-Retains K kept i update (s.0, s.1.rep_len_decoder)

  match_bit_at-Retains : (i : ℕ) (update : Bool) → Still (match_bit_at i update)
  unfolding match_bit_at
  match_bit_at-Retains i update s = decode_bit_at-Retains K kept i update (s.0, s.1.is_match)

  rep_bit_at-Retains : (i : ℕ) (update : Bool) → Still (rep_bit_at i update)
  unfolding rep_bit_at
  rep_bit_at-Retains i update s = decode_bit_at-Retains K kept i update (s.0, s.1.is_rep)

  rep_g0_bit_at-Retains : (i : ℕ) (update : Bool) → Still (rep_g0_bit_at i update)
  unfolding rep_g0_bit_at
  rep_g0_bit_at-Retains i update s = decode_bit_at-Retains K kept i update (s.0, s.1.is_rep_g0)

  rep_g1_bit_at-Retains : (i : ℕ) (update : Bool) → Still (rep_g1_bit_at i update)
  unfolding rep_g1_bit_at
  rep_g1_bit_at-Retains i update s = decode_bit_at-Retains K kept i update (s.0, s.1.is_rep_g1)

  rep_g2_bit_at-Retains : (i : ℕ) (update : Bool) → Still (rep_g2_bit_at i update)
  unfolding rep_g2_bit_at
  rep_g2_bit_at-Retains i update s = decode_bit_at-Retains K kept i update (s.0, s.1.is_rep_g2)

  rep_0long_bit_at-Retains : (i : ℕ) (update : Bool) → Still (rep_0long_bit_at i update)
  unfolding rep_0long_bit_at
  rep_0long_bit_at-Retains i update s =
      decode_bit_at-Retains K kept i update (s.0, s.1.is_rep_0long)

  read_pos_slot-Retains : (i : ℕ) (update : Bool) → Still (read_pos_slot i update)
  unfolding read_pos_slot
  read_pos_slot-Retains i update s =
      at_elem-Retains (Reads K kept) i (map_err io_error (BitTree.parse update))
        (parse-Retains K kept update) (s.0, s.1.pos_slot_decoder)

  read_pos_bits-Retains : (n offset : ℕ) (update : Bool) → Still (read_pos_bits n offset update)
  unfolding read_pos_bits
  read_pos_bits-Retains n offset update s =
      parse_reverse_bit_tree-Retains K kept n offset update (s.0, s.1.pos_decoders)

  read_align-Retains : (update : Bool) → Still (read_align update)
  unfolding read_align
  read_align-Retains update s = parse_reverse-Retains K kept update (s.0, s.1.align_decoder)

  decode_distance-Retains : (n : ℕ) (update : Bool) → Still (decode_distance n update)
  unfolding decode_distance
  decode_distance-Retains n update =
      >>=-Still (read_pos_slot _ update) _ (read_pos_slot-Retains _ update) λ pos_slot.
        if-Still (ltb pos_slot 4) _ _ (λ s k. k)
          (if-Still (ltb pos_slot 14) _ _
            (>>=-Still (read_pos_bits _ _ update) _ (read_pos_bits-Retains _ _ update)
              (λ low s k. k))
            (>>=-Still (on_coder (get (usize (direct_bits pos_slot + 2 ^ 64 - 4)))) _
              (λ s. get-Alone K kept (usize (direct_bits pos_slot + 2 ^ 64 - 4)) s.0)
              λ high. >>=-Still (read_align update) _ (read_align-Retains update) (λ low s k. k)))

-- The same for the steps, whose state is the decoder beside the sink.
module _ {R W : Type 0} ⦃rd : BufRead R⦄ ⦃wr : Write W⦄ (K : R → Type 0) (kept : IsKept K) where
  abbrev Stays : {A : Type 0} → M Error (RangeDecoder R × Session W) A → Type 0
  Stays m = Retains (Reads K kept) m

  >>=-Stays :
      {A B : Type 0} (m : M Error (RangeDecoder R × Session W) A)
      (f : A → M Error (RangeDecoder R × Session W) B)
      → Stays m
      → ((a : A) → Stays (f a))
      → Stays (m >>= f)
  >>=-Stays m f = >>=-Retains (Reads K kept) m f

  if-Stays :
      {A : Type 0} (b : Bool) (m n : M Error (RangeDecoder R × Session W) A)
      → Stays m
      → Stays n
      → Stays (if b then m else n)
  if-Stays b m n = if-Retains (Reads K kept) b m n

  when-Stays :
      (b : Bool) (m : M Error (RangeDecoder R × Session W) (Unit {0})) → Stays m → Stays (when b m)
  when-Stays b m = when-Retains (Reads K kept) b m

  on_decoder-Stays :
      {A : Type 0} (m : M Error (RangeDecoder R × DecoderState) A)
      → Retains (Reads K kept) m
      → Stays (on_decoder m)
  on_decoder-Stays m h s = h (s.0, s.1.0)

  copy_match-Stays : (len : ℕ) (update : Bool) → Stays (copy_match len update)
  unfolding copy_match
  copy_match-Stays len update =
      >>=-Stays (when update _) _ (when-Stays update _ (λ s k. k)) (λ _ s k. k)

  literal_step-Stays : (update : Bool) → Stays (literal_step update)
  unfolding literal_step
  literal_step-Stays update =
      >>=-Stays (on_decoder (decode_literal update)) _
        (on_decoder-Stays (decode_literal update) (decode_literal-Retains K kept update))
        λ byte.
          >>=-Stays (when update _) _
            (when-Stays update _
              (>>=-Stays (Step.on_output (append_literal byte)) _ (λ s k. k) (λ _ s k. k)))
            (λ _ s k. k)

  short_rep_step-Stays : (update : Bool) → Stays (short_rep_step update)
  unfolding short_rep_step
  short_rep_step-Stays update =
      >>=-Stays (when update _) _ (when-Stays update _ (λ s k. k)) (λ _ s k. k)

  long_rep_step-Stays : (pos_state : ℕ) (update : Bool) → Stays (long_rep_step pos_state update)
  unfolding long_rep_step
  long_rep_step-Stays pos_state update =
      >>=-Stays (on_decoder (read_rep_len pos_state update)) _
        (on_decoder-Stays (read_rep_len pos_state update)
          (read_rep_len-Retains K kept pos_state update))
        λ len.
          >>=-Stays (when update _) _ (when-Stays update _ (λ s k. k))
            (λ _. copy_match-Stays len update)

  rep_index-Stays : (update : Bool) → Stays (rep_index update)
  unfolding rep_index
  rep_index-Stays update s =
      >>=-Stays (on_decoder (rep_g1_bit_at s.1.0.state update)) _
        (on_decoder-Stays (rep_g1_bit_at s.1.0.state update)
          (rep_g1_bit_at-Retains K kept s.1.0.state update))
        (λ g1.
          if-Stays (not g1) (return 1) _ (λ s k. k)
            (>>=-Stays (on_decoder (rep_g2_bit_at s.1.0.state update)) _
              (on_decoder-Stays (rep_g2_bit_at s.1.0.state update)
                (rep_g2_bit_at-Retains K kept s.1.0.state update))
              (λ g2 s k. k)))
        s

  rep_step-Stays : (pos_state : ℕ) (update : Bool) → Stays (rep_step pos_state update)
  unfolding rep_step
  rep_step-Stays pos_state update s =
      let i : ℕ = usize (shl s.1.0.state 4) + pos_state in
      >>=-Stays (on_decoder (rep_g0_bit_at s.1.0.state update)) _
        (on_decoder-Stays (rep_g0_bit_at s.1.0.state update)
          (rep_g0_bit_at-Retains K kept s.1.0.state update))
        (λ g0.
          if-Stays (not g0) _ _
            (>>=-Stays (on_decoder (rep_0long_bit_at i update)) _
              (on_decoder-Stays (rep_0long_bit_at i update)
                (rep_0long_bit_at-Retains K kept i update))
              (λ long.
                if-Stays (not long) (short_rep_step update) (long_rep_step pos_state update)
                  (short_rep_step-Stays update) (long_rep_step-Stays pos_state update)))
            (>>=-Stays (rep_index update) _ (rep_index-Stays update) (λ idx.
              >>=-Stays (when update _) _ (when-Stays update _ (λ s k. k))
                (λ _. long_rep_step-Stays pos_state update))))
        s

  end_step-Stays : Stays end_step
  unfolding end_step
  end_step-Stays =
      >>=-Stays (on_coder (map_err io_error is_finished_ok)) _
        (λ s. is_finished_ok-Alone K kept s.0)
        (λ finished_ok. if-Stays finished_ok _ _ (λ s k. k) (λ s k. k))

  match_step-Stays : (pos_state : ℕ) (update : Bool) → Stays (match_step pos_state update)
  unfolding match_step
  match_step-Stays pos_state update =
      >>=-Stays (when update _) _ (when-Stays update _ (λ s k. k)) λ _.
        >>=-Stays (on_decoder (read_len pos_state update)) _
          (on_decoder-Stays (read_len pos_state update) (read_len-Retains K kept pos_state update))
          λ len. >>=-Stays (when update _) _ (when-Stays update _ (λ s k. k)) λ _.
            >>=-Stays (on_decoder (decode_distance len update)) _
              (on_decoder-Stays (decode_distance len update)
                (decode_distance-Retains K kept len update))
              λ rep_0. >>=-Stays (when update _) _ (when-Stays update _ (λ s k. k)) (λ _.
                if-Stays (update && (rep_0 == 0xFFFF_FFFF)) end_step (copy_match len update)
                  end_step-Stays (copy_match-Stays len update))

  -- A step, with update or without, keeps of its reader what every read keeps.
  pub process_next_inner-Retains : (update : Bool) → Stays (process_next_inner update)
  unfolding process_next_inner
  process_next_inner-Retains update =
      >>=-Stays (on_decoder (on_state get_params)) _ (λ s k. k)
        λ params s.
          let pos_state : ℕ = low_bits s.1.0.output.len params.pb in
          let i : ℕ = usize (shl s.1.0.state 4) + pos_state in
          >>=-Stays (on_decoder (match_bit_at i update)) _
            (on_decoder-Stays (match_bit_at i update) (match_bit_at-Retains K kept i update))
            (λ is_match.
              if-Stays (not is_match) (literal_step update) _ (literal_step-Stays update) (
                >>=-Stays (on_decoder (rep_bit_at s.1.0.state update)) _
                  (on_decoder-Stays (rep_bit_at s.1.0.state update)
                    (rep_bit_at-Retains K kept s.1.0.state update))
                  (λ is_rep.
                    if-Stays is_rep (rep_step pos_state update) (match_step pos_state update)
                      (rep_step-Stays pos_state update) (match_step-Stays pos_state update))))
            s
