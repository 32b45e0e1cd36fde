-- ===== src/Lzma/Errors.antt =====
-- src/decode/lzma.rs, `decode_literal` and `decode_distance`: where their errors come from.
use lzma_no_std_rs.Base.{ℕ, ◌+◌, ◌-◌, ◌^◌, ◌<◌, Bool, ltb, usize, M, map_err}
use lzma_no_std_rs.Base.{
  Ends, Post-Ends, Raises, >>=-Raises, if-Raises, zoom-Raises, map_err-Raises, on_field-Raises,
  at_elem-Raises, at_elem,
}
use lzma_no_std_rs.Io.Interface.{IoError, BufRead}
use lzma_no_std_rs.Error.{
  Error, io_error, lzma_error, match_distance_is_beyond_dictionary_size,
  match_distance_is_beyond_output_size,
}
use lzma_no_std_rs.LzBuffer
use lzma_no_std_rs.RangeDecoder.{RangeDecoder, get, parse_reverse_bit_tree}
use lzma_no_std_rs.RangeDecoder.BitTree
use lzma_no_std_rs.RangeDecoder.Safe.{Ready, HasInput}
use lzma_no_std_rs.RangeDecoder.Errors.{
  IsBlamed, OfReader, get-Raises, parse-Raises, parse_reverse-Raises, parse_reverse_bit_tree-Raises,
}
use lzma_no_std_rs.Lzma.Params.{LzmaParams}
use lzma_no_std_rs.Lzma.State.{DecoderState}
use lzma_no_std_rs.Lzma.State.Valid.{IsWell}
use lzma_no_std_rs.Lzma.Literal.{on_coder}
use lzma_no_std_rs.Lzma.Distance.{
  decode_distance, read_pos_slot, read_pos_bits, read_align, direct_bits,
}
use lzma_no_std_rs.Lzma.Distance.Sound.{decode_distance-Post}

-- An error of the reader, or a match byte beyond the dictionary or the output.
abbrev pub OfLiteral : (IoError → Type 0) → Error → Type 0
OfLiteral F (io_error e) = F e
OfLiteral F (lzma_error (match_distance_is_beyond_dictionary_size n size)) = size < n
OfLiteral F (lzma_error (match_distance_is_beyond_output_size n len)) = len < n
OfLiteral F _ = ⊥

module _ {R : Type 0} ⦃rd : BufRead R⦄ (F : IoError → Type 0) (blamed : IsBlamed rd F) where
  as_reader :
      {S A : Type 0} (m : M IoError S A) → Raises F m → Raises (OfReader F) (map_err io_error m)
  as_reader m = map_err-Raises F (OfReader F) io_error m (λ e h. h)

  read_pos_slot-Raises :
      (i : ℕ) (update : Bool) → Raises (OfReader F) (read_pos_slot {R = R} i update)
  unfolding read_pos_slot
  read_pos_slot-Raises i update =
      on_field-Raises (OfReader F) (λ d. d.pos_slot_decoder)
        (λ t d. record d { pos_slot_decoder = t })
        (at_elem i (map_err io_error (BitTree.parse update)))
        (at_elem-Raises (OfReader F) i (map_err io_error (BitTree.parse update))
          (as_reader (BitTree.parse update) (parse-Raises F blamed update)))

  read_pos_bits-Raises :
      (n offset : ℕ) (update : Bool) → Raises (OfReader F) (read_pos_bits {R = R} n offset update)
  unfolding read_pos_bits
  read_pos_bits-Raises n offset update =
      on_field-Raises (OfReader F) (λ d. d.pos_decoders) (λ t d. record d { pos_decoders = t })
        (map_err io_error (parse_reverse_bit_tree n offset update))
        (as_reader (parse_reverse_bit_tree n offset update)
          (parse_reverse_bit_tree-Raises F blamed n offset update))

  read_align-Raises : (update : Bool) → Raises (OfReader F) (read_align {R = R} update)
  unfolding read_align
  read_align-Raises update =
      on_field-Raises (OfReader F) (λ d. d.align_decoder) (λ t d. record d { align_decoder = t })
        (map_err io_error (BitTree.parse_reverse update))
        (as_reader (BitTree.parse_reverse update) (parse_reverse-Raises F blamed update))

  decode_distance-Raises :
      (n : ℕ) (update : Bool) → Raises (OfReader F) (decode_distance {R = R} n update)
  unfolding decode_distance
  decode_distance-Raises n update =
      >>=-Raises (OfReader F) (read_pos_slot _ update) _ (read_pos_slot-Raises _ update) λ pos_slot.
        if-Raises (OfReader F) (ltb pos_slot 4) _ _ (λ s. tt)
          (if-Raises (OfReader F) (ltb pos_slot 14) _ _
            (>>=-Raises (OfReader F) (read_pos_bits _ _ update) _ (read_pos_bits-Raises _ _ update)
              (λ low s. tt))
            (>>=-Raises (OfReader F) (on_coder (get (usize (direct_bits pos_slot + 2 ^ 64 - 4)))) _
              (zoom-Raises (OfReader F) (λ s. s.0) (λ c s. (c, s.1)) (get _)
                (get-Raises F blamed (usize (direct_bits pos_slot + 2 ^ 64 - 4))))
              λ high.
                >>=-Raises (OfReader F) (read_align update) _ (read_align-Raises update)
                  (λ low s. tt)))

module _ {R : Type 0} ⦃rd : BufRead R⦄ (F : IoError → Type 0) (blamed : IsBlamed rd F)
    (w mem_limit d probs_mem_limit : ℕ) (p : LzmaParams) where
  -- On a range decoder that is ready and a decoder whose tables have their sizes and whose buffer
  -- is ready, decode_distance does not panic, for any length. If it returns, it gives a number
  -- below 2 ^ 32, and the range decoder is ready, below the same weight. If it fails, it is by an
  -- io_error with every property F that all errors of the reader for one byte have. In both cases
  -- the decoder stays as wanted.
  pub decode_distance-Ends :
      (len : ℕ) (update : Bool) (s : RangeDecoder R × DecoderState)
      → Ready w s.0
      → IsWell mem_limit d probs_mem_limit p s.1
      → Ends
          (λ distance u.
            Ready w u.0 × IsWell mem_limit d probs_mem_limit p u.1 × (distance < 2 ^ 32))
          (λ e u. OfReader F e × (HasInput u.0 × IsWell mem_limit d probs_mem_limit p u.1))
          (decode_distance len update s)
  decode_distance-Ends len update s r v =
      Post-Ends _ (λ u. HasInput u.0 × IsWell mem_limit d probs_mem_limit p u.1) (OfReader F)
        (decode_distance len update s)
        (decode_distance-Post w mem_limit d probs_mem_limit p len update s r v)
        (decode_distance-Raises F blamed len update s)
