-- ===== src/Lzma/Distance.antt =====
-- src/decode/lzma.rs, `decode_distance`.
pub mod Slots
pub mod Sound
use lzma_no_std_rs.Base.{
  ℕ, ◌+◌, ◌-◌, ◌^◌, bit_xor, Bool, ltb, if◌then◌else◌, length, usize, shr, shl, low_bits, M, ◌>>=◌,
  return, map_err,
}
use lzma_no_std_rs.Base.{on_field, at_elem}
use lzma_no_std_rs.Io.Interface.{BufRead}
use lzma_no_std_rs.Error.{Error, io_error}
use lzma_no_std_rs.RangeDecoder.{RangeDecoder, get, parse_reverse_bit_tree}
use lzma_no_std_rs.RangeDecoder.BitTree
use lzma_no_std_rs.Lzma.State.{DecoderState}
use lzma_no_std_rs.Lzma.Literal.{on_coder}

-- What a slot from 4 on stands for: its direct bits, and the distance that they are added to.
abbrev pub direct_bits : ℕ → ℕ
direct_bits pos_slot = usize (shr pos_slot 1 + 2 ^ 64 - 1)

abbrev pub slot_base : ℕ → ℕ
slot_base pos_slot = usize (shl (bit_xor 2 (low_bits pos_slot 1)) (direct_bits pos_slot))

module _ {R : Type 0} ⦃rd : BufRead R⦄ where
  unfoldable pub read_pos_slot : ℕ → Bool → M Error (RangeDecoder R × DecoderState) ℕ
  read_pos_slot len_state update =
      on_field (λ d. d.pos_slot_decoder) (λ t d. record d { pos_slot_decoder = t })
        (at_elem len_state (map_err io_error (BitTree.parse update)))

  unfoldable pub read_pos_bits : ℕ → ℕ → Bool → M Error (RangeDecoder R × DecoderState) ℕ
  read_pos_bits num_bits offset update =
      on_field (λ d. d.pos_decoders) (λ t d. record d { pos_decoders = t })
        (map_err io_error (parse_reverse_bit_tree num_bits offset update))

  unfoldable pub read_align : Bool → M Error (RangeDecoder R × DecoderState) ℕ
  read_align update =
      on_field (λ d. d.align_decoder) (λ t d. record d { align_decoder = t })
        (map_err io_error (BitTree.parse_reverse update))

  unfoldable pub decode_distance : ℕ → Bool → M Error (RangeDecoder R × DecoderState) ℕ
  decode_distance length update = do
    let len_state = if ltb 3 length then 3 else length
    pos_slot ← read_pos_slot len_state update
    let num_direct_bits = direct_bits pos_slot
    let result = slot_base pos_slot
    if ltb pos_slot 4
        then return pos_slot
        else if ltb pos_slot 14
        then (do
          low ← read_pos_bits num_direct_bits (usize (result + 2 ^ 64 - pos_slot)) update
          return (usize (result + low)))
        else do
          high ← on_coder (get (usize (num_direct_bits + 2 ^ 64 - 4)))
          low ← read_align update
          return (usize (usize (result + usize (shl high 4)) + low))
