-- ===== src/Lzma/Literal.antt =====
-- src/decode/lzma.rs, `decode_literal`. A loop has eight rounds at most, since `result` doubles.
pub mod Bits
pub mod Place
pub mod Sound
use lzma_no_std_rs.Base.{
  ℕ, zero, suc, ◌+◌, ◌-◌, ◌%◌, ◌^◌, bit_xor, Bool, Option, none, some, List, ltb, leb, ◌==◌,
  if◌then◌else◌, get_elem?, get_or, u8, u32, usize, shr, shl, low_bits, to_num, M, ◌>>=◌, return,
  gets, expect, zoom, map_err,
}
use lzma_no_std_rs.Base.{on_field, at_elem}
use lzma_no_std_rs.Io.Interface.{IoError, BufRead}
use lzma_no_std_rs.Error.{Error, io_error}
use lzma_no_std_rs.LzBuffer
use lzma_no_std_rs.RangeDecoder.{RangeDecoder, decode_bit_at}
use lzma_no_std_rs.Lzma.Params.{LzmaParams}
use lzma_no_std_rs.Lzma.State.{DecoderState, on_output, get_params}

module _ {R : Type 0} where
  -- The decoder's own state, beside the range decoder.
  abbrev pub on_state : {E A S : Type 0} → M E S A → M E (RangeDecoder R × S) A
  on_state = zoom (λ s. s.1) (λ d s. (s.0, d))

  abbrev pub on_coder : {E A S : Type 0} → M E (RangeDecoder R) A → M E (RangeDecoder R × S) A
  on_coder = zoom (λ s. s.0) (λ c s. (c, s.1))

-- A shift by the `u32` difference `8 - lc`.
abbrev pub prev_bits : ℕ → ℕ → ℕ
prev_bits prev_byte lc = shr prev_byte (u32 (8 + 2 ^ 32 - lc) % 64)

abbrev pub lit_state_of : LzmaParams → ℕ → ℕ → ℕ
lit_state_of params len prev_byte =
    usize (usize (shl (low_bits len params.lp) params.lc) + prev_bits prev_byte params.lc)

-- `&mut self.literal_probs[lit_state]`, which panics out of bounds
unfoldable pub find_probs : ℕ → M Error DecoderState (List ℕ)
find_probs lit_state d = expect (get_elem? d.literal_probs lit_state) d

-- `self.output.last_n(self.rep[0] + 1)?`
unfoldable pub byte_back : M Error DecoderState (Option ℕ)
byte_back = do
  rep_0 ← gets (λ d. get_or d.rep 0 0)
  byte ← on_output (LzBuffer.last_n (usize (rep_0 + 1)))
  return (some byte)

-- The match byte, if the last step was a match.
unfoldable pub read_match_byte : M Error DecoderState (Option ℕ)
unfolding byte_back
read_match_byte = do state ← gets (λ d. d.state); if leb 7 state then byte_back else return none

module _ {R : Type 0} ⦃rd : BufRead R⦄ where
  -- `while result < 0x100` with no match byte
  unfoldable pub plain_loop : Bool → ℕ → ℕ → M IoError (RangeDecoder R × List ℕ) ℕ
  plain_loop update zero result = return result
  plain_loop update (suc fuel) result =
      if ltb result 0x100
      then (do
        bit ← decode_bit_at result update
        plain_loop update fuel (bit_xor (usize (shl result 1)) (to_num bit)))
      else return result

  -- `while result < 0x100` along the bits of a match byte, up to the first that differs
  unfoldable pub matched_loop : Bool → ℕ → ℕ → ℕ → M IoError (RangeDecoder R × List ℕ) ℕ
  matched_loop update zero match_byte result = return result
  matched_loop update (suc fuel) match_byte result =
      if ltb result 0x100
      then (do
        let match_bit = low_bits (shr match_byte 7) 1
        bit ← decode_bit_at (usize (usize (shl (1 + match_bit) 8) + result)) update
        let result' = bit_xor (usize (shl result 1)) (to_num bit)
        if match_bit == to_num bit
            then matched_loop update fuel (usize (shl match_byte 1)) result'
            else return result')
      else return result

  -- The two loops on the probabilities of one literal state.
  unfoldable pub literal_bits : Bool → Option ℕ → M IoError (RangeDecoder R × List ℕ) ℕ
  literal_bits update none = plain_loop update 8 1
  literal_bits update (some match_byte) = do
    result ← matched_loop update 8 match_byte 1
    plain_loop update 8 result

  abbrev pub on_literal_probs :
      {A : Type 0}
      → ℕ
      → M IoError (RangeDecoder R × List ℕ) A
      → M Error (RangeDecoder R × DecoderState) A
  on_literal_probs lit_state m =
      on_field (λ d. d.literal_probs) (λ t d. record d { literal_probs = t })
        (at_elem lit_state (map_err io_error m))

  unfoldable pub decode_literal : Bool → M Error (RangeDecoder R × DecoderState) ℕ
  decode_literal update = do
    params ← on_state get_params
    prev_byte ← on_state (on_output (LzBuffer.last_or 0))
    len ← on_state (gets (λ d. d.output.len))
    let lit_state = lit_state_of params len prev_byte
    _ ← on_state (find_probs lit_state)
    matched ← on_state read_match_byte
    result ← on_literal_probs lit_state (literal_bits update matched)
    return (u8 (usize (result + 2 ^ 64 - 0x100)))
