-- ===== src/Lzma/Literal/Bits.antt =====
-- src/decode/lzma.rs, `decode_literal`: the two loops stay within the 0x300 probabilities of a literal
-- state and make a byte.
use lzma_no_std_rs.Base.{
  ℕ, zero, suc, ◌+◌, ◌*◌, ◌^◌, ◌≤◌, ◌<◌, bit_xor, ◌≡◌, inl, inr, Bool, Option, none, some, arith,
  ltb, ◌==◌, ltb→lt, ltb→le, Bool-cases, usize, shr, shl, low_bits, to_num,
}
use lzma_no_std_rs.Base.{bit_xor_low, shift_more}
use native.Mathlib.Nat.{mul-le-mul_right, mul_right_comm}
use lzma_no_std_rs.Io.Interface.{IoError, BufRead}
use lzma_no_std_rs.RangeDecoder.{decode_bit_at}
use lzma_no_std_rs.RangeDecoder.Trees.{IsTable, bit_small}
use lzma_no_std_rs.RangeDecoder.Sound.{
  Any, Sound, >>=-Sound, return-Sound, if-Sound, decode_bit_at-Sound,
}
use lzma_no_std_rs.Lzma.Literal.{plain_loop, matched_loop, literal_bits}

abbrev pub IsPart : ℕ → Type 0
IsPart result = (1 ≤ result) × (result < 0x200)

-- A byte below its leading one.
abbrev pub IsWhole : ℕ → Type 0
IsWhole result = (0x100 ≤ result) × (result < 0x200)

abbrev add_bit : ℕ → Bool → ℕ
add_bit result b = bit_xor (usize (shl result 1)) (to_num b)

add_bit_lem : (result : ℕ) (b : Bool) → result < 0x100 → add_bit result b ≡ result * 2 + to_num b
add_bit_lem result b small =
    let whole : usize (shl result 1) ≡ result * 2 = omega (arith, small) in
    rw whole (bit_xor_low 1 result (to_num b) (bit_small b))

add_bit-IsPart :
    (result : ℕ) (b : Bool) → result < 0x100 → IsPart result → IsPart (add_bit result b)
add_bit-IsPart result b small h =
    rw (add_bit_lem result b small) (omega (arith, h.0), omega (arith, small, bit_small b))

-- Enough rounds are left.
grown :
    (result fuel : ℕ) (b : Bool)
    → result < 0x100
    → 0x100 ≤ result * 2 ^ suc fuel
    → 0x100 ≤ add_bit result b * 2 ^ fuel
grown result fuel b small enough =
    let least : result * 2 * 2 ^ fuel ≤ (result * 2 + to_num b) * 2 ^ fuel =
      mul-le-mul_right (2 ^ fuel) (omega arith) in
    rw (add_bit_lem result b small)
      (omega (arith, enough, shift_more result fuel, mul_right_comm result 2 (2 ^ fuel), least))

module _ {R : Type 0} ⦃rd : BufRead R⦄ (w : ℕ) where
  plain_loop-Sound :
      (update : Bool) (fuel result : ℕ)
      → IsPart result
      → 0x100 ≤ result * 2 ^ fuel
      → Sound w (IsTable 0x300) IsWhole (plain_loop {R = R} update fuel result)
  unfolding plain_loop
  plain_loop-Sound update zero result h enough =
      return-Sound w IoError (IsTable 0x300) IsWhole result (omega (arith, enough), h.1)
  plain_loop-Sound update (suc fuel) result h enough = elim (Bool-cases (ltb result 0x100)) [
    | inl more ↦
        let small : result < 0x100 = ltb→lt result 0x100 more in
        rw more (
          >>=-Sound w (IsTable 0x300) Any IsWhole (decode_bit_at result update) _
            (decode_bit_at-Sound w 0x300 result update (omega (arith, small)))
            (λ b any.
              plain_loop-Sound update fuel (add_bit result b) (add_bit-IsPart result b small h)
                (grown result fuel b small enough)))
    | inr whole ↦
        rw whole
          (return-Sound w IoError (IsTable 0x300) IsWhole result (ltb→le result 0x100 whole, h.1))
  ]

  matched_loop-Sound :
      (update : Bool) (fuel match_byte result : ℕ)
      → IsPart result
      → Sound w (IsTable 0x300) IsPart (matched_loop {R = R} update fuel match_byte result)
  unfolding matched_loop
  matched_loop-Sound update zero match_byte result h =
      return-Sound w IoError (IsTable 0x300) IsPart result h
  matched_loop-Sound update (suc fuel) match_byte result h = elim (Bool-cases (ltb result 0x100)) [
    | inl more ↦
        let small : result < 0x100 = ltb→lt result 0x100 more in
        let match_bit : ℕ = low_bits (shr match_byte 7) 1 in
        let place : ℕ = usize (usize (shl (1 + match_bit) 8) + result) in
        rw more (
          >>=-Sound w (IsTable 0x300) Any IsPart (decode_bit_at place update) _
            (decode_bit_at-Sound w 0x300 place update (omega (arith, small)))
            (λ b any.
              if-Sound w (IsTable 0x300) IsPart (match_bit == to_num b) _ _
                (matched_loop-Sound update fuel (usize (shl match_byte 1)) (add_bit result b)
                  (add_bit-IsPart result b small h))
                (return-Sound w IoError (IsTable 0x300) IsPart (add_bit result b)
                  (add_bit-IsPart result b small h))))
    | inr whole ↦ rw whole (return-Sound w IoError (IsTable 0x300) IsPart result h)
  ]

  pub literal_bits-Sound :
      (update : Bool) (matched : Option ℕ)
      → Sound w (IsTable 0x300) IsWhole (literal_bits {R = R} update matched)
  unfolding literal_bits
  literal_bits-Sound update none =
      plain_loop-Sound update 8 1 (omega arith, omega arith) (omega arith)
  literal_bits-Sound update (some match_byte) =
      >>=-Sound w (IsTable 0x300) IsPart IsWhole (matched_loop update 8 match_byte 1) _
        (matched_loop-Sound update 8 match_byte 1 (omega arith, omega arith))
        (λ result h. plain_loop-Sound update 8 result h (omega (arith, h.0)))
