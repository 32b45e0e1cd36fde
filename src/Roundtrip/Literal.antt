-- ===== src/Roundtrip/Literal.antt =====
-- src/encode/dumbencoder.rs, `encode_literal`, against `decode_literal` of src/decode/lzma.rs: the eight bits of
-- a byte on the table of one literal state.
use lzma_no_std_rs.Base.{
  ℕ, zero, suc, ◌+◌, ◌*◌, ◌/◌, ◌%◌, ◌^◌, ◌≤◌, ◌<◌, bit_xor, ◌≡◌, refl, sym, ap, ◌∙◌, subst, Bool,
  true, false, not, none, List, arith, ltb, ◌==◌, lt→ltb, All, usize, shr, shl, low_bits, to_num,
}
use lzma_no_std_rs.Base.{bit_xor_low, at_elem}
use native.Mathlib.Nat.{div-div-eq-div-mul, div-le_self}
use lzma_no_std_rs.Io.Interface.{IoError, BufRead, Write}
use lzma_no_std_rs.Io.Ext.Bytes.{IsByte}
use lzma_no_std_rs.RangeDecoder.{decode_bit, decode_bit_at}
use lzma_no_std_rs.RangeDecoder.Safe.{IsProb}
use lzma_no_std_rs.Lzma.Literal.{plain_loop, literal_bits}
use lzma_no_std_rs.Encode.RangeEncoder.{encode_bit}
use lzma_no_std_rs.Encode.RangeEncoder.Value.{IsPatient}
use lzma_no_std_rs.Encode.DumbEncoder.{literal_loop}
use lzma_no_std_rs.Roundtrip.Code.{
  Code, IsCode, bit_code, bit_code-IsCode, then_code, then_code-IsCode, done-IsCode, IsTable,
  at_code, at_code-IsCode,
}
use lzma_no_std_rs.Roundtrip.Decoding.{IsReliable}
use lzma_no_std_rs.Roundtrip.Writes.{Writes, encode_bit-Writes, then-Writes, at_elem-Writes}
use lzma_no_std_rs.Roundtrip.Reads.{Reads, decode_bit-Reads, return-Reads, >>=-Reads, at_elem-Reads}

-- The place in the tree of the literal with `n` bits to go, and the next bit.
abbrev pub place_of : ℕ → ℕ → ℕ
place_of byte n = (0x100 + byte) / 2 ^ n

abbrev pub bit_of : ℕ → ℕ → Bool
bit_of byte n = not (low_bits (shr byte n) 1 == 0)

abbrev add_bit : ℕ → Bool → ℕ
add_bit result b = bit_xor (usize (shl result 1)) (to_num b)

bit_small : (b : Bool) → to_num b < 2 ^ 1
bit_small true = omega arith
bit_small false = omega arith

to_num-odd : (k : ℕ) → to_num (not (k % 2 == 0)) ≡ k % 2
to_num-odd k = ground arith

place_of-halves : (byte n : ℕ) → place_of byte (suc n) ≡ place_of byte n / 2
place_of-halves byte n =
    let double : 2 ^ suc n ≡ 2 ^ n * 2 = grind arith in
    ap (λ k. (0x100 + byte) / k) double ∙ sym (div-div-eq-div-mul (0x100 + byte) (2 ^ n) 2)

place_of_small : (byte n : ℕ) → byte < 256 → place_of byte n < 0x200
place_of_small byte n small = omega (arith, div-le_self (0x100 + byte) (2 ^ n), small)

-- The bit that the byte has above it, of the literal, is no bit of the byte.
same_bit : (byte n : ℕ) → byte < 256 → n < 8 → (0x100 + byte) / 2 ^ n % 2 ≡ byte / 2 ^ n % 2
same_bit byte zero small few = omega arith
same_bit byte (suc zero) small few = omega arith
same_bit byte (suc (suc zero)) small few = omega arith
same_bit byte (suc (suc (suc zero))) small few = omega arith
same_bit byte (suc (suc (suc (suc zero)))) small few = omega arith
same_bit byte (suc (suc (suc (suc (suc zero))))) small few = omega arith
same_bit byte (suc (suc (suc (suc (suc (suc zero)))))) small few = omega arith
same_bit byte (suc (suc (suc (suc (suc (suc (suc zero))))))) small few = omega arith
same_bit byte (suc (suc (suc (suc (suc (suc (suc (suc n)))))))) small few =
    absurd (omega (arith, few))

place_of-add_bit :
    (byte n : ℕ)
    → byte < 256
    → n < 8
    → add_bit (place_of byte (suc n)) (bit_of byte n) ≡ place_of byte n
place_of-add_bit byte n small few =
    let q : ℕ = place_of byte n in
    let half : place_of byte (suc n) ≡ q / 2 = place_of-halves byte n in
    let below : q < 0x200 = place_of_small byte n small in
    let whole : usize (shl (place_of byte (suc n)) 1) ≡ q / 2 * 2 = omega (arith, half, below) in
    let bit : to_num (bit_of byte n) ≡ q % 2 =
      to_num-odd (byte / 2 ^ n) ∙ sym (same_bit byte n small few) in
    rw whole (
      bit_xor_low 1 (q / 2) (to_num (bit_of byte n)) (bit_small (bit_of byte n))
      ∙ omega (arith, bit))

-- The next bits of the literal, down to the last.
abbrev pub literal_code : ℕ → ℕ → Code (List ℕ)
literal_code zero byte = λ x. x
literal_code (suc n) byte =
    then_code (at_code (place_of byte (suc n)) 0 (bit_code (bit_of byte n))) (literal_code n byte)

abbrev pub IsLiteralTable : List ℕ → Type 0
IsLiteralTable = IsTable 0x300 IsProb

place_of-inside : (byte n : ℕ) → byte < 256 → place_of byte (suc n) < 0x100
place_of-inside byte n small = omega (arith, place_of-halves byte n, place_of_small byte n small)

pub literal_code-IsCode : (n byte : ℕ) → byte < 256 → IsCode IsLiteralTable (literal_code n byte)
literal_code-IsCode zero byte small = done-IsCode IsLiteralTable
literal_code-IsCode (suc n) byte small =
    let inside : place_of byte (suc n) < 0x300 = omega (arith, place_of-inside byte n small) in
    then_code-IsCode IsLiteralTable _ (literal_code n byte)
      (at_code-IsCode IsProb 0x300 (place_of byte (suc n)) 0 (bit_code (bit_of byte n)) inside
        (bit_code-IsCode (bit_of byte n)))
      (literal_code-IsCode n byte small)

module _ {W : Type 0} ⦃wr : Write W⦄ (patient : IsPatient wr) (before : List ℕ) where
  pub literal_loop-Writes :
      (n byte : ℕ)
      → byte < 256
      → n ≤ 8
      → Writes patient before IsLiteralTable
          (literal_code n byte)
          (literal_loop n byte (place_of byte n))
  unfolding literal_loop
  literal_loop-Writes zero byte small few = λ s t e wide good short h. (h, refl)
  literal_loop-Writes (suc n) byte small few =
      let i : ℕ = place_of byte (suc n) in
      let b : Bool = bit_of byte n in
      let inside : i < 0x300 = omega (arith, place_of-inside byte n small) in
      rw (place_of-add_bit byte n small (omega (arith, few))) (
        then-Writes patient before IsLiteralTable (at_code i 0 (bit_code b)) (literal_code n byte)
          (at_elem i (encode_bit b)) (literal_loop n byte (place_of byte n))
          (at_code-IsCode IsProb 0x300 i 0 (bit_code b) inside (bit_code-IsCode b))
          (literal_code-IsCode n byte small)
          (at_elem-Writes patient before IsProb 0x300 i 0 (bit_code b) (encode_bit b) inside
            (encode_bit-Writes patient before b))
          (literal_loop-Writes n byte small (omega (arith, few))))

module _ {R : Type 0} ⦃rd : BufRead R⦄ (reliable : IsReliable rd) (all : List ℕ)
    (bytes : All IsByte all) where
  plain_loop-Reads :
      (n byte : ℕ)
      → byte < 256
      → n ≤ 8
      → Reads reliable all bytes IsLiteralTable
          (literal_code n byte)
          (0x100 + byte)
          (plain_loop true n (place_of byte n))
  unfolding plain_loop decode_bit_at
  plain_loop-Reads zero byte small few =
      let last : place_of byte 0 ≡ 0x100 + byte = omega arith in
      rw last (return-Reads reliable all bytes IoError IsLiteralTable (0x100 + byte))
  plain_loop-Reads (suc n) byte small few =
      let i : ℕ = place_of byte (suc n) in
      let b : Bool = bit_of byte n in
      let inside : i < 0x300 = omega (arith, place_of-inside byte n small) in
      let goes_on : ltb i 0x100 ≡ true = lt→ltb i 0x100 (place_of-inside byte n small) in
      let add : add_bit i b ≡ place_of byte n =
        place_of-add_bit byte n small (omega (arith, few)) in
      rw goes_on (
        >>=-Reads reliable all bytes IsLiteralTable (at_code i 0 (bit_code b)) (literal_code n byte)
          b (0x100 + byte) (decode_bit_at i true) (λ bit. plain_loop true n (add_bit i bit))
          (at_code-IsCode IsProb 0x300 i 0 (bit_code b) inside (bit_code-IsCode b))
          (literal_code-IsCode n byte small)
          (at_elem-Reads reliable all bytes IsProb 0x300 i 0 (bit_code b) b (decode_bit true) inside
            (decode_bit-Reads reliable all bytes b))
          (rw add (plain_loop-Reads n byte small (omega (arith, few)))))

  pub literal_bits-Reads :
      (byte : ℕ)
      → byte < 256
      → Reads reliable all bytes IsLiteralTable
          (literal_code 8 byte)
          (0x100 + byte)
          (literal_bits true none)
  unfolding literal_bits
  literal_bits-Reads byte small =
      let first : place_of byte 8 ≡ 1 = omega (arith, small) in
      subst
        (λ r.
          Reads reliable all bytes IsLiteralTable (literal_code 8 byte) (0x100 + byte)
            (plain_loop true 8 r))
        first (plain_loop-Reads 8 byte small (omega arith))
