-- ===== src/Lzma/Distance/Slots.antt =====
-- src/decode/lzma.rs, `decode_distance`: the slots from 4 to 13 read their own part of the 115
-- probabilities, and no distance is above 0xFFFF_FFFF.
use lzma_no_std_rs.Base.{
  ℕ, zero, suc, ◌+◌, ◌-◌, ◌*◌, ◌/◌, ◌%◌, ◌^◌, ◌≤◌, ◌<◌, bit_xor, ◌≡◌, arith, usize,
}
use lzma_no_std_rs.Base.{bit_xor_low}
use native.Mathlib.Nat.{pow-le-pow_right, mul-le-mul_right, add-mul}
use lzma_no_std_rs.Lzma.Distance.{direct_bits, slot_base}

-- A slot that reads its low bits from `pos_decoders`.
pub record IsNear (slot : ℕ) : Type 0 where
  pub bits_few : direct_bits slot ≤ 5
  pub before : slot ≤ slot_base slot
  pub inside : usize (slot_base slot + 2 ^ 64 - slot) + 2 ^ direct_bits slot ≤ 115
  pub top : slot_base slot + 2 ^ direct_bits slot ≤ 128

-- A slot that reads the high bits at even odds, and the last four from the align tree.
pub record IsFar (slot : ℕ) : Type 0 where
  pub bits_enough : 4 ≤ direct_bits slot
  pub bits_few : direct_bits slot ≤ 30
  pub top : slot_base slot + 2 ^ direct_bits slot ≤ 2 ^ 32

bits_of : (slot : ℕ) → 4 ≤ slot → slot < 64 → direct_bits slot + 1 ≡ slot / 2
bits_of slot low high = omega arith

slot_base_lem :
    (slot : ℕ)
    → 4 ≤ slot
    → slot < 64
    → slot_base slot ≡ 2 * 2 ^ direct_bits slot + slot % 2 * 2 ^ direct_bits slot
slot_base_lem slot low high =
    let in_word : 2 ^ direct_bits slot ≤ 2 ^ 30 =
      pow-le-pow_right (omega arith) {i = direct_bits slot} {j = 30}
        (omega (arith, bits_of slot low high)) in
    let odd : bit_xor 2 (slot % 2) ≡ 2 + slot % 2 = bit_xor_low 1 1 (slot % 2) (omega arith) in
    let split : (2 + slot % 2) * 2 ^ direct_bits slot
        ≡ 2 * 2 ^ direct_bits slot + slot % 2 * 2 ^ direct_bits slot =
      add-mul 2 (slot % 2) (2 ^ direct_bits slot) in
    let small : slot % 2 * 2 ^ direct_bits slot ≤ 1 * 2 ^ direct_bits slot =
      mul-le-mul_right (2 ^ direct_bits slot) (omega arith) in
    rw (odd, split) (omega (arith, in_word, small))

pub slots-IsFar : (slot : ℕ) → 14 ≤ slot → slot < 64 → IsFar slot
slots-IsFar slot low high =
    let in_word : 2 ^ direct_bits slot ≤ 2 ^ 30 =
      pow-le-pow_right (omega arith) {i = direct_bits slot} {j = 30}
        (omega (arith, bits_of slot (omega arith) high)) in
    let small : slot % 2 * 2 ^ direct_bits slot ≤ 1 * 2 ^ direct_bits slot =
      mul-le-mul_right (2 ^ direct_bits slot) (omega arith) in
    record {
      bits_enough = omega (arith, bits_of slot (omega arith) high);
      bits_few = omega (arith, bits_of slot (omega arith) high);
      top = omega (arith, slot_base_lem slot (omega arith) high, in_word, small);
    }

-- The ten slots, one by one.
IsNear-by : (k : ℕ) → k < 10 → IsNear (4 + k)
IsNear-by zero below = record {
  bits_few = omega arith;
  before = omega arith;
  inside = omega arith;
  top = omega arith;
}
IsNear-by (suc zero) below = record {
  bits_few = omega arith;
  before = omega arith;
  inside = omega arith;
  top = omega arith;
}
IsNear-by (suc (suc zero)) below = record {
  bits_few = omega arith;
  before = omega arith;
  inside = omega arith;
  top = omega arith;
}
IsNear-by (suc (suc (suc zero))) below = record {
  bits_few = omega arith;
  before = omega arith;
  inside = omega arith;
  top = omega arith;
}
IsNear-by (suc (suc (suc (suc zero)))) below = record {
  bits_few = omega arith;
  before = omega arith;
  inside = omega arith;
  top = omega arith;
}
IsNear-by (suc (suc (suc (suc (suc zero))))) below = record {
  bits_few = omega arith;
  before = omega arith;
  inside = omega arith;
  top = omega arith;
}
IsNear-by (suc (suc (suc (suc (suc (suc zero)))))) below = record {
  bits_few = omega arith;
  before = omega arith;
  inside = omega arith;
  top = omega arith;
}
IsNear-by (suc (suc (suc (suc (suc (suc (suc zero))))))) below = record {
  bits_few = omega arith;
  before = omega arith;
  inside = omega arith;
  top = omega arith;
}
IsNear-by (suc (suc (suc (suc (suc (suc (suc (suc zero)))))))) below = record {
  bits_few = omega arith;
  before = omega arith;
  inside = omega arith;
  top = omega arith;
}
IsNear-by (suc (suc (suc (suc (suc (suc (suc (suc (suc zero))))))))) below = record {
  bits_few = omega arith;
  before = omega arith;
  inside = omega arith;
  top = omega arith;
}
IsNear-by (suc (suc (suc (suc (suc (suc (suc (suc (suc (suc k)))))))))) below = absurd (omega arith)

pub slots-IsNear : (slot : ℕ) → 4 ≤ slot → slot < 14 → IsNear slot
slots-IsNear slot low high =
    let again : 4 + (slot - 4) ≡ slot = omega arith in
    rw again at (IsNear-by (slot - 4) (omega arith))
