-- ===== src/Lzma/Literal/Place.antt =====
-- src/decode/lzma.rs, `decode_literal`: `lit_state` is a place of the literal probabilities.
use lzma_no_std_rs.Base.{ℕ, zero, suc, ◌+◌, ◌-◌, ◌*◌, ◌%◌, ◌^◌, ◌≤◌, ◌<◌, ◌≡◌, ◌∙◌, arith, u32}
use native.Mathlib.Nat.{
  pow-suc, mul-le-mul_right, add-mul, mul_assoc, mul_comm, div-lt_iff_lt-mul, mod-lt,
  pow-le-pow_right,
}
use lzma_no_std_rs.RangeDecoder.Trees.{pow-pos}
use lzma_no_std_rs.Lzma.Params.{LzmaParams}
use lzma_no_std_rs.Lzma.State.Valid.{IsTaken}
use lzma_no_std_rs.Lzma.Literal.{prev_bits, lit_state_of}

two_to_sum : (a b : ℕ) → 2 ^ (a + b) ≡ 2 ^ a * 2 ^ b
two_to_sum a zero = let same : a + 0 ≡ a = omega arith in rw same (omega arith)
two_to_sum a (suc b) =
    let up : a + suc b ≡ suc (a + b) = omega arith in
    rw (up, pow-suc 2 (a + b), two_to_sum a b, pow-suc 2 b) (mul_assoc (2 ^ a) (2 ^ b) 2)

-- The high bits of the last byte.
prev_bits-fits : (prev_byte lc : ℕ) → lc ≤ 8 → prev_byte < 256 → prev_bits prev_byte lc < 2 ^ lc
prev_bits-fits prev_byte lc small byte =
    let whole : u32 (8 + 2 ^ 32 - lc) % 64 ≡ 8 - lc = omega (arith, small) in
    let all : lc + (8 - lc) ≡ 8 = omega (arith, small) in
    let split : 256 ≡ 2 ^ lc * 2 ^ (8 - lc) = rw all at (two_to_sum lc (8 - lc)) in
    rw whole ((div-lt_iff_lt-mul (pow-pos (8 - lc))).1 (omega (arith, byte, split)))

pub lit_state_of-fits :
    (probs_mem_limit len prev_byte : ℕ) (p : LzmaParams)
    → IsTaken probs_mem_limit p
    → prev_byte < 256
    → lit_state_of p len prev_byte < probs_mem_limit
lit_state_of-fits probs_mem_limit len prev_byte p v byte =
    let a : ℕ = len % 2 ^ p.lp in
    let high : a < 2 ^ p.lp = mod-lt len (pow-pos p.lp) in
    let top : (a + 1) * 2 ^ p.lc ≤ 2 ^ p.lp * 2 ^ p.lc =
      mul-le-mul_right (2 ^ p.lc) (omega (arith, high)) in
    let low : prev_bits prev_byte p.lc < 2 ^ p.lc = prev_bits-fits prev_byte p.lc v.lc_fits byte in
    let whole : 2 ^ (p.lc + p.lp) ≡ 2 ^ p.lp * 2 ^ p.lc =
      two_to_sum p.lc p.lp ∙ mul_comm (2 ^ p.lc) (2 ^ p.lp) in
    let in_word : 2 ^ (p.lc + p.lp) ≤ 2 ^ 12 =
      pow-le-pow_right (omega arith) {i = p.lc + p.lp} {j = 12}
        (omega (arith, v.lc_fits, v.lp_fits)) in
    omega (arith, top, low, whole, in_word, v.room, add-mul a 1 (2 ^ p.lc))
