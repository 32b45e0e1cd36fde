-- ===== src/Roundtrip/Count.antt =====
-- How many bytes src/encode writes for an input: one at most for each bit.
use lzma_no_std_rs.Base.{
  ℕ, zero, suc, ◌+◌, ◌*◌, ◌^◌, ◌≤◌, Bool, true, false, List, [], ◌∷◌, arith, ltb, length, get_or,
  low_bits,
}
use lzma_no_std_rs.Roundtrip.Span.{Span, split, split-count, refill_if, after_bit}
use lzma_no_std_rs.Roundtrip.Literal.{literal_code}
use lzma_no_std_rs.Roundtrip.Input.{whole, Probs, byte_code, input_code, start_span, start_probs}

refill_if-few : (low : Bool) (s : Span) → (refill_if low s).count ≤ s.count + 1
refill_if-few true s = omega arith
refill_if-few false s = omega arith

after_bit-few : (b : Bool) (p : ℕ) (s : Span) → (after_bit b p s).count ≤ s.count + 1
after_bit-few b p s =
    omega (arith, refill_if-few (ltb (split b p s).range (2 ^ 24)) (split b p s), split-count b p s)

literal_code-few :
    (n byte : ℕ) (s : Span) (t : List ℕ) → (literal_code n byte (s, t)).0.count ≤ s.count + n
literal_code-few zero byte s t = omega arith
literal_code-few (suc n) byte s t = omega (arith, literal_code-few n byte _ _, after_bit-few _ _ s)

byte_code-few :
    (i prev byte : ℕ) (s : Span) (t : Probs) → (byte_code i prev byte (s, t)).0.count ≤ s.count + 9
byte_code-few i prev byte s t = omega (
  arith,
  literal_code-few 8 byte (after_bit false (get_or t.0 (low_bits i 2) 0) s) _,
  after_bit-few false (get_or t.0 (low_bits i 2) 0) s,
)

input_code-few :
    (i prev : ℕ) (bytes : List ℕ) (s : Span) (t : Probs)
    → (input_code i prev bytes (s, t)).0.count ≤ s.count + 9 * length bytes
input_code-few i prev [] s t = omega arith
input_code-few i prev (b ∷ bytes) s t =
    let x : Span × Probs = byte_code i prev b (s, t) in
    omega (arith, input_code-few (i + 1) b bytes x.0 x.1, byte_code-few i prev b s t)

pub whole-few : (bytes : List ℕ) → (whole bytes).count ≤ 5 + 9 * length bytes
whole-few bytes = input_code-few 0 0 bytes start_span start_probs
