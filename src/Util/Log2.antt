-- ===== src/Util/Log2.antt =====
-- src/decode/util.rs: `exact_log2` inverts the powers of two.
use lzma_no_std_rs.Base.{
  ℕ, zero, suc, ◌+◌, ◌/◌, ◌%◌, ◌^◌, ◌≤◌, ◌<◌, ◌≡◌, refl, ap, ◌∙◌, ◌≢◌, false, some, arith, ◌==◌,
  low_bits,
}
use native.Mathlib.Nat.{pow-suc}
use lzma_no_std_rs.Util.{log2_loop, exact_log2}

==-ne : (a b : ℕ) → a ≢ b → (a == b) ≡ false
==-ne a b h = ground arith

-- A round on an even number, with no bit found yet.
loop_even :
    (fuel v result : ℕ)
    → 0 < v
    → v % 2 ≡ 0
    → log2_loop (suc fuel) v result 0 ≡ log2_loop fuel (v / 2) (result + 1) 0
unfolding log2_loop
loop_even fuel v result pos even =
    let no_bit : (low_bits v 1 == 1) ≡ false = ==-ne (low_bits v 1) 1 (λ odd. omega (arith, odd)) in
    rw (==-ne v 0 (λ none_left. omega (arith, none_left)), no_bit) refl

pow-pos : (k : ℕ) → 0 < 2 ^ k
pow-pos zero = omega arith
pow-pos (suc k) = omega (arith, pow-suc 2 k, pow-pos k)

one_left : (fuel result : ℕ) → log2_loop (suc (suc fuel)) 1 result 0 ≡ some (result + 0)
unfolding log2_loop
one_left fuel result = ap some (omega arith)

-- The bit that is set lies `k` places above the ones that were looked at.
loop-pow : (k fuel result : ℕ) → k + 2 ≤ fuel → log2_loop fuel (2 ^ k) result 0 ≡ some (result + k)
loop-pow k zero result enough = absurd (omega arith)
loop-pow zero (suc zero) result enough = absurd (omega arith)
loop-pow zero (suc (suc fuel)) result enough = one_left fuel result
loop-pow (suc k) (suc fuel) result enough =
    let half : 2 ^ suc k / 2 ≡ 2 ^ k = omega (arith, pow-suc 2 k) in
    loop_even fuel (2 ^ suc k) result (pow-pos (suc k)) (omega (arith, pow-suc 2 k))
    ∙ rw (half, loop-pow k fuel (result + 1) (omega arith))
        (ap some {y = result + suc k} (omega arith))

-- exact_log2 gives the exponent of every power of two below 2 ^ 64.
pub exact_log2-pow : (k : ℕ) → k < 64 → exact_log2 (2 ^ k) ≡ some k
unfolding exact_log2
exact_log2-pow k below =
    rw (==-ne (2 ^ k) 0 (λ none_left. omega (arith, none_left, pow-pos k)))
      (loop-pow k 65 0 (omega arith) ∙ ap some (omega arith))
