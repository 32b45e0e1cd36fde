-- ===== src/Base/Word/Xor.antt =====
-- The exclusive or of a shifted word and a word that fits the freed bits is their sum.
use Prim.Native.Nat.{
  ℕ, zero, suc, ◌+◌, ◌*◌, ◌/◌, ◌%◌, ◌^◌, ◌≤◌, ◌<◌, bit_xor, digits, bit_xor-bitwise, differ,
}
use mathlib.Core.Path.{◌≡◌, refl, ap, ◌∙◌}
use native.Mathlib.Nat.{pow-suc, le_refl}
use native.Mathlib.Omega.{arith}

-- One more bit of a shift doubles the word.
pub shift_more : (word bits : ℕ) → word * 2 ^ suc bits ≡ 2 * (word * 2 ^ bits)
shift_more word bits = ap (λ (unit : ℕ). word * unit) (pow-suc 2 bits) ∙ grind arith

unchanged : (digit : ℕ) → differ digit 0 ≡ digit
unchanged zero = refl
unchanged (suc digit) = refl

-- The digits of both words, lowest first, for at least as many rounds as the first word has.
no_carry :
    (rounds bits word high low : ℕ)
    → high ≤ rounds
    → high ≡ word * 2 ^ bits
    → low < 2 ^ bits
    → digits (λ rest. rest) differ rounds high low ≡ high + low
no_carry zero bits word zero low enough shifted fits = omega arith
no_carry zero bits word (suc high) low enough shifted fits = absurd (omega arith)
no_carry (suc rounds) bits word zero low enough shifted fits = omega arith
no_carry (suc rounds) zero word (suc high) low enough shifted fits =
    let empty : low ≡ 0 = omega arith in
    let later =
      no_carry rounds zero (suc high / 2) (suc high / 2) 0 (omega arith) (omega arith)
        (omega arith) in
    rw (empty, later, unchanged (suc high % 2)) (omega arith)
no_carry (suc rounds) (suc bits) word (suc high) low enough shifted fits =
    let doubled : suc high ≡ 2 * (word * 2 ^ bits) = shifted ∙ shift_more word bits in
    let half : suc high / 2 ≡ word * 2 ^ bits = omega (arith, doubled) in
    let even : suc high % 2 ≡ 0 = omega (arith, doubled) in
    let room : low / 2 < 2 ^ bits = omega (arith, fits, pow-suc 2 bits) in
    let later = no_carry rounds bits word (suc high / 2) (low / 2) (omega arith) half room in
    rw (later, even) (omega (arith, even))

-- `(word << bits) ^ low`
pub bit_xor_low :
    (bits word low : ℕ) → low < 2 ^ bits → bit_xor (word * 2 ^ bits) low ≡ word * 2 ^ bits + low
bit_xor_low bits word low fits =
    bit_xor-bitwise (word * 2 ^ bits) low
    ∙ no_carry (word * 2 ^ bits) bits word (word * 2 ^ bits) low (le_refl (word * 2 ^ bits)) refl
        fits

-- The same with the shifted word on the right.
no_carry_above :
    (rounds bits word low high : ℕ)
    → low ≤ rounds
    → high ≡ word * 2 ^ bits
    → low < 2 ^ bits
    → digits (λ rest. rest) differ rounds low high ≡ low + high
no_carry_above zero bits word zero high enough shifted fits = omega arith
no_carry_above zero bits word (suc low) high enough shifted fits = absurd (omega arith)
no_carry_above (suc rounds) bits word zero high enough shifted fits = omega arith
no_carry_above (suc rounds) zero word (suc low) high enough shifted fits = absurd (omega arith)
no_carry_above (suc rounds) (suc bits) word (suc low) high enough shifted fits =
    let doubled : high ≡ 2 * (word * 2 ^ bits) = shifted ∙ shift_more word bits in
    let half : high / 2 ≡ word * 2 ^ bits = omega (arith, doubled) in
    let even : high % 2 ≡ 0 = omega (arith, doubled) in
    let room : suc low / 2 < 2 ^ bits = omega (arith, fits, pow-suc 2 bits) in
    let later = no_carry_above rounds bits word (suc low / 2) (high / 2) (omega arith) half room in
    rw (later, even, unchanged (suc low % 2)) (omega (arith, even))

-- `low ^ (word << bits)`
pub bit_xor_high :
    (bits word low : ℕ) → low < 2 ^ bits → bit_xor low (word * 2 ^ bits) ≡ low + word * 2 ^ bits
bit_xor_high bits word low fits =
    bit_xor-bitwise low (word * 2 ^ bits)
    ∙ no_carry_above low bits word low (word * 2 ^ bits) (le_refl low) refl fits
