-- ===== src/Roundtrip/Span.antt =====
-- What src/encode/rangecoder.rs and src/decode/rangecoder.rs agree on: the numbers, of `count` bytes,
-- from `base` up to `range` above it, and what a bit leaves of them.
use lzma_no_std_rs.Base.{
  ℕ, ◌+◌, ◌-◌, ◌*◌, ◌/◌, ◌^◌, ◌≤◌, ◌<◌, ◌≡◌, refl, inl, inr, Bool, true, false, arith, ltb, ltb→lt,
  ltb→le, Bool-cases,
}
use native.Mathlib.Nat.{mul-le-mul_left}
use lzma_no_std_rs.RangeDecoder.Safe.{IsProb}
use lzma_no_std_rs.Encode.RangeEncoder.{adapt}

pub record Span : Type 0 where
  pub base : ℕ
  pub count : ℕ
  pub range : ℕ

abbrev pub IsWide : Span → Type 0
IsWide s = (2 ^ 24 ≤ s.range) × (s.range < 2 ^ 32)

-- The part of a zero.
abbrev pub bound : ℕ → Span → ℕ
bound p s = s.range / 2 ^ 11 * p

abbrev pub split : Bool → ℕ → Span → Span
split true p s = record { base = s.base + bound p s; count = s.count; range = s.range - bound p s }
split false p s = record { base = s.base; count = s.count; range = bound p s }

abbrev pub refill_if : Bool → Span → Span
refill_if true s = record { base = 256 * s.base; count = s.count + 1; range = 256 * s.range }
refill_if false s = s

abbrev pub refill : Span → Span
refill s = refill_if (ltb s.range (2 ^ 24)) s

abbrev pub after_bit : Bool → ℕ → Span → Span
after_bit b p s = refill (split b p s)

pub bound-fits :
    (s : Span) (p : ℕ) → IsWide s → IsProb p → (2 ^ 16 ≤ bound p s) × (bound p s + 2 ^ 16 ≤ s.range)
bound-fits s p wide prob =
    let least : s.range / 2 ^ 11 * 31 ≤ bound p s = mul-le-mul_left (s.range / 2 ^ 11) prob.0 in
    let most : bound p s ≤ s.range / 2 ^ 11 * 2017 = mul-le-mul_left (s.range / 2 ^ 11) prob.1 in
    (omega (arith, wide), omega (arith, wide))

-- Wide enough for one refill.
abbrev pub IsOpen : Span → Type 0
IsOpen s = (2 ^ 16 ≤ s.range) × (s.range < 2 ^ 32)

pub split-IsOpen : (b : Bool) (p : ℕ) (s : Span) → IsWide s → IsProb p → IsOpen (split b p s)
split-IsOpen true p s wide prob =
    let f = bound-fits s p wide prob in (omega (arith, f), omega (arith, f, wide))
split-IsOpen false p s wide prob = let f = bound-fits s p wide prob in (f.0, omega (arith, f, wide))

pub refill-IsWide : (s : Span) → IsOpen s → IsWide (refill s)
refill-IsWide s open_ = elim (Bool-cases (ltb s.range (2 ^ 24))) [
  | inl narrow ↦
      let below = ltb→lt _ _ narrow in rw narrow (omega (arith, open_), omega (arith, below))
  | inr wide ↦ rw wide (ltb→le _ _ wide, open_.1)
]

pub after_bit-IsWide :
    (b : Bool) (p : ℕ) (s : Span) → IsWide s → IsProb p → IsWide (after_bit b p s)
after_bit-IsWide b p s wide prob = refill-IsWide (split b p s) (split-IsOpen b p s wide prob)

-- A bit moves the probability of a zero by a thirty-second of the way: down after a one, up towards
-- 2048 after a zero.
abbrev pub learned : Bool → ℕ → ℕ
learned true p = p - p / 32
learned false p = p + (2048 - p) / 32

pub learned-IsProb : (b : Bool) (p : ℕ) → IsProb p → IsProb (learned b p)
learned-IsProb true p prob = (omega (arith, prob), omega (arith, prob))
learned-IsProb false p prob = (omega (arith, prob), omega (arith, prob))

pub adapt-learned : (b : Bool) (p : ℕ) → IsProb p → adapt b p ≡ learned b p
unfolding adapt
adapt-learned true p prob = omega (arith, prob)
adapt-learned false p prob = omega (arith, prob)

pub split-count : (b : Bool) (p : ℕ) (s : Span) → (split b p s).count ≡ s.count
split-count true p s = refl
split-count false p s = refl
