-- ===== src/RangeDecoder/Safe.antt =====
-- src/decode/rangecoder.rs: one bit of the range decoder. The range never wraps (a shift of the code
-- drops its top byte), one call of `normalize` is enough, and each bit uses up range or input.
use lzma_no_std_rs.Base.{
  ℕ, ◌+◌, ◌-◌, ◌*◌, ◌%◌, ◌^◌, ◌≤◌, ◌<◌, bit_xor, ◌≡◌, refl, inl, inr, Bool, true, false, arith, ltb,
  ltb→lt, ltb→le, Bool-cases, length, u16, u32, shr, shl, ◌>>◌, return, Post, next-Post, Post-mono,
  put_back-Post,
}
use lzma_no_std_rs.Base.{bit_xor_low}
use native.Mathlib.Nat.{mul-le-mul_left}
use lzma_no_std_rs.Io.Interface.{BufRead}
use lzma_no_std_rs.Io.Ext.{read_u8}
use lzma_no_std_rs.Io.Ext.Bytes.{IsInput, TookByte, read_u8-Post}
use lzma_no_std_rs.RangeDecoder.{
  RangeDecoder, on_stream, on_decoder, normalize, decode_bit, decode_zero, decode_one,
}

-- A probability of eleven bits that can still move both ways.
abbrev pub IsProb : ℕ → Type 0
IsProb p = (31 ≤ p) × (p ≤ 2017)

module _ {R : Type 0} ⦃rd : BufRead R⦄ where
  pub record IsCoder (c : RangeDecoder R) : Type 0 where
    pub enough : 2 ^ 24 ≤ c.range
    pub range_fits : c.range < 2 ^ 32
    pub code_fits : c.code < 2 ^ 32
    pub input : IsInput c.stream

  -- What a bit uses up: the range, and a byte for each refill of it.
  abbrev pub weight : RangeDecoder R → ℕ
  weight c = length (rd.pending c.stream) * 2 ^ 32 + c.range

  -- Ready for the next bit, with weight below `w`.
  abbrev pub Ready : ℕ → RangeDecoder R → Type 0
  Ready w c = IsCoder c × (weight c < w)

  abbrev pub HasInput : RangeDecoder R → Type 0
  HasInput c = IsInput c.stream

  -- The refill: the byte has been read, and goes below the code.
  refilled :
      (w : ℕ) (c c' : RangeDecoder R) (b : ℕ)
      → 2 ^ 16 ≤ c.range
      → c.range < 2 ^ 24
      → weight c < w
      → TookByte c.stream b c'.stream
      → c'.range ≡ u32 (shl c.range 8)
      → Ready w (record c' { code = bit_xor (u32 (shl c'.code 8)) b })
  refilled w c c' b lo narrow wt (byte, rest, len) e =
      let top : u32 (shl c'.code 8) ≡ c'.code % 2 ^ 24 * 256 = omega arith in
      let code : bit_xor (u32 (shl c'.code 8)) b ≡ c'.code % 2 ^ 24 * 256 + b =
        rw top (bit_xor_low 8 (c'.code % 2 ^ 24) b byte) in
      (
        record {
          enough = omega arith;
          range_fits = omega arith;
          code_fits = omega arith;
          input = rest;
        },
        omega arith,
      )

  -- With a range from 2 ^ 16 to 2 ^ 32 and a code below 2 ^ 32, normalize leaves a range of 2 ^ 24
  -- at least and both words below 2 ^ 32, and no larger weight; it does not panic.
  pub normalize-Post :
      (w : ℕ) (c : RangeDecoder R)
      → 2 ^ 16 ≤ c.range
      → c.range < 2 ^ 32
      → c.code < 2 ^ 32
      → IsInput c.stream
      → weight c < w
      → Post (λ _ c'. Ready w c') HasInput (normalize c)
  unfolding normalize
  normalize-Post w c lo hi co inp wt = elim (Bool-cases (ltb c.range 0x0100_0000)) [
    | inr wide ↦
        rw wide
          (record { enough = ltb→le _ _ wide; range_fits = hi; code_fits = co; input = inp }, wt)
    | inl narrow ↦
        let c2 : RangeDecoder R = record c { range = u32 (shl c.range 8) } in
        rw narrow (
          next-Post (λ b c'. TookByte c.stream b c'.stream × (c'.range ≡ u32 (shl c.range 8))) _
            HasInput (on_stream read_u8 c2) _
            (put_back-Post
              (λ b c'. TookByte c.stream b c'.stream × (c'.range ≡ u32 (shl c.range 8))) HasInput
              (λ r d. record d { stream = r }) c2 (read_u8 c.stream)
              (Post-mono (TookByte c.stream) _ IsInput _ (read_u8 c.stream)
                (read_u8-Post c.stream inp) (λ b r t. (t, refl)) (λ r h. h)))
            (λ b c' t. refilled w c c' b lo (ltb→lt _ _ narrow) wt t.0 t.1))
  ]

  -- The part of the range that the probability of a zero takes.
  abbrev pub bound_of : RangeDecoder R → ℕ → ℕ
  bound_of c p = u32 (shr c.range 11 * p)

  -- The product does not wrap, and both parts of the range are large enough for one refill.
  pub bound_of-bounds :
      (c : RangeDecoder R) (p : ℕ)
      → IsCoder c
      → IsProb p
      → (bound_of c p ≡ shr c.range 11 * p)
        × (2 ^ 16 ≤ bound_of c p)
        × (bound_of c p + 2 ^ 16 ≤ c.range)
  bound_of-bounds c p v prob =
      let least : shr c.range 11 * 31 ≤ shr c.range 11 * p =
        mul-le-mul_left (shr c.range 11) prob.0 in
      let most : shr c.range 11 * p ≤ shr c.range 11 * 2017 =
        mul-le-mul_left (shr c.range 11) prob.1 in
      (
        omega (arith, v.range_fits),
        omega (arith, v.range_fits, v.enough),
        omega (arith, v.range_fits, v.enough),
      )

  -- After a bit: ready for the next one with less weight, and the probability still moves both ways.
  abbrev pub AfterBit : ℕ → RangeDecoder R × ℕ → Type 0
  AfterBit w s = Ready w s.0 × IsProb s.1

  abbrev pub StillBytes : RangeDecoder R × ℕ → Type 0
  StillBytes s = HasInput s.0 × IsProb s.1

  normalize_beside :
      (w : ℕ) (c : RangeDecoder R) (p : ℕ)
      → IsProb p
      → 2 ^ 16 ≤ c.range
      → c.range < 2 ^ 32
      → c.code < 2 ^ 32
      → IsInput c.stream
      → weight c < w
      → Post (λ _. AfterBit w) StillBytes (on_decoder normalize (c, p))
  normalize_beside w c p prob lo hi co inp wt =
      put_back-Post (λ _. AfterBit w) StillBytes (λ d s. (d, s.1)) (c, p) (normalize c)
        (Post-mono (λ _. Ready w) _ HasInput _ (normalize c) (normalize-Post w c lo hi co inp wt)
          (λ _ d r. (r, prob)) (λ d h. (h, prob)))

  last_of_bit :
      (c c' : RangeDecoder R) (p : ℕ) (b : Bool)
      → IsCoder c
      → IsProb p
      → (2 ^ 16 ≤ c'.range) × (c'.range < c.range)
      → c'.code < 2 ^ 32
      → c'.stream ≡ c.stream
      → Post (λ _. AfterBit (weight c)) StillBytes ((on_decoder normalize >> return b) (c', p))
  last_of_bit c c' p b v prob less co same =
      next-Post (λ _. AfterBit (weight c)) _ StillBytes _ (λ _. return b)
        (normalize_beside (weight c) c' p prob less.0 (omega (arith, less.1, v.range_fits)) co
          (rw same v.input) (rw same (omega (arith, less.1))))
        (λ _ s h. h)

  module _ (c : RangeDecoder R) (p : ℕ) (v : IsCoder c) (prob : IsProb p) where
    zero_takes : (2 ^ 16 ≤ bound_of c p) × (bound_of c p < c.range)
    zero_takes = let s = bound_of-bounds c p v prob in (s.1, omega (arith, s.2))

    one_takes :
        (2 ^ 16 ≤ u32 (c.range + 2 ^ 32 - bound_of c p))
        × (u32 (c.range + 2 ^ 32 - bound_of c p) < c.range)
    one_takes =
        let s = bound_of-bounds c p v prob in
        (omega (arith, s.1, s.2, v.range_fits), omega (arith, s.1, s.2, v.range_fits))

    zero_raises : IsProb (u16 (p + shr (u16 (0x800 + 2 ^ 16 - p)) 5))
    zero_raises = (omega (arith, prob), omega (arith, prob))

    one_lowers : IsProb (u16 (p + 2 ^ 16 - shr p 5))
    one_lowers = (omega (arith, prob), omega (arith, prob))

    decode_zero-Post :
        (update : Bool)
        → Post (λ _. AfterBit (weight c)) StillBytes (decode_zero (bound_of c p) update (c, p))
    unfolding decode_zero
    decode_zero-Post true = last_of_bit c _ _ false v zero_raises zero_takes v.code_fits refl
    decode_zero-Post false = last_of_bit c _ _ false v prob zero_takes v.code_fits refl

    decode_one-Post :
        (update : Bool)
        → bound_of c p ≤ c.code
        → Post (λ _. AfterBit (weight c)) StillBytes (decode_one (bound_of c p) update (c, p))
    unfolding decode_one
    decode_one-Post true h = last_of_bit c _ _ true v one_lowers one_takes (omega arith) refl
    decode_one-Post false h = last_of_bit c _ _ true v prob one_takes (omega arith) refl

  -- On a decoder and a probability that fit, decode_bit does not panic; if it returns, they
  -- still fit, and the weight is smaller.
  pub decode_bit-Post :
      (update : Bool) (c : RangeDecoder R) (p : ℕ)
      → IsCoder c
      → IsProb p
      → Post (λ _. AfterBit (weight c)) StillBytes (decode_bit update (c, p))
  unfolding decode_bit
  decode_bit-Post update c p v prob = elim (Bool-cases (ltb c.code (bound_of c p))) [
    | inl low ↦ rw low (decode_zero-Post c p v prob update)
    | inr high ↦ rw high (decode_one-Post c p v prob update (ltb→le _ _ high))
  ]
