-- ===== src/RangeDecoder/Reverse.antt =====
-- src/decode/rangecoder.rs: `parse_reverse_bit_tree` stays within the part of the array that is its own,
-- and `get` within a word.
use lzma_no_std_rs.Base.{
  ℕ, zero, suc, ◌+◌, ◌-◌, ◌*◌, ◌^◌, ◌≤◌, ◌<◌, bit_xor, ◌≡◌, inl, inr, Bool, true, false, List,
  arith, leb, Bool-cases, u32, usize, shr, shl, to_num, relabel, Post, next-Post, relabel-Post,
}
use lzma_no_std_rs.Base.{bit_xor_low, bit_xor_high, shift_more}
use native.Mathlib.Nat.{
  add-zero, pow-le-pow_right, pow-suc, mul-le-mul_left, mul-le-mul_right, mul_right_comm,
}
use lzma_no_std_rs.Io.Interface.{IoError, BufRead}
use lzma_no_std_rs.Error.{io_error}
use lzma_no_std_rs.RangeDecoder.{
  RangeDecoder, normalize, get_bit, get_loop, get, decode_bit_at, reverse_loop,
  parse_reverse_bit_tree,
}
use lzma_no_std_rs.RangeDecoder.Safe.{Ready, HasInput, normalize-Post}
use lzma_no_std_rs.RangeDecoder.Trees.{ReadyAt, FailedAt, IsTable, bit_small, pow-pos}
use lzma_no_std_rs.RangeDecoder.Sound.{Any, Sound, >>=-Sound, return-Sound, decode_bit_at-Sound}

-- The index has not come to a place below the tree, with `n` bits left of `num_bits`.
abbrev pub IsInside : ℕ → ℕ → ℕ → Type 0
IsInside size n tmp = (tmp + 1) * 2 ^ n ≤ 2 * size

abbrev pub step_tmp : ℕ → Bool → ℕ
step_tmp tmp b = bit_xor (usize (shl tmp 1)) (to_num b)

IsInside-step :
    (size n tmp : ℕ) (b : Bool)
    → size ≤ 2 ^ 31
    → IsInside size (suc n) tmp
    → (tmp < size) × IsInside size n (step_tmp tmp b)
IsInside-step size n tmp b small hi =
    let below : tmp < size =
      omega (arith, hi, shift_more (tmp + 1) n, mul-le-mul_left (tmp + 1) (pow-pos n)) in
    let whole : usize (shl tmp 1) ≡ tmp * 2 = omega (arith, small, below) in
    let next_tmp : step_tmp tmp b ≡ tmp * 2 + to_num b =
      rw whole (bit_xor_low 1 tmp (to_num b) (bit_small b)) in
    let most : (tmp * 2 + to_num b + 1) * 2 ^ n ≤ (tmp + 1) * 2 * 2 ^ n =
      mul-le-mul_right (2 ^ n) (omega (arith, bit_small b)) in
    (
      below,
      rw next_tmp
          (omega (arith, mul_right_comm (tmp + 1) 2 (2 ^ n), hi, shift_more (tmp + 1) n, most)),
    )

-- A bit goes above the ones that the result has.
abbrev pub step_result : ℕ → ℕ → Bool → ℕ
step_result i result b = bit_xor result (u32 (shl (to_num b) i))

shifted_bit : (i : ℕ) (b : Bool) → 2 ^ i ≤ 2 ^ 31 → u32 (shl (to_num b) i) ≡ to_num b * 2 ^ i
shifted_bit i false h = omega arith
shifted_bit i true h = omega arith

one_more : (i result : ℕ) (b : Bool) → result < 2 ^ i → result + to_num b * 2 ^ i < 2 ^ suc i
one_more i result false h = omega (arith, pow-suc 2 i)
one_more i result true h = omega (arith, pow-suc 2 i)

regroup : (i n : ℕ) → i + suc n ≡ i + 1 + n
regroup i n = omega arith

one_on : (i : ℕ) → i + 1 ≡ suc i
one_on i = omega arith

step_result-fits :
    (i result : ℕ) (b : Bool) → i < 32 → result < 2 ^ i → step_result i result b < 2 ^ suc i
step_result-fits i result b small fits =
    let in_word : 2 ^ i ≤ 2 ^ 31 = pow-le-pow_right (omega arith) {i = i} {j = 31} (omega arith) in
    let whole : u32 (shl (to_num b) i) ≡ to_num b * 2 ^ i = shifted_bit i b in_word in
    rw (whole, bit_xor_high i (to_num b) result fits) (one_more i result b fits)

abbrev halved : {R : Type 0} → RangeDecoder R → ℕ → RangeDecoder R
halved c code = record c { range = shr c.range 1; code = code }

pushed_bit-fits :
    (i result : ℕ) (b : Bool)
    → i < 31
    → result < 2 ^ i
    → bit_xor (u32 (shl result 1)) (to_num b) < 2 ^ suc i
pushed_bit-fits i result b small fits =
    let in_word : 2 ^ i ≤ 2 ^ 31 = pow-le-pow_right (omega arith) {i = i} {j = 31} (omega arith) in
    let whole : u32 (shl result 1) ≡ result * 2 = omega (arith, in_word, fits) in
    rw (whole, bit_xor_low 1 result (to_num b) (bit_small b))
      (omega (arith, bit_small b, fits, pow-suc 2 i))

module _ {R : Type 0} ⦃rd : BufRead R⦄ (w : ℕ) where
  -- With `n` bits to go, at bit `i`.
  pub reverse_loop-Sound :
      (total size offset n i tmp result : ℕ) (update : Bool)
      → total ≤ 2 ^ 31
      → offset + total ≤ size
      → size ≤ 2 ^ 32
      → i + n ≤ 32
      → IsInside total n tmp
      → result < 2 ^ i
      → Sound w
          (IsTable size)
          (λ v. v < 2 ^ (i + n))
          (reverse_loop {R = R} offset update n i tmp result)
  unfolding reverse_loop
  reverse_loop-Sound total size offset zero i tmp result update small room bound few inside fits =
      return-Sound w IoError (IsTable size) (λ v. v < 2 ^ (i + 0)) result (rw (add-zero i) fits)
  reverse_loop-Sound total size offset (suc n) i tmp result update small room bound few inside
        fits =
      let below : tmp < total = (IsInside-step total n tmp true small inside).0 in
      let place : usize (offset + tmp) ≡ offset + tmp = omega arith in
      >>=-Sound w (IsTable size) Any _ (decode_bit_at (usize (offset + tmp)) update) _
        (rw place (decode_bit_at-Sound w size (offset + tmp) update (omega arith)))
        (λ b any. rw (regroup i n) (
          reverse_loop-Sound total size offset n (i + 1) (step_tmp tmp b) (step_result i result b)
            update small room bound (omega arith) (IsInside-step total n tmp b small inside).1
            (rw (one_on i) (step_result-fits i result b (omega arith) fits))))

  -- `num_bits` bits give a number below 2 ^ num_bits, and use the places from `offset` on.
  pub parse_reverse_bit_tree-Sound :
      (size offset num_bits : ℕ) (update : Bool)
      → num_bits ≤ 31
      → offset + 2 ^ num_bits ≤ size
      → size ≤ 2 ^ 32
      → Sound w
          (IsTable size)
          (λ v. v < 2 ^ num_bits)
          (parse_reverse_bit_tree {R = R} num_bits offset update)
  unfolding parse_reverse_bit_tree
  parse_reverse_bit_tree-Sound size offset num_bits update few room bound =
      let all : 0 + num_bits ≡ num_bits = omega arith in
      rw all at (
        reverse_loop-Sound (2 ^ num_bits) size offset num_bits 0 1 0 update
          (pow-le-pow_right (omega arith) few) room bound (omega arith) (omega arith) (omega arith))

module _ {R : Type 0} ⦃rd : BufRead R⦄ where
  -- In a table with room for the tree, parse_reverse_bit_tree does not panic and gives a
  -- number of the bits that it reads; the table keeps its size and bounds.
  pub parse_reverse_bit_tree-Post :
      (w size offset num_bits : ℕ) (update : Bool) (s : RangeDecoder R × List ℕ)
      → num_bits ≤ 31
      → offset + 2 ^ num_bits ≤ size
      → size ≤ 2 ^ 32
      → ReadyAt w size s
      → Post
          (λ v u. Ready w u.0 × IsTable size u.1 × (v < 2 ^ num_bits))
          (FailedAt size)
          (parse_reverse_bit_tree num_bits offset update s)
  parse_reverse_bit_tree-Post w size offset num_bits update s few room bound r =
      parse_reverse_bit_tree-Sound w size offset num_bits update few room bound s r.0 r.1

module _ {R : Type 0} ⦃rd : BufRead R⦄ where
  -- A bit of even odds halves the range.
  get_bit-Post : (w : ℕ) (c : RangeDecoder R) → Ready w c → Post (λ _. Ready w) HasInput (get_bit c)
  unfolding get_bit
  get_bit-Post w c (v, wt) = elim (Bool-cases (leb (shr c.range 1) c.code)) [
    | inl one ↦ rw one (
        next-Post (λ _. Ready w) _ HasInput
          (relabel io_error (normalize (halved c (c.code - shr c.range 1)))) _
          (relabel-Post (λ _. Ready w) HasInput io_error
            (normalize (halved c (c.code - shr c.range 1)))
            (normalize-Post w (halved c (c.code - shr c.range 1)) (omega (arith, v.enough))
              (omega (arith, v.range_fits)) (omega (arith, v.code_fits)) v.input
              (omega (arith, wt))))
          (λ u d r. r))
    | inr none_set ↦ rw none_set (
        next-Post (λ _. Ready w) _ HasInput (relabel io_error (normalize (halved c c.code))) _
          (relabel-Post (λ _. Ready w) HasInput io_error (normalize (halved c c.code))
            (normalize-Post w (halved c c.code) (omega (arith, v.enough))
              (omega (arith, v.range_fits)) v.code_fits v.input (omega (arith, wt))))
          (λ u d r. r))
  ]

  get_loop-Post :
      (w n i result : ℕ) (c : RangeDecoder R)
      → i + n ≤ 31
      → result < 2 ^ i
      → Ready w c
      → Post (λ v d. Ready w d × (v < 2 ^ (i + n))) HasInput (get_loop n result c)
  unfolding get_loop
  get_loop-Post w zero i result c few fits r = (r, rw (add-zero i) fits)
  get_loop-Post w (suc n) i result c few fits r =
      next-Post (λ _. Ready w) _ HasInput (get_bit c) _ (get_bit-Post w c r)
        (λ b d ready. rw (regroup i n) (
          get_loop-Post w n (i + 1) (bit_xor (u32 (shl result 1)) (to_num b)) d (omega arith)
            (rw (one_on i) (pushed_bit-fits i result b (omega arith) fits)) ready))

  -- Bits of even odds make a number of as many bits, with no panic.
  pub get-Post :
      (w count : ℕ) (c : RangeDecoder R)
      → count ≤ 31
      → Ready w c
      → Post (λ v d. Ready w d × (v < 2 ^ count)) HasInput (get count c)
  unfolding get
  get-Post w count c few r =
      let all : 0 + count ≡ count = omega arith in
      rw all at (get_loop-Post w count 0 0 c (omega arith) (omega arith) r)
