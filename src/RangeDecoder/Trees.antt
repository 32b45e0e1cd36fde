-- ===== src/RangeDecoder/Trees.antt =====
-- src/decode/rangecoder.rs: trees of bits stay within the array of their probabilities.
use lzma_no_std_rs.Base.{
  ℕ, zero, suc, ◌+◌, ◌*◌, ◌^◌, ◌≤◌, ◌<◌, bit_xor, ◌≡◌, ◌∙◌, Bool, true, false, List, arith, length,
  All, u32, shl, to_num, Post, next-Post, Post-mono,
}
use native.Mathlib.Nat.{pow-suc, mul-le-mul_left, mul-le-mul_right, mul_right_comm}
use lzma_no_std_rs.Base.{at_elem, at_elem-Post, bit_xor_low, shift_more}
use lzma_no_std_rs.Io.Interface.{BufRead}
use lzma_no_std_rs.RangeDecoder.{RangeDecoder, decode_bit, decode_bit_at, tree_loop, parse_bit_tree}
use lzma_no_std_rs.RangeDecoder.Safe.{IsProb, Ready, HasInput, decode_bit-Post}

-- Probabilities for `n` places.
abbrev pub IsTable : ℕ → List ℕ → Type 0
IsTable n ps = All IsProb ps × (length ps ≡ n)

pub pow-pos : (n : ℕ) → 1 ≤ 2 ^ n
pow-pos zero = omega arith
pow-pos (suc n) = omega (arith, pow-suc 2 n, pow-pos n)

-- A path of the tree: with `n` bits left, the index has its leading one `n` places below `size`.
abbrev pub IsIndex : ℕ → ℕ → ℕ → Type 0
IsIndex size n tmp = (size ≤ tmp * 2 ^ n) × ((tmp + 1) * 2 ^ n ≤ 2 * size)

abbrev pub step_index : ℕ → Bool → ℕ
step_index tmp b = bit_xor (u32 (shl tmp 1)) (to_num b)

pub bit_small : (b : Bool) → to_num b < 2
bit_small false = omega arith
bit_small true = omega arith

top : (tmp size : ℕ) → size ≤ 2 ^ 31 → tmp < size → u32 (shl tmp 1) ≡ tmp * 2
top tmp size small below = omega arith

pub step_index_lem :
    (tmp size : ℕ) (b : Bool) → size ≤ 2 ^ 31 → tmp < size → step_index tmp b ≡ tmp * 2 + to_num b
step_index_lem tmp size b small below =
    rw (top tmp size small below) (bit_xor_low 1 tmp (to_num b) (bit_small b))

pub path_step :
    (size a tmp r : ℕ)
    → r < 2
    → size ≤ 2 * (tmp * a)
    → 2 * ((tmp + 1) * a) ≤ 2 * size
    → (size ≤ (tmp * 2 + r) * a) × ((tmp * 2 + r + 1) * a ≤ 2 * size)
path_step size a tmp r bit lo hi =
    let least : tmp * 2 * a ≤ (tmp * 2 + r) * a = mul-le-mul_right a (omega arith) in
    let most : (tmp * 2 + r + 1) * a ≤ (tmp + 1) * 2 * a = mul-le-mul_right a (omega arith) in
    (
      omega (arith, mul_right_comm tmp 2 a, lo, least),
      omega (arith, mul_right_comm (tmp + 1) 2 a, hi, most),
    )

pub IsIndex-step :
    (size n tmp : ℕ) (b : Bool)
    → size ≤ 2 ^ 31
    → IsIndex size (suc n) tmp
    → (tmp < size) × IsIndex size n (step_index tmp b)
IsIndex-step size n tmp b small (lo, hi) =
    let double : (k : ℕ) → k * 2 ^ suc n ≡ 2 * (k * 2 ^ n) = λ k. shift_more k n in
    let below : tmp < size =
      omega (arith, hi, double (tmp + 1), mul-le-mul_left (tmp + 1) (pow-pos n)) in
    let next_index : step_index tmp b ≡ tmp * 2 + to_num b =
      step_index_lem tmp size b small below in
    (
      below,
      rw next_index (
          path_step size (2 ^ n) tmp (to_num b) (bit_small b) (omega (arith, lo, double tmp))
            (omega (arith, hi, double (tmp + 1)))),
    )

module _ {R : Type 0} ⦃rd : BufRead R⦄ where
  abbrev pub ReadyAt : ℕ → ℕ → RangeDecoder R × List ℕ → Type 0
  ReadyAt w n s = Ready w s.0 × IsTable n s.1

  -- What an error of the reader leaves.
  abbrev pub FailedAt : ℕ → RangeDecoder R × List ℕ → Type 0
  FailedAt n s = HasInput s.0 × IsTable n s.1

  pub decode_bit_at-Post :
      (w n i : ℕ) (update : Bool) (s : RangeDecoder R × List ℕ)
      → ReadyAt w n s
      → i < n
      → Post (λ _. ReadyAt w n) (FailedAt n) (decode_bit_at i update s)
  unfolding decode_bit_at
  decode_bit_at-Post w n i update s (r, t) below =
      Post-mono (λ _ u. Unit {0} × Ready w u.0 × All IsProb u.1 × (length u.1 ≡ length s.1)) _
        (λ u. HasInput u.0 × All IsProb u.1 × (length u.1 ≡ length s.1)) _
        (at_elem i (decode_bit update) s)
        (at_elem-Post (Ready w) HasInput IsProb (λ _. Unit {0}) i (decode_bit update) s t.0
          (omega (arith, below, t.1))
          (λ p prob.
            Post-mono _ _ _ _ (decode_bit update (s.0, p)) (decode_bit-Post update s.0 p r.0 prob)
              (λ b u a. (tt, (a.0.0, omega (arith, a.0.1, r.1)), a.1)) (λ u a. a)))
        (λ b u a. (a.1, (a.2, a.3 ∙ t.1))) (λ u a. (a.0, (a.1, a.2 ∙ t.1)))

  pub tree_loop-Post :
      (w size n : ℕ) (update : Bool) (tmp : ℕ) (s : RangeDecoder R × List ℕ)
      → size ≤ 2 ^ 31
      → IsIndex size n tmp
      → ReadyAt w size s
      → Post (λ v u. ReadyAt w size u × IsIndex size 0 v) (FailedAt size) (tree_loop update n tmp s)
  unfolding tree_loop
  tree_loop-Post w size zero update tmp s small path r = (r, path)
  tree_loop-Post w size (suc n) update tmp s small path r =
      next-Post (λ _. ReadyAt w size) _ (FailedAt size) (decode_bit_at tmp update s) _
        (decode_bit_at-Post w size tmp update s r (IsIndex-step size n tmp true small path).0)
        (λ b u ready.
          tree_loop-Post w size n update (step_index tmp b) u small
            (IsIndex-step size n tmp b small path).1 ready)

  -- On a table of 2 ^ num_bits probabilities, up to 2 ^ 31 of them, with decoder and probabilities
  -- as decode_bit wants them, parse_bit_tree stays inside the table, gives a number below 2 ^
  -- num_bits and keeps the size and the bounds of the table; a failure of the reader keeps them
  -- too.
  pub parse_bit_tree-Post :
      (w num_bits : ℕ) (update : Bool) (s : RangeDecoder R × List ℕ)
      → 2 ^ num_bits ≤ 2 ^ 31
      → ReadyAt w (2 ^ num_bits) s
      → Post
          (λ v u. ReadyAt w (2 ^ num_bits) u × (v < 2 ^ num_bits))
          (FailedAt (2 ^ num_bits))
          (parse_bit_tree num_bits update s)
  unfolding parse_bit_tree
  parse_bit_tree-Post w num_bits update s small r =
      next-Post (λ v u. ReadyAt w (2 ^ num_bits) u × IsIndex (2 ^ num_bits) 0 v) _
        (FailedAt (2 ^ num_bits)) (tree_loop update num_bits 1 s) _
        (tree_loop-Post w (2 ^ num_bits) num_bits update 1 s small (omega arith, omega arith) r)
        (λ v u a. (a.0, omega (arith, a.1)))
