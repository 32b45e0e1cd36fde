-- ===== src/RangeDecoder/BitTree/Sound.antt =====
-- src/decode/rangecoder.rs, `BitTree`: a tree that was reset stays one of its size.
use lzma_no_std_rs.Base.{ℕ, ◌^◌, ◌≤◌, ◌<◌, ◌≡◌, refl, Bool, arith, length-replicate, All-replicate}
use native.Mathlib.Nat.{pow-le-pow_right}
use lzma_no_std_rs.Io.Interface.{BufRead}
use lzma_no_std_rs.RangeDecoder.Safe.{IsProb}
use lzma_no_std_rs.RangeDecoder.Trees.{IsTable}
use lzma_no_std_rs.RangeDecoder.Sound.{Sound, on_field-Sound, parse_bit_tree-Sound}
use lzma_no_std_rs.RangeDecoder.Reverse.{parse_reverse_bit_tree-Sound}
use lzma_no_std_rs.RangeDecoder.BitTree.{BitTree, parse, parse_reverse}
use lzma_no_std_rs.RangeDecoder.BitTree.Fresh.{fresh}
use lzma_no_std_rs.RangeDecoder.{parse_bit_tree, parse_reverse_bit_tree}

-- A tree of `k` bits.
pub record IsTree (k : ℕ) (t : BitTree) : Type 0 where
  pub bits : t.num_bits ≡ k
  pub table : IsTable (2 ^ k) t.probs

pub fresh-IsTree : (k : ℕ) → IsTree k (fresh k)
fresh-IsTree k = record {
  bits = refl;
  table = (
    All-replicate IsProb (2 ^ k) 0x400 (omega arith, omega arith),
    length-replicate (2 ^ k) 0x400,
  );
}

module _ {R : Type 0} ⦃rd : BufRead R⦄ (w k : ℕ) where
  pub parse-Sound :
      (update : Bool) → k ≤ 31 → Sound w (IsTree k) (λ v. v < 2 ^ k) (parse {R = R} update)
  unfolding parse
  parse-Sound update few s r v =
      let in_word : 2 ^ k ≤ 2 ^ 31 = pow-le-pow_right (omega arith) {i = k} {j = 31} few in
      let run : Sound w (IsTable (2 ^ k)) (λ v. v < 2 ^ k)
          (parse_bit_tree {R = R} s.1.num_bits update) =
        rw v.bits (parse_bit_tree-Sound w k update in_word) in
      on_field-Sound w (IsTree k) (IsTable (2 ^ k)) (λ v. v < 2 ^ k) (λ t. t.probs)
        (λ p t. record t { probs = p }) (parse_bit_tree s.1.num_bits update) (λ t h. h.table)
        (λ t p h q. record { bits = h.bits; table = q }) run s r v

  pub parse_reverse-Sound :
      (update : Bool) → k ≤ 31 → Sound w (IsTree k) (λ v. v < 2 ^ k) (parse_reverse {R = R} update)
  unfolding parse_reverse
  parse_reverse-Sound update few s r v =
      let in_word : 2 ^ k ≤ 2 ^ 31 = pow-le-pow_right (omega arith) {i = k} {j = 31} few in
      let run : Sound w (IsTable (2 ^ k)) (λ v. v < 2 ^ k)
          (parse_reverse_bit_tree {R = R} s.1.num_bits 0 update) =
        rw v.bits (
          parse_reverse_bit_tree-Sound w (2 ^ k) 0 k update few (omega arith)
            (omega (arith, in_word))) in
      on_field-Sound w (IsTree k) (IsTable (2 ^ k)) (λ v. v < 2 ^ k) (λ t. t.probs)
        (λ p t. record t { probs = p }) (parse_reverse_bit_tree s.1.num_bits 0 update)
        (λ t h. h.table) (λ t p h q. record { bits = h.bits; table = q }) run s r v
