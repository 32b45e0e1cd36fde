-- ===== src/Roundtrip/Length.antt =====
-- src/decode/rangecoder.rs, `LenDecoder::decode`, against the code of a length: up to 7 by a zero and three
-- bits, up to 15 by a one, a zero and three bits, and above by two ones and eight bits.
pub mod Decode
use lzma_no_std_rs.Base.{
  ℕ, ◌+◌, ◌-◌, ◌*◌, ◌^◌, ◌≤◌, ◌<◌, ◌≡◌, refl, ap, ◌∙◌, subst, inl, inr, Bool, true, false, not,
  List, [], arith, ltb, ltb→lt, ltb→le, if◌then◌else◌, Bool-cases, All, length, u32, shl, M, ◌>>=◌,
  return, Post,
}
use lzma_no_std_rs.Base.{at_elem, on_field}
use native.Mathlib.Nat.{pow-le-pow_right}
use lzma_no_std_rs.Io.Interface.{IoError, BufRead}
use lzma_no_std_rs.Io.Ext.Bytes.{IsByte}
use lzma_no_std_rs.RangeDecoder.{RangeDecoder, decode_bit, tree_loop, parse_bit_tree}
use lzma_no_std_rs.RangeDecoder.Safe.{IsProb}
use lzma_no_std_rs.RangeDecoder.BitTree as Tree
use lzma_no_std_rs.RangeDecoder.BitTree.{BitTree}
use lzma_no_std_rs.RangeDecoder.BitTree.Sound.{IsTree}
use lzma_no_std_rs.RangeDecoder.LenDecoder.{LenDecoder, choose, choose2, low, mid, high, decode}
use lzma_no_std_rs.RangeDecoder.LenDecoder.Sound.{IsLen}
use lzma_no_std_rs.Roundtrip.Span.{Span, IsWide}
use lzma_no_std_rs.Roundtrip.Target.{Leads}
use lzma_no_std_rs.Roundtrip.Decoding.{IsReliable, Tracks}
use lzma_no_std_rs.Roundtrip.Code.{
  Code, IsCode, bit_code, bit_code-IsCode, then_code, then_code-IsCode, done-IsCode, IsTable,
  at_code, at_code-IsCode,
}
use lzma_no_std_rs.Roundtrip.Reads.{
  Gives, Reads, decode_bit-Reads, return-Reads, >>=-Reads, at_elem-Reads,
}
use lzma_no_std_rs.Roundtrip.Tree.{
  field_code, field_code-IsCode, on_field-Reads, tree_code, tree_code-IsCode, tree_loop-Reads,
}

-- A number of `k` bits on a tree.
abbrev pub whole_code : ℕ → ℕ → Code BitTree
whole_code k n = field_code (λ t. t.probs) (λ p t. record t { probs = p }) (tree_code k n 1)

abbrev pub choice_code : Bool → Code LenDecoder
choice_code b = field_code (λ d. d.choice) (λ t d. record d { choice = t }) (bit_code b)

abbrev pub choice2_code : Bool → Code LenDecoder
choice2_code b = field_code (λ d. d.choice2) (λ t d. record d { choice2 = t }) (bit_code b)

abbrev pub no_tree : BitTree
no_tree = record { num_bits = 0; probs = [] }

abbrev pub low_code : ℕ → ℕ → Code LenDecoder
low_code i n =
    field_code (λ d. d.low_coder) (λ t d. record d { low_coder = t })
      (at_code i no_tree (whole_code 3 n))

abbrev pub mid_code : ℕ → ℕ → Code LenDecoder
mid_code i n =
    field_code (λ d. d.mid_coder) (λ t d. record d { mid_coder = t })
      (at_code i no_tree (whole_code 3 n))

abbrev pub high_code : ℕ → Code LenDecoder
high_code n = field_code (λ d. d.high_coder) (λ t d. record d { high_coder = t }) (whole_code 8 n)

abbrev pub len_code : ℕ → ℕ → Code LenDecoder
len_code pos_state n =
    if ltb n 8
    then then_code (choice_code false) (low_code pos_state n)
    else if ltb n 16
    then then_code (choice_code true) (then_code (choice2_code false) (mid_code pos_state (n - 8)))
    else then_code (choice_code true) (then_code (choice2_code true) (high_code (n - 16)))

abbrev pub AreTrees : List BitTree → Type 0
AreTrees = IsTable 16 (IsTree 3)

module _ (k : ℕ) (few : k ≤ 31) where
  pub in_word : 2 ^ k ≤ 2 ^ 31
  in_word = pow-le-pow_right (omega arith) {i = k} {j = 31} few

  pub whole_code-IsCode : (n : ℕ) → IsCode (IsTree k) (whole_code k n)
  whole_code-IsCode n =
      field_code-IsCode (IsTree k) (IsTable (2 ^ k) IsProb) (λ t. t.probs)
        (λ p t. record t { probs = p }) (λ t h. (h.table.1, h.table.0))
        (λ p t q h. record { bits = h.bits; table = (q.1, q.0) }) (tree_code k n 1)
        (tree_code-IsCode (2 ^ k) in_word k n 1 (omega arith, omega arith))

pub IsChoice-keeps : (t : ℕ) (d : LenDecoder) → IsProb t → IsLen d → IsLen (record d { choice = t })
IsChoice-keeps t d q h = record {
  choice = q;
  choice2 = h.choice2;
  low = h.low;
  mid = h.mid;
  high = h.high;
}

pub IsChoice2-keeps :
    (t : ℕ) (d : LenDecoder) → IsProb t → IsLen d → IsLen (record d { choice2 = t })
IsChoice2-keeps t d q h = record {
  choice = h.choice;
  choice2 = q;
  low = h.low;
  mid = h.mid;
  high = h.high;
}

pub IsLow-keeps :
    (t : List BitTree) (d : LenDecoder) → AreTrees t → IsLen d → IsLen (record d { low_coder = t })
IsLow-keeps t d q h = record {
  choice = h.choice;
  choice2 = h.choice2;
  low = (q.1, q.0);
  mid = h.mid;
  high = h.high;
}

pub IsMid-keeps :
    (t : List BitTree) (d : LenDecoder) → AreTrees t → IsLen d → IsLen (record d { mid_coder = t })
IsMid-keeps t d q h = record {
  choice = h.choice;
  choice2 = h.choice2;
  low = h.low;
  mid = (q.1, q.0);
  high = h.high;
}

pub IsHigh-keeps :
    (t : BitTree) (d : LenDecoder) → IsTree 8 t → IsLen d → IsLen (record d { high_coder = t })
IsHigh-keeps t d q h = record {
  choice = h.choice;
  choice2 = h.choice2;
  low = h.low;
  mid = h.mid;
  high = q;
}

pub choice_code-IsCode : (b : Bool) → IsCode IsLen (choice_code b)
choice_code-IsCode b =
    field_code-IsCode IsLen IsProb (λ d. d.choice) (λ t d. record d { choice = t })
      (λ d h. h.choice) IsChoice-keeps (bit_code b) (bit_code-IsCode b)

pub choice2_code-IsCode : (b : Bool) → IsCode IsLen (choice2_code b)
choice2_code-IsCode b =
    field_code-IsCode IsLen IsProb (λ d. d.choice2) (λ t d. record d { choice2 = t })
      (λ d h. h.choice2) IsChoice2-keeps (bit_code b) (bit_code-IsCode b)

pub one_of-IsCode : (i n : ℕ) → i < 16 → IsCode AreTrees (at_code i no_tree (whole_code 3 n))
one_of-IsCode i n below =
    at_code-IsCode (IsTree 3) 16 i no_tree (whole_code 3 n) below
      (whole_code-IsCode 3 (omega arith) n)

pub low_code-IsCode : (i n : ℕ) → i < 16 → IsCode IsLen (low_code i n)
low_code-IsCode i n below =
    field_code-IsCode IsLen AreTrees (λ d. d.low_coder) (λ t d. record d { low_coder = t })
      (λ d h. (h.low.1, h.low.0)) IsLow-keeps (at_code i no_tree (whole_code 3 n))
      (one_of-IsCode i n below)

pub mid_code-IsCode : (i n : ℕ) → i < 16 → IsCode IsLen (mid_code i n)
mid_code-IsCode i n below =
    field_code-IsCode IsLen AreTrees (λ d. d.mid_coder) (λ t d. record d { mid_coder = t })
      (λ d h. (h.mid.1, h.mid.0)) IsMid-keeps (at_code i no_tree (whole_code 3 n))
      (one_of-IsCode i n below)

pub high_code-IsCode : (n : ℕ) → IsCode IsLen (high_code n)
high_code-IsCode n =
    field_code-IsCode IsLen (IsTree 8) (λ d. d.high_coder) (λ t d. record d { high_coder = t })
      (λ d h. h.high) IsHigh-keeps (whole_code 8 n) (whole_code-IsCode 8 (omega arith) n)
