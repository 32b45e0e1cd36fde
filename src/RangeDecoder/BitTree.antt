-- ===== src/RangeDecoder/BitTree.antt =====
-- src/decode/rangecoder.rs, the struct `BitTree<SIZE>`. Its methods take SIZE where they use it.
pub mod Fresh
pub mod Sound
use lzma_no_std_rs.Base.{
  ℕ, zero, suc, ◌+◌, ◌-◌, ◌*◌, ◌/◌, ◌%◌, ◌^◌, ◌≤◌, ◌<◌, min, bit_xor, ◌≡◌, refl, sym, ap, ap₂, ◌∙◌,
  subst, ◌≢◌, ◌⊎◌, inl, inr, Bool, true, false, ◌&&◌, ◌||◌, not, Option, none, some, List, [], ◌∷◌,
  ◌++◌, map, append-nil, append_assoc, arith, ltb, leb, ◌==◌, if◌then◌else◌, ltb→lt, lt→ltb, ltb→le,
  le→ltb, leb→le, ==_iff, Bool-cases, length, get_elem?, get_or, set, take, drop, replicate, All,
  length-append, length-set, length-replicate, length-take, length-drop, length-map,
  take-append-drop, take-length, take-set, take-suc-set, get_or-set_self, get_or-set_ne,
  get_elem?-eq-get_or, set-get_or, set-get_elem?, get_or-append_left, get_or-append_right,
  replicate-map, All-set, All-get_elem?, All-append, All-append_right, All-append_left,
  All-replicate, All-map_const, u8, u16, u32, u64, usize, shr, shl, low_bits, to_num, Result, ok,
  err, panic, Outcome, M, next, ◌>>=◌, ◌>>◌, return, throw, panics, gets, modify, expect, when,
  put_back, zoom, convert, relabel, map_err, of_io, Post, next-Post, Post-mono, put_back-Post,
  relabel-Post, Keeps, >>=-Keeps, when-Keeps, Sum-cases,
}
use lzma_no_std_rs.Base.{on_field}
use lzma_no_std_rs.Io.Interface.{IoError, BufRead}
use lzma_no_std_rs.Util.{exact_log2}
use lzma_no_std_rs.RangeDecoder.{RangeDecoder, parse_bit_tree, parse_reverse_bit_tree}

pub record BitTree : Type 0 where
  pub num_bits : ℕ
  pub probs : List ℕ

unfoldable pub new : ℕ → BitTree
new size = record { num_bits = 0; probs = replicate size 0 }

unfoldable pub reset : {E : Type 0} → ℕ → M E BitTree (Unit {0})
reset size = do
  num_bits ← expect (exact_log2 size)
  modify (λ t. record { num_bits = num_bits; probs = map (λ _. 0x400) t.probs })

module _ {R : Type 0} ⦃rd : BufRead R⦄ where
  abbrev on_probs : M IoError (RangeDecoder R × List ℕ) ℕ → M IoError (RangeDecoder R × BitTree) ℕ
  on_probs = on_field (λ t. t.probs) (λ p t. record t { probs = p })

  unfoldable pub parse : Bool → M IoError (RangeDecoder R × BitTree) ℕ
  parse update s = on_probs (parse_bit_tree s.1.num_bits update) s

  unfoldable pub parse_reverse : Bool → M IoError (RangeDecoder R × BitTree) ℕ
  parse_reverse update s = on_probs (parse_reverse_bit_tree s.1.num_bits 0 update) s
