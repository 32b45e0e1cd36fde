-- ===== src/RangeDecoder/LenDecoder.antt =====
-- src/decode/rangecoder.rs, the struct `LenDecoder`.
pub mod Fresh
pub mod Sound
use lzma_no_std_rs.Base.{
  ℕ, zero, suc, ◌+◌, ◌-◌, ◌*◌, ◌/◌, ◌%◌, ◌^◌, ◌≤◌, ◌<◌, min, bit_xor, ◌≡◌, refl, sym, ap, ap₂, ◌∙◌,
  subst, ◌≢◌, ◌⊎◌, inl, inr, Bool, true, false, ◌&&◌, ◌||◌, not, Option, none, some, List, [], ◌∷◌,
  ◌++◌, map, append-nil, append_assoc, arith, ltb, leb, ◌==◌, if◌then◌else◌, ltb→lt, lt→ltb, ltb→le,
  le→ltb, leb→le, ==_iff, Bool-cases, length, get_elem?, get_or, set, take, drop, replicate, All,
  length-append, length-set, length-replicate, length-take, length-drop, length-map,
  take-append-drop, take-length, take-set, take-suc-set, get_or-set_self, get_or-set_ne,
  get_elem?-eq-get_or, set-get_or, set-get_elem?, get_or-append_left, get_or-append_right,
  replicate-map, All-set, All-get_elem?, All-append, All-append_right, All-append_left,
  All-replicate, All-map_const, u8, u16, u32, u64, usize, shr, shl, low_bits, to_num, Result, ok,
  err, panic, Outcome, M, next, ◌>>=◌, ◌>>◌, return, throw, panics, gets, modify, expect, when,
  put_back, zoom, convert, relabel, map_err, of_io, Post, next-Post, Post-mono, put_back-Post,
  relabel-Post, Keeps, >>=-Keeps, when-Keeps, Sum-cases,
}
use lzma_no_std_rs.Base.{on_field, at_elem, for_each}
use lzma_no_std_rs.Io.Interface.{IoError, BufRead}
use lzma_no_std_rs.RangeDecoder.{RangeDecoder, decode_bit}
use lzma_no_std_rs.RangeDecoder.BitTree
use lzma_no_std_rs.RangeDecoder.BitTree.{BitTree}

pub record LenDecoder : Type 0 where
  pub choice : ℕ
  pub choice2 : ℕ
  pub low_coder : List BitTree
  pub mid_coder : List BitTree
  pub high_coder : BitTree

unfoldable pub new : LenDecoder
new = record {
  choice = 0;
  choice2 = 0;
  low_coder = replicate 16 (BitTree.new 8);
  mid_coder = replicate 16 (BitTree.new 8);
  high_coder = BitTree.new 256;
}

unfoldable pub reset : {E : Type 0} → M E LenDecoder (Unit {0})
reset = do
  modify (λ d. record d { choice = 0x400 })
  modify (λ d. record d { choice2 = 0x400 })
  zoom (λ d. d.low_coder) (λ t d. record d { low_coder = t }) (for_each (BitTree.reset 8))
  zoom (λ d. d.mid_coder) (λ t d. record d { mid_coder = t }) (for_each (BitTree.reset 8))
  zoom (λ d. d.high_coder) (λ t d. record d { high_coder = t }) (BitTree.reset 256)

module _ {R : Type 0} ⦃rd : BufRead R⦄ where
  -- The parts of the decoder that `decode` reads, one after the other.
  unfoldable pub choose : Bool → M IoError (RangeDecoder R × LenDecoder) Bool
  choose update = on_field (λ d. d.choice) (λ t d. record d { choice = t }) (decode_bit update)

  unfoldable pub choose2 : Bool → M IoError (RangeDecoder R × LenDecoder) Bool
  choose2 update = on_field (λ d. d.choice2) (λ t d. record d { choice2 = t }) (decode_bit update)

  unfoldable pub low : ℕ → Bool → M IoError (RangeDecoder R × LenDecoder) ℕ
  low pos_state update =
      on_field (λ d. d.low_coder) (λ t d. record d { low_coder = t })
        (at_elem pos_state (BitTree.parse update))

  unfoldable pub mid : ℕ → Bool → M IoError (RangeDecoder R × LenDecoder) ℕ
  mid pos_state update =
      on_field (λ d. d.mid_coder) (λ t d. record d { mid_coder = t })
        (at_elem pos_state (BitTree.parse update))

  unfoldable pub high : Bool → M IoError (RangeDecoder R × LenDecoder) ℕ
  high update =
      on_field (λ d. d.high_coder) (λ t d. record d { high_coder = t }) (BitTree.parse update)

  unfoldable pub decode : ℕ → Bool → M IoError (RangeDecoder R × LenDecoder) ℕ
  unfolding choose choose2 low mid high
  decode pos_state update = do
    choice ← choose update
    if not choice then low pos_state update else do
      choice2 ← choose2 update
      if not choice2
          then (do len ← mid pos_state update; return (len + 8))
          else do len ← high update; return (len + 16)
