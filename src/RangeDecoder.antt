-- ===== src/RangeDecoder.antt =====
-- src/decode/rangecoder.rs, the struct `RangeDecoder`: a bit costs a part of `range`, and a byte of the
-- input is shifted in when less than 2 ^ 24 is left of it.
pub mod BitTree
pub mod LenDecoder
pub mod Safe
pub mod Trees
pub mod Sound
pub mod Reverse
pub mod End
pub mod Reader
pub mod Errors
pub mod Start
pub mod Lookahead
use lzma_no_std_rs.Base.{
  ℕ, zero, suc, ◌+◌, ◌-◌, ◌*◌, ◌/◌, ◌%◌, ◌^◌, ◌≤◌, ◌<◌, min, bit_xor, ◌≡◌, refl, sym, ap, ap₂, ◌∙◌,
  subst, ◌≢◌, ◌⊎◌, inl, inr, Bool, true, false, ◌&&◌, ◌||◌, not, Option, none, some, List, [], ◌∷◌,
  ◌++◌, map, append-nil, append_assoc, arith, ltb, leb, ◌==◌, if◌then◌else◌, ltb→lt, lt→ltb, ltb→le,
  le→ltb, leb→le, ==_iff, Bool-cases, length, get_elem?, get_or, set, take, drop, replicate, All,
  length-append, length-set, length-replicate, length-take, length-drop, length-map,
  take-append-drop, take-length, take-set, take-suc-set, get_or-set_self, get_or-set_ne,
  get_elem?-eq-get_or, set-get_or, set-get_elem?, get_or-append_left, get_or-append_right,
  replicate-map, All-set, All-get_elem?, All-append, All-append_right, All-append_left,
  All-replicate, All-map_const, u8, u16, u32, u64, usize, shr, shl, low_bits, to_num, Result, ok,
  err, panic, Outcome, M, next, ◌>>=◌, ◌>>◌, return, throw, panics, gets, modify, expect, when,
  put_back, zoom, convert, relabel, map_err, of_io, Post, next-Post, Post-mono, put_back-Post,
  relabel-Post, Keeps, >>=-Keeps, when-Keeps, Sum-cases,
}
use lzma_no_std_rs.Base.{at_elem}
use lzma_no_std_rs.Io.Interface.{IoError, BufRead}
use lzma_no_std_rs.Io.Ext.{read_u8, read_u32}
use lzma_no_std_rs.Io.Endian.{ByteOrder, Endian}
use lzma_no_std_rs.Error.{Error, io_error}
use lzma_no_std_rs.Util

pub record RangeDecoder (R : Type 0) : Type 0 where
  pub stream : R
  pub range : ℕ
  pub code : ℕ

module _ {R : Type 0} where
  abbrev pub on_stream : {E A : Type 0} → M E R A → M E (RangeDecoder R) A
  on_stream = zoom (λ d. d.stream) (λ r d. record d { stream = r })

  unfoldable pub from_parts : R → ℕ → ℕ → RangeDecoder R
  from_parts stream range code = record { stream = stream; range = range; code = code }

  unfoldable pub set_parts : ℕ → ℕ → RangeDecoder R → RangeDecoder R
  set_parts range code d = record d { range = range; code = code }

module _ {R : Type 0} ⦃rd : BufRead R⦄ where
  unfoldable pub init : ByteOrder → M IoError (RangeDecoder R) (Unit {0})
  init big = do
    _ ← on_stream read_u8
    code ← on_stream (read_u32 big)
    modify (λ d. record d { code = code })

  -- `new` leaves the decoder in the state, if it succeeds.
  unfoldable pub new : ⦃e : Endian⦄ → R → Result IoError (Unit {0}) × RangeDecoder R
  unfolding init
  new ⦃e⦄ stream = init e.big (record { stream = stream; range = 0xFFFF_FFFF; code = 0 })

  unfoldable pub read_into : ℕ → M IoError (RangeDecoder R) (List ℕ)
  read_into n = on_stream (λ r. of_io (rd.read n r))

  unfoldable pub is_eof : M IoError (RangeDecoder R) Bool
  is_eof = on_stream Util.is_eof

  -- `self.code == 0 && self.is_eof()?`
  unfoldable pub is_finished_ok : M IoError (RangeDecoder R) Bool
  is_finished_ok = do code ← gets (λ d. d.code); if code == 0 then is_eof else return false

  unfoldable pub normalize : M IoError (RangeDecoder R) (Unit {0})
  normalize = do
    low ← gets (λ d. ltb d.range 0x0100_0000)
    when low do
      modify (λ d. record d { range = u32 (shl d.range 8) })
      byte ← on_stream read_u8
      modify (λ d. record d { code = bit_xor (u32 (shl d.code 8)) byte })

  unfoldable pub get_bit : M Error (RangeDecoder R) Bool
  get_bit = do
    modify (λ d. record d { range = shr d.range 1 })
    bit ← gets (λ d. leb d.range d.code)
    when bit (modify (λ d. record d { code = d.code - d.range }))
    map_err io_error normalize
    return bit

  unfoldable pub get_loop : ℕ → ℕ → M Error (RangeDecoder R) ℕ
  get_loop zero result = return result
  get_loop (suc n) result = do bit ← get_bit; get_loop n (bit_xor (u32 (shl result 1)) (to_num bit))

  unfoldable pub get : ℕ → M Error (RangeDecoder R) ℕ
  get count = get_loop count 0

  abbrev pub on_decoder :
      {A : Type 0} → M IoError (RangeDecoder R) A → M IoError (RangeDecoder R × ℕ) A
  on_decoder = zoom (λ s. s.0) (λ d s. (d, s.1))

  -- The two branches of `decode_bit`. The state has the probability beside the decoder.
  unfoldable pub decode_zero : ℕ → Bool → M IoError (RangeDecoder R × ℕ) Bool
  decode_zero bound update = do
    when update (modify (λ s. (s.0, u16 (s.1 + shr (u16 (0x800 + 2 ^ 16 - s.1)) 5))))
    on_decoder (modify (λ d. record d { range = bound }))
    on_decoder normalize
    return false

  unfoldable pub decode_one : ℕ → Bool → M IoError (RangeDecoder R × ℕ) Bool
  decode_one bound update = do
    when update (modify (λ s. (s.0, u16 (s.1 + 2 ^ 16 - shr s.1 5))))
    on_decoder (modify (λ d. record d { code = u32 (d.code + 2 ^ 32 - bound) }))
    on_decoder (modify (λ d. record d { range = u32 (d.range + 2 ^ 32 - bound) }))
    on_decoder normalize
    return true

  unfoldable pub decode_bit : Bool → M IoError (RangeDecoder R × ℕ) Bool
  unfolding decode_zero decode_one
  decode_bit update = do
    bound ← gets (λ s. u32 (shr s.0.range 11 * s.1))
    low ← gets (λ s. ltb s.0.code bound)
    if low then decode_zero bound update else decode_one bound update

  -- `&mut probs[i]`
  unfoldable pub decode_bit_at : ℕ → Bool → M IoError (RangeDecoder R × List ℕ) Bool
  decode_bit_at i update = at_elem i (decode_bit update)

  unfoldable pub tree_loop : Bool → ℕ → ℕ → M IoError (RangeDecoder R × List ℕ) ℕ
  tree_loop update zero tmp = return tmp
  tree_loop update (suc n) tmp = do
    bit ← decode_bit_at tmp update
    tree_loop update n (bit_xor (u32 (shl tmp 1)) (to_num bit))

  unfoldable pub parse_bit_tree : ℕ → Bool → M IoError (RangeDecoder R × List ℕ) ℕ
  parse_bit_tree num_bits update = do
    tmp ← tree_loop update num_bits 1
    return (u32 (tmp + 2 ^ 32 - shl 1 num_bits))

  -- With `n` rounds left, at round `i`.
  unfoldable pub reverse_loop : ℕ → Bool → ℕ → ℕ → ℕ → ℕ → M IoError (RangeDecoder R × List ℕ) ℕ
  reverse_loop offset update zero i tmp result = return result
  reverse_loop offset update (suc n) i tmp result = do
    bit ← decode_bit_at (usize (offset + tmp)) update
    reverse_loop offset update n (i + 1) (bit_xor (usize (shl tmp 1)) (to_num bit))
        (bit_xor result (u32 (shl (to_num bit) i)))

  unfoldable pub parse_reverse_bit_tree : ℕ → ℕ → Bool → M IoError (RangeDecoder R × List ℕ) ℕ
  parse_reverse_bit_tree num_bits offset update = reverse_loop offset update num_bits 0 1 0
