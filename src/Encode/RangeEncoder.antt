-- ===== src/Encode/RangeEncoder.antt =====
-- src/encode/rangecoder.rs, the struct `RangeEncoder`: `low` and `range` are the interval of the codes
-- that go on from here; a byte leaves when no carry can change it any more.
pub mod Value
pub mod Flush
pub mod Shift
pub mod Finish
pub mod Held
use lzma_no_std_rs.Base.{
  ℕ, zero, suc, ◌+◌, ◌-◌, ◌*◌, ◌/◌, ◌%◌, ◌^◌, ◌≤◌, ◌<◌, min, bit_xor, ◌≡◌, refl, sym, ap, ap₂, ◌∙◌,
  subst, ◌≢◌, ◌⊎◌, inl, inr, Bool, true, false, ◌&&◌, ◌||◌, not, Option, none, some, List, [], ◌∷◌,
  ◌++◌, map, append-nil, append_assoc, arith, ltb, leb, ◌==◌, if◌then◌else◌, ltb→lt, lt→ltb, ltb→le,
  le→ltb, leb→le, ==_iff, Bool-cases, length, get_elem?, get_or, set, take, drop, replicate, All,
  length-append, length-set, length-replicate, length-take, length-drop, length-map,
  take-append-drop, take-length, take-set, take-suc-set, get_or-set_self, get_or-set_ne,
  get_elem?-eq-get_or, set-get_or, set-get_elem?, get_or-append_left, get_or-append_right,
  replicate-map, All-set, All-get_elem?, All-append, All-append_right, All-append_left,
  All-replicate, All-map_const, u8, u16, u32, u64, usize, shr, shl, low_bits, to_num, Result, ok,
  err, panic, Outcome, M, next, ◌>>=◌, ◌>>◌, return, throw, panics, gets, modify, expect, when,
  put_back, zoom, convert, relabel, map_err, of_io, Post, next-Post, Post-mono, put_back-Post,
  relabel-Post, Keeps, >>=-Keeps, when-Keeps, if-Keeps, Sum-cases,
}
use lzma_no_std_rs.Io.Interface.{IoError, Write}
use lzma_no_std_rs.Io.Ext.{write_u8}

pub record RangeEncoder (W : Type 0) : Type 0 where
  pub stream : W
  pub range : ℕ
  pub low : ℕ
  pub cache : ℕ
  pub cachesz : ℕ

module _ {W : Type 0} where
  unfoldable pub new : W → RangeEncoder W
  new stream = record { stream = stream; range = 0xFFFF_FFFF; low = 0; cache = 0; cachesz = 1 }

  abbrev pub on_stream : {A : Type 0} → M IoError W A → M IoError (RangeEncoder W) A
  on_stream = zoom (λ e. e.stream) (λ w e. record e { stream = w })

  -- What a bit makes of the interval before `normalize`.
  unfoldable pub narrow : ℕ → Bool → RangeEncoder W → RangeEncoder W
  narrow bound true e = record e {
    low = u64 (e.low + bound);
    range = u32 (e.range + 2 ^ 32 - bound);
  }
  narrow bound false e = record e { range = bound }

-- What a bit makes of its probability.
unfoldable pub adapt : Bool → ℕ → ℕ
adapt true prob = u16 (prob + 2 ^ 16 - shr prob 5)
adapt false prob = u16 (prob + shr (u16 (0x800 + 2 ^ 16 - prob)) 5)

module _ {W : Type 0} ⦃wr : Write W⦄ where
  -- The loop of `write_low`, which ends when `cachesz` comes to 0. The counter wraps below 0; the
  -- fuel stands for the rounds until then, and running out of it counts as a panic.
  unfoldable pub flush_loop : ℕ → ℕ → M IoError (RangeEncoder W) (Unit {0})
  flush_loop zero tmp = panics
  flush_loop (suc fuel) tmp = do
    low ← gets (λ e. e.low)
    on_stream (write_u8 (u8 (tmp + u8 (shr low 32))))
    modify (λ e. record e { cachesz = u32 (e.cachesz + 2 ^ 32 - 1) })
    left ← gets (λ e. e.cachesz)
    elim (left == 0) [ true ↦ return tt | false ↦ flush_loop fuel 0xFF ]

  unfoldable pub write_low : M IoError (RangeEncoder W) (Unit {0})
  write_low = do
    settled ← gets (λ e. ltb e.low 0xFF00_0000 || ltb 0xFFFF_FFFF e.low)
    when settled do
      cache ← gets (λ e. e.cache)
      (λ e. flush_loop (if e.cachesz == 0 then 2 ^ 32 else e.cachesz) cache e)
      modify (λ e. record e { cache = u8 (shr e.low 24) })
    modify (λ e. record e { cachesz = u32 (e.cachesz + 1) })
    modify (λ e. record e { low = low_bits (u64 (shl e.low 8)) 32 })

  -- `for _ in 0..n`
  unfoldable pub write_lows : ℕ → M IoError (RangeEncoder W) (Unit {0})
  write_lows zero = return tt
  write_lows (suc n) = do write_low; write_lows n

  unfoldable pub finish : M IoError (RangeEncoder W) (Unit {0})
  unfolding write_lows
  finish = write_lows 5

  -- The loop of `normalize`: a range above 0 is large enough after three rounds; a range of 0 stays
  -- 0, where running out of the fuel of four rounds, a panic, stands for the loop without an end.
  unfoldable pub normalize_loop : ℕ → M IoError (RangeEncoder W) (Unit {0})
  normalize_loop zero = panics
  normalize_loop (suc fuel) = do
    low ← gets (λ e. ltb e.range 0x0100_0000)
    elim low [
      | true ↦ do
        modify (λ e. record e { range = u32 (shl e.range 8) })
        write_low
        normalize_loop fuel
      | false ↦ return tt
    ]

  unfoldable pub normalize : M IoError (RangeEncoder W) (Unit {0})
  unfolding normalize_loop
  normalize = normalize_loop 4

  -- The state has the probability beside the encoder.
  abbrev pub on_encoder :
      {A : Type 0} → M IoError (RangeEncoder W) A → M IoError (RangeEncoder W × ℕ) A
  on_encoder = zoom (λ s. s.0) (λ e s. (e, s.1))

  unfoldable pub encode_bit : Bool → M IoError (RangeEncoder W × ℕ) (Unit {0})
  encode_bit bit = do
    bound ← gets (λ s. u32 (shr s.0.range 11 * s.1))
    modify (λ s. (narrow bound bit s.0, adapt bit s.1))
    on_encoder normalize
