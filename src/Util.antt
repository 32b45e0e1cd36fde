-- ===== src/Util.antt =====
-- src/decode/util.rs
pub mod Log2
use lzma_no_std_rs.Base.{
  ℕ, zero, suc, ◌+◌, ◌-◌, ◌*◌, ◌/◌, ◌%◌, ◌^◌, ◌≤◌, ◌<◌, min, bit_xor, ◌≡◌, refl, sym, ap, ap₂, ◌∙◌,
  subst, ◌≢◌, ◌⊎◌, inl, inr, Bool, true, false, ◌&&◌, ◌||◌, not, Option, none, some, List, [], ◌∷◌,
  ◌++◌, map, append-nil, append_assoc, arith, ltb, leb, ◌==◌, if◌then◌else◌, ltb→lt, lt→ltb, ltb→le,
  le→ltb, leb→le, ==_iff, Bool-cases, length, get_elem?, get_or, set, take, drop, replicate, All,
  length-append, length-set, length-replicate, length-take, length-drop, length-map,
  take-append-drop, take-length, take-set, take-suc-set, get_or-set_self, get_or-set_ne,
  get_elem?-eq-get_or, set-get_or, set-get_elem?, get_or-append_left, get_or-append_right,
  replicate-map, All-set, All-get_elem?, All-append, All-append_right, All-append_left,
  All-replicate, All-map_const, u8, u16, u32, u64, usize, shr, shl, low_bits, to_num, Result, ok,
  err, panic, Outcome, M, next, ◌>>=◌, ◌>>◌, return, throw, panics, gets, modify, expect, when,
  put_back, zoom, convert, relabel, map_err, of_io, Post, next-Post, Post-mono, put_back-Post,
  relabel-Post, Keeps, >>=-Keeps, when-Keeps, Sum-cases,
}
use lzma_no_std_rs.Io.Interface.{IoError, BufRead}

unfoldable pub is_eof : {R : Type 0} ⦃rd : BufRead R⦄ → M IoError R Bool
is_eof ⦃rd⦄ = do buf ← (λ r. of_io (rd.fill_buf r)); return (length buf == 0)

-- The loop of `exact_log2`; the fuel is the number of bits of a `usize`.
unfoldable pub log2_loop : ℕ → ℕ → ℕ → ℕ → Option ℕ
log2_loop zero value result bit_count = some (result - 1)
log2_loop (suc fuel) value result bit_count =
    let bits = bit_count + to_num (low_bits value 1 == 1) in
    let rest = log2_loop fuel (shr value 1) (result + 1) bits in
    if value == 0
    then some (result - 1)
    else if (low_bits value 1 == 1) && leb 2 bits
    then none
    else rest

unfoldable pub exact_log2 : ℕ → Option ℕ
exact_log2 value = if value == 0 then none else log2_loop 65 value 0 0
