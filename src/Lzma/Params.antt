-- ===== src/Lzma/Params.antt =====
-- src/decode/lzma.rs, the struct `LzmaParams`: what the header of a stream says.
pub mod Header
use lzma_no_std_rs.Base.{
  ℕ, zero, suc, ◌+◌, ◌-◌, ◌*◌, ◌/◌, ◌%◌, ◌^◌, ◌≤◌, ◌<◌, min, bit_xor, ◌≡◌, refl, sym, ap, ap₂, ◌∙◌,
  subst, ◌≢◌, ◌⊎◌, inl, inr, Bool, true, false, ◌&&◌, ◌||◌, not, Option, none, some, List, [], ◌∷◌,
  ◌++◌, map, append-nil, append_assoc, arith, ltb, leb, ◌==◌, if◌then◌else◌, ltb→lt, lt→ltb, ltb→le,
  le→ltb, leb→le, ==_iff, Bool-cases, length, get_elem?, get_or, set, take, drop, replicate, All,
  length-append, length-set, length-replicate, length-take, length-drop, length-map,
  take-append-drop, take-length, take-set, take-suc-set, get_or-set_self, get_or-set_ne,
  get_elem?-eq-get_or, set-get_or, set-get_elem?, get_or-append_left, get_or-append_right,
  replicate-map, All-set, All-get_elem?, All-append, All-append_right, All-append_left,
  All-replicate, All-map_const, u8, u16, u32, u64, usize, shr, shl, low_bits, to_num, Result, ok,
  err, panic, Outcome, M, next, ◌>>=◌, ◌>>◌, return, throw, panics, gets, modify, expect, when,
  put_back, zoom, convert, relabel, map_err, of_io, Post, next-Post, Post-mono, put_back-Post,
  relabel-Post, Keeps, >>=-Keeps, when-Keeps, Sum-cases,
}
use lzma_no_std_rs.Io.Interface.{IoError, BufRead}
use lzma_no_std_rs.Io.Ext.{read_u8, read_u32, read_u64}
use lzma_no_std_rs.Io.Endian.{ByteOrder, Endian}
use lzma_no_std_rs.Error.{Error, header_too_short, lzma_error, invalid_header}
use lzma_no_std_rs.Options.{
  Options, UnpackedSize, read_from_header, read_header_but_use_provided, use_provided,
}

pub record LzmaParams : Type 0 where
  pub lc : ℕ
  pub lp : ℕ
  pub pb : ℕ
  pub dict_size : ℕ
  pub unpacked_size : Option ℕ

module _ {R : Type 0} ⦃rd : BufRead R⦄ ⦃e : Endian⦄ where
  unfoldable pub read_unpacked_size : UnpackedSize → M Error R (Option ℕ)
  read_unpacked_size read_from_header = do
    unpacked_size_provided ← map_err header_too_short (read_u64 e.little)
    let marker_mandatory = unpacked_size_provided == 0xFFFF_FFFF_FFFF_FFFF
    return (if marker_mandatory then none else some unpacked_size_provided)
  read_unpacked_size (read_header_but_use_provided x) = do
    _ ← map_err header_too_short (read_u64 e.little)
    return x
  read_unpacked_size (use_provided x) = return x

  unfoldable pub read_header : Options → M Error R LzmaParams
  unfolding read_unpacked_size
  read_header options = do
    props ← map_err header_too_short read_u8
    if leb 225 props then throw (lzma_error (invalid_header props)) else do
      dict_size_provided ← map_err header_too_short (read_u32 e.little)
      let dict_size = if ltb dict_size_provided 0x1000 then 0x1000 else dict_size_provided
      unpacked_size ← read_unpacked_size options.unpacked_size
      return (record {
        lc = props % 9;
        lp = props / 9 % 5;
        pb = props / 9 / 5;
        dict_size = dict_size;
        unpacked_size = unpacked_size;
      })
