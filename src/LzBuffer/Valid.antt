-- ===== src/LzBuffer/Valid.antt =====
-- The invariant of the circular buffer of src/decode/lzbuffer.rs, and one literal of it in full.
use lzma_no_std_rs.Base.{
  ℕ, ◌+◌, ◌^◌, ◌≤◌, ◌<◌, ◌≡◌, ◌≢◌, inl, inr, true, false, some, arith, ltb, ◌==◌, lt→ltb, le→ltb,
  length, set, take, All, length-set, usize, ok, err, of_io,
}
use lzma_no_std_rs.Io.Interface.{IoError, Write}
use lzma_no_std_rs.Error.{io_error}
use lzma_no_std_rs.LzBuffer.{LzCircularBuffer, set_byte, append_literal, write_out}

abbrev pub IsByte : ℕ → Type 0
IsByte x = x < 256

-- The dictionary has `d` bytes of the array, and the cursor is inside it.
pub record IsReady (mem_limit d : ℕ) (b : LzCircularBuffer) : Type 0 where
  pub sized : length b.buf ≡ mem_limit
  pub small : mem_limit < 2 ^ 63
  pub dict : b.dict_size ≡ some d
  pub fits : d ≤ mem_limit
  pub inside : b.cursor < d
  pub bytes : All IsByte b.buf

-- What is left after a failed write: the cursor may stand at the end of the array.
pub record IsHalted (mem_limit : ℕ) (b : LzCircularBuffer) : Type 0 where
  pub sized : length b.buf ≡ mem_limit
  pub inside : b.cursor ≤ mem_limit
  pub bytes : All IsByte b.buf

-- The literal stored, before the cursor goes round.
abbrev pub pushed : LzCircularBuffer → ℕ → LzCircularBuffer
pushed b lit = record b {
  buf = set b.buf b.cursor lit;
  cursor = usize (b.cursor + 1);
  len = usize (b.len + 1);
}

abbrev pub rounded : LzCircularBuffer → LzCircularBuffer
rounded b = record b { cursor = 0 }

module _ {W : Type 0} ⦃wr : Write W⦄ where
  -- What `append_literal` comes to on a buffer that is ready: the cursor stays inside,
  pub append_literal-room :
      (mem_limit d lit : ℕ) (b : LzCircularBuffer) (w : W)
      → IsReady mem_limit d b
      → b.cursor + 1 ≢ d
      → append_literal lit (b, w) ≡ (ok tt, (pushed b lit, w))
  unfolding append_literal set_byte
  append_literal-room mem_limit d lit b w v ne =
      let more : (usize (b.cursor + 1) == d) ≡ false = ground arith in
      rw (v.dict, lt→ltb b.cursor (length b.buf) (omega (arith, v.sized)), more)

  module _ (mem_limit d lit : ℕ) (b : LzCircularBuffer) (w : W) (v : IsReady mem_limit d b)
      (e : b.cursor + 1 ≡ d) where
    -- or it reaches the end and the dictionary is written out,
    pub append_literal-full :
        (wr.write_all (take d (set b.buf b.cursor lit)) w).0 ≡ inr tt
        → append_literal lit (b, w)
          ≡ (ok tt, (rounded (pushed b lit), (wr.write_all (take d (set b.buf b.cursor lit)) w).1))
    unfolding append_literal set_byte write_out
    append_literal-full h =
        let at_end : usize (b.cursor + 1) ≡ d = omega (arith, v.small, v.fits) in
        let full : (d == d) ≡ true = ground arith in
        let whole : ltb (length (set b.buf b.cursor lit)) d ≡ false =
          le→ltb _ _ (omega (arith, v.sized, v.fits, length-set b.buf b.cursor lit)) in
        rw (
          v.dict,
          lt→ltb b.cursor (length b.buf) (omega (arith, v.sized, v.inside, v.fits)),
          at_end,
          full,
          whole,
          h,
          of_io,
        )

    -- which may fail.
    pub append_literal-halt :
        (x : IoError)
        → (wr.write_all (take d (set b.buf b.cursor lit)) w).0 ≡ inl x
        → append_literal lit (b, w)
          ≡ (err (io_error x), (pushed b lit, (wr.write_all (take d (set b.buf b.cursor lit)) w).1))
    unfolding append_literal set_byte write_out
    append_literal-halt x h =
        let at_end : usize (b.cursor + 1) ≡ d = omega (arith, v.small, v.fits) in
        let full : (d == d) ≡ true = ground arith in
        let whole : ltb (length (set b.buf b.cursor lit)) d ≡ false =
          le→ltb _ _ (omega (arith, v.sized, v.fits, length-set b.buf b.cursor lit)) in
        rw (
          v.dict,
          lt→ltb b.cursor (length b.buf) (omega (arith, v.sized, v.inside, v.fits)),
          at_end,
          full,
          whole,
          h,
          of_io,
        )
