-- ===== src/Roundtrip/Inverse.antt =====
-- src/lib.rs, compression and decompression of bytes in memory: a slice goes in, a `Vec<u8>` comes out.
use lzma_no_std_rs.Base.{
  ℕ, ◌+◌, ◌*◌, ◌^◌, ◌≤◌, ◌<◌, min, ◌≡◌, refl, ap, ◌∙◌, subst, false, none, some, List, [], ◌∷◌,
  arith, ltb, le→ltb, length, take, drop, All, Result, ok,
}
use lzma_no_std_rs.Io.Interface.{IoError}
use lzma_no_std_rs.Io.Endian.{Endian}
use lzma_no_std_rs.Io.Cursor as Cursor
use lzma_no_std_rs.Io.Cursor.{Cursor, read_exact, read, fill_buf}
use lzma_no_std_rs.Io.Cursor.Reader.{cursor_reader}
use lzma_no_std_rs.Io.Vec.{vec_writer}
use lzma_no_std_rs.Io.Ext.Bytes.{IsByte}
use lzma_no_std_rs.Error.{Error}
use lzma_no_std_rs.Options as Decode
use lzma_no_std_rs.Options.{read_from_header, read_header_but_use_provided, use_provided}
use lzma_no_std_rs.Encode.Options as Encode
use lzma_no_std_rs.Encode.Options.{UnpackedSize, write_to_header, skip_writing_to_header}
use lzma_no_std_rs.Encode.RangeEncoder.Value.{IsPatient}
use lzma_no_std_rs.Decompress.{lzma_decompress_with_options}
use lzma_no_std_rs.Compress.{lzma_compress_with_options}
use lzma_no_std_rs.Roundtrip.Decoding.{IsReliable}
use lzma_no_std_rs.Roundtrip.Loop.{IsOpenReader}
use lzma_no_std_rs.Roundtrip.Bytes.{IsReadable}
use lzma_no_std_rs.Roundtrip.Process.{HasNoMarker}
use lzma_no_std_rs.Roundtrip.Written.{returned, compress-IsPacked, IsPacked}
use lzma_no_std_rs.Roundtrip.Header.{Agree, IsSize}
use lzma_no_std_rs.Roundtrip.Count.{whole-few}
use lzma_no_std_rs.Roundtrip.Flushed.{IsFlushable}
use lzma_no_std_rs.Roundtrip.Coded.{IsCoded}
use lzma_no_std_rs.Roundtrip.Whole.{decompress-writes}

pub cursor-IsReliable : IsReliable cursor_reader
unfolding read_exact
cursor-IsReliable n c enough =
    let there : ltb (length (Cursor.rest c)) n ≡ false = le→ltb _ _ enough in
    (take n (Cursor.rest c), rw there refl)

take_one : (xs : List ℕ) → take 1 xs ≡ [] → xs ≡ []
take_one [] h = refl
take_one (x ∷ xs) h = cc

pub cursor-IsReadable : IsReadable cursor_reader
unfolding read
cursor-IsReadable c = (take 1 (Cursor.rest c), refl, take_one (Cursor.rest c))

pub cursor-IsOpenReader : IsOpenReader cursor_reader
unfolding fill_buf
cursor-IsOpenReader c = (Cursor.rest c, refl)

pub vec-IsPatient : IsPatient vec_writer
vec-IsPatient bs w = refl

vec-IsFlushable : IsFlushable vec_writer
vec-IsFlushable w = refl

no_marker : (o : UnpackedSize) (mode : Decode.UnpackedSize) (n : ℕ) → Agree o mode n → HasNoMarker o
no_marker (write_to_header (some x)) mode n agree = tt
no_marker skip_writing_to_header mode n agree = tt
no_marker (write_to_header none) read_from_header n agree = agree
no_marker (write_to_header none) (read_header_but_use_provided o) n agree = agree
no_marker (write_to_header none) (use_provided o) n agree = agree

-- The outcome of a method that returns nothing.
pub new-rest : (bs : List ℕ) → Cursor.rest (Cursor.new bs) ≡ bs
unfolding Cursor.new
new-rest bs = let start : min 0 (length bs) ≡ 0 = omega arith in ap (λ k. drop k bs) start

module _ ⦃e : Endian⦄ where
  -- A call of `lzma_compress_with_options` on a slice, and of `lzma_decompress_with_options`.
  abbrev pub pack : Encode.Options → List ℕ → Result IoError (Unit {0}) × (Cursor × List ℕ)
  pack options bytes = lzma_compress_with_options options (Cursor.new bytes, [])

  abbrev pub unpack : ℕ → ℕ → Decode.Options → List ℕ → Result Error (Unit {0}) × (Cursor × List ℕ)
  unpack mem_limit probs_mem_limit options bytes =
      lzma_decompress_with_options mem_limit probs_mem_limit options (Cursor.new bytes, [])

  -- For every list of bytes with 9 * length + 10 < 2 ^ 32, and options of both sides that agree on
  -- its length as the unpacked size (in the header; provided to the decoder, with any size below 2
  -- ^ 64 - 1 in the header; or provided only), lzma_compress_with_options from a slice into a
  -- vector returns, and lzma_decompress_with_options of what it wrote returns and gives the bytes
  -- back, with memory for the dictionary of 4096 bytes up to 2 ^ 63 and for 8 tables of literals at
  -- least.
  pub unpack-pack :
      (mem_limit probs_mem_limit : ℕ) (o : Encode.Options) (options : Decode.Options)
      (bytes : List ℕ)
      → All IsByte bytes
      → 9 * length bytes + 10 < 2 ^ 32
      → Agree o.unpacked_size options.unpacked_size (length bytes)
      → IsSize o.unpacked_size
      → mem_limit < 2 ^ 63
      → 4096 ≤ mem_limit
      → 8 ≤ probs_mem_limit
      → ((pack o bytes).0 ≡ ok tt)
        × ((unpack mem_limit probs_mem_limit options (pack o bytes).1.1).0 ≡ ok tt)
        × ((unpack mem_limit probs_mem_limit options (pack o bytes).1.1).1.1 ≡ bytes)
  unpack-pack mem_limit probs_mem_limit o options bytes small short agree fits mem room probs =
      let here : Cursor.rest (Cursor.new bytes) ≡ bytes = new-rest bytes in
      let packed =
        returned
          (λ (u : Cursor × List ℕ).
            IsPacked o.unpacked_size (Cursor.rest (Cursor.new bytes)) [] u.1)
          (pack o bytes)
          (compress-IsPacked cursor-IsReadable vec-IsPatient o (Cursor.new bytes) []
            (no_marker o.unpacked_size options.unpacked_size (length bytes) agree) (rw here small)
            (rw here (omega (arith, short))) (rw here (omega (arith, short, whole-few bytes)))) in
      let out : List ℕ = (pack o bytes).1.1 in
      let p : IsPacked o.unpacked_size bytes [] out =
        subst (λ b. IsPacked o.unpacked_size b [] out) here packed.1 in
      let coded : IsCoded bytes p.digits = record {
        are_bytes = p.are_bytes;
        counted = p.counted;
        value = p.value;
      } in
      let unpacked =
        returned (λ (u : Cursor × List ℕ). u.1 ≡ bytes)
          (unpack mem_limit probs_mem_limit options out)
          (decompress-writes cursor-IsReliable cursor-IsOpenReader vec-IsPatient vec-IsFlushable
            mem_limit probs_mem_limit bytes p.digits small coded (omega (arith, short)) mem room
            probs o.unpacked_size options (Cursor.new out) [] agree fits
            (new-rest out ∙ p.written)) in
      (packed.0, unpacked.0, unpacked.1)
