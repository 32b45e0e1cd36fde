-- ===== src/Encode/DumbEncoder.antt =====
-- src/encode/dumbencoder.rs, the struct `Encoder`: every byte is a literal.
use lzma_no_std_rs.Base.{
  ℕ, zero, suc, ◌+◌, ◌*◌, bit_xor, Bool, true, false, not, Option, none, some, List, [], ◌∷◌, ◌==◌,
  length, replicate, u8, usize, shr, shl, low_bits, to_num, Result, M, ◌>>=◌, ◌>>◌, return, panics,
  gets, put_back, zoom, of_io,
}
use lzma_no_std_rs.Base.{on_field, at_elem}
use lzma_no_std_rs.Io.Interface.{IoError, BufRead, Write}
use lzma_no_std_rs.Io.Endian.{Endian}
use lzma_no_std_rs.Io.Ext.{write_u8, write_u32, write_u64}
use lzma_no_std_rs.Encode.Options.{Options, UnpackedSize, write_to_header, skip_writing_to_header}
use lzma_no_std_rs.Encode.RangeEncoder as Range
use lzma_no_std_rs.Encode.RangeEncoder.{RangeEncoder, encode_bit}

abbrev pub lc : ℕ
lc = 3

abbrev pub lp : ℕ
lp = 0

abbrev pub pb : ℕ
pb = 2

abbrev pub dict_size : ℕ
dict_size = 4096

-- The encoder but for its range encoder.
pub record Tables : Type 0 where
  pub literal_probs : List (List ℕ)
  pub is_match : List ℕ
  pub unpacked_size : UnpackedSize

abbrev pub Encoder : Type 0 → Type 0
Encoder W = RangeEncoder W × Tables

-- The unpacked size as the header has it.
abbrev pub size_field : Option ℕ → ℕ
size_field none = 0xFFFF_FFFF_FFFF_FFFF
size_field (some x) = x

abbrev pub start : {W : Type 0} → UnpackedSize → W → Encoder W
start unpacked_size stream = (
  Range.new stream,
  record {
    literal_probs = replicate 8 (replicate 0x300 0x400);
    is_match = replicate 4 0x400;
    unpacked_size = unpacked_size;
  },
)

module _ {W : Type 0} ⦃wr : Write W⦄ where
  unfoldable pub write_size : ⦃e : Endian⦄ → UnpackedSize → M IoError W (Unit {0})
  write_size ⦃e⦄ (write_to_header unpacked_size) = write_u64 e.little (size_field unpacked_size)
  write_size skip_writing_to_header = return tt

  unfoldable pub write_header : ⦃e : Endian⦄ → Options → M IoError W (Unit {0})
  write_header ⦃e⦄ options = do
    write_u8 (u8 (lc + 9 * (lp + 5 * pb)))
    write_u32 e.little dict_size
    write_size options.unpacked_size

  -- The encoder is left in the state, whose stream is the one that the header was written to.
  unfoldable pub from_stream : ⦃e : Endian⦄ → Options → W → Result IoError (Unit {0}) × Encoder W
  from_stream options stream =
      put_back (λ w _. start options.unpacked_size w) (start options.unpacked_size stream)
        (write_header options stream)

  -- `self.rangecoder.encode_bit(&mut self.is_match[i], bit)?`
  unfoldable pub match_bit : ℕ → Bool → M IoError (Encoder W) (Unit {0})
  match_bit i bit =
      on_field (λ t. t.is_match) (λ v t. record t { is_match = v }) (at_elem i (encode_bit bit))

  -- `self.rangecoder.encode_bit(&mut 0x400, bit)?`
  unfoldable pub even_bit : Bool → M IoError (Encoder W) (Unit {0})
  even_bit bit s = put_back (λ u s'. (u.0, s'.1)) s (encode_bit bit (s.0, 0x400))

  unfoldable pub even_bits : ℕ → Bool → M IoError (Encoder W) (Unit {0})
  even_bits zero bit = return tt
  even_bits (suc n) bit = do even_bit bit; even_bits n bit

  -- With `n` rounds left of `0..8`; the bit is that of `byte` at `n - 1`.
  unfoldable pub literal_loop : ℕ → ℕ → ℕ → M IoError (RangeEncoder W × List ℕ) (Unit {0})
  literal_loop zero byte result = return tt
  literal_loop (suc n) byte result = do
    let bit = not (low_bits (shr byte n) 1 == 0)
    at_elem result (encode_bit bit)
    literal_loop n byte (bit_xor (usize (shl result 1)) (to_num bit))

  unfoldable pub encode_literal : ℕ → ℕ → M IoError (Encoder W) (Unit {0})
  encode_literal byte prev_byte =
      on_field (λ t. t.literal_probs) (λ v t. record t { literal_probs = v })
        (at_elem (shr prev_byte 5) (literal_loop 8 byte 1))

  -- The end marker.
  unfoldable pub write_marker : ℕ → M IoError (Encoder W) (Unit {0})
  write_marker input_len = do
    match_bit (low_bits input_len 2) true
    even_bit false
    even_bits 4 false
    even_bits 6 true
    even_bits 30 true

  unfoldable pub finish : ℕ → M IoError (Encoder W) (Unit {0})
  finish input_len = do
    size ← gets (λ s. s.1.unpacked_size)
    elim size [
      | skip_writing_to_header ↦ return tt
      | write_to_header o ↦ elim o [ some x ↦ return tt | none ↦ write_marker input_len ]
    ]
    zoom (λ s. s.0) (λ e s. (e, s.1)) Range.finish

  -- A byte at place `out_len` of the input.
  unfoldable pub encode_byte : ℕ → ℕ → ℕ → M IoError (Encoder W) (Unit {0})
  encode_byte out_len byte prev_byte = do
    match_bit (low_bits out_len 2) false
    encode_literal byte prev_byte

module _ {R W : Type 0} ⦃rd : BufRead R⦄ ⦃wr : Write W⦄ where
  abbrev pub on_output : {A : Type 0} → M IoError (Encoder W) A → M IoError (R × Encoder W) A
  on_output = zoom (λ s. s.1) (λ e s. (s.0, e))

  -- `input.bytes()` gives the next byte, or `None` at the end.
  abbrev pub next_byte : M IoError (R × Encoder W) (List ℕ)
  next_byte = zoom (λ s. s.0) (λ r s. (r, s.1)) (λ r. of_io (rd.read 1 r))

  -- `input_len` is the place of the last byte.
  unfoldable pub bytes_loop : ℕ → ℕ → ℕ → ℕ → M IoError (R × Encoder W) ℕ
  bytes_loop zero out_len prev_byte input_len = panics
  bytes_loop (suc fuel) out_len prev_byte input_len = do
    got ← next_byte
    elim got [
      | [] ↦ return input_len
      | byte ∷ _ ↦ do
        on_output (encode_byte out_len byte prev_byte)
        bytes_loop fuel (usize (out_len + 1)) byte out_len
    ]

  unfoldable pub process : M IoError (R × Encoder W) (Unit {0})
  process = do
    input_len ← (λ s. bytes_loop (suc (length (rd.pending s.0))) 0 0 0 s)
    on_output (finish (usize (input_len + 1)))
