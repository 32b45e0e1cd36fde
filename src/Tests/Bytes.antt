-- ===== src/Tests/Bytes.antt =====
-- Byte orders that meet the laws of Io/Endian, and an input from the tests of src/decode/stream.rs.
use lzma_no_std_rs.Base.{ℕ, ◌+◌, ◌*◌, ◌/◌, ◌^◌, refl, List, [], ◌∷◌, get_or, u8}
use lzma_no_std_rs.Io.Endian.{ByteOrder, Endian}

abbrev pub byte_at : List ℕ → ℕ → ℕ
byte_at bs i = get_or bs i 0

abbrev pub big_endian : ByteOrder
big_endian = record {
  from_u32 = λ bs. ((byte_at bs 0 * 256 + byte_at bs 1) * 256 + byte_at bs 2) * 256 + byte_at bs 3;
  from_u64 = λ bs. 0;
  to_u32 = λ n. u8 (n / 2 ^ 24) ∷ u8 (n / 2 ^ 16) ∷ u8 (n / 2 ^ 8) ∷ u8 n ∷ [];
  to_u64 = λ n. [];
}

abbrev pub little_endian : ByteOrder
little_endian = record {
  from_u32 = λ bs. byte_at bs 0 + 256 * (byte_at bs 1 + 256 * (byte_at bs 2 + 256 * byte_at bs 3));
  from_u64 = λ bs.
      byte_at bs 0
      + 256
        * (byte_at bs 1
            + 256
              * (byte_at bs 2
                  + 256
                    * (byte_at bs 3
                        + 256
                          * (byte_at bs 4
                              + 256
                                * (byte_at bs 5 + 256 * (byte_at bs 6 + 256 * byte_at bs 7))))));
  to_u32 = λ n. u8 n ∷ u8 (n / 2 ^ 8) ∷ u8 (n / 2 ^ 16) ∷ u8 (n / 2 ^ 24) ∷ [];
  to_u64 = λ n.
      u8 n
      ∷ u8 (n / 2 ^ 8)
      ∷ u8 (n / 2 ^ 16)
      ∷ u8 (n / 2 ^ 24)
      ∷ u8 (n / 2 ^ 32)
      ∷ u8 (n / 2 ^ 40)
      ∷ u8 (n / 2 ^ 48)
      ∷ u8 (n / 2 ^ 56)
      ∷ [];
}

instance abbrev pub byteorder : Endian
byteorder = record {
  big = big_endian;
  little = little_endian;
  big_u32 = λ a b c d. refl;
  little_u32 = λ a b c d. refl;
  little_u64 = λ a b c d e f g h. refl;
  little_put_u32 = λ n. refl;
  little_put_u64 = λ n. refl;
}

-- An empty text with an end marker: the header, then ten bytes of code.
abbrev pub empty_lzma : List ℕ
empty_lzma =
    0x5d ∷ 0x00 ∷ 0x10 ∷ 0x00 ∷ 0x00 ∷ 0xff ∷ 0xff ∷ 0xff ∷ 0xff ∷ 0xff ∷ 0xff ∷ 0xff ∷ 0xff ∷ 0x00
    ∷ 0x83 ∷ 0xff ∷ 0xfb ∷ 0xff ∷ 0xff ∷ 0xc0 ∷ 0x00 ∷ 0x00 ∷ 0x00 ∷ []
