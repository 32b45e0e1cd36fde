-- ===== src/Tests/Roundtrip.antt =====
-- The theorems on compression at concrete inputs: the bytes of a greeting, an encoder and a decoder at rest.
use lzma_no_std_rs.Base.{
  ℕ, ◌+◌, ◌*◌, ◌≡◌, refl, true, false, some, List, [], ◌∷◌, ◌++◌, arith, All, All-replicate, ok,
  Post,
}
use lzma_no_std_rs.Io.Cursor
use lzma_no_std_rs.Io.Cursor.{Cursor}
use lzma_no_std_rs.Io.Cursor.Reader.{cursor_reader}
use lzma_no_std_rs.Io.Vec.{vec_writer}
use lzma_no_std_rs.Io.Ext.Bytes.{IsByte}
use lzma_no_std_rs.Options as Decode
use lzma_no_std_rs.Lzma.Params.{read_header}
use lzma_no_std_rs.RangeDecoder.{RangeDecoder, decode_bit}
use lzma_no_std_rs.Encode.Options as Encode
use lzma_no_std_rs.Encode.Options.{UnpackedSize, write_to_header, skip_writing_to_header}
use lzma_no_std_rs.Encode.RangeEncoder as Range
use lzma_no_std_rs.Encode.RangeEncoder.{RangeEncoder, write_low, encode_bit}
use lzma_no_std_rs.Encode.RangeEncoder.Shift.{Stands, Stands-lower, Shifted, write_low-Post}
use lzma_no_std_rs.Encode.RangeEncoder.Finish.{Digits, finish-Digits}
use lzma_no_std_rs.Compress.{lzma_compress_with_options}
use lzma_no_std_rs.Roundtrip.Span.{learned, after_bit}
use lzma_no_std_rs.Roundtrip.Encoding.{Encodes, encode_bit-Encodes}
use lzma_no_std_rs.Roundtrip.Decoding.{Tracks, decode_bit-Tracks}
use lzma_no_std_rs.Roundtrip.Decoder.{params_of}
use lzma_no_std_rs.Roundtrip.Input.{start_span, start-IsWide}
use lzma_no_std_rs.Roundtrip.Count.{whole-few}
use lzma_no_std_rs.Roundtrip.Written.{new-Encodes, IsPacked, compress-IsPacked}
use lzma_no_std_rs.Roundtrip.Header.{read_header-write_header}
use lzma_no_std_rs.Roundtrip.Inverse.{
  pack, unpack, unpack-pack, cursor-IsReliable, cursor-IsReadable, vec-IsPatient, new-rest,
}
use lzma_no_std_rs.Encode.DumbEncoder.{write_header}
use lzma_no_std_rs.RangeDecoder.LenDecoder as Lens
use lzma_no_std_rs.RangeDecoder.LenDecoder.Fresh as FreshLens
use lzma_no_std_rs.Lzma.State.Ready.{fresh-IsLen}
use lzma_no_std_rs.Roundtrip.Length.{len_code}
use lzma_no_std_rs.Roundtrip.Length.Decode.{decode-len_code}
use lzma_no_std_rs.Tests.Bytes.{byteorder}
use lzma_no_std_rs.Tests.Runs.{hello}

hello-IsByte : All IsByte hello
hello-IsByte =
    (omega arith, (omega arith, (omega arith, (omega arith, (omega arith, (omega arith, tt))))))

abbrev sized : Encode.Options
sized = record { unpacked_size = write_to_header (some 6) }

abbrev from_header : Decode.Options
from_header = record { unpacked_size = Decode.read_from_header }

unpack-pack_example :
    ((pack sized hello).0 ≡ ok tt)
    × ((unpack 4096 8 from_header (pack sized hello).1.1).0 ≡ ok tt)
    × ((unpack 4096 8 from_header (pack sized hello).1.1).1.1 ≡ hello)
unpack-pack_example =
    unpack-pack 4096 8 sized from_header hello hello-IsByte (omega arith) refl (omega arith)
      (omega arith) (omega arith) (omega arith)

compress-IsPacked_example :
    Post
      (λ _ (u : Cursor × List ℕ). IsPacked (write_to_header (some 6)) hello [] u.1)
      (λ _. ⊥)
      (lzma_compress_with_options sized (record { inner = hello; pos = 0 }, []))
compress-IsPacked_example =
    compress-IsPacked cursor-IsReadable vec-IsPatient sized (record { inner = hello; pos = 0 }) []
      tt hello-IsByte (omega arith) (omega (arith, whole-few hello))

abbrev header_reader : Cursor
header_reader = Cursor.new ((write_header {W = List ℕ} sized []).1 ++ hello)

read_header-write_header_example :
    ((write_header {W = List ℕ} sized []).0 ≡ ok tt)
    × Post
        (λ p (r : Cursor). (p ≡ params_of (some 6)) × (Cursor.rest r ≡ hello))
        (λ _. ⊥)
        (read_header from_header header_reader)
read_header-write_header_example =
    read_header-write_header cursor-IsReliable vec-IsPatient sized from_header 6
      (write_header {W = List ℕ} sized []).1 hello [] header_reader refl (omega arith) refl
      (new-rest ((write_header {W = List ℕ} sized []).1 ++ hello))

abbrev at_rest : RangeEncoder (List ℕ)
at_rest = Range.new []

rest-Stands : Stands [] 0 5 1 0xFFFF_FFFF at_rest
rest-Stands = Stands-lower [] 0 5 0xFFFF_FFFF 1 0xFFFF_FFFF at_rest (omega arith) (new-Encodes [])

write_low-Post_example :
    Post
      (λ _ u. Stands [] (256 * 0) (5 + 1) (256 * 1) 0xFFFF_FFFF u × Shifted at_rest u)
      (λ _. ⊥)
      (write_low at_rest)
write_low-Post_example =
    write_low-Post vec-IsPatient [] 0 5 1 0xFFFF_FFFF (omega arith) (omega arith) (omega arith)
      at_rest rest-Stands

finish-Digits_example : Post (λ _ u. Digits [] 0 5 u) (λ _. ⊥) (Range.finish at_rest)
finish-Digits_example =
    finish-Digits vec-IsPatient [] 0xFFFF_FFFF 0 5 0xFFFF_FFFF at_rest (new-Encodes [])
      (omega arith) (omega arith)

encode_bit-Encodes_example :
    Post
      (λ _ u. Encodes [] (after_bit true 0x400 start_span) u.0 × (u.1 ≡ learned true 0x400))
      (λ _. ⊥)
      (encode_bit true (at_rest, 0x400))
encode_bit-Encodes_example =
    encode_bit-Encodes vec-IsPatient [] true 0x400 start_span at_rest start-IsWide
      (omega arith, omega arith) (omega arith) (new-Encodes [])

abbrev zeros : List ℕ
zeros = 0 ∷ 0 ∷ 0 ∷ 0 ∷ 0 ∷ []

zeros-IsByte : All IsByte zeros
zeros-IsByte = All-replicate IsByte 5 0 (omega arith)

abbrev coder : RangeDecoder Cursor
coder = record { stream = record { inner = zeros; pos = 5 }; range = 0xFFFF_FFFF; code = 0 }

decode_bit-Tracks_example :
    Post
      (λ b u.
        (b ≡ false)
        × Tracks cursor-IsReliable zeros zeros-IsByte (after_bit false 0x400 start_span) u.0
        × (u.1 ≡ learned false 0x400))
      (λ _. ⊥)
      (decode_bit true (coder, 0x400))
decode_bit-Tracks_example =
    decode_bit-Tracks cursor-IsReliable zeros zeros-IsByte false 0x400 start_span coder start-IsWide
      (omega arith, omega arith) (omega arith, omega arith, omega arith)
      (record { range = refl; value = refl; rest = refl })

-- The length 13 on a decoder that has learned nothing.
abbrev thirteen : List ℕ
thirteen = 0 ∷ 171 ∷ 255 ∷ 252 ∷ 0 ∷ []

thirteen-IsByte : All IsByte thirteen
thirteen-IsByte = (omega arith, (omega arith, (omega arith, (omega arith, (omega arith, tt)))))

abbrev len_coder : RangeDecoder Cursor
len_coder = record {
  stream = record { inner = thirteen; pos = 5 };
  range = 0xFFFF_FFFF;
  code = 0xABFF_FC00;
}

decode-len_code_example :
    Post
      (λ len u.
        (len ≡ 13)
        × Tracks cursor-IsReliable thirteen thirteen-IsByte
            (len_code 3 13 (start_span, FreshLens.fresh)).0
            u.0
        × (u.1 ≡ (len_code 3 13 (start_span, FreshLens.fresh)).1))
      (λ _. ⊥)
      (Lens.decode 3 true (len_coder, FreshLens.fresh))
decode-len_code_example =
    decode-len_code cursor-IsReliable thirteen thirteen-IsByte 3 13 start_span len_coder
      FreshLens.fresh (omega arith) (omega arith) start-IsWide fresh-IsLen
      (omega arith, omega arith, omega arith) (record { range = refl; value = refl; rest = refl })
