-- ===== src/Roundtrip/Process.antt =====
-- src/encode/dumbencoder.rs: `process` leaves the digits of the number of the input.
use lzma_no_std_rs.Base.{
  ℕ, suc, ◌+◌, ◌^◌, ◌<◌, ◌≡◌, sym, ap, subst, none, some, List, arith, length, All, usize, put_back,
  Post, next-Post, put_back-Post,
}
use lzma_no_std_rs.Roundtrip.Encoder.{tables_of}
use lzma_no_std_rs.Roundtrip.Bytes.{IsReadable, EndsIn, bytes_loop-EndsIn}
use lzma_no_std_rs.Roundtrip.Input.{whole}
use lzma_no_std_rs.Io.Interface.{BufRead, Write}
use lzma_no_std_rs.Io.Ext.Bytes.{IsByte}
use lzma_no_std_rs.Encode.Options.{UnpackedSize, write_to_header, skip_writing_to_header}
use lzma_no_std_rs.Encode.RangeEncoder as Range
use lzma_no_std_rs.Encode.RangeEncoder.{RangeEncoder, encode_bit}
use lzma_no_std_rs.Encode.RangeEncoder.Value.{IsPatient}
use lzma_no_std_rs.Encode.RangeEncoder.Finish.{Digits, finish-Digits}
use lzma_no_std_rs.Encode.DumbEncoder.{Encoder, Tables, bytes_loop, process, finish}
use lzma_no_std_rs.Roundtrip.Span.{Span, IsWide}
use lzma_no_std_rs.Roundtrip.Encoding.{Encodes}
use lzma_no_std_rs.Roundtrip.Writes.{IsShort}
use lzma_no_std_rs.Roundtrip.Input.{
  Probs, input_code, input_code-IsCode, start_span, start_probs, start-IsWide, start-AreProbs,
}

-- No end marker is written.
abbrev pub HasNoMarker : UnpackedSize → Type 0
HasNoMarker skip_writing_to_header = Unit {0}
HasNoMarker (write_to_header (some x)) = Unit {0}
HasNoMarker (write_to_header none) = ⊥

module _ {W : Type 0} ⦃wr : Write W⦄ (patient : IsPatient wr) (before : List ℕ) where
  finish_range :
      (s : Span) (e : RangeEncoder W) (t : Tables)
      → IsWide s
      → IsShort s
      → Encodes before s e
      → Post
          (λ _ u. Digits before s.base s.count u.0)
          (λ _. ⊥)
          (put_back {S = Encoder W} (λ e s. (e, s.1)) (e, t) (Range.finish e))
  finish_range s e t wide short h =
      let Q : Unit {0} → Encoder W → Type 0 = λ _ u. Digits before s.base s.count u.0 in
      put_back-Post Q (λ _. ⊥) (λ e s. (e, s.1)) (e, t) (Range.finish e)
        (finish-Digits patient before s.range s.base s.count s.range e h (omega (arith, wide))
          short)

  finish-writes :
      (o : UnpackedSize) (len : ℕ) (s : Span) (e : RangeEncoder W) (t : Probs)
      → HasNoMarker o
      → IsWide s
      → IsShort s
      → Encodes before s e
      → Post (λ _ u. Digits before s.base s.count u.0) (λ _. ⊥) (finish len (e, tables_of o t))
  unfolding finish
  finish-writes skip_writing_to_header len s e t no_marker wide short h =
      finish_range s e (tables_of skip_writing_to_header t) wide short h
  finish-writes (write_to_header (some x)) len s e t no_marker wide short h =
      finish_range s e (tables_of (write_to_header (some x)) t) wide short h
  finish-writes (write_to_header none) len s e t no_marker wide short h = absurd no_marker

module _ {R W : Type 0} ⦃rd : BufRead R⦄ ⦃wr : Write W⦄ (readable : IsReadable rd)
    (patient : IsPatient wr) (before : List ℕ) (o : UnpackedSize) where
  pub process-Digits :
      (bytes : List ℕ) (r : R) (e : RangeEncoder W)
      → HasNoMarker o
      → rd.pending r ≡ bytes
      → All IsByte bytes
      → length bytes < 2 ^ 64
      → IsShort (whole bytes)
      → Encodes before start_span e
      → Post
          (λ _ u. Digits before (whole bytes).base (whole bytes).count u.1.0)
          (λ _. ⊥)
          (process (r, (e, tables_of o start_probs)))
  unfolding process
  process-Digits bytes r e no_marker left small inside short h =
      let x = input_code 0 0 bytes (start_span, start_probs) in
      let Q = EndsIn readable patient before o x in
      let c = input_code-IsCode 0 0 bytes (omega arith) small in
      next-Post Q _ (λ _. ⊥)
        (bytes_loop (suc (length (rd.pending r))) 0 0 0 (r, (e, tables_of o start_probs))) _
        (bytes_loop-EndsIn readable patient before o bytes (suc (length (rd.pending r))) 0 0 0 r
          start_span start_probs e left (omega (arith, ap length left)) (omega (arith, inside))
          (omega arith) small start-IsWide start-AreProbs short h)
        (λ len u q.
          put_back-Post _ _ (λ y v. (v.0, y)) u (finish (usize (len + 1)) u.1)
            (subst
              (λ y.
                Post (λ _ v. Digits before x.0.base x.0.count v.0) (λ _. ⊥)
                  (finish (usize (len + 1)) (u.1.0, y)))
              (sym q.1)
              (finish-writes patient before o (usize (len + 1)) x.0 u.1.0 x.1 no_marker
                (c.wide start_span start_probs start-IsWide start-AreProbs) short q.0)))
