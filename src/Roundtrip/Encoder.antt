-- ===== src/Roundtrip/Encoder.antt =====
-- src/encode/dumbencoder.rs: `match_bit`, `encode_literal` and `encode_byte` write the code of a byte.
use lzma_no_std_rs.Base.{
  ℕ, ◌<◌, ◌≡◌, sym, ap, subst, Bool, false, List, [], arith, shr, low_bits, M, ◌>>◌, Post,
  next-Post, Post-mono, put_back-Post,
}
use lzma_no_std_rs.Base.{at_elem}
use lzma_no_std_rs.Io.Interface.{IoError, Write}
use lzma_no_std_rs.RangeDecoder.Safe.{IsProb}
use lzma_no_std_rs.Encode.Options.{UnpackedSize}
use lzma_no_std_rs.Encode.RangeEncoder.{RangeEncoder, encode_bit}
use lzma_no_std_rs.Encode.RangeEncoder.Value.{IsPatient}
use lzma_no_std_rs.Encode.DumbEncoder.{
  Encoder, Tables, match_bit, literal_loop, encode_literal, encode_byte,
}
use lzma_no_std_rs.Roundtrip.Span.{Span, IsWide}
use lzma_no_std_rs.Roundtrip.Encoding.{Encodes}
use lzma_no_std_rs.Roundtrip.Writes.{
  IsShort, IsShort-IsBackward, Writes, encode_bit-Writes, at_elem-Writes,
}
use lzma_no_std_rs.Roundtrip.Code.{Code, IsCode, bit_code, then_code, at_code, first_code}
use lzma_no_std_rs.Roundtrip.Literal.{place_of, literal_code, literal_loop-Writes, IsLiteralTable}
use lzma_no_std_rs.Roundtrip.Input.{
  Probs, AreProbs, match_code, literal_code_at, byte_code, match_code-IsCode,
  literal_code_at-IsCode,
}

abbrev pub tables_of : UnpackedSize → Probs → Tables
tables_of o t = record { literal_probs = t.1; is_match = t.0; unpacked_size = o }

module _ {W : Type 0} ⦃wr : Write W⦄ (patient : IsPatient wr) (before : List ℕ)
    (o : UnpackedSize) where
  abbrev pub Comes : Span × Probs → Unit {0} → Encoder W → Type 0
  Comes x _ u = Encodes before x.0 u.0 × (u.1 ≡ tables_of o x.1)

  -- A method of the encoder writes a code.
  abbrev Puts : Code Probs → M IoError (Encoder W) (Unit {0}) → Type 0
  Puts f m =
      (s : Span) (t : Probs) (e : RangeEncoder W)
      → IsWide s
      → AreProbs t
      → IsShort (f (s, t)).0
      → Encodes before s e
      → Post (Comes (f (s, t))) (λ _. ⊥) (m (e, tables_of o t))

  then-Puts :
      (f g : Code Probs) (m k : M IoError (Encoder W) (Unit {0}))
      → IsCode AreProbs f
      → IsCode AreProbs g
      → Puts f m
      → Puts g k
      → Puts (then_code f g) (m >> k)
  then-Puts f g m k cf cg pm pk s t e wide good short h =
      let s' = (f (s, t)).0 in
      let t' = (f (s, t)).1 in
      let wide' : IsWide s' = cf.wide s t wide good in
      let good' : AreProbs t' = cf.tables s t wide good in
      let short' : IsShort s' = cg.back IsShort s' t' IsShort-IsBackward wide' good' short in
      next-Post (Comes (f (s, t))) (Comes (g (f (s, t)))) (λ _. ⊥) (m (e, tables_of o t)) (λ _. k)
        (pm s t e wide good short' h)
        (λ _ u q.
          subst (λ v. Post (Comes (g (f (s, t)))) (λ _. ⊥) (k (u.0, v))) (sym q.1)
            (pk s' t' u.0 wide' good' short q.0))

  match_bit-Puts :
      (i : ℕ) (b : Bool) → i < 4 → Puts (first_code (at_code i 0 (bit_code b))) (match_bit i b)
  unfolding match_bit
  match_bit-Puts i b below s t e wide good short h =
      put_back-Post _ _ (λ u s'. (u.0, record s'.1 { is_match = u.1 })) (e, tables_of o t)
        (at_elem i (encode_bit b) (e, t.0))
        (Post-mono _ _ _ _ (at_elem i (encode_bit b) (e, t.0))
          (at_elem-Writes patient before IsProb 4 i 0 (bit_code b) (encode_bit b) below
            (encode_bit-Writes patient before b) s t.0 e wide good.0 short h)
          (λ _ u q. (q.0, ap (λ v. tables_of o (v, t.1)) q.1)) (λ _ x. x))

  encode_literal-Puts :
      (byte prev : ℕ)
      → prev < 256
      → byte < 256
      → Puts (literal_code_at prev byte) (encode_literal byte prev)
  unfolding encode_literal
  encode_literal-Puts byte prev low small s t e wide good short h =
      let first : place_of byte 8 ≡ 1 = omega (arith, small) in
      let m : M IoError (RangeEncoder W × List ℕ) (Unit {0}) = literal_loop 8 byte 1 in
      let w : Writes patient before IsLiteralTable (literal_code 8 byte) m =
        subst
          (λ r. Writes patient before IsLiteralTable (literal_code 8 byte) (literal_loop 8 byte r))
          first (literal_loop-Writes patient before 8 byte small (omega arith)) in
      put_back-Post _ _ (λ u s'. (u.0, record s'.1 { literal_probs = u.1 })) (e, tables_of o t)
        (at_elem (shr prev 5) m (e, t.1))
        (Post-mono _ _ _ _ (at_elem (shr prev 5) m (e, t.1))
          (at_elem-Writes patient before IsLiteralTable 8 (shr prev 5) [] (literal_code 8 byte) m
            (omega (arith, low)) w s t.1 e wide good.1 short h)
          (λ _ u q. (q.0, ap (λ v. tables_of o (t.0, v)) q.1)) (λ _ x. x))

  pub encode_byte-Puts :
      (i byte prev : ℕ)
      → prev < 256
      → byte < 256
      → Puts (byte_code i prev byte) (encode_byte i byte prev)
  unfolding encode_byte
  encode_byte-Puts i byte prev low small =
      then-Puts (match_code i false) (literal_code_at prev byte) (match_bit (low_bits i 2) false)
        (encode_literal byte prev) (match_code-IsCode i false)
        (literal_code_at-IsCode prev byte low small)
        (match_bit-Puts (low_bits i 2) false (omega arith))
        (encode_literal-Puts byte prev low small)
