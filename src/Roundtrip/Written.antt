-- ===== src/Roundtrip/Written.antt =====
-- What `lzma_compress_with_options` of src/lib.rs writes: the header of src/encode/dumbencoder.rs, then the
-- digits of the number of the input.
use lzma_no_std_rs.Base.{
  ℕ, ◌^◌, ◌<◌, ◌≡◌, refl, sym, ap, ◌∙◌, subst, inl, List, [], ◌∷◌, ◌++◌, append-nil, append_assoc,
  arith, length, All, Result, ok, err, panic, M, next, ◌>>◌, put_back, of_io, Post, next-Post,
  Post-mono, put_back-Post,
}
use lzma_no_std_rs.Io.Interface.{IoError, BufRead, Write}
use lzma_no_std_rs.Io.Endian.{Endian}
use lzma_no_std_rs.Io.Ext.{write_u8, write_u32, write_u64, write_buf}
use lzma_no_std_rs.Io.Ext.Bytes.{IsByte}
use lzma_no_std_rs.Encode.Options.{Options, UnpackedSize, write_to_header, skip_writing_to_header}
use lzma_no_std_rs.Encode.Number.{num}
use lzma_no_std_rs.Encode.RangeEncoder as Range
use lzma_no_std_rs.Encode.RangeEncoder.Value.{IsPatient}
use lzma_no_std_rs.Encode.DumbEncoder.{
  Encoder, size_field, dict_size, write_size, write_header, from_stream, start, process,
}
use lzma_no_std_rs.Compress.{lzma_compress_with_options}
use lzma_no_std_rs.Roundtrip.Encoding.{Encodes}
use lzma_no_std_rs.Roundtrip.Writes.{IsShort}
use lzma_no_std_rs.Roundtrip.Bytes.{IsReadable}
use lzma_no_std_rs.Roundtrip.Process.{HasNoMarker, process-Digits}
use lzma_no_std_rs.Roundtrip.Input.{start_span, whole}

pub returned :
    {E S : Type 0} (Q : S → Type 0) (o : Result E (Unit {0}) × S)
    → Post (λ _. Q) (λ _. ⊥) o
    → (o.0 ≡ ok tt) × Q o.1
returned Q (ok u, s) h = (refl, h)
returned Q (err x, s) h = absurd h
returned Q (panic, s) h = absurd h

module _ ⦃e : Endian⦄ where
  abbrev pub size_bytes : UnpackedSize → List ℕ
  size_bytes (write_to_header o) = e.little.to_u64 (size_field o)
  size_bytes skip_writing_to_header = []

  -- 93 stands for lc = 3, lp = 0 and pb = 2.
  abbrev pub header_bytes : UnpackedSize → List ℕ
  header_bytes o = (93 ∷ []) ++ (e.little.to_u32 dict_size ++ size_bytes o)

module _ {W : Type 0} ⦃wr : Write W⦄ ⦃e : Endian⦄ (patient : IsPatient wr) where
  abbrev Adds : List ℕ → M IoError W (Unit {0}) → Type 0
  Adds bs m = (w : W) → Post (λ _ w'. wr.written w' ≡ wr.written w ++ bs) (λ _. ⊥) (m w)

  write_buf-Adds : (bs : List ℕ) → Adds bs (write_buf bs)
  write_buf-Adds bs w = rw (patient bs w, of_io) (wr.write_all_appends bs w (patient bs w))

  then-Adds :
      (bs cs : List ℕ) (m k : M IoError W (Unit {0}))
      → Adds bs m
      → Adds cs k
      → Adds (bs ++ cs) (m >> k)
  then-Adds bs cs m k hm hk w =
      next-Post _ _ (λ _. ⊥) (m w) (λ _. k) (hm w)
        (λ _ w1 q.
          Post-mono _ _ _ _ (k w1) (hk w1)
            (λ _ w2 q'. q' ∙ ap (λ l. l ++ cs) q ∙ append_assoc (wr.written w) bs cs) (λ _ x. x))

  write_size-Adds : (o : UnpackedSize) → Adds (size_bytes o) (write_size o)
  unfolding write_size write_u64
  write_size-Adds (write_to_header o) = write_buf-Adds (e.little.to_u64 (size_field o))
  write_size-Adds skip_writing_to_header = λ w. sym (append-nil (wr.written w))

  pub write_header-Adds :
      (options : Options) → Adds (header_bytes options.unpacked_size) (write_header options)
  unfolding write_header write_u8 write_u32
  write_header-Adds options =
      then-Adds (93 ∷ []) _ (write_buf (93 ∷ [])) _ (write_buf-Adds (93 ∷ [])) (
        then-Adds (e.little.to_u32 dict_size) (size_bytes options.unpacked_size)
          (write_buf (e.little.to_u32 dict_size)) (write_size options.unpacked_size)
          (write_buf-Adds (e.little.to_u32 dict_size)) (write_size-Adds options.unpacked_size))

module _ {W : Type 0} ⦃wr : Write W⦄ where
  pub new-Encodes : (w : W) → Encodes (wr.written w) start_span (Range.new w)
  unfolding Range.new
  new-Encodes w = record {
    bs = [];
    holds = record {
      written = sym (append-nil (wr.written w));
      bytes = tt;
      held = omega arith;
      counted = refl;
      value = refl;
      cache_fits = omega arith;
      room = omega arith;
      carry = inl (omega arith);
    };
    range = refl;
  }

-- The encoder behind the header.
module _ {R W : Type 0} where
  abbrev OpensAt : (W → Type 0) → UnpackedSize → R → Unit {0} → R × Encoder W → Type 0
  OpensAt P o r _ u = (w : W) × (u ≡ (r, start o w)) × P w

  opened-OpensAt :
      (P : W → Type 0) (o : UnpackedSize) (r : R) (x : Encoder W)
      (out : Result IoError (Unit {0}) × W)
      → Post (λ _. P) (λ _. ⊥) out
      → Post
          (OpensAt P o r)
          (λ _. ⊥)
          ((put_back (λ w _. start o w) x out).0, (r, (put_back (λ w _. start o w) x out).1))
  opened-OpensAt P o r x (ok u, w) h = (w, refl, h)
  opened-OpensAt P o r x (err y, w) h = h
  opened-OpensAt P o r x (panic, w) h = h

-- What is written of an input: the digits of a number in its span.
module _ {W : Type 0} ⦃wr : Write W⦄ ⦃e : Endian⦄ where
  pub record IsPacked (o : UnpackedSize) (bytes before : List ℕ) (w : W) : Type 0 where
    pub digits : List ℕ
    pub written : wr.written w ≡ (before ++ header_bytes o) ++ digits
    pub are_bytes : All IsByte digits
    pub counted : length digits ≡ (whole bytes).count
    pub value : num digits ≡ (whole bytes).base

module _ {R W : Type 0} ⦃rd : BufRead R⦄ ⦃wr : Write W⦄ ⦃e : Endian⦄ (readable : IsReadable rd)
    (patient : IsPatient wr) where
  -- With options that write no end marker, on an input of bytes, shorter than 2 ^ 64, whose span
  -- has a count below 2 ^ 32 when 5 is added, lzma_compress_with_options on any reader that goes on
  -- to its end and any patient sink returns; it has written the header and bytes whose number is
  -- the base of the span of the input, as many as the span counts.
  pub compress-IsPacked :
      (options : Options) (r : R) (w : W)
      → HasNoMarker options.unpacked_size
      → All IsByte (rd.pending r)
      → length (rd.pending r) < 2 ^ 64
      → IsShort (whole (rd.pending r))
      → Post
          (λ _ u. IsPacked options.unpacked_size (rd.pending r) (wr.written w) u.1)
          (λ _. ⊥)
          (lzma_compress_with_options options (r, w))
  unfolding lzma_compress_with_options from_stream
  compress-IsPacked options r w no_marker small inside short =
      let o = options.unpacked_size in
      let bytes = rd.pending r in
      let before = wr.written w ++ header_bytes o in
      let Q : Unit {0} → R × W → Type 0 = λ _ u. IsPacked o bytes (wr.written w) u.1 in
      let Qv : Unit {0} → R × Encoder W → Type 0 =
        λ _ u. IsPacked o bytes (wr.written w) u.1.0.stream in
      let opened = from_stream options w in
      put_back-Post Q (λ _. ⊥) (λ u _. (u.0, u.1.0.stream)) (r, w)
        (next (opened.0, (r, opened.1)) (λ _. process))
        (next-Post (OpensAt (λ w'. wr.written w' ≡ before) o r) Qv (λ _. ⊥)
          (opened.0, (r, opened.1)) _
          (opened-OpensAt (λ w'. wr.written w' ≡ before) o r (start o w) (write_header options w)
            (write_header-Adds patient options w))
          (λ _ u q.
            let w' : W = q.0 in
            subst (λ v. Post Qv (λ _. ⊥) (process v)) (sym q.1)
              (Post-mono _ Qv _ (λ _. ⊥) (process (r, start o w'))
                (process-Digits readable patient before o bytes r (Range.new w') no_marker refl
                  small inside short
                  (subst (λ b. Encodes b start_span (Range.new w')) q.2 (new-Encodes w')))
                (λ _ v d. record {
                  digits = d.bs;
                  written = d.written;
                  are_bytes = d.bytes;
                  counted = d.counted;
                  value = d.value;
                })
                (λ _ x. x))))
