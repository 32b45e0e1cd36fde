-- ===== src/Roundtrip/Header.antt =====
-- src/encode/dumbencoder.rs, the header, against `LzmaParams::read_header` of src/decode/lzma.rs.
use lzma_no_std_rs.Base.{
  ℕ, ◌-◌, ◌/◌, ◌%◌, ◌^◌, ◌<◌, ◌≡◌, refl, sym, ap, ap₂, ◌∙◌, subst, false, Option, none, some, List,
  [], ◌∷◌, ◌++◌, append_assoc, arith, ok, ltb, leb, ◌==◌, if◌then◌else◌, length, length-append, M,
  ◌>>=◌, return, throw, map_err, of_io, Post, next-Post, relabel-Post,
}
use lzma_no_std_rs.Io.Interface.{BufRead, Write}
use lzma_no_std_rs.Io.Endian.{Endian}
use lzma_no_std_rs.Io.Ext.{read_u8, read_u32, read_u64, read_buf}
use lzma_no_std_rs.Error.{Error, header_too_short, lzma_error, invalid_header}
use lzma_no_std_rs.Options as Decode
use lzma_no_std_rs.Options.{read_from_header, read_header_but_use_provided, use_provided}
use lzma_no_std_rs.Lzma.Params.{LzmaParams, read_unpacked_size, read_header}
use lzma_no_std_rs.Encode.Options as Encode
use lzma_no_std_rs.Encode.RangeEncoder.Value.{IsPatient}
use lzma_no_std_rs.Encode.Options.{UnpackedSize, write_to_header, skip_writing_to_header}
use lzma_no_std_rs.Encode.DumbEncoder.{dict_size, write_header}
use lzma_no_std_rs.Roundtrip.Decoding.{IsReliable, read_u8-next}
use lzma_no_std_rs.Roundtrip.Written.{size_bytes, header_bytes, returned, write_header-Adds}
use lzma_no_std_rs.Roundtrip.Decoder.{params_of}

-- The options of both sides say that the unpacked size is `n`.
abbrev pub Agree : UnpackedSize → Decode.UnpackedSize → ℕ → Type 0
Agree (write_to_header (some x)) read_from_header n = x ≡ n
Agree (write_to_header (some x)) (read_header_but_use_provided o) n = o ≡ some n
Agree skip_writing_to_header (use_provided o) n = o ≡ some n
Agree _ _ n = ⊥

-- A size that the header may have.
abbrev pub IsSize : UnpackedSize → Type 0
IsSize (write_to_header (some x)) = x < 2 ^ 64 - 1
IsSize _ = Unit {0}

append-parts :
    (xs ys us vs : List ℕ) → length xs ≡ length us → xs ++ ys ≡ us ++ vs → (xs ≡ us) × (ys ≡ vs)
append-parts [] ys [] vs l e = (refl, e)
append-parts [] ys (u ∷ us) vs l e = absurd (omega (arith, l))
append-parts (x ∷ xs) ys [] vs l e = absurd (omega (arith, l))
append-parts (x ∷ xs) ys (u ∷ us) vs l e =
    let heads : x ≡ u = cc in
    let tails : xs ++ ys ≡ us ++ vs = cc in
    let parts = append-parts xs ys us vs (omega (arith, l)) tails in
    (ap₂ ◌∷◌ heads parts.0, parts.1)

module _ {R : Type 0} ⦃rd : BufRead R⦄ (reliable : IsReliable rd) where
  pub read_buf-next :
      (k : ℕ) (bs rest : List ℕ) (r : R)
      → length bs ≡ k
      → rd.pending r ≡ bs ++ rest
      → Post (λ got r'. (got ≡ bs) × (rd.pending r' ≡ rest)) (λ _. ⊥) (read_buf k r)
  read_buf-next k bs rest r l e =
      let got = reliable k r (omega (arith, l, ap length e, length-append bs rest)) in
      let took = rd.read_exact_takes k r got.0 got.1 in
      rw (got.1, of_io) (append-parts got.0 _ bs rest (took.0 ∙ sym l) (sym took.1 ∙ e))

module _ {R : Type 0} ⦃rd : BufRead R⦄ ⦃e : Endian⦄ (reliable : IsReliable rd) where
  abbrev Yields : ℕ → List ℕ → ℕ → R → Type 0
  Yields n rest v r = (v ≡ n) × (rd.pending r ≡ rest)

  read_u32-next :
      (rest : List ℕ) (r : R)
      → rd.pending r ≡ e.little.to_u32 dict_size ++ rest
      → Post (Yields dict_size rest) (λ _. ⊥) (read_u32 e.little r)
  unfolding read_u32
  read_u32-next rest r h =
      let four : length (e.little.to_u32 dict_size) ≡ 4 = ap length (e.little_put_u32 dict_size) in
      let back : e.little.from_u32 (e.little.to_u32 dict_size) ≡ dict_size =
        ap (λ bs. e.little.from_u32 bs) (e.little_put_u32 dict_size) ∙ e.little_u32 _ _ _ _ in
      next-Post _ _ (λ _. ⊥) (read_buf 4 r) _
        (read_buf-next reliable 4 (e.little.to_u32 dict_size) rest r four h)
        (λ bs r' q. (ap (λ x. e.little.from_u32 x) q.0 ∙ back, q.1))

  read_u64-next :
      (n : ℕ) (rest : List ℕ) (r : R)
      → n < 2 ^ 64
      → rd.pending r ≡ e.little.to_u64 n ++ rest
      → Post (Yields n rest) (λ _. ⊥) (read_u64 e.little r)
  unfolding read_u64
  read_u64-next n rest r fits h =
      let eight : length (e.little.to_u64 n) ≡ 8 = ap length (e.little_put_u64 n) in
      let back : e.little.from_u64 (e.little.to_u64 n) ≡ n =
        ap (λ bs. e.little.from_u64 bs) (e.little_put_u64 n)
        ∙ e.little_u64 _ _ _ _ _ _ _ _
        ∙ omega (arith, fits) in
      next-Post _ _ (λ _. ⊥) (read_buf 8 r) _
        (read_buf-next reliable 8 (e.little.to_u64 n) rest r eight h)
        (λ bs r' q. (ap (λ x. e.little.from_u64 x) q.0 ∙ back, q.1))

  abbrev Sizes : ℕ → List ℕ → Option ℕ → R → Type 0
  Sizes n rest o r = (o ≡ some n) × (rd.pending r ≡ rest)

  read_unpacked_size-next :
      (o : UnpackedSize) (mode : Decode.UnpackedSize) (n : ℕ) (rest : List ℕ) (r : R)
      → Agree o mode n
      → IsSize o
      → rd.pending r ≡ size_bytes o ++ rest
      → Post (Sizes n rest) (λ _. ⊥) (read_unpacked_size mode r)
  unfolding read_unpacked_size
  read_unpacked_size-next (write_to_header (some x)) read_from_header n rest r agree fits h =
      let known : (x == 0xFFFF_FFFF_FFFF_FFFF) ≡ false = ground (arith, fits) in
      next-Post (Yields x rest) _ (λ _. ⊥) _ _
        (relabel-Post _ _ header_too_short (read_u64 e.little r)
          (read_u64-next x rest r (omega (arith, fits)) h))
        (λ v r' q. (
          ap (λ y. if y == 0xFFFF_FFFF_FFFF_FFFF then none else some y) q.0
              ∙ rw known (ap some agree),
          q.1,
        ))
  read_unpacked_size-next (write_to_header (some x)) (read_header_but_use_provided o) n rest r agree
        fits h =
      next-Post (Yields x rest) _ (λ _. ⊥) _ _
        (relabel-Post _ _ header_too_short (read_u64 e.little r)
          (read_u64-next x rest r (omega (arith, fits)) h))
        (λ v r' q. (agree, q.1))
  read_unpacked_size-next (write_to_header (some x)) (use_provided o) n rest r agree fits h =
      absurd agree
  read_unpacked_size-next (write_to_header none) read_from_header n rest r agree fits h =
      absurd agree
  read_unpacked_size-next (write_to_header none) (read_header_but_use_provided o) n rest r agree
        fits h =
      absurd agree
  read_unpacked_size-next (write_to_header none) (use_provided o) n rest r agree fits h =
      absurd agree
  read_unpacked_size-next skip_writing_to_header read_from_header n rest r agree fits h =
      absurd agree
  read_unpacked_size-next skip_writing_to_header (read_header_but_use_provided o) n rest r agree
        fits h =
      absurd agree
  read_unpacked_size-next skip_writing_to_header (use_provided o) n rest r agree fits h = (agree, h)

  abbrev Says : ℕ → List ℕ → LzmaParams → R → Type 0
  Says n rest p r = (p ≡ params_of (some n)) × (rd.pending r ≡ rest)

  pub read_header-next :
      (o : UnpackedSize) (options : Decode.Options) (n : ℕ) (rest : List ℕ) (r : R)
      → Agree o options.unpacked_size n
      → IsSize o
      → rd.pending r ≡ header_bytes o ++ rest
      → Post (Says n rest) (λ _. ⊥) (read_header options r)
  unfolding read_header
  read_header-next o options n rest r agree fits h =
      let behind : List ℕ = (e.little.to_u32 dict_size ++ size_bytes o) ++ rest in
      next-Post (λ v r'. (v ≡ 93) × (rd.pending r' ≡ behind)) (Says n rest) (λ _. ⊥) _ _
        (relabel-Post _ _ header_too_short (read_u8 r) (read_u8-next reliable r 93 behind h))
        (λ props r1 q.
          subst (λ v. Post (Says n rest) (λ _. ⊥) (body v r1)) (sym q.0)
            (next-Post (Yields dict_size (size_bytes o ++ rest)) (Says n rest) (λ _. ⊥) _ _
              (relabel-Post _ _ header_too_short (read_u32 e.little r1) (
                read_u32-next (size_bytes o ++ rest) r1
                  (q.1 ∙ append_assoc (e.little.to_u32 dict_size) (size_bytes o) rest)))
              (λ dict r2 q2.
                next-Post (Sizes n rest) (Says n rest) (λ _. ⊥) _ _
                  (read_unpacked_size-next o options.unpacked_size n rest r2 agree fits q2.1)
                  (λ size r3 q3. (
                    ap₂
                        (λ k z. record {
                          lc = 3;
                          lp = 0;
                          pb = 2;
                          dict_size = if ltb k 0x1000 then 0x1000 else k;
                          unpacked_size = z;
                        })
                        q2.0 q3.0,
                    q3.1,
                  )))))
    where
      body : ℕ → M Error R LzmaParams
      body props = if leb 225 props then throw (lzma_error (invalid_header props)) else do
        dict_size_provided ← map_err header_too_short (read_u32 e.little)
        let dict = if ltb dict_size_provided 0x1000 then 0x1000 else dict_size_provided
        unpacked_size ← read_unpacked_size options.unpacked_size
        return (record {
          lc = props % 9;
          lp = props / 9 % 5;
          pb = props / 9 / 5;
          dict_size = dict;
          unpacked_size = unpacked_size;
        })

module _ {R W : Type 0} ⦃rd : BufRead R⦄ ⦃wr : Write W⦄ ⦃e : Endian⦄ (reliable : IsReliable rd)
    (patient : IsPatient wr) where
  -- With options of both sides that agree on the unpacked size n (in the header; provided to the
  -- decoder, with any size in the header; or provided only), and a size below 2 ^ 64 - 1 where the
  -- header has one: write_header on a patient sink returns, and on what it added to the sink, with
  -- anything behind it, read_header, with a reader that gives what is there, returns lc = 3, lp =
  -- 0, pb = 2, a dictionary of 4096 bytes and the size n, and leaves what stands behind.
  pub read_header-write_header :
      (o : Encode.Options) (options : Decode.Options) (n : ℕ) (bytes rest : List ℕ) (w : W) (r : R)
      → Agree o.unpacked_size options.unpacked_size n
      → IsSize o.unpacked_size
      → wr.written (write_header o w).1 ≡ wr.written w ++ bytes
      → rd.pending r ≡ bytes ++ rest
      → ((write_header o w).0 ≡ ok tt)
        × Post (Says reliable n rest) (λ _. ⊥) (read_header options r)
  read_header-write_header o options n bytes rest w r agree fits added h =
      let done =
        returned (λ w'. wr.written w' ≡ wr.written w ++ header_bytes o.unpacked_size)
          (write_header o w) (write_header-Adds patient o w) in
      let same =
        append-parts (wr.written w) bytes (wr.written w) (header_bytes o.unpacked_size) refl
          (sym added ∙ done.1) in
      (
        done.0,
        read_header-next reliable o.unpacked_size options n rest r agree fits
            (h ∙ ap (λ l. l ++ rest) same.1),
      )
