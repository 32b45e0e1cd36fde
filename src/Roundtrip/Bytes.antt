-- ===== src/Roundtrip/Bytes.antt =====
-- src/encode/dumbencoder.rs: the loop of `process` writes the code of the input.
use lzma_no_std_rs.Base.{
  ℕ, zero, suc, ◌+◌, ◌^◌, ◌≤◌, ◌<◌, ◌≡◌, refl, sym, ap, subst, inr, List, [], ◌∷◌, ◌++◌, arith,
  length, All, usize, M, ◌>>◌, return, of_io, Post, next-Post, Post-mono, put_back-Post,
}
use lzma_no_std_rs.Roundtrip.Encoder.{tables_of, Comes, encode_byte-Puts}
use lzma_no_std_rs.Io.Interface.{IoError, BufRead, Write}
use lzma_no_std_rs.Io.Ext.Bytes.{IsByte}
use lzma_no_std_rs.Encode.Options.{UnpackedSize}
use lzma_no_std_rs.Encode.RangeEncoder.{RangeEncoder}
use lzma_no_std_rs.Encode.RangeEncoder.Value.{IsPatient}
use lzma_no_std_rs.Encode.DumbEncoder.{Encoder, encode_byte, bytes_loop, next_byte, on_output}
use lzma_no_std_rs.Roundtrip.Span.{Span, IsWide}
use lzma_no_std_rs.Roundtrip.Encoding.{Encodes}
use lzma_no_std_rs.Roundtrip.Writes.{IsShort, IsShort-IsBackward}
use lzma_no_std_rs.Roundtrip.Input.{
  Probs, AreProbs, byte_code, input_code, byte_code-IsCode, input_code-IsCode,
}

-- `input.bytes()` goes on to the end of the input.
abbrev pub IsReadable : {R : Type 0} → BufRead R → Type 0
IsReadable {R} rd =
    (r : R) → (bs : List ℕ) × ((rd.read 1 r).0 ≡ inr bs) × (bs ≡ [] → rd.pending r ≡ [])

-- What a call of `next` of `input.bytes()` gives of the bytes that are left.
next_of_none : (all got left : List ℕ) → all ≡ [] → all ≡ got ++ left → got ≡ []
next_of_none all [] left none_left e = refl
next_of_none all (b ∷ got) left none_left e = cc

next_of_more :
    (all got left more : List ℕ) (b : ℕ)
    → all ≡ b ∷ more
    → length got ≤ 1
    → all ≡ got ++ left
    → (got ≡ [] → all ≡ [])
    → (got ≡ b ∷ []) × (left ≡ more)
next_of_more all [] left more b h few e none_left = cc (h, none_left refl)
next_of_more all (x ∷ []) left more b h few e none_left =
    let same : x ≡ b = cc in (ap (λ y. y ∷ []) same, cc)
next_of_more all (x ∷ y ∷ got) left more b h few e none_left = absurd (omega (arith, few))

module _ {R W : Type 0} ⦃rd : BufRead R⦄ ⦃wr : Write W⦄ (readable : IsReadable rd)
    (patient : IsPatient wr) (before : List ℕ) (o : UnpackedSize) where
  next_byte-none :
      (r : R) (x : Encoder W)
      → rd.pending r ≡ []
      → Post (λ got u. (got ≡ []) × (u.1 ≡ x)) (λ _. ⊥) (next_byte (r, x))
  next_byte-none r x h =
      let got = readable r in
      let took = rd.read_takes 1 r got.0 got.1 in
      rw (got.1, of_io)
        (next_of_none (rd.pending r) got.0 (rd.pending (rd.read 1 r).1) h took.1, refl)

  next_byte-more :
      (r : R) (x : Encoder W) (b : ℕ) (more : List ℕ)
      → rd.pending r ≡ b ∷ more
      → Post
          (λ got u. (got ≡ b ∷ []) × (rd.pending u.0 ≡ more) × (u.1 ≡ x))
          (λ _. ⊥)
          (next_byte (r, x))
  next_byte-more r x b more h =
      let got = readable r in
      let took = rd.read_takes 1 r got.0 got.1 in
      let one =
        next_of_more (rd.pending r) got.0 (rd.pending (rd.read 1 r).1) more b h took.0 took.1
          got.2 in
      rw (got.1, of_io) (one.0, one.1, refl)

  abbrev pub EndsIn : Span × Probs → ℕ → R × Encoder W → Type 0
  EndsIn x _ u = Encodes before x.0 u.1.0 × (u.1.1 ≡ tables_of o x.1)

  -- `bytes_loop` behind a call of `next`.
  abbrev go_on : ℕ → ℕ → ℕ → ℕ → List ℕ → M IoError (R × Encoder W) ℕ
  go_on fuel out_len prev_byte input_len got = elim got [
    | [] ↦ return input_len
    | byte ∷ _ ↦ do
      on_output (encode_byte out_len byte prev_byte)
      bytes_loop fuel (usize (out_len + 1)) byte out_len
  ]

  pub bytes_loop-EndsIn :
      (bytes : List ℕ) (fuel i prev input_len : ℕ) (r : R) (s : Span) (t : Probs)
      (e : RangeEncoder W)
      → rd.pending r ≡ bytes
      → length bytes < fuel
      → i + length bytes < 2 ^ 64
      → prev < 256
      → All IsByte bytes
      → IsWide s
      → AreProbs t
      → IsShort (input_code i prev bytes (s, t)).0
      → Encodes before s e
      → Post
          (EndsIn (input_code i prev bytes (s, t)))
          (λ _. ⊥)
          (bytes_loop fuel i prev input_len (r, (e, tables_of o t)))
  unfolding bytes_loop
  bytes_loop-EndsIn bytes zero i prev input_len r s t e left low inside before_it small wide good
        short h =
      absurd (omega (arith, low))
  bytes_loop-EndsIn [] (suc fuel) i prev input_len r s t e left low inside before_it small wide good
        short h =
      let x : Encoder W = (e, tables_of o t) in
      let Q = EndsIn (s, t) in
      next-Post (λ got u. (got ≡ []) × (u.1 ≡ x)) Q (λ _. ⊥) (next_byte (r, x))
        (go_on fuel i prev input_len) (next_byte-none r x left)
        (λ got u q.
          subst (λ g. Post Q (λ _. ⊥) (go_on fuel i prev input_len g u)) (sym q.0)
            (subst (λ (y : Encoder W). Encodes before s y.0 × (y.1 ≡ tables_of o t)) (sym q.1)
              (h, refl)))
  bytes_loop-EndsIn (b ∷ more) (suc fuel) i prev input_len r s t e left low inside before_it small
        wide good short h =
      let x : Encoder W = (e, tables_of o t) in
      let x' : Span × Probs = byte_code i prev b (s, t) in
      let Q = EndsIn (input_code (i + 1) b more x') in
      let c = byte_code-IsCode i prev b before_it small.0 in
      let wide' : IsWide x'.0 = c.wide s t wide good in
      let good' : AreProbs x'.1 = c.tables s t wide good in
      let rest = input_code-IsCode (i + 1) b more small.0 small.1 in
      let short' : IsShort x'.0 =
        rest.back IsShort x'.0 x'.1 IsShort-IsBackward wide' good' short in
      let counted : usize (i + 1) ≡ i + 1 = omega (arith, inside) in
      next-Post (λ got u. (got ≡ b ∷ []) × (rd.pending u.0 ≡ more) × (u.1 ≡ x)) Q (λ _. ⊥)
        (next_byte (r, x)) (go_on fuel i prev input_len) (next_byte-more r x b more left)
        (λ got u q.
          subst (λ g. Post Q (λ _. ⊥) (go_on fuel i prev input_len g u)) (sym q.0)
            (subst
              (λ (y : Encoder W). Post Q (λ _. ⊥) (go_on fuel i prev input_len (b ∷ []) (u.0, y)))
              (sym q.2)
              (next-Post (λ _ v. (rd.pending v.0 ≡ more) × Comes patient before o x' tt v.1) Q
                (λ _. ⊥) (on_output (encode_byte i b prev) (u.0, x)) _
                (put_back-Post _ _ (λ y v. (v.0, y)) (u.0, x) (encode_byte i b prev x)
                  (Post-mono _ _ _ _ (encode_byte i b prev x)
                    (encode_byte-Puts patient before o i b prev before_it small.0 s t e wide good
                      short' h)
                    (λ _ v k. (q.1, k)) (λ _ z. z)))
                (λ _ v k. rw counted (
                  subst (λ y. Post Q (λ _. ⊥) (bytes_loop fuel (i + 1) b i (v.0, (v.1.0, y))))
                    (sym k.1.1)
                    (bytes_loop-EndsIn more fuel (i + 1) b i v.0 x'.0 x'.1 v.1.0 k.0
                      (omega (arith, low)) (omega (arith, inside)) small.0 small.1 wide' good' short
                      k.1.0))))))
