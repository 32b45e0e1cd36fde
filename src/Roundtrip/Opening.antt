-- ===== src/Roundtrip/Opening.antt =====
-- src/decode/rangecoder.rs, `new`: the first five bytes, of which the first is 0.
use lzma_no_std_rs.Base.{
  ℕ, ◌≡◌, refl, ap, List, [], ◌∷◌, ◌++◌, arith, All, Post, next-Post, Post-mono, put_back-Post,
}
use lzma_no_std_rs.Io.Interface.{BufRead}
use lzma_no_std_rs.Io.Endian.{Endian}
use lzma_no_std_rs.Io.Ext.{read_u8, read_u32, read_buf}
use lzma_no_std_rs.Io.Ext.Bytes.{IsByte}
use lzma_no_std_rs.RangeDecoder as Range
use lzma_no_std_rs.RangeDecoder.{RangeDecoder, on_stream, init}
use lzma_no_std_rs.Roundtrip.Decoding.{IsReliable, Tracks, read_u8-next}
use lzma_no_std_rs.Roundtrip.Target.{Leads}
use lzma_no_std_rs.Roundtrip.Header.{read_buf-next}
use lzma_no_std_rs.Roundtrip.Input.{start_span}

module _ {R : Type 0} ⦃rd : BufRead R⦄ ⦃e : Endian⦄ (reliable : IsReliable rd) where
  pub new-Tracks :
      (all : List ℕ) (bytes : All IsByte all) (r : R)
      → rd.pending r ≡ all
      → Leads all start_span
      → Post (λ _ c. Tracks reliable all bytes start_span c) (λ _. ⊥) (Range.new r)
  unfolding Range.new init read_u32
  new-Tracks [] bytes r h lead = absurd (omega (arith, lead.0))
  new-Tracks (b0 ∷ []) bytes r h lead = absurd (omega (arith, lead.0))
  new-Tracks (b0 ∷ b1 ∷ []) bytes r h lead = absurd (omega (arith, lead.0))
  new-Tracks (b0 ∷ b1 ∷ b2 ∷ []) bytes r h lead = absurd (omega (arith, lead.0))
  new-Tracks (b0 ∷ b1 ∷ b2 ∷ b3 ∷ []) bytes r h lead = absurd (omega (arith, lead.0))
  new-Tracks (b0 ∷ b1 ∷ b2 ∷ b3 ∷ b4 ∷ rest) bytes r h lead =
      let all : List ℕ = b0 ∷ b1 ∷ b2 ∷ b3 ∷ b4 ∷ rest in
      let four : List ℕ = b1 ∷ b2 ∷ b3 ∷ b4 ∷ [] in
      let c : RangeDecoder R = record { stream = r; range = 0xFFFF_FFFF; code = 0 } in
      next-Post (λ _ d. (rd.pending d.stream ≡ four ++ rest) × (d.range ≡ 0xFFFF_FFFF)) _ (λ _. ⊥)
        (on_stream read_u8 c) _
        (put_back-Post _ _ (λ s d. record d { stream = s }) c (read_u8 r)
          (Post-mono _ _ _ _ (read_u8 r) (read_u8-next reliable r b0 (four ++ rest) h)
            (λ b s t. (t.1, refl)) (λ s t. t)))
        (λ b d q.
          next-Post
            (λ n d'.
              (n ≡ e.big.from_u32 four) × (rd.pending d'.stream ≡ rest) × (d'.range ≡ 0xFFFF_FFFF))
            _ (λ _. ⊥) (on_stream (read_u32 e.big) d) _
            (put_back-Post _ _ (λ s d. record d { stream = s }) d (read_u32 e.big d.stream)
              (next-Post (λ bs s. (bs ≡ four) × (rd.pending s ≡ rest)) _ (λ _. ⊥)
                (read_buf 4 d.stream) _ (read_buf-next reliable 4 four rest d.stream refl q.0)
                (λ bs s t. (ap (λ x. e.big.from_u32 x) t.0, t.1, q.1))))
            (λ n d' t. record {
              range = t.2;
              value = omega (arith, t.0, e.big_u32 b1 b2 b3 b4, lead.2);
              rest = t.1;
            }))
