-- ===== src/RangeDecoder/Start.antt =====
-- src/decode/rangecoder.rs, `new`: five bytes of input make a range decoder that is ready.
use lzma_no_std_rs.Base.{◌^◌, ◌<◌, ◌≡◌, refl, arith, Post, next-Post, Post-mono, put_back-Post}
use lzma_no_std_rs.Io.Interface.{BufRead}
use lzma_no_std_rs.Io.Endian.{Endian}
use lzma_no_std_rs.Io.Ext.{read_u8, read_u32}
use lzma_no_std_rs.Io.Ext.Bytes.{IsInput, read_u8-Post}
use lzma_no_std_rs.Io.Ext.Rest.{read_u32-Post}
use lzma_no_std_rs.RangeDecoder.{RangeDecoder, on_stream, init, new}
use lzma_no_std_rs.RangeDecoder.Safe.{IsCoder}

module _ {R : Type 0} ⦃rd : BufRead R⦄ ⦃e : Endian⦄ where
  -- On an input of bytes, new does not panic; what it makes, if it returns, is
  -- a range decoder as decode_bit wants it.
  pub new-IsCoder : (r : R) → IsInput r → Post (λ _ c. IsCoder c) (λ c. IsInput c.stream) (new r)
  unfolding new init
  new-IsCoder r h =
      let c : RangeDecoder R = record { stream = r; range = 0xFFFF_FFFF; code = 0 } in
      next-Post (λ _ d. IsInput d.stream × (d.range ≡ 0xFFFF_FFFF)) _ (λ d. IsInput d.stream)
        (on_stream read_u8 c) _
        (put_back-Post _ _ (λ s d. record d { stream = s }) c (read_u8 r)
          (Post-mono _ _ _ _ (read_u8 r) (read_u8-Post r h) (λ b s t. (t.1, refl)) (λ s t. t)))
        (λ b d q.
          next-Post (λ n d'. (n < 2 ^ 32) × IsInput d'.stream × (d'.range ≡ 0xFFFF_FFFF)) _
            (λ d. IsInput d.stream) (on_stream (read_u32 e.big) d) _
            (put_back-Post _ _ (λ s d. record d { stream = s }) d (read_u32 e.big d.stream)
              (Post-mono _ _ _ _ (read_u32 e.big d.stream) (read_u32-Post e d.stream q.0)
                (λ n s t. (t.0, t.1, q.1)) (λ s t. t)))
            (λ n d' t. record {
              enough = omega (arith, t.2);
              range_fits = omega (arith, t.2);
              code_fits = t.0;
              input = t.1;
            }))
