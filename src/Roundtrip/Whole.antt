-- ===== src/Roundtrip/Whole.antt =====
-- src/lib.rs: what `lzma_compress_with_options` writes, `lzma_decompress_with_options` reads.
use lzma_no_std_rs.Base.{
  ℕ, ◌^◌, ◌≤◌, ◌<◌, ◌≡◌, refl, sym, ap, ◌∙◌, subst, some, List, ◌++◌, arith, length, All, Result,
  ok, err, panic, relabel, Post, next-Post, Post-mono, put_back-Post, relabel-Post,
}
use lzma_no_std_rs.Roundtrip.Coded.{IsCoded, whole-Leads, start-Leads}
use lzma_no_std_rs.Roundtrip.Flushed.{IsFlushable, finish-sure}
use lzma_no_std_rs.Roundtrip.SetUp.{
  dictionary, base_state, other_matches, other_literals, ready_state, nothing_kept, set_up-params,
}
use lzma_no_std_rs.Io.Interface.{IoError, BufRead, Write}
use lzma_no_std_rs.Io.Endian.{Endian}
use lzma_no_std_rs.Io.Ext.Bytes.{IsByte}
use lzma_no_std_rs.Error.{io_error, lzma_error, data_stream_is_too_short}
use lzma_no_std_rs.Options as Decode
use lzma_no_std_rs.LzBuffer
use lzma_no_std_rs.LzBuffer.{LzCircularBuffer, write_out, set_dict_size}
use lzma_no_std_rs.LzBuffer.Reset.{set_dict_size-Follows, new-IsFresh}
use lzma_no_std_rs.RangeDecoder
use lzma_no_std_rs.RangeDecoder.{RangeDecoder}
use lzma_no_std_rs.Lzma.Params.{read_header}
use lzma_no_std_rs.Lzma.State.{DecoderState}
use lzma_no_std_rs.Lzma.Step.{Session}
use lzma_no_std_rs.Lzma.Process.{process}
use lzma_no_std_rs.Decompress.{decode_all, lzma_decompress_with_options}
use lzma_no_std_rs.Encode.Options.{UnpackedSize}
use lzma_no_std_rs.Encode.RangeEncoder.Value.{IsPatient}
use lzma_no_std_rs.Roundtrip.Decoding.{IsReliable, Tracks}
use lzma_no_std_rs.Roundtrip.Input.{
  input_code, start_span, start_probs, start-IsWide, start-AreProbs,
}
use lzma_no_std_rs.Roundtrip.Decoder.{params_of}
use lzma_no_std_rs.Roundtrip.Step.{IsAt}
use lzma_no_std_rs.Roundtrip.Loop.{IsOpenReader, process-Stands}
use lzma_no_std_rs.Roundtrip.Written.{header_bytes}
use lzma_no_std_rs.Roundtrip.Header.{Agree, IsSize, read_header-next}
use lzma_no_std_rs.Roundtrip.Opening.{new-Tracks}

module _ {R W : Type 0} ⦃rd : BufRead R⦄ ⦃wr : Write W⦄ ⦃e : Endian⦄ (reliable : IsReliable rd)
    (open_ : IsOpenReader rd) (patient : IsPatient wr) (flushable : IsFlushable wr)
    (mem_limit probs_mem_limit : ℕ) (bytes digits : List ℕ) (small : All IsByte bytes)
    (coded : IsCoded bytes digits) (short : length bytes < 2 ^ 32) (mem_fits : mem_limit < 2 ^ 63)
    (room : 4096 ≤ mem_limit) (probs : 8 ≤ probs_mem_limit) where
  abbrev n : ℕ
  n = length bytes

  decode_all-writes :
      (c : RangeDecoder R) (w : W)
      → Tracks reliable digits coded.are_bytes start_span c
      → Post
          (λ _ u. wr.written u.1 ≡ wr.written w ++ bytes)
          (λ _. ⊥)
          (decode_all (ready_state mem_limit probs_mem_limit n) (c, w))
  unfolding decode_all
  decode_all-writes c w track =
      let t = ready_state mem_limit probs_mem_limit n in
      let u0 : RangeDecoder R × Session W = (c, (t, w)) in
      let before : List ℕ = wr.written w in
      let d : DecoderState = base_state mem_limit probs_mem_limit n in
      let dict =
        set_dict_size-Follows mem_limit 4096 (LzBuffer.new mem_limit) w mem_fits (omega arith) room
          (new-IsFresh mem_limit) in
      let Q : RangeDecoder R × Session W → Type 0 = λ v.
        IsAt reliable patient digits coded.are_bytes (some n) d
          (other_matches mem_limit probs_mem_limit n) (other_literals mem_limit probs_mem_limit n)
          mem_limit before (input_code 0 0 bytes (start_span, start_probs)) bytes v in
      let Done : Unit {0} → RangeDecoder R × W → Type 0 = λ _ v. wr.written v.1 ≡ before ++ bytes in
      put_back-Post Done (λ _. ⊥) (λ v _. (v.0, v.1.1)) (c, w) _
        (next-Post (λ _. Q) _ (λ _. ⊥) (process u0) _
          (process-Stands reliable open_ patient digits coded.are_bytes n d
            (other_matches mem_limit probs_mem_limit n) (other_literals mem_limit probs_mem_limit n)
            mem_limit before (nothing_kept mem_limit probs_mem_limit n) (omega (arith, short)) bytes
            start_span start_probs u0 refl short small start-IsWide start-AreProbs
            (whole-Leads bytes digits small coded)
            (record {
              buffer = dictionary mem_limit probs_mem_limit n;
              state = refl;
              tracks = track;
              follows = dict.1;
            }))
          (λ _ v q.
            let b : LzCircularBuffer = q.buffer in
            let same : v.1.0.output ≡ b = ap (λ (x : DecoderState). x.output) q.state in
            put_back-Post (λ _ u. wr.written u.1.1 ≡ before ++ bytes) (λ _. ⊥)
              (λ b s. (s.0, (record s.1.0 { output = b.0 }, b.1))) v
              (relabel io_error (LzBuffer.finish (v.1.0.output, v.1.1)))
              (relabel-Post (λ _ (u : LzCircularBuffer × W). wr.written u.1 ≡ before ++ bytes)
                (λ _. ⊥) io_error (LzBuffer.finish (v.1.0.output, v.1.1))
                (subst
                  (λ y.
                    Post (λ _ (u : LzCircularBuffer × W). wr.written u.1 ≡ before ++ bytes) (λ _. ⊥)
                      (LzBuffer.finish (y, v.1.1)))
                  (sym same)
                  (finish-sure patient flushable mem_limit 4096 before bytes b v.1.1 q.follows)))))

  opened-Tracks :
      (o : Result IoError (Unit {0}) × RangeDecoder R) (w : W)
      → Post (λ _ c. Tracks reliable digits coded.are_bytes start_span c) (λ _. ⊥) o
      → Post
          (λ _ (u : RangeDecoder R × W).
            Tracks reliable digits coded.are_bytes start_span u.0 × (u.1 ≡ w))
          (λ _. ⊥)
          (relabel (λ _. lzma_error data_stream_is_too_short) (o.0, (o.1, w)))
  opened-Tracks (ok u, c) w h = (h, refl)
  opened-Tracks (err x, c) w h = h
  opened-Tracks (panic, c) w h = h

  pub decompress-writes :
      (o : UnpackedSize) (options : Decode.Options) (r : R) (w : W)
      → Agree o options.unpacked_size (length bytes)
      → IsSize o
      → rd.pending r ≡ header_bytes o ++ digits
      → Post
          (λ _ u. wr.written u.1 ≡ wr.written w ++ bytes)
          (λ _. ⊥)
          (lzma_decompress_with_options mem_limit probs_mem_limit options (r, w))
  unfolding lzma_decompress_with_options
  decompress-writes o options r w agree fits h =
      let Q : Unit {0} → R × W → Type 0 = λ _ u. wr.written u.1 ≡ wr.written w ++ bytes in
      next-Post (λ p (u : R × W). (p ≡ params_of (some n)) × (rd.pending u.0 ≡ digits) × (u.1 ≡ w))
        Q (λ _. ⊥) _ _
        (put_back-Post _ _ (λ r s. (r, s.1)) (r, w) (read_header options r)
          (Post-mono _ _ _ (λ _. ⊥) (read_header options r)
            (read_header-next reliable o options n digits r agree fits h)
            (λ p r' q. (q.0, q.1, refl)) (λ _ z. z)))
        (λ p u q.
          next-Post (λ t v. (t ≡ ready_state mem_limit probs_mem_limit n) × (v ≡ u)) Q (λ _. ⊥) _ _
            (set_up-params mem_limit probs_mem_limit n u p q.0 room probs)
            (λ t v k.
              let left : rd.pending v.0 ≡ digits = ap (λ (x : R × W). rd.pending x.0) k.1 ∙ q.1 in
              let sink : v.1 ≡ w = ap (λ (x : R × W). x.1) k.1 ∙ q.2 in
              put_back-Post Q (λ _. ⊥) (λ c _. (c.0.stream, c.1)) v _
                (next-Post
                  (λ _ (c : RangeDecoder R × W).
                    Tracks reliable digits coded.are_bytes start_span c.0 × (c.1 ≡ v.1))
                  _ (λ _. ⊥) _ _
                  (opened-Tracks (RangeDecoder.new v.0) v.1 (
                    new-Tracks reliable digits coded.are_bytes v.0 left
                      (start-Leads bytes digits small coded)))
                  (λ _ c z.
                    subst
                      (λ d.
                        Post (λ _ (x : RangeDecoder R × W). wr.written x.1 ≡ wr.written w ++ bytes)
                          (λ _. ⊥) (decode_all d c))
                      (sym k.0)
                      (subst
                        (λ y.
                          Post
                            (λ _ (x : RangeDecoder R × W). wr.written x.1 ≡ wr.written y ++ bytes)
                            (λ _. ⊥) (decode_all (ready_state mem_limit probs_mem_limit n) c))
                        (z.1 ∙ sink) (decode_all-writes c.0 c.1 z.0))))))
