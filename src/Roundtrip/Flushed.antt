-- ===== src/Roundtrip/Flushed.antt =====
-- src/decode/lzbuffer.rs, `finish`, on a sink that does not fail.
use lzma_no_std_rs.Base.{
  ℕ, ◌≡◌, sym, ◌∙◌, inl, inr, false, List, ◌++◌, append-nil, arith, ltb, ltb→le, le→ltb, Bool-cases,
  length, take, of_io, Post,
}
use lzma_no_std_rs.Io.Interface.{Write}
use lzma_no_std_rs.LzBuffer
use lzma_no_std_rs.LzBuffer.{LzCircularBuffer, write_out, set_dict_size}
use lzma_no_std_rs.LzBuffer.Copy.{Follows}
use lzma_no_std_rs.Encode.RangeEncoder.Value.{IsPatient}

-- The sink takes what it is given, and can be flushed.
abbrev pub IsFlushable : {W : Type 0} → Write W → Type 0
IsFlushable {W} wr = (w : W) → (wr.flush w).0 ≡ inr tt

module _ {W : Type 0} ⦃wr : Write W⦄ (patient : IsPatient wr) (flushable : IsFlushable wr) where
  pub finish-sure :
      (mem_limit d : ℕ) (before h : List ℕ) (b : LzCircularBuffer) (w : W)
      → Follows mem_limit d before h (b, w)
      → Post (λ _ u. wr.written u.1 ≡ before ++ h) (λ _. ⊥) (LzBuffer.finish (b, w))
  unfolding LzBuffer.finish write_out
  finish-sure mem_limit d before h b w f = elim (Bool-cases (ltb 0 b.cursor)) [
    | inr clean ↦
        let at_start : b.cursor ≡ 0 = omega (arith, ltb→le 0 b.cursor clean) in
        rw clean (sym (append-nil (wr.written w)) ∙ (rw at_start at f.1.shown))
    | inl pending ↦
        let part : List ℕ = take b.cursor b.buf in
        let sure = patient part w in
        let w' : W = (wr.write_all part w).1 in
        let whole_dict : ltb (length b.buf) b.cursor ≡ false =
          le→ltb _ _ (omega (arith, f.0.sized, f.0.inside, f.0.fits)) in
        rw (pending, whole_dict, sure, of_io, flushable w', of_io)
          (wr.flush_written w' ∙ wr.write_all_appends part w sure ∙ f.1.shown)
  ]
