-- ===== src/Roundtrip/Coded.antt =====
-- The bytes of an input as src/encode leaves them, and what src/decode sees of their number.
use lzma_no_std_rs.Base.{ℕ, ◌≡◌, sym, ap, ◌∙◌, List, arith, length, take, All, take-length}
use lzma_no_std_rs.Io.Ext.Bytes.{IsByte}
use lzma_no_std_rs.Encode.Number.{num}
use lzma_no_std_rs.Roundtrip.Span.{IsWide}
use lzma_no_std_rs.Roundtrip.Target.{Leads, after_bit-Leads}
use lzma_no_std_rs.Roundtrip.Input.{
  input_code-IsCode, start_span, start_probs, start-IsWide, start-AreProbs,
}
use lzma_no_std_rs.Roundtrip.Input.{whole}

-- Digits of a number in the span of an input.
pub record IsCoded (bytes digits : List ℕ) : Type 0 where
  pub are_bytes : All IsByte digits
  pub counted : length digits ≡ (whole bytes).count
  pub value : num digits ≡ (whole bytes).base

pub whole-Leads :
    (bytes digits : List ℕ) → All IsByte bytes → IsCoded bytes digits → Leads digits (whole bytes)
whole-Leads bytes digits small c =
    let code = input_code-IsCode 0 0 bytes (omega arith) small in
    let wide : IsWide (whole bytes) =
      code.wide start_span start_probs start-IsWide start-AreProbs in
    let all_seen : num (take (whole bytes).count digits) ≡ (whole bytes).base =
      ap (λ k. num (take k digits)) (sym c.counted) ∙ ap num (take-length digits) ∙ c.value in
    (omega (arith, c.counted), omega (arith, all_seen), omega (arith, all_seen, wide))

pub start-Leads :
    (bytes digits : List ℕ) → All IsByte bytes → IsCoded bytes digits → Leads digits start_span
start-Leads bytes digits small c =
    let code = input_code-IsCode 0 0 bytes (omega arith) small in
    code.back (Leads digits) start_span start_probs (after_bit-Leads digits c.are_bytes)
      start-IsWide start-AreProbs (whole-Leads bytes digits small c)
