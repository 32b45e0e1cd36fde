-- ===== src/RangeDecoder/End.antt =====
-- src/decode/rangecoder.rs, `is_eof` and `is_finished_ok`: asking for the end changes nothing that counts.
use lzma_no_std_rs.Base.{ℕ, ◌≡◌, inl, inr, ◌==◌, Bool-cases, of_io, Post, Sum-cases}
use lzma_no_std_rs.Io.Interface.{BufRead}
use lzma_no_std_rs.Util
use lzma_no_std_rs.RangeDecoder.{RangeDecoder, is_eof, is_finished_ok}
use lzma_no_std_rs.RangeDecoder.Safe.{Ready}

module _ {R : Type 0} ⦃rd : BufRead R⦄ where
  -- A reader with the same rest of the input.
  same_input :
      (w : ℕ) (c : RangeDecoder R) (r : R)
      → Ready w c
      → rd.pending r ≡ rd.pending c.stream
      → Ready w (record c { stream = r })
  same_input w c r (v, wt) e = (
    record {
      enough = v.enough;
      range_fits = v.range_fits;
      code_fits = v.code_fits;
      input = rw e v.input;
    },
    rw e wt,
  )

  pub is_eof-Ready :
      (w : ℕ) (c : RangeDecoder R) → Ready w c → Post (λ _. Ready w) (Ready w) (is_eof c)
  unfolding is_eof Util.is_eof
  is_eof-Ready w c r =
      let kept = same_input w c (rd.fill_buf c.stream).1 r (rd.fill_buf_pending c.stream) in
      elim (Sum-cases (rd.fill_buf c.stream).0) [
        | inl (x, e) ↦ rw (e, of_io) kept
        | inr (bs, e) ↦ rw (e, of_io) kept
      ]

  pub is_finished_ok-Ready :
      (w : ℕ) (c : RangeDecoder R) → Ready w c → Post (λ _. Ready w) (Ready w) (is_finished_ok c)
  unfolding is_finished_ok
  is_finished_ok-Ready w c r = elim (Bool-cases (c.code == 0)) [
    | inl none_left ↦ rw none_left (is_eof-Ready w c r)
    | inr more ↦ rw more r
  ]
