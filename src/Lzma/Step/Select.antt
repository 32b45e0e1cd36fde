-- ===== src/Lzma/Step/Select.antt =====
-- src/decode/lzma.rs, `process_next_inner`: the bits that select a branch, and the lengths.
use lzma_no_std_rs.Base.{ℕ, ◌<◌, refl, Bool, List, map_err}
use lzma_no_std_rs.Io.Interface.{BufRead}
use lzma_no_std_rs.Error.{io_error}
use lzma_no_std_rs.RangeDecoder.{decode_bit_at}
use lzma_no_std_rs.RangeDecoder.Trees.{IsTable}
use lzma_no_std_rs.RangeDecoder.Sound.{
  Any, Sound, map_err-Sound, on_field-Sound, decode_bit_at-Sound,
}
use lzma_no_std_rs.RangeDecoder.LenDecoder
use lzma_no_std_rs.RangeDecoder.LenDecoder.Sound.{IsLen, decode-Sound}
use lzma_no_std_rs.Lzma.Params.{LzmaParams}
use lzma_no_std_rs.Lzma.State.{
  DecoderState, bit_of, match_bit_at, rep_bit_at, rep_g0_bit_at, rep_g1_bit_at, rep_g2_bit_at,
  rep_0long_bit_at, read_len, read_rep_len,
}
use lzma_no_std_rs.Lzma.State.Valid.{IsWell, with_tables}

module _ {R : Type 0} ⦃rd : BufRead R⦄ (w mem_limit d probs_mem_limit : ℕ) (p : LzmaParams) where
  -- A bit of a table of `n` places.
  bit_of-Sound :
      (n : ℕ) (get : DecoderState → List ℕ) (put : List ℕ → DecoderState → DecoderState) (i : ℕ)
      (update : Bool)
      → ((t : DecoderState) → IsWell mem_limit d probs_mem_limit p t → IsTable n (get t))
      → ((t : DecoderState) (u : List ℕ)
          → IsWell mem_limit d probs_mem_limit p t
          → IsTable n u
          → IsWell mem_limit d probs_mem_limit p (put u t))
      → i < n
      → Sound w (IsWell mem_limit d probs_mem_limit p) Any (bit_of {R = R} get put i update)
  bit_of-Sound n get put i update of back below =
      on_field-Sound w (IsWell mem_limit d probs_mem_limit p) (IsTable n) Any get put
        (map_err io_error (decode_bit_at i update)) of back
        (map_err-Sound w (IsTable n) Any io_error (decode_bit_at i update)
          (decode_bit_at-Sound w n i update below))

  pub match_bit_at-Sound :
      (i : ℕ) (update : Bool)
      → i < 192
      → Sound w (IsWell mem_limit d probs_mem_limit p) Any (match_bit_at {R = R} i update)
  unfolding match_bit_at
  match_bit_at-Sound i update =
      bit_of-Sound 192 (λ t. t.is_match) (λ u t. record t { is_match = u }) i update
        (λ t h. h.tables.4)
        (λ t u h q.
          with_tables mem_limit d probs_mem_limit p t h (record t { is_match = u }) refl refl refl
            refl refl
            (
              h.tables.0, h.tables.1, h.tables.2, h.tables.3, q, h.tables.5, h.tables.6, h.tables.7,
              h.tables.8, h.tables.9, h.tables.10, h.tables.11,
            ))

  pub rep_bit_at-Sound :
      (i : ℕ) (update : Bool)
      → i < 12
      → Sound w (IsWell mem_limit d probs_mem_limit p) Any (rep_bit_at {R = R} i update)
  unfolding rep_bit_at
  rep_bit_at-Sound i update =
      bit_of-Sound 12 (λ t. t.is_rep) (λ u t. record t { is_rep = u }) i update (λ t h. h.tables.5)
        (λ t u h q.
          with_tables mem_limit d probs_mem_limit p t h (record t { is_rep = u }) refl refl refl
            refl refl
            (
              h.tables.0, h.tables.1, h.tables.2, h.tables.3, h.tables.4, q, h.tables.6, h.tables.7,
              h.tables.8, h.tables.9, h.tables.10, h.tables.11,
            ))

  pub rep_g0_bit_at-Sound :
      (i : ℕ) (update : Bool)
      → i < 12
      → Sound w (IsWell mem_limit d probs_mem_limit p) Any (rep_g0_bit_at {R = R} i update)
  unfolding rep_g0_bit_at
  rep_g0_bit_at-Sound i update =
      bit_of-Sound 12 (λ t. t.is_rep_g0) (λ u t. record t { is_rep_g0 = u }) i update
        (λ t h. h.tables.6)
        (λ t u h q.
          with_tables mem_limit d probs_mem_limit p t h (record t { is_rep_g0 = u }) refl refl refl
            refl refl
            (
              h.tables.0, h.tables.1, h.tables.2, h.tables.3, h.tables.4, h.tables.5, q, h.tables.7,
              h.tables.8, h.tables.9, h.tables.10, h.tables.11,
            ))

  pub rep_g1_bit_at-Sound :
      (i : ℕ) (update : Bool)
      → i < 12
      → Sound w (IsWell mem_limit d probs_mem_limit p) Any (rep_g1_bit_at {R = R} i update)
  unfolding rep_g1_bit_at
  rep_g1_bit_at-Sound i update =
      bit_of-Sound 12 (λ t. t.is_rep_g1) (λ u t. record t { is_rep_g1 = u }) i update
        (λ t h. h.tables.7)
        (λ t u h q.
          with_tables mem_limit d probs_mem_limit p t h (record t { is_rep_g1 = u }) refl refl refl
            refl refl
            (
              h.tables.0, h.tables.1, h.tables.2, h.tables.3, h.tables.4, h.tables.5, h.tables.6, q,
              h.tables.8, h.tables.9, h.tables.10, h.tables.11,
            ))

  pub rep_g2_bit_at-Sound :
      (i : ℕ) (update : Bool)
      → i < 12
      → Sound w (IsWell mem_limit d probs_mem_limit p) Any (rep_g2_bit_at {R = R} i update)
  unfolding rep_g2_bit_at
  rep_g2_bit_at-Sound i update =
      bit_of-Sound 12 (λ t. t.is_rep_g2) (λ u t. record t { is_rep_g2 = u }) i update
        (λ t h. h.tables.8)
        (λ t u h q.
          with_tables mem_limit d probs_mem_limit p t h (record t { is_rep_g2 = u }) refl refl refl
            refl refl
            (
              h.tables.0, h.tables.1, h.tables.2, h.tables.3, h.tables.4, h.tables.5, h.tables.6,
              h.tables.7, q, h.tables.9, h.tables.10, h.tables.11,
            ))

  pub rep_0long_bit_at-Sound :
      (i : ℕ) (update : Bool)
      → i < 192
      → Sound w (IsWell mem_limit d probs_mem_limit p) Any (rep_0long_bit_at {R = R} i update)
  unfolding rep_0long_bit_at
  rep_0long_bit_at-Sound i update =
      bit_of-Sound 192 (λ t. t.is_rep_0long) (λ u t. record t { is_rep_0long = u }) i update
        (λ t h. h.tables.9)
        (λ t u h q.
          with_tables mem_limit d probs_mem_limit p t h (record t { is_rep_0long = u }) refl refl
            refl refl refl
            (
              h.tables.0, h.tables.1, h.tables.2, h.tables.3, h.tables.4, h.tables.5, h.tables.6,
              h.tables.7, h.tables.8, q, h.tables.10, h.tables.11,
            ))

  pub read_len-Sound :
      (pos_state : ℕ) (update : Bool)
      → pos_state < 16
      → Sound w
          (IsWell mem_limit d probs_mem_limit p)
          (λ len. len < 272)
          (read_len {R = R} pos_state update)
  unfolding read_len
  read_len-Sound pos_state update below =
      on_field-Sound w (IsWell mem_limit d probs_mem_limit p) IsLen (λ len. len < 272)
        (λ t. t.len_decoder) (λ u t. record t { len_decoder = u })
        (map_err io_error (LenDecoder.decode pos_state update)) (λ t h. h.tables.10)
        (λ t u h q.
          with_tables mem_limit d probs_mem_limit p t h (record t { len_decoder = u }) refl refl
            refl refl refl
            (
              h.tables.0, h.tables.1, h.tables.2, h.tables.3, h.tables.4, h.tables.5, h.tables.6,
              h.tables.7, h.tables.8, h.tables.9, q, h.tables.11,
            ))
        (map_err-Sound w IsLen (λ len. len < 272) io_error (LenDecoder.decode pos_state update)
          (decode-Sound w pos_state update below))

  pub read_rep_len-Sound :
      (pos_state : ℕ) (update : Bool)
      → pos_state < 16
      → Sound w
          (IsWell mem_limit d probs_mem_limit p)
          (λ len. len < 272)
          (read_rep_len {R = R} pos_state update)
  unfolding read_rep_len
  read_rep_len-Sound pos_state update below =
      on_field-Sound w (IsWell mem_limit d probs_mem_limit p) IsLen (λ len. len < 272)
        (λ t. t.rep_len_decoder) (λ u t. record t { rep_len_decoder = u })
        (map_err io_error (LenDecoder.decode pos_state update)) (λ t h. h.tables.11)
        (λ t u h q.
          with_tables mem_limit d probs_mem_limit p t h (record t { rep_len_decoder = u }) refl refl
            refl refl refl
            (
              h.tables.0, h.tables.1, h.tables.2, h.tables.3, h.tables.4, h.tables.5, h.tables.6,
              h.tables.7, h.tables.8, h.tables.9, h.tables.10, q,
            ))
        (map_err-Sound w IsLen (λ len. len < 272) io_error (LenDecoder.decode pos_state update)
          (decode-Sound w pos_state update below))
