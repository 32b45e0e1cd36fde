-- ===== src/Lzma/Step/Progress.antt =====
-- src/decode/lzma.rs, `process_next`: the first bit of a step, `is_match`, takes range or a byte.
use lzma_no_std_rs.Base.{
  ℕ, ◌+◌, ◌<◌, ◌≡◌, ◌∙◌, refl, Bool, true, not, List, length, All, arith, usize, shl, low_bits,
  map_err, Post, Post-mono, next-Post, put_back-Post, relabel-Post, at_elem, at_elem-Post,
}
use lzma_no_std_rs.Io.Interface.{BufRead, Write}
use lzma_no_std_rs.Error.{io_error}
use lzma_no_std_rs.RangeDecoder.{RangeDecoder, decode_bit, decode_bit_at}
use lzma_no_std_rs.RangeDecoder.Safe.{IsCoder, IsProb, Ready, HasInput, weight, decode_bit-Post}
use lzma_no_std_rs.RangeDecoder.Trees.{IsTable, ReadyAt, FailedAt}
use lzma_no_std_rs.RangeDecoder.Sound.{Any}
use lzma_no_std_rs.Lzma.Params.{LzmaParams}
use lzma_no_std_rs.Lzma.State.{DecoderState, get_params, match_bit_at}
use lzma_no_std_rs.Lzma.State.Valid.{IsTaken, IsWell, with_tables}
use lzma_no_std_rs.Lzma.Literal.{on_state}
use lzma_no_std_rs.Lzma.Literal.Sound.{on_state-Sound, get_params-Views}
use lzma_no_std_rs.Lzma.Step.{Session, on_decoder, literal_step, process_next_inner, process_next}
use lzma_no_std_rs.Lzma.Step.Goes.{GoesTo, Left, if-Goes, on_decoder-Goes}
use lzma_no_std_rs.Lzma.Step.Sound.{literal_step-Goes}
use lzma_no_std_rs.Lzma.Step.Safe.{pos_state-fits, lz_step-Goes}

module _ {R : Type 0} ⦃rd : BufRead R⦄ where
  decode_bit_at_lem :
      (n i : ℕ) (update : Bool) (s : RangeDecoder R × List ℕ)
      → IsCoder s.0
      → IsTable n s.1
      → i < n
      → Post (λ _. ReadyAt (weight s.0) n) (FailedAt n) (decode_bit_at i update s)
  unfolding decode_bit_at
  decode_bit_at_lem n i update s c t below =
      Post-mono
        (λ _ u. Unit {0} × Ready (weight s.0) u.0 × All IsProb u.1 × (length u.1 ≡ length s.1)) _
        (λ u. HasInput u.0 × All IsProb u.1 × (length u.1 ≡ length s.1)) _
        (at_elem i (decode_bit update) s)
        (at_elem-Post (Ready (weight s.0)) HasInput IsProb (λ _. Unit {0}) i (decode_bit update) s
          t.0 (omega (arith, below, t.1))
          (λ p prob.
            Post-mono _ _ _ _ (decode_bit update (s.0, p)) (decode_bit-Post update s.0 p c prob)
              (λ b u a. (tt, a.0, a.1)) (λ u a. a)))
        (λ b u a. (a.1, (a.2, a.3 ∙ t.1))) (λ u a. (a.0, (a.1, a.2 ∙ t.1)))

  match_bit_at_lem :
      (mem_limit d probs_mem_limit : ℕ) (p : LzmaParams) (i : ℕ) (update : Bool)
      (s : RangeDecoder R × DecoderState)
      → IsCoder s.0
      → IsWell mem_limit d probs_mem_limit p s.1
      → i < 192
      → Post
          (λ _ u. Ready (weight s.0) u.0 × IsWell mem_limit d probs_mem_limit p u.1)
          (λ _. Unit {0})
          (match_bit_at i update s)
  unfolding match_bit_at
  match_bit_at_lem mem_limit d probs_mem_limit p i update s c h below =
      put_back-Post (λ _ u. Ready (weight s.0) u.0 × IsWell mem_limit d probs_mem_limit p u.1)
        (λ _. Unit {0}) (λ u s'. (u.0, record s'.1 { is_match = u.1 })) s
        (map_err io_error (decode_bit_at i update) (s.0, s.1.is_match))
        (relabel-Post _ _ io_error (decode_bit_at i update (s.0, s.1.is_match)) (
          Post-mono (λ _. ReadyAt (weight s.0) 192) _ (FailedAt 192) _
            (decode_bit_at i update (s.0, s.1.is_match))
            (decode_bit_at_lem 192 i update (s.0, s.1.is_match) c h.tables.4 below)
            (λ b u q. (
              q.0,
              with_tables mem_limit d probs_mem_limit p s.1 h (record s.1 { is_match = u.1 }) refl
                  refl refl refl refl
                  (
                    h.tables.0, h.tables.1, h.tables.2, h.tables.3, q.1, h.tables.5, h.tables.6,
                    h.tables.7, h.tables.8, h.tables.9, h.tables.10, h.tables.11,
                  ),
            ))
            (λ u q. tt)))

module _ {R W : Type 0} ⦃rd : BufRead R⦄ ⦃wr : Write W⦄ (mem_limit d probs_mem_limit : ℕ)
    (p : LzmaParams) (taken : IsTaken probs_mem_limit p) where
  select_match :
      (w i : ℕ) (update : Bool) (s : RangeDecoder R × Session W)
      → Ready (1 + w) s.0
      → IsWell mem_limit d probs_mem_limit p s.1.0
      → i < 192
      → Post
          (GoesTo w mem_limit d probs_mem_limit p Any)
          (Left w mem_limit d probs_mem_limit p)
          (on_decoder (match_bit_at i update) s)
  select_match w i update s r v below =
      put_back-Post (GoesTo w mem_limit d probs_mem_limit p Any)
        (Left w mem_limit d probs_mem_limit p) (λ u s'. (u.0, (u.1, s'.1.1))) s
        (match_bit_at i update (s.0, s.1.0))
        (Post-mono (λ _ u. Ready (weight s.0) u.0 × IsWell mem_limit d probs_mem_limit p u.1) _
          (λ _. Unit {0}) _ (match_bit_at i update (s.0, s.1.0))
          (match_bit_at_lem mem_limit d probs_mem_limit p i update (s.0, s.1.0) r.0 v below)
          (λ b u q. ((q.0.0, omega (arith, q.0.1, r.1)), q.1, tt)) (λ u q. tt))

  -- The same with update and without.
  pub process_next_inner-Post :
      (update : Bool) (s : RangeDecoder R × Session W)
      → IsCoder s.0
      → IsWell mem_limit d probs_mem_limit p s.1.0
      → Post
          (λ _ u.
            IsCoder u.0 × (weight u.0 < weight s.0) × IsWell mem_limit d probs_mem_limit p u.1.0)
          (λ _. Unit {0})
          (process_next_inner update s)
  unfolding process_next_inner
  process_next_inner-Post update s c v =
      let w : ℕ = weight s.0 in
      Post-mono (GoesTo w mem_limit d probs_mem_limit p Any) _
        (Left w mem_limit d probs_mem_limit p) _ (process_next_inner update s)
        (next-Post (GoesTo (1 + w) mem_limit d probs_mem_limit p (λ q. q ≡ p))
          (GoesTo w mem_limit d probs_mem_limit p Any) (Left w mem_limit d probs_mem_limit p)
          (on_decoder (on_state get_params) s) _
          (on_decoder-Goes (1 + w) mem_limit d probs_mem_limit p (λ q. q ≡ p) (on_state get_params)
            (on_state-Sound (1 + w) mem_limit d probs_mem_limit p (λ q. q ≡ p) get_params
              (get_params-Views mem_limit d probs_mem_limit p))
            s (c, omega arith) v)
          (λ params u q.
            let pos_state : ℕ = low_bits u.1.0.output.len params.pb in
            let few : pos_state < 16 =
              rw q.2 (pos_state-fits u.1.0.output.len p.pb taken.pb_fits) in
            let state : u.1.0.state < 12 = q.1.state in
            let i : ℕ = usize (shl u.1.0.state 4) + pos_state in
            next-Post (GoesTo w mem_limit d probs_mem_limit p Any)
              (GoesTo w mem_limit d probs_mem_limit p Any) (Left w mem_limit d probs_mem_limit p)
              (on_decoder (match_bit_at i update) u) _
              (select_match w i update u q.0 q.1 (omega (arith, few, state)))
              (λ is_match t r.
                if-Goes w mem_limit d probs_mem_limit p Any (not is_match) (literal_step update) _
                  (literal_step-Goes w mem_limit d probs_mem_limit p update taken)
                  (lz_step-Goes w mem_limit d probs_mem_limit p taken pos_state u.1.0.state update
                    few state)
                  t r.0 r.1)))
        (λ a u q. (q.0.0, q.0.1, q.1)) (λ u q. tt)

  -- On a decoder whose parameters are those of a header with room for their probabilities, whose
  -- tables have their sizes, whose state is below 12, which keeps four last distances and whose
  -- buffer is ready, and a range decoder as decode_bit wants it, a step of the decoder (literal,
  -- match, repeat or end marker) does not panic; unless it fails, all of this holds again after it,
  -- and the weight (2 ^ 32 for each byte left, plus the range) is smaller.
  pub process_next-Post :
      (s : RangeDecoder R × Session W)
      → IsCoder s.0
      → IsWell mem_limit d probs_mem_limit p s.1.0
      → Post
          (λ _ u.
            IsCoder u.0 × (weight u.0 < weight s.0) × IsWell mem_limit d probs_mem_limit p u.1.0)
          (λ _. Unit {0})
          (process_next s)
  unfolding process_next
  process_next-Post s = process_next_inner-Post true s
