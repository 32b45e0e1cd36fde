-- ===== src/Lzma/Step/Safe.antt =====
-- src/decode/lzma.rs, `process_next_inner`: the branch of a copy, a repeat or a new match.
use lzma_no_std_rs.Base.{Bool}
use lzma_no_std_rs.Base.{ℕ, ◌%◌, ◌^◌, ◌≤◌, ◌<◌, arith, if◌then◌else◌, low_bits, ◌>>=◌}
use native.Mathlib.Nat.{pow-le-pow_right, mod-lt}
use lzma_no_std_rs.Io.Interface.{BufRead, Write}
use lzma_no_std_rs.RangeDecoder.Trees.{pow-pos}
use lzma_no_std_rs.RangeDecoder.Sound.{Any}
use lzma_no_std_rs.Lzma.Params.{LzmaParams}
use lzma_no_std_rs.Lzma.State.{rep_bit_at}
use lzma_no_std_rs.Lzma.State.Valid.{IsTaken}
use lzma_no_std_rs.Lzma.Step.{on_decoder, rep_step, match_step}
use lzma_no_std_rs.Lzma.Step.Goes.{Goes, >>=-Goes, if-Goes, on_decoder-Goes}
use lzma_no_std_rs.Lzma.Step.Select.{rep_bit_at-Sound}
use lzma_no_std_rs.Lzma.Step.Sound.{rep_step-Goes, match_step-Goes}

pub pos_state-fits : (len pb : ℕ) → pb ≤ 4 → low_bits len pb < 16
pos_state-fits len pb h =
    let below : len % 2 ^ pb < 2 ^ pb = mod-lt len (pow-pos pb) in
    let few : 2 ^ pb ≤ 2 ^ 4 = pow-le-pow_right (omega arith) {i = pb} {j = 4} h in
    omega (arith, below, few)

module _ {R W : Type 0} ⦃rd : BufRead R⦄ ⦃wr : Write W⦄ (w mem_limit d probs_mem_limit : ℕ)
    (p : LzmaParams) (taken : IsTaken probs_mem_limit p) where
  -- A repeat or a new match.
  pub lz_step-Goes :
      (pos_state state : ℕ) (update : Bool)
      → pos_state < 16
      → state < 12
      → Goes {R = R} {W = W} w mem_limit d probs_mem_limit p Any (
          on_decoder (rep_bit_at state update) >>= λ is_rep.
          if is_rep then rep_step pos_state update else match_step pos_state update)
  lz_step-Goes pos_state state update below inside =
      >>=-Goes w mem_limit d probs_mem_limit p Any Any (on_decoder (rep_bit_at state update)) _
        (on_decoder-Goes w mem_limit d probs_mem_limit p Any (rep_bit_at state update)
          (rep_bit_at-Sound w mem_limit d probs_mem_limit p state update inside))
        (λ is_rep _.
          if-Goes w mem_limit d probs_mem_limit p Any is_rep (rep_step pos_state update)
            (match_step pos_state update)
            (rep_step-Goes w mem_limit d probs_mem_limit p pos_state update below)
            (match_step-Goes w mem_limit d probs_mem_limit p pos_state update below))
