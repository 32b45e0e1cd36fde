-- ===== src/Lzma/Process/Total.antt =====
-- src/decode/lzma.rs, `process_mode`: the loop comes to its end, and does not panic.
use lzma_no_std_rs.Base.{
  ℕ, zero, suc, ◌<◌, ◌≡◌, refl, sym, ap, subst, ◌≢◌, inl, inr, Option, none, some, arith, ◌==◌,
  ==_iff, Bool-cases, M, ◌>>◌, return, panics, expect, Post, next-Post,
}
use lzma_no_std_rs.Io.Interface.{BufRead, Write}
use lzma_no_std_rs.Error.{Error}
use lzma_no_std_rs.RangeDecoder.{RangeDecoder}
use lzma_no_std_rs.Lzma.Params.{LzmaParams}
use lzma_no_std_rs.Lzma.State.{
  ProcessingMode, partial, finish, get_params, ProcessingStatus, uninitialized, continue, finished,
}
use lzma_no_std_rs.Lzma.State.Valid.{IsTaken}
use lzma_no_std_rs.Lzma.Literal.{on_state}
use lzma_no_std_rs.Lzma.Step.{Session, on_decoder}
use lzma_no_std_rs.Lzma.Process.{
  Round, again, break, return_ok, round, process_loop, check_size, fuel_for, process_mode,
}
use lzma_no_std_rs.Lzma.Process.Valid.{IsRunning, measure, IsSized}
use lzma_no_std_rs.Lzma.Process.Rounds.{AfterRound, round-Post}

module _ {R W : Type 0} ⦃rd : BufRead R⦄ ⦃wr : Write W⦄ (mem_limit d probs_mem_limit : ℕ)
    (p : LzmaParams) (taken : IsTaken probs_mem_limit p) where
  abbrev Runs : RangeDecoder R × Session W → Type 0
  Runs s = IsRunning mem_limit d probs_mem_limit p s

  -- How the loop ends.
  abbrev Ends : ProcessingMode → Round → RangeDecoder R × Session W → Type 0
  Ends mode r u = Runs u × (r ≡ return_ok → mode ≡ partial)

  -- The loop from the end of a round on.
  after_round :
      (fuel : ℕ) (mode : ProcessingMode) (size : Option ℕ) (s : RangeDecoder R × Session W)
      → ((u : RangeDecoder R × Session W)
          → measure u < measure s
          → Runs u
          → Post (Ends mode) (λ _. Unit {0}) (process_loop fuel mode size u))
      → (r : Round) (u : RangeDecoder R × Session W)
      → AfterRound mem_limit d probs_mem_limit p taken mode s r u
      → Post
          (Ends mode)
          (λ _. Unit {0})
          ((elim r as (λ _. M Error (RangeDecoder R × Session W) Round) [
            | again ↦ process_loop fuel mode size
            | break ↦ return break
            | return_ok ↦ return return_ok
          ])
            u)
  after_round fuel mode size s loop again u q = loop u (q.1 refl) q.0
  after_round fuel mode size s loop break u q = (q.0, q.2)
  after_round fuel mode size s loop return_ok u q = (q.0, q.2)

  process_loop-Post :
      (fuel : ℕ) (mode : ProcessingMode) (size : Option ℕ) (s : RangeDecoder R × Session W)
      → measure s < fuel
      → Runs s
      → Post (Ends mode) (λ _. Unit {0}) (process_loop fuel mode size s)
  unfolding process_loop
  process_loop-Post zero mode size s low v = absurd (omega (arith, low))
  process_loop-Post (suc fuel) mode size s low v =
      next-Post (AfterRound mem_limit d probs_mem_limit p taken mode s) (Ends mode) (λ _. Unit {0})
        (round mode size s) _ (round-Post mem_limit d probs_mem_limit p taken mode size s v)
        (after_round fuel mode size s
          (λ u less w. process_loop-Post fuel mode size u (omega (arith, low, less)) w))

  check_size-Post :
      (mode : ProcessingMode) (size : Option ℕ) (s : RangeDecoder R × Session W)
      → Runs s
      → Post (λ _ u. Runs u × IsSized mode size u) (λ _. Unit {0}) (check_size mode size s)
  unfolding check_size
  check_size-Post partial size s v = (v, tt)
  check_size-Post finish none s v = (v, tt)
  check_size-Post finish (some n) s v = elim (Bool-cases (n == s.1.0.output.len)) [
    | inl same ↦ rw same (v, sym ((==_iff n s.1.0.output.len).0 same))
    | inr other ↦ rw other tt
  ]

  fuel_lem : (s : RangeDecoder R × Session W) → Runs s → measure s < fuel_for s
  fuel_lem s v = omega (arith, v.coder.range_fits)

  params-Post :
      (s : RangeDecoder R × Session W) (o : Option LzmaParams)
      → o ≡ some p
      → Post (λ q u. (q ≡ p) × (u ≡ s)) (λ _. Unit {0}) (on_decoder (on_state (λ t. expect o t)) s)
  params-Post s none e = cc
  params-Post s (some q) e = (cc, refl)

  -- A decoder that was reset.
  initialized-Post :
      (status : ProcessingStatus) (rest : M Error (RangeDecoder R × Session W) (Unit {0}))
      (s : RangeDecoder R × Session W) (Q : RangeDecoder R × Session W → Type 0)
      → status ≢ uninitialized
      → Post (λ _. Q) (λ _. Unit {0}) (rest s)
      → Post
          (λ _. Q)
          (λ _. Unit {0})
          (((elim status [ uninitialized ↦ panics | _ ↦ return tt ]) >> rest) s)
  initialized-Post uninitialized rest s Q h k = absurd (h refl)
  initialized-Post continue rest s Q h k = k
  initialized-Post finished rest s Q h k = k

  after_loop :
      (mode : ProcessingMode) (size : Option ℕ) (r : Round) (u : RangeDecoder R × Session W)
      → Ends mode r u
      → Post
          (λ _ t. Runs t × IsSized mode size t)
          (λ _. Unit {0})
          ((elim r as (λ _. M Error (RangeDecoder R × Session W) (Unit {0})) [
            | return_ok ↦ return tt
            | _ ↦ check_size mode size
          ])
            u)
  after_loop mode size again u v = check_size-Post mode size u v.0
  after_loop mode size break u v = check_size-Post mode size u v.0
  after_loop partial size return_ok u v = (v.0, tt)
  after_loop finish size return_ok u v = absurd (early (v.1 refl))
    where
      early : finish ≡ partial → ⊥
      early h = cc

  -- In both modes, on a decoder as a step wants it, with its 20 kept bytes in place and a range
  -- decoder as decode_bit wants it, process_mode comes to an end within its fuel and does not
  -- panic, look ahead and kept bytes included; if it returns, all of this holds again, and in the
  -- mode that ends the input a known unpacked size is the size of the output.
  pub process_mode-Post :
      (mode : ProcessingMode) (s : RangeDecoder R × Session W)
      → IsRunning mem_limit d probs_mem_limit p s
      → Post
          (λ _ u. IsRunning mem_limit d probs_mem_limit p u × IsSized mode p.unpacked_size u)
          (λ _. Unit {0})
          (process_mode mode s)
  unfolding process_mode get_params
  process_mode-Post mode s v =
      let Q = λ (u : RangeDecoder R × Session W). Runs u × IsSized mode p.unpacked_size u in
      initialized-Post s.1.0.processing_status _ s Q v.well.initialized (
        next-Post (λ q u. (q ≡ p) × (u ≡ s)) (λ _. Q) (λ _. Unit {0})
          (on_decoder (on_state get_params) s) _ (params-Post s s.1.0.params v.well.params)
          (λ params u e.
            next-Post (Ends mode) (λ _. Q) (λ _. Unit {0})
              (process_loop (fuel_for u) mode params.unpacked_size u) _
              (process_loop-Post (fuel_for u) mode params.unpacked_size u
                (fuel_lem u (subst Runs (sym e.1) v)) (subst Runs (sym e.1) v))
              (λ r t w.
                subst
                  (λ n.
                    Post (λ _ t. Runs t × IsSized mode n t) (λ _. Unit {0})
                      ((elim r as (λ _. M Error (RangeDecoder R × Session W) (Unit {0})) [
                        | return_ok ↦ return tt
                        | _ ↦ check_size mode params.unpacked_size
                      ])
                        t))
                  (ap (λ (x : LzmaParams). x.unpacked_size) e.0)
                  (after_loop mode params.unpacked_size r t w))))
