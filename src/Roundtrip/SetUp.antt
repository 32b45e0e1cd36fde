-- ===== src/Roundtrip/SetUp.antt =====
-- src/lib.rs: the decoder of one call, with the parameters of the encoder.
use lzma_no_std_rs.Base.{
  ℕ, ◌-◌, ◌≤◌, ◌≡◌, refl, sym, ap, ◌∙◌, subst, false, some, List, ◌++◌, arith, ltb, replicate, ok,
  ◌>>◌, put_back, Post,
}
use lzma_no_std_rs.Base.{replicate_add}
use lzma_no_std_rs.Io.Cursor as Cursor
use lzma_no_std_rs.Error.{Error}
use lzma_no_std_rs.LzBuffer
use lzma_no_std_rs.LzBuffer.{LzCircularBuffer, write_out, set_dict_size}
use lzma_no_std_rs.Lzma.Params.{LzmaParams}
use lzma_no_std_rs.Lzma.State as State
use lzma_no_std_rs.Lzma.State.{DecoderState}
use lzma_no_std_rs.Lzma.State.Reset.{fresh, reset-fresh, new-IsShaped}
use lzma_no_std_rs.Roundtrip.Input.{start_probs}
use lzma_no_std_rs.Roundtrip.Decoder.{holding, params_of}

-- The decoder that has the parameters of the encoder.
module _ (mem_limit probs_mem_limit n : ℕ) where
  abbrev pub dictionary : LzCircularBuffer
  dictionary = record (LzBuffer.new mem_limit) { dict_size = some 4096 }

  abbrev pub base_state : DecoderState
  base_state = fresh mem_limit probs_mem_limit

  abbrev pub other_matches : List ℕ
  other_matches = replicate 188 0x400

  abbrev pub other_literals : List (List ℕ)
  other_literals = replicate (probs_mem_limit - 8) (replicate 0x300 0x400)

  abbrev pub ready_state : DecoderState
  ready_state = holding (some n) base_state other_matches other_literals start_probs dictionary

  pub nothing_kept : base_state.partial_input_buf.pos ≡ 0
  unfolding Cursor.new
  nothing_kept = refl

  set_up-ready :
      {S : Type 0} (s : S)
      → 4096 ≤ mem_limit
      → 8 ≤ probs_mem_limit
      → Post
          (λ t u. (t ≡ ready_state) × (u ≡ s))
          (λ _. ⊥)
          (put_back {E = Error}
            (λ _ s. s)
            s
            ((State.reset
                >> State.set_params mem_limit probs_mem_limit (params_of (some n))
                >> (λ d. (ok d, d)))
              (State.new mem_limit probs_mem_limit)))
  unfolding State.set_params set_dict_size
  set_up-ready s room probs =
      let literals : replicate probs_mem_limit (replicate 0x300 0x400)
          ≡ start_probs.1 ++ other_literals =
        ap (λ k. replicate k (replicate 0x300 0x400)) (omega (arith, probs))
        ∙ replicate_add 8 (probs_mem_limit - 8) (replicate 0x300 0x400) in
      let enough : ltb probs_mem_limit 8 ≡ false = ground (arith, probs) in
      let fits : ltb mem_limit 4096 ≡ false = ground (arith, room) in
      rw
        (
          reset-fresh mem_limit probs_mem_limit _ (new-IsShaped mem_limit probs_mem_limit),
          enough,
          fits,
        )
        (ap (λ l. record ready_state { literal_probs = l }) literals, refl)

  pub set_up-params :
      {S : Type 0} (s : S) (p : LzmaParams)
      → p ≡ params_of (some n)
      → 4096 ≤ mem_limit
      → 8 ≤ probs_mem_limit
      → Post
          (λ t u. (t ≡ ready_state) × (u ≡ s))
          (λ _. ⊥)
          (put_back {E = Error}
            (λ _ s. s)
            s
            ((State.reset >> State.set_params mem_limit probs_mem_limit p >> (λ d. (ok d, d)))
              (State.new mem_limit probs_mem_limit)))
  set_up-params s p is room probs =
      subst
        (λ p.
          Post (λ t u. (t ≡ ready_state) × (u ≡ s)) (λ _. ⊥)
            (put_back {E = Error} (λ _ s. s) s
              ((State.reset >> State.set_params mem_limit probs_mem_limit p >> (λ d. (ok d, d)))
                (State.new mem_limit probs_mem_limit))))
        (sym is) (set_up-ready s room probs)
