-- ===== src/Lzma/Step/Sound.antt =====
-- src/decode/lzma.rs, `process_next_inner` with update: no panic, and the invariant of the decoder is kept.
use lzma_no_std_rs.Base.{
  ℕ, zero, suc, ◌+◌, ◌^◌, ◌<◌, ◌≡◌, refl, ◌∙◌, inl, inr, Bool, true, false, ◌&&◌, not, List, arith,
  ◌==◌, if◌then◌else◌, Bool-cases, length, get_or, set, length-set, usize, shl, M, ◌>>=◌, ◌>>◌,
  when, return, relabel, next-Post, Post-mono, put_back-Post, relabel-Post,
}
use lzma_no_std_rs.Io.Interface.{BufRead, Write}
use lzma_no_std_rs.Error.{Error, io_error}
use lzma_no_std_rs.LzBuffer
use lzma_no_std_rs.LzBuffer.Keep.{append_literal-ReadyOn, append_lz-ReadyOn}
use lzma_no_std_rs.RangeDecoder.{RangeDecoder, is_finished_ok}
use lzma_no_std_rs.RangeDecoder.Safe.{Ready}
use lzma_no_std_rs.RangeDecoder.End.{is_finished_ok-Ready}
use lzma_no_std_rs.RangeDecoder.Sound.{Any}
use lzma_no_std_rs.Lzma.Params.{LzmaParams}
use lzma_no_std_rs.Lzma.State.{
  DecoderState, ProcessingStatus, continue, finished, read_len, read_rep_len, rep_g0_bit_at,
  rep_g1_bit_at, rep_g2_bit_at, rep_0long_bit_at,
}
use lzma_no_std_rs.Lzma.State.Valid.{IsTaken, IsWell}
use lzma_no_std_rs.Lzma.Literal.{decode_literal}
use lzma_no_std_rs.Lzma.Literal.Sound.{decode_literal-Sound}
use lzma_no_std_rs.Lzma.Distance.{decode_distance}
use lzma_no_std_rs.Lzma.Distance.Sound.{decode_distance-Sound}
use lzma_no_std_rs.Lzma.Step.{
  Session, on_decoder, update_decoder, on_output, after_literal, after_short_rep, after_rep,
  after_match, move_to_front, shift_rep, make_room, copy_match, literal_step, short_rep_step,
  long_rep_step, rep_index, rep_step, end_step, match_step,
}
use lzma_no_std_rs.Lzma.Step.Goes.{
  Left, Goes, >>=-Goes, if-Goes, when-Goes, on_decoder-Goes, update_decoder-Goes, on_output-Goes,
}
use lzma_no_std_rs.Lzma.Step.Select.{
  read_len-Sound, read_rep_len-Sound, rep_g0_bit_at-Sound, rep_g1_bit_at-Sound, rep_g2_bit_at-Sound,
  rep_0long_bit_at-Sound,
}

after_literal-fits : (state : ℕ) → state < 12 → after_literal state < 12
after_literal-fits state h = ground arith

after_short_rep-fits : (state : ℕ) → after_short_rep state < 12
after_short_rep-fits state = ground arith

after_rep-fits : (state : ℕ) → after_rep state < 12
after_rep-fits state = ground arith

after_match-fits : (state : ℕ) → after_match state < 12
after_match-fits state = ground arith

two_or_three : (b : Bool) → (if b then 3 else 2) < 4
two_or_three true = omega arith
two_or_three false = omega arith

module _ (mem_limit d probs_mem_limit : ℕ) (p : LzmaParams) (t : DecoderState)
    (v : IsWell mem_limit d probs_mem_limit p t) where
  with_state :
      (state : ℕ) → state < 12 → IsWell mem_limit d probs_mem_limit p (record t { state = state })
  with_state state h = record {
    params = v.params;
    buffer = v.buffer;
    state = h;
    rep = v.rep;
    initialized = v.initialized;
    tables = v.tables;
  }

  with_rep :
      (rep : List ℕ)
      → length rep ≡ 4
      → IsWell mem_limit d probs_mem_limit p (record t { rep = rep })
  with_rep rep h = record {
    params = v.params;
    buffer = v.buffer;
    state = v.state;
    rep = h;
    initialized = v.initialized;
    tables = v.tables;
  }

  with_finished : IsWell mem_limit d probs_mem_limit p (record t { processing_status = finished })
  with_finished = record {
    params = v.params;
    buffer = v.buffer;
    state = v.state;
    rep = v.rep;
    initialized = λ e. cc;
    tables = v.tables;
  }

length-make_room : (rep : List ℕ) → length (make_room rep) ≡ length rep
unfolding make_room
length-make_room rep =
    let third = set rep 3 (get_or rep 2 0) in
    let second = set third 2 (get_or third 1 0) in
    length-set second 1 (get_or second 0 0)
    ∙ length-set third 2 (get_or third 1 0)
    ∙ length-set rep 3 (get_or rep 2 0)

length-shift_rep : (idx : ℕ) (rep : List ℕ) → length (shift_rep idx rep) ≡ length rep
unfolding shift_rep
length-shift_rep zero rep = refl
length-shift_rep (suc i) rep =
    length-shift_rep i (set rep (suc i) (get_or rep i 0)) ∙ length-set rep (suc i) (get_or rep i 0)

length-move_to_front : (idx : ℕ) (rep : List ℕ) → length (move_to_front idx rep) ≡ length rep
unfolding move_to_front
length-move_to_front idx rep =
    length-set (shift_rep idx rep) 0 (get_or rep idx 0) ∙ length-shift_rep idx rep

module _ {R W : Type 0} ⦃rd : BufRead R⦄ ⦃wr : Write W⦄ (w mem_limit d probs_mem_limit : ℕ)
    (p : LzmaParams) where
  abbrev Steps : M Error (RangeDecoder R × Session W) ProcessingStatus → Type 0
  Steps m = Goes w mem_limit d probs_mem_limit p Any m

  append_lz-Goes :
      (len distance : ℕ)
      → Goes {R = R} {W = W} w mem_limit d probs_mem_limit p Any
          (on_output (LzBuffer.append_lz len distance))
  append_lz-Goes len distance =
      on_output-Goes w mem_limit d probs_mem_limit p (LzBuffer.append_lz len distance)
        (append_lz-ReadyOn mem_limit d len distance)

  -- `if update { .. }`
  updates-Goes :
      (update : Bool) (f : DecoderState → DecoderState)
      → ((t : DecoderState)
          → IsWell mem_limit d probs_mem_limit p t
          → IsWell mem_limit d probs_mem_limit p (f t))
      → Goes {R = R} {W = W} w mem_limit d probs_mem_limit p Any (when update (update_decoder f))
  updates-Goes update f h =
      when-Goes w mem_limit d probs_mem_limit p update (update_decoder f)
        (update_decoder-Goes w mem_limit d probs_mem_limit p f h)

  set_state-Goes :
      (update : Bool) (f : ℕ → ℕ)
      → ((state : ℕ) → state < 12 → f state < 12)
      → Goes {R = R} {W = W} w mem_limit d probs_mem_limit p Any
          (when update (update_decoder (λ t. record t { state = f t.state })))
  set_state-Goes update f h =
      updates-Goes update (λ t. record t { state = f t.state })
        (λ t v. with_state mem_limit d probs_mem_limit p t v (f t.state) (h t.state v.state))

  pub literal_step-Goes : (update : Bool) → IsTaken probs_mem_limit p → Steps (literal_step update)
  unfolding literal_step
  literal_step-Goes update taken =
      >>=-Goes w mem_limit d probs_mem_limit p (λ byte. byte < 256) Any
        (on_decoder (decode_literal update)) _
        (on_decoder-Goes w mem_limit d probs_mem_limit p (λ byte. byte < 256)
          (decode_literal update)
          (decode_literal-Sound w mem_limit d probs_mem_limit p update taken))
        λ byte fits.
          >>=-Goes w mem_limit d probs_mem_limit p Any Any _ (λ _. return continue)
            (when-Goes w mem_limit d probs_mem_limit p update _ (
              >>=-Goes w mem_limit d probs_mem_limit p Any Any
                (on_output (LzBuffer.append_literal byte))
                (λ _. update_decoder (λ t. record t { state = after_literal t.state }))
                (on_output-Goes w mem_limit d probs_mem_limit p (LzBuffer.append_literal byte)
                  (λ b v. append_literal-ReadyOn mem_limit d byte b v fits))
                (λ _ _. set_state-Goes true after_literal after_literal-fits)))
            (λ _ _ s r v. (r, v, tt))

  copy_match-Goes : (len : ℕ) (update : Bool) → Steps (copy_match len update)
  unfolding copy_match
  copy_match-Goes len update =
      >>=-Goes w mem_limit d probs_mem_limit p Any Any _ (λ _. return continue)
        (when-Goes w mem_limit d probs_mem_limit p update _
          (λ s r v. append_lz-Goes (usize (len + 2)) (usize (get_or s.1.0.rep 0 0 + 1)) s r v))
        (λ _ _ s r v. (r, v, tt))

  short_rep_step-Goes : (update : Bool) → Steps (short_rep_step update)
  unfolding short_rep_step
  short_rep_step-Goes update =
      >>=-Goes w mem_limit d probs_mem_limit p Any Any _ (λ _. return continue)
        (when-Goes w mem_limit d probs_mem_limit p update _ (λ s r v.
          let t : DecoderState = record s.1.0 { state = after_short_rep s.1.0.state } in
          append_lz-Goes 1 (usize (get_or s.1.0.rep 0 0 + 1)) (s.0, (t, s.1.1)) r
            (with_state mem_limit d probs_mem_limit p s.1.0 v (after_short_rep s.1.0.state)
              (after_short_rep-fits s.1.0.state))))
        (λ _ _ s r v. (r, v, tt))

  long_rep_step-Goes :
      (pos_state : ℕ) (update : Bool) → pos_state < 16 → Steps (long_rep_step pos_state update)
  unfolding long_rep_step
  long_rep_step-Goes pos_state update below =
      >>=-Goes w mem_limit d probs_mem_limit p (λ len. len < 272) Any
        (on_decoder (read_rep_len pos_state update)) _
        (on_decoder-Goes w mem_limit d probs_mem_limit p (λ len. len < 272)
          (read_rep_len pos_state update)
          (read_rep_len-Sound w mem_limit d probs_mem_limit p pos_state update below))
        λ len fits.
          >>=-Goes w mem_limit d probs_mem_limit p Any Any
            (when update (update_decoder (λ t. record t { state = after_rep t.state })))
            (λ _. copy_match len update)
            (set_state-Goes update after_rep (λ state h. after_rep-fits state))
            (λ _ _. copy_match-Goes len update)

  rep_index-Goes :
      (update : Bool)
      → Goes {R = R} {W = W} w mem_limit d probs_mem_limit p (λ idx. idx < 4) (rep_index update)
  unfolding rep_index
  rep_index-Goes update s r v =
      >>=-Goes w mem_limit d probs_mem_limit p Any (λ idx. idx < 4)
        (on_decoder (rep_g1_bit_at s.1.0.state update)) _
        (on_decoder-Goes w mem_limit d probs_mem_limit p Any (rep_g1_bit_at s.1.0.state update)
          (rep_g1_bit_at-Sound w mem_limit d probs_mem_limit p s.1.0.state update v.state))
        (λ g1 _.
          if-Goes w mem_limit d probs_mem_limit p (λ idx. idx < 4) (not g1) _ _
            (λ s r v. (r, v, omega arith))
            (>>=-Goes w mem_limit d probs_mem_limit p Any (λ idx. idx < 4)
              (on_decoder (rep_g2_bit_at s.1.0.state update)) _
              (on_decoder-Goes w mem_limit d probs_mem_limit p Any
                (rep_g2_bit_at s.1.0.state update)
                (rep_g2_bit_at-Sound w mem_limit d probs_mem_limit p s.1.0.state update v.state))
              (λ g2 _ s r v. (r, v, two_or_three g2))))
        s r v

  end_step-Goes : Steps end_step
  unfolding end_step
  end_step-Goes s r v =
      next-Post (λ _ u. Ready w u.0 × IsWell mem_limit d probs_mem_limit p u.1.0) _
        (Left w mem_limit d probs_mem_limit p) _ _
        (put_back-Post (λ _ u. Ready w u.0 × IsWell mem_limit d probs_mem_limit p u.1.0)
          (Left w mem_limit d probs_mem_limit p) (λ c s. (c, s.1)) s
          (relabel io_error (is_finished_ok s.0))
          (relabel-Post _ _ io_error (is_finished_ok s.0) (
            Post-mono (λ _. Ready w) _ (Ready w) _ (is_finished_ok s.0)
              (is_finished_ok-Ready w s.0 r) (λ _ c q. (q, v)) (λ c q. tt))))
        (λ at_end u q. elim (Bool-cases at_end) [
          | inl over ↦ rw over (q.0, with_finished mem_limit d probs_mem_limit p u.1.0 q.1, tt)
          | inr more ↦ rw more tt
        ])

  -- From the distance on.
  abbrev distance_step : ℕ → Bool → M Error (RangeDecoder R × Session W) ProcessingStatus
  distance_step len update = on_decoder (decode_distance len update) >>= λ rep_0.
      when update (update_decoder (λ t. record t { rep = set t.rep 0 rep_0 }))
      >> (if update && (rep_0 == 0xFFFF_FFFF) then end_step else copy_match len update)

  distance_step-Goes : (len : ℕ) (update : Bool) → Steps (distance_step len update)
  distance_step-Goes len update =
      >>=-Goes w mem_limit d probs_mem_limit p (λ v. v < 2 ^ 32) Any
        (on_decoder (decode_distance len update)) _
        (on_decoder-Goes w mem_limit d probs_mem_limit p (λ v. v < 2 ^ 32)
          (decode_distance len update)
          (decode_distance-Sound w mem_limit d probs_mem_limit p len update))
        λ rep_0 _.
          >>=-Goes w mem_limit d probs_mem_limit p Any Any
            (when update (update_decoder (λ t. record t { rep = set t.rep 0 rep_0 })))
            (λ _. if update && (rep_0 == 0xFFFF_FFFF) then end_step else copy_match len update)
            (updates-Goes update (λ t. record t { rep = set t.rep 0 rep_0 })
              (λ t v.
                with_rep mem_limit d probs_mem_limit p t v (set t.rep 0 rep_0)
                  (length-set t.rep 0 rep_0 ∙ v.rep)))
            (λ _ _.
              if-Goes w mem_limit d probs_mem_limit p Any (update && (rep_0 == 0xFFFF_FFFF))
                end_step (copy_match len update) end_step-Goes (copy_match-Goes len update))

  pub match_step-Goes :
      (pos_state : ℕ) (update : Bool) → pos_state < 16 → Steps (match_step pos_state update)
  unfolding match_step
  match_step-Goes pos_state update below =
      >>=-Goes w mem_limit d probs_mem_limit p Any Any
        (when update (update_decoder (λ t. record t { rep = make_room t.rep }))) _
        (updates-Goes update (λ t. record t { rep = make_room t.rep })
          (λ t v.
            with_rep mem_limit d probs_mem_limit p t v (make_room t.rep)
              (length-make_room t.rep ∙ v.rep)))
        λ _ _.
          >>=-Goes w mem_limit d probs_mem_limit p (λ len. len < 272) Any
            (on_decoder (read_len pos_state update)) _
            (on_decoder-Goes w mem_limit d probs_mem_limit p (λ len. len < 272)
              (read_len pos_state update)
              (read_len-Sound w mem_limit d probs_mem_limit p pos_state update below))
            λ len fits.
              >>=-Goes w mem_limit d probs_mem_limit p Any Any
                (when update (update_decoder (λ t. record t { state = after_match t.state })))
                (λ _. distance_step len update)
                (set_state-Goes update after_match (λ state h. after_match-fits state))
                (λ _ _. distance_step-Goes len update)

  pub rep_step-Goes :
      (pos_state : ℕ) (update : Bool) → pos_state < 16 → Steps (rep_step pos_state update)
  unfolding rep_step
  rep_step-Goes pos_state update below s r v =
      let i : ℕ = usize (shl s.1.0.state 4) + pos_state in
      >>=-Goes w mem_limit d probs_mem_limit p Any Any
        (on_decoder (rep_g0_bit_at s.1.0.state update)) _
        (on_decoder-Goes w mem_limit d probs_mem_limit p Any (rep_g0_bit_at s.1.0.state update)
          (rep_g0_bit_at-Sound w mem_limit d probs_mem_limit p s.1.0.state update v.state))
        (λ g0 _.
          if-Goes w mem_limit d probs_mem_limit p Any (not g0) _ _
            (>>=-Goes w mem_limit d probs_mem_limit p Any Any
              (on_decoder (rep_0long_bit_at i update)) _
              (on_decoder-Goes w mem_limit d probs_mem_limit p Any (rep_0long_bit_at i update) (
                rep_0long_bit_at-Sound w mem_limit d probs_mem_limit p i update
                  (omega (arith, below, v.state))))
              (λ long _.
                if-Goes w mem_limit d probs_mem_limit p Any (not long) _ _
                  (short_rep_step-Goes update) (long_rep_step-Goes pos_state update below)))
            (>>=-Goes w mem_limit d probs_mem_limit p (λ idx. idx < 4) Any (rep_index update) _
              (rep_index-Goes update)
              (λ idx fits.
                >>=-Goes w mem_limit d probs_mem_limit p Any Any
                  (when update (update_decoder (λ t. record t { rep = move_to_front idx t.rep })))
                  (λ _. long_rep_step pos_state update)
                  (updates-Goes update (λ t. record t { rep = move_to_front idx t.rep })
                    (λ t v.
                      with_rep mem_limit d probs_mem_limit p t v (move_to_front idx t.rep)
                        (length-move_to_front idx t.rep ∙ v.rep)))
                  (λ _ _. long_rep_step-Goes pos_state update below))))
        s r v
