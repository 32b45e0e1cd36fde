-- ===== src/Roundtrip/Loop.antt =====
-- src/decode/lzma.rs, `process`: from the code of an input, the loop takes byte after byte, up to the size.
use lzma_no_std_rs.Base.{
  ℕ, zero, suc, ◌+◌, ◌-◌, ◌*◌, ◌^◌, ◌<◌, ◌≡◌, refl, sym, ap, ap₂, ◌∙◌, subst, inr, true, false,
  some, List, [], ◌∷◌, ◌++◌, append-nil, append_assoc, arith, ltb, leb, ◌==◌, length, All,
  length-append, get_or-append_right, M, return, of_io, Post, next-Post, Post-mono,
}
use lzma_no_std_rs.Io.Interface.{BufRead, Write}
use lzma_no_std_rs.Io.Ext.Bytes.{IsByte}
use lzma_no_std_rs.Error.{Error}
use lzma_no_std_rs.LzBuffer.{LzCircularBuffer}
use lzma_no_std_rs.RangeDecoder.{RangeDecoder}
use lzma_no_std_rs.Lzma.State.{DecoderState, finish, get_params}
use lzma_no_std_rs.Lzma.Step.{Session, process_next}
use lzma_no_std_rs.Lzma.Process.{
  Round, again, break, return_ok, round, input_round, is_done, is_starved, process_loop,
  process_mode, process, check_size, after_step,
}
use lzma_no_std_rs.Encode.RangeEncoder.Value.{IsPatient}
use lzma_no_std_rs.Roundtrip.Span.{Span, IsWide}
use lzma_no_std_rs.Roundtrip.Target.{Leads, after_bit-Leads}
use lzma_no_std_rs.Roundtrip.Decoding.{IsReliable}
use lzma_no_std_rs.Roundtrip.Input.{
  Probs, AreProbs, byte_code, input_code, byte_code-IsCode, input_code-IsCode,
}
use lzma_no_std_rs.Roundtrip.Decoder.{holding, prev_of}
use lzma_no_std_rs.Roundtrip.Step.{IsAt, Ends, process_next-IsAt}

-- A reader that shows what it has.
abbrev pub IsOpenReader : {R : Type 0} → BufRead R → Type 0
IsOpenReader {R} rd = (r : R) → (bs : List ℕ) × ((rd.fill_buf r).0 ≡ inr bs)

prev_of_more : (h : List ℕ) (b : ℕ) → prev_of (h ++ b ∷ []) ≡ b
prev_of_more h b =
    let len : length (h ++ b ∷ []) ≡ length h + 1 = length-append h (b ∷ []) in
    let some_out : (length h + 1 == 0) ≡ false = ground arith in
    let last : length h + 1 - 1 ≡ length h + 0 = omega arith in
    rw (len, some_out, last) (get_or-append_right h (b ∷ []) 0 0)

module _ {R W : Type 0} ⦃rd : BufRead R⦄ ⦃wr : Write W⦄ (reliable : IsReliable rd)
    (open_ : IsOpenReader rd) (patient : IsPatient wr) (all : List ℕ) (bytes : All IsByte all)
    (n : ℕ) (d : DecoderState) (matches : List ℕ) (literals : List (List ℕ)) (mem_limit : ℕ)
    (before : List ℕ) (nothing_kept : d.partial_input_buf.pos ≡ 0) (inside : n < 2 ^ 64) where
  abbrev Stands : Span × Probs → List ℕ → RangeDecoder R × Session W → Type 0
  Stands x h u = IsAt reliable patient all bytes (some n) d matches literals mem_limit before x h u

  -- A reader that has shown what it has is as far as before.
  shown-Stands :
      (x : Span × Probs) (h : List ℕ) (c : RangeDecoder R) (y : Session W)
      → Stands x h (c, y)
      → Stands x h (record c { stream = (rd.fill_buf c.stream).1 }, y)
  shown-Stands x h c y at = record {
    buffer = at.buffer;
    state = at.state;
    tracks = record {
      range = at.tracks.range;
      value = at.tracks.value;
      rest = rd.fill_buf_pending c.stream ∙ at.tracks.rest;
    };
    follows = at.follows;
  }

  round-Stands :
      (h : List ℕ) (byte : ℕ) (s : Span) (t : Probs) (u : RangeDecoder R × Session W)
      → length h < n
      → prev_of h < 256
      → byte < 256
      → IsWide s
      → AreProbs t
      → Leads all (byte_code (length h) (prev_of h) byte (s, t)).0
      → Stands (s, t) h u
      → Post
          (λ r v.
            (r ≡ again) × Stands (byte_code (length h) (prev_of h) byte (s, t)) (h ++ byte ∷ []) v)
          (λ _. ⊥)
          (round finish (some n) u)
  unfolding round is_done input_round is_starved
  round-Stands h byte s t u more low small wide good lead at =
      let len : u.1.0.output.len ≡ length h =
        ap (λ (x : DecoderState). x.output.len) at.state
        ∙ omega (arith, at.follows.1.counted, more, inside) in
      let not_done : leb n u.1.0.output.len ≡ false = ground (arith, len, more) in
      let pos : u.1.0.partial_input_buf.pos ≡ 0 =
        ap (λ (x : DecoderState). x.partial_input_buf.pos) at.state ∙ nothing_kept in
      let none_kept : ltb 0 u.1.0.partial_input_buf.pos ≡ false = ground (arith, pos) in
      let x = byte_code (length h) (prev_of h) byte (s, t) in
      let got = open_ u.0.stream in
      rw (not_done, none_kept, got.1, of_io)
        (next-Post
          (Ends reliable patient all bytes (some n) d matches literals mem_limit before x h byte) _
          (λ _. ⊥) (process_next (record u.0 { stream = (rd.fill_buf u.0.stream).1 }, u.1)) _
          (process_next-IsAt reliable patient all bytes (some n) d matches literals mem_limit before
            h byte s t (record u.0 { stream = (rd.fill_buf u.0.stream).1 }, u.1)
            (omega (arith, more, inside)) low small wide good lead
            (shown-Stands (s, t) h u.0 u.1 at))
          (λ st v q. (ap after_step q.0, q.1)))

  -- The loop behind a round.
  abbrev go_on : ℕ → Round → M Error (RangeDecoder R × Session W) Round
  go_on fuel r = elim r [
    | again ↦ process_loop fuel finish (some n)
    | break ↦ return break
    | return_ok ↦ return return_ok
  ]

  process_loop-Stands :
      (rest : List ℕ) (fuel : ℕ) (h : List ℕ) (s : Span) (t : Probs)
      (u : RangeDecoder R × Session W)
      → length rest < fuel
      → n ≡ length h + length rest
      → prev_of h < 256
      → All IsByte rest
      → IsWide s
      → AreProbs t
      → Leads all (input_code (length h) (prev_of h) rest (s, t)).0
      → Stands (s, t) h u
      → Post
          (λ r v.
            (r ≡ break) × Stands (input_code (length h) (prev_of h) rest (s, t)) (h ++ rest) v)
          (λ _. ⊥)
          (process_loop fuel finish (some n) u)
  unfolding process_loop round is_done
  process_loop-Stands rest zero h s t u few sum low small wide good lead at =
      absurd (omega (arith, few))
  process_loop-Stands [] (suc fuel) h s t u few sum low small wide good lead at =
      let len : u.1.0.output.len ≡ length h =
        ap (λ (x : DecoderState). x.output.len) at.state
        ∙ omega (arith, at.follows.1.counted, sum, inside) in
      let done : leb n u.1.0.output.len ≡ true = ground (arith, len, sum) in
      rw done (refl, subst (λ l. Stands (s, t) l u) (sym (append-nil h)) at)
  process_loop-Stands (b ∷ rest) (suc fuel) h s t u few sum low small wide good lead at =
      let x = byte_code (length h) (prev_of h) b (s, t) in
      let c = byte_code-IsCode (length h) (prev_of h) b low small.0 in
      let wide' : IsWide x.0 = c.wide s t wide good in
      let good' : AreProbs x.1 = c.tables s t wide good in
      let later = input_code-IsCode (length h + 1) b rest small.0 small.1 in
      let lead' : Leads all x.0 =
        later.back (Leads all) x.0 x.1 (after_bit-Leads all bytes) wide' good' lead in
      let h' : List ℕ = h ++ b ∷ [] in
      let len : length h' ≡ length h + 1 = length-append h (b ∷ []) in
      let prev : prev_of h' ≡ b = prev_of_more h b in
      let same : input_code (length h') (prev_of h') rest x ≡ input_code (length h + 1) b rest x =
        ap₂ (λ i p. input_code i p rest x) len prev in
      let Q : Round → RangeDecoder R × Session W → Type 0 =
        λ r v. (r ≡ break) × Stands (input_code (length h + 1) b rest x) (h ++ b ∷ rest) v in
      next-Post (λ r v. (r ≡ again) × Stands x h' v) Q (λ _. ⊥) (round finish (some n) u)
        (go_on fuel) (round-Stands h b s t u (omega (arith, sum)) low small.0 wide good lead' at)
        (λ r v q.
          subst (λ r. Post Q (λ _. ⊥) (go_on fuel r v)) (sym q.0)
            (Post-mono _ Q (λ _. ⊥) (λ _. ⊥) (process_loop fuel finish (some n) v)
              (process_loop-Stands rest fuel h' x.0 x.1 v (omega (arith, few))
                (omega (arith, sum, len)) (rw prev small.0) small.1 wide' good'
                (subst (λ y. Leads all y.0) (sym same) lead) q.1)
              (λ r' v' k. (
                k.0,
                subst (λ l. Stands (input_code (length h + 1) b rest x) l v')
                    (append_assoc h (b ∷ []) rest) (subst (λ y. Stands y (h' ++ rest) v') same k.1),
              ))
              (λ _ z. z)))

  after_break :
      (Q : RangeDecoder R × Session W → Type 0) (r : Round) (v : RangeDecoder R × Session W)
      → r ≡ break
      → v.1.0.output.len ≡ n
      → Q v
      → Post
          (λ _. Q)
          (λ _. ⊥)
          ((elim r as (λ _. M Error (RangeDecoder R × Session W) (Unit {0})) [
            | return_ok ↦ return tt
            | _ ↦ check_size finish (some n)
          ])
            v)
  unfolding check_size
  after_break Q again v e len h = cc
  after_break Q return_ok v e len h = cc
  after_break Q break v e len h =
      let same : (n == v.1.0.output.len) ≡ true = ground (arith, len) in rw same h

  pub process-Stands :
      (rest : List ℕ) (s : Span) (t : Probs) (u : RangeDecoder R × Session W)
      → n ≡ length rest
      → n < 2 ^ 32
      → All IsByte rest
      → IsWide s
      → AreProbs t
      → Leads all (input_code 0 0 rest (s, t)).0
      → Stands (s, t) [] u
      → Post (λ _ v. Stands (input_code 0 0 rest (s, t)) rest v) (λ _. ⊥) (process u)
  unfolding process process_mode get_params
  process-Stands rest s t u sum few small wide good lead at =
      let b : LzCircularBuffer = at.buffer in
      let Q : RangeDecoder R × Session W → Type 0 =
        λ v. Stands (input_code 0 0 rest (s, t)) rest v in
      let u' : RangeDecoder R × Session W =
        (u.0, (holding (some n) d matches literals t b, u.1.1)) in
      let at' : Stands (s, t) [] u' = record {
        buffer = b;
        state = refl;
        tracks = at.tracks;
        follows = at.follows;
      } in
      let fuel : length rest
          < (length (rd.pending u.0.stream) + d.partial_input_buf.pos + 1) * 2 ^ 32 =
        omega (arith, sum, few) in
      subst (λ y. Post (λ _. Q) (λ _. ⊥) (process (u.0, (y, u.1.1)))) (sym at.state)
        (next-Post (λ r v. (r ≡ break) × Stands (input_code 0 0 rest (s, t)) rest v) _ (λ _. ⊥) _ _
          (process_loop-Stands rest _ [] s t u' fuel (omega (arith, sum)) (omega arith) small wide
            good lead at')
          (λ r v q.
            after_break Q r v q.0
              (ap (λ (x : DecoderState). x.output.len) q.1.state
                ∙ omega (arith, q.1.follows.1.counted, sum, inside))
              q.1))
