-- ===== src/Roundtrip/Step.antt =====
-- src/decode/lzma.rs, `process_next`: from the code of a byte, a step takes the byte and gives it to the
-- dictionary.
use lzma_no_std_rs.Base.{
  ℕ, ◌+◌, ◌^◌, ◌<◌, ◌≡◌, refl, sym, ap, subst, ◌≢◌, inl, inr, Bool, true, false, not, Option, List,
  [], ◌∷◌, ◌++◌, arith, ◌==◌, if◌then◌else◌, ==_iff, Bool-cases, length, set, take, All, low_bits,
  M, ◌>>◌, return, when, Post, next-Post, Post-mono, put_back-Post,
}
use lzma_no_std_rs.Base.{Post-ok}
use lzma_no_std_rs.Io.Interface.{BufRead, Write}
use lzma_no_std_rs.Io.Ext.Bytes.{IsByte}
use lzma_no_std_rs.LzBuffer
use lzma_no_std_rs.LzBuffer.{LzCircularBuffer, append_literal}
use lzma_no_std_rs.LzBuffer.Valid.{append_literal-room, append_literal-full}
use lzma_no_std_rs.LzBuffer.Copy.{Follows, append_literal-Follows, last_or-nth_last, Halted}
use lzma_no_std_rs.RangeDecoder.{RangeDecoder}
use lzma_no_std_rs.Lzma.State.{DecoderState, ProcessingStatus, continue, match_bit_at, get_params}
use lzma_no_std_rs.Lzma.Literal.{decode_literal}
use lzma_no_std_rs.Error.{Error}
use lzma_no_std_rs.Lzma.Step.{
  Session, on_output, update_decoder, after_literal, process_next, process_next_inner, literal_step,
}
use lzma_no_std_rs.Encode.RangeEncoder.Value.{IsPatient}
use lzma_no_std_rs.Roundtrip.Span.{Span, IsWide}
use lzma_no_std_rs.Roundtrip.Target.{Leads, after_bit-Leads}
use lzma_no_std_rs.Roundtrip.Decoding.{IsReliable, Tracks}
use lzma_no_std_rs.Roundtrip.Input.{
  Probs, AreProbs, match_code, literal_code_at, byte_code, match_code-IsCode,
  literal_code_at-IsCode,
}
use lzma_no_std_rs.Roundtrip.Decoder.{holding, prev_of, match_bit_at-Has, decode_literal-Has}

module _ {W : Type 0} ⦃wr : Write W⦄ (patient : IsPatient wr) (mem_limit : ℕ)
    (before : List ℕ) where
  append_literal-sure :
      (byte : ℕ) (h : List ℕ) (b : LzCircularBuffer) (w : W)
      → Follows mem_limit 4096 before h (b, w)
      → byte < 256
      → Post
          (λ _ u. Follows mem_limit 4096 before (h ++ byte ∷ []) u)
          (λ _. ⊥)
          (append_literal byte (b, w))
  append_literal-sure byte h b w f small =
      let done = append_literal-Follows mem_limit 4096 before byte h (b, w) f small in
      let X = Halted mem_limit 4096 before in
      elim (Bool-cases (b.cursor + 1 == 4096)) [
        | inl full ↦
            let e : b.cursor + 1 ≡ 4096 = (==_iff (b.cursor + 1) 4096).0 full in
            Post-ok _ X (λ _. ⊥) (append_literal byte (b, w)) _ _
              (append_literal-full mem_limit 4096 byte b w f.0 e
                (patient (take 4096 (set b.buf b.cursor byte)) w))
              done
        | inr room ↦
            let ne : b.cursor + 1 ≢ 4096 = ground (arith, room) in
            Post-ok _ X (λ _. ⊥) (append_literal byte (b, w)) _ _
              (append_literal-room mem_limit 4096 byte b w f.0 ne) done
      ]

no_match :
    {E A S : Type 0} (Q : A → S → Type 0) (is_match : Bool) (m n : M E S A) (s : S)
    → is_match ≡ false
    → Post Q (λ _. ⊥) (m s)
    → Post Q (λ _. ⊥) ((if not is_match then m else n) s)
no_match Q true m n s e h = cc
no_match Q false m n s e h = h

module _ {R W : Type 0} ⦃rd : BufRead R⦄ ⦃wr : Write W⦄ (reliable : IsReliable rd)
    (patient : IsPatient wr) (all : List ℕ) (bytes : All IsByte all) (size : Option ℕ)
    (d : DecoderState) (matches : List ℕ) (literals : List (List ℕ)) (mem_limit : ℕ)
    (before : List ℕ) where
  -- The decoder has the probabilities of a code and has put out the history.
  pub record IsAt (x : Span × Probs) (h : List ℕ) (u : RangeDecoder R × Session W) : Type 0 where
    pub buffer : LzCircularBuffer
    pub state : u.1.0 ≡ holding size d matches literals x.1 buffer
    pub tracks : Tracks reliable all bytes x.0 u.0
    pub follows : Follows mem_limit 4096 before h (buffer, u.1.1)

  abbrev pub Ends :
      Span × Probs → List ℕ → ℕ → ProcessingStatus → RangeDecoder R × Session W → Type 0
  Ends x h byte st u = (st ≡ continue) × IsAt x (h ++ byte ∷ []) u

  -- The end of `literal_step`.
  abbrev put_out : ℕ → M Error (RangeDecoder R × Session W) ProcessingStatus
  put_out byte = do
    when true do
      on_output (LzBuffer.append_literal byte)
      update_decoder (λ d. record d { state = after_literal d.state })
    return continue

  put_out-Ends :
      (x : Span × Probs) (h : List ℕ) (byte : ℕ) (b : LzCircularBuffer) (w : W) (c : RangeDecoder R)
      → Follows mem_limit 4096 before h (b, w)
      → byte < 256
      → Tracks reliable all bytes x.0 c
      → Post (Ends x h byte) (λ _. ⊥) (put_out byte (c, (holding size d matches literals x.1 b, w)))
  put_out-Ends x h byte b w c f small track =
      let s0 : RangeDecoder R × Session W = (c, (holding size d matches literals x.1 b, w)) in
      let Q : Unit {0} → RangeDecoder R × Session W → Type 0 = λ _ v. IsAt x (h ++ byte ∷ []) v in
      next-Post Q (Ends x h byte) (λ _. ⊥) _ _
        (next-Post Q Q (λ _. ⊥) _ _
          (put_back-Post Q (λ _. ⊥) (λ b s. (s.0, (record s.1.0 { output = b.0 }, b.1))) s0
            (append_literal byte (b, w))
            (Post-mono _ _ (λ _. ⊥) _ (append_literal byte (b, w))
              (append_literal-sure patient mem_limit before byte h b w f small)
              (λ _ v q. record { buffer = v.0; state = refl; tracks = track; follows = q })
              (λ _ z. z)))
          (λ _ v q. record {
            buffer = q.buffer;
            state = ap (λ (d : DecoderState). record d { state = after_literal d.state }) q.state;
            tracks = q.tracks;
            follows = q.follows;
          }))
        (λ _ v q. (refl, q))

  literal_step-IsAt :
      (h : List ℕ) (byte : ℕ) (b : LzCircularBuffer) (w : W) (s : Span) (t : Probs)
      (c : RangeDecoder R)
      → Follows mem_limit 4096 before h (b, w)
      → length h < 2 ^ 64
      → prev_of h < 256
      → byte < 256
      → IsWide s
      → AreProbs t
      → Leads all (literal_code_at (prev_of h) byte (s, t)).0
      → Tracks reliable all bytes s c
      → Post
          (Ends (literal_code_at (prev_of h) byte (s, t)) h byte)
          (λ _. ⊥)
          (literal_step true (c, (holding size d matches literals t b, w)))
  unfolding literal_step
  literal_step-IsAt h byte b w s t c f inside low small wide good lead track =
      let x = literal_code_at (prev_of h) byte (s, t) in
      let s0 : RangeDecoder R × Session W = (c, (holding size d matches literals t b, w)) in
      next-Post
        (λ a u.
          (a ≡ byte)
          × Tracks reliable all bytes x.0 u.0
          × (u.1 ≡ (holding size d matches literals x.1 b, w)))
        _ (λ _. ⊥) _ _
        (put_back-Post _ _ (λ u s'. (u.0, (u.1, s'.1.1))) s0
          (decode_literal true (c, holding size d matches literals t b))
          (Post-mono _ _ (λ _. ⊥) _ (decode_literal true (c, holding size d matches literals t b))
            (decode_literal-Has reliable all bytes size d matches literals (prev_of h) byte b s t c
              (last_or-nth_last mem_limit 4096 before 0 h (b, w) inside f) low small wide good lead
              track)
            (λ _ u q. (q.0, q.1, ap (λ y. (y, w)) q.2)) (λ _ z. z)))
        (λ a u q.
          subst (λ y. Post (Ends x h byte) (λ _. ⊥) (put_out y u)) (sym q.0)
            (subst (λ y. Post (Ends x h byte) (λ _. ⊥) (put_out byte (u.0, y))) (sym q.2)
              (put_out-Ends x h byte b w u.0 f small q.1)))

  pub process_next-IsAt :
      (h : List ℕ) (byte : ℕ) (s : Span) (t : Probs) (u : RangeDecoder R × Session W)
      → length h < 2 ^ 64
      → prev_of h < 256
      → byte < 256
      → IsWide s
      → AreProbs t
      → Leads all (byte_code (length h) (prev_of h) byte (s, t)).0
      → IsAt (s, t) h u
      → Post (Ends (byte_code (length h) (prev_of h) byte (s, t)) h byte) (λ _. ⊥) (process_next u)
  unfolding process_next process_next_inner get_params
  process_next-IsAt h byte s t u inside low small wide good lead at =
      let b : LzCircularBuffer = at.buffer in
      let w : W = u.1.1 in
      let len : b.len ≡ length h = omega (arith, at.follows.1.counted, inside) in
      let x = match_code (length h) false (s, t) in
      let first = match_code-IsCode (length h) false in
      let second = literal_code_at-IsCode (prev_of h) byte low small in
      let wide' : IsWide x.0 = first.wide s t wide good in
      let good' : AreProbs x.1 = first.tables s t wide good in
      let lead' : Leads all x.0 =
        second.back (Leads all) x.0 x.1 (after_bit-Leads all bytes) wide' good' lead in
      let Q = Ends (byte_code (length h) (prev_of h) byte (s, t)) h byte in
      let place : 0 + low_bits b.len 2 ≡ low_bits (length h) 2 = omega (arith, len) in
      let Q1 : Bool → RangeDecoder R × Session W → Type 0 = λ a v.
        (a ≡ false)
        × Tracks reliable all bytes x.0 v.0
        × (v.1 ≡ (holding size d matches literals x.1 b, w)) in
      subst (λ y. Post Q (λ _. ⊥) (process_next (u.0, (y, w)))) (sym at.state)
        (rw place (
          next-Post Q1 Q (λ _. ⊥) _ _
            (put_back-Post Q1 (λ _. ⊥) (λ v s'. (v.0, (v.1, s'.1.1)))
              (u.0, (holding size d matches literals t b, w))
              (match_bit_at (low_bits (length h) 2) true (u.0, holding size d matches literals t b))
              (Post-mono _ _ (λ _. ⊥) _
                (match_bit_at (low_bits (length h) 2) true
                  (u.0, holding size d matches literals t b))
                (match_bit_at-Has reliable all bytes size d matches literals (length h) b s t u.0
                  wide good lead' at.tracks)
                (λ _ v q. (q.0, q.1, ap (λ y. (y, w)) q.2)) (λ _ z. z)))
            (λ a v q. no_match Q a (literal_step true) _ v q.0 (
              subst (λ y. Post Q (λ _. ⊥) (literal_step true (v.0, y))) (sym q.2)
                (literal_step-IsAt h byte b w x.0 x.1 v.0 at.follows inside low small wide' good'
                  lead q.1)))))
