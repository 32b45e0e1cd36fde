-- ===== src/Lzma/Literal/Sound.antt =====
-- src/decode/lzma.rs, `decode_literal`: no panic, and a byte.
use lzma_no_std_rs.Base.{
  ℕ, ◌+◌, ◌-◌, ◌^◌, ◌<◌, ◌≡◌, refl, ap, inl, inr, Bool, Option, arith, leb, Bool-cases, get_or,
  All-get_elem?, u8, usize, Result, ok, err, panic, M, ◌>>=◌, return, put_back, map_err, Post,
  next-Post, Post-mono, put_back-Post,
}
use lzma_no_std_rs.Base.{at_elem}
use lzma_no_std_rs.Io.Interface.{BufRead}
use lzma_no_std_rs.Error.{Error, io_error}
use lzma_no_std_rs.LzBuffer
use lzma_no_std_rs.LzBuffer.{LzCircularBuffer}
use lzma_no_std_rs.LzBuffer.Read.{last_or-ReadFrom, last_n-ReadFrom}
use lzma_no_std_rs.RangeDecoder.{RangeDecoder}
use lzma_no_std_rs.RangeDecoder.Safe.{Ready, HasInput}
use lzma_no_std_rs.RangeDecoder.Trees.{IsTable}
use lzma_no_std_rs.RangeDecoder.Sound.{
  Any, Sound, >>=-Sound, return-Sound, map_err-Sound, on_field-Sound, at_elem-Sound,
}
use lzma_no_std_rs.Lzma.Params.{LzmaParams}
use lzma_no_std_rs.Lzma.State.{DecoderState, on_output, get_params}
use lzma_no_std_rs.Lzma.State.Valid.{IsTaken, IsWell, AreLiterals, with_tables}
use lzma_no_std_rs.Lzma.Literal.{
  on_state, find_probs, byte_back, read_match_byte, literal_bits, on_literal_probs, lit_state_of,
  decode_literal,
}
use lzma_no_std_rs.Lzma.Literal.Bits.{IsWhole, literal_bits-Sound}
use lzma_no_std_rs.Lzma.Literal.Place.{lit_state_of-fits}

-- A method that reads the decoder and leaves it as it was.
abbrev pub Views :
    {A : Type 0} → (A → Type 0) → DecoderState → Result Error A × DecoderState → Type 0
Views Q t = Post (λ a t'. Q a × (t' ≡ t)) (λ t'. t' ≡ t)

on_output-Views :
    {A : Type 0} (Q : A → Type 0) (t : DecoderState) (o : Result Error A × LzCircularBuffer)
    → Post (λ a b. Q a × (b ≡ t.output)) (λ b. b ≡ t.output) o
    → Views Q t (put_back {S = DecoderState} (λ b d. record d { output = b }) t o)
on_output-Views Q t (ok a, b) h = (h.0, ap (λ c. record t { output = c }) h.1)
on_output-Views Q t (err x, b) h = ap (λ c. record t { output = c }) h
on_output-Views Q t (panic, b) h = h

module _ (mem_limit d probs_mem_limit : ℕ) (p : LzmaParams) (t : DecoderState)
    (v : IsWell mem_limit d probs_mem_limit p t) where
  pub get_params-Views : Views (λ q. q ≡ p) t (get_params t)
  unfolding get_params
  get_params-Views = rw v.params (rw (← v.params) (refl, refl))

  last_byte-Views : Views (λ byte. byte < 256) t (on_output (LzBuffer.last_or 0) t)
  last_byte-Views =
      on_output-Views (λ byte. byte < 256) t (LzBuffer.last_or 0 t.output)
        (last_or-ReadFrom mem_limit d 0 t.output v.buffer (omega arith))

  find_probs-Views : (i : ℕ) → i < probs_mem_limit → Views Any t (find_probs i t)
  unfolding find_probs
  find_probs-Views i below =
      let found =
        All-get_elem? (IsTable 0x300) t.literal_probs i v.tables.0.0
          (omega (arith, below, v.tables.0.1)) in
      rw found.1 (tt, refl)

  read_match_byte-Views : Views Any t (read_match_byte t)
  unfolding read_match_byte byte_back
  read_match_byte-Views = elim (Bool-cases (leb 7 t.state)) [
    | inr plain ↦ rw plain (tt, refl)
    | inl matched ↦
        let distance : ℕ = usize (get_or t.rep 0 0 + 1) in
        rw matched (
          next-Post (λ byte t'. (byte < 256) × (t' ≡ t)) _ (λ t'. t' ≡ t)
            (on_output (LzBuffer.last_n distance) t) _
            (on_output-Views (λ byte. byte < 256) t (LzBuffer.last_n distance t.output)
              (last_n-ReadFrom mem_limit d distance t.output v.buffer))
            (λ byte t' h. (tt, h.1)))
  ]

module _ {R : Type 0} ⦃rd : BufRead R⦄ (w mem_limit d probs_mem_limit : ℕ) (p : LzmaParams) where
  pub on_state-Sound :
      {A : Type 0} (Q : A → Type 0) (m : M Error DecoderState A)
      → ((t : DecoderState) → IsWell mem_limit d probs_mem_limit p t → Views Q t (m t))
      → Sound {R = R} w (IsWell mem_limit d probs_mem_limit p) Q (on_state m)
  on_state-Sound Q m h s r v =
      let P : DecoderState → Type 0 = IsWell mem_limit d probs_mem_limit p in
      put_back-Post (λ a u. Ready w u.0 × P u.1 × Q a) (λ u. HasInput u.0 × P u.1) (λ t s. (s.0, t))
        s (m s.1)
        (Post-mono (λ a t'. Q a × (t' ≡ s.1)) _ (λ t'. t' ≡ s.1) _ (m s.1) (h s.1 v)
          (λ a t' q. (r, rw q.1 v, q.0)) (λ t' e. (r.0.input, rw e v)))

  on_literal_probs-Sound :
      (i : ℕ) (update : Bool) (matched : Option ℕ)
      → i < probs_mem_limit
      → Sound w
          (IsWell mem_limit d probs_mem_limit p)
          IsWhole
          (on_literal_probs {R = R} i (literal_bits update matched))
  on_literal_probs-Sound i update matched below =
      on_field-Sound w (IsWell mem_limit d probs_mem_limit p) (AreLiterals probs_mem_limit) IsWhole
        (λ t. t.literal_probs) (λ u t. record t { literal_probs = u })
        (at_elem i (map_err io_error (literal_bits update matched))) (λ t h. h.tables.0)
        (λ t u h q.
          let g = h.tables in
          with_tables mem_limit d probs_mem_limit p t h (record t { literal_probs = u }) refl refl
            refl refl refl (q, g.1, g.2, g.3, g.4, g.5, g.6, g.7, g.8, g.9, g.10, g.11))
        (at_elem-Sound w (IsTable 0x300) IsWhole probs_mem_limit i
          (map_err io_error (literal_bits update matched)) below
          (map_err-Sound w (IsTable 0x300) IsWhole io_error (literal_bits update matched)
            (literal_bits-Sound w update matched)))

  -- From the place of the literal state on.
  literal_at-Sound :
      (i : ℕ) (update : Bool)
      → i < probs_mem_limit
      → Sound w
          (IsWell mem_limit d probs_mem_limit p)
          (λ byte. byte < 256)
          (on_state {R = R} (find_probs i) >>= λ _. on_state {R = R} read_match_byte >>= λ matched.
            on_literal_probs {R = R} i (literal_bits update matched) >>= λ result.
            return (u8 (usize (result + 2 ^ 64 - 0x100))))
  literal_at-Sound i update below =
      let P : DecoderState → Type 0 = IsWell mem_limit d probs_mem_limit p in
      let Q : ℕ → Type 0 = λ byte. byte < 256 in
      let to_byte : ℕ → M Error (RangeDecoder R × DecoderState) ℕ =
        λ result. return (u8 (usize (result + 2 ^ 64 - 0x100))) in
      let bits : Option ℕ → M Error (RangeDecoder R × DecoderState) ℕ =
        λ matched. on_literal_probs i (literal_bits update matched) >>= to_byte in
      >>=-Sound w P Any Q (on_state (find_probs i)) (λ _. on_state read_match_byte >>= bits)
        (on_state-Sound Any (find_probs i)
          (λ t v. find_probs-Views mem_limit d probs_mem_limit p t v i below))
        λ found any.
          >>=-Sound w P Any Q (on_state read_match_byte) bits
            (on_state-Sound Any read_match_byte
              (read_match_byte-Views mem_limit d probs_mem_limit p))
            λ matched any'.
              >>=-Sound w P IsWhole Q (on_literal_probs i (literal_bits update matched)) to_byte
                (on_literal_probs-Sound i update matched below)
                (λ result whole.
                  return-Sound w Error P Q (u8 (usize (result + 2 ^ 64 - 0x100)))
                    (omega (arith, whole.0, whole.1)))

  pub decode_literal-Sound :
      (update : Bool)
      → IsTaken probs_mem_limit p
      → Sound w
          (IsWell mem_limit d probs_mem_limit p)
          (λ byte. byte < 256)
          (decode_literal {R = R} update)
  unfolding decode_literal
  decode_literal-Sound update taken =
      let P : DecoderState → Type 0 = IsWell mem_limit d probs_mem_limit p in
      let Q : ℕ → Type 0 = λ byte. byte < 256 in
      >>=-Sound w P (λ q. q ≡ p) Q (on_state get_params) _
        (on_state-Sound (λ q. q ≡ p) get_params (get_params-Views mem_limit d probs_mem_limit p))
        λ params same.
          >>=-Sound w P Q Q (on_state (on_output (LzBuffer.last_or 0))) _
            (on_state-Sound Q (on_output (LzBuffer.last_or 0))
              (last_byte-Views mem_limit d probs_mem_limit p))
            λ prev_byte byte s r v.
              literal_at-Sound (lit_state_of params s.1.output.len prev_byte) update
                (rw same (lit_state_of-fits probs_mem_limit s.1.output.len prev_byte p taken byte))
                s r v

  -- decode_literal does not panic and gives a byte if it returns; the decoder stays as
  -- wanted.
  pub decode_literal-Post :
      (update : Bool) (s : RangeDecoder R × DecoderState)
      → IsTaken probs_mem_limit p
      → Ready w s.0
      → IsWell mem_limit d probs_mem_limit p s.1
      → Post
          (λ byte u. Ready w u.0 × IsWell mem_limit d probs_mem_limit p u.1 × (byte < 256))
          (λ u. HasInput u.0 × IsWell mem_limit d probs_mem_limit p u.1)
          (decode_literal update s)
  decode_literal-Post update s taken r v = decode_literal-Sound update taken s r v
