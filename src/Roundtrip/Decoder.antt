-- ===== src/Roundtrip/Decoder.antt =====
-- src/decode/lzma.rs: the bit of a literal and the literal, read from the code of a byte.
use lzma_no_std_rs.Base.{
  ℕ, ◌+◌, ◌<◌, ◌≡◌, ap, ◌∙◌, Bool, true, false, Option, none, some, List, [], ◌++◌, arith, ◌==◌,
  if◌then◌else◌, length, get_elem?, get_or, set, All, length-append, get_elem?-eq-get_or,
  get_or-append_left, shr, low_bits, ok, M, map_err, Post, next-Post, Post-mono, put_back-Post,
  relabel-Post,
}
use lzma_no_std_rs.Base.{at_elem, at_elem-run, set-append_left}
use lzma_no_std_rs.Io.Interface.{BufRead}
use lzma_no_std_rs.Io.Ext.Bytes.{IsByte}
use lzma_no_std_rs.Error.{Error, io_error}
use lzma_no_std_rs.LzBuffer
use lzma_no_std_rs.LzBuffer.{LzCircularBuffer}
use lzma_no_std_rs.LzBuffer.History.{nth_last}
use lzma_no_std_rs.RangeDecoder.{RangeDecoder, decode_bit, decode_bit_at}
use lzma_no_std_rs.RangeDecoder.Safe.{IsProb}
use lzma_no_std_rs.Lzma.Params.{LzmaParams}
use lzma_no_std_rs.Lzma.State.{DecoderState, continue, match_bit_at, get_params}
use lzma_no_std_rs.Lzma.Literal.{
  decode_literal, literal_bits, find_probs, read_match_byte, lit_state_of,
}
use lzma_no_std_rs.Roundtrip.Span.{Span, IsWide}
use lzma_no_std_rs.Roundtrip.Target.{Leads}
use lzma_no_std_rs.Roundtrip.Decoding.{IsReliable, Tracks}
use lzma_no_std_rs.Roundtrip.Reads.{Reads, decode_bit-Reads, map_err-Reads}
use lzma_no_std_rs.Roundtrip.Literal.{literal_code, literal_bits-Reads, IsLiteralTable}
use lzma_no_std_rs.Roundtrip.Code.{Code, bit_code, IsTable, at_code, element_fits}
use lzma_no_std_rs.Roundtrip.Input.{Probs, AreProbs, match_code, literal_code_at}

-- The parameters that the header of the encoder has.
abbrev pub params_of : Option ℕ → LzmaParams
params_of size = record { lc = 3; lp = 0; pb = 2; dict_size = 4096; unpacked_size = size }

-- The decoder among literals only: all of it but two tables and the dictionary stays as it is.
module _ (size : Option ℕ) (d : DecoderState) (matches : List ℕ) (literals : List (List ℕ)) where
  abbrev pub holding : Probs → LzCircularBuffer → DecoderState
  holding t b = record d {
    processing_status = continue;
    params = some (params_of size);
    state = 0;
    is_match = t.0 ++ matches;
    literal_probs = t.1 ++ literals;
    output = b;
  }

-- The byte before the next one.
abbrev pub prev_of : List ℕ → ℕ
prev_of h = if length h == 0 then 0 else nth_last h 1

module _ {R : Type 0} ⦃rd : BufRead R⦄ (reliable : IsReliable rd) (all : List ℕ)
    (bytes : All IsByte all) where
  -- An element of the front of a table.
  front-Reads :
      {E A T : Type 0} (OK : T → Type 0) (n i : ℕ) (x : T) (f : Code T) (v : A) (rest : List T)
      (m : M E (RangeDecoder R × T) A)
      → i < n
      → Reads reliable all bytes OK f v m
      → (s : Span) (ts : List T) (c : RangeDecoder R) → IsWide s
      → IsTable n OK ts
      → Leads all (at_code i x f (s, ts)).0
      → Tracks reliable all bytes s c
      → Post
          (λ a u.
            (a ≡ v)
            × Tracks reliable all bytes (at_code i x f (s, ts)).0 u.0
            × (u.1 ≡ (at_code i x f (s, ts)).1 ++ rest))
          (λ _. ⊥)
          (at_elem i m (c, ts ++ rest))
  front-Reads OK n i x f v rest m below r s ts c wide good h track =
      let at = element_fits OK n i x ts below good in
      let inside : i < length ts = omega (arith, below, good.0) in
      let there : get_elem? (ts ++ rest) i ≡ some (get_or ts i x) =
        get_elem?-eq-get_or (ts ++ rest) i x (omega (arith, inside, length-append ts rest))
        ∙ ap some (get_or-append_left ts rest i x inside) in
      at_elem-run _ _ i m (c, ts ++ rest) (get_or ts i x) there
        (Post-mono _ _ (λ _. ⊥) _ (m (c, get_or ts i x)) (r s (get_or ts i x) c wide at.1 h track)
          (λ _ u q.
            (q.0, q.1, set-append_left ts rest i u.1 inside ∙ ap (λ y. set ts i y ++ rest) q.2))
          (λ u z. z))

  module _ (size : Option ℕ) (d : DecoderState) (matches : List ℕ) (literals : List (List ℕ)) where
    abbrev state_of : Probs → LzCircularBuffer → DecoderState
    state_of = holding size d matches literals

    abbrev pub Has :
        {A : Type 0}
        → LzCircularBuffer
        → A
        → Span × Probs
        → A
        → RangeDecoder R × DecoderState
        → Type 0
    Has b v x a u = (a ≡ v) × Tracks reliable all bytes x.0 u.0 × (u.1 ≡ state_of x.1 b)

    pub match_bit_at-Has :
        (i : ℕ) (b : LzCircularBuffer) (s : Span) (t : Probs) (c : RangeDecoder R)
        → IsWide s
        → AreProbs t
        → Leads all (match_code i false (s, t)).0
        → Tracks reliable all bytes s c
        → Post
            (Has b false (match_code i false (s, t)))
            (λ _. ⊥)
            (match_bit_at (low_bits i 2) true (c, state_of t b))
    unfolding match_bit_at decode_bit_at
    match_bit_at-Has i b s t c wide good h track =
        let m : M Error (RangeDecoder R × List ℕ) Bool =
          map_err io_error (decode_bit_at (low_bits i 2) true) in
        put_back-Post _ _ (λ u s'. (u.0, record s'.1 { is_match = u.1 })) (c, state_of t b)
          (m (c, t.0 ++ matches))
          (relabel-Post _ _ io_error (decode_bit_at (low_bits i 2) true (c, t.0 ++ matches)) (
            Post-mono _ _ (λ _. ⊥) _ (decode_bit_at (low_bits i 2) true (c, t.0 ++ matches))
              (front-Reads IsProb 4 (low_bits i 2) 0 (bit_code false) false matches
                (decode_bit true) (omega arith) (decode_bit-Reads reliable all bytes false) s t.0 c
                wide good.0 h track)
              (λ _ u q. (q.0, q.1, ap (λ y. record (state_of t b) { is_match = y }) q.2))
              (λ _ z. z)))

    lit_state_lem :
        (len prev : ℕ) → prev < 256 → lit_state_of (params_of size) len prev ≡ shr prev 5
    lit_state_lem len prev low = omega arith

    pub decode_literal-Has :
        (prev byte : ℕ) (b : LzCircularBuffer) (s : Span) (t : Probs) (c : RangeDecoder R)
        → LzBuffer.last_or 0 b ≡ (ok prev, b)
        → prev < 256
        → byte < 256
        → IsWide s
        → AreProbs t
        → Leads all (literal_code_at prev byte (s, t)).0
        → Tracks reliable all bytes s c
        → Post
            (Has b byte (literal_code_at prev byte (s, t)))
            (λ _. ⊥)
            (decode_literal true (c, state_of t b))
    unfolding decode_literal get_params find_probs read_match_byte
    decode_literal-Has prev byte b s t c last low small wide good h track =
        let i : ℕ = shr prev 5 in
        let at = element_fits IsLiteralTable 8 i [] t.1 (omega (arith, low)) good.1 in
        let inside : i < length t.1 = omega (arith, low, good.1.0) in
        let there : get_elem? (t.1 ++ literals) i ≡ some (get_or t.1 i []) =
          get_elem?-eq-get_or (t.1 ++ literals) i []
            (omega (arith, inside, length-append t.1 literals))
          ∙ ap some (get_or-append_left t.1 literals i [] inside) in
        rw (last, lit_state_lem b.len prev low, there)
          (next-Post (Has b (0x100 + byte) (literal_code_at prev byte (s, t))) _ (λ _. ⊥) _ _
            (put_back-Post _ _ (λ u s'. (u.0, record s'.1 { literal_probs = u.1 }))
              (c, state_of t b)
              (at_elem i (map_err io_error (literal_bits true none)) (c, t.1 ++ literals))
              (Post-mono _ _ (λ _. ⊥) _
                (at_elem i (map_err io_error (literal_bits true none)) (c, t.1 ++ literals))
                (front-Reads IsLiteralTable 8 i [] (literal_code 8 byte) (0x100 + byte) literals
                  (map_err io_error (literal_bits true none)) (omega (arith, low))
                  (map_err-Reads reliable all bytes IsLiteralTable (literal_code 8 byte)
                    (0x100 + byte) io_error (literal_bits true none)
                    (literal_bits-Reads reliable all bytes byte small))
                  s t.1 c wide good.1 h track)
                (λ _ u q. (q.0, q.1, ap (λ y. record (state_of t b) { literal_probs = y }) q.2))
                (λ _ z. z)))
            (λ r u q. (omega (arith, q.0, small), q.1, q.2)))
