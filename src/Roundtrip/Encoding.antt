-- ===== src/Roundtrip/Encoding.antt =====
-- src/encode/rangecoder.rs, `encode_bit`: the encoder is left with the part of the span that the bit has.
use lzma_no_std_rs.Base.{
  ℕ, suc, ◌+◌, ◌-◌, ◌*◌, ◌/◌, ◌^◌, ◌≤◌, ◌<◌, ◌≡◌, refl, sym, ap, ◌∙◌, subst, inl, inr, Bool, true,
  false, List, arith, ltb, ltb→lt, Bool-cases, u32, u64, shr, shl, ok, M, ◌>>◌, return, modify,
  Post, next-Post, Post-mono, put_back-Post,
}
use lzma_no_std_rs.Io.Interface.{IoError, Write}
use lzma_no_std_rs.RangeDecoder.Safe.{IsProb}
use lzma_no_std_rs.Encode.RangeEncoder.{
  RangeEncoder, write_low, normalize_loop, normalize, narrow, adapt, encode_bit,
}
use lzma_no_std_rs.Encode.RangeEncoder.Value.{IsPatient, Holds}
use lzma_no_std_rs.Encode.RangeEncoder.Shift.{Stands, Shifted, write_low-Post}
use lzma_no_std_rs.Roundtrip.Span.{
  Span, IsWide, IsOpen, bound, split, refill, refill_if, after_bit, bound-fits, split-IsOpen,
  split-count, learned, adapt-learned,
}

module _ {W : Type 0} ⦃wr : Write W⦄ where
  -- What is written and held back stands for the base of the span, whose range is that of the encoder.
  abbrev pub Encodes : List ℕ → Span → RangeEncoder W → Type 0
  Encodes before s e = Stands before s.base s.count s.range s.range e

  Holds-range :
      (before bs : List ℕ) (base count top r : ℕ) (e : RangeEncoder W)
      → Holds before bs base count top e
      → Holds before bs base count top (record e { range = r })
  Holds-range before bs base count top r e h = record {
    written = h.written;
    bytes = h.bytes;
    held = h.held;
    counted = h.counted;
    value = h.value;
    cache_fits = h.cache_fits;
    room = h.room;
    carry = h.carry;
  }

  narrow-Encodes :
      (before : List ℕ) (b : Bool) (p : ℕ) (s : Span) (e : RangeEncoder W)
      → IsWide s
      → IsProb p
      → Encodes before s e
      → Encodes before (split b p s) (narrow (bound p s) b e)
  unfolding narrow
  narrow-Encodes before true p s e wide prob st =
      let h : Holds before st.bs s.base s.count s.range e = st.holds in
      let f = bound-fits s p wide prob in
      let sum : u64 (e.low + bound p s) ≡ e.low + bound p s = omega (arith, f, h.room) in
      let rest : u32 (e.range + 2 ^ 32 - bound p s) ≡ s.range - bound p s =
        omega (arith, f, wide, st.range) in
      rw (sum, rest)
        (record {
          bs = st.bs;
          holds = record {
            written = h.written;
            bytes = h.bytes;
            held = h.held;
            counted = h.counted;
            value = omega (arith, h.value);
            cache_fits = h.cache_fits;
            room = omega (arith, h.room, f);
            carry = elim h.carry [
              | inl small ↦ inl small
              | inr fits ↦ inr (omega (arith, fits, f))
            ];
          };
          range = refl;
        })
  narrow-Encodes before false p s e wide prob st =
      let h : Holds before st.bs s.base s.count s.range e = st.holds in
      let f = bound-fits s p wide prob in
      record {
        bs = st.bs;
        holds = record {
          written = h.written;
          bytes = h.bytes;
          held = h.held;
          counted = h.counted;
          value = h.value;
          cache_fits = h.cache_fits;
          room = omega (arith, h.room, f);
          carry = elim h.carry [ inl small ↦ inl small | inr fits ↦ inr (omega (arith, fits, f)) ];
        };
        range = refl;
      }

  -- A round of `normalize_loop`.
  abbrev round : ℕ → Bool → M IoError (RangeEncoder W) (Unit {0})
  round fuel low = elim low [
    | true ↦ do
      modify (λ e. record e { range = u32 (shl e.range 8) })
      write_low
      normalize_loop fuel
    | false ↦ return tt
  ]

  normalize_loop_ends :
      (fuel : ℕ) (e : RangeEncoder W) → 2 ^ 24 ≤ e.range → normalize_loop (suc fuel) e ≡ (ok tt, e)
  unfolding normalize_loop
  normalize_loop_ends fuel e wide =
      let stop : ltb e.range 0x0100_0000 ≡ false = ground arith in ap (λ low. round fuel low e) stop

module _ {W : Type 0} ⦃wr : Write W⦄ (patient : IsPatient wr) (before : List ℕ) where
  normalize-Encodes :
      (s : Span) (e : RangeEncoder W)
      → IsOpen s
      → s.count + 1 < 2 ^ 32
      → Encodes before s e
      → Post (λ _ u. Encodes before (refill s) u) (λ _. ⊥) (normalize e)
  unfolding normalize normalize_loop
  normalize-Encodes s e open_ short st = elim (Bool-cases (ltb s.range (2 ^ 24))) [
    | inr wide ↦
        let is : ltb e.range 0x0100_0000 ≡ false = ap (λ r. ltb r (2 ^ 24)) st.range ∙ wide in
        let done : Unit {0} → RangeEncoder W → Type 0 = λ _ u. Encodes before s u in
        rw wide (subst (λ b. Post done (λ _. ⊥) (round 3 b e)) (sym is) st)
    | inl low ↦
        let is : ltb e.range 0x0100_0000 ≡ true = ap (λ r. ltb r (2 ^ 24)) st.range ∙ low in
        let below : s.range < 2 ^ 24 = ltb→lt _ _ low in
        let done : Unit {0} → RangeEncoder W → Type 0 =
          λ _ u. Encodes before (refill_if true s) u in
        let e' : RangeEncoder W = record e { range = u32 (shl e.range 8) } in
        let st' : Stands before s.base s.count s.range (256 * s.range) e' = record {
          bs = st.bs;
          holds = Holds-range before st.bs s.base s.count s.range (u32 (shl e.range 8)) e st.holds;
          range = omega (arith, below, st.range);
        } in
        rw low (
          subst (λ b. Post done (λ _. ⊥) (round 3 b e)) (sym is)
            (next-Post (λ _ u. Encodes before (refill_if true s) u × Shifted e' u) done (λ _. ⊥)
              (write_low e') _
              (write_low-Post patient before s.base s.count s.range (256 * s.range)
                (omega (arith, open_)) (omega (arith, below)) short e' st')
              (λ _ u q.
                let ends : normalize_loop 3 u ≡ (ok tt, u) =
                  normalize_loop_ends 2 u (omega (arith, q.0.range, open_)) in
                subst (Post done (λ _. ⊥)) (sym ends) q.0)))
  ]

  -- encode_bit on a patient sink, with a range from 2 ^ 24 below 2 ^ 32, a probability p from 31 to
  -- 2017, and a count of bytes that is below 2 ^ 32 when one is added, returns; the encoder is left
  -- with the part of its span that the bit has, refilled by a byte if the range is below 2 ^ 24,
  -- and the probability is p - p / 32 after a one and p + (2048 - p) / 32 after a zero.
  pub encode_bit-Encodes :
      (b : Bool) (p : ℕ) (s : Span) (e : RangeEncoder W)
      → IsWide s
      → IsProb p
      → s.count + 1 < 2 ^ 32
      → Encodes before s e
      → Post
          (λ _ u. Encodes before (after_bit b p s) u.0 × (u.1 ≡ learned b p))
          (λ _. ⊥)
          (encode_bit b (e, p))
  unfolding encode_bit
  encode_bit-Encodes b p s e wide prob short st =
      let f = bound-fits s p wide prob in
      let same : u32 (shr e.range 11 * p) ≡ bound p s =
        ap (λ r. u32 (r / 2 ^ 11 * p)) st.range ∙ omega (arith, f, wide) in
      rw same (
        put_back-Post _ _ (λ e u. (e, u.1)) (narrow (bound p s) b e, adapt b p)
          (normalize (narrow (bound p s) b e))
          (Post-mono _ _ _ _ (normalize (narrow (bound p s) b e))
            (normalize-Encodes (split b p s) (narrow (bound p s) b e) (split-IsOpen b p s wide prob)
              (omega (arith, short, split-count b p s))
              (narrow-Encodes before b p s e wide prob st))
            (λ _ u q. (q, adapt-learned b p prob)) (λ _ x. x)))
