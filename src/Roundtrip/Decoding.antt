-- ===== src/Roundtrip/Decoding.antt =====
-- src/decode/rangecoder.rs, `decode_bit`: on a number in the part of a bit, the bit comes out.
use lzma_no_std_rs.Base.{
  ℕ, ◌+◌, ◌-◌, ◌*◌, ◌/◌, ◌^◌, ◌≤◌, ◌<◌, bit_xor, ◌≡◌, refl, sym, ap, ◌∙◌, subst, inl, inr, Bool,
  true, false, List, [], ◌∷◌, ◌++◌, arith, ltb, if◌then◌else◌, ltb→lt, Bool-cases, length, get_or,
  drop, All, u32, shr, shl, ◌>>◌, return, of_io, Post, next-Post, Post-mono, put_back-Post,
}
use lzma_no_std_rs.Base.{bit_xor_low}
use lzma_no_std_rs.Io.Interface.{BufRead}
use lzma_no_std_rs.Io.Ext.{read_u8}
use lzma_no_std_rs.Io.Ext.Bytes.{IsByte}
use lzma_no_std_rs.RangeDecoder.{
  RangeDecoder, on_stream, on_decoder, normalize, decode_bit, decode_zero, decode_one,
}
use lzma_no_std_rs.RangeDecoder.Safe.{IsProb}
use lzma_no_std_rs.Encode.RangeEncoder.{adapt}
use lzma_no_std_rs.Roundtrip.Span.{
  learned, adapt-learned, Span, IsWide, bound, split, refill, refill_if, after_bit, bound-fits,
}
use lzma_no_std_rs.Roundtrip.Target.{ByteAt, byte_at, Leads, seen, seen_suc, refill-Leads}

-- A reader that gives what is there.
abbrev pub IsReliable : {R : Type 0} → BufRead R → Type 0
IsReliable {R} rd =
    (n : ℕ) (r : R) → n ≤ length (rd.pending r) → (bs : List ℕ) × ((rd.read_exact n r).0 ≡ inr bs)

one_byte :
    (bs rest more : List ℕ) (b : ℕ)
    → length bs ≡ 1
    → b ∷ more ≡ bs ++ rest
    → (get_or bs 0 0 ≡ b) × (rest ≡ more)
one_byte [] rest more b l e = absurd (omega (arith, l))
one_byte (c ∷ []) rest more b l e = (cc, cc)
one_byte (c ∷ d ∷ bs) rest more b l e = absurd (omega (arith, l))

module _ {R : Type 0} ⦃rd : BufRead R⦄ (reliable : IsReliable rd) where
  pub read_u8-next :
      (r : R) (b : ℕ) (more : List ℕ)
      → rd.pending r ≡ b ∷ more
      → Post (λ x r'. (x ≡ b) × (rd.pending r' ≡ more)) (λ _. ⊥) (read_u8 r)
  unfolding read_u8
  read_u8-next r b more h =
      let enough : 1 ≤ length (rd.pending r) = omega (arith, ap length h) in
      let got = reliable 1 r enough in
      let took = rd.read_exact_takes 1 r got.0 got.1 in
      rw (got.1, of_io) (one_byte got.0 _ more b took.0 (sym h ∙ took.1))

module _ {R : Type 0} ⦃rd : BufRead R⦄ (reliable : IsReliable rd) (all : List ℕ)
    (bytes : All IsByte all) where
  -- The decoder has the range of the span, and the way from its base to the number.
  pub record Tracks (s : Span) (c : RangeDecoder R) : Type 0 where
    pub range : c.range ≡ s.range
    pub value : s.base + c.code ≡ seen all s.count
    pub rest : rd.pending c.stream ≡ drop s.count all

  refilled :
      (s : Span) (c c' : RangeDecoder R) (low : s.range < 2 ^ 24)
      → Leads all (refill_if true s)
      → Leads all s
      → Tracks s c
      → (below : s.count < length all) → rd.pending c'.stream ≡ drop (s.count + 1) all
      → c'.code ≡ c.code
      → c'.range ≡ u32 (shl c.range 8)
      → Tracks (refill_if true s) (record c' {
        code = bit_xor (u32 (shl c'.code 8)) (byte_at s.count all below bytes).byte;
      })
  refilled s c c' low h now t below rest code range =
      let at : ByteAt s.count all = byte_at s.count all below bytes in
      let small : c.code < 2 ^ 24 = omega (arith, t.value, now, low) in
      let top : u32 (shl c'.code 8) ≡ c.code * 256 = omega (arith, code, small) in
      let sum : bit_xor (u32 (shl c'.code 8)) at.byte ≡ c.code * 256 + at.byte =
        rw top (bit_xor_low 8 c.code at.byte at.fits) in
      record {
        range = omega (arith, range, t.range, low);
        value = omega (arith, sum, t.value, seen_suc all bytes s.count below);
        rest = rest;
      }

  normalize-Tracks :
      (s : Span) (c : RangeDecoder R)
      → Leads all (refill s)
      → Tracks s c
      → Post (λ _ c'. Tracks (refill s) c') (λ _. ⊥) (normalize c)
  unfolding normalize
  normalize-Tracks s c h t = elim (Bool-cases (ltb s.range (2 ^ 24))) [
    | inr wide ↦
        let is : ltb c.range 0x0100_0000 ≡ false = ap (λ r. ltb r (2 ^ 24)) t.range ∙ wide in
        rw (is, wide) t
    | inl narrow ↦
        let is : ltb c.range 0x0100_0000 ≡ true = ap (λ r. ltb r (2 ^ 24)) t.range ∙ narrow in
        let low : s.range < 2 ^ 24 = ltb→lt _ _ narrow in
        let now : Leads all s = refill-Leads all bytes s h in
        let h' : Leads all (refill_if true s) = rw narrow at h in
        let below : s.count < length all = omega (arith, h'.0) in
        let at : ByteAt s.count all = byte_at s.count all below bytes in
        let c2 : RangeDecoder R = record c { range = u32 (shl c.range 8) } in
        rw (is, narrow)
          (next-Post
            (λ x c'.
              (x ≡ at.byte)
              × (rd.pending c'.stream ≡ drop (s.count + 1) all)
              × (c'.code ≡ c.code)
              × (c'.range ≡ u32 (shl c.range 8)))
            _ (λ _. ⊥) (on_stream read_u8 c2) _
            (put_back-Post _ _ (λ r d. record d { stream = r }) c2 (read_u8 c.stream)
              (Post-mono _ _ _ _ (read_u8 c.stream)
                (read_u8-next reliable c.stream at.byte (drop (s.count + 1) all) (t.rest ∙ at.here))
                (λ x r q. (q.0, q.1, refl, refl)) (λ r x. x)))
            (λ x c' q.
              subst
                (λ b.
                  Tracks (refill_if true s) (record c' { code = bit_xor (u32 (shl c'.code 8)) b }))
                (sym q.0) (refilled s c c' low h' now t below q.1 q.2 q.3)))
  ]

  abbrev After : Bool → ℕ → Span → Bool → RangeDecoder R × ℕ → Type 0
  After b p s b' u = (b' ≡ b) × Tracks (after_bit b p s) u.0 × (u.1 ≡ learned b p)

  last_of_bit :
      (b : Bool) (p : ℕ) (s : Span) (c : RangeDecoder R)
      → IsProb p
      → Leads all (after_bit b p s)
      → Tracks (split b p s) c
      → Post (After b p s) (λ _. ⊥) ((on_decoder normalize >> return b) (c, adapt b p))
  last_of_bit b p s c prob h t =
      next-Post (λ _ u. Tracks (after_bit b p s) u.0 × (u.1 ≡ learned b p)) (After b p s) (λ _. ⊥)
        (on_decoder normalize (c, adapt b p)) (λ _. return b)
        (put_back-Post _ _ (λ d s. (d, s.1)) (c, adapt b p) (normalize c)
          (Post-mono _ _ _ _ (normalize c) (normalize-Tracks (split b p s) c h t)
            (λ _ d q. (q, adapt-learned b p prob)) (λ _ x. x)))
        (λ _ u q. (refl, q.0, q.1))

  -- For a span with a range from 2 ^ 24 below 2 ^ 32 and a probability p from 31 to 2017: on an
  -- input of bytes whose number is in the part of the span that a bit has, with a reader that gives
  -- what is there and a range decoder on its way to the number, decode_bit with update returns that
  -- bit, and leaves the range decoder on its way to the number in that part; the probability is p -
  -- p / 32 after a one and p + (2048 - p) / 32 after a zero.
  pub decode_bit-Tracks :
      (b : Bool) (p : ℕ) (s : Span) (c : RangeDecoder R)
      → IsWide s
      → IsProb p
      → Leads all (after_bit b p s)
      → Tracks s c
      → Post (After b p s) (λ _. ⊥) (decode_bit true (c, p))
  unfolding decode_bit decode_zero decode_one adapt
  decode_bit-Tracks b p s c wide prob h t =
      let f = bound-fits s p wide prob in
      let same : u32 (shr c.range 11 * p) ≡ bound p s =
        ap (λ r. u32 (r / 2 ^ 11 * p)) t.range ∙ omega (arith, f, wide) in
      rw same (by_bit b h)
    where
      by_bit :
          (b : Bool)
          → Leads all (after_bit b p s)
          → Post
              (After b p s)
              (λ _. ⊥)
              ((if ltb c.code (bound p s)
                  then decode_zero (bound p s) true
                  else decode_one (bound p s) true)
                (c, p))
      by_bit false h =
          let in_part = refill-Leads all bytes (split false p s) h in
          let low : ltb c.code (bound p s) ≡ true = ground (arith, t.value, in_part) in
          rw low (
            last_of_bit false p s (record c { range = bound p s }) prob h
              (record { range = refl; value = t.value; rest = t.rest }))
      by_bit true h =
          let f = bound-fits s p wide prob in
          let in_part = refill-Leads all bytes (split true p s) h in
          let high : ltb c.code (bound p s) ≡ false = ground (arith, t.value, in_part) in
          let least : bound p s ≤ c.code = omega (arith, t.value, in_part) in
          let most : c.code < s.range = omega (arith, t.value, in_part, f) in
          rw high (
            last_of_bit true p s
              (record c {
                code = u32 (c.code + 2 ^ 32 - bound p s);
                range = u32 (c.range + 2 ^ 32 - bound p s);
              })
              prob h
              (record {
                range = omega (arith, t.range, f, wide);
                value = omega (arith, t.value, least, most, wide);
                rest = t.rest;
              }))
