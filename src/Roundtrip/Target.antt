-- ===== src/Roundtrip/Target.antt =====
-- The number that the bytes of an input stand for, as src/decode/rangecoder.rs goes towards it.
use lzma_no_std_rs.Base.{
  ℕ, zero, suc, ◌+◌, ◌*◌, ◌^◌, ◌≤◌, ◌<◌, ◌≡◌, refl, Bool, true, false, List, [], ◌∷◌, arith, ltb,
  length, take, drop, All,
}
use lzma_no_std_rs.Io.Ext.Bytes.{IsByte}
use lzma_no_std_rs.Encode.Number.{num, num-take_suc}
use lzma_no_std_rs.RangeDecoder.Safe.{IsProb}
use lzma_no_std_rs.Roundtrip.Span.{Span, IsWide, split, refill, refill_if, after_bit, bound-fits}

-- The byte at place `n`.
pub record ByteAt (n : ℕ) (all : List ℕ) : Type 0 where
  pub byte : ℕ
  pub here : drop n all ≡ byte ∷ drop (n + 1) all
  pub fits : IsByte byte

pub byte_at : (n : ℕ) (all : List ℕ) → n < length all → All IsByte all → ByteAt n all
byte_at n [] below bytes = absurd (omega (arith, below))
byte_at zero (b ∷ bs) below bytes = record { byte = b; here = refl; fits = bytes.0 }
byte_at (suc n) (b ∷ bs) below bytes =
    let later : ByteAt n bs = byte_at n bs (omega (arith, below)) bytes.1 in
    let up : suc n + 1 ≡ suc (n + 1) = omega arith in
    record { byte = later.byte; here = rw up later.here; fits = later.fits }

module _ (all : List ℕ) where
  -- The number so far.
  abbrev pub seen : ℕ → ℕ
  seen n = num (take n all)

  -- It is in the span.
  abbrev pub Leads : Span → Type 0
  Leads s = (s.count ≤ length all) × (s.base ≤ seen s.count) × (seen s.count < s.base + s.range)

  module _ (bytes : All IsByte all) where
    pub seen_suc :
        (n : ℕ) (below : n < length all)
        → seen (n + 1) ≡ seen n * 256 + (byte_at n all below bytes).byte
    seen_suc n below =
        let at : ByteAt n all = byte_at n all below bytes in
        num-take_suc n 0 all (drop (n + 1) all) at.byte at.here

    refill_if-Leads : (low : Bool) (s : Span) → Leads (refill_if low s) → Leads s
    refill_if-Leads false s h = h
    refill_if-Leads true s h =
        let below : s.count < length all = omega (arith, h.0) in
        let at : ByteAt s.count all = byte_at s.count all below bytes in
        let one = seen_suc s.count below in
        (omega (arith, below), omega (arith, h.1, one, at.fits), omega (arith, h.2, one, at.fits))

    pub refill-Leads : (s : Span) → Leads (refill s) → Leads s
    refill-Leads s = refill_if-Leads (ltb s.range (2 ^ 24)) s

    split-Leads :
        (b : Bool) (p : ℕ) (s : Span) → IsWide s → IsProb p → Leads (split b p s) → Leads s
    split-Leads true p s wide prob h =
        let f = bound-fits s p wide prob in (h.0, omega (arith, h.1, f), omega (arith, h.2, f))
    split-Leads false p s wide prob h =
        let f = bound-fits s p wide prob in (h.0, h.1, omega (arith, h.2, f))

    -- A span that a bit narrows has all that is in what is left.
    pub after_bit-Leads :
        (b : Bool) (p : ℕ) (s : Span) → IsWide s → IsProb p → Leads (after_bit b p s) → Leads s
    after_bit-Leads b p s wide prob h = split-Leads b p s wide prob (refill-Leads (split b p s) h)
