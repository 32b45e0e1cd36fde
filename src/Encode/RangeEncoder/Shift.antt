-- ===== src/Encode/RangeEncoder/Shift.antt =====
-- src/encode/rangecoder.rs, `write_low`: the number stands 8 bits further up, and one byte more counts.
use lzma_no_std_rs.Base.{
  ℕ, ◌+◌, ◌-◌, ◌*◌, ◌%◌, ◌^◌, ◌≤◌, ◌<◌, ◌≡◌, refl, ap, ◌∙◌, ◌⊎◌, inl, inr, Bool, true, false, ◌||◌,
  List, ◌++◌, arith, ltb, ◌==◌, if◌then◌else◌, u8, shr, ◌>>=◌, ◌>>◌, gets, modify, when, Post,
  next-Post,
}
use lzma_no_std_rs.Encode.RangeEncoder.Held.{shifted, moved, low_lem, waits, leaves}
use lzma_no_std_rs.Io.Interface.{Write}
use lzma_no_std_rs.Encode.RangeEncoder.{RangeEncoder, flush_loop, write_low}
use lzma_no_std_rs.Encode.RangeEncoder.Value.{IsPatient, Holds}
use lzma_no_std_rs.Encode.RangeEncoder.Flush.{AfterFlush, run, flush-Post}

-- What `write_low` makes of the encoder.
module _ {W : Type 0} ⦃wr : Write W⦄ where
  pub record Stands (before : List ℕ) (base count top r : ℕ) (e : RangeEncoder W) : Type 0 where
    pub bs : List ℕ
    pub holds : Holds before bs base count top e
    pub range : e.range ≡ r

  pub record Shifted (e u : RangeEncoder W) : Type 0 where
    pub low : u.low ≡ e.low % 2 ^ 24 * 256
    pub settled : e.low < 0xFF00_0000 → (u.cachesz ≡ 1) × (u.cache ≡ u8 (shr e.low 24))

  abbrev stores : RangeEncoder W → RangeEncoder W
  stores u = record u { cache = u8 (shr u.low 24) }

module _ {W : Type 0} ⦃wr : Write W⦄ (patient : IsPatient wr) (before : List ℕ)
    (base count top r : ℕ) (open_ : 1 ≤ top) (narrow : top ≤ 2 ^ 24)
    (short : count + 1 < 2 ^ 32) where
  abbrev NextStands : RangeEncoder W → Type 0
  NextStands u = Stands before (256 * base) (count + 1) (256 * top) r u

  settle-Post :
      (e : RangeEncoder W) (settled : Bool)
      → (ltb e.low 0xFF00_0000 || ltb 0xFFFF_FFFF e.low) ≡ settled
      → Stands before base count top r e
      → Post
          (λ _ u. NextStands (moved u) × Shifted e (moved u))
          (λ _. ⊥)
          (when settled
            (do
              cache ← gets (λ e. e.cache)
              (λ e. flush_loop (if e.cachesz == 0 then 2 ^ 32 else e.cachesz) cache e)
              modify stores)
            e)
  settle-Post e false is s =
      let least : 0xFF00_0000 ≤ e.low = ground (arith, is) in
      (
        record {
          bs = s.bs;
          holds = waits before s.bs base count top e s.holds open_ narrow short is;
          range = s.range;
        },
        record {
          low = low_lem before s.bs base count top e s.holds open_ narrow short;
          settled = λ below. absurd (omega (arith, below, least));
        },
      )
  settle-Post e true is s =
      let h : Holds before s.bs base count top e = s.holds in
      let out : (e.low < 0xFF00_0000) ⊎ (0xFFFF_FFFF < e.low) = ground (arith, is) in
      next-Post (λ _ u. AfterFlush e u (run e.cache (e.cachesz - 1) (u8 (shr e.low 32)))) _ (λ _. ⊥)
        (flush_loop (if e.cachesz == 0 then 2 ^ 32 else e.cachesz) e.cache e) _
        (flush-Post patient (e.cachesz - 1) e (omega (arith, h.held))
          (omega (arith, h.counted, h.held, short)))
        (λ _ u f. (
          record {
            bs = s.bs ++ run e.cache (e.cachesz - 1) (u8 (shr e.low 32));
            holds = leaves before s.bs base count top e h open_ narrow short u out f;
            range = f.range ∙ s.range;
          },
          record {
            low = ap shifted f.low ∙ low_lem before s.bs base count top e h open_ narrow short;
            settled = λ _. (omega (arith, f.cachesz), ap (λ l. u8 (shr l 24)) f.low);
          },
        ))

  -- write_low on a patient sink, for an encoder whose bytes written, bytes held back and low stand
  -- for the number base in count bytes, with room above it of 1 to 2 ^ 24 and fewer than 2 ^ 32
  -- bytes: it returns, and they stand for 256 * base in one byte more, whether bytes leave, with or
  -- without a carry, or one more is held back; low is shifted, and a low below 0xFF00_0000 leaves
  -- one byte in the cache.
  pub write_low-Post :
      (e : RangeEncoder W)
      → Stands before base count top r e
      → Post (λ _ u. NextStands u × Shifted e u) (λ _. ⊥) (write_low e)
  unfolding write_low
  write_low-Post e s =
      next-Post (λ _ u. NextStands (moved u) × Shifted e (moved u)) _ (λ _. ⊥) _ _
        (settle-Post e (ltb e.low 0xFF00_0000 || ltb 0xFFFF_FFFF e.low) refl s) (λ _ u q. q)

-- Less above `base` may be asked for.
pub Stands-lower :
    {W : Type 0} ⦃wr : Write W⦄ (before : List ℕ) (base count top top' r : ℕ) (e : RangeEncoder W)
    → top' ≤ top
    → Stands before base count top r e
    → Stands before base count top' r e
Stands-lower before base count top top' r e less s =
    let h : Holds before s.bs base count top e = s.holds in
    record {
      bs = s.bs;
      holds = record {
        written = h.written;
        bytes = h.bytes;
        held = h.held;
        counted = h.counted;
        value = h.value;
        cache_fits = h.cache_fits;
        room = omega (arith, h.room, less);
        carry = elim h.carry [ inl small ↦ inl small | inr fits ↦ inr (omega (arith, fits, less)) ];
      };
      range = s.range;
    }
