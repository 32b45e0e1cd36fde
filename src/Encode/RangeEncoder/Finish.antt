-- ===== src/Encode/RangeEncoder/Finish.antt =====
-- src/encode/rangecoder.rs, `finish`: the bytes behind `before` are the digits of the number.
use lzma_no_std_rs.Base.{
  ℕ, zero, suc, ◌+◌, ◌*◌, ◌%◌, ◌^◌, ◌≤◌, ◌<◌, ◌≡◌, sym, ap, ◌∙◌, List, ◌++◌, arith, length, All,
  Post, next-Post, Post-mono,
}
use lzma_no_std_rs.Io.Interface.{Write}
use lzma_no_std_rs.Io.Ext.Bytes.{IsByte}
use lzma_no_std_rs.Encode.Number.{num, place}
use lzma_no_std_rs.Encode.RangeEncoder.{RangeEncoder, write_lows, finish}
use lzma_no_std_rs.Encode.RangeEncoder.Value.{IsPatient, Holds}
use lzma_no_std_rs.Encode.RangeEncoder.Shift.{Stands, Stands-lower, Shifted, write_low-Post}

-- `low` behind `n` shifts.
abbrev shifts : ℕ → ℕ → ℕ
shifts zero low = low
shifts (suc n) low = shifts n (low % 2 ^ 24 * 256)

module _ {W : Type 0} ⦃wr : Write W⦄ where
  -- All is written but a byte of 0 and `low`, which is 0.
  record Settled (before : List ℕ) (base count r : ℕ) (e : RangeEncoder W) : Type 0 where
    stands : Stands before base count 1 r e
    low : e.low ≡ 0
    cachesz : e.cachesz ≡ 1
    cache : e.cache ≡ 0

  -- The bytes written behind `before`.
  pub record Digits (before : List ℕ) (base count : ℕ) (e : RangeEncoder W) : Type 0 where
    pub bs : List ℕ
    pub written : wr.written e.stream ≡ before ++ bs
    pub bytes : All IsByte bs
    pub counted : length bs ≡ count
    pub value : num bs ≡ base

  Settled-Digits :
      (before : List ℕ) (base count r : ℕ) (e : RangeEncoder W)
      → Settled before (place 5 * base) (count + 5) r e
      → Digits before base count e
  Settled-Digits before base count r e s =
      let h : Holds before s.stands.bs (place 5 * base) (count + 5) 1 e = s.stands.holds in
      let value : place 5 * base + 2 ^ 32 ≡ (num s.stands.bs * 256 + 0 + 1) * 1 * 2 ^ 32 + 0 =
        rw (s.cachesz, s.cache, s.low) at h.value in
      record {
        bs = s.stands.bs;
        written = h.written;
        bytes = h.bytes;
        counted = omega (arith, h.counted, s.cachesz);
        value = omega (arith, value);
      }

module _ {W : Type 0} ⦃wr : Write W⦄ (patient : IsPatient wr) (before : List ℕ) (r : ℕ) where
  write_lows-Post :
      (n base count : ℕ) (e : RangeEncoder W)
      → Stands before base count 1 r e
      → count + suc n < 2 ^ 32
      → shifts n e.low ≡ 0
      → Post
          (λ _ u. Settled before (place (suc n) * base) (count + suc n) r u)
          (λ _. ⊥)
          (write_lows (suc n) e)
  unfolding write_lows
  write_lows-Post zero base count e s short empty =
      next-Post (λ _ u. Stands before (256 * base) (count + 1) 256 r u × Shifted e u) _ (λ _. ⊥) _ _
        (write_low-Post patient before base count 1 r (omega arith) (omega arith) short e s)
        (λ _ u q. record {
          stands = Stands-lower before (256 * base) (count + 1) 256 1 r u (omega arith) q.0;
          low = omega (arith, q.1.low, empty);
          cachesz = (q.1.settled (omega (arith, empty))).0;
          cache = (q.1.settled (omega (arith, empty))).1 ∙ omega (arith, empty);
        })
  write_lows-Post (suc n) base count e s short empty =
      next-Post (λ _ u. Stands before (256 * base) (count + 1) 256 r u × Shifted e u) _ (λ _. ⊥) _ _
        (write_low-Post patient before base count 1 r (omega arith) (omega arith)
          (omega (arith, short)) e s)
        (λ _ u q.
          let power : place (suc n) * (256 * base) ≡ place (suc (suc n)) * base = grind arith in
          let more : count + 1 + suc n ≡ count + suc (suc n) = omega arith in
          rw (sym power, sym more)
            (write_lows-Post n (256 * base) (count + 1) u
              (Stands-lower before (256 * base) (count + 1) 256 1 r u (omega arith) q.0)
              (omega (arith, short)) (ap (shifts n) q.1.low ∙ empty)))

  -- finish on a patient sink, for an encoder that stands for the number base in count bytes with
  -- room of at least one above it, and with count + 5 below 2 ^ 32, returns, and what it has
  -- written are count bytes whose number is base: nothing is held back any more.
  pub finish-Digits :
      (base count top : ℕ) (e : RangeEncoder W)
      → Stands before base count top r e
      → 1 ≤ top
      → count + 5 < 2 ^ 32
      → Post (λ _ u. Digits before base count u) (λ _. ⊥) (finish e)
  unfolding finish
  finish-Digits base count top e s open_ short =
      Post-mono _ _ _ _ (write_lows 5 e)
        (write_lows-Post 4 base count e (Stands-lower before base count top 1 r e open_ s) short
          (omega arith))
        (λ _ u. Settled-Digits before base count r u) (λ _ x. x)
