-- ===== src/Encode/RangeEncoder/Held.antt =====
-- src/encode/rangecoder.rs, `write_low`: the number of the bytes, if one more is held back and if they leave.
use lzma_no_std_rs.Base.{
  ℕ, suc, ◌+◌, ◌-◌, ◌*◌, ◌/◌, ◌%◌, ◌^◌, ◌≤◌, ◌<◌, ◌≡◌, sym, ap, ◌∙◌, ◌⊎◌, inl, inr, false, ◌||◌,
  List, ◌++◌, append_assoc, arith, ltb, length, All, length-append, length-replicate, All-append,
  All-replicate, u8, u32, u64, shr, shl, low_bits,
}
use lzma_no_std_rs.Io.Interface.{Write}
use lzma_no_std_rs.Io.Ext.Bytes.{IsByte}
use lzma_no_std_rs.Encode.Number.{num, place}
use lzma_no_std_rs.Encode.RangeEncoder.{RangeEncoder}
use lzma_no_std_rs.Encode.RangeEncoder.Value.{Holds}
use lzma_no_std_rs.Encode.RangeEncoder.Flush.{AfterFlush, run, num-run}

-- `low` behind its shift.
abbrev pub shifted : ℕ → ℕ
shifted low = low_bits (u64 (shl low 8)) 32

shifted_lem : (low : ℕ) → low ≤ 2 ^ 33 → shifted low ≡ low % 2 ^ 24 * 256
shifted_lem low h = omega arith

run-IsByte : (cache k carry : ℕ) → All IsByte (run cache k carry)
run-IsByte cache k carry = (omega arith, All-replicate IsByte k (u8 (255 + carry)) (omega arith))

-- No byte leaves: a byte of 255 is held back.
held-value :
    (base a p low : ℕ)
    → base + 2 ^ 32 ≡ a * p * 2 ^ 32 + low
    → 0xFF00_0000 ≤ low
    → low ≤ 0xFFFF_FFFF
    → 256 * base + 2 ^ 32 ≡ a * (256 * p) * 2 ^ 32 + low % 2 ^ 24 * 256
held-value base a p low h least most =
    let one : a * (256 * p) ≡ 256 * (a * p) = grind arith in rw one (omega (arith, h))

-- Bytes leave, with the number `v` up to the carry.
left-value :
    (base v n low : ℕ)
    → base + 2 ^ 32 ≡ v * 2 ^ 32 + low
    → n + 1 ≡ v + low / 2 ^ 32
    → low < 2 ^ 33
    → 256 * base + 2 ^ 32 ≡ (n * 256 + u8 (shr low 24) + 1) * 1 * 2 ^ 32 + low % 2 ^ 24 * 256
left-value base v n low h e small = omega (arith, h, e)

left-carry :
    (low top : ℕ)
    → (low < 0xFF00_0000) ⊎ (0xFFFF_FFFF < low)
    → low + top ≤ 2 ^ 33
    → top ≤ 2 ^ 24
    → (u8 (shr low 24) < 255) ⊎ (low % 2 ^ 24 * 256 + 256 * top ≤ 2 ^ 32)
left-carry low top out room narrow = ground (arith, out)

abbrev pub moved : {W : Type 0} → RangeEncoder W → RangeEncoder W
moved u = record u { cachesz = u32 (u.cachesz + 1); low = shifted u.low }

module _ {W : Type 0} ⦃wr : Write W⦄ (before bs : List ℕ) (base count top : ℕ) (e : RangeEncoder W)
    (h : Holds before bs base count top e) (open_ : 1 ≤ top) (narrow : top ≤ 2 ^ 24)
    (short : count + 1 < 2 ^ 32) where
  low_small : e.low < 2 ^ 33
  low_small = omega (arith, h.room)

  abbrev kept : ℕ
  kept = e.cachesz - 1

  pub low_lem : shifted e.low ≡ e.low % 2 ^ 24 * 256
  low_lem = shifted_lem e.low (omega (arith, h.room))

  held_lem : e.cachesz ≡ suc kept
  held_lem = omega (arith, h.held)

  pub waits :
      (ltb e.low 0xFF00_0000 || ltb 0xFFFF_FFFF e.low) ≡ false
      → Holds before bs (256 * base) (count + 1) (256 * top) (moved e)
  waits inside =
      let least : 0xFF00_0000 ≤ e.low = ground (arith, inside) in
      let most : e.low ≤ 0xFFFF_FFFF = ground (arith, inside) in
      let more : u32 (e.cachesz + 1) ≡ suc (suc kept) = omega (arith, h.held, h.counted, short) in
      let one_up : suc (suc kept) - 1 ≡ suc kept = omega arith in
      rw (more, low_lem)
        (record {
          written = h.written;
          bytes = h.bytes;
          held = omega arith;
          counted = omega (arith, h.counted, h.held);
          value =
              held-value base (num bs * 256 + e.cache + 1) (place kept) e.low h.value least most
              ∙ ap (λ n. (num bs * 256 + e.cache + 1) * place n * 2 ^ 32 + e.low % 2 ^ 24 * 256)
                  (sym one_up);
          cache_fits = h.cache_fits;
          room = omega (arith, narrow);
          carry = elim h.carry [
            | inl small ↦ inl small
            | inr fits ↦ inr (omega (arith, fits, least, most))
          ];
        })

  carried : e.cache + e.low / 2 ^ 32 < 256
  carried = elim h.carry [
    | inl small ↦ omega (arith, small, low_small)
    | inr fits ↦ omega (arith, fits, h.cache_fits, open_)
  ]

  pub leaves :
      (u : RangeEncoder W)
      → (e.low < 0xFF00_0000) ⊎ (0xFFFF_FFFF < e.low)
      → AfterFlush e u (run e.cache kept (u8 (shr e.low 32)))
      → Holds before
          (bs ++ run e.cache kept (u8 (shr e.low 32)))
          (256 * base)
          (count + 1)
          (256 * top)
          (moved (record u { cache = u8 (shr u.low 24) }))
  leaves u out f =
      let c : ℕ = u8 (shr e.low 32) in
      let c_lem : c ≡ e.low / 2 ^ 32 = omega (arith, low_small) in
      let one : u32 (u.cachesz + 1) ≡ 1 = omega (arith, f.cachesz) in
      let sum : num (bs ++ run e.cache kept c) + 1
          ≡ (num bs * 256 + e.cache + 1) * place kept + e.low / 2 ^ 32 =
        num-run bs e.cache kept c (omega (arith, low_small)) (omega (arith, carried, c_lem))
        ∙ ap (λ v. (num bs * 256 + e.cache + 1) * place kept + v) c_lem in
      let many : length (run e.cache kept c) ≡ e.cachesz =
        ap suc (length-replicate kept (u8 (255 + c))) ∙ sym held_lem in
      rw (one, f.low, low_lem)
        (record {
          written =
              f.written
              ∙ ap (λ w. w ++ run e.cache kept c) h.written
              ∙ append_assoc before bs (run e.cache kept c);
          bytes = All-append IsByte bs (run e.cache kept c) h.bytes (run-IsByte e.cache kept c);
          held = omega arith;
          counted = omega (arith, h.counted, many, length-append bs (run e.cache kept c));
          value =
              left-value base ((num bs * 256 + e.cache + 1) * place kept)
                (num (bs ++ run e.cache kept c)) e.low h.value sum low_small;
          cache_fits = omega arith;
          room = omega (arith, narrow);
          carry = left-carry e.low top out h.room narrow;
        })
