-- ===== src/Roundtrip/Writes.antt =====
-- src/encode: a method writes a code if it leaves the encoder with the span and the probabilities of it.
use lzma_no_std_rs.Base.{
  ℕ, ◌+◌, ◌^◌, ◌≤◌, ◌<◌, ◌≡◌, sym, ap, subst, Bool, true, false, List, arith, ltb, get_or, set, M,
  ◌>>◌, Post, next-Post, Post-mono,
}
use lzma_no_std_rs.Base.{at_elem, at_elem-run}
use lzma_no_std_rs.Io.Interface.{IoError, Write}
use lzma_no_std_rs.RangeDecoder.Safe.{IsProb}
use lzma_no_std_rs.Encode.RangeEncoder.{RangeEncoder, encode_bit}
use lzma_no_std_rs.Encode.RangeEncoder.Value.{IsPatient}
use lzma_no_std_rs.Roundtrip.Span.{Span, IsWide, refill_if, split, split-count}
use lzma_no_std_rs.Roundtrip.Encoding.{Encodes, encode_bit-Encodes}
use lzma_no_std_rs.Roundtrip.Code.{
  Code, IsBackward, IsCode, bit_code, then_code, IsTable, at_code, element_fits,
}

-- Few enough bytes for the counter of the bytes held back, with what `finish` adds.
abbrev pub IsShort : Span → Type 0
IsShort s = s.count + 5 < 2 ^ 32

refill_if-count : (low : Bool) (s : Span) → s.count ≤ (refill_if low s).count
refill_if-count true s = omega arith
refill_if-count false s = omega arith

pub IsShort-IsBackward : IsBackward IsShort
IsShort-IsBackward b p s wide prob h =
    omega (
      arith,
      h,
      split-count b p s,
      refill_if-count (ltb (split b p s).range (2 ^ 24)) (split b p s),
    )

module _ {W : Type 0} ⦃wr : Write W⦄ (patient : IsPatient wr) (before : List ℕ) where
  abbrev pub Leaves : {T : Type 0} → Span × T → Unit {0} → RangeEncoder W × T → Type 0
  Leaves x _ u = Encodes before x.0 u.0 × (u.1 ≡ x.1)

  abbrev pub Writes :
      {T : Type 0} → (T → Type 0) → Code T → M IoError (RangeEncoder W × T) (Unit {0}) → Type 0
  Writes {T} OK f m =
      (s : Span) (t : T) (e : RangeEncoder W)
      → IsWide s
      → OK t
      → IsShort (f (s, t)).0
      → Encodes before s e
      → Post (Leaves (f (s, t))) (λ _. ⊥) (m (e, t))

  pub encode_bit-Writes : (b : Bool) → Writes IsProb (bit_code b) (encode_bit b)
  encode_bit-Writes b s p e wide prob short h =
      encode_bit-Encodes patient before b p s e wide prob
        (omega (arith, IsShort-IsBackward b p s wide prob short)) h

  pub then-Writes :
      {T : Type 0} (OK : T → Type 0) (f g : Code T)
      (m k : M IoError (RangeEncoder W × T) (Unit {0}))
      → IsCode OK f
      → IsCode OK g
      → Writes OK f m
      → Writes OK g k
      → Writes OK (then_code f g) (m >> k)
  then-Writes OK f g m k cf cg wm wk s t e wide good short h =
      let s' = (f (s, t)).0 in
      let t' = (f (s, t)).1 in
      let wide' : IsWide s' = cf.wide s t wide good in
      let good' : OK t' = cf.tables s t wide good in
      let short' : IsShort s' = cg.back IsShort s' t' IsShort-IsBackward wide' good' short in
      next-Post (Leaves (f (s, t))) (Leaves (g (f (s, t)))) (λ _. ⊥) (m (e, t)) (λ _. k)
        (wm s t e wide good short' h)
        (λ _ u q.
          subst (λ v. Post (Leaves (g (f (s, t)))) (λ _. ⊥) (k (u.0, v))) (sym q.1)
            (wk s' t' u.0 wide' good' short q.0))

  pub at_elem-Writes :
      {T : Type 0} (OK : T → Type 0) (n i : ℕ) (d : T) (f : Code T)
      (m : M IoError (RangeEncoder W × T) (Unit {0}))
      → i < n
      → Writes OK f m
      → Writes (IsTable n OK) (at_code i d f) (at_elem i m)
  at_elem-Writes OK n i d f m below w s ts e wide good short h =
      let at = element_fits OK n i d ts below good in
      at_elem-run _ _ i m (e, ts) (get_or ts i d) at.0
        (Post-mono (Leaves (f (s, get_or ts i d))) _ (λ _. ⊥) _ (m (e, get_or ts i d))
          (w s (get_or ts i d) e wide at.1 short h) (λ _ u q. (q.0, ap (set ts i) q.1)) (λ u x. x))
