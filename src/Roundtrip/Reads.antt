-- ===== src/Roundtrip/Reads.antt =====
-- src/decode: a method reads a code if, on a number in the span of it, it leaves the range decoder on its way
-- to that number, with the probabilities of the code and the value that was written.
use lzma_no_std_rs.Base.{
  ℕ, ◌<◌, ◌≡◌, refl, sym, ap, subst, Bool, true, List, get_or, set, All, M, ◌>>=◌, return, map_err,
  Post, next-Post, Post-mono, relabel-Post,
}
use lzma_no_std_rs.Base.{at_elem, at_elem-run}
use lzma_no_std_rs.Io.Interface.{BufRead}
use lzma_no_std_rs.Io.Ext.Bytes.{IsByte}
use lzma_no_std_rs.RangeDecoder.{RangeDecoder, decode_bit}
use lzma_no_std_rs.RangeDecoder.Safe.{IsProb}
use lzma_no_std_rs.Roundtrip.Span.{Span, IsWide}
use lzma_no_std_rs.Roundtrip.Target.{Leads, after_bit-Leads}
use lzma_no_std_rs.Roundtrip.Decoding.{IsReliable, Tracks, decode_bit-Tracks}
use lzma_no_std_rs.Roundtrip.Code.{
  Code, IsCode, bit_code, then_code, IsTable, at_code, element_fits,
}

module _ {R : Type 0} ⦃rd : BufRead R⦄ (reliable : IsReliable rd) (all : List ℕ)
    (bytes : All IsByte all) where
  abbrev pub Gives : {A T : Type 0} → A → Span × T → A → RangeDecoder R × T → Type 0
  Gives v x a u = (a ≡ v) × Tracks reliable all bytes x.0 u.0 × (u.1 ≡ x.1)

  abbrev pub Reads :
      {E A T : Type 0} → (T → Type 0) → Code T → A → M E (RangeDecoder R × T) A → Type 0
  Reads {T = T} OK f v m =
      (s : Span) (t : T) (c : RangeDecoder R)
      → IsWide s
      → OK t
      → Leads all (f (s, t)).0
      → Tracks reliable all bytes s c
      → Post (Gives v (f (s, t))) (λ _. ⊥) (m (c, t))

  pub decode_bit-Reads : (b : Bool) → Reads IsProb (bit_code b) b (decode_bit true)
  decode_bit-Reads b s p c wide prob h t =
      decode_bit-Tracks reliable all bytes b p s c wide prob h t

  pub return-Reads :
      (E : Type 0) {A T : Type 0} (OK : T → Type 0) (v : A) → Reads {E = E} OK (λ x. x) v (return v)
  return-Reads E OK v s t c wide good h track = (refl, track, refl)

  pub >>=-Reads :
      {E A B T : Type 0} (OK : T → Type 0) (f g : Code T) (v : A) (w : B)
      (m : M E (RangeDecoder R × T) A) (k : A → M E (RangeDecoder R × T) B)
      → IsCode OK f
      → IsCode OK g
      → Reads OK f v m
      → Reads OK g w (k v)
      → Reads OK (then_code f g) w (m >>= k)
  >>=-Reads OK f g v w m k cf cg rm rk s t c wide good h track =
      let s' = (f (s, t)).0 in
      let t' = (f (s, t)).1 in
      let wide' : IsWide s' = cf.wide s t wide good in
      let good' : OK t' = cf.tables s t wide good in
      let h' : Leads all s' = cg.back (Leads all) s' t' (after_bit-Leads all bytes) wide' good' h in
      next-Post (Gives v (f (s, t))) (Gives w (g (f (s, t)))) (λ _. ⊥) (m (c, t)) k
        (rm s t c wide good h' track)
        (λ a u q.
          subst (λ b. Post (Gives w (g (f (s, t)))) (λ _. ⊥) (k b u)) (sym q.0)
            (subst (λ x. Post (Gives w (g (f (s, t)))) (λ _. ⊥) (k v (u.0, x))) (sym q.2)
              (rk s' t' u.0 wide' good' h q.1)))

  pub map_err-Reads :
      {E F A T : Type 0} (OK : T → Type 0) (f : Code T) (v : A) (label : E → F)
      (m : M E (RangeDecoder R × T) A)
      → Reads OK f v m
      → Reads OK f v (map_err label m)
  map_err-Reads OK f v label m r s t c wide good h track =
      relabel-Post (Gives v (f (s, t))) (λ _. ⊥) label (m (c, t)) (r s t c wide good h track)

  pub at_elem-Reads :
      {E A T : Type 0} (OK : T → Type 0) (n i : ℕ) (d : T) (f : Code T) (v : A)
      (m : M E (RangeDecoder R × T) A)
      → i < n
      → Reads OK f v m
      → Reads (IsTable n OK) (at_code i d f) v (at_elem i m)
  at_elem-Reads OK n i d f v m below r s ts c wide good h track =
      let at = element_fits OK n i d ts below good in
      at_elem-run _ _ i m (c, ts) (get_or ts i d) at.0
        (Post-mono (Gives v (f (s, get_or ts i d))) _ (λ _. ⊥) _ (m (c, get_or ts i d))
          (r s (get_or ts i d) c wide at.1 h track) (λ _ u q. (q.0, q.1, ap (set ts i) q.2))
          (λ u x. x))
