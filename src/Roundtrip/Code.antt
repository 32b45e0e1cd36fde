-- ===== src/Roundtrip/Code.antt =====
-- Codes: what a piece of src/encode makes of the span and of its probabilities, and the piece of src/decode
-- that reads it as well. Codes follow each other, and act on an element of a table or on a field.
use lzma_no_std_rs.Base.{
  ℕ, ◌<◌, ◌≡◌, ◌∙◌, subst, Bool, some, List, arith, length, get_elem?, get_or, set, All, length-set,
  get_elem?-eq-get_or, All-set, All-get_elem?,
}
use lzma_no_std_rs.RangeDecoder.Safe.{IsProb}
use lzma_no_std_rs.Roundtrip.Span.{
  Span, IsWide, after_bit, after_bit-IsWide, learned, learned-IsProb,
}

abbrev pub Code : Type 0 → Type 0
Code T = Span × T → Span × T

-- A property of spans that holds before a bit if it holds after it.
abbrev pub IsBackward : (Span → Type 0) → Type 0
IsBackward P = (b : Bool) (p : ℕ) (s : Span) → IsWide s → IsProb p → P (after_bit b p s) → P s

-- A code leaves a wide span, and probabilities as they should be.
pub record IsCode {T : Type 0} (OK : T → Type 0) (f : Code T) : Type 1 where
  pub wide : (s : Span) (t : T) → IsWide s → OK t → IsWide (f (s, t)).0
  pub tables : (s : Span) (t : T) → IsWide s → OK t → OK (f (s, t)).1
  pub back :
      (P : Span → Type 0) (s : Span) (t : T) → IsBackward P → IsWide s → OK t → P (f (s, t)).0 → P s

abbrev pub bit_code : Bool → Code ℕ
bit_code b x = (after_bit b x.1 x.0, learned b x.1)

pub bit_code-IsCode : (b : Bool) → IsCode IsProb (bit_code b)
bit_code-IsCode b = record {
  wide = λ s p wide prob. after_bit-IsWide b p s wide prob;
  tables = λ s p wide prob. learned-IsProb b p prob;
  back = λ P s p back wide prob h. back b p s wide prob h;
}

abbrev pub then_code : {T : Type 0} → Code T → Code T → Code T
then_code f g x = g (f x)

pub then_code-IsCode :
    {T : Type 0} (OK : T → Type 0) (f g : Code T)
    → IsCode OK f
    → IsCode OK g
    → IsCode OK (then_code f g)
then_code-IsCode OK f g cf cg = record {
  wide = λ s t wide good.
      cg.wide (f (s, t)).0 (f (s, t)).1 (cf.wide s t wide good) (cf.tables s t wide good);
  tables = λ s t wide good.
      cg.tables (f (s, t)).0 (f (s, t)).1 (cf.wide s t wide good) (cf.tables s t wide good);
  back = λ P s t back wide good h. cf.back P s t back wide good (
      cg.back P (f (s, t)).0 (f (s, t)).1 back (cf.wide s t wide good) (cf.tables s t wide good) h);
}

pub done-IsCode : {T : Type 0} (OK : T → Type 0) → IsCode {T = T} OK (λ x. x)
done-IsCode OK = record {
  wide = λ s t wide good. wide;
  tables = λ s t wide good. good;
  back = λ P s t back wide good h. h;
}

-- A table of `n` elements.
abbrev pub IsTable : {T : Type 0} → ℕ → (T → Type 0) → List T → Type 0
IsTable n OK ts = (length ts ≡ n) × All OK ts

abbrev pub at_code : {T : Type 0} → ℕ → T → Code T → Code (List T)
at_code i d f x = let y = f (x.0, get_or x.1 i d) in (y.0, set x.1 i y.1)

pub element_fits :
    {T : Type 0} (OK : T → Type 0) (n i : ℕ) (d : T) (ts : List T)
    → i < n
    → IsTable n OK ts
    → (get_elem? ts i ≡ some (get_or ts i d)) × OK (get_or ts i d)
element_fits OK n i d ts below h =
    let inside : i < length ts = omega (arith, below, h.0) in
    let there = get_elem?-eq-get_or ts i d inside in
    let got = All-get_elem? OK ts i h.1 inside in
    let same : got.0 ≡ get_or ts i d = cc (got.1, there) in (there, subst OK same got.2)

pub at_code-IsCode :
    {T : Type 0} (OK : T → Type 0) (n i : ℕ) (d : T) (f : Code T)
    → i < n
    → IsCode OK f
    → IsCode (IsTable n OK) (at_code i d f)
at_code-IsCode OK n i d f below c = record {
  wide = λ s ts wide good. c.wide s (get_or ts i d) wide (element_fits OK n i d ts below good).1;
  tables = λ s ts wide good.
      let v = (f (s, get_or ts i d)).1 in
      (
        length-set ts i v ∙ good.0,
        All-set OK ts i v (c.tables s (get_or ts i d) wide (element_fits OK n i d ts below good).1)
            good.1,
      );
  back = λ P s ts back wide good h.
      c.back P s (get_or ts i d) back wide (element_fits OK n i d ts below good).1 h;
}

-- The two tables of the encoder.
abbrev pub first_code : {S T : Type 0} → Code S → Code (S × T)
first_code f x = let y = f (x.0, x.1.0) in (y.0, (y.1, x.1.1))

abbrev pub second_code : {S T : Type 0} → Code T → Code (S × T)
second_code f x = let y = f (x.0, x.1.1) in (y.0, (x.1.0, y.1))

abbrev pub Both : {S T : Type 0} → (S → Type 0) → (T → Type 0) → S × T → Type 0
Both OK OK' t = OK t.0 × OK' t.1

pub first_code-IsCode :
    {S T : Type 0} (OK : S → Type 0) (OK' : T → Type 0) (f : Code S)
    → IsCode OK f
    → IsCode (Both OK OK') (first_code f)
first_code-IsCode OK OK' f c = record {
  wide = λ s t wide good. c.wide s t.0 wide good.0;
  tables = λ s t wide good. (c.tables s t.0 wide good.0, good.1);
  back = λ P s t back wide good h. c.back P s t.0 back wide good.0 h;
}

pub second_code-IsCode :
    {S T : Type 0} (OK : S → Type 0) (OK' : T → Type 0) (f : Code T)
    → IsCode OK' f
    → IsCode (Both OK OK') (second_code f)
second_code-IsCode OK OK' f c = record {
  wide = λ s t wide good. c.wide s t.1 wide good.1;
  tables = λ s t wide good. (good.0, c.tables s t.1 wide good.1);
  back = λ P s t back wide good h. c.back P s t.1 back wide good.1 h;
}
