-- ===== src/Base/Places.antt =====
-- Methods that act on a part of the state beside a part `C` that all share: a field, or an element of an
-- array. Reading or writing out of bounds panics.
use Prim.Native.Nat.{ℕ, ◌<◌}
use mathlib.Core.Path.{◌≡◌, refl, ◌∙◌, ap, sym, subst}
use mathlib.Core.Option.{Option, none, some}
use mathlib.Core.List.{List}
use lzma_no_std_rs.Base.Lists.{
  length, get_elem?, set, All, All-get_elem?, All-set, length-set, set-get_elem?,
}
use lzma_no_std_rs.Base.Effects.{
  M, Result, panic, when, put_back, Preserves, >>=-Preserves, if-Preserves, when-Preserves, Post,
  Post-mono, put_back-Post, ◌>>=◌, >>=-Keeps, if-Keeps,
}
use lzma_no_std_rs.Base.Tests.{if◌then◌else◌}
use mathlib.Core.Bool.{Bool}

-- `m` on the element at `i`
abbrev pub at_some :
    {E C T A : Type 0} → ℕ → M E (C × T) A → C × List T → Option T → Result E A × (C × List T)
at_some i m s none = (panic, s)
at_some i m s (some t) = put_back (λ u s'. (u.0, set s'.1 i u.1)) s (m (s.0, t))

abbrev pub at_elem : {E C T A : Type 0} → ℕ → M E (C × T) A → M E (C × List T) A
at_elem i m s = at_some i m s (get_elem? s.1 i)

-- `m` on a field
abbrev pub on_field : {E C S T A : Type 0} → (S → T) → (T → S → S) → M E (C × T) A → M E (C × S) A
on_field get put m s = put_back (λ u s'. (u.0, put u.1 s'.1)) s (m (s.0, get s.1))

-- What is left beside the shared part stays as it was.
abbrev pub Spares : {E C S A : Type 0} → M E (C × S) A → Type 0
Spares {E} {C} {S} m = (s : C × S) → (m s).1.1 ≡ s.1

at_some-Spares :
    {E C T A : Type 0} (i : ℕ) (m : M E (C × T) A) (s : C × List T) (o : Option T)
    → Spares m
    → get_elem? s.1 i ≡ o
    → (at_some i m s o).1.1 ≡ s.1
at_some-Spares i m s none h e = refl
at_some-Spares i m s (some t) h e = ap (set s.1 i) (h (s.0, t)) ∙ set-get_elem? s.1 i t e

pub at_elem-Spares :
    {E C T A : Type 0} (i : ℕ) (m : M E (C × T) A) → Spares m → Spares (at_elem i m)
at_elem-Spares i m h s = at_some-Spares i m s (get_elem? s.1 i) h refl

-- A field that is written back as it was read.
pub on_field-Spares :
    {E C S T A : Type 0} (get : S → T) (put : T → S → S) (m : M E (C × T) A)
    → ((s : S) → put (get s) s ≡ s)
    → Spares m
    → Spares (on_field get put m)
on_field-Spares get put m same h s = ap (λ t. put t s.1) (h (s.0, get s.1)) ∙ same s.1

-- Total correctness on an element: `m` keeps `P` of it and `K` of the shared part, or `X` if it fails.
module _ {E C T A : Type 0} (K X : C → Type 0) (P : T → Type 0) (Q : A → Type 0) (i : ℕ)
    (m : M E (C × T) A) (s : C × List T) where
  at_some-Post :
      (o : Option T)
      → All P s.1
      → (t : T) × (o ≡ some t) × P t
      → ((t : T) → P t → Post (λ a u. Q a × K u.0 × P u.1) (λ u. X u.0 × P u.1) (m (s.0, t)))
      → Post
          (λ a u. Q a × K u.0 × All P u.1 × (length u.1 ≡ length s.1))
          (λ u. X u.0 × All P u.1 × (length u.1 ≡ length s.1))
          (at_some i m s o)
  at_some-Post o all (t, e, p) h =
      rw (e, at_some)
        (put_back-Post (λ a u. Q a × K u.0 × All P u.1 × (length u.1 ≡ length s.1))
          (λ u. X u.0 × All P u.1 × (length u.1 ≡ length s.1)) (λ u s'. (u.0, set s'.1 i u.1)) s
          (m (s.0, t))
          (Post-mono (λ a u. Q a × K u.0 × P u.1) _ (λ u. X u.0 × P u.1) _ (m (s.0, t)) (h t p)
            (λ a u q. (q.0, q.1, All-set P s.1 i u.1 q.2 all, length-set s.1 i u.1))
            (λ u x. (x.0, All-set P s.1 i u.1 x.1 all, length-set s.1 i u.1))))

  pub at_elem-Post :
      All P s.1
      → i < length s.1
      → ((t : T) → P t → Post (λ a u. Q a × K u.0 × P u.1) (λ u. X u.0 × P u.1) (m (s.0, t)))
      → Post
          (λ a u. Q a × K u.0 × All P u.1 × (length u.1 ≡ length s.1))
          (λ u. X u.0 × All P u.1 × (length u.1 ≡ length s.1))
          (at_elem i m s)
  at_elem-Post all below = at_some-Post (get_elem? s.1 i) all (All-get_elem? P s.1 i all below)

-- `Spares` through the constructs of a method.
pub >>=-Spares :
    {E C S A B : Type 0} (m : M E (C × S) A) (f : A → M E (C × S) B)
    → Spares m
    → ((a : A) → Spares (f a))
    → Spares (m >>= f)
>>=-Spares m f = >>=-Keeps (λ s. s.1) m f

pub if-Spares :
    {E C S A : Type 0} (b : Bool) (m n : M E (C × S) A)
    → Spares m
    → Spares n
    → Spares (if b then m else n)
if-Spares b m n = if-Keeps (λ s. s.1) b m n

-- What holds of the shared part before the call holds of it after the call, whatever the outcome.
abbrev pub Retains : {E C S A : Type 0} → (C → Type 0) → M E (C × S) A → Type 0
Retains P m = Preserves (λ s. P s.0) m

pub >>=-Retains :
    {E C S A B : Type 0} (P : C → Type 0) (m : M E (C × S) A) (f : A → M E (C × S) B)
    → Retains P m
    → ((a : A) → Retains P (f a))
    → Retains P (m >>= f)
>>=-Retains P m f = >>=-Preserves (λ s. P s.0) m f

pub if-Retains :
    {E C S A : Type 0} (P : C → Type 0) (b : Bool) (m n : M E (C × S) A)
    → Retains P m
    → Retains P n
    → Retains P (if b then m else n)
if-Retains P b m n = if-Preserves (λ s. P s.0) b m n

pub when-Retains :
    {E C S : Type 0} (P : C → Type 0) (b : Bool) (m : M E (C × S) (Unit {0}))
    → Retains P m
    → Retains P (when b m)
when-Retains P b m = when-Preserves (λ s. P s.0) b m

at_some-Retains :
    {E C T A : Type 0} (P : C → Type 0) (i : ℕ) (m : M E (C × T) A) (s : C × List T) (o : Option T)
    → Retains P m
    → P s.0
    → P (at_some i m s o).1.0
at_some-Retains P i m s none h p = p
at_some-Retains P i m s (some t) h p = h (s.0, t) p

pub at_elem-Retains :
    {E C T A : Type 0} (P : C → Type 0) (i : ℕ) (m : M E (C × T) A)
    → Retains P m
    → Retains P (at_elem i m)
at_elem-Retains P i m h s p = at_some-Retains P i m s (get_elem? s.1 i) h p

pub on_field-Retains :
    {E C S T A : Type 0} (P : C → Type 0) (get : S → T) (put : T → S → S) (m : M E (C × T) A)
    → Retains P m
    → Retains P (on_field get put m)
on_field-Retains P get put m h s p = h (s.0, get s.1) p

-- On an element that is there.
at_some-run :
    {E C T A : Type 0} (Q : A → C × List T → Type 0) (X : C × List T → Type 0) (i : ℕ)
    (m : M E (C × T) A) (s : C × List T) (t : T)
    → Post (λ a u. Q a (u.0, set s.1 i u.1)) (λ u. X (u.0, set s.1 i u.1)) (m (s.0, t))
    → Post Q X (at_some i m s (some t))
at_some-run Q X i m s t h = put_back-Post Q X (λ u s'. (u.0, set s'.1 i u.1)) s (m (s.0, t)) h

pub at_elem-run :
    {E C T A : Type 0} (Q : A → C × List T → Type 0) (X : C × List T → Type 0) (i : ℕ)
    (m : M E (C × T) A) (s : C × List T) (t : T)
    → get_elem? s.1 i ≡ some t
    → Post (λ a u. Q a (u.0, set s.1 i u.1)) (λ u. X (u.0, set s.1 i u.1)) (m (s.0, t))
    → Post Q X (at_elem i m s)
at_elem-run Q X i m s t e h =
    subst (λ o. Post Q X (at_some i m s o)) (sym e) (at_some-run Q X i m s t h)
