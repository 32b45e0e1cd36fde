-- ===== src/Base/Failures.antt =====
-- What is known of an outcome that may be a panic.
use Prim.Native.Nat.{ℕ}
use mathlib.Core.Bool.{Bool, true, false}
use mathlib.Core.List.{List, [], ◌∷◌}
use mathlib.Core.Option.{Option, none, some}
use lzma_no_std_rs.Base.Tests.{if◌then◌else◌}
use lzma_no_std_rs.Base.Lists.{get_elem?, set}
use lzma_no_std_rs.Base.Places.{at_some, at_elem, on_field}
use lzma_no_std_rs.Base.Effects.{
  Result, ok, err, panic, M, next, ◌>>=◌, expect, when, put_back, zoom, relabel, map_err,
  first_then, for_each, Post,
}

-- What holds of the value and the state that `m` returns, or of the state that it leaves if it fails;
-- nothing is said of a panic.
abbrev pub Upto : {E S A : Type 0} → (A → S → Type 0) → (S → Type 0) → Result E A × S → Type 0
Upto Q X (ok a, s) = Q a s
Upto Q X (err e, s) = X s
Upto Q X (panic, s) = Unit

pub next-Upto :
    {E S A B : Type 0} (Q : A → S → Type 0) (Q' : B → S → Type 0) (X : S → Type 0)
    (o : Result E A × S) (f : A → M E S B)
    → Upto Q X o
    → ((a : A) (s : S) → Q a s → Upto Q' X (f a s))
    → Upto Q' X (next o f)
next-Upto Q Q' X (ok a, s) f h k = k a s h
next-Upto Q Q' X (err e, s) f h k = h
next-Upto Q Q' X (panic, s) f h k = tt

pub Keeps-Upto : {E S A : Type 0} (X : S → Type 0) (o : Result E A × S) → X o.1 → Upto (λ _. X) X o
Keeps-Upto X (ok a, s) h = h
Keeps-Upto X (err e, s) h = h
Keeps-Upto X (panic, s) h = tt

-- A method that returns or panics, and gives no error.
abbrev pub Returns : {E S A : Type 0} → Result E A × S → Type 0
Returns o = Upto (λ _ _. Unit {0}) (λ _. ⊥) o

pub next-Returns :
    {E S A B : Type 0} (o : Result E A × S) (f : A → M E S B)
    → Returns o
    → ((a : A) (s : S) → Returns (f a s))
    → Returns (next o f)
next-Returns (ok a, s) f h k = k a s
next-Returns (err e, s) f h k = absurd h
next-Returns (panic, s) f h k = tt

pub put_back-Returns :
    {E S T A : Type 0} (put : T → S → S) (s : S) (o : Result E A × T)
    → Returns o
    → Returns (put_back put s o)
put_back-Returns put s (ok a, t) h = tt
put_back-Returns put s (err e, t) h = h
put_back-Returns put s (panic, t) h = tt

cons-Returns :
    {E T : Type 0} (r : Result E (Unit {0})) (ys : List T) (x : T)
    → Returns (r, ys)
    → Returns (r, x ∷ ys)
cons-Returns (ok u) ys x k = tt
cons-Returns (err e) ys x k = k
cons-Returns panic ys x k = tt

first_then-Returns :
    {E T : Type 0} (o : Result E (Unit {0}) × T) (xs : List T)
    (later : Result E (Unit {0}) × List T)
    → Returns o
    → Returns later
    → Returns (first_then o xs later)
first_then-Returns (ok u, x) xs (r, ys) h k = cons-Returns r ys x k
first_then-Returns (err e, x) xs later h k = absurd h
first_then-Returns (panic, x) xs later h k = tt

pub for_each-Returns :
    {E T : Type 0} (m : M E T (Unit {0}))
    → ((t : T) → Returns (m t))
    → (ts : List T) → Returns (for_each m ts)
for_each-Returns m h [] = tt
for_each-Returns m h (t ∷ ts) =
    first_then-Returns (m t) ts (for_each m ts) (h t) (for_each-Returns m h ts)

-- With no error, what holds of every state that is put back holds of the outcome.
pub Returns-Upto :
    {E S T A : Type 0} (Q X : S → Type 0) (put : T → S → S) (s : S) (o : Result E A × T)
    → Returns o
    → ((t : T) → Q (put t s))
    → Upto (λ _. Q) X (put_back put s o)
Returns-Upto Q X put s (ok a, t) h k = k t
Returns-Upto Q X put s (err e, t) h k = absurd h
Returns-Upto Q X put s (panic, t) h k = tt

-- Total correctness with the error: `m` does not panic, `Q` holds of its value and state, `X` of its
-- error and state if it fails.
abbrev pub Ends : {E S A : Type 0} → (A → S → Type 0) → (E → S → Type 0) → Result E A × S → Type 0
Ends Q X (ok a, s) = Q a s
Ends Q X (err e, s) = X e s
Ends Q X (panic, s) = ⊥

-- What holds of the error, if there is one.
abbrev pub Throws : {E S A : Type 0} → (E → Type 0) → Result E A × S → Type 0
Throws F (ok a, s) = Unit
Throws F (err e, s) = F e
Throws F (panic, s) = Unit

pub Post-Ends :
    {E S A : Type 0} (Q : A → S → Type 0) (X : S → Type 0) (F : E → Type 0) (o : Result E A × S)
    → Post Q X o
    → Throws F o
    → Ends Q (λ e s. F e × X s) o
Post-Ends Q X F (ok a, s) h k = h
Post-Ends Q X F (err e, s) h k = (k, h)
Post-Ends Q X F (panic, s) h k = h

abbrev pub Raises : {E S A : Type 0} → (E → Type 0) → M E S A → Type 0
Raises F m = (s : _) → Throws F (m s)

next-Throws :
    {E S A B : Type 0} (F : E → Type 0) (o : Result E A × S) (f : A → M E S B)
    → Throws F o
    → ((a : A) → Raises F (f a))
    → Throws F (next o f)
next-Throws F (ok a, s) f h k = k a s
next-Throws F (err e, s) f h k = h
next-Throws F (panic, s) f h k = tt

pub >>=-Raises :
    {E S A B : Type 0} (F : E → Type 0) (m : M E S A) (f : A → M E S B)
    → Raises F m
    → ((a : A) → Raises F (f a))
    → Raises F (m >>= f)
>>=-Raises F m f h k s = next-Throws F (m s) f (h s) k

pub if-Raises :
    {E S A : Type 0} (F : E → Type 0) (b : Bool) (m n : M E S A)
    → Raises F m
    → Raises F n
    → Raises F (if b then m else n)
if-Raises F true m n h k = h
if-Raises F false m n h k = k

pub when-Raises :
    {E S : Type 0} (F : E → Type 0) (b : Bool) (m : M E S (Unit {0}))
    → Raises F m
    → Raises F (when b m)
when-Raises F true m h s = h s
when-Raises F false m h s = tt

pub put_back-Throws :
    {E S T A : Type 0} (F : E → Type 0) (put : T → S → S) (s : S) (o : Result E A × T)
    → Throws F o
    → Throws F (put_back put s o)
put_back-Throws F put s (ok a, t) h = h
put_back-Throws F put s (err e, t) h = h
put_back-Throws F put s (panic, t) h = h

relabel-Throws :
    {E G S A : Type 0} (F : E → Type 0) (F' : G → Type 0) (f : E → G) (o : Result E A × S)
    → ((e : E) → F e → F' (f e))
    → Throws F o
    → Throws F' (relabel f o)
relabel-Throws F F' f (ok a, s) k h = h
relabel-Throws F F' f (err e, s) k h = k e h
relabel-Throws F F' f (panic, s) k h = h

pub map_err-Raises :
    {E G S A : Type 0} (F : E → Type 0) (F' : G → Type 0) (f : E → G) (m : M E S A)
    → ((e : E) → F e → F' (f e))
    → Raises F m
    → Raises F' (map_err f m)
map_err-Raises F F' f m k h s = relabel-Throws F F' f (m s) k (h s)

pub zoom-Raises :
    {E S T A : Type 0} (F : E → Type 0) (get : S → T) (put : T → S → S) (m : M E T A)
    → Raises F m
    → Raises F (zoom get put m)
zoom-Raises F get put m h s = put_back-Throws F put s (m (get s)) (h (get s))

pub on_field-Raises :
    {E C S T A : Type 0} (F : E → Type 0) (get : S → T) (put : T → S → S) (m : M E (C × T) A)
    → Raises F m
    → Raises F (on_field get put m)
on_field-Raises F get put m h s =
    put_back-Throws F (λ u s'. (u.0, put u.1 s'.1)) s (m (s.0, get s.1)) (h (s.0, get s.1))

at_some-Throws :
    {E C T A : Type 0} (F : E → Type 0) (i : ℕ) (m : M E (C × T) A) (s : C × List T) (o : Option T)
    → Raises F m
    → Throws F (at_some i m s o)
at_some-Throws F i m s none h = tt
at_some-Throws F i m s (some t) h =
    put_back-Throws F (λ u s'. (u.0, set s'.1 i u.1)) s (m (s.0, t)) (h (s.0, t))

pub at_elem-Raises :
    {E C T A : Type 0} (F : E → Type 0) (i : ℕ) (m : M E (C × T) A)
    → Raises F m
    → Raises F (at_elem i m)
at_elem-Raises F i m h s = at_some-Throws F i m s (get_elem? s.1 i) h

pub expect-Raises : {E S A : Type 0} (F : E → Type 0) (o : Option A) → Raises {S = S} F (expect o)
expect-Raises F none s = tt
expect-Raises F (some a) s = tt
