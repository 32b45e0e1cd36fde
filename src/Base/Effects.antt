-- ===== src/Base/Effects.antt =====
-- The effects of the crate's methods. A method takes `&mut self` and returns a `Result`, or panics:
-- a function from the state to the outcome and the state that it leaves, on errors too.
use mathlib.Core.Path.{◌≡◌, refl, ◌∙◌, sym, subst}
use mathlib.Core.List.{List, [], ◌∷◌}
use mathlib.Core.Option.{Option, none, some}
use mathlib.Core.Logic.{◌⊎◌, inl, inr}
use mathlib.Core.Bool.{Bool, true, false}
use lzma_no_std_rs.Base.Tests.{if◌then◌else◌}

pub data Result (E A : Type 0) : Type 0 where
  ok : A → Result E A
  err : E → Result E A
  panic : Result E A

abbrev pub Outcome : Type 0 → Type 0 → Type 0 → Type 0
Outcome E S A = Result E A × S

abbrev pub M : Type 0 → Type 0 → Type 0 → Type 0
M E S A = S → Result E A × S

-- What `?` does: the rest runs in the state that the first part left, and only if that succeeded.
abbrev pub next : {E S A B : Type 0} → Result E A × S → (A → M E S B) → Result E B × S
next (ok a, s) f = f a s
next (err e, s) f = (err e, s)
next (panic, s) f = (panic, s)

infixl 5 ◌>>=◌ ◌>>◌
abbrev pub ◌>>=◌ : {E S A B : Type 0} → M E S A → (A → M E S B) → M E S B
◌>>=◌ m f s = next (m s) f

abbrev pub ◌>>◌ : {E S B : Type 0} → M E S (Unit {0}) → M E S B → M E S B
◌>>◌ m k s = next (m s) (λ _. k)

abbrev pub return : {E S A : Type 0} → A → M E S A
return a s = (ok a, s)

abbrev pub throw : {E S A : Type 0} → E → M E S A
throw e s = (err e, s)

abbrev pub panics : {E S A : Type 0} → M E S A
panics s = (panic, s)

abbrev pub gets : {E S A : Type 0} → (S → A) → M E S A
gets f s = (ok (f s), s)

abbrev pub modify : {E S : Type 0} → (S → S) → M E S (Unit {0})
modify f s = (ok tt, f s)

-- `match o { Some(v) => v, None => panic!(..) }`, an index out of bounds included
abbrev pub expect : {E S A : Type 0} → Option A → M E S A
expect none s = (panic, s)
expect (some a) s = (ok a, s)

-- `if c { m }`
abbrev pub when : {E S : Type 0} → Bool → M E S (Unit {0}) → M E S (Unit {0})
when true m = m
when false m = return tt

-- `m` on a part of the state.
abbrev pub put_back : {E S T A : Type 0} → (T → S → S) → S → Result E A × T → Result E A × S
put_back put s (r, t) = (r, put t s)

abbrev pub zoom : {E S T A : Type 0} → (S → T) → (T → S → S) → M E T A → M E S A
zoom get put m s = put_back put s (m (get s))

-- `map_err`, also where `?` converts the error by `From`.
abbrev pub convert : {E F A : Type 0} → (E → F) → Result E A → Result F A
convert f (ok a) = ok a
convert f (err e) = err (f e)
convert f panic = panic

abbrev pub relabel : {E F S A : Type 0} → (E → F) → Result E A × S → Result F A × S
relabel f (r, s) = (convert f r, s)

abbrev pub map_err : {E F S A : Type 0} → (E → F) → M E S A → M F S A
map_err f m s = relabel f (m s)

-- `xs.iter_mut().for_each(m)`, and the same where `m` may panic
abbrev pub first_then :
    {E T : Type 0}
    → Result E (Unit {0}) × T
    → List T
    → Result E (Unit {0}) × List T
    → Result E (Unit {0}) × List T
first_then (ok u, x) xs (r, ys) = (r, x ∷ ys)
first_then (err e, x) xs later = (err e, x ∷ xs)
first_then (panic, x) xs later = (panic, x ∷ xs)

abbrev pub for_each : {E T : Type 0} → M E T (Unit {0}) → M E (List T) (Unit {0})
for_each m [] = (ok tt, [])
for_each m (x ∷ xs) = first_then (m x) xs (for_each m xs)

-- A call of an external method, which returns and does not panic.
abbrev pub of_io : {E A S : Type 0} → (E ⊎ A) × S → Result E A × S
of_io (inl e, s) = (err e, s)
of_io (inr a, s) = (ok a, s)

-- Total correctness: `m` does not panic, `Q` holds of its value and state, `X` of its state if it
-- fails.
abbrev pub Post : {E S A : Type 0} → (A → S → Type 0) → (S → Type 0) → Result E A × S → Type 0
Post Q X (ok a, s) = Q a s
Post Q X (err e, s) = X s
Post Q X (panic, s) = ⊥

pub next-Post :
    {E S A B : Type 0} (Q : A → S → Type 0) (Q' : B → S → Type 0) (X : S → Type 0)
    (o : Result E A × S) (f : A → M E S B)
    → Post Q X o
    → ((a : A) (s : S) → Q a s → Post Q' X (f a s))
    → Post Q' X (next o f)
next-Post Q Q' X (ok a, s) f h k = k a s h
next-Post Q Q' X (err e, s) f h k = h
next-Post Q Q' X (panic, s) f h k = h

pub Post-mono :
    {E S A : Type 0} (Q Q' : A → S → Type 0) (X X' : S → Type 0) (o : Result E A × S)
    → Post Q X o
    → ((a : A) (s : S) → Q a s → Q' a s)
    → ((s : S) → X s → X' s)
    → Post Q' X' o
Post-mono Q Q' X X' (ok a, s) h f g = f a s h
Post-mono Q Q' X X' (err e, s) h f g = g s h
Post-mono Q Q' X X' (panic, s) h f g = absurd h

pub Post-and :
    {E S A : Type 0} (Q Q' : A → S → Type 0) (X X' : S → Type 0) (o : Result E A × S)
    → Post Q X o
    → Post Q' X' o
    → Post (λ a s. Q a s × Q' a s) (λ s. X s × X' s) o
Post-and Q Q' X X' (ok a, s) h k = (h, k)
Post-and Q Q' X X' (err e, s) h k = (h, k)
Post-and Q Q' X X' (panic, s) h k = h

-- What holds of the state whatever the outcome.
pub Post-beside :
    {E S A : Type 0} (Q : A → S → Type 0) (X P : S → Type 0) (o : Result E A × S)
    → Post Q X o
    → P o.1
    → Post (λ a s. Q a s × P s) (λ s. X s × P s) o
Post-beside Q X P (ok a, s) h p = (h, p)
Post-beside Q X P (err e, s) h p = (h, p)
Post-beside Q X P (panic, s) h p = h

-- A call that is known to succeed.
pub Post-ok :
    {E S A : Type 0} (Q : A → S → Type 0) (X X' : S → Type 0) (o : Result E A × S) (a : A) (s : S)
    → o ≡ (ok a, s)
    → Post Q X o
    → Post Q X' o
Post-ok Q X X' o a s e h = subst (Post Q X') (sym e) (subst (Post Q X) e h)

pub put_back-Post :
    {E S T A : Type 0} (Q : A → S → Type 0) (X : S → Type 0) (put : T → S → S) (s : S)
    (o : Result E A × T)
    → Post (λ a t. Q a (put t s)) (λ t. X (put t s)) o
    → Post Q X (put_back put s o)
put_back-Post Q X put s (ok a, t) h = h
put_back-Post Q X put s (err e, t) h = h
put_back-Post Q X put s (panic, t) h = h

pub relabel-Post :
    {E F S A : Type 0} (Q : A → S → Type 0) (X : S → Type 0) (f : E → F) (o : Result E A × S)
    → Post Q X o
    → Post Q X (relabel f o)
relabel-Post Q X f (ok a, s) h = h
relabel-Post Q X f (err e, s) h = h
relabel-Post Q X f (panic, s) h = h

-- What holds of the state before the call holds of it after the call, whatever the outcome.
abbrev pub Preserves : {E S A : Type 0} → (S → Type 0) → M E S A → Type 0
Preserves P m = (s : _) → P s → P (m s).1

pub next-Preserves :
    {E S A B : Type 0} (P : S → Type 0) (o : Result E A × S) (f : A → M E S B)
    → P o.1
    → ((a : A) → Preserves P (f a))
    → P (next o f).1
next-Preserves P (ok a, s) f h k = k a s h
next-Preserves P (err e, s) f h k = h
next-Preserves P (panic, s) f h k = h

pub >>=-Preserves :
    {E S A B : Type 0} (P : S → Type 0) (m : M E S A) (f : A → M E S B)
    → Preserves P m
    → ((a : A) → Preserves P (f a))
    → Preserves P (m >>= f)
>>=-Preserves P m f h k s p = next-Preserves P (m s) f (h s p) k

pub if-Preserves :
    {E S A : Type 0} (P : S → Type 0) (b : Bool) (m n : M E S A)
    → Preserves P m
    → Preserves P n
    → Preserves P (if b then m else n)
if-Preserves P true m n h k = h
if-Preserves P false m n h k = k

pub when-Preserves :
    {E S : Type 0} (P : S → Type 0) (b : Bool) (m : M E S (Unit {0}))
    → Preserves P m
    → Preserves P (when b m)
when-Preserves P true m h s p = h s p
when-Preserves P false m h s p = p

-- `m` leaves what `view` shows of the state as it was, whatever the outcome.
abbrev pub Keeps : {E S A V : Type 0} → (S → V) → M E S A → Type 0
Keeps view m = (s : _) → view (m s).1 ≡ view s

next-Keeps :
    {E S A B V : Type 0} (view : S → V) (v : V) (o : Result E A × S) (f : A → M E S B)
    → view o.1 ≡ v
    → ((a : A) → Keeps view (f a))
    → view (next o f).1 ≡ v
next-Keeps view v (ok a, s) f h k = k a s ∙ h
next-Keeps view v (err e, s) f h k = h
next-Keeps view v (panic, s) f h k = h

pub >>=-Keeps :
    {E S A B V : Type 0} (view : S → V) (m : M E S A) (f : A → M E S B)
    → Keeps view m
    → ((a : A) → Keeps view (f a))
    → Keeps view (m >>= f)
>>=-Keeps view m f h k s = next-Keeps view (view s) (m s) f (h s) k

pub when-Keeps :
    {E S V : Type 0} (view : S → V) (b : Bool) (m : M E S (Unit {0}))
    → (b ≡ true → Keeps view m)
    → Keeps view (when b m)
when-Keeps view true m h s = h refl s
when-Keeps view false m h s = refl

pub Sum-cases : {A B : Type 0} (x : A ⊎ B) → ((a : A) × (x ≡ inl a)) ⊎ ((b : B) × (x ≡ inr b))
Sum-cases (inl a) = inl (a, refl)
Sum-cases (inr b) = inr (b, refl)

pub if-Keeps :
    {E S A V : Type 0} (view : S → V) (b : Bool) (m n : M E S A)
    → Keeps view m
    → Keeps view n
    → Keeps view (if b then m else n)
if-Keeps view true m n h k = h
if-Keeps view false m n h k = k
