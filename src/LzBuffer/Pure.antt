-- ===== src/LzBuffer/Pure.antt =====
-- The methods of the circular buffer that only read it.
use lzma_no_std_rs.Base.{
  ℕ, ◌≡◌, refl, Option, none, some, ltb, ◌==◌, M, expect, Keeps, >>=-Keeps, if-Keeps,
}
use lzma_no_std_rs.Error.{Error}
use lzma_no_std_rs.LzBuffer.{LzCircularBuffer, last_or, last_n}

-- `&self`
abbrev pub Reads : {S A : Type 0} → M Error S A → Type 0
Reads {S} m = Keeps (λ (s : S). s) m

expect-keeps : {S A : Type 0} (r : Option A) (s : S) → (expect {E = Error} r s).1 ≡ s
expect-keeps none s = refl
expect-keeps (some a) s = refl

pub expect-Reads : {S A : Type 0} (o : S → Option A) → Reads (λ (s : S). expect {E = Error} (o s) s)
expect-Reads o s = expect-keeps (o s) s

pub last_or-Reads : (lit : ℕ) → Reads (last_or lit)
unfolding last_or
last_or-Reads lit =
    >>=-Keeps (λ b. b) _ _ (expect-Reads (λ (b : LzCircularBuffer). b.dict_size))
      λ dict_size b.
        if-Keeps (λ b. b) (b.len == 0) _ _ (λ b. refl)
          (if-Keeps (λ b. b) (dict_size == 0) _ _ (λ b. refl) (λ b. refl)) b

pub last_n-Reads : (distance : ℕ) → Reads (last_n distance)
unfolding last_n
last_n-Reads distance =
    >>=-Keeps (λ b. b) _ _ (expect-Reads (λ (b : LzCircularBuffer). b.dict_size))
      λ dict_size b.
        if-Keeps (λ b. b) (ltb dict_size distance) _ _ (λ b. refl)
          (if-Keeps (λ b. b) (ltb b.len distance) _ _ (λ b. refl)
            (if-Keeps (λ b. b) (dict_size == 0) _ _ (λ b. refl) (λ b. refl)))
          b
