-- ===== src/Io/Cursor/Seek.antt =====
-- src/io/cursor.rs, `Seek for Cursor`, with `SeekFrom` and the signed offsets of the standard library.
use lzma_no_std_rs.Base.{
  ℕ, ◌+◌, ◌-◌, ◌^◌, ◌≤◌, ◌<◌, ◌≡◌, refl, ap, ◌⊎◌, inl, inr, true, false, Option, none, some, arith,
  ltb, leb, if◌then◌else◌, le→ltb, leb→le, Bool-cases, length,
}
use lzma_no_std_rs.Io.Interface.{IoError, invalid_input}
use lzma_no_std_rs.Io.Cursor.{Cursor}

-- `negsuc n` is `-(n + 1)`.
pub data ℤ : Type 0 where
  pos : ℕ → ℤ
  negsuc : ℕ → ℤ

pub data SeekFrom : Type 0 where
  from_start : ℕ → SeekFrom
  from_end : ℤ → SeekFrom
  from_current : ℤ → SeekFrom

-- `checked_add` and `checked_sub` on `u64`.
unfoldable pub checked_add : ℕ → ℕ → Option ℕ
checked_add a b = if ltb (a + b) (2 ^ 64) then some (a + b) else none

unfoldable pub checked_sub : ℕ → ℕ → Option ℕ
checked_sub a b = if leb b a then some (a - b) else none

-- `offset.wrapping_neg() as u64` is the absolute value, of the least `i64` too.
unfoldable pub new_pos : ℕ → ℤ → Option ℕ
unfolding checked_add checked_sub
new_pos base_pos (pos n) = checked_add base_pos n
new_pos base_pos (negsuc n) = checked_sub base_pos (n + 1)

abbrev pub land : Option ℕ → Cursor → (IoError ⊎ ℕ) × Cursor
land (some n) c = (inr n, record c { pos = n })
land none c = (inl invalid_input, c)

unfoldable pub seek : SeekFrom → Cursor → (IoError ⊎ ℕ) × Cursor
unfolding new_pos
seek (from_start n) c = (inr n, record c { pos = n })
seek (from_end n) c = land (new_pos (length c.inner) n) c
seek (from_current n) c = land (new_pos c.pos n) c

-- The offset leads from `a` to `b`.
abbrev pub Leads : ℕ → ℤ → ℕ → Type 0
Leads a (pos n) b = a + n ≡ b
Leads a (negsuc n) b = b + n + 1 ≡ a

abbrev pub LeadsFrom : SeekFrom → Cursor → ℕ → Type 0
LeadsFrom (from_start n) c b = n ≡ b
LeadsFrom (from_end n) c b = Leads (length c.inner) n b
LeadsFrom (from_current n) c b = Leads c.pos n b

new_pos-Leads : (a b : ℕ) (n : ℤ) → b < 2 ^ 64 → Leads a n b → new_pos a n ≡ some b
unfolding new_pos checked_add checked_sub
new_pos-Leads a b (pos n) fits h =
    let inside : ltb (a + n) (2 ^ 64) ≡ true = ground (arith, fits, h) in rw inside (ap some h)
new_pos-Leads a b (negsuc n) fits h =
    let inside : leb (n + 1) a ≡ true = ground (arith, h) in
    let back : a - (n + 1) ≡ b = omega (arith, h) in rw inside (ap some back)

-- If the start, or the offset from the end or from the position, leads to a u64, seek returns it
-- and moves there.
pub seek-LeadsFrom :
    (style : SeekFrom) (c : Cursor) (b : ℕ)
    → b < 2 ^ 64
    → LeadsFrom style c b
    → seek style c ≡ (inr b, record c { pos = b })
unfolding seek
seek-LeadsFrom (from_start n) c b fits h = ap (λ m. (inr m, record c { pos = m })) h
seek-LeadsFrom (from_end n) c b fits h =
    ap (λ o. land o c) (new_pos-Leads (length c.inner) b n fits h)
seek-LeadsFrom (from_current n) c b fits h = ap (λ o. land o c) (new_pos-Leads c.pos b n fits h)

-- A start is a `u64`.
abbrev pub IsWord : SeekFrom → Type 0
IsWord (from_start n) = n < 2 ^ 64
IsWord _ = Unit {0}

new_pos-none :
    (a : ℕ) (n : ℤ) → a < 2 ^ 64 → ((b : ℕ) → Leads a n b → 2 ^ 64 ≤ b) → new_pos a n ≡ none
unfolding new_pos checked_add checked_sub
new_pos-none a (pos n) fits h =
    let far : 2 ^ 64 ≤ a + n = h (a + n) refl in
    let outside : ltb (a + n) (2 ^ 64) ≡ false = le→ltb _ _ far in rw outside refl
new_pos-none a (negsuc n) fits h = elim (Bool-cases (leb (n + 1) a)) [
  | inl inside ↦
      let least : n + 1 ≤ a = leb→le _ _ inside in
      let far : 2 ^ 64 ≤ a - (n + 1) = h (a - (n + 1)) (omega (arith, least)) in
      absurd (omega (arith, far, fits))
  | inr outside ↦ rw outside refl
]

-- If the offset leads to no u64, from an end or a position that is one, seek returns the error
-- InvalidInput and does not move.
pub seek-refuses :
    (style : SeekFrom) (c : Cursor)
    → IsWord style
    → c.pos < 2 ^ 64
    → length c.inner < 2 ^ 64
    → ((b : ℕ) → LeadsFrom style c b → 2 ^ 64 ≤ b)
    → seek style c ≡ (inl invalid_input, c)
unfolding seek
seek-refuses (from_start n) c word here all h = absurd (omega (arith, word, h n refl))
seek-refuses (from_end n) c word here all h =
    ap (λ o. land o c) (new_pos-none (length c.inner) n all h)
seek-refuses (from_current n) c word here all h = ap (λ o. land o c) (new_pos-none c.pos n here h)
