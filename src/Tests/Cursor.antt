-- ===== src/Tests/Cursor.antt =====
-- The theorems on the cursor at concrete inputs.
use lzma_no_std_rs.Base.{
  ℕ, ◌^◌, ◌≤◌, ◌≡◌, refl, inl, inr, List, [], ◌∷◌, arith, length, take, drop, ◌+◌,
}
use lzma_no_std_rs.Io.Interface.{invalid_input}
use lzma_no_std_rs.Io.Cursor.{Cursor, read, set_position}
use lzma_no_std_rs.Io.Cursor.Seek.{negsuc, from_current, seek, Leads, seek-LeadsFrom, seek-refuses}
use lzma_no_std_rs.Io.Cursor.Write.{write, read-write}

abbrev middle : Cursor
middle = record { inner = 1 ∷ 2 ∷ 3 ∷ 4 ∷ []; pos = 2 }

seek-LeadsFrom_example : seek (from_current (negsuc 0)) middle ≡ (inr 1, record middle { pos = 1 })
seek-LeadsFrom_example = seek-LeadsFrom (from_current (negsuc 0)) middle 1 (omega arith) refl

before_start : (b : ℕ) → Leads 2 (negsuc 2) b → 2 ^ 64 ≤ b
before_start b h = absurd (omega (arith, h))

seek-refuses_example : seek (from_current (negsuc 2)) middle ≡ (inl invalid_input, middle)
seek-refuses_example =
    seek-refuses (from_current (negsuc 2)) middle tt (omega arith) (omega arith) before_start

abbrev three : List ℕ
three = 7 ∷ 8 ∷ 9 ∷ []

read-write_example :
    ((write three middle).0 ≡ inr 2)
    × ((write three middle).1.pos ≡ 2 + 2)
    × (length (write three middle).1.inner ≡ length middle.inner)
    × ((read 2 (set_position 2 (write three middle).1)).0 ≡ inr (take 2 three))
    × (take 2 (write three middle).1.inner ≡ take 2 middle.inner)
    × (drop (2 + 2) (write three middle).1.inner ≡ drop (2 + 2) middle.inner)
read-write_example = read-write three middle 2 (omega arith) refl
