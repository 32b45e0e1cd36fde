-- ===== src/LzBuffer/History.antt =====
-- The abstract view of the circular buffer of src/decode/lzbuffer.rs: the list of all bytes that were
-- sent through it, oldest first.
use lzma_no_std_rs.Base.{
  ℕ, zero, suc, ◌+◌, ◌-◌, ◌≡◌, List, [], ◌∷◌, ◌++◌, arith, length, get_or, length-append,
}

-- The byte at a distance from the end; the last one has distance 1.
abbrev pub nth_last : List ℕ → ℕ → ℕ
nth_last h distance = get_or h (length h - distance) 0

-- An LZ copy repeats what stands at the distance, byte by byte, so that it may reach into itself.
abbrev pub lz_copy : ℕ → ℕ → List ℕ → List ℕ
lz_copy zero distance h = h
lz_copy (suc n) distance h = lz_copy n distance (h ++ nth_last h distance ∷ [])

pub length-lz_copy : (n distance : ℕ) (h : List ℕ) → length (lz_copy n distance h) ≡ length h + n
length-lz_copy zero distance h = omega arith
length-lz_copy (suc n) distance h = omega (
  arith,
  length-lz_copy n distance (h ++ nth_last h distance ∷ []),
  length-append h (nth_last h distance ∷ []),
)
