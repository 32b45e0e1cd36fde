-- ===== src/LzBuffer/Read.antt =====
-- `last_or` and `last_n` of src/decode/lzbuffer.rs on a buffer that is ready: no panic, a byte, and no
-- change.
use lzma_no_std_rs.Base.{ℕ, ◌≡◌, refl, inl, inr, false, arith, ltb, ◌==◌, Bool-cases, Post}
use lzma_no_std_rs.LzBuffer.{LzCircularBuffer, last_or, last_n}
use lzma_no_std_rs.LzBuffer.Valid.{IsReady, IsByte}
use lzma_no_std_rs.LzBuffer.Copy.{get_or-IsByte}

-- A byte was read, from the buffer that was given.
abbrev pub ReadFrom : LzCircularBuffer → ℕ → LzCircularBuffer → Type 0
ReadFrom b byte b' = IsByte byte × (b' ≡ b)

pub last_or-ReadFrom :
    (mem_limit d lit : ℕ) (b : LzCircularBuffer)
    → IsReady mem_limit d b
    → IsByte lit
    → Post (ReadFrom b) (λ b'. b' ≡ b) (last_or lit b)
unfolding last_or
last_or-ReadFrom mem_limit d lit b v byte =
    let some_dict : (d == 0) ≡ false = ground (arith, v.inside) in
    elim (Bool-cases (b.len == 0)) [
      | inl fresh ↦ rw (v.dict, fresh) (rw (← v.dict) (byte, refl))
      | inr some_out ↦
          rw (v.dict, some_out, some_dict) (rw (← v.dict) (get_or-IsByte b.buf _ v.bytes, refl))
    ]

pub last_n-ReadFrom :
    (mem_limit d distance : ℕ) (b : LzCircularBuffer)
    → IsReady mem_limit d b
    → Post (ReadFrom b) (λ b'. b' ≡ b) (last_n distance b)
unfolding last_n
last_n-ReadFrom mem_limit d distance b v =
    let some_dict : (d == 0) ≡ false = ground (arith, v.inside) in
    elim (Bool-cases (ltb d distance)) [
      | inl far ↦ rw (v.dict, far) (rw (← v.dict) refl)
      | inr known ↦ elim (Bool-cases (ltb b.len distance)) [
        | inl out ↦ rw (v.dict, known, out) (rw (← v.dict) refl)
        | inr inside ↦
            rw (v.dict, known, inside, some_dict)
              (rw (← v.dict) (get_or-IsByte b.buf _ v.bytes, refl))
      ]
    ]
