-- ===== src/LzBuffer/Keep.antt =====
-- `append_lz` of src/decode/lzbuffer.rs on any buffer that is ready, at any distance: no panic.
use lzma_no_std_rs.Base.{length, take, le→ltb, of_io, Sum-cases}
use lzma_no_std_rs.LzBuffer.{finish, write_out}
use lzma_no_std_rs.Base.{
  ℕ, zero, suc, ◌≡◌, inl, inr, false, arith, ltb, ◌==◌, Bool-cases, Post, next-Post, Post-mono,
}
use lzma_no_std_rs.Io.Interface.{Write}
use lzma_no_std_rs.LzBuffer.{LzCircularBuffer, append_literal, copy_loop, append_lz, get, offset_of}
use lzma_no_std_rs.LzBuffer.Valid.{IsReady, IsHalted, IsByte}
use lzma_no_std_rs.LzBuffer.Append.{append_literal-IsReady}
use lzma_no_std_rs.LzBuffer.Copy.{get_or-IsByte}

module _ {W : Type 0} ⦃wr : Write W⦄ (mem_limit d : ℕ) where
  abbrev pub ReadyOn : LzCircularBuffer × W → Type 0
  ReadyOn s = IsReady mem_limit d s.0

  abbrev pub Anything : LzCircularBuffer × W → Type 0
  Anything s = Unit {0}

  pub append_literal-ReadyOn :
      (lit : ℕ) (s : LzCircularBuffer × W)
      → ReadyOn s
      → IsByte lit
      → Post (λ _. ReadyOn) Anything (append_literal lit s)
  append_literal-ReadyOn lit s v byte =
      Post-mono (λ _ u. IsReady mem_limit d u.0) _ (λ u. IsHalted mem_limit u.0) _
        (append_literal lit s) (append_literal-IsReady mem_limit d lit s.0 s.1 v byte) (λ _ u h. h)
        (λ u h. tt)

  copy_loop-ReadyOn :
      (dict_size n offset : ℕ) (s : LzCircularBuffer × W)
      → ReadyOn s
      → Post (λ _. ReadyOn) Anything (copy_loop dict_size n offset s)
  unfolding copy_loop
  copy_loop-ReadyOn dict_size zero offset s v = v
  copy_loop-ReadyOn dict_size (suc n) offset s v =
      next-Post (λ _. ReadyOn) _ Anything (append_literal (get s.0 offset) s) _
        (append_literal-ReadyOn (get s.0 offset) s v (get_or-IsByte s.0.buf offset v.bytes))
        (λ u t h. copy_loop-ReadyOn dict_size n _ t h)

  pub append_lz-ReadyOn :
      (len distance : ℕ) (s : LzCircularBuffer × W)
      → ReadyOn s
      → Post (λ _. ReadyOn) Anything (append_lz len distance s)
  unfolding append_lz
  append_lz-ReadyOn len distance s v =
      let some_dict : (d == 0) ≡ false = ground (arith, v.inside) in
      elim (Bool-cases (ltb d distance)) [
        | inl far ↦ rw (v.dict, far) tt
        | inr known ↦ elim (Bool-cases (ltb s.0.len distance)) [
          | inl out ↦ rw (v.dict, known, out) tt
          | inr inside ↦
              rw (v.dict, known, inside, some_dict)
                (rw (← v.dict) (copy_loop-ReadyOn d len (offset_of s.0 d distance) s v))
        ]
      ]

  -- `finish` on a buffer that is ready.
  pub finish-returns :
      (s : LzCircularBuffer × W) → ReadyOn s → Post (λ _ _. Unit {0}) Anything (finish s)
  unfolding finish write_out
  finish-returns s v =
      let whole : ltb (length s.0.buf) s.0.cursor ≡ false =
        le→ltb _ _ (omega (arith, v.sized, v.inside, v.fits)) in
      elim (Bool-cases (ltb 0 s.0.cursor)) [
        | inr clean ↦ rw clean tt
        | inl pending ↦ elim (Sum-cases (wr.write_all (take s.0.cursor s.0.buf) s.1).0) [
          | inl (x, e) ↦ rw (pending, whole, e, of_io) tt
          | inr (u, e) ↦
              elim (Sum-cases (wr.flush (wr.write_all (take s.0.cursor s.0.buf) s.1).1).0) [
                | inl (x, e') ↦ rw (pending, whole, e, of_io, e', of_io) tt
                | inr (u', e') ↦ rw (pending, whole, e, of_io, e', of_io) tt
              ]
        ]
      ]
