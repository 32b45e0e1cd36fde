-- ===== src/LzBuffer/Reset.antt =====
-- `new`, `set_dict_size`, `finish` and `reset` of src/decode/lzbuffer.rs: how a buffer starts and ends.
use lzma_no_std_rs.Base.{
  ℕ, ◌^◌, ◌≤◌, ◌<◌, ◌≡◌, refl, sym, ap, ◌∙◌, inl, inr, false, some, List, [], ◌++◌, append-nil,
  arith, ltb, ltb→le, le→ltb, Bool-cases, length, take, All, length-replicate, replicate-map,
  All-replicate, ok, of_io, Post, Sum-cases,
}
use lzma_no_std_rs.Io.Interface.{Write}
use lzma_no_std_rs.LzBuffer.{LzCircularBuffer, new, set_dict_size, reset, finish, write_out}
use lzma_no_std_rs.LzBuffer.Valid.{IsByte, IsHalted}
use lzma_no_std_rs.LzBuffer.Copy.{Follows}

-- A buffer that was reset, or never used.
pub record IsFresh (mem_limit : ℕ) (b : LzCircularBuffer) : Type 0 where
  pub sized : length b.buf ≡ mem_limit
  pub cursor : b.cursor ≡ 0
  pub len : b.len ≡ 0
  pub bytes : All IsByte b.buf

-- reset of any buffer gives what new gives for the same size.
pub reset-new : (b : LzCircularBuffer) → reset b ≡ new (length b.buf)
unfolding reset new
reset-new b = rw (replicate-map {B = ℕ} b.buf 0)

pub new-IsFresh : (mem_limit : ℕ) → IsFresh mem_limit (new mem_limit)
unfolding new
new-IsFresh mem_limit = record {
  sized = length-replicate mem_limit 0;
  cursor = refl;
  len = refl;
  bytes = All-replicate IsByte mem_limit 0 (omega arith);
}

pub reset-IsFresh : (b : LzCircularBuffer) → IsFresh (length b.buf) (reset b)
reset-IsFresh b = rw reset-new (new-IsFresh (length b.buf))

-- A dictionary that is not larger than the memory makes a fresh buffer ready, with no history yet.
module _ {W : Type 0} ⦃wr : Write W⦄ where
  -- On a fresh buffer of fewer than 2 ^ 63 bytes, set_dict_size with a size from 1 to that of the
  -- buffer succeeds, and the buffer follows the empty history.
  pub set_dict_size-Follows :
      (mem_limit d : ℕ) (b : LzCircularBuffer) (w : W)
      → mem_limit < 2 ^ 63
      → 0 < d
      → d ≤ mem_limit
      → IsFresh mem_limit b
      → (set_dict_size mem_limit d b ≡ (ok tt, record b { dict_size = some d }))
        × Follows mem_limit d (wr.written w) [] (record b { dict_size = some d }, w)
  unfolding set_dict_size
  set_dict_size-Follows mem_limit d b w small pos fits v = (
    rw (le→ltb mem_limit d fits),
    (
      record {
        sized = v.sized;
        small = small;
        dict = refl;
        fits = fits;
        inside = rw v.cursor pos;
        bytes = v.bytes;
      },
      record {
        shown = rw v.cursor;
        counted = v.len;
        placed = omega (arith, v.cursor);
        recent = λ j below near. absurd (omega arith);
      },
    ),
  )

  -- On a buffer that follows the history h, finish returns only if the sink holds all of h behind
  -- what it had before, and then the buffer is as new; it does not panic.
  pub finish_lem :
      (mem_limit d : ℕ) (before h : List ℕ) (s : LzCircularBuffer × W)
      → Follows mem_limit d before h s
      → Post
          (λ _ s'. (wr.written s'.1 ≡ before ++ h) × (s'.0 ≡ new mem_limit))
          (λ s'. IsHalted mem_limit s'.0)
          (finish s)
  unfolding finish write_out
  finish_lem mem_limit d before h s f = elim (Bool-cases (ltb 0 s.0.cursor)) [
    | inr clean ↦
        let at_start : s.0.cursor ≡ 0 = omega (arith, ltb→le 0 s.0.cursor clean) in
        let all_out : wr.written s.1 ≡ before ++ h =
          sym (append-nil (wr.written s.1)) ∙ (rw at_start at f.1.shown) in
        rw clean (all_out, reset_new)
    | inl pending ↦ elim (Sum-cases (wr.write_all (take s.0.cursor s.0.buf) s.1).0) [
      | inl (x, e) ↦ rw (pending, whole, e, of_io) halted
      | inr (u, e) ↦
          let s' = (wr.write_all (take s.0.cursor s.0.buf) s.1).1 in
          let out : wr.written s' ≡ before ++ h = wr.write_all_appends _ s.1 e ∙ f.1.shown in
          elim (Sum-cases (wr.flush s').0) [
            | inl (x, e') ↦ rw (pending, whole, e, of_io, e', of_io) halted
            | inr (u', e') ↦
                rw (pending, whole, e, of_io, e', of_io) (wr.flush_written s' ∙ out, reset_new)
          ]
    ]
  ]
    where
      reset_new : reset s.0 ≡ new mem_limit
      reset_new = reset-new s.0 ∙ ap new f.0.sized

      whole : ltb (length s.0.buf) s.0.cursor ≡ false
      whole = le→ltb _ _ (omega (arith, f.0.sized, f.0.inside, f.0.fits))

      halted : IsHalted mem_limit s.0
      halted = record {
        sized = f.0.sized;
        inside = omega (arith, f.0.inside, f.0.fits);
        bytes = f.0.bytes;
      }
