-- ===== src/Lzma/Process/Probe.antt =====
-- src/decode/lzma.rs, `try_process_next`: the look ahead leaves the whole state as it was.
use lzma_no_std_rs.Base.{
  ℕ, ◌≡◌, refl, ap, ◌∙◌, Bool, false, ◌&&◌, List, Result, ok, err, panic, Keeps, >>=-Keeps,
  if-Keeps,
}
use lzma_no_std_rs.Io.Interface.{BufRead, Write}
use lzma_no_std_rs.Io.Cursor
use lzma_no_std_rs.Io.Cursor.{Cursor}
use lzma_no_std_rs.Io.Cursor.Reader.{cursor_reader}
use lzma_no_std_rs.Error.{Error}
use lzma_no_std_rs.RangeDecoder.{RangeDecoder, from_parts}
use lzma_no_std_rs.Lzma.Step.{Session}
use lzma_no_std_rs.Lzma.State.{ProcessingMode}
use lzma_no_std_rs.Lzma.Step.{process_next_inner}
use lzma_no_std_rs.Lzma.Step.Pure.{process_next_inner-Spares}
use lzma_no_std_rs.Lzma.Process.{
  hand_back, is_err_of, is_partial, on_slice, try_process_next, is_starved,
}

abbrev Whole : {S : Type 0} → S → S
Whole s = s

hand_back-keeps :
    {C T S A : Type 0} (c : C) (o : Result Error A × (T × S)) (s : S)
    → o.1.1 ≡ s
    → (hand_back c o).1 ≡ (c, s)
hand_back-keeps c (ok a, t) s h = ap (λ x. (c, x)) h
hand_back-keeps c (err e, t) s h = ap (λ x. (c, x)) h
hand_back-keeps c (panic, t) s h = ap (λ x. (c, x)) h

is_err_of-keeps : {E S A : Type 0} (o : Result E A × S) → (is_err_of o).1 ≡ o.1
is_err_of-keeps (ok a, s) = refl
is_err_of-keeps (err e, s) = refl
is_err_of-keeps (panic, s) = refl

module _ {R W : Type 0} ⦃rd : BufRead R⦄ ⦃wr : Write W⦄ where
  pub try_process_next-Keeps : (buf : List ℕ) → Keeps Whole (try_process_next {R = R} {W = W} buf)
  unfolding try_process_next
  try_process_next-Keeps buf =
      >>=-Keeps Whole (on_slice buf (process_next_inner false)) _
        (λ s.
          hand_back-keeps s.0
            (process_next_inner false (from_parts (Cursor.new buf) s.0.range s.0.code, s.1)) s.1
            (process_next_inner-Spares (from_parts (Cursor.new buf) s.0.range s.0.code, s.1)))
        (λ a s. refl)

  -- The look ahead of streaming mode, a full step without update on a copy of the range decoder,
  -- leaves range decoder, decoder and sink as they were, whatever the bytes, the mode and the
  -- outcome.
  pub is_starved-Keeps :
      (mode : ProcessingMode) (short : Bool) (buf : List ℕ) (s : RangeDecoder R × Session W)
      → (is_starved mode short buf s).1 ≡ s
  unfolding is_starved
  is_starved-Keeps mode short buf =
      if-Keeps Whole (is_partial mode && short) _ _
        (λ s. is_err_of-keeps (try_process_next buf s) ∙ try_process_next-Keeps buf s) (λ s. refl)
