-- ===== src/Stream/Status.antt =====
-- src/decode/stream.rs, `write`: the field `state`. While a chunk is worked on it is `InvalidState`, and
-- an error leaves it so.
use lzma_no_std_rs.Base.{
  ℕ, ◌-◌, ◌^◌, ◌≡◌, refl, ◌∙◌, ◌⊎◌, inl, inr, not, ltb, ◌==◌, Bool-cases, length, Result, ok, err,
  panic, relabel, of_io, Keeps, >>=-Keeps, if-Keeps,
}
use lzma_no_std_rs.Base.{Upto, next-Upto, Keeps-Upto}
use lzma_no_std_rs.Io.Interface.{IoError}
use lzma_no_std_rs.Io.Endian.{Endian}
use lzma_no_std_rs.Io.Cursor
use lzma_no_std_rs.Io.Cursor.{Cursor}
use lzma_no_std_rs.Io.Cursor.Reader.{cursor_reader}
use lzma_no_std_rs.Error.{Error, io_error}
use lzma_no_std_rs.RangeDecoder.{RangeDecoder}
use lzma_no_std_rs.Lzma.State.{DecoderState}
use lzma_no_std_rs.Lzma.Step.{Session}
use lzma_no_std_rs.Stream.{Stream, State, header, running, fill_tmp, kept}
use lzma_no_std_rs.Stream.Header.{
  with_input, discard, parse_header, header_from_tmp, settle, header_write,
}
use lzma_no_std_rs.Stream.Feed.{hand_back}

abbrev pub state_of : Stream → State
state_of s = s.state

io-keeps :
    {A : Type 0} (x : IoError ⊎ A) (s : Stream)
    → (relabel io_error (of_io (x, s))).1.state ≡ s.state
io-keeps (inl e) s = refl
io-keeps (inr a) s = refl

fill_tmp-Keeps : (input : Cursor) → Keeps state_of (fill_tmp input)
unfolding fill_tmp
fill_tmp-Keeps input s =
    if-Keeps state_of (ltb (length s.tmp.inner) s.tmp.pos) _ _ (λ t. refl)
      (>>=-Keeps state_of
        (λ t. relabel io_error (of_io ((Cursor.read (length s.tmp.inner - s.tmp.pos) input).0, t)))
        _ (λ t. io-keeps (Cursor.read (length s.tmp.inner - s.tmp.pos) input).0 t)
        (λ bytes.
          if-Keeps state_of (not (ltb (length bytes) (2 ^ 64 - 1))) _ _ (λ t. refl) (λ t. refl)))
      s

discard-Keeps : (st : State) (position : ℕ) → Keeps state_of (discard st position)
unfolding discard
discard-Keeps (running run) position s =
    if-Keeps state_of (ltb s.tmp.pos position) _ _ (λ t. refl) (λ t. refl) s
discard-Keeps header position s = refl
discard-Keeps State.invalid_state position s = refl
discard-Keeps State.uninitialized position s = refl

with_input-keeps :
    (s : Stream) (o : Result Error State × (Cursor × DecoderState))
    → (with_input s o).1.state ≡ s.state
with_input-keeps s (ok st, t) = refl
with_input-keeps s (err x, t) = refl
with_input-keeps s (panic, t) = refl

-- The states between two calls of `write` that did not fail.
abbrev pub IsLive : State → Type 0
IsLive header = Unit
IsLive (running run) = Unit
IsLive State.invalid_state = ⊥
IsLive State.uninitialized = ⊥

abbrev pub Poisoned : Stream → Type 0
Poisoned s = s.state ≡ State.invalid_state

-- The state that comes next, while the stream has none.
abbrev pub Settled : State × Cursor → Stream → Type 0
Settled res s = IsLive res.0 × Poisoned s

settle-Upto :
    (res : State × Cursor) (s : Stream) → Poisoned s → Upto Settled Poisoned (settle res s)
unfolding settle
settle-Upto (header, input) s h = elim (Bool-cases (s.tmp.pos == 0)) [
  | inl empty ↦ rw empty (
      next-Upto (λ _. Poisoned) Settled Poisoned (fill_tmp (Cursor.set_position 0 input) s) _
        (Keeps-Upto Poisoned (fill_tmp (Cursor.set_position 0 input) s)
          (fill_tmp-Keeps (Cursor.set_position 0 input) s ∙ h))
        (λ i t k. (tt, k)))
  | inr full ↦ rw full (tt, h)
]
settle-Upto (running run, input) s h = (tt, h)
settle-Upto (State.invalid_state, input) s h = h
settle-Upto (State.uninitialized, input) s h = tt

module _ {W : Type 0} where
  pub hand_back-keeps :
      {A : Type 0} (s : Stream × W) (o : Result Error A × (RangeDecoder Cursor × Session W))
      → (hand_back s o).1.0.state ≡ s.0.state
  hand_back-keeps s (ok a, t) = refl
  hand_back-keeps s (err x, t) = refl
  hand_back-keeps s (panic, t) = refl

module _ ⦃e : Endian⦄ (dict_mem_limit probs_mem_limit : ℕ) where
  parse_header-Keeps :
      (input : Cursor) → Keeps state_of (parse_header dict_mem_limit probs_mem_limit input)
  parse_header-Keeps input s = with_input-keeps s _

  header_from_tmp-Keeps :
      (input : Cursor) → Keeps state_of (header_from_tmp dict_mem_limit probs_mem_limit input)
  unfolding header_from_tmp
  header_from_tmp-Keeps input =
      >>=-Keeps state_of (fill_tmp input) _ (fill_tmp-Keeps input) λ input' s.
        >>=-Keeps state_of (parse_header dict_mem_limit probs_mem_limit (Cursor.new (kept s))) _
          (parse_header-Keeps (Cursor.new (kept s)))
          (λ res.
            >>=-Keeps state_of (discard res.0 res.1.pos) _ (discard-Keeps res.0 res.1.pos)
              (λ u t. refl))
          s

  pub header_write-Upto :
      (input : Cursor) (s : Stream)
      → Poisoned s
      → Upto Settled Poisoned (header_write dict_mem_limit probs_mem_limit input s)
  unfolding header_write
  header_write-Upto input s h =
      next-Upto (λ _. Poisoned) Settled Poisoned _ settle
        (Keeps-Upto Poisoned _ (
          if-Keeps state_of (ltb 0 s.tmp.pos) _ _ (header_from_tmp-Keeps input)
            (parse_header-Keeps input) s
          ∙ h))
        settle-Upto
