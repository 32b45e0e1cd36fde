-- ===== src/Lzma/Step/Goes.antt =====
-- How the parts of `process_next_inner` of src/decode/lzma.rs compose when the decoder is updated: after
-- an error nothing is claimed, since the sink may have failed in the middle of a copy.
use lzma_no_std_rs.Base.{
  ℕ, Bool, true, false, if◌then◌else◌, M, ◌>>=◌, when, Post, next-Post, Post-mono, put_back-Post,
}
use lzma_no_std_rs.Io.Interface.{BufRead, Write}
use lzma_no_std_rs.Error.{Error}
use lzma_no_std_rs.LzBuffer.{LzCircularBuffer}
use lzma_no_std_rs.LzBuffer.Keep.{ReadyOn, Anything}
use lzma_no_std_rs.RangeDecoder.{RangeDecoder}
use lzma_no_std_rs.RangeDecoder.Safe.{Ready, HasInput}
use lzma_no_std_rs.RangeDecoder.Sound.{Sound}
use lzma_no_std_rs.Lzma.Params.{LzmaParams}
use lzma_no_std_rs.Lzma.State.{DecoderState}
use lzma_no_std_rs.Lzma.State.Valid.{IsWell}
use lzma_no_std_rs.Lzma.Step.{Session, on_decoder, update_decoder, on_output}

module _ {R W : Type 0} ⦃rd : BufRead R⦄ ⦃wr : Write W⦄ (w mem_limit d probs_mem_limit : ℕ)
    (p : LzmaParams) where
  abbrev pub GoesTo : {A : Type 0} → (A → Type 0) → A → RangeDecoder R × Session W → Type 0
  GoesTo Q a u = Ready w u.0 × IsWell mem_limit d probs_mem_limit p u.1.0 × Q a

  abbrev pub Left : RangeDecoder R × Session W → Type 0
  Left u = Unit {0}

  abbrev pub Goes : {A : Type 0} → (A → Type 0) → M Error (RangeDecoder R × Session W) A → Type 0
  Goes Q m =
      (s : RangeDecoder R × Session W)
      → Ready w s.0
      → IsWell mem_limit d probs_mem_limit p s.1.0
      → Post (GoesTo Q) Left (m s)

  pub >>=-Goes :
      {A B : Type 0} (Q : A → Type 0) (Q' : B → Type 0) (m : M Error (RangeDecoder R × Session W) A)
      (f : A → M Error (RangeDecoder R × Session W) B)
      → Goes Q m
      → ((a : A) → Q a → Goes Q' (f a))
      → Goes Q' (m >>= f)
  >>=-Goes Q Q' m f h k s r v =
      next-Post (GoesTo Q) (GoesTo Q') Left (m s) f (h s r v) (λ a u q. k a q.2 u q.0 q.1)

  pub if-Goes :
      {A : Type 0} (Q : A → Type 0) (b : Bool) (m n : M Error (RangeDecoder R × Session W) A)
      → Goes Q m
      → Goes Q n
      → Goes Q (if b then m else n)
  if-Goes Q true m n h k = h
  if-Goes Q false m n h k = k

  pub when-Goes :
      (b : Bool) (m : M Error (RangeDecoder R × Session W) (Unit {0}))
      → Goes (λ _. Unit {0}) m
      → Goes (λ _. Unit {0}) (when b m)
  when-Goes true m h s r v = h s r v
  when-Goes false m h s r v = (r, v, tt)

  -- A method of the decoder.
  pub on_decoder-Goes :
      {A : Type 0} (Q : A → Type 0) (m : M Error (RangeDecoder R × DecoderState) A)
      → Sound w (IsWell mem_limit d probs_mem_limit p) Q m
      → Goes Q (on_decoder m)
  on_decoder-Goes Q m h s r v =
      put_back-Post (GoesTo Q) Left (λ u s'. (u.0, (u.1, s'.1.1))) s (m (s.0, s.1.0))
        (Post-mono (λ a u. Ready w u.0 × IsWell mem_limit d probs_mem_limit p u.1 × Q a) _
          (λ u. HasInput u.0 × IsWell mem_limit d probs_mem_limit p u.1) _ (m (s.0, s.1.0))
          (h (s.0, s.1.0) r v) (λ a u q. q) (λ u q. tt))

  pub update_decoder-Goes :
      (f : DecoderState → DecoderState)
      → ((t : DecoderState)
          → IsWell mem_limit d probs_mem_limit p t
          → IsWell mem_limit d probs_mem_limit p (f t))
      → Goes (λ _. Unit {0}) (update_decoder f)
  update_decoder-Goes f h s r v = (r, h s.1.0 v, tt)

  pub on_output-Goes :
      (m : M Error (LzCircularBuffer × W) (Unit {0}))
      → ((b : LzCircularBuffer × W)
          → ReadyOn mem_limit d b
          → Post (λ _. ReadyOn mem_limit d) (Anything mem_limit d) (m b))
      → Goes (λ _. Unit {0}) (on_output m)
  on_output-Goes m h s r v =
      put_back-Post (GoesTo (λ _. Unit {0})) Left
        (λ b s. (s.0, (record s.1.0 { output = b.0 }, b.1))) s (m (s.1.0.output, s.1.1))
        (Post-mono (λ _. ReadyOn mem_limit d) _ (Anything mem_limit d) _ (m (s.1.0.output, s.1.1))
          (h (s.1.0.output, s.1.1) v.buffer)
          (λ _ b q. (
            r,
            record {
              params = v.params;
              buffer = q;
              state = v.state;
              rep = v.rep;
              initialized = v.initialized;
              tables = v.tables;
            },
            tt,
          ))
          (λ b q. tt))
