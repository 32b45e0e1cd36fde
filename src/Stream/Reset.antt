-- ===== src/Stream/Reset.antt =====
-- src/decode/stream.rs, `reset` and `finish`: the stream is ready for the next header.
use lzma_no_std_rs.Base.{
  ℕ, ◌≡◌, refl, Option, none, some, map, replicate, Result, ok, err, panic, ◌>>=◌, expect, put_back,
}
use lzma_no_std_rs.Base.{
  Upto, next-Upto, Returns, next-Returns, put_back-Returns, for_each-Returns, Returns-Upto,
}
use lzma_no_std_rs.Io.Interface.{Write}
use lzma_no_std_rs.Error.{Error}
use lzma_no_std_rs.RangeDecoder.BitTree
use lzma_no_std_rs.RangeDecoder.BitTree.{BitTree}
use lzma_no_std_rs.RangeDecoder.LenDecoder
use lzma_no_std_rs.RangeDecoder.LenDecoder.{LenDecoder}
use lzma_no_std_rs.Lzma.State.{
  DecoderState, reset as reset_decoder, continue, fill, max_required_input,
}
use lzma_no_std_rs.LzBuffer
use lzma_no_std_rs.Io.Cursor
use lzma_no_std_rs.Lzma.State.Reset.{IsShaped, fresh, reset-fresh}
use lzma_no_std_rs.Util.{exact_log2}
use lzma_no_std_rs.Stream.{Stream, header, empty_tmp, reset, take_state}
use lzma_no_std_rs.Stream.Feed.{on_stream}
use lzma_no_std_rs.Stream.Finish.{keep_result, first, finish, finish_in}

-- On a stream whose decoder has arrays of the sizes of the source, reset does not panic, and what
-- it leaves depends on the limits and the options only.
pub reset-Stream :
    (dict_mem_limit probs_mem_limit : ℕ) (s : Stream)
    → IsShaped dict_mem_limit probs_mem_limit s.decoder
    → reset s ≡ (
      ok tt,
      record s { decoder = fresh dict_mem_limit probs_mem_limit; tmp = empty_tmp; state = header },
    )
unfolding reset
reset-Stream dict_mem_limit probs_mem_limit s v =
    rw (reset-fresh dict_mem_limit probs_mem_limit s.decoder v) refl

expect-Returns : {A S : Type 0} (o : Option A) (s : S) → Returns (expect {E = Error} o s)
expect-Returns none s = tt
expect-Returns (some a) s = tt

tree-Returns : (n : ℕ) (t : BitTree) → Returns (BitTree.reset {E = Error} n t)
unfolding BitTree.reset
tree-Returns n t =
    next-Returns (expect (exact_log2 n) t) _ (expect-Returns (exact_log2 n) t) (λ k u. tt)

len-Returns : (d : LenDecoder) → Returns (LenDecoder.reset {E = Error} d)
unfolding LenDecoder.reset
len-Returns d =
    next-Returns _ _
      (put_back-Returns (λ t d. record d { low_coder = t })
        (record d { choice = 0x400; choice2 = 0x400 }) _
        (for_each-Returns (BitTree.reset 8) (tree-Returns 8) d.low_coder))
      λ u1 d1.
        next-Returns _ _
          (put_back-Returns (λ t d. record d { mid_coder = t }) d1 _
            (for_each-Returns (BitTree.reset 8) (tree-Returns 8) d1.mid_coder))
          (λ u2 d2.
            put_back-Returns (λ t d. record d { high_coder = t }) d2 _
              (tree-Returns 256 d2.high_coder))

abbrev NoParams : DecoderState → Type 0
NoParams d = d.params ≡ none

abbrev literals_reset : DecoderState → DecoderState
literals_reset d = record d {
  processing_status = continue;
  output = LzBuffer.reset d.output;
  partial_input_buf = Cursor.new (replicate max_required_input 0);
  params = none;
  literal_probs = map fill d.literal_probs;
}

abbrev tables_reset : DecoderState → DecoderState
tables_reset d = record d {
  pos_decoders = fill d.pos_decoders;
  is_match = fill d.is_match;
  is_rep = fill d.is_rep;
  is_rep_g0 = fill d.is_rep_g0;
  is_rep_g1 = fill d.is_rep_g1;
  is_rep_g2 = fill d.is_rep_g2;
  is_rep_0long = fill d.is_rep_0long;
  state = 0;
  rep = replicate 4 0;
}

reset_decoder-Upto : (d : DecoderState) → Upto (λ _. NoParams) (λ _. ⊥) (reset_decoder d)
unfolding reset_decoder
reset_decoder-Upto d =
    next-Upto (λ _. NoParams) _ (λ _. ⊥) _ _
      (Returns-Upto NoParams (λ _. ⊥) (λ t d. record d { pos_slot_decoder = t }) (literals_reset d)
        _ (for_each-Returns (BitTree.reset 64) (tree-Returns 64) d.pos_slot_decoder) (λ t. refl))
      λ u1 d1 h1.
        next-Upto (λ _. NoParams) _ (λ _. ⊥) _ _
          (Returns-Upto NoParams (λ _. ⊥) (λ t d. record d { align_decoder = t }) d1 _
            (tree-Returns 16 d1.align_decoder) (λ t. h1))
          λ u2 d2 h2.
            next-Upto (λ _. NoParams) _ (λ _. ⊥) _ _
              (Returns-Upto NoParams (λ _. ⊥) (λ t d. record d { len_decoder = t })
                (tables_reset d2) _ (len-Returns d2.len_decoder) (λ t. h2))
              (λ u3 d3 h3.
                Returns-Upto NoParams (λ _. ⊥) (λ t d. record d { rep_len_decoder = t }) d3 _
                  (len-Returns d3.rep_len_decoder) (λ t. h3))

-- Ready for a header.
abbrev pub IsReset : Stream → Type 0
IsReset s = (s.state ≡ header) × (s.tmp ≡ empty_tmp) × (s.decoder.params ≡ none)

decoder_back :
    (s : Stream) (o : Result Error (Unit {0}) × DecoderState)
    → Upto (λ _. NoParams) (λ _. ⊥) o
    → Upto
        (λ _ t. t.decoder.params ≡ none)
        (λ _. ⊥)
        (put_back {S = Stream} (λ d s. record s { decoder = d }) s o)
decoder_back s (ok u, d) h = h
decoder_back s (err x, d) h = h
decoder_back s (panic, d) h = tt

reset-Upto : (s : Stream) → Upto (λ _. IsReset) (λ _. ⊥) (reset s)
unfolding reset
reset-Upto s =
    next-Upto (λ _ t. t.decoder.params ≡ none) _ (λ _. ⊥) _ _
      (decoder_back s (reset_decoder s.decoder) (reset_decoder-Upto s.decoder))
      (λ u t h. (refl, refl, h))

module _ {W : Type 0} where
  abbrev AfterFinish : Result Error (Unit {0}) × (Stream × W) → Type 0
  AfterFinish = Upto (λ _ s. IsReset s.0) (λ s. IsReset s.0)

  picked :
      (r : Result Error (Unit {0})) (w : W) (o : Result Error (Unit {0}) × Stream)
      → Upto (λ _. IsReset) (λ _. ⊥) o
      → AfterFinish (first r o.0, (o.1, w))
  picked (ok u) w (ok v, s) h = h
  picked (err x) w (ok v, s) h = h
  picked panic w (ok v, s) h = tt
  picked r w (err y, s) h = absurd h
  picked (ok u) w (panic, s) h = tt
  picked (err x) w (panic, s) h = tt
  picked panic w (panic, s) h = tt

  reset_after :
      (o : Result Error (Unit {0}) × (Stream × W))
      → AfterFinish (keep_result o (on_stream reset) first)
  reset_after (ok u, s) = picked (ok u) s.1 (reset s.0) (reset-Upto s.0)
  reset_after (err x, s) = picked (err x) s.1 (reset s.0) (reset-Upto s.0)
  reset_after (panic, s) = tt

  -- From any state, a call of finish that returns, with a result or an error, leaves the stream
  -- waiting for a header, with an empty tmp and no parameters.
  pub finish-IsReset :
      ⦃wr : Write W⦄
      → (s : Stream × W) → Upto (λ _ s'. IsReset s'.0) (λ s'. IsReset s'.0) (finish s)
  unfolding finish
  finish-IsReset s = reset_after ((on_stream take_state >>= finish_in) s)
