-- ===== src/Lzma/State/Reset.antt =====
-- src/decode/lzma.rs, `DecoderState::reset`: what it leaves, whatever was decoded before.
use lzma_no_std_rs.Base.{
  ℕ, ◌≡◌, refl, ap, ◌∙◌, none, List, [], ◌∷◌, map, arith, length, replicate, All, length-replicate,
  replicate-map, All-replicate, ok,
}
use lzma_no_std_rs.Io.Cursor
use lzma_no_std_rs.Error.{Error}
use lzma_no_std_rs.LzBuffer
use lzma_no_std_rs.LzBuffer.Reset.{reset-new}
use lzma_no_std_rs.RangeDecoder.BitTree
use lzma_no_std_rs.RangeDecoder.BitTree.{BitTree}
use lzma_no_std_rs.RangeDecoder.BitTree.Fresh as Tree
use lzma_no_std_rs.RangeDecoder.LenDecoder.Fresh as Len
use lzma_no_std_rs.Lzma.State.{DecoderState, continue, max_required_input, fill, new, reset}

-- The sizes of the arrays, which the source has in their types or as constants.
pub record IsShaped (dict_mem_limit probs_mem_limit : ℕ) (d : DecoderState) : Type 0 where
  pub dictionary : length d.output.buf ≡ dict_mem_limit
  pub literals : length d.literal_probs ≡ probs_mem_limit
  pub literal_sizes : All (λ l. length l ≡ 0x300) d.literal_probs
  pub pos_slots : length d.pos_slot_decoder ≡ 4
  pub pos_slot_sizes : All (Tree.HasSize 64) d.pos_slot_decoder
  pub align : Tree.HasSize 16 d.align_decoder
  pub positions : length d.pos_decoders ≡ 115
  pub matches : length d.is_match ≡ 192
  pub reps : length d.is_rep ≡ 12
  pub reps_g0 : length d.is_rep_g0 ≡ 12
  pub reps_g1 : length d.is_rep_g1 ≡ 12
  pub reps_g2 : length d.is_rep_g2 ≡ 12
  pub reps_0long : length d.is_rep_0long ≡ 192
  pub lens : Len.IsShaped d.len_decoder
  pub rep_lens : Len.IsShaped d.rep_len_decoder

-- The decoder before the parameters of a stream are set, with nothing learned.
abbrev pub fresh : ℕ → ℕ → DecoderState
fresh dict_mem_limit probs_mem_limit = record {
  processing_status = continue;
  params = none;
  partial_input_buf = Cursor.new (replicate max_required_input 0);
  output = LzBuffer.new dict_mem_limit;
  literal_probs = replicate probs_mem_limit (replicate 0x300 0x400);
  pos_slot_decoder = replicate 4 (Tree.fresh 6);
  align_decoder = Tree.fresh 4;
  pos_decoders = replicate 115 0x400;
  is_match = replicate 192 0x400;
  is_rep = replicate 12 0x400;
  is_rep_g0 = replicate 12 0x400;
  is_rep_g1 = replicate 12 0x400;
  is_rep_g2 = replicate 12 0x400;
  is_rep_0long = replicate 192 0x400;
  state = 0;
  rep = replicate 4 0;
  len_decoder = Len.fresh;
  rep_len_decoder = Len.fresh;
}

map-fill :
    (ls : List (List ℕ))
    → All (λ l. length l ≡ 0x300) ls
    → map fill ls ≡ replicate (length ls) (replicate 0x300 0x400)
map-fill [] h = refl
map-fill (l ∷ ls) h = rw (replicate-map {B = ℕ} l 0x400, h.0, map-fill ls h.1) refl

fill-sized : (n : ℕ) (l : List ℕ) → length l ≡ n → fill l ≡ replicate n 0x400
fill-sized n l e = replicate-map l 0x400 ∙ ap (λ k. replicate k 0x400) e

pub new-IsShaped :
    (dict_mem_limit probs_mem_limit : ℕ)
    → IsShaped dict_mem_limit probs_mem_limit (new dict_mem_limit probs_mem_limit)
unfolding new LzBuffer.new
new-IsShaped dict_mem_limit probs_mem_limit = record {
  dictionary = length-replicate dict_mem_limit 0;
  literals = length-replicate probs_mem_limit _;
  literal_sizes =
      All-replicate (λ l. length l ≡ 0x300) probs_mem_limit _ (length-replicate {A = ℕ} 0x300 0);
  pos_slots = refl;
  pos_slot_sizes = All-replicate (Tree.HasSize 64) 4 (BitTree.new 64) (Tree.new-HasSize 64);
  align = Tree.new-HasSize 16;
  positions = length-replicate {A = ℕ} 115 0;
  matches = length-replicate {A = ℕ} 192 0;
  reps = refl;
  reps_g0 = refl;
  reps_g1 = refl;
  reps_g2 = refl;
  reps_0long = length-replicate {A = ℕ} 192 0;
  lens = Len.new-IsShaped;
  rep_lens = Len.new-IsShaped;
}

-- On a decoder whose arrays have the sizes of the source, reset does not panic and ends in one
-- fixed state, which depends on the two limits only: nothing of an earlier stream is left.
pub reset-fresh :
    (dict_mem_limit probs_mem_limit : ℕ) (d : DecoderState)
    → IsShaped dict_mem_limit probs_mem_limit d
    → reset d ≡ (ok tt, fresh dict_mem_limit probs_mem_limit)
unfolding reset
reset-fresh dict_mem_limit probs_mem_limit d v =
    rw
      (
        Tree.for_each-reset {E = Error} 6 d.pos_slot_decoder (omega arith) v.pos_slot_sizes,
        v.pos_slots,
        Tree.reset-fresh {E = Error} 4 d.align_decoder (omega arith) v.align,
        Len.reset-fresh {E = Error} d.len_decoder v.lens,
        Len.reset-fresh {E = Error} d.rep_len_decoder v.rep_lens,
        reset-new d.output,
        v.dictionary,
        map-fill d.literal_probs v.literal_sizes,
        v.literals,
        fill-sized 115 d.pos_decoders v.positions,
        fill-sized 192 d.is_match v.matches,
        fill-sized 12 d.is_rep v.reps,
        fill-sized 12 d.is_rep_g0 v.reps_g0,
        fill-sized 12 d.is_rep_g1 v.reps_g1,
        fill-sized 12 d.is_rep_g2 v.reps_g2,
        fill-sized 192 d.is_rep_0long v.reps_0long,
      )
      refl
