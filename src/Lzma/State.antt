-- ===== src/Lzma/State.antt =====
-- src/decode/lzma.rs, the struct `DecoderState`, with `new`, `set_params` and `reset`. The buffer LZB is
-- the circular buffer, its only instance. The limits are the constants DICT_MEM_LIMIT and
-- PROBS_MEM_LIMIT.
pub mod Reset
pub mod Valid
pub mod Ready
pub mod Taken
use lzma_no_std_rs.Base.{
  ℕ, zero, suc, ◌+◌, ◌-◌, ◌*◌, ◌/◌, ◌%◌, ◌^◌, ◌≤◌, ◌<◌, min, bit_xor, ◌≡◌, refl, sym, ap, ap₂, ◌∙◌,
  subst, ◌≢◌, ◌⊎◌, inl, inr, Bool, true, false, ◌&&◌, ◌||◌, not, Option, none, some, List, [], ◌∷◌,
  ◌++◌, map, append-nil, append_assoc, arith, ltb, leb, ◌==◌, if◌then◌else◌, ltb→lt, lt→ltb, ltb→le,
  le→ltb, leb→le, ==_iff, Bool-cases, length, get_elem?, get_or, set, take, drop, replicate, All,
  length-append, length-set, length-replicate, length-take, length-drop, length-map,
  take-append-drop, take-length, take-set, take-suc-set, get_or-set_self, get_or-set_ne,
  get_elem?-eq-get_or, set-get_or, set-get_elem?, get_or-append_left, get_or-append_right,
  replicate-map, All-set, All-get_elem?, All-append, All-append_right, All-append_left,
  All-replicate, All-map_const, u8, u16, u32, u64, usize, shr, shl, low_bits, to_num, Result, ok,
  err, panic, Outcome, M, next, ◌>>=◌, ◌>>◌, return, throw, panics, gets, modify, expect, when,
  put_back, zoom, convert, relabel, map_err, of_io, Post, next-Post, Post-mono, put_back-Post,
  relabel-Post, Keeps, >>=-Keeps, when-Keeps, Sum-cases,
}
use lzma_no_std_rs.Base.{for_each, on_field, at_elem}
use lzma_no_std_rs.Io.Interface.{IoError, BufRead}
use lzma_no_std_rs.Io.Cursor
use lzma_no_std_rs.Io.Cursor.{Cursor}
use lzma_no_std_rs.Error.{Error, io_error, probabilities_buffer_too_small}
use lzma_no_std_rs.LzBuffer
use lzma_no_std_rs.LzBuffer.{LzCircularBuffer}
use lzma_no_std_rs.RangeDecoder.{RangeDecoder, decode_bit_at}
use lzma_no_std_rs.RangeDecoder.BitTree
use lzma_no_std_rs.RangeDecoder.BitTree.{BitTree}
use lzma_no_std_rs.RangeDecoder.LenDecoder
use lzma_no_std_rs.RangeDecoder.LenDecoder.{LenDecoder}
use lzma_no_std_rs.Lzma.Params.{LzmaParams}

abbrev pub max_required_input : ℕ
max_required_input = 20

pub data ProcessingMode : Type 0 where
  partial finish : ProcessingMode

pub data ProcessingStatus : Type 0 where
  uninitialized continue finished : ProcessingStatus

pub record DecoderState : Type 0 where
  pub processing_status : ProcessingStatus
  pub params : Option LzmaParams
  pub partial_input_buf : Cursor
  pub output : LzCircularBuffer
  pub literal_probs : List (List ℕ)
  pub pos_slot_decoder : List BitTree
  pub align_decoder : BitTree
  pub pos_decoders : List ℕ
  pub is_match : List ℕ
  pub is_rep : List ℕ
  pub is_rep_g0 : List ℕ
  pub is_rep_g1 : List ℕ
  pub is_rep_g2 : List ℕ
  pub is_rep_0long : List ℕ
  pub state : ℕ
  pub rep : List ℕ
  pub len_decoder : LenDecoder
  pub rep_len_decoder : LenDecoder

unfoldable pub new : ℕ → ℕ → DecoderState
new dict_mem_limit probs_mem_limit = record {
  processing_status = uninitialized;
  output = LzBuffer.new dict_mem_limit;
  partial_input_buf = Cursor.new (replicate max_required_input 0);
  params = none;
  literal_probs = replicate probs_mem_limit (replicate 0x300 0);
  pos_slot_decoder = replicate 4 (BitTree.new 64);
  align_decoder = BitTree.new 16;
  pos_decoders = replicate 115 0;
  is_match = replicate 192 0;
  is_rep = replicate 12 0;
  is_rep_g0 = replicate 12 0;
  is_rep_g1 = replicate 12 0;
  is_rep_g2 = replicate 12 0;
  is_rep_0long = replicate 192 0;
  state = 0;
  rep = replicate 4 0;
  len_decoder = LenDecoder.new;
  rep_len_decoder = LenDecoder.new;
}

abbrev pub on_output : {A : Type 0} → M Error LzCircularBuffer A → M Error DecoderState A
on_output = zoom (λ d. d.output) (λ b d. record d { output = b })

unfoldable pub set_params : ℕ → ℕ → LzmaParams → M Error DecoderState (Unit {0})
set_params dict_mem_limit probs_mem_limit params = do
  status ← gets (λ d. d.processing_status)
  elim status [ uninitialized ↦ panics | _ ↦ return tt ]
  let needed = usize (shl 1 (params.lc + params.lp))
  if ltb probs_mem_limit needed
      then throw (probabilities_buffer_too_small needed probs_mem_limit)
      else do
        on_output (LzBuffer.set_dict_size dict_mem_limit params.dict_size)
        modify (λ d. record d { params = some params })

-- `for_each(|v| *v = 0x400)`
abbrev pub fill : List ℕ → List ℕ
fill = map (λ _. 0x400)

-- `reset` returns nothing, but the bit trees in it may panic; it is the same at every type of errors.
unfoldable pub reset : M Error DecoderState (Unit {0})
reset = do
  modify (λ d. record d { processing_status = continue })
  modify (λ d. record d { output = LzBuffer.reset d.output })
  modify (λ d. record d { partial_input_buf = Cursor.new (replicate max_required_input 0) })
  modify (λ d. record d { params = none })
  modify (λ d. record d { literal_probs = map fill d.literal_probs })
  zoom (λ d. d.pos_slot_decoder) (λ t d. record d { pos_slot_decoder = t })
      (for_each (BitTree.reset 64))
  zoom (λ d. d.align_decoder) (λ t d. record d { align_decoder = t }) (BitTree.reset 16)
  modify (λ d. record d { pos_decoders = fill d.pos_decoders })
  modify (λ d. record d { is_match = fill d.is_match })
  modify (λ d. record d { is_rep = fill d.is_rep })
  modify (λ d. record d { is_rep_g0 = fill d.is_rep_g0 })
  modify (λ d. record d { is_rep_g1 = fill d.is_rep_g1 })
  modify (λ d. record d { is_rep_g2 = fill d.is_rep_g2 })
  modify (λ d. record d { is_rep_0long = fill d.is_rep_0long })
  modify (λ d. record d { state = 0 })
  modify (λ d. record d { rep = replicate 4 0 })
  zoom (λ d. d.len_decoder) (λ t d. record d { len_decoder = t }) LenDecoder.reset
  zoom (λ d. d.rep_len_decoder) (λ t d. record d { rep_len_decoder = t }) LenDecoder.reset

-- `match &self.params { Some(v) => v.clone(), None => panic!(..) }`
unfoldable pub get_params : M Error DecoderState LzmaParams
get_params d = expect d.params d

-- The bits that select a branch of the decoder.
module _ {R : Type 0} ⦃rd : BufRead R⦄ where
  -- `rangecoder.decode_bit(&mut self.<table>[i], update)?`
  abbrev pub bit_of :
      (DecoderState → List ℕ)
      → (List ℕ → DecoderState → DecoderState)
      → ℕ
      → Bool
      → M Error (RangeDecoder R × DecoderState) Bool
  bit_of get put i update = on_field get put (map_err io_error (decode_bit_at i update))

  unfoldable pub match_bit_at : ℕ → Bool → M Error (RangeDecoder R × DecoderState) Bool
  match_bit_at = bit_of (λ d. d.is_match) (λ t d. record d { is_match = t })

  unfoldable pub rep_bit_at : ℕ → Bool → M Error (RangeDecoder R × DecoderState) Bool
  rep_bit_at = bit_of (λ d. d.is_rep) (λ t d. record d { is_rep = t })

  unfoldable pub rep_g0_bit_at : ℕ → Bool → M Error (RangeDecoder R × DecoderState) Bool
  rep_g0_bit_at = bit_of (λ d. d.is_rep_g0) (λ t d. record d { is_rep_g0 = t })

  unfoldable pub rep_g1_bit_at : ℕ → Bool → M Error (RangeDecoder R × DecoderState) Bool
  rep_g1_bit_at = bit_of (λ d. d.is_rep_g1) (λ t d. record d { is_rep_g1 = t })

  unfoldable pub rep_g2_bit_at : ℕ → Bool → M Error (RangeDecoder R × DecoderState) Bool
  rep_g2_bit_at = bit_of (λ d. d.is_rep_g2) (λ t d. record d { is_rep_g2 = t })

  unfoldable pub rep_0long_bit_at : ℕ → Bool → M Error (RangeDecoder R × DecoderState) Bool
  rep_0long_bit_at = bit_of (λ d. d.is_rep_0long) (λ t d. record d { is_rep_0long = t })

  -- `self.len_decoder.decode(..)` and `self.rep_len_decoder.decode(..)`
  unfoldable pub read_len : ℕ → Bool → M Error (RangeDecoder R × DecoderState) ℕ
  read_len pos_state update =
      on_field (λ d. d.len_decoder) (λ t d. record d { len_decoder = t })
        (map_err io_error (LenDecoder.decode pos_state update))

  unfoldable pub read_rep_len : ℕ → Bool → M Error (RangeDecoder R × DecoderState) ℕ
  read_rep_len pos_state update =
      on_field (λ d. d.rep_len_decoder) (λ t d. record d { rep_len_decoder = t })
        (map_err io_error (LenDecoder.decode pos_state update))
