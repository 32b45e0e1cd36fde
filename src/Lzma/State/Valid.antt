-- ===== src/Lzma/State/Valid.antt =====
-- src/decode/lzma.rs, `DecoderState`: what holds of a decoder between two steps.
use lzma_no_std_rs.Base.{
  ℕ, ◌+◌, ◌^◌, ◌≤◌, ◌<◌, ◌≡◌, ◌≢◌, refl, sym, ap, ◌∙◌, some, List, length, All,
}
use lzma_no_std_rs.Io.Cursor.{Cursor}
use lzma_no_std_rs.LzBuffer.Valid.{IsReady}
use lzma_no_std_rs.RangeDecoder.BitTree.{BitTree}
use lzma_no_std_rs.RangeDecoder.BitTree.Sound.{IsTree}
use lzma_no_std_rs.RangeDecoder.LenDecoder.Sound.{IsLen}
use lzma_no_std_rs.RangeDecoder.Trees.{IsTable}
use lzma_no_std_rs.Lzma.Params.{LzmaParams}
use lzma_no_std_rs.Lzma.State.{DecoderState, uninitialized}

-- Parameters that the header can have, and that `set_params` took.
pub record IsTaken (probs_mem_limit : ℕ) (p : LzmaParams) : Type 0 where
  pub lc_fits : p.lc ≤ 8
  pub lp_fits : p.lp ≤ 4
  pub pb_fits : p.pb ≤ 4
  pub room : 2 ^ (p.lc + p.lp) ≤ probs_mem_limit

abbrev pub AreLiterals : ℕ → List (List ℕ) → Type 0
AreLiterals probs_mem_limit ls = All (IsTable 0x300) ls × (length ls ≡ probs_mem_limit)

abbrev pub AreSlots : List BitTree → Type 0
AreSlots ts = All (IsTree 6) ts × (length ts ≡ 4)

-- The probabilities.
abbrev pub HasTables : ℕ → DecoderState → Type 0
HasTables probs_mem_limit t =
    AreLiterals probs_mem_limit t.literal_probs
    × AreSlots t.pos_slot_decoder
    × IsTree 4 t.align_decoder
    × IsTable 115 t.pos_decoders
    × IsTable 192 t.is_match
    × IsTable 12 t.is_rep
    × IsTable 12 t.is_rep_g0
    × IsTable 12 t.is_rep_g1
    × IsTable 12 t.is_rep_g2
    × IsTable 192 t.is_rep_0long
    × IsLen t.len_decoder
    × IsLen t.rep_len_decoder

pub record IsWell (mem_limit d probs_mem_limit : ℕ) (p : LzmaParams) (t : DecoderState)
    : Type 0 where
  pub params : t.params ≡ some p
  pub buffer : IsReady mem_limit d t.output
  pub state : t.state < 12
  pub rep : length t.rep ≡ 4
  pub initialized : t.processing_status ≢ uninitialized
  pub tables : HasTables probs_mem_limit t

module _ (mem_limit d probs_mem_limit : ℕ) (p : LzmaParams) (t : DecoderState)
    (h : IsWell mem_limit d probs_mem_limit p t) where
  -- A change of the tables alone.
  pub with_tables :
      (u : DecoderState)
      → u.params ≡ t.params
      → u.output ≡ t.output
      → u.state ≡ t.state
      → u.rep ≡ t.rep
      → u.processing_status ≡ t.processing_status
      → HasTables probs_mem_limit u
      → IsWell mem_limit d probs_mem_limit p u
  with_tables u same_params same_output same_state same_rep same_status tables = record {
    params = same_params ∙ h.params;
    buffer = rw same_output h.buffer;
    state = rw same_state h.state;
    rep = ap length same_rep ∙ h.rep;
    initialized = λ e. h.initialized (sym same_status ∙ e);
    tables = tables;
  }

  pub with_partial :
      (c : Cursor) → IsWell mem_limit d probs_mem_limit p (record t { partial_input_buf = c })
  with_partial c =
      with_tables (record t { partial_input_buf = c }) refl refl refl refl refl h.tables
