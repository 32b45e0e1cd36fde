-- ===== src/Lzma/Process/Valid.antt =====
-- src/decode/lzma.rs, `process_mode`: what holds between two rounds of its loop, and what a round lowers.
use lzma_no_std_rs.Base.{Option, none, some, ℕ, ◌+◌, ◌*◌, ◌^◌, ◌≤◌, ◌≡◌, length, All}
use lzma_no_std_rs.Io.Interface.{BufRead, Write}
use lzma_no_std_rs.Io.Ext.Bytes.{IsByte}
use lzma_no_std_rs.Io.Cursor.{Cursor}
use lzma_no_std_rs.RangeDecoder.{RangeDecoder}
use lzma_no_std_rs.RangeDecoder.Safe.{IsCoder, weight}
use lzma_no_std_rs.Lzma.Params.{LzmaParams}
use lzma_no_std_rs.Lzma.State.{ProcessingMode, partial, finish, max_required_input}
use lzma_no_std_rs.Lzma.State.Valid.{IsWell}
use lzma_no_std_rs.Lzma.Step.{Session}

-- `partial_input_buf`
pub record IsPartial (c : Cursor) : Type 0 where
  pub sized : length c.inner ≡ max_required_input
  pub inside : c.pos ≤ max_required_input
  pub bytes : All IsByte c.inner

module _ {R W : Type 0} ⦃rd : BufRead R⦄ ⦃wr : Write W⦄ (mem_limit d probs_mem_limit : ℕ)
    (p : LzmaParams) where
  pub record IsRunning (s : RangeDecoder R × Session W) : Type 0 where
    pub coder : IsCoder s.0
    pub well : IsWell mem_limit d probs_mem_limit p s.1.0
    pub partial : IsPartial s.1.0.partial_input_buf

module _ {R W : Type 0} ⦃rd : BufRead R⦄ where
  -- The kept bytes count as the bytes of the input do.
  abbrev pub measure : RangeDecoder R × Session W → ℕ
  measure s = weight s.0 + s.1.0.partial_input_buf.pos * 2 ^ 32

  -- A size that is known is the size of the output, once the input is at its end.
  abbrev pub IsSized : ProcessingMode → Option ℕ → RangeDecoder R × Session W → Type 0
  IsSized partial size u = Unit {0}
  IsSized finish none u = Unit {0}
  IsSized finish (some n) u = u.1.0.output.len ≡ n
