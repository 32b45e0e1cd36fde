-- ===== src/Lzma/State/Ready.antt =====
-- src/decode/lzma.rs: `reset` and `set_params` make a decoder on which the steps are safe.
use lzma_no_std_rs.Base.{ℕ, ◌≡◌, arith, length, replicate, All, length-replicate, All-replicate}
use lzma_no_std_rs.RangeDecoder.Safe.{IsProb}
use lzma_no_std_rs.RangeDecoder.Trees.{IsTable}
use lzma_no_std_rs.RangeDecoder.BitTree.Fresh as Tree
use lzma_no_std_rs.RangeDecoder.BitTree.Sound.{IsTree, fresh-IsTree}
use lzma_no_std_rs.RangeDecoder.LenDecoder.Fresh as Len
use lzma_no_std_rs.RangeDecoder.LenDecoder.Sound.{IsLen}
use lzma_no_std_rs.Lzma.State.Reset.{fresh}
use lzma_no_std_rs.Lzma.State.Valid.{HasTables}

half : IsProb 0x400
half = (omega arith, omega arith)

half-IsTable : (n : ℕ) → IsTable n (replicate n 0x400)
half-IsTable n = (All-replicate IsProb n 0x400 half, length-replicate n 0x400)

trees :
    (n k : ℕ)
    → All (IsTree k) (replicate n (Tree.fresh k)) × (length (replicate n (Tree.fresh k)) ≡ n)
trees n k =
    (All-replicate (IsTree k) n (Tree.fresh k) (fresh-IsTree k), length-replicate n (Tree.fresh k))

pub fresh-IsLen : IsLen Len.fresh
fresh-IsLen = record {
  choice = half;
  choice2 = half;
  low = trees 16 3;
  mid = trees 16 3;
  high = fresh-IsTree 8;
}

pub fresh-HasTables :
    (dict_mem_limit probs_mem_limit : ℕ)
    → HasTables probs_mem_limit (fresh dict_mem_limit probs_mem_limit)
fresh-HasTables dict_mem_limit probs_mem_limit = (
  (
    All-replicate (IsTable 0x300) probs_mem_limit (replicate 0x300 0x400) (half-IsTable 0x300),
    length-replicate probs_mem_limit (replicate 0x300 0x400),
  ),
  trees 4 6,
  fresh-IsTree 4,
  half-IsTable 115,
  half-IsTable 192,
  half-IsTable 12,
  half-IsTable 12,
  half-IsTable 12,
  half-IsTable 12,
  half-IsTable 192,
  fresh-IsLen,
  fresh-IsLen,
)
