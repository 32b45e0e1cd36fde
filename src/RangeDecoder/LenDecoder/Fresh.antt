-- ===== src/RangeDecoder/LenDecoder/Fresh.antt =====
-- src/decode/rangecoder.rs, `LenDecoder::reset`: what it leaves, whatever the decoder had learned.
use lzma_no_std_rs.Base.{◌≡◌, refl, arith, length, replicate, All, All-replicate, ok}
use lzma_no_std_rs.RangeDecoder.BitTree
use lzma_no_std_rs.RangeDecoder.BitTree.{BitTree}
use lzma_no_std_rs.RangeDecoder.BitTree.Fresh as Tree
use lzma_no_std_rs.RangeDecoder.LenDecoder.{LenDecoder, new, reset}

pub record IsShaped (d : LenDecoder) : Type 0 where
  pub low_count : length d.low_coder ≡ 16
  pub low_sizes : All (Tree.HasSize 8) d.low_coder
  pub mid_count : length d.mid_coder ≡ 16
  pub mid_sizes : All (Tree.HasSize 8) d.mid_coder
  pub high_size : Tree.HasSize 256 d.high_coder

pub new-IsShaped : IsShaped new
unfolding new
new-IsShaped = record {
  low_count = refl;
  low_sizes = All-replicate (Tree.HasSize 8) 16 (BitTree.new 8) (Tree.new-HasSize 8);
  mid_count = refl;
  mid_sizes = All-replicate (Tree.HasSize 8) 16 (BitTree.new 8) (Tree.new-HasSize 8);
  high_size = Tree.new-HasSize 256;
}

-- Nothing learned.
abbrev pub fresh : LenDecoder
fresh = record {
  choice = 0x400;
  choice2 = 0x400;
  low_coder = replicate 16 (Tree.fresh 3);
  mid_coder = replicate 16 (Tree.fresh 3);
  high_coder = Tree.fresh 8;
}

pub reset-fresh : {E : Type 0} (d : LenDecoder) → IsShaped d → reset {E = E} d ≡ (ok tt, fresh)
unfolding reset
reset-fresh {E} d v =
    rw
      (
        Tree.for_each-reset {E = E} 3 d.low_coder (omega arith) v.low_sizes,
        v.low_count,
        Tree.for_each-reset {E = E} 3 d.mid_coder (omega arith) v.mid_sizes,
        v.mid_count,
        Tree.reset-fresh {E = E} 8 d.high_coder (omega arith) v.high_size,
      )
      refl
