-- ===== src/RangeDecoder/LenDecoder/Sound.antt =====
-- src/decode/rangecoder.rs, `LenDecoder`: a decoder that was reset stays one, and a length is below 272.
use lzma_no_std_rs.Base.{ℕ, ◌+◌, ◌<◌, ◌≡◌, Bool, not, List, arith, length, All}
use lzma_no_std_rs.Base.{at_elem}
use lzma_no_std_rs.Io.Interface.{IoError, BufRead}
use lzma_no_std_rs.RangeDecoder.Safe.{IsProb}
use lzma_no_std_rs.RangeDecoder.Sound.{
  Any, Sound, >>=-Sound, return-Sound, if-Sound, on_field-Sound, at_elem-Sound, decode_bit-Sound,
  mono-Sound,
}
use lzma_no_std_rs.RangeDecoder.{decode_bit}
use lzma_no_std_rs.RangeDecoder.BitTree
use lzma_no_std_rs.RangeDecoder.BitTree.{BitTree}
use lzma_no_std_rs.RangeDecoder.BitTree.Sound as Tree
use lzma_no_std_rs.RangeDecoder.LenDecoder.{LenDecoder, choose, choose2, low, mid, high, decode}

abbrev AreTrees : ℕ → List BitTree → Type 0
AreTrees k ts = All (Tree.IsTree k) ts × (length ts ≡ 16)

pub record IsLen (d : LenDecoder) : Type 0 where
  pub choice : IsProb d.choice
  pub choice2 : IsProb d.choice2
  pub low : AreTrees 3 d.low_coder
  pub mid : AreTrees 3 d.mid_coder
  pub high : Tree.IsTree 8 d.high_coder

module _ {R : Type 0} ⦃rd : BufRead R⦄ (w : ℕ) where
  choose-Sound : (update : Bool) → Sound w IsLen Any (choose {R = R} update)
  unfolding choose
  choose-Sound update =
      on_field-Sound w IsLen IsProb Any (λ d. d.choice) (λ t d. record d { choice = t })
        (decode_bit update) (λ d h. h.choice)
        (λ d t h q. record {
          choice = q;
          choice2 = h.choice2;
          low = h.low;
          mid = h.mid;
          high = h.high;
        })
        (decode_bit-Sound w update)

  choose2-Sound : (update : Bool) → Sound w IsLen Any (choose2 {R = R} update)
  unfolding choose2
  choose2-Sound update =
      on_field-Sound w IsLen IsProb Any (λ d. d.choice2) (λ t d. record d { choice2 = t })
        (decode_bit update) (λ d h. h.choice2)
        (λ d t h q. record {
          choice = h.choice;
          choice2 = q;
          low = h.low;
          mid = h.mid;
          high = h.high;
        })
        (decode_bit-Sound w update)

  low-Sound :
      (pos_state : ℕ) (update : Bool)
      → pos_state < 16
      → Sound w IsLen (λ v. v < 8) (low {R = R} pos_state update)
  unfolding low
  low-Sound pos_state update below =
      on_field-Sound w IsLen (AreTrees 3) (λ v. v < 8) (λ d. d.low_coder)
        (λ t d. record d { low_coder = t }) (at_elem pos_state (BitTree.parse update))
        (λ d h. h.low)
        (λ d t h q. record {
          choice = h.choice;
          choice2 = h.choice2;
          low = q;
          mid = h.mid;
          high = h.high;
        })
        (at_elem-Sound w (Tree.IsTree 3) (λ v. v < 8) 16 pos_state (BitTree.parse update) below
          (Tree.parse-Sound w 3 update (omega arith)))

  mid-Sound :
      (pos_state : ℕ) (update : Bool)
      → pos_state < 16
      → Sound w IsLen (λ v. v < 8) (mid {R = R} pos_state update)
  unfolding mid
  mid-Sound pos_state update below =
      on_field-Sound w IsLen (AreTrees 3) (λ v. v < 8) (λ d. d.mid_coder)
        (λ t d. record d { mid_coder = t }) (at_elem pos_state (BitTree.parse update))
        (λ d h. h.mid)
        (λ d t h q. record {
          choice = h.choice;
          choice2 = h.choice2;
          low = h.low;
          mid = q;
          high = h.high;
        })
        (at_elem-Sound w (Tree.IsTree 3) (λ v. v < 8) 16 pos_state (BitTree.parse update) below
          (Tree.parse-Sound w 3 update (omega arith)))

  high-Sound : (update : Bool) → Sound w IsLen (λ v. v < 256) (high {R = R} update)
  unfolding high
  high-Sound update =
      on_field-Sound w IsLen (Tree.IsTree 8) (λ v. v < 256) (λ d. d.high_coder)
        (λ t d. record d { high_coder = t }) (BitTree.parse update) (λ d h. h.high)
        (λ d t h q. record {
          choice = h.choice;
          choice2 = h.choice2;
          low = h.low;
          mid = h.mid;
          high = q;
        })
        (Tree.parse-Sound w 8 update (omega arith))

  pub decode-Sound :
      (pos_state : ℕ) (update : Bool)
      → pos_state < 16
      → Sound w IsLen (λ len. len < 272) (decode {R = R} pos_state update)
  unfolding decode
  decode-Sound pos_state update below =
      >>=-Sound w IsLen Any (λ len. len < 272) (choose update) _ (choose-Sound update)
        λ choice any.
          if-Sound w IsLen (λ len. len < 272) (not choice) _ _
            (mono-Sound w IsLen (λ v. v < 8) (λ len. len < 272) (low pos_state update)
              (low-Sound pos_state update below) (λ v h. omega arith))
            (>>=-Sound w IsLen Any (λ len. len < 272) (choose2 update) _ (choose2-Sound update)
              λ choice2 any2.
                if-Sound w IsLen (λ len. len < 272) (not choice2) _ _
                  (>>=-Sound w IsLen (λ v. v < 8) (λ len. len < 272) (mid pos_state update) _
                    (mid-Sound pos_state update below)
                    (λ v h. return-Sound w IoError IsLen (λ len. len < 272) (v + 8) (omega arith)))
                  (>>=-Sound w IsLen (λ v. v < 256) (λ len. len < 272) (high update) _
                    (high-Sound update)
                    (λ v h.
                      return-Sound w IoError IsLen (λ len. len < 272) (v + 16) (omega arith))))
