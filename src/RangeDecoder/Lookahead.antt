-- ===== src/RangeDecoder/Lookahead.antt =====
-- src/decode/rangecoder.rs with `update` false: the range decoder moves on, and the probabilities stay
-- as they were, whatever comes of the call.
use lzma_no_std_rs.Base.{
  ℕ, zero, suc, ◌+◌, ◌-◌, ◌*◌, ◌^◌, ◌≡◌, refl, true, false, not, List, ltb, u32, shr, return,
}
use lzma_no_std_rs.Base.{
  Spares, at_elem, at_elem-Spares, on_field, on_field-Spares, >>=-Spares, if-Spares,
}
use lzma_no_std_rs.Io.Interface.{BufRead}
use lzma_no_std_rs.RangeDecoder.{
  normalize, decode_bit, decode_zero, decode_one, decode_bit_at, tree_loop, parse_bit_tree,
  reverse_loop, parse_reverse_bit_tree, on_decoder,
}
use lzma_no_std_rs.RangeDecoder.BitTree
use lzma_no_std_rs.RangeDecoder.BitTree.{BitTree}
use lzma_no_std_rs.RangeDecoder.LenDecoder
use lzma_no_std_rs.RangeDecoder.LenDecoder.{LenDecoder, choose, choose2, low, mid, high}

module _ {R : Type 0} ⦃rd : BufRead R⦄ where
  decode_zero-Spares : (bound : ℕ) → Spares (decode_zero {R = R} bound false)
  unfolding decode_zero
  decode_zero-Spares bound s =
      >>=-Spares (on_decoder normalize) (λ _. return false) (λ s. refl) (λ a s. refl)
        (record s.0 { range = bound }, s.1)

  decode_one-Spares : (bound : ℕ) → Spares (decode_one {R = R} bound false)
  unfolding decode_one
  decode_one-Spares bound s =
      >>=-Spares (on_decoder normalize) (λ _. return true) (λ s. refl) (λ a s. refl)
        (
          record s.0 {
            code = u32 (s.0.code + 2 ^ 32 - bound);
            range = u32 (s.0.range + 2 ^ 32 - bound);
          },
          s.1,
        )

  pub decode_bit-Spares : Spares (decode_bit {R = R} false)
  unfolding decode_bit
  decode_bit-Spares s =
      if-Spares (ltb s.0.code (u32 (shr s.0.range 11 * s.1))) (decode_zero _ false)
        (decode_one _ false) (decode_zero-Spares _) (decode_one-Spares _) s

  pub decode_bit_at-Spares : (i : ℕ) → Spares (decode_bit_at {R = R} i false)
  unfolding decode_bit_at
  decode_bit_at-Spares i = at_elem-Spares i (decode_bit false) decode_bit-Spares

  tree_loop-Spares : (n tmp : ℕ) → Spares (tree_loop {R = R} false n tmp)
  unfolding tree_loop
  tree_loop-Spares zero tmp s = refl
  tree_loop-Spares (suc n) tmp s =
      >>=-Spares (decode_bit_at tmp false) _ (decode_bit_at-Spares tmp)
        (λ bit. tree_loop-Spares n _) s

  parse_bit_tree-Spares : (n : ℕ) → Spares (parse_bit_tree {R = R} n false)
  unfolding parse_bit_tree
  parse_bit_tree-Spares n =
      >>=-Spares (tree_loop false n 1) _ (tree_loop-Spares n 1) (λ tmp s. refl)

  reverse_loop-Spares :
      (offset n i tmp result : ℕ) → Spares (reverse_loop {R = R} offset false n i tmp result)
  unfolding reverse_loop
  reverse_loop-Spares offset zero i tmp result s = refl
  reverse_loop-Spares offset (suc n) i tmp result s =
      >>=-Spares (decode_bit_at _ false) _ (decode_bit_at-Spares _)
        (λ bit. reverse_loop-Spares offset n _ _ _) s

  pub parse_reverse_bit_tree-Spares :
      (n offset : ℕ) → Spares (parse_reverse_bit_tree {R = R} n offset false)
  unfolding parse_reverse_bit_tree
  parse_reverse_bit_tree-Spares n offset = reverse_loop-Spares offset n 0 1 0

  pub parse-Spares : Spares (BitTree.parse {R = R} false)
  unfolding BitTree.parse
  parse-Spares s =
      on_field-Spares (λ t. t.probs) (λ p t. record t { probs = p })
        (parse_bit_tree s.1.num_bits false) (λ t. refl) (parse_bit_tree-Spares s.1.num_bits) s

  pub parse_reverse-Spares : Spares (BitTree.parse_reverse {R = R} false)
  unfolding BitTree.parse_reverse
  parse_reverse-Spares s =
      on_field-Spares (λ t. t.probs) (λ p t. record t { probs = p })
        (parse_reverse_bit_tree s.1.num_bits 0 false) (λ t. refl)
        (parse_reverse_bit_tree-Spares s.1.num_bits 0) s

  -- `LenDecoder::decode`
  pub decode-Spares : (pos_state : ℕ) → Spares (LenDecoder.decode {R = R} pos_state false)
  unfolding LenDecoder.decode
  decode-Spares pos_state =
      >>=-Spares (choose false) _
        (on_field-Spares (λ d. d.choice) (λ t d. record d { choice = t }) (decode_bit false)
          (λ d. refl) decode_bit-Spares)
        λ choice.
          if-Spares (not choice) _ _
            (coder (λ d. d.low_coder) (λ t d. record d { low_coder = t }) (λ d. refl) pos_state)
            (>>=-Spares (choose2 false) _
              (on_field-Spares (λ d. d.choice2) (λ t d. record d { choice2 = t }) (decode_bit false)
                (λ d. refl) decode_bit-Spares)
              λ choice2.
                if-Spares (not choice2) _ _
                  (>>=-Spares (mid pos_state false) _
                    (coder (λ d. d.mid_coder) (λ t d. record d { mid_coder = t }) (λ d. refl)
                      pos_state)
                    (λ len s. refl))
                  (>>=-Spares (high false) _
                    (on_field-Spares (λ d. d.high_coder) (λ t d. record d { high_coder = t })
                      (BitTree.parse false) (λ d. refl) parse-Spares)
                    (λ len s. refl)))
    where
      coder :
          (get : LenDecoder → List BitTree) (put : List BitTree → LenDecoder → LenDecoder)
          → ((d : LenDecoder) → put (get d) d ≡ d)
          → (i : ℕ) → Spares (on_field get put (at_elem i (BitTree.parse {R = R} false)))
      coder get put same i =
          on_field-Spares get put (at_elem i (BitTree.parse false)) same
            (at_elem-Spares i (BitTree.parse false) parse-Spares)
