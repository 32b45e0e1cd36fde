-- ===== src/Roundtrip/Length/Decode.antt =====
-- src/decode/rangecoder.rs, `LenDecoder::decode`: it reads the code of a length, and gives that length.
use lzma_no_std_rs.Base.{
  ℕ, ◌+◌, ◌-◌, ◌*◌, ◌^◌, ◌≤◌, ◌<◌, ◌≡◌, inl, inr, Bool, true, false, not, List, arith, ltb, ltb→lt,
  ltb→le, if◌then◌else◌, Bool-cases, All, u32, shl, M, ◌>>=◌, return, Post,
}
use lzma_no_std_rs.Base.{at_elem}
use lzma_no_std_rs.Io.Interface.{IoError, BufRead}
use lzma_no_std_rs.Io.Ext.Bytes.{IsByte}
use lzma_no_std_rs.RangeDecoder.{RangeDecoder, decode_bit, tree_loop, parse_bit_tree}
use lzma_no_std_rs.RangeDecoder.Safe.{IsProb}
use lzma_no_std_rs.RangeDecoder.BitTree as Tree
use lzma_no_std_rs.RangeDecoder.BitTree.{BitTree}
use lzma_no_std_rs.RangeDecoder.BitTree.Sound.{IsTree}
use lzma_no_std_rs.RangeDecoder.LenDecoder.{LenDecoder, choose, choose2, low, mid, high, decode}
use lzma_no_std_rs.RangeDecoder.LenDecoder.Sound.{IsLen}
use lzma_no_std_rs.Roundtrip.Span.{Span, IsWide}
use lzma_no_std_rs.Roundtrip.Target.{Leads}
use lzma_no_std_rs.Roundtrip.Decoding.{IsReliable, Tracks}
use lzma_no_std_rs.Roundtrip.Code.{
  Code, IsCode, bit_code, then_code, then_code-IsCode, done-IsCode, IsTable, at_code,
}
use lzma_no_std_rs.Roundtrip.Reads.{Reads, decode_bit-Reads, return-Reads, >>=-Reads, at_elem-Reads}
use lzma_no_std_rs.Roundtrip.Tree.{on_field-Reads, tree_code, tree_code-IsCode, tree_loop-Reads}
use lzma_no_std_rs.Roundtrip.Length.{
  AreTrees, IsChoice-keeps, IsChoice2-keeps, IsHigh-keeps, IsLow-keeps, IsMid-keeps, choice2_code,
  choice2_code-IsCode, choice_code, choice_code-IsCode, high_code, high_code-IsCode, in_word,
  len_code, low_code, low_code-IsCode, mid_code, mid_code-IsCode, no_tree, whole_code,
}

module _ {R : Type 0} ⦃rd : BufRead R⦄ (reliable : IsReliable rd) (all : List ℕ)
    (bytes : All IsByte all) where
  parse_bit_tree-Reads :
      (k n : ℕ)
      → k ≤ 31
      → n < 2 ^ k
      → Reads reliable all bytes
          (IsTable (2 ^ k) IsProb)
          (tree_code k n 1)
          n
          (parse_bit_tree k true)
  unfolding parse_bit_tree
  parse_bit_tree-Reads k n few fits =
      let back : u32 (1 * 2 ^ k + n + 2 ^ 32 - shl 1 k) ≡ n = omega (arith, fits, in_word k few) in
      >>=-Reads reliable all bytes (IsTable (2 ^ k) IsProb) (tree_code k n 1) (λ x. x)
        (1 * 2 ^ k + n) n (tree_loop true k 1) (λ tmp. return (u32 (tmp + 2 ^ 32 - shl 1 k)))
        (tree_code-IsCode (2 ^ k) (in_word k few) k n 1 (omega arith, omega arith))
        (done-IsCode (IsTable (2 ^ k) IsProb))
        (tree_loop-Reads (2 ^ k) (in_word k few) reliable all bytes k n 1 fits
          (omega arith, omega arith))
        (rw back (return-Reads reliable all bytes IoError (IsTable (2 ^ k) IsProb) n))

  parse-Reads :
      (k n : ℕ)
      → k ≤ 31
      → n < 2 ^ k
      → Reads reliable all bytes (IsTree k) (whole_code k n) n (Tree.parse true)
  unfolding Tree.parse
  parse-Reads k n few fits s t c wide good h track =
      let run : Reads reliable all bytes (IsTable (2 ^ k) IsProb) (tree_code k n 1) n
          (parse_bit_tree t.num_bits true) =
        rw good.bits (parse_bit_tree-Reads k n few fits) in
      on_field-Reads (IsTree k) (IsTable (2 ^ k) IsProb) (λ t. t.probs)
        (λ p t. record t { probs = p }) (λ t h. (h.table.1, h.table.0))
        (λ p t q h. record { bits = h.bits; table = (q.1, q.0) }) reliable all bytes
        (tree_code k n 1) n (parse_bit_tree t.num_bits true) run s t c wide good h track

  choose-Reads : (b : Bool) → Reads reliable all bytes IsLen (choice_code b) b (choose true)
  unfolding choose
  choose-Reads b =
      on_field-Reads IsLen IsProb (λ d. d.choice) (λ t d. record d { choice = t }) (λ d h. h.choice)
        IsChoice-keeps reliable all bytes (bit_code b) b (decode_bit true)
        (decode_bit-Reads reliable all bytes b)

  choose2-Reads : (b : Bool) → Reads reliable all bytes IsLen (choice2_code b) b (choose2 true)
  unfolding choose2
  choose2-Reads b =
      on_field-Reads IsLen IsProb (λ d. d.choice2) (λ t d. record d { choice2 = t })
        (λ d h. h.choice2) IsChoice2-keeps reliable all bytes (bit_code b) b (decode_bit true)
        (decode_bit-Reads reliable all bytes b)

  one_of-Reads :
      (i n : ℕ)
      → i < 16
      → n < 8
      → Reads reliable all bytes AreTrees
          (at_code i no_tree (whole_code 3 n))
          n
          (at_elem i (Tree.parse true))
  one_of-Reads i n below fits =
      at_elem-Reads reliable all bytes (IsTree 3) 16 i no_tree (whole_code 3 n) n (Tree.parse true)
        below (parse-Reads 3 n (omega arith) (omega (arith, fits)))

  low-Reads :
      (i n : ℕ) → i < 16 → n < 8 → Reads reliable all bytes IsLen (low_code i n) n (low i true)
  unfolding low
  low-Reads i n below fits =
      on_field-Reads IsLen AreTrees (λ d. d.low_coder) (λ t d. record d { low_coder = t })
        (λ d h. (h.low.1, h.low.0)) IsLow-keeps reliable all bytes
        (at_code i no_tree (whole_code 3 n)) n (at_elem i (Tree.parse true))
        (one_of-Reads i n below fits)

  mid-Reads :
      (i n : ℕ) → i < 16 → n < 8 → Reads reliable all bytes IsLen (mid_code i n) n (mid i true)
  unfolding mid
  mid-Reads i n below fits =
      on_field-Reads IsLen AreTrees (λ d. d.mid_coder) (λ t d. record d { mid_coder = t })
        (λ d h. (h.mid.1, h.mid.0)) IsMid-keeps reliable all bytes
        (at_code i no_tree (whole_code 3 n)) n (at_elem i (Tree.parse true))
        (one_of-Reads i n below fits)

  high-Reads : (n : ℕ) → n < 256 → Reads reliable all bytes IsLen (high_code n) n (high true)
  unfolding high
  high-Reads n fits =
      on_field-Reads IsLen (IsTree 8) (λ d. d.high_coder) (λ t d. record d { high_coder = t })
        (λ d h. h.high) IsHigh-keeps reliable all bytes (whole_code 8 n) n (Tree.parse true)
        (parse-Reads 8 n (omega arith) (omega (arith, fits)))

  -- What `decode` does with the number behind the choices.
  plus-Reads :
      (k n : ℕ) (f : Code LenDecoder) (m : M IoError (RangeDecoder R × LenDecoder) ℕ)
      → k ≤ n
      → IsCode IsLen f
      → Reads reliable all bytes IsLen f (n - k) m
      → Reads reliable all bytes IsLen f n (do len ← m; return (len + k))
  plus-Reads k n f m enough c r =
      let back : n - k + k ≡ n = omega (arith, enough) in
      >>=-Reads reliable all bytes IsLen f (λ x. x) (n - k) n m (λ len. return (len + k)) c
        (done-IsCode IsLen) r (rw back (return-Reads reliable all bytes IoError IsLen n))

  -- `decode` after the first choice.
  abbrev after_choice : ℕ → Bool → M IoError (RangeDecoder R × LenDecoder) ℕ
  after_choice i choice = if not choice then low i true else do
    choice2 ← choose2 true
    if not choice2
        then (do len ← mid i true; return (len + 8))
        else do len ← high true; return (len + 16)

  abbrev after_choice2 : ℕ → Bool → M IoError (RangeDecoder R × LenDecoder) ℕ
  after_choice2 i choice2 =
      if not choice2
      then (do len ← mid i true; return (len + 8))
      else do len ← high true; return (len + 16)

  decode-Reads :
      (i n : ℕ) → i < 16 → n < 272 → Reads reliable all bytes IsLen (len_code i n) n (decode i true)
  unfolding decode
  decode-Reads i n below fits = elim (Bool-cases (ltb n 8)) [
    | inl short ↦ rw short (
        >>=-Reads reliable all bytes IsLen (choice_code false) (low_code i n) false n (choose true)
          (after_choice i) (choice_code-IsCode false) (low_code-IsCode i n below)
          (choose-Reads false) (low-Reads i n below (ltb→lt _ _ short)))
    | inr longer ↦ rw longer (elim (Bool-cases (ltb n 16)) [
      | inl short ↦
          let k : ℕ = n - 8 in
          let near : n - 8 < 8 = omega (arith, ltb→lt _ _ short, ltb→le _ _ longer) in
          rw short (
            >>=-Reads reliable all bytes IsLen (choice_code true)
              (then_code (choice2_code false) (mid_code i k)) true n (choose true) (after_choice i)
              (choice_code-IsCode true)
              (then_code-IsCode IsLen (choice2_code false) (mid_code i k)
                (choice2_code-IsCode false) (mid_code-IsCode i k below))
              (choose-Reads true)
              (>>=-Reads reliable all bytes IsLen (choice2_code false) (mid_code i k) false n
                (choose2 true) (after_choice2 i) (choice2_code-IsCode false)
                (mid_code-IsCode i k below) (choose2-Reads false)
                (plus-Reads 8 n (mid_code i k) (mid i true) (ltb→le _ _ longer)
                  (mid_code-IsCode i k below) (mid-Reads i k below near))))
      | inr long ↦
          let k : ℕ = n - 16 in
          let far : n - 16 < 256 = omega (arith, fits) in
          rw long (
            >>=-Reads reliable all bytes IsLen (choice_code true)
              (then_code (choice2_code true) (high_code k)) true n (choose true) (after_choice i)
              (choice_code-IsCode true)
              (then_code-IsCode IsLen (choice2_code true) (high_code k) (choice2_code-IsCode true)
                (high_code-IsCode k))
              (choose-Reads true)
              (>>=-Reads reliable all bytes IsLen (choice2_code true) (high_code k) true n
                (choose2 true) (after_choice2 i) (choice2_code-IsCode true) (high_code-IsCode k)
                (choose2-Reads true)
                (plus-Reads 16 n (high_code k) (high true) (ltb→le _ _ long) (high_code-IsCode k)
                  (high-Reads k far))))
    ])
  ]

  -- On an input of bytes whose number is in the part of a span that belongs to the code of a length
  -- n below 272, for a position state below 16, decode with update returns n and does not fail, and
  -- leaves the range decoder on its way to the number in that part, with the probabilities of the
  -- code. The code of n is, up to 7, a zero and the three bits of n on the low tree of the position
  -- state; up to 15, a one, a zero and the three bits of n - 8 on the middle tree of it; above, two
  -- ones and the eight bits of n - 16 on the high tree; the first bit of a number is coded first.
  -- The span has a range from 2 ^ 24 below 2 ^ 32, the trees have their sizes and the probabilities
  -- are from 31 to 2017, the reader gives what is there, and the range decoder is on its way to the
  -- number.
  pub decode-len_code :
      (pos_state n : ℕ) (s : Span) (c : RangeDecoder R) (d : LenDecoder)
      → pos_state < 16
      → n < 272
      → IsWide s
      → IsLen d
      → Leads all (len_code pos_state n (s, d)).0
      → Tracks reliable all bytes s c
      → Post
          (λ len u.
            (len ≡ n)
            × Tracks reliable all bytes (len_code pos_state n (s, d)).0 u.0
            × (u.1 ≡ (len_code pos_state n (s, d)).1))
          (λ _. ⊥)
          (decode pos_state true (c, d))
  decode-len_code pos_state n s c d below fits wide good h track =
      decode-Reads pos_state n below fits s d c wide good h track
