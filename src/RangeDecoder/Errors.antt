-- ===== src/RangeDecoder/Errors.antt =====
-- src/decode/rangecoder.rs: the methods on bits and trees have no errors of their own. What holds of every
-- error that the reader gives for a byte holds of theirs.
use lzma_no_std_rs.Base.{
  ℕ, zero, suc, ◌+◌, ◌-◌, ◌*◌, ◌^◌, ◌≤◌, ◌<◌, Bool, true, false, List, ltb, leb, u32, shr, shl,
  ◌>>◌, return, modify, when, map_err, of_io,
}
use lzma_no_std_rs.Base.{
  Ends, Throws, Post-Ends, Raises, >>=-Raises, if-Raises, when-Raises, zoom-Raises, map_err-Raises,
  on_field-Raises, at_elem-Raises,
}
use lzma_no_std_rs.Io.Interface.{IoError, BufRead}
use lzma_no_std_rs.Io.Ext.{read_u8, read_buf}
use lzma_no_std_rs.Error.{Error, io_error}
use lzma_no_std_rs.RangeDecoder.{
  RangeDecoder, on_stream, normalize, decode_bit, decode_zero, decode_one, decode_bit_at, tree_loop,
  parse_bit_tree, reverse_loop, parse_reverse_bit_tree, on_decoder, get, get_loop, get_bit,
}
use lzma_no_std_rs.RangeDecoder.BitTree
use lzma_no_std_rs.RangeDecoder.BitTree.{BitTree}
use lzma_no_std_rs.RangeDecoder.Safe.{
  IsProb, IsCoder, weight, Ready, HasInput, AfterBit, StillBytes, decode_bit-Post,
}
use lzma_no_std_rs.RangeDecoder.Trees.{IsTable, ReadyAt, FailedAt}
use lzma_no_std_rs.RangeDecoder.Reverse.{get-Post, parse_reverse_bit_tree-Post}

-- Every error that the reader gives for a byte is in `F`.
abbrev pub IsBlamed : {R : Type 0} → BufRead R → (IoError → Type 0) → Type 0
IsBlamed {R} rd F = (r : R) → Throws F (of_io (rd.read_exact 1 r))

-- The same errors, as errors of the crate.
abbrev pub OfReader : (IoError → Type 0) → Error → Type 0
OfReader F (io_error e) = F e
OfReader F _ = ⊥

module _ {R : Type 0} ⦃rd : BufRead R⦄ (F : IoError → Type 0) (blamed : IsBlamed rd F) where
  read_u8-Raises : Raises F (read_u8 {R = R})
  unfolding read_u8
  read_u8-Raises = >>=-Raises F (read_buf 1) _ blamed (λ buf r. tt)

  normalize-Raises : Raises F (normalize {R = R})
  unfolding normalize
  normalize-Raises c =
      when-Raises F (ltb c.range 0x0100_0000) _
        (λ c.
          >>=-Raises F (on_stream read_u8) _
            (zoom-Raises F (λ d. d.stream) (λ r d. record d { stream = r }) read_u8 read_u8-Raises)
            (λ byte d. tt) (record c { range = u32 (shl c.range 8) }))
        c

  get_bit-Raises : Raises (OfReader F) (get_bit {R = R})
  unfolding get_bit
  get_bit-Raises c =
      let d : RangeDecoder R = record c { range = shr c.range 1 } in
      >>=-Raises (OfReader F)
        (when (leb d.range d.code) (modify (λ e. record e { code = e.code - e.range })))
        (λ _. map_err io_error normalize >> return (leb d.range d.code))
        (when-Raises (OfReader F) (leb d.range d.code)
          (modify (λ e. record e { code = e.code - e.range })) (λ e. tt))
        (λ _.
          >>=-Raises (OfReader F) (map_err io_error normalize) _
            (map_err-Raises F (OfReader F) io_error normalize (λ e h. h) normalize-Raises)
            (λ _ e. tt))
        d

  get_loop-Raises : (n result : ℕ) → Raises (OfReader F) (get_loop {R = R} n result)
  unfolding get_loop
  get_loop-Raises zero result = λ c. tt
  get_loop-Raises (suc n) result =
      >>=-Raises (OfReader F) get_bit _ get_bit-Raises (λ bit. get_loop-Raises n _)

  pub get-Raises : (count : ℕ) → Raises (OfReader F) (get {R = R} count)
  unfolding get
  get-Raises count = get_loop-Raises count 0

  refill-Raises : Raises F (on_decoder {R = R} normalize)
  refill-Raises = zoom-Raises F (λ s. s.0) (λ d s. (d, s.1)) normalize normalize-Raises

  decode_zero-Raises : (bound : ℕ) (update : Bool) → Raises F (decode_zero {R = R} bound update)
  unfolding decode_zero
  decode_zero-Raises bound update =
      >>=-Raises F (when update _) _ (when-Raises F update _ (λ s. tt)) λ _ s.
        >>=-Raises F (on_decoder normalize) (λ _. return false) refill-Raises (λ _ s. tt)
          (record s.0 { range = bound }, s.1)

  decode_one-Raises : (bound : ℕ) (update : Bool) → Raises F (decode_one {R = R} bound update)
  unfolding decode_one
  decode_one-Raises bound update =
      >>=-Raises F (when update _) _ (when-Raises F update _ (λ s. tt)) λ _ s.
        >>=-Raises F (on_decoder normalize) (λ _. return true) refill-Raises (λ _ s. tt)
          (
            record s.0 {
              code = u32 (s.0.code + 2 ^ 32 - bound);
              range = u32 (s.0.range + 2 ^ 32 - bound);
            },
            s.1,
          )

  decode_bit-Raises : (update : Bool) → Raises F (decode_bit {R = R} update)
  unfolding decode_bit
  decode_bit-Raises update s =
      if-Raises F (ltb s.0.code (u32 (shr s.0.range 11 * s.1))) (decode_zero _ update)
        (decode_one _ update) (decode_zero-Raises _ update) (decode_one-Raises _ update) s

  pub decode_bit_at-Raises : (i : ℕ) (update : Bool) → Raises F (decode_bit_at {R = R} i update)
  unfolding decode_bit_at
  decode_bit_at-Raises i update = at_elem-Raises F i (decode_bit update) (decode_bit-Raises update)

  tree_loop-Raises : (update : Bool) (n tmp : ℕ) → Raises F (tree_loop {R = R} update n tmp)
  unfolding tree_loop
  tree_loop-Raises update zero tmp = λ s. tt
  tree_loop-Raises update (suc n) tmp =
      >>=-Raises F (decode_bit_at tmp update) _ (decode_bit_at-Raises tmp update)
        (λ bit. tree_loop-Raises update n _)

  parse_bit_tree-Raises : (n : ℕ) (update : Bool) → Raises F (parse_bit_tree {R = R} n update)
  unfolding parse_bit_tree
  parse_bit_tree-Raises n update =
      >>=-Raises F (tree_loop update n 1) _ (tree_loop-Raises update n 1) (λ tmp s. tt)

  reverse_loop-Raises :
      (offset : ℕ) (update : Bool) (n i tmp result : ℕ)
      → Raises F (reverse_loop {R = R} offset update n i tmp result)
  unfolding reverse_loop
  reverse_loop-Raises offset update zero i tmp result = λ s. tt
  reverse_loop-Raises offset update (suc n) i tmp result =
      >>=-Raises F (decode_bit_at _ update) _ (decode_bit_at-Raises _ update)
        (λ bit. reverse_loop-Raises offset update n _ _ _)

  pub parse_reverse_bit_tree-Raises :
      (n offset : ℕ) (update : Bool) → Raises F (parse_reverse_bit_tree {R = R} n offset update)
  unfolding parse_reverse_bit_tree
  parse_reverse_bit_tree-Raises n offset update = reverse_loop-Raises offset update n 0 1 0

  pub parse-Raises : (update : Bool) → Raises F (BitTree.parse {R = R} update)
  unfolding BitTree.parse
  parse-Raises update s =
      on_field-Raises F (λ t. t.probs) (λ p t. record t { probs = p })
        (parse_bit_tree s.1.num_bits update) (parse_bit_tree-Raises s.1.num_bits update) s

  pub parse_reverse-Raises : (update : Bool) → Raises F (BitTree.parse_reverse {R = R} update)
  unfolding BitTree.parse_reverse
  parse_reverse-Raises update s =
      on_field-Raises F (λ t. t.probs) (λ p t. record t { probs = p })
        (parse_reverse_bit_tree s.1.num_bits 0 update)
        (parse_reverse_bit_tree-Raises s.1.num_bits 0 update) s

  -- If the range is from 2 ^ 24 to 2 ^ 32, the code and the input fit, and the probability is from
  -- 31 to 2017, decode_bit does not panic. If it returns, the same holds of decoder and
  -- probability, and the weight (2 ^ 32 for each byte left, plus the range) is smaller. If it
  -- fails, the input and the probability still fit, and the error has every property F that all
  -- errors of the reader for one byte have.
  pub decode_bit-Ends :
      (update : Bool) (c : RangeDecoder R) (p : ℕ)
      → IsCoder c
      → IsProb p
      → Ends (λ _. AfterBit (weight c)) (λ e u. F e × StillBytes u) (decode_bit update (c, p))
  decode_bit-Ends update c p v prob =
      Post-Ends _ StillBytes F (decode_bit update (c, p)) (decode_bit-Post update c p v prob)
        (decode_bit-Raises update (c, p))

  -- For up to 31 bits and a table of at most 2 ^ 32 probabilities with 2 ^ num_bits places from the
  -- offset on, parse_reverse_bit_tree, on a range decoder that is ready, does not panic. If it
  -- returns, it gives a number below 2 ^ num_bits, and the range decoder is ready, below the same
  -- weight. If it fails, the error has every property F that all errors of the reader for one byte
  -- have. In both cases the table keeps its size and bounds.
  pub parse_reverse_bit_tree-Ends :
      (w size offset num_bits : ℕ) (update : Bool) (s : RangeDecoder R × List ℕ)
      → num_bits ≤ 31
      → offset + 2 ^ num_bits ≤ size
      → size ≤ 2 ^ 32
      → ReadyAt w size s
      → Ends
          (λ v u. Ready w u.0 × IsTable size u.1 × (v < 2 ^ num_bits))
          (λ e u. F e × FailedAt size u)
          (parse_reverse_bit_tree num_bits offset update s)
  parse_reverse_bit_tree-Ends w size offset num_bits update s few room bound r =
      Post-Ends _ (FailedAt size) F (parse_reverse_bit_tree num_bits offset update s)
        (parse_reverse_bit_tree-Post w size offset num_bits update s few room bound r)
        (parse_reverse_bit_tree-Raises num_bits offset update s)

  -- For up to 31 bits, on a range decoder that is ready, get does not panic. If it returns, it
  -- gives a number below 2 ^ count, and the range decoder is ready, below the same weight. If it
  -- fails, it is by an io_error with every property F that all errors of the reader for one byte
  -- have, and the input still fits.
  pub get-Ends :
      (w count : ℕ) (c : RangeDecoder R)
      → count ≤ 31
      → Ready w c
      → Ends (λ v d. Ready w d × (v < 2 ^ count)) (λ e d. OfReader F e × HasInput d) (get count c)
  get-Ends w count c few r =
      Post-Ends _ HasInput (OfReader F) (get count c) (get-Post w count c few r)
        (get-Raises count c)
