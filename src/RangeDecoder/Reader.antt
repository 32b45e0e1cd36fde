-- ===== src/RangeDecoder/Reader.antt =====
-- src/decode/rangecoder.rs: a method touches its reader by reading only, so what every read keeps of a
-- reader is kept by the method, whatever comes of it.
use lzma_no_std_rs.Base.{
  ℕ, zero, suc, ◌+◌, ◌-◌, ◌*◌, ◌^◌, ◌⊎◌, inl, inr, Bool, true, false, not, List, ltb, leb, ◌==◌,
  if◌then◌else◌, length, get_or, u32, shr, shl, M, next, ◌>>=◌, ◌>>◌, return, modify, when, map_err,
  of_io,
}
use lzma_no_std_rs.Base.{
  Preserves, >>=-Preserves, if-Preserves, when-Preserves, Retains, >>=-Retains, if-Retains,
  when-Retains, at_elem, at_elem-Retains, on_field, on_field-Retains,
}
use lzma_no_std_rs.Io.Interface.{IoError, BufRead}
use lzma_no_std_rs.Io.Ext.{read_u8}
use lzma_no_std_rs.Error.{io_error}
use lzma_no_std_rs.Util
use lzma_no_std_rs.RangeDecoder.{
  RangeDecoder, on_stream, normalize, decode_bit, decode_zero, decode_one, decode_bit_at, tree_loop,
  parse_bit_tree, reverse_loop, parse_reverse_bit_tree, on_decoder, get, get_loop, get_bit, is_eof,
  is_finished_ok,
}
use lzma_no_std_rs.RangeDecoder.BitTree
use lzma_no_std_rs.RangeDecoder.BitTree.{BitTree}
use lzma_no_std_rs.RangeDecoder.LenDecoder
use lzma_no_std_rs.RangeDecoder.LenDecoder.{LenDecoder, choose, choose2, low, mid, high}

-- `K` outlives a read and a look at the buffer.
pub record IsKept {R : Type 0} ⦃rd : BufRead R⦄ (K : R → Type 0) : Type 0 where
  pub by_read : (n : ℕ) (r : R) → K r → K (rd.read_exact n r).1
  pub by_fill : (r : R) → K r → K (rd.fill_buf r).1

module _ {R : Type 0} ⦃rd : BufRead R⦄ (K : R → Type 0) (kept : IsKept K) where
  abbrev pub Reads : RangeDecoder R → Type 0
  Reads c = K c.stream

  -- The same of a method of the range decoder alone.
  abbrev pub Alone : {E A : Type 0} → M E (RangeDecoder R) A → Type 0
  Alone m = Preserves (λ c. K c.stream) m

  >>=-Alone :
      {E A B : Type 0} (m : M E (RangeDecoder R) A) (f : A → M E (RangeDecoder R) B)
      → Alone m
      → ((a : A) → Alone (f a))
      → Alone (m >>= f)
  >>=-Alone m f = >>=-Preserves (λ c. K c.stream) m f

  if-Alone :
      {E A : Type 0} (b : Bool) (m n : M E (RangeDecoder R) A)
      → Alone m
      → Alone n
      → Alone (if b then m else n)
  if-Alone b m n = if-Preserves (λ c. K c.stream) b m n

  when-Alone :
      {E : Type 0} (b : Bool) (m : M E (RangeDecoder R) (Unit {0})) → Alone m → Alone (when b m)
  when-Alone b m = when-Preserves (λ c. K c.stream) b m

  read_u8-kept : (r : R) → K r → K (read_u8 r).1
  unfolding read_u8
  read_u8-kept r h = after (rd.read_exact 1 r) (kept.by_read 1 r h)
    where
      after :
          (o : (IoError ⊎ List ℕ) × R)
          → K o.1
          → K (next (of_io o) (λ buf. return (get_or buf 0 0))).1
      after (inl e, r') k = k
      after (inr bs, r') k = k

  normalize-Alone : Alone normalize
  unfolding normalize
  normalize-Alone c =
      when-Alone (ltb c.range 0x0100_0000) _
        (λ c r.
          >>=-Alone (on_stream read_u8) _ (λ d. read_u8-kept d.stream) (λ byte d k. k)
            (record c { range = u32 (shl c.range 8) }) r)
        c

  get_bit-Alone : Alone get_bit
  unfolding get_bit
  get_bit-Alone c k =
      let d : RangeDecoder R = record c { range = shr c.range 1 } in
      >>=-Alone (when (leb d.range d.code) (modify (λ e. record e { code = e.code - e.range })))
        (λ _. map_err io_error normalize >> return (leb d.range d.code))
        (when-Alone (leb d.range d.code) (modify (λ e. record e { code = e.code - e.range }))
          (λ e h. h))
        (λ _. >>=-Alone (map_err io_error normalize) _ normalize-Alone (λ _ e h. h)) d k

  get_loop-Alone : (n result : ℕ) → Alone (get_loop n result)
  unfolding get_loop
  get_loop-Alone zero result c k = k
  get_loop-Alone (suc n) result c k =
      >>=-Alone get_bit _ get_bit-Alone (λ bit. get_loop-Alone n _) c k

  pub get-Alone : (count : ℕ) → Alone (get count)
  unfolding get
  get-Alone count = get_loop-Alone count 0

  is_eof-Alone : Alone is_eof
  unfolding is_eof Util.is_eof
  is_eof-Alone c k = after (rd.fill_buf c.stream) (kept.by_fill c.stream k)
    where
      after :
          (o : (IoError ⊎ List ℕ) × R)
          → K o.1
          → K (next (of_io o) (λ buf. return (length buf == 0))).1
      after (inl e, r') h = h
      after (inr bs, r') h = h

  pub is_finished_ok-Alone : Alone is_finished_ok
  unfolding is_finished_ok
  is_finished_ok-Alone c = if-Alone (c.code == 0) is_eof (return false) is_eof-Alone (λ d k. k) c

  decode_zero-Retains : (bound : ℕ) (update : Bool) → Retains Reads (decode_zero bound update)
  unfolding decode_zero
  decode_zero-Retains bound update =
      >>=-Retains Reads (when update _) _ (when-Retains Reads update _ (λ s k. k)) λ _ s k.
        >>=-Retains Reads (on_decoder normalize) (λ _. return false) (λ s. normalize-Alone s.0)
          (λ _ s k. k) (record s.0 { range = bound }, s.1) k

  decode_one-Retains : (bound : ℕ) (update : Bool) → Retains Reads (decode_one bound update)
  unfolding decode_one
  decode_one-Retains bound update =
      >>=-Retains Reads (when update _) _ (when-Retains Reads update _ (λ s k. k)) λ _ s k.
        >>=-Retains Reads (on_decoder normalize) (λ _. return true) (λ s. normalize-Alone s.0)
          (λ _ s k. k)
          (
            record s.0 {
              code = u32 (s.0.code + 2 ^ 32 - bound);
              range = u32 (s.0.range + 2 ^ 32 - bound);
            },
            s.1,
          )
          k

  pub decode_bit-Retains : (update : Bool) → Retains Reads (decode_bit update)
  unfolding decode_bit
  decode_bit-Retains update s =
      if-Retains Reads (ltb s.0.code (u32 (shr s.0.range 11 * s.1))) (decode_zero _ update)
        (decode_one _ update) (decode_zero-Retains _ update) (decode_one-Retains _ update) s

  pub decode_bit_at-Retains : (i : ℕ) (update : Bool) → Retains Reads (decode_bit_at i update)
  unfolding decode_bit_at
  decode_bit_at-Retains i update =
      at_elem-Retains Reads i (decode_bit update) (decode_bit-Retains update)

  tree_loop-Retains : (update : Bool) (n tmp : ℕ) → Retains Reads (tree_loop update n tmp)
  unfolding tree_loop
  tree_loop-Retains update zero tmp s k = k
  tree_loop-Retains update (suc n) tmp s k =
      >>=-Retains Reads (decode_bit_at tmp update) _ (decode_bit_at-Retains tmp update)
        (λ bit. tree_loop-Retains update n _) s k

  parse_bit_tree-Retains : (n : ℕ) (update : Bool) → Retains Reads (parse_bit_tree n update)
  unfolding parse_bit_tree
  parse_bit_tree-Retains n update =
      >>=-Retains Reads (tree_loop update n 1) _ (tree_loop-Retains update n 1) (λ tmp s k. k)

  reverse_loop-Retains :
      (offset : ℕ) (update : Bool) (n i tmp result : ℕ)
      → Retains Reads (reverse_loop offset update n i tmp result)
  unfolding reverse_loop
  reverse_loop-Retains offset update zero i tmp result s k = k
  reverse_loop-Retains offset update (suc n) i tmp result s k =
      >>=-Retains Reads (decode_bit_at _ update) _ (decode_bit_at-Retains _ update)
        (λ bit. reverse_loop-Retains offset update n _ _ _) s k

  pub parse_reverse_bit_tree-Retains :
      (n offset : ℕ) (update : Bool) → Retains Reads (parse_reverse_bit_tree n offset update)
  unfolding parse_reverse_bit_tree
  parse_reverse_bit_tree-Retains n offset update = reverse_loop-Retains offset update n 0 1 0

  pub parse-Retains : (update : Bool) → Retains Reads (BitTree.parse update)
  unfolding BitTree.parse
  parse-Retains update s =
      on_field-Retains Reads (λ t. t.probs) (λ p t. record t { probs = p })
        (parse_bit_tree s.1.num_bits update) (parse_bit_tree-Retains s.1.num_bits update) s

  pub parse_reverse-Retains : (update : Bool) → Retains Reads (BitTree.parse_reverse update)
  unfolding BitTree.parse_reverse
  parse_reverse-Retains update s =
      on_field-Retains Reads (λ t. t.probs) (λ p t. record t { probs = p })
        (parse_reverse_bit_tree s.1.num_bits 0 update)
        (parse_reverse_bit_tree-Retains s.1.num_bits 0 update) s

  -- `LenDecoder::decode`
  pub decode-Retains :
      (pos_state : ℕ) (update : Bool) → Retains Reads (LenDecoder.decode pos_state update)
  unfolding LenDecoder.decode
  decode-Retains pos_state update =
      >>=-Retains Reads (choose update) _
        (on_field-Retains Reads (λ (d : LenDecoder). d.choice) (λ t d. record d { choice = t })
          (decode_bit update) (decode_bit-Retains update))
        λ choice.
          if-Retains Reads (not choice) (low pos_state update) _
            (trees (λ d. d.low_coder) (λ t d. record d { low_coder = t }) pos_state)
            (>>=-Retains Reads (choose2 update) _
              (on_field-Retains Reads (λ (d : LenDecoder). d.choice2)
                (λ t d. record d { choice2 = t }) (decode_bit update) (decode_bit-Retains update))
              λ choice2.
                if-Retains Reads (not choice2) _ _
                  (>>=-Retains Reads (mid pos_state update) _
                    (trees (λ d. d.mid_coder) (λ t d. record d { mid_coder = t }) pos_state)
                    (λ len s k. k))
                  (>>=-Retains Reads (high update) _
                    (on_field-Retains Reads (λ (d : LenDecoder). d.high_coder)
                      (λ t d. record d { high_coder = t }) (BitTree.parse update)
                      (parse-Retains update))
                    (λ len s k. k)))
    where
      trees :
          (get : LenDecoder → List BitTree) (put : List BitTree → LenDecoder → LenDecoder) (i : ℕ)
          → Retains Reads (on_field get put (at_elem i (BitTree.parse update)))
      trees get put i =
          on_field-Retains Reads get put (at_elem i (BitTree.parse update))
            (at_elem-Retains Reads i (BitTree.parse update) (parse-Retains update))
