-- ===== src/Decompress/Total.antt =====
-- src/lib.rs, `lzma_decompress_with_options`: any input of bytes comes to a result or an error.
use lzma_no_std_rs.Base.{
  ℕ, ◌^◌, ◌<◌, ◌≡◌, refl, sym, subst, arith, leb, Result, ok, err, panic, ◌>>◌, put_back, relabel,
  map_err, Post, next-Post, Post-mono, put_back-Post, relabel-Post,
}
use lzma_no_std_rs.Base.{Post-beside, Preserves, >>=-Preserves, if-Preserves}
use lzma_no_std_rs.Io.Interface.{IoError, BufRead, Write}
use lzma_no_std_rs.Io.Endian.{Endian}
use lzma_no_std_rs.Io.Ext.{read_u8, read_u32, read_u64}
use lzma_no_std_rs.Io.Ext.Bytes.{IsInput}
use lzma_no_std_rs.Io.Ext.Rest.{read_u8-IsInput, read_u32-IsInput, read_u64-IsInput}
use lzma_no_std_rs.Io.Cursor
use lzma_no_std_rs.Error.{io_error, lzma_error, data_stream_is_too_short, header_too_short}
use lzma_no_std_rs.Options.{
  Options, UnpackedSize, read_from_header, read_header_but_use_provided, use_provided,
}
use lzma_no_std_rs.LzBuffer
use lzma_no_std_rs.LzBuffer.Keep.{finish-returns}
use lzma_no_std_rs.RangeDecoder
use lzma_no_std_rs.RangeDecoder.{RangeDecoder}
use lzma_no_std_rs.RangeDecoder.Safe.{IsCoder}
use lzma_no_std_rs.RangeDecoder.Start.{new-IsCoder}
use lzma_no_std_rs.Lzma.Params.{LzmaParams, read_header, read_unpacked_size}
use lzma_no_std_rs.Lzma.Params.Header.{IsValid, Left, read_header-Post}
use lzma_no_std_rs.Lzma.State
use lzma_no_std_rs.Lzma.State.{DecoderState, finish}
use lzma_no_std_rs.Lzma.State.Reset.{fresh, new-IsShaped, reset-fresh}
use lzma_no_std_rs.Lzma.State.Taken.{IsSaid, HasTaken, set_params-Post}
use lzma_no_std_rs.Lzma.Step.{Session}
use lzma_no_std_rs.Lzma.Process.{process}
use lzma_no_std_rs.Lzma.Process.Valid.{IsPartial, IsRunning}
use lzma_no_std_rs.Lzma.Process.Total.{process_mode-Post}
use lzma_no_std_rs.Decompress.{decode_all, lzma_decompress_with_options}

module _ {R : Type 0} ⦃rd : BufRead R⦄ ⦃e : Endian⦄ where
  read_unpacked_size-IsInput :
      (mode : UnpackedSize) → Preserves (IsInput {R = R}) (read_unpacked_size mode)
  unfolding read_unpacked_size
  read_unpacked_size-IsInput read_from_header r h =
      >>=-Preserves IsInput (map_err header_too_short (read_u64 e.little)) _
        (read_u64-IsInput e.little) (λ n r h. h) r h
  read_unpacked_size-IsInput (read_header_but_use_provided x) r h =
      >>=-Preserves IsInput (map_err header_too_short (read_u64 e.little)) _
        (read_u64-IsInput e.little) (λ n r h. h) r h
  read_unpacked_size-IsInput (use_provided x) r h = h

  read_header-IsInput : (options : Options) → Preserves (IsInput {R = R}) (read_header options)
  unfolding read_header
  read_header-IsInput options =
      >>=-Preserves IsInput (map_err header_too_short read_u8) _ read_u8-IsInput λ props.
        if-Preserves IsInput (leb 225 props) _ _ (λ r h. h)
          (>>=-Preserves IsInput (map_err header_too_short (read_u32 e.little)) _
            (read_u32-IsInput e.little)
            λ dict.
              >>=-Preserves IsInput (read_unpacked_size options.unpacked_size) _
                (read_unpacked_size-IsInput options.unpacked_size) (λ size r h. h))

fresh-IsPartial :
    (mem_limit probs_mem_limit : ℕ) → IsPartial (fresh mem_limit probs_mem_limit).partial_input_buf
unfolding Cursor.new
fresh-IsPartial mem_limit probs_mem_limit = record {
  sized = refl;
  inside = omega arith;
  bytes = omega arith;
}

module _ (mem_limit probs_mem_limit : ℕ) (p : LzmaParams) where
  -- The decoder of one call: new, reset and given the parameters.
  set_up-Post :
      {S : Type 0} (s : S)
      → mem_limit < 2 ^ 63
      → IsSaid p
      → Post
          (λ t u. HasTaken mem_limit probs_mem_limit p t × (u ≡ s))
          Left
          (put_back
            (λ _ s. s)
            s
            ((State.reset >> State.set_params mem_limit probs_mem_limit p >> (λ d. (ok d, d)))
              (State.new mem_limit probs_mem_limit)))
  set_up-Post s small said =
      put_back-Post (λ t u. HasTaken mem_limit probs_mem_limit p t × (u ≡ s)) Left (λ _ s. s) s
        ((State.reset >> State.set_params mem_limit probs_mem_limit p >> (λ d. (ok d, d)))
          (State.new mem_limit probs_mem_limit))
        (rw (reset-fresh mem_limit probs_mem_limit _ (new-IsShaped mem_limit probs_mem_limit)) (
          next-Post (λ _. HasTaken mem_limit probs_mem_limit p) _ Left
            (State.set_params mem_limit probs_mem_limit p (fresh mem_limit probs_mem_limit)) _
            (Post-mono _ _ _ _
              (State.set_params mem_limit probs_mem_limit p (fresh mem_limit probs_mem_limit))
              (set_params-Post mem_limit probs_mem_limit p small said) (λ _ t h. h) (λ _ _. tt))
            (λ _ t h. (h, refl))))

-- The range decoder beside the sink.
opened-Post :
    {R W : Type 0} ⦃rd : BufRead R⦄ (o : Result IoError (Unit {0}) × RangeDecoder R) (w : W)
    → Post (λ _ (c : RangeDecoder R). IsCoder c) (λ c. IsInput c.stream) o
    → Post
        (λ _ (c : RangeDecoder R × W). IsCoder c.0)
        Left
        (relabel (λ _. lzma_error data_stream_is_too_short) (o.0, (o.1, w)))
opened-Post (ok u, c) w h = h
opened-Post (err x, c) w h = tt
opened-Post (panic, c) w h = h

module _ {R W : Type 0} ⦃rd : BufRead R⦄ ⦃wr : Write W⦄ ⦃e : Endian⦄ (mem_limit probs_mem_limit : ℕ)
    (p : LzmaParams) where
  decode_all-Post :
      (t : DecoderState) (s : RangeDecoder R × W)
      → HasTaken mem_limit probs_mem_limit p t
      → IsCoder s.0
      → Post (λ _ _. Unit {0}) Left (decode_all t s)
  unfolding decode_all process
  decode_all-Post t s h c =
      let start : RangeDecoder R × Session W = (s.0, (t, s.1)) in
      let running : IsRunning mem_limit p.dict_size probs_mem_limit p start = record {
        coder = c;
        well = h.well;
        partial = subst IsPartial (sym h.kept) (fresh-IsPartial mem_limit probs_mem_limit);
      } in
      put_back-Post (λ _ _. Unit {0}) Left (λ u _. (u.0, u.1.1)) s _
        (next-Post _ (λ _ _. Unit {0}) Left (process start) _
          (process_mode-Post mem_limit p.dict_size probs_mem_limit p h.taken finish start running)
          (λ _ u v.
            put_back-Post (λ _ _. Unit {0}) Left
              (λ b v. (v.0, (record v.1.0 { output = b.0 }, b.1))) u
              (relabel io_error (LzBuffer.finish (u.1.0.output, u.1.1)))
              (relabel-Post (λ _ _. Unit {0}) Left io_error (LzBuffer.finish (u.1.0.output, u.1.1))
                (finish-returns mem_limit p.dict_size (u.1.0.output, u.1.1) v.0.well.buffer))))

module _ {R W : Type 0} ⦃rd : BufRead R⦄ ⦃wr : Write W⦄ ⦃e : Endian⦄ where
  -- lzma_decompress_with_options comes to a result or to an error, and does not panic, on every
  -- input of bytes, with every options, every reader and every sink that keep their laws, if the
  -- memory for the dictionary has fewer than 2 ^ 63 bytes, and the loop ends within its fuel.
  pub lzma_decompress_with_options-Post :
      (mem_limit probs_mem_limit : ℕ) (options : Options) (s : R × W)
      → mem_limit < 2 ^ 63
      → IsInput s.0
      → Post
          (λ _ _. Unit {0})
          (λ _. Unit {0})
          (lzma_decompress_with_options mem_limit probs_mem_limit options s)
  unfolding lzma_decompress_with_options
  lzma_decompress_with_options-Post mem_limit probs_mem_limit options s small input =
      next-Post (λ p u. IsValid options p × IsInput u.0) (λ _ _. Unit {0}) Left _ _
        (put_back-Post _ Left (λ r s. (r, s.1)) s (read_header options s.0)
          (Post-mono _ _ _ _ (read_header options s.0)
            (Post-beside _ _ IsInput (read_header options s.0) (read_header-Post options s.0)
              (read_header-IsInput options s.0 input))
            (λ p r q. q) (λ r q. tt)))
        (λ p u q.
          next-Post (λ t v. HasTaken mem_limit probs_mem_limit p t × (v ≡ u)) (λ _ _. Unit {0}) Left
            _ _
            (set_up-Post mem_limit probs_mem_limit p u small (record {
              lc_fits = q.0.lc_fits;
              lp_fits = q.0.lp_fits;
              pb_fits = q.0.pb_fits;
              dict_fits = q.0.dict_fits;
            }))
            (λ t v h.
              put_back-Post (λ _ _. Unit {0}) Left (λ c _. (c.0.stream, c.1)) v _
                (next-Post (λ _ c. IsCoder c.0) (λ _ _. Unit {0}) Left _ _
                  (opened-Post (RangeDecoder.new v.0) v.1
                    (new-IsCoder v.0 (subst (λ (x : R × W). IsInput x.0) (sym h.1) q.1)))
                  (λ _ c k. decode_all-Post mem_limit probs_mem_limit p t c h.0 k))))
