-- ===== src/Lzma/Process/Fill.antt =====
-- src/decode/lzma.rs, `read_partial_input_buf`, and what `process_mode` puts back of the kept bytes.
use lzma_no_std_rs.Base.{
  ℕ, ◌+◌, ◌-◌, ◌≤◌, ◌≡◌, refl, ap, ◌∙◌, inl, inr, false, List, ◌++◌, arith, ltb, ltb→lt, Bool-cases,
  length, take, drop, All, length-append, length-take, length-drop, take-append-drop, All-append,
  All-append_right, All-append_left, of_io, Post, Sum-cases,
}
use lzma_no_std_rs.Io.Interface.{BufRead, Write}
use lzma_no_std_rs.Io.Ext.Bytes.{IsByte}
use lzma_no_std_rs.Io.Cursor.{Cursor}
use lzma_no_std_rs.RangeDecoder.{RangeDecoder, read_into}
use lzma_no_std_rs.Lzma.Params.{LzmaParams}
use lzma_no_std_rs.Lzma.State.Valid.{with_partial}
use lzma_no_std_rs.Lzma.Step.{Session}
use lzma_no_std_rs.Lzma.Process.{read_partial_input_buf}
use lzma_no_std_rs.Lzma.Process.Valid.{IsPartial, IsRunning, measure}

pub All-take : (n : ℕ) (xs : List ℕ) → All IsByte xs → All IsByte (take n xs)
All-take n xs h = All-append_left IsByte (take n xs) (drop n xs) (rw take-append-drop h)

pub All-drop : (n : ℕ) (xs : List ℕ) → All IsByte xs → All IsByte (drop n xs)
All-drop n xs h = All-append_right IsByte (take n xs) (drop n xs) (rw take-append-drop h)

-- New bytes at the position.
filled-IsPartial :
    (c : Cursor) (bs : List ℕ)
    → IsPartial c
    → length bs ≤ length c.inner - c.pos
    → All IsByte bs
    → IsPartial (record {
      inner = take c.pos c.inner ++ bs ++ drop (c.pos + length bs) c.inner;
      pos = c.pos + length bs;
    })
filled-IsPartial c bs h fits bytes = record {
  sized =
      let front : List ℕ = take c.pos c.inner in
      let back : List ℕ = drop (c.pos + length bs) c.inner in
      omega (
        arith,
        h.sized,
        h.inside,
        fits,
        length-append (front ++ bs) back,
        length-append front bs,
        length-take c.pos c.inner,
        length-drop (c.pos + length bs) c.inner,
      );
  inside = omega (arith, h.sized, h.inside, fits);
  bytes =
      All-append IsByte (take c.pos c.inner ++ bs) (drop (c.pos + length bs) c.inner)
        (All-append IsByte (take c.pos c.inner) bs (All-take c.pos c.inner h.bytes) bytes)
        (All-drop (c.pos + length bs) c.inner h.bytes);
}

module _ {R W : Type 0} ⦃rd : BufRead R⦄ ⦃wr : Write W⦄ (mem_limit d probs_mem_limit : ℕ)
    (p : LzmaParams) where
  -- What is read moves from the input to the kept bytes.
  pub record AfterRead (s u : RangeDecoder R × Session W) : Type 0 where
    pub running : IsRunning mem_limit d probs_mem_limit p u
    pub range : u.0.range ≡ s.0.range
    pub measured : measure u ≡ measure s

  moved :
      (s : RangeDecoder R × Session W) (bs : List ℕ) (r : R)
      → IsRunning mem_limit d probs_mem_limit p s
      → (length bs ≤ length s.1.0.partial_input_buf.inner - s.1.0.partial_input_buf.pos)
        × (rd.pending s.0.stream ≡ bs ++ rd.pending r)
      → AfterRead s (
        record s.0 { stream = r },
        (
          record s.1.0 {
            partial_input_buf = record {
              inner =
                  take s.1.0.partial_input_buf.pos s.1.0.partial_input_buf.inner
                  ++ bs
                  ++ drop (s.1.0.partial_input_buf.pos + length bs) s.1.0.partial_input_buf.inner;
              pos = s.1.0.partial_input_buf.pos + length bs;
            };
          },
          s.1.1,
        ),
      )
  moved s bs r v (fits, taken) =
      let all : All IsByte (bs ++ rd.pending r) = rw (← taken) v.coder.input in
      let len = ap length taken ∙ length-append bs (rd.pending r) in
      record {
        running = record {
          coder = record {
            enough = v.coder.enough;
            range_fits = v.coder.range_fits;
            code_fits = v.coder.code_fits;
            input = All-append_right IsByte bs (rd.pending r) all;
          };
          well = with_partial mem_limit d probs_mem_limit p s.1.0 v.well _;
          partial =
              filled-IsPartial s.1.0.partial_input_buf bs v.partial fits
                (All-append_left IsByte bs (rd.pending r) all);
        };
        range = refl;
        measured = omega (arith, len);
      }

  pub read_partial_input_buf-Post :
      (s : RangeDecoder R × Session W)
      → IsRunning mem_limit d probs_mem_limit p s
      → Post (λ _. AfterRead s) (λ _. Unit {0}) (read_partial_input_buf s)
  unfolding read_partial_input_buf read_into
  read_partial_input_buf-Post s v =
      let c : Cursor = s.1.0.partial_input_buf in
      let inside : ltb (length c.inner) c.pos ≡ false =
        elim (Bool-cases (ltb (length c.inner) c.pos)) [
          | inl past ↦ absurd (omega (arith, ltb→lt _ _ past, v.partial.sized, v.partial.inside))
          | inr here ↦ here
        ] in
      rw inside (elim (Sum-cases (rd.read (length c.inner - c.pos) s.0.stream).0) [
        | inl (x, e) ↦ rw (e, of_io) tt
        | inr (bs, e) ↦
            let took = rd.read_takes (length c.inner - c.pos) s.0.stream bs e in
            rw (e, of_io) (moved s bs (rd.read (length c.inner - c.pos) s.0.stream).1 v took)
      ])
