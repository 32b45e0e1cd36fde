-- ===== src/Lzma/Process/Rounds.antt =====
-- src/decode/lzma.rs, `process_mode`: a round of its loop does not panic, and lowers the measure.
use lzma_no_std_rs.Base.{
  ℕ, ◌+◌, ◌-◌, ◌≤◌, ◌<◌, ◌≡◌, sym, ap, ◌∙◌, subst, inl, inr, Bool, true, false, Option, none, some,
  List, ◌++◌, arith, ltb, if◌then◌else◌, ltb→lt, Bool-cases, length, take, drop, All, length-append,
  length-take, length-drop, All-append, All-append_left, Result, M, next, return, relabel, map_err,
  of_io, Post, next-Post, Post-mono, put_back-Post, relabel-Post, Sum-cases,
}
use lzma_no_std_rs.Base.{Post-beside}
use lzma_no_std_rs.Io.Interface.{IoError, BufRead, Write}
use lzma_no_std_rs.Io.Ext.Bytes.{IsByte}
use lzma_no_std_rs.Io.Cursor.{Cursor}
use lzma_no_std_rs.Io.Cursor.Reader.{cursor_reader}
use lzma_no_std_rs.Error.{Error, io_error}
use lzma_no_std_rs.RangeDecoder.{RangeDecoder, set_parts, is_eof, is_finished_ok}
use lzma_no_std_rs.RangeDecoder.Safe.{weight, Ready}
use lzma_no_std_rs.RangeDecoder.End.{is_eof-Ready, is_finished_ok-Ready}
use lzma_no_std_rs.Lzma.Params.{LzmaParams}
use lzma_no_std_rs.Lzma.State.{
  ProcessingMode, partial, finish, max_required_input, ProcessingStatus, uninitialized, continue,
  finished,
}
use lzma_no_std_rs.Lzma.State.Valid.{IsTaken, with_partial}
use lzma_no_std_rs.Lzma.Literal.{on_coder}
use lzma_no_std_rs.Lzma.Step.{Session, process_next, process_next_inner}
use lzma_no_std_rs.Lzma.Step.Progress.{process_next_inner-Post}
use lzma_no_std_rs.Lzma.Step.Partial.{process_next_inner-Leaves}
use lzma_no_std_rs.Lzma.Process.{
  Round, again, break, return_ok, after_step, at_end, is_done, keep_rest, kept_round, input_round,
  round, is_starved, on_slice, position, read_partial_input_buf,
}
use lzma_no_std_rs.Lzma.Process.Valid.{IsPartial, IsRunning, measure}
use lzma_no_std_rs.Lzma.Process.Slice.{AfterSlice, on_slice-Post, is_starved-Post}
use lzma_no_std_rs.Lzma.Process.Fill.{All-take, All-drop, AfterRead, read_partial_input_buf-Post}

-- What a step left of the kept bytes, in front of the buffer.
rest-IsPartial :
    (tmp inner : List ℕ) (end used : ℕ)
    → (length tmp ≡ max_required_input) × All IsByte tmp
    → (length inner ≡ max_required_input) × All IsByte inner
    → end ≤ max_required_input
    → used ≤ end
    → IsPartial (record {
      inner = take (end - used) (drop used tmp) ++ drop (end - used) inner;
      pos = end - used;
    })
rest-IsPartial tmp inner end used t i fits order = record {
  sized =
      let front : List ℕ = take (end - used) (drop used tmp) in
      let back : List ℕ = drop (end - used) inner in
      omega (
        arith,
        t.0,
        i.0,
        fits,
        order,
        length-append front back,
        length-take (end - used) (drop used tmp),
        length-drop used tmp,
        length-drop (end - used) inner,
      );
  inside = omega (arith, fits);
  bytes =
      All-append IsByte (take (end - used) (drop used tmp)) (drop (end - used) inner)
        (All-take (end - used) (drop used tmp) (All-drop used tmp t.1))
        (All-drop (end - used) inner i.1);
}

return_ok-again : return_ok ≡ again → ⊥
return_ok-again h = cc

break-again : break ≡ again → ⊥
break-again h = cc

break-return_ok : break ≡ return_ok → ⊥
break-return_ok h = cc

after_step-goes : (status : ProcessingStatus) → after_step status ≡ return_ok → ⊥
after_step-goes uninitialized h = cc
after_step-goes continue h = cc
after_step-goes finished h = cc

module _ {R W : Type 0} ⦃rd : BufRead R⦄ ⦃wr : Write W⦄ (mem_limit d probs_mem_limit : ℕ)
    (p : LzmaParams) (taken : IsTaken probs_mem_limit p) where
  abbrev Runs : RangeDecoder R × Session W → Type 0
  Runs s = IsRunning mem_limit d probs_mem_limit p s

  -- The end of the input was asked for, and nothing that counts has changed.
  abbrev Asked : RangeDecoder R × Session W → RangeDecoder R × Session W → Type 0
  Asked s u = Runs u × (measure u ≤ measure s)

  asks-Post :
      (m : M IoError (RangeDecoder R) Bool) (s : RangeDecoder R × Session W)
      → ((w : ℕ) (c : RangeDecoder R) → Ready w c → Post (λ _. Ready w) (Ready w) (m c))
      → Runs s
      → Post (λ _. Asked s) (λ _. Unit {0}) (on_coder (map_err io_error m) s)
  asks-Post m s h v =
      put_back-Post (λ _. Asked s) (λ _. Unit {0}) (λ c s'. (c, s'.1)) s (relabel io_error (m s.0))
        (relabel-Post _ _ io_error (m s.0) (
          Post-mono _ _ _ _ (m s.0) (h (1 + weight s.0) s.0 (v.coder, omega arith))
            (λ b c r.
              (record { coder = r.0; well = v.well; partial = v.partial }, omega (arith, r.1)))
            (λ c r. tt)))

  at_end-Post :
      (mode : ProcessingMode) (s : RangeDecoder R × Session W)
      → Runs s
      → Post (λ _. Asked s) (λ _. Unit {0}) (at_end mode s)
  unfolding at_end
  at_end-Post partial s v =
      next-Post (λ _. Asked s) (λ _. Asked s) (λ _. Unit {0}) (on_coder (map_err io_error is_eof) s)
        _ (asks-Post is_eof s is_eof-Ready v) (λ eof u q. q)
  at_end-Post finish s v =
      next-Post (λ _. Asked s) (λ _. Asked s) (λ _. Unit {0})
        (on_coder (map_err io_error is_finished_ok) s) _
        (asks-Post is_finished_ok s is_finished_ok-Ready v) (λ done u q. q)

  is_done-Post :
      (mode : ProcessingMode) (size : Option ℕ) (s : RangeDecoder R × Session W)
      → Runs s
      → Post (λ _. Asked s) (λ _. Unit {0}) (is_done mode size s)
  unfolding is_done
  is_done-Post mode none s v = at_end-Post mode s v
  is_done-Post mode (some n) s v = (v, omega arith)

  -- After a round: a further one has less before it, and only streaming mode returns early.
  abbrev pub AfterRound :
      ProcessingMode → RangeDecoder R × Session W → Round → RangeDecoder R × Session W → Type 0
  AfterRound mode s r u =
      Runs u × (r ≡ again → measure u < measure s) × (r ≡ return_ok → mode ≡ partial)

  -- The rest of the kept bytes is put back.
  keep_rest-Post :
      (mode : ProcessingMode) (s u : RangeDecoder R × Session W) (t : RangeDecoder Cursor)
      (v : RangeDecoder R × Session W) (status : ProcessingStatus)
      → AfterRead mem_limit d probs_mem_limit p s u
      → AfterSlice mem_limit d probs_mem_limit p taken
          (take (position u.1.0) u.1.0.partial_input_buf.inner)
          u
          t
          v
      → Post
          (AfterRound mode s)
          (λ _. Unit {0})
          (next
            (keep_rest u.1.0.partial_input_buf.inner
              (position u.1.0)
              t.stream.pos
              (set_parts t.range t.code v.0, v.1))
            (λ _. return (after_step status)))
  unfolding keep_rest set_parts
  keep_rest-Post mode s u t v status r q =
      let tmp : List ℕ = u.1.0.partial_input_buf.inner in
      let end : ℕ = position u.1.0 in
      let used : ℕ = t.stream.pos in
      let part = r.running.partial in
      let whole : length (take end tmp) ≡ end =
        omega (arith, length-take end tmp, part.sized, part.inside) in
      let order : used ≤ end = omega (arith, q.within, whole) in
      let inside : ltb end used ≡ false = elim (Bool-cases (ltb end used)) [
        | inl past ↦ absurd (omega (arith, ltb→lt _ _ past, order))
        | inr here ↦ here
      ] in
      let inner : List ℕ = v.1.0.partial_input_buf.inner in
      let same : inner ≡ tmp = ap (λ c. c.inner) q.kept in
      let input = r.running.coder.input in
      let left : length (rd.pending v.0.stream) ≡ length (rd.pending u.0.stream) =
        ap (λ (c : RangeDecoder R). length (rd.pending c.stream)) q.same in
      rw inside (
        record {
          coder = record {
            enough = q.coder.enough;
            range_fits = q.coder.range_fits;
            code_fits = q.coder.code_fits;
            input =
                subst (λ (c : RangeDecoder R). All IsByte (rd.pending c.stream)) (sym q.same) input;
          };
          well = with_partial mem_limit d probs_mem_limit p v.1.0 q.well _;
          partial =
              rest-IsPartial tmp inner end used (part.sized, part.bytes)
                (ap length same ∙ part.sized, subst (All IsByte) (sym same) part.bytes) part.inside
                order;
        },
        λ _. omega (arith, q.less, whole, left, r.measured, order),
        λ h. absurd (after_step-goes status h),
      )

  kept_step-Post :
      (mode : ProcessingMode) (s u : RangeDecoder R × Session W)
      → AfterRead mem_limit d probs_mem_limit p s u
      → Post
          (AfterRound mode s)
          (λ _. Unit {0})
          (next
            (on_slice (take (position u.1.0) u.1.0.partial_input_buf.inner) process_next u)
            (λ done v.
              next
                (keep_rest u.1.0.partial_input_buf.inner
                  (position u.1.0)
                  done.1.stream.pos
                  (set_parts done.1.range done.1.code v.0, v.1))
                (λ _. return (after_step done.0))))
  unfolding process_next
  kept_step-Post mode s u r =
      let buf : List ℕ = take (position u.1.0) u.1.0.partial_input_buf.inner in
      next-Post _ (AfterRound mode s) (λ _. Unit {0}) (on_slice buf (process_next_inner true) u) _
        (on_slice-Post mem_limit d probs_mem_limit p taken true buf u r.running
          (All-take (position u.1.0) u.1.0.partial_input_buf.inner r.running.partial.bytes))
        (λ done v q. keep_rest-Post mode s u done.1 v done.0 r q)

  kept_round-Post :
      (mode : ProcessingMode) (s : RangeDecoder R × Session W)
      → Runs s
      → Post (AfterRound mode s) (λ _. Unit {0}) (kept_round mode s)
  unfolding kept_round
  kept_round-Post mode s v =
      next-Post (λ _. AfterRead mem_limit d probs_mem_limit p s) (AfterRound mode s) (λ _. Unit {0})
        _ _ (read_partial_input_buf-Post mem_limit d probs_mem_limit p s v)
        (λ _ u r.
          let tmp : List ℕ = u.1.0.partial_input_buf.inner in
          let end : ℕ = position u.1.0 in
          let short : Bool = ltb end max_required_input in
          next-Post (λ b t. (t ≡ u) × (b ≡ true → mode ≡ partial)) (AfterRound mode s)
            (λ _. Unit {0}) (is_starved mode short (take end tmp) u) _
            (is_starved-Post mem_limit d probs_mem_limit p taken mode short (take end tmp) u
              r.running (All-take end tmp r.running.partial.bytes))
            (λ starved t e. elim (Bool-cases starved) [
              | inl yes_starved ↦ rw yes_starved (
                subst Runs (sym e.0) r.running,
                λ h. absurd (return_ok-again h),
                λ h. e.1 yes_starved,
              )
              | inr fed ↦ rw fed (
                  subst
                    (λ t.
                      Post (AfterRound mode s) (λ _. Unit {0})
                        (next (on_slice (take end tmp) process_next t) (λ done v.
                          next
                            (keep_rest tmp end done.1.stream.pos
                              (set_parts done.1.range done.1.code v.0, v.1))
                            (λ _. return (after_step done.0)))))
                    (sym e.0) (kept_step-Post mode s u r))
            ]))

  -- A step on the input itself.
  direct_step-Post :
      (mode : ProcessingMode) (s : RangeDecoder R × Session W)
      → Runs s
      → Post
          (AfterRound mode s)
          (λ _. Unit {0})
          (next (process_next s) (λ status. return (after_step status)))
  unfolding process_next
  direct_step-Post mode s v =
      next-Post _ (AfterRound mode s) (λ _. Unit {0}) (process_next_inner true s) _
        (Post-mono _ _ _ _ (process_next_inner true s)
          (Post-beside _ _ (λ u. u.1.0.partial_input_buf ≡ s.1.0.partial_input_buf)
            (process_next_inner true s)
            (process_next_inner-Post mem_limit d probs_mem_limit p taken true s v.coder v.well)
            (process_next_inner-Leaves true s))
          (λ status u q. q) (λ u q. tt))
        (λ status u q. (
          record { coder = q.0.0; well = q.0.2; partial = subst IsPartial (sym q.1) v.partial },
          λ _. omega (arith, q.0.1, ap (λ (c : Cursor). c.pos) q.1),
          λ h. absurd (after_step-goes status h),
        ))

  input_step-Post :
      (mode : ProcessingMode) (buf : List ℕ) (s : RangeDecoder R × Session W)
      → Runs s
      → All IsByte buf
      → Post
          (AfterRound mode s)
          (λ _. Unit {0})
          (next (is_starved mode (ltb (length buf) max_required_input) buf s) (λ starved.
            if starved
            then (λ t. next (read_partial_input_buf t) (λ _. return return_ok))
            else (λ t. next (process_next t) (λ status. return (after_step status)))))
  input_step-Post mode buf s v bytes =
      next-Post (λ b t. (t ≡ s) × (b ≡ true → mode ≡ partial)) (AfterRound mode s) (λ _. Unit {0})
        (is_starved mode (ltb (length buf) max_required_input) buf s) _
        (is_starved-Post mem_limit d probs_mem_limit p taken mode
          (ltb (length buf) max_required_input) buf s v bytes)
        (λ starved t e. elim (Bool-cases starved) [
          | inl hungry ↦ rw hungry (
              subst
                (λ t.
                  Post (AfterRound mode s) (λ _. Unit {0})
                    (next (read_partial_input_buf t) (λ _. return return_ok)))
                (sym e.0)
                (next-Post (λ _. AfterRead mem_limit d probs_mem_limit p s) (AfterRound mode s)
                  (λ _. Unit {0}) (read_partial_input_buf s) _
                  (read_partial_input_buf-Post mem_limit d probs_mem_limit p s v)
                  (λ _ u r. (r.running, λ h. absurd (return_ok-again h), λ h. e.1 hungry))))
          | inr fed ↦ rw fed (
              subst
                (λ t.
                  Post (AfterRound mode s) (λ _. Unit {0})
                    (next (process_next t) (λ status. return (after_step status))))
                (sym e.0) (direct_step-Post mode s v))
        ])

  input_round-Post :
      (mode : ProcessingMode) (s : RangeDecoder R × Session W)
      → Runs s
      → Post (AfterRound mode s) (λ _. Unit {0}) (input_round mode s)
  unfolding input_round
  input_round-Post mode s v = elim (Sum-cases (rd.fill_buf s.0.stream).0) [
    | inl (x, e) ↦ rw (e, of_io) tt
    | inr (buf, e) ↦
        let r : R = (rd.fill_buf s.0.stream).1 in
        let t : RangeDecoder R × Session W = (record s.0 { stream = r }, s.1) in
        let same : rd.pending r ≡ rd.pending s.0.stream = rd.fill_buf_pending s.0.stream in
        let front = rd.fill_buf_prefix s.0.stream buf e in
        let w : Runs t = record {
          coder = record {
            enough = v.coder.enough;
            range_fits = v.coder.range_fits;
            code_fits = v.coder.code_fits;
            input = subst (All IsByte) (sym same) v.coder.input;
          };
          well = v.well;
          partial = v.partial;
        } in
        rw (e, of_io)
          (Post-mono (AfterRound mode t) _ (λ _. Unit {0}) _ _
            (input_step-Post mode buf t w
              (All-append_left IsByte buf front.0 (subst (All IsByte) front.1 v.coder.input)))
            (λ r u q. (q.0, λ h. omega (arith, q.1 h, ap (λ (xs : List ℕ). length xs) same), q.2))
            (λ u q. tt))
  ]

  pub round-Post :
      (mode : ProcessingMode) (size : Option ℕ) (s : RangeDecoder R × Session W)
      → Runs s
      → Post (AfterRound mode s) (λ _. Unit {0}) (round mode size s)
  unfolding round
  round-Post mode size s v =
      next-Post (λ _. Asked s) (AfterRound mode s) (λ _. Unit {0}) (is_done mode size s) _
        (is_done-Post mode size s v)
        (λ done u q. elim (Bool-cases done) [
          | inl over ↦ rw over (q.0, λ h. absurd (break-again h), λ h. absurd (break-return_ok h))
          | inr more ↦ rw more (elim (Bool-cases (ltb 0 (position u.1.0))) [
            | inl kept ↦ rw kept (later s u q.1 (kept_round mode u) (kept_round-Post mode u q.0))
            | inr fresh ↦
                rw fresh (later s u q.1 (input_round mode u) (input_round-Post mode u q.0))
          ])
        ])
    where
      later :
          (s u : RangeDecoder R × Session W)
          → measure u ≤ measure s
          → (o : Result Error Round × (RangeDecoder R × Session W))
          → Post (AfterRound mode u) (λ _. Unit {0}) o
          → Post (AfterRound mode s) (λ _. Unit {0}) o
      later s u le o h =
          Post-mono (AfterRound mode u) _ (λ _. Unit {0}) _ o h
            (λ r t q. (q.0, λ e. omega (arith, q.1 e, le), q.2)) (λ t q. tt)
