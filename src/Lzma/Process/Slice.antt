-- ===== src/Lzma/Process/Slice.antt =====
-- src/decode/lzma.rs, `try_process_next` and `process_mode`: a step on a slice of kept bytes.
use lzma_no_std_rs.Base.{
  ℕ, ◌+◌, ◌-◌, ◌*◌, ◌^◌, ◌≤◌, ◌<◌, min, ◌≡◌, refl, sym, ap, subst, inl, inr, Bool, true, false,
  List, arith, ltb, if◌then◌else◌, ltb→le, Bool-cases, length, drop, All, length-drop, Result, ok,
  err, panic, return, Post, next-Post, Post-mono,
}
use lzma_no_std_rs.Base.{Post-beside}
use lzma_no_std_rs.Io.Interface.{BufRead, Write}
use lzma_no_std_rs.Io.Ext.Bytes.{IsByte}
use lzma_no_std_rs.Io.Cursor as Cursors
use lzma_no_std_rs.Io.Cursor.{Cursor, rest}
use lzma_no_std_rs.Io.Cursor.Reader.{cursor_reader}
use lzma_no_std_rs.Error.{Error}
use lzma_no_std_rs.RangeDecoder.{RangeDecoder, from_parts}
use lzma_no_std_rs.RangeDecoder.Safe.{IsCoder}
use lzma_no_std_rs.RangeDecoder.Reader.{IsKept}
use lzma_no_std_rs.Lzma.Params.{LzmaParams}
use lzma_no_std_rs.Lzma.State.{ProcessingMode, partial, finish}
use lzma_no_std_rs.Lzma.State.Valid.{IsTaken, IsWell}
use lzma_no_std_rs.Lzma.Step.{Session, process_next_inner}
use lzma_no_std_rs.Lzma.Step.Progress.{process_next_inner-Post}
use lzma_no_std_rs.Lzma.Step.Reader.{process_next_inner-Retains}
use lzma_no_std_rs.Lzma.Step.Partial.{process_next_inner-Leaves}
use lzma_no_std_rs.Lzma.Process.{on_slice, hand_back, is_err_of, try_process_next, is_starved}
use lzma_no_std_rs.Lzma.Process.Probe.{is_starved-Keeps}
use lzma_no_std_rs.Lzma.Process.Valid.{IsRunning}

hand_back-Post :
    {C T S A : Type 0} (Q : A × T → C × S → Type 0) (c : C) (o : Result Error A × (T × S))
    → Post (λ a ts. Q (a, ts.0) (c, ts.1)) (λ _. Unit {0}) o
    → Post Q (λ _. Unit {0}) (hand_back c o)
hand_back-Post Q c (ok a, (t, s)) h = h
hand_back-Post Q c (err e, (t, s)) h = tt
hand_back-Post Q c (panic, (t, s)) h = h

is_err_of-Post :
    {E S A : Type 0} (o : Result E A × S)
    → Post (λ _ _. Unit {0}) (λ _. Unit {0}) o
    → Post (λ _ _. Unit {0}) (λ _. Unit {0}) (is_err_of o)
is_err_of-Post (ok a, s) h = tt
is_err_of-Post (err e, s) h = tt
is_err_of-Post (panic, s) h = h

-- A cursor on `buf` that has not gone past its end.
abbrev pub IsWithin : List ℕ → Cursor → Type 0
IsWithin buf c = (c.inner ≡ buf) × (c.pos ≤ length buf)

IsWithin-kept : (buf : List ℕ) → IsKept (IsWithin buf)
unfolding Cursors.read_exact Cursors.fill_buf
IsWithin-kept buf = record {
  by_read = λ n c h. elim (Bool-cases (ltb (length (rest c)) n)) [
    | inl short ↦ rw short h
    | inr enough ↦
        let room : n ≤ length (rest c) = ltb→le _ _ enough in
        let left : length (rest c) ≡ length c.inner - min c.pos (length c.inner) =
          length-drop (min c.pos (length c.inner)) c.inner in
        let size : length c.inner ≡ length buf = ap length h.0 in
        rw enough (h.0, omega (arith, room, left, size, h.1))
  ];
  by_fill = λ c h. h;
}

rest-new : (buf : List ℕ) → rest (Cursors.new buf) ≡ buf
unfolding Cursors.new
rest-new buf = let e : min 0 (length buf) ≡ 0 = omega arith in ap (λ k. drop k buf) e

-- What is left of a cursor within its buffer.
length-rest : (buf : List ℕ) (c : Cursor) → IsWithin buf c → length (rest c) + c.pos ≡ length buf
length-rest buf c h =
    let left : length (rest c) ≡ length c.inner - min c.pos (length c.inner) =
      length-drop (min c.pos (length c.inner)) c.inner in
    let size : length c.inner ≡ length buf = ap length h.0 in omega (arith, left, size, h.1)

module _ {R W : Type 0} ⦃rd : BufRead R⦄ ⦃wr : Write W⦄ (mem_limit d probs_mem_limit : ℕ)
    (p : LzmaParams) (taken : IsTaken probs_mem_limit p) where
  -- After a step on a slice: the reader is as it was, and the slice used up to a place inside it.
  pub record AfterSlice (buf : List ℕ) (s : RangeDecoder R × Session W) (t : RangeDecoder Cursor)
      (u : RangeDecoder R × Session W) : Type 0 where
    pub same : u.0 ≡ s.0
    pub coder : IsCoder t
    pub well : IsWell mem_limit d probs_mem_limit p u.1.0
    pub kept : u.1.0.partial_input_buf ≡ s.1.0.partial_input_buf
    pub within : t.stream.pos ≤ length buf
    pub less : (length buf - t.stream.pos) * 2 ^ 32 + t.range < length buf * 2 ^ 32 + s.0.range

  pub on_slice-Post :
      (update : Bool) (buf : List ℕ) (s : RangeDecoder R × Session W)
      → IsRunning mem_limit d probs_mem_limit p s
      → All IsByte buf
      → Post
          (λ a u. AfterSlice buf s a.1 u)
          (λ _. Unit {0})
          (on_slice buf (process_next_inner update) s)
  unfolding from_parts Cursors.new
  on_slice-Post update buf s v bytes =
      let c : Cursor = Cursors.new buf in
      let start : RangeDecoder Cursor × Session W = (from_parts c s.0.range s.0.code, s.1) in
      let whole : IsWithin buf c = (refl, omega arith) in
      let coder : IsCoder start.0 = record {
        enough = v.coder.enough;
        range_fits = v.coder.range_fits;
        code_fits = v.coder.code_fits;
        input = subst (All IsByte) (sym (rest-new buf)) bytes;
      } in
      hand_back-Post (λ a u. AfterSlice buf s a.1 u) s.0 (process_next_inner update start)
        (Post-mono _ _ _ _ (process_next_inner update start)
          (Post-beside _ _
            (λ u. IsWithin buf u.0.stream × (u.1.0.partial_input_buf ≡ s.1.0.partial_input_buf))
            (process_next_inner update start)
            (process_next_inner-Post mem_limit d probs_mem_limit p taken update start coder v.well)
            (
              process_next_inner-Retains (IsWithin buf) (IsWithin-kept buf) update start whole,
              process_next_inner-Leaves update start,
            ))
          (λ a u q.
            let left = length-rest buf u.0.stream q.1.0 in
            record {
              same = refl;
              coder = q.0.0;
              well = q.0.2;
              kept = q.1.1;
              within = q.1.0.1;
              less = omega (arith, q.0.1, left, ap length (rest-new buf));
            })
          (λ u q. tt))

  try_process_next-Post :
      (buf : List ℕ) (s : RangeDecoder R × Session W)
      → IsRunning mem_limit d probs_mem_limit p s
      → All IsByte buf
      → Post (λ _ _. Unit {0}) (λ _. Unit {0}) (try_process_next buf s)
  unfolding try_process_next
  try_process_next-Post buf s v bytes =
      next-Post _ (λ _ _. Unit {0}) (λ _. Unit {0}) (on_slice buf (process_next_inner false) s) _
        (on_slice-Post false buf s v bytes) (λ a u q. tt)

  -- The look ahead does not panic, and leaves everything as it was; only streaming mode starves.
  pub is_starved-Post :
      (mode : ProcessingMode) (short : Bool) (buf : List ℕ) (s : RangeDecoder R × Session W)
      → IsRunning mem_limit d probs_mem_limit p s
      → All IsByte buf
      → Post
          (λ b u. (u ≡ s) × (b ≡ true → mode ≡ partial))
          (λ _. Unit {0})
          (is_starved mode short buf s)
  unfolding is_starved
  is_starved-Post finish short buf s v bytes = (refl, λ h. cc)
  is_starved-Post partial short buf s v bytes =
      Post-mono _ _ _ _ (is_starved partial short buf s)
        (Post-beside (λ _ _. Unit {0}) (λ _. Unit {0}) (λ u. u ≡ s) (is_starved partial short buf s)
          (answer short) (is_starved-Keeps partial short buf s))
        (λ a u q. (q.1, λ h. refl)) (λ u q. tt)
    where
      answer :
          (b : Bool)
          → Post
              (λ _ _. Unit {0})
              (λ _. Unit {0})
              ((if b then (λ t. is_err_of (try_process_next buf t)) else return false) s)
      answer true = is_err_of-Post (try_process_next buf s) (try_process_next-Post buf s v bytes)
      answer false = tt
