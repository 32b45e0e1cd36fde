-- ===== src/LzBuffer/Append.antt =====
-- A literal that goes through the circular buffer of src/decode/lzbuffer.rs: the buffer keeps its
-- invariant, and follows the history of all bytes.
use lzma_no_std_rs.Base.{
  ℕ, suc, ◌+◌, ◌%◌, ◌≤◌, ◌<◌, ◌≡◌, refl, sym, ap, ◌∙◌, ◌≢◌, inl, inr, List, [], ◌∷◌, ◌++◌,
  append-nil, append_assoc, arith, length, get_or, set, take, length-append, length-set,
  take-suc-set, get_or-set_self, get_or-set_ne, get_or-append_left, All-set, usize, Post, Sum-cases,
}
use lzma_no_std_rs.Base.{mod-suc_room, mod-suc_full, mod-ne}
use native.Mathlib.Decide.{ℕ_discrete}
use native.Mathlib.Nat.{mod-lt}
use lzma_no_std_rs.Io.Interface.{Write}
use lzma_no_std_rs.LzBuffer.{LzCircularBuffer, append_literal}
use lzma_no_std_rs.LzBuffer.Valid.{
  IsByte, IsReady, IsHalted, pushed, rounded, append_literal-room, append_literal-full,
  append_literal-halt,
}

pushed-IsHalted :
    {mem_limit d lit : ℕ} {b : LzCircularBuffer}
    → IsReady mem_limit d b
    → IsByte lit
    → IsHalted mem_limit (pushed b lit)
pushed-IsHalted {mem_limit} {d} {lit} {b} v l = record {
  sized = omega (arith, v.sized, length-set b.buf b.cursor lit);
  inside = omega (arith, v.inside, v.fits, v.small);
  bytes = All-set IsByte b.buf b.cursor lit l v.bytes;
}

last_lit : (h : List ℕ) (lit : ℕ) → get_or (h ++ lit ∷ []) (length h) 0 ≡ lit
last_lit [] lit = refl
last_lit (x ∷ h) lit = last_lit h lit

-- The ring after a literal.
recent_pushed :
    (d lit : ℕ) (h buf : List ℕ)
    → d ≤ length buf
    → 0 < d
    → ((j : ℕ) → j < length h → length h ≤ j + d → get_or buf (j % d) 0 ≡ get_or h j 0)
    → (j : ℕ) → j < length (h ++ lit ∷ [])
    → length (h ++ lit ∷ []) ≤ j + d
    → get_or (set buf (length h % d) lit) (j % d) 0 ≡ get_or (h ++ lit ∷ []) j 0
recent_pushed d lit h buf fits pos old j below near = elim (ℕ_discrete j (length h)) [
  | yes e ↦
      rw (e, get_or-set_self buf (length h % d) lit 0 (omega (arith, mod-lt (length h) pos)))
        (sym (last_lit h lit))
  | no ne ↦
      let len : length (h ++ lit ∷ []) ≡ length h + 1 = length-append h (lit ∷ []) in
      let before : j < length h = omega (arith, len) in
      rw
        (
          get_or-set_ne buf (length h % d) (j % d) lit 0
              (λ e. mod-ne j (length h) d before (omega (arith, len)) (sym e)),
          get_or-append_left h (lit ∷ []) j 0 before,
        )
        (old j before (omega (arith, len)))
]

module _ {W : Type 0} ⦃wr : Write W⦄ where
  -- The sink has got `before` and then the history `h`, but for the bytes below the cursor, and the
  -- ring holds the last `d` bytes of the history.
  pub record Tracks (d : ℕ) (before h : List ℕ) (s : LzCircularBuffer × W) : Type 0 where
    pub shown : wr.written s.1 ++ take s.0.cursor s.0.buf ≡ before ++ h
    pub counted : s.0.len ≡ usize (length h)
    pub placed : s.0.cursor ≡ length h % d
    pub recent : (j : ℕ) → j < length h → length h ≤ j + d → get_or s.0.buf (j % d) 0 ≡ get_or h j 0

  -- A literal keeps the buffer ready for the next one, unless the sink fails.
  pub append_literal-IsReady :
      (mem_limit d lit : ℕ) (b : LzCircularBuffer) (w : W)
      → IsReady mem_limit d b
      → IsByte lit
      → Post
          (λ _ s. IsReady mem_limit d s.0)
          (λ s. IsHalted mem_limit s.0)
          (append_literal lit (b, w))
  append_literal-IsReady mem_limit d lit b w v l = elim (ℕ_discrete (b.cursor + 1) d) [
    | no ne ↦ rw (append_literal-room mem_limit d lit b w v ne) (record {
      sized = omega (arith, v.sized, length-set b.buf b.cursor lit);
      small = v.small;
      dict = v.dict;
      fits = v.fits;
      inside = omega (arith, v.inside, v.fits, v.small);
      bytes = All-set IsByte b.buf b.cursor lit l v.bytes;
    })
    | yes e ↦ elim (Sum-cases (wr.write_all (take d (set b.buf b.cursor lit)) w).0) [
      | inl (x, h) ↦ rw (append_literal-halt mem_limit d lit b w v e x h) (pushed-IsHalted v l)
      | inr (u, h) ↦ rw (append_literal-full mem_limit d lit b w v e h) (record {
        sized = omega (arith, v.sized, length-set b.buf b.cursor lit);
        small = v.small;
        dict = v.dict;
        fits = v.fits;
        inside = omega (arith, v.inside);
        bytes = All-set IsByte b.buf b.cursor lit l v.bytes;
      })
    ]
  ]

  module _ (mem_limit d lit : ℕ) (before h : List ℕ) (b : LzCircularBuffer) (w : W)
      (v : IsReady mem_limit d b) (t : Tracks d before h (b, w)) where
    shown_pushed :
        wr.written w ++ take (suc b.cursor) (set b.buf b.cursor lit) ≡ before ++ (h ++ lit ∷ [])
    shown_pushed = rw (take-suc-set b.buf b.cursor lit (omega (arith, v.sized, v.inside, v.fits))) (
        sym (append_assoc (wr.written w) (take b.cursor b.buf) (lit ∷ []))
        ∙ ap (λ l. l ++ lit ∷ []) t.shown
        ∙ append_assoc before h (lit ∷ []))

    recent_placed :
        (j : ℕ)
        → j < length (h ++ lit ∷ [])
        → length (h ++ lit ∷ []) ≤ j + d
        → get_or (set b.buf b.cursor lit) (j % d) 0 ≡ get_or (h ++ lit ∷ []) j 0
    recent_placed = rw t.placed (
        recent_pushed d lit h b.buf (omega (arith, v.sized, v.fits)) (omega (arith, v.inside))
          t.recent)

    counted_pushed : usize (b.len + 1) ≡ usize (length (h ++ lit ∷ []))
    counted_pushed = omega (arith, t.counted, length-append h (lit ∷ []))

    pushed-Tracks : b.cursor + 1 ≢ d → Tracks d before (h ++ lit ∷ []) (pushed b lit, w)
    pushed-Tracks ne =
        let step : usize (b.cursor + 1) ≡ suc b.cursor = omega (arith, v.inside, v.fits, v.small) in
        record {
          shown = rw step shown_pushed;
          counted = counted_pushed;
          placed = rw (length-append h (lit ∷ [])) (
              step
              ∙ omega (
                arith,
                t.placed,
                mod-suc_room (length h) d (omega (arith, v.inside)) (rw t.placed at ne),
              ));
          recent = recent_placed;
        }

    flushed-Tracks :
        b.cursor + 1 ≡ d
        → (w' : W) → wr.written w' ≡ wr.written w ++ take d (set b.buf b.cursor lit)
        → Tracks d before (h ++ lit ∷ []) (rounded (pushed b lit), w')
    flushed-Tracks e w' out = record {
      shown =
          let at_end : d ≡ suc b.cursor = omega arith in rw (append-nil, out, at_end) shown_pushed;
      counted = counted_pushed;
      placed = rw (length-append h (lit ∷ [])) (sym (mod-suc_full (length h) d (rw t.placed at e)));
      recent = recent_placed;
    }

    -- A literal is added to the history, wherever the sink has got to.
    pub append_literal-Tracks :
        Post (λ _ s. Tracks d before (h ++ lit ∷ []) s) (λ _. Unit {0}) (append_literal lit (b, w))
    append_literal-Tracks = elim (ℕ_discrete (b.cursor + 1) d) [
      | no ne ↦ rw (append_literal-room mem_limit d lit b w v ne) (pushed-Tracks ne)
      | yes e ↦ elim (Sum-cases (wr.write_all (take d (set b.buf b.cursor lit)) w).0) [
        | inl (x, f) ↦ rw (append_literal-halt mem_limit d lit b w v e x f) tt
        | inr (u, f) ↦
            rw (append_literal-full mem_limit d lit b w v e f)
              (flushed-Tracks e _ (wr.write_all_appends _ w f))
      ]
    ]
