-- ===== src/LzBuffer/Copy.antt =====
-- `append_lz`, `last_n` and `last_or` of src/decode/lzbuffer.rs against the history of all bytes.
use lzma_no_std_rs.Base.{
  ℕ, zero, suc, ◌+◌, ◌-◌, ◌%◌, ◌^◌, ◌≤◌, ◌<◌, ◌≡◌, refl, sym, inl, inr, true, false, List, [], ◌∷◌,
  ◌++◌, arith, ltb, ◌==◌, if◌then◌else◌, le→ltb, Bool-cases, length, get_or, All, length-append,
  usize, ok, Post, next-Post, Post-mono,
}
use lzma_no_std_rs.Base.{mod-suc_room, mod-suc_full, mod-back, Post-and}
use native.Mathlib.Decide.{ℕ_discrete}
use native.Mathlib.Nat.{mod-lt}
use lzma_no_std_rs.Io.Interface.{Write}
use lzma_no_std_rs.LzBuffer.{
  LzCircularBuffer, append_literal, copy_loop, append_lz, last_n, last_or, offset_of,
}
use lzma_no_std_rs.LzBuffer.Valid.{IsByte, IsReady, IsHalted}
use lzma_no_std_rs.LzBuffer.History.{nth_last, lz_copy}
use lzma_no_std_rs.LzBuffer.Append.{Tracks, append_literal-IsReady, append_literal-Tracks}

pub get_or-IsByte : (xs : List ℕ) (i : ℕ) → All IsByte xs → IsByte (get_or xs i 0)
get_or-IsByte [] i h = omega arith
get_or-IsByte (x ∷ xs) zero h = h.0
get_or-IsByte (x ∷ xs) (suc i) h = get_or-IsByte xs i h.1

-- The index of the source moves on by one place round the ring.
offset_step :
    (m d offset : ℕ)
    → 0 < d
    → d < 2 ^ 63
    → offset ≡ m % d
    → (if usize (offset + 1) == d then 0 else usize (offset + 1)) ≡ (m + 1) % d
offset_step m d offset pos small e =
    let below : m % d < d = mod-lt m pos in
    let whole : usize (m % d + 1) ≡ m % d + 1 = omega arith in
    rw (e, whole)
      (elim (ℕ_discrete (m % d + 1) d) [
        | yes full ↦
            let test : (m % d + 1 == d) ≡ true = ground arith in
            rw test (sym (mod-suc_full m d full))
        | no room ↦
            let test : (m % d + 1 == d) ≡ false = ground arith in
            rw test (sym (mod-suc_room m d pos room))
      ])

module _ {W : Type 0} ⦃wr : Write W⦄ (mem_limit d : ℕ) (before : List ℕ) where
  -- The buffer is ready and follows the history.
  abbrev pub Follows : List ℕ → LzCircularBuffer × W → Type 0
  Follows h s = IsReady mem_limit d s.0 × Tracks d before h s

  abbrev pub Halted : LzCircularBuffer × W → Type 0
  Halted s = IsHalted mem_limit s.0

  -- append_literal of a byte on a buffer that follows the history h ends with one that follows h
  -- with that byte appended, whether or not the dictionary is written out and the cursor goes
  -- round; it does not panic.
  pub append_literal-Follows :
      (lit : ℕ) (h : List ℕ) (s : LzCircularBuffer × W)
      → Follows h s
      → IsByte lit
      → Post (λ _ s'. Follows (h ++ lit ∷ []) s') Halted (append_literal lit s)
  append_literal-Follows lit h s f l =
      Post-mono _ _ _ _ (append_literal lit s)
        (Post-and _ _ _ _ (append_literal lit s)
          (append_literal-IsReady mem_limit d lit s.0 s.1 f.0 l)
          (append_literal-Tracks mem_limit d lit before h s.0 s.1 f.0 f.1))
        (λ a s' q. q) (λ s' x. x.0)

  copy_loop-Follows :
      (distance n offset : ℕ) (h : List ℕ) (s : LzCircularBuffer × W)
      → 1 ≤ distance
      → distance ≤ d
      → distance ≤ length h
      → offset ≡ (length h - distance) % d
      → Follows h s
      → Post (λ _ s'. Follows (lz_copy n distance h) s') Halted (copy_loop d n offset s)
  unfolding copy_loop
  copy_loop-Follows distance zero offset h s one in_dict in_out e f = f
  copy_loop-Follows distance (suc n) offset h s one in_dict in_out e f =
      let x : ℕ = get_or s.0.buf offset 0 in
      let hit : get_or s.0.buf offset 0 ≡ nth_last h distance =
        rw e (f.1.recent (length h - distance) (omega arith) (omega arith)) in
      let len : length (h ++ nth_last h distance ∷ []) ≡ length h + 1 =
        length-append h (nth_last h distance ∷ []) in
      let later : length (h ++ nth_last h distance ∷ []) - distance ≡ length h - distance + 1 =
        omega (arith, len) in
      let onward =
        offset_step (length h - distance) d offset (omega arith)
          (omega (arith, f.0.small, f.0.fits)) e in
      next-Post _ _ Halted (append_literal x s) _
        (append_literal-Follows x h s f (get_or-IsByte s.0.buf offset f.0.bytes))
        (λ a s' f'.
          copy_loop-Follows distance n _ (h ++ nth_last h distance ∷ []) s' one in_dict
            (omega (arith, len)) (rw later onward) (rw hit at f'))

  -- Going back a distance comes to that byte of the history.
  offset_of-back :
      (distance : ℕ) (h : List ℕ) (s : LzCircularBuffer × W)
      → distance ≤ d
      → distance ≤ length h
      → Follows h s
      → offset_of s.0 d distance ≡ (length h - distance) % d
  offset_of-back distance h s in_dict in_out f =
      let c = s.0.cursor in
      let whole : usize (d + s.0.cursor + 2 ^ 64 - distance) ≡ d + s.0.cursor - distance =
        omega (arith, f.0.small, f.0.fits, f.0.inside) in
      rw (whole, f.1.placed)
        (mod-back (length h) d distance (omega (arith, f.0.inside)) in_out in_dict)

  -- For a distance from 1 to the size of the dictionary and the count of the output, append_lz on a
  -- buffer that follows the history h ends with a buffer that follows h with the byte-by-byte copy
  -- of len bytes at that distance appended (overlap included), and does not panic; if the sink
  -- fails, the array keeps its size and the cursor is at most that size.
  pub append_lz-Follows :
      (len distance : ℕ) (h : List ℕ) (s : LzCircularBuffer × W)
      → 1 ≤ distance
      → distance ≤ d
      → distance ≤ usize (length h)
      → Follows h s
      → Post (λ _ s'. Follows (lz_copy len distance h) s') Halted (append_lz len distance s)
  unfolding append_lz
  append_lz-Follows len distance h s one in_dict in_out f =
      let known : ltb d distance ≡ false = ground arith in
      let written : ltb s.0.len distance ≡ false = le→ltb _ _ (omega (arith, f.1.counted)) in
      let some_dict : (d == 0) ≡ false = ground arith in
      rw (f.0.dict, known, written, some_dict)
        (rw (← f.0.dict, offset_of-back distance h s in_dict (omega arith) f)
          (copy_loop-Follows distance len _ h s one in_dict (omega arith) refl f))

  -- For a distance from 1 to the size of the dictionary and the count of the output, last_n reads
  -- the byte at that distance from the end of the history and changes nothing.
  pub last_n-nth_last :
      (distance : ℕ) (h : List ℕ) (s : LzCircularBuffer × W)
      → 1 ≤ distance
      → distance ≤ d
      → distance ≤ usize (length h)
      → Follows h s
      → last_n distance s.0 ≡ (ok (nth_last h distance), s.0)
  unfolding last_n
  last_n-nth_last distance h s one in_dict in_out f =
      let known : ltb d distance ≡ false = ground arith in
      let written : ltb s.0.len distance ≡ false = le→ltb _ _ (omega (arith, f.1.counted)) in
      let some_dict : (d == 0) ≡ false = ground arith in
      let hit : get_or s.0.buf ((length h - distance) % d) 0 ≡ nth_last h distance =
        f.1.recent (length h - distance) (omega arith) (omega arith) in
      rw (f.0.dict, known, written, some_dict)
        (rw (← f.0.dict, offset_of-back distance h s in_dict (omega arith) f, hit) refl)

  -- last_or reads the last byte of the history, or gives the default if the history is empty, as
  -- long as the history is shorter than 2 ^ 64, and changes nothing.
  pub last_or-nth_last :
      (lit : ℕ) (h : List ℕ) (s : LzCircularBuffer × W)
      → length h < 2 ^ 64
      → Follows h s
      → last_or lit s.0 ≡ (ok (if length h == 0 then lit else nth_last h 1), s.0)
  unfolding last_or
  last_or-nth_last lit h s short f =
      let counted : s.0.len ≡ length h = omega (arith, f.1.counted) in
      elim (Bool-cases (length h == 0)) [
        | inl fresh ↦ rw (f.0.dict, counted, fresh) (rw (← f.0.dict, ← counted) refl)
        | inr some_out ↦
            let some_dict : (d == 0) ≡ false = ground (arith, f.0.inside) in
            let some : 1 ≤ length h = ground arith in
            let hit : get_or s.0.buf (offset_of s.0 d 1) 0 ≡ nth_last h 1 =
              rw (offset_of-back 1 h s (omega (arith, f.0.inside)) some f)
                (f.1.recent (length h - 1) (omega arith) (omega (arith, f.0.inside))) in
            rw (f.0.dict, counted, some_out, some_dict) (rw hit)
      ]
