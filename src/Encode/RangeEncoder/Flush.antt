-- ===== src/Encode/RangeEncoder/Flush.antt =====
-- src/encode/rangecoder.rs, the loop of `write_low`: the bytes that leave, with the carry.
use lzma_no_std_rs.Base.{
  ℕ, zero, suc, ◌+◌, ◌-◌, ◌*◌, ◌^◌, ◌≤◌, ◌<◌, ◌≡◌, refl, sym, ap, ◌∙◌, subst, true, false, List, [],
  ◌∷◌, ◌++◌, append_assoc, arith, ◌==◌, if◌then◌else◌, replicate, u8, u32, shr, M, return, of_io,
  Post, next-Post, Post-mono, put_back-Post,
}
use lzma_no_std_rs.Io.Interface.{IoError, Write}
use lzma_no_std_rs.Io.Ext.{write_u8}
use lzma_no_std_rs.Encode.Number.{num, num_from-append, place, num_from-all_ones, num_from-zeros}
use lzma_no_std_rs.Encode.RangeEncoder.{RangeEncoder, on_stream, flush_loop}
use lzma_no_std_rs.Encode.RangeEncoder.Value.{IsPatient}

-- The bytes that leave: the one held back, and those of 255, with the carry.
abbrev pub run : ℕ → ℕ → ℕ → List ℕ
run cache k carry = u8 (cache + carry) ∷ replicate k (u8 (255 + carry))

pub num-run :
    (bs : List ℕ) (cache k carry : ℕ)
    → carry ≤ 1
    → cache + carry < 256
    → num (bs ++ run cache k carry) + 1 ≡ (num bs * 256 + cache + 1) * place k + carry
num-run bs cache k zero few fits =
    let top : u8 (cache + 0) ≡ cache = omega arith in
    ap (λ v. v + 1) (num_from-append 0 bs (run cache k 0))
    ∙ rw top (num_from-all_ones k (num bs * 256 + cache) ∙ grind arith)
num-run bs cache k (suc zero) few fits =
    let top : u8 (cache + 1) ≡ cache + 1 = omega arith in
    ap (λ v. v + 1) (num_from-append 0 bs (run cache k 1))
    ∙ rw top (ap (λ v. v + 1) (num_from-zeros k (num bs * 256 + (cache + 1))) ∙ grind arith)
num-run bs cache k (suc (suc carry)) few fits = absurd (omega (arith, few))

module _ {W : Type 0} ⦃wr : Write W⦄ where
  -- What the loop changes.
  pub record AfterFlush (e u : RangeEncoder W) (bytes : List ℕ) : Type 0 where
    pub written : wr.written u.stream ≡ wr.written e.stream ++ bytes
    pub low : u.low ≡ e.low
    pub range : u.range ≡ e.range
    pub cache : u.cache ≡ e.cache
    pub cachesz : u.cachesz ≡ 0

  pub record AfterByte (e : RangeEncoder W) (b : ℕ) (unit : Unit {0}) (u : RangeEncoder W)
      : Type 0 where
    pub written : wr.written u.stream ≡ wr.written e.stream ++ b ∷ []
    pub low : u.low ≡ e.low
    pub range : u.range ≡ e.range
    pub cache : u.cache ≡ e.cache
    pub cachesz : u.cachesz ≡ e.cachesz

module _ {W : Type 0} ⦃wr : Write W⦄ (patient : IsPatient wr) where
  -- A byte to the sink.
  write_u8-Post :
      (b : ℕ) (w : W)
      → Post (λ _ w'. wr.written w' ≡ wr.written w ++ b ∷ []) (λ _. ⊥) (write_u8 b w)
  unfolding write_u8
  write_u8-Post b w =
      rw (patient (b ∷ []) w, of_io) (wr.write_all_appends (b ∷ []) w (patient (b ∷ []) w))

  byte-Post :
      (e : RangeEncoder W) (b : ℕ) → Post (AfterByte e b) (λ _. ⊥) (on_stream (write_u8 b) e)
  byte-Post e b =
      put_back-Post (AfterByte e b) (λ _. ⊥) (λ w e. record e { stream = w }) e
        (write_u8 b e.stream)
        (Post-mono _ _ _ _ (write_u8 b e.stream) (write_u8-Post b e.stream)
          (λ _ w h. record { written = h; low = refl; range = refl; cache = refl; cachesz = refl })
          (λ _ x. x))

  pub flush_loop-Post :
      (fuel tmp : ℕ) (e : RangeEncoder W)
      → e.cachesz ≡ suc fuel
      → suc fuel < 2 ^ 32
      → Post
          (λ _ u.
            AfterFlush e u
              (u8 (tmp + u8 (shr e.low 32)) ∷ replicate fuel (u8 (255 + u8 (shr e.low 32)))))
          (λ _. ⊥)
          (flush_loop (suc fuel) tmp e)
  unfolding flush_loop
  flush_loop-Post zero tmp e size small =
      let b : ℕ = u8 (tmp + u8 (shr e.low 32)) in
      next-Post (AfterByte e b) _ (λ _. ⊥) (on_stream (write_u8 b) e) _ (byte-Post e b)
        (λ _ u q.
          let none_left : u32 (u.cachesz + 2 ^ 32 - 1) ≡ 0 = omega (arith, q.cachesz, size) in
          rw none_left (record {
            written = q.written;
            low = q.low;
            range = q.range;
            cache = q.cache;
            cachesz = refl;
          }))
  flush_loop-Post (suc fuel) tmp e size small =
      let b : ℕ = u8 (tmp + u8 (shr e.low 32)) in
      let done : Unit {0} → RangeEncoder W → Type 0 =
        λ _ v. AfterFlush e v (b ∷ replicate (suc fuel) (u8 (255 + u8 (shr e.low 32)))) in
      next-Post (AfterByte e b) _ (λ _. ⊥) (on_stream (write_u8 b) e) _ (byte-Post e b)
        (λ _ u q.
          let left : u32 (u.cachesz + 2 ^ 32 - 1) ≡ suc fuel = omega (arith, q.cachesz, size) in
          let t : RangeEncoder W = record u { cachesz = suc fuel } in
          let more : (suc fuel == 0) ≡ false = ground arith in
          rw left (
            subst
              (λ c.
                Post done (λ _. ⊥)
                  ((elim c as (λ _. M IoError (RangeEncoder W) (Unit {0})) [
                    | true ↦ return tt
                    | false ↦ flush_loop (suc fuel) 0xFF
                  ])
                    t))
              (sym more)
              (Post-mono _ _ _ _ (flush_loop (suc fuel) 0xFF t)
                (flush_loop-Post fuel 0xFF t refl (omega (arith, small)))
                (λ _ v r. record {
                  written =
                      r.written
                      ∙ ap
                          (λ l.
                            wr.written u.stream ++ replicate (suc fuel) (u8 (255 + u8 (shr l 32))))
                          q.low
                      ∙ ap (λ bs. bs ++ replicate (suc fuel) (u8 (255 + u8 (shr e.low 32))))
                          q.written
                      ∙ append_assoc (wr.written e.stream) (b ∷ [])
                          (replicate (suc fuel) (u8 (255 + u8 (shr e.low 32))));
                  low = r.low ∙ q.low;
                  range = r.range ∙ q.range;
                  cache = r.cache ∙ q.cache;
                  cachesz = r.cachesz;
                })
                (λ _ x. x))))

  pub flush-Post :
      (k : ℕ) (e : RangeEncoder W)
      → e.cachesz ≡ suc k
      → suc k < 2 ^ 32
      → Post
          (λ _ u.
            AfterFlush e u
              (u8 (e.cache + u8 (shr e.low 32)) ∷ replicate k (u8 (255 + u8 (shr e.low 32)))))
          (λ _. ⊥)
          (flush_loop (if e.cachesz == 0 then 2 ^ 32 else e.cachesz) e.cache e)
  flush-Post k e size small =
      let fuel : (if e.cachesz == 0 then 2 ^ 32 else e.cachesz) ≡ suc k = ground (arith, size) in
      let done : Unit {0} → RangeEncoder W → Type 0 = λ _ u.
        AfterFlush e u
          (u8 (e.cache + u8 (shr e.low 32)) ∷ replicate k (u8 (255 + u8 (shr e.low 32)))) in
      subst (λ n. Post done (λ _. ⊥) (flush_loop n e.cache e)) (sym fuel)
        (flush_loop-Post k e.cache e size small)
