-- ===== src/Lzma/State/Taken.antt =====
-- src/decode/lzma.rs, `set_params` behind `reset`: the decoder is ready for its first step.
use lzma_no_std_rs.Base.{
  ℕ, ◌+◌, ◌^◌, ◌≤◌, ◌<◌, ◌≡◌, refl, inl, inr, some, arith, ltb, ltb→le, Bool-cases, usize, shl,
  Post,
}
use native.Mathlib.Nat.{pow-le-pow_right}
use lzma_no_std_rs.LzBuffer
use lzma_no_std_rs.LzBuffer.{set_dict_size}
use lzma_no_std_rs.LzBuffer.Reset.{new-IsFresh}
use lzma_no_std_rs.Lzma.Params.{LzmaParams}
use lzma_no_std_rs.Lzma.State.{DecoderState, set_params}
use lzma_no_std_rs.Lzma.State.Reset.{fresh}
use lzma_no_std_rs.Lzma.State.Ready.{fresh-HasTables}
use lzma_no_std_rs.Lzma.State.Valid.{IsTaken, IsWell}

-- What a header can say.
pub record IsSaid (p : LzmaParams) : Type 0 where
  pub lc_fits : p.lc ≤ 8
  pub lp_fits : p.lp ≤ 4
  pub pb_fits : p.pb ≤ 4
  pub dict_fits : 0x1000 ≤ p.dict_size

-- `1 << (lc + lp)` does not wrap.
needed-whole : (p : LzmaParams) → IsSaid p → usize (shl 1 (p.lc + p.lp)) ≡ 2 ^ (p.lc + p.lp)
needed-whole p v =
    let few : 2 ^ (p.lc + p.lp) ≤ 2 ^ 12 =
      pow-le-pow_right (omega arith) {i = p.lc + p.lp} {j = 12}
        (omega (arith, v.lc_fits, v.lp_fits)) in
    omega (arith, few)

module _ (mem_limit probs_mem_limit : ℕ) (p : LzmaParams) where
  -- The decoder that took the parameters.
  pub record HasTaken (t : DecoderState) : Type 0 where
    pub well : IsWell mem_limit p.dict_size probs_mem_limit p t
    pub kept : t.partial_input_buf ≡ (fresh mem_limit probs_mem_limit).partial_input_buf
    pub taken : IsTaken probs_mem_limit p

  taken_params :
      mem_limit < 2 ^ 63
      → IsSaid p
      → usize (shl 1 (p.lc + p.lp)) ≤ probs_mem_limit
      → p.dict_size ≤ mem_limit
      → HasTaken (record (fresh mem_limit probs_mem_limit) {
        output = record (LzBuffer.new mem_limit) { dict_size = some p.dict_size };
        params = some p;
      })
  taken_params small v room fits =
      let f = new-IsFresh mem_limit in
      record {
        well = record {
          params = refl;
          buffer = record {
            sized = f.sized;
            small = small;
            dict = refl;
            fits = fits;
            inside = omega (arith, f.cursor, v.dict_fits);
            bytes = f.bytes;
          };
          state = omega arith;
          rep = refl;
          initialized = λ e. cc;
          tables = fresh-HasTables mem_limit probs_mem_limit;
        };
        kept = refl;
        taken = record {
          lc_fits = v.lc_fits;
          lp_fits = v.lp_fits;
          pb_fits = v.pb_fits;
          room = omega (arith, room, needed-whole p v);
        };
      }

  pub set_params-Post :
      mem_limit < 2 ^ 63
      → IsSaid p
      → Post
          (λ _. HasTaken)
          (λ t. t ≡ fresh mem_limit probs_mem_limit)
          (set_params mem_limit probs_mem_limit p (fresh mem_limit probs_mem_limit))
  unfolding set_params set_dict_size
  set_params-Post small v =
      let needed : ℕ = usize (shl 1 (p.lc + p.lp)) in
      elim (Bool-cases (ltb probs_mem_limit needed)) [
        | inl large ↦ rw large refl
        | inr room ↦ elim (Bool-cases (ltb mem_limit p.dict_size)) [
          | inl far ↦ rw (room, far) refl
          | inr fits ↦ rw (room, fits) (taken_params small v (ltb→le _ _ room) (ltb→le _ _ fits))
        ]
      ]
