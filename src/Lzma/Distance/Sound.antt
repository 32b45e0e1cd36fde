-- ===== src/Lzma/Distance/Sound.antt =====
-- src/decode/lzma.rs, `decode_distance`: no table is read out of bounds, and a distance fits 32 bits.
use lzma_no_std_rs.Base.{
  ℕ, suc, ◌+◌, ◌-◌, ◌*◌, ◌^◌, ◌≤◌, ◌<◌, ◌≡◌, refl, inl, inr, Bool, arith, ltb, if◌then◌else◌,
  ltb→lt, ltb→le, Bool-cases, length, usize, shl, M, map_err, Post, Post-mono, put_back-Post,
}
use lzma_no_std_rs.Base.{at_elem}
use native.Mathlib.Nat.{pow-suc}
use lzma_no_std_rs.Io.Interface.{BufRead}
use lzma_no_std_rs.Error.{Error, io_error}
use lzma_no_std_rs.RangeDecoder.{RangeDecoder, parse_reverse_bit_tree, get}
use lzma_no_std_rs.RangeDecoder.BitTree
use lzma_no_std_rs.RangeDecoder.BitTree.Sound.{IsTree, parse-Sound, parse_reverse-Sound}
use lzma_no_std_rs.RangeDecoder.Trees.{IsTable}
use lzma_no_std_rs.RangeDecoder.Safe.{Ready, HasInput}
use lzma_no_std_rs.RangeDecoder.Reverse.{parse_reverse_bit_tree-Sound, get-Post}
use lzma_no_std_rs.RangeDecoder.Sound.{
  Sound, >>=-Sound, return-Sound, map_err-Sound, on_field-Sound, at_elem-Sound,
}
use lzma_no_std_rs.Lzma.Params.{LzmaParams}
use lzma_no_std_rs.Lzma.State.{DecoderState}
use lzma_no_std_rs.Lzma.State.Valid.{IsWell, AreSlots, with_tables}
use lzma_no_std_rs.Lzma.Literal.{on_coder}
use lzma_no_std_rs.Lzma.Distance.{
  direct_bits, slot_base, read_pos_slot, read_pos_bits, read_align, decode_distance,
}
use lzma_no_std_rs.Lzma.Distance.Slots.{IsNear, IsFar, slots-IsNear, slots-IsFar}

slot_of : (len : ℕ) → (if ltb 3 len then 3 else len) < 4
slot_of len = ground arith

sixteen_times : (n k : ℕ) → n ≡ suc (suc (suc (suc k))) → 2 ^ n ≡ 2 ^ k * 16
sixteen_times n k e = rw e (
    omega (
      arith,
      pow-suc 2 k,
      pow-suc 2 (suc k),
      pow-suc 2 (suc (suc k)),
      pow-suc 2 (suc (suc (suc k))),
    ))

-- The low bits of a far slot: those at even odds, and the four of the align tree.
far_sum :
    (slot high low : ℕ)
    → IsFar slot
    → high < 2 ^ usize (direct_bits slot + 2 ^ 64 - 4)
    → low < 16
    → usize (usize (slot_base slot + usize (shl high 4)) + low) < 2 ^ 32
far_sum slot high low v few small =
    let k : ℕ = usize (direct_bits slot + 2 ^ 64 - 4) in
    let four_more : direct_bits slot ≡ suc (suc (suc (suc k))) =
      omega (arith, v.bits_enough, v.bits_few) in
    omega (arith, sixteen_times (direct_bits slot) k four_more, few, small, v.top)

module _ {R : Type 0} ⦃rd : BufRead R⦄ (w mem_limit d probs_mem_limit : ℕ) (p : LzmaParams) where
  on_coder-Sound :
      {E A T : Type 0} (P : T → Type 0) (Q : A → Type 0) (m : M E (RangeDecoder R) A)
      → ((c : RangeDecoder R) → Ready w c → Post (λ a c'. Ready w c' × Q a) HasInput (m c))
      → Sound w P Q (on_coder m)
  on_coder-Sound P Q m h s r v =
      put_back-Post (λ a u. Ready w u.0 × P u.1 × Q a) (λ u. HasInput u.0 × P u.1) (λ c s. (c, s.1))
        s (m s.0)
        (Post-mono (λ a c'. Ready w c' × Q a) _ HasInput _ (m s.0) (h s.0 r)
          (λ a c q. (q.0, v, q.1)) (λ c q. (q, v)))

  read_pos_slot-Sound :
      (len_state : ℕ) (update : Bool)
      → len_state < 4
      → Sound w
          (IsWell mem_limit d probs_mem_limit p)
          (λ v. v < 64)
          (read_pos_slot {R = R} len_state update)
  unfolding read_pos_slot
  read_pos_slot-Sound len_state update below =
      on_field-Sound w (IsWell mem_limit d probs_mem_limit p) AreSlots (λ v. v < 64)
        (λ t. t.pos_slot_decoder) (λ u t. record t { pos_slot_decoder = u })
        (at_elem len_state (map_err io_error (BitTree.parse update))) (λ t h. h.tables.1)
        (λ t u h q.
          let g = h.tables in
          with_tables mem_limit d probs_mem_limit p t h (record t { pos_slot_decoder = u }) refl
            refl refl refl refl (g.0, q, g.2, g.3, g.4, g.5, g.6, g.7, g.8, g.9, g.10, g.11))
        (at_elem-Sound w (IsTree 6) (λ v. v < 64) 4 len_state
          (map_err io_error (BitTree.parse update)) below
          (map_err-Sound w (IsTree 6) (λ v. v < 64) io_error (BitTree.parse update)
            (parse-Sound w 6 update (omega arith))))

  read_pos_bits-Sound :
      (slot : ℕ) (update : Bool)
      → IsNear slot
      → Sound w
          (IsWell mem_limit d probs_mem_limit p)
          (λ v. v < 2 ^ direct_bits slot)
          (read_pos_bits {R = R} (direct_bits slot) (usize (slot_base slot + 2 ^ 64 - slot)) update)
  unfolding read_pos_bits
  read_pos_bits-Sound slot update near =
      let offset : ℕ = usize (slot_base slot + 2 ^ 64 - slot) in
      on_field-Sound w (IsWell mem_limit d probs_mem_limit p) (IsTable 115)
        (λ v. v < 2 ^ direct_bits slot) (λ t. t.pos_decoders) (λ u t. record t { pos_decoders = u })
        (map_err io_error (parse_reverse_bit_tree (direct_bits slot) offset update))
        (λ t h. h.tables.3)
        (λ t u h q.
          let g = h.tables in
          with_tables mem_limit d probs_mem_limit p t h (record t { pos_decoders = u }) refl refl
            refl refl refl (g.0, g.1, g.2, q, g.4, g.5, g.6, g.7, g.8, g.9, g.10, g.11))
        (map_err-Sound w (IsTable 115) (λ v. v < 2 ^ direct_bits slot) io_error
          (parse_reverse_bit_tree (direct_bits slot) offset update)
          (parse_reverse_bit_tree-Sound w 115 offset (direct_bits slot) update
            (omega (arith, near.bits_few)) near.inside (omega arith)))

  read_align-Sound :
      (update : Bool)
      → Sound w (IsWell mem_limit d probs_mem_limit p) (λ v. v < 16) (read_align {R = R} update)
  unfolding read_align
  read_align-Sound update =
      on_field-Sound w (IsWell mem_limit d probs_mem_limit p) (IsTree 4) (λ v. v < 16)
        (λ t. t.align_decoder) (λ u t. record t { align_decoder = u })
        (map_err io_error (BitTree.parse_reverse update)) (λ t h. h.tables.2)
        (λ t u h q.
          let g = h.tables in
          with_tables mem_limit d probs_mem_limit p t h (record t { align_decoder = u }) refl refl
            refl refl refl (g.0, g.1, q, g.3, g.4, g.5, g.6, g.7, g.8, g.9, g.10, g.11))
        (map_err-Sound w (IsTree 4) (λ v. v < 16) io_error (BitTree.parse_reverse update)
          (parse_reverse-Sound w 4 update (omega arith)))

  pub decode_distance-Sound :
      (length : ℕ) (update : Bool)
      → Sound w
          (IsWell mem_limit d probs_mem_limit p)
          (λ v. v < 2 ^ 32)
          (decode_distance {R = R} length update)
  unfolding decode_distance
  decode_distance-Sound length update =
      let P : DecoderState → Type 0 = IsWell mem_limit d probs_mem_limit p in
      let Q : ℕ → Type 0 = λ v. v < 2 ^ 32 in
      >>=-Sound w P (λ v. v < 64) Q _ _
        (read_pos_slot-Sound (if ltb 3 length then 3 else length) update (slot_of length))
        λ slot below. elim (Bool-cases (ltb slot 4)) [
          | inl direct ↦ rw direct (return-Sound w Error P Q slot (omega (arith, below)))
          | inr not_direct ↦ rw not_direct (elim (Bool-cases (ltb slot 14)) [
            | inl near ↦
                let v : IsNear slot =
                  slots-IsNear slot (ltb→le slot 4 not_direct) (ltb→lt slot 14 near) in
                rw near (
                  >>=-Sound w P (λ v. v < 2 ^ direct_bits slot) Q _ _
                    (read_pos_bits-Sound slot update v)
                    (λ low h.
                      return-Sound w Error P Q (usize (slot_base slot + low))
                        (omega (arith, h, v.top))))
            | inr far ↦
                let v : IsFar slot = slots-IsFar slot (ltb→le slot 14 far) below in
                let few : usize (direct_bits slot + 2 ^ 64 - 4) ≤ 31 =
                  omega (arith, v.bits_enough, v.bits_few) in
                rw far (
                  >>=-Sound w P (λ v. v < 2 ^ usize (direct_bits slot + 2 ^ 64 - 4)) Q _ _
                    (on_coder-Sound P (λ v. v < 2 ^ usize (direct_bits slot + 2 ^ 64 - 4))
                      (get (usize (direct_bits slot + 2 ^ 64 - 4)))
                      (λ c r. get-Post w (usize (direct_bits slot + 2 ^ 64 - 4)) c few r))
                    (λ high h.
                      >>=-Sound w P (λ v. v < 16) Q (read_align update) _ (read_align-Sound update)
                        (λ low g. return-Sound w Error P Q _ (far_sum slot high low v h g))))
          ])
        ]

  -- decode_distance does not panic and gives a number of 32 bits if it returns; the decoder
  -- stays as wanted.
  pub decode_distance-Post :
      (len : ℕ) (update : Bool) (s : RangeDecoder R × DecoderState)
      → Ready w s.0
      → IsWell mem_limit d probs_mem_limit p s.1
      → Post
          (λ distance u.
            Ready w u.0 × IsWell mem_limit d probs_mem_limit p u.1 × (distance < 2 ^ 32))
          (λ u. HasInput u.0 × IsWell mem_limit d probs_mem_limit p u.1)
          (decode_distance len update s)
  decode_distance-Post len update s r v = decode_distance-Sound len update s r v
