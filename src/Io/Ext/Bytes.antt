-- ===== src/Io/Ext/Bytes.antt =====
-- `read_u8` of src/io/io_ext.rs on a reader whose input is bytes.
use lzma_no_std_rs.Base.{
  ℕ, suc, ◌<◌, ◌≡◌, ap, inl, inr, List, [], ◌∷◌, ◌++◌, arith, length, get_or, All, All-append_right,
  of_io, Post, Sum-cases,
}
use lzma_no_std_rs.Io.Interface.{BufRead}
use lzma_no_std_rs.Io.Ext.{read_u8}

abbrev pub IsByte : ℕ → Type 0
IsByte x = x < 256

one-IsByte :
    (bs rest all : List ℕ)
    → length bs ≡ 1
    → all ≡ bs ++ rest
    → All IsByte all
    → IsByte (get_or bs 0 0) × All IsByte rest × (length all ≡ suc (length rest))
one-IsByte [] rest all l e h = absurd (omega arith)
one-IsByte (b ∷ []) rest all l e h = let h' = rw e at h in (h'.0, h'.1, ap length e)
one-IsByte (b ∷ c ∷ bs) rest all l e h = absurd (omega arith)

module _ {R : Type 0} ⦃rd : BufRead R⦄ where
  -- All that is left of the input.
  abbrev pub IsInput : R → Type 0
  IsInput r = All IsByte (rd.pending r)

  abbrev pub TookByte : R → ℕ → R → Type 0
  TookByte r b r' = IsByte b × IsInput r' × (length (rd.pending r) ≡ suc (length (rd.pending r')))

  pub read_u8-Post : (r : R) → IsInput r → Post (TookByte r) IsInput (read_u8 r)
  unfolding read_u8
  read_u8-Post r h = elim (Sum-cases (rd.read_exact 1 r).0) [
    | inl (x, e) ↦
        let lost = rd.read_exact_fails 1 r x e in
        rw (e, of_io) (All-append_right IsByte lost.0 _ (rw lost.1 at h))
    | inr (bs, e) ↦
        let took = rd.read_exact_takes 1 r bs e in
        rw (e, of_io) (one-IsByte bs _ (rd.pending r) took.0 took.1 h)
  ]
