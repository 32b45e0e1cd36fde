-- ===== src/Io/Ext/Rest.antt =====
-- `ReadBytesExt` of src/io/io_ext.rs: after a read, what is left of an input of bytes is bytes.
use lzma_no_std_rs.Base.{
  ℕ, ◌^◌, ◌<◌, ◌≡◌, inl, inr, List, [], ◌∷◌, arith, length, All, All-append_left, All-append_right,
  of_io, Post, Sum-cases, Preserves, >>=-Preserves,
}
use lzma_no_std_rs.Io.Interface.{BufRead}
use lzma_no_std_rs.Io.Endian.{ByteOrder, Endian}
use lzma_no_std_rs.Io.Ext.{read_buf, read_u8, read_u32, read_u64}
use lzma_no_std_rs.Io.Ext.Bytes.{IsByte, IsInput}

four-fits : (e : Endian) (bs : List ℕ) → length bs ≡ 4 → All IsByte bs → e.big.from_u32 bs < 2 ^ 32
four-fits e [] l h = absurd (omega arith)
four-fits e (a ∷ []) l h = absurd (omega arith)
four-fits e (a ∷ b ∷ []) l h = absurd (omega arith)
four-fits e (a ∷ b ∷ c ∷ []) l h = absurd (omega arith)
four-fits e (a ∷ b ∷ c ∷ d ∷ []) l h = omega (arith, e.big_u32 a b c d)
four-fits e (a ∷ b ∷ c ∷ d ∷ x ∷ bs) l h = absurd (omega arith)

module _ {R : Type 0} ⦃rd : BufRead R⦄ where
  read_buf-IsInput : (n : ℕ) → Preserves IsInput (read_buf {R = R} n)
  read_buf-IsInput n r h = elim (Sum-cases (rd.read_exact n r).0) [
    | inl (x, e) ↦
        let lost = rd.read_exact_fails n r x e in
        rw (e, of_io) (All-append_right IsByte lost.0 _ (rw lost.1 at h))
    | inr (bs, e) ↦
        let took = rd.read_exact_takes n r bs e in
        rw (e, of_io) (All-append_right IsByte bs _ (rw took.1 at h))
  ]

  pub read_u8-IsInput : Preserves IsInput (read_u8 {R = R})
  unfolding read_u8
  read_u8-IsInput = >>=-Preserves IsInput (read_buf 1) _ (read_buf-IsInput 1) (λ bs r h. h)

  pub read_u32-IsInput : (t : ByteOrder) → Preserves IsInput (read_u32 {R = R} t)
  unfolding read_u32
  read_u32-IsInput t = >>=-Preserves IsInput (read_buf 4) _ (read_buf-IsInput 4) (λ bs r h. h)

  pub read_u64-IsInput : (t : ByteOrder) → Preserves IsInput (read_u64 {R = R} t)
  unfolding read_u64
  read_u64-IsInput t = >>=-Preserves IsInput (read_buf 8) _ (read_buf-IsInput 8) (λ bs r h. h)

  pub read_u32-Post :
      (e : Endian) (r : R)
      → IsInput r
      → Post (λ n r'. (n < 2 ^ 32) × IsInput r') IsInput (read_u32 e.big r)
  unfolding read_u32
  read_u32-Post e r h = elim (Sum-cases (rd.read_exact 4 r).0) [
    | inl (x, q) ↦
        let lost = rd.read_exact_fails 4 r x q in
        rw (q, of_io) (All-append_right IsByte lost.0 _ (rw lost.1 at h))
    | inr (bs, q) ↦
        let took = rd.read_exact_takes 4 r bs q in
        let all = rw took.1 at h in
        rw (q, of_io)
          (
            four-fits e bs took.0 (All-append_left IsByte bs _ all),
            All-append_right IsByte bs _ all,
          )
  ]
