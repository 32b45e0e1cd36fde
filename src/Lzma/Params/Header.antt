-- ===== src/Lzma/Params/Header.antt =====
-- src/decode/lzma.rs, `LzmaParams::read_header`: what the parameters of a stream can be.
use lzma_no_std_rs.Base.{
  ℕ, ◌/◌, ◌≤◌, ◌≡◌, refl, ◌⊎◌, inl, inr, false, Option, arith, ltb, leb, if◌then◌else◌, Bool-cases,
  of_io, Post, next-Post, relabel-Post,
}
use lzma_no_std_rs.Io.Interface.{BufRead}
use lzma_no_std_rs.Io.Ext.{read_u8, read_u32, read_u64}
use lzma_no_std_rs.Io.Endian.{ByteOrder, Endian}
use lzma_no_std_rs.Error.{header_too_short}
use lzma_no_std_rs.Options.{
  Options, UnpackedSize, read_from_header, read_header_but_use_provided, use_provided,
}
use lzma_no_std_rs.Lzma.Params.{LzmaParams, read_unpacked_size, read_header}

-- A size that the caller provides is the size that is used.
abbrev pub Honours : UnpackedSize → Option ℕ → Type 0
Honours read_from_header size = Unit {0}
Honours (read_header_but_use_provided x) size = size ≡ x
Honours (use_provided x) size = size ≡ x

pub record IsValid (options : Options) (p : LzmaParams) : Type 0 where
  pub lc_fits : p.lc ≤ 8
  pub lp_fits : p.lp ≤ 4
  pub pb_fits : p.pb ≤ 4
  pub dict_fits : 0x1000 ≤ p.dict_size
  pub size : Honours options.unpacked_size p.unpacked_size

abbrev Any : {A S : Type 0} → A → S → Type 0
Any a s = Unit {0}

abbrev pub Left : {S : Type 0} → S → Type 0
Left s = Unit {0}

of_io-Post : {E A S : Type 0} (o : (E ⊎ A) × S) → Post Any Left (of_io o)
of_io-Post (inl e, s) = tt
of_io-Post (inr a, s) = tt

dict_size-fits : (n : ℕ) → 0x1000 ≤ (if ltb n 0x1000 then 0x1000 else n)
dict_size-fits n = ground arith

pb_small : (props : ℕ) → leb 225 props ≡ false → props / 9 / 5 ≤ 4
pb_small props h = ground arith

module _ {R : Type 0} ⦃rd : BufRead R⦄ where
  read_u8-returns : (r : R) → Post Any Left (read_u8 r)
  unfolding read_u8
  read_u8-returns r =
      next-Post Any Any Left (of_io (rd.read_exact 1 r)) _ (of_io-Post (rd.read_exact 1 r))
        (λ a s h. tt)

  read_u32-returns : (t : ByteOrder) (r : R) → Post Any Left (read_u32 t r)
  unfolding read_u32
  read_u32-returns t r =
      next-Post Any Any Left (of_io (rd.read_exact 4 r)) _ (of_io-Post (rd.read_exact 4 r))
        (λ a s h. tt)

  read_u64-returns : (t : ByteOrder) (r : R) → Post Any Left (read_u64 t r)
  unfolding read_u64
  read_u64-returns t r =
      next-Post Any Any Left (of_io (rd.read_exact 8 r)) _ (of_io-Post (rd.read_exact 8 r))
        (λ a s h. tt)

module _ {R : Type 0} ⦃rd : BufRead R⦄ ⦃e : Endian⦄ where
  read_unpacked_size-Post :
      (mode : UnpackedSize) (r : R)
      → Post (λ size _. Honours mode size) Left (read_unpacked_size mode r)
  unfolding read_unpacked_size
  read_unpacked_size-Post read_from_header r =
      next-Post Any _ Left _ _
        (relabel-Post Any Left header_too_short (read_u64 e.little r) (read_u64-returns e.little r))
        (λ a s h. tt)
  read_unpacked_size-Post (read_header_but_use_provided x) r =
      next-Post Any _ Left _ _
        (relabel-Post Any Left header_too_short (read_u64 e.little r) (read_u64-returns e.little r))
        (λ a s h. refl)
  read_unpacked_size-Post (use_provided x) r = refl

  -- read_header does not panic on any input; the parameters that it returns have lc at most 8, lp
  -- and pb at most 4, a dictionary of at least 0x1000 bytes, and the unpacked size of the caller
  -- where the options provide one.
  pub read_header-Post :
      (options : Options) (r : R) → Post (λ p _. IsValid options p) Left (read_header options r)
  unfolding read_header
  read_header-Post options r =
      next-Post Any _ Left _ _
        (relabel-Post Any Left header_too_short (read_u8 r) (read_u8-returns r))
        λ props r1 _. elim (Bool-cases (leb 225 props)) [
          | inl refused ↦ rw refused tt
          | inr taken ↦ rw taken (
              next-Post Any _ Left _ _
                (relabel-Post Any Left header_too_short (read_u32 e.little r1)
                  (read_u32-returns e.little r1))
                λ dict r2 _.
                  next-Post (λ size _. Honours options.unpacked_size size) _ Left _ _
                    (read_unpacked_size-Post options.unpacked_size r2)
                    λ size r3 h. record {
                      lc_fits = omega arith;
                      lp_fits = omega arith;
                      pb_fits = pb_small props taken;
                      dict_fits = dict_size-fits dict;
                      size = h;
                    })
        ]
