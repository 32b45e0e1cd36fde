-- ===== src/Io/Ext.antt =====
-- src/io/io_ext.rs: the methods of `ReadBytesExt` and `WriteBytesExt` that the crate calls. Each reads
-- or writes a buffer of its own, and leaves the byte order to byteorder.
pub mod Bytes
pub mod Rest
use lzma_no_std_rs.Base.{ℕ, List, [], ◌∷◌, M, of_io, return, get_or, ◌>>=◌}
use lzma_no_std_rs.Io.Interface.{IoError, BufRead, Write}
use lzma_no_std_rs.Io.Endian.{ByteOrder}

module _ {R : Type 0} ⦃rd : BufRead R⦄ where
  -- `self.read_exact(&mut buf)?` with a buffer of `n` bytes
  abbrev pub read_buf : ℕ → M IoError R (List ℕ)
  read_buf n r = of_io (rd.read_exact n r)

  unfoldable pub read_u8 : M IoError R ℕ
  read_u8 = do buf ← read_buf 1; return (get_or buf 0 0)

  unfoldable pub read_u32 : ByteOrder → M IoError R ℕ
  read_u32 t = do buf ← read_buf 4; return (t.from_u32 buf)

  unfoldable pub read_u64 : ByteOrder → M IoError R ℕ
  read_u64 t = do buf ← read_buf 8; return (t.from_u64 buf)

module _ {W : Type 0} ⦃wr : Write W⦄ where
  abbrev pub write_buf : List ℕ → M IoError W (Unit {0})
  write_buf bs w = of_io (wr.write_all bs w)

  unfoldable pub write_u8 : ℕ → M IoError W (Unit {0})
  write_u8 n = write_buf (n ∷ [])

  unfoldable pub write_u32 : ByteOrder → ℕ → M IoError W (Unit {0})
  write_u32 t n = write_buf (t.to_u32 n)

  unfoldable pub write_u64 : ByteOrder → ℕ → M IoError W (Unit {0})
  write_u64 t n = write_buf (t.to_u64 n)
