-- ===== src/Io/Cursor.antt =====
-- src/io/cursor.rs: a cursor over a buffer of bytes, the reader of the stream decoder.
-- Positions are `u64`. Reading from a slice (`Read for &[u8]`) is the standard library's; a slice has
-- fewer than 2 ^ 63 bytes and a read takes none past its end, so that no position wraps there.
pub mod Reader
pub mod Seek
pub mod Write
use lzma_no_std_rs.Base.{
  ℕ, ◌+◌, min, ◌⊎◌, inl, inr, List, length, take, drop, ltb, if◌then◌else◌, u64,
}
use lzma_no_std_rs.Io.Interface.{IoError, unexpected_eof}

pub record Cursor : Type 0 where
  pub inner : List ℕ
  pub pos : ℕ

unfoldable pub new : List ℕ → Cursor
new inner = record { pos = 0; inner = inner }

unfoldable pub into_inner : Cursor → List ℕ
into_inner c = c.inner

unfoldable pub get_ref : Cursor → List ℕ
get_ref c = c.inner

unfoldable pub position : Cursor → ℕ
position c = c.pos

unfoldable pub set_position : ℕ → Cursor → Cursor
set_position pos c = record c { pos = pos }

-- The slice from the position on, which is empty past the end.
abbrev pub rest : Cursor → List ℕ
rest c = drop (min c.pos (length c.inner)) c.inner

unfoldable pub fill_buf : Cursor → (IoError ⊎ List ℕ) × Cursor
fill_buf c = (inr (rest c), c)

unfoldable pub consume : ℕ → Cursor → Cursor
consume amt c = record c { pos = u64 (c.pos + amt) }

unfoldable pub read : ℕ → Cursor → (IoError ⊎ List ℕ) × Cursor
read n c = let got = take n (rest c) in (inr got, record c { pos = c.pos + length got })

-- `read_exact` of a slice fails with `UnexpectedEof` if the slice is too short.
unfoldable pub read_exact : ℕ → Cursor → (IoError ⊎ List ℕ) × Cursor
read_exact n c =
    if ltb (length (rest c)) n
    then (inl unexpected_eof, c)
    else (inr (take n (rest c)), record c { pos = c.pos + n })
