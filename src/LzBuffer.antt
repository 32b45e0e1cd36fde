-- ===== src/LzBuffer.antt =====
-- src/decode/lzbuffer.rs: the circular buffer that is the dictionary of the decoder. A method acts on
-- the buffer and on the sink `stream` beside it. `mem_limit` is the constant MEM_LIMIT.
pub mod History
pub mod Valid
pub mod Append
pub mod Copy
pub mod Reset
pub mod Pure
pub mod Read
pub mod Keep
use lzma_no_std_rs.Base.{
  ℕ, zero, suc, ◌+◌, ◌-◌, ◌%◌, ◌^◌, Option, none, some, List, M, ◌>>=◌, ◌>>◌, return, throw, panics,
  gets, modify, when, of_io, zoom, map_err, expect, if◌then◌else◌, ltb, ◌==◌, length, get_or, set,
  take, replicate, map, usize,
}
use lzma_no_std_rs.Io.Interface.{IoError, Write}
use lzma_no_std_rs.Error.{
  Error, LzmaError, dictionary_buffer_too_small, io_error, lzma_error,
  match_distance_is_beyond_dictionary_size, match_distance_is_beyond_output_size,
  lz_distance_is_beyond_dictionary_size, lz_distance_is_beyond_output_size,
}

pub record LzCircularBuffer : Type 0 where
  pub buf : List ℕ
  pub dict_size : Option ℕ
  pub cursor : ℕ
  pub len : ℕ

unfoldable pub new : ℕ → LzCircularBuffer
new mem_limit = record { buf = replicate mem_limit 0; dict_size = none; cursor = 0; len = 0 }

abbrev pub get : LzCircularBuffer → ℕ → ℕ
get b index = get_or b.buf index 0

-- `self.buf[index] = value`, which panics out of bounds.
unfoldable pub set_byte : ℕ → ℕ → M Error LzCircularBuffer (Unit {0})
set_byte index value = do
  inside ← gets (λ b. ltb index (length b.buf))
  if inside then modify (λ b. record b { buf = set b.buf index value }) else panics

unfoldable pub set_dict_size : ℕ → ℕ → M Error LzCircularBuffer (Unit {0})
set_dict_size mem_limit dict_size =
    if ltb mem_limit dict_size
    then throw (dictionary_buffer_too_small dict_size mem_limit)
    else modify (λ b. record b { dict_size = some dict_size })

unfoldable pub last_or : ℕ → M Error LzCircularBuffer ℕ
last_or lit = do
  dict_size ← (λ b. expect b.dict_size b)
  len ← gets (λ b. b.len)
  if len == 0
      then return lit
      else if dict_size == 0
      then panics
      else gets (λ b. get b (usize (dict_size + b.cursor + 2 ^ 64 - 1) % dict_size))

-- The index of the byte at a distance; `%` panics on 0.
abbrev pub offset_of : LzCircularBuffer → ℕ → ℕ → ℕ
offset_of b dict_size distance = usize (dict_size + b.cursor + 2 ^ 64 - distance) % dict_size

unfoldable pub last_n : ℕ → M Error LzCircularBuffer ℕ
last_n distance = do
  dict_size ← (λ b. expect b.dict_size b)
  len ← gets (λ b. b.len)
  if ltb dict_size distance
      then throw (lzma_error (match_distance_is_beyond_dictionary_size distance dict_size))
      else if ltb len distance
      then throw (lzma_error (match_distance_is_beyond_output_size distance len))
      else if dict_size == 0
      then panics
      else gets (λ b. get b (offset_of b dict_size distance))

unfoldable pub reset : LzCircularBuffer → LzCircularBuffer
reset b = record { buf = map (λ _. 0) b.buf; dict_size = none; cursor = 0; len = 0 }

module _ {W : Type 0} ⦃wr : Write W⦄ where
  -- The buffer, and the sink that a method is given.
  abbrev pub on_buffer :
      {A : Type 0} → M Error LzCircularBuffer A → M Error (LzCircularBuffer × W) A
  on_buffer = zoom (λ s. s.0) (λ b s. (b, s.1))

  -- `stream.write_all(&self.buf[..self.cursor])`, which panics if the cursor is out of bounds
  unfoldable pub write_out : M IoError (LzCircularBuffer × W) (Unit {0})
  write_out = do
    out_of_bounds ← gets (λ s. ltb (length s.0.buf) s.0.cursor)
    if out_of_bounds then panics else λ s.
        zoom (λ s. s.1) (λ w s. (s.0, w)) (λ w. of_io (wr.write_all (take s.0.cursor s.0.buf) w)) s

  unfoldable pub append_literal : ℕ → M Error (LzCircularBuffer × W) (Unit {0})
  append_literal lit = do
    dict_size ← on_buffer (λ b. expect b.dict_size b)
    on_buffer (λ b. set_byte b.cursor lit b)
    on_buffer (modify (λ b. record b { cursor = usize (b.cursor + 1); len = usize (b.len + 1) }))
    full ← on_buffer (gets (λ b. b.cursor == dict_size))
    when full do map_err io_error write_out; on_buffer (modify (λ b. record b { cursor = 0 }))

  -- The loop of `append_lz`, with the rounds that are left.
  unfoldable pub copy_loop : ℕ → ℕ → ℕ → M Error (LzCircularBuffer × W) (Unit {0})
  copy_loop dict_size zero offset = return tt
  copy_loop dict_size (suc n) offset = do
    x ← on_buffer (gets (λ b. get b offset))
    append_literal x
    copy_loop dict_size n (if usize (offset + 1) == dict_size then 0 else usize (offset + 1))

  unfoldable pub append_lz : ℕ → ℕ → M Error (LzCircularBuffer × W) (Unit {0})
  append_lz len distance = do
    dict_size ← on_buffer (λ b. expect b.dict_size b)
    output_len ← on_buffer (gets (λ b. b.len))
    if ltb dict_size distance
        then throw (lzma_error (lz_distance_is_beyond_dictionary_size distance dict_size))
        else if ltb output_len distance
        then throw (lzma_error (lz_distance_is_beyond_output_size distance output_len))
        else if dict_size == 0
        then panics
        else do
          offset ← on_buffer (gets (λ b. offset_of b dict_size distance))
          copy_loop dict_size len offset

  -- `finish` returns an `io::Result`.
  unfoldable pub finish : M IoError (LzCircularBuffer × W) (Unit {0})
  finish = do
    pending ← gets (λ s. ltb 0 s.0.cursor)
    when pending do write_out; zoom (λ s. s.1) (λ w s. (s.0, w)) (λ w. of_io (wr.flush w))
    modify (λ s. (reset s.0, s.1))
