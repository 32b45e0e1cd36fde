-- ===== src/Tests/Witnesses.antt =====
-- The theorems at concrete inputs: a small buffer, a range decoder on a few bytes, a stream at rest.
use lzma_no_std_rs.Base.{
  ℕ, zero, suc, ◌+◌, ◌%◌, ◌≤◌, ◌<◌, ◌≡◌, refl, inr, true, none, some, List, [], ◌∷◌, ◌++◌, arith,
  length, get_or, set, replicate, All, All-replicate, ok, err, Post,
}
use lzma_no_std_rs.Base.{Upto, ◌^◌}
use lzma_no_std_rs.Io.Cursor
use lzma_no_std_rs.Io.Cursor.{Cursor}
use lzma_no_std_rs.Io.Cursor.Reader.{cursor_reader}
use lzma_no_std_rs.Io.Vec.{vec_writer}
use lzma_no_std_rs.Error.{lzma_error, invalid_header, stream_error, StreamError}
use lzma_no_std_rs.Options
use lzma_no_std_rs.LzBuffer
use lzma_no_std_rs.LzBuffer.{LzCircularBuffer}
use lzma_no_std_rs.LzBuffer.History.{lz_copy}
use lzma_no_std_rs.LzBuffer.Valid.{IsHalted}
use lzma_no_std_rs.LzBuffer.Copy.{
  Follows, Halted, append_literal-Follows, append_lz-Follows, last_n-nth_last, last_or-nth_last,
}
use lzma_no_std_rs.LzBuffer.Reset.{new-IsFresh, set_dict_size-Follows, finish_lem, reset-new}
use lzma_no_std_rs.RangeDecoder.{RangeDecoder, normalize, decode_bit, parse_bit_tree}
use lzma_no_std_rs.RangeDecoder.Safe.{
  IsProb, IsCoder, weight, Ready, HasInput, AfterBit, StillBytes, normalize-Post,
}
use lzma_no_std_rs.RangeDecoder.Trees.{ReadyAt, FailedAt, parse_bit_tree-Post}
use lzma_no_std_rs.Util.{exact_log2}
use lzma_no_std_rs.Util.Log2.{exact_log2-pow}
use lzma_no_std_rs.RangeDecoder.Trees.{IsTable}
use lzma_no_std_rs.RangeDecoder.{get, parse_reverse_bit_tree}
use lzma_no_std_rs.RangeDecoder.Errors.{
  IsBlamed, OfReader, decode_bit-Ends, get-Ends, parse_reverse_bit_tree-Ends,
}
use lzma_no_std_rs.Lzma.Errors.{decode_distance-Ends}
use lzma_no_std_rs.Io.Interface.{IoError, unexpected_eof}
use lzma_no_std_rs.Base.{Ends, Throws, of_io, ltb, take, Bool, false, inl, if◌then◌else◌}
use lzma_no_std_rs.Lzma.State.Ready.{fresh-HasTables}
use lzma_no_std_rs.Lzma.State.Valid.{IsTaken, IsWell}
use lzma_no_std_rs.Lzma.Distance.{decode_distance}
use lzma_no_std_rs.Lzma.Params.{LzmaParams, read_header}
use lzma_no_std_rs.Lzma.Params.Header.{IsValid, Left, read_header-Post}
use lzma_no_std_rs.Lzma.State.{
  partial, finish as finish_mode, new as new_decoder, reset as reset_decoder,
}
use lzma_no_std_rs.Lzma.State.Reset.{fresh, new-IsShaped, reset-fresh}
use lzma_no_std_rs.Lzma.Step.{Session, move_to_front, make_room, process_next}
use lzma_no_std_rs.Lzma.Step.Progress.{process_next-Post}
use lzma_no_std_rs.Lzma.Step.Rep.{move_to_front_lem, make_room_lem}
use lzma_no_std_rs.Lzma.Process.{is_starved, process_mode}
use lzma_no_std_rs.Lzma.Process.Valid.{IsRunning, IsSized}
use lzma_no_std_rs.Lzma.Process.Total.{process_mode-Post}
use lzma_no_std_rs.Decompress.{lzma_decompress_with_options}
use lzma_no_std_rs.Decompress.Total.{lzma_decompress_with_options-Post}
use lzma_no_std_rs.Io.Ext.Bytes.{IsInput}
use lzma_no_std_rs.Lzma.Process.Probe.{is_starved-Keeps}
use lzma_no_std_rs.Io.Ext.{read_u8}
use lzma_no_std_rs.Stream.{Stream, header, empty_tmp, reset, get_stream_status, take_state}
use lzma_no_std_rs.Stream.Header
use lzma_no_std_rs.Stream.Header.{header_write}
use lzma_no_std_rs.Stream.Feed.{write}
use lzma_no_std_rs.Stream.Finish.{finish}
use lzma_no_std_rs.Stream.Status.{IsLive}
use lzma_no_std_rs.Stream.Poison.{Bare, write-Upto, write-refuses}
use lzma_no_std_rs.Stream.Reset.{IsReset, reset-Stream, finish-IsReset}
use lzma_no_std_rs.Tests.Bytes.{byteorder, empty_lzma}

-- A dictionary of four bytes after "AB".
abbrev two_bytes : List ℕ
two_bytes = 65 ∷ 66 ∷ []

abbrev ring : LzCircularBuffer × List ℕ
ring = (record { buf = 65 ∷ 66 ∷ 0 ∷ 0 ∷ []; dict_size = some 4; cursor = 2; len = 2 }, [])

ring_recent :
    (j : ℕ)
    → j < 2
    → 2 ≤ j + 4
    → get_or {A = ℕ} (65 ∷ 66 ∷ 0 ∷ 0 ∷ []) (j % 4) 0 ≡ get_or two_bytes j 0
ring_recent zero below near = refl
ring_recent (suc zero) below near = refl
ring_recent (suc (suc j)) below near = absurd (omega arith)

ring-Follows : Follows 4 4 [] two_bytes ring
ring-Follows = (
  record {
    sized = refl;
    small = omega arith;
    dict = refl;
    fits = omega arith;
    inside = omega arith;
    bytes = (omega arith, (omega arith, (omega arith, (omega arith, tt))));
  },
  record { shown = refl; counted = refl; placed = refl; recent = ring_recent },
)

append_literal-Follows_example :
    Post
      (λ _. Follows 4 4 [] (two_bytes ++ 67 ∷ []))
      (Halted 4 4 [])
      (LzBuffer.append_literal 67 ring)
append_literal-Follows_example =
    append_literal-Follows 4 4 [] 67 two_bytes ring ring-Follows (omega arith)

append_lz-Follows_example :
    Post (λ _. Follows 4 4 [] (lz_copy 5 2 two_bytes)) (Halted 4 4 []) (LzBuffer.append_lz 5 2 ring)
append_lz-Follows_example =
    append_lz-Follows 4 4 [] 5 2 two_bytes ring (omega arith) (omega arith) (omega arith)
      ring-Follows

last_n-nth_last_example : LzBuffer.last_n 2 ring.0 ≡ (ok 65, ring.0)
last_n-nth_last_example =
    last_n-nth_last 4 4 [] 2 two_bytes ring (omega arith) (omega arith) (omega arith) ring-Follows

last_or-nth_last_example : LzBuffer.last_or 7 ring.0 ≡ (ok 66, ring.0)
last_or-nth_last_example = last_or-nth_last 4 4 [] 7 two_bytes ring (omega arith) ring-Follows

finish_lem_example :
    Post
      (λ _ s. (vec_writer.written s.1 ≡ two_bytes) × (s.0 ≡ LzBuffer.new 4))
      (λ s. IsHalted 4 s.0)
      (LzBuffer.finish ring)
finish_lem_example = finish_lem 4 4 [] two_bytes ring ring-Follows

set_dict_size-Follows_example :
    (LzBuffer.set_dict_size 8 4 (LzBuffer.new 8)
      ≡ (ok tt, record (LzBuffer.new 8) { dict_size = some 4 }))
    × Follows {W = List ℕ} 8 4 [] [] (record (LzBuffer.new 8) { dict_size = some 4 }, [])
set_dict_size-Follows_example =
    set_dict_size-Follows 8 4 (LzBuffer.new 8) [] (omega arith) (omega arith) (omega arith)
      (new-IsFresh 8)

reset-new_example : LzBuffer.reset ring.0 ≡ LzBuffer.new 4
reset-new_example = reset-new ring.0

-- A range decoder on three bytes.
abbrev coder : RangeDecoder Cursor
coder = record { stream = Cursor.new (1 ∷ 2 ∷ 3 ∷ []); range = 0x0100_0000; code = 5 }

coder_input : All (λ x. x < 256) (cursor_reader.pending coder.stream)
unfolding Cursor.new
coder_input = (omega arith, (omega arith, (omega arith, tt)))

coder-IsCoder : IsCoder coder
coder-IsCoder = record {
  enough = omega arith;
  range_fits = omega arith;
  code_fits = omega arith;
  input = coder_input;
}

half-IsProb : IsProb 0x400
half-IsProb = (omega arith, omega arith)

normalize-Post_example :
    Post (λ _. Ready 0x4_0000_0000) HasInput (normalize (record coder { range = 0x2_0000 }))
unfolding Cursor.new
normalize-Post_example =
    normalize-Post 0x4_0000_0000 (record coder { range = 0x2_0000 }) (omega arith) (omega arith)
      (omega arith) coder_input (omega arith)

abbrev IsEof : IoError → Type 0
IsEof e = e ≡ unexpected_eof

-- A slice fails only at its end.
cursor-IsBlamed : IsBlamed cursor_reader IsEof
unfolding Cursor.read_exact
cursor-IsBlamed c = by_room (ltb (length (Cursor.rest c)) 1)
  where
    by_room :
        (b : Bool)
        → Throws IsEof (
            of_io {E = IoError} {A = List ℕ} (
              if b
              then (inl unexpected_eof, c)
              else (inr (take 1 (Cursor.rest c)), record c { pos = c.pos + 1 })))
    by_room true = refl
    by_room false = tt

decode_bit-Ends_example :
    Ends
      (λ _. AfterBit (weight coder))
      (λ e u. IsEof e × StillBytes u)
      (decode_bit true (coder, 0x400))
decode_bit-Ends_example =
    decode_bit-Ends IsEof cursor-IsBlamed true coder 0x400 coder-IsCoder half-IsProb

abbrev four_probs : List ℕ
four_probs = replicate 4 0x400

four_probs-IsTable : All IsProb four_probs × (length four_probs ≡ 4)
four_probs-IsTable = (All-replicate IsProb 4 0x400 half-IsProb, refl)

parse_bit_tree-Post_example :
    Post
      (λ v u. ReadyAt 0x4_0000_0000 4 u × (v < 4))
      (FailedAt 4)
      (parse_bit_tree 2 true (coder, four_probs))
unfolding Cursor.new
parse_bit_tree-Post_example =
    parse_bit_tree-Post 0x4_0000_0000 2 true (coder, four_probs) (omega arith)
      ((coder-IsCoder, omega arith), four_probs-IsTable)

exact_log2-pow_example : exact_log2 64 ≡ some 6
exact_log2-pow_example = exact_log2-pow 6 (omega arith)

read_header-Post_example :
    Post
      (λ p _. IsValid Options.default p)
      Left
      (read_header Options.default (Cursor.new empty_lzma))
read_header-Post_example = read_header-Post Options.default (Cursor.new empty_lzma)

abbrev small_params : LzmaParams
small_params = record { lc = 0; lp = 0; pb = 0; dict_size = 4; unpacked_size = none }

abbrev session : RangeDecoder Cursor × Session (List ℕ)
session = (coder, (record (fresh 4 1) { params = some small_params; output = ring.0 }, []))

-- More than the weight of `coder`.
abbrev limit : ℕ
limit = 0x4_0000_0000

coder-Ready : Ready limit coder
unfolding Cursor.new
coder-Ready = (coder-IsCoder, omega arith)

get-Ends_example :
    Ends (λ v c. Ready limit c × (v < 2 ^ 5)) (λ e c. OfReader IsEof e × HasInput c) (get 5 coder)
get-Ends_example = get-Ends IsEof cursor-IsBlamed limit 5 coder (omega arith) coder-Ready

parse_reverse_bit_tree-Ends_example :
    Ends
      (λ v u. Ready limit u.0 × IsTable 4 u.1 × (v < 2 ^ 1))
      (λ e u. IsEof e × FailedAt 4 u)
      (parse_reverse_bit_tree 1 2 true (coder, four_probs))
parse_reverse_bit_tree-Ends_example =
    parse_reverse_bit_tree-Ends IsEof cursor-IsBlamed limit 4 2 1 true (coder, four_probs)
      (omega arith) (omega arith) (omega arith) (coder-Ready, four_probs-IsTable)

small-IsTaken : IsTaken 1 small_params
small-IsTaken = record {
  lc_fits = omega arith;
  lp_fits = omega arith;
  pb_fits = omega arith;
  room = omega arith;
}

session-IsWell : IsWell 4 4 1 small_params session.1.0
session-IsWell = record {
  params = refl;
  buffer = ring-Follows.0;
  state = omega arith;
  rep = refl;
  initialized = λ e. cc;
  tables = fresh-HasTables 4 1;
}

decode_distance-Ends_example :
    Ends
      (λ distance u. Ready limit u.0 × IsWell 4 4 1 small_params u.1 × (distance < 2 ^ 32))
      (λ e u. OfReader IsEof e × (HasInput u.0 × IsWell 4 4 1 small_params u.1))
      (decode_distance 2 true (coder, session.1.0))
decode_distance-Ends_example =
    decode_distance-Ends IsEof cursor-IsBlamed limit 4 4 1 small_params 2 true (coder, session.1.0)
      coder-Ready session-IsWell

process_next-Post_example :
    Post
      (λ _ u. IsCoder u.0 × (weight u.0 < weight session.0) × IsWell 4 4 1 small_params u.1.0)
      (λ _. Unit {0})
      (process_next session)
process_next-Post_example =
    process_next-Post 4 4 1 small_params small-IsTaken session coder-Ready.0 session-IsWell

session-IsRunning : IsRunning 4 4 1 small_params session
unfolding Cursor.new
session-IsRunning = record {
  coder = coder-Ready.0;
  well = session-IsWell;
  partial = record { sized = refl; inside = omega arith; bytes = omega arith };
}

process_mode-Post_example :
    Post
      (λ _ u. IsRunning 4 4 1 small_params u × IsSized finish_mode none u)
      (λ _. Unit {0})
      (process_mode finish_mode session)
process_mode-Post_example =
    process_mode-Post 4 4 1 small_params small-IsTaken finish_mode session session-IsRunning

-- A whole input in memory, with an empty sink.
abbrev whole : Cursor × List ℕ
whole = (Cursor.new empty_lzma, [])

whole-IsInput : IsInput whole.0
unfolding Cursor.new
whole-IsInput = omega arith

lzma_decompress_with_options-Post_example :
    Post
      (λ _ _. Unit {0})
      (λ _. Unit {0})
      (lzma_decompress_with_options 4096 8 Options.default whole)
lzma_decompress_with_options-Post_example =
    lzma_decompress_with_options-Post 4096 8 Options.default whole (omega arith) whole-IsInput

is_starved-Keeps_example : (is_starved partial true (1 ∷ 2 ∷ 3 ∷ []) session).1 ≡ session
is_starved-Keeps_example = is_starved-Keeps partial true (1 ∷ 2 ∷ 3 ∷ []) session

move_to_front_lem_example : move_to_front 2 (5 ∷ 6 ∷ 7 ∷ 8 ∷ []) ≡ 7 ∷ 5 ∷ 6 ∷ 8 ∷ []
move_to_front_lem_example = move_to_front_lem 2 (5 ∷ 6 ∷ 7 ∷ 8 ∷ []) (omega arith)

make_room_lem_example : set (make_room (5 ∷ 6 ∷ 7 ∷ 8 ∷ [])) 0 9 ≡ 9 ∷ 5 ∷ 6 ∷ 7 ∷ []
make_room_lem_example = make_room_lem (5 ∷ 6 ∷ 7 ∷ 8 ∷ []) 9 refl

reset-fresh_example : reset_decoder (new_decoder 4 1) ≡ (ok tt, fresh 4 1)
reset-fresh_example = reset-fresh 4 1 (new_decoder 4 1) (new-IsShaped 4 1)

-- A stream that waits for its header.
abbrev idle : Stream
idle = record {
  decoder = new_decoder 4 1;
  tmp = empty_tmp;
  state = header;
  options = Options.default;
}

reset-Stream_example : reset idle ≡ (ok tt, record idle { decoder = fresh 4 1 })
reset-Stream_example = reset-Stream 4 1 idle (new-IsShaped 4 1)

abbrev fed : Stream × List ℕ
fed = (idle, [])

write-Upto_example : Upto (λ _ s. IsLive s.0.state) Bare (write 4 1 (0x5d ∷ 0 ∷ []) fed)
write-Upto_example = write-Upto 4 1 (0x5d ∷ 0 ∷ []) fed

-- 225 is no byte of properties.
bad_header : (write 4 1 (225 ∷ []) fed).0 ≡ err (lzma_error (invalid_header 225))
unfolding write get_stream_status take_state header_write Header.read_header read_header read_u8
    Cursor.read_exact Cursor.new
bad_header = refl

write-refuses_example :
    (write 4 1 (0x5d ∷ []) (write 4 1 (225 ∷ []) fed).1).0
    ≡ err (stream_error StreamError.invalid_state)
write-refuses_example =
    write-refuses 4 1 (225 ∷ []) (0x5d ∷ []) fed (lzma_error (invalid_header 225)) bad_header

finish-IsReset_example : Upto (λ _ s. IsReset s.0) (λ s. IsReset s.0) (finish fed)
finish-IsReset_example = finish-IsReset fed
