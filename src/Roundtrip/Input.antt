-- ===== src/Roundtrip/Input.antt =====
-- The code of a whole input, as src/encode/dumbencoder.rs writes it: for each byte a bit that it is a literal,
-- then the literal.
use lzma_no_std_rs.Base.{
  ℕ, ◌+◌, ◌<◌, Bool, false, List, [], ◌∷◌, arith, replicate, All, length-replicate, All-replicate,
  shr, low_bits,
}
use lzma_no_std_rs.Io.Ext.Bytes.{IsByte}
use lzma_no_std_rs.RangeDecoder.Safe.{IsProb}
use lzma_no_std_rs.Roundtrip.Span.{Span, IsWide}
use lzma_no_std_rs.Roundtrip.Literal.{literal_code, literal_code-IsCode, IsLiteralTable}
use lzma_no_std_rs.Roundtrip.Code.{
  Code, IsCode, bit_code, bit_code-IsCode, then_code, then_code-IsCode, done-IsCode, IsTable,
  at_code, at_code-IsCode, first_code, first_code-IsCode, second_code, second_code-IsCode, Both,
}

-- `is_match` and `literal_probs`.
abbrev pub Probs : Type 0
Probs = List ℕ × List (List ℕ)

abbrev pub IsMatchTable : List ℕ → Type 0
IsMatchTable = IsTable 4 IsProb

abbrev pub IsLiterals : List (List ℕ) → Type 0
IsLiterals = IsTable 8 IsLiteralTable

abbrev pub AreProbs : Probs → Type 0
AreProbs = Both IsMatchTable IsLiterals

abbrev pub match_code : ℕ → Bool → Code Probs
match_code i b = first_code (at_code (low_bits i 2) 0 (bit_code b))

abbrev pub literal_code_at : ℕ → ℕ → Code Probs
literal_code_at prev byte = second_code (at_code (shr prev 5) [] (literal_code 8 byte))

-- A byte at place `i`, behind `prev`.
abbrev pub byte_code : ℕ → ℕ → ℕ → Code Probs
byte_code i prev byte = then_code (match_code i false) (literal_code_at prev byte)

abbrev pub input_code : ℕ → ℕ → List ℕ → Code Probs
input_code i prev [] = λ x. x
input_code i prev (byte ∷ bytes) = then_code (byte_code i prev byte) (input_code (i + 1) byte bytes)

pub match_code-IsCode : (i : ℕ) (b : Bool) → IsCode AreProbs (match_code i b)
match_code-IsCode i b =
    first_code-IsCode IsMatchTable IsLiterals _
      (at_code-IsCode IsProb 4 (low_bits i 2) 0 (bit_code b) (omega arith) (bit_code-IsCode b))

pub literal_code_at-IsCode :
    (prev byte : ℕ) → prev < 256 → byte < 256 → IsCode AreProbs (literal_code_at prev byte)
literal_code_at-IsCode prev byte before small = second_code-IsCode IsMatchTable IsLiterals _ (
    at_code-IsCode IsLiteralTable 8 (shr prev 5) [] (literal_code 8 byte) (omega (arith, before))
      (literal_code-IsCode 8 byte small))

pub byte_code-IsCode :
    (i prev byte : ℕ) → prev < 256 → byte < 256 → IsCode AreProbs (byte_code i prev byte)
byte_code-IsCode i prev byte before small =
    then_code-IsCode AreProbs (match_code i false) (literal_code_at prev byte)
      (match_code-IsCode i false) (literal_code_at-IsCode prev byte before small)

pub input_code-IsCode :
    (i prev : ℕ) (bytes : List ℕ)
    → prev < 256
    → All IsByte bytes
    → IsCode AreProbs (input_code i prev bytes)
input_code-IsCode i prev [] before small = done-IsCode AreProbs
input_code-IsCode i prev (byte ∷ bytes) before small =
    then_code-IsCode AreProbs (byte_code i prev byte) (input_code (i + 1) byte bytes)
      (byte_code-IsCode i prev byte before small.0)
      (input_code-IsCode (i + 1) byte bytes small.0 small.1)

-- What the encoder and the decoder start from.
abbrev pub start_span : Span
start_span = record { base = 0; count = 5; range = 0xFFFF_FFFF }

abbrev pub start_probs : Probs
start_probs = (replicate 4 0x400, replicate 8 (replicate 0x300 0x400))

even_chance : IsProb 0x400
even_chance = (omega arith, omega arith)

literal-start : IsLiteralTable (replicate 0x300 0x400)
literal-start = (length-replicate {A = ℕ} 0x300 0x400, All-replicate IsProb 0x300 0x400 even_chance)

pub start-AreProbs : AreProbs start_probs
start-AreProbs = (
  (length-replicate {A = ℕ} 4 0x400, All-replicate IsProb 4 0x400 even_chance),
  (
    length-replicate {A = List ℕ} 8 (replicate 0x300 0x400),
    All-replicate IsLiteralTable 8 (replicate 0x300 0x400) literal-start,
  ),
)

pub start-IsWide : IsWide start_span
start-IsWide = (omega arith, omega arith)

-- The span of a whole input.
abbrev pub whole : List ℕ → Span
whole bytes = (input_code 0 0 bytes (start_span, start_probs)).0
