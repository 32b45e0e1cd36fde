-- ===== src/Io/Interface.antt =====
-- `io::Error`, `io::BufRead` and `io::Write` as records of operations and laws.
use lzma_no_std_rs.Base.{ℕ, ◌≤◌, ◌≡◌, ◌⊎◌, inl, inr, List, [], ◌++◌, length}

-- The kinds of error that the crate raises, and those of a reader or a writer.
pub data IoError : Type 0 where
  unexpected_eof write_zero invalid_input other : IoError
  foreign : ℕ → IoError

-- `pending` is the rest of the input. A call may fail at any time; what it took is then lost.
pub record BufRead (R : Type 0) : Type 0 where
  pub fill_buf : R → (IoError ⊎ List ℕ) × R
  pub read : ℕ → R → (IoError ⊎ List ℕ) × R
  pub read_exact : ℕ → R → (IoError ⊎ List ℕ) × R
  pub pending : R → List ℕ
  pub fill_buf_pending : (r : R) → pending (fill_buf r).1 ≡ pending r
  pub fill_buf_prefix :
      (r : R) (bs : List ℕ) → (fill_buf r).0 ≡ inr bs → (rest : List ℕ) × (pending r ≡ bs ++ rest)
  pub fill_buf_end : (r : R) → (fill_buf r).0 ≡ inr [] → pending r ≡ []
  pub read_takes :
      (n : ℕ) (r : R) (bs : List ℕ)
      → (read n r).0 ≡ inr bs
      → (length bs ≤ n) × (pending r ≡ bs ++ pending (read n r).1)
  pub read_fails :
      (n : ℕ) (r : R) (e : IoError)
      → (read n r).0 ≡ inl e
      → (lost : List ℕ) × (pending r ≡ lost ++ pending (read n r).1)
  pub read_exact_takes :
      (n : ℕ) (r : R) (bs : List ℕ)
      → (read_exact n r).0 ≡ inr bs
      → (length bs ≡ n) × (pending r ≡ bs ++ pending (read_exact n r).1)
  pub read_exact_fails :
      (n : ℕ) (r : R) (e : IoError)
      → (read_exact n r).0 ≡ inl e
      → (lost : List ℕ) × (pending r ≡ lost ++ pending (read_exact n r).1)

-- `written` is all that the sink has accepted.
pub record Write (W : Type 0) : Type 0 where
  pub write_all : List ℕ → W → (IoError ⊎ Unit {0}) × W
  pub flush : W → (IoError ⊎ Unit {0}) × W
  pub written : W → List ℕ
  pub write_all_appends :
      (bs : List ℕ) (w : W)
      → (write_all bs w).0 ≡ inr tt
      → written (write_all bs w).1 ≡ written w ++ bs
  pub flush_written : (w : W) → written (flush w).1 ≡ written w
