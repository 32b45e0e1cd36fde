-- ===== src/Io/Vec.antt =====
-- The standard library's `Vec<u8>` as a sink: it accepts all that is written to it.
use lzma_no_std_rs.Base.{ℕ, refl, inr, List, ◌++◌}
use lzma_no_std_rs.Io.Interface.{Write}

instance abbrev pub vec_writer : Write (List ℕ)
vec_writer = record {
  write_all = λ bs w. (inr tt, w ++ bs);
  flush = λ w. (inr tt, w);
  written = λ w. w;
  write_all_appends = λ bs w h. refl;
  flush_written = λ w. refl;
}
