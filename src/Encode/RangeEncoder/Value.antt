-- ===== src/Encode/RangeEncoder/Value.antt =====
-- src/encode/rangecoder.rs: the number that the bytes written, the bytes held back and `low` stand for.
use lzma_no_std_rs.Base.{ℕ, ◌+◌, ◌-◌, ◌*◌, ◌^◌, ◌≤◌, ◌<◌, ◌≡◌, ◌⊎◌, inr, List, ◌++◌, length, All}
use lzma_no_std_rs.Io.Interface.{Write}
use lzma_no_std_rs.Io.Ext.Bytes.{IsByte}
use lzma_no_std_rs.Encode.Number.{num, place}
use lzma_no_std_rs.Encode.RangeEncoder.{RangeEncoder}

-- A sink that takes all that it is given.
abbrev pub IsPatient : {W : Type 0} → Write W → Type 0
IsPatient {W} wr = (bs : List ℕ) (w : W) → (wr.write_all bs w).0 ≡ inr tt

module _ {W : Type 0} ⦃wr : Write W⦄ where
  -- Behind `before` the encoder has written `bs`; with the byte in `cache`, the `cachesz - 1` bytes of
  -- 255 behind it and the four bytes of `low` these are `count` bytes that stand for `base`. A range of
  -- `top` above `base` is still open, and a carry from it finds a place.
  pub record Holds (before bs : List ℕ) (base count top : ℕ) (e : RangeEncoder W) : Type 0 where
    pub written : wr.written e.stream ≡ before ++ bs
    pub bytes : All IsByte bs
    pub held : 1 ≤ e.cachesz
    pub counted : count ≡ length bs + e.cachesz + 4
    pub value :
        base + 2 ^ 32 ≡ (num bs * 256 + e.cache + 1) * place (e.cachesz - 1) * 2 ^ 32 + e.low
    pub cache_fits : e.cache < 256
    pub room : e.low + top ≤ 2 ^ 33
    pub carry : (e.cache < 255) ⊎ (e.low + top ≤ 2 ^ 32)
