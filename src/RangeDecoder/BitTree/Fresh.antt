-- ===== src/RangeDecoder/BitTree/Fresh.antt =====
-- src/decode/rangecoder.rs, `BitTree::reset`: what it leaves, whatever the tree had learned.
use lzma_no_std_rs.Base.{
  ℕ, ◌^◌, ◌<◌, ◌≡◌, refl, List, [], ◌∷◌, length, replicate, All, length-replicate, replicate-map,
  ok,
}
use lzma_no_std_rs.Base.{for_each}
use lzma_no_std_rs.Util.Log2.{exact_log2-pow}
use lzma_no_std_rs.RangeDecoder.BitTree.{BitTree, new, reset}

-- A tree of `k` bits with nothing learned.
abbrev pub fresh : ℕ → BitTree
fresh k = record { num_bits = k; probs = replicate (2 ^ k) 0x400 }

abbrev pub HasSize : ℕ → BitTree → Type 0
HasSize n t = length t.probs ≡ n

pub new-HasSize : (n : ℕ) → HasSize n (new n)
unfolding new
new-HasSize n = length-replicate n 0

pub reset-fresh :
    {E : Type 0} (k : ℕ) (t : BitTree)
    → k < 64
    → HasSize (2 ^ k) t
    → reset {E = E} (2 ^ k) t ≡ (ok tt, fresh k)
unfolding reset
reset-fresh k t small sized =
    rw (exact_log2-pow k small, replicate-map {B = ℕ} t.probs 0x400, sized) refl

-- The trees of an array.
pub for_each-reset :
    {E : Type 0} (k : ℕ) (ts : List BitTree)
    → k < 64
    → All (HasSize (2 ^ k)) ts
    → for_each (reset {E = E} (2 ^ k)) ts ≡ (ok tt, replicate (length ts) (fresh k))
for_each-reset {E} k [] small sized = refl
for_each-reset {E} k (t ∷ ts) small sized =
    rw (reset-fresh {E = E} k t small sized.0, for_each-reset {E = E} k ts small sized.1) refl
