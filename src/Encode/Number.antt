-- ===== src/Encode/Number.antt =====
-- Bytes as the digits of a number, the highest first: what the output of src/encode/rangecoder.rs stands for.
use lzma_no_std_rs.Base.{
  ℕ, zero, suc, ◌+◌, ◌*◌, ◌≡◌, refl, ap, ◌∙◌, List, [], ◌∷◌, ◌++◌, arith, take, drop, replicate,
}

abbrev pub num_from : ℕ → List ℕ → ℕ
num_from acc [] = acc
num_from acc (b ∷ bs) = num_from (acc * 256 + b) bs

abbrev pub num : List ℕ → ℕ
num = num_from 0

pub num_from-append :
    (acc : ℕ) (xs ys : List ℕ) → num_from acc (xs ++ ys) ≡ num_from (num_from acc xs) ys
num_from-append acc [] ys = refl
num_from-append acc (x ∷ xs) ys = num_from-append (acc * 256 + x) xs ys

-- 256 ^ k, by its recursion.
abbrev pub place : ℕ → ℕ
place zero = 1
place (suc k) = 256 * place k

-- A run of 255, and of 0.
pub num_from-all_ones : (k acc : ℕ) → num_from acc (replicate k 255) + 1 ≡ (acc + 1) * place k
num_from-all_ones zero acc = omega arith
num_from-all_ones (suc k) acc = num_from-all_ones k (acc * 256 + 255) ∙ grind arith

pub num_from-zeros : (k acc : ℕ) → num_from acc (replicate k 0) ≡ acc * place k
num_from-zeros zero acc = omega arith
num_from-zeros (suc k) acc = num_from-zeros k (acc * 256 + 0) ∙ grind arith

-- One byte more of a prefix.
pub num-take_suc :
    (n acc : ℕ) (xs ys : List ℕ) (b : ℕ)
    → drop n xs ≡ b ∷ ys
    → num_from acc (take (n + 1) xs) ≡ num_from acc (take n xs) * 256 + b
num-take_suc zero acc [] ys b h = cc
num-take_suc zero acc (x ∷ xs) ys b h = ap (λ (v : ℕ). acc * 256 + v) (head h)
  where
    head : x ∷ xs ≡ b ∷ ys → x ≡ b
    head e = cc
num-take_suc (suc n) acc [] ys b h = cc
num-take_suc (suc n) acc (x ∷ xs) ys b h =
    let e : suc n + 1 ≡ suc (n + 1) = omega arith in rw e (num-take_suc n (acc * 256 + x) xs ys b h)
