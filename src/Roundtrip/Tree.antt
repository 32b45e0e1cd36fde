-- ===== src/Roundtrip/Tree.antt =====
-- src/decode/rangecoder.rs, `parse_bit_tree`: the code of a number of `k` bits, the first bit first, each at
-- the place of the tree that the bits before it lead to.
use lzma_no_std_rs.Base.{
  ℕ, zero, suc, ◌+◌, ◌-◌, ◌*◌, ◌^◌, ◌≤◌, ◌<◌, ◌≡◌, sym, ap, ◌∙◌, subst, inl, inr, Bool, true, false,
  List, arith, leb, leb→le, if◌then◌else◌, Bool-cases, to_num, All, M, Post-mono, put_back-Post,
}
use lzma_no_std_rs.Base.{on_field, shift_more}
use native.Mathlib.Nat.{pow-suc}
use lzma_no_std_rs.Io.Interface.{IoError, BufRead}
use lzma_no_std_rs.Io.Ext.Bytes.{IsByte}
use lzma_no_std_rs.RangeDecoder.{RangeDecoder, decode_bit, decode_bit_at, tree_loop}
use lzma_no_std_rs.RangeDecoder.Safe.{IsProb}
use lzma_no_std_rs.RangeDecoder.Trees.{IsIndex, IsIndex-step, step_index, step_index_lem}
use lzma_no_std_rs.Roundtrip.Decoding.{IsReliable}
use lzma_no_std_rs.Roundtrip.Code.{
  Code, IsCode, bit_code, bit_code-IsCode, then_code, then_code-IsCode, done-IsCode, IsTable,
  at_code, at_code-IsCode,
}
use lzma_no_std_rs.Roundtrip.Reads.{
  Gives, Reads, decode_bit-Reads, return-Reads, >>=-Reads, at_elem-Reads,
}

-- The code of a field.
abbrev pub field_code : {S T : Type 0} → (S → T) → (T → S → S) → Code T → Code S
field_code get put f x = let y = f (x.0, get x.1) in (y.0, put y.1 x.1)

module _ {S T : Type 0} (OK : S → Type 0) (OK' : T → Type 0) (get : S → T) (put : T → S → S)
    (has : (s : S) → OK s → OK' (get s))
    (keeps : (t : T) (s : S) → OK' t → OK s → OK (put t s)) where
  pub field_code-IsCode : (f : Code T) → IsCode OK' f → IsCode OK (field_code get put f)
  field_code-IsCode f c = record {
    wide = λ s t wide good. c.wide s (get t) wide (has t good);
    tables = λ s t wide good. keeps (f (s, get t)).1 t (c.tables s (get t) wide (has t good)) good;
    back = λ P s t back wide good h. c.back P s (get t) back wide (has t good) h;
  }

  pub on_field-Reads :
      {R : Type 0} ⦃rd : BufRead R⦄ (reliable : IsReliable rd) (all : List ℕ)
      (bytes : All IsByte all) {E A : Type 0} (f : Code T) (v : A) (m : M E (RangeDecoder R × T) A)
      → Reads reliable all bytes OK' f v m
      → Reads reliable all bytes OK (field_code get put f) v (on_field get put m)
  on_field-Reads reliable all bytes f v m r s t c wide good h track =
      put_back-Post (Gives reliable all bytes v (field_code get put f (s, t))) (λ _. ⊥)
        (λ u s'. (u.0, put u.1 s'.1)) (c, t) (m (c, get t))
        (Post-mono (Gives reliable all bytes v (f (s, get t))) _ (λ _. ⊥) _ (m (c, get t))
          (r s (get t) c wide (has t good) h track) (λ _ u q. (q.0, q.1, ap (λ x. put x t) q.2))
          (λ u x. x))

abbrev pub first_bit : ℕ → ℕ → Bool
first_bit k n = leb (2 ^ k) n

abbrev pub later_bits : ℕ → ℕ → ℕ
later_bits k n = if leb (2 ^ k) n then n - 2 ^ k else n

abbrev pub tree_code : ℕ → ℕ → ℕ → Code (List ℕ)
tree_code zero n tmp = λ x. x
tree_code (suc k) n tmp =
    then_code (at_code tmp 0 (bit_code (first_bit k n)))
      (tree_code k (later_bits k n) (tmp * 2 + to_num (first_bit k n)))

later_bits-fits : (k n : ℕ) → n < 2 ^ suc k → later_bits k n < 2 ^ k
later_bits-fits k n fits = elim (Bool-cases (leb (2 ^ k) n)) [
  | inl one ↦ rw one (omega (arith, fits, pow-suc 2 k, leb→le _ _ one))
  | inr zero_ ↦ rw zero_ (below zero_)
]
  where
    below : leb (2 ^ k) n ≡ false → n < 2 ^ k
    below e = ground arith

sum_of_bits :
    (k n tmp : ℕ)
    → (tmp * 2 + to_num (first_bit k n)) * 2 ^ k + later_bits k n ≡ tmp * 2 ^ suc k + n
sum_of_bits k n tmp = elim (Bool-cases (leb (2 ^ k) n)) [
  | inl one ↦
      let least : 2 ^ k ≤ n = leb→le _ _ one in
      let back : 2 ^ k + (n - 2 ^ k) ≡ n = omega (arith, least) in
      rw one (one_more (2 ^ k) (n - 2 ^ k) ∙ ap (λ m. 2 * (tmp * 2 ^ k) + m) back ∙ double)
  | inr zero_ ↦ rw zero_ (same (2 ^ k) n ∙ double)
]
  where
    double : 2 * (tmp * 2 ^ k) + n ≡ tmp * 2 ^ suc k + n
    double = ap (λ m. m + n) (sym (shift_more tmp k))

    one_more : (p r : ℕ) → (tmp * 2 + 1) * p + r ≡ 2 * (tmp * p) + (p + r)
    one_more p r = grind arith

    same : (p r : ℕ) → (tmp * 2 + 0) * p + r ≡ 2 * (tmp * p) + r
    same p r = grind arith

module _ (size : ℕ) (small : size ≤ 2 ^ 31) where
  abbrev IsPlaces : List ℕ → Type 0
  IsPlaces = IsTable size IsProb

  next_IsIndex :
      (k tmp : ℕ) (b : Bool)
      → IsIndex size (suc k) tmp
      → (tmp < size) × (step_index tmp b ≡ tmp * 2 + to_num b) × IsIndex size k (tmp * 2 + to_num b)
  next_IsIndex k tmp b at =
      let n = IsIndex-step size k tmp b small at in
      let same = step_index_lem tmp size b small n.0 in (n.0, same, subst (IsIndex size k) same n.1)

  pub tree_code-IsCode : (k n tmp : ℕ) → IsIndex size k tmp → IsCode IsPlaces (tree_code k n tmp)
  tree_code-IsCode zero n tmp at = done-IsCode IsPlaces
  tree_code-IsCode (suc k) n tmp at =
      let b : Bool = first_bit k n in
      let on = next_IsIndex k tmp b at in
      then_code-IsCode IsPlaces _ (tree_code k (later_bits k n) (tmp * 2 + to_num b))
        (at_code-IsCode IsProb size tmp 0 (bit_code b) on.0 (bit_code-IsCode b))
        (tree_code-IsCode k (later_bits k n) (tmp * 2 + to_num b) on.2)

  module _ {R : Type 0} ⦃rd : BufRead R⦄ (reliable : IsReliable rd) (all : List ℕ)
      (bytes : All IsByte all) where
    pub tree_loop-Reads :
        (k n tmp : ℕ)
        → n < 2 ^ k
        → IsIndex size k tmp
        → Reads reliable all bytes IsPlaces
            (tree_code k n tmp)
            (tmp * 2 ^ k + n)
            (tree_loop true k tmp)
    unfolding tree_loop decode_bit_at
    tree_loop-Reads zero n tmp fits at =
        let last : tmp * 2 ^ 0 + n ≡ tmp = omega (arith, fits) in
        rw last (return-Reads reliable all bytes IoError IsPlaces tmp)
    tree_loop-Reads (suc k) n tmp fits at =
        let b : Bool = first_bit k n in
        let rest : ℕ = later_bits k n in
        let on = next_IsIndex k tmp b at in
        rw (← sum_of_bits k n tmp) (
          >>=-Reads reliable all bytes IsPlaces (at_code tmp 0 (bit_code b))
            (tree_code k rest (tmp * 2 + to_num b)) b ((tmp * 2 + to_num b) * 2 ^ k + rest)
            (decode_bit_at tmp true) (λ bit. tree_loop true k (step_index tmp bit))
            (at_code-IsCode IsProb size tmp 0 (bit_code b) on.0 (bit_code-IsCode b))
            (tree_code-IsCode k rest (tmp * 2 + to_num b) on.2)
            (at_elem-Reads reliable all bytes IsProb size tmp 0 (bit_code b) b (decode_bit true)
              on.0 (decode_bit-Reads reliable all bytes b))
            (rw on.1 (tree_loop-Reads k rest (tmp * 2 + to_num b) (later_bits-fits k n fits) on.2)))
