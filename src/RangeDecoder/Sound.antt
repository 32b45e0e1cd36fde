-- ===== src/RangeDecoder/Sound.antt =====
-- How the methods of src/decode/rangecoder.rs compose: what each keeps of the decoder and of the
-- probabilities beside it.
use lzma_no_std_rs.Base.{
  ℕ, ◌^◌, ◌≤◌, ◌<◌, ◌≡◌, ◌∙◌, Bool, true, false, arith, if◌then◌else◌, length, All, M, ◌>>=◌,
  return, map_err, Post, next-Post, Post-mono, put_back-Post, relabel-Post,
}
use lzma_no_std_rs.Base.{at_elem, at_elem-Post, on_field}
use lzma_no_std_rs.Io.Interface.{BufRead}
use lzma_no_std_rs.RangeDecoder.{RangeDecoder, decode_bit, decode_bit_at, parse_bit_tree}
use lzma_no_std_rs.RangeDecoder.Safe.{
  IsProb, Ready, HasInput, decode_bit-Post, AfterBit, StillBytes, weight,
}
use lzma_no_std_rs.RangeDecoder.Trees.{
  IsTable, ReadyAt, FailedAt, decode_bit_at-Post, parse_bit_tree-Post,
}

abbrev pub Any : {A : Type 0} → A → Type 0
Any a = Unit {0}

-- `m` does not panic, keeps the decoder ready below the weight `w` and `P` of what stands beside it, and
-- returns what `Q` says; if the reader fails, `P` is kept, too.
abbrev pub Sound :
    {R E T A : Type 0} ⦃rd : BufRead R⦄
    → ℕ
    → (T → Type 0)
    → (A → Type 0)
    → M E (RangeDecoder R × T) A
    → Type 0
Sound {R} {E} {T} w P Q m =
    (s : RangeDecoder R × T)
    → Ready w s.0
    → P s.1
    → Post (λ a u. Ready w u.0 × P u.1 × Q a) (λ u. HasInput u.0 × P u.1) (m s)

module _ {R : Type 0} ⦃rd : BufRead R⦄ (w : ℕ) where
  pub >>=-Sound :
      {E T A B : Type 0} (P : T → Type 0) (Q : A → Type 0) (Q' : B → Type 0)
      (m : M E (RangeDecoder R × T) A) (f : A → M E (RangeDecoder R × T) B)
      → Sound w P Q m
      → ((a : A) → Q a → Sound w P Q' (f a))
      → Sound w P Q' (m >>= f)
  >>=-Sound P Q Q' m f h k s r p =
      next-Post (λ a u. Ready w u.0 × P u.1 × Q a) _ (λ u. HasInput u.0 × P u.1) (m s) f (h s r p)
        (λ a u q. k a q.2 u q.0 q.1)

  pub return-Sound :
      (E : Type 0) {T A : Type 0} (P : T → Type 0) (Q : A → Type 0) (a : A)
      → Q a
      → Sound w P Q (return {E = E} {S = RangeDecoder R × T} a)
  return-Sound E P Q a q s r p = (r, p, q)

  pub map_err-Sound :
      {E F T A : Type 0} (P : T → Type 0) (Q : A → Type 0) (f : E → F)
      (m : M E (RangeDecoder R × T) A)
      → Sound w P Q m
      → Sound w P Q (map_err f m)
  map_err-Sound P Q f m h s r p =
      relabel-Post (λ a u. Ready w u.0 × P u.1 × Q a) (λ u. HasInput u.0 × P u.1) f (m s) (h s r p)

  pub if-Sound :
      {E T A : Type 0} (P : T → Type 0) (Q : A → Type 0) (b : Bool)
      (m n : M E (RangeDecoder R × T) A)
      → Sound w P Q m
      → Sound w P Q n
      → Sound w P Q (if b then m else n)
  if-Sound P Q true m n h k = h
  if-Sound P Q false m n h k = k

  pub on_field-Sound :
      {E S T A : Type 0} (P : S → Type 0) (P' : T → Type 0) (Q : A → Type 0) (get : S → T)
      (put : T → S → S) (m : M E (RangeDecoder R × T) A)
      → ((s : S) → P s → P' (get s))
      → ((s : S) (t : T) → P s → P' t → P (put t s))
      → Sound w P' Q m
      → Sound w P Q (on_field get put m)
  on_field-Sound P P' Q get put m of back h s r p =
      put_back-Post (λ a u. Ready w u.0 × P u.1 × Q a) (λ u. HasInput u.0 × P u.1)
        (λ u s'. (u.0, put u.1 s'.1)) s (m (s.0, get s.1))
        (Post-mono (λ a u. Ready w u.0 × P' u.1 × Q a) _ (λ u. HasInput u.0 × P' u.1) _
          (m (s.0, get s.1)) (h (s.0, get s.1) r (of s.1 p))
          (λ a u q. (q.0, back s.1 u.1 p q.1, q.2)) (λ u q. (q.0, back s.1 u.1 p q.1)))

  pub at_elem-Sound :
      {E T A : Type 0} (P : T → Type 0) (Q : A → Type 0) (n i : ℕ) (m : M E (RangeDecoder R × T) A)
      → i < n
      → Sound w P Q m
      → Sound w (λ ts. All P ts × (length ts ≡ n)) Q (at_elem i m)
  at_elem-Sound P Q n i m below h s r (all, sized) =
      Post-mono (λ a u. Q a × Ready w u.0 × All P u.1 × (length u.1 ≡ length s.1)) _
        (λ u. HasInput u.0 × All P u.1 × (length u.1 ≡ length s.1)) _ (at_elem i m s)
        (at_elem-Post (Ready w) HasInput P Q i m s all (omega (arith, below, sized)) (λ t p.
          Post-mono (λ a u. Ready w u.0 × P u.1 × Q a) _ (λ u. HasInput u.0 × P u.1) _ (m (s.0, t))
            (h (s.0, t) r p) (λ a u q. (q.2, q.0, q.1)) (λ u q. q)))
        (λ a u q. (q.1, (q.2, q.3 ∙ sized), q.0)) (λ u q. (q.0, (q.1, q.2 ∙ sized)))

  pub decode_bit_at-Sound :
      (n i : ℕ) (update : Bool) → i < n → Sound w (IsTable n) Any (decode_bit_at {R = R} i update)
  decode_bit_at-Sound n i update below s r p =
      Post-mono (λ _. ReadyAt w n) _ (FailedAt n) _ (decode_bit_at i update s)
        (decode_bit_at-Post w n i update s (r, p) below) (λ a u q. (q.0, q.1, tt)) (λ u q. q)

  pub parse_bit_tree-Sound :
      (num_bits : ℕ) (update : Bool)
      → 2 ^ num_bits ≤ 2 ^ 31
      → Sound w
          (IsTable (2 ^ num_bits))
          (λ v. v < 2 ^ num_bits)
          (parse_bit_tree {R = R} num_bits update)
  parse_bit_tree-Sound num_bits update small s r p =
      Post-mono _ _ (FailedAt (2 ^ num_bits)) _ (parse_bit_tree num_bits update s)
        (parse_bit_tree-Post w num_bits update s small (r, p)) (λ v u q. (q.0.0, q.0.1, q.1))
        (λ u q. q)

  pub mono-Sound :
      {E T A : Type 0} (P : T → Type 0) (Q Q' : A → Type 0) (m : M E (RangeDecoder R × T) A)
      → Sound w P Q m
      → ((a : A) → Q a → Q' a)
      → Sound w P Q' m
  mono-Sound P Q Q' m h k s r p =
      Post-mono (λ a u. Ready w u.0 × P u.1 × Q a) _ (λ u. HasInput u.0 × P u.1) _ (m s) (h s r p)
        (λ a u q. (q.0, q.1, k a q.2)) (λ u q. q)

  pub decode_bit-Sound : (update : Bool) → Sound w IsProb Any (decode_bit {R = R} update)
  decode_bit-Sound update s r p =
      Post-mono (λ _. AfterBit (weight s.0)) _ StillBytes _ (decode_bit update s)
        (decode_bit-Post update s.0 s.1 r.0 p)
        (λ b u a. ((a.0.0, omega (arith, a.0.1, r.1)), a.1, tt)) (λ u a. a)
