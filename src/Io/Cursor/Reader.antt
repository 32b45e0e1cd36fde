-- ===== src/Io/Cursor/Reader.antt =====
-- The cursor of src/io/cursor.rs is a reader: the laws of `BufRead` hold of it.
use lzma_no_std_rs.Base.{
  ℕ, zero, suc, ◌+◌, ◌≤◌, min, ◌≡◌, refl, sym, ap, ◌∙◌, inl, inr, List, [], ◌∷◌, ◌++◌, arith,
  length, take, drop, take-append-drop, length-take, length-drop, append-nil, ltb, ltb→le,
  Bool-cases,
}
use lzma_no_std_rs.Io.Interface.{IoError, BufRead}
use lzma_no_std_rs.Io.Cursor.{Cursor, rest, fill_buf, read, read_exact}

drop-drop : (a b : ℕ) (xs : List ℕ) → drop a (drop b xs) ≡ drop (b + a) xs
drop-drop a zero xs = ap (λ k. drop k xs) {y = 0 + a} (omega arith)
drop-drop a (suc b) [] = drop-nil a ∙ sym (drop-nil (suc b + a))
  where
    drop-nil : (n : ℕ) → ◌≡◌ {A = List ℕ} (drop n []) []
    drop-nil zero = refl
    drop-nil (suc n) = refl
drop-drop a (suc b) (x ∷ xs) =
    let e : suc b + a ≡ suc (b + a) = omega arith in rw e (drop-drop a b xs)

drop_past : (n : ℕ) (xs : List ℕ) → length xs ≤ n → drop n xs ≡ []
drop_past zero [] h = refl
drop_past zero (x ∷ xs) h = absurd (omega arith)
drop_past (suc n) [] h = refl
drop_past (suc n) (x ∷ xs) h = drop_past n xs (omega arith)

-- Moving on by what was taken leaves the rest of the rest.
rest_moved :
    (c : Cursor) (k : ℕ)
    → k ≤ length (rest c)
    → rest (record c { pos = c.pos + k }) ≡ drop k (rest c)
rest_moved c k h =
    let e : min (c.pos + k) (length c.inner) ≡ min c.pos (length c.inner) + k =
      omega (arith, length-drop (min c.pos (length c.inner)) c.inner) in
    rw e (sym (drop-drop k (min c.pos (length c.inner)) c.inner))

pub fill_buf_pending : (c : Cursor) → rest (fill_buf c).1 ≡ rest c
unfolding fill_buf
fill_buf_pending c = refl

pub fill_buf_prefix :
    (c : Cursor) (bs : List ℕ) → (fill_buf c).0 ≡ inr bs → (t : List ℕ) × (rest c ≡ bs ++ t)
unfolding fill_buf
fill_buf_prefix c bs h = ([], rw append-nil (cc))

pub fill_buf_end : (c : Cursor) → (fill_buf c).0 ≡ inr [] → rest c ≡ []
unfolding fill_buf
fill_buf_end c h = cc

pub read_takes :
    (n : ℕ) (c : Cursor) (bs : List ℕ)
    → (read n c).0 ≡ inr bs
    → (length bs ≤ n) × (rest c ≡ bs ++ rest (read n c).1)
unfolding read
read_takes n c bs h =
    let got = take n (rest c) in
    let e : got ≡ bs = cc in
    let len : length got ≡ min n (length (rest c)) = length-take n (rest c) in
    (
      rw (← e) (omega (arith, len)),
      rw (← e, rest_moved c (length got) (omega (arith, len))) (split n (rest c)),
    )
  where
    split : (n : ℕ) (xs : List ℕ) → xs ≡ take n xs ++ drop (length (take n xs)) xs
    split zero xs = refl
    split (suc n) [] = refl
    split (suc n) (x ∷ xs) = ap (◌∷◌ x) (split n xs)

pub read_fails :
    (n : ℕ) (c : Cursor) (e : IoError)
    → (read n c).0 ≡ inl e
    → (lost : List ℕ) × (rest c ≡ lost ++ rest (read n c).1)
unfolding read
read_fails n c e h = cc

pub read_exact_takes :
    (n : ℕ) (c : Cursor) (bs : List ℕ)
    → (read_exact n c).0 ≡ inr bs
    → (length bs ≡ n) × (rest c ≡ bs ++ rest (read_exact n c).1)
unfolding read_exact
read_exact_takes n c bs h = elim (Bool-cases (ltb (length (rest c)) n)) [
  | inl short ↦ let no_bytes = rw short at h in cc
  | inr enough ↦
      let e : take n (rest c) ≡ bs = let got = rw enough at h in cc in
      let fits : n ≤ length (rest c) = ltb→le _ _ enough in
      rw (enough, ← e, rest_moved c n fits)
        (omega (arith, length-take n (rest c)), sym (take-append-drop n (rest c)))
]

pub read_exact_fails :
    (n : ℕ) (c : Cursor) (e : IoError)
    → (read_exact n c).0 ≡ inl e
    → (lost : List ℕ) × (rest c ≡ lost ++ rest (read_exact n c).1)
unfolding read_exact
read_exact_fails n c e h = elim (Bool-cases (ltb (length (rest c)) n)) [
  | inl short ↦ ([], rw short)
  | inr enough ↦ let no_error = rw enough at h in cc
]

instance abbrev pub cursor_reader : BufRead Cursor
cursor_reader = record {
  fill_buf = fill_buf;
  read = read;
  read_exact = read_exact;
  pending = rest;
  fill_buf_pending = fill_buf_pending;
  fill_buf_prefix = fill_buf_prefix;
  fill_buf_end = fill_buf_end;
  read_takes = read_takes;
  read_fails = read_fails;
  read_exact_takes = read_exact_takes;
  read_exact_fails = read_exact_fails;
}
