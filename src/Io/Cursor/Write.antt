-- ===== src/Io/Cursor/Write.antt =====
-- src/io/cursor.rs, `Write for Cursor<&mut [u8]>`: what fits is written over the slice, from the position on.
use lzma_no_std_rs.Base.{
  ℕ, zero, suc, ◌+◌, ◌-◌, ◌≤◌, min, ◌≡◌, refl, sym, ap, ◌∙◌, ◌⊎◌, inr, List, [], ◌∷◌, ◌++◌, arith,
  length, take, drop, append_assoc, length-append, length-take, length-drop,
}
use lzma_no_std_rs.Io.Interface.{IoError}
use lzma_no_std_rs.Io.Cursor.{Cursor, read, set_position}

-- The bytes that fit behind the position.
abbrev pub room_for : List ℕ → Cursor → ℕ
room_for buf c = min (length buf) (length c.inner - min c.pos (length c.inner))

unfoldable pub write : List ℕ → Cursor → (IoError ⊎ ℕ) × Cursor
write buf c =
    let start = min c.pos (length c.inner) in
    let amt = room_for buf c in
    (
      inr amt,
      record {
        inner = take start c.inner ++ (take amt buf ++ drop (start + amt) c.inner);
        pos = c.pos + amt;
      },
    )

unfoldable pub flush : Cursor → (IoError ⊎ Unit {0}) × Cursor
flush c = (inr tt, c)

take-append : (n : ℕ) (xs ys : List ℕ) → length xs ≡ n → take n (xs ++ ys) ≡ xs
take-append zero [] ys e = refl
take-append zero (x ∷ xs) ys e = absurd (omega (arith, e))
take-append (suc n) [] ys e = absurd (omega (arith, e))
take-append (suc n) (x ∷ xs) ys e = ap (◌∷◌ x) (take-append n xs ys (omega (arith, e)))

drop-append : (n : ℕ) (xs ys : List ℕ) → length xs ≡ n → drop n (xs ++ ys) ≡ ys
drop-append zero [] ys e = refl
drop-append zero (x ∷ xs) ys e = absurd (omega (arith, e))
drop-append (suc n) [] ys e = absurd (omega (arith, e))
drop-append (suc n) (x ∷ xs) ys e = drop-append n xs ys (omega (arith, e))

-- The slice with `k` bytes of `buf` over those from `pos` on.
abbrev over : ℕ → ℕ → List ℕ → List ℕ → List ℕ
over pos k buf inner = take pos inner ++ (take k buf ++ drop (pos + k) inner)

length-over :
    (pos k : ℕ) (buf inner : List ℕ)
    → k ≤ length buf
    → pos + k ≤ length inner
    → length (over pos k buf inner) ≡ length inner
length-over pos k buf inner enough inside = omega (
  arith,
  length-append (take pos inner) (take k buf ++ drop (pos + k) inner),
  length-append (take k buf) (drop (pos + k) inner),
  length-take pos inner,
  length-take k buf,
  length-drop (pos + k) inner,
  enough,
  inside,
)

drop-over :
    (pos k : ℕ) (buf inner : List ℕ)
    → k ≤ length buf
    → pos + k ≤ length inner
    → drop (pos + k) (over pos k buf inner) ≡ drop (pos + k) inner
drop-over pos k buf inner enough inside =
    ap (drop (pos + k)) (sym (append_assoc (take pos inner) (take k buf) (drop (pos + k) inner)))
    ∙ drop-append (pos + k) (take pos inner ++ take k buf) (drop (pos + k) inner) (
        omega (
          arith,
          length-append (take pos inner) (take k buf),
          length-take pos inner,
          length-take k buf,
          enough,
          inside,
        ))

-- A write at a position inside the slice returns the smaller of the length of buf and of what is
-- left of the slice, and moves the position by it. The slice keeps its length; a read of as many
-- bytes from the old position gives the first bytes of buf; what stands before the old position and
-- from the new one on is as it was.
pub read-write :
    (buf : List ℕ) (c : Cursor) (k : ℕ)
    → c.pos ≤ length c.inner
    → k ≡ min (length buf) (length c.inner - c.pos)
    → ((write buf c).0 ≡ inr k)
      × ((write buf c).1.pos ≡ c.pos + k)
      × (length (write buf c).1.inner ≡ length c.inner)
      × ((read k (set_position c.pos (write buf c).1)).0 ≡ inr (take k buf))
      × (take c.pos (write buf c).1.inner ≡ take c.pos c.inner)
      × (drop (c.pos + k) (write buf c).1.inner ≡ drop (c.pos + k) c.inner)
unfolding write read set_position
read-write buf c k inside e =
    let here : min c.pos (length c.inner) ≡ c.pos = omega (arith, inside) in
    let fitted : room_for buf c ≡ k = omega (arith, inside, e) in
    let enough : k ≤ length buf = omega (arith, e) in
    let fits : c.pos + k ≤ length c.inner = omega (arith, e, inside) in
    let len : length (over c.pos k buf c.inner) ≡ length c.inner =
      length-over c.pos k buf c.inner enough fits in
    let again : min c.pos (length (over c.pos k buf c.inner)) ≡ c.pos =
      omega (arith, len, inside) in
    let first : length (take c.pos c.inner) ≡ c.pos =
      omega (arith, length-take c.pos c.inner, inside) in
    let part : length (take k buf) ≡ k = omega (arith, length-take k buf, enough) in
    let tail : List ℕ = take k buf ++ drop (c.pos + k) c.inner in
    rw (fitted, here)
      (
        refl,
        refl,
        len,
        ap inr (
            ap (λ n. take k (drop n (over c.pos k buf c.inner))) again
            ∙ ap (take k) (drop-append c.pos (take c.pos c.inner) tail first)
            ∙ take-append k (take k buf) (drop (c.pos + k) c.inner) part),
        take-append c.pos (take c.pos c.inner) tail first,
        drop-over c.pos k buf c.inner enough fits,
      )
