-- ===== src/Lzma/Step/Rep.antt =====
-- src/decode/lzma.rs, `process_next_inner`: the four last distances are kept with the latest in front.
use lzma_no_std_rs.Base.{
  ℕ, zero, suc, ◌≤◌, ◌<◌, ◌≡◌, refl, sym, ap, ◌∙◌, List, [], ◌∷◌, ◌++◌, append_assoc, arith, length,
  get_or, set, take, drop, length-set,
}
use lzma_no_std_rs.Lzma.Step.{shift_rep, move_to_front, make_room}

take-suc-get_or :
    (xs : List ℕ) (i : ℕ) → i < length xs → take (suc i) xs ≡ take i xs ++ get_or xs i 0 ∷ []
take-suc-get_or [] i h = absurd (omega arith)
take-suc-get_or (x ∷ xs) zero h = refl
take-suc-get_or (x ∷ xs) (suc i) h = ap (◌∷◌ x) (take-suc-get_or xs i (omega arith))

drop-set : (xs : List ℕ) (i v : ℕ) → i < length xs → drop i (set xs i v) ≡ v ∷ drop (suc i) xs
drop-set [] i v h = absurd (omega arith)
drop-set (x ∷ xs) zero v h = refl
drop-set (x ∷ xs) (suc i) v h = drop-set xs i v (omega arith)

take-set_beyond : (xs : List ℕ) (n v : ℕ) → take n (set xs (suc n) v) ≡ take n xs
take-set_beyond xs zero v = refl
take-set_beyond [] (suc n) v = refl
take-set_beyond (x ∷ xs) (suc n) v = ap (◌∷◌ x) (take-set_beyond xs n v)

-- The distances before `idx` move back by one place, over the one at `idx`.
shift_rep_lem :
    (idx x : ℕ) (xs : List ℕ)
    → idx ≤ length xs
    → shift_rep idx (x ∷ xs) ≡ x ∷ take idx (x ∷ xs) ++ drop idx xs
unfolding shift_rep
shift_rep_lem zero x xs h = refl
shift_rep_lem (suc idx) x xs h =
    let v : ℕ = get_or (x ∷ xs) idx 0 in
    rw
      (shift_rep_lem idx x (set xs idx v) (omega (arith, length-set xs idx v)), drop-set xs idx v h)
      (ap (λ t. x ∷ t ++ v ∷ drop (suc idx) xs) (take-set_beyond (x ∷ xs) idx v)
        ∙ ap (◌∷◌ x) (
            sym (append_assoc (take idx (x ∷ xs)) (v ∷ []) (drop (suc idx) xs))
            ∙ ap (λ t. t ++ drop (suc idx) xs) (sym (take-suc-get_or (x ∷ xs) idx (omega arith)))))

-- Taking the distance at an index inside the list of the last distances puts it in front and leaves
-- the others in their order.
pub move_to_front_lem :
    (idx : ℕ) (rep : List ℕ)
    → idx < length rep
    → move_to_front idx rep ≡ get_or rep idx 0 ∷ take idx rep ++ drop (suc idx) rep
unfolding move_to_front
move_to_front_lem idx [] h = absurd (omega arith)
move_to_front_lem idx (x ∷ xs) h = rw (shift_rep_lem idx x xs (omega arith)) refl

-- On four last distances, making room and storing a new distance in front drops the oldest one and
-- keeps the other three in their order.
pub make_room_lem :
    (rep : List ℕ) (d : ℕ) → length rep ≡ 4 → set (make_room rep) 0 d ≡ d ∷ take 3 rep
unfolding make_room
make_room_lem (a ∷ b ∷ c ∷ e ∷ []) d h = refl
make_room_lem [] d h = absurd (omega arith)
make_room_lem (a ∷ []) d h = absurd (omega arith)
make_room_lem (a ∷ b ∷ []) d h = absurd (omega arith)
make_room_lem (a ∷ b ∷ c ∷ []) d h = absurd (omega arith)
make_room_lem (a ∷ b ∷ c ∷ e ∷ f ∷ r) d h = absurd (omega arith)
