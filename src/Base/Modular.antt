-- ===== src/Base/Modular.antt =====
-- Remainders by a variable, as a ring of `d` places uses them.
use Prim.Native.Nat.{ℕ, ◌+◌, ◌-◌, ◌*◌, ◌/◌, ◌%◌, ◌≤◌, ◌<◌}
use mathlib.Core.Path.{◌≡◌, ap, ◌∙◌, sym}
use mathlib.Core.Logic.{◌≢◌}
use native.Mathlib.Nat.{
  mod-eq_of_lt, mod-add-mod, mod-lt, mod-eq-sub-mod, add-mod_right, add-mul-mod_self_right,
  div-add-mod',
}
use native.Mathlib.Decide.{dec_lt}
use native.Mathlib.Omega.{arith}

pub mod-suc_room : (n d : ℕ) → 0 < d → n % d + 1 ≢ d → (n + 1) % d ≡ n % d + 1
mod-suc_room n d p h = grind arith

pub mod-suc_full : (n d : ℕ) → n % d + 1 ≡ d → (n + 1) % d ≡ 0
mod-suc_full n d h = grind arith

-- Fewer than `d` steps round the ring do not come back to the start.
around_ne : (r t d : ℕ) → r < d → 0 < t → t < d → (r + t) % d ≢ r
around_ne r t d hr ht hd = elim (dec_lt (r + t) d) [
  | yes p ↦ omega (arith, mod-eq_of_lt p)
  | no p ↦ omega (
    arith,
    mod-eq-sub-mod {n = r + t} {m = d} (omega arith),
    mod-eq_of_lt {n = r + t - d} {m = d} (omega arith),
  )
]

pub mod-ne : (j n d : ℕ) → j < n → n < j + d → j % d ≢ n % d
mod-ne j n d h k e =
    let apart : (j + (n - j)) % d ≡ n % d = ap (λ m. m % d) {y = n} (omega arith) in
    around_ne (j % d) (n - j) d (mod-lt j (omega arith)) (omega arith) (omega arith)
      (mod-add-mod j d (n - j) ∙ apart ∙ sym e)

-- Going back `k` places from the place of `n` comes to the place of `n - k`.
pub mod-back : (n d k : ℕ) → 0 < d → k ≤ n → k ≤ d → (d + n % d - k) % d ≡ (n - k) % d
mod-back n d k p h l = elim (dec_lt (n % d) k) [
  | no enough ↦
      ap (λ m. m % d) {y = n % d - k + d} (omega arith)
      ∙ add-mod_right (n % d - k) d
      ∙ sym (add-mul-mod_self_right (n % d - k) (n / d) d)
      ∙ ap (λ m. m % d) (omega (arith, div-add-mod' n d))
  | yes short ↦
      let one : 1 ≤ n / d = grind (arith, div-add-mod' n d) in
      let less : (n / d - 1) * d + d ≡ n / d * d = grind arith in
      sym (add-mul-mod_self_right (d + n % d - k) (n / d - 1) d)
      ∙ ap (λ m. m % d) (omega (arith, div-add-mod' n d, less))
]
