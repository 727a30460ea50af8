-- ===== src/Prelude/Powers.antt =====
-- Powers, and remainders and quotients by a variable modulus.
use Prim.Native.Nat.{ℕ, zero, suc, ◌+◌, ◌*◌, ◌/◌, ◌%◌, ◌^◌, ◌≤◌, ◌<◌}
use mathlib.Core.Path.{◌≡◌, refl, sym, ap, ◌∙◌}
use mathlib.Core.Logic.{◌⊎◌, inl, inr}
use Prim.Native.Nat.add
use native.Mathlib.Nat.{mod-lt, pow-zero, div-eq_of_lt, add-mul-div_left, mod-add-div}
use native.Mathlib.Nat.{pow-suc, add-mul-mod_self_left, mod-eq_of_lt}
use native.Mathlib.Omega.{arith}

pub pow-suc-mul : (b n c : ℕ) → b ^ suc n * c ≡ b * (b ^ n * c)
pow-suc-mul b n c = omega (arith, ap (λ (t : ℕ). t * c) (pow-suc b n))

pub pow-add : (b m n : ℕ) → b ^ (m + n) ≡ b ^ m * b ^ n
pow-add b zero n =
    omega (
      arith,
      pow-zero b,
      ap (λ (t : ℕ). b ^ t) (add.zero n),
      ap (λ (t : ℕ). t * b ^ n) (pow-zero b),
    )
pow-add b (suc m) n = omega (
  arith,
  ap (λ (t : ℕ). b ^ t) (add.suc m n),
  pow-suc b (m + n),
  pow-suc b m,
  ap (λ (t : ℕ). t * b) (pow-add b m n),
  ap (λ (t : ℕ). t * b ^ n) (pow-suc b m),
)

-- The remainder is found from any multiple that brings a number below the modulus.
pub mod_unique : (n m q r : ℕ) → n ≡ r + m * q → r < m → n % m ≡ r
mod_unique n m q r e h = ap (λ (t : ℕ). t % m) e ∙ add-mul-mod_self_left r m q ∙ mod-eq_of_lt h

pub div_unique : (n m q r : ℕ) → n ≡ r + m * q → r < m → n / m ≡ q
div_unique n m q r e h = grind (arith, add-mul-div_left, div-eq_of_lt)

pub mul-mod-mod : (a b m : ℕ) → (a * (b % m)) % m ≡ (a * b) % m
mul-mod-mod a b m =
    let e : a * b ≡ a * (b % m) + m * (a * (b / m)) =
      omega (arith, ap (λ (t : ℕ). a * t) (mod-add-div b m)) in
    rw e (sym (add-mul-mod_self_left (a * (b % m)) m (a * (b / m))))

-- A product with 0 or 1.
pub mul_bit : (p c : ℕ) → c ≤ 1 → ((c ≡ 0) × (p * c ≡ 0)) ⊎ ((c ≡ 1) × (p * c ≡ p))
mul_bit p zero h = inl (refl, omega arith)
mul_bit p (suc zero) h = inr (refl, omega arith)
mul_bit p (suc (suc c)) h = absurd (omega arith)

-- A factor may be reduced before it is multiplied and added.
pub add-mul-mod_factor : (a b c m : ℕ) → (a + b % m * c) % m ≡ (a + b * c) % m
add-mul-mod_factor a b c m =
    let e : a + b * c ≡ a + b % m * c + m * (b / m * c) =
      omega (arith, ap (λ (t : ℕ). t * c) (mod-add-div b m)) in
    rw e (sym (add-mul-mod_self_left (a + b % m * c) m (b / m * c)))

pub mul_bound : (x y m n : ℕ) → x ≤ m → y ≤ n → x * y ≤ m * n
mul_bound x y m n h k = grind arith

-- A remainder by the high part of a modulus, under the low part.
pub mod_below : (lo p q t : ℕ) → lo < p → 0 < q → lo + p * (t % q) ≡ (lo + p * t) % (p * q)
mod_below lo p q t h pos = sym (
    mod_unique (lo + p * t) (p * q) (t / q) (lo + p * (t % q))
      (omega (arith, ap (λ (s : ℕ). p * s) (mod-add-div t q)))
      (omega (arith, mul_bound p (t % q + 1) p q (omega arith) (omega (arith, mod-lt t pos)))))
