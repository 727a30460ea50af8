-- ===== src/Prelude/Bits/Lowest.antt =====
-- The native bit operations mean a recursion on digits that counts down the first number; here the
-- count is dropped, and the lowest digit split off.
use Prim.Native.Nat.{ℕ, zero, suc, ◌+◌, ◌*◌, ◌/◌, ◌%◌, ◌≤◌, min, max, differ, digits, bitwise}
use Prim.Native.Nat.{bit_and, bit_or, bit_xor, bit_and-bitwise, bit_or-bitwise, bit_xor-bitwise}
use mathlib.Core.Path.{◌≡◌, refl, ◌∙◌}
use mathlib.Core.Logic.{◌⊎◌, inl, inr}
use native.Mathlib.Omega.{arith}

within : (a n : ℕ) → a ≤ suc n → (a ≤ n) ⊎ (a ≡ suc n)
within a n h = ground arith

module _ (ended : ℕ → ℕ) (pair : ℕ → ℕ → ℕ) where
  one_more : (n a b : ℕ) → a ≤ n → digits ended pair (suc n) a b ≡ digits ended pair n a b
  one_more zero zero b h = refl
  one_more (suc n) zero b h = refl
  one_more zero (suc a) b h = absurd (omega arith)
  one_more (suc n) (suc a) b h = omega (arith, one_more n (suc a / 2) (b / 2) (omega arith))

  enough : (n a b : ℕ) → a ≤ n → digits ended pair n a b ≡ bitwise ended pair a b
  enough zero zero b h = refl
  enough zero (suc a) b h = absurd (omega arith)
  enough (suc n) a b h = elim (within a n h) [
    | inl less ↦ one_more n a b less ∙ enough n a b less
    | inr same ↦ rw same
  ]

  split_lowest :
      (a b : ℕ)
      → bitwise ended pair (suc a) b
        ≡ bitwise ended pair (suc a / 2) (b / 2) * 2 + pair (suc a % 2) (b % 2)
  split_lowest a b = omega (arith, enough a (suc a / 2) (b / 2) (omega arith))

pub and-lowest : (a b : ℕ) → bit_and a b ≡ bit_and (a / 2) (b / 2) * 2 + min (a % 2) (b % 2)
and-lowest zero b = simp bit_and-bitwise (omega arith)
and-lowest (suc a) b = simp bit_and-bitwise (split_lowest (λ n. 0) min a b)

pub or-lowest : (a b : ℕ) → bit_or a b ≡ bit_or (a / 2) (b / 2) * 2 + max (a % 2) (b % 2)
or-lowest zero b = simp bit_or-bitwise (omega arith)
or-lowest (suc a) b = simp bit_or-bitwise (split_lowest (λ n. n) max a b)

pub xor-lowest : (a b : ℕ) → bit_xor a b ≡ bit_xor (a / 2) (b / 2) * 2 + differ (a % 2) (b % 2)
xor-lowest zero b = simp bit_xor-bitwise (omega arith)
xor-lowest (suc a) b = simp bit_xor-bitwise (split_lowest (λ n. n) differ a b)
