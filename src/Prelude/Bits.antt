-- ===== src/Prelude/Bits.antt =====
-- Laws of `bit_and`, `bit_or` and `bit_xor` at every width, and masks as remainders.
mod Lowest
pub use Lowest.{and-lowest, or-lowest, xor-lowest}
use Prim.Native.Nat.{
  ℕ, zero, suc, ◌+◌, ◌-◌, ◌*◌, ◌/◌, ◌%◌, ◌^◌, ◌≤◌, ◌<◌, bit_and, bit_or, bit_xor, differ, max,
}
use mathlib.Core.Path.{◌≡◌, refl, ap, ◌∙◌}
use mathlib.Core.WellFounded
use native.Mathlib.Nat.{pow-suc, pow-zero, one-le-pow, mod-lt, mod-add-div}
use s2n_bignum.Prelude.Order.{lt_wf}
use s2n_bignum.Prelude.Powers.{mod_unique, pow-suc-mul, mul_bound}
use native.Mathlib.Omega.{arith}

pub bit_and-zero : (a : ℕ) → bit_and a 0 ≡ 0
bit_and-zero a =
    WellFounded.induction lt_wf {C = λ n. bit_and n 0 ≡ 0} a (elim [
      | zero ↦ λ ih. refl
      | suc n ↦ λ ih. omega (arith, and-lowest (suc n) 0, ih (suc n / 2))
    ])

mod_pow-suc : (k a : ℕ) → a % 2 ^ suc k ≡ a / 2 % 2 ^ k * 2 + a % 2
mod_pow-suc k a =
    mod_unique a (2 ^ suc k) (a / 2 / 2 ^ k) (a / 2 % 2 ^ k * 2 + a % 2)
      (omega (arith, pow-suc-mul 2 k (a / 2 / 2 ^ k), mod-add-div (a / 2) (2 ^ k)))
      (omega (arith, pow-suc 2 k, mod-lt (a / 2) {m = 2 ^ k} (one-le-pow k 2 (omega arith))))

bit_and_half : (k a : ℕ) → bit_and (a / 2) ((2 ^ suc k - 1) / 2) ≡ bit_and (a / 2) (2 ^ k - 1)
bit_and_half k a =
    let e : (2 ^ suc k - 1) / 2 ≡ 2 ^ k - 1 =
      omega (arith, pow-suc 2 k, one-le-pow k 2 (omega arith)) in
    rw e

-- A mask of `k` low bits is the remainder by `2 ^ k`.
pub bit_and-mask : (k a : ℕ) → bit_and a (2 ^ k - 1) ≡ a % 2 ^ k
bit_and-mask zero a = omega (arith, bit_and-zero a)
bit_and-mask (suc k) a = omega (
  arith,
  and-lowest a (2 ^ suc k - 1),
  bit_and-mask k (a / 2),
  pow-suc 2 k,
  one-le-pow k 2 (omega arith),
  bit_and_half k a,
  mod_pow-suc k a,
)

-- The bit above the lowest `k`, and the value that it completes.
pub bit_and-one : (a : ℕ) → bit_and a 1 ≡ a % 2
bit_and-one a = bit_and-mask 1 a

pub mod_pow-top : (k a : ℕ) → a % 2 ^ suc k ≡ a / 2 ^ k % 2 * 2 ^ k + a % 2 ^ k
mod_pow-top k a =
    mod_unique a (2 ^ suc k) (a / 2 ^ k / 2) (a / 2 ^ k % 2 * 2 ^ k + a % 2 ^ k)
      (omega (
        arith,
        pow-suc-mul 2 k (a / 2 ^ k / 2),
        mod-add-div a (2 ^ k),
        ap (λ (t : ℕ). 2 ^ k * t) (mod-add-div (a / 2 ^ k) 2),
      ))
      (omega (
        arith,
        pow-suc 2 k,
        mod-lt a {m = 2 ^ k} (one-le-pow k 2 (omega arith)),
        mul_bound (a / 2 ^ k % 2) (2 ^ k) 1 (2 ^ k) (omega arith) (omega arith),
      ))

pub differ-zero : (n : ℕ) → differ n 0 ≡ n
differ-zero zero = refl
differ-zero (suc n) = refl

pub differ-one : (n : ℕ) → n ≤ 1 → differ n 1 ≡ 1 - n
differ-one zero h = refl
differ-one (suc zero) h = refl
differ-one (suc (suc n)) h = absurd (omega arith)

pub bit_xor-zero : (a : ℕ) → bit_xor a 0 ≡ a
bit_xor-zero a = WellFounded.induction lt_wf {C = λ n. bit_xor n 0 ≡ n} a (elim [
  | zero ↦ λ ih. refl
  | suc n ↦ λ ih. omega (arith, xor-lowest (suc n) 0, differ-zero (suc n % 2), ih (suc n / 2))
])

bit_or-zero_left : (b : ℕ) → bit_or 0 b ≡ b
bit_or-zero_left b = WellFounded.induction lt_wf {C = λ n. bit_or 0 n ≡ n} b (elim [
  | zero ↦ λ ih. refl
  | suc n ↦ λ ih. omega (arith, or-lowest 0 (suc n), max-zero (suc n % 2), ih (suc n / 2))
])
  where
    max-zero : (n : ℕ) → max 0 n ≡ n
    max-zero n = omega arith

-- Joining a number below 2 ^ k with a multiple of 2 ^ k adds them.
pub bit_or-above : (k a b : ℕ) → a < 2 ^ k → bit_or a (2 ^ k * b) ≡ a + 2 ^ k * b
bit_or-above zero a b h =
    let none_below : a ≡ 0 = omega (arith, pow-zero 2) in
    ap (λ (j : ℕ). bit_or j (2 ^ 0 * b)) none_below
    ∙ bit_or-zero_left (2 ^ 0 * b)
    ∙ omega (arith, none_below)
bit_or-above (suc k) a b h =
    let double = pow-suc-mul 2 k b in
    let half : 2 ^ suc k * b / 2 ≡ 2 ^ k * b = omega (arith, double) in
    let even : 2 ^ suc k * b % 2 ≡ 0 = omega (arith, double) in
    omega (
      arith,
      or-lowest a (2 ^ suc k * b),
      ap (λ (j : ℕ). bit_or (a / 2) j) half,
      even,
      bit_or-above k (a / 2) b (omega (arith, pow-suc 2 k)),
      double,
    )
