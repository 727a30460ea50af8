-- ===== src/Lattice/Power.antt =====
-- Powers by squaring are powers modulo the prime.
use s2n_bignum.Prelude.{
  ℕ, zero, suc, ◌+◌, ◌-◌, ◌*◌, ◌/◌, ◌%◌, ◌^◌, ◌≤◌, ◌<◌, ◌≡◌, ap, sym, ◌∙◌, ◌==◌, if◌then◌else◌,
  arith,
}
use s2n_bignum.Prelude.Powers.{mul-mod-mod, pow-add, mul_bound}
use s2n_bignum.Word.{word_mod}
use s2n_bignum.Lattice.{pow_loop, pow_3329, pow_8380417}
use native.Mathlib.Nat.{pow-suc, pow-zero, mod-lt, mod-eq_of_lt}

mod-mul-mod : (a b q : ℕ) → (a % q) * (b % q) % q ≡ a * b % q
mod-mul-mod a b q =
    mul-mod-mod (a % q) b q
    ∙ ap (λ (j : ℕ). j % q) (swapped (a % q) b)
    ∙ mul-mod-mod b a q
    ∙ ap (λ (j : ℕ). j % q) (swapped b a)
  where
    swapped : (a b : ℕ) → a * b ≡ b * a
    swapped a b = omega arith

-- A product of numbers below 2 ^ 32 does not wrap.
no_wrap : (a b : ℕ) → a < 2 ^ 32 → b < 2 ^ 32 → a * b % word_mod ≡ a * b
no_wrap a b ha hb =
    let bound = mul_bound a b (2 ^ 32 - 1) (2 ^ 32 - 1) (omega arith) (omega arith) in
    mod-eq_of_lt (omega (arith, bound))

by_parity :
    (n t u r : ℕ)
    → (n ≡ 0 → 1 ≡ r)
    → (0 < n → n % 2 ≡ 0 → t ≡ r)
    → (n % 2 ≡ 1 → u ≡ r)
    → (if n == 0 then 1 else (if n % 2 == 0 then t else u)) ≡ r
by_parity n t u r hz he ho = ground (arith, hz, he, ho)

module _ (q x : ℕ) (two : 2 ≤ q) (narrow : q ≤ 2 ^ 32) (hx : x < 2 ^ 32) where
  below_q : (a : ℕ) → a % q < 2 ^ 32
  below_q a = omega (arith, mod-lt a {m = q} (omega arith), narrow)

  square : (half h : ℕ) → half ≡ x ^ h % q → (half * half % word_mod) % q ≡ x ^ (h + h) % q
  square half h e =
      let small : half < 2 ^ 32 = omega (arith, e, below_q (x ^ h)) in
      ap (λ (j : ℕ). j % q) (no_wrap half half small small)
      ∙ ap (λ (j : ℕ). j * j % q) e
      ∙ mod-mul-mod (x ^ h) (x ^ h) q
      ∙ ap (λ (j : ℕ). j % q) (sym (pow-add x h h))

  times : (t e : ℕ) → t ≡ x ^ e % q → (x * t % word_mod) % q ≡ x ^ suc e % q
  times t e h =
      let small : t < 2 ^ 32 = omega (arith, h, below_q (x ^ e)) in
      ap (λ (j : ℕ). j % q) (no_wrap x t hx small)
      ∙ ap (λ (j : ℕ). x * j % q) h
      ∙ mul-mod-mod x (x ^ e) q
      ∙ ap (λ (j : ℕ). j % q) (omega (arith, pow-suc x e))

  power_zero : (n : ℕ) → n ≡ 0 → 1 ≡ x ^ n % q
  power_zero n empty =
      sym (mod-eq_of_lt {m = q} (omega arith))
      ∙ ap (λ (j : ℕ). j % q) (sym (pow-zero x))
      ∙ ap (λ (j : ℕ). x ^ j % q) (sym empty)

  pow_loop_lem : (fuel n : ℕ) → n ≤ fuel → pow_loop q fuel x n ≡ x ^ n % q
  unfolding pow_loop
  pow_loop_lem zero n le = power_zero n (omega arith)
  pow_loop_lem (suc fuel) n le =
      let half = pow_loop q fuel x (n / 2) in
      let t = (half * half % word_mod) % q in
      by_parity n t (x * t % word_mod % q) (x ^ n % q) (power_zero n)
        (λ pos even.
          let twice : n / 2 + n / 2 ≡ n = omega (arith, even) in
          square half (n / 2) (pow_loop_lem fuel (n / 2) (omega arith))
          ∙ ap (λ (j : ℕ). x ^ j % q) twice)
        (λ odd.
          let twice : suc (n / 2 + n / 2) ≡ n = omega (arith, odd) in
          times t (n / 2 + n / 2) (square half (n / 2) (pow_loop_lem fuel (n / 2) (omega arith)))
          ∙ ap (λ (j : ℕ). x ^ j % q) twice)

-- Both powers by squaring are powers modulo their primes, for a base of at most 32 bits, for which
-- no product of the source wraps around.
pub pow_lem :
    (x n : ℕ) → x < 2 ^ 32 → (pow_3329 x n ≡ x ^ n % 3329) × (pow_8380417 x n ≡ x ^ n % 8380417)
unfolding pow_3329 pow_8380417
pow_lem x n hx = (
  pow_loop_lem 3329 x (omega arith) (omega arith) hx n n (omega arith),
  pow_loop_lem 8380417 x (omega arith) (omega arith) hx n n (omega arith),
)
