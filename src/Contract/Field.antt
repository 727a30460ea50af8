-- ===== src/Contract/Field.antt =====
-- include/s2n-bignum.h, arithmetic modulo the primes and the group orders. The functions that differ
-- only in the prime are one definition on `Field`; the header offers halving, tripling and the
-- functions in Montgomery form for all but curve25519, and multiplication for curve25519, p256k1
-- and p521.
pub mod Halving
pub mod Laws
pub mod Conform
use s2n_bignum.Prelude.{
  ℕ, zero, suc, ◌+◌, ◌-◌, ◌*◌, ◌/◌, ◌%◌, ◌^◌, ◌<◌, ◌≡◌, ◌==◌, ◌≢◌, ◌⊎◌, List, nonzero,
  if◌then◌else◌,
}
use s2n_bignum.Bignum.{val, IsBignum}
use s2n_bignum.Primes.{Field, size, modulus, m_25519, n_25519, n_256, n_256k1, n_384, n_521, n_sm2}
use s2n_bignum.Contract.{digits}

-- Half of a number below an odd modulus, and the halves of halves.
unfoldable pub half_mod : ℕ → ℕ → ℕ
half_mod p n = (if n % 2 == 0 then n else n + p) / 2

unfoldable pub unscale : ℕ → ℕ → ℕ → ℕ
unscale p zero n = n
unscale p (suc j) n = half_mod p (unscale p j n)

-- Inputs are reduced, where the header says so; `%` makes the result the promised one for others too.
unfoldable pub bignum_add_p : Field → List ℕ → List ℕ → List ℕ
bignum_add_p f x y = digits (size f) ((val x + val y) % val (modulus f))

unfoldable pub bignum_sub_p : Field → List ℕ → List ℕ → List ℕ
bignum_sub_p f x y = digits (size f) ((val x + val (modulus f) - val y) % val (modulus f))

unfoldable pub bignum_neg_p : Field → List ℕ → List ℕ
bignum_neg_p f x = digits (size f) ((val (modulus f) - val x) % val (modulus f))

unfoldable pub bignum_optneg_p : Field → ℕ → List ℕ → List ℕ
bignum_optneg_p f p x = if nonzero p then bignum_neg_p f x else x

unfoldable pub bignum_double_p : Field → List ℕ → List ℕ
bignum_double_p f x = digits (size f) (2 * val x % val (modulus f))

unfoldable pub bignum_half_p : Field → List ℕ → List ℕ
bignum_half_p f x = digits (size f) (half_mod (val (modulus f)) (val x))

unfoldable pub bignum_triple_p : Field → List ℕ → List ℕ
bignum_triple_p f x = digits (size f) (3 * val x % val (modulus f))

unfoldable pub bignum_cmul_p : Field → ℕ → List ℕ → List ℕ
bignum_cmul_p f c x = digits (size f) (c * val x % val (modulus f))

unfoldable pub bignum_mul_p : Field → List ℕ → List ℕ → List ℕ
bignum_mul_p f x y = digits (size f) (val x * val y % val (modulus f))

unfoldable pub bignum_sqr_p : Field → List ℕ → List ℕ
bignum_sqr_p f x = digits (size f) (val x ^ 2 % val (modulus f))

-- `k` is the field's size in the functions that take no size.
unfoldable pub bignum_mod_p : Field → ℕ → List ℕ → List ℕ
bignum_mod_p f k x = digits (size f) (val x % val (modulus f))

-- The group orders: the multiple m and the order n of the base point for curve25519.
pub data Order : Type 0 where
  m25519 : Order
  n25519 : Order
  n256 : Order
  n256k1 : Order
  n384 : Order
  n521 : Order
  nsm2 : Order

abbrev pub order_size : Order → ℕ
order_size m25519 = 4
order_size n25519 = 4
order_size n256 = 4
order_size n256k1 = 4
order_size n384 = 6
order_size n521 = 9
order_size nsm2 = 4

abbrev pub order : Order → List ℕ
order m25519 = m_25519
order n25519 = n_25519
order n256 = n_256
order n256k1 = n_256k1
order n384 = n_384
order n521 = n_521
order nsm2 = n_sm2

unfoldable pub bignum_mod_n : Order → ℕ → List ℕ → List ℕ
bignum_mod_n o k x = digits (order_size o) (val x % val (order o))

-- z := (x * y + c) mod n_25519
unfoldable pub bignum_madd_n25519 : List ℕ → List ℕ → List ℕ → List ℕ
bignum_madd_n25519 x y c = digits 4 ((val x * val y + val c) % val n_25519)

-- The inverse is reduced; an input that is divisible has none, and 0 is written.
abbrev pub BignumInv : Field → List ℕ → List ℕ → Type 0
BignumInv f x z =
    IsBignum (size f) z
    × (val z < val (modulus f))
    × (((val x % val (modulus f) ≡ 0) × (val z ≡ 0))
        ⊎ ((val x % val (modulus f) ≢ 0) × (val x * val z % val (modulus f) ≡ 1)))
