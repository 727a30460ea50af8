-- ===== src/Harness/Montgomery.antt =====
-- tests/test.c, what the test functions for Montgomery form compare with: test_bignum_montmul_*,
-- test_bignum_montsqr_*, test_bignum_demont_* and test_bignum_tomont_*, which differ in the prime only.
use s2n_bignum.Prelude.{ℕ, ◌*◌, List}
use s2n_bignum.Bignum.{reference_copy, reference_of_word}
use s2n_bignum.Bignum.Mul.{reference_mul}
use s2n_bignum.Bignum.Div.{reference_mod}
use s2n_bignum.Bignum.Mont.{reference_dmontmul, reference_modpowtwo}
use s2n_bignum.Primes.{MontPrime, field, negated_inverse, size, modulus}

unfoldable pub montmul_expected : MontPrime → List ℕ → List ℕ → List ℕ
montmul_expected q x y =
    reference_dmontmul (size (field q)) x y (modulus (field q)) (negated_inverse q)

unfoldable pub demont_expected : MontPrime → List ℕ → List ℕ
demont_expected q x =
    let k = size (field q) in
    let b1 = reference_of_word k 1 in
    reference_dmontmul k x b1 (modulus (field q)) (negated_inverse q)

-- Of the remainder, twice as wide, the lowest digits are compared.
unfoldable pub tomont_expected : MontPrime → List ℕ → List ℕ
tomont_expected q x =
    let k = size (field q) in
    let b1 = reference_modpowtwo k (64 * k) (modulus (field q)) in
    let b2 = reference_mul (2 * k) k b1 k x in
    let b1' = reference_copy (2 * k) k (modulus (field q)) in
    reference_copy k (2 * k) (reference_mod (2 * k) b2 b1')
