-- ===== src/Harness.antt =====
-- tests/test.c, the test cases: random inputs, a call of the function under test, and the comparison
-- with the references. The function under test, in assembly, and the sequence of random bignums are
-- parameters; a test function returns 0 or, at the first disparity, 1.
pub mod Modular
pub mod Double
pub mod Montgomery
pub mod Negate
pub mod Subtract
use s2n_bignum.Prelude.{ℕ, zero, suc, ◌+◌, List, [], ◌∷◌, Bool, true, false, not, if◌then◌else◌}
use s2n_bignum.Prelude.Int.{ℤ, pos, negsuc}
use s2n_bignum.Primes.{
  p_25519, p_256, p_256k1, p_384, p_521, p_sm2, Field, curve25519, p256, p256k1, p384, p521, sm2,
}
use s2n_bignum.Bignum.{reference_copy}
use s2n_bignum.Bignum.Add.{reference_add_samelen}
use s2n_bignum.Bignum.Compare.{reference_compare}
use s2n_bignum.Bignum.Div.{reference_mod}

-- A function under test of two arrays, and two arrays that random_bignum fills for each test.
abbrev pub Binary : Type 0
Binary = List ℕ → List ℕ → List ℕ

abbrev pub Unary : Type 0
Unary = List ℕ → List ℕ

abbrev pub Draws : Type 0
Draws = List (List ℕ × List ℕ)

-- `if (c != 0)`
unfoldable pub disparity : ℤ → Bool
disparity (pos zero) = false
disparity (pos (suc n)) = true
disparity (negsuc n) = true

-- The calls of the references in the test of a modular addition, from reference_copy(k+1,b3,k,b0) on.
unfoldable pub modular_sum : ℕ → List ℕ → List ℕ → List ℕ → List ℕ
modular_sum k p b0 b1 =
    let b3 = reference_copy (k + 1) k b0 in
    let b4 = reference_copy (k + 1) k b1 in
    let sum = (reference_add_samelen (k + 1) b4 b3).z in
    let modulus = reference_copy (k + 1) k p in
    let b5 = reference_mod (k + 1) sum modulus in reference_copy k (k + 1) b5

-- for (i = 0; i < tests; ++i) { ... } in the tests of modular additions, which differ in the size,
-- the modulus and the function under test.
pub add_loop : ℕ → List ℕ → Binary → Draws → ℕ
add_loop k p add [] = 0
add_loop k p add ((u, v) ∷ draws) =
    let b0 = reference_mod k u p in
    let b1 = reference_mod k v p in
    let c = reference_compare k (modular_sum k p b0 b1) k (add b0 b1) in
    let rest = add_loop k p add draws in if disparity c then 1 else rest

unfoldable pub test_bignum_add_p25519 : Binary → Draws → ℕ
unfolding add_loop
test_bignum_add_p25519 add draws = add_loop 4 p_25519 add draws

unfoldable pub test_bignum_add_p256 : Binary → Draws → ℕ
unfolding add_loop
test_bignum_add_p256 add draws = add_loop 4 p_256 add draws

unfoldable pub test_bignum_add_p256k1 : Binary → Draws → ℕ
unfolding add_loop
test_bignum_add_p256k1 add draws = add_loop 4 p_256k1 add draws

unfoldable pub test_bignum_add_p384 : Binary → Draws → ℕ
unfolding add_loop
test_bignum_add_p384 add draws = add_loop 6 p_384 add draws

unfoldable pub test_bignum_add_p521 : Binary → Draws → ℕ
unfolding add_loop
test_bignum_add_p521 add draws = add_loop 9 p_521 add draws

unfoldable pub test_bignum_add_sm2 : Binary → Draws → ℕ
unfolding add_loop
test_bignum_add_sm2 add draws = add_loop 4 p_sm2 add draws

abbrev pub add_test : Field → Binary → Draws → ℕ
add_test curve25519 = test_bignum_add_p25519
add_test p256 = test_bignum_add_p256
add_test p256k1 = test_bignum_add_p256k1
add_test p384 = test_bignum_add_p384
add_test p521 = test_bignum_add_p521
add_test sm2 = test_bignum_add_sm2
