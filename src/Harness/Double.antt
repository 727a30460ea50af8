-- ===== src/Harness/Double.antt =====
-- tests/test.c, the tests of doublings modulo a prime, and their verdict.
use s2n_bignum.Prelude.{
  ℕ, false, ◌<◌, ◌+◌, ◌*◌, ◌%◌, ◌≡◌, refl, ap, sym, ◌∙◌, List, [], ◌∷◌, if◌then◌else◌, arith, All,
  ◌↔◌,
}
use native.Mathlib.Nat.{add-mod}
use s2n_bignum.Bignum.{val, IsBignum}
use s2n_bignum.Bignum.Compare.{reference_compare}
use s2n_bignum.Bignum.Div.{reference_mod}
use s2n_bignum.Bignum.Div.Quotient.{mod_lem}
use s2n_bignum.Primes.{
  Field, curve25519, p256, p256k1, p384, p521, sm2, size, modulus, p_25519, p_256, p_256k1, p_384,
  p_521, p_sm2,
}
use s2n_bignum.Harness.{Unary, disparity, modular_sum}
use s2n_bignum.Primes.Range.{modulus-IsBignum}
use s2n_bignum.Harness.Modular.{modular_sum_lem, no_disparity, verdict_zero, zero_verdict}

-- for (i = 0; i < tests; ++i) { ... } in the tests of doublings, on the bignums that are drawn.
pub double_loop : ℕ → List ℕ → Unary → List (List ℕ) → ℕ
double_loop k p double [] = 0
double_loop k p double (u ∷ draws) =
    let b0 = reference_mod k u p in
    let c = reference_compare k (modular_sum k p b0 b0) k (double b0) in
    let rest = double_loop k p double draws in if disparity c then 1 else rest

unfoldable pub test_bignum_double_p25519 : Unary → List (List ℕ) → ℕ
unfolding double_loop
test_bignum_double_p25519 double draws = double_loop 4 p_25519 double draws

unfoldable pub test_bignum_double_p256 : Unary → List (List ℕ) → ℕ
unfolding double_loop
test_bignum_double_p256 double draws = double_loop 4 p_256 double draws

unfoldable pub test_bignum_double_p256k1 : Unary → List (List ℕ) → ℕ
unfolding double_loop
test_bignum_double_p256k1 double draws = double_loop 4 p_256k1 double draws

unfoldable pub test_bignum_double_p384 : Unary → List (List ℕ) → ℕ
unfolding double_loop
test_bignum_double_p384 double draws = double_loop 6 p_384 double draws

unfoldable pub test_bignum_double_p521 : Unary → List (List ℕ) → ℕ
unfolding double_loop
test_bignum_double_p521 double draws = double_loop 9 p_521 double draws

unfoldable pub test_bignum_double_sm2 : Unary → List (List ℕ) → ℕ
unfolding double_loop
test_bignum_double_sm2 double draws = double_loop 4 p_sm2 double draws

abbrev pub double_test : Field → Unary → List (List ℕ) → ℕ
double_test curve25519 = test_bignum_double_p25519
double_test p256 = test_bignum_double_p256
double_test p256k1 = test_bignum_double_p256k1
double_test p384 = test_bignum_double_p384
double_test p521 = test_bignum_double_p521
double_test sm2 = test_bignum_double_sm2

double_test-loop :
    (f : Field) (double : Unary) (draws : List (List ℕ))
    → double_test f double draws ≡ double_loop (size f) (modulus f) double draws
unfolding test_bignum_double_p25519 test_bignum_double_p256 test_bignum_double_p256k1
    test_bignum_double_p384 test_bignum_double_p521 test_bignum_double_sm2
double_test-loop curve25519 double draws = refl
double_test-loop p256 double draws = refl
double_test-loop p256k1 double draws = refl
double_test-loop p384 double draws = refl
double_test-loop p521 double draws = refl
double_test-loop sm2 double draws = refl

-- One test: the function under test doubles the reduced input modulo the modulus.
abbrev pub Doubles : ℕ → List ℕ → Unary → List ℕ → Type 0
Doubles k p double u = val (double (reference_mod k u p)) ≡ 2 * val u % val p

mod_twice : (a q : ℕ) → (a % q + a % q) % q ≡ 2 * a % q
mod_twice a q = sym (add-mod a a q) ∙ ap (λ (j : ℕ). j % q) (omega arith)

module _ (k : ℕ) (p : List ℕ) (hp : IsBignum k p) (positive : 0 < val p) (double : Unary)
    (sized : (x : List ℕ) → IsBignum k x → IsBignum k (double x)) where
  one_double :
      (u : List ℕ)
      → IsBignum k u
      → (disparity (
            reference_compare k
              (modular_sum k p (reference_mod k u p) (reference_mod k u p))
              k
              (double (reference_mod k u p)))
          ≡ false)
        ↔ Doubles k p double u
  one_double u hu =
      let x = reference_mod k u p in
      let (b0, h0) = mod_lem k u p hu hp positive in
      let (total, hsum) = modular_sum_lem k p hp positive x x h0 h0 in
      let same : val (modular_sum k p x x) ≡ 2 * val u % val p =
        total ∙ ap (λ (a : ℕ). (a + a) % val p) b0 ∙ mod_twice (val u) (val p) in
      let iff = no_disparity k (modular_sum k p x x) (double x) hsum (sized x h0) in
      (λ h. sym (iff.0 h) ∙ same, λ e. iff.1 (same ∙ sym e))

  double_loop_lem :
      (draws : List (List ℕ))
      → All (IsBignum k) draws
      → (double_loop k p double draws ≡ 0) ↔ All (Doubles k p double) draws
  unfolding double_loop
  double_loop_lem [] h = (λ e. tt, λ h. refl)
  double_loop_lem (u ∷ draws) (hu, hs) =
      let x = reference_mod k u p in
      let rest = double_loop_lem draws hs in
      let one = one_double u hu in
      let b = disparity (reference_compare k (modular_sum k p x x) k (double x)) in
      (
        λ e.
            let (first, others) = verdict_zero b (double_loop k p double draws) e in
            (one.0 first, rest.0 others),
        λ h. zero_verdict b (double_loop k p double draws) (one.1 h.0) (rest.1 h.1),
      )

-- Each of the six tests of a doubling returns 0 exactly if, for all the inputs that were drawn, the
-- function under test returns twice the input modulo the prime. The conditions are that the draws
-- have the field's number of digits, and that the function under test maps arrays of that many
-- digits to such arrays.
pub double_test_lem :
    (f : Field) (double : Unary)
    → ((x : List ℕ) → IsBignum (size f) x → IsBignum (size f) (double x))
    → (draws : List (List ℕ)) → All (IsBignum (size f)) draws
    → (double_test f double draws ≡ 0) ↔ All (Doubles (size f) (modulus f) double) draws
double_test_lem f double sized draws h =
    let (digits, positive) = modulus-IsBignum f in
    let verdict = double_loop_lem (size f) (modulus f) digits positive double sized draws h in
    let same = double_test-loop f double draws in
    (λ e. verdict.0 (sym same ∙ e), λ a. same ∙ verdict.1 a)
