-- ===== src/Harness/Subtract.antt =====
-- tests/test.c, the tests of subtractions modulo a prime, and their verdict.
use s2n_bignum.Prelude.{
  ℕ, ◌<◌, ◌+◌, ◌-◌, ◌%◌, ◌^◌, ◌≡◌, refl, ap₂, sym, ◌∙◌, List, [], ◌∷◌, if◌then◌else◌, arith, All,
  ◌↔◌,
}
use native.Mathlib.Nat.{mod-lt, mod-eq_of_lt}
use s2n_bignum.Word.{word_mod}
use s2n_bignum.Bignum.{val, IsBignum, reference_copy}
use s2n_bignum.Bignum.Digits.{copy-IsBignum, val-copy, val-lt}
use s2n_bignum.Bignum.Add.{reference_add_samelen, reference_sub_samelen, adc-IsBignum}
use s2n_bignum.Bignum.Add.Laws.{adc_exact, sub_samelen_lem, sub-IsBignum}
use s2n_bignum.Bignum.Compare.{reference_compare}
use s2n_bignum.Bignum.Div.{reference_mod}
use s2n_bignum.Bignum.Div.Quotient.{mod_lem}
use s2n_bignum.Primes.{
  Field, curve25519, p256, p256k1, p384, p521, sm2, size, modulus, p_25519, p_256, p_256k1, p_384,
  p_521, p_sm2,
}
use s2n_bignum.Harness.{Binary, Draws, disparity}
use s2n_bignum.Primes.Range.{modulus-IsBignum}
use s2n_bignum.Harness.Modular.{Drawn, wide, sum_fits, no_disparity, verdict_zero, zero_verdict}

-- The calls of the references, from reference_copy(k+1,b3,k,p) on.
unfoldable pub modular_difference : ℕ → List ℕ → List ℕ → List ℕ → List ℕ
modular_difference k p b0 b1 =
    let b3 = reference_copy (k + 1) k p in
    let b4 = reference_copy (k + 1) k b0 in
    let b5 = reference_copy (k + 1) k b1 in
    let sum = (reference_add_samelen (k + 1) b4 b3).z in
    let difference = (reference_sub_samelen (k + 1) sum b5).z in
    reference_copy k (k + 1) (reference_mod (k + 1) difference b3)

-- for (i = 0; i < tests; ++i) { ... } in the tests of subtractions.
pub sub_loop : ℕ → List ℕ → Binary → Draws → ℕ
sub_loop k p sub [] = 0
sub_loop k p sub ((u, v) ∷ draws) =
    let b0 = reference_mod k u p in
    let b1 = reference_mod k v p in
    let c = reference_compare k (modular_difference k p b0 b1) k (sub b0 b1) in
    let rest = sub_loop k p sub draws in if disparity c then 1 else rest

unfoldable pub test_bignum_sub_p25519 : Binary → Draws → ℕ
unfolding sub_loop
test_bignum_sub_p25519 sub draws = sub_loop 4 p_25519 sub draws

unfoldable pub test_bignum_sub_p256 : Binary → Draws → ℕ
unfolding sub_loop
test_bignum_sub_p256 sub draws = sub_loop 4 p_256 sub draws

unfoldable pub test_bignum_sub_p256k1 : Binary → Draws → ℕ
unfolding sub_loop
test_bignum_sub_p256k1 sub draws = sub_loop 4 p_256k1 sub draws

unfoldable pub test_bignum_sub_p384 : Binary → Draws → ℕ
unfolding sub_loop
test_bignum_sub_p384 sub draws = sub_loop 6 p_384 sub draws

unfoldable pub test_bignum_sub_p521 : Binary → Draws → ℕ
unfolding sub_loop
test_bignum_sub_p521 sub draws = sub_loop 9 p_521 sub draws

unfoldable pub test_bignum_sub_sm2 : Binary → Draws → ℕ
unfolding sub_loop
test_bignum_sub_sm2 sub draws = sub_loop 4 p_sm2 sub draws

abbrev pub sub_test : Field → Binary → Draws → ℕ
sub_test curve25519 = test_bignum_sub_p25519
sub_test p256 = test_bignum_sub_p256
sub_test p256k1 = test_bignum_sub_p256k1
sub_test p384 = test_bignum_sub_p384
sub_test p521 = test_bignum_sub_p521
sub_test sm2 = test_bignum_sub_sm2

sub_test-loop :
    (f : Field) (sub : Binary) (draws : Draws)
    → sub_test f sub draws ≡ sub_loop (size f) (modulus f) sub draws
unfolding test_bignum_sub_p25519 test_bignum_sub_p256 test_bignum_sub_p256k1 test_bignum_sub_p384
    test_bignum_sub_p521 test_bignum_sub_sm2
sub_test-loop curve25519 sub draws = refl
sub_test-loop p256 sub draws = refl
sub_test-loop p256k1 sub draws = refl
sub_test-loop p384 sub draws = refl
sub_test-loop p521 sub draws = refl
sub_test-loop sm2 sub draws = refl

-- One test: the function under test subtracts the reduced inputs modulo the modulus.
abbrev pub Subtracts : ℕ → List ℕ → Binary → List ℕ × List ℕ → Type 0
Subtracts k p sub (u, v) =
    val (sub (reference_mod k u p) (reference_mod k v p))
    ≡ (val u % val p + val p - val v % val p) % val p

module _ (k : ℕ) (p : List ℕ) (hp : IsBignum k p) (positive : 0 < val p) where
  pub modular_difference_lem :
      (x y : List ℕ)
      → IsBignum k x
      → IsBignum k y
      → val y < val p
      → (val (modular_difference k p x y) ≡ (val x + val p - val y) % val p)
        × IsBignum k (modular_difference k p x y)
  unfolding modular_difference reference_add_samelen
  modular_difference_lem x y hx hy below =
      let b3 = reference_copy (k + 1) k p in
      let b4 = reference_copy (k + 1) k x in
      let b5 = reference_copy (k + 1) k y in
      let h3 = copy-IsBignum (k + 1) k p hp in
      let h4 = copy-IsBignum (k + 1) k x hx in
      let h5 = copy-IsBignum (k + 1) k y hy in
      let wp = wide k p hp positive p hp in
      let wx = wide k p hp positive x hx in
      let wy = wide k p hp positive y hy in
      let sum = (reference_add_samelen (k + 1) b4 b3).z in
      let hsum = adc-IsBignum (k + 1) (k + 1) b4 (k + 1) b3 0 in
      let total : val sum ≡ val x + val p =
        adc_exact (k + 1) b4 b3 0 h4 h3 (omega arith)
          (omega (arith, wx, wp, sum_fits k p hp positive x p hx hp))
        ∙ omega (arith, wx, wp) in
      let difference = (reference_sub_samelen (k + 1) sum b5).z in
      let hdiff = sub-IsBignum (k + 1) sum b5 in
      let left : val difference ≡ val x + val p - val y =
        (sub_samelen_lem (k + 1) sum b5 hsum h5).1 (omega (arith, total, wy, below))
        ∙ omega (arith, total, wy) in
      let (rest, hrest) = mod_lem (k + 1) difference b3 hdiff h3 (omega (arith, wp, positive)) in
      let reduced : val (reference_mod (k + 1) difference b3) ≡ (val x + val p - val y) % val p =
        rest ∙ ap₂ (λ (a b : ℕ). a % b) left wp in
      let small : val (reference_mod (k + 1) difference b3) < word_mod ^ k =
        omega (arith, reduced, mod-lt (val x + val p - val y) {m = val p} positive, val-lt p hp) in
      (
        val-copy k (k + 1) (reference_mod (k + 1) difference b3) hrest
            ∙ mod-eq_of_lt small
            ∙ reduced,
        copy-IsBignum k (k + 1) (reference_mod (k + 1) difference b3) hrest,
      )

  pub sub_loop_lem :
      (sub : Binary)
      → ((x y : List ℕ) → IsBignum k x → IsBignum k y → IsBignum k (sub x y))
      → (draws : Draws) → All (Drawn k) draws
      → (sub_loop k p sub draws ≡ 0) ↔ All (Subtracts k p sub) draws
  unfolding sub_loop
  sub_loop_lem sub sized [] h = (λ e. tt, λ h. refl)
  sub_loop_lem sub sized ((u, v) ∷ draws) ((hu, hv), hs) =
      let (b0, h0) = mod_lem k u p hu hp positive in
      let (b1, h1) = mod_lem k v p hv hp positive in
      let x = reference_mod k u p in
      let y = reference_mod k v p in
      let (total, digits) =
        modular_difference_lem x y h0 h1 (omega (arith, b1, mod-lt (val v) {m = val p} positive)) in
      let same = total ∙ ap₂ (λ (a b : ℕ). (a + val p - b) % val p) b0 b1 in
      let one = no_disparity k (modular_difference k p x y) (sub x y) digits (sized x y h0 h1) in
      let rest = sub_loop_lem sub sized draws hs in
      let b = disparity (reference_compare k (modular_difference k p x y) k (sub x y)) in
      (
        λ e.
            let (first, others) = verdict_zero b (sub_loop k p sub draws) e in
            (sym (one.0 first) ∙ same, rest.0 others),
        λ h. zero_verdict b (sub_loop k p sub draws) (one.1 (same ∙ sym h.0)) (rest.1 h.1),
      )

-- Each of the six tests of a subtraction returns 0 exactly if, for all the inputs that were drawn,
-- the function under test returns the difference of the two inputs modulo the prime. The conditions
-- are that the draws have the field's number of digits, and that the function under test maps arrays
-- of that many digits to such arrays.
pub sub_test_lem :
    (f : Field) (sub : Binary)
    → ((x y : List ℕ) → IsBignum (size f) x → IsBignum (size f) y → IsBignum (size f) (sub x y))
    → (draws : Draws) → All (Drawn (size f)) draws
    → (sub_test f sub draws ≡ 0) ↔ All (Subtracts (size f) (modulus f) sub) draws
sub_test_lem f sub sized draws h =
    let (digits, positive) = modulus-IsBignum f in
    let verdict = sub_loop_lem (size f) (modulus f) digits positive sub sized draws h in
    let same = sub_test-loop f sub draws in (λ e. verdict.0 (sym same ∙ e), λ a. same ∙ verdict.1 a)
