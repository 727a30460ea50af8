-- ===== src/Harness/Negate.antt =====
-- tests/test.c, the tests of negations modulo a prime, and their verdict.
use s2n_bignum.Prelude.{
  ℕ, ◌-◌, ◌%◌, ◌<◌, ◌≡◌, refl, ap, sym, ◌∙◌, inl, inr, List, [], ◌∷◌, Bool, true, false,
  if◌then◌else◌, arith, All, ◌↔◌, nonzero, of_bool, ◌==◌, Bool-cases, ==_iff, ◌^◌,
}
use native.Mathlib.Nat.{mod-lt, mod-eq_of_lt, mod_self}
use mathlib.Core.Path.{subst}
use s2n_bignum.Word.{word_mod}
use s2n_bignum.Bignum.Digits.{of_word-IsBignum, val-of_word, word_pow_pos, copy_same, copy-IsBignum}
use s2n_bignum.Bignum.Add.Laws.{sub-IsBignum, sub_samelen_lem}
use s2n_bignum.Bignum.{val, IsBignum, reference_copy, reference_of_word}
use s2n_bignum.Bignum.Add.{reference_sub_samelen}
use s2n_bignum.Bignum.Compare.{reference_compare, reference_iszero, iszero_lem}
use s2n_bignum.Bignum.Div.{reference_mod}
use s2n_bignum.Bignum.Div.Quotient.{mod_lem}
use s2n_bignum.Primes.{
  Field, curve25519, p256, p256k1, p384, p521, sm2, size, modulus, p_25519, p_256, p_256k1, p_384,
  p_521, p_sm2,
}
use s2n_bignum.Harness.{Unary, disparity}
use s2n_bignum.Primes.Range.{modulus-IsBignum}
use s2n_bignum.Harness.Modular.{no_disparity, verdict_zero, zero_verdict}

-- The input of a test: the reduced bignum that is drawn, or 0 if the coin says so.
unfoldable pub neg_input : ℕ → List ℕ → List ℕ × Bool → List ℕ
neg_input k p (u, zeroed) = if zeroed then reference_of_word k 0 else reference_mod k u p

-- What the test compares with.
unfoldable pub neg_reference : ℕ → List ℕ → List ℕ → List ℕ
neg_reference k p b0 =
    if nonzero (reference_iszero k b0)
    then reference_copy k k b0
    else (reference_sub_samelen k p b0).z

-- for (i = 0; i < tests; ++i) { ... } in the tests of negations.
pub neg_loop : ℕ → List ℕ → Unary → List (List ℕ × Bool) → ℕ
neg_loop k p neg [] = 0
neg_loop k p neg (draw ∷ draws) =
    let b0 = neg_input k p draw in
    let c = reference_compare k (neg_reference k p b0) k (neg b0) in
    let rest = neg_loop k p neg draws in if disparity c then 1 else rest

unfoldable pub test_bignum_neg_p25519 : Unary → List (List ℕ × Bool) → ℕ
unfolding neg_loop
test_bignum_neg_p25519 neg draws = neg_loop 4 p_25519 neg draws

unfoldable pub test_bignum_neg_p256 : Unary → List (List ℕ × Bool) → ℕ
unfolding neg_loop
test_bignum_neg_p256 neg draws = neg_loop 4 p_256 neg draws

unfoldable pub test_bignum_neg_p256k1 : Unary → List (List ℕ × Bool) → ℕ
unfolding neg_loop
test_bignum_neg_p256k1 neg draws = neg_loop 4 p_256k1 neg draws

unfoldable pub test_bignum_neg_p384 : Unary → List (List ℕ × Bool) → ℕ
unfolding neg_loop
test_bignum_neg_p384 neg draws = neg_loop 6 p_384 neg draws

unfoldable pub test_bignum_neg_p521 : Unary → List (List ℕ × Bool) → ℕ
unfolding neg_loop
test_bignum_neg_p521 neg draws = neg_loop 9 p_521 neg draws

unfoldable pub test_bignum_neg_sm2 : Unary → List (List ℕ × Bool) → ℕ
unfolding neg_loop
test_bignum_neg_sm2 neg draws = neg_loop 4 p_sm2 neg draws

abbrev pub neg_test : Field → Unary → List (List ℕ × Bool) → ℕ
neg_test curve25519 = test_bignum_neg_p25519
neg_test p256 = test_bignum_neg_p256
neg_test p256k1 = test_bignum_neg_p256k1
neg_test p384 = test_bignum_neg_p384
neg_test p521 = test_bignum_neg_p521
neg_test sm2 = test_bignum_neg_sm2

neg_test-loop :
    (f : Field) (neg : Unary) (draws : List (List ℕ × Bool))
    → neg_test f neg draws ≡ neg_loop (size f) (modulus f) neg draws
unfolding test_bignum_neg_p25519 test_bignum_neg_p256 test_bignum_neg_p256k1 test_bignum_neg_p384
    test_bignum_neg_p521 test_bignum_neg_sm2
neg_test-loop curve25519 neg draws = refl
neg_test-loop p256 neg draws = refl
neg_test-loop p256k1 neg draws = refl
neg_test-loop p384 neg draws = refl
neg_test-loop p521 neg draws = refl
neg_test-loop sm2 neg draws = refl

-- One test: the function under test negates its input modulo the modulus.
abbrev pub Negates : ℕ → List ℕ → Unary → List ℕ × Bool → Type 0
Negates k p neg draw = val (neg (neg_input k p draw)) ≡ (val p - val (neg_input k p draw)) % val p

abbrev pub Drawn : ℕ → List ℕ × Bool → Type 0
Drawn k (u, zeroed) = IsBignum k u

zero_test : (k : ℕ) (x : List ℕ) → IsBignum k x → nonzero (reference_iszero k x) ≡ (val x == 0)
zero_test k x h = ap nonzero (iszero_lem k x h) ∙ nonzero-of_bool (val x == 0)
  where
    nonzero-of_bool : (b : Bool) → nonzero (of_bool b) ≡ b
    nonzero-of_bool true = refl
    nonzero-of_bool false = refl

not_zero : (n : ℕ) → (n == 0) ≡ false → 0 < n
not_zero n h = ground arith

-- Negating maps k digits to k digits, whatever the number.
pub neg_reference-IsBignum :
    (k : ℕ) (p x : List ℕ) → IsBignum k x → IsBignum k (neg_reference k p x)
unfolding neg_reference
neg_reference-IsBignum k p x hx =
    if-IsBignum (nonzero (reference_iszero k x)) (reference_copy k k x)
      (reference_sub_samelen k p x).z (copy-IsBignum k k x hx) (sub-IsBignum k p x)
  where
    if-IsBignum :
        (b : Bool) (s t : List ℕ) → IsBignum k s → IsBignum k t → IsBignum k (if b then s else t)
    if-IsBignum true s t hs ht = hs
    if-IsBignum false s t hs ht = ht

module _ (k : ℕ) (p : List ℕ) (hp : IsBignum k p) (positive : 0 < val p) where
  pub neg_input_lem :
      (draw : List ℕ × Bool)
      → Drawn k draw
      → IsBignum k (neg_input k p draw) × (val (neg_input k p draw) < val p)
  unfolding neg_input
  neg_input_lem (u, true) h = (
    of_word-IsBignum k 0 (omega arith),
    omega (arith, positive, val-of_word k 0 (omega arith), zero_mod),
  )
    where
      zero_mod : 0 % word_mod ^ k ≡ 0
      zero_mod = mod-eq_of_lt (word_pow_pos k)
  neg_input_lem (u, false) h =
      let (rest, digits) = mod_lem k u p h hp positive in
      (digits, omega (arith, rest, mod-lt (val u) {m = val p} positive))

  pub neg_reference_lem :
      (x : List ℕ)
      → IsBignum k x
      → val x < val p
      → IsBignum k (neg_reference k p x) × (val (neg_reference k p x) ≡ (val p - val x) % val p)
  unfolding neg_reference
  neg_reference_lem x hx below =
      let copied = reference_copy k k x in
      let difference = (reference_sub_samelen k p x).z in
      elim (Bool-cases (val x == 0)) [
        | inl zero_x ↦
            let same : neg_reference k p x ≡ x =
              ap (λ (b : Bool). if b then copied else difference) (zero_test k x hx ∙ zero_x)
              ∙ copy_same k x hx in
            let e : val x ≡ 0 = (==_iff (val x) 0).0 zero_x in
            let whole : val p - val x ≡ val p = omega (arith, e) in
            (
              subst (λ (t : List ℕ). IsBignum k t) (sym same) hx,
              ap (λ (t : List ℕ). val t) same
                  ∙ e
                  ∙ sym (mod_self (val p))
                  ∙ ap (λ (j : ℕ). j % val p) (sym whole),
            )
        | inr some_x ↦
            let same : neg_reference k p x ≡ difference =
              ap (λ (b : Bool). if b then copied else difference) (zero_test k x hx ∙ some_x) in
            let positive_x : 0 < val x = not_zero (val x) some_x in
            let exact = (sub_samelen_lem k p x hp hx).1 (omega (arith, below)) in
            (
              subst (λ (t : List ℕ). IsBignum k t) (sym same) (sub-IsBignum k p x),
              ap (λ (t : List ℕ). val t) same
                  ∙ exact
                  ∙ sym (mod-eq_of_lt {m = val p} (omega (arith, positive_x, positive))),
            )
      ]

  module _ (neg : Unary) (sized : (x : List ℕ) → IsBignum k x → IsBignum k (neg x)) where
    neg_loop_lem :
        (draws : List (List ℕ × Bool))
        → All (Drawn k) draws
        → (neg_loop k p neg draws ≡ 0) ↔ All (Negates k p neg) draws
    unfolding neg_loop
    neg_loop_lem [] h = (λ e. tt, λ h. refl)
    neg_loop_lem (draw ∷ draws) (hd, hs) =
        let x = neg_input k p draw in
        let (hx, below) = neg_input_lem draw hd in
        let (digits, total) = neg_reference_lem x hx below in
        let one = no_disparity k (neg_reference k p x) (neg x) digits (sized x hx) in
        let rest = neg_loop_lem draws hs in
        let b = disparity (reference_compare k (neg_reference k p x) k (neg x)) in
        (
          λ e.
              let (first, others) = verdict_zero b (neg_loop k p neg draws) e in
              (sym (one.0 first) ∙ total, rest.0 others),
          λ h. zero_verdict b (neg_loop k p neg draws) (one.1 (total ∙ sym h.0)) (rest.1 h.1),
        )

-- Each of the six tests of a negation returns 0 exactly if, for all the inputs that were drawn, the
-- zeros put in by chance included, the function under test returns the negated input modulo the
-- prime. The conditions are that the draws have the field's number of digits, and that the function
-- under test maps arrays of that many digits to such arrays.
pub neg_test_lem :
    (f : Field) (neg : Unary)
    → ((x : List ℕ) → IsBignum (size f) x → IsBignum (size f) (neg x))
    → (draws : List (List ℕ × Bool)) → All (Drawn (size f)) draws
    → (neg_test f neg draws ≡ 0) ↔ All (Negates (size f) (modulus f) neg) draws
neg_test_lem f neg sized draws h =
    let (digits, positive) = modulus-IsBignum f in
    let verdict = neg_loop_lem (size f) (modulus f) digits positive neg sized draws h in
    let same = neg_test-loop f neg draws in (λ e. verdict.0 (sym same ∙ e), λ a. same ∙ verdict.1 a)
