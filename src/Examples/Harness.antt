-- ===== src/Examples/Harness.antt =====
-- The theorems on the test cases of tests/test.c, for functions under test that are right.
use s2n_bignum.Prelude.{Bool, true, false, ℕ, ◌<◌, ◌≡◌, List, [], ◌∷◌, refl, arith, All, ◌↔◌}
use s2n_bignum.Word.{word_mod}
use s2n_bignum.Bignum.{val, IsBignum}
use s2n_bignum.Bignum.Div.{reference_mod}
use s2n_bignum.Primes.{p256, p_256}
use s2n_bignum.Harness.{Unary, add_test, Binary, Draws, modular_sum}
use s2n_bignum.Harness.Double.{double_test}
use s2n_bignum.Harness.Negate.{neg_reference, neg_input, neg_test}
use s2n_bignum.Harness.Subtract.{sub_test, modular_difference}
use s2n_bignum.Harness.Modular.{Drawn}
use s2n_bignum.Contract.Digits.{digits-IsBignum}
use s2n_bignum.Contract.Field.{
  bignum_add_p, bignum_sub_p, bignum_double_p, bignum_neg_p, bignum_mod_p,
}
use s2n_bignum.Contract.Field.Laws.{IsReduced}
use s2n_bignum.Contract.Field.Conform.{
  KeepsBinary, references-promised, binary_tests-promised, unary_tests-promised,
}

abbrev right_sum : Binary
right_sum = bignum_add_p p256

right_sum_sized : (x y : List ℕ) → IsBignum 4 x → IsBignum 4 y → IsBignum 4 (right_sum x y)
unfolding bignum_add_p
right_sum_sized x y hx hy = digits-IsBignum 4 _

-- The second pair is above the prime, and reduced first.
abbrev two_draws : Draws
two_draws =
    (3 ∷ 0 ∷ 0 ∷ 0 ∷ [], 4 ∷ 0 ∷ 0 ∷ 7 ∷ [])
    ∷ (18446744073709551615 ∷ 5 ∷ 6 ∷ 18446744073709551615 ∷ [], 1 ∷ 2 ∷ 3 ∷ 4 ∷ [])
    ∷ []

four_digits :
    (a b c d : ℕ)
    → a < word_mod
    → b < word_mod
    → c < word_mod
    → d < word_mod
    → IsBignum 4 (a ∷ b ∷ c ∷ d ∷ [])
four_digits a b c d ha hb hc hd = (refl, (ha, (hb, (hc, (hd, tt)))))

two_draws-Drawn : All (Drawn 4) two_draws
two_draws-Drawn = (
  (
    four_digits _ _ _ _ (omega arith) (omega arith) (omega arith) (omega arith),
    four_digits _ _ _ _ (omega arith) (omega arith) (omega arith) (omega arith),
  ),
  (
    (
      four_digits _ _ _ _ (omega arith) (omega arith) (omega arith) (omega arith),
      four_digits _ _ _ _ (omega arith) (omega arith) (omega arith) (omega arith),
    ),
    tt,
  ),
)

binary_tests-promised_example :
    ((add_test p256 right_sum two_draws ≡ 0)
      ↔ All (KeepsBinary p256 bignum_add_p right_sum) two_draws)
    × ((sub_test p256 right_sum two_draws ≡ 0)
        ↔ All (KeepsBinary p256 bignum_sub_p right_sum) two_draws)
binary_tests-promised_example =
    binary_tests-promised p256 right_sum right_sum_sized two_draws two_draws-Drawn

abbrev two_inputs : List (List ℕ)
two_inputs = (3 ∷ 0 ∷ 0 ∷ 7 ∷ []) ∷ (0 ∷ 5 ∷ 6 ∷ 18446744073709551615 ∷ []) ∷ []

abbrev two_coins : List (List ℕ × Bool)
two_coins = (3 ∷ 0 ∷ 0 ∷ 7 ∷ [], false) ∷ (0 ∷ 5 ∷ 6 ∷ 18446744073709551615 ∷ [], true) ∷ []

first_input : IsBignum 4 (3 ∷ 0 ∷ 0 ∷ 7 ∷ [])
first_input = four_digits _ _ _ _ (omega arith) (omega arith) (omega arith) (omega arith)

second_input : IsBignum 4 (0 ∷ 5 ∷ 6 ∷ 18446744073709551615 ∷ [])
second_input = four_digits _ _ _ _ (omega arith) (omega arith) (omega arith) (omega arith)

abbrev right_double : Unary
right_double = bignum_double_p p256

right_double_sized : (x : List ℕ) → IsBignum 4 x → IsBignum 4 (right_double x)
unfolding bignum_double_p
right_double_sized x hx = digits-IsBignum 4 _

unary_tests-promised_example :
    ((double_test p256 right_double two_inputs ≡ 0)
      ↔ All
          (λ u. let x = reference_mod 4 u p_256 in right_double x ≡ bignum_double_p p256 x)
          two_inputs)
    × ((neg_test p256 right_double two_coins ≡ 0)
        ↔ All (λ d. let x = neg_input 4 p_256 d in right_double x ≡ bignum_neg_p p256 x) two_coins)
unary_tests-promised_example =
    unary_tests-promised p256 right_double right_double_sized two_inputs
      (first_input, (second_input, tt)) two_coins (first_input, (second_input, tt))

abbrev three : List ℕ
three = 3 ∷ 0 ∷ 0 ∷ 7 ∷ []

three-IsReduced : IsReduced p256 three
unfolding val
three-IsReduced = (first_input, omega arith)

references-promised_example :
    (modular_sum 4 p_256 three three ≡ bignum_add_p p256 three three)
    × (modular_difference 4 p_256 three three ≡ bignum_sub_p p256 three three)
    × (neg_reference 4 p_256 three ≡ bignum_neg_p p256 three)
    × (reference_mod 4 three p_256 ≡ bignum_mod_p p256 4 three)
references-promised_example =
    references-promised p256 three three three three-IsReduced three-IsReduced first_input
