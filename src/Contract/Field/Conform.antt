-- ===== src/Contract/Field/Conform.antt =====
-- The computations that the tests of tests/test.c compare with are what include/s2n-bignum.h
-- promises modulo the primes, and a test passes exactly if the function under test keeps that promise.
use s2n_bignum.Prelude.{
  ℕ, ◌+◌, ◌-◌, ◌*◌, ◌%◌, ◌^◌, ◌≡◌, sym, ap, ap₂, ◌∙◌, List, [], ◌∷◌, Bool, arith, All, ◌↔◌,
}
use s2n_bignum.Prelude.Powers.{mul-mod-mod}
use s2n_bignum.Word.{word_mod}
use s2n_bignum.Bignum.{val, IsBignum}
use s2n_bignum.Bignum.Digits.{val-lt}
use s2n_bignum.Bignum.Div.{reference_mod}
use s2n_bignum.Bignum.Div.Quotient.{mod_lem}
use s2n_bignum.Primes.{Field, size, modulus}
use s2n_bignum.Primes.Range.{modulus-IsBignum}
use s2n_bignum.Harness.{Binary, Unary, Draws, modular_sum, add_test}
use s2n_bignum.Harness.Modular.{modular_sum_lem, Agrees, Drawn, add_test_lem}
use s2n_bignum.Harness.Subtract.{
  modular_difference, modular_difference_lem, sub_test, Subtracts, sub_test_lem,
}
use s2n_bignum.Harness.Negate.{
  neg_reference, neg_reference_lem, neg_test, neg_input, neg_input_lem, Negates, neg_test_lem,
}
use s2n_bignum.Harness.Double.{double_test, Doubles, double_test_lem}
use s2n_bignum.Contract.{digits}
use s2n_bignum.Contract.Arith.Conform.{is_digits}
use s2n_bignum.Contract.Field.{
  bignum_add_p, bignum_sub_p, bignum_neg_p, bignum_double_p, bignum_mod_p,
}
use s2n_bignum.Contract.Field.Laws.{IsReduced, val-residue}
use native.Mathlib.Nat.{mod-lt, mod-eq_of_lt}

module _ (f : Field) where
  -- An array of the field's size with a residue as its value is the promised array.
  is_residue_digits :
      (z : List ℕ) (n : ℕ)
      → IsBignum (size f) z
      → (val z ≡ n % val (modulus f)) ↔ (z ≡ digits (size f) (n % val (modulus f)))
  is_residue_digits z n h = (
    λ e.
        is_digits (size f) z _ h
          (sym (mod-eq_of_lt (val-lt z h)) ∙ ap (λ (t : ℕ). t % word_mod ^ size f) e),
    λ e. ap (λ (t : List ℕ). val t) e ∙ val-residue f n,
  )

All-iff :
    {A : Type 0} {D P Q : A → Type 0} (same : (a : A) → D a → P a ↔ Q a)
    → (xs : List A) → All D xs
    → All P xs ↔ All Q xs
All-iff same [] h = (λ p. tt, λ q. tt)
All-iff same (x ∷ xs) (h, hs) =
    let rest = All-iff same xs hs in
    let one = same x h in (λ p. (one.0 p.0, rest.0 p.1), λ q. (one.1 q.0, rest.1 q.1))

iff_trans : {A B C : Type 0} → A ↔ B → B ↔ C → A ↔ C
iff_trans p q = (λ a. q.0 (p.0 a), λ c. p.1 (q.1 c))

-- The function under test writes what is promised, on the reduced inputs of one test.
abbrev pub KeepsBinary : Field → (Field → Binary) → Binary → List ℕ × List ℕ → Type 0
KeepsBinary f promised function (u, v) =
    let x = reference_mod (size f) u (modulus f) in
    let y = reference_mod (size f) v (modulus f) in function x y ≡ promised f x y

module _ (f : Field) where
  reduce :
      (u : List ℕ)
      → IsBignum (size f) u
      → (val (reference_mod (size f) u (modulus f)) ≡ val u % val (modulus f))
        × IsReduced f (reference_mod (size f) u (modulus f))
  reduce u hu =
      let (digits_p, pos) = modulus-IsBignum f in
      let (rest, h) = mod_lem (size f) u (modulus f) hu digits_p pos in
      (rest, (h, omega (arith, rest, mod-lt (val u) pos)))

  -- For reduced x and y, the sum, the difference and the negation that the tests compute by the
  -- references are `bignum_add_p`, `bignum_sub_p` and `bignum_neg_p`, and for any number of the field's
  -- size, the reference remainder is `bignum_mod_p`.
  pub references-promised :
      (x y u : List ℕ)
      → IsReduced f x
      → IsReduced f y
      → IsBignum (size f) u
      → (modular_sum (size f) (modulus f) x y ≡ bignum_add_p f x y)
        × (modular_difference (size f) (modulus f) x y ≡ bignum_sub_p f x y)
        × (neg_reference (size f) (modulus f) x ≡ bignum_neg_p f x)
        × (reference_mod (size f) u (modulus f) ≡ bignum_mod_p f (size f) u)
  unfolding bignum_add_p bignum_sub_p bignum_neg_p bignum_mod_p
  references-promised x y u hx hy hu =
      let (hp, pos) = modulus-IsBignum f in
      let k = size f in
      let (sum, sum_digits) = modular_sum_lem k (modulus f) hp pos x y hx.0 hy.0 in
      let (difference, difference_digits) =
        modular_difference_lem k (modulus f) hp pos x y hx.0 hy.0 hy.1 in
      let (negated_digits, negated) = neg_reference_lem k (modulus f) hp pos x hx.0 hx.1 in
      (
        (is_residue_digits f _ _ sum_digits).0 sum,
        (is_residue_digits f _ _ difference_digits).0 difference,
        (is_residue_digits f _ _ negated_digits).0 negated,
        (is_residue_digits f _ _ (reduce u hu).1.0).0 (reduce u hu).0,
      )

  module _ (function : Binary)
      (sized : (x y : List ℕ)
        → IsBignum (size f) x
        → IsBignum (size f) y
        → IsBignum (size f) (function x y))
      (draws : Draws) (drawn : All (Drawn (size f)) draws) where
    -- For a function that maps arrays of the field's size to such arrays and for draws of that size:
    -- the test of additions returns 0 exactly if on every draw, reduced, the function writes what
    -- `bignum_add_p` promises, and the test of subtractions if it writes what `bignum_sub_p` does.
    pub binary_tests-promised :
        ((add_test f function draws ≡ 0) ↔ All (KeepsBinary f bignum_add_p function) draws)
        × ((sub_test f function draws ≡ 0) ↔ All (KeepsBinary f bignum_sub_p function) draws)
    unfolding bignum_add_p bignum_sub_p
    binary_tests-promised = (
      iff_trans (add_test_lem f function sized draws drawn) (All-iff added draws drawn),
      iff_trans (sub_test_lem f function sized draws drawn) (All-iff subtracted draws drawn),
    )
      where
        added :
            (draw : List ℕ × List ℕ)
            → Drawn (size f) draw
            → Agrees (size f) (modulus f) function draw ↔ KeepsBinary f bignum_add_p function draw
        added (u, v) (hu, hv) =
            let (eu, ru) = reduce u hu in
            let (ev, rv) = reduce v hv in
            let sum = ap₂ (λ (a b : ℕ). (a + b) % val (modulus f)) eu ev in
            let iff = is_residue_digits f _ _ (sized _ _ ru.0 rv.0) in
            (λ e. iff.0 (e ∙ sym sum), λ e. iff.1 e ∙ sum)

        subtracted :
            (draw : List ℕ × List ℕ)
            → Drawn (size f) draw
            → Subtracts (size f) (modulus f) function draw
              ↔ KeepsBinary f bignum_sub_p function draw
        subtracted (u, v) (hu, hv) =
            let (eu, ru) = reduce u hu in
            let (ev, rv) = reduce v hv in
            let difference = ap₂ (λ (a b : ℕ). (a + val (modulus f) - b) % val (modulus f)) eu ev in
            let iff = is_residue_digits f _ _ (sized _ _ ru.0 rv.0) in
            (λ e. iff.0 (e ∙ sym difference), λ e. iff.1 e ∙ difference)

  module _ (function : Unary)
      (sized : (x : List ℕ) → IsBignum (size f) x → IsBignum (size f) (function x)) where
    -- For a function that maps arrays of the field's size to such arrays and for draws of that size: the
    -- test of doublings returns 0 exactly if on every draw, reduced, the function writes what
    -- `bignum_double_p` promises, and the test of negations if on every input, the zeros put in by chance
    -- included, it writes what `bignum_neg_p` does.
    pub unary_tests-promised :
        (draws : List (List ℕ))
        → All (IsBignum (size f)) draws
        → (coins : List (List ℕ × Bool)) → All (λ d. IsBignum (size f) d.0) coins
        → ((double_test f function draws ≡ 0)
            ↔ All
                (λ u.
                  let x = reference_mod (size f) u (modulus f) in function x ≡ bignum_double_p f x)
                draws)
          × ((neg_test f function coins ≡ 0)
              ↔ All
                  (λ d. let x = neg_input (size f) (modulus f) d in function x ≡ bignum_neg_p f x)
                  coins)
    unfolding bignum_double_p bignum_neg_p
    unary_tests-promised draws drawn coins tossed = (
      iff_trans (double_test_lem f function sized draws drawn) (All-iff doubled draws drawn),
      iff_trans (neg_test_lem f function sized coins tossed) (All-iff negated coins tossed),
    )
      where
        doubled :
            (u : List ℕ)
            → IsBignum (size f) u
            → Doubles (size f) (modulus f) function u ↔ (
                function (reference_mod (size f) u (modulus f))
                ≡ bignum_double_p f (reference_mod (size f) u (modulus f)))
        doubled u hu =
            let (eu, ru) = reduce u hu in
            let p = val (modulus f) in
            let twice : 2 * val (reference_mod (size f) u (modulus f)) % p ≡ 2 * val u % p =
              ap (λ (a : ℕ). 2 * a % p) eu ∙ mul-mod-mod 2 (val u) p in
            let iff = is_residue_digits f _ _ (sized _ ru.0) in
            (λ e. iff.0 (e ∙ sym twice), λ e. iff.1 e ∙ twice)

        negated :
            (d : List ℕ × Bool)
            → IsBignum (size f) d.0
            → Negates (size f) (modulus f) function d ↔ (
                function (neg_input (size f) (modulus f) d)
                ≡ bignum_neg_p f (neg_input (size f) (modulus f) d))
        negated d hd =
            let (hp, pos) = modulus-IsBignum f in
            is_residue_digits f _ _ (sized _ (neg_input_lem (size f) (modulus f) hp pos d hd).0)
