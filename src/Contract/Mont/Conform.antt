-- ===== src/Contract/Mont/Conform.antt =====
-- What the test functions for Montgomery form compare with is what include/s2n-bignum.h promises.
use s2n_bignum.Prelude.{ℕ, ◌+◌, ◌*◌, ◌%◌, ◌^◌, ◌<◌, ◌≡◌, sym, ap, ap₂, ◌∙◌, List, arith}
use s2n_bignum.Prelude.Powers.{mul-mod-mod, mul_bound, pow-add}
use s2n_bignum.Word.{word_mod}
use s2n_bignum.Bignum.{val, IsBignum, reference_copy, reference_of_word}
use s2n_bignum.Bignum.Digits.{
  val-lt, word_pow_pos, val-copy, copy-IsBignum, val-of_word, of_word-IsBignum,
}
use s2n_bignum.Bignum.Mul.{reference_mul}
use s2n_bignum.Bignum.Mul.Product.{val-mul, mul-IsBignum}
use s2n_bignum.Bignum.Div.{reference_mod}
use s2n_bignum.Bignum.Div.Quotient.{mod_lem}
use s2n_bignum.Bignum.Mont.{reference_modpowtwo}
use s2n_bignum.Bignum.Mont.PowerOfTwo.{modpowtwo_lem}
use s2n_bignum.Primes.{MontPrime, field, negated_inverse, size, modulus}
use s2n_bignum.Primes.Range.{modulus-IsBignum, negated_inverse_lem}
use s2n_bignum.Harness.Montgomery.{montmul_expected, demont_expected, tomont_expected}
use s2n_bignum.Contract.{digits}
use s2n_bignum.Contract.Arith.Conform.{is_digits}
use s2n_bignum.Contract.Field.{unscale}
use s2n_bignum.Contract.Field.Laws.{IsReduced, modulus-odd, modulus-large, positive}
use s2n_bignum.Contract.Mont.{
  bignum_montmul, bignum_montmul_p, bignum_montsqr_p, bignum_demont_p, bignum_tomont_p,
  bignum_modifier, bignum_montifier,
}
use s2n_bignum.Contract.Mont.Laws.{dmontmul-montmul}
use native.Mathlib.Nat.{mod-lt, mod-eq_of_lt, pow-suc, pow-zero}

-- A power of 2 modulo a number, as `bignum_modifier` and `bignum_montifier` promise it, is what their
-- tests compute by repeated doubling, for every k-digit modulus that is not 0.
pub modpowtwo-modifier :
    (k : ℕ) (m : List ℕ)
    → IsBignum k m
    → 0 < val m
    → (reference_modpowtwo k (64 * k) m ≡ bignum_modifier k m)
      × (reference_modpowtwo k (128 * k) m ≡ bignum_montifier k m)
unfolding bignum_modifier bignum_montifier
modpowtwo-modifier k m hm pos = (power (64 * k), power (128 * k))
  where
    power : (n : ℕ) → reference_modpowtwo k n m ≡ digits k (2 ^ n % val m)
    power n =
        let (h, e) = modpowtwo_lem k m hm pos n in
        is_digits k _ _ h (e ∙ sym (mod-eq_of_lt (omega (arith, mod-lt (2 ^ n) pos, val-lt m hm))))

product_bound : (a b m w : ℕ) → a < m → b < w → a * b < m * w
product_bound a b m w ha hb = omega (
  arith,
  mul_bound a b a w (omega arith) (omega arith),
  mul_bound (a + 1) w m w (omega arith) (omega arith),
)

square : (n : ℕ) → n * n ≡ n ^ 2
square n = grind (arith, pow-suc n 1, pow-suc n 0, pow-zero n)

scaled : (a b p : ℕ) → a % p * b % p ≡ a * b % p
scaled a b p =
    ap (λ (t : ℕ). t % p) (grind arith) ∙ mul-mod-mod b a p ∙ ap (λ (t : ℕ). t % p) (grind arith)

module _ (q : MontPrime) (x y : List ℕ) (hx : IsReduced (field q) x)
    (hy : IsReduced (field q) y) where
  expected :
      (z : List ℕ)
      → IsBignum (size (field q)) z
      → montmul_expected q x z ≡ bignum_montmul (size (field q)) x z (modulus (field q))
  unfolding montmul_expected
  expected z hz =
      let f = field q in
      let (hi, inverse) = negated_inverse_lem q in
      dmontmul-montmul (size f) x z (modulus f) (negated_inverse q) hx.0 hz (modulus-IsBignum f).0
        (modulus-odd f) hi inverse
        (product_bound (val x) (val z) (val (modulus f)) (word_mod ^ size f) hx.1 (val-lt z hz))

  tomont : tomont_expected q x ≡ bignum_tomont_p (field q) x
  unfolding tomont_expected bignum_tomont_p
  tomont =
      let f = field q in
      let k = size f in
      let p = val (modulus f) in
      let w = word_mod ^ k in
      let hm = modulus-IsBignum f in
      let pos = positive f in
      let t = reference_modpowtwo k (64 * k) (modulus f) in
      let (ht, et) = modpowtwo_lem k (modulus f) hm.0 pos (64 * k) in
      let b2 = reference_mul (2 * k) k t k x in
      let m = reference_copy (2 * k) k (modulus f) in
      let wide : word_mod ^ (2 * k) ≡ w * w =
        ap (λ (j : ℕ). word_mod ^ j) (omega arith) ∙ pow-add word_mod k k in
      let below_m = val-lt (modulus f) hm.0 in
      let e2 : val b2 ≡ val t * val x =
        val-mul (2 * k) k t k x ht hx.0
        ∙ mod-eq_of_lt (
            omega (arith, wide, product_bound (val t) (val x) w w (val-lt t ht) (val-lt x hx.0))) in
      let em : val m ≡ p =
        val-copy (2 * k) k (modulus f) hm.0
        ∙ mod-eq_of_lt
            (omega (arith, wide, below_m, mul_bound 1 w w w (word_pow_pos k) (omega arith))) in
      let (er, hr) =
        mod_lem (2 * k) b2 m (mul-IsBignum (2 * k) k t k x ht hx.0)
          (copy-IsBignum (2 * k) k (modulus f) hm.0) (omega (arith, em, pos)) in
      let r = reference_mod (2 * k) b2 m in
      let total : val r ≡ 2 ^ (64 * k) * val x % p =
        er
        ∙ ap₂ (λ (s u : ℕ). s % u) e2 em
        ∙ ap (λ (s : ℕ). s * val x % p) et
        ∙ scaled (2 ^ (64 * k)) (val x) p in
      is_digits k _ _ (copy-IsBignum k (2 * k) r hr)
        (val-copy k (2 * k) r hr ∙ ap (λ (s : ℕ). s % w) total)

  -- For reduced inputs modulo each of the five primes, the arrays that the tests of the Montgomery
  -- product and square, and of the ways out of and into Montgomery form compute are the promised ones.
  pub montgomery-promised :
      (montmul_expected q x y ≡ bignum_montmul_p (field q) x y)
      × (montmul_expected q x x ≡ bignum_montsqr_p (field q) x)
      × (demont_expected q x ≡ bignum_demont_p (field q) x)
      × (tomont_expected q x ≡ bignum_tomont_p (field q) x)
  unfolding bignum_montmul_p bignum_montsqr_p bignum_demont_p bignum_tomont_p bignum_montmul
      demont_expected tomont_expected montmul_expected
  montgomery-promised =
      let f = field q in
      let k = size f in
      let p = val (modulus f) in
      let out = λ (t : ℕ). digits k (unscale p (64 * k) (t % p)) in
      let one = reference_of_word k 1 in
      let hm = modulus-IsBignum f in
      let room : 1 < word_mod ^ k = omega (arith, modulus-large f, val-lt (modulus f) hm.0) in
      let value_one : val one ≡ 1 = val-of_word k 1 (omega arith) ∙ mod-eq_of_lt room in
      (
        expected y hy.0,
        expected x hx.0 ∙ ap out (square (val x)),
        expected one (of_word-IsBignum k 1 (omega arith))
            ∙ ap out (ap (λ (t : ℕ). val x * t) value_one ∙ omega arith),
        tomont,
      )
