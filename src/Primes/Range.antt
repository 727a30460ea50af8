-- ===== src/Primes/Range.antt =====
-- The moduli are bignums of their sizes, and not 0.
use s2n_bignum.Prelude.{
  ℕ, ◌+◌, ◌*◌, ◌%◌, ◌^◌, ◌<◌, ◌≡◌, refl, List, [], ◌∷◌, ltb, Bool, true, arith, All, ltb→lt, ◌&&◌,
}
use s2n_bignum.Word.{word_mod}
use s2n_bignum.Bignum.{val, IsBignum}
use s2n_bignum.Primes.{
  Field, curve25519, p256, p256k1, p384, p521, sm2, size, modulus, MontPrime, mont256, mont256k1,
  mont384, mont521, montsm2, field, negated_inverse,
}

all_digits : List ℕ → Bool
all_digits [] = true
all_digits (d ∷ x) = ltb d word_mod && all_digits x

both : (a b : Bool) → a && b ≡ true → (a ≡ true) × (b ≡ true)
both a b h = ground (arith, h)

digits_range : (x : List ℕ) → all_digits x ≡ true → All (λ d. d < word_mod) x
unfolding all_digits
digits_range [] h = tt
digits_range (d ∷ x) h =
    let (first, rest) = both (ltb d word_mod) (all_digits x) h in
    (ltb→lt d word_mod first, digits_range x rest)

pub modulus-IsBignum : (f : Field) → IsBignum (size f) (modulus f) × (0 < val (modulus f))
unfolding val all_digits
modulus-IsBignum curve25519 = ((refl, digits_range (modulus curve25519) refl), omega arith)
modulus-IsBignum p256 = ((refl, digits_range (modulus p256) refl), omega arith)
modulus-IsBignum p256k1 = ((refl, digits_range (modulus p256k1) refl), omega arith)
modulus-IsBignum p384 = ((refl, digits_range (modulus p384) refl), omega arith)
modulus-IsBignum p521 = ((refl, digits_range (modulus p521) refl), omega arith)
modulus-IsBignum sm2 = ((refl, digits_range (modulus sm2) refl), omega arith)

pub negated_inverse_lem :
    (q : MontPrime)
    → IsBignum (size (field q)) (negated_inverse q)
      × ((val (modulus (field q)) * val (negated_inverse q) + 1) % word_mod ^ size (field q) ≡ 0)
unfolding val all_digits
negated_inverse_lem mont256 = ((refl, digits_range (negated_inverse mont256) refl), refl)
negated_inverse_lem mont256k1 = ((refl, digits_range (negated_inverse mont256k1) refl), refl)
negated_inverse_lem mont384 = ((refl, digits_range (negated_inverse mont384) refl), refl)
negated_inverse_lem mont521 = ((refl, digits_range (negated_inverse mont521) refl), refl)
negated_inverse_lem montsm2 = ((refl, digits_range (negated_inverse montsm2) refl), refl)
