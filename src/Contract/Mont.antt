-- ===== src/Contract/Mont.antt =====
-- include/s2n-bignum.h, Montgomery arithmetic, powers and inverses. `unscale m j n` is n / 2 ^ j
-- modulo an odd m. What the header promises only up to congruence is a relation between the inputs
-- and the output.
pub mod Laws
pub mod Conform
use s2n_bignum.Prelude.{
  ℕ, ◌+◌, ◌-◌, ◌*◌, ◌%◌, ◌^◌, ◌<◌, ◌≡◌, ◌≢◌, ◌⊎◌, List, nonzero, if◌then◌else◌,
}
use s2n_bignum.Word.{word_mod}
use s2n_bignum.Bignum.{val, IsBignum}
use s2n_bignum.Primes.{Field, size, modulus}
use s2n_bignum.Contract.{digits}
use s2n_bignum.Contract.Field.{unscale}

-- Modulo a k-digit m, for reduced inputs.
unfoldable pub bignum_modadd : ℕ → List ℕ → List ℕ → List ℕ → List ℕ
bignum_modadd k x y m = digits k ((val x + val y) % val m)

unfoldable pub bignum_modsub : ℕ → List ℕ → List ℕ → List ℕ → List ℕ
bignum_modsub k x y m = digits k ((val x + val m - val y) % val m)

unfoldable pub bignum_moddouble : ℕ → List ℕ → List ℕ → List ℕ
bignum_moddouble k x m = digits k (2 * val x % val m)

unfoldable pub bignum_modoptneg : ℕ → ℕ → List ℕ → List ℕ → List ℕ
bignum_modoptneg k p x m = if nonzero p then digits k ((val m - val x) % val m) else x

-- For an odd m, here and below.
unfoldable pub bignum_modexp : ℕ → List ℕ → List ℕ → List ℕ → List ℕ
bignum_modexp k a p m = digits k (val a ^ val p % val m)

unfoldable pub bignum_modifier : ℕ → List ℕ → List ℕ
bignum_modifier k m = digits k (2 ^ (64 * k) % val m)

unfoldable pub bignum_montifier : ℕ → List ℕ → List ℕ
bignum_montifier k m = digits k (2 ^ (128 * k) % val m)

unfoldable pub bignum_montmul : ℕ → List ℕ → List ℕ → List ℕ → List ℕ
bignum_montmul k x y m = digits k (unscale (val m) (64 * k) (val x * val y % val m))

unfoldable pub bignum_montsqr : ℕ → List ℕ → List ℕ → List ℕ
bignum_montsqr k x m = digits k (unscale (val m) (64 * k) (val x ^ 2 % val m))

-- Only the lowest p + k digits of x count.
unfoldable pub bignum_montredc : ℕ → ℕ → List ℕ → List ℕ → ℕ → List ℕ
bignum_montredc k n x m p =
    let low = val x % word_mod ^ (p + k) in digits k (unscale (val m) (64 * p) (low % val m))

unfoldable pub bignum_demont : ℕ → List ℕ → List ℕ → List ℕ
bignum_demont k x m = digits k (unscale (val m) (64 * k) (val x % val m))

-- The "almost" functions: any k digits congruent to the result.
abbrev pub BignumAmontifier : ℕ → List ℕ → List ℕ → Type 0
BignumAmontifier k m z = IsBignum k z × (val z % val m ≡ 2 ^ (128 * k) % val m)

abbrev pub BignumAmontmul : ℕ → List ℕ → List ℕ → List ℕ → List ℕ → Type 0
BignumAmontmul k x y m z = IsBignum k z × (2 ^ (64 * k) * val z % val m ≡ val x * val y % val m)

abbrev pub BignumAmontredc : ℕ → ℕ → List ℕ → List ℕ → ℕ → List ℕ → Type 0
BignumAmontredc k n x m p z =
    IsBignum k z × (2 ^ (64 * p) * val z % val m ≡ val x % word_mod ^ (p + k) % val m)

abbrev pub BignumAmontsqr : ℕ → List ℕ → List ℕ → List ℕ → Type 0
BignumAmontsqr k x m z = IsBignum k z × (2 ^ (64 * k) * val z % val m ≡ val x ^ 2 % val m)

-- For an odd b > 1 and an a that is coprime to it.
abbrev pub BignumModinv : ℕ → List ℕ → List ℕ → List ℕ → Type 0
BignumModinv k a b z = IsBignum k z × (val z < val b) × (val a * val z % val b ≡ 1)

-- For an odd x: x * z is -1 modulo 2 ^ (64 * k).
abbrev pub BignumNegmodinv : ℕ → List ℕ → List ℕ → Type 0
BignumNegmodinv k x z = IsBignum k z × ((val x * val z + 1) % word_mod ^ k ≡ 0)

-- The same modulo the primes, with 2 ^ (64 * size f) as the factor of the Montgomery form.
unfoldable pub bignum_montmul_p : Field → List ℕ → List ℕ → List ℕ
bignum_montmul_p f x y =
    digits (size f) (unscale (val (modulus f)) (64 * size f) (val x * val y % val (modulus f)))

unfoldable pub bignum_montsqr_p : Field → List ℕ → List ℕ
bignum_montsqr_p f x =
    digits (size f) (unscale (val (modulus f)) (64 * size f) (val x ^ 2 % val (modulus f)))

unfoldable pub bignum_tomont_p : Field → List ℕ → List ℕ
bignum_tomont_p f x = digits (size f) (2 ^ (64 * size f) * val x % val (modulus f))

unfoldable pub bignum_demont_p : Field → List ℕ → List ℕ
bignum_demont_p f x =
    digits (size f) (unscale (val (modulus f)) (64 * size f) (val x % val (modulus f)))

-- For any digits, where `bignum_demont_p` has reduced inputs.
unfoldable pub bignum_deamont_p : Field → List ℕ → List ℕ
bignum_deamont_p f x =
    digits (size f) (unscale (val (modulus f)) (64 * size f) (val x % val (modulus f)))

-- Offered for p256, p384 and sm2.
abbrev pub BignumMontinv : Field → List ℕ → List ℕ → Type 0
BignumMontinv f x z =
    IsBignum (size f) z
    × (val z < val (modulus f))
    × (((val x % val (modulus f) ≡ 0) × (val z ≡ 0))
        ⊎ ((val x % val (modulus f) ≢ 0)
            × (val x * val z % val (modulus f) ≡ 2 ^ (128 * size f) % val (modulus f))))
