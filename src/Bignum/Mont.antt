-- ===== src/Bignum/Mont.antt =====
-- tests/test.c, what Montgomery arithmetic needs: powers of two modulo a number, negated inverses
-- modulo a power of two, and the Montgomery product. Where the source passes a size below the
-- array's, or a pointer into the array, `take` and `drop` say which digits are meant.
pub mod PowerOfTwo
pub mod Product
pub mod WordInverse
pub mod Inverse
use s2n_bignum.Prelude.{
  ℕ, zero, suc, ◌+◌, ◌-◌, ◌*◌, ◌%◌, ◌^◌, List, [], ◌∷◌, ◌++◌, Option, none, some,
}
use s2n_bignum.Prelude.{if◌then◌else◌, ◌==◌, ltb, get_or, take, drop, bit_or, bit_xor}
use s2n_bignum.Word.{word_mod, add64, sub64, mul64}
use s2n_bignum.Bignum.{zeros, reference_of_word}
use s2n_bignum.Bignum.Add.{reference_adc, reference_optsub}
use s2n_bignum.Bignum.Compare.{reference_le, reference_le_samelen}
use s2n_bignum.Bignum.Mul.{reference_madd, reference_mul}

-- for (i; left more rounds; ++i) { ... }
pub modpowtwo_loop : ℕ → List ℕ → ℕ → ℕ → List ℕ → List ℕ
modpowtwo_loop k m zero i z = z
modpowtwo_loop k m (suc left) i z =
    let c = if i == 0 then 1 else 0 in
    let s = reference_adc k k z k z c in
    let p = reference_le_samelen k m s.z in
    modpowtwo_loop k m left (suc i) (reference_optsub k s.z (bit_or s.c p) m).z

unfoldable pub reference_modpowtwo : ℕ → ℕ → List ℕ → List ℕ
unfolding modpowtwo_loop
reference_modpowtwo k n m = modpowtwo_loop k m (suc n) 0 (reference_of_word k 0)

unfoldable pub reference_dmontmul : ℕ → List ℕ → List ℕ → List ℕ → List ℕ → List ℕ
reference_dmontmul k x y m i =
    let t1 = reference_mul (2 * k + 1) k x k y in
    let z1 = reference_mul k k (take k t1) k i in
    let t2 = reference_madd (2 * k + 1) t1 k m k z1 in
    let p = reference_le k m (suc k) (drop k t2) in (reference_optsub k (take k (drop k t2)) p m).z

-- `a << 2` loses what does not fit, and `^` is exclusive or.
unfoldable pub reference_wordnegmodinv : ℕ → ℕ
reference_wordnegmodinv a =
    let x0 = bit_xor (sub64 a (mul64 a 4)) 2 in
    let e0 = add64 (mul64 a x0) 1 in
    let x1 = add64 (mul64 e0 x0) x0 in
    let e1 = mul64 e0 e0 in
    let x2 = add64 (mul64 e1 x1) x1 in
    let e2 = mul64 e1 e1 in
    let x3 = add64 (mul64 e2 x2) x2 in let e3 = mul64 e2 e2 in add64 (mul64 e3 x3) x3

-- The body of `while (b < k)`, from b to b2 digits; x[b] and what follows is 0 before it.
unfoldable pub negmodinv_step : List ℕ → ℕ → ℕ → List ℕ → List ℕ
negmodinv_step a b b2 x =
    let y0 = reference_of_word b2 1 in
    let y = reference_madd b2 y0 b2 (take b2 a) b (take b x) in
    take b x
    ++ reference_madd (b2 - b) (take (b2 - b) (drop b x)) b (take b x) (b2 - b) (drop b y)
    ++ drop b2 x

-- while (b < k) { b2 = 2 * b; if (b2 > k) b2 = k; ...; b = b2; } with fuel.
pub negmodinv_loop : ℕ → ℕ → List ℕ → ℕ → List ℕ → Option (List ℕ)
negmodinv_loop zero k a b x = none
negmodinv_loop (suc fuel) k a b x =
    let b2 = if ltb k (2 * b) then k else 2 * b in
    let rest = negmodinv_loop fuel k a b2 (negmodinv_step a b b2 x) in
    if ltb b k then rest else some x

unfoldable pub reference_negmodinv : ℕ → ℕ → List ℕ → Option (List ℕ)
unfolding negmodinv_step negmodinv_loop
reference_negmodinv fuel zero a = some []
reference_negmodinv fuel (suc k) a =
    negmodinv_loop fuel (suc k) a 1 (reference_wordnegmodinv (get_or a 0 0) ∷ zeros k)
