-- ===== src/Examples/Arithmetic.antt =====
-- The theorems on bignum arithmetic at concrete inputs, and runs of the functions.
use s2n_bignum.Prelude.{ℕ, ◌+◌, ◌*◌, ◌/◌, ◌%◌, ◌^◌, ◌≡◌, refl, List, [], ◌∷◌, arith}
use s2n_bignum.Word.{word_mod, multop, carryout2, carryout3, borrowout3}
use s2n_bignum.Bignum.{val, IsBignum, digit, zeros}
use s2n_bignum.Bignum.Add.{reference_adc, reference_sbb}
use s2n_bignum.Bignum.Compare.{reference_compare}
use s2n_bignum.Bignum.Mul.{reference_cmul, reference_cmadd, reference_mul, reference_madd}
use s2n_bignum.Bignum.Mul.Product.{val-madd}
use s2n_bignum.Bignum.Div.{reference_divmod, reference_gcd}
use s2n_bignum.Bignum.Div.Quotient.{divmod_lem}
use s2n_bignum.Bignum.Div.Gcd.{gcd_lem, Returns}

-- Two digits with carries to pass on, and two small numbers.
abbrev wide : List ℕ
wide = 0xFFFF_FFFF_FFFF_FFFF ∷ 5 ∷ []

abbrev other : List ℕ
other = 3 ∷ 0xFFFF_FFFF_FFFF_FFFE ∷ []

abbrev twelve : List ℕ
twelve = 12 ∷ 0 ∷ []

abbrev eighteen : List ℕ
eighteen = 18 ∷ 0 ∷ []

wide-IsBignum : IsBignum 2 wide
wide-IsBignum = omega arith

other-IsBignum : IsBignum 2 other
other-IsBignum = omega arith

twelve-IsBignum : IsBignum 2 twelve
twelve-IsBignum = omega arith

eighteen-IsBignum : IsBignum 2 eighteen
eighteen-IsBignum = omega arith

val-madd_example :
    val (reference_madd 2 twelve 2 wide 2 other)
    ≡ (val twelve + val wide * val other) % word_mod ^ 2
val-madd_example = val-madd 2 2 wide 2 other wide-IsBignum other-IsBignum twelve twelve-IsBignum

divmod_lem_example :
    (val (reference_divmod 2 other wide).q ≡ val other / val wide)
    × (val (reference_divmod 2 other wide).r ≡ val other % val wide)
    × IsBignum 2 (reference_divmod 2 other wide).q
    × IsBignum 2 (reference_divmod 2 other wide).r
unfolding val
divmod_lem_example = divmod_lem 2 other wide other-IsBignum wide-IsBignum (omega arith)

gcd_lem_example : Returns 2 twelve eighteen (reference_gcd 31 2 twelve eighteen)
unfolding val
gcd_lem_example = gcd_lem 2 31 twelve eighteen twelve-IsBignum eighteen-IsBignum (omega arith)

adc_runs : (reference_adc 2 2 wide 1 (1 ∷ []) 0).z ≡ 0 ∷ 6 ∷ []
unfolding reference_adc digit carryout3
adc_runs = refl

mul_runs : reference_mul 2 2 wide 1 (2 ∷ []) ≡ 0xFFFF_FFFF_FFFF_FFFE ∷ 11 ∷ []
unfolding reference_mul reference_madd reference_cmadd reference_adc digit zeros reference_cmul
    multop carryout2 carryout3
mul_runs = refl

divmod_runs : (reference_divmod 1 (100 ∷ []) (7 ∷ [])).r ≡ 2 ∷ []
unfolding reference_divmod reference_compare digit reference_adc zeros carryout3 reference_sbb
    borrowout3
divmod_runs = refl
