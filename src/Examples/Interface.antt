-- ===== src/Examples/Interface.antt =====
-- The theorems on the promises of include/s2n-bignum.h at concrete inputs, and runs of the definitions.
use s2n_bignum.Prelude.{ℕ, ◌-◌, ◌*◌, ◌^◌, ◌≡◌, refl, List, [], ◌∷◌, arith, some}
use s2n_bignum.Bignum.Mul.{
  reference_cmul, reference_cmadd, reference_cmnegadd, reference_mul, reference_madd,
}
use s2n_bignum.Bignum.Bytes.{reference_bigendian, reference_littleendian, reference_tolebytes}
use s2n_bignum.Primes.{mont256, p256}
use s2n_bignum.Harness.Montgomery.{montmul_expected, demont_expected, tomont_expected}
use s2n_bignum.Contract.Arith.Multiples.{multiples-promised}
use s2n_bignum.Contract.Bytes.Conform.{endian-promised}
use s2n_bignum.Contract.Field.Laws.{IsReduced}
use s2n_bignum.Contract.Mont.Conform.{modpowtwo-modifier, montgomery-promised}
use s2n_bignum.Bignum.{val, IsBignum}
use s2n_bignum.Bignum.Add.{reference_adc, reference_sbb}
use s2n_bignum.Bignum.Compare.{
  reference_le, reference_eq_samelen, reference_lt_samelen, reference_le_samelen,
  reference_gt_samelen, reference_ge_samelen, reference_iszero,
}
use s2n_bignum.Bignum.OddGcd.{reference_odd, reference_even, reference_shr_samelen}
use s2n_bignum.Bignum.Mont.{reference_dmontmul, reference_negmodinv, reference_modpowtwo}
use s2n_bignum.Contract.{value_in, digits_in}
use s2n_bignum.Contract.Arith.{
  bignum_add, bignum_sub, bignum_mul, bignum_madd, bignum_cmul, bignum_cmadd, bignum_cmnegadd,
}
use s2n_bignum.Contract.Arith.Conform.{adc-add, sbb-sub, mul-madd}
use s2n_bignum.Contract.Mont.{
  bignum_montmul, BignumNegmodinv, bignum_montmul_p, bignum_montsqr_p, bignum_demont_p,
  bignum_tomont_p, bignum_modifier, bignum_montifier,
}
use s2n_bignum.Contract.Mont.Laws.{dmontmul-montmul, negmodinv-BignumNegmodinv}
use s2n_bignum.Contract.Bits.{
  bignum_bitsize, bignum_clz, bignum_shr_small, bignum_le, bignum_iszero, bignum_odd, bignum_even,
  bignum_eq, bignum_lt, bignum_gt, bignum_ge, bignum_ctz, bignum_ctd, bignum_bitfield,
  word_popcount, word_recip, significant, trailing, set_bits,
}
use s2n_bignum.Contract.Bits.Conform.{comparisons-promised, shr_samelen-shr_small}
use s2n_bignum.Contract.Bytes.{
  bignum_littleendian, bignum_tolebytes, bignum_bigendian, word_bytereverse,
}
use s2n_bignum.Contract.Bytes.Laws.{IsBytes}

abbrev wide : List ℕ
wide = 0xFFFF_FFFF_FFFF_FFFF ∷ 5 ∷ []

abbrev other : List ℕ
other = 3 ∷ 0xFFFF_FFFF_FFFF_FFFE ∷ []

wide-IsBignum : IsBignum 2 wide
wide-IsBignum = omega arith

other-IsBignum : IsBignum 2 other
other-IsBignum = omega arith

adc-add_example : reference_adc 2 2 wide 2 other 0 ≡ bignum_add 2 2 wide 2 other
adc-add_example = adc-add 2 2 wide 2 other wide-IsBignum other-IsBignum

sbb-sub_example : reference_sbb 2 2 wide 2 other 0 ≡ bignum_sub 2 2 wide 2 other
sbb-sub_example = sbb-sub 2 2 wide 2 other wide-IsBignum other-IsBignum

abbrev seven : List ℕ
seven = 7 ∷ []

abbrev six : List ℕ
six = 6 ∷ []

abbrev nine : List ℕ
nine = 9 ∷ 1 ∷ []

-- 7 * 7905747460161236407 is 3 * 2 ^ 64 + 1, so this is its negation.
abbrev seven_inverse : List ℕ
seven_inverse = 10540996613548315209 ∷ []

dmontmul-montmul_example :
    reference_dmontmul 1 six six seven seven_inverse ≡ bignum_montmul 1 six six seven
unfolding val
dmontmul-montmul_example =
    dmontmul-montmul 1 six six seven seven_inverse (omega arith) (omega arith) (omega arith) refl
      (omega arith) refl (omega arith)

negmodinv-BignumNegmodinv_example :
    (z : List ℕ) × (reference_negmodinv 2 2 nine ≡ some z)
    × BignumNegmodinv 2 nine z
    × ((w : List ℕ) → BignumNegmodinv 2 nine w → w ≡ z)
unfolding val
negmodinv-BignumNegmodinv_example =
    negmodinv-BignumNegmodinv 2 2 nine (omega arith) (omega arith) (omega arith)

comparisons-promised_example :
    (reference_le 2 wide 2 other ≡ bignum_le 2 wide 2 other)
    × (reference_iszero 2 wide ≡ bignum_iszero 2 wide)
    × (reference_odd 2 wide ≡ bignum_odd 2 wide)
    × (reference_even 2 wide ≡ bignum_even 2 wide)
    × (reference_eq_samelen 2 wide wide ≡ bignum_eq 2 wide 2 wide)
    × (reference_lt_samelen 2 wide wide ≡ bignum_lt 2 wide 2 wide)
    × (reference_le_samelen 2 wide wide ≡ bignum_le 2 wide 2 wide)
    × (reference_gt_samelen 2 wide wide ≡ bignum_gt 2 wide 2 wide)
    × (reference_ge_samelen 2 wide wide ≡ bignum_ge 2 wide 2 wide)
comparisons-promised_example =
    comparisons-promised 2 wide 2 other wide wide-IsBignum other-IsBignum wide-IsBignum

abbrev eight_bytes : List ℕ
eight_bytes = 1 ∷ 2 ∷ 3 ∷ 4 ∷ 5 ∷ 6 ∷ 7 ∷ 8 ∷ []

eight_bytes-IsBytes : IsBytes 8 eight_bytes
eight_bytes-IsBytes = omega arith

multiples-promised_example :
    (reference_cmul 2 9 2 other ≡ (bignum_cmul 2 9 2 other).z)
    × (reference_cmadd 2 wide 9 2 other ≡ (bignum_cmadd 2 wide 9 2 other).z)
    × (reference_cmnegadd 2 wide 9 2 other ≡ (bignum_cmnegadd 2 wide 9 2 other).z)
multiples-promised_example =
    multiples-promised 2 9 wide 2 other (omega arith) wide-IsBignum other-IsBignum

mul-madd_example :
    (reference_mul 2 2 wide 2 other ≡ bignum_mul 2 2 wide 2 other)
    × (reference_madd 2 wide 2 wide 2 other ≡ (bignum_madd 2 wide 2 wide 2 other).z)
mul-madd_example = mul-madd 2 2 wide 2 other wide-IsBignum other-IsBignum wide wide-IsBignum

endian-promised_example :
    (reference_bigendian wide ≡ bignum_bigendian 2 wide)
    × (reference_littleendian wide ≡ bignum_littleendian 2 wide)
    × (reference_tolebytes (8 * 2) wide ≡ bignum_tolebytes 2 wide)
endian-promised_example = endian-promised 2 wide wide-IsBignum

shr_samelen-shr_small_example : reference_shr_samelen 2 wide 0 ≡ bignum_shr_small 2 2 wide 1
shr_samelen-shr_small_example = shr_samelen-shr_small 2 wide wide-IsBignum

modpowtwo-modifier_example :
    (reference_modpowtwo 2 (64 * 2) wide ≡ bignum_modifier 2 wide)
    × (reference_modpowtwo 2 (128 * 2) wide ≡ bignum_montifier 2 wide)
unfolding val
modpowtwo-modifier_example = modpowtwo-modifier 2 wide wide-IsBignum (omega arith)

-- A reduced element for the prime of 256 bits.
abbrev element : List ℕ
element = 5 ∷ 0 ∷ 0 ∷ 7 ∷ []

element-IsReduced : IsReduced p256 element
unfolding val
element-IsReduced = (omega arith, omega arith)

montgomery-promised_example :
    (montmul_expected mont256 element element ≡ bignum_montmul_p p256 element element)
    × (montmul_expected mont256 element element ≡ bignum_montsqr_p p256 element)
    × (demont_expected mont256 element ≡ bignum_demont_p p256 element)
    × (tomont_expected mont256 element ≡ bignum_tomont_p p256 element)
montgomery-promised_example =
    montgomery-promised mont256 element element element-IsReduced element-IsReduced

-- Runs.
bitsize_run : (bignum_bitsize 2 wide ≡ 67) × (bignum_clz 2 wide ≡ 61)
unfolding bignum_bitsize bignum_clz val significant
bitsize_run = (refl, refl)

trailing_run :
    (bignum_ctz 2 (0 ∷ 8 ∷ []) ≡ 67)
    × (bignum_ctz 2 (0 ∷ 0 ∷ []) ≡ 128)
    × (bignum_ctd 2 (0 ∷ 8 ∷ []) ≡ 1)
unfolding bignum_ctz bignum_ctd val trailing
trailing_run = (refl, refl, refl)

bytereverse_run : word_bytereverse 0x0102030405060708 ≡ 0x0807060504030201
unfolding word_bytereverse value_in digits_in
bytereverse_run = refl

words_run : (word_popcount 0xFF00FF ≡ 16) × (word_recip (2 ^ 63) ≡ 2 ^ 64 - 1)
unfolding word_popcount word_recip set_bits
words_run = (refl, refl)

bitfield_run : bignum_bitfield 2 wide 60 8 ≡ 0x5F
unfolding bignum_bitfield val
bitfield_run = refl
