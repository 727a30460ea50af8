-- ===== src/Examples/Lattice.antt =====
-- The theorems on powers, bit reversals and reductions at concrete inputs.
use s2n_bignum.Prelude.{
  inl, inr, ℕ, zero, suc, ◌^◌, ◌<◌, ◌≡◌, refl, List, [], ◌∷◌, arith, replicate, All, map, take,
}
use s2n_bignum.Contract.{digits_in, value_in}
use s2n_bignum.Prelude.Int.{ℤ, pos, negsuc, pos_part, neg_part}
use s2n_bignum.Lattice.{reference_bitreverse, reference_mldsa_bitreverse, reference_poly_reduce}
use s2n_bignum.Lattice.Reversal.{bitreverse_lem}
use s2n_bignum.Lattice.Unpack.{reference_mldsa_polyz_unpack}
use s2n_bignum.Lattice.Rounding.{reference_mldsa_decompose_32, reference_mldsa_decompose_88}
use s2n_bignum.Lattice.Rounding.Hint.{
  reference_mldsa_poly_use_hint_32, reference_mldsa_poly_use_hint_88,
}
use s2n_bignum.Contract.Lattice.{
  MldsaReduce, MldsaDecompose, mldsa_poly_use_hint, mldsa_caddq, mldsa_chknorm, mlkem_reduce,
  mldsa_polyz_unpack_17, mldsa_polyz_unpack_19,
}
use s2n_bignum.Contract.Lattice.Laws.{
  decompose-MldsaDecompose, use_hint-decompose, unpack-promised, poly_reduce-MldsaReduce,
}

abbrev polynomial : List ℤ
polynomial = pos 5 ∷ negsuc 2 ∷ replicate 254 (pos 1)

bitreverse_lem_example :
    (reference_bitreverse (reference_bitreverse polynomial) ≡ polynomial)
    × (reference_mldsa_bitreverse (reference_mldsa_bitreverse polynomial) ≡ polynomial)
bitreverse_lem_example = bitreverse_lem polynomial refl

poly_reduce-MldsaReduce_example :
    MldsaReduce
      (negsuc 99999999 ∷ pos 6283009 ∷ [])
      (map reference_poly_reduce (negsuc 99999999 ∷ pos 6283009 ∷ []))
poly_reduce-MldsaReduce_example =
    poly_reduce-MldsaReduce (negsuc 99999999 ∷ pos 6283009 ∷ [])
      ((omega arith, omega arith), ((omega arith, omega arith), tt))

abbrev packed : List ℕ
packed = replicate 256 3328

abbrev bytes : List ℕ
bytes = replicate 384 0xa5

replicate-All : (x b n : ℕ) → x < b → All (λ c. c < b) (replicate n x)
replicate-All x b zero h = tt
replicate-All x b (suc n) h = (h, replicate-All x b n h)

-- Negative coefficients are made positive, and of absolute values the largest decides.
coefficients_run :
    (mldsa_caddq (negsuc 0 ∷ pos 7 ∷ []) ≡ pos 8380416 ∷ pos 7 ∷ [])
    × (mlkem_reduce (negsuc 0 ∷ pos 3330 ∷ []) ≡ pos 3328 ∷ pos 1 ∷ [])
    × (mldsa_chknorm (negsuc 4 ∷ pos 3 ∷ []) 5 ≡ 1)
    × (mldsa_chknorm (negsuc 4 ∷ pos 3 ∷ []) 6 ≡ 0)
unfolding mldsa_caddq mlkem_reduce mldsa_chknorm s2n_bignum.Prelude.Int.◌+ℤ◌
coefficients_run = (refl, refl, refl, refl)

-- A byte 1 at the start makes the first coefficient one less than the bound.
unpack_run :
    (take 2 (mldsa_polyz_unpack_17 (1 ∷ [])) ≡ pos 131071 ∷ pos 131072 ∷ [])
    × (take 2 (mldsa_polyz_unpack_19 (1 ∷ [])) ≡ pos 524287 ∷ pos 524288 ∷ [])
unfolding mldsa_polyz_unpack_17 mldsa_polyz_unpack_19 digits_in value_in
unpack_run = (refl, refl)

unpack-promised_example :
    (reference_mldsa_polyz_unpack bytes 17 ≡ mldsa_polyz_unpack_17 bytes)
    × (reference_mldsa_polyz_unpack bytes 19 ≡ mldsa_polyz_unpack_19 bytes)
unpack-promised_example = unpack-promised bytes (replicate-All 0xa5 256 384 (omega arith))

-- The end of the range, a tie between two multiples, and a coefficient just above one.
abbrev canonical : List ℤ
canonical = pos 8380416 ∷ pos 261888 ∷ pos 523777 ∷ []

canonical_range : All (λ x. (pos_part x < 8380417) × (neg_part x ≡ 0)) canonical
canonical_range = ((omega arith, refl), ((omega arith, refl), ((omega arith, refl), tt)))

abbrev hints : List ℤ
hints = pos 1 ∷ pos 0 ∷ pos 1 ∷ []

decompose-MldsaDecompose_example :
    MldsaDecompose 261888 canonical
      (reference_mldsa_decompose_32 canonical).0
      (reference_mldsa_decompose_32 canonical).1
    × MldsaDecompose 95232 canonical
        (reference_mldsa_decompose_88 canonical).0
        (reference_mldsa_decompose_88 canonical).1
decompose-MldsaDecompose_example = decompose-MldsaDecompose canonical canonical_range

use_hint-decompose_example :
    (reference_mldsa_poly_use_hint_32 canonical hints
      ≡ mldsa_poly_use_hint 16
          (reference_mldsa_decompose_32 canonical).0
          (reference_mldsa_decompose_32 canonical).1
          hints)
    × (reference_mldsa_poly_use_hint_88 canonical hints
        ≡ mldsa_poly_use_hint 44
            (reference_mldsa_decompose_88 canonical).0
            (reference_mldsa_decompose_88 canonical).1
            hints)
use_hint-decompose_example =
    use_hint-decompose canonical hints canonical_range (inr refl, (inl refl, (inr refl, tt)))

-- Runs.
decompose_run :
    reference_mldsa_decompose_32 canonical
    ≡ (pos 0 ∷ pos 0 ∷ pos 1 ∷ [], negsuc 0 ∷ pos 261888 ∷ pos 1 ∷ [])
unfolding reference_mldsa_decompose_32 s2n_bignum.Lattice.Rounding.reference_mldsa_decompose
    s2n_bignum.Lattice.Rounding.decompose_round s2n_bignum.Lattice.Rounding.high_part
    s2n_bignum.Lattice.Rounding.low_border s2n_bignum.Lattice.Rounding.and_32
    s2n_bignum.Lattice.Rounding.to_bits s2n_bignum.Lattice.Rounding.of_bits
    s2n_bignum.Lattice.shift_right s2n_bignum.Prelude.Int.◌+ℤ◌ s2n_bignum.Prelude.Int.◌-ℤ◌
    s2n_bignum.Prelude.Int.◌*ℤ◌
decompose_run = refl

use_hint_run : reference_mldsa_poly_use_hint_32 canonical hints ≡ pos 15 ∷ pos 0 ∷ pos 2 ∷ []
unfolding reference_mldsa_poly_use_hint_32 s2n_bignum.Lattice.Rounding.Hint.use_hint_32_round
    s2n_bignum.Lattice.Rounding.Hint.hinted s2n_bignum.Lattice.Rounding.Hint.delta
    s2n_bignum.Lattice.Rounding.Hint.barrett_part s2n_bignum.Lattice.Rounding.int32
    s2n_bignum.Lattice.Rounding.and_32 s2n_bignum.Lattice.Rounding.to_bits
    s2n_bignum.Lattice.Rounding.of_bits s2n_bignum.Lattice.shift_right s2n_bignum.Prelude.Int.◌+ℤ◌
    s2n_bignum.Prelude.Int.◌-ℤ◌ s2n_bignum.Prelude.Int.◌*ℤ◌
use_hint_run = refl
