-- ===== src/Lattice/Rounding.antt =====
-- tests/test.c, reference_mldsa_decompose, reference_mldsa_poly_use_hint_32 and
-- reference_mldsa_poly_use_hint_88: the high and the low part of an ML-DSA coefficient, and the high part
-- that a hint corrects. A 32-bit integer is an integer, and its bits those of its two's complement.
pub mod Decompose
pub mod Hint
use s2n_bignum.Prelude.{
  ℕ, ◌+◌, ◌-◌, ◌*◌, ◌/◌, ◌%◌, ◌^◌, ◌==◌, if◌then◌else◌, ltb, bit_and, bit_xor, List, [], ◌∷◌, map,
}
use s2n_bignum.Prelude.Int.{ℤ, pos, negsuc, pos_part, neg_part, ◌+ℤ◌, ◌-ℤ◌, ◌*ℤ◌, ltb_ℤ}
use s2n_bignum.Lattice.{shift_right, mldsa_q}

unfoldable pub to_bits : ℤ → ℕ
to_bits (pos n) = n % 2 ^ 32
to_bits (negsuc n) = 2 ^ 32 - 1 - n % 2 ^ 32

unfoldable pub of_bits : ℕ → ℤ
of_bits b = if ltb b (2 ^ 31) then pos b else negsuc (2 ^ 32 - 1 - b)

-- (int32_t)x
unfoldable pub int32 : ℤ → ℤ
int32 x = of_bits (to_bits x)

unfoldable pub and_32 : ℤ → ℤ → ℤ
and_32 x y = of_bits (bit_and (to_bits x) (to_bits y))

unfoldable pub xor_32 : ℤ → ℤ → ℤ
xor_32 x y = of_bits (bit_xor (to_bits x) (to_bits y))

-- a1 ^= ((43 - a1) >> 31) & a1, and a1 &= 15.
unfoldable pub wrap_88 : ℤ → ℤ
wrap_88 a1 = xor_32 a1 (and_32 (shift_right (pos 43 -ℤ a1) 31) a1)

unfoldable pub high_part : ℕ → ℤ → ℤ
high_part gamma2 a =
    let a1 = shift_right (a +ℤ pos 127) 7 in
    if gamma2 == (mldsa_q - 1) / 88
    then wrap_88 (shift_right (a1 *ℤ pos 11275 +ℤ pos (2 ^ 23)) 24)
    else and_32 (shift_right (a1 *ℤ pos 1025 +ℤ pos (2 ^ 21)) 22) (pos 15)

-- a0 -= (((Q - 1) / 2 - a0) >> 31) & Q
unfoldable pub low_border : ℤ → ℤ
low_border a0 = a0 -ℤ and_32 (shift_right (pos ((mldsa_q - 1) / 2) -ℤ a0) 31) (pos mldsa_q)

-- One round of the loop: what is written at the place in the two arrays.
unfoldable pub decompose_round : ℕ → ℤ → ℤ × ℤ
decompose_round gamma2 a =
    let a1 = high_part gamma2 a in (a1, low_border (a -ℤ a1 *ℤ pos 2 *ℤ pos gamma2))

unfoldable pub reference_mldsa_decompose : ℕ → List ℤ → List ℤ × List ℤ
reference_mldsa_decompose gamma2 a =
    (map (λ x. (decompose_round gamma2 x).0) a, map (λ x. (decompose_round gamma2 x).1) a)

unfoldable pub reference_mldsa_decompose_32 : List ℤ → List ℤ × List ℤ
reference_mldsa_decompose_32 a = reference_mldsa_decompose (8380416 / 32) a

unfoldable pub reference_mldsa_decompose_88 : List ℤ → List ℤ × List ℤ
reference_mldsa_decompose_88 a = reference_mldsa_decompose (8380416 / 88) a
