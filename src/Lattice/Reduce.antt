-- ===== src/Lattice/Reduce.antt =====
-- The reductions of an ML-DSA coefficient: the residue is kept, and the result is small.
use s2n_bignum.Prelude.{ℕ, ◌+◌, ◌-◌, ◌*◌, ◌%◌, ◌^◌, ◌≤◌, ◌<◌, ◌≡◌, refl, arith}
use s2n_bignum.Prelude.Int.{
  ℤ, pos, negsuc, ◌+ℤ◌, ◌-ℤ◌, ◌*ℤ◌, pos_part, neg_part, +ℤ_parts, -ℤ_parts,
}
use s2n_bignum.Lattice.{shift_right, mldsa_q, reference_poly_reduce, reference_poly_caddq}

-- A multiple of the modulus, by its two parts.
pub times_q :
    (t : ℤ)
    → pos_part (t *ℤ pos mldsa_q) + mldsa_q * neg_part t
      ≡ neg_part (t *ℤ pos mldsa_q) + mldsa_q * pos_part t
unfolding ◌*ℤ◌
times_q t = ground arith

-- The quotient is rounded down: s - 2 ^ 23 < 2 ^ 23 * t <= s.
shift_lem :
    (s : ℤ)
    → (2 ^ 23 * pos_part (shift_right s 23) + neg_part s
        ≤ pos_part s + 2 ^ 23 * neg_part (shift_right s 23))
      × (pos_part s + 2 ^ 23 * neg_part (shift_right s 23)
          < 2 ^ 23 * pos_part (shift_right s 23) + neg_part s + 2 ^ 23)
unfolding shift_right
shift_lem (pos n) = (omega arith, omega arith)
shift_lem (negsuc n) = (omega arith, omega arith)

-- Of the two parts of an integer one is 0.
one_part :
    (a : ℤ) (m n : ℕ)
    → pos_part a ≤ m + neg_part a
    → neg_part a ≤ n + pos_part a
    → (pos_part a ≤ m) × (neg_part a ≤ n)
one_part (pos k) m n h j = (omega arith, omega arith)
one_part (negsuc k) m n h j = (omega arith, omega arith)

-- On every coefficient for which the addition in the source does not overflow, the reduction
-- subtracts a multiple of the modulus and leaves a result between -6283009 and 6283008.
pub poly_reduce_lem :
    (a : ℤ)
    → pos_part a < 2 ^ 31 - 2 ^ 22
    → neg_part a ≤ 2 ^ 31
    → ((t : ℤ) × (reference_poly_reduce a ≡ a -ℤ t *ℤ pos mldsa_q))
      × (pos_part (reference_poly_reduce a) ≤ 6283008)
      × (neg_part (reference_poly_reduce a) ≤ 6283009)
unfolding reference_poly_reduce
poly_reduce_lem a high low =
    let s = a +ℤ pos (2 ^ 22) in
    let t = shift_right s 23 in
    let r = a -ℤ t *ℤ pos mldsa_q in
    let (floor, ceiling) = shift_lem s in
    let sum = +ℤ_parts a (pos (2 ^ 22)) in
    let difference = -ℤ_parts a (t *ℤ pos mldsa_q) in
    let multiple = times_q t in
    let (upper, lower) =
      one_part r 6283008 6283009
        (omega (arith, floor, ceiling, sum, difference, multiple, high, low))
        (omega (arith, floor, ceiling, sum, difference, multiple, high, low)) in
    ((t, refl), upper, lower)

-- The conditional addition brings a coefficient between -q and q - 1 into 0 .. q - 1 and keeps its
-- residue modulo q.
pub poly_caddq_lem :
    (a : ℤ)
    → pos_part a < mldsa_q
    → neg_part a ≤ mldsa_q
    → (neg_part (reference_poly_caddq a) ≡ 0)
      × (pos_part (reference_poly_caddq a) < mldsa_q)
      × ((pos_part (reference_poly_caddq a) + neg_part a) % mldsa_q ≡ pos_part a % mldsa_q)
unfolding reference_poly_caddq ◌+ℤ◌
poly_caddq_lem (pos n) high low = (refl, high, omega arith)
poly_caddq_lem (negsuc n) high low = (ground arith, ground arith, ground arith)
