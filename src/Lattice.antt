-- ===== src/Lattice.antt =====
-- tests/test.c, the arithmetic under the ML-KEM and ML-DSA references: powers modulo the two primes,
-- bit reversals, and the reductions of an ML-DSA coefficient.
pub mod Power
pub mod Reversal
pub mod Reduce
pub mod Rounding
pub mod Unpack
use s2n_bignum.Prelude.{
  ℕ, zero, suc, ◌+◌, ◌-◌, ◌*◌, ◌/◌, ◌%◌, ◌^◌, ◌==◌, if◌then◌else◌, bit_and, bit_or, List, [], ◌∷◌,
  get_or,
}
use s2n_bignum.Prelude.Int.{ℤ, pos, negsuc, ◌+ℤ◌, ◌-ℤ◌, ◌*ℤ◌}
use s2n_bignum.Word.{word_mod}

-- The recursion of pow_3329 and pow_8380417 on n >> 1, on fuel: `n` rounds are enough.
pub pow_loop : ℕ → ℕ → ℕ → ℕ → ℕ
pow_loop q zero x n = 1
pow_loop q (suc fuel) x n =
    let half = pow_loop q fuel x (n / 2) in
    let t = (half * half % word_mod) % q in
    if n == 0 then 1 else (if n % 2 == 0 then t else (x * t % word_mod) % q)

unfoldable pub pow_3329 : ℕ → ℕ → ℕ
unfolding pow_loop
pow_3329 x n = pow_loop 3329 n x n

unfoldable pub pow_8380417 : ℕ → ℕ → ℕ
unfolding pow_loop
pow_8380417 x n = pow_loop 8380417 n x n

unfoldable pub bitreverse_pairs : ℕ → ℕ
bitreverse_pairs x =
    let spread = bit_and (x * 0x40100401 % word_mod) 0x884422011 in
    bit_and (spread * 0x0101010101 % word_mod / 2 ^ 32) 0xFF

-- for (int i = 0; i < 8; i++) { result = (result << 1) | (x & 1); x >>= 1; }
pub bitrev8_loop : ℕ → ℕ → ℕ → ℕ
bitrev8_loop zero result x = result
bitrev8_loop (suc left) result x =
    bitrev8_loop left (bit_or (result * 2) (bit_and x 1) % 2 ^ 8) (x / 2)

unfoldable pub reference_bitrev8 : ℕ → ℕ
unfolding bitrev8_loop
reference_bitrev8 x = bitrev8_loop 8 0 x

unfoldable pub avx2_ntt_order : ℕ → ℕ
avx2_ntt_order i = reference_bitrev8 ((64 * (i / 64) + i % 64 / 8 + 8 * (i % 8)) % 2 ^ 8)

-- t[i] = a[order(i)] for i from `i` on, and the array that is written back.
unfoldable pub gather : (ℕ → ℕ) → List ℤ → ℕ → ℕ → List ℤ
gather order a i zero = []
gather order a i (suc left) = get_or a (order i) (pos 0) ∷ gather order a (suc i) left

unfoldable pub reference_bitreverse : List ℤ → List ℤ
unfolding gather
reference_bitreverse a = gather bitreverse_pairs a 0 256

unfoldable pub reference_mldsa_bitreverse : List ℤ → List ℤ
unfolding gather
reference_mldsa_bitreverse a = gather reference_bitrev8 a 0 256

-- The arithmetic shift: the quotient is rounded down.
unfoldable pub shift_right : ℤ → ℕ → ℤ
shift_right (pos n) k = pos (n / 2 ^ k)
shift_right (negsuc n) k = negsuc (n / 2 ^ k)

abbrev pub mldsa_q : ℕ
mldsa_q = 8380417

unfoldable pub reference_poly_reduce : ℤ → ℤ
reference_poly_reduce a = let t = shift_right (a +ℤ pos (2 ^ 22)) 23 in a -ℤ t *ℤ pos mldsa_q

unfoldable pub reference_poly_caddq : ℤ → ℤ
reference_poly_caddq (pos n) = pos n
reference_poly_caddq (negsuc n) = negsuc n +ℤ pos mldsa_q
