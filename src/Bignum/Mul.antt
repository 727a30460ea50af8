-- ===== src/Bignum/Mul.antt =====
-- tests/test.c, multiplication of bignums, from one digit times a number up to full products.
pub mod Digit
pub mod Product
use s2n_bignum.Prelude.{
  ℕ, zero, suc, ◌-◌, List, [], ◌∷◌, ◌++◌, ltb, if◌then◌else◌, get_or, take, drop,
}
use s2n_bignum.Word.{add64, mul64, carryout2, multop}
use s2n_bignum.Bignum.{digit, zeros}
use s2n_bignum.Bignum.Add.{reference_adc, reference_sbb}

-- { xi = i < n ? x[i] : 0; hi = multop(a,xi), lo = a * xi; z[i] = lo + c; c = hi + carryout2(lo,c); }
pub cmul_loop : ℕ → ℕ → List ℕ → ℕ → ℕ → ℕ → List ℕ
cmul_loop a n x zero i c = []
cmul_loop a n x (suc left) i c =
    let xi = digit n x i in
    let hi = multop a xi in
    let lo = mul64 a xi in add64 lo c ∷ cmul_loop a n x left (suc i) (add64 hi (carryout2 lo c))

unfoldable pub reference_cmul : ℕ → ℕ → ℕ → List ℕ → List ℕ
unfolding cmul_loop
reference_cmul k a n x = cmul_loop a n x k 0 0

-- The array `z` is read and replaced.
unfoldable pub reference_cmadd : ℕ → List ℕ → ℕ → ℕ → List ℕ → List ℕ
reference_cmadd k z a n x = let temp = reference_cmul k a n x in (reference_adc k k z k temp 0).z

unfoldable pub reference_cmnegadd : ℕ → List ℕ → ℕ → ℕ → List ℕ → List ℕ
reference_cmnegadd k z a n x = let temp = reference_cmul k a n x in (reference_sbb k k z k temp 0).z

-- for (i; left more rounds; ++i) reference_cmadd(k-i,z+i,x[i],n,y); `z + i` is what follows the
-- first `i` digits.
pub madd_loop : ℕ → List ℕ → ℕ → List ℕ → ℕ → ℕ → List ℕ → List ℕ
madd_loop k x n y zero i z = z
madd_loop k x n y (suc left) i z =
    madd_loop k x n y left (suc i)
      (take i z ++ reference_cmadd (k - i) (drop i z) (get_or x i 0) n y)

unfoldable pub reference_madd : ℕ → List ℕ → ℕ → List ℕ → ℕ → List ℕ → List ℕ
unfolding madd_loop
reference_madd k z m x n y = let km = if ltb k m then k else m in madd_loop k x n y km 0 z

unfoldable pub reference_mul : ℕ → ℕ → List ℕ → ℕ → List ℕ → List ℕ
reference_mul k m x n y = reference_madd k (zeros k) m x n y
