-- ===== src/Contract/Arith.antt =====
-- include/s2n-bignum.h, arithmetic of any size and selection. `Carried` holds an output array and the
-- word that the function returns.
pub mod Conform
pub mod Laws
pub mod Multiples
use s2n_bignum.Prelude.{
  ℕ, ◌+◌, ◌-◌, ◌*◌, ◌/◌, ◌%◌, ◌^◌, List, ltb, leb, nonzero, of_bool, if◌then◌else◌, take, drop,
}
use s2n_bignum.Word.{word_mod}
use s2n_bignum.Bignum.{val}
use s2n_bignum.Bignum.Add.{Carried}
use s2n_bignum.Contract.{digits}

-- Only the input words below the p'th count, and the carry is the one into the p'th place.
unfoldable pub bignum_add : ℕ → ℕ → List ℕ → ℕ → List ℕ → Carried
bignum_add p m x n y =
    let sum = val x % word_mod ^ p + val y % word_mod ^ p in
    record { z = digits p sum; c = sum / word_mod ^ p }

unfoldable pub bignum_sub : ℕ → ℕ → List ℕ → ℕ → List ℕ → Carried
bignum_sub p m x n y =
    let a = val x % word_mod ^ p in
    let b = val y % word_mod ^ p in
    record { z = digits p (a + word_mod ^ p - b); c = of_bool (ltb a b) }

unfoldable pub bignum_optadd : ℕ → List ℕ → ℕ → List ℕ → Carried
bignum_optadd k x p y =
    let sum = val x + (if nonzero p then val y else 0) in
    record { z = digits k sum; c = sum / word_mod ^ k }

unfoldable pub bignum_optsub : ℕ → List ℕ → ℕ → List ℕ → Carried
bignum_optsub k x p y =
    let b = if nonzero p then val y else 0 in
    record { z = digits k (val x + word_mod ^ k - b); c = of_bool (ltb (val x) b) }

-- The return value says that the input is not 0, whatever `p` is.
unfoldable pub bignum_optneg : ℕ → ℕ → List ℕ → Carried
bignum_optneg k p x = record {
  z = if nonzero p then digits k (word_mod ^ k - val x) else digits k (val x);
  c = of_bool (nonzero (val x));
}

-- A `p` with its top bit set is negative.
unfoldable pub bignum_optsubadd : ℕ → List ℕ → ℕ → List ℕ → Carried
bignum_optsubadd k x p y =
    if leb (2 ^ 63) p
    then record { z = digits k (val x + word_mod ^ k - val y); c = of_bool (ltb (val x) (val y)) }
    else (if nonzero p
        then record { z = digits k (val x + val y); c = (val x + val y) / word_mod ^ k }
        else record { z = digits k (val x); c = 0 })

unfoldable pub bignum_mul : ℕ → ℕ → List ℕ → ℕ → List ℕ → List ℕ
bignum_mul k m x n y = digits k (val x * val y)

unfoldable pub bignum_sqr : ℕ → ℕ → List ℕ → List ℕ
bignum_sqr k n x = digits k (val x ^ 2)

-- The words of `y` from the k'th on are not read.
unfoldable pub bignum_cmul : ℕ → ℕ → ℕ → List ℕ → Carried
bignum_cmul k c n y =
    let product = c * (val y % word_mod ^ k) in
    record { z = digits k product; c = product / word_mod ^ k }

unfoldable pub bignum_cmadd : ℕ → List ℕ → ℕ → ℕ → List ℕ → Carried
bignum_cmadd k z c n y =
    let total = val z + c * (val y % word_mod ^ k) in
    record { z = digits k total; c = total / word_mod ^ k }

-- With the new digits z' and the word r that is returned, z' - 2 ^ (64 * k) * r = z - c * y.
unfoldable pub bignum_cmnegadd : ℕ → List ℕ → ℕ → ℕ → List ℕ → Carried
bignum_cmnegadd k z c n y =
    let product = c * (val y % word_mod ^ k) in
    let borrowed = (product - val z + (word_mod ^ k - 1)) / word_mod ^ k in
    record { z = digits k (val z + word_mod ^ k * borrowed - product); c = borrowed }

-- The word that is returned is the next one above the k digits.
unfoldable pub bignum_madd : ℕ → List ℕ → ℕ → List ℕ → ℕ → List ℕ → Carried
bignum_madd k z m x n y =
    let total = val z + val x * val y in
    record { z = digits k total; c = total / word_mod ^ k % word_mod }

-- For a word `m` that is not 0: the quotient is truncated, the remainder is always the true one.
unfoldable pub bignum_cdiv : ℕ → ℕ → List ℕ → ℕ → Carried
bignum_cdiv k n x m = record { z = digits k (val x / m); c = val x % m }

-- For a word `m` that divides `x`.
unfoldable pub bignum_cdiv_exact : ℕ → ℕ → List ℕ → ℕ → List ℕ
bignum_cdiv_exact k n x m = digits k (val x / m)

unfoldable pub bignum_cmod : ℕ → List ℕ → ℕ → ℕ
bignum_cmod k x m = val x % m

unfoldable pub bignum_divmod10 : ℕ → List ℕ → Carried
bignum_divmod10 k z = record { z = digits k (val z / 10); c = val z % 10 }

unfoldable pub bignum_muladd10 : ℕ → List ℕ → ℕ → Carried
bignum_muladd10 k z d =
    let total = 10 * val z + d in record { z = digits k total; c = total / word_mod ^ k }

unfoldable pub bignum_copy : ℕ → ℕ → List ℕ → List ℕ
bignum_copy k n x = digits k (val x)

unfoldable pub bignum_of_word : ℕ → ℕ → List ℕ
bignum_of_word k n = digits k n

unfoldable pub bignum_pow2 : ℕ → ℕ → List ℕ
bignum_pow2 k n = digits k (2 ^ n)

unfoldable pub bignum_mux : ℕ → ℕ → List ℕ → List ℕ → List ℕ
bignum_mux p k x y = if nonzero p then x else y

unfoldable pub bignum_mux16 : ℕ → List ℕ → ℕ → List ℕ
bignum_mux16 k xs i = take k (drop (k * i) xs)

-- The four prototypes differ in the widths that they allow: any, multiples of 8, 16 and 32.
unfoldable pub bignum_copy_row_from_table : List ℕ → ℕ → ℕ → ℕ → List ℕ
bignum_copy_row_from_table table height width idx = take width (drop (idx * width) table)

-- Products and squares at the sizes that the names give, k digits to 2 * k: 16 and 32 by Karatsuba's
-- method, with a temporary buffer that is not part of the result, and 4, 6 and 8.
unfoldable pub bignum_kmul_k_2k : ℕ → List ℕ → List ℕ → List ℕ
bignum_kmul_k_2k k x y = digits (2 * k) (val x * val y)

unfoldable pub bignum_ksqr_k_2k : ℕ → List ℕ → List ℕ
bignum_ksqr_k_2k k x = digits (2 * k) (val x ^ 2)

unfoldable pub bignum_mul_k_2k : ℕ → List ℕ → List ℕ → List ℕ
bignum_mul_k_2k k x y = digits (2 * k) (val x * val y)

unfoldable pub bignum_sqr_k_2k : ℕ → List ℕ → List ℕ
bignum_sqr_k_2k k x = digits (2 * k) (val x ^ 2)
