-- ===== src/Examples/Field.antt =====
-- The theorems on field elements and Montgomery form at concrete inputs.
use s2n_bignum.Prelude.{ℕ, refl, List, [], ◌∷◌, arith}
use s2n_bignum.Bignum.{val}
use s2n_bignum.Primes.{p256}
use s2n_bignum.Contract.Field.{}
use s2n_bignum.Contract.Field.Laws.{IsReduced}

abbrev five : List ℕ
five = 5 ∷ 0 ∷ 0 ∷ 1 ∷ []

-- Half of the prime, rounded up, and 2: inverses of each other.
abbrev half : List ℕ
half = 0 ∷ 0x80000000 ∷ 0x8000000000000000 ∷ 0x7fffffff80000000 ∷ []

abbrev two : List ℕ
two = 2 ∷ 0 ∷ 0 ∷ 0 ∷ []

five-IsReduced : IsReduced p256 five
unfolding val
five-IsReduced =
    ((refl, (omega arith, (omega arith, (omega arith, (omega arith, tt))))), omega arith)

half-IsReduced : IsReduced p256 half
unfolding val
half-IsReduced =
    ((refl, (omega arith, (omega arith, (omega arith, (omega arith, tt))))), omega arith)

two-IsReduced : IsReduced p256 two
unfolding val
two-IsReduced =
    ((refl, (omega arith, (omega arith, (omega arith, (omega arith, tt))))), omega arith)

-- 2 ^ 256 modulo the prime: the Montgomery form of 1, which is its own inverse.
abbrev one_form : List ℕ
one_form = 0x1 ∷ 0xffffffff00000000 ∷ 0xffffffffffffffff ∷ 0xfffffffe ∷ []
