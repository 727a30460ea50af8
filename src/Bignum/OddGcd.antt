-- ===== src/Bignum/OddGcd.antt =====
-- tests/test.c, the shift by one bit and the binary greatest common divisor.
pub mod Halving
pub mod Binary
use s2n_bignum.Prelude.{
  ℕ, zero, suc, ◌+◌, ◌*◌, ◌/◌, ◌%◌, ◌^◌, List, [], ◌∷◌, get_or, bit_and, of_bool, nonzero,
}
use s2n_bignum.Prelude.{if◌then◌else◌, ◌==◌, Bool, not, ◌&&◌, ◌||◌}
use s2n_bignum.Word.{word_mod, add64}
use s2n_bignum.Bignum.{reference_copy, reference_of_word}
use s2n_bignum.Bignum.Add.{Carried, reference_sub_samelen}
use s2n_bignum.Bignum.Compare.{reference_lt_samelen, reference_eq_samelen}

-- for (i = 1; i <= k; ++i) { t = x[k - i] & 1; z[k - i] = (x[k - i] >> 1) + (c << 63); c = t; }, with
-- `left` more digits; `done` holds the digits that are written. A digit is read before it is
-- written and not again, so `z` may be `x`.
pub shr_loop : List ℕ → ℕ → ℕ → List ℕ → Carried
shr_loop x zero c done = record { z = done; c = c }
shr_loop x (suc left) c done =
    let d = get_or x left 0 in
    let t = bit_and d 1 in shr_loop x left t (add64 (d / 2) (c * 2 ^ 63 % word_mod) ∷ done)

unfoldable pub reference_shr_samelen : ℕ → List ℕ → ℕ → Carried
unfolding shr_loop
reference_shr_samelen k x cin = shr_loop x k (of_bool (nonzero cin)) []

unfoldable pub reference_odd : ℕ → List ℕ → ℕ
reference_odd k x = of_bool (nonzero k && nonzero (bit_and (get_or x 0 0) 1))

unfoldable pub reference_even : ℕ → List ℕ → ℕ
unfolding reference_odd
reference_even k x = of_bool (reference_odd k x == 0)

-- The arrays that the pointers `m` and `n` stand at.
pub record Pair : Type 0 where
  pub m : List ℕ
  pub n : List ℕ

abbrev pub swap_if : Bool → Pair → Pair
swap_if b p = if b then record { m = p.n; n = p.m } else p

-- What follows the swap: the larger less the smaller if both are odd, and a shift.
unfoldable pub reduce : ℕ → Pair → Pair
reduce k s =
    let m1 = if nonzero (reference_odd k s.m) then (reference_sub_samelen k s.m s.n).z else s.m in
    record { m = (reference_shr_samelen k m1 0).z; n = s.n }

unfoldable pub must_swap : ℕ → Pair → Bool
must_swap k p =
    nonzero (reference_even k p.n)
    || (nonzero (reference_odd k p.m) && nonzero (reference_lt_samelen k p.m p.n))

unfoldable pub oddgcd_step : ℕ → Pair → Pair
oddgcd_step k p = reduce k (swap_if (must_swap k p) p)

pub oddgcd_loop : ℕ → ℕ → Pair → Pair
oddgcd_loop k zero p = p
oddgcd_loop k (suc left) p = oddgcd_loop k left (oddgcd_step k p)

unfoldable pub reference_oddgcd : ℕ → List ℕ → List ℕ → List ℕ
unfolding oddgcd_loop
reference_oddgcd k x y =
    reference_copy k k
      (oddgcd_loop k (128 * k) (record { m = reference_copy k k x; n = reference_copy k k y })).n

unfoldable pub reference_coprime : ℕ → List ℕ → List ℕ → ℕ
reference_coprime k x y =
    if nonzero (reference_even k x) && nonzero (reference_even k y)
    then 0
    else (let z = reference_oddgcd k x y in
        let w = reference_of_word k 1 in reference_eq_samelen k w z)
