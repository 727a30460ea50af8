-- ===== src/Bignum/Div.antt =====
-- tests/test.c, long division bit by bit, the remainder, and the greatest common divisor by Euclid.
pub mod Step
pub mod Quotient
pub mod Gcd
use s2n_bignum.Prelude.{ℕ, zero, suc, ◌+◌, ◌/◌, ◌^◌, List, get_or, take, bit_and, of_bool, nonzero}
use s2n_bignum.Prelude.{if◌then◌else◌, ◌==◌, Option, none, some, Bool, true, false}
use s2n_bignum.Prelude.Int.{pos, leb_ℤ}
use s2n_bignum.Bignum.{val, zeros, reference_copy}
use s2n_bignum.Bignum.Add.{reference_adc, reference_sbb}
use s2n_bignum.Bignum.Compare.{reference_compare, reference_iszero, reference_lt_samelen}

-- The quotient so far and the accumulator `a`, which has k + 1 digits.
pub record DivState : Type 0 where
  pub q : List ℕ
  pub a : List ℕ

-- The body of the inner loop for the bit `b`.
unfoldable pub div_step : ℕ → List ℕ → ℕ → DivState → DivState
div_step k y b s =
    let a1 = (reference_adc (suc k) (suc k) s.a (suc k) s.a b).z in
    let c = of_bool (leb_ℤ (pos 0) (reference_compare (suc k) a1 k y)) in
    let a2 = if nonzero c then (reference_sbb (suc k) (suc k) a1 k y 0).z else a1 in
    record { q = (reference_adc k k s.q k s.q c).z; a = a2 }

-- do { --bit; ... } while (bit != 0), with `bit` more rounds, on the word `w`.
pub bits_loop : ℕ → List ℕ → ℕ → ℕ → DivState → DivState
bits_loop k y w zero s = s
bits_loop k y w (suc bit) s = bits_loop k y w bit (div_step k y (bit_and (w / 2 ^ bit) 1) s)

-- do { --word; ... } while (word != 0)
pub words_loop : ℕ → List ℕ → List ℕ → ℕ → DivState → DivState
words_loop k x y zero s = s
words_loop k x y (suc word) s = words_loop k x y word (bits_loop k y (get_or x word 0) 64 s)

pub record DivResult : Type 0 where
  pub q : List ℕ
  pub r : List ℕ

unfoldable pub reference_divmod : ℕ → List ℕ → List ℕ → DivResult
unfolding div_step bits_loop words_loop
reference_divmod k x y =
    if k == 0
    then record { q = zeros k; r = zeros k }
    else (let s = words_loop k x y k (record { q = zeros k; a = zeros (suc k) }) in
        record { q = s.q; r = take k s.a })

unfoldable pub reference_mod : ℕ → List ℕ → List ℕ → List ℕ
reference_mod k x y = (reference_divmod k x y).r

-- for (;;) { ... } with fuel; `none` means that the fuel ran out.
pub gcd_loop : ℕ → ℕ → List ℕ → List ℕ → Option (List ℕ)
gcd_loop zero k xx yy = none
gcd_loop (suc fuel) k xx yy =
    let left = gcd_loop fuel k xx (reference_copy k k (reference_mod k yy xx)) in
    let right = gcd_loop fuel k (reference_copy k k (reference_mod k xx yy)) yy in
    if nonzero (reference_iszero k xx)
    then some (reference_copy k k yy)
    else (if nonzero (reference_iszero k yy)
        then some (reference_copy k k xx)
        else (if nonzero (reference_lt_samelen k xx yy) then left else right))

unfoldable pub reference_gcd : ℕ → ℕ → List ℕ → List ℕ → Option (List ℕ)
unfolding gcd_loop
reference_gcd fuel k x y = gcd_loop fuel k (reference_copy k k x) (reference_copy k k y)
