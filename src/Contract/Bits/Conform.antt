-- ===== src/Contract/Bits/Conform.antt =====
-- The comparisons of tests/test.c return what include/s2n-bignum.h promises of the functions under test.
use s2n_bignum.Prelude.{ℕ, ◌/◌, ◌^◌, ◌-◌, ◌%◌, ◌≡◌, sym, ap, List, arith, of_bool, ◌==◌, ◌∙◌}
use s2n_bignum.Bignum.{val, IsBignum}
use s2n_bignum.Bignum.Compare.{
  reference_le, reference_eq_samelen, reference_lt_samelen, reference_le_samelen,
  reference_gt_samelen, reference_ge_samelen, reference_iszero, le_lem, samelen_lem, iszero_lem,
}
use s2n_bignum.Bignum.OddGcd.{reference_odd, reference_even, reference_shr_samelen}
use s2n_bignum.Bignum.OddGcd.Halving.{odd_lem, even_lem, shr_lem, shr-IsBignum}
use s2n_bignum.Contract.Bits.{
  bignum_eq, bignum_lt, bignum_le, bignum_gt, bignum_ge, bignum_iszero, bignum_even, bignum_odd,
  bignum_shr_small,
}
use s2n_bignum.Word.{word_mod}
use s2n_bignum.Bignum.Digits.{val-lt}
use s2n_bignum.Contract.Arith.Conform.{is_digits, carried}
use native.Mathlib.Nat.{mod-eq_of_lt}

parity : (n : ℕ) → (n % 2 ≡ of_bool (n % 2 == 1)) × (1 - n % 2 ≡ of_bool (n % 2 == 0))
parity n = (ground arith, ground arith)

module _ (k : ℕ) (x : List ℕ) (n : ℕ) (y z : List ℕ) (hx : IsBignum k x) (hy : IsBignum n y)
    (hz : IsBignum k z) where
  -- For arrays of any two sizes `reference_le` is `bignum_le`; the tests for 0, for odd and for even
  -- numbers are `bignum_iszero`, `bignum_odd` and `bignum_even`; and for arrays of one size the five
  -- comparisons are `bignum_eq`, `bignum_lt`, `bignum_le`, `bignum_gt` and `bignum_ge`.
  pub comparisons-promised :
      (reference_le k x n y ≡ bignum_le k x n y)
      × (reference_iszero k x ≡ bignum_iszero k x)
      × (reference_odd k x ≡ bignum_odd k x)
      × (reference_even k x ≡ bignum_even k x)
      × (reference_eq_samelen k x z ≡ bignum_eq k x k z)
      × (reference_lt_samelen k x z ≡ bignum_lt k x k z)
      × (reference_le_samelen k x z ≡ bignum_le k x k z)
      × (reference_gt_samelen k x z ≡ bignum_gt k x k z)
      × (reference_ge_samelen k x z ≡ bignum_ge k x k z)
  unfolding bignum_eq bignum_lt bignum_le bignum_gt bignum_ge bignum_iszero bignum_even bignum_odd
  comparisons-promised =
      let (eq, lt, le, gt, ge) = samelen_lem k x z hx hz in
      (
        le_lem x y hx hy,
        iszero_lem k x hx,
        odd_lem k x hx ∙ (parity (val x)).0,
        even_lem k x hx ∙ (parity (val x)).1,
        eq,
        lt,
        le,
        gt,
        ge,
      )

-- For a k-digit number `reference_shr_samelen` without a bit shifted in is `bignum_shr_small` by one bit,
-- the bit that is returned included.
pub shr_samelen-shr_small :
    (k : ℕ) (x : List ℕ) → IsBignum k x → reference_shr_samelen k x 0 ≡ bignum_shr_small k k x 1
unfolding bignum_shr_small
shr_samelen-shr_small k x hx =
    let r = reference_shr_samelen k x 0 in
    let (bit, total) = shr_lem k x hx 0 in
    let half : val x / 2 ≡ val r.z = omega (arith, bit, total) in
    let digits_r = shr-IsBignum k x hx 0 in
    carried r _
      (is_digits k r.z (val x / 2) digits_r
        (sym (ap (λ (t : ℕ). t % word_mod ^ k) half ∙ mod-eq_of_lt (val-lt r.z digits_r))))
      (omega (arith, bit, total))
