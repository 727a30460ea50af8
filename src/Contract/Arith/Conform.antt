-- ===== src/Contract/Arith/Conform.antt =====
-- The references of tests/test.c for additions, products and quotients are what include/s2n-bignum.h
-- promises of the functions under test.
use s2n_bignum.Prelude.{
  ℕ, ◌+◌, ◌-◌, ◌*◌, ◌%◌, ◌^◌, ◌<◌, ◌≡◌, sym, ap, ap₂, ◌∙◌, List, arith, ltb, of_bool, ◌⊎◌, inl, inr,
}
use s2n_bignum.Prelude.Powers.{mul_bit, mod_unique, div_unique, mul-mod-mod}
use s2n_bignum.Word.{word_mod}
use s2n_bignum.Bignum.{val, IsBignum, reference_copy}
use s2n_bignum.Bignum.Digits.{val-lt, word_pow_pos, val_injective, val-copy, copy-IsBignum}
use s2n_bignum.Bignum.Add.{
  Carried, reference_adc, reference_sbb, adc-IsBignum, sbb-IsBignum, sbb-borrow, val-adc, val-sbb,
}
use s2n_bignum.Bignum.Mul.{reference_mul, reference_madd, reference_cmul}
use s2n_bignum.Bignum.Mul.Product.{val-mul, mul-IsBignum, val-madd, madd-IsBignum}
use s2n_bignum.Bignum.Mul.Digit.{val-cmul, cmul-IsBignum}
use s2n_bignum.Contract.{digits}
use s2n_bignum.Contract.Digits.{val-digits, digits-IsBignum}
use s2n_bignum.Contract.Arith.{
  bignum_add, bignum_sub, bignum_copy, bignum_mul, bignum_madd, bignum_cmul,
}
use native.Mathlib.Nat.{mod-lt}

pub carried : (r s : Carried) → r.z ≡ s.z → r.c ≡ s.c → r ≡ s
carried r s e f = ap₂ (λ z c. record { z = z; c = c }) e f

-- An array with the right number of digits and the right value modulo what they hold is the promised
-- one.
pub is_digits :
    (k : ℕ) (x : List ℕ) (n : ℕ) → IsBignum k x → val x ≡ n % word_mod ^ k → x ≡ digits k n
is_digits k x n h e =
    val_injective x (digits k n) h (digits-IsBignum k n) (e ∙ sym (val-digits k n))

module _ (k m : ℕ) (x : List ℕ) (n : ℕ) (y : List ℕ) (hx : IsBignum m x) (hy : IsBignum n y) where
  -- For arrays of any sizes `reference_adc` without a carry in is `bignum_add`, carry out included.
  pub adc-add : reference_adc k m x n y 0 ≡ bignum_add k m x n y
  unfolding bignum_add
  adc-add =
      let r = reference_adc k m x n y 0 in
      let total = val-adc k m x n y 0 hx hy (omega arith) in
      let below = val-lt r.z (adc-IsBignum k m x n y 0) in
      let sum = val x % word_mod ^ k + val y % word_mod ^ k in
      carried r _
        (is_digits k r.z sum (adc-IsBignum k m x n y 0)
          (sym (mod_unique sum (word_mod ^ k) r.c (val r.z) (omega (arith, total)) below)))
        (sym (div_unique sum (word_mod ^ k) r.c (val r.z) (omega (arith, total)) below))

  -- For arrays of any sizes `reference_sbb` without a borrow in is `bignum_sub`, borrow out included.
  pub sbb-sub : reference_sbb k m x n y 0 ≡ bignum_sub k m x n y
  unfolding bignum_sub
  sbb-sub =
      let r = reference_sbb k m x n y 0 in
      let p = word_mod ^ k in
      let a = val x % p in
      let b = val y % p in
      let total : val r.z + b ≡ a + p * r.c =
        omega (arith, val-sbb k m x n y 0 hx hy (omega arith)) in
      let below = val-lt r.z (sbb-IsBignum k m x n y 0) in
      let bit = mul_bit p r.c (sbb-borrow k m x n y 0 (omega arith)) in
      let b_lt = mod-lt (val y) {m = p} (word_pow_pos k) in
      let a_lt = mod-lt (val x) {m = p} (word_pow_pos k) in
      carried r _
        (is_digits k r.z (a + p - b) (sbb-IsBignum k m x n y 0) (
          sym (
            mod_unique (a + p - b) p (1 - r.c) (val r.z) (wraps p a b r.c (val r.z) total bit b_lt)
              below)))
        (borrowed p a b r.c (val r.z) total bit below a_lt b_lt)
    where
      wraps :
          (p a b c z : ℕ)
          → z + b ≡ a + p * c
          → ((c ≡ 0) × (p * c ≡ 0)) ⊎ ((c ≡ 1) × (p * c ≡ p))
          → b < p
          → a + p - b ≡ z + p * (1 - c)
      wraps p a b c z total bit lt = elim bit [
        | inl (e, f) ↦ omega (arith, ap (λ (t : ℕ). p * (1 - t)) e)
        | inr (e, f) ↦ omega (arith, ap (λ (t : ℕ). p * (1 - t)) e)
      ]

      borrowed :
          (p a b c z : ℕ)
          → z + b ≡ a + p * c
          → ((c ≡ 0) × (p * c ≡ 0)) ⊎ ((c ≡ 1) × (p * c ≡ p))
          → z < p
          → a < p
          → b < p
          → c ≡ of_bool (ltb a b)
      borrowed p a b c z total bit zl al bl = ground (arith, total, bit)

  -- `reference_mul` is `bignum_mul` and, on an array z, `reference_madd` is the digits of
  -- `bignum_madd`, for any sizes of the operands and of the result.
  pub mul-madd :
      (z : List ℕ)
      → IsBignum k z
      → (reference_mul k m x n y ≡ bignum_mul k m x n y)
        × (reference_madd k z m x n y ≡ (bignum_madd k z m x n y).z)
  unfolding bignum_mul bignum_madd
  mul-madd z hz = (
    is_digits k (reference_mul k m x n y) _ (mul-IsBignum k m x n y hx hy)
        (val-mul k m x n y hx hy),
    is_digits k (reference_madd k z m x n y) _ (madd-IsBignum k m x n y hx hy z hz)
        (val-madd k m x n y hx hy z hz),
  )

  -- `reference_copy` is `bignum_copy`, and `reference_cmul` by a word is the digits of `bignum_cmul`.
  pub copy-cmul :
      (c : ℕ)
      → c < word_mod
      → (reference_copy k n y ≡ bignum_copy k n y)
        × (reference_cmul k c n y ≡ (bignum_cmul k c n y).z)
  unfolding bignum_copy bignum_cmul
  copy-cmul c hc = (
    is_digits k (reference_copy k n y) _ (copy-IsBignum k n y hy) (val-copy k n y hy),
    is_digits k (reference_cmul k c n y) _ (cmul-IsBignum c n y hc hy k)
        (val-cmul c n y hc hy k ∙ sym (mul-mod-mod c (val y) (word_mod ^ k))),
  )
