-- ===== src/Contract/Arith/Laws.antt =====
-- What the promises of include/s2n-bignum.h say together: the words that the functions return account
-- for what the digits lose, and operations undo one another.
use s2n_bignum.Prelude.{
  ℕ, ◌+◌, ◌-◌, ◌*◌, ◌/◌, ◌%◌, ◌^◌, ◌≤◌, ◌<◌, ◌≡◌, refl, sym, ap, ◌∙◌, List, arith, of_bool,
  Bool-cases, leb, leb→le, leb_false→lt, Nat-cases, inl, inr, nonzero, ◌⊎◌,
}
use s2n_bignum.Prelude.Powers.{mod_unique, div_unique, mul_bound, pow-add}
use s2n_bignum.Word.{word_mod}
use s2n_bignum.Bignum.{val, IsBignum}
use s2n_bignum.Bignum.Digits.{val-lt, word_pow_pos}
use s2n_bignum.Bignum.Add.{
  Carried, reference_adc, adc-IsBignum, reference_sub_samelen, reference_add_samelen,
}
use s2n_bignum.Bignum.Add.Laws.{sub-add_samelen}
use s2n_bignum.Contract.{digits}
use s2n_bignum.Contract.Digits.{val-digits, val-digits_small}
use s2n_bignum.Contract.Arith.{
  bignum_add, bignum_sub, bignum_cmul, bignum_cmadd, bignum_cmnegadd, bignum_muladd10,
  bignum_divmod10, bignum_optneg, bignum_mul, bignum_sqr, bignum_kmul_k_2k, bignum_ksqr_k_2k,
  bignum_mul_k_2k, bignum_sqr_k_2k,
}
use s2n_bignum.Contract.Arith.Conform.{is_digits, carried, adc-add, sbb-sub}
use native.Mathlib.Nat.{
  mod-lt, mod-eq_of_lt, mod-add-div, div-eq_of_lt, mod_self, pow-suc, pow-zero,
}

-- The digits and the word above them make up the number.
pub whole : (k n : ℕ) → val (digits k n) + word_mod ^ k * (n / word_mod ^ k) ≡ n
whole k n = omega (arith, val-digits k n, mod-add-div n (word_mod ^ k))

ceiling : (p a : ℕ) → 0 < p → a ≤ p * ((a + (p - 1)) / p)
ceiling p a h = omega (arith, mod-add-div (a + (p - 1)) p, mod-lt (a + (p - 1)) h)

ceiling_zero : (p a : ℕ) → 0 < p → a ≡ 0 → p * ((a + (p - 1)) / p) ≡ 0
ceiling_zero p a h e =
    omega (arith, ap (λ (t : ℕ). p * t) (div-eq_of_lt {n = a + (p - 1)} {m = p} (omega arith)))

ceiling_least : (p a z : ℕ) → z < p → z + p * ((a - z + (p - 1)) / p) - a < p
ceiling_least p a z h = elim (Bool-cases (leb a z)) [
  | inl le ↦
      omega
        (arith, leb→le a z le, ceiling_zero p (a - z) (omega arith) (omega (arith, leb→le a z le)))
  | inr gt ↦ omega (arith, leb_false→lt a z gt, mod-add-div (a - z + (p - 1)) p)
]

module _ (k c : ℕ) (z : List ℕ) (n : ℕ) (y : List ℕ) (hz : IsBignum k z) where
  -- For a k-digit z and any word c and array y, the digits and the word that `bignum_cmul`,
  -- `bignum_cmadd` and `bignum_cmnegadd` return make up c * y, z + c * y and z - c * y, with the part
  -- of y that k digits hold; the word of `bignum_cmnegadd` counts negatively.
  pub multiples-exact :
      (val (bignum_cmul k c n y).z + word_mod ^ k * (bignum_cmul k c n y).c
        ≡ c * (val y % word_mod ^ k))
      × (val (bignum_cmadd k z c n y).z + word_mod ^ k * (bignum_cmadd k z c n y).c
          ≡ val z + c * (val y % word_mod ^ k))
      × (val (bignum_cmnegadd k z c n y).z + c * (val y % word_mod ^ k)
          ≡ val z + word_mod ^ k * (bignum_cmnegadd k z c n y).c)
  unfolding bignum_cmul bignum_cmadd bignum_cmnegadd
  multiples-exact =
      let p = word_mod ^ k in
      let product = c * (val y % p) in
      let r = (product - val z + (p - 1)) / p in
      let enough = ceiling p (product - val z) (word_pow_pos k) in
      (
        whole k product,
        whole k (val z + product),
        omega (
          arith,
          val-digits_small k (val z + p * r - product)
              (ceiling_least p product (val z) (val-lt z hz)),
          enough,
        ),
      )

module _ (k : ℕ) (z : List ℕ) (hz : IsBignum k z) where
  -- For a k-digit z and a d below 10 such that `bignum_muladd10` does not carry out, `bignum_divmod10`
  -- gives back z and returns d.
  pub divmod10-muladd10 :
      (d : ℕ)
      → d < 10
      → (bignum_muladd10 k z d).c ≡ 0
      → bignum_divmod10 k (bignum_muladd10 k z d).z ≡ record { z = z; c = d }
  unfolding bignum_muladd10 bignum_divmod10
  divmod10-muladd10 d hd fits =
      let total = 10 * val z + d in
      let e : val (digits k total) ≡ total =
        omega (arith, whole k total, ap (λ (t : ℕ). word_mod ^ k * t) fits) in
      carried _ _
        (sym (
          is_digits k z _ hz (
            omega (
              arith,
              e,
              sym (mod-eq_of_lt (val-lt z hz)),
              ap (λ (t : ℕ). t / 10 % word_mod ^ k) e,
              ap (λ (t : ℕ). t % word_mod ^ k) (div_unique total 10 (val z) d (omega arith) hd),
            ))))
        (ap (λ (t : ℕ). t % 10) e ∙ mod_unique total 10 (val z) d (omega arith) hd)

  kept_mod : val z ≡ val z % word_mod ^ k
  kept_mod = sym (mod-eq_of_lt (val-lt z hz))

  kept : val (digits k (val z)) ≡ val z
  kept = val-digits k (val z) ∙ sym kept_mod

  negated :
      (val z ≡ 0) ⊎ (0 < val z)
      → (digits k (word_mod ^ k - val (digits k (word_mod ^ k - val z))) ≡ z)
        × (of_bool (nonzero (val (digits k (word_mod ^ k - val z)))) ≡ of_bool (nonzero (val z)))
  negated (inl zero_z) =
      let p = word_mod ^ k in
      let whole_p : val (digits k (p - val z)) ≡ 0 =
        val-digits k (p - val z) ∙ ap (λ (t : ℕ). t % p) (omega (arith, zero_z)) ∙ mod_self p in
      (
        sym (
            is_digits k z (p - val (digits k (p - val z))) hz
              (zero_z ∙ sym (mod_self p) ∙ ap (λ (t : ℕ). t % p) (omega (arith, whole_p)))),
        ap (λ (t : ℕ). of_bool (nonzero t)) (whole_p ∙ sym zero_z),
      )
  negated (inr some_z) =
      let p = word_mod ^ k in
      let below = val-lt z hz in
      let rest : val (digits k (p - val z)) ≡ p - val z =
        val-digits_small k (p - val z) (omega arith) in
      (
        sym (
            is_digits k z (p - val (digits k (p - val z))) hz
              (kept_mod ∙ ap (λ (t : ℕ). t % p) (omega (arith, rest, below)))),
        ground (arith, rest, below),
      )

  -- Negating a k-digit number twice gives it back, and the two return values agree: they say whether
  -- the number is 0.
  pub optneg-optneg :
      (p : ℕ)
      → (bignum_optneg k p (bignum_optneg k p z).z).z ≡ z
        × ((bignum_optneg k p (bignum_optneg k p z).z).c ≡ (bignum_optneg k p z).c)
  unfolding bignum_optneg
  optneg-optneg p = elim (Bool-cases (nonzero p)) [
    | inl on ↦ rw on (negated (Nat-cases (val z)))
    | inr off ↦
        let same : digits k (val (digits k (val z))) ≡ z =
          ap (λ (t : ℕ). digits k t) kept ∙ sym (is_digits k z (val z) hz kept_mod) in
        rw off (same, ap (λ (t : ℕ). of_bool (nonzero t)) kept)
  ]

module _ (k : ℕ) (x y : List ℕ) (hx : IsBignum k x) (hy : IsBignum k y) where
  -- For two k-digit numbers, `bignum_sub` of the second from what `bignum_add` writes is the first
  -- again, with the carry of the addition as the borrow.
  pub sub-add :
      bignum_sub k k (bignum_add k k x k y).z k y ≡ record { z = x; c = (bignum_add k k x k y).c }
  unfolding reference_sub_samelen reference_add_samelen
  sub-add =
      let sum = reference_adc k k x k y 0 in
      let added = adc-add k k x k y hx hy in
      let subtracted = sbb-sub k k sum.z k y (adc-IsBignum k k x k y 0) hy in
      let (digits_x, borrow) = sub-add_samelen k x y hx hy in
      ap (λ (t : Carried). bignum_sub k k t.z k y) (sym added)
      ∙ sym subtracted
      ∙ carried _ _ digits_x (borrow ∙ ap (λ (t : Carried). t.c) added)

product_fits : (p a b : ℕ) → a < p → b < p → a * b < p * p
product_fits p a b ha hb = omega (arith, mul_bound (a + 1) (b + 1) p p (omega arith) (omega arith))

module _ (k : ℕ) (x y : List ℕ) (hx : IsBignum k x) (hy : IsBignum k y) where
  wide : word_mod ^ (2 * k) ≡ word_mod ^ k * word_mod ^ k
  wide = ap (λ (t : ℕ). word_mod ^ t) (omega arith) ∙ pow-add word_mod k k

  square : (n : ℕ) → n ^ 2 ≡ n * n
  square n =
      pow-suc n 1
      ∙ ap (λ (t : ℕ). t * n) (pow-suc n 0 ∙ omega (arith, ap (λ (t : ℕ). t * n) (pow-zero n)))

  -- For k-digit inputs the products and squares of fixed size lose nothing, the functions with and
  -- without Karatsuba's method promise the same, a square is the product with itself, and both are what
  -- the functions for any sizes promise.
  pub products-exact :
      (val (bignum_mul_k_2k k x y) ≡ val x * val y)
      × (bignum_kmul_k_2k k x y ≡ bignum_mul_k_2k k x y)
      × (bignum_mul (2 * k) k x k y ≡ bignum_mul_k_2k k x y)
      × (bignum_sqr_k_2k k x ≡ bignum_mul_k_2k k x x)
      × (bignum_ksqr_k_2k k x ≡ bignum_sqr (2 * k) k x)
  unfolding bignum_mul_k_2k bignum_kmul_k_2k bignum_mul bignum_sqr_k_2k bignum_ksqr_k_2k bignum_sqr
  products-exact = (
    val-digits_small (2 * k) (val x * val y) (
        omega
          (arith, wide, product_fits (word_mod ^ k) (val x) (val y) (val-lt x hx) (val-lt y hy))),
    refl,
    refl,
    ap (λ (t : ℕ). digits (2 * k) t) (square (val x)),
    refl,
  )
