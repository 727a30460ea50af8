-- ===== src/Contract/Bits/Laws.antt =====
-- Sizes, leading zeros and shifts fit together.
use s2n_bignum.Prelude.{
  ℕ, zero, suc, ◌+◌, ◌*◌, ◌/◌, ◌%◌, ◌^◌, ◌≤◌, ◌<◌, ◌≡◌, refl, sym, ap, ◌∙◌, List, arith, ◌==◌,
  Bool-cases, inl, inr, Nat-cases,
}
use s2n_bignum.Prelude.Powers.{pow-add, mul_bound}
use s2n_bignum.Word.{word_mod}
use s2n_bignum.Bignum.{val, IsBignum}
use s2n_bignum.Bignum.Digits.{val-lt, word_pow_pos}
use s2n_bignum.Contract.{digits}
use s2n_bignum.Contract.Digits.{val-digits_small}
use s2n_bignum.Contract.Arith.Laws.{whole}
use s2n_bignum.Contract.Bits.{
  significant, bignum_bitsize, bignum_clz, bignum_normalize, bignum_shl_small, bignum_shr_small,
}
use s2n_bignum.Contract.Mont.Laws.{word_power}
use native.Mathlib.Nat.{
  mod-lt, mod-eq_of_lt, mod-add-div, one-le-pow, pow-suc, pow-zero, div-le_self, div-lt_iff_lt-mul,
}

two_pow_pos : (n : ℕ) → 0 < 2 ^ n
two_pow_pos n = one-le-pow n 2 (omega arith)

significant_zero : (base most : ℕ) → significant base most 0 ≡ 0
unfolding significant
significant_zero base zero = refl
significant_zero base (suc most) = refl

-- A number below 2 ^ most has no more than `most` bits, and its bits bound it from both sides.
significant_bits :
    (most n : ℕ)
    → n < 2 ^ most
    → (significant 2 most n ≤ most)
      × (n < 2 ^ significant 2 most n)
      × (0 < n → 2 ^ significant 2 most n ≤ 2 * n)
unfolding significant
significant_bits zero n h = (omega arith, h, λ p. absurd (omega (arith, pow-zero 2)))
significant_bits (suc most) n h =
    let (a, b, c) = significant_bits most (n / 2) (omega (arith, pow-suc 2 most)) in
    elim (Bool-cases (n == 0)) [
      | inl zero_n ↦ rw zero_n (ground (arith, pow-zero 2))
      | inr some_n ↦
          let s = significant 2 most (n / 2) in
          let small : 0 < n → 2 ^ s ≤ n = λ p. elim (Nat-cases (n / 2)) [
            | inl e ↦ omega (
              arith,
              p,
              ap (λ (t : ℕ). 2 ^ t) (ap (significant 2 most) e ∙ significant_zero 2 most),
              pow-zero 2,
            )
            | inr q ↦ omega (arith, c q)
          ] in
          rw some_n (
            omega (arith, a),
            omega (arith, b, pow-suc 2 s),
            λ p. omega (arith, small p, pow-suc 2 s),
          )
    ]

power-even : (b n : ℕ) → 0 < n → 2 ^ b ≤ 2 * n + 1 → 2 ^ b ≤ 2 * n
power-even zero n p h = omega (arith, pow-zero 2)
power-even (suc b) n p h = omega (arith, pow-suc 2 b)

module _ (k : ℕ) (x : List ℕ) (hx : IsBignum k x) where
  fits : val x < 2 ^ (64 * k)
  fits = omega (arith, val-lt x hx, word_power k)

  -- For a k-digit number, `bignum_bitsize` and `bignum_clz` make up all the 64 * k bits, and the number
  -- fits the first and, if that is not 0, no fewer bits.
  pub bitsize-clz :
      (bignum_bitsize k x + bignum_clz k x ≡ 64 * k)
      × (val x < 2 ^ bignum_bitsize k x)
      × (2 ^ bignum_bitsize k x ≤ 2 * val x + 1)
  unfolding bignum_bitsize bignum_clz
  bitsize-clz =
      let (a, b, c) = significant_bits (64 * k) (val x) fits in
      (
        omega (arith, a),
        b,
        elim (Nat-cases (val x)) [
          | inl e ↦ omega (
            arith,
            ap (λ (t : ℕ). 2 ^ significant 2 (64 * k) t) e,
            ap (λ (t : ℕ). 2 ^ t) (significant_zero 2 (64 * k)),
            pow-zero 2,
          )
          | inr pos ↦ omega (arith, c pos)
        ],
      )

  -- Normalizing a k-digit number that is not 0 loses no bit: the value is multiplied by 2 to the number of
  -- leading zeros, which is returned, and the top bit of the result is 1.
  pub normalize-clz :
      0 < val x
      → (val (bignum_normalize k x).z ≡ val x * 2 ^ bignum_clz k x)
        × ((bignum_normalize k x).c ≡ bignum_clz k x)
        × (2 ^ (64 * k) ≤ 2 * val (bignum_normalize k x).z)
  unfolding bignum_normalize
  normalize-clz p =
      let b = bignum_bitsize k x in
      let c = bignum_clz k x in
      let (sum, below, above) = bitsize-clz in
      let split : 2 ^ (64 * k) ≡ 2 ^ b * 2 ^ c = ap (λ (t : ℕ). 2 ^ t) (sym sum) ∙ pow-add 2 b c in
      let room : val x * 2 ^ c < word_mod ^ k = omega (
        arith,
        mul_bound (val x + 1) (2 ^ c) (2 ^ b) (2 ^ c) (omega (arith, below)) (omega arith),
        split,
        word_power k,
        two_pow_pos c,
      ) in
      let exact = val-digits_small k (val x * 2 ^ c) room in
      (
        exact,
        refl,
        omega (
          arith,
          exact,
          split,
          mul_bound (2 ^ b) (2 ^ c) (2 * val x) (2 ^ c) (power-even b (val x) p above)
              (omega arith),
        ),
      )

  -- The shifts of a k-digit number by a count, which is taken modulo 64, lose nothing: the digits and the
  -- word that is returned make up the product of the number with the power of 2, and the digits
  -- times the power of 2 and the bits shifted out make up the number.
  pub shl_small-shr_small :
      (c : ℕ)
      → (val (bignum_shl_small k k x c).z + word_mod ^ k * (bignum_shl_small k k x c).c
          ≡ val x * 2 ^ (c % 64))
        × ((bignum_shl_small k k x c).c < 2 ^ (c % 64))
        × (val (bignum_shr_small k k x c).z * 2 ^ (c % 64) + (bignum_shr_small k k x c).c ≡ val x)
        × ((bignum_shr_small k k x c).c < 2 ^ (c % 64))
  unfolding bignum_shl_small bignum_shr_small
  shl_small-shr_small c =
      let e = 2 ^ (c % 64) in
      let p = word_mod ^ k in
      let low = mod-eq_of_lt (val-lt x hx) in
      let total = whole k (val x % p * e) ∙ ap (λ (t : ℕ). t * e) low in
      let half : val x / e ≤ val x = div-le_self (val x) e in
      let kept : val (digits k (val x / e)) ≡ val x / e =
        val-digits_small k (val x / e) (omega (arith, half, val-lt x hx)) in
      (
        total,
        (div-lt_iff_lt-mul (word_pow_pos k)).1 (
            omega (
              arith,
              mul_bound (val x % p + 1) e p e (omega (arith, mod-lt (val x) (word_pow_pos k)))
                  (omega arith),
              two_pow_pos (c % 64),
            )),
        ap (λ (t : ℕ). t * e + val x % e) kept ∙ omega (arith, mod-add-div (val x) e),
        mod-lt (val x) (two_pow_pos (c % 64)),
      )
