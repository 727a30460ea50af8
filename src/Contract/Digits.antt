-- ===== src/Contract/Digits.antt =====
-- The digits of a number and the number of a list of digits undo one another.
use s2n_bignum.Prelude.{
  ℕ, zero, suc, ◌+◌, ◌*◌, ◌/◌, ◌%◌, ◌^◌, ◌≤◌, ◌<◌, ◌≡◌, refl, sym, ap, ap₂, ◌∙◌, List, [], ◌∷◌,
  length, All, arith,
}
use s2n_bignum.Prelude.Powers.{mod_unique, pow-suc-mul, div_unique, mul_bound}
use s2n_bignum.Word.{word_mod}
use s2n_bignum.Bignum.{val, IsBignum}
use s2n_bignum.Contract.{digits_in, value_in, digits}
use native.Mathlib.Nat.{pow-suc, pow-zero, mod-lt, mod-add-div, one-le-pow, mod-eq_of_lt}

module _ (base : ℕ) (positive : 0 < base) where
  top_bound : (n k v : ℕ) → v + 1 ≤ base ^ k → n % base + base * v < base ^ suc k
  top_bound n k v small = omega (
    arith,
    mod-lt n positive,
    mul_bound base (v + 1) base (base ^ k) (omega arith) small,
    pow-suc base k,
  )

  -- A number to any positive base loses what does not fit its `k` digits.
  pub value-digits : (k n : ℕ) → value_in base (digits_in base k n) ≡ n % base ^ k
  unfolding digits_in value_in
  value-digits zero n =
      omega (arith, pow-zero base, mod-lt n {m = base ^ 0} (omega (arith, pow-zero base)))
  value-digits (suc k) n =
      let q = n / base in
      sym (
        mod_unique n (base ^ suc k) (q / base ^ k) _
          (omega (
            arith,
            value-digits k q,
            mod-add-div n base,
            ap (λ (t : ℕ). base * t) (mod-add-div q (base ^ k)),
            ap (λ (t : ℕ). base * t) (value-digits k q),
            pow-suc-mul base k (q / base ^ k),
          ))
          (top_bound n k _ (
            omega (arith, value-digits k q, mod-lt q {m = base ^ k} (one-le-pow k base positive)))))

  pub digits-value :
      (x : List ℕ) → All (λ d. d < base) x → digits_in base (length x) (value_in base x) ≡ x
  unfolding digits_in value_in
  digits-value [] h = refl
  digits-value (d ∷ x) h = ap₂ ◌∷◌ (mod_unique _ base (value_in base x) d refl h.0) (
      ap (λ (n : ℕ). digits_in base (length x) n) (div_unique _ base (value_in base x) d refl h.0)
      ∙ digits-value x h.1)

  pub digits-range : (k n : ℕ) → All (λ d. d < base) (digits_in base k n)
  unfolding digits_in
  digits-range zero n = tt
  digits-range (suc k) n = (mod-lt n positive, digits-range k (n / base))

pub length-digits : (base k n : ℕ) → length (digits_in base k n) ≡ k
unfolding digits_in
length-digits base zero n = refl
length-digits base (suc k) n = ap suc (length-digits base k (n / base))

pub digits-IsBignum : (k n : ℕ) → IsBignum k (digits k n)
digits-IsBignum k n = (length-digits word_mod k n, digits-range word_mod (omega arith) k n)

pub value_word : (x : List ℕ) → value_in word_mod x ≡ val x
unfolding value_in val
value_word [] = refl
value_word (d ∷ x) = omega (arith, value_word x)

pub val-digits : (k n : ℕ) → val (digits k n) ≡ n % word_mod ^ k
val-digits k n = sym (value_word (digits k n)) ∙ value-digits word_mod (omega arith) k n

pub val-digits_small : (k n : ℕ) → n < word_mod ^ k → val (digits k n) ≡ n
val-digits_small k n h = val-digits k n ∙ mod-eq_of_lt h
