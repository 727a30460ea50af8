-- ===== src/Contract/Field/Halving.antt =====
-- Halving modulo an odd number undoes doubling.
use s2n_bignum.Prelude.{
  ℕ, zero, suc, ◌+◌, ◌-◌, ◌*◌, ◌/◌, ◌%◌, ◌^◌, ◌<◌, ◌≡◌, sym, ap, ◌∙◌, arith, Bool-cases, inl, inr,
  ltb, ltb→lt, ltb_false→le, ◌⊎◌,
}
use s2n_bignum.Prelude.Powers.{mod_unique, mul-mod-mod}
use s2n_bignum.Contract.Field.{half_mod, unscale}
use native.Mathlib.Nat.{mod-lt, mod-eq_of_lt, pow-suc, pow-zero, mod-add-div}

module _ (p : ℕ) (odd : p % 2 ≡ 1) where
  pub half_mod-lt : (n : ℕ) → n < p → half_mod p n < p
  unfolding half_mod
  half_mod-lt n h = ground (arith, odd)

  twice_half : (n : ℕ) → (2 * half_mod p n ≡ n) ⊎ (2 * half_mod p n ≡ n + p)
  unfolding half_mod
  twice_half n = ground (arith, odd)

  pub double-half : (n : ℕ) → n < p → 2 * half_mod p n % p ≡ n
  double-half n h = elim (twice_half n) [
    | inl e ↦ ap (λ (t : ℕ). t % p) e ∙ mod-eq_of_lt h
    | inr e ↦ mod_unique _ p 1 n (omega (arith, e)) h
  ]

  twice : (n : ℕ) → (2 * n % p ≡ 2 * (n % p)) ⊎ (2 * n % p + p ≡ 2 * (n % p))
  twice n =
      let m = n % p in
      let r = mod-add-div n p in
      let below : m < p = mod-lt n {m = p} (omega (arith, odd)) in
      elim (Bool-cases (ltb (2 * m) p)) [
        | inl small ↦
            inl (
              mod_unique (2 * n) p (2 * (n / p)) (2 * m) (omega (arith, r))
                (ltb→lt (2 * m) p small))
        | inr large ↦
            let le = ltb_false→le (2 * m) p large in
            inr (
              omega (
                arith,
                le,
                mod_unique (2 * n) p (2 * (n / p) + 1) (2 * m - p) (omega (arith, r, le))
                    (omega (arith, below, le)),
              ))
      ]

  pub half-double : (n : ℕ) → half_mod p (2 * n % p) ≡ n % p
  unfolding half_mod
  half-double n = ground (arith, twice n, odd, mod-lt n {m = p} (omega (arith, odd)))

  pub unscale-lt : (j n : ℕ) → n < p → unscale p j n < p
  unfolding unscale
  unscale-lt zero n h = h
  unscale-lt (suc j) n h = half_mod-lt (unscale p j n) (unscale-lt j n h)

  -- Dividing by 2 ^ j takes away a factor 2 ^ j.
  pub unscale-scale : (j n : ℕ) → unscale p j (2 ^ j * n % p) ≡ n % p
  unfolding unscale
  unscale-scale zero n = ap (λ (t : ℕ). t % p) (omega (arith, pow-zero 2))
  unscale-scale (suc j) n =
      ap (λ (t : ℕ). half_mod p (unscale p j (t % p))) (grind (arith, pow-suc 2 j))
      ∙ ap (λ (t : ℕ). half_mod p t) (unscale-scale j (2 * n))
      ∙ half-double n

  -- What is divided by 2 ^ j and multiplied by it again is the same.
  pub scale-unscale : (j n : ℕ) → n < p → 2 ^ j * unscale p j n % p ≡ n
  unfolding unscale
  scale-unscale zero n h = ap (λ (t : ℕ). t % p) (omega (arith, pow-zero 2)) ∙ mod-eq_of_lt h
  scale-unscale (suc j) n h =
      let u = unscale p j n in
      ap (λ (t : ℕ). t % p) (grind (arith, pow-suc 2 j))
      ∙ sym (mul-mod-mod (2 ^ j) (2 * half_mod p u) p)
      ∙ ap (λ (t : ℕ). 2 ^ j * t % p) (double-half u (unscale-lt j n h))
      ∙ scale-unscale j n h
