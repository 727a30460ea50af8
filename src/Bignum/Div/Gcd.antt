-- ===== src/Bignum/Div/Gcd.antt =====
-- Euclid's algorithm on k-digit numbers ends, and its result is the greatest common divisor.
use s2n_bignum.Prelude.{ℕ, zero, suc, ◌+◌, ◌%◌, ◌<◌, ◌≡◌, refl, List, Option, some, arith}
use s2n_bignum.Prelude.{ltb, ◌==◌, Bool-cases, inl, inr, ◌↔◌, ltb→lt, ltb_false→le, ==_iff}
use s2n_bignum.Bignum.{val, IsBignum}
use s2n_bignum.Bignum.Digits.{copy_same}
use s2n_bignum.Bignum.Compare.{iszero_lem, samelen_lem}
use s2n_bignum.Bignum.Div.{gcd_loop, reference_gcd, reference_mod}
use s2n_bignum.Bignum.Div.Quotient.{mod_lem}
use Prim.Native.Nat.{◌∣◌}
use mathlib.Core.Path.{subst}
use native.Mathlib.Nat.{dvd-mod_iff, dvd-zero, mod-lt}

-- The common divisors of `m` and `n` are the divisors of `g`.
abbrev pub IsGcd : ℕ → ℕ → ℕ → Type 0
IsGcd m n g = (d : ℕ) → (d ∣ g) ↔ ((d ∣ m) × (d ∣ n))

IsGcd-zero_left : (m n : ℕ) → m ≡ 0 → IsGcd m n n
IsGcd-zero_left m n e d = (λ h. (rw e (dvd-zero d), h), λ h. h.1)

IsGcd-zero_right : (m n : ℕ) → n ≡ 0 → IsGcd m n m
IsGcd-zero_right m n e d = (λ h. (h, rw e (dvd-zero d)), λ h. h.0)

IsGcd-mod_right : (m n g : ℕ) → IsGcd m (n % m) g → IsGcd m n g
IsGcd-mod_right m n g h d = (
  λ p. let (a, b) = (h d).0 p in (a, (dvd-mod_iff d a).0 b),
  λ p. (h d).1 (p.0, (dvd-mod_iff d p.0).1 p.1),
)

IsGcd-mod_left : (m n g : ℕ) → IsGcd (m % n) n g → IsGcd m n g
IsGcd-mod_left m n g h d = (
  λ p. let (a, b) = (h d).0 p in ((dvd-mod_iff d b).0 a, b),
  λ p. (h d).1 ((dvd-mod_iff d p.1).1 p.0, p.1),
)

-- A run that ends with the greatest common divisor.
abbrev pub Returns : ℕ → List ℕ → List ℕ → Option (List ℕ) → Type 0
Returns k x y r = (z : List ℕ) × (r ≡ some z) × IsBignum k z × IsGcd (val x) (val y) (val z)

module _ (k : ℕ) where
  gcd_loop-Returns :
      (fuel : ℕ) (xx yy : List ℕ)
      → IsBignum k xx
      → IsBignum k yy
      → val xx + val yy < fuel
      → Returns k xx yy (gcd_loop fuel k xx yy)
  unfolding gcd_loop
  gcd_loop-Returns zero xx yy hx hy h = absurd (omega arith)
  gcd_loop-Returns (suc fuel) xx yy hx hy h =
      rw
        (
          iszero_lem k xx hx,
          iszero_lem k yy hy,
          (samelen_lem k xx yy hx hy).1,
          copy_same k xx hx,
          copy_same k yy hy,
        )
        (elim (Bool-cases (val xx == 0)) [
          | inl zx ↦ rw zx (yy, refl, hy, IsGcd-zero_left _ _ ((==_iff (val xx) 0).0 zx))
          | inr px ↦ rw px (elim (Bool-cases (val yy == 0)) [
            | inl zy ↦ rw zy (xx, refl, hx, IsGcd-zero_right _ _ ((==_iff (val yy) 0).0 zy))
            | inr py ↦ rw py (elim (Bool-cases (ltb (val xx) (val yy))) [
              | inl lt ↦ rw lt (
                  let pos : 0 < val xx = ground arith in
                  let m = mod_lem k yy xx hy hx pos in
                  let (z, e, hz, g) =
                    gcd_loop-Returns fuel xx (reference_mod k yy xx) hx m.1
                      (omega (arith, m.0, mod-lt (val yy) pos, ltb→lt _ _ lt)) in
                  rw (copy_same k (reference_mod k yy xx) m.1) (
                    z,
                    e,
                    hz,
                    IsGcd-mod_right (val xx) (val yy) (val z)
                        (subst (λ (v : ℕ). IsGcd (val xx) v (val z)) m.0 g),
                  ))
              | inr ge ↦ rw ge (
                  let pos : 0 < val yy = ground arith in
                  let m = mod_lem k xx yy hx hy pos in
                  let (z, e, hz, g) =
                    gcd_loop-Returns fuel (reference_mod k xx yy) yy m.1 hy
                      (omega (arith, m.0, mod-lt (val xx) pos, ltb_false→le _ _ ge)) in
                  rw (copy_same k (reference_mod k xx yy) m.1) (
                    z,
                    e,
                    hz,
                    IsGcd-mod_left (val xx) (val yy) (val z)
                        (subst (λ (v : ℕ). IsGcd v (val yy) (val z)) m.0 g),
                  ))
            ])
          ])
        ])

  -- With fuel above the sum of the two k-digit numbers, both not 0 or not, `reference_gcd` ends and
  -- writes k digits, and the divisors of its result are the common divisors of the two numbers.
  pub gcd_lem :
      (fuel : ℕ) (x y : List ℕ)
      → IsBignum k x
      → IsBignum k y
      → val x + val y < fuel
      → Returns k x y (reference_gcd fuel k x y)
  unfolding reference_gcd
  gcd_lem fuel x y hx hy h =
      rw (copy_same k x hx, copy_same k y hy) (gcd_loop-Returns fuel x y hx hy h)
