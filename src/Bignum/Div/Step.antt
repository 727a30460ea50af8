-- ===== src/Bignum/Div/Step.antt =====
-- One round of the long division: the accumulator and the quotient take in one more bit.
use s2n_bignum.Prelude.{ℕ, suc, ◌+◌, ◌-◌, ◌*◌, ◌^◌, ◌≤◌, ◌<◌, ◌≡◌, ap, List, arith}
use s2n_bignum.Prelude.{leb, Bool-cases, inl, inr, true, leb→le, leb_false→lt}
use s2n_bignum.Prelude.Int.{pos, leb_ℤ}
use s2n_bignum.Word.{word_mod}
use s2n_bignum.Prelude.Powers.{mul_bound}
use s2n_bignum.Bignum.{val, IsBignum}
use s2n_bignum.Bignum.Digits.{val-lt}
use s2n_bignum.Bignum.Add.{reference_adc, reference_sbb, adc-IsBignum, sbb-IsBignum}
use s2n_bignum.Bignum.Add.Laws.{adc_exact, sbb_exact}
use s2n_bignum.Bignum.Compare.{compare_lem, order_of}
use s2n_bignum.Bignum.Div.{DivState, div_step}
use native.Mathlib.Nat.{pow-suc}

-- The state holds the quotient and the remainder of `n` by `y`.
pub record Divides (k : ℕ) (y : List ℕ) (n : ℕ) (s : DivState) : Type 0 where
  pub q_digits : IsBignum k s.q
  pub a_digits : IsBignum (suc k) s.a
  pub total : n ≡ val s.q * val y + val s.a
  pub below : val s.a < val y

order_of_ge : (m n : ℕ) → leb_ℤ (pos 0) (order_of m n) ≡ leb n m
unfolding order_of
order_of_ge m n = ground arith

module _ (k : ℕ) (y : List ℕ) (hy : IsBignum k y) (n b : ℕ) (hb : b ≤ 1) (s : DivState)
    (inv : Divides k y n s) (fits : 2 * n + b < word_mod ^ k) where
  abbrev doubled : List ℕ
  doubled = (reference_adc (suc k) (suc k) s.a (suc k) s.a b).z

  doubled-IsBignum : IsBignum (suc k) doubled
  doubled-IsBignum = adc-IsBignum (suc k) (suc k) s.a (suc k) s.a b

  val-doubled : val doubled ≡ 2 * val s.a + b
  val-doubled = omega (
    arith,
    adc_exact (suc k) s.a s.a b inv.a_digits inv.a_digits hb
        (omega (arith, inv.below, val-lt y hy, pow-suc word_mod k)),
  )

  reduced :
      leb (val y) (val doubled) ≡ true
      → val (reference_sbb (suc k) (suc k) doubled k y 0).z ≡ val doubled - val y
  reduced ge =
      sbb_exact (suc k) doubled k y doubled-IsBignum hy (omega arith)
        (leb→le (val y) (val doubled) ge)

  room : (c : ℕ) → c ≤ 2 * val s.a + b → 2 * val s.q + c ≤ 2 * n + b
  room c h = omega (
    arith,
    inv.total,
    mul_bound (val s.q) 1 (val s.q) (val y) (omega arith) (omega (arith, inv.below)),
  )

  quotient_grows :
      (c : ℕ)
      → c ≤ 1
      → 2 * val s.q + c ≤ 2 * n + b
      → val (reference_adc k k s.q k s.q c).z ≡ 2 * val s.q + c
  quotient_grows c hc le =
      omega (arith, adc_exact k s.q s.q c inv.q_digits inv.q_digits hc (omega arith))

  pub div_step-Divides : Divides k y (2 * n + b) (div_step k y b s)
  unfolding div_step
  div_step-Divides =
      rw (compare_lem (suc k) doubled k y doubled-IsBignum hy, order_of_ge (val doubled) (val y))
        (elim (Bool-cases (leb (val y) (val doubled))) [
          | inl ge ↦ rw ge (record {
            q_digits = adc-IsBignum k k s.q k s.q 1;
            a_digits = sbb-IsBignum (suc k) (suc k) doubled k y 0;
            total = omega (
              arith,
              inv.total,
              reduced ge,
              quotient_grows 1 (omega arith)
                  (room 1 (omega (arith, val-doubled, inv.below, leb→le _ _ ge))),
              ap (λ (t : ℕ). t * val y)
                  (quotient_grows 1 (omega arith)
                    (room 1 (omega (arith, val-doubled, inv.below, leb→le _ _ ge)))),
              leb→le _ _ ge,
              val-doubled,
            );
            below = omega (arith, reduced ge, val-doubled, inv.below);
          })
          | inr lt ↦ rw lt (record {
            q_digits = adc-IsBignum k k s.q k s.q 0;
            a_digits = doubled-IsBignum;
            total = omega (
              arith,
              inv.total,
              ap (λ (t : ℕ). t * val y) (quotient_grows 0 (omega arith) (room 0 (omega arith))),
              val-doubled,
            );
            below = leb_false→lt _ _ lt;
          })
        ])
