-- ===== src/Bignum/Add/Laws.antt =====
-- What addition and subtraction of arrays of one size mean, and how they undo one another.
use s2n_bignum.Prelude.{
  ℕ, ◌+◌, ◌-◌, ◌*◌, ◌^◌, ◌≤◌, ◌<◌, ◌≡◌, ◌∙◌, List, Bool-cases, inl, inr, true, false, ◌⊎◌,
}
use s2n_bignum.Prelude.{arith, nonzero, ltb, of_bool, if◌then◌else◌}
use s2n_bignum.Prelude.Powers.{mul_bit}
use s2n_bignum.Word.{word_mod}
use s2n_bignum.Bignum.{val, IsBignum}
use s2n_bignum.Bignum.Digits.{val-lt, val-lt_wide, val-copy, copy-IsBignum, val_injective}
use s2n_bignum.Bignum.Add.{
  reference_adc, reference_sbb, reference_add_samelen, reference_sub_samelen, reference_optsub,
  adc-IsBignum, sbb-IsBignum, adc-carry, sbb-borrow, val-adc, val-sbb,
}
use native.Mathlib.Nat.{mod-eq_of_lt}

carry_cancel :
    (p d y s x b c : ℕ)
    → b ≤ 1
    → c ≤ 1
    → d < p
    → x < p
    → s + p * c ≡ x + y
    → d + y ≡ s + p * b
    → (b ≡ c) × (d ≡ x)
carry_cancel p d y s x b c hb hc hd hx e f = ground (arith, mul_bit p b hb, mul_bit p c hc)

module _ (k : ℕ) (x y : List ℕ) (hx : IsBignum k x) (hy : IsBignum k y) where
  pub val-adc_same :
      (cin : ℕ)
      → cin ≤ 1
      → val (reference_adc k k x k y cin).z + word_mod ^ k * (reference_adc k k x k y cin).c
        ≡ val x + val y + cin
  val-adc_same cin h =
      omega (
        arith,
        val-adc k k x k y cin hx hy h,
        mod-eq_of_lt (val-lt x hx),
        mod-eq_of_lt (val-lt y hy),
      )

  pub val-sbb_same :
      (cin : ℕ)
      → cin ≤ 1
      → val (reference_sbb k k x k y cin).z + val y + cin
        ≡ val x + word_mod ^ k * (reference_sbb k k x k y cin).c
  val-sbb_same cin h =
      omega (
        arith,
        val-sbb k k x k y cin hx hy h,
        mod-eq_of_lt (val-lt x hx),
        mod-eq_of_lt (val-lt y hy),
      )

  -- Subtracting two k-digit numbers borrows exactly when the first is the smaller, and where it
  -- does not borrow the digits are the difference.
  pub sub_samelen_lem :
      ((reference_sub_samelen k x y).c ≡ of_bool (ltb (val x) (val y)))
      × (val y ≤ val x → val (reference_sub_samelen k x y).z ≡ val x - val y)
  unfolding reference_sub_samelen
  sub_samelen_lem =
      let r = reference_sbb k k x k y 0 in
      let total = val-sbb_same 0 (omega arith) in
      let split = mul_bit (word_mod ^ k) r.c (sbb-borrow k k x k y 0 (omega arith)) in
      let below = val-lt r.z (sbb-IsBignum k k x k y 0) in
      (ground (arith, total, split, below, val-lt y hy), λ h. ground (arith, total, split, below))

  -- For k-digit numbers `reference_optsub` writes the first number where the flag is 0, and else
  -- the difference if that is not negative.
  pub val-optsub :
      (p : ℕ)
      → (nonzero p ≡ true → val y ≤ val x)
      → val (reference_optsub k x p y).z ≡ (if nonzero p then val x - val y else val x)
  unfolding reference_optsub reference_sub_samelen
  val-optsub p h = elim (Bool-cases (nonzero p)) [
    | inl yes_p ↦ rw yes_p (sub_samelen_lem.1 (h yes_p))
    | inr no_p ↦ rw no_p (val-copy k k x hx ∙ mod-eq_of_lt (val-lt x hx))
  ]

module _ (k : ℕ) (x y : List ℕ) (hx : IsBignum k x) (hy : IsBignum k y) where
  -- Adding two k-digit numbers and then subtracting the second gives back the first; the borrow
  -- out of the subtraction is the carry out of the addition.
  pub sub-add_samelen :
      ((reference_sub_samelen k (reference_add_samelen k x y).z y).z ≡ x)
      × ((reference_sub_samelen k (reference_add_samelen k x y).z y).c
          ≡ (reference_add_samelen k x y).c)
  unfolding reference_sub_samelen reference_add_samelen
  sub-add_samelen =
      let s = reference_adc k k x k y 0 in
      let d = reference_sbb k k s.z k y 0 in
      let hs = adc-IsBignum k k x k y 0 in
      let hd = sbb-IsBignum k k s.z k y 0 in
      let (carry, same) =
        carry_cancel (word_mod ^ k) (val d.z) (val y) (val s.z) (val x) d.c s.c
          (sbb-borrow k k s.z k y 0 (omega arith)) (adc-carry k k x k y 0 (omega arith))
          (val-lt d.z hd) (val-lt x hx) (omega (arith, val-adc_same k x y hx hy 0))
          (omega (arith, val-sbb_same k s.z y hs hy 0)) in
      (val_injective d.z x hd hx same, carry)

-- Where the result fits, nothing is lost.
pub adc_exact :
    (k : ℕ) (x y : List ℕ) (cin : ℕ)
    → IsBignum k x
    → IsBignum k y
    → cin ≤ 1
    → val x + val y + cin < word_mod ^ k
    → val (reference_adc k k x k y cin).z ≡ val x + val y + cin
adc_exact k x y cin hx hy h fits = ground (
  arith,
  val-adc_same k x y hx hy cin h,
  mul_bit (word_mod ^ k) (reference_adc k k x k y cin).c (adc-carry k k x k y cin h),
)

pub sbb_exact :
    (k : ℕ) (x : List ℕ) (n : ℕ) (y : List ℕ)
    → IsBignum k x
    → IsBignum n y
    → n ≤ k
    → val y ≤ val x
    → val (reference_sbb k k x n y 0).z ≡ val x - val y
sbb_exact k x n y hx hy wide le =
    let r = reference_sbb k k x n y 0 in
    ground (
      arith,
      val-sbb k k x n y 0 hx hy (omega arith),
      mod-eq_of_lt (val-lt x hx),
      mod-eq_of_lt (val-lt_wide {k = n} {n = k} y hy wide),
      val-lt r.z (sbb-IsBignum k k x n y 0),
      mul_bit (word_mod ^ k) r.c (sbb-borrow k k x n y 0 (omega arith)),
    )

module _ (k : ℕ) (x y : List ℕ) (hx : IsBignum k x) (hy : IsBignum k y) where
  pub optsub-IsBignum : (p : ℕ) → IsBignum k (reference_optsub k x p y).z
  unfolding reference_optsub
  optsub-IsBignum p = elim (Bool-cases (nonzero p)) [
    | inl on ↦ rw on (sbb-IsBignum k k x k y 0)
    | inr off ↦ rw off (copy-IsBignum k k x hx)
  ]

  -- With the flag on, the result is the difference modulo 2 ^ (64 * k), whichever is the larger.
  pub optsub_on :
      (p r : ℕ)
      → nonzero p ≡ true
      → r < word_mod ^ k
      → (r + val y ≡ val x) ⊎ (r + val y ≡ val x + word_mod ^ k)
      → val (reference_optsub k x p y).z ≡ r
  unfolding reference_optsub
  optsub_on p r on small cases =
      let s = reference_sbb k k x k y 0 in
      rw on (
        ground (
          arith,
          cases,
          val-sbb_same k x y hx hy 0 (omega arith),
          val-lt s.z (sbb-IsBignum k k x k y 0),
          mul_bit (word_mod ^ k) s.c (sbb-borrow k k x k y 0 (omega arith)),
        ))

  pub optsub_off : (p : ℕ) → nonzero p ≡ false → val (reference_optsub k x p y).z ≡ val x
  unfolding reference_optsub
  optsub_off p off = rw off (val-copy k k x hx ∙ mod-eq_of_lt (val-lt x hx))

pub sub-IsBignum : (k : ℕ) (x y : List ℕ) → IsBignum k (reference_sub_samelen k x y).z
unfolding reference_sub_samelen
sub-IsBignum k x y = sbb-IsBignum k k x k y 0
