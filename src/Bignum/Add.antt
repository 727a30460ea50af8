-- ===== src/Bignum/Add.antt =====
-- tests/test.c, addition and subtraction with carry, and the optional subtraction.
pub mod Laws
use s2n_bignum.Prelude.{ℕ, zero, suc, ◌+◌, ◌*◌, ◌%◌, ◌^◌, ◌≤◌, ◌≡◌, refl, ap}
use s2n_bignum.Prelude.{List, [], ◌∷◌, arith, nonzero, if◌then◌else◌}
use s2n_bignum.Prelude.Powers.{pow-suc-mul}
use s2n_bignum.Word.{word_mod, sub64, carryout3, borrowout3}
use s2n_bignum.Word.Carry.{carryout3_lem, carryout3-le, borrowout3_lem, borrowout3-le}
use s2n_bignum.Bignum.{val, digit, IsBignum, reference_copy}
use s2n_bignum.Bignum.Digits.{digit-lt, span, span-mod}

-- An output array and the carry or borrow out of it.
pub record Carried : Type 0 where
  pub z : List ℕ
  pub c : ℕ

abbrev pub push : ℕ → Carried → Carried
push d r = record { z = d ∷ r.z; c = r.c }

module _ (m : ℕ) (x : List ℕ) (n : ℕ) (y : List ℕ) where
  -- for (i; left more rounds; ++i) { ...; z[i] = r; c = carryout3(a,b,c); }
  pub adc_loop : ℕ → ℕ → ℕ → Carried
  adc_loop zero i c = record { z = []; c = c }
  adc_loop (suc left) i c =
      let a = digit m x i in
      let b = digit n y i in
      let r = (a + b + c) % word_mod in push r (adc_loop left (suc i) (carryout3 a b c))

  pub sbb_loop : ℕ → ℕ → ℕ → Carried
  sbb_loop zero i c = record { z = []; c = c }
  sbb_loop (suc left) i c =
      let a = digit m x i in
      let b = digit n y i in
      let r = sub64 a (b + c) in push r (sbb_loop left (suc i) (borrowout3 a b c))

-- The source reads x[i] and y[i] before it writes z[i], and never an earlier digit: so `z` may be
-- the same array as `x` or `y`.
unfoldable pub reference_adc : ℕ → ℕ → List ℕ → ℕ → List ℕ → ℕ → Carried
unfolding adc_loop
reference_adc k m x n y cin = adc_loop m x n y k 0 cin

unfoldable pub reference_sbb : ℕ → ℕ → List ℕ → ℕ → List ℕ → ℕ → Carried
unfolding sbb_loop
reference_sbb k m x n y cin = sbb_loop m x n y k 0 cin

unfoldable pub reference_add_samelen : ℕ → List ℕ → List ℕ → Carried
reference_add_samelen k x y = reference_adc k k x k y 0

unfoldable pub reference_sub_samelen : ℕ → List ℕ → List ℕ → Carried
reference_sub_samelen k x y = reference_sbb k k x k y 0

unfoldable pub reference_optsub : ℕ → List ℕ → ℕ → List ℕ → Carried
reference_optsub k x p y =
    if nonzero p then reference_sbb k k x k y 0 else record { z = reference_copy k k x; c = 0 }

module _ (m : ℕ) (x : List ℕ) (n : ℕ) (y : List ℕ) (hx : IsBignum m x) (hy : IsBignum n y) where
  adc_loop_lem :
      (left i c : ℕ)
      → c ≤ 1
      → val (adc_loop m x n y left i c).z + word_mod ^ left * (adc_loop m x n y left i c).c
        ≡ span m x left i + span n y left i + c
  unfolding adc_loop val span
  adc_loop_lem zero i c h = omega arith
  adc_loop_lem (suc left) i c h =
      let c' = carryout3 (digit m x i) (digit n y i) c in
      omega (
        arith,
        carryout3_lem (digit m x i) (digit n y i) c (digit-lt x i hx) (digit-lt y i hy) h,
        adc_loop_lem left (suc i) c' (carryout3-le _ _ c),
        pow-suc-mul word_mod left (adc_loop m x n y left (suc i) c').c,
      )

  sbb_loop_lem :
      (left i c : ℕ)
      → c ≤ 1
      → val (sbb_loop m x n y left i c).z + span n y left i + c
        ≡ span m x left i + word_mod ^ left * (sbb_loop m x n y left i c).c
  unfolding sbb_loop val span
  sbb_loop_lem zero i c h = omega arith
  sbb_loop_lem (suc left) i c h =
      let c' = borrowout3 (digit m x i) (digit n y i) c in
      omega (
        arith,
        borrowout3_lem (digit m x i) (digit n y i) c (digit-lt x i hx) (digit-lt y i hy) h,
        sbb_loop_lem left (suc i) c' (borrowout3-le _ _ c),
        pow-suc-mul word_mod left (sbb_loop m x n y left (suc i) c').c,
      )

module _ (m : ℕ) (x : List ℕ) (n : ℕ) (y : List ℕ) where
  adc_loop-IsBignum : (left i c : ℕ) → IsBignum left (adc_loop m x n y left i c).z
  unfolding adc_loop
  adc_loop-IsBignum zero i c = (refl, tt)
  adc_loop-IsBignum (suc left) i c =
      let rest = adc_loop-IsBignum left (suc i) (carryout3 (digit m x i) (digit n y i) c) in
      (ap suc rest.0, (omega arith, rest.1))

  sbb_loop-IsBignum : (left i c : ℕ) → IsBignum left (sbb_loop m x n y left i c).z
  unfolding sbb_loop
  sbb_loop-IsBignum zero i c = (refl, tt)
  sbb_loop-IsBignum (suc left) i c =
      let rest = sbb_loop-IsBignum left (suc i) (borrowout3 (digit m x i) (digit n y i) c) in
      (ap suc rest.0, (omega arith, rest.1))

  adc_loop-carry : (left i c : ℕ) → c ≤ 1 → (adc_loop m x n y left i c).c ≤ 1
  unfolding adc_loop
  adc_loop-carry zero i c h = h
  adc_loop-carry (suc left) i c h = adc_loop-carry left (suc i) _ (carryout3-le _ _ c)

  sbb_loop-borrow : (left i c : ℕ) → c ≤ 1 → (sbb_loop m x n y left i c).c ≤ 1
  unfolding sbb_loop
  sbb_loop-borrow zero i c h = h
  sbb_loop-borrow (suc left) i c h = sbb_loop-borrow left (suc i) _ (borrowout3-le _ _ c)

module _ (k m : ℕ) (x : List ℕ) (n : ℕ) (y : List ℕ) (cin : ℕ) where
  pub adc-IsBignum : IsBignum k (reference_adc k m x n y cin).z
  unfolding reference_adc
  adc-IsBignum = adc_loop-IsBignum m x n y k 0 cin

  pub sbb-IsBignum : IsBignum k (reference_sbb k m x n y cin).z
  unfolding reference_sbb
  sbb-IsBignum = sbb_loop-IsBignum m x n y k 0 cin

  pub adc-carry : cin ≤ 1 → (reference_adc k m x n y cin).c ≤ 1
  unfolding reference_adc
  adc-carry = adc_loop-carry m x n y k 0 cin

  pub sbb-borrow : cin ≤ 1 → (reference_sbb k m x n y cin).c ≤ 1
  unfolding reference_sbb
  sbb-borrow = sbb_loop-borrow m x n y k 0 cin

  -- For numbers of `m` and `n` digits and a carry in of 0 or 1, the `k` digits that
  -- `reference_adc` writes and its carry out make up the sum of the low `k` digits and the carry in.
  pub val-adc :
      IsBignum m x
      → IsBignum n y
      → cin ≤ 1
      → val (reference_adc k m x n y cin).z + word_mod ^ k * (reference_adc k m x n y cin).c
        ≡ val x % word_mod ^ k + val y % word_mod ^ k + cin
  unfolding reference_adc
  val-adc hx hy h =
      omega (arith, adc_loop_lem m x n y hx hy k 0 cin h, span-mod x k hx, span-mod y k hy)

  -- For numbers of `m` and `n` digits and a borrow in of 0 or 1, what `reference_sbb` writes, the
  -- low `k` digits subtracted and the borrow in make up the low `k` digits subtracted from, and
  -- 2 ^ (64 * k) for a borrow out.
  pub val-sbb :
      IsBignum m x
      → IsBignum n y
      → cin ≤ 1
      → val (reference_sbb k m x n y cin).z + val y % word_mod ^ k + cin
        ≡ val x % word_mod ^ k + word_mod ^ k * (reference_sbb k m x n y cin).c
  unfolding reference_sbb
  val-sbb hx hy h =
      omega (arith, sbb_loop_lem m x n y hx hy k 0 cin h, span-mod x k hx, span-mod y k hy)
