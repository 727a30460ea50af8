-- ===== src/Bignum/Mul/Product.antt =====
-- Full products, modulo what the target holds.
use s2n_bignum.Prelude.{
  ℕ, zero, suc, ◌+◌, ◌-◌, ◌*◌, ◌%◌, ◌^◌, ◌≤◌, ◌<◌, ◌≡◌, refl, sym, ap, ◌∙◌, List, arith,
}
use s2n_bignum.Prelude.{take, drop, get_or, ltb, Bool-cases, inl, inr, ltb→lt, ltb_false→le, ◌++◌}
use s2n_bignum.Prelude.Powers.{mod_below, add-mul-mod_factor, pow-suc-mul, pow-add}
use s2n_bignum.Word.{word_mod}
use s2n_bignum.Bignum.{val, digit, IsBignum, zeros}
use s2n_bignum.Bignum.Digits.{
  digit_in_range, digit-lt, span, span-mod, val-lt, val-lt_wide, zeros-IsBignum, val-zeros,
  word_pow_pos,
}
use s2n_bignum.Bignum.Split.{append-IsBignum, take-IsBignum, drop-IsBignum, val-append, val-split}
use s2n_bignum.Bignum.Mul.{madd_loop, reference_cmadd, reference_madd, reference_mul}
use s2n_bignum.Bignum.Mul.Digit.{val-cmadd, cmadd-IsBignum}
use native.Mathlib.Nat.{mod-eq_of_lt, mod-add-mod}

module _ (k : ℕ) (n : ℕ) (y : List ℕ) (hy : IsBignum n y) (i : ℕ) (a : ℕ) (z : List ℕ) (hi : i ≤ k)
    (ha : a < word_mod) (hz : IsBignum k z) where
  abbrev round : List ℕ
  round = take i z ++ reference_cmadd (k - i) (drop i z) a n y

  round-IsBignum : IsBignum k round
  round-IsBignum =
      let h =
        append-IsBignum (take i z) (reference_cmadd (k - i) (drop i z) a n y)
          (take-IsBignum i z hi hz) (cmadd-IsBignum (k - i) (drop i z) a n y) in
      (omega (arith, h.0), h.1)

  val-round : val round ≡ (val z + word_mod ^ i * (a * val y)) % word_mod ^ k
  val-round =
      let lo = take-IsBignum i z hi hz in
      let hd = drop-IsBignum i z hz in
      let total = val (drop i z) + a * val y in
      let e : word_mod ^ i * word_mod ^ (k - i) ≡ word_mod ^ k =
        sym (pow-add word_mod i (k - i)) ∙ ap (λ (j : ℕ). word_mod ^ j) (omega arith) in
      let low : val (take i z) + word_mod ^ i * (total % word_mod ^ (k - i))
          ≡ (val (take i z) + word_mod ^ i * total) % word_mod ^ k =
        rw (← e) (
          mod_below (val (take i z)) (word_mod ^ i) (word_mod ^ (k - i)) total
            (val-lt (take i z) lo) (word_pow_pos (k - i))) in
      let same : val (take i z) + word_mod ^ i * total ≡ val z + word_mod ^ i * (a * val y) =
        omega (arith, val-split i z hi hz) in
      val-append (take i z) (reference_cmadd (k - i) (drop i z) a n y) lo.0
      ∙ rw (val-cmadd (k - i) (drop i z) a n y hd ha hy)
          (low ∙ ap (λ (s : ℕ). s % word_mod ^ k) same)

sum_step :
    (i v s y d e : ℕ)
    → e ≡ d
    → v + word_mod ^ i * (d * y) + word_mod ^ suc i * (s * y)
      ≡ v + word_mod ^ i * ((e + word_mod * s) * y)
sum_step i v s y d e h =
    omega (arith, ap (λ (t : ℕ). word_mod ^ i * (t * y)) h, pow-suc-mul word_mod i (s * y))

module _ (k m : ℕ) (x : List ℕ) (n : ℕ) (y : List ℕ) (hx : IsBignum m x) (hy : IsBignum n y) where
  madd_loop_lem :
      (left i : ℕ) (z : List ℕ)
      → i + left ≤ k
      → i + left ≤ m
      → IsBignum k z
      → IsBignum k (madd_loop k x n y left i z)
        × (val (madd_loop k x n y left i z)
            ≡ (val z + word_mod ^ i * (span m x left i * val y)) % word_mod ^ k)
  unfolding madd_loop span
  madd_loop_lem zero i z hk hm hz =
      (hz, sym (ap (λ (s : ℕ). s % word_mod ^ k) (omega arith) ∙ mod-eq_of_lt (val-lt z hz)))
  madd_loop_lem (suc left) i z hk hm hz =
      let d = get_or x i 0 in
      let hd : d < word_mod = rw (← (digit_in_range {k = m} x i (omega arith))) (digit-lt x i hx) in
      let z1 = round k n y hy i d z (omega arith) hd hz in
      let (ok, total) =
        madd_loop_lem left (suc i) z1 (omega arith) (omega arith)
          (round-IsBignum k n y hy i d z (omega arith) hd hz) in
      (
        ok,
        total
            ∙ ap
                (λ (s : ℕ). (s + word_mod ^ suc i * (span m x left (suc i) * val y)) % word_mod ^ k)
                (val-round k n y hy i d z (omega arith) hd hz)
            ∙ mod-add-mod (val z + word_mod ^ i * (d * val y)) (word_mod ^ k)
                (word_mod ^ suc i * (span m x left (suc i) * val y))
            ∙ ap (λ (s : ℕ). s % word_mod ^ k)
                (sum_step i (val z) (span m x left (suc i)) (val y) d (digit m x i)
                  (digit_in_range {k = m} x i (omega arith))),
      )

  madd_rounds :
      (km : ℕ) (z : List ℕ)
      → km ≤ k
      → km ≤ m
      → val x % word_mod ^ km ≡ val x % word_mod ^ k
      → IsBignum k z
      → IsBignum k (madd_loop k x n y km 0 z)
        × (val (madd_loop k x n y km 0 z) ≡ (val z + val x * val y) % word_mod ^ k)
  madd_rounds km z hk hm same hz =
      let (ok, total) = madd_loop_lem km 0 z (omega arith) (omega arith) hz in
      let start : val z + word_mod ^ 0 * (span m x km 0 * val y)
          ≡ val z + val x % word_mod ^ k * val y =
        omega (arith, ap (λ (t : ℕ). t * val y) (span-mod x km hx ∙ same)) in
      (
        ok,
        total
            ∙ ap (λ (s : ℕ). s % word_mod ^ k) start
            ∙ add-mul-mod_factor (val z) (val x) (val y) (word_mod ^ k),
      )

  madd_lem :
      (z : List ℕ)
      → IsBignum k z
      → IsBignum k (reference_madd k z m x n y)
        × (val (reference_madd k z m x n y) ≡ (val z + val x * val y) % word_mod ^ k)
  unfolding reference_madd
  madd_lem z hz = elim (Bool-cases (ltb k m)) [
    | inl lt ↦ rw lt (madd_rounds k z (omega arith) (omega (arith, ltb→lt k m lt)) refl hz)
    | inr ge ↦ rw ge (
        madd_rounds m z (ltb_false→le k m ge) (omega arith)
          (mod-eq_of_lt (val-lt x hx) ∙ sym (mod-eq_of_lt (val-lt_wide x hx (ltb_false→le k m ge))))
          hz)
  ]

  pub madd-IsBignum : (z : List ℕ) → IsBignum k z → IsBignum k (reference_madd k z m x n y)
  madd-IsBignum z hz = (madd_lem z hz).0

  -- `reference_madd` adds the product of `x` and `y` to `z`, modulo 2 ^ (64 * k), whatever the sizes
  -- of the three arrays.
  pub val-madd :
      (z : List ℕ)
      → IsBignum k z
      → val (reference_madd k z m x n y) ≡ (val z + val x * val y) % word_mod ^ k
  val-madd z hz = (madd_lem z hz).1

-- `reference_mul` writes the product of an m-digit and an n-digit number modulo 2 ^ (64 * k), into
-- an array of any size k.
pub val-mul :
    (k m : ℕ) (x : List ℕ) (n : ℕ) (y : List ℕ)
    → IsBignum m x
    → IsBignum n y
    → val (reference_mul k m x n y) ≡ val x * val y % word_mod ^ k
unfolding reference_mul
val-mul k m x n y hx hy =
    val-madd k m x n y hx hy (zeros k) (zeros-IsBignum k)
    ∙ ap (λ (s : ℕ). s % word_mod ^ k) (omega (arith, val-zeros k))

pub mul-IsBignum :
    (k m : ℕ) (x : List ℕ) (n : ℕ) (y : List ℕ)
    → IsBignum m x
    → IsBignum n y
    → IsBignum k (reference_mul k m x n y)
unfolding reference_mul
mul-IsBignum k m x n y hx hy = madd-IsBignum k m x n y hx hy (zeros k) (zeros-IsBignum k)
