-- ===== src/Bignum/Mont/Product.antt =====
-- Montgomery multiplication, with the reduction that divides by 2 ^ (64 * k).
use s2n_bignum.Prelude.{
  ℕ, suc, ◌+◌, ◌-◌, ◌*◌, ◌%◌, ◌^◌, ◌≤◌, ◌<◌, ◌≡◌, refl, sym, ap, ◌∙◌, List, arith,
}
use s2n_bignum.Prelude.{
  leb, of_bool, Bool-cases, inl, inr, Bool, true, false, leb→le, leb_false→lt, take, drop,
}
use s2n_bignum.Prelude.Powers.{
  mod_unique, mul_bit, mul_bound, pow-add, mul-mod-mod, add-mul-mod_factor,
}
use s2n_bignum.Word.{word_mod}
use s2n_bignum.Bignum.{val, IsBignum}
use s2n_bignum.Bignum.Digits.{val-lt, word_pow_pos}
use s2n_bignum.Bignum.Split.{take-IsBignum, drop-IsBignum, val-split, val-take}
use s2n_bignum.Bignum.Add.{reference_optsub}
use s2n_bignum.Bignum.Add.Laws.{optsub_on, optsub_off, optsub-IsBignum}
use s2n_bignum.Bignum.Compare.{reference_le, le_lem}
use s2n_bignum.Bignum.Mul.{reference_mul, reference_madd}
use s2n_bignum.Bignum.Mul.Product.{val-mul, mul-IsBignum, val-madd, madd-IsBignum}
use s2n_bignum.Bignum.Mont.{reference_dmontmul}
use native.Mathlib.Nat.{pow-suc, zero-mod, mod-lt, mod-eq_of_lt, add-mul-mod_self_left}

-- Adding the right multiple of `m` makes a number a multiple of `r`.
pub redc_divides : (t i m r : ℕ) → (m * i + 1) % r ≡ 0 → (t + m * (t % r * i % r)) % r ≡ 0
redc_divides t i m r inv =
    ap (λ (s : ℕ). s % r) (omega arith)
    ∙ add-mul-mod_factor t (t % r * i) m r
    ∙ ap (λ (s : ℕ). s % r) (omega arith)
    ∙ add-mul-mod_factor t t (i * m) r
    ∙ ap (λ (s : ℕ). s % r) (omega arith)
    ∙ sym (mul-mod-mod t (m * i + 1) r)
    ∙ ap (λ (s : ℕ). t * s % r) inv
    ∙ ap (λ (s : ℕ). s % r) (omega arith)
    ∙ zero-mod r

twice_suc : (k : ℕ) → 2 * k + 1 ≡ suc (k + k)
twice_suc k = omega arith

module _ (k : ℕ) (x y m i : List ℕ) (hx : IsBignum k x) (hy : IsBignum k y) (hm : IsBignum k m)
    (hi : IsBignum k i) (inv : (val m * val i + 1) % word_mod ^ k ≡ 0)
    (small : val x * val y < val m * word_mod ^ k) where
  abbrev t1 : List ℕ
  t1 = reference_mul (2 * k + 1) k x k y

  abbrev z1 : List ℕ
  z1 = reference_mul k k (take k t1) k i

  abbrev t2 : List ℕ
  t2 = reference_madd (2 * k + 1) t1 k m k z1

  abbrev high : List ℕ
  high = drop k t2

  wide : word_mod ^ (2 * k + 1) ≡ word_mod * (word_mod ^ k * word_mod ^ k)
  wide = omega (
    arith,
    ap (λ (j : ℕ). word_mod ^ j) (twice_suc k),
    pow-suc word_mod (k + k),
    pow-add word_mod k k,
  )

  square_pos : 1 ≤ word_mod ^ k * word_mod ^ k
  square_pos = mul_bound 1 1 (word_mod ^ k) (word_mod ^ k) (word_pow_pos k) (word_pow_pos k)

  below_square :
      (u v : List ℕ) → IsBignum k u → IsBignum k v → val u * val v ≤ word_mod ^ k * word_mod ^ k
  below_square u v hu hv =
      mul_bound (val u) (val v) (word_mod ^ k) (word_mod ^ k) (omega (arith, val-lt u hu))
        (omega (arith, val-lt v hv))

  t1-IsBignum : IsBignum (2 * k + 1) t1
  t1-IsBignum = mul-IsBignum (2 * k + 1) k x k y hx hy

  val-t1 : val t1 ≡ val x * val y
  val-t1 =
      val-mul (2 * k + 1) k x k y hx hy
      ∙ mod-eq_of_lt {n = val x * val y} {m = word_mod ^ (2 * k + 1)}
          (omega (arith, wide, square_pos, below_square x y hx hy))

  z1-IsBignum : IsBignum k z1
  z1-IsBignum = mul-IsBignum k k (take k t1) k i (take-IsBignum k t1 (omega arith) t1-IsBignum) hi

  val-z1 : val z1 ≡ val x * val y % word_mod ^ k * val i % word_mod ^ k
  val-z1 =
      val-mul k k (take k t1) k i (take-IsBignum k t1 (omega arith) t1-IsBignum) hi
      ∙ ap (λ (s : ℕ). s * val i % word_mod ^ k)
          (val-take k t1 (omega arith) t1-IsBignum ∙ ap (λ (s : ℕ). s % word_mod ^ k) val-t1)

  val-t2 : val t2 ≡ val x * val y + val m * val z1
  val-t2 =
      val-madd (2 * k + 1) k m k z1 hm z1-IsBignum t1 t1-IsBignum
      ∙ ap (λ (s : ℕ). (s + val m * val z1) % word_mod ^ (2 * k + 1)) val-t1
      ∙ mod-eq_of_lt {n = val x * val y + val m * val z1} {m = word_mod ^ (2 * k + 1)} (
          omega (arith, wide, square_pos, below_square x y hx hy, below_square m z1 hm z1-IsBignum))

  t2-IsBignum : IsBignum (2 * k + 1) t2
  t2-IsBignum = madd-IsBignum (2 * k + 1) k m k z1 hm z1-IsBignum t1 t1-IsBignum

  high-IsBignum : IsBignum (suc k) high
  high-IsBignum = let h = drop-IsBignum k t2 t2-IsBignum in (omega (arith, h.0), h.1)

  -- What the division by 2 ^ (64 * k) leaves.
  exact : val x * val y + val m * val z1 ≡ word_mod ^ k * val high
  exact =
      let low : val (take k t2) ≡ 0 =
        val-take k t2 (omega arith) t2-IsBignum
        ∙ ap (λ (s : ℕ). s % word_mod ^ k)
            (val-t2 ∙ ap (λ (s : ℕ). val x * val y + val m * s) val-z1)
        ∙ redc_divides (val x * val y) (val i) (val m) (word_mod ^ k) inv in
      omega (arith, low, val-t2, val-split k t2 (omega arith) t2-IsBignum)

  high-lt : val high < 2 * val m
  high-lt = elim (Bool-cases (leb (2 * val m) (val high))) [
    | inl ge ↦ absurd (
        omega (
          arith,
          exact,
          mul_bound (word_mod ^ k) (2 * val m) (word_mod ^ k) (val high) (omega arith)
              (leb→le (2 * val m) (val high) ge),
          mul_bound (val m) (val z1) (val m) (word_mod ^ k) (omega arith)
              (omega (arith, val-lt z1 z1-IsBignum)),
        ))
    | inr lt ↦ leb_false→lt (2 * val m) (val high) lt
  ]

  top_bit : val (drop k high) ≤ 1
  top_bit = elim (Bool-cases (leb 2 (val (drop k high)))) [
    | inl ge ↦ absurd (
        omega (
          arith,
          val-split k high (omega arith) high-IsBignum,
          high-lt,
          val-lt m hm,
          mul_bound (word_mod ^ k) 2 (word_mod ^ k) (val (drop k high)) (omega arith)
              (leb→le 2 (val (drop k high)) ge),
        ))
    | inr lt ↦ omega (arith, leb_false→lt 2 (val (drop k high)) lt)
  ]

  difference : val m ≤ val high → val high % val m + val m ≡ val high
  difference le = omega (
    arith,
    high-lt,
    mod_unique (val high) (val m) 1 (val high - val m) (omega arith) (omega (arith, high-lt)),
  )

  abbrev result : List ℕ
  result = (reference_optsub k (take k high) (reference_le k m (suc k) high) m).z

  val-result : val result ≡ val high % val m
  val-result =
      let low = take-IsBignum {k = suc k} k high (omega arith) high-IsBignum in
      let with_flag = λ (b : Bool) (e : leb (val m) (val high) ≡ b).
        ap (λ (p : ℕ). val (reference_optsub k (take k high) p m).z)
          (le_lem m high hm high-IsBignum ∙ ap of_bool e) in
      let split = val-split k high (omega arith) high-IsBignum in
      elim (Bool-cases (leb (val m) (val high))) [
        | inl ge ↦
            with_flag true ge
            ∙ (optsub_on k (take k high) m low hm 1 (val high % val m) refl
                (omega (arith, mod-lt (val high) {m = val m} (omega (arith, high-lt)), val-lt m hm))
                (ground (
                  arith,
                  split,
                  difference (leb→le (val m) (val high) ge),
                  mul_bit (word_mod ^ k) (val (drop k high)) top_bit,
                )))
        | inr lt ↦
            let less = leb_false→lt (val m) (val high) lt in
            with_flag false lt
            ∙ (optsub_off k (take k high) m low hm 0 refl
                ∙ val-take k high (omega arith) high-IsBignum
                ∙ mod-eq_of_lt {n = val high} {m = word_mod ^ k} (omega (arith, less, val-lt m hm))
                ∙ sym (mod-eq_of_lt less))
      ]

  -- For k-digit numbers with `m * i` one below a multiple of R = 2 ^ (64 * k) and with
  -- `x * y < m * R`, `reference_dmontmul` writes k digits whose value is below `m` and, times R,
  -- is congruent to `x * y` modulo `m`.
  pub dmontmul_lem :
      IsBignum k (reference_dmontmul k x y m i)
      × (val (reference_dmontmul k x y m i) < val m)
      × (word_mod ^ k * val (reference_dmontmul k x y m i) % val m ≡ val x * val y % val m)
  unfolding reference_dmontmul
  dmontmul_lem = (
    optsub-IsBignum k (take k high) m (take-IsBignum k high (omega arith) high-IsBignum) hm _,
    rw val-result (mod-lt (val high) (omega (arith, high-lt))),
    rw val-result (
        mul-mod-mod (word_mod ^ k) (val high) (val m)
        ∙ ap (λ (s : ℕ). s % val m) (sym exact)
        ∙ add-mul-mod_self_left (val x * val y) (val m) (val z1)),
  )
