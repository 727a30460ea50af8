-- ===== src/Bignum/Mont/Inverse.antt =====
-- The negated inverse modulo 2 ^ (64 * k): each round doubles the number of correct digits.
use s2n_bignum.Prelude.{
  ℕ, zero, suc, ◌+◌, ◌-◌, ◌*◌, ◌/◌, ◌%◌, ◌^◌, ◌≤◌, ◌<◌, ◌≡◌, refl, sym, ap, ap₂, ◌∙◌, List, [], ◌∷◌,
  ◌++◌, some, arith,
}
use s2n_bignum.Prelude.{ltb, if◌then◌else◌, Bool-cases, inl, inr, ltb→lt, ltb_false→le, take, drop}
use s2n_bignum.Prelude.Powers.{mul_bound, pow-add, mod_below, add-mul-mod_factor}
use s2n_bignum.Word.{word_mod}
use s2n_bignum.Bignum.{val, IsBignum, zeros, reference_of_word}
use s2n_bignum.Bignum.Digits.{
  val-lt, word_pow_pos, val-of_word, of_word-IsBignum, zeros-IsBignum, val-zeros,
}
use s2n_bignum.Bignum.Split.{
  take-IsBignum, drop-IsBignum, append-IsBignum, val-append, val-split, val-take, take-append,
  drop-append, drop-drop,
}
use s2n_bignum.Bignum.Mul.{reference_madd}
use s2n_bignum.Bignum.Mul.Product.{val-madd, madd-IsBignum}
use s2n_bignum.Bignum.Mont.{
  negmodinv_step, negmodinv_loop, reference_negmodinv, reference_wordnegmodinv,
}
use s2n_bignum.Bignum.Mont.WordInverse.{wordnegmodinv_lem, wordnegmodinv-lt, newton}
use mathlib.Core.Path.{subst}
use native.Mathlib.Nat.{
  mul-mod_right, dvd-mul_right, mod-mod_of_dvd, pow-le-pow_right, mod-eq_of_lt, mod-add-div,
  add-mul-mod_self_left,
}

-- The first `b` digits of `x` are a negated inverse of `a` modulo 2 ^ (64 * b), the others 0.
pub record Correct (k : ℕ) (a : List ℕ) (b : ℕ) (x : List ℕ) : Type 0 where
  pub digits : IsBignum k x
  pub rest : val (drop b x) ≡ 0
  pub inverse : (val a * val (take b x) + 1) % word_mod ^ b ≡ 0

module _ (k : ℕ) (a : List ℕ) (ha : IsBignum k a) (b b2 : ℕ) (x : List ℕ) (c : Correct k a b x)
    (pos : 0 < b) (more : b ≤ b2) (most : b2 ≤ 2 * b) (fits : b2 ≤ k) where
  abbrev low : List ℕ
  low = take b x

  abbrev y : List ℕ
  y = reference_madd b2 (reference_of_word b2 1) b2 (take b2 a) b low

  abbrev seg : List ℕ
  seg = reference_madd (b2 - b) (take (b2 - b) (drop b x)) b low (b2 - b) (drop b y)

  low-IsBignum : IsBignum b low
  low-IsBignum = take-IsBignum {k = k} b x (omega arith) c.digits

  a-IsBignum : IsBignum b2 (take b2 a)
  a-IsBignum = take-IsBignum {k = k} b2 a fits ha

  one-IsBignum : IsBignum b2 (reference_of_word b2 1)
  one-IsBignum = of_word-IsBignum b2 1 (omega arith)

  y-IsBignum : IsBignum b2 y
  y-IsBignum = madd-IsBignum b2 b2 (take b2 a) b low a-IsBignum low-IsBignum _ one-IsBignum

  seg_rest-IsBignum : IsBignum (b2 - b) (take (b2 - b) (drop b x))
  seg_rest-IsBignum =
      take-IsBignum {k = k - b} (b2 - b) (drop b x) (omega arith) (drop-IsBignum b x c.digits)

  seg-IsBignum : IsBignum (b2 - b) seg
  seg-IsBignum =
      madd-IsBignum (b2 - b) b low (b2 - b) (drop b y) low-IsBignum (drop-IsBignum b y y-IsBignum) _
        seg_rest-IsBignum

  power_split : word_mod ^ b * word_mod ^ (b2 - b) ≡ word_mod ^ b2
  power_split = sym (pow-add word_mod b (b2 - b)) ∙ ap (λ (j : ℕ). word_mod ^ j) (omega arith)

  power_square : word_mod ^ b * word_mod ^ b ≡ word_mod ^ b2 * word_mod ^ (2 * b - b2)
  power_square =
      sym (pow-add word_mod b b)
      ∙ ap (λ (j : ℕ). word_mod ^ j) (omega arith)
      ∙ pow-add word_mod b2 (2 * b - b2)

  one_small : 1 < word_mod ^ b2
  one_small =
      omega (arith, pow-le-pow_right {n = word_mod} (omega arith) {i = 1} {j = b2} (omega arith))

  val-y : val y ≡ (val a * val low + 1) % word_mod ^ b2
  val-y =
      val-madd b2 b2 (take b2 a) b low a-IsBignum low-IsBignum _ one-IsBignum
      ∙ ap (λ (s : ℕ). (s + val (take b2 a) * val low) % word_mod ^ b2)
          (val-of_word b2 1 (omega arith) ∙ mod-eq_of_lt {n = 1} {m = word_mod ^ b2} one_small)
      ∙ ap (λ (s : ℕ). (1 + s * val low) % word_mod ^ b2) (val-take {n = k} b2 a fits ha)
      ∙ add-mul-mod_factor 1 (val a) (val low) (word_mod ^ b2)
      ∙ ap (λ (s : ℕ). s % word_mod ^ b2) (omega arith)

  val-y_high : val y ≡ word_mod ^ b * val (drop b y)
  val-y_high =
      let zero_low : val (take b y) ≡ 0 =
        val-take {n = b2} b y more y-IsBignum
        ∙ ap (λ (s : ℕ). s % word_mod ^ b) val-y
        ∙ ap (λ (p : ℕ). (val a * val low + 1) % p % word_mod ^ b) (sym power_split)
        ∙ mod-mod_of_dvd (word_mod ^ b) (val a * val low + 1)
            (dvd-mul_right (word_mod ^ b) (word_mod ^ (b2 - b)))
        ∙ c.inverse in
      omega (arith, zero_low, val-split {k = b2} b y more y-IsBignum)

  rest_zero : (val (take (b2 - b) (drop b x)) ≡ 0) × (val (drop b2 x) ≡ 0)
  rest_zero =
      let both =
        val-split {k = k - b} (b2 - b) (drop b x) (omega arith) (drop-IsBignum b x c.digits) in
      let tail = val (drop (b2 - b) (drop b x)) in
      let tail_bound =
        mul_bound 1 tail (word_mod ^ (b2 - b)) tail (word_pow_pos (b2 - b)) (omega arith) in
      (
        omega (arith, both, c.rest),
        sym (ap val (drop-drop b (b2 - b) b2 x (omega arith)))
            ∙ omega (arith, both, c.rest, tail_bound),
      )

  val-seg : val seg ≡ val low * val (drop b y) % word_mod ^ (b2 - b)
  val-seg =
      val-madd (b2 - b) b low (b2 - b) (drop b y) low-IsBignum (drop-IsBignum b y y-IsBignum) _
        seg_rest-IsBignum
      ∙ ap (λ (s : ℕ). (s + val low * val (drop b y)) % word_mod ^ (b2 - b)) rest_zero.0
      ∙ ap (λ (s : ℕ). s % word_mod ^ (b2 - b)) (omega arith)

  val-new : val (low ++ seg) ≡ (val y * val low + val low) % word_mod ^ b2
  val-new =
      val-append low seg low-IsBignum.0
      ∙ ap (λ (s : ℕ). val low + word_mod ^ b * s) val-seg
      ∙ mod_below (val low) (word_mod ^ b) (word_mod ^ (b2 - b)) (val low * val (drop b y))
          (val-lt low low-IsBignum) (word_pow_pos (b2 - b))
      ∙ ap₂ (λ (s p : ℕ). s % p) (omega (arith, ap (λ (t : ℕ). t * val low) val-y_high)) power_split

  new_residue :
      (q v : ℕ)
      → val a * val low + 1 ≡ val y + word_mod ^ b2 * q
      → val y * val y ≡ word_mod ^ b2 * v
      → (val a * ((val y * val low + val low) % word_mod ^ b2) + 1) % word_mod ^ b2 ≡ 0
  new_residue q v part square =
      let t = val y * val low + val low in
      ap (λ (n : ℕ). n % word_mod ^ b2) (omega arith)
      ∙ add-mul-mod_factor 1 t (val a) (word_mod ^ b2)
      ∙ ap (λ (n : ℕ). n % word_mod ^ b2)
          (omega (arith, square, newton (val a) (val low) (val y) q (word_mod ^ b2) part))
      ∙ mul-mod_right (word_mod ^ b2) (v + q * (val y + 1))

  new_inverse : (val a * val (low ++ seg) + 1) % word_mod ^ b2 ≡ 0
  new_inverse =
      let q = (val a * val low + 1) / word_mod ^ b2 in
      let s = val (drop b y) in
      let part : val a * val low + 1 ≡ val y + word_mod ^ b2 * q =
        omega (arith, val-y, mod-add-div (val a * val low + 1) (word_mod ^ b2)) in
      let square : val y * val y ≡ word_mod ^ b2 * (word_mod ^ (2 * b - b2) * (s * s)) =
        omega (arith, ap (λ (t : ℕ). t * t) val-y_high, ap (λ (t : ℕ). t * (s * s)) power_square) in
      ap (λ (t : ℕ). (val a * t + 1) % word_mod ^ b2) val-new
      ∙ new_residue q (word_mod ^ (2 * b - b2) * (s * s)) part square

  pub step-Correct : Correct k a b2 (negmodinv_step a b b2 x)
  unfolding negmodinv_step
  step-Correct =
      let new = append-IsBignum low seg low-IsBignum seg-IsBignum in
      let all = append-IsBignum (low ++ seg) (drop b2 x) new (drop-IsBignum b2 x c.digits) in
      record {
        digits = (omega (arith, all.0), all.1);
        rest =
            ap val (drop-append (low ++ seg) (drop b2 x) {n = b2} (omega (arith, new.0)))
            ∙ rest_zero.1;
        inverse =
            ap (λ (t : List ℕ). (val a * val t + 1) % word_mod ^ b2)
              (take-append (low ++ seg) (drop b2 x) {n = b2} (omega (arith, new.0)))
            ∙ new_inverse;
      }

next_size :
    (k b : ℕ)
    → 0 < b
    → b < k
    → let b2 = if ltb k (2 * b) then k else 2 * b in (b < b2) × (b2 ≤ 2 * b) × (b2 ≤ k)
next_size k b pos lt = ground arith

module _ (k : ℕ) (a : List ℕ) (ha : IsBignum k a) where
  -- The whole of a k-digit array is its first `k` digits.
  finished :
      (x : List ℕ) → Correct k a k x → IsBignum k x × ((val a * val x + 1) % word_mod ^ k ≡ 0)
  finished x c =
      let whole : val (take k x) ≡ val x =
        val-take {n = k} k x (omega arith) c.digits ∙ mod-eq_of_lt (val-lt x c.digits) in
      (c.digits, ap (λ (v : ℕ). (val a * v + 1) % word_mod ^ k) (sym whole) ∙ c.inverse)

  negmodinv_loop-Correct :
      (fuel b : ℕ) (x : List ℕ)
      → 0 < b
      → b ≤ k
      → k < b + fuel
      → Correct k a b x
      → (z : List ℕ) × (negmodinv_loop fuel k a b x ≡ some z)
        × IsBignum k z
        × ((val a * val z + 1) % word_mod ^ k ≡ 0)
  unfolding negmodinv_loop
  negmodinv_loop-Correct zero b x pos le enough c = absurd (omega arith)
  negmodinv_loop-Correct (suc fuel) b x pos le enough c = elim (Bool-cases (ltb b k)) [
    | inl more ↦
        let b2 = if ltb k (2 * b) then k else 2 * b in
        let (grows, most, fits) = next_size k b pos (ltb→lt b k more) in
        let c2 = step-Correct k a ha b b2 x c pos (omega arith) most fits in
        rw more (
          negmodinv_loop-Correct fuel b2 (negmodinv_step a b b2 x) (omega arith) fits (omega arith)
            c2)
    | inr done ↦
        let e : b ≡ k = omega (arith, ltb_false→le b k done) in
        let (digits, inverse) = finished x (subst (λ (j : ℕ). Correct k a j x) e c) in
        rw done (x, refl, digits, inverse)
  ]

first-Correct :
    (j d : ℕ) (ds : List ℕ)
    → IsBignum (suc j) (d ∷ ds)
    → d % 2 ≡ 1
    → Correct (suc j) (d ∷ ds) 1 (reference_wordnegmodinv d ∷ zeros j)
unfolding val
first-Correct j d ds (e, w) odd =
    let x0 = reference_wordnegmodinv d in
    let spread : (d + word_mod * val ds) * (x0 + word_mod * 0) + 1
        ≡ d * x0 + 1 + word_mod * (val ds * x0) =
      omega arith in
    record {
      digits = (ap suc (zeros-IsBignum j).0, (wordnegmodinv-lt d, (zeros-IsBignum j).1));
      rest = val-zeros j;
      inverse =
          ap (λ (t : ℕ). t % word_mod) spread
          ∙ add-mul-mod_self_left (d * x0 + 1) word_mod (val ds * x0)
          ∙ wordnegmodinv_lem d odd w.0;
    }

-- For an odd k-digit number and fuel from k on, `reference_negmodinv` ends and writes k digits; their
-- product with the number is one below a multiple of 2 ^ (64 * k).
pub negmodinv_lem :
    (fuel k : ℕ) (a : List ℕ)
    → IsBignum k a
    → val a % 2 ≡ 1
    → k ≤ fuel
    → (z : List ℕ) × (reference_negmodinv fuel k a ≡ some z)
      × IsBignum k z
      × ((val a * val z + 1) % word_mod ^ k ≡ 0)
unfolding reference_negmodinv val
negmodinv_lem fuel zero [] h odd enough = absurd (omega arith)
negmodinv_lem fuel zero (d ∷ ds) (e, w) odd enough = absurd (omega arith)
negmodinv_lem fuel (suc j) [] (e, w) odd enough = absurd (omega arith)
negmodinv_lem fuel (suc j) (d ∷ ds) h odd enough =
    negmodinv_loop-Correct (suc j) (d ∷ ds) h fuel 1 (reference_wordnegmodinv d ∷ zeros j)
      (omega arith) (omega arith) (omega arith) (first-Correct j d ds h (omega arith))
