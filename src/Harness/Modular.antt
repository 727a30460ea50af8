-- ===== src/Harness/Modular.antt =====
-- The verdict of the tests of modular additions.
use s2n_bignum.Prelude.{
  ℕ, ◌+◌, ◌*◌, ◌%◌, ◌^◌, ◌<◌, ◌≡◌, refl, ap, ap₂, sym, ◌∙◌, List, [], ◌∷◌, Bool, true, false,
  if◌then◌else◌, arith, All, ◌↔◌,
}
use s2n_bignum.Word.{word_mod}
use s2n_bignum.Bignum.{val, IsBignum, reference_copy}
use s2n_bignum.Bignum.Digits.{copy-IsBignum, val-copy, val-lt, val-lt_wide}
use s2n_bignum.Bignum.Add.{reference_add_samelen, adc-IsBignum}
use s2n_bignum.Bignum.Add.Laws.{adc_exact}
use s2n_bignum.Bignum.Compare.{reference_compare, compare_lem, order_of}
use s2n_bignum.Bignum.Div.{reference_mod}
use s2n_bignum.Bignum.Div.Quotient.{mod_lem}
use s2n_bignum.Primes.{Field, curve25519, p256, p256k1, p384, p521, sm2, size, modulus}
use s2n_bignum.Primes.Range.{modulus-IsBignum}
use s2n_bignum.Harness.{
  Binary, Draws, disparity, modular_sum, add_loop, add_test, test_bignum_add_p25519,
  test_bignum_add_p256, test_bignum_add_p256k1, test_bignum_add_p384, test_bignum_add_p521,
  test_bignum_add_sm2,
}
use native.Mathlib.Nat.{mod-eq_of_lt, mod-lt, pow-suc}

disparity_iff : (m n : ℕ) → (disparity (order_of m n) ≡ false) ↔ (m ≡ n)
unfolding disparity order_of
disparity_iff m n = ground arith

-- The references report no disparity exactly for bignums of one value.
pub no_disparity :
    (k : ℕ) (x y : List ℕ)
    → IsBignum k x
    → IsBignum k y
    → (disparity (reference_compare k x k y) ≡ false) ↔ (val x ≡ val y)
no_disparity k x y hx hy =
    let order = compare_lem k x k y hx hy in
    let iff = disparity_iff (val x) (val y) in
    (λ h. iff.0 (sym (ap disparity order) ∙ h), λ e. ap disparity order ∙ iff.1 e)

pub verdict_zero : (b : Bool) (rest : ℕ) → (if b then 1 else rest) ≡ 0 → (b ≡ false) × (rest ≡ 0)
verdict_zero true rest h = absurd (omega (arith, h))
verdict_zero false rest h = (refl, h)

pub zero_verdict : (b : Bool) (rest : ℕ) → b ≡ false → rest ≡ 0 → (if b then 1 else rest) ≡ 0
zero_verdict b rest e h = ap (λ (c : Bool). if c then 1 else rest) e ∙ h

-- One test: the function under test returns the sum of the two reduced inputs modulo the modulus.
abbrev pub Agrees : ℕ → List ℕ → Binary → List ℕ × List ℕ → Type 0
Agrees k p add (u, v) =
    val (add (reference_mod k u p) (reference_mod k v p)) ≡ (val u % val p + val v % val p) % val p

abbrev pub Drawn : ℕ → List ℕ × List ℕ → Type 0
Drawn k (u, v) = IsBignum k u × IsBignum k v

module _ (k : ℕ) (p : List ℕ) (hp : IsBignum k p) (pos_p : 0 < val p) where
  pub wide : (x : List ℕ) → IsBignum k x → val (reference_copy (k + 1) k x) ≡ val x
  wide x hx = val-copy (k + 1) k x hx ∙ mod-eq_of_lt (val-lt_wide {n = k + 1} x hx (omega arith))

  pub sum_fits :
      (x y : List ℕ) → IsBignum k x → IsBignum k y → val x + val y + 0 < word_mod ^ (k + 1)
  sum_fits x y hx hy =
      let power : word_mod ^ (k + 1) ≡ word_mod ^ k * word_mod =
        ap (λ (j : ℕ). word_mod ^ j) (omega arith) ∙ pow-suc word_mod k in
      omega (arith, val-lt x hx, val-lt y hy, power)

  pub modular_sum_lem :
      (x y : List ℕ)
      → IsBignum k x
      → IsBignum k y
      → (val (modular_sum k p x y) ≡ (val x + val y) % val p) × IsBignum k (modular_sum k p x y)
  unfolding modular_sum reference_add_samelen
  modular_sum_lem x y hx hy =
      let b3 = reference_copy (k + 1) k x in
      let b4 = reference_copy (k + 1) k y in
      let m = reference_copy (k + 1) k p in
      let h3 = copy-IsBignum (k + 1) k x hx in
      let h4 = copy-IsBignum (k + 1) k y hy in
      let hm = copy-IsBignum (k + 1) k p hp in
      let sum = (reference_add_samelen (k + 1) b4 b3).z in
      let hsum = adc-IsBignum (k + 1) (k + 1) b4 (k + 1) b3 0 in
      let total : val sum ≡ val x + val y =
        adc_exact (k + 1) b4 b3 0 h4 h3 (omega arith)
          (omega (arith, wide x hx, wide y hy, sum_fits x y hx hy))
        ∙ omega (arith, wide x hx, wide y hy) in
      let (rest, hrest) = mod_lem (k + 1) sum m hsum hm (omega (arith, wide p hp, pos_p)) in
      let reduced : val (reference_mod (k + 1) sum m) ≡ (val x + val y) % val p =
        rest ∙ ap₂ (λ (a b : ℕ). a % b) total (wide p hp) in
      let below : val (reference_mod (k + 1) sum m) < word_mod ^ k =
        omega (arith, reduced, mod-lt (val x + val y) {m = val p} pos_p, val-lt p hp) in
      (
        val-copy k (k + 1) (reference_mod (k + 1) sum m) hrest ∙ mod-eq_of_lt below ∙ reduced,
        copy-IsBignum k (k + 1) (reference_mod (k + 1) sum m) hrest,
      )

  module _ (add : Binary)
      (sized : (x y : List ℕ) → IsBignum k x → IsBignum k y → IsBignum k (add x y)) where
    one_sum :
        (u v : List ℕ)
        → IsBignum k u
        → IsBignum k v
        → (disparity (
              reference_compare k
                (modular_sum k p (reference_mod k u p) (reference_mod k v p))
                k
                (add (reference_mod k u p) (reference_mod k v p)))
            ≡ false)
          ↔ Agrees k p add (u, v)
    one_sum u v hu hv =
        let (b0, h0) = mod_lem k u p hu hp pos_p in
        let (b1, h1) = mod_lem k v p hv hp pos_p in
        let x = reference_mod k u p in
        let y = reference_mod k v p in
        let (total, hsum) = modular_sum_lem x y h0 h1 in
        let same = total ∙ ap₂ (λ (a b : ℕ). (a + b) % val p) b0 b1 in
        let iff = no_disparity k (modular_sum k p x y) (add x y) hsum (sized x y h0 h1) in
        (λ h. sym (iff.0 h) ∙ same, λ e. iff.1 (same ∙ sym e))

    add_loop_lem :
        (draws : Draws)
        → All (Drawn k) draws
        → (add_loop k p add draws ≡ 0) ↔ All (Agrees k p add) draws
    unfolding add_loop
    add_loop_lem [] h = (λ e. tt, λ h. refl)
    add_loop_lem ((u, v) ∷ draws) ((hu, hv), hs) =
        let rest = add_loop_lem draws hs in
        let one = one_sum u v hu hv in
        let b = disparity (
          reference_compare k (modular_sum k p (reference_mod k u p) (reference_mod k v p)) k
            (add (reference_mod k u p) (reference_mod k v p))) in
        (
          λ e.
              let (first, others) = verdict_zero b (add_loop k p add draws) e in
              (one.0 first, rest.0 others),
          λ h. zero_verdict b (add_loop k p add draws) (one.1 h.0) (rest.1 h.1),
        )

add_test-loop :
    (f : Field) (add : Binary) (draws : Draws)
    → add_test f add draws ≡ add_loop (size f) (modulus f) add draws
unfolding test_bignum_add_p25519 test_bignum_add_p256 test_bignum_add_p256k1 test_bignum_add_p384
    test_bignum_add_p521 test_bignum_add_sm2
add_test-loop curve25519 add draws = refl
add_test-loop p256 add draws = refl
add_test-loop p256k1 add draws = refl
add_test-loop p384 add draws = refl
add_test-loop p521 add draws = refl
add_test-loop sm2 add draws = refl

-- Each of the six tests of a modular addition returns 0 exactly if, for all the inputs that were
-- drawn, the function under test returns the sum of the two inputs modulo the prime. The conditions
-- are that the draws have the field's number of digits, and that the function under test maps arrays
-- of that many digits to such arrays.
pub add_test_lem :
    (f : Field) (add : Binary)
    → ((x y : List ℕ) → IsBignum (size f) x → IsBignum (size f) y → IsBignum (size f) (add x y))
    → (draws : Draws) → All (Drawn (size f)) draws
    → (add_test f add draws ≡ 0) ↔ All (Agrees (size f) (modulus f) add) draws
add_test_lem f add sized draws h =
    let (digits, positive) = modulus-IsBignum f in
    let verdict = add_loop_lem (size f) (modulus f) digits positive add sized draws h in
    let same = add_test-loop f add draws in (λ e. verdict.0 (sym same ∙ e), λ a. same ∙ verdict.1 a)
