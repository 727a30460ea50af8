-- ===== src/Bignum/Mul/Digit.antt =====
-- One digit times a number, and its sum with or difference from an array.
use s2n_bignum.Prelude.{
  ℕ, zero, suc, ◌+◌, ◌-◌, ◌*◌, ◌%◌, ◌^◌, ◌<◌, ◌≡◌, refl, sym, ap, ◌∙◌, List, arith,
}
use s2n_bignum.Prelude.Powers.{mod_unique, mul-mod-mod, pow-suc-mul}
use s2n_bignum.Word.{word_mod, add64, mul64, carryout2, multop}
use s2n_bignum.Word.Carry.{carryout2_lem, multop_lem}
use s2n_bignum.Prelude.Powers.{mul_bound}
use s2n_bignum.Bignum.{val, digit, IsBignum}
use s2n_bignum.Bignum.Digits.{digit-lt, span, span-mod, val-lt}
use s2n_bignum.Bignum.Add.{reference_adc, reference_sbb, adc-IsBignum}
use s2n_bignum.Bignum.Add.Laws.{val-adc_same, val-sbb_same}
use s2n_bignum.Bignum.Mul.{cmul_loop, reference_cmul, reference_cmadd, reference_cmnegadd}
use native.Mathlib.Nat.{add-mod-mod}

-- One round keeps a two-word sum exactly.
word_step :
    (a d c : ℕ)
    → a < word_mod
    → d < word_mod
    → c < word_mod
    → add64 (mul64 a d) c + word_mod * add64 (multop a d) (carryout2 (mul64 a d) c) ≡ a * d + c
word_step a d c ha hd hc = omega (
  arith,
  multop_lem a d ha hd,
  carryout2_lem (mul64 a d) c (omega arith) hc,
  mul_bound a d (word_mod - 1) (word_mod - 1) (omega arith) (omega arith),
)

module _ (a n : ℕ) (x : List ℕ) (ha : a < word_mod) (hx : IsBignum n x) where
  cmul_loop_lem :
      (left i c : ℕ)
      → c < word_mod
      → (e : ℕ) × (val (cmul_loop a n x left i c) + word_mod ^ left * e ≡ a * span n x left i + c)
  unfolding cmul_loop val span
  cmul_loop_lem zero i c h = (c, omega arith)
  cmul_loop_lem (suc left) i c h =
      let d = digit n x i in
      let c' = add64 (multop a d) (carryout2 (mul64 a d) c) in
      let (e, rest) = cmul_loop_lem left (suc i) c' (omega arith) in
      (e, omega (arith, rest, pow-suc-mul word_mod left e, word_step a d c ha (digit-lt x i hx) h))

  cmul_loop-IsBignum : (left i c : ℕ) → IsBignum left (cmul_loop a n x left i c)
  unfolding cmul_loop
  cmul_loop-IsBignum zero i c = (refl, tt)
  cmul_loop-IsBignum (suc left) i c =
      let d = digit n x i in
      let rest = cmul_loop-IsBignum left (suc i) (add64 (multop a d) (carryout2 (mul64 a d) c)) in
      (ap suc rest.0, (omega arith, rest.1))

  pub cmul-IsBignum : (k : ℕ) → IsBignum k (reference_cmul k a n x)
  unfolding reference_cmul
  cmul-IsBignum k = cmul_loop-IsBignum k 0 0

  -- For a word `a` and an n-digit number, `reference_cmul` writes their product modulo 2 ^ (64 * k).
  pub val-cmul : (k : ℕ) → val (reference_cmul k a n x) ≡ a * val x % word_mod ^ k
  unfolding reference_cmul
  val-cmul k =
      let (e, total) = cmul_loop_lem k 0 0 (omega arith) in
      let sum : a * (val x % word_mod ^ k) ≡ val (cmul_loop a n x k 0 0) + word_mod ^ k * e =
        omega (arith, total, ap (λ (t : ℕ). a * t) (span-mod x k hx)) in
      sym (
        mod_unique _ (word_mod ^ k) e (val (cmul_loop a n x k 0 0)) sum
          (val-lt (cmul_loop a n x k 0 0) (cmul_loop-IsBignum k 0 0)))
      ∙ mul-mod-mod a (val x) (word_mod ^ k)

pub cmadd-IsBignum :
    (k : ℕ) (z : List ℕ) (a n : ℕ) (x : List ℕ) → IsBignum k (reference_cmadd k z a n x)
unfolding reference_cmadd
cmadd-IsBignum k z a n x = adc-IsBignum k k z k (reference_cmul k a n x) 0

module _ (k : ℕ) (z : List ℕ) (a n : ℕ) (x : List ℕ) (hz : IsBignum k z) (ha : a < word_mod)
    (hx : IsBignum n x) where
  -- `reference_cmadd` adds `a * x` to `z`, modulo 2 ^ (64 * k).
  pub val-cmadd : val (reference_cmadd k z a n x) ≡ (val z + a * val x) % word_mod ^ k
  unfolding reference_cmadd
  val-cmadd =
      let temp = reference_cmul k a n x in
      let r = reference_adc k k z k temp 0 in
      let total = val-adc_same k z temp hz (cmul-IsBignum a n x ha hx k) 0 (omega arith) in
      sym (
        mod_unique (val z + val temp) (word_mod ^ k) r.c (val r.z) (omega arith)
          (val-lt r.z (adc-IsBignum k k z k temp 0)))
      ∙ rw (val-cmul a n x ha hx k) (add-mod-mod (val z) (a * val x) (word_mod ^ k))

  -- `reference_cmnegadd` subtracts `a * x` from `z`: adding it again gives `z`, modulo
  -- 2 ^ (64 * k).
  pub val-cmnegadd : (val (reference_cmnegadd k z a n x) + a * val x) % word_mod ^ k ≡ val z
  unfolding reference_cmnegadd
  val-cmnegadd =
      let temp = reference_cmul k a n x in
      let r = reference_sbb k k z k temp 0 in
      let total = val-sbb_same k z temp hz (cmul-IsBignum a n x ha hx k) 0 (omega arith) in
      sym (add-mod-mod (val r.z) (a * val x) (word_mod ^ k))
      ∙ rw (← (val-cmul a n x ha hx k))
          (mod_unique (val r.z + val temp) (word_mod ^ k) r.c (val z) (omega arith) (val-lt z hz))
