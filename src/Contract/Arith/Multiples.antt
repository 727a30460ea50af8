-- ===== src/Contract/Arith/Multiples.antt =====
-- The references of tests/test.c that multiply by a word, and what include/s2n-bignum.h promises.
use s2n_bignum.Prelude.{ℕ, ◌+◌, ◌*◌, ◌%◌, ◌^◌, ◌<◌, ◌≡◌, sym, ap, ◌∙◌, List, arith}
use s2n_bignum.Prelude.Powers.{mul-mod-mod, mod_unique}
use s2n_bignum.Word.{word_mod}
use s2n_bignum.Bignum.{val, IsBignum}
use s2n_bignum.Bignum.Digits.{val-lt, val_injective}
use s2n_bignum.Bignum.Add.{sbb-IsBignum}
use s2n_bignum.Bignum.Mul.{reference_cmul, reference_cmadd, reference_cmnegadd}
use s2n_bignum.Bignum.Mul.Digit.{val-cmadd, val-cmnegadd, cmadd-IsBignum}
use s2n_bignum.Contract.Digits.{digits-IsBignum}
use s2n_bignum.Contract.Arith.{bignum_cmul, bignum_cmadd, bignum_cmnegadd}
use s2n_bignum.Contract.Arith.Conform.{is_digits, copy-cmul}
use s2n_bignum.Contract.Arith.Laws.{multiples-exact}
use s2n_bignum.Contract.Field.Laws.{residue_cases}
use native.Mathlib.Nat.{add-mod-mod, mod-lt}

-- A sum with a number modulo p determines the other number below p.
addend_unique : (p a w z v : ℕ) → w < p → z < p → (w + a) % p ≡ v → (z + a) % p ≡ v → w ≡ z
addend_unique p a w z v hw hz ew ez =
    let r = a % p in
    let hr = mod-lt a {m = p} (omega arith) in
    let cw = residue_cases p (w + r) (omega arith) (omega arith) in
    let cz = residue_cases p (z + r) (omega arith) (omega arith) in
    let ew' = add-mod-mod w a p ∙ ew in
    let ez' = add-mod-mod z a p ∙ ez in ground (arith, cw, cz, ew', ez', hr)

module _ (k c : ℕ) (z : List ℕ) (n : ℕ) (y : List ℕ) (hc : c < word_mod) (hz : IsBignum k z)
    (hy : IsBignum n y) where
  cmnegadd-IsBignum : IsBignum k (reference_cmnegadd k z c n y)
  unfolding reference_cmnegadd
  cmnegadd-IsBignum = sbb-IsBignum k k z k (reference_cmul k c n y) 0

  -- For a word c and arrays of any sizes, z of k digits, the references for c * y, z + c * y and
  -- z - c * y write the digits of `bignum_cmul`, `bignum_cmadd` and `bignum_cmnegadd`.
  pub multiples-promised :
      (reference_cmul k c n y ≡ (bignum_cmul k c n y).z)
      × (reference_cmadd k z c n y ≡ (bignum_cmadd k z c n y).z)
      × (reference_cmnegadd k z c n y ≡ (bignum_cmnegadd k z c n y).z)
  unfolding bignum_cmul bignum_cmadd bignum_cmnegadd
  multiples-promised =
      let p = word_mod ^ k in
      let product = c * (val y % p) in
      let (_, _, exact) = multiples-exact k c z n y hz in
      let promised = (bignum_cmnegadd k z c n y).z in
      let written : (val (reference_cmnegadd k z c n y) + product) % p ≡ val z =
        sym (add-mod-mod (val (reference_cmnegadd k z c n y)) product p)
        ∙ ap (λ (t : ℕ). (val (reference_cmnegadd k z c n y) + t) % p) (mul-mod-mod c (val y) p)
        ∙ add-mod-mod (val (reference_cmnegadd k z c n y)) (c * val y) p
        ∙ val-cmnegadd k z c n y hz hc hy in
      let expected : (val promised + product) % p ≡ val z =
        mod_unique (val promised + product) p (bignum_cmnegadd k z c n y).c (val z)
          (omega (arith, exact)) (val-lt z hz) in
      (
        (copy-cmul k n y n y hy hy c hc).1,
        is_digits k (reference_cmadd k z c n y) _ (cmadd-IsBignum k z c n y) (
            val-cmadd k z c n y hz hc hy
            ∙ sym (add-mod-mod (val z) (c * val y) p)
            ∙ ap (λ (t : ℕ). (val z + t) % p) (sym (mul-mod-mod c (val y) p))
            ∙ add-mod-mod (val z) product p),
        val_injective (reference_cmnegadd k z c n y) promised cmnegadd-IsBignum
            (digits-IsBignum k _)
            (addend_unique p product (val (reference_cmnegadd k z c n y)) (val promised) (val z)
              (val-lt _ cmnegadd-IsBignum) (val-lt promised (digits-IsBignum k _)) written
              expected),
      )
