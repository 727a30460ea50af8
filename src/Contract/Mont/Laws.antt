-- ===== src/Contract/Mont/Laws.antt =====
-- What Montgomery form is for: multiplication in it is multiplication of what it stands for.
use s2n_bignum.Prelude.{
  ℕ, zero, suc, ◌+◌, ◌*◌, ◌%◌, ◌^◌, ◌≤◌, ◌<◌, ◌≡◌, ◌≢◌, refl, sym, ap, ap₂, ◌∙◌, List, arith, some,
  Nat-cases, inl, inr,
}
use s2n_bignum.Prelude.Powers.{mul-mod-mod, pow-add}
use s2n_bignum.Word.{word_mod}
use s2n_bignum.Bignum.{val, IsBignum}
use s2n_bignum.Bignum.Digits.{val-lt, val_injective}
use s2n_bignum.Bignum.Mont.{reference_dmontmul, reference_negmodinv}
use s2n_bignum.Bignum.Mont.Product.{dmontmul_lem}
use s2n_bignum.Bignum.Mont.Inverse.{negmodinv_lem}
use s2n_bignum.Primes.{Field, size, modulus}
use s2n_bignum.Contract.{digits}
use s2n_bignum.Contract.Digits.{val-digits_small, digits-IsBignum}
use s2n_bignum.Contract.Arith.Conform.{is_digits}
use s2n_bignum.Contract.Field.{unscale, bignum_mul_p, BignumInv}
use s2n_bignum.Contract.Field.Halving.{unscale-lt, unscale-scale, scale-unscale}
use s2n_bignum.Contract.Field.Laws.{
  IsReduced, is_residue, val-reduced, val-residue, modulus-odd, modulus-large, positive,
  residue_cases, if_zero, if_nonzero,
}
use s2n_bignum.Contract.Mont.{
  bignum_montmul, bignum_demont, BignumAmontifier, BignumAmontmul, BignumNegmodinv,
  bignum_montmul_p, bignum_tomont_p, bignum_demont_p, BignumMontinv,
}
use native.Mathlib.Nat.{mod-lt, mod-eq_of_lt, mod-mod, pow-suc, zero-mod, add-mod-mod}

pub word_power : (k : ℕ) → 2 ^ (64 * k) ≡ word_mod ^ k
word_power zero = refl
word_power (suc k) =
    ap (λ (t : ℕ). 2 ^ t) (omega arith)
    ∙ pow-add 2 64 (64 * k)
    ∙ ap (λ (t : ℕ). word_mod * t) (word_power k)
    ∙ omega (arith, pow-suc word_mod k)

double_power : (k : ℕ) → 2 ^ (128 * k) ≡ 2 ^ (64 * k) * 2 ^ (64 * k)
double_power k = ap (λ (t : ℕ). 2 ^ t) (omega arith) ∙ pow-add 2 (64 * k) (64 * k)

square_power : (k x : ℕ) → x * 2 ^ (128 * k) ≡ 2 ^ (64 * k) * (2 ^ (64 * k) * x)
square_power k x = ap (λ (t : ℕ). x * t) (double_power k) ∙ grind arith

mul-mod : (a b p : ℕ) → a * b % p ≡ a % p * (b % p) % p
mul-mod a b p =
    sym (mul-mod-mod a b p)
    ∙ ap (λ (t : ℕ). t % p) (grind arith)
    ∙ sym (mul-mod-mod (b % p) a p)
    ∙ ap (λ (t : ℕ). t % p) (grind arith)

-- Equal remainders give equal remainders of the multiples.
times_mod : (a b c p : ℕ) → a % p ≡ b % p → c * a % p ≡ c * b % p
times_mod a b c p e = sym (mul-mod-mod c a p) ∙ ap (λ (t : ℕ). c * t % p) e ∙ mul-mod-mod c b p

-- A factor 2 ^ j in front of a residue modulo an odd number can be dropped.
cancel : (p : ℕ) → p % 2 ≡ 1 → (j a b : ℕ) → 2 ^ j * a % p ≡ 2 ^ j * b % p → a % p ≡ b % p
cancel p odd j a b e = sym (unscale-scale p odd j a) ∙ ap (unscale p j) e ∙ unscale-scale p odd j b

module _ (f : Field) (x y : List ℕ) where
  -- Reduced elements are kept by going to Montgomery form and back, in either order, and a Montgomery
  -- product of two elements in Montgomery form is the Montgomery form of their product.
  pub demont_p-tomont_p :
      IsReduced f x
      → (bignum_demont_p f (bignum_tomont_p f x) ≡ x)
        × (bignum_tomont_p f (bignum_demont_p f x) ≡ x)
        × (bignum_montmul_p f (bignum_tomont_p f x) (bignum_tomont_p f y)
            ≡ bignum_tomont_p f (bignum_mul_p f x y))
  unfolding bignum_demont_p bignum_tomont_p bignum_montmul_p bignum_mul_p
  demont_p-tomont_p hx =
      let p = val (modulus f) in
      let odd = modulus-odd f in
      let j = 64 * size f in
      let scaled = λ (n : ℕ). val-residue f (2 ^ j * n) in
      let below = mod-lt (val x) {m = p} (positive f) in
      (
        is_residue f x _ hx (
            ap (λ (t : ℕ). unscale p j (t % p)) (scaled (val x))
            ∙ ap (λ (t : ℕ). unscale p j t) (mod-mod (2 ^ j * val x) p)
            ∙ unscale-scale p odd j (val x)
            ∙ mod-eq_of_lt hx.1),
        is_residue f x _ hx (
            ap (λ (t : ℕ). 2 ^ j * t % p) (val-reduced f _ (unscale-lt p odd j (val x % p) below))
            ∙ scale-unscale p odd j (val x % p) below
            ∙ mod-eq_of_lt hx.1),
        ap (λ (t : ℕ). digits (size f) t)
            (ap₂ (λ (s t : ℕ). unscale p j (s * t % p)) (scaled (val x)) (scaled (val y))
              ∙ ap (λ (t : ℕ). unscale p j t)
                  (sym (mul-mod (2 ^ j * val x) (2 ^ j * val y) p)
                    ∙ ap (λ (t : ℕ). t % p) (grind arith))
              ∙ unscale-scale p odd j (2 ^ j * (val x * val y))
              ∙ sym (mul-mod-mod (2 ^ j) (val x * val y) p)
              ∙ ap (λ (t : ℕ). 2 ^ j * t % p) (sym (val-residue f (val x * val y)))),
      )

module _ (k : ℕ) (x y m i : List ℕ) (hx : IsBignum k x) (hy : IsBignum k y) (hm : IsBignum k m)
    (odd : val m % 2 ≡ 1) where
  below_k : (n : ℕ) → n < val m → val (digits k n) ≡ n
  below_k n h = val-digits_small k n (omega (arith, h, val-lt m hm))

  m_pos : 0 < val m
  m_pos = omega (arith, odd)

  -- For k-digit numbers and an odd modulus, any output that is allowed to `bignum_amontmul` is congruent
  -- to what `bignum_montmul` writes. To take x into Montgomery form by `bignum_amontmul` with what is
  -- allowed to `bignum_amontifier`, and out of it by `bignum_demont`, gives x reduced.
  pub amontmul-montmul :
      (z r s : List ℕ)
      → BignumAmontmul k x y m z
      → BignumAmontifier k m r
      → BignumAmontmul k x r m s
      → (val z % val m ≡ val (bignum_montmul k x y m)) × (val (bignum_demont k s m) ≡ val x % val m)
  unfolding bignum_montmul bignum_demont
  amontmul-montmul z r s product amontifier scaled =
      let p = val m in
      let j = 64 * k in
      (
        sym (unscale-scale p odd j (val z))
            ∙ ap (λ (t : ℕ). unscale p j t) product.1
            ∙ sym
                (below_k _ (unscale-lt p odd j (val x * val y % p) (mod-lt (val x * val y) m_pos))),
        below_k _ (unscale-lt p odd j (val s % p) (mod-lt (val s) m_pos))
            ∙ ap (λ (t : ℕ). unscale p j t)
                (cancel p odd j (val s) (2 ^ j * val x) (
                  scaled.1
                  ∙ times_mod (val r) (2 ^ (128 * k)) (val x) p amontifier.1
                  ∙ ap (λ (t : ℕ). t % p) (square_power k (val x))))
            ∙ unscale-scale p odd j (val x),
      )

  -- For k-digit numbers, an odd modulus m with m * i one below a multiple of 2 ^ (64 * k) and
  -- x * y < m * 2 ^ (64 * k), `reference_dmontmul` writes what is promised of `bignum_montmul`.
  pub dmontmul-montmul :
      IsBignum k i
      → (val m * val i + 1) % word_mod ^ k ≡ 0
      → val x * val y < val m * word_mod ^ k
      → reference_dmontmul k x y m i ≡ bignum_montmul k x y m
  unfolding bignum_montmul
  dmontmul-montmul hi inverse bound =
      let d = reference_dmontmul k x y m i in
      let j = 64 * k in
      let (hd, below, congruent) = dmontmul_lem k x y m i hx hy hm hi inverse bound in
      let same : val d ≡ unscale (val m) j (val x * val y % val m) =
        sym (mod-eq_of_lt below)
        ∙ sym (unscale-scale (val m) odd j (val d))
        ∙ ap (λ (t : ℕ). unscale (val m) j t)
            (ap (λ (t : ℕ). t * val d % val m) (word_power k) ∙ congruent) in
      is_digits k d _ hd (same ∙ sym (mod-eq_of_lt (omega (arith, same, val-lt d hd))))

-- What brings a number to a multiple of p is determined below p.
complement_unique : (p a w z : ℕ) → w < p → z < p → (w + a) % p ≡ 0 → (z + a) % p ≡ 0 → w ≡ z
complement_unique p a w z hw hz ew ez =
    let r = a % p in
    let hr = mod-lt a {m = p} (omega arith) in
    let cw = residue_cases p (w + r) (omega arith) (omega arith) in
    let cz = residue_cases p (z + r) (omega arith) (omega arith) in
    let ew' = add-mod-mod w a p ∙ ew in
    let ez' = add-mod-mod z a p ∙ ez in ground (arith, cw, cz, ew', ez', hr)

multiple_zero : (p x w z : ℕ) → (x * z + 1) % p ≡ 0 → (w + x * z * w) % p ≡ 0
multiple_zero p x w z e =
    ap (λ (t : ℕ). t % p) (grind arith)
    ∙ sym (mul-mod-mod w (x * z + 1) p)
    ∙ ap (λ (t : ℕ). w * t % p) e
    ∙ ap (λ (t : ℕ). t % p) (omega arith)
    ∙ zero-mod p

-- For an odd k-digit number and fuel from k on, `reference_negmodinv` ends and writes what is promised of
-- `bignum_negmodinv`; nothing else is what is promised.
pub negmodinv-BignumNegmodinv :
    (fuel k : ℕ) (x : List ℕ)
    → IsBignum k x
    → val x % 2 ≡ 1
    → k ≤ fuel
    → (z : List ℕ) × (reference_negmodinv fuel k x ≡ some z)
      × BignumNegmodinv k x z
      × ((w : List ℕ) → BignumNegmodinv k x w → w ≡ z)
negmodinv-BignumNegmodinv fuel k x hx odd enough =
    let (z, returned, hz, inverse) = negmodinv_lem fuel k x hx odd enough in
    (
      z,
      returned,
      (hz, inverse),
      λ w promised. val_injective w z promised.0 hz (
          complement_unique (word_mod ^ k) (val x * val z * val w) (val w) (val z)
            (val-lt w promised.0) (val-lt z hz)
            (multiple_zero (word_mod ^ k) (val x) (val w) (val z) inverse)
            (ap (λ (t : ℕ). (val z + t) % word_mod ^ k) (grind arith)
              ∙ multiple_zero (word_mod ^ k) (val x) (val z) (val w) promised.1)),
    )

unscaled_zero : (p : ℕ) → p % 2 ≡ 1 → (j n : ℕ) → n % p ≡ 0 → unscale p j (n % p) ≡ 0
unscaled_zero p odd j n e =
    let pos : 0 < p = omega (arith, odd) in
    let out = unscale-lt p odd j (n % p) (mod-lt n pos) in
    sym (mod-eq_of_lt out)
    ∙ cancel p odd j (unscale p j (n % p)) 0 (
        scale-unscale p odd j (n % p) (mod-lt n pos)
        ∙ e
        ∙ sym (zero-mod p)
        ∙ ap (λ (t : ℕ). t % p) (omega arith))
    ∙ zero-mod p

-- A number whose quotient by 2 ^ j is 0 is 0.
scaled_zero : (p : ℕ) → p % 2 ≡ 1 → (j n : ℕ) → unscale p j (n % p) ≡ 0 → n % p ≡ 0
scaled_zero p odd j n e =
    sym (scale-unscale p odd j (n % p) (mod-lt n (omega (arith, odd))))
    ∙ ap (λ (t : ℕ). 2 ^ j * t % p) e
    ∙ ap (λ (t : ℕ). t % p) (omega arith)
    ∙ zero-mod p

-- Two numbers whose product is 2 ^ (2 * j) have quotients by 2 ^ j whose product is 1.
unscaled_product :
    (p : ℕ)
    → p % 2 ≡ 1
    → (j x z : ℕ) → x * z % p ≡ 2 ^ j * (2 ^ j * 1) % p
    → unscale p j (x % p) * unscale p j (z % p) % p ≡ 1 % p
unscaled_product p odd j x z e =
    let pos : 0 < p = omega (arith, odd) in
    let a = unscale p j (x % p) in
    let b = unscale p j (z % p) in
    cancel p odd j (a * b) 1 (
      cancel p odd j (2 ^ j * (a * b)) (2 ^ j * 1) (
        ap (λ (t : ℕ). t % p) (grind arith)
        ∙ mul-mod (2 ^ j * a) (2 ^ j * b) p
        ∙ ap₂ (λ (s t : ℕ). s * t % p) (scale-unscale p odd j (x % p) (mod-lt x pos))
            (scale-unscale p odd j (z % p) (mod-lt z pos))
        ∙ sym (mul-mod x z p)
        ∙ e))

module _ (f : Field) (x z : List ℕ) where
  -- A Montgomery inverse is an inverse in Montgomery form: what `bignum_montinv` may write for any x, taken out of the form, is what the inverse of x, taken out of the form, may be.
  pub BignumMontinv-BignumInv :
      BignumMontinv f x z → BignumInv f (bignum_demont_p f x) (bignum_demont_p f z)
  unfolding bignum_demont_p
  BignumMontinv-BignumInv promised =
      let p = val (modulus f) in
      let odd = modulus-odd f in
      let j = 64 * size f in
      let (hz, below_z, cases) = promised in
      let below = λ (n : ℕ). mod-lt n {m = p} (positive f) in
      let out = λ (n : ℕ). unscale-lt p odd j (n % p) (below n) in
      let ex = val-reduced f _ (out (val x)) in
      let ez = val-reduced f _ (out (val z)) in
      let same = λ (n : ℕ). mod-eq_of_lt (out n) in
      (
        digits-IsBignum (size f) _,
        omega (arith, ez, out (val z)),
        elim (Nat-cases (val x % p)) [
          | inl e ↦ inl (
            ap (λ (t : ℕ). t % p) (ex ∙ unscaled_zero p odd j (val x) e) ∙ zero-mod p,
            ez ∙ unscaled_zero p odd j (val z) (mod-eq_of_lt below_z ∙ if_zero (val x % p) cases e),
          )
          | inr pos ↦
              let some_x : val x % p ≢ 0 = λ e. absurd (omega (arith, e, pos)) in
              inr (
                λ e. some_x (
                    scaled_zero p odd j (val x)
                      (sym (same (val x)) ∙ ap (λ (t : ℕ). t % p) (sym ex) ∙ e)),
                ap₂ (λ (s t : ℕ). s * t % p) ex ez
                    ∙ unscaled_product p odd j (val x) (val z) (
                        if_nonzero (val x % p) cases some_x
                        ∙ ap (λ (t : ℕ). t % p) (double_power (size f) ∙ omega arith))
                    ∙ mod-eq_of_lt (modulus-large f),
              )
        ],
      )
