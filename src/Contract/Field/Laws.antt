-- ===== src/Contract/Field/Laws.antt =====
-- How the functions on field elements undo and determine one another.
use s2n_bignum.Prelude.{
  ℕ, ◌+◌, ◌-◌, ◌*◌, ◌%◌, ◌<◌, ◌≡◌, ◌≢◌, refl, sym, ap, ◌∙◌, List, arith, Bool-cases, inl, inr, ◌⊎◌,
  leb, leb→le, leb_false→lt,
}
use s2n_bignum.Prelude.Powers.{mod_unique, mul-mod-mod}
use s2n_bignum.Bignum.{val, IsBignum}
use s2n_bignum.Bignum.Digits.{val-lt, val_injective}
use s2n_bignum.Primes.{Field, curve25519, p256, p256k1, p384, p521, sm2, size, modulus}
use s2n_bignum.Primes.Range.{modulus-IsBignum}
use s2n_bignum.Contract.{digits}
use s2n_bignum.Contract.Digits.{val-digits_small, digits-IsBignum}
use s2n_bignum.Contract.Arith.Conform.{is_digits}
use s2n_bignum.Contract.Field.{
  half_mod, bignum_add_p, bignum_sub_p, bignum_neg_p, bignum_double_p, bignum_half_p,
  bignum_triple_p, BignumInv,
}
use s2n_bignum.Contract.Field.Halving.{half_mod-lt, double-half, half-double}
use native.Mathlib.Nat.{mod-lt, mod-eq_of_lt, mod-add-mod, add-mod-mod, mod_self}

-- An element of the field: reduced, in its number of digits.
abbrev pub IsReduced : Field → List ℕ → Type 0
IsReduced f x = IsBignum (size f) x × (val x < val (modulus f))

pub modulus-odd : (f : Field) → val (modulus f) % 2 ≡ 1
unfolding val
modulus-odd curve25519 = refl
modulus-odd p256 = refl
modulus-odd p256k1 = refl
modulus-odd p384 = refl
modulus-odd p521 = refl
modulus-odd sm2 = refl

pub modulus-large : (f : Field) → 1 < val (modulus f)
unfolding val
modulus-large curve25519 = omega arith
modulus-large p256 = omega arith
modulus-large p256k1 = omega arith
modulus-large p384 = omega arith
modulus-large p521 = omega arith
modulus-large sm2 = omega arith

module _ (f : Field) where
  pub positive : 0 < val (modulus f)
  positive = (modulus-IsBignum f).1

  pub val-reduced : (n : ℕ) → n < val (modulus f) → val (digits (size f) n) ≡ n
  val-reduced n h =
      val-digits_small (size f) n (omega (arith, h, val-lt (modulus f) (modulus-IsBignum f).0))

  pub val-residue : (n : ℕ) → val (digits (size f) (n % val (modulus f))) ≡ n % val (modulus f)
  val-residue n = val-reduced (n % val (modulus f)) (mod-lt n positive)

  pub digits-IsReduced : (n : ℕ) → n < val (modulus f) → IsReduced f (digits (size f) n)
  digits-IsReduced n h = (digits-IsBignum (size f) n, omega (arith, h, val-reduced n h))

  -- A reduced element is the array of any number that has its residue.
  pub is_residue : (x : List ℕ) (n : ℕ) → IsReduced f x → n ≡ val x → digits (size f) n ≡ x
  is_residue x n (h, below) e =
      ap (λ (t : ℕ). digits (size f) t) e
      ∙ sym (is_digits (size f) x (val x) h (sym (mod-eq_of_lt (val-lt x h))))

pub residue_cases : (p a : ℕ) → 0 < p → a < 2 * p → (a % p ≡ a) ⊎ (a % p + p ≡ a)
residue_cases p a pos h = elim (Bool-cases (leb p a)) [
  | inl le ↦ inr (
      omega (
        arith,
        leb→le p a le,
        mod_unique a p 1 (a - p) (omega (arith, leb→le p a le)) (omega (arith, leb→le p a le)),
      ))
  | inr gt ↦ inl (mod-eq_of_lt (leb_false→lt p a gt))
]

subtract_added : (p a b : ℕ) → a < p → b < p → ((a + b) % p + p - b) % p ≡ a
subtract_added p a b ha hb = elim (residue_cases p (a + b) (omega arith) (omega arith)) [
  | inl e ↦ mod_unique _ p 1 a (omega (arith, e)) ha
  | inr e ↦ mod_unique _ p 0 a (omega (arith, e)) ha
]

add_subtracted : (p a b : ℕ) → a < p → b < p → ((a + p - b) % p + b) % p ≡ a
add_subtracted p a b ha hb = mod-add-mod (a + p - b) p b ∙ mod_unique _ p 1 a (omega arith) ha

add_negated : (p a : ℕ) → a < p → (a + (p - a) % p) % p ≡ 0
add_negated p a h = add-mod-mod a (p - a) p ∙ ap (λ (t : ℕ). t % p) (omega arith) ∙ mod_self p

module _ (f : Field) (x y : List ℕ) (hx : IsReduced f x) (hy : IsReduced f y) where
  -- For reduced x and y, subtracting y from their sum modulo the prime gives back x, and so does adding
  -- y to their difference; the sum of x and its negation is 0, which is the array of zero digits.
  pub sub_p-add_p :
      (bignum_sub_p f (bignum_add_p f x y) y ≡ x)
      × (bignum_add_p f (bignum_sub_p f x y) y ≡ x)
      × (bignum_add_p f x (bignum_neg_p f x) ≡ digits (size f) 0)
  unfolding bignum_add_p bignum_sub_p bignum_neg_p
  sub_p-add_p =
      let p = val (modulus f) in
      let pos = positive f in
      (
        is_residue f x _ hx (
            ap (λ (t : ℕ). (t + p - val y) % p) (val-residue f (val x + val y))
            ∙ subtract_added p (val x) (val y) hx.1 hy.1),
        is_residue f x _ hx (
            ap (λ (t : ℕ). (t + val y) % p) (val-residue f (val x + p - val y))
            ∙ add_subtracted p (val x) (val y) hx.1 hy.1),
        ap (λ (t : ℕ). digits (size f) ((val x + t) % p)) (val-residue f (p - val x))
            ∙ ap (λ (t : ℕ). digits (size f) t) (add_negated p (val x) hx.1),
      )

  -- Halving and doubling a reduced x undo one another, and three times x is the sum of twice x and x.
  pub half_p-double_p :
      (bignum_half_p f (bignum_double_p f x) ≡ x)
      × (bignum_double_p f (bignum_half_p f x) ≡ x)
      × (bignum_add_p f (bignum_double_p f x) x ≡ bignum_triple_p f x)
  unfolding bignum_half_p bignum_double_p bignum_triple_p bignum_add_p
  half_p-double_p =
      let p = val (modulus f) in
      let odd = modulus-odd f in
      (
        is_residue f x _ hx (
            ap (λ (t : ℕ). half_mod p t) (val-residue f (2 * val x))
            ∙ half-double p odd (val x)
            ∙ mod-eq_of_lt hx.1),
        is_residue f x _ hx (
            ap (λ (t : ℕ). 2 * t % p)
              (val-reduced f (half_mod p (val x)) (half_mod-lt p odd (val x) hx.1))
            ∙ double-half p odd (val x) hx.1),
        ap (λ (t : ℕ). digits (size f) ((t + val x) % p)) (val-residue f (2 * val x))
            ∙ ap (λ (t : ℕ). digits (size f) t)
                (mod-add-mod (2 * val x) p (val x) ∙ ap (λ (t : ℕ). t % p) (omega arith)),
      )

inverse_unique : (p a z w : ℕ) → a * z % p ≡ 1 → a * w % p ≡ 1 → z % p ≡ w % p
inverse_unique p a z w ez ew =
    ap (λ (t : ℕ). t % p) (omega arith)
    ∙ ap (λ (t : ℕ). z * t % p) (sym ew)
    ∙ mul-mod-mod z (a * w) p
    ∙ ap (λ (t : ℕ). t % p) (grind arith)
    ∙ sym (mul-mod-mod w (a * z) p)
    ∙ ap (λ (t : ℕ). w * t % p) ez
    ∙ ap (λ (t : ℕ). t % p) (omega arith)

-- A number that is 0 modulo p has no inverse.
no_inverse : (p a z : ℕ) → a % p ≡ 0 → z * a % p ≡ 1 → 1 ≡ 0 % p
no_inverse p a z e one =
    sym one
    ∙ sym (mul-mod-mod z a p)
    ∙ ap (λ (t : ℕ). z * t % p) e
    ∙ ap (λ (t : ℕ). t % p) (omega arith)

-- Which case of the promise holds.
module _ {Zero One : Type 0} (n : ℕ) (cases : ((n ≡ 0) × Zero) ⊎ ((n ≢ 0) × One)) where
  pub if_zero : n ≡ 0 → Zero
  if_zero e = elim cases [ inl h ↦ h.1 | inr h ↦ absurd (h.0 e) ]

  pub if_nonzero : n ≢ 0 → One
  if_nonzero ne = elim cases [ inl h ↦ absurd (ne h.0) | inr h ↦ h.1 ]

module _ (f : Field) (x z : List ℕ) (inv_x : BignumInv f x z) where
  -- What is promised of an inverse determines it; and for a number that is not divisible by the prime,
  -- the inverse of the inverse is the number reduced.
  pub BignumInv-determined :
      (w v : List ℕ)
      → BignumInv f x w
      → val x % val (modulus f) ≢ 0
      → BignumInv f z v
      → (z ≡ w) × (val v ≡ val x % val (modulus f))
  BignumInv-determined w v inv_w some_x inv_z =
      let p = val (modulus f) in
      let (hz, below_z, cases_z) = inv_x in
      let (hw, below_w, cases_w) = inv_w in
      let (hv, below_v, cases_v) = inv_z in
      let one_z = if_nonzero (val x % p) cases_z some_x in
      let one_w = if_nonzero (val x % p) cases_w some_x in
      let some_z : val z % p ≢ 0 = λ e.
        absurd (omega (arith, no_inverse p (val z) (val x) e one_z, mod-eq_of_lt (positive f))) in
      (
        val_injective z w hz hw (
            sym (mod-eq_of_lt below_z)
            ∙ inverse_unique p (val x) (val z) (val w) one_z one_w
            ∙ mod-eq_of_lt below_w),
        sym (mod-eq_of_lt below_v)
            ∙ inverse_unique p (val z) (val v) (val x) (if_nonzero (val z % p) cases_v some_z)
                (ap (λ (t : ℕ). t % p) (grind arith) ∙ one_z),
      )
