-- ===== src/Lattice/Rounding/Decompose.antt =====
-- The multiplications, shifts and masks of reference_mldsa_decompose round to the nearest multiple.
use s2n_bignum.Prelude.{
  ℕ, suc, ◌+◌, ◌-◌, ◌*◌, ◌/◌, ◌%◌, ◌^◌, ◌≤◌, ◌<◌, ◌≡◌, refl, sym, ap, ◌∙◌, ◌⊎◌, inl, inr, ◌==◌,
  Bool, true, false, arith,
}
use s2n_bignum.Prelude.Int.{ℤ, pos, negsuc, pos_part, neg_part, ◌+ℤ◌, ◌-ℤ◌, ◌*ℤ◌, -ℤ_parts}
use s2n_bignum.Lattice.{shift_right, mldsa_q}
use s2n_bignum.Lattice.Reversal.{all_below, all_below_lem}
use s2n_bignum.Lattice.Rounding.{
  to_bits, of_bits, and_32, xor_32, wrap_88, high_part, low_border, decompose_round,
}
use s2n_bignum.Contract.Lattice.{Decomposed}
use native.Mathlib.Nat.{mul_assoc, mod-eq_of_lt}
use mathlib.Core.Path.{subst}

unfoldable pub same_nat : ℤ → ℕ → Bool
same_nat (pos m) n = m == n
same_nat (negsuc m) n = false

pub same_nat_lem : (x : ℤ) (n : ℕ) → same_nat x n ≡ true → x ≡ pos n
unfolding same_nat
same_nat_lem (pos m) n h = ap pos (ground (arith, h))
same_nat_lem (negsuc m) n h = ground (arith, h)

table_32 : all_below 17 (λ m. same_nat (and_32 (pos m) (pos 15)) (m % 16)) ≡ true
unfolding all_below same_nat and_32 to_bits of_bits
table_32 = refl

table_88 : all_below 45 (λ m. same_nat (wrap_88 (pos m)) (m % 44)) ≡ true
unfolding all_below same_nat wrap_88 xor_32 and_32 to_bits of_bits shift_right ◌-ℤ◌
table_88 = refl

-- Rounding the coefficient to a multiple of 128 first does not change the multiple of the spacing.
nearest_32 :
    (a : ℕ)
    → a < mldsa_q
    → let m = ((a + 127) / 2 ^ 7 * 1025 + 2 ^ 21) / 2 ^ 22 in
      (m < 17) × (m * 523776 < a + 261888) × (a ≤ m * 523776 + 261888)
nearest_32 a h = (omega (arith, h), omega (arith, h), omega (arith, h))

nearest_88 :
    (a : ℕ)
    → a < mldsa_q
    → let m = ((a + 127) / 2 ^ 7 * 11275 + 2 ^ 23) / 2 ^ 24 in
      (m < 45) × (m * 190464 < a + 95232) × (a ≤ m * 190464 + 95232)
nearest_88 a h = (omega (arith, h), omega (arith, h), omega (arith, h))

-- Of the two parts of an integer one is 0.
pub one_zero : (x : ℤ) → (pos_part x ≡ 0) ⊎ (neg_part x ≡ 0)
one_zero (pos n) = inr refl
one_zero (negsuc n) = inl refl

shift_below : (s : ℤ) → neg_part s ≡ 0 → pos_part s < 2 ^ 31 → shift_right s 31 ≡ pos 0
unfolding shift_right
shift_below (pos n) h j = ap pos (omega (arith, j))
shift_below (negsuc n) h j = absurd (omega (arith, h))

shift_above : (s : ℤ) → 0 < neg_part s → neg_part s ≤ 2 ^ 31 → shift_right s 31 ≡ negsuc 0
unfolding shift_right
shift_above (pos n) h j = absurd (omega (arith, h))
shift_above (negsuc n) h j = ap negsuc (omega (arith, j))

minus_zero : (x : ℤ) → x -ℤ and_32 (pos 0) (pos mldsa_q) ≡ x
unfolding ◌-ℤ◌ and_32 to_bits of_bits
minus_zero x = ground arith

mask_all : (n : ℕ) → pos n -ℤ and_32 (negsuc 0) (pos mldsa_q) ≡ pos n -ℤ pos mldsa_q
unfolding and_32 to_bits of_bits
mask_all n = refl

minus_none : (a gamma2 : ℕ) → pos a -ℤ pos 0 *ℤ pos 2 *ℤ pos gamma2 ≡ pos a
unfolding ◌-ℤ◌ ◌*ℤ◌
minus_none a gamma2 = ground arith

pub pos_times : (a b : ℕ) → pos a *ℤ pos b ≡ pos (a * b)
unfolding ◌*ℤ◌
pos_times a b = ground arith

pub pos_plus : (a b : ℕ) → pos a +ℤ pos b ≡ pos (a + b)
unfolding ◌+ℤ◌
pos_plus a b = ground arith

times : (m gamma2 : ℕ) → pos m *ℤ pos 2 *ℤ pos gamma2 ≡ pos (m * (2 * gamma2))
times m gamma2 =
    ap (λ (t : ℤ). t *ℤ pos gamma2) (pos_times m 2)
    ∙ pos_times (m * 2) gamma2
    ∙ ap pos (mul_assoc m 2 gamma2)

-- The mask is added where the low part is above (q - 1) / 2.
border_below : (a0 : ℤ) → pos_part a0 ≤ 4190208 → neg_part a0 ≤ 2 ^ 30 → low_border a0 ≡ a0
unfolding low_border
border_below a0 h j =
    let s = pos 4190208 -ℤ a0 in
    let sign : shift_right s 31 ≡ pos 0 =
      shift_below s (omega (arith, -ℤ_parts (pos 4190208) a0, h, j, one_zero s))
        (omega (arith, -ℤ_parts (pos 4190208) a0, h, j, one_zero s)) in
    ap (λ (t : ℤ). a0 -ℤ and_32 t (pos mldsa_q)) sign ∙ minus_zero a0

border_above : (n : ℕ) → 4190208 < n → n < mldsa_q → low_border (pos n) ≡ pos n -ℤ pos mldsa_q
unfolding low_border
border_above n h j =
    let s = pos 4190208 -ℤ pos n in
    let sign : shift_right s 31 ≡ negsuc 0 =
      shift_above s (omega (arith, -ℤ_parts (pos 4190208) (pos n), h, j, one_zero s))
        (omega (arith, -ℤ_parts (pos 4190208) (pos n), h, j, one_zero s)) in
    ap (λ (t : ℤ). pos n -ℤ and_32 t (pos mldsa_q)) sign ∙ mask_all n

-- A multiple of the spacing that is not the last.
below_top :
    (gamma2 m a : ℕ)
    → gamma2 ≤ 261888
    → a < mldsa_q
    → m * (2 * gamma2) < a + gamma2
    → a ≤ m * (2 * gamma2) + gamma2
    → m * (2 * gamma2) < mldsa_q - 1
    → Decomposed gamma2 a (pos m) (low_border (pos a -ℤ pos m *ℤ pos 2 *ℤ pos gamma2))
below_top gamma2 m a small range low high inner =
    let x = pos a -ℤ pos m *ℤ pos 2 *ℤ pos gamma2 in
    let parts : a + neg_part x ≡ m * (2 * gamma2) + pos_part x = omega (
      arith,
      -ℤ_parts (pos a) (pos m *ℤ pos 2 *ℤ pos gamma2),
      ap pos_part (times m gamma2),
      ap neg_part (times m gamma2),
    ) in
    let p : pos_part x ≤ gamma2 = omega (arith, parts, one_zero x, high) in
    let n : neg_part x < gamma2 = omega (arith, parts, one_zero x, low) in
    let kept = border_below x (omega (arith, p, small)) (omega (arith, n, small)) in
    inl (
      m,
      inner,
      refl,
      ap (λ (y : ℤ). a + neg_part y) kept
          ∙ parts
          ∙ ap (λ (y : ℤ). m * (2 * gamma2) + pos_part y) (sym kept),
      omega (arith, ap pos_part kept, p),
      omega (arith, ap neg_part kept, n),
    )

at_top :
    (gamma2 a : ℕ)
    → gamma2 ≤ 261888
    → a < mldsa_q
    → mldsa_q - 1 < a + gamma2
    → Decomposed gamma2 a (pos 0) (low_border (pos a -ℤ pos 0 *ℤ pos 2 *ℤ pos gamma2))
at_top gamma2 a small range low =
    let x = pos a -ℤ pos 0 *ℤ pos 2 *ℤ pos gamma2 in
    let y = low_border x in
    let same : x ≡ pos a = minus_none a gamma2 in
    let moved : y ≡ pos a -ℤ pos mldsa_q =
      ap low_border same ∙ border_above a (omega (arith, low, small)) range in
    let parts = -ℤ_parts (pos a) (pos mldsa_q) in
    let zero_part = one_zero (pos a -ℤ pos mldsa_q) in
    let e = ap pos_part moved in
    let f = ap neg_part moved in
    inr (
      refl,
      omega (arith, e, parts, zero_part, range),
      omega (arith, e, f, parts, zero_part, range),
      omega (arith, e, f, parts, zero_part, range, low),
    )

scaled : (c k r s : ℕ) → shift_right (pos c *ℤ pos k +ℤ pos r) s ≡ pos ((c * k + r) / 2 ^ s)
unfolding shift_right
scaled c k r s =
    ap (λ (t : ℤ). shift_right t s)
      (ap (λ (t : ℤ). t +ℤ pos r) (pos_times c k) ∙ pos_plus (c * k) r)

high_32 :
    (a : ℕ)
    → a < mldsa_q
    → high_part 261888 (pos a) ≡ pos (((a + 127) / 2 ^ 7 * 1025 + 2 ^ 21) / 2 ^ 22 % 16)
unfolding high_part shift_right
high_32 a h =
    let c = (a + 127) / 2 ^ 7 in
    let m = (c * 1025 + 2 ^ 21) / 2 ^ 22 in
    ap (λ (t : ℤ). and_32 (shift_right (shift_right t 7 *ℤ pos 1025 +ℤ pos (2 ^ 21)) 22) (pos 15))
      (pos_plus a 127)
    ∙ ap (λ (t : ℤ). and_32 t (pos 15)) (scaled c 1025 (2 ^ 21) 22)
    ∙ same_nat_lem _ (m % 16) (
        all_below_lem 17 (λ n. same_nat (and_32 (pos n) (pos 15)) (n % 16)) table_32 m
          (nearest_32 a h).0)

high_88 :
    (a : ℕ)
    → a < mldsa_q
    → high_part 95232 (pos a) ≡ pos (((a + 127) / 2 ^ 7 * 11275 + 2 ^ 23) / 2 ^ 24 % 44)
unfolding high_part shift_right
high_88 a h =
    let c = (a + 127) / 2 ^ 7 in
    let m = (c * 11275 + 2 ^ 23) / 2 ^ 24 in
    ap (λ (t : ℤ). wrap_88 (shift_right (shift_right t 7 *ℤ pos 11275 +ℤ pos (2 ^ 23)) 24))
      (pos_plus a 127)
    ∙ ap wrap_88 (scaled c 11275 (2 ^ 23) 24)
    ∙ same_nat_lem _ (m % 44)
        (all_below_lem 45 (λ n. same_nat (wrap_88 (pos n)) (n % 44)) table_88 m (nearest_88 a h).0)

split_lt : (m top : ℕ) → m < suc top → (m < top) ⊎ (m ≡ top)
split_lt m top h = ground (arith, h)

-- A multiple is the last one or an earlier one.
last_or_earlier : (m top : ℕ) → m < suc top → ((m < top) × (m % top ≡ m)) ⊎ (m ≡ top)
last_or_earlier m top h = elim (split_lt m top h) [
  | inl earlier ↦ inl (earlier, mod-eq_of_lt earlier)
  | inr last ↦ inr last
]

module _ (a : ℕ) (range : a < mldsa_q) where
  round_32 :
      (m : ℕ)
      → m < 17
      → m * 523776 < a + 261888
      → a ≤ m * 523776 + 261888
      → Decomposed 261888 a
          (pos (m % 16))
          (low_border (pos a -ℤ pos (m % 16) *ℤ pos 2 *ℤ pos 261888))
  round_32 m bound low high = elim (last_or_earlier m 16 bound) [
    | inl (earlier, same) ↦
        subst
          (λ (n : ℕ).
            Decomposed 261888 a (pos n) (low_border (pos a -ℤ pos n *ℤ pos 2 *ℤ pos 261888)))
          (sym same) (below_top 261888 m a (omega arith) range low high (omega (arith, earlier)))
    | inr last ↦
        subst
          (λ (n : ℕ).
            Decomposed 261888 a (pos n) (low_border (pos a -ℤ pos n *ℤ pos 2 *ℤ pos 261888)))
          (sym (ap (λ (n : ℕ). n % 16) last))
          (at_top 261888 a (omega arith) range (omega (arith, last, low)))
  ]

  round_88 :
      (m : ℕ)
      → m < 45
      → m * 190464 < a + 95232
      → a ≤ m * 190464 + 95232
      → Decomposed 95232 a (pos (m % 44)) (low_border (pos a -ℤ pos (m % 44) *ℤ pos 2 *ℤ pos 95232))
  round_88 m bound low high = elim (last_or_earlier m 44 bound) [
    | inl (earlier, same) ↦
        subst
          (λ (n : ℕ).
            Decomposed 95232 a (pos n) (low_border (pos a -ℤ pos n *ℤ pos 2 *ℤ pos 95232)))
          (sym same) (below_top 95232 m a (omega arith) range low high (omega (arith, earlier)))
    | inr last ↦
        subst
          (λ (n : ℕ).
            Decomposed 95232 a (pos n) (low_border (pos a -ℤ pos n *ℤ pos 2 *ℤ pos 95232)))
          (sym (ap (λ (n : ℕ). n % 44) last))
          (at_top 95232 a (omega arith) range (omega (arith, last, low)))
  ]

  -- For a coefficient below q the round computes the nearest multiple, for both values of gamma2.
  pub decompose_round_lem :
      Decomposed 261888 a (decompose_round 261888 (pos a)).0 (decompose_round 261888 (pos a)).1
      × Decomposed 95232 a (decompose_round 95232 (pos a)).0 (decompose_round 95232 (pos a)).1
  unfolding decompose_round
  decompose_round_lem =
      let (bound, low, high) = nearest_32 a range in
      let (bound', low', high') = nearest_88 a range in
      (
        subst (λ (x : ℤ). Decomposed 261888 a x (low_border (pos a -ℤ x *ℤ pos 2 *ℤ pos 261888)))
            (sym (high_32 a range))
            (round_32 (((a + 127) / 2 ^ 7 * 1025 + 2 ^ 21) / 2 ^ 22) bound low high),
        subst (λ (x : ℤ). Decomposed 95232 a x (low_border (pos a -ℤ x *ℤ pos 2 *ℤ pos 95232)))
            (sym (high_88 a range))
            (round_88 (((a + 127) / 2 ^ 7 * 11275 + 2 ^ 23) / 2 ^ 24) bound' low' high'),
      )
