-- ===== src/Lattice/Rounding/Hint.antt =====
-- tests/test.c, reference_mldsa_poly_use_hint_32 and reference_mldsa_poly_use_hint_88: the high part of a
-- coefficient, corrected by a hint.
use s2n_bignum.Prelude.{
  ℕ, zero, suc, ◌+◌, ◌-◌, ◌*◌, ◌/◌, ◌%◌, ◌^◌, ◌≤◌, ◌<◌, ◌≡◌, refl, sym, ap, ap₂, ◌∙◌, if◌then◌else◌,
  ltb, Bool, true, false, arith, List, [], ◌∷◌, ◌&&◌, ◌⊎◌, inl, inr,
}
use s2n_bignum.Prelude.Int.{
  ℤ, pos, negsuc, pos_part, neg_part, ◌+ℤ◌, ◌-ℤ◌, ◌*ℤ◌, ltb_ℤ, leb_ℤ, -ℤ_parts, eq_of_parts,
}
use s2n_bignum.Lattice.{shift_right, mldsa_q}
use s2n_bignum.Lattice.Reversal.{all_below, all_below_lem}
use s2n_bignum.Lattice.Rounding.{to_bits, of_bits, and_32, int32}
use s2n_bignum.Lattice.Rounding.Decompose.{same_nat, same_nat_lem, pos_times, pos_plus, one_zero}
use s2n_bignum.Contract.Lattice.{Decomposed, use_hint}

-- int32_t delta = (a0 <= 0) ? -1 : 1;
unfoldable pub delta : ℤ → ℤ
delta a0 = if leb_ℤ a0 (pos 0) then negsuc 0 else pos 1

-- From the low part on to a1 + delta * h[i].
unfoldable pub hinted : ℕ → ℕ → ℤ → ℤ → ℤ → ℤ
hinted two_gamma2 threshold a1 ai hint =
    let a0 = ai -ℤ a1 *ℤ pos two_gamma2 in
    let above = ltb_ℤ (pos threshold) ai in
    let a1' = if above then pos 0 else a1 in
    let a0' = if above then a0 +ℤ negsuc 0 else a0 in a1' +ℤ delta a0' *ℤ hint

-- The Barrett quotient by sqdmulh and srshr.
unfoldable pub barrett_part : ℕ → ℕ → ℤ → ℤ
barrett_part barrett shift ai =
    let sqdmulh_result = int32 (shift_right (pos 2 *ℤ ai *ℤ pos barrett) 32) in
    shift_right (sqdmulh_result +ℤ pos (2 ^ (shift - 1))) shift

unfoldable pub use_hint_32_round : ℤ → ℤ → ℤ
use_hint_32_round ai hint =
    and_32 (hinted 523776 8118528 (barrett_part 1074791425 18 ai) ai hint) (pos 15)

-- if (result > 43) uresult = 0; if (uresult > 43) uresult = 43;
unfoldable pub clamp_88 : ℤ → ℤ
clamp_88 result =
    let uresult = if ltb_ℤ (pos 43) result then 0 else to_bits result in
    of_bits (if ltb 43 uresult then 43 else uresult)

unfoldable pub use_hint_88_round : ℤ → ℤ → ℤ
use_hint_88_round ai hint = clamp_88 (hinted 190464 8285184 (barrett_part 1477838209 17 ai) ai hint)

unfoldable pub reference_mldsa_poly_use_hint_32 : List ℤ → List ℤ → List ℤ
reference_mldsa_poly_use_hint_32 (a ∷ a_rest) (h ∷ h_rest) =
    use_hint_32_round a h ∷ reference_mldsa_poly_use_hint_32 a_rest h_rest
reference_mldsa_poly_use_hint_32 _ _ = []

unfoldable pub reference_mldsa_poly_use_hint_88 : List ℤ → List ℤ → List ℤ
reference_mldsa_poly_use_hint_88 (a ∷ a_rest) (h ∷ h_rest) =
    use_hint_88_round a h ∷ reference_mldsa_poly_use_hint_88 a_rest h_rest
reference_mldsa_poly_use_hint_88 _ _ = []

-- The Barrett quotient is the nearest multiple.
quotient_32 :
    (a : ℕ)
    → a < mldsa_q
    → let n = (2 * a * 1074791425 / 2 ^ 32 + 2 ^ 17) / 2 ^ 18 in
      (n * 523776 < a + 261888) × (a ≤ n * 523776 + 261888)
quotient_32 a h = (omega (arith, h), omega (arith, h))

quotient_88 :
    (a : ℕ)
    → a < mldsa_q
    → let n = (2 * a * 1477838209 / 2 ^ 32 + 2 ^ 16) / 2 ^ 17 in
      (n * 190464 < a + 95232) × (a ≤ n * 190464 + 95232)
quotient_88 a h = (omega (arith, h), omega (arith, h))

int32_small : (n : ℕ) → n < 2 ^ 31 → int32 (pos n) ≡ pos n
unfolding int32 to_bits of_bits
int32_small n h = ground arith

barrett_nat :
    (barrett shift a : ℕ)
    → 2 * a * barrett / 2 ^ 32 < 2 ^ 31
    → barrett_part barrett shift (pos a)
      ≡ pos ((2 * a * barrett / 2 ^ 32 + 2 ^ (shift - 1)) / 2 ^ shift)
unfolding barrett_part shift_right
barrett_nat barrett shift a h =
    let r = 2 ^ (shift - 1) in
    let product : pos 2 *ℤ pos a *ℤ pos barrett ≡ pos (2 * a * barrett) =
      ap (λ (t : ℤ). t *ℤ pos barrett) (pos_times 2 a) ∙ pos_times (2 * a) barrett in
    ap (λ (t : ℤ). shift_right (int32 (shift_right t 32) +ℤ pos r) shift) product
    ∙ ap (λ (t : ℤ). shift_right (t +ℤ pos r) shift) (int32_small (2 * a * barrett / 2 ^ 32) h)
    ∙ ap (λ (t : ℤ). shift_right t shift) (pos_plus (2 * a * barrett / 2 ^ 32) r)

-- Up to the threshold the hint moves the high part towards the low part.
hinted_inner :
    (g t m a : ℕ) (a0 h : ℤ)
    → a ≤ t
    → a + neg_part a0 ≡ m * g + pos_part a0
    → hinted g t (pos m) (pos a) h ≡ pos m +ℤ delta a0 *ℤ h
unfolding hinted
hinted_inner g t m a a0 h small e =
    let x = pos a -ℤ pos m *ℤ pos g in
    let same : x ≡ a0 = eq_of_parts x a0 (
      omega (
        arith,
        e,
        -ℤ_parts (pos a) (pos m *ℤ pos g),
        ap pos_part (pos_times m g),
        ap neg_part (pos_times m g),
      )) in
    let test : ltb_ℤ (pos t) (pos a) ≡ false = ground (arith, small) in
    ap (λ (b : Bool). (if b then pos 0 else pos m) +ℤ delta (if b then x +ℤ negsuc 0 else x) *ℤ h)
      test
    ∙ ap (λ (y : ℤ). pos m +ℤ delta y *ℤ h) same

minus_one : (x : ℤ) → pos_part x ≡ 0 → leb_ℤ (x +ℤ negsuc 0) (pos 0) ≡ true
unfolding ◌+ℤ◌
minus_one x h = ground (arith, h)

-- Above the threshold the high part is 0 and the low part negative.
hinted_top :
    (g t n a : ℕ) (h : ℤ)
    → t < a
    → a ≤ n * g
    → hinted g t (pos n) (pos a) h ≡ pos 0 +ℤ negsuc 0 *ℤ h
unfolding hinted delta
hinted_top g t n a h large e =
    let x = pos a -ℤ pos n *ℤ pos g in
    let test : ltb_ℤ (pos t) (pos a) ≡ true = ground (arith, large) in
    let parts : pos_part x ≡ 0 = omega (
      arith,
      e,
      one_zero x,
      -ℤ_parts (pos a) (pos n *ℤ pos g),
      ap pos_part (pos_times n g),
      ap neg_part (pos_times n g),
    ) in
    let below : leb_ℤ (x +ℤ negsuc 0) (pos 0) ≡ true = minus_one x parts in
    ap (λ (b : Bool). (if b then pos 0 else pos n) +ℤ delta (if b then x +ℤ negsuc 0 else x) *ℤ h)
      test
    ∙ ap (λ (b : Bool). pos 0 +ℤ (if b then negsuc 0 else pos 1) *ℤ h) below

-- What a last step has to do with a high part and a hint.
unfoldable good : (ℤ → ℤ) → ℕ → ℕ → Bool
good finish count m =
    (same_nat (finish (pos m +ℤ pos 1 *ℤ pos 0)) m
      && same_nat (finish (pos m +ℤ negsuc 0 *ℤ pos 0)) m)
    && (same_nat (finish (pos m +ℤ pos 1 *ℤ pos 1)) ((m + 1) % count)
        && same_nat (finish (pos m +ℤ negsuc 0 *ℤ pos 1)) ((m + (count - 1)) % count))

table_32 : all_below 16 (good (λ x. and_32 x (pos 15)) 16) ≡ true
unfolding all_below good same_nat and_32 to_bits of_bits ◌+ℤ◌ ◌*ℤ◌
table_32 = refl

table_88 : all_below 44 (good clamp_88 44) ≡ true
unfolding all_below good same_nat clamp_88 to_bits of_bits ◌+ℤ◌ ◌*ℤ◌
table_88 = refl

four_true :
    (a b c d : Bool)
    → (a && b) && (c && d) ≡ true
    → (a ≡ true) × (b ≡ true) × (c ≡ true) × (d ≡ true)
four_true a b c d h = (ground (arith, h), ground (arith, h), ground (arith, h), ground (arith, h))

directions :
    (y : ℤ)
    → ((delta y ≡ pos 1) × (ltb 0 (pos_part y) ≡ true))
      ⊎ ((delta y ≡ negsuc 0) × (ltb 0 (pos_part y) ≡ false))
unfolding delta
directions (pos zero) = inr (refl, refl)
directions (pos (suc n)) = inl (ground arith, ground arith)
directions (negsuc n) = inr (ground arith, refl)

module _ (finish : ℤ → ℤ) (count : ℕ) (table : all_below count (good finish count) ≡ true) where
  finished :
      (m : ℕ)
      → m < count
      → (y hint : ℤ) → (hint ≡ pos 0) ⊎ (hint ≡ pos 1)
      → finish (pos m +ℤ delta y *ℤ hint) ≡ use_hint count hint (pos m) y
  unfolding good use_hint
  finished m h y hint zero_or_one =
      let ok = all_below_lem count (good finish count) table m h in
      let (none_up, none_down, some_up, some_down) =
        four_true (same_nat (finish (pos m +ℤ pos 1 *ℤ pos 0)) m)
          (same_nat (finish (pos m +ℤ negsuc 0 *ℤ pos 0)) m)
          (same_nat (finish (pos m +ℤ pos 1 *ℤ pos 1)) ((m + 1) % count))
          (same_nat (finish (pos m +ℤ negsuc 0 *ℤ pos 1)) ((m + (count - 1)) % count)) ok in
      let start = λ (d : ℤ) (e : delta y ≡ d) (k : ℤ) (f : hint ≡ k).
        ap₂ (λ (s t : ℤ). finish (pos m +ℤ s *ℤ t)) e f in
      let result = λ (k : ℤ) (f : hint ≡ k). ap (λ (t : ℤ). use_hint count t (pos m) y) f in
      let move = λ (v : Bool) (f : ltb 0 (pos_part y) ≡ v).
        ap (λ (b : Bool). if b then pos ((m + 1) % count) else pos ((m + (count - 1)) % count)) f in
      elim zero_or_one [
        | inl e ↦ elim (directions y) [
          | inl (d, _) ↦
              start (pos 1) d (pos 0) e ∙ same_nat_lem _ m none_up ∙ sym (result (pos 0) e)
          | inr (d, _) ↦
              start (negsuc 0) d (pos 0) e ∙ same_nat_lem _ m none_down ∙ sym (result (pos 0) e)
        ]
        | inr e ↦ elim (directions y) [
          | inl (d, p) ↦
              start (pos 1) d (pos 1) e
              ∙ same_nat_lem _ ((m + 1) % count) some_up
              ∙ sym (result (pos 1) e ∙ move true p)
          | inr (d, p) ↦
              start (negsuc 0) d (pos 1) e
              ∙ same_nat_lem _ ((m + (count - 1)) % count) some_down
              ∙ sym (result (pos 1) e ∙ move false p)
        ]
      ]

-- The hint for the high part 0 at the upper end, where the low part is negative.
below_zero : (y : ℤ) → pos_part y ≡ 0 → delta y ≡ negsuc 0
unfolding delta
below_zero (pos n) h = ground (arith, h)
below_zero (negsuc n) h = ground (arith, h)

module _ (a : ℕ) (range : a < mldsa_q) (hint : ℤ) (bit : (hint ≡ pos 0) ⊎ (hint ≡ pos 1)) where
  pub hint_32 :
      (x y : ℤ) → Decomposed 261888 a x y → use_hint_32_round (pos a) hint ≡ use_hint 16 hint x y
  unfolding use_hint_32_round
  hint_32 x y (inl (m, inner, e, parts, p, n)) =
      let (low, high) = quotient_32 a range in
      let same : (2 * a * 1074791425 / 2 ^ 32 + 2 ^ 17) / 2 ^ 18 ≡ m =
        omega (arith, low, high, parts, p, n, one_zero y) in
      ap (λ (t : ℤ). and_32 (hinted 523776 8118528 t (pos a) hint) (pos 15))
        (barrett_nat 1074791425 18 a (omega (arith, range)) ∙ ap pos same)
      ∙ ap (λ (t : ℤ). and_32 t (pos 15))
          (hinted_inner 523776 8118528 m a y hint (omega (arith, inner, parts, p)) parts)
      ∙ finished (λ t. and_32 t (pos 15)) 16 table_32 m (omega (arith, inner)) y hint bit
      ∙ ap (λ (t : ℤ). use_hint 16 hint t y) (sym e)
  hint_32 x y (inr (e, zero_part, top, small)) =
      let n = (2 * a * 1074791425 / 2 ^ 32 + 2 ^ 17) / 2 ^ 18 in
      let (low, high) = quotient_32 a range in
      ap (λ (t : ℤ). and_32 (hinted 523776 8118528 t (pos a) hint) (pos 15))
        (barrett_nat 1074791425 18 a (omega (arith, range)))
      ∙ ap (λ (t : ℤ). and_32 t (pos 15))
          (hinted_top 523776 8118528 n a hint (omega (arith, top, small))
              (omega (arith, low, high, top, small, range))
            ∙ ap (λ (t : ℤ). pos 0 +ℤ t *ℤ hint) (sym (below_zero y zero_part)))
      ∙ finished (λ t. and_32 t (pos 15)) 16 table_32 0 (omega arith) y hint bit
      ∙ ap (λ (t : ℤ). use_hint 16 hint t y) (sym e)

  pub hint_88 :
      (x y : ℤ) → Decomposed 95232 a x y → use_hint_88_round (pos a) hint ≡ use_hint 44 hint x y
  unfolding use_hint_88_round
  hint_88 x y (inl (m, inner, e, parts, p, n)) =
      let (low, high) = quotient_88 a range in
      let same : (2 * a * 1477838209 / 2 ^ 32 + 2 ^ 16) / 2 ^ 17 ≡ m =
        omega (arith, low, high, parts, p, n, one_zero y) in
      ap (λ (t : ℤ). clamp_88 (hinted 190464 8285184 t (pos a) hint))
        (barrett_nat 1477838209 17 a (omega (arith, range)) ∙ ap pos same)
      ∙ ap clamp_88 (hinted_inner 190464 8285184 m a y hint (omega (arith, inner, parts, p)) parts)
      ∙ finished clamp_88 44 table_88 m (omega (arith, inner)) y hint bit
      ∙ ap (λ (t : ℤ). use_hint 44 hint t y) (sym e)
  hint_88 x y (inr (e, zero_part, top, small)) =
      let n = (2 * a * 1477838209 / 2 ^ 32 + 2 ^ 16) / 2 ^ 17 in
      let (low, high) = quotient_88 a range in
      ap (λ (t : ℤ). clamp_88 (hinted 190464 8285184 t (pos a) hint))
        (barrett_nat 1477838209 17 a (omega (arith, range)))
      ∙ ap clamp_88 (
          hinted_top 190464 8285184 n a hint (omega (arith, top, small))
            (omega (arith, low, high, top, small, range))
          ∙ ap (λ (t : ℤ). pos 0 +ℤ t *ℤ hint) (sym (below_zero y zero_part)))
      ∙ finished clamp_88 44 table_88 0 (omega arith) y hint bit
      ∙ ap (λ (t : ℤ). use_hint 44 hint t y) (sym e)
