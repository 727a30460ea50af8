-- ===== src/Bignum/Compare.antt =====
-- tests/test.c, the tests and comparisons of bignums.
use s2n_bignum.Prelude.{
  ℕ, zero, suc, ◌+◌, ◌-◌, ◌*◌, ◌^◌, ◌≤◌, ◌<◌, ◌≡◌, refl, sym, ap, ap₂, ◌∙◌, inl, inr,
}
use s2n_bignum.Prelude.{
  List, [], ◌∷◌, not, ◌&&◌, ltb, leb, ◌==◌, if◌then◌else◌, Bool-cases, ltb→lt, ltb_false→le,
  of_bool, get_or, arith,
}
use s2n_bignum.Prelude.Int.{ℤ, pos, negsuc, leb_ℤ, ltb_ℤ}
use s2n_bignum.Word.{word_mod}
use s2n_bignum.Bignum.{val, digit, IsBignum}
use s2n_bignum.Bignum.Digits.{span-suc, digit-lt, span, span-mod, val-lt_wide}
use native.Mathlib.Nat.{pow-suc, pow-zero, mod-eq_of_lt}

-- for (i = 0; i < k; ++i) if (x[i] != 0) return 0; return 1;
pub iszero_loop : List ℕ → ℕ → ℕ → ℕ
iszero_loop x zero i = 1
iszero_loop x (suc left) i = if not (get_or x i 0 == 0) then 0 else iszero_loop x left (suc i)

unfoldable pub reference_iszero : ℕ → List ℕ → ℕ
unfolding iszero_loop
reference_iszero k x = iszero_loop x k 0

-- The loop on i from 1 to k, by the number `k - i + 1` of digits that are left.
pub compare_loop : ℕ → List ℕ → ℕ → List ℕ → ℕ → ℤ
compare_loop k1 a1 k2 a2 zero = pos 0
compare_loop k1 a1 k2 a2 (suc left) =
    let d1 = digit k1 a1 left in
    let d2 = digit k2 a2 left in
    if not (d1 == d2)
    then (if ltb d1 d2 then negsuc 0 else pos 1)
    else compare_loop k1 a1 k2 a2 left

unfoldable pub reference_compare : ℕ → List ℕ → ℕ → List ℕ → ℤ
unfolding compare_loop
reference_compare k1 a1 k2 a2 =
    let k = if ltb k1 k2 then k2 else k1 in if k == 0 then pos 0 else compare_loop k1 a1 k2 a2 k

unfoldable pub reference_le : ℕ → List ℕ → ℕ → List ℕ → ℕ
reference_le k a1 p a2 = of_bool (leb_ℤ (reference_compare k a1 p a2) (pos 0))

unfoldable pub reference_eq_samelen : ℕ → List ℕ → List ℕ → ℕ
reference_eq_samelen k a1 a2 =
    let r = reference_compare k a1 k a2 in of_bool (leb_ℤ r (pos 0) && leb_ℤ (pos 0) r)

unfoldable pub reference_lt_samelen : ℕ → List ℕ → List ℕ → ℕ
reference_lt_samelen k a1 a2 = of_bool (ltb_ℤ (reference_compare k a1 k a2) (pos 0))

unfoldable pub reference_le_samelen : ℕ → List ℕ → List ℕ → ℕ
reference_le_samelen k a1 a2 = of_bool (leb_ℤ (reference_compare k a1 k a2) (pos 0))

unfoldable pub reference_gt_samelen : ℕ → List ℕ → List ℕ → ℕ
reference_gt_samelen k a1 a2 = of_bool (ltb_ℤ (pos 0) (reference_compare k a1 k a2))

unfoldable pub reference_ge_samelen : ℕ → List ℕ → List ℕ → ℕ
reference_ge_samelen k a1 a2 = of_bool (leb_ℤ (pos 0) (reference_compare k a1 k a2))

-- The order of two numbers as the functions report it.
unfoldable pub order_of : ℕ → ℕ → ℤ
order_of m n = if ltb m n then negsuc 0 else if m == n then pos 0 else pos 1

span-lt : {k : ℕ} (x : List ℕ) → IsBignum k x → (n i : ℕ) → span k x n i < word_mod ^ n
unfolding span
span-lt x h zero i = omega (arith, pow-zero word_mod)
span-lt x h (suc n) i = omega (arith, span-lt x h n (suc i), digit-lt x i h, pow-suc word_mod n)

gap : (d e : ℕ) → d < e → e ≡ d + 1 + (e - d - 1)
gap d e h = omega arith

-- Where the highest digits differ, they decide.
top_decides : (p s t d e : ℕ) → s < p → t < p → d < e → s + p * d < t + p * e
top_decides p s t d e hs ht h = omega (arith, ap (λ (t : ℕ). p * t) (gap d e h))

order_of_top :
    (p s t d e : ℕ)
    → s < p
    → t < p
    → order_of (s + p * d) (t + p * e)
      ≡ (if not (d == e) then (if ltb d e then negsuc 0 else pos 1) else order_of s t)
unfolding order_of
order_of_top p s t d e hs ht = ground (
  arith,
  top_decides p s t d e hs ht,
  top_decides p t s e d ht hs,
  λ (q : d ≡ e). ap (λ (j : ℕ). p * j) q,
)

if_suc : (k : ℕ) (r s : ℤ) → (if suc k == 0 then r else s) ≡ s
if_suc k r s = ground arith

span-wide : {k : ℕ} (x : List ℕ) (n : ℕ) → IsBignum k x → k ≤ n → span k x n 0 ≡ val x
span-wide x n h le =
    span-mod x n h ∙ mod-eq_of_lt {n = val x} {m = word_mod ^ n} (val-lt_wide x h le)

module _ (k1 : ℕ) (a1 : List ℕ) (k2 : ℕ) (a2 : List ℕ) (h1 : IsBignum k1 a1)
    (h2 : IsBignum k2 a2) where
  compare_loop_lem :
      (left : ℕ) → compare_loop k1 a1 k2 a2 left ≡ order_of (span k1 a1 left 0) (span k2 a2 left 0)
  unfolding compare_loop order_of
  compare_loop_lem zero = unfold span in refl
  compare_loop_lem (suc left) =
      rw (span-suc k1 a1 left, span-suc k2 a2 left, compare_loop_lem left)
        (sym (
          order_of_top (word_mod ^ left) (span k1 a1 left 0) (span k2 a2 left 0) (digit k1 a1 left)
            (digit k2 a2 left) (span-lt a1 h1 left 0) (span-lt a2 h2 left 0)))

  -- For arrays of any two sizes `reference_compare` returns -1, 0 or 1 as the first number is below,
  -- equal to or above the second.
  pub compare_lem : reference_compare k1 a1 k2 a2 ≡ order_of (val a1) (val a2)
  unfolding reference_compare
  compare_lem = elim (Bool-cases (ltb k1 k2)) [
    | inl lt ↦ rw lt (widest k2 (omega (arith, ltb→lt k1 k2 lt)) (omega arith))
    | inr ge ↦ rw ge (widest k1 (omega arith) (ltb_false→le k1 k2 ge))
  ]
    where
      widest :
          (k : ℕ)
          → k1 ≤ k
          → k2 ≤ k
          → (if k == 0 then pos 0 else compare_loop k1 a1 k2 a2 k) ≡ order_of (val a1) (val a2)
      widest zero p q =
          compare_loop_lem 0 ∙ ap₂ order_of (span-wide a1 0 h1 p) (span-wide a2 0 h2 q)
      widest (suc k) p q =
          if_suc k (pos 0) (compare_loop k1 a1 k2 a2 (suc k))
          ∙ compare_loop_lem (suc k)
          ∙ ap₂ order_of (span-wide a1 (suc k) h1 p) (span-wide a2 (suc k) h2 q)

module _ {k : ℕ} (a1 : List ℕ) {p : ℕ} (a2 : List ℕ) (h1 : IsBignum k a1) (h2 : IsBignum p a2) where
  pub le_lem : reference_le k a1 p a2 ≡ of_bool (leb (val a1) (val a2))
  unfolding reference_le order_of
  le_lem = rw (compare_lem k a1 p a2 h1 h2) (ground arith)

module _ (k : ℕ) (a1 a2 : List ℕ) (h1 : IsBignum k a1) (h2 : IsBignum k a2) where
  -- The five same-size comparisons of two k-digit numbers are those of their values: each returns 1
  -- if its relation holds and 0 if not.
  pub samelen_lem :
      (reference_eq_samelen k a1 a2 ≡ of_bool (val a1 == val a2))
      × (reference_lt_samelen k a1 a2 ≡ of_bool (ltb (val a1) (val a2)))
      × (reference_le_samelen k a1 a2 ≡ of_bool (leb (val a1) (val a2)))
      × (reference_gt_samelen k a1 a2 ≡ of_bool (ltb (val a2) (val a1)))
      × (reference_ge_samelen k a1 a2 ≡ of_bool (leb (val a2) (val a1)))
  unfolding reference_eq_samelen reference_lt_samelen reference_le_samelen reference_gt_samelen
      reference_ge_samelen order_of
  samelen_lem =
      let e = compare_lem k a1 k a2 h1 h2 in
      (
        rw e (ground arith),
        rw e (ground arith),
        rw e (ground arith),
        rw e (ground arith),
        rw e (ground arith),
      )

iszero_tail :
    (d : ℕ) (x : List ℕ) (left i : ℕ) → iszero_loop (d ∷ x) left (suc i) ≡ iszero_loop x left i
unfolding iszero_loop
iszero_tail d x zero i = refl
iszero_tail d x (suc left) i = rw (iszero_tail d x left (suc i))

-- `reference_iszero` returns 1 for a k-digit number that is 0, and 0 for any other.
pub iszero_lem : (k : ℕ) (x : List ℕ) → IsBignum k x → reference_iszero k x ≡ of_bool (val x == 0)
unfolding reference_iszero iszero_loop val
iszero_lem zero [] h = refl
iszero_lem zero (d ∷ x) (h, w) = absurd (omega arith)
iszero_lem (suc k) [] (h, w) = absurd (omega arith)
iszero_lem (suc k) (d ∷ x) (h, w) =
    ground (arith, iszero_tail d x k 0, iszero_lem k x (omega arith, w.1))
