-- ===== src/Lattice/Reversal.antt =====
-- The bit reversals of the ML-KEM and ML-DSA references, and the arrays in bit-reversed order.
use s2n_bignum.Prelude.{
  ℕ, zero, suc, ◌+◌, ◌*◌, ◌/◌, ◌%◌, ◌^◌, ◌<◌, ◌≡◌, refl, ap, ap₂, ◌∙◌, inl, inr, ◌==◌, Bool, true,
  ◌&&◌, arith, List, [], ◌∷◌, get_or, length, ==_iff, ◌⊎◌, ltb, ltb→lt, drop,
}
use s2n_bignum.Prelude.Int.{ℤ, pos}
use s2n_bignum.Lattice.{
  bitreverse_pairs, reference_bitrev8, gather, reference_bitreverse, reference_mldsa_bitreverse,
}

-- A test of all numbers below a bound.
unfoldable pub all_below : ℕ → (ℕ → Bool) → Bool
all_below zero p = true
all_below (suc n) p = p n && all_below n p

both_true : (a b : Bool) → a && b ≡ true → (a ≡ true) × (b ≡ true)
both_true a b h = ground (arith, h)

last_or_below : (i n : ℕ) → i < suc n → (i < n) ⊎ (i ≡ n)
last_or_below i n h = ground arith

pub all_below_lem : (n : ℕ) (p : ℕ → Bool) → all_below n p ≡ true → (i : ℕ) → i < n → p i ≡ true
unfolding all_below
all_below_lem zero p h i lt = absurd (omega arith)
all_below_lem (suc n) p h i lt = elim (last_or_below i n lt) [
  | inl below ↦ all_below_lem n p (both_true (p n) (all_below n p) h).1 i below
  | inr last ↦ ap p last ∙ (both_true (p n) (all_below n p) h).0
]

-- The `n` low bits of a number in the opposite order.
unfoldable pub reversed : ℕ → ℕ → ℕ
reversed zero x = 0
reversed (suc n) x = x % 2 * 2 ^ n + reversed n (x / 2)

pairs_table : all_below 256 (λ x. bitreverse_pairs x == 2 * reversed 7 (x / 2) + x % 2) ≡ true
unfolding all_below bitreverse_pairs reversed
pairs_table = refl

bytes_table : all_below 256 (λ x. reference_bitrev8 x == reversed 8 x) ≡ true
unfolding all_below reference_bitrev8 reversed
bytes_table = refl

-- Within 256 indices, the multiplications and masks of `bitreverse_pairs` reverse the order of the
-- upper seven bits and keep the lowest, and the loop of `reference_bitrev8` reverses all eight.
pub reversal_lem :
    (x : ℕ)
    → x < 256
    → (bitreverse_pairs x ≡ 2 * reversed 7 (x / 2) + x % 2) × (reference_bitrev8 x ≡ reversed 8 x)
reversal_lem x h = (
  (==_iff (bitreverse_pairs x) (2 * reversed 7 (x / 2) + x % 2)).0 (
      all_below_lem 256 (λ x. bitreverse_pairs x == 2 * reversed 7 (x / 2) + x % 2) pairs_table x
        h),
  (==_iff (reference_bitrev8 x) (reversed 8 x)).0
      (all_below_lem 256 (λ x. reference_bitrev8 x == reversed 8 x) bytes_table x h),
)

-- An order of 256 indices that is its own inverse.
IsInvolution : (ℕ → ℕ) → Type 0
IsInvolution order = (x : ℕ) → x < 256 → (order x < 256) × (order (order x) ≡ x)

involution_test : (ℕ → ℕ) → Bool
involution_test order = all_below 256 (λ x. ltb (order x) 256 && order (order x) == x)

involution_test-IsInvolution : (order : ℕ → ℕ) → involution_test order ≡ true → IsInvolution order
unfolding involution_test IsInvolution
involution_test-IsInvolution order h x lt =
    let both =
      both_true (ltb (order x) 256) (order (order x) == x)
        (all_below_lem 256 (λ x. ltb (order x) 256 && order (order x) == x) h x lt) in
    (ltb→lt (order x) 256 both.0, (==_iff (order (order x)) x).0 both.1)

pairs-IsInvolution : IsInvolution bitreverse_pairs
unfolding all_below bitreverse_pairs involution_test
pairs-IsInvolution = involution_test-IsInvolution bitreverse_pairs refl

bytes-IsInvolution : IsInvolution reference_bitrev8
unfolding all_below reference_bitrev8 involution_test
bytes-IsInvolution = involution_test-IsInvolution reference_bitrev8 refl

get_or-gather :
    (order : ℕ → ℕ) (a : List ℤ) (i left j : ℕ)
    → j < left
    → get_or (gather order a i left) j (pos 0) ≡ get_or a (order (i + j)) (pos 0)
unfolding gather
get_or-gather order a i zero j h = absurd (omega arith)
get_or-gather order a i (suc left) zero h =
    let same : i ≡ i + 0 = omega arith in ap (λ (k : ℕ). get_or a (order k) (pos 0)) same
get_or-gather order a i (suc left) (suc j) h =
    let same : suc i + j ≡ i + suc j = omega arith in
    get_or-gather order a (suc i) left j (omega arith)
    ∙ ap (λ (k : ℕ). get_or a (order k) (pos 0)) same

drop-get_or : (a : List ℤ) (i : ℕ) → i < length a → get_or a i (pos 0) ∷ drop (suc i) a ≡ drop i a
drop-get_or [] i h = absurd (omega arith)
drop-get_or (x ∷ a) zero h = refl
drop-get_or (x ∷ a) (suc i) h = drop-get_or a i (omega arith)

nothing_left : (a : List ℤ) (i : ℕ) → i ≡ length a → [] ≡ drop i a
nothing_left [] zero h = refl
nothing_left [] (suc i) h = refl
nothing_left (x ∷ a) zero h = absurd (omega arith)
nothing_left (x ∷ a) (suc i) h = nothing_left a i (omega arith)

gather_twice :
    (order : ℕ → ℕ)
    → IsInvolution order
    → (a : List ℤ) (i left : ℕ) → length a ≡ 256
    → i + left ≡ 256
    → gather order (gather order a 0 256) i left ≡ drop i a
unfolding gather IsInvolution
gather_twice order inv a i zero size all = nothing_left a i (omega (arith, size, all))
gather_twice order inv a i (suc left) size all =
    let (small, back) = inv i (omega (arith, all)) in
    ap₂ (λ (x : ℤ) (xs : List ℤ). x ∷ xs)
      (get_or-gather order a 0 256 (order i) small
        ∙ ap (λ (k : ℕ). get_or a k (pos 0)) (ap order (omega arith) ∙ back))
      (gather_twice order inv a (suc i) left size (omega (arith, all)))
    ∙ drop-get_or a i (omega (arith, size, all))

-- Reordering 256 coefficients by bit reversal twice gives the coefficients back, for the ML-KEM and
-- for the ML-DSA order.
pub bitreverse_lem :
    (a : List ℤ)
    → length a ≡ 256
    → (reference_bitreverse (reference_bitreverse a) ≡ a)
      × (reference_mldsa_bitreverse (reference_mldsa_bitreverse a) ≡ a)
unfolding reference_bitreverse reference_mldsa_bitreverse
bitreverse_lem a size = (
  gather_twice bitreverse_pairs pairs-IsInvolution a 0 256 size refl,
  gather_twice reference_bitrev8 bytes-IsInvolution a 0 256 size refl,
)
