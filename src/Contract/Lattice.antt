-- ===== src/Contract/Lattice.antt =====
-- include/s2n-bignum.h, the functions on the coefficients of ML-KEM and ML-DSA polynomials. A byte is a
-- number below 256 and a coefficient an integer, and the tables that the assembly functions are given
-- are not part of what they promise. The widths and bounds of the samplers are those of the comments in
-- the assembly files, which ask for buffers of whole groups; here a buffer has any length.
pub mod Laws
use s2n_bignum.Prelude.{
  ℕ, zero, suc, ◌+◌, ◌-◌, ◌*◌, ◌%◌, ◌^◌, ◌≤◌, ◌<◌, ◌≡◌, ◌⊎◌, List, [], ◌∷◌, ◌++◌, map, Bool, false,
  ◌||◌, leb, if◌then◌else◌, ltb, ◌==◌, of_bool, take, drop,
}
use s2n_bignum.Prelude.Int.{ℤ, pos, negsuc, sub_ℕ, pos_part, neg_part, ◌+ℤ◌, ◌*ℤ◌}
use s2n_bignum.Sampling.Accept.{accepted}
use s2n_bignum.Sampling.Fields.{below, twelve_bits, low_23_bits, nibbles, eta4, eta2}
use s2n_bignum.Contract.{digits_in, value_in}

-- The coefficients of a polynomial.
abbrev pub coefficients : ℕ
coefficients = 256

-- A relation between the coefficients at each place of two polynomials.
abbrev pub Each : (ℤ → ℤ → Type 0) → List ℤ → List ℤ → Type 0
Each R [] [] = Unit
Each R [] (y ∷ ys) = ⊥
Each R (x ∷ xs) [] = ⊥
Each R (x ∷ xs) (y ∷ ys) = R x y × Each R xs ys

abbrev pub Congruent : ℕ → ℤ → ℤ → Type 0
Congruent q x y = (pos_part x + neg_part y) % q ≡ (pos_part y + neg_part x) % q

unfoldable pub mlkem_rej_uniform_variable_time : List ℕ → List ℕ
mlkem_rej_uniform_variable_time buf =
    take coefficients (accepted (below 3329) (λ v. v) (twelve_bits buf))

unfoldable pub mldsa_rej_uniform_variable_time : List ℕ → List ℕ
mldsa_rej_uniform_variable_time buf =
    take coefficients (accepted (below 8380417) (λ v. v) (low_23_bits buf))

-- From a buffer of 840 bytes.
unfoldable pub mldsa_rej_uniform_variable_time_x86 : List ℕ → List ℕ
mldsa_rej_uniform_variable_time_x86 buf =
    take coefficients (accepted (below 8380417) (λ v. v) (low_23_bits (take 840 buf)))

unfoldable pub mldsa_rej_uniform_eta2_variable_time : List ℕ → List ℤ
mldsa_rej_uniform_eta2_variable_time buf =
    take coefficients (accepted (below 15) eta2 (nibbles buf))

unfoldable pub mldsa_rej_uniform_eta4_variable_time : List ℕ → List ℤ
mldsa_rej_uniform_eta4_variable_time buf = take coefficients (accepted (below 9) eta4 (nibbles buf))

-- 2 ^ 32 times each result is congruent to the product.
abbrev pub MldsaPointwise : List ℤ → List ℤ → List ℤ → Type 0
MldsaPointwise [] [] [] = Unit
MldsaPointwise (a ∷ a_rest) (b ∷ b_rest) (r ∷ r_rest) =
    Congruent 8380417 (pos (2 ^ 32) *ℤ r) (a *ℤ b) × MldsaPointwise a_rest b_rest r_rest
MldsaPointwise _ _ _ = ⊥

-- Centered, and congruent to the input.
abbrev pub MldsaReduce : List ℤ → List ℤ → Type 0
MldsaReduce a r =
    Each (λ x y. Congruent 8380417 x y × (pos_part y ≤ 6283008) × (neg_part y ≤ 6283009)) a r

unfoldable pub mldsa_caddq : List ℤ → List ℤ
mldsa_caddq [] = []
mldsa_caddq (pos n ∷ a) = pos n ∷ mldsa_caddq a
mldsa_caddq (negsuc n ∷ a) = (negsuc n +ℤ pos 8380417) ∷ mldsa_caddq a

unfoldable pub mldsa_chknorm : List ℤ → ℕ → ℕ
mldsa_chknorm a bound = of_bool (reaches a)
  where
    reaches : List ℤ → Bool
    reaches [] = false
    reaches (x ∷ xs) = leb bound (pos_part x + neg_part x) || reaches xs

-- The packed coefficients have 18 and 20 bits, and are subtracted from GAMMA1.
unfoldable pub mldsa_polyz_unpack_17 : List ℕ → List ℤ
mldsa_polyz_unpack_17 b =
    map (λ z. sub_ℕ (2 ^ 17) z) (digits_in (2 ^ 18) coefficients (value_in 256 b))

unfoldable pub mldsa_polyz_unpack_19 : List ℕ → List ℤ
mldsa_polyz_unpack_19 b =
    map (λ z. sub_ℕ (2 ^ 19) z) (digits_in (2 ^ 20) coefficients (value_in 256 b))

unfoldable pub mlkem_reduce : List ℤ → List ℤ
mlkem_reduce a = map (λ x. pos ((pos_part x + (3329 - neg_part x % 3329)) % 3329)) a

-- Coefficients of 12 bits, packed into 384 bytes.
unfoldable pub mlkem_frombytes : List ℕ → List ℕ
mlkem_frombytes a = digits_in (2 ^ 12) coefficients (value_in 256 a)

unfoldable pub mlkem_tobytes : List ℕ → List ℕ
mlkem_tobytes a = digits_in 256 384 (value_in (2 ^ 12) a)

abbrev pub MlkemTomont : List ℤ → List ℤ → Type 0
MlkemTomont a r = Each (λ x y. Congruent 3329 (pos (2 ^ 16) *ℤ x) y) a r

-- The high part m and the low part of a coefficient below q for a spacing of 2 * gamma2: the nearest
-- multiple, where of two the lower one is taken; at the upper end the high part is 0 instead of
-- (q - 1) / (2 * gamma2) and the low part one less.
abbrev pub Decomposed : ℕ → ℕ → ℤ → ℤ → Type 0
Decomposed gamma2 a a1 a0 =
    ((m : ℕ) × (m * (2 * gamma2) < 8380417 - 1)
      × (a1 ≡ pos m)
      × (a + neg_part a0 ≡ m * (2 * gamma2) + pos_part a0)
      × (pos_part a0 ≤ gamma2)
      × (neg_part a0 < gamma2))
    ⊎ ((a1 ≡ pos 0) × (pos_part a0 ≡ 0) × (a + neg_part a0 ≡ 8380417) × (neg_part a0 ≤ gamma2))

-- The high and the low parts of coefficients below q.
abbrev pub MldsaDecompose : ℕ → List ℤ → List ℤ → List ℤ → Type 0
MldsaDecompose gamma2 [] [] [] = Unit
MldsaDecompose gamma2 (a ∷ a_rest) (x ∷ a1) (y ∷ a0) =
    Decomposed gamma2 (pos_part a) x y × MldsaDecompose gamma2 a_rest a1 a0
MldsaDecompose gamma2 _ _ _ = ⊥

-- The high part where the hint is 0, and else the next one in the direction of the low part, of `count`.
unfoldable pub use_hint : ℕ → ℤ → ℤ → ℤ → ℤ
use_hint count hint a1 a0 =
    if pos_part hint == 0
    then a1
    else (if ltb 0 (pos_part a0)
        then pos ((pos_part a1 + 1) % count)
        else pos ((pos_part a1 + (count - 1)) % count))

-- For the high and low parts of the coefficients.
unfoldable pub mldsa_poly_use_hint : ℕ → List ℤ → List ℤ → List ℤ → List ℤ
mldsa_poly_use_hint count (a1 ∷ a1_rest) (a0 ∷ a0_rest) (hint ∷ h) =
    use_hint count hint a1 a0 ∷ mldsa_poly_use_hint count a1_rest a0_rest h
mldsa_poly_use_hint count _ _ _ = []
