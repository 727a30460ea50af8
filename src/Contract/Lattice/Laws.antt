-- ===== src/Contract/Lattice/Laws.antt =====
-- The references of tests/test.c keep the promises on coefficients, and packing and unpacking undo one
-- another.
use s2n_bignum.Prelude.{
  ℕ, ◌+◌, ◌*◌, ◌%◌, ◌^◌, ◌≤◌, ◌<◌, ◌≡◌, refl, sym, ap, ap₂, ◌⊎◌, ◌∙◌, List, [], ◌∷◌, map, All,
  length, arith,
}
use s2n_bignum.Prelude.Int.{ℤ, pos, negsuc, pos_part, neg_part, ◌-ℤ◌, ◌*ℤ◌, -ℤ_parts}
use s2n_bignum.Sampling.{
  reference_rej_uniform, reference_mldsa_rej_uniform, reference_mldsa_rej_uniform_eta4,
  reference_mldsa_rej_uniform_eta2,
}
use s2n_bignum.Sampling.Fields.{
  IsByte, rej_uniform_lem, mldsa_rej_uniform_lem, mldsa_rej_uniform_eta_lem,
}
use s2n_bignum.Lattice.{mldsa_q, reference_poly_reduce}
use s2n_bignum.Lattice.Reduce.{times_q, poly_reduce_lem}
use s2n_bignum.Lattice.Rounding.{
  reference_mldsa_decompose, reference_mldsa_decompose_32, reference_mldsa_decompose_88,
}
use s2n_bignum.Lattice.Unpack.{reference_mldsa_polyz_unpack, unpack_17, unpack_19}
use s2n_bignum.Lattice.Rounding.Hint.{
  reference_mldsa_poly_use_hint_32, reference_mldsa_poly_use_hint_88, hint_32, hint_88,
}
use s2n_bignum.Lattice.Rounding.Decompose.{decompose_round_lem}
use s2n_bignum.Contract.{digits_in, value_in}
use s2n_bignum.Contract.Digits.{value-digits, digits-value}
use s2n_bignum.Contract.Lattice.{
  mldsa_polyz_unpack_17, mldsa_polyz_unpack_19, mldsa_poly_use_hint, MldsaReduce, MldsaDecompose,
  Congruent, mlkem_rej_uniform_variable_time, mldsa_rej_uniform_variable_time,
  mldsa_rej_uniform_eta2_variable_time, mldsa_rej_uniform_eta4_variable_time, mlkem_frombytes,
  mlkem_tobytes,
}
use native.Mathlib.Nat.{mod-eq_of_lt, add-mul-mod_self_left, mod-lt, one-le-pow}
use mathlib.Core.Path.{subst}

-- On any buffer of bytes, the references for the samplers of ML-KEM and of ML-DSA, uniform and for eta
-- = 2 and 4, return the coefficients that the header promises.
pub samplers-promised :
    (buf : List ℕ)
    → All IsByte buf
    → (reference_rej_uniform buf ≡ mlkem_rej_uniform_variable_time buf)
      × (reference_mldsa_rej_uniform buf ≡ mldsa_rej_uniform_variable_time buf)
      × (reference_mldsa_rej_uniform_eta2 buf ≡ mldsa_rej_uniform_eta2_variable_time buf)
      × (reference_mldsa_rej_uniform_eta4 buf ≡ mldsa_rej_uniform_eta4_variable_time buf)
unfolding mlkem_rej_uniform_variable_time mldsa_rej_uniform_variable_time
    mldsa_rej_uniform_eta2_variable_time mldsa_rej_uniform_eta4_variable_time
samplers-promised buf h =
    let (four, two) = mldsa_rej_uniform_eta_lem buf h in
    (rej_uniform_lem buf h, mldsa_rej_uniform_lem buf h, two, four)

-- Subtracting a multiple of the modulus keeps the residue.
congruent : (a t : ℤ) → Congruent mldsa_q a (a -ℤ t *ℤ pos mldsa_q)
congruent a t =
    let r = a -ℤ t *ℤ pos mldsa_q in
    let e : pos_part a + neg_part r + mldsa_q * neg_part t
        ≡ pos_part r + neg_part a + mldsa_q * pos_part t =
      omega (arith, -ℤ_parts a (t *ℤ pos mldsa_q), times_q t) in
    sym (add-mul-mod_self_left (pos_part a + neg_part r) mldsa_q (neg_part t))
    ∙ ap (λ (n : ℕ). n % mldsa_q) e
    ∙ add-mul-mod_self_left (pos_part r + neg_part a) mldsa_q (pos_part t)

-- For coefficients of 32 bits of which none is above 0x7fbfffff, the reference reduction of each is what
-- is promised of `mldsa_reduce`: congruent modulo 8380417, and between -6283009 and 6283008.
pub poly_reduce-MldsaReduce :
    (a : List ℤ)
    → All (λ x. (pos_part x ≤ 0x7fbfffff) × (neg_part x ≤ 2 ^ 31)) a
    → MldsaReduce a (map reference_poly_reduce a)
poly_reduce-MldsaReduce [] h = tt
poly_reduce-MldsaReduce (x ∷ a) ((high, low), hs) =
    let ((t, same), upper, lower) = poly_reduce_lem x (omega arith) low in
    (
      (subst (λ (n : ℤ). Congruent mldsa_q x n) (sym same) (congruent x t), upper, lower),
      poly_reduce-MldsaReduce a hs,
    )

value_in-lt :
    (b : ℕ)
    → 0 < b
    → (n : ℕ) (xs : List ℕ) → length xs ≡ n
    → All (λ c. c < b) xs
    → value_in b xs < b ^ n
value_in-lt b large n xs e h =
    let again = ap (λ (m : ℕ). digits_in b m (value_in b xs)) (sym e) ∙ digits-value b large xs h in
    omega (
      arith,
      ap (λ (t : List ℕ). value_in b t) again,
      value-digits b large n (value_in b xs),
      mod-lt (value_in b xs) {m = b ^ n} (one-le-pow n b large),
    )

room : 256 ^ 384 ≡ (2 ^ 12) ^ 256
room = refl

-- Polynomials with coefficients of 12 bits are unpacked from the bytes into which they are packed, and
-- 384 bytes are packed from the coefficients into which they are unpacked.
pub mlkem_frombytes-mlkem_tobytes :
    (a b : List ℕ)
    → length a ≡ 256
    → All (λ c. c < 2 ^ 12) a
    → length b ≡ 384
    → All (λ c. c < 256) b
    → (mlkem_frombytes (mlkem_tobytes a) ≡ a) × (mlkem_tobytes (mlkem_frombytes b) ≡ b)
unfolding mlkem_frombytes mlkem_tobytes
mlkem_frombytes-mlkem_tobytes a b la ha lb hb = (
  ap (digits_in (2 ^ 12) 256) (
        value-digits 256 (omega arith) 384 (value_in (2 ^ 12) a)
        ∙ mod-eq_of_lt (omega (arith, room, value_in-lt (2 ^ 12) (omega arith) 256 a la ha)))
      ∙ ap (λ (n : ℕ). digits_in (2 ^ 12) n (value_in (2 ^ 12) a)) (sym la)
      ∙ digits-value (2 ^ 12) (omega arith) a ha,
  ap (digits_in 256 384) (
        value-digits (2 ^ 12) (omega arith) 256 (value_in 256 b)
        ∙ mod-eq_of_lt (omega (arith, room, value_in-lt 256 (omega arith) 384 b lb hb)))
      ∙ ap (λ (n : ℕ). digits_in 256 n (value_in 256 b)) (sym lb)
      ∙ digits-value 256 (omega arith) b hb,
)

-- For coefficients from 0 to 8380416, the references for the decomposition write as the high parts the
-- nearest multiple of 2 * gamma2, of two the lower one, with 0 for the last multiple, and as the low
-- parts what the coefficients exceed it by, with the modulus less at the last multiple.
pub decompose-MldsaDecompose :
    (a : List ℤ)
    → All (λ x. (pos_part x < 8380417) × (neg_part x ≡ 0)) a
    → MldsaDecompose 261888 a (reference_mldsa_decompose_32 a).0 (reference_mldsa_decompose_32 a).1
      × MldsaDecompose 95232 a (reference_mldsa_decompose_88 a).0 (reference_mldsa_decompose_88 a).1
unfolding reference_mldsa_decompose_32 reference_mldsa_decompose_88 reference_mldsa_decompose
decompose-MldsaDecompose [] h = (tt, tt)
decompose-MldsaDecompose (pos n ∷ a) ((high, sign), hs) =
    let (here_32, here_88) = decompose_round_lem n high in
    let (rest_32, rest_88) = decompose-MldsaDecompose a hs in
    ((here_32, rest_32), (here_88, rest_88))
decompose-MldsaDecompose (negsuc n ∷ a) ((high, sign), hs) = absurd (omega (arith, sign))

-- For coefficients from 0 to 8380416 and hints 0 or 1, the references that correct the high parts
-- without computing the decomposition give what is promised for the parts that the references for the
-- decomposition write: the high part for the hint 0, and for the hint 1 the next one in the direction
-- of the low part, modulo 16 and modulo 44.
pub use_hint-decompose :
    (a h : List ℤ)
    → All (λ x. (pos_part x < 8380417) × (neg_part x ≡ 0)) a
    → All (λ x. (x ≡ pos 0) ⊎ (x ≡ pos 1)) h
    → (reference_mldsa_poly_use_hint_32 a h
        ≡ mldsa_poly_use_hint 16
            (reference_mldsa_decompose_32 a).0
            (reference_mldsa_decompose_32 a).1
            h)
      × (reference_mldsa_poly_use_hint_88 a h
          ≡ mldsa_poly_use_hint 44
              (reference_mldsa_decompose_88 a).0
              (reference_mldsa_decompose_88 a).1
              h)
unfolding reference_mldsa_decompose_32 reference_mldsa_decompose_88 reference_mldsa_decompose
    reference_mldsa_poly_use_hint_32 reference_mldsa_poly_use_hint_88 mldsa_poly_use_hint
use_hint-decompose [] h range bits = (refl, refl)
use_hint-decompose (x ∷ a) [] range bits = (refl, refl)
use_hint-decompose (pos n ∷ a) (k ∷ h) ((high, sign), range) (bit, bits) =
    let (here_32, here_88) = decompose_round_lem n high in
    let (rest_32, rest_88) = use_hint-decompose a h range bits in
    (
      ap₂ ◌∷◌ (hint_32 n high k bit _ _ here_32) rest_32,
      ap₂ ◌∷◌ (hint_88 n high k bit _ _ here_88) rest_88,
    )
use_hint-decompose (negsuc n ∷ a) (k ∷ h) ((high, sign), range) bits = absurd (omega (arith, sign))

-- From any bytes the reference that unpacks coefficients reads what is promised, at either width.
pub unpack-promised :
    (b : List ℕ)
    → All (λ d. d < 256) b
    → (reference_mldsa_polyz_unpack b 17 ≡ mldsa_polyz_unpack_17 b)
      × (reference_mldsa_polyz_unpack b 19 ≡ mldsa_polyz_unpack_19 b)
unfolding reference_mldsa_polyz_unpack mldsa_polyz_unpack_17 mldsa_polyz_unpack_19
unpack-promised b h = (unpack_17 (2 ^ 17) 64 b h, unpack_19 (2 ^ 19) 128 b h)
