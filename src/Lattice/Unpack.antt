-- ===== src/Lattice/Unpack.antt =====
-- tests/test.c, reference_mldsa_polyz_unpack: coefficients of 18 or of 20 bits that are read byte by byte,
-- and that they are the digits of the number of the bytes.
use s2n_bignum.Prelude.{
  ℕ, zero, suc, ◌+◌, ◌*◌, ◌/◌, ◌%◌, ◌^◌, ◌<◌, ◌≡◌, refl, sym, ap, ap₂, ◌∙◌, List, [], ◌∷◌, map,
  arith, All, drop, get_or, ◌==◌, if◌then◌else◌, bit_and, bit_or,
}
use s2n_bignum.Prelude.Int.{ℤ, sub_ℕ}
use s2n_bignum.Prelude.Bits.{bit_or-above, bit_and-mask}
use s2n_bignum.Contract.{digits_in, value_in}

-- x | (y << j) | (z << k)
unfoldable pub three_parts : ℕ → ℕ → ℕ → ℕ → ℕ → ℕ
three_parts x j y k z = bit_or (bit_or x (2 ^ j * y)) (2 ^ k * z)

-- The rounds that are left, each on the bytes from a[9*i] on.
unfoldable pub unpack_17_loop : ℕ → ℕ → List ℕ → List ℤ
unpack_17_loop gamma1 zero a = []
unpack_17_loop gamma1 (suc left) a =
    let b = λ (j : ℕ). get_or a j 0 in
    let rest = unpack_17_loop gamma1 left (drop 9 a) in
    sub_ℕ gamma1 (bit_and (three_parts (b 0) 8 (b 1) 16 (b 2)) 0x3FFFF)
    ∷ sub_ℕ gamma1 (bit_and (three_parts (b 2 / 2 ^ 2) 6 (b 3) 14 (b 4)) 0x3FFFF)
    ∷ sub_ℕ gamma1 (bit_and (three_parts (b 4 / 2 ^ 4) 4 (b 5) 12 (b 6)) 0x3FFFF)
    ∷ sub_ℕ gamma1 (bit_and (three_parts (b 6 / 2 ^ 6) 2 (b 7) 10 (b 8)) 0x3FFFF)
    ∷ rest

-- And from a[5*i] on.
unfoldable pub unpack_19_loop : ℕ → ℕ → List ℕ → List ℤ
unpack_19_loop gamma1 zero a = []
unpack_19_loop gamma1 (suc left) a =
    let b = λ (j : ℕ). get_or a j 0 in
    let rest = unpack_19_loop gamma1 left (drop 5 a) in
    sub_ℕ gamma1 (bit_and (three_parts (b 0) 8 (b 1) 16 (b 2)) 0xFFFFF)
    ∷ sub_ℕ gamma1 (three_parts (b 2 / 2 ^ 4) 4 (b 3) 12 (b 4))
    ∷ rest

unfoldable pub reference_mldsa_polyz_unpack : List ℕ → ℕ → List ℤ
reference_mldsa_polyz_unpack a gamma1_bits =
    let gamma1 = 2 ^ gamma1_bits in
    if gamma1_bits == 17 then unpack_17_loop gamma1 64 a else unpack_19_loop gamma1 128 a

three_parts_lem :
    (x j y k z : ℕ)
    → x < 2 ^ j
    → x + 2 ^ j * y < 2 ^ k
    → three_parts x j y k z ≡ x + 2 ^ j * y + 2 ^ k * z
unfolding three_parts
three_parts_lem x j y k z h l =
    ap (λ (t : ℕ). bit_or t (2 ^ k * z)) (bit_or-above j x y h) ∙ bit_or-above k (x + 2 ^ j * y) z l

get_or-byte : (a : List ℕ) → All (λ d. d < 256) a → (j : ℕ) → get_or a j 0 < 256
get_or-byte [] h j = omega arith
get_or-byte (d ∷ a) h zero = h.0
get_or-byte (d ∷ a) h (suc j) = get_or-byte a h.1 j

next_byte :
    (j : ℕ) (a : List ℕ)
    → value_in 256 (drop j a) ≡ get_or a j 0 + 256 * value_in 256 (drop (suc j) a)
unfolding value_in
next_byte zero [] = refl
next_byte zero (d ∷ a) = refl
next_byte (suc j) [] = refl
next_byte (suc j) (d ∷ a) = next_byte j a

drop-All : (j : ℕ) (a : List ℕ) → All (λ d. d < 256) a → All (λ d. d < 256) (drop j a)
drop-All zero a h = h
drop-All (suc j) [] h = tt
drop-All (suc j) (d ∷ a) h = drop-All j a h.1

five_bytes :
    (a : List ℕ)
    → let b = λ (j : ℕ). get_or a j 0 in
      value_in 256 a
      ≡ b 0
        + 2 ^ 8 * b 1
        + 2 ^ 16 * b 2
        + 2 ^ 24 * b 3
        + 2 ^ 32 * b 4
        + 2 ^ 40 * value_in 256 (drop 5 a)
five_bytes a =
    omega (arith, next_byte 0 a, next_byte 1 a, next_byte 2 a, next_byte 3 a, next_byte 4 a)

nine_bytes :
    (a : List ℕ)
    → let b = λ (j : ℕ). get_or a j 0 in
      value_in 256 a
      ≡ b 0
        + 2 ^ 8 * b 1
        + 2 ^ 16 * b 2
        + 2 ^ 24 * b 3
        + 2 ^ 32 * b 4
        + 2 ^ 40 * b 5
        + 2 ^ 48 * b 6
        + 2 ^ 56 * b 7
        + 2 ^ 64 * b 8
        + 2 ^ 72 * value_in 256 (drop 9 a)
nine_bytes a =
    omega (arith, five_bytes a, next_byte 5 a, next_byte 6 a, next_byte 7 a, next_byte 8 a)

pub unpack_19 :
    (gamma1 n : ℕ) (a : List ℕ)
    → All (λ d. d < 256) a
    → unpack_19_loop gamma1 n a
      ≡ map (λ z. sub_ℕ gamma1 z) (digits_in (2 ^ 20) (2 * n) (value_in 256 a))
unfolding unpack_19_loop digits_in
unpack_19 gamma1 zero a h = refl
unpack_19 gamma1 (suc n) a h =
    let b = λ (j : ℕ). get_or a j 0 in
    let c = get_or-byte a h in
    let e0 : bit_and (three_parts (b 0) 8 (b 1) 16 (b 2)) 0xFFFFF ≡ value_in 256 a % 2 ^ 20 =
      bit_and-mask 20 (three_parts (b 0) 8 (b 1) 16 (b 2))
      ∙ ap (λ (t : ℕ). t % 2 ^ 20)
          (three_parts_lem (b 0) 8 (b 1) 16 (b 2) (omega (arith, c 0)) (omega (arith, c 0, c 1)))
      ∙ omega (arith, five_bytes a, c 0, c 1, c 2, c 3, c 4) in
    let e1 : three_parts (b 2 / 2 ^ 4) 4 (b 3) 12 (b 4) ≡ value_in 256 a / 2 ^ 20 % 2 ^ 20 =
      three_parts_lem (b 2 / 2 ^ 4) 4 (b 3) 12 (b 4) (omega (arith, c 2)) (omega (arith, c 2, c 3))
      ∙ omega (arith, five_bytes a, c 0, c 1, c 2, c 3, c 4) in
    let left : value_in 256 a / 2 ^ 20 / 2 ^ 20 ≡ value_in 256 (drop 5 a) =
      omega (arith, five_bytes a, c 0, c 1, c 2, c 3, c 4) in
    let count : suc (suc (2 * n)) ≡ 2 * suc n = omega arith in
    let f = λ (z : ℕ). sub_ℕ gamma1 z in
    (ap₂ ◌∷◌ (ap f e0) (
      ap₂ ◌∷◌ (ap f e1) (
        unpack_19 gamma1 n (drop 5 a) (drop-All 5 a h)
        ∙ ap (λ (w : ℕ). map f (digits_in (2 ^ 20) (2 * n) w)) (sym left))))
    ∙ ap (λ (k : ℕ). map f (digits_in (2 ^ 20) k (value_in 256 a))) count

pub unpack_17 :
    (gamma1 n : ℕ) (a : List ℕ)
    → All (λ d. d < 256) a
    → unpack_17_loop gamma1 n a
      ≡ map (λ z. sub_ℕ gamma1 z) (digits_in (2 ^ 18) (4 * n) (value_in 256 a))
unfolding unpack_17_loop digits_in
unpack_17 gamma1 zero a h = refl
unpack_17 gamma1 (suc n) a h =
    let b = λ (j : ℕ). get_or a j 0 in
    let c = get_or-byte a h in
    let e0 : bit_and (three_parts (b 0) 8 (b 1) 16 (b 2)) 0x3FFFF ≡ value_in 256 a % 2 ^ 18 =
      bit_and-mask 18 (three_parts (b 0) 8 (b 1) 16 (b 2))
      ∙ ap (λ (t : ℕ). t % 2 ^ 18)
          (three_parts_lem (b 0) 8 (b 1) 16 (b 2) (omega (arith, c 0)) (omega (arith, c 0, c 1)))
      ∙ omega (arith, nine_bytes a, c 0, c 1, c 2, c 3, c 4, c 5, c 6, c 7, c 8) in
    let e1 : bit_and (three_parts (b 2 / 2 ^ 2) 6 (b 3) 14 (b 4)) 0x3FFFF
        ≡ value_in 256 a / 2 ^ 18 % 2 ^ 18 =
      bit_and-mask 18 (three_parts (b 2 / 2 ^ 2) 6 (b 3) 14 (b 4))
      ∙ ap (λ (t : ℕ). t % 2 ^ 18)
          (three_parts_lem (b 2 / 2 ^ 2) 6 (b 3) 14 (b 4) (omega (arith, c 2))
            (omega (arith, c 2, c 3)))
      ∙ omega (arith, nine_bytes a, c 0, c 1, c 2, c 3, c 4, c 5, c 6, c 7, c 8) in
    let e2 : bit_and (three_parts (b 4 / 2 ^ 4) 4 (b 5) 12 (b 6)) 0x3FFFF
        ≡ value_in 256 a / 2 ^ 18 / 2 ^ 18 % 2 ^ 18 =
      bit_and-mask 18 (three_parts (b 4 / 2 ^ 4) 4 (b 5) 12 (b 6))
      ∙ ap (λ (t : ℕ). t % 2 ^ 18)
          (three_parts_lem (b 4 / 2 ^ 4) 4 (b 5) 12 (b 6) (omega (arith, c 4))
            (omega (arith, c 4, c 5)))
      ∙ omega (arith, nine_bytes a, c 0, c 1, c 2, c 3, c 4, c 5, c 6, c 7, c 8) in
    let e3 : bit_and (three_parts (b 6 / 2 ^ 6) 2 (b 7) 10 (b 8)) 0x3FFFF
        ≡ value_in 256 a / 2 ^ 18 / 2 ^ 18 / 2 ^ 18 % 2 ^ 18 =
      bit_and-mask 18 (three_parts (b 6 / 2 ^ 6) 2 (b 7) 10 (b 8))
      ∙ ap (λ (t : ℕ). t % 2 ^ 18)
          (three_parts_lem (b 6 / 2 ^ 6) 2 (b 7) 10 (b 8) (omega (arith, c 6))
            (omega (arith, c 6, c 7)))
      ∙ omega (arith, nine_bytes a, c 0, c 1, c 2, c 3, c 4, c 5, c 6, c 7, c 8) in
    let left : value_in 256 a / 2 ^ 18 / 2 ^ 18 / 2 ^ 18 / 2 ^ 18 ≡ value_in 256 (drop 9 a) =
      omega (arith, nine_bytes a, c 0, c 1, c 2, c 3, c 4, c 5, c 6, c 7, c 8) in
    let count : suc (suc (suc (suc (4 * n)))) ≡ 4 * suc n = omega arith in
    let f = λ (z : ℕ). sub_ℕ gamma1 z in
    (ap₂ ◌∷◌ (ap f e0) (
      ap₂ ◌∷◌ (ap f e1) (
        ap₂ ◌∷◌ (ap f e2) (
          ap₂ ◌∷◌ (ap f e3) (
            unpack_17 gamma1 n (drop 9 a) (drop-All 9 a h)
            ∙ ap (λ (w : ℕ). map f (digits_in (2 ^ 18) (4 * n) w)) (sym left))))))
    ∙ ap (λ (k : ℕ). map f (digits_in (2 ^ 18) k (value_in 256 a))) count
