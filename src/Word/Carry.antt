-- ===== src/Word/Carry.antt =====
-- The carry, borrow and high-half functions compute what full-width arithmetic loses.
use s2n_bignum.Prelude.{ℕ, ◌+◌, ◌-◌, ◌*◌, ◌/◌, ◌%◌, ◌^◌, ◌≤◌, ◌<◌, ◌≡◌, ap₂, arith}
use s2n_bignum.Prelude.Powers.{mul_bound}
use s2n_bignum.Prelude.Bits.{bit_and-mask}
use s2n_bignum.Word.{
  word_mod, add64, sub64, mul64, carryout2, carryout3, borrowout3, hi32, lo32, multop,
}

pub carryout2_lem :
    (x y : ℕ) → x < word_mod → y < word_mod → add64 x y + word_mod * carryout2 x y ≡ x + y
unfolding carryout2
carryout2_lem x y hx hy = ground arith

-- For words and a carry in of 0 or 1, the wrapped sum and `carryout3` make up the true sum.
pub carryout3_lem :
    (x y c : ℕ)
    → x < word_mod
    → y < word_mod
    → c ≤ 1
    → (x + y + c) % word_mod + word_mod * carryout3 x y c ≡ x + y + c
unfolding carryout3
carryout3_lem x y c hx hy hc = ground arith

pub carryout3-le : (x y c : ℕ) → carryout3 x y c ≤ 1
unfolding carryout3
carryout3-le x y c = ground arith

pub borrowout3_lem :
    (x y b : ℕ)
    → x < word_mod
    → y < word_mod
    → b ≤ 1
    → sub64 x (y + b) + y + b ≡ x + word_mod * borrowout3 x y b
unfolding borrowout3
borrowout3_lem x y b hx hy hb = ground arith

pub borrowout3-le : (x y b : ℕ) → borrowout3 x y b ≤ 1
unfolding borrowout3
borrowout3-le x y b = ground arith

lo32_lem : (x : ℕ) → lo32 x ≡ x % 2 ^ 32
unfolding lo32
lo32_lem x = bit_and-mask 32 x

-- The schoolbook product of two numbers given by halves.
halves :
    (x y x1 x0 y1 y0 : ℕ)
    → x ≡ x1 * 2 ^ 32 + x0
    → y ≡ y1 * 2 ^ 32 + y0
    → x1 < 2 ^ 32
    → x0 < 2 ^ 32
    → y1 < 2 ^ 32
    → y0 < 2 ^ 32
    → let z0 = mul64 x0 y0 in
      let z1 = mul64 x0 y1 in
      let w1 = add64 (add64 (mul64 x1 y0) (z0 / 2 ^ 32)) (z1 % 2 ^ 32) in
      add64 (add64 (mul64 x1 y1) (z1 / 2 ^ 32)) (w1 / 2 ^ 32) ≡ x * y / word_mod
halves x y x1 x0 y1 y0 ex ey h1 h0 k1 k0 = omega (
  arith,
  mul_bound x0 y0 (2 ^ 32 - 1) (2 ^ 32 - 1) (omega arith) (omega arith),
  mul_bound x0 y1 (2 ^ 32 - 1) (2 ^ 32 - 1) (omega arith) (omega arith),
  mul_bound x1 y0 (2 ^ 32 - 1) (2 ^ 32 - 1) (omega arith) (omega arith),
  mul_bound x1 y1 (2 ^ 32 - 1) (2 ^ 32 - 1) (omega arith) (omega arith),
  ap₂ (λ (s t : ℕ). s * t) ex ey,
)

-- `multop` computes the high word of the product of two words, by halves, with no overflow on the way.
pub multop_lem : (x y : ℕ) → x < word_mod → y < word_mod → multop x y ≡ x * y / word_mod
unfolding multop hi32
multop_lem x y hx hy =
    rw (lo32_lem x, lo32_lem y, lo32_lem (mul64 (x % 2 ^ 32) (y / 2 ^ 32)))
      (halves x y (x / 2 ^ 32) (x % 2 ^ 32) (y / 2 ^ 32) (y % 2 ^ 32) (omega arith) (omega arith)
        (omega arith) (omega arith) (omega arith) (omega arith))
