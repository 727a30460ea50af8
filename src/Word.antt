-- ===== src/Word.antt =====
-- tests/test.c, the operations on one uint64_t: carries and borrows, the high half of a product.
pub mod Carry
use s2n_bignum.Prelude.{ℕ, ◌+◌, ◌-◌, ◌*◌, ◌/◌, ◌%◌, ◌^◌, Bool, ◌||◌, bit_and}
use s2n_bignum.Prelude.{ltb, leb, of_bool, nonzero, if◌then◌else◌}

-- The number of values of a uint64_t, and its arithmetic.
abbrev pub word_mod : ℕ
word_mod = 2 ^ 64

abbrev pub add64 : ℕ → ℕ → ℕ
add64 x y = (x + y) % word_mod

abbrev pub sub64 : ℕ → ℕ → ℕ
sub64 x y = (x + word_mod - y) % word_mod

abbrev pub mul64 : ℕ → ℕ → ℕ
mul64 x y = (x * y) % word_mod

unfoldable pub carryout2 : ℕ → ℕ → ℕ
carryout2 x y = let z = add64 x y in of_bool (ltb z x)

unfoldable pub carryout3 : ℕ → ℕ → ℕ → ℕ
unfolding carryout2
carryout3 x y c = let w = add64 x y in of_bool (nonzero (carryout2 x y) || nonzero (carryout2 w c))

unfoldable pub borrowout2 : ℕ → ℕ → ℕ
borrowout2 x y = of_bool (ltb x y)

unfoldable pub borrowout3 : ℕ → ℕ → ℕ → ℕ
borrowout3 x y b = of_bool (if nonzero b then leb x y else ltb x y)

unfoldable pub hi32 : ℕ → ℕ
hi32 x = x / 2 ^ 32

unfoldable pub lo32 : ℕ → ℕ
lo32 x = bit_and x 0xFFFFFFFF

-- The high 64 bits of x * y, by 32-bit halves.
unfoldable pub multop : ℕ → ℕ → ℕ
unfolding hi32 lo32
multop x y =
    let x1 = hi32 x in
    let x0 = lo32 x in
    let y1 = hi32 y in
    let y0 = lo32 y in
    let z0 = mul64 x0 y0 in
    let z1 = mul64 x0 y1 in
    let w1 = add64 (add64 (mul64 x1 y0) (hi32 z0)) (lo32 z1) in
    add64 (add64 (mul64 x1 y1) (hi32 z1)) (hi32 w1)
