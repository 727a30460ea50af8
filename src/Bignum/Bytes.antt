-- ===== src/Bignum/Bytes.antt =====
-- tests/test.c, the byte orders. `((uint8_t *) x)[8*i+j]` is the byte j of the digit i, as on the
-- little-endian machines that the library is for; sizes that are the array's own are left out.
use s2n_bignum.Prelude.{ℕ, zero, suc, ◌+◌, ◌*◌, ◌/◌, ◌%◌, ◌^◌, List, [], ◌∷◌, get_or}

-- Byte j of a word in memory.
abbrev pub byte_of : ℕ → ℕ → ℕ
byte_of d j = d / 2 ^ (8 * j) % 2 ^ 8

-- The sum for one digit: its byte 0 is the highest.
unfoldable pub big_word : ℕ → ℕ
big_word d =
    byte_of d 0 * 2 ^ 56
    + byte_of d 1 * 2 ^ 48
    + byte_of d 2 * 2 ^ 40
    + byte_of d 3 * 2 ^ 32
    + byte_of d 4 * 2 ^ 24
    + byte_of d 5 * 2 ^ 16
    + byte_of d 6 * 2 ^ 8
    + byte_of d 7

-- Its byte 7 is the highest.
unfoldable pub little_word : ℕ → ℕ
little_word d =
    byte_of d 7 * 2 ^ 56
    + byte_of d 6 * 2 ^ 48
    + byte_of d 5 * 2 ^ 40
    + byte_of d 4 * 2 ^ 32
    + byte_of d 3 * 2 ^ 24
    + byte_of d 2 * 2 ^ 16
    + byte_of d 1 * 2 ^ 8
    + byte_of d 0

-- z[k-(i+1)] is written in the round i: each digit stands in front of those written before.
unfoldable pub bigendian_loop : List ℕ → List ℕ → List ℕ
bigendian_loop [] done = done
bigendian_loop (d ∷ x) done = bigendian_loop x (big_word d ∷ done)

unfoldable pub reference_bigendian : List ℕ → List ℕ
unfolding bigendian_loop
reference_bigendian x = bigendian_loop x []

-- z[i] is written in the round i.
unfoldable pub littleendian_loop : List ℕ → List ℕ
littleendian_loop [] = []
littleendian_loop (d ∷ x) = little_word d ∷ littleendian_loop x

unfoldable pub reference_littleendian : List ℕ → List ℕ
unfolding littleendian_loop
reference_littleendian x = littleendian_loop x

-- for (i; left more rounds; ++i) z[i] = x[i/8] >> (8*(i%8)); stored in a byte.
unfoldable pub tolebytes_loop : List ℕ → ℕ → ℕ → List ℕ
tolebytes_loop x i zero = []
tolebytes_loop x i (suc left) =
    get_or x (i / 8) 0 / 2 ^ (8 * (i % 8)) % 2 ^ 8 ∷ tolebytes_loop x (suc i) left

-- The first `k` bytes of an array.
unfoldable pub reference_tolebytes : ℕ → List ℕ → List ℕ
unfolding tolebytes_loop
reference_tolebytes k x = tolebytes_loop x 0 k
