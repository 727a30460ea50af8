-- ===== src/Contract/Bytes.antt =====
-- include/s2n-bignum.h, bytes and byte orders. An array of bytes is a list, first byte first; in memory
-- the digits are little-endian, as on the machines that the library is for, and `k` is the number of
-- digits in the name of a function, 4 or 6.
pub mod Laws
pub mod Conform
use s2n_bignum.Prelude.{ℕ, ◌*◌, List}
use s2n_bignum.Bignum.{val}
use s2n_bignum.Contract.{digits, digits_in, value_in}
use mathlib.Core.List.{reverse}

unfoldable pub bignum_tolebytes : ℕ → List ℕ → List ℕ
bignum_tolebytes k x = digits_in 256 (8 * k) (val x)

unfoldable pub bignum_tobebytes : ℕ → List ℕ → List ℕ
bignum_tobebytes k x = reverse (digits_in 256 (8 * k) (val x))

unfoldable pub bignum_fromlebytes : ℕ → List ℕ → List ℕ
bignum_fromlebytes k bytes = digits k (value_in 256 bytes)

unfoldable pub bignum_frombebytes : ℕ → List ℕ → List ℕ
bignum_frombebytes k bytes = digits k (value_in 256 (reverse bytes))

-- The value fits 528 bits.
unfoldable pub bignum_tolebytes_p521 : List ℕ → List ℕ
bignum_tolebytes_p521 x = digits_in 256 66 (val x)

unfoldable pub bignum_fromlebytes_p521 : List ℕ → List ℕ
bignum_fromlebytes_p521 bytes = digits 9 (value_in 256 bytes)

-- To and from big-endian form: the bytes in the other order.
unfoldable pub bignum_bigendian : ℕ → List ℕ → List ℕ
bignum_bigendian k x = digits k (value_in 256 (reverse (digits_in 256 (8 * k) (val x))))

-- To and from little-endian form: the bytes as they are.
unfoldable pub bignum_littleendian : ℕ → List ℕ → List ℕ
bignum_littleendian k x = digits k (value_in 256 (digits_in 256 (8 * k) (val x)))

unfoldable pub word_bytereverse : ℕ → ℕ
word_bytereverse a = value_in 256 (reverse (digits_in 256 8 a))
