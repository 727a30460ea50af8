-- ===== src/Primes.antt =====
-- tests/test.c, the constants: the characteristics of the prime fields and the orders of the groups, as
-- arrays of digits. The moduli of include/s2n-bignum.h are these numbers.
pub mod Range
use s2n_bignum.Prelude.{ℕ, List, [], ◌∷◌}

abbrev pub p_25519 : List ℕ
p_25519 = 0xffffffffffffffed ∷ 0xffffffffffffffff ∷ 0xffffffffffffffff ∷ 0x7fffffffffffffff ∷ []

abbrev pub p_256 : List ℕ
p_256 = 0xffffffffffffffff ∷ 0x00000000ffffffff ∷ 0x0000000000000000 ∷ 0xffffffff00000001 ∷ []

abbrev pub p_256k1 : List ℕ
p_256k1 = 0xfffffffefffffc2f ∷ 0xffffffffffffffff ∷ 0xffffffffffffffff ∷ 0xffffffffffffffff ∷ []

abbrev pub p_384 : List ℕ
p_384 =
    0x00000000ffffffff ∷ 0xffffffff00000000 ∷ 0xfffffffffffffffe ∷ 0xffffffffffffffff
    ∷ 0xffffffffffffffff ∷ 0xffffffffffffffff ∷ []

abbrev pub p_521 : List ℕ
p_521 =
    0xffffffffffffffff ∷ 0xffffffffffffffff ∷ 0xffffffffffffffff ∷ 0xffffffffffffffff
    ∷ 0xffffffffffffffff ∷ 0xffffffffffffffff ∷ 0xffffffffffffffff ∷ 0xffffffffffffffff
    ∷ 0x00000000000001ff ∷ []

abbrev pub p_sm2 : List ℕ
p_sm2 = 0xFFFFFFFFFFFFFFFF ∷ 0xFFFFFFFF00000000 ∷ 0xFFFFFFFFFFFFFFFF ∷ 0xFFFFFFFEFFFFFFFF ∷ []

abbrev pub n_256 : List ℕ
n_256 = 0xf3b9cac2fc632551 ∷ 0xbce6faada7179e84 ∷ 0xffffffffffffffff ∷ 0xffffffff00000000 ∷ []

abbrev pub n_256k1 : List ℕ
n_256k1 = 0xbfd25e8cd0364141 ∷ 0xbaaedce6af48a03b ∷ 0xfffffffffffffffe ∷ 0xffffffffffffffff ∷ []

abbrev pub n_384 : List ℕ
n_384 =
    0xecec196accc52973 ∷ 0x581a0db248b0a77a ∷ 0xc7634d81f4372ddf ∷ 0xffffffffffffffff
    ∷ 0xffffffffffffffff ∷ 0xffffffffffffffff ∷ []

abbrev pub n_521 : List ℕ
n_521 =
    0xbb6fb71e91386409 ∷ 0x3bb5c9b8899c47ae ∷ 0x7fcc0148f709a5d0 ∷ 0x51868783bf2f966b
    ∷ 0xfffffffffffffffa ∷ 0xffffffffffffffff ∷ 0xffffffffffffffff ∷ 0xffffffffffffffff
    ∷ 0x00000000000001ff ∷ []

abbrev pub n_25519 : List ℕ
n_25519 = 0x5812631a5cf5d3ed ∷ 0x14def9dea2f79cd6 ∷ 0x0000000000000000 ∷ 0x1000000000000000 ∷ []

abbrev pub m_25519 : List ℕ
m_25519 = 0xc09318d2e7ae9f68 ∷ 0xa6f7cef517bce6b2 ∷ 0x0000000000000000 ∷ 0x8000000000000000 ∷ []

abbrev pub n_sm2 : List ℕ
n_sm2 = 0x53BBF40939D54123 ∷ 0x7203DF6B21C6052B ∷ 0xFFFFFFFFFFFFFFFF ∷ 0xFFFFFFFEFFFFFFFF ∷ []

-- The prime fields, with the number of digits of an element and the modulus.
pub data Field : Type 0 where
  curve25519 : Field
  p256 : Field
  p256k1 : Field
  p384 : Field
  p521 : Field
  sm2 : Field

abbrev pub size : Field → ℕ
size curve25519 = 4
size p256 = 4
size p256k1 = 4
size p384 = 6
size p521 = 9
size sm2 = 4

abbrev pub modulus : Field → List ℕ
modulus curve25519 = p_25519
modulus p256 = p_256
modulus p256k1 = p_256k1
modulus p384 = p_384
modulus p521 = p_521
modulus sm2 = p_sm2

-- The primes for which there are functions in Montgomery form, with the constants i_* of tests/test.c: the
-- negated inverses modulo 2 ^ (64 * size).
pub data MontPrime : Type 0 where
  mont256 : MontPrime
  mont256k1 : MontPrime
  mont384 : MontPrime
  mont521 : MontPrime
  montsm2 : MontPrime

abbrev pub field : MontPrime → Field
field mont256 = p256
field mont256k1 = p256k1
field mont384 = p384
field mont521 = p521
field montsm2 = sm2

abbrev pub i_256 : List ℕ
i_256 = 0x0000000000000001 ∷ 0x0000000100000000 ∷ 0x0000000000000000 ∷ 0xffffffff00000002 ∷ []

abbrev pub i_256k1 : List ℕ
i_256k1 = 0xd838091dd2253531 ∷ 0xbcb223fedc24a059 ∷ 0x9c46c2c295f2b761 ∷ 0xc9bd190515538399 ∷ []

abbrev pub i_384 : List ℕ
i_384 =
    0x0000000100000001 ∷ 0x0000000000000001 ∷ 0xfffffffbfffffffe ∷ 0xfffffffcfffffffa
    ∷ 0x0000000c00000002 ∷ 0x0000001400000014 ∷ []

abbrev pub i_521 : List ℕ
i_521 =
    0x0000000000000001 ∷ 0x0000000000000000 ∷ 0x0000000000000000 ∷ 0x0000000000000000
    ∷ 0x0000000000000000 ∷ 0x0000000000000000 ∷ 0x0000000000000000 ∷ 0x0000000000000000
    ∷ 0x0000000000000200 ∷ []

abbrev pub i_sm2 : List ℕ
i_sm2 = 0x0000000000000001 ∷ 0xFFFFFFFF00000001 ∷ 0xFFFFFFFE00000000 ∷ 0xFFFFFFFC00000001 ∷ []

abbrev pub negated_inverse : MontPrime → List ℕ
negated_inverse mont256 = i_256
negated_inverse mont256k1 = i_256k1
negated_inverse mont384 = i_384
negated_inverse mont521 = i_521
negated_inverse montsm2 = i_sm2
