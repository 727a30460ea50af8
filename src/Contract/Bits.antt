-- ===== src/Contract/Bits.antt =====
-- include/s2n-bignum.h, comparisons, sizes, bits and shifts.
pub mod Laws
pub mod Conform
use s2n_bignum.Prelude.{
  ℕ, zero, suc, ◌+◌, ◌-◌, ◌*◌, ◌/◌, ◌%◌, ◌^◌, ◌<◌, ◌≡◌, List, ltb, leb, ◌==◌, nonzero, of_bool,
  if◌then◌else◌,
}
use s2n_bignum.Word.{word_mod}
use s2n_bignum.Bignum.{val}
use s2n_bignum.Bignum.Add.{Carried}
use s2n_bignum.Contract.{digits}

-- The digits to a base that a number takes, and the zeros below its lowest other digit; a number that
-- has `most` digits does not reach the limit, except for 0 in the second.
unfoldable pub significant : ℕ → ℕ → ℕ → ℕ
significant base zero n = 0
significant base (suc most) n =
    let rest = significant base most (n / base) in if n == 0 then 0 else suc rest

unfoldable pub trailing : ℕ → ℕ → ℕ → ℕ
trailing base zero n = 0
trailing base (suc most) n =
    let rest = trailing base most (n / base) in if n % base == 0 then suc rest else 0

unfoldable pub bignum_eq : ℕ → List ℕ → ℕ → List ℕ → ℕ
bignum_eq m x n y = of_bool (val x == val y)

unfoldable pub bignum_ge : ℕ → List ℕ → ℕ → List ℕ → ℕ
bignum_ge m x n y = of_bool (leb (val y) (val x))

unfoldable pub bignum_gt : ℕ → List ℕ → ℕ → List ℕ → ℕ
bignum_gt m x n y = of_bool (ltb (val y) (val x))

unfoldable pub bignum_le : ℕ → List ℕ → ℕ → List ℕ → ℕ
bignum_le m x n y = of_bool (leb (val x) (val y))

unfoldable pub bignum_lt : ℕ → List ℕ → ℕ → List ℕ → ℕ
bignum_lt m x n y = of_bool (ltb (val x) (val y))

unfoldable pub bignum_even : ℕ → List ℕ → ℕ
bignum_even k x = of_bool (val x % 2 == 0)

unfoldable pub bignum_odd : ℕ → List ℕ → ℕ
bignum_odd k x = of_bool (val x % 2 == 1)

unfoldable pub bignum_iszero : ℕ → List ℕ → ℕ
bignum_iszero k x = of_bool (val x == 0)

unfoldable pub bignum_nonzero : ℕ → List ℕ → ℕ
bignum_nonzero k x = of_bool (nonzero (val x))

unfoldable pub bignum_digit : ℕ → List ℕ → ℕ → ℕ
bignum_digit k x n = val x / word_mod ^ n % word_mod

-- At most 64 bits are selected.
unfoldable pub bignum_bitfield : ℕ → List ℕ → ℕ → ℕ → ℕ
bignum_bitfield k x n l = val x / 2 ^ n % 2 ^ (if leb 64 l then 64 else l)

unfoldable pub bignum_bitsize : ℕ → List ℕ → ℕ
bignum_bitsize k x = significant 2 (64 * k) (val x)

unfoldable pub bignum_digitsize : ℕ → List ℕ → ℕ
bignum_digitsize k x = significant word_mod k (val x)

unfoldable pub bignum_clz : ℕ → List ℕ → ℕ
bignum_clz k x = 64 * k - significant 2 (64 * k) (val x)

unfoldable pub bignum_cld : ℕ → List ℕ → ℕ
bignum_cld k x = k - significant word_mod k (val x)

-- For 0 these are 64 * k and k.
unfoldable pub bignum_ctz : ℕ → List ℕ → ℕ
bignum_ctz k x = trailing 2 (64 * k) (val x)

unfoldable pub bignum_ctd : ℕ → List ℕ → ℕ
bignum_ctd k x = trailing word_mod k (val x)

-- The return value is the number of bits shifted.
unfoldable pub bignum_normalize : ℕ → List ℕ → Carried
bignum_normalize k z =
    let shift = bignum_clz k z in record { z = digits k (val z * 2 ^ shift); c = shift }

-- The shift count is masked to 6 bits, and the words of x from the k'th on are not read.
unfoldable pub bignum_shl_small : ℕ → ℕ → List ℕ → ℕ → Carried
bignum_shl_small k n x c =
    let shifted = val x % word_mod ^ k * 2 ^ (c % 64) in
    record { z = digits k shifted; c = shifted / word_mod ^ k }

unfoldable pub bignum_shr_small : ℕ → ℕ → List ℕ → ℕ → Carried
bignum_shr_small k n x c = record { z = digits k (val x / 2 ^ (c % 64)); c = val x % 2 ^ (c % 64) }

-- Single words.
unfoldable pub word_clz : ℕ → ℕ
word_clz a = 64 - significant 2 64 a

unfoldable pub word_ctz : ℕ → ℕ
word_ctz a = trailing 2 64 a

unfoldable pub word_max : ℕ → ℕ → ℕ
word_max a b = if leb a b then b else a

unfoldable pub word_min : ℕ → ℕ → ℕ
word_min a b = if leb a b then a else b

-- For an odd word: the output times it is -1 modulo 2 ^ 64.
abbrev pub WordNegmodinv : ℕ → ℕ → Type 0
WordNegmodinv a z = (z < word_mod) × ((a * z + 1) % word_mod ≡ 0)

-- The bits that are set among the lowest `most`.
unfoldable pub set_bits : ℕ → ℕ → ℕ
set_bits zero n = 0
set_bits (suc most) n = n % 2 + set_bits most (n / 2)

unfoldable pub word_popcount : ℕ → ℕ
word_popcount a = set_bits 64 a

-- For a word with its top bit set; ceil(2 ^ 128 / a) is (2 ^ 128 + a - 1) / a.
unfoldable pub word_recip : ℕ → ℕ
word_recip a = (2 ^ 128 + a - 1) / a - 1 - 2 ^ 64
