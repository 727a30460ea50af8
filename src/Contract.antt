-- ===== src/Contract.antt =====
-- include/s2n-bignum.h, the functions that the library offers, by what the comment above each
-- prototype promises: the output of a function as a function of its inputs. An array is a list of
-- digits, and `digits k n` is the k-digit array of a number, truncated to what it holds.
pub mod Digits
pub mod Arith
pub mod Field
pub mod Mont
pub mod Bits
pub mod Bytes
pub mod Lattice
use s2n_bignum.Prelude.{ℕ, zero, suc, ◌+◌, ◌*◌, ◌/◌, ◌%◌, List, [], ◌∷◌}
use s2n_bignum.Word.{word_mod}

-- The lowest `k` digits of a number to a base, lowest first, and the number of a list of digits.
unfoldable pub digits_in : ℕ → ℕ → ℕ → List ℕ
digits_in base zero n = []
digits_in base (suc k) n = n % base ∷ digits_in base k (n / base)

unfoldable pub value_in : ℕ → List ℕ → ℕ
value_in base [] = 0
value_in base (d ∷ ds) = d + base * value_in base ds

abbrev pub digits : ℕ → ℕ → List ℕ
digits k n = digits_in word_mod k n
