-- ===== src/Bignum.antt =====
-- tests/test.c, bignums: arrays of 64-bit digits, lowest first, as lists. A pair `uint64_t k, uint64_t
-- *x` is a size and a list; an array that a function writes is returned.
pub mod Digits
pub mod Split
pub mod Add
pub mod Compare
pub mod Mul
pub mod Div
pub mod Mont
pub mod OddGcd
pub mod Bytes
use s2n_bignum.Prelude.{ℕ, zero, suc, ◌+◌, ◌-◌, ◌*◌, ◌/◌, ◌%◌, ◌^◌, ◌<◌, ◌≡◌}
use s2n_bignum.Prelude.{List, [], ◌∷◌, ltb, leb, ◌==◌, if◌then◌else◌, length, get_or, All, bit_and}
use s2n_bignum.Word.{word_mod, sub64}

-- The number that an array stands for.
unfoldable pub val : List ℕ → ℕ
val [] = 0
val (d ∷ ds) = d + word_mod * val ds

-- An array of `k` elements, each a uint64_t.
abbrev pub IsBignum : ℕ → List ℕ → Type 0
IsBignum k x = (length x ≡ k) × All (λ d. d < word_mod) x

unfoldable pub digit : ℕ → List ℕ → ℕ → ℕ
digit k a i = if ltb i k then get_or a i 0 else 0

-- The 64 bits from bit `b` on; `x << s` loses what does not fit a word.
unfoldable pub bitword : ℕ → List ℕ → ℕ → ℕ
bitword k x b =
    let bhi = b / 2 ^ 6 in
    let blo = bit_and b 63 in
    if blo == 0
    then digit k x bhi
    else (digit k x bhi / 2 ^ blo + digit k x (bhi + 1) * 2 ^ (64 - blo) % word_mod) % word_mod

unfoldable pub bitfield : ℕ → List ℕ → ℕ → ℕ → ℕ
bitfield k x b l =
    let w = bitword k x b in
    if leb 64 l then w else bit_and (bitword k x b) (sub64 (1 * 2 ^ l % word_mod) 1)

-- for (i; left more rounds; ++i) z[i] = digit(n,x,i);
pub copy_loop : ℕ → List ℕ → ℕ → ℕ → List ℕ
copy_loop n x zero i = []
copy_loop n x (suc left) i = digit n x i ∷ copy_loop n x left (suc i)

unfoldable pub reference_copy : ℕ → ℕ → List ℕ → List ℕ
unfolding copy_loop
reference_copy k n x = copy_loop n x k 0

-- for (i = 0; i < k; ++i) z[i] = 0;
unfoldable pub zeros : ℕ → List ℕ
zeros zero = []
zeros (suc k) = 0 ∷ zeros k

-- The first `k` elements of z after z[0] = n and zeros behind it; nothing is written where k is 0.
unfoldable pub reference_of_word : ℕ → ℕ → List ℕ
reference_of_word zero n = []
reference_of_word (suc k) n = n ∷ zeros k
