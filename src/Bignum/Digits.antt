-- ===== src/Bignum/Digits.antt =====
-- Digits and values: what a loop over the digits 0, 1, …, n - 1 of an array sees of its value.
use s2n_bignum.Prelude.{ℕ, zero, suc, ◌+◌, ◌*◌, ◌/◌, ◌%◌, ◌^◌, ◌≤◌, ◌<◌, ◌≡◌, refl, ap, ap₂}
use s2n_bignum.Prelude.{◌∙◌, List, [], ◌∷◌, length, get_or, All, arith}
use s2n_bignum.Prelude.Powers.{mod_unique, pow-suc-mul}
use s2n_bignum.Word.{word_mod}
use s2n_bignum.Bignum.{val, digit, IsBignum, zeros, reference_of_word, copy_loop, reference_copy}
use Prim.Native.Nat.add
use native.Mathlib.Nat.{
  add-zero, pow-suc, pow-zero, mod-lt, mod-add-div, one-le-pow, zero-mod, mod-eq_of_lt,
  pow-le-pow_right,
}

pub word_pow_pos : (n : ℕ) → 0 < word_mod ^ n
word_pow_pos n = one-le-pow n word_mod (omega arith)

pub digit-lt : {k : ℕ} (x : List ℕ) (i : ℕ) → IsBignum k x → digit k x i < word_mod
unfolding digit
digit-lt x i (h, w) = ground (arith, elements x i w)
  where
    elements : (x : List ℕ) (i : ℕ) → All (λ d. d < word_mod) x → get_or x i 0 < word_mod
    elements [] i w = omega arith
    elements (d ∷ ds) zero w = w.0
    elements (d ∷ ds) (suc i) w = elements ds i w.1

-- The value of the digits i, i + 1, …, i + n - 1.
unfoldable pub span : ℕ → List ℕ → ℕ → ℕ → ℕ
span k x zero i = 0
span k x (suc n) i = digit k x i + word_mod * span k x n (suc i)

span-cons : (k : ℕ) (d : ℕ) (x : List ℕ) (n i : ℕ) → span (suc k) (d ∷ x) n (suc i) ≡ span k x n i
unfolding span digit
span-cons k d x zero i = refl
span-cons k d x (suc n) i = ground (arith, span-cons k d x n (suc i))

span-nil : (n i : ℕ) → span 0 [] n i ≡ 0
unfolding span digit
span-nil zero i = refl
span-nil (suc n) i = ground (arith, span-nil n (suc i))

val-cons_mod :
    (d : ℕ) (x : List ℕ) (n : ℕ)
    → d < word_mod
    → (d + word_mod * val x) % word_mod ^ suc n ≡ d + word_mod * (val x % word_mod ^ n)
val-cons_mod d x n h =
    mod_unique (d + word_mod * val x) (word_mod ^ suc n) (val x / word_mod ^ n) _
      (omega
        (arith, pow-suc-mul word_mod n (val x / word_mod ^ n), mod-add-div (val x) (word_mod ^ n)))
      (omega (arith, pow-suc word_mod n, mod-lt (val x) (word_pow_pos n)))

-- The digits below `n` make up the value modulo 2 ^ (64 * n).
pub span-mod : (x : List ℕ) (n : ℕ) {k : ℕ} → IsBignum k x → span k x n 0 ≡ val x % word_mod ^ n
unfolding span digit val
span-mod [] n (h, w) = rw (← h, span-nil, zero-mod) refl
span-mod (d ∷ x) zero (h, w) = omega arith
span-mod (d ∷ x) (suc n) (h, w) =
    ground (arith, span-cons (length x) d x n 0, span-mod x n (refl, w.1), val-cons_mod d x n w.0)

pub val-lt : {k : ℕ} (x : List ℕ) → IsBignum k x → val x < word_mod ^ k
unfolding val
val-lt {k = zero} [] (h, w) = omega (arith, pow-zero word_mod)
val-lt {k = suc k} [] (h, w) = absurd (omega arith)
val-lt {k = zero} (d ∷ x) (h, w) = absurd (omega arith)
val-lt {k = suc k} (d ∷ x) (h, w) =
    omega (arith, val-lt {k = k} x (omega arith, w.1), pow-suc word_mod k)

-- The bound also holds at any larger size.
pub val-lt_wide : {k n : ℕ} (x : List ℕ) → IsBignum k x → k ≤ n → val x < word_mod ^ n
val-lt_wide {k} {n} x h le =
    omega (arith, val-lt x h, pow-le-pow_right {n = word_mod} (omega arith) {i = k} {j = n} le)

pub span-val : {k : ℕ} (x : List ℕ) → IsBignum k x → span k x k 0 ≡ val x
span-val x h = span-mod x _ h ∙ mod-eq_of_lt (val-lt x h)

-- A copy keeps the value modulo what the target holds.
copy_loop-val : (n : ℕ) (x : List ℕ) (left i : ℕ) → val (copy_loop n x left i) ≡ span n x left i
unfolding copy_loop val span
copy_loop-val n x zero i = refl
copy_loop-val n x (suc left) i = omega (arith, copy_loop-val n x left (suc i))

copy_loop-IsBignum :
    (n : ℕ) (x : List ℕ) (left i : ℕ) → IsBignum n x → IsBignum left (copy_loop n x left i)
unfolding copy_loop
copy_loop-IsBignum n x zero i h = (refl, tt)
copy_loop-IsBignum n x (suc left) i h =
    let rest = copy_loop-IsBignum n x left (suc i) h in (ap suc rest.0, (digit-lt x i h, rest.1))

pub copy-IsBignum : (k n : ℕ) (x : List ℕ) → IsBignum n x → IsBignum k (reference_copy k n x)
unfolding reference_copy
copy-IsBignum k n x h = copy_loop-IsBignum n x k 0 h

pub val-copy :
    (k n : ℕ) (x : List ℕ) → IsBignum n x → val (reference_copy k n x) ≡ val x % word_mod ^ k
unfolding reference_copy
val-copy k n x h = copy_loop-val n x k 0 ∙ span-mod x k h

-- Two arrays of one size with one value are one array.
pub val_injective : {k : ℕ} (x y : List ℕ) → IsBignum k x → IsBignum k y → val x ≡ val y → x ≡ y
unfolding val
val_injective [] [] hx hy e = refl
val_injective [] (d ∷ y) hx hy e = absurd (omega arith)
val_injective (d ∷ x) [] hx hy e = absurd (omega arith)
val_injective (c ∷ x) (d ∷ y) (hx, wx) (hy, wy) e =
    ap₂ ◌∷◌ (omega arith) (val_injective x y (refl, wx.1) (omega arith, wy.1) (omega arith))

pub copy_same : (k : ℕ) (x : List ℕ) → IsBignum k x → reference_copy k k x ≡ x
copy_same k x h =
    val_injective (reference_copy k k x) x (copy-IsBignum k k x h) h
      (val-copy k k x h ∙ mod-eq_of_lt (val-lt x h))

pub zeros-IsBignum : (k : ℕ) → IsBignum k (zeros k)
unfolding zeros
zeros-IsBignum zero = (refl, tt)
zeros-IsBignum (suc k) = (ap suc (zeros-IsBignum k).0, (omega arith, (zeros-IsBignum k).1))

pub val-zeros : (k : ℕ) → val (zeros k) ≡ 0
unfolding zeros val
val-zeros zero = refl
val-zeros (suc k) = omega (arith, val-zeros k)

pub of_word-IsBignum : (k n : ℕ) → n < word_mod → IsBignum k (reference_of_word k n)
unfolding reference_of_word
of_word-IsBignum zero n h = (refl, tt)
of_word-IsBignum (suc k) n h = (ap suc (zeros-IsBignum k).0, (h, (zeros-IsBignum k).1))

pub val-of_word : (k n : ℕ) → n < word_mod → val (reference_of_word k n) ≡ n % word_mod ^ k
unfolding reference_of_word val
val-of_word zero n h = omega arith
val-of_word (suc k) n h = omega (
  arith,
  val-zeros k,
  pow-suc word_mod k,
  word_pow_pos k,
  mod-eq_of_lt {n = n} {m = word_mod ^ suc k} (omega (arith, pow-suc word_mod k, word_pow_pos k)),
)

next_index : (i n : ℕ) → suc i + n ≡ i + suc n
next_index i n = omega arith

-- A span by its highest digit.
span-top :
    (k : ℕ) (x : List ℕ) (n i : ℕ)
    → span k x (suc n) i ≡ span k x n i + word_mod ^ n * digit k x (i + n)
unfolding span
span-top k x zero i = omega (arith, ap (digit k x) (add-zero i))
span-top k x (suc n) i = omega (
  arith,
  span-top k x n (suc i),
  pow-suc-mul word_mod n (digit k x (suc i + n)),
  ap (λ (j : ℕ). word_mod ^ suc n * digit k x j) (next_index i n),
)

pub span-suc :
    (k : ℕ) (x : List ℕ) (n : ℕ) → span k x (suc n) 0 ≡ span k x n 0 + word_mod ^ n * digit k x n
span-suc k x n =
    omega (arith, span-top k x n 0, ap (λ (j : ℕ). word_mod ^ n * digit k x j) (add.zero n))

pub digit_in_range : {k : ℕ} (x : List ℕ) (i : ℕ) → i < k → digit k x i ≡ get_or x i 0
unfolding digit
digit_in_range x i h = ground arith
