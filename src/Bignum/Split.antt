-- ===== src/Bignum/Split.antt =====
-- An array split at a digit, as pointer arithmetic `z + i` splits it.
use s2n_bignum.Prelude.{
  ℕ, zero, suc, ◌+◌, ◌-◌, ◌*◌, ◌^◌, ◌≤◌, ◌≡◌, refl, sym, ap, ◌%◌, List, [], ◌∷◌, ◌++◌, arith,
}
use s2n_bignum.Prelude.{length, take, drop}
use s2n_bignum.Prelude.Powers.{pow-suc-mul, mod_unique}
use s2n_bignum.Word.{word_mod}
use s2n_bignum.Bignum.{val, IsBignum}
use s2n_bignum.Bignum.Digits.{val-lt}

pub append-IsBignum :
    {i j : ℕ} (x y : List ℕ) → IsBignum i x → IsBignum j y → IsBignum (i + j) (x ++ y)
append-IsBignum [] y (e, w) (f, v) = (omega arith, v)
append-IsBignum (d ∷ x) y (e, w) (f, v) =
    let rest = append-IsBignum {i = length x} x y (refl, w.1) (f, v) in
    (omega (arith, rest.0), (w.0, rest.1))

pub take-IsBignum : {k : ℕ} (i : ℕ) (x : List ℕ) → i ≤ k → IsBignum k x → IsBignum i (take i x)
take-IsBignum zero x le h = (refl, tt)
take-IsBignum (suc i) [] le (e, w) = absurd (omega arith)
take-IsBignum (suc i) (d ∷ x) le (e, w) =
    let rest = take-IsBignum {k = length x} i x (omega arith) (refl, w.1) in
    (ap suc rest.0, (w.0, rest.1))

pub drop-IsBignum : {k : ℕ} (i : ℕ) (x : List ℕ) → IsBignum k x → IsBignum (k - i) (drop i x)
drop-IsBignum zero x (e, w) = (omega arith, w)
drop-IsBignum (suc i) [] (e, w) = (omega arith, tt)
drop-IsBignum (suc i) (d ∷ x) (e, w) =
    let rest = drop-IsBignum {k = length x} i x (refl, w.1) in (omega (arith, rest.0), rest.1)

pub val-append : (x y : List ℕ) {i : ℕ} → length x ≡ i → val (x ++ y) ≡ val x + word_mod ^ i * val y
unfolding val
val-append [] y {i = zero} e = omega arith
val-append [] y {i = suc i} e = absurd (omega arith)
val-append (d ∷ x) y {i = zero} e = absurd (omega arith)
val-append (d ∷ x) y {i = suc i} e =
    omega (arith, val-append x y {i = i} (omega arith), pow-suc-mul word_mod i (val y))

pub val-split :
    {k : ℕ} (i : ℕ) (x : List ℕ)
    → i ≤ k
    → IsBignum k x
    → val x ≡ val (take i x) + word_mod ^ i * val (drop i x)
unfolding val
val-split zero x le h = omega arith
val-split (suc i) [] le (e, w) = absurd (omega arith)
val-split (suc i) (d ∷ x) le (e, w) = omega (
  arith,
  val-split {k = length x} i x (omega arith) (refl, w.1),
  pow-suc-mul word_mod i (val (drop i x)),
)

-- The low digits of an array are its value modulo what they hold.
pub val-take :
    {n : ℕ} (k : ℕ) (x : List ℕ) → k ≤ n → IsBignum n x → val (take k x) ≡ val x % word_mod ^ k
val-take k x le h = sym (
    mod_unique (val x) (word_mod ^ k) (val (drop k x)) (val (take k x)) (val-split k x le h)
      (val-lt (take k x) (take-IsBignum k x le h)))

pub take-append : (x y : List ℕ) {n : ℕ} → length x ≡ n → take n (x ++ y) ≡ x
take-append [] y {n = zero} e = refl
take-append [] y {n = suc n} e = absurd (omega arith)
take-append (d ∷ x) y {n = zero} e = absurd (omega arith)
take-append (d ∷ x) y {n = suc n} e = ap (λ t. d ∷ t) (take-append x y {n = n} (omega arith))

pub drop-append : (x y : List ℕ) {n : ℕ} → length x ≡ n → drop n (x ++ y) ≡ y
drop-append [] y {n = zero} e = refl
drop-append [] y {n = suc n} e = absurd (omega arith)
drop-append (d ∷ x) y {n = zero} e = absurd (omega arith)
drop-append (d ∷ x) y {n = suc n} e = drop-append x y {n = n} (omega arith)

drop-nil : (n : ℕ) → drop {A = ℕ} n [] ≡ []
drop-nil zero = refl
drop-nil (suc n) = refl

pub drop-drop : (i j n : ℕ) (x : List ℕ) → i + j ≡ n → drop j (drop i x) ≡ drop n x
drop-drop zero j n x e = let e' : j ≡ n = omega arith in ap (λ t. drop t x) e'
drop-drop (suc i) j zero x e = absurd (omega arith)
drop-drop (suc i) j (suc n) [] e = drop-nil j
drop-drop (suc i) j (suc n) (d ∷ x) e = drop-drop i j n x (omega arith)
