-- ===== src/Contract/Bytes/Conform.antt =====
-- The byte orders of tests/test.c are what include/s2n-bignum.h promises.
use s2n_bignum.Prelude.{
  ℕ, zero, suc, ◌+◌, ◌*◌, ◌/◌, ◌%◌, ◌^◌, ◌<◌, ◌≡◌, refl, sym, ap, ap₂, ◌∙◌, List, [], ◌∷◌, length,
  All, arith, get_or,
}
use s2n_bignum.Word.{word_mod}
use s2n_bignum.Bignum.{val, IsBignum}
use s2n_bignum.Bignum.Bytes.{
  byte_of, big_word, little_word, bigendian_loop, reference_bigendian, littleendian_loop,
  reference_littleendian, tolebytes_loop, reference_tolebytes,
}
use s2n_bignum.Contract.{digits_in, value_in}
use s2n_bignum.Contract.Arith.Conform.{is_digits}
use s2n_bignum.Contract.Bytes.{bignum_bigendian, bignum_littleendian, bignum_tolebytes}
use s2n_bignum.Contract.Bytes.Laws.{bigendian-bigendian}
use s2n_bignum.Bignum.Digits.{val-lt}
use native.Mathlib.Nat.{mod-eq_of_lt}
use mathlib.Core.List.{reverse_aux}

-- The eight bytes of a digit in front of others.
abbrev eight_bytes : ℕ → List ℕ → List ℕ
eight_bytes d rest =
    byte_of d 0
    ∷ byte_of d 1
    ∷ byte_of d 2
    ∷ byte_of d 3
    ∷ byte_of d 4
    ∷ byte_of d 5
    ∷ byte_of d 6
    ∷ byte_of d 7
    ∷ rest

bytes_cons :
    (n d v : ℕ)
    → d < word_mod
    → digits_in 256 (suc (suc (suc (suc (suc (suc (suc (suc (n))))))))) (d + word_mod * v)
      ≡ eight_bytes d (digits_in 256 n v)
unfolding digits_in
bytes_cons n d v h = ap₂ ◌∷◌ (omega (arith, h)) (
    ap₂ ◌∷◌ (omega (arith, h)) (
      ap₂ ◌∷◌ (omega (arith, h)) (
        ap₂ ◌∷◌ (omega (arith, h)) (
          ap₂ ◌∷◌ (omega (arith, h)) (
            ap₂ ◌∷◌ (omega (arith, h)) (
              ap₂ ◌∷◌ (omega (arith, h))
                (ap₂ ◌∷◌ (omega (arith, h)) (ap (digits_in 256 n) (omega (arith, h))))))))))

big_word_lem :
    (d v : ℕ) (acc : List ℕ)
    → d < word_mod
    → value_in 256 acc ≡ v
    → value_in 256 (reverse_aux (eight_bytes d []) acc) ≡ big_word d + word_mod * v
unfolding value_in big_word
big_word_lem d v acc h e = omega (arith, e)

little_word_lem : (d : ℕ) → d < word_mod → little_word d ≡ d
unfolding little_word
little_word_lem d h = omega (arith, h)

big_word-lt : (d : ℕ) → big_word d < word_mod
unfolding big_word
big_word-lt d = omega arith

-- The bytes of a number of digits, with the digits given.
bytes_of : List ℕ → List ℕ
bytes_of [] = []
bytes_of (d ∷ x) = eight_bytes d (bytes_of x)

eight_more : (n : ℕ) → suc (suc (suc (suc (suc (suc (suc (suc (8 * n)))))))) ≡ 8 * suc n
eight_more n = omega arith

bytes_of_lem :
    (x : List ℕ) → All (λ d. d < word_mod) x → bytes_of x ≡ digits_in 256 (8 * length x) (val x)
unfolding bytes_of val digits_in
bytes_of_lem [] h = refl
bytes_of_lem (d ∷ x) h =
    ap (eight_bytes d) (bytes_of_lem x h.1)
    ∙ sym (bytes_cons (8 * length x) d (val x) h.0)
    ∙ ap (λ (n : ℕ). digits_in 256 n (d + word_mod * val x)) (eight_more (length x))

bigendian_loop_lem :
    (x done : List ℕ) (n : ℕ) (acc : List ℕ)
    → All (λ d. d < word_mod) x
    → IsBignum n done
    → value_in 256 acc ≡ val done
    → IsBignum (length x + n) (bigendian_loop x done)
      × (val (bigendian_loop x done) ≡ value_in 256 (reverse_aux (bytes_of x) acc))
unfolding bigendian_loop bytes_of val
bigendian_loop_lem [] done n acc h ok e = ((ok.0 ∙ omega arith, ok.1), sym e)
bigendian_loop_lem (d ∷ x) done n acc h ok e =
    let (more, total) =
      bigendian_loop_lem x (big_word d ∷ done) (suc n) (reverse_aux (eight_bytes d []) acc) h.1
        (ap suc ok.0, (big_word-lt d, ok.1)) (big_word_lem d (val done) acc h.0 e) in
    ((omega (arith, more.0), more.1), total)

littleendian_loop_lem : (x : List ℕ) → All (λ d. d < word_mod) x → littleendian_loop x ≡ x
unfolding littleendian_loop
littleendian_loop_lem [] h = refl
littleendian_loop_lem (d ∷ x) h = ap₂ ◌∷◌ (little_word_lem d h.0) (littleendian_loop_lem x h.1)

tolebytes_shift :
    (d : ℕ) (x : List ℕ) (left i j : ℕ)
    → j ≡ 8 + i
    → tolebytes_loop (d ∷ x) j left ≡ tolebytes_loop x i left
unfolding tolebytes_loop
tolebytes_shift d x zero i j e = refl
tolebytes_shift d x (suc left) i j e =
    let word : j / 8 ≡ suc (i / 8) = omega (arith, e) in
    let bit : j % 8 ≡ i % 8 = omega (arith, e) in
    ap₂ ◌∷◌ (ap₂ (λ (a b : ℕ). get_or (d ∷ x) a 0 / 2 ^ (8 * b) % 2 ^ 8) word bit)
      (tolebytes_shift d x left (suc i) (suc j) (omega (arith, e)))

tolebytes_lem : (x : List ℕ) → tolebytes_loop x 0 (8 * length x) ≡ bytes_of x
unfolding tolebytes_loop bytes_of
tolebytes_lem [] = refl
tolebytes_lem (d ∷ x) =
    ap (tolebytes_loop (d ∷ x) 0) (sym (eight_more (length x)))
    ∙ ap (eight_bytes d) (tolebytes_shift d x (8 * length x) 0 8 refl ∙ tolebytes_lem x)

-- For a k-digit array, the references that turn it to and from big-endian form, to and from
-- little-endian form, and into 8 * k bytes write what is promised.
pub endian-promised :
    (k : ℕ) (x : List ℕ)
    → IsBignum k x
    → (reference_bigendian x ≡ bignum_bigendian k x)
      × (reference_littleendian x ≡ bignum_littleendian k x)
      × (reference_tolebytes (8 * k) x ≡ bignum_tolebytes k x)
unfolding reference_bigendian reference_littleendian reference_tolebytes bignum_bigendian
    bignum_tolebytes
endian-promised k x (size, range) =
    let start : value_in 256 [] ≡ val [] = unfold value_in val in refl in
    let bytes = bytes_of_lem x range ∙ ap (λ (n : ℕ). digits_in 256 (8 * n) (val x)) size in
    let (ok, total) = bigendian_loop_lem x [] 0 [] range (refl, tt) start in
    let written : IsBignum k (bigendian_loop x []) = (omega (arith, ok.0, size), ok.1) in
    (
      is_digits k (bigendian_loop x []) _ written (
          sym (mod-eq_of_lt (val-lt (bigendian_loop x []) written))
          ∙ ap (λ (t : ℕ). t % word_mod ^ k)
              (total ∙ ap (λ (b : List ℕ). value_in 256 (reverse_aux b [])) bytes)),
      littleendian_loop_lem x range ∙ sym (bigendian-bigendian k x (size, range)).1,
      ap (λ (n : ℕ). tolebytes_loop x 0 (8 * n)) (sym size) ∙ tolebytes_lem x ∙ bytes,
    )
