-- ===== src/Contract/Bytes/Laws.antt =====
-- Bytes and digits undo one another, in both byte orders.
use s2n_bignum.Prelude.{
  ℕ, zero, suc, ◌+◌, ◌*◌, ◌^◌, ◌<◌, ◌≡◌, refl, sym, ap, ◌∙◌, List, [], ◌∷◌, length, All, arith,
}
use s2n_bignum.Prelude.Powers.{pow-add}
use s2n_bignum.Word.{word_mod}
use s2n_bignum.Bignum.{val, IsBignum}
use s2n_bignum.Bignum.Digits.{val-lt}
use s2n_bignum.Contract.{digits, digits_in, value_in}
use s2n_bignum.Contract.Digits.{value-digits, digits-value, digits-range, length-digits, val-digits}
use s2n_bignum.Contract.Arith.Conform.{is_digits}
use s2n_bignum.Contract.Bytes.{
  bignum_tolebytes, bignum_tobebytes, bignum_fromlebytes, bignum_frombebytes, bignum_tolebytes_p521,
  bignum_fromlebytes_p521, bignum_bigendian, bignum_littleendian, word_bytereverse,
}
use native.Mathlib.Nat.{mod-eq_of_lt, pow-suc, mod-lt, one-le-pow}
use mathlib.Core.List.{reverse, reverse_aux, reverse-reverse}

-- An array of `n` bytes.
abbrev pub IsBytes : ℕ → List ℕ → Type 0
IsBytes n bytes = (length bytes ≡ n) × All (λ d. d < 256) bytes

pub byte_power : (k : ℕ) → 256 ^ (8 * k) ≡ word_mod ^ k
byte_power zero = refl
byte_power (suc k) =
    ap (λ (t : ℕ). 256 ^ t) (omega arith)
    ∙ pow-add 256 8 (8 * k)
    ∙ ap (λ (t : ℕ). word_mod * t) (byte_power k)
    ∙ omega (arith, pow-suc word_mod k)

reverse_aux-IsBytes :
    (m n : ℕ) (xs ys : List ℕ) → IsBytes m xs → IsBytes n ys → IsBytes (m + n) (reverse_aux xs ys)
reverse_aux-IsBytes m n [] ys (e, h) (f, k) = (omega (arith, e, f), k)
reverse_aux-IsBytes m n (x ∷ xs) ys (e, h) (f, k) =
    let rest =
      reverse_aux-IsBytes (length xs) (suc n) xs (x ∷ ys) (refl, h.1) (ap suc f, (h.0, k)) in
    (rest.0 ∙ omega (arith, e), rest.1)

reverse-IsBytes : (n : ℕ) (bytes : List ℕ) → IsBytes n bytes → IsBytes n (reverse bytes)
reverse-IsBytes n bytes h =
    let (e, r) = reverse_aux-IsBytes n 0 bytes [] h (refl, tt) in (e ∙ omega arith, r)

digits-IsBytes : (n v : ℕ) → IsBytes n (digits_in 256 n v)
digits-IsBytes n v = (length-digits 256 n v, digits-range 256 (omega arith) n v)

-- The bytes of the number of `n` bytes.
bytes_again :
    (n : ℕ) (bytes : List ℕ) → IsBytes n bytes → digits_in 256 n (value_in 256 bytes) ≡ bytes
bytes_again n bytes (e, h) =
    ap (λ (m : ℕ). digits_in 256 m (value_in 256 bytes)) (sym e)
    ∙ digits-value 256 (omega arith) bytes h

value-lt : (n : ℕ) (bytes : List ℕ) → IsBytes n bytes → value_in 256 bytes < 256 ^ n
value-lt n bytes h = omega (
  arith,
  ap (λ (t : List ℕ). value_in 256 t) (bytes_again n bytes h),
  value-digits 256 (omega arith) n (value_in 256 bytes),
  mod-lt (value_in 256 bytes) {m = 256 ^ n} (one-le-pow n 256 (omega arith)),
)

module _ (k : ℕ) where
  value_again : (x : List ℕ) → IsBignum k x → value_in 256 (digits_in 256 (8 * k) (val x)) ≡ val x
  value_again x h =
      value-digits 256 (omega arith) (8 * k) (val x)
      ∙ mod-eq_of_lt (omega (arith, val-lt x h, byte_power k))

  array_again : (x : List ℕ) → IsBignum k x → digits k (val x) ≡ x
  array_again x h = sym (is_digits k x (val x) h (sym (mod-eq_of_lt (val-lt x h))))

  digits_of_bytes :
      (bytes : List ℕ)
      → IsBytes (8 * k) bytes
      → val (digits k (value_in 256 bytes)) ≡ value_in 256 bytes
  digits_of_bytes bytes h =
      val-digits k (value_in 256 bytes)
      ∙ mod-eq_of_lt (omega (arith, value-lt (8 * k) bytes h, byte_power k))

  -- A k-digit array is read back from its little-endian and from its big-endian bytes, 8 * k bytes are
  -- written back from the array that either function reads, and the big-endian bytes are the
  -- little-endian ones of the array with its byte order changed.
  pub frombytes-tobytes :
      (x bytes : List ℕ)
      → IsBignum k x
      → IsBytes (8 * k) bytes
      → (bignum_fromlebytes k (bignum_tolebytes k x) ≡ x)
        × (bignum_frombebytes k (bignum_tobebytes k x) ≡ x)
        × (bignum_tolebytes k (bignum_fromlebytes k bytes) ≡ bytes)
        × (bignum_tobebytes k (bignum_frombebytes k bytes) ≡ bytes)
        × (bignum_tolebytes k (bignum_bigendian k x) ≡ bignum_tobebytes k x)
  unfolding bignum_fromlebytes bignum_tolebytes bignum_frombebytes bignum_tobebytes bignum_bigendian
  frombytes-tobytes x bytes hx hb =
      let again = ap (λ (t : ℕ). digits k t) (value_again x hx) ∙ array_again x hx in
      let back = digits-IsBytes (8 * k) (val x) in
      let written = λ (bs : List ℕ) (h : IsBytes (8 * k) bs).
        ap (λ (t : ℕ). digits_in 256 (8 * k) t) (digits_of_bytes bs h) ∙ bytes_again (8 * k) bs h in
      (
        again,
        ap (λ (t : List ℕ). digits k (value_in 256 t)) (reverse-reverse _) ∙ again,
        written bytes hb,
        ap reverse (written (reverse bytes) (reverse-IsBytes (8 * k) bytes hb))
            ∙ reverse-reverse bytes,
        written _ (reverse-IsBytes (8 * k) _ back),
      )

  -- Changing the byte order of a k-digit array twice gives it back, and changing nothing on
  -- little-endian machines keeps it.
  pub bigendian-bigendian :
      (x : List ℕ)
      → IsBignum k x
      → (bignum_bigendian k (bignum_bigendian k x) ≡ x) × (bignum_littleendian k x ≡ x)
  unfolding bignum_bigendian bignum_littleendian
  bigendian-bigendian x hx =
      let back = digits-IsBytes (8 * k) (val x) in
      let turned = reverse-IsBytes (8 * k) _ back in
      let again = ap (λ (t : ℕ). digits k t) (value_again x hx) ∙ array_again x hx in
      (
        ap (λ (t : ℕ). digits k (value_in 256 (reverse (digits_in 256 (8 * k) t))))
              (digits_of_bytes _ turned)
            ∙ ap (λ (t : List ℕ). digits k (value_in 256 (reverse t)))
                (bytes_again (8 * k) _ turned)
            ∙ ap (λ (t : List ℕ). digits k (value_in 256 t)) (reverse-reverse _)
            ∙ again,
        again,
      )

-- A 9-digit array with a value below 2 ^ 528 is read back from its 66 bytes, and reversing the bytes of
-- a word twice gives it back.
pub fromlebytes_p521-tolebytes_p521 :
    (x : List ℕ) (a : ℕ)
    → IsBignum 9 x
    → val x < 2 ^ 528
    → a < word_mod
    → (bignum_fromlebytes_p521 (bignum_tolebytes_p521 x) ≡ x)
      × (word_bytereverse (word_bytereverse a) ≡ a)
unfolding bignum_fromlebytes_p521 bignum_tolebytes_p521 word_bytereverse
fromlebytes_p521-tolebytes_p521 x a hx small ha =
    let back = digits-IsBytes 8 a in
    let turned = reverse-IsBytes 8 _ back in
    (
      ap (λ (t : ℕ). digits 9 t) (value-digits 256 (omega arith) 66 (val x) ∙ mod-eq_of_lt small)
          ∙ array_again 9 x hx,
      ap (λ (t : List ℕ). value_in 256 (reverse t)) (bytes_again 8 _ turned)
          ∙ ap (λ (t : List ℕ). value_in 256 t) (reverse-reverse _)
          ∙ value-digits 256 (omega arith) 8 a
          ∙ mod-eq_of_lt ha,
    )
