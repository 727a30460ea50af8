-- ===== src/Cosim/Text/Decimal.antt =====
-- The decimal words of the protocol: what is accepted, and that what is printed reads back.
use s2n_bignum.Prelude.{
  ℕ, zero, suc, ◌+◌, ◌-◌, ◌*◌, ◌/◌, ◌%◌, ◌^◌, ◌≤◌, ◌<◌, ◌≡◌, refl, ap, ◌∙◌, inl, inr, List, [], ◌∷◌,
  Option, none, some, Bool, true, false, ◌&&◌, ltb, leb, if◌then◌else◌, length, arith, Bool-cases,
  ltb→lt, ltb_false→le, Nat-cases,
}
use s2n_bignum.Cosim.Text.{parse_loop, parse_u32}
use s2n_bignum.Cosim.Reply.{digits_loop, u32_digits}
use native.Mathlib.Nat.{pow-suc, pow-zero}

unfoldable pub is_digit : ℕ → Bool
is_digit c = leb b'0' c && leb c b'9'

unfoldable pub is_decimal : List ℕ → Bool
is_decimal [] = true
is_decimal (c ∷ text) = is_digit c && is_decimal text

-- The number that `value` followed by the digits of `text` denotes.
pub decimal_from : ℕ → List ℕ → ℕ
decimal_from value [] = value
decimal_from value (c ∷ text) = decimal_from (value * 10 + (c - b'0')) text

unfoldable pub is_nonempty : List ℕ → Bool
is_nonempty [] = false
is_nonempty (c ∷ text) = true

-- What a decimal word of the protocol means: a nonempty string of digits, of a 32-bit value.
unfoldable pub decimal_word : List ℕ → Option ℕ
decimal_word text =
    if is_nonempty text && is_decimal text && ltb (decimal_from 0 text) (2 ^ 32)
    then some (decimal_from 0 text)
    else none

decimal_from-le : (text : List ℕ) (v : ℕ) → v ≤ decimal_from v text
unfolding decimal_from
decimal_from-le [] v = omega arith
decimal_from-le (c ∷ text) v = omega (arith, decimal_from-le text (v * 10 + (c - b'0')))

parse_loop_lem :
    (text : List ℕ) (v : ℕ)
    → v < 2 ^ 32
    → parse_loop text v ≡ (
        if is_decimal text && ltb (decimal_from v text) (2 ^ 32)
        then some (decimal_from v text)
        else none)
unfolding parse_loop is_decimal decimal_from is_digit
parse_loop_lem [] v h = ground arith
parse_loop_lem (c ∷ text) v h =
    let next = v * 10 + (c - b'0') in
    let ge = decimal_from-le text next in
    elim (Bool-cases (ltb next (2 ^ 32))) [
      | inl small ↦
          let below = ltb→lt next (2 ^ 32) small in
          let rest = parse_loop_lem text next below in
          let same : next % 2 ^ 32 ≡ next = omega arith in
          ground (arith, rest, ap (λ (j : ℕ). parse_loop text j) same)
      | inr big ↦ ground (arith, ltb_false→le next (2 ^ 32) big)
    ]

-- A word is accepted exactly if it is a nonempty string of decimal digits that denotes a number
-- below 2 ^ 32, and that number is the result: the test for overflow never rejects or lets pass
-- anything else.
pub parse_u32_lem : (text : List ℕ) → parse_u32 text ≡ decimal_word text
unfolding parse_u32 decimal_word is_nonempty
parse_u32_lem [] = refl
parse_u32_lem (c ∷ text) = parse_loop_lem (c ∷ text) 0 (omega arith)

decimal_from-cons :
    (d v w : ℕ) (ds : List ℕ)
    → v * 10 + d ≡ w
    → decimal_from v ((b'0' + d) ∷ ds) ≡ decimal_from w ds
unfolding decimal_from
decimal_from-cons d v w ds h =
    let same : v * 10 + (b'0' + d - b'0') ≡ w = omega (arith, h) in
    ap (λ (j : ℕ). decimal_from j ds) same

-- The digits that are found so far, behind what is left of the value.
pub record IsDigits (out : List ℕ) (room value : ℕ) (digits : List ℕ) : Type 0 where
  pub means : decimal_from 0 out ≡ decimal_from value digits
  pub decimal : is_decimal out ≡ true
  pub fits : length out ≤ room + length digits
  pub nonempty : 0 < length out

digit_IsDigit : (v : ℕ) → is_digit (b'0' + v % 10) ≡ true
unfolding is_digit
digit_IsDigit v = ground arith

decimal_cons :
    (v : ℕ) (ds : List ℕ) → is_decimal ds ≡ true → is_decimal ((b'0' + v % 10) ∷ ds) ≡ true
unfolding is_decimal
decimal_cons v ds h = ground (arith, digit_IsDigit v)

last_digit :
    (room v : ℕ) (ds : List ℕ)
    → v < 10
    → is_decimal ds ≡ true
    → (out : List ℕ) × (digits_loop (suc room) v ds ≡ some out) × IsDigits out (suc room) v ds
unfolding digits_loop
last_digit room v ds h dec = (
  (b'0' + v % 10) ∷ ds,
  ground arith,
  record {
    means = decimal_from-cons (v % 10) 0 v ds (omega arith);
    decimal = decimal_cons v ds dec;
    fits = omega arith;
    nonempty = omega arith;
  },
)

digits_loop_lem :
    (room v : ℕ) (ds : List ℕ)
    → v < 10 ^ suc room
    → is_decimal ds ≡ true
    → (out : List ℕ) × (digits_loop (suc room) v ds ≡ some out) × IsDigits out (suc room) v ds
unfolding digits_loop
digits_loop_lem zero v ds h dec =
    last_digit zero v ds (omega (arith, pow-suc 10 0, pow-zero 10)) dec
digits_loop_lem (suc room) v ds h dec = elim (Nat-cases (v / 10)) [
  | inl done ↦ last_digit (suc room) v ds (omega (arith, done)) dec
  | inr more ↦
      let ds' = (b'0' + v % 10) ∷ ds in
      let (out, run, o) =
        digits_loop_lem room (v / 10) ds' (omega (arith, pow-suc 10 (suc room)))
          (decimal_cons v ds dec) in
      (
        out,
        ground (arith, run),
        record {
          means = o.means ∙ decimal_from-cons (v % 10) (v / 10) v ds (omega arith);
          decimal = o.decimal;
          fits = omega (arith, o.fits);
          nonempty = o.nonempty;
        },
      )
]

u32_digits-loop : (v : ℕ) → u32_digits v ≡ digits_loop 10 v []
unfolding u32_digits
u32_digits-loop v = refl

decimal_word-some :
    (text : List ℕ) (v : ℕ)
    → decimal_from 0 text ≡ v
    → v < 2 ^ 32
    → is_decimal text ≡ true
    → 0 < length text
    → decimal_word text ≡ some v
unfolding decimal_word is_nonempty
decimal_word-some [] v e h dec pos = absurd (omega arith)
decimal_word-some (c ∷ text) v e h dec pos = ground (arith, e, dec)

-- Printing a 32-bit value succeeds, within the ten bytes of the array, and what is printed is a
-- nonempty string of at most ten decimal digits that parses back as the value.
pub u32_digits_lem :
    (v : ℕ)
    → v < 2 ^ 32
    → (text : List ℕ) × (u32_digits v ≡ some text)
      × (parse_u32 text ≡ some v)
      × (is_decimal text ≡ true)
      × (0 < length text)
      × (length text ≤ 10)
unfolding is_decimal decimal_from
u32_digits_lem v h =
    let (text, run, o) = digits_loop_lem 9 v [] (omega arith) refl in
    (
      text,
      u32_digits-loop v ∙ run,
      parse_u32_lem text ∙ decimal_word-some text v o.means h o.decimal o.nonempty,
      o.decimal,
      o.nonempty,
      omega (arith, o.fits),
    )
