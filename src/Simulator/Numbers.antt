-- ===== src/Simulator/Numbers.antt =====
-- What the simulators use of the C library: strtoul with base 0, and printf of a uint64_t. A string is
-- the list of its bytes before the NUL.
use s2n_bignum.Prelude.{
  ℕ, zero, suc, ◌+◌, ◌-◌, ◌*◌, ◌/◌, ◌%◌, ◌^◌, ◌≤◌, ◌<◌, ◌≡◌, refl, sym, ap, ◌∙◌, List, [], ◌∷◌,
  Bool, true, false, ◌&&◌, ◌||◌, ◌==◌, ltb, leb, if◌then◌else◌, arith, Nat-cases, inl, inr, All,
  lt→ltb, length, not,
}
use mathlib.Core.Path.{subst}
use native.Mathlib.Nat.{pow-suc, pow-zero}

unfoldable pub is_space : ℕ → Bool
is_space c = (leb 9 c && leb c 13) || c == 32

unfoldable pub skip_space : List ℕ → List ℕ
skip_space [] = []
skip_space (c ∷ text) = let rest = skip_space text in if is_space c then rest else c ∷ text

-- Digits up to base 36; what is no digit has a value above.
unfoldable pub digit_value : ℕ → ℕ
digit_value c =
    if leb b'0' c && leb c b'9'
    then c - b'0'
    else (if leb b'a' c && leb c b'z'
        then c - b'a' + 10
        else (if leb b'A' c && leb c b'Z' then c - b'A' + 10 else 36))

unfoldable pub accumulate : ℕ → ℕ → List ℕ → ℕ
accumulate base value [] = value
accumulate base value (c ∷ text) =
    let more = accumulate base (value * base + digit_value c) text in
    if ltb (digit_value c) base then more else value

unfoldable pub starts_hex : List ℕ → Bool
starts_hex [] = false
starts_hex (c ∷ text) = ltb (digit_value c) 16

-- Behind a 0: hexadecimal after an x with a digit, else octal.
unfoldable pub prefixed : List ℕ → ℕ
prefixed [] = 0
prefixed (c ∷ text) =
    if (c == b'x' || c == b'X') && starts_hex text
    then accumulate 16 0 text
    else accumulate 8 0 (c ∷ text)

unfoldable pub based : List ℕ → ℕ
based [] = 0
based (c ∷ text) = if c == b'0' then prefixed text else accumulate 10 0 (c ∷ text)

-- A value out of range is ULONG_MAX, with or without a sign.
unfoldable pub negated : ℕ → ℕ
negated value = if ltb value (2 ^ 64) then (2 ^ 64 - value) % 2 ^ 64 else 2 ^ 64 - 1

unfoldable pub limited : ℕ → ℕ
limited value = if ltb value (2 ^ 64) then value else 2 ^ 64 - 1

unfoldable pub signed : List ℕ → ℕ
signed [] = 0
signed (c ∷ text) =
    if c == b'-'
    then negated (based text)
    else (if c == b'+' then limited (based text) else limited (based (c ∷ text)))

unfoldable pub strtoul : List ℕ → ℕ
strtoul text = signed (skip_space text)

-- The decimal digits; 20 are enough for a uint64_t.
unfoldable pub print_loop : ℕ → ℕ → List ℕ → List ℕ
print_loop zero value found = found
print_loop (suc room) value found =
    let next = (b'0' + value % 10) ∷ found in
    let more = print_loop room (value / 10) next in if value / 10 == 0 then next else more

unfoldable pub printf_u64 : ℕ → List ℕ
printf_u64 value = print_loop 20 value []

-- A decimal digit.
abbrev pub IsDigit : ℕ → Type 0
IsDigit c = (b'0' ≤ c) × (c ≤ b'9')

digit_value-IsDigit : (c : ℕ) → IsDigit c → digit_value c ≡ c - b'0'
unfolding digit_value
digit_value-IsDigit c h = ground (arith, h)

accumulate-cons :
    (v d w : ℕ) (text : List ℕ)
    → d < 10
    → v * 10 + d ≡ w
    → accumulate 10 v ((b'0' + d) ∷ text) ≡ accumulate 10 w text
unfolding accumulate
accumulate-cons v d w text h e =
    let same : digit_value (b'0' + d) ≡ d =
      digit_value-IsDigit (b'0' + d) (omega arith) ∙ omega arith in
    rw (same, lt→ltb d 10 h) (ap (λ (j : ℕ). accumulate 10 j text) e)

unfoldable pub starts_nonzero : List ℕ → Bool
starts_nonzero [] = false
starts_nonzero (c ∷ text) = not (c == b'0')

-- What is printed of a value, before digits that are found already: digits, without a leading 0
-- unless the value is 0.
pub record Printed (value : ℕ) (found out : List ℕ) : Type 0 where
  pub means : accumulate 10 0 out ≡ accumulate 10 value found
  pub decimal : All IsDigit out
  pub nonzero_first : 0 < value → starts_nonzero out ≡ true
  pub nonempty : 0 < length out

pos-not_zero : (n : ℕ) → 0 < n → (n == 0) ≡ false
pos-not_zero n h = ground arith

last_digit :
    (room v : ℕ) (found : List ℕ)
    → v < 10
    → All IsDigit found
    → Printed v found (print_loop (suc room) v found)
unfolding print_loop
last_digit room v found h digits =
    let done : v / 10 ≡ 0 = omega arith in
    let out : print_loop (suc room) v found ≡ (b'0' + v % 10) ∷ found = rw done refl in
    subst (λ (t : List ℕ). Printed v found t) (sym out)
      (record {
        means = accumulate-cons 0 (v % 10) v found (omega arith) (omega arith);
        decimal = ((omega arith, omega arith), digits);
        nonzero_first = λ pos. unfold starts_nonzero in ground (arith, pos);
        nonempty = omega arith;
      })

print_loop_lem :
    (room v : ℕ) (found : List ℕ)
    → v < 10 ^ suc room
    → All IsDigit found
    → Printed v found (print_loop (suc room) v found)
unfolding print_loop
print_loop_lem zero v found h digits =
    last_digit zero v found (omega (arith, pow-suc 10 0, pow-zero 10)) digits
print_loop_lem (suc room) v found h digits = elim (Nat-cases (v / 10)) [
  | inl done ↦ last_digit (suc room) v found (omega (arith, done)) digits
  | inr more ↦
      let next = (b'0' + v % 10) ∷ found in
      let o =
        print_loop_lem room (v / 10) next (omega (arith, pow-suc 10 (suc room)))
          ((omega arith, omega arith), digits) in
      let same : print_loop (suc (suc room)) v found ≡ print_loop (suc room) (v / 10) next =
        rw (pos-not_zero (v / 10) more) refl in
      subst (λ (t : List ℕ). Printed v found t) (sym same)
        (record {
          means = o.means ∙ accumulate-cons (v / 10) (v % 10) v found (omega arith) (omega arith);
          decimal = o.decimal;
          nonzero_first = λ pos. o.nonzero_first more;
          nonempty = o.nonempty;
        })
]

zero_back : strtoul (print_loop 20 0 []) ≡ 0
unfolding strtoul skip_space signed based limited is_space print_loop prefixed
zero_back = refl

accumulate-nil : (v : ℕ) → accumulate 10 v [] ≡ v
unfolding accumulate
accumulate-nil v = refl

read_back : (v : ℕ) (out : List ℕ) → v < 2 ^ 64 → 0 < v → Printed v [] out → strtoul out ≡ v
unfolding strtoul skip_space signed based limited is_space starts_nonzero
read_back v [] h pos o = absurd (omega (arith, o.nonempty))
read_back v (c ∷ rest) h pos o =
    ground (arith, o.means ∙ accumulate-nil v, o.decimal.0, o.nonzero_first pos)

-- What `printf` writes of a 64-bit value is a nonempty string of digits that `strtoul` reads back: the
-- leading digit of a value that is not 0 is not 0, so that it is not taken for octal.
pub strtoul-printf_u64 :
    (v : ℕ)
    → v < 2 ^ 64
    → (strtoul (printf_u64 v) ≡ v) × All IsDigit (printf_u64 v) × (0 < length (printf_u64 v))
unfolding printf_u64
strtoul-printf_u64 v h =
    let o = print_loop_lem 19 v [] (omega arith) tt in
    (
      elim (Nat-cases v) [
        | inl e ↦ ap (λ (t : ℕ). strtoul (print_loop 20 t [])) e ∙ zero_back ∙ sym e
        | inr pos ↦ read_back v (print_loop 20 v []) h pos o
      ],
      o.decimal,
      o.nonempty,
    )
