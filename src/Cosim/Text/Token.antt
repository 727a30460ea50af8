-- ===== src/Cosim/Text/Token.antt =====
-- The tokens of a line: a decimal word between blanks is taken whole, and words parse one by one.
use s2n_bignum.Prelude.{
  ℕ, zero, suc, ◌<◌, ◌≡◌, refl, ap, ◌∙◌, List, [], ◌∷◌, ◌++◌, some, Bool, true, false, not, ◌&&◌,
  ◌==◌, if◌then◌else◌, length, arith, ◌↔◌, All, ap₂, drop,
}
use s2n_bignum.Cosim.Text.{
  is_blank, skip_blanks, take_token, token_or_end, next_token, string_equal, first_byte,
}
use s2n_bignum.Cosim.Text.Decimal.{is_digit, is_decimal}

abbrev pub blank : ℕ
blank = b' '

digit-not_blank : (c : ℕ) → is_digit c ≡ true → is_blank c ≡ false
unfolding is_digit is_blank
digit-not_blank c h = ground arith

take_token-cons :
    (c : ℕ) (cs word rest : List ℕ)
    → is_blank c ≡ false
    → take_token cs ≡ (word, rest)
    → take_token (c ∷ cs) ≡ (c ∷ word, rest)
unfolding take_token
take_token-cons c cs word rest h e =
    ap {B = List ℕ × List ℕ}
      (λ b. if b then ([], cs) else (c ∷ (take_token cs).0, (take_token cs).1)) h
    ∙ ap (λ (t : List ℕ × List ℕ). (c ∷ t.0, t.1)) e

and_left : (a b : Bool) → a && b ≡ true → a ≡ true
and_left a b h = ground arith

and_right : (a b : Bool) → a && b ≡ true → b ≡ true
and_right a b h = ground arith

-- A blank ends a decimal word, and the end of the string does.
pub take_token-blank :
    (word rest : List ℕ) → is_decimal word ≡ true → take_token (word ++ blank ∷ rest) ≡ (word, rest)
unfolding take_token is_decimal is_blank
take_token-blank [] rest h = refl
take_token-blank (c ∷ word) rest h =
    let digit = digit-not_blank c (and_left (is_digit c) (is_decimal word) h) in
    take_token-cons c (word ++ blank ∷ rest) word rest digit
      (take_token-blank word rest (and_right (is_digit c) (is_decimal word) h))

pub take_token-end : (word : List ℕ) → is_decimal word ≡ true → take_token word ≡ (word, [])
unfolding take_token is_decimal
take_token-end [] h = refl
take_token-end (c ∷ word) h =
    let digit = digit-not_blank c (and_left (is_digit c) (is_decimal word) h) in
    take_token-cons c word word [] digit
      (take_token-end word (and_right (is_digit c) (is_decimal word) h))

-- What follows a word in a list of `n` words: a blank and the next word, or nothing.
abbrev pub Spaced : ℕ → List ℕ → Type 0
Spaced zero text = text ≡ []
Spaced (suc n) text = (rest : List ℕ) × (text ≡ blank ∷ rest)

pub next_token-blank : (text : List ℕ) → next_token (blank ∷ text) ≡ next_token text
unfolding next_token skip_blanks is_blank
next_token-blank text = refl

pub next_token-word :
    (word text : List ℕ)
    → is_decimal word ≡ true
    → 0 < length word
    → next_token (word ++ text) ≡ some (take_token (word ++ text))
unfolding next_token skip_blanks is_decimal token_or_end
next_token-word [] text h pos = absurd (omega arith)
next_token-word (c ∷ word) text h pos =
    let digit = digit-not_blank c (and_left (is_digit c) (is_decimal word) h) in
    ap (λ (b : Bool). token_or_end (if b then skip_blanks (word ++ text) else c ∷ (word ++ text)))
      digit

abbrev pub IsCharacter : ℕ → Type 0
IsCharacter c = 0 < c

both_equal :
    (l r : ℕ) (rest : Bool)
    → 0 < l
    → (if not (l == 0) && l == r then rest else l == r) ≡ true
    → (l ≡ r) × (rest ≡ true)
both_equal l r rest pos h = ground (arith, h)

equal_both :
    (l r : ℕ) (rest : Bool)
    → 0 < l
    → l ≡ r
    → rest ≡ true
    → (if not (l == 0) && l == r then rest else l == r) ≡ true
equal_both l r rest pos q h = ground (arith, q, h)

-- The comparison of commands decides whether two strings are the same.
pub string_equal_lem :
    (left right : List ℕ)
    → All IsCharacter left
    → All IsCharacter right
    → (string_equal left right ≡ true) ↔ (left ≡ right)
unfolding string_equal
string_equal_lem [] [] hl hr = (λ h. refl, λ e. refl)
string_equal_lem [] (r ∷ right) hl (hr, hrs) = (
  λ h. absurd (ground (arith, h, hr)),
  λ e. absurd (omega (arith, hr, ap (λ (t : List ℕ). first_byte t) e)),
)
string_equal_lem (l ∷ left) [] (hl, hls) hr = (
  λ h. absurd (ground (arith, h, hl)),
  λ e. absurd (omega (arith, hl, ap (λ (t : List ℕ). first_byte t) e)),
)
string_equal_lem (l ∷ left) (r ∷ right) (hl, hls) (hr, hrs) =
    let rest = string_equal_lem left right hls hrs in
    (
      λ h.
          let (q, e) = both_equal l r (string_equal left right) hl h in
          ap₂ (λ (c : ℕ) (t : List ℕ). c ∷ t) q (rest.0 e),
      λ e.
          equal_both l r (string_equal left right) hl (ap (λ (t : List ℕ). first_byte t) e)
            (rest.1 (ap (λ (t : List ℕ). drop 1 t) e)),
    )
