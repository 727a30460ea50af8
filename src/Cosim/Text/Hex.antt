-- ===== src/Cosim/Text/Hex.antt =====
-- The hexadecimal code of a request: its bytes stay inside the buffer, and code in lower case decodes to
-- itself.
use s2n_bignum.Prelude.{
  ℕ, suc, ◌+◌, ◌-◌, ◌*◌, ◌/◌, ◌%◌, ◌^◌, ◌≤◌, ◌<◌, ◌≡◌, refl, ap, ◌∙◌, List, [], ◌∷◌, Option, none,
  some, Bool, false, ◌||◌, ltb, ◌==◌, if◌then◌else◌, length, arith, All, bit_and, nonzero, lt→ltb,
  Bool-cases, inl, inr,
}
use s2n_bignum.Prelude.Bits.{bit_and-mask}
use s2n_bignum.Cosim.Text.{
  hex_digit, Decoded, decoded, malformed, code_overrun, then_byte, code_write, decode_loop,
  decode_code, code_buffer_size,
}

abbrev pub IsByte : ℕ → Type 0
IsByte b = b < 256

unfoldable pub hex_char : ℕ → ℕ
hex_char d = if ltb d 10 then b'0' + d else b'a' + (d - 10)

pub hex_text : List ℕ → List ℕ
hex_text [] = []
hex_text (b ∷ bytes) = hex_char (b / 16) ∷ hex_char (b % 16) ∷ hex_text bytes

hex_digit-hex_char : (d : ℕ) → d < 16 → hex_digit (hex_char d) ≡ some d
unfolding hex_digit hex_char
hex_digit-hex_char d h = ground arith

hex_digit-lt : (c d : ℕ) → hex_digit c ≡ some d → d < 16
unfolding hex_digit
hex_digit-lt c d h = ground (arith, h)

length-hex_text : (bytes : List ℕ) → length (hex_text bytes) ≡ 2 * length bytes
unfolding hex_text
length-hex_text [] = refl
length-hex_text (b ∷ bytes) = omega (arith, length-hex_text bytes)

decode_loop-cons :
    (h l high low : ℕ) (hex bytes : List ℕ) (i : ℕ)
    → hex_digit h ≡ some high
    → hex_digit l ≡ some low
    → i < code_buffer_size
    → decode_loop hex (suc i) ≡ decoded bytes
    → decode_loop (h ∷ l ∷ hex) i ≡ decoded ((high * 2 ^ 4 + low) ∷ bytes)
unfolding decode_loop code_write
decode_loop-cons h l high low hex bytes i eh el room e = ground (arith, eh, el, e, room)

decode_loop-hex_text :
    (bytes : List ℕ) (i : ℕ)
    → All IsByte bytes
    → i + length bytes ≤ code_buffer_size
    → decode_loop (hex_text bytes) i ≡ decoded bytes
unfolding decode_loop hex_text
decode_loop-hex_text [] i h room = refl
decode_loop-hex_text (b ∷ bytes) i (hb, hs) room =
    let high = hex_digit-hex_char (b / 16) (omega arith) in
    let low = hex_digit-hex_char (b % 16) (omega arith) in
    let back : b / 16 * 2 ^ 4 + b % 16 ≡ b = omega arith in
    decode_loop-cons (hex_char (b / 16)) (hex_char (b % 16)) (b / 16) (b % 16) (hex_text bytes)
      bytes i high low (omega arith) (decode_loop-hex_text bytes (suc i) hs (omega arith))
    ∙ ap (λ (j : ℕ). decoded (j ∷ bytes)) back

-- The lengths that `decode_code` refuses.
abbrev refused : ℕ → Bool
refused n = (n == 0 || nonzero (bit_and n 7)) || ltb code_buffer_size (n / 2)

refused-false : (n : ℕ) → 0 < n → n % 8 ≡ 0 → n / 2 ≤ code_buffer_size → refused n ≡ false
refused-false n pos multiple fits =
    let mask : bit_and n 7 ≡ 0 = bit_and-mask 3 n ∙ multiple in ground (arith, mask)

accepted_length : (n : ℕ) → refused n ≡ false → 2 * 0 + n ≤ 1025
accepted_length n h = ground (arith, h)

-- Code of at least one and at most 128 instructions, written in hexadecimal, decodes to itself.
pub decode_code-hex_text :
    (bytes : List ℕ)
    → All IsByte bytes
    → 0 < length bytes
    → length bytes % 4 ≡ 0
    → length bytes ≤ code_buffer_size
    → decode_code (hex_text bytes) ≡ decoded bytes
unfolding decode_code
decode_code-hex_text bytes h pos four fits =
    let count = length-hex_text bytes in
    let multiple : length (hex_text bytes) % 8 ≡ 0 = omega (arith, count, four) in
    let test =
      refused-false (length (hex_text bytes)) (omega (arith, count, pos)) multiple
        (omega (arith, count, fits)) in
    ap (λ (b : Bool). if b then malformed else decode_loop (hex_text bytes) 0) test
    ∙ decode_loop-hex_text bytes 0 h (omega (arith, fits))

-- A result that is not a write past the buffer.
abbrev pub StaysInside : Decoded → Type 0
StaysInside (decoded bytes) = Unit {0}
StaysInside malformed = Unit
StaysInside code_overrun = ⊥

then_byte-StaysInside : (b : ℕ) (r : Decoded) → StaysInside r → StaysInside (then_byte b r)
then_byte-StaysInside b (decoded bytes) h = tt
then_byte-StaysInside b malformed h = tt
then_byte-StaysInside b code_overrun h = h

code_write-StaysInside :
    (i b : ℕ) (r : Decoded) → i < code_buffer_size → StaysInside r → StaysInside (code_write i b r)
unfolding code_write
code_write-StaysInside i b r room h =
    rw (lt→ltb i code_buffer_size room) (then_byte-StaysInside b r h)

option-StaysInside :
    (o : Option ℕ) (f : ℕ → Decoded)
    → ((d : ℕ) → StaysInside (f d))
    → StaysInside (elim o as (λ x. Decoded) [ none ↦ malformed | some d ↦ f d ])
option-StaysInside none f h = tt
option-StaysInside (some d) f h = h d

decode_loop-StaysInside :
    (hex : List ℕ) (i : ℕ) → 2 * i + length hex ≤ 1025 → StaysInside (decode_loop hex i)
unfolding decode_loop
decode_loop-StaysInside [] i room = tt
decode_loop-StaysInside (h ∷ []) i room = tt
decode_loop-StaysInside (h ∷ l ∷ hex) i room =
    let rest = decode_loop hex (suc i) in
    option-StaysInside (hex_digit h)
      (λ high. elim (hex_digit l) as (λ x. Decoded) [
        | none ↦ malformed
        | some low ↦ code_write i (high * 2 ^ 4 + low) rest
      ])
      (λ high.
        option-StaysInside (hex_digit l) (λ low. code_write i (high * 2 ^ 4 + low) rest)
          (λ low.
            code_write-StaysInside i (high * 2 ^ 4 + low) rest (omega arith)
              (decode_loop-StaysInside hex (suc i) (omega arith))))

-- Whatever the text, no byte is written past the end of code_buffer.
pub decode_code-StaysInside : (hex : List ℕ) → StaysInside (decode_code hex)
unfolding decode_code
decode_code-StaysInside hex = elim (Bool-cases (refused (length hex))) [
  | inl big ↦ rw big tt
  | inr fits ↦ rw fits (decode_loop-StaysInside hex 0 (accepted_length (length hex) fits))
]
