-- ===== src/Cosim/Text.antt =====
-- riscv/proofs/cosim_runner.c, reading: lines, tokens, decimal words and hexadecimal code. A string
-- is the list of its bytes before the terminating NUL.
pub mod Decimal
pub mod Token
pub mod Hex
use s2n_bignum.Prelude.{
  ℕ, zero, suc, ◌+◌, ◌-◌, ◌*◌, ◌/◌, ◌%◌, ◌^◌, List, [], ◌∷◌, ◌++◌, Option, none, some,
}
use s2n_bignum.Prelude.{
  Bool, true, false, not, ◌&&◌, ◌||◌, ltb, leb, ◌==◌, if◌then◌else◌, length, bit_and, nonzero,
}

-- What `*text` reads: the NUL at the end of the string.
abbrev pub first_byte : List ℕ → ℕ
first_byte [] = 0
first_byte (c ∷ cs) = c

pub string_equal : List ℕ → List ℕ → Bool
string_equal [] right = 0 == first_byte right
string_equal (l ∷ left) [] = l == 0
string_equal (l ∷ left) (r ∷ right) =
    if not (l == 0) && l == r then string_equal left right else l == r

-- `none` is the -1 of the source.
unfoldable pub hex_digit : ℕ → Option ℕ
hex_digit c =
    if leb b'0' c && leb c b'9'
    then some (c - b'0')
    else (if leb b'a' c && leb c b'f'
        then some (c - b'a' + 10)
        else (if leb b'A' c && leb c b'F' then some (c - b'A' + 10) else none))

abbrev pub line_size : ℕ
line_size = 4096

-- What reading a line makes of the input: the line and the input behind it, a failure, at the end of
-- the input or where the line is too long, or a write past the end of input_line.
pub data ReadLine : Type 0 where
  line : List ℕ → List ℕ → ReadLine
  failed : List ℕ → ReadLine
  line_overrun : ReadLine

-- What comes of a write to input_line[i].
unfoldable pub line_write : ℕ → ReadLine → ReadLine
line_write i r = if ltb i line_size then r else line_overrun

-- The input is the list of the characters that semihosting will deliver, and its end a negative
-- one. `done` is input_line[0 .. length).
unfoldable pub read_loop : List ℕ → List ℕ → ReadLine
read_loop [] done = failed []
read_loop (c ∷ input) done =
    let next = read_loop input (done ++ c ∷ []) in
    let skip = read_loop input done in
    if c == 13
    then skip
    else (if c == 10
        then line_write (length done) (line done input)
        else (if leb line_size (length done + 1)
            then line_write 0 (failed input)
            else line_write (length done) next))

unfoldable pub read_line : List ℕ → ReadLine
unfolding read_loop
read_line input = read_loop input []

-- The string that a buffer holds ends at its first NUL.
pub until_nul : List ℕ → List ℕ
until_nul [] = []
until_nul (c ∷ cs) = if c == 0 then [] else c ∷ until_nul cs

unfoldable pub is_blank : ℕ → Bool
is_blank c = c == b' ' || c == 9

pub skip_blanks : List ℕ → List ℕ
skip_blanks [] = []
skip_blanks (c ∷ cs) = if is_blank c then skip_blanks cs else c ∷ cs

-- The token and what follows the blank that ends it.
pub take_token : List ℕ → List ℕ × List ℕ
take_token [] = ([], [])
take_token (c ∷ cs) =
    let (token, rest) = take_token cs in if is_blank c then ([], cs) else (c ∷ token, rest)

-- The next token and the new cursor; `none` at the end of the string.
pub token_or_end : List ℕ → Option (List ℕ × List ℕ)
token_or_end [] = none
token_or_end (c ∷ cs) = some (take_token (c ∷ cs))

unfoldable pub next_token : List ℕ → Option (List ℕ × List ℕ)
unfolding skip_blanks take_token token_or_end is_blank
next_token cursor = token_or_end (skip_blanks cursor)

abbrev pub u32_max : ℕ
u32_max = 2 ^ 32 - 1

pub parse_loop : List ℕ → ℕ → Option ℕ
parse_loop [] value = some value
parse_loop (c ∷ text) value =
    let digit = c - b'0' in
    let rest = parse_loop text ((value * 10 + digit) % 2 ^ 32) in
    if ltb c b'0' || ltb b'9' c
    then none
    else (if ltb ((u32_max - digit) / 10) value then none else rest)

unfoldable pub parse_u32 : List ℕ → Option ℕ
unfolding parse_loop
parse_u32 [] = none
parse_u32 (c ∷ text) = parse_loop (c ∷ text) 0

abbrev pub code_buffer_size : ℕ
code_buffer_size = 512

-- The bytes of the code, the -1 of the source, or a write past the end of code_buffer.
pub data Decoded : Type 0 where
  decoded : List ℕ → Decoded
  malformed : Decoded
  code_overrun : Decoded

abbrev pub then_byte : ℕ → Decoded → Decoded
then_byte b (decoded bytes) = decoded (b ∷ bytes)
then_byte b malformed = malformed
then_byte b code_overrun = code_overrun

-- code_buffer[i / 2] = (high << 4) | low, and what the rounds behind it come to.
unfoldable pub code_write : ℕ → ℕ → Decoded → Decoded
code_write i b rest = if ltb i code_buffer_size then then_byte b rest else code_overrun

-- for (i; i < length; i += 2) { ... }, with the index i / 2.
pub decode_loop : List ℕ → ℕ → Decoded
decode_loop [] i = decoded []
decode_loop (h ∷ []) i = malformed
decode_loop (h ∷ l ∷ hex) i =
    let rest = decode_loop hex (suc i) in
    elim (hex_digit h) [
      | none ↦ malformed
      | some high ↦ elim (hex_digit l) [
        | none ↦ malformed
        | some low ↦ code_write i (high * 2 ^ 4 + low) rest
      ]
    ]

-- The bytes that are written to code_buffer, as many as *code_size says.
unfoldable pub decode_code : List ℕ → Decoded
unfolding decode_loop
decode_code hex =
    if (length hex == 0 || nonzero (bit_and (length hex) 7))
      || ltb code_buffer_size (length hex / 2)
    then malformed
    else decode_loop hex 0
