-- ===== src/Cosim/Reply.antt =====
-- riscv/proofs/cosim_runner.c, writing: the response buffer and the lines of the protocol.
pub mod Fits
use Prim.Native.Char.{code}
use Prim.Native.String.{String}
use s2n_bignum.Prelude.{
  ℕ, zero, suc, ◌+◌, ◌*◌, ◌/◌, ◌%◌, List, [], ◌∷◌, ◌++◌, Option, none, some, ltb, ◌==◌,
  if◌then◌else◌, length,
}

-- The code points of a text, which are its bytes here.
abbrev pub codes : String → List ℕ
codes String.[] = []
codes (String.◌∷◌ c s) = code c ∷ codes s

abbrev pub response_size : ℕ
response_size = 4096

-- The buffer holds response[0 .. response_length); a character with no room is dropped.
unfoldable pub response_character : ℕ → List ℕ → List ℕ
response_character c r = if ltb (length r + 1) response_size then r ++ c ∷ [] else r

pub response_string : List ℕ → List ℕ → List ℕ
response_string [] r = r
response_string (c ∷ text) r = response_string text (response_character c r)

-- do { digits[count++] = '0' + value % 10; value /= 10; } while (value != 0), with room for `room`
-- more digits; the last digit that is found is the first to be sent. `none` is a write past the
-- array.
unfoldable pub digits_loop : ℕ → ℕ → List ℕ → Option (List ℕ)
digits_loop zero value digits = none
digits_loop (suc room) value digits =
    let found = (b'0' + value % 10) ∷ digits in
    let more = digits_loop room (value / 10) found in if value / 10 == 0 then some found else more

unfoldable pub u32_digits : ℕ → Option (List ℕ)
unfolding digits_loop
u32_digits value = digits_loop 10 value []

abbrev pub append_digits : Option (List ℕ) → List ℕ → Option (List ℕ)
append_digits none r = none
append_digits (some digits) r = some (response_string digits r)

unfoldable pub response_u32 : ℕ → List ℕ → Option (List ℕ)
response_u32 value r = append_digits (u32_digits value) r

-- What is sent: the buffer with a newline, if that has room.
unfoldable pub response_send : List ℕ → List ℕ
response_send r = response_character 10 r

unfoldable pub response_error : List ℕ → List ℕ
response_error reason = response_send (response_string reason (response_string (codes "ERROR ") []))

unfoldable pub send_ready : List ℕ
send_ready = response_send (response_string (codes "READY 1 rv32im 95") [])

infixl 5 ◌>>=◌
abbrev pub ◌>>=◌ {ℓ κ} : {A : Type ℓ} {B : Type κ} → Option A → (A → Option B) → Option B
none >>= f = none
some a >>= f = f a

unfoldable pub state_loop : List ℕ → List ℕ → Option (List ℕ)
state_loop [] r = some r
state_loop (w ∷ words) r = do r' ← response_u32 w (response_character b' ' r); state_loop words r'

unfoldable pub send_state : List ℕ → Option (List ℕ)
unfolding state_loop
send_state state = do r ← state_loop state (response_string (codes "OK") []); some (response_send r)

unfoldable pub send_trap : ℕ → ℕ → Option (List ℕ)
send_trap cause value = do
  r ← response_u32 cause (response_string (codes "TRAP mcause-") [])
  r' ← response_u32 value (response_string (codes " mtval-") r)
  some (response_send r')
