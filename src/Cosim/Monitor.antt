-- ===== src/Cosim/Monitor.antt =====
-- riscv/proofs/cosim_runner.c, the monitor: installing and running code, one request, and the loop.
pub mod Echo
pub mod Install
pub mod Request
pub mod Serve
use s2n_bignum.Prelude.{
  ℕ, zero, suc, ◌+◌, ◌-◌, ◌/◌, ◌%◌, ◌^◌, List, [], ◌∷◌, ◌++◌, Option, none, some, Bool, true, false,
  not,
}
use s2n_bignum.Prelude.{ltb, ◌==◌, if◌then◌else◌, length, take, drop, get_or}
use s2n_bignum.Cosim.Text.{
  next_token, parse_u32, decode_code, read_line, until_nul, string_equal, ReadLine, line, failed,
  line_overrun, decoded, malformed, code_overrun,
}
use s2n_bignum.Cosim.Reply.{codes, send_ready, send_state, send_trap, response_error}

-- The memory that outlives a request.
pub record Machine : Type 0 where
  pub state : List ℕ
  pub scratch : List ℕ
  pub slot : List ℕ
  pub expected_break : ℕ
  pub trap_cause : ℕ
  pub trap_value : ℕ
  pub trap_status : ℕ

-- `rv32_run`, in assembly: from the machine to the machine after the trap, or `none` where the injected
-- code never traps, as a jump to itself.
abbrev pub Run : Type 0
Run = Machine → Option Machine

-- The address of rv32_code_slot, which the linker chooses, and `rv32_run`.
pub record Platform : Type 0 where
  pub slot_address : ℕ
  pub run : Run

abbrev pub state_words : ℕ
state_words = 95

unfoldable pub store_u32_le : ℕ → List ℕ
store_u32_le v =
    (v % 2 ^ 8) ∷ (v / 2 ^ 8 % 2 ^ 8) ∷ (v / 2 ^ 16 % 2 ^ 8) ∷ (v / 2 ^ 24 % 2 ^ 8) ∷ []

abbrev pub ebreak : ℕ
ebreak = 0x00100073

-- The slot keeps its size, and what stands behind the new code stays.
unfoldable pub install_code : Platform → List ℕ → Machine → Option Machine
install_code p code m =
    if ltb (length m.slot) (length code + 4)
    then none
    else some (record m {
      slot = code ++ store_u32_le ebreak ++ drop (length code + 4) m.slot;
      expected_break = (p.slot_address + length code) % 2 ^ 32;
    })

-- The words that are parsed before the first failure, and the cursor behind them where there is
-- none.
pub record Words : Type 0 where
  pub parsed : List ℕ
  pub cursor : Option (List ℕ)

abbrev pub push_word : ℕ → Words → Words
push_word w r = record { parsed = w ∷ r.parsed; cursor = r.cursor }

pub parse_words : ℕ → List ℕ → Words
parse_words zero cursor = record { parsed = []; cursor = some cursor }
parse_words (suc left) cursor = elim (next_token cursor) [
  | none ↦ record { parsed = []; cursor = none }
  | some (word, rest) ↦ elim (parse_u32 word) [
    | none ↦ record { parsed = []; cursor = none }
    | some w ↦ push_word w (parse_words left rest)
  ]
]

-- A reply of the monitor, a write past an array of the source, or no return from `rv32_run`.
pub data Answer : Type 0 where
  reply : List ℕ → Machine → Answer
  fault : Answer
  no_return : Answer

abbrev pub answer : Option (List ℕ) → Machine → Answer
answer none m = fault
answer (some text) m = reply text m

-- What follows the return of `rv32_run`.
unfoldable pub after_run : Machine → Answer
after_run ran =
    let after = record ran { state = take 31 ran.state ++ ran.scratch } in
    if after.trap_status == 0
    then answer (send_state after.state) after
    else answer (send_trap after.trap_cause after.trap_value) after

-- From `rv32_scratch[i] = state[31 + i]` to the reply.
unfoldable pub run_request : Platform → Machine → Answer
run_request p m =
    let ready = record m { scratch = drop 31 m.state } in
    elim (p.run ready) [ none ↦ no_return | some ran ↦ after_run ran ]

unfoldable pub installed_request : Platform → List ℕ → Machine → Answer
installed_request p code m = elim (install_code p code m) [
  | none ↦ reply (response_error (codes "unsupported-code")) m
  | some m' ↦ run_request p m'
]

unfoldable pub state_request : Platform → List ℕ → Machine → List ℕ → Answer
state_request p code m end = elim (next_token end) [
  | some extra ↦ reply (response_error (codes "wrong-input-state-size")) m
  | none ↦
      if not (get_or m.state 0 0 == 0)
      then reply (response_error (codes "invalid-initial-state")) m
      else installed_request p code m
]

-- The words are stored as they are parsed, so that those in front of a malformed one have changed.
unfoldable pub store_words : List ℕ → Machine → Machine
store_words words m = record m { state = words ++ drop (length words) m.state }

unfoldable pub words_request : Platform → List ℕ → Machine → Words → Answer
words_request p code m read = elim read.cursor [
  | none ↦ reply (response_error (codes "malformed-input-state")) (store_words read.parsed m)
  | some end ↦ state_request p code (store_words read.parsed m) end
]

unfoldable pub execute_request : Platform → List ℕ → Machine → Answer
execute_request p cursor m = elim (next_token cursor) [
  | none ↦ reply (response_error (codes "malformed-code")) m
  | some (text, rest) ↦ elim (decode_code text) [
    | malformed ↦ reply (response_error (codes "malformed-code")) m
    | code_overrun ↦ fault
    | decoded code ↦ words_request p code m (parse_words state_words rest)
  ]
]

-- One line, by its first token: a reply, or `exit`, where the source calls semihost_exit.
pub data Round : Type 0 where
  answered : Answer → Round
  exit : Round

unfoldable pub command_round : Platform → List ℕ → Machine → Round
command_round p text m = elim (next_token text) [
  | none ↦ answered (reply (response_error (codes "empty-command")) m)
  | some (command, cursor) ↦
      if string_equal command (codes "QUIT")
      then exit
      else (if string_equal command (codes "RUN")
          then answered (execute_request p cursor m)
          else answered (reply (response_error (codes "unknown-command")) m))
]

-- What was sent until the monitor stopped: it left by semihost_exit, wrote past an array, or is in a
-- call of `rv32_run` that does not return.
pub data Session : Type 0 where
  quit : List (List ℕ) → Session
  crashed : List (List ℕ) → Session
  running : List (List ℕ) → Session

abbrev pub send : List ℕ → Option Session → Option Session
send text none = none
send text (some (quit sent)) = some (quit (text ∷ sent))
send text (some (crashed sent)) = some (crashed (text ∷ sent))
send text (some (running sent)) = some (running (text ∷ sent))

-- The loop of `main` on fuel, one round for each unit; `none` is out of fuel.
pub main_loop : Platform → ℕ → List ℕ → Machine → Option Session
main_loop p zero input m = none
main_loop p (suc fuel) input m = elim (read_line input) [
  | failed rest ↦ some (quit [])
  | line_overrun ↦ some (crashed [])
  | line text rest ↦ elim (command_round p (until_nul text) m) [
    | exit ↦ some (quit [])
    | answered fault ↦ some (crashed [])
    | answered no_return ↦ some (running [])
    | answered (reply sent m') ↦ send sent (main_loop p fuel rest m')
  ]
]

-- A line that is read takes a newline off the input, so that the input's length is fuel enough.
unfoldable pub run_main : Platform → List ℕ → Machine → Option Session
unfolding main_loop
run_main p input m = send send_ready (main_loop p (suc (length input)) input m)
