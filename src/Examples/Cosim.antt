-- ===== src/Examples/Cosim.antt =====
-- The theorems on the cosimulation monitor at concrete inputs.
use s2n_bignum.Prelude.{
  ℕ, ◌≤◌, ◌<◌, ◌≡◌, refl, List, [], ◌∷◌, ◌++◌, some, true, length, arith, All, replicate,
}
use s2n_bignum.Cosim.Text.{parse_u32, decode_code, decoded}
use s2n_bignum.Cosim.Text.Decimal.{decimal_word, is_decimal, parse_u32_lem, u32_digits_lem}
use s2n_bignum.Cosim.Text.Hex.{IsByte, hex_text, decode_code-hex_text}
use s2n_bignum.Cosim.Reply.{codes, u32_digits, send_state}
use s2n_bignum.Cosim.Reply.Fits.{IsReply}
use s2n_bignum.Cosim.Monitor.{
  Machine, Platform, parse_words, state_words, execute_request, run_main,
}
use s2n_bignum.Cosim.Monitor.Echo.{IsWord, whole_line, send_state_lem}
use s2n_bignum.Cosim.Monitor.Install.{IsMachine}
use s2n_bignum.Cosim.Monitor.Request.{IsAnswer, execute_request_lem}
use s2n_bignum.Cosim.Monitor.Serve.{Serves, run_main_lem}
use mathlib.Core.Path.{subst}
use mathlib.Core.Option.{some-injective}

parse_u32_lem_example : parse_u32 (codes "4294967296") ≡ decimal_word (codes "4294967296")
parse_u32_lem_example = parse_u32_lem (codes "4294967296")

u32_digits_lem_example :
    (text : List ℕ) × (u32_digits 4294967295 ≡ some text)
    × (parse_u32 text ≡ some 4294967295)
    × (is_decimal text ≡ true)
    × (0 < length text)
    × (length text ≤ 10)
u32_digits_lem_example = u32_digits_lem 4294967295 (omega arith)

-- The bytes of `ebreak`.
abbrev trap_code : List ℕ
trap_code = 0x73 ∷ 0 ∷ 0x10 ∷ 0 ∷ []

trap_code_range : All IsByte trap_code
trap_code_range = (omega arith, (omega arith, (omega arith, (omega arith, tt))))

decode_code-hex_text_example : decode_code (hex_text trap_code) ≡ decoded trap_code
decode_code-hex_text_example =
    decode_code-hex_text trap_code trap_code_range (omega arith) refl (omega arith)

replicate-IsWord : (n w : ℕ) → IsWord w → All IsWord (replicate n w)
replicate-IsWord Prim.Native.Nat.zero w h = tt
replicate-IsWord (Prim.Native.Nat.suc n) w h = (h, replicate-IsWord n w h)

send_state_lem_example :
    (text : List ℕ) × (send_state (replicate 95 7) ≡ some (codes "OK" ++ text ++ 10 ∷ []))
    × (parse_words state_words text ≡ whole_line (replicate 95 7))
    × IsReply (codes "OK" ++ text ++ 10 ∷ [])
send_state_lem_example = send_state_lem (replicate 95 7) (replicate-IsWord 95 7 (omega arith)) refl

-- A processor on which every run ends with the expected `ebreak` and changes no register.
abbrev idle : Platform
idle = record { slot_address = 0x80000000; run = λ m. some (record m { trap_status = 0 }) }

abbrev fresh : Machine
fresh = record {
  state = replicate 95 0;
  scratch = replicate 64 0;
  slot = replicate 16 0;
  expected_break = 0;
  trap_cause = 0;
  trap_value = 0;
  trap_status = 0;
}

fresh-IsMachine : IsMachine 16 fresh
fresh-IsMachine = record {
  state_length = refl;
  state_range = replicate-IsWord 95 0 (omega arith);
  scratch_length = refl;
  scratch_range = replicate-IsWord 64 0 (omega arith);
  slot_length = refl;
  cause_range = omega arith;
  value_range = omega arith;
}

idle_keeps : (m ran : Machine) → IsMachine 16 m → idle.run m ≡ some ran → IsMachine 16 ran
idle_keeps m ran h e =
    let ran_IsMachine : IsMachine 16 (record m { trap_status = 0 }) = record {
      state_length = h.state_length;
      state_range = h.state_range;
      scratch_length = h.scratch_length;
      scratch_range = h.scratch_range;
      slot_length = h.slot_length;
      cause_range = h.cause_range;
      value_range = h.value_range;
    } in
    subst (λ (x : Machine). IsMachine 16 x) (some-injective _ _ e) ran_IsMachine

-- " 0" for each of 95 words.
abbrev zero_words : ℕ → List ℕ
zero_words Prim.Native.Nat.zero = []
zero_words (Prim.Native.Nat.suc n) = 32 ∷ 48 ∷ zero_words n

-- The code of `ebreak` and 95 words, which is run.
abbrev whole_request : List ℕ
whole_request = codes "73001000" ++ zero_words 95

execute_request_lem_example : IsAnswer idle 16 (execute_request idle whole_request fresh)
execute_request_lem_example =
    execute_request_lem idle 16 idle_keeps whole_request fresh fresh-IsMachine

-- Three requests, with their newlines, and the command to leave.
abbrev requests : List ℕ
requests =
    codes "RUN 73001000 0 1 2"
    ++ 10 ∷ []
    ++ codes "HELLO"
    ++ 10 ∷ []
    ++ codes "RUN "
    ++ whole_request
    ++ 10 ∷ []
    ++ codes "QUIT"
    ++ 10 ∷ []

run_main_lem_example : Serves idle 16 (run_main idle requests fresh)
run_main_lem_example = run_main_lem idle 16 idle_keeps requests fresh fresh-IsMachine
