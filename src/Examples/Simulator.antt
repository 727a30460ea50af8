-- ===== src/Examples/Simulator.antt =====
-- The theorems on the simulators at concrete inputs, and runs of their parts.
use s2n_bignum.Prelude.{
  ℕ, zero, suc, ◌-◌, ◌%◌, ◌^◌, ◌<◌, ◌≡◌, refl, List, [], ◌∷◌, All, replicate, arith, ◌==◌,
  if◌then◌else◌,
}
use s2n_bignum.Simulator.{
  Run, Effect, terminates, ignored, returned, raised, exited, load_regs, arm, x86, main,
}
use s2n_bignum.Simulator.Numbers.{
  strtoul, printf_u64, print_loop, skip_space, is_space, signed, based, prefixed, accumulate,
  digit_value, starts_hex, negated, limited,
}
use s2n_bignum.Simulator.Echo.{words, load_regs-main}
use s2n_bignum.Simulator.Traps.{Explains, main-Explains}

-- An instruction that sets every register to 7, and one that is undefined, where the window of the
-- terminal changes its size before the signal. Of the default actions on Linux, the one on that signal.
abbrev spread : List ℕ → Run
spread regs = returned 300 (replicate 112 7)

abbrev undefined_instruction : List ℕ → Run
undefined_instruction regs = raised 28 (raised 4 (returned 0 regs))

abbrev system : ℕ → Effect
system sig = if sig == 28 then ignored else terminates

sevens : (n : ℕ) → All (λ r. r < 2 ^ 64) (replicate n 7)
sevens zero = tt
sevens (suc n) = (omega arith, sevens n)

load_regs-main_example :
    (line : List ℕ) × (main x86 system spread ((b'7' ∷ []) ∷ []) ≡ exited (300 % 256) line)
    × (load_regs 112 (words line) ≡ replicate 112 7)
load_regs-main_example =
    load_regs-main x86 system spread ((b'7' ∷ []) ∷ []) 300 (replicate 112 7) (sevens 112) refl refl

main-Explains_example : Explains system (undefined_instruction (load_regs 128 [])) 132 []
unfolding s2n_bignum.Simulator.arm_main s2n_bignum.Simulator.simulate s2n_bignum.Simulator.finish
    s2n_bignum.Simulator.on_signal s2n_bignum.Simulator.install_trap_handlers
    s2n_bignum.Simulator.install_loop
main-Explains_example = main-Explains arm system undefined_instruction [] 132 [] refl

-- Numbers as the arguments may have them: in hexadecimal, in octal, with a sign, too large, and broken
-- off at what is no digit.
strtoul_run :
    (strtoul (b'0' ∷ b'x' ∷ b'F' ∷ b'f' ∷ []) ≡ 255)
    × (strtoul (b'0' ∷ b'1' ∷ b'7' ∷ []) ≡ 15)
    × (strtoul (b' ' ∷ b'-' ∷ b'1' ∷ []) ≡ 2 ^ 64 - 1)
    × (strtoul (b'1' ∷ b'2' ∷ b'x' ∷ []) ≡ 12)
unfolding strtoul skip_space is_space signed based prefixed accumulate digit_value starts_hex
    negated limited
strtoul_run = (refl, refl, refl, refl)

printf_run : printf_u64 1204 ≡ b'1' ∷ b'2' ∷ b'0' ∷ b'4' ∷ []
unfolding printf_u64 print_loop
printf_run = refl
