-- ===== src/Simulator/Echo.antt =====
-- The line that a simulator prints is a list of arguments for it: the registers come back.
use s2n_bignum.Prelude.{
  ℕ, suc, ◌%◌, ◌^◌, ◌<◌, ◌≡◌, refl, sym, ap, ap₂, ◌∙◌, List, [], ◌∷◌, ◌++◌, false, ◌==◌,
  if◌then◌else◌, arith, length, All,
}
use s2n_bignum.Simulator.{
  Run, Effect, returned, exited, default_action, load_regs, print_state, finish,
  install_trap_handlers, Arch, arm, x86, statesize, main, arm_main, x86_main, simulate,
}
use s2n_bignum.Simulator.Numbers.{printf_u64, strtoul-printf_u64, IsDigit}

abbrev prepend : ℕ → List (List ℕ) → List (List ℕ)
prepend c [] = (c ∷ []) ∷ []
prepend c (word ∷ words) = (c ∷ word) ∷ words

-- A line split at each space, as by the shell or by the program that reads it.
unfoldable pub words : List ℕ → List (List ℕ)
words [] = []
words (c ∷ text) = let rest = words text in if c == 32 then [] ∷ rest else prepend c rest

words-digits :
    (word text : List ℕ) → All IsDigit word → words (word ++ (32 ∷ text)) ≡ word ∷ words text
unfolding words
words-digits [] text h = refl
words-digits (c ∷ word) text (h, hs) =
    let other : (c == 32) ≡ false = ground (arith, h) in rw (other, words-digits word text hs) refl

-- 64-bit registers that are printed, with any words behind them, load as the same registers.
load-print :
    (regs : List ℕ)
    → All (λ r. r < 2 ^ 64) regs
    → load_regs (length regs) (words (print_state regs)) ≡ regs
unfolding load_regs print_state
load-print [] h = refl
load-print (r ∷ regs) (h, hs) =
    let (back, digits, nonempty) = strtoul-printf_u64 r h in
    ap (load_regs (suc (length regs))) (words-digits (printf_u64 r) (print_state regs) digits)
    ∙ ap₂ ◌∷◌ back (load-print regs hs)

-- What either program does with the outcome of `harness`.
pub main-finish :
    (a : Arch) (system : ℕ → Effect) (harness : List ℕ → Run) (argv : List (List ℕ))
    → main a system harness argv
      ≡ finish system
          (install_trap_handlers (λ s. default_action))
          (harness (load_regs (statesize a) argv))
unfolding arm_main x86_main simulate
main-finish arm system harness argv = refl
main-finish x86 system harness argv = refl

-- Where `harness` returns STATESIZE 64-bit registers on the arguments of a run of the arm or of the x86
-- simulator, the run exits and the words of the line that it writes load as these registers: with
-- them as the arguments, a second run calls `harness` on what the first one left.
pub load_regs-main :
    (a : Arch) (system : ℕ → Effect) (harness : List ℕ → Run) (argv : List (List ℕ)) (retval : ℕ)
    (regs : List ℕ)
    → All (λ r. r < 2 ^ 64) regs
    → length regs ≡ statesize a
    → harness (load_regs (statesize a) argv) ≡ returned retval regs
    → (line : List ℕ) × (main a system harness argv ≡ exited (retval % 256) line)
      × (load_regs (statesize a) (words line) ≡ regs)
unfolding finish
load_regs-main a system harness argv retval regs h size run = (
  print_state regs,
  main-finish a system harness argv
      ∙ ap (finish system (install_trap_handlers (λ s. default_action))) run,
  ap (λ (n : ℕ). load_regs n (words (print_state regs))) (sym size) ∙ load-print regs h,
)
