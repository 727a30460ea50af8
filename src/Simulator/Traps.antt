-- ===== src/Simulator/Traps.antt =====
-- What the exit of a simulator says of the instruction.
use s2n_bignum.Prelude.{
  ℕ, ◌+◌, ◌%◌, ◌<◌, ◌≡◌, refl, sym, ap, ◌∙◌, List, [], ◌∷◌, Bool, true, false, ◌==◌, ◌||◌,
  if◌then◌else◌, arith, length, length-append, ◌⊎◌, inl, inr, Bool-cases,
}
use s2n_bignum.Simulator.{
  Run, returned, raised, Outcome, exited, killed, stopped, Effect, terminates, stops, ignored,
  Disposition, default_action, trap_exit, load_regs, print_state, Arch, statesize, main, finish,
  on_signal, install_trap_handlers, install_loop,
}
use s2n_bignum.Simulator.Echo.{main-finish}
use s2n_bignum.Simulator.Numbers.{printf_u64}
use mathlib.Core.Path.{subst}
use mathlib.Core.Bool.{true≢false}
use native.Mathlib.Nat.{mod-eq_of_lt}

-- SIGILL, SIGTRAP, SIGBUS, SIGFPE and SIGSEGV.
abbrev pub is_trap : ℕ → Bool
is_trap sig = sig == 4 || sig == 11 || sig == 7 || sig == 8 || sig == 5

handled :
    (sig : ℕ)
    → install_trap_handlers (λ s. default_action) sig
      ≡ (if is_trap sig then trap_exit else default_action)
unfolding install_trap_handlers install_loop
handled sig = ground arith

print_state-nonempty : (regs : List ℕ) → 0 < length (print_state regs)
unfolding print_state
print_state-nonempty [] = omega arith
print_state-nonempty (r ∷ regs) =
    omega (arith, length-append (printf_u64 r) (32 ∷ print_state regs))

small_trap : (sig : ℕ) → is_trap sig ≡ true → sig < 128
small_trap sig h = ground (arith, h)

-- The run comes to `end`: the signals before it are no traps and are ignored by default.
pub data ComesTo (system : ℕ → Effect) : Run → Run → Type 0 where
  here : {end : Run} → ComesTo system end end
  later :
      {run end : Run} (sig : ℕ)
      → is_trap sig ≡ false
      → system sig ≡ ignored
      → ComesTo system run end
      → ComesTo system (raised sig run) end

-- An exit with this status and output is that of a trap that the run comes to, or of its return.
abbrev pub Explains : (ℕ → Effect) → Run → ℕ → List ℕ → Type 0
Explains system run status text =
    ((sig : ℕ) × (rest : Run) × ComesTo system run (raised sig rest)
      × (is_trap sig ≡ true)
      × (status ≡ 128 + sig)
      × (text ≡ []))
    ⊎ ((retval : ℕ) × (regs : List ℕ) × ComesTo system run (returned retval regs)
        × (status ≡ retval % 256)
        × (text ≡ print_state regs)
        × (0 < length text))

later-Explains :
    (system : ℕ → Effect) (sig : ℕ) (run : Run) (status : ℕ) (text : List ℕ)
    → is_trap sig ≡ false
    → system sig ≡ ignored
    → Explains system run status text
    → Explains system (raised sig run) status text
later-Explains system sig run status text other pass (inl (trap, rest, comes, t, e, n)) =
    inl (trap, rest, later sig other pass comes, t, e, n)
later-Explains system sig run status text other pass (inr (retval, regs, comes, t, e, n)) =
    inr (retval, regs, later sig other pass comes, t, e, n)

status_of : Outcome → ℕ
status_of (exited status text) = status
status_of (killed sig) = 0
status_of (stopped sig) = 0

text_of : Outcome → List ℕ
text_of (exited status text) = text
text_of (killed sig) = []
text_of (stopped sig) = []

has_exited : Outcome → Bool
has_exited (exited status text) = true
has_exited (killed sig) = false
has_exited (stopped sig) = false

-- A signal that is no trap and lets the process exit was ignored.
passed :
    (effect : Effect) (sig : ℕ) (rest : Outcome) (status : ℕ) (text : List ℕ)
    → on_signal effect default_action sig rest ≡ exited status text
    → (effect ≡ ignored) × (rest ≡ exited status text)
unfolding on_signal has_exited
passed terminates sig rest status text h = absurd (true≢false (sym (ap has_exited h)))
passed stops sig rest status text h = absurd (true≢false (sym (ap has_exited h)))
passed ignored sig rest status text h = (refl, h)

trapped :
    (effect : Effect) (sig : ℕ) (rest : Outcome) (status : ℕ) (text : List ℕ)
    → is_trap sig ≡ true
    → on_signal effect trap_exit sig rest ≡ exited status text
    → (status ≡ 128 + sig) × (text ≡ [])
unfolding on_signal status_of text_of
trapped effect sig rest status text trap h =
    (sym (ap status_of h) ∙ mod-eq_of_lt (omega (arith, small_trap sig trap)), sym (ap text_of h))

explained :
    (system : ℕ → Effect) (run : Run) (status : ℕ) (text : List ℕ)
    → finish system (install_trap_handlers (λ s. default_action)) run ≡ exited status text
    → Explains system run status text
unfolding finish status_of text_of
explained system (returned retval regs) status text h = inr (
  retval,
  regs,
  here,
  sym (ap status_of h),
  sym (ap text_of h),
  subst (λ (t : List ℕ). 0 < length t) (ap text_of h) (print_state-nonempty regs),
)
explained system (raised sig run) status text h =
    let rest = finish system (install_trap_handlers (λ s. default_action)) run in
    let seen = ap (λ (d : Disposition). on_signal (system sig) d sig rest) (handled sig) in
    elim (Bool-cases (is_trap sig)) [
      | inl trap ↦
          let (status_is, nothing) = trapped (system sig) sig rest status text trap (
            ap
              (λ (b : Bool).
                on_signal (system sig) (if b then trap_exit else default_action) sig rest)
              (sym trap)
            ∙ sym seen
            ∙ h) in
          inl (sig, run, here, trap, status_is, nothing)
      | inr other ↦
          let (pass, went_on) = passed (system sig) sig rest status text (
            ap
              (λ (b : Bool).
                on_signal (system sig) (if b then trap_exit else default_action) sig rest)
              (sym other)
            ∙ sym seen
            ∙ h) in
          later-Explains system sig run status text other pass
            (explained system run status text went_on)
    ]

-- Where either simulator exits, whatever the default actions on signals are: either its output is
-- empty, the status is 128 plus one of the five trap signals, and that signal is the first in the run of
-- `harness` that is not ignored; or the output is the line of the registers that `harness` returned, not
-- empty, the status is the low byte of what it returned, and all signals before were ignored.
pub main-Explains :
    (a : Arch) (system : ℕ → Effect) (harness : List ℕ → Run) (argv : List (List ℕ)) (status : ℕ)
    (text : List ℕ)
    → main a system harness argv ≡ exited status text
    → Explains system (harness (load_regs (statesize a) argv)) status text
main-Explains a system harness argv status text h =
    explained system (harness (load_regs (statesize a) argv)) status text
      (sym (main-finish a system harness argv) ∙ h)
