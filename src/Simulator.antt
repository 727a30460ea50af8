-- ===== src/Simulator.antt =====
-- arm/proofs/simulator.c and x86/proofs/simulator.c, the programs that run one instruction for the
-- cosimulation of those architectures: the arguments are the registers before it, the line that is
-- printed is the registers after it. The two differ in the number of 64-bit registers, STATESIZE. The
-- routine `harness`, in assembly, and the default actions of the operating system on signals are
-- parameters. DEBUG is 0, so that print_regs is not called.
pub mod Numbers
pub mod Echo
pub mod Traps
use s2n_bignum.Prelude.{
  ℕ, zero, suc, ◌+◌, ◌%◌, List, [], ◌∷◌, ◌++◌, Bool, true, false, ◌||◌, ◌==◌, if◌then◌else◌,
}
use s2n_bignum.Simulator.Numbers.{strtoul, printf_u64}

abbrev pub arm_statesize : ℕ
arm_statesize = 128

abbrev pub x86_statesize : ℕ
x86_statesize = 112

-- for (i = 1; i < argc && i <= STATESIZE; ++i) regs[i-1] = strtoul(argv[i],NULL,0); the array is
-- static, and so 0 where no argument is left.
unfoldable pub load_regs : ℕ → List (List ℕ) → List ℕ
load_regs zero argv = []
load_regs (suc n) [] = 0 ∷ load_regs n []
load_regs (suc n) (arg ∷ argv) = strtoul arg ∷ load_regs n argv

-- for (i = 0; i < STATESIZE; ++i) printf("%"PRIu64" ",regs[i]); printf("\n");
unfoldable pub print_state : List ℕ → List ℕ
print_state [] = 10 ∷ []
print_state (r ∷ regs) = printf_u64 r ++ (32 ∷ print_state regs)

-- The signal numbers of Linux, and what a process does on a signal.
abbrev pub sigs : List ℕ
sigs = 4 ∷ 11 ∷ 7 ∷ 8 ∷ 5 ∷ []

pub data Disposition : Type 0 where
  default_action : Disposition
  trap_exit : Disposition

-- for (i = 0; i < sizeof(sigs) / sizeof(sigs[0]); ++i) sigaction(sigs[i], &sa, NULL);
unfoldable pub install_loop : List ℕ → (ℕ → Disposition) → ℕ → Disposition
install_loop [] actions = actions
install_loop (sig ∷ rest) actions =
    install_loop rest (λ s. if s == sig then trap_exit else actions s)

unfoldable pub install_trap_handlers : (ℕ → Disposition) → ℕ → Disposition
unfolding install_loop
install_trap_handlers actions = install_loop sigs actions

-- A call of `harness` returns a value, with the registers that it leaves, or raises a signal; the run
-- behind the signal is what follows where the process goes on.
pub data Run : Type 0 where
  returned : ℕ → List ℕ → Run
  raised : ℕ → Run → Run

-- The default action of the operating system on a signal. A stop that something outside ends counts as
-- ignored.
pub data Effect : Type 0 where
  terminates : Effect
  stops : Effect
  ignored : Effect

-- A process exits with a status after it has written its output, is killed by a signal, or is stopped.
pub data Outcome : Type 0 where
  exited : ℕ → List ℕ → Outcome
  killed : ℕ → Outcome
  stopped : ℕ → Outcome

-- _exit(128 + sig): the status is taken modulo 256, and nothing that is buffered is written.
unfoldable pub on_signal : Effect → Disposition → ℕ → Outcome → Outcome
on_signal effect trap_exit sig rest = exited ((128 + sig) % 256) []
on_signal terminates default_action sig rest = killed sig
on_signal stops default_action sig rest = stopped sig
on_signal ignored default_action sig rest = rest

unfoldable pub finish : (ℕ → Effect) → (ℕ → Disposition) → Run → Outcome
finish system actions (returned retval regs) = exited (retval % 256) (print_state regs)
finish system actions (raised sig run) =
    let rest = finish system actions run in on_signal (system sig) (actions sig) sig rest

-- From the registers to the exit.
unfoldable pub simulate : (ℕ → Effect) → ℕ → (List ℕ → Run) → List (List ℕ) → Outcome
simulate system size harness argv =
    let regs = load_regs size argv in
    let actions = install_trap_handlers (λ sig. default_action) in
    finish system actions (harness regs)

unfoldable pub arm_main : (ℕ → Effect) → (List ℕ → Run) → List (List ℕ) → Outcome
arm_main system harness argv = simulate system arm_statesize harness argv

unfoldable pub x86_main : (ℕ → Effect) → (List ℕ → Run) → List (List ℕ) → Outcome
x86_main system harness argv = simulate system x86_statesize harness argv

-- The two programs.
pub data Arch : Type 0 where
  arm : Arch
  x86 : Arch

abbrev pub statesize : Arch → ℕ
statesize arm = arm_statesize
statesize x86 = x86_statesize

abbrev pub main : Arch → (ℕ → Effect) → (List ℕ → Run) → List (List ℕ) → Outcome
main arm = arm_main
main x86 = x86_main
