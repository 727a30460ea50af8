-- ===== src/Lib.antt =====
-- The C code around the s2n-bignum assembly library: the reference arithmetic that the test
-- harness compares the assembly functions with, and the monitor that runs RISC-V instruction
-- sequences for the cosimulation tests. The assembly functions themselves have their own proofs
-- in HOL Light, under arm/proofs and x86/proofs; what those do not reach is the C code that
-- decides whether a run of an assembly function counts as right, and that is what is modelled
-- here.
--
-- The parts and their files:
--
-- - Word.antt and Word/ are the operations on one uint64_t at the head of the references in
--   tests/test.c: carryout2, carryout3, borrowout2, borrowout3, hi32, lo32 and multop. A uint64_t
--   is a natural number below 2 ^ 64; every C operation that can wrap is written with its
--   remainder (add64, sub64, mul64).
-- - Bignum.antt and Bignum/ are the bignum references of tests/test.c, in the files Add, Compare,
--   Mul, Div, Mont and OddGcd. A pair of a size and a pointer is a size and a list of digits,
--   lowest first, and `val` is the number that the digits denote. A function that writes an array
--   returns it. Where the source lets the output be the same array as an input, the model reads
--   what the source reads before the write, in the order of the source; malloc and alloca are
--   taken to succeed.
-- - Sampling.antt and Sampling/ are the references for rejection sampling in tests/test.c. They
--   return the written part of the output array, whose length is the count that the source
--   returns. The sum pos + 3 is taken not to wrap, which a buffer in memory ensures.
-- - Lattice.antt and Lattice/ are the arithmetic under the ML-KEM and ML-DSA references in
--   tests/test.c: powers, bit reversals, reductions, in Rounding the high and low parts and the
--   hints of ML-DSA, and in Unpack its packed coefficients. Signed C integers are the integers of
--   Prelude/Int.antt, and the conditions of the theorems exclude overflow, which C leaves
--   undefined.
-- - Cosim.antt and Cosim/ are riscv/proofs/cosim_runner.c, the monitor. Text.antt reads lines,
--   tokens, decimal words and hexadecimal code, Reply.antt fills the response buffer,
--   Monitor.antt installs code, answers a request and runs the loop of main. A string is the list
--   of its bytes before the NUL, and the bytes are unsigned, as they are on RISC-V. The state
--   arrays, the code slot and the trap variables are the record Machine, passed from step to
--   step. A write past the end of the digits of a number is `none` or `fault`; one past the end
--   of the line buffer is `line_overrun`, and one past the end of the code buffer `code_overrun`,
--   which becomes `fault`. State words, code slot and response are lists whose sizes the theorems
--   keep or bound. The trampoline rv32_run, in assembly, which need not return, and the address
--   of the code slot, which the linker chooses, are the parameter Platform.
-- - Harness.antt and Harness/ are test cases of tests/test.c: those of the modular additions,
--   subtractions, doublings and negations (test_bignum_add_p25519, test_bignum_sub_p25519,
--   test_bignum_double_p25519, test_bignum_neg_p25519 and the like), from the random inputs to
--   the returned 0 or 1. The assembly function under test and the sequence of inputs that
--   random_bignum and rand draw are parameters; the buffers b0 to b5 are written before they are
--   read in each test, and so are local values; printing is left out.
-- - Contract.antt and Contract/ are the promises of include/s2n-bignum.h: what the comment above
--   each prototype says the function writes and returns, with what the comments of the assembly
--   files add on truncation and carries. Arith is arithmetic of any size, Field arithmetic modulo
--   the primes and group orders, Mont Montgomery form, powers and inverses, Bits comparisons,
--   sizes and shifts, Bytes the byte orders, Lattice the coefficients of ML-KEM and ML-DSA
--   polynomials; the files Conform below them connect the references and test cases of
--   tests/test.c with them, and the files Laws connect them with one another. A promise that
--   fixes the output is a function, one that leaves a choice a relation. The functions that
--   differ only in the prime are one definition on the type Field of Primes.antt, which holds the
--   constants of tests/test.c.
-- - Simulator.antt and Simulator/ are arm/proofs/simulator.c and x86/proofs/simulator.c, from the
--   arguments to the output and the exit status. Numbers holds what they use of the C library.
--   The assembly routine harness is a parameter that returns or raises a signal.
-- - Cfi.antt and Cfi/ are the macros of include/_internal_s2n_bignum_x86.h and
--   include/_internal_s2n_bignum_x86_att.h that pair an instruction on the stack with directives
--   for the unwinder: the lines that a macro expands to, what the lines do to the machine and to
--   the unwinder's knowledge, and the use of the macros in a function as a step relation. Memory
--   is in words at addresses that do not overlap.
-- - Prelude.antt and Prelude/ hold Boolean tests, lists, powers, bits and integers over native
--   numbers; Examples.antt and Examples/ apply the theorems at concrete inputs and run the
--   definitions.
--
-- How the parts interact: the bignum references call each other as in the source (reference_gcd
-- calls reference_mod, which calls reference_divmod; reference_dmontmul calls reference_mul,
-- reference_madd, reference_le and reference_optsub; reference_coprime calls reference_oddgcd),
-- and all of them stand on Word. In the monitor, main reads a line, command_round looks at its
-- first token, execute_request parses the rest with the functions of Text, and every answer is
-- built by the functions of Reply.
--
-- Loops with a counter are structural recursion on the number of rounds that are left. Three
-- loops run on fuel: that of reference_gcd, for which a round lowers the sum of the two numbers;
-- that of reference_negmodinv, for which a round at least doubles the number of correct digits or
-- comes to the last one; and that of main, for which a round takes at least one character off the
-- input. The recursion of pow_3329 and pow_8380417 halves the exponent, so that the exponent is
-- fuel enough.
--
-- Not modelled: the assembly functions and their proofs, the references for byte order, bit
-- counts, divsteps, Keccak and the number theoretic transforms, the curve references of
-- tests/test.c that call assembly functions, the other test cases and the random number
-- generator, tests/ref_aes_xts.c, the copy of TweetNaCl in tests/tweetnacl_excerpt.c, the
-- functions of include/s2n-bignum.h on curves, Keccak and AES and the transforms of ML-KEM and
-- ML-DSA, print_regs of the simulators, which DEBUG = 0 switches off, and benchmarks/benchmark.c,
-- which only measures time. The semihosting calls of the monitor are its input list and the list
-- of what it sends.
pub mod Bignum
pub mod Cfi
pub mod Contract
pub mod Cosim
pub mod Examples
pub mod Harness
pub mod Lattice
pub mod Prelude
pub mod Primes
pub mod Sampling
pub mod Simulator
pub mod Word
