-- ===== src/Cfi/Intel.antt =====
-- include/_internal_s2n_bignum_x86.h, the macros in Intel syntax.
use s2n_bignum.Prelude.{ℕ, List, [], ◌∷◌}
use s2n_bignum.Prelude.Int.{pos, sub_ℕ}
use s2n_bignum.Cfi.{
  Line, instruction, cfi_adjust_cfa_offset, cfi_rel_offset, cfi_restore, push, pop, add, sub, mov,
  register, immediate, stack, stack_pointer,
}

unfoldable pub cfi_push : ℕ → List Line
cfi_push reg =
    instruction push (register reg ∷ []) ∷ cfi_adjust_cfa_offset (pos 8) ∷ cfi_rel_offset reg 0 ∷ []

unfoldable pub cfi_pop : ℕ → List Line
cfi_pop reg =
    instruction pop (register reg ∷ []) ∷ cfi_adjust_cfa_offset (sub_ℕ 0 8) ∷ cfi_restore reg ∷ []

unfoldable pub cfi_inc_rsp : ℕ → List Line
cfi_inc_rsp offset =
    instruction add (stack_pointer ∷ immediate offset ∷ [])
    ∷ cfi_adjust_cfa_offset (sub_ℕ 0 offset)
    ∷ []

unfoldable pub cfi_dec_rsp : ℕ → List Line
cfi_dec_rsp offset =
    instruction sub (stack_pointer ∷ immediate offset ∷ [])
    ∷ cfi_adjust_cfa_offset (pos offset)
    ∷ []

unfoldable pub cfi_stacksave : ℕ → ℕ → List Line
cfi_stacksave reg offset =
    instruction mov (stack offset ∷ register reg ∷ []) ∷ cfi_rel_offset reg offset ∷ []

unfoldable pub cfi_stackload : ℕ → ℕ → List Line
cfi_stackload reg offset = instruction mov (register reg ∷ stack offset ∷ []) ∷ cfi_restore reg ∷ []
