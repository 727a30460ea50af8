-- ===== src/Cfi/Att.antt =====
-- include/_internal_s2n_bignum_x86_att.h, the macros in AT&T syntax.
use s2n_bignum.Prelude.{ℕ, List, [], ◌∷◌}
use s2n_bignum.Prelude.Int.{pos, sub_ℕ}
use s2n_bignum.Cfi.{
  Line, instruction, cfi_adjust_cfa_offset, cfi_rel_offset, cfi_restore, pushq, popq, addq, subq,
  mov, register, immediate, stack, stack_pointer,
}

unfoldable pub cfi_push : ℕ → List Line
cfi_push reg =
    instruction pushq (register reg ∷ [])
    ∷ cfi_adjust_cfa_offset (pos 8)
    ∷ cfi_rel_offset reg 0
    ∷ []

unfoldable pub cfi_pop : ℕ → List Line
cfi_pop reg =
    instruction popq (register reg ∷ []) ∷ cfi_adjust_cfa_offset (sub_ℕ 0 8) ∷ cfi_restore reg ∷ []

unfoldable pub cfi_inc_rsp : ℕ → List Line
cfi_inc_rsp offset =
    instruction addq (immediate offset ∷ stack_pointer ∷ [])
    ∷ cfi_adjust_cfa_offset (sub_ℕ 0 offset)
    ∷ []

unfoldable pub cfi_dec_rsp : ℕ → List Line
cfi_dec_rsp offset =
    instruction subq (immediate offset ∷ stack_pointer ∷ [])
    ∷ cfi_adjust_cfa_offset (pos offset)
    ∷ []

unfoldable pub cfi_stacksave : ℕ → ℕ → List Line
cfi_stacksave reg offset =
    instruction mov (register reg ∷ stack offset ∷ []) ∷ cfi_rel_offset reg offset ∷ []

unfoldable pub cfi_stackload : ℕ → ℕ → List Line
cfi_stackload reg offset = instruction mov (stack offset ∷ register reg ∷ []) ∷ cfi_restore reg ∷ []
