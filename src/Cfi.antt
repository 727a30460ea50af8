-- ===== src/Cfi.antt =====
-- include/_internal_s2n_bignum_x86.h and include/_internal_s2n_bignum_x86_att.h, the macros that pair
-- an instruction on the stack with directives for the unwinder (call frame information), in the two
-- syntaxes of x86 assembly. A macro is the list of the lines that it expands to; a frame is what the
-- instructions and the directives act on.
pub mod Intel
pub mod Att
pub mod Unwind
pub mod Keep
pub mod Syntax
use s2n_bignum.Prelude.{
  ℕ, zero, suc, ◌+◌, ◌-◌, List, [], ◌∷◌, Option, none, some, ◌==◌, if◌then◌else◌,
}
use s2n_bignum.Prelude.Int.{ℤ, pos_part, neg_part}
use mathlib.Core.List.{reverse}

-- `stack n` is the memory at `n` bytes from the stack pointer.
pub data Operand : Type 0 where
  register : ℕ → Operand
  immediate : ℕ → Operand
  stack : ℕ → Operand
  stack_pointer : Operand

-- The mnemonics of the macros; those with a q are of the AT&T syntax.
pub data Mnemonic : Type 0 where
  push : Mnemonic
  pop : Mnemonic
  add : Mnemonic
  sub : Mnemonic
  mov : Mnemonic
  pushq : Mnemonic
  popq : Mnemonic
  addq : Mnemonic
  subq : Mnemonic

pub data Line : Type 0 where
  instruction : Mnemonic → List Operand → Line
  cfi_adjust_cfa_offset : ℤ → Line
  cfi_rel_offset : ℕ → ℕ → Line
  cfi_restore : ℕ → Line

-- The machine, and what the unwinder knows: the canonical frame address (CFA) is `cfa_offset` above
-- the stack pointer, and a register with a rule was saved at that distance below the CFA.
pub record Frame : Type 0 where
  pub sp : ℕ
  pub reg : ℕ → ℕ
  pub mem : ℕ → ℕ
  pub cfa_offset : ℕ
  pub rule : ℕ → Option ℕ

-- A function changed at one argument.
unfoldable pub update {ℓ} : {A : Type ℓ} → (ℕ → A) → ℕ → A → ℕ → A
update f i a j = if j == i then a else f j

unfoldable pub move_sp : ℕ → Frame → Frame
move_sp sp f = record f { sp = sp }

unfoldable pub store : ℕ → ℕ → Frame → Frame
store address r f = record f { mem = update f.mem address (f.reg r) }

unfoldable pub load : ℕ → ℕ → Frame → Frame
load r address f = record f { reg = update f.reg r (f.mem address) }

-- An instruction with its operands in the order of the Intel syntax, the target first.
unfoldable pub intel : Mnemonic → List Operand → Frame → Option Frame
intel push (register r ∷ []) f = let sp = f.sp - 8 in some (store sp r (move_sp sp f))
intel pop (register r ∷ []) f = some (move_sp (f.sp + 8) (load r f.sp f))
intel add (stack_pointer ∷ immediate n ∷ []) f = some (move_sp (f.sp + n) f)
intel sub (stack_pointer ∷ immediate n ∷ []) f = some (move_sp (f.sp - n) f)
intel mov (stack n ∷ register r ∷ []) f = some (store (f.sp + n) r f)
intel mov (register r ∷ stack n ∷ []) f = some (load r (f.sp + n) f)
intel _ _ f = none

abbrev pub without_suffix : Mnemonic → Mnemonic
without_suffix pushq = push
without_suffix popq = pop
without_suffix addq = add
without_suffix subq = sub
without_suffix m = m

-- The AT&T syntax writes the target last, and the size of the operands as a suffix.
unfoldable pub att : Mnemonic → List Operand → Frame → Option Frame
att m operands f = intel (without_suffix m) (reverse operands) f

unfoldable pub adjusted : ℕ → ℤ → ℕ
adjusted offset n = offset + pos_part n - neg_part n

-- The directives: a changed distance of the CFA; a register that is saved at an offset from the stack
-- pointer; a register that has its own value again.
unfoldable pub direct : Line → Frame → Frame
direct (instruction m operands) f = f
direct (cfi_adjust_cfa_offset n) f = record f { cfa_offset = adjusted f.cfa_offset n }
direct (cfi_rel_offset r n) f = record f { rule = update f.rule r (some (f.cfa_offset - n)) }
direct (cfi_restore r) f = record f { rule = update f.rule r none }

-- The lines of an expansion one after the other, in either syntax.
unfoldable pub run :
    (Mnemonic → List Operand → Frame → Option Frame) → List Line → Frame → Option Frame
run syntax [] f = some f
run syntax (instruction m operands ∷ lines) f = elim (syntax m operands f) [
  | none ↦ none
  | some g ↦ run syntax lines g
]
run syntax (cfi_adjust_cfa_offset n ∷ lines) f =
    run syntax lines (direct (cfi_adjust_cfa_offset n) f)
run syntax (cfi_rel_offset r n ∷ lines) f = run syntax lines (direct (cfi_rel_offset r n) f)
run syntax (cfi_restore r ∷ lines) f = run syntax lines (direct (cfi_restore r) f)
