-- ===== src/Examples/Cfi.antt =====
-- The theorems on the stack macros, for a function that saves one register and uses it.
use s2n_bignum.Prelude.{ℕ, ◌+◌, ◌≡◌, refl, none, some, ◌==◌, inr, arith, Bool}
use s2n_bignum.Cfi.{Frame, run, intel, att, update, direct, store, move_sp, adjusted}
use s2n_bignum.Cfi.Intel
use s2n_bignum.Cfi.Att
use s2n_bignum.Cfi.Syntax.{run-att}
use s2n_bignum.Cfi.Unwind.{unwound}
use s2n_bignum.Cfi.Keep.{State, Use, done, more, push_use, register_use, unwound-Uses}

abbrev rbx_only : ℕ → Bool
rbx_only r = r == 3

-- At the entry: the return address is on the stack.
abbrev entry : Frame
entry = record { sp = 1000; reg = λ r. 100 + r; mem = λ a. 0; cfa_offset = 8; rule = λ r. none }

-- After CFI_PUSH(rbx).
abbrev pushed : Frame
pushed = record {
  sp = 992;
  reg = λ r. 100 + r;
  mem = update (λ a. 0) 992 103;
  cfa_offset = 16;
  rule = update (λ r. none) 3 (some 16);
}

-- After a change of rbx.
abbrev changed : Frame
changed = record pushed { reg = update (λ r. 100 + r) 3 7 }

abbrev at_entry : State
at_entry = record { frame = entry; slot = λ r. none }

abbrev after_push : State
after_push = record { frame = pushed; slot = update (λ r. none) 3 (some 992) }

abbrev after_change : State
after_change = record after_push { frame = changed }

push_rbx : Use rbx_only 1008 at_entry after_push
unfolding run intel Intel.cfi_push direct store move_sp adjusted
push_rbx = push_use 3 refl refl (omega arith) refl

change_rbx : Use rbx_only 1008 after_push after_change
unfolding update
change_rbx = register_use 3 7 (inr (992, refl))

unwound-Uses_example :
    (changed.sp + changed.cfa_offset ≡ entry.sp + entry.cfa_offset)
    × (unwound changed 3 ≡ entry.reg 3)
unwound-Uses_example =
    unwound-Uses rbx_only {s = at_entry} {t = after_change} 3 (λ q. refl) (λ q. refl) refl
      (more (more done push_rbx) change_rbx)

run-att_example :
    (run att (Att.cfi_push 3) entry ≡ run intel (Intel.cfi_push 3) entry)
    × (run att (Att.cfi_pop 3) entry ≡ run intel (Intel.cfi_pop 3) entry)
    × (run att (Att.cfi_inc_rsp 16) entry ≡ run intel (Intel.cfi_inc_rsp 16) entry)
    × (run att (Att.cfi_dec_rsp 16) entry ≡ run intel (Intel.cfi_dec_rsp 16) entry)
    × (run att (Att.cfi_stacksave 3 16) entry ≡ run intel (Intel.cfi_stacksave 3 16) entry)
    × (run att (Att.cfi_stackload 3 16) entry ≡ run intel (Intel.cfi_stackload 3 16) entry)
run-att_example = run-att entry 3 16
