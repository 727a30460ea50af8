-- ===== src/Cfi/Syntax.antt =====
-- The macros mean the same in either syntax.
use s2n_bignum.Prelude.{ℕ, ◌≡◌, refl}
use s2n_bignum.Cfi.{Frame, run, intel, att}
use s2n_bignum.Cfi.Intel
use s2n_bignum.Cfi.Att

-- Each of the six macros has the same effect on any frame in the AT&T syntax as in the Intel syntax.
pub run-att :
    (f : Frame) (reg offset : ℕ)
    → (run att (Att.cfi_push reg) f ≡ run intel (Intel.cfi_push reg) f)
      × (run att (Att.cfi_pop reg) f ≡ run intel (Intel.cfi_pop reg) f)
      × (run att (Att.cfi_inc_rsp offset) f ≡ run intel (Intel.cfi_inc_rsp offset) f)
      × (run att (Att.cfi_dec_rsp offset) f ≡ run intel (Intel.cfi_dec_rsp offset) f)
      × (run att (Att.cfi_stacksave reg offset) f ≡ run intel (Intel.cfi_stacksave reg offset) f)
      × (run att (Att.cfi_stackload reg offset) f ≡ run intel (Intel.cfi_stackload reg offset) f)
unfolding run att intel Att.cfi_push Att.cfi_pop Att.cfi_inc_rsp Att.cfi_dec_rsp Att.cfi_stacksave
    Att.cfi_stackload Intel.cfi_push Intel.cfi_pop Intel.cfi_inc_rsp Intel.cfi_dec_rsp
    Intel.cfi_stacksave Intel.cfi_stackload
run-att f reg offset = (refl, refl, refl, refl, refl, refl)
