-- ===== src/Cfi/Keep.antt =====
-- What the directives are for: whatever a function saves by the macros and changes then, the unwinder finds
-- it. Where a register is saved is what the function did, and not what the unwinder knows.
use s2n_bignum.Prelude.{
  ℕ, ◌+◌, ◌-◌, ◌≤◌, ◌≡◌, ◌≢◌, refl, sym, ap, ◌∙◌, Option, none, some, Bool, true, false, ◌⊎◌, inl,
  inr, ◌==◌, Bool-cases, arith,
}
use s2n_bignum.Cfi.{Frame, update, run, intel, direct, store, load, move_sp, adjusted}
use s2n_bignum.Cfi.Intel.{cfi_push, cfi_pop, cfi_inc_rsp, cfi_dec_rsp, cfi_stacksave, cfi_stackload}
use s2n_bignum.Cfi.Unwind.{
  push_step, pop_step, dec_step, inc_step, save_step, load_step, register_step, memory_step,
  Unwinds, preserved, start, found, unwound,
}
use mathlib.Core.Path.{subst}
use mathlib.Core.Option.{some-injective, none-ne-some}

-- A point in a function: the frame, and the address at which the function has put the value of a register
-- of its caller, until it is given up.
pub record State : Type 0 where
  pub frame : Frame
  pub slot : ℕ → Option ℕ

module _ (callee_saved : ℕ → Bool) where
  -- What a function with the macros does, under the conditions that make it a correct function: it
  -- saves a register to keep, with its value still there, to a place of its own below the address `top`
  -- of the caller's frame, loads it from there, does not release the stack at or above a place in use, and
  -- between the macros changes only registers that need not be kept or are saved, and memory where nothing
  -- is saved.
  pub data Use (top : ℕ) : State → State → Type 0 where
    push_use :
        {s : State} {g : Frame} (r : ℕ)
        → callee_saved r ≡ true
        → s.slot r ≡ none
        → 8 ≤ s.frame.sp
        → run intel (cfi_push r) s.frame ≡ some g
        → Use top s (record { frame = g; slot = update s.slot r (some (s.frame.sp - 8)) })
    pop_use :
        {s : State} {g : Frame} (r : ℕ)
        → s.slot r ≡ some s.frame.sp
        → s.frame.sp + 8 ≤ top
        → ((q a : ℕ) → q ≢ r → s.slot q ≡ some a → s.frame.sp + 8 ≤ a)
        → run intel (cfi_pop r) s.frame ≡ some g
        → Use top s (record { frame = g; slot = update s.slot r none })
    dec_use :
        {s : State} {g : Frame} (n : ℕ)
        → n ≤ s.frame.sp
        → run intel (cfi_dec_rsp n) s.frame ≡ some g
        → Use top s (record s { frame = g })
    inc_use :
        {s : State} {g : Frame} (n : ℕ)
        → s.frame.sp + n ≤ top
        → ((q a : ℕ) → s.slot q ≡ some a → s.frame.sp + n ≤ a)
        → run intel (cfi_inc_rsp n) s.frame ≡ some g
        → Use top s (record s { frame = g })
    save_use :
        {s : State} {g : Frame} (r n : ℕ)
        → callee_saved r ≡ true
        → s.slot r ≡ none
        → s.frame.sp + n ≤ top
        → ((q a : ℕ) → s.slot q ≡ some a → a ≢ s.frame.sp + n)
        → run intel (cfi_stacksave r n) s.frame ≡ some g
        → Use top s (record { frame = g; slot = update s.slot r (some (s.frame.sp + n)) })
    load_use :
        {s : State} {g : Frame} (r n : ℕ)
        → s.slot r ≡ some (s.frame.sp + n)
        → run intel (cfi_stackload r n) s.frame ≡ some g
        → Use top s (record { frame = g; slot = update s.slot r none })
    register_use :
        {s : State} (r v : ℕ)
        → (callee_saved r ≡ false) ⊎ ((a : ℕ) × (s.slot r ≡ some a))
        → Use top s (record s { frame = record s.frame { reg = update s.frame.reg r v } })
    memory_use :
        {s : State} (a v : ℕ)
        → ((q b : ℕ) → s.slot q ≡ some b → b ≢ a)
        → Use top s (record s { frame = record s.frame { mem = update s.frame.mem a v } })

  pub data Uses (top : ℕ) : State → State → Type 0 where
    done : {s : State} → Uses top s s
    more : {s t u : State} → Uses top s t → Use top t u → Uses top s u

  -- The unwinder's rule for a register that is saved at an address, or is not saved.
  Agree : ℕ → Option ℕ → Option ℕ → Type 0
  Agree top none rule = rule ≡ none
  Agree top (some a) rule = (a ≤ top) × (rule ≡ some (top - a))

  record Kept (top : ℕ) (saved : ℕ → ℕ) (s : State) : Type 0 where
    unwinds : Unwinds callee_saved top saved s.frame
    agrees : (q : ℕ) → Agree top (s.slot q) (s.frame.rule q)

  Agree-update :
      (top r : ℕ) (slot rule : ℕ → Option ℕ) (o u : Option ℕ)
      → Agree top o u
      → ((q : ℕ) → Agree top (slot q) (rule q))
      → (q : ℕ) → Agree top (update slot r o q) (update rule r u q)
  unfolding update
  Agree-update top r slot rule o u new old q = elim (Bool-cases (q == r)) [
    | inl same ↦ rw same new
    | inr other ↦ rw other (old q)
  ]

  -- The rule of a saved register, and what a rule says of the slot.
  rule_of :
      (top a : ℕ) (o u : Option ℕ) → o ≡ some a → Agree top o u → (a ≤ top) × (u ≡ some (top - a))
  unfolding Agree
  rule_of top a o u e h = subst (λ (o : Option ℕ). Agree top o u) e h

  no_rule : (top : ℕ) (o u : Option ℕ) → o ≡ none → Agree top o u → u ≡ none
  unfolding Agree
  no_rule top o u e h = subst (λ (o : Option ℕ). Agree top o u) e h

  slot_of :
      (top d : ℕ) (o u : Option ℕ)
      → Agree top o u
      → u ≡ some d
      → (a : ℕ) × (o ≡ some a) × (a ≤ top) × (d ≡ top - a)
  unfolding Agree
  slot_of top d none u h e = absurd (none-ne-some _ (sym h ∙ e))
  slot_of top d (some a) u (le, h) e = (a, refl, le, some-injective _ _ (sym e ∙ h))

  -- The rules of the frame that a macro leads to.
  Agree-reached :
      {f g : Frame} {o : Option Frame} (top : ℕ) (slot : ℕ → Option ℕ)
      → o ≡ some f
      → o ≡ some g
      → ((q : ℕ) → Agree top (slot q) (f.rule q))
      → (q : ℕ) → Agree top (slot q) (g.rule q)
  Agree-reached top slot same e h =
      subst (λ (x : Frame). (q : ℕ) → Agree top (slot q) (x.rule q))
        (some-injective _ _ (sym same ∙ e)) h

  module _ (top : ℕ) (saved : ℕ → ℕ) where
    used : {s t : State} → Use top s t → Kept top saved s → Kept top saved t
    unfolding run intel cfi_push cfi_pop cfi_inc_rsp cfi_dec_rsp cfi_stacksave cfi_stackload direct
        store load move_sp adjusted Agree
    used {s} (push_use r keep free room e) k =
        let cfa = k.unwinds.cfa in
        let rule = no_rule top (s.slot r) (s.frame.rule r) free (k.agrees r) in
        record {
          unwinds = preserved callee_saved top saved (push_step r keep rule room e) k.unwinds;
          agrees = Agree-reached top _ refl e (
              Agree-update top r s.slot s.frame.rule (some (s.frame.sp - 8))
                (some (s.frame.cfa_offset + 8 - 0 - 0))
                (omega (arith, cfa), ap some (omega (arith, cfa, room))) k.agrees);
        }
    used {s} (pop_use r held room above e) k =
        let cfa = k.unwinds.cfa in
        let (le, rule) = rule_of top s.frame.sp (s.slot r) (s.frame.rule r) held (k.agrees r) in
        let at : top - s.frame.sp ≡ s.frame.cfa_offset = omega (arith, cfa) in
        record {
          unwinds =
              preserved callee_saved top saved
                (pop_step r (omega (arith, cfa, room)) (rule ∙ ap some at)
                  (λ q d ne h.
                    let (a, at_a, below, is) =
                      slot_of top d (s.slot q) (s.frame.rule q) (k.agrees q) h in
                    let far = above q a ne at_a in omega (arith, far, below, is, cfa))
                  e)
                k.unwinds;
          agrees =
              Agree-reached top _ refl e
                (Agree-update top r s.slot s.frame.rule none none refl k.agrees);
        }
    used {s} (dec_use n room e) k = record {
      unwinds = preserved callee_saved top saved (dec_step n room e) k.unwinds;
      agrees = Agree-reached top _ refl e k.agrees;
    }
    used {s} (inc_use n room above e) k =
        let cfa = k.unwinds.cfa in
        record {
          unwinds =
              preserved callee_saved top saved
                (inc_step n (omega (arith, cfa, room))
                  (λ q d h.
                    let (a, at_a, below, is) =
                      slot_of top d (s.slot q) (s.frame.rule q) (k.agrees q) h in
                    let far = above q a at_a in omega (arith, far, below, is, cfa))
                  e)
                k.unwinds;
          agrees = Agree-reached top _ refl e k.agrees;
        }
    used {s} (save_use r n keep free room apart e) k =
        let cfa = k.unwinds.cfa in
        let rule = no_rule top (s.slot r) (s.frame.rule r) free (k.agrees r) in
        record {
          unwinds =
              preserved callee_saved top saved
                (save_step r n keep rule (omega (arith, cfa, room))
                  (λ q d h same.
                    let (a, at_a, below, is) =
                      slot_of top d (s.slot q) (s.frame.rule q) (k.agrees q) h in
                    apart q a at_a (omega (arith, below, is, cfa, same)))
                  e)
                k.unwinds;
          agrees = Agree-reached top _ refl e (
              Agree-update top r s.slot s.frame.rule (some (s.frame.sp + n))
                (some (s.frame.cfa_offset - n)) (room, ap some (omega (arith, cfa, room)))
                k.agrees);
        }
    used {s} (load_use r n held e) k =
        let cfa = k.unwinds.cfa in
        let (le, rule) =
          rule_of top (s.frame.sp + n) (s.slot r) (s.frame.rule r) held (k.agrees r) in
        record {
          unwinds =
              preserved callee_saved top saved
                (load_step r n (top - (s.frame.sp + n)) rule (omega (arith, cfa, le)) e) k.unwinds;
          agrees =
              Agree-reached top _ refl e
                (Agree-update top r s.slot s.frame.rule none none refl k.agrees);
        }
    used {s} (register_use r v (inl need)) k = record {
      unwinds = preserved callee_saved top saved (register_step r v (inl need)) k.unwinds;
      agrees = k.agrees;
    }
    used {s} (register_use r v (inr (a, held))) k =
        let (le, rule) = rule_of top a (s.slot r) (s.frame.rule r) held (k.agrees r) in
        record {
          unwinds =
              preserved callee_saved top saved (register_step r v (inr (top - a, rule))) k.unwinds;
          agrees = k.agrees;
        }
    used {s} (memory_use a v apart) k =
        let cfa = k.unwinds.cfa in
        record {
          unwinds =
              preserved callee_saved top saved
                (memory_step a v (λ q d h same.
                  let (b, at_b, below, is) =
                    slot_of top d (s.slot q) (s.frame.rule q) (k.agrees q) h in
                  apart q b at_b (omega (arith, below, is, cfa, same))))
                k.unwinds;
          agrees = k.agrees;
        }

    all_used : {s t : State} → Uses top s t → Kept top saved s → Kept top saved t
    all_used done k = k
    all_used (more uses use_) k = used use_ (all_used uses k)

  -- From a frame in which nothing is saved and the unwinder has no rules, such as at the entry of a
  -- function: after any sequence of the six macros and of other writes to registers and memory, under the
  -- conditions that say where the function itself has put the values to keep, the CFA that the unwinder
  -- computes is where it was, and it finds for every register to keep the value from the start, also where
  -- the function has changed the register since it saved it.
  pub unwound-Uses :
      {s t : State} (r : ℕ)
      → ((q : ℕ) → s.frame.rule q ≡ none)
      → ((q : ℕ) → s.slot q ≡ none)
      → callee_saved r ≡ true
      → Uses (s.frame.sp + s.frame.cfa_offset) s t
      → (t.frame.sp + t.frame.cfa_offset ≡ s.frame.sp + s.frame.cfa_offset)
        × (unwound t.frame r ≡ s.frame.reg r)
  unfolding Agree
  unwound-Uses {s} {t} r fresh empty keep uses =
      let top = s.frame.sp + s.frame.cfa_offset in
      let begin : Kept top s.frame.reg s = record {
        unwinds = start callee_saved s.frame fresh;
        agrees =
            λ q. subst (λ (o : Option ℕ). Agree top o (s.frame.rule q)) (sym (empty q)) (fresh q);
      } in
      let k = all_used top s.frame.reg uses begin in
      (k.unwinds.cfa, found callee_saved top s.frame.reg t.frame k.unwinds r keep)
