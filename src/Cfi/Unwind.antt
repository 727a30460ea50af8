-- ===== src/Cfi/Unwind.antt =====
-- The macros by the rules of the unwinder: what keeps its rules true of the machine.
use s2n_bignum.Prelude.{
  ℕ, ◌+◌, ◌-◌, ◌≤◌, ◌≡◌, ◌≢◌, refl, sym, ap, ◌∙◌, Option, none, some, Bool, true, false, ◌⊎◌, inl,
  inr, ◌==◌, ==_iff, Bool-cases, arith, Option-cases,
}
use s2n_bignum.Prelude.Int.{pos, sub_ℕ}
use s2n_bignum.Cfi.{
  cfi_adjust_cfa_offset, cfi_rel_offset, cfi_restore, Frame, update, run, intel, direct, store,
  load, move_sp, adjusted,
}
use s2n_bignum.Cfi.Intel.{cfi_push, cfi_pop, cfi_inc_rsp, cfi_dec_rsp, cfi_stacksave, cfi_stackload}
use mathlib.Core.Bool.{true≢false}
use mathlib.Core.Path.{subst}
use mathlib.Core.Option.{some-injective, none-ne-some}

update-same : {A : Type 0} (f : ℕ → A) (i : ℕ) (a : A) → update f i a i ≡ a
unfolding update
update-same f i a = rw ((==_iff i i).1 refl) refl

not_equal : (j i : ℕ) → (j == i) ≡ false → j ≢ i
not_equal j i h = λ e. absurd (ground (arith, h, e))

differs : (i j : ℕ) → j ≢ i → (j == i) ≡ false
differs i j ne = elim (Bool-cases (j == i)) [ inl e ↦ absurd (ne ((==_iff j i).0 e)) | inr e ↦ e ]

update-other : {A : Type 0} (f : ℕ → A) (i : ℕ) (a : A) (j : ℕ) → j ≢ i → update f i a j ≡ f j
unfolding update
update-other f i a j ne = rw (differs i j ne) refl

pub update-cases :
    {A : Type 0} (f : ℕ → A) (i : ℕ) (a : A) (j : ℕ) (v : A)
    → update f i a j ≡ v
    → ((j ≡ i) × (a ≡ v)) ⊎ ((j ≢ i) × (f j ≡ v))
update-cases f i a j v h = elim (Bool-cases (j == i)) [
  | inl e ↦
      let same : j ≡ i = (==_iff j i).0 e in
      inl (same, sym (update-same f i a) ∙ ap (update f i a) (sym same) ∙ h)
  | inr e ↦ let ne : j ≢ i = not_equal j i e in inr (ne, sym (update-other f i a j ne) ∙ h)
]

-- What the unwinder takes for the caller's value of a register.
abbrev looked_up : Option ℕ → Frame → ℕ → ℕ
looked_up none f r = f.reg r
looked_up (some d) f r = f.mem (f.sp + f.cfa_offset - d)

unfoldable pub unwound : Frame → ℕ → ℕ
unwound f r = looked_up (f.rule r) f r

module _ (callee_saved : ℕ → Bool) where
  -- A macro, or a change of a register or of memory, under conditions on the rules of the unwinder. Memory
  -- is in words that do not overlap.
  pub data Step : Frame → Frame → Type 0 where
    push_step :
        {f g : Frame} (r : ℕ)
        → callee_saved r ≡ true
        → f.rule r ≡ none
        → 8 ≤ f.sp
        → run intel (cfi_push r) f ≡ some g
        → Step f g
    pop_step :
        {f g : Frame} (r : ℕ)
        → 8 ≤ f.cfa_offset
        → f.rule r ≡ some f.cfa_offset
        → ((q d : ℕ) → q ≢ r → f.rule q ≡ some d → d + 8 ≤ f.cfa_offset)
        → run intel (cfi_pop r) f ≡ some g
        → Step f g
    dec_step : {f g : Frame} (n : ℕ) → n ≤ f.sp → run intel (cfi_dec_rsp n) f ≡ some g → Step f g
    inc_step :
        {f g : Frame} (n : ℕ)
        → n ≤ f.cfa_offset
        → ((q d : ℕ) → f.rule q ≡ some d → d + n ≤ f.cfa_offset)
        → run intel (cfi_inc_rsp n) f ≡ some g
        → Step f g
    save_step :
        {f g : Frame} (r n : ℕ)
        → callee_saved r ≡ true
        → f.rule r ≡ none
        → n ≤ f.cfa_offset
        → ((q d : ℕ) → f.rule q ≡ some d → d + n ≢ f.cfa_offset)
        → run intel (cfi_stacksave r n) f ≡ some g
        → Step f g
    load_step :
        {f g : Frame} (r n d : ℕ)
        → f.rule r ≡ some d
        → d + n ≡ f.cfa_offset
        → run intel (cfi_stackload r n) f ≡ some g
        → Step f g
    register_step :
        {f : Frame} (r v : ℕ)
        → (callee_saved r ≡ false) ⊎ ((d : ℕ) × (f.rule r ≡ some d))
        → Step f (record f { reg = update f.reg r v })
    memory_step :
        {f : Frame} (a v : ℕ)
        → ((q d : ℕ) → f.rule q ≡ some d → f.sp + f.cfa_offset - d ≢ a)
        → Step f (record f { mem = update f.mem a v })

  -- The CFA has not moved, each saved register's slot is between the stack pointer and the CFA and
  -- holds the caller's value, and the other registers to keep hold theirs themselves.
  pub record Unwinds (c : ℕ) (saved : ℕ → ℕ) (f : Frame) : Type 0 where
    pub cfa : f.sp + f.cfa_offset ≡ c
    pub slots : (r d : ℕ) → f.rule r ≡ some d → (d ≤ f.cfa_offset) × (f.mem (c - d) ≡ saved r)
    pub kept : (r : ℕ) → callee_saved r ≡ true → f.rule r ≡ none → f.reg r ≡ saved r

  module _ (c : ℕ) (saved : ℕ → ℕ) (f : Frame) (u : Unwinds c saved f) where
    -- A new slot, where none is, at an address that lies between the stack pointer and the CFA.
    saved_slot :
        (r n : ℕ)
        → callee_saved r ≡ true
        → f.rule r ≡ none
        → n ≤ f.cfa_offset
        → ((q d : ℕ) → f.rule q ≡ some d → d + n ≢ f.cfa_offset)
        → Unwinds c saved (direct (cfi_rel_offset r n) (store (f.sp + n) r f))
    unfolding direct store
    saved_slot r n keep free room apart = record {
      cfa = u.cfa;
      slots = λ q d h. elim (update-cases f.rule r (some (f.cfa_offset - n)) q (some d) h) [
        | inl (same, eq) ↦
            let e = some-injective (f.cfa_offset - n) d eq in
            (
              omega (arith, e),
              ap (update f.mem (f.sp + n) (f.reg r)) (omega (arith, e, u.cfa, room))
                  ∙ update-same f.mem (f.sp + n) (f.reg r)
                  ∙ u.kept r keep free
                  ∙ ap saved (sym same),
            )
        | inr (ne, old) ↦
            let (le, m) = u.slots q d old in
            let other = apart q d old in
            (
              le,
              update-other f.mem (f.sp + n) (f.reg r) (c - d)
                    (λ same. other (omega (arith, same, le, u.cfa, room)))
                  ∙ m,
            )
      ];
      kept = λ q keep h. elim (update-cases f.rule r (some (f.cfa_offset - n)) q none h) [
        | inl (same, eq) ↦ absurd (none-ne-some _ (sym eq))
        | inr (ne, old) ↦ u.kept q keep old
      ];
    }

    -- The stack pointer moves down, and the CFA is farther from it.
    lowered :
        (n : ℕ)
        → n ≤ f.sp
        → Unwinds c saved (direct (cfi_adjust_cfa_offset (pos n)) (move_sp (f.sp - n) f))
    unfolding direct move_sp adjusted
    lowered n room = record {
      cfa = omega (arith, u.cfa, room);
      slots = λ q d h. let (le, m) = u.slots q d h in (omega (arith, le), m);
      kept = u.kept;
    }

    -- It moves up, not beyond a slot.
    raised :
        (n : ℕ)
        → n ≤ f.cfa_offset
        → ((q d : ℕ) → f.rule q ≡ some d → d + n ≤ f.cfa_offset)
        → Unwinds c saved (direct (cfi_adjust_cfa_offset (sub_ℕ 0 n)) (move_sp (f.sp + n) f))
    unfolding direct move_sp adjusted
    raised n room above = record {
      cfa = ground (arith, u.cfa, room);
      slots =
          λ q d h. let m = (u.slots q d h).1 in let far = above q d h in (ground (arith, far), m);
      kept = u.kept;
    }

    -- A register has its value again, and its slot is given up.
    restored :
        (r d : ℕ) → f.rule r ≡ some d → Unwinds c saved (direct (cfi_restore r) (load r (c - d) f))
    unfolding direct load
    restored r d held = record {
      cfa = u.cfa;
      slots = λ q e h. elim (update-cases f.rule r none q (some e) h) [
        | inl (same, eq) ↦ absurd (none-ne-some _ eq)
        | inr (ne, old) ↦ u.slots q e old
      ];
      kept = λ q keep h. elim (update-cases f.rule r none q none h) [
        | inl (same, eq) ↦
            ap (update f.reg r (f.mem (c - d))) same
            ∙ update-same f.reg r (f.mem (c - d))
            ∙ (u.slots r d held).1
            ∙ ap saved (sym same)
        | inr (ne, old) ↦ update-other f.reg r (f.mem (c - d)) q ne ∙ u.kept q keep old
      ];
    }

  unsaved :
      (f : Frame) (r : ℕ) {q : ℕ}
      → (callee_saved r ≡ false) ⊎ ((d : ℕ) × (f.rule r ≡ some d))
      → q ≡ r
      → callee_saved q ≡ true
      → f.rule q ≡ none
      → ⊥
  unsaved f r (inl need) same keep h = true≢false (sym keep ∙ ap callee_saved same ∙ need)
  unsaved f r (inr (d, held)) same keep h = none-ne-some _ (sym h ∙ ap f.rule same ∙ held)

  pub start : (f : Frame) → ((q : ℕ) → f.rule q ≡ none) → Unwinds (f.sp + f.cfa_offset) f.reg f
  start f fresh = record {
    cfa = refl;
    slots = λ q d h. absurd (none-ne-some _ (sym (fresh q) ∙ h));
    kept = λ q keep h. refl;
  }

  pub found :
      (c : ℕ) (saved : ℕ → ℕ) (g : Frame)
      → Unwinds c saved g
      → (r : ℕ) → callee_saved r ≡ true
      → unwound g r ≡ saved r
  unfolding unwound
  found c saved g u r keep = elim (Option-cases (g.rule r)) [
    | inl free ↦ ap (λ (o : Option ℕ). looked_up o g r) free ∙ u.kept r keep free
    | inr (d, held) ↦
        ap (λ (o : Option ℕ). looked_up o g r) held
        ∙ ap (λ (t : ℕ). g.mem (t - d)) u.cfa
        ∙ (u.slots r d held).1
  ]

  module _ (c : ℕ) (saved : ℕ → ℕ) where
    -- The frame that a macro leads to is the one that its lines compute.
    reached :
        {g h : Frame} {o : Option Frame}
        → o ≡ some h
        → o ≡ some g
        → Unwinds c saved h
        → Unwinds c saved g
    reached same e u =
        subst (λ (x : Frame). Unwinds c saved x) (some-injective _ _ (sym same ∙ e)) u

    pub preserved : {f g : Frame} → Step f g → Unwinds c saved f → Unwinds c saved g
    unfolding run intel cfi_push cfi_pop cfi_inc_rsp cfi_dec_rsp cfi_stacksave cfi_stackload direct
        store load move_sp adjusted
    preserved {f} {g} (push_step r keep free room e) u =
        let low = direct (cfi_adjust_cfa_offset (pos 8)) (move_sp (f.sp - 8) f) in
        let v = lowered c saved f u 8 room in
        let result =
          saved_slot c saved low v r 0 keep free (omega arith)
            (λ q d h. let le = (u.slots q d h).0 in λ same. absurd (omega (arith, same, le))) in
        reached (ap (λ (a : ℕ). some (direct (cfi_rel_offset r 0) (store a r low))) (omega arith)) e
          result
    preserved {f} {g} (pop_step r deep top above e) u =
        let d = f.cfa_offset in
        let v = restored c saved f u r d top in
        let result = raised c saved (direct (cfi_restore r) (load r (c - d) f)) v 8 deep (λ q d' h.
          elim (update-cases f.rule r none q (some d') h) [
            | inl (same, eq) ↦ absurd (none-ne-some _ eq)
            | inr (ne, old) ↦ above q d' ne old
          ]) in
        reached
          (ap
            (λ (a : ℕ). some (
              direct (cfi_adjust_cfa_offset (sub_ℕ 0 8))
                (move_sp (f.sp + 8) (direct (cfi_restore r) (load r a f)))))
            (omega (arith, u.cfa)))
          e result
    preserved {f} {g} (dec_step n room e) u = reached refl e (lowered c saved f u n room)
    preserved {f} {g} (inc_step n room above e) u = reached refl e (raised c saved f u n room above)
    preserved {f} {g} (save_step r n keep free room apart e) u =
        reached refl e (saved_slot c saved f u r n keep free room apart)
    preserved {f} {g} (load_step r n d held at e) u =
        let address : f.sp + n ≡ c - d = omega (arith, u.cfa, at) in
        reached (ap (λ (a : ℕ). some (direct (cfi_restore r) (load r a f))) address) e
          (restored c saved f u r d held)
    preserved {f} (register_step r v free) u = record {
      cfa = u.cfa;
      slots = u.slots;
      kept = λ q keep h. elim (Bool-cases (q == r)) [
        | inl e ↦ absurd (unsaved f r free ((==_iff q r).0 e) keep h)
        | inr e ↦ update-other f.reg r v q (not_equal q r e) ∙ u.kept q keep h
      ];
    }
    preserved {f} (memory_step a v apart) u = record {
      cfa = u.cfa;
      slots = λ q d h.
          let (le, m) = u.slots q d h in
          (
            le,
            update-other f.mem a v (c - d)
                  (λ same. apart q d h (ap (λ (t : ℕ). t - d) u.cfa ∙ same))
                ∙ m,
          );
      kept = u.kept;
    }
