-- ===== src/Cosim/Monitor/Request.antt =====
-- One request, its reply and the machine after it.
use s2n_bignum.Prelude.{
  ℕ, ◌<◌, ◌≡◌, refl, ap, sym, List, [], ◌∷◌, ◌++◌, Option, none, some, Bool, true, false, ◌==◌,
  if◌then◌else◌, length, length-append, arith, take, drop, get_or, All-append, All-take, All-drop,
  length-take, length-drop, inl, inr, not, ◌⊎◌, Option-cases,
}
use mathlib.Core.Path.{subst}
use s2n_bignum.Cosim.Text.{next_token, decode_code, Decoded, decoded, malformed, code_overrun}
use s2n_bignum.Cosim.Text.Hex.{StaysInside, decode_code-StaysInside}
use s2n_bignum.Cosim.Reply.{codes, response_error, send_state, send_trap}
use s2n_bignum.Cosim.Reply.Fits.{IsReply, error-IsReply, send_trap-IsReply, is_clean}
use s2n_bignum.Cosim.Monitor.{
  Machine, Platform, Words, parse_words, state_words, Answer, reply, fault, no_return, answer,
  install_code, after_run, run_request, installed_request, state_request, store_words,
  words_request, execute_request,
}
use s2n_bignum.Cosim.Monitor.Echo.{IsWord, send_state_lem}
use s2n_bignum.Cosim.Monitor.Install.{
  IsMachine, IsParsed, parse_words_range, store_words-IsMachine, install-IsMachine,
}

-- There is a well-formed machine from which the platform's `rv32_run` does not return.
abbrev pub MayRun : Platform → ℕ → Type 0
MayRun p size = (m : Machine) × IsMachine size m × (p.run m ≡ none)

-- An answer that is one line of the protocol and leaves a machine well formed, or code that never
-- returns.
abbrev pub IsAnswer : Platform → ℕ → Answer → Type 0
IsAnswer p size a =
    ((sent : List ℕ) × (after : Machine) × (a ≡ reply sent after)
      × IsReply sent
      × IsMachine size after)
    ⊎ ((a ≡ no_return) × MayRun p size)

pub error-IsAnswer :
    (p : Platform) (size : ℕ) (reason : List ℕ) (m : Machine)
    → is_clean reason ≡ true
    → length reason < 100
    → IsMachine size m
    → IsAnswer p size (reply (response_error reason) m)
error-IsAnswer p size reason m clean small h =
    inl (response_error reason, m, refl, error-IsReply reason clean small, h)

state-IsAnswer :
    (p : Platform) (size : ℕ) (m : Machine)
    → IsMachine size m
    → IsAnswer p size (answer (send_state m.state) m)
state-IsAnswer p size m h =
    let (text, run, _, line) = send_state_lem m.state h.state_range h.state_length in
    inl (codes "OK" ++ text ++ 10 ∷ [], m, ap (λ (o : Option (List ℕ)). answer o m) run, line, h)

trap-IsAnswer :
    (p : Platform) (size : ℕ) (m : Machine)
    → IsMachine size m
    → IsAnswer p size (answer (send_trap m.trap_cause m.trap_value) m)
trap-IsAnswer p size m h =
    let (text, run, line) =
      send_trap-IsReply m.trap_cause m.trap_value h.cause_range h.value_range in
    inl (text, m, ap (λ (o : Option (List ℕ)). answer o m) run, line, h)

if-IsAnswer :
    (p : Platform) (size : ℕ) (b : Bool) (x y : Answer)
    → IsAnswer p size x
    → IsAnswer p size y
    → IsAnswer p size (if b then x else y)
if-IsAnswer p size true x y hx hy = hx
if-IsAnswer p size false x y hx hy = hy

option-IsAnswer :
    {A : Type 0} (p : Platform) (size : ℕ) (o : Option A) (n : Answer) (f : A → Answer)
    → IsAnswer p size n
    → ((a : A) → IsAnswer p size (f a))
    → IsAnswer p size (elim o as (λ x. Answer) [ none ↦ n | some a ↦ f a ])
option-IsAnswer p size none n f hn hf = hn
option-IsAnswer p size (some a) n f hn hf = hf a

kept-IsAnswer :
    (p : Platform) (size : ℕ) (o : Option Machine) (n : Answer) (f : Machine → Answer)
    → (o ≡ none) ⊎ ((m : Machine) × (o ≡ some m) × IsMachine size m)
    → IsAnswer p size n
    → ((m : Machine) → IsMachine size m → IsAnswer p size (f m))
    → IsAnswer p size (elim o as (λ x. Answer) [ none ↦ n | some m ↦ f m ])
kept-IsAnswer p size o n f (inl e) hn hf =
    subst
      (λ (o : Option Machine).
        IsAnswer p size (elim o as (λ x. Answer) [ none ↦ n | some m ↦ f m ]))
      (sym e) hn
kept-IsAnswer p size o n f (inr (m, e, h)) hn hf =
    subst
      (λ (o : Option Machine).
        IsAnswer p size (elim o as (λ x. Answer) [ none ↦ n | some m ↦ f m ]))
      (sym e) (hf m h)

module _ (p : Platform) (size : ℕ)
    (keeps : (m ran : Machine) → IsMachine size m → p.run m ≡ some ran → IsMachine size ran) where
  after-IsAnswer : (ran : Machine) → IsMachine size ran → IsAnswer p size (after_run ran)
  unfolding after_run
  after-IsAnswer ran k =
      let after = record ran { state = take 31 ran.state ++ ran.scratch } in
      let after_IsMachine : IsMachine size after = record {
        state_length = omega (
          arith,
          length-append (take 31 ran.state) ran.scratch,
          length-take 31 ran.state (omega (arith, k.state_length)),
          k.scratch_length,
        );
        state_range =
            All-append IsWord (take 31 ran.state) ran.scratch
              (All-take IsWord 31 ran.state k.state_range) k.scratch_range;
        scratch_length = k.scratch_length;
        scratch_range = k.scratch_range;
        slot_length = k.slot_length;
        cause_range = k.cause_range;
        value_range = k.value_range;
      } in
      if-IsAnswer p size (after.trap_status == 0) (answer (send_state after.state) after)
        (answer (send_trap after.trap_cause after.trap_value) after)
        (state-IsAnswer p size after after_IsMachine) (trap-IsAnswer p size after after_IsMachine)

  run-IsAnswer : (m : Machine) → IsMachine size m → IsAnswer p size (run_request p m)
  unfolding run_request
  run-IsAnswer m h =
      let ready = record m { scratch = drop 31 m.state } in
      let ready_IsMachine : IsMachine size ready = record {
        state_length = h.state_length;
        state_range = h.state_range;
        scratch_length = omega (arith, h.state_length, length-drop 31 m.state);
        scratch_range = All-drop IsWord 31 m.state h.state_range;
        slot_length = h.slot_length;
        cause_range = h.cause_range;
        value_range = h.value_range;
      } in
      elim (Option-cases (p.run ready)) [
        | inl e ↦
            subst
              (λ (o : Option Machine).
                IsAnswer p size
                  (elim o as (λ x. Answer) [ none ↦ no_return | some ran ↦ after_run ran ]))
              (sym e) (inr (refl, (ready, ready_IsMachine, e)))
        | inr (ran, e) ↦
            subst
              (λ (o : Option Machine).
                IsAnswer p size
                  (elim o as (λ x. Answer) [ none ↦ no_return | some ran ↦ after_run ran ]))
              (sym e) (after-IsAnswer ran (keeps ready ran ready_IsMachine e))
      ]

  installed-IsAnswer :
      (code : List ℕ) (m : Machine)
      → IsMachine size m
      → IsAnswer p size (installed_request p code m)
  unfolding installed_request is_clean
  installed-IsAnswer code m h =
      kept-IsAnswer p size (install_code p code m)
        (reply (response_error (codes "unsupported-code")) m) (λ m'. run_request p m')
        (install-IsMachine p size code m h)
        (error-IsAnswer p size (codes "unsupported-code") m refl (omega arith) h)
        (λ m' h'. run-IsAnswer m' h')

  state_request-IsAnswer :
      (code : List ℕ) (m : Machine) (end : List ℕ)
      → IsMachine size m
      → IsAnswer p size (state_request p code m end)
  unfolding state_request is_clean
  state_request-IsAnswer code m end h =
      let initial =
        if not (get_or m.state 0 0 == 0)
        then reply (response_error (codes "invalid-initial-state")) m
        else installed_request p code m in
      option-IsAnswer p size (next_token end) initial
        (λ extra. reply (response_error (codes "wrong-input-state-size")) m)
        (if-IsAnswer p size (not (get_or m.state 0 0 == 0))
          (reply (response_error (codes "invalid-initial-state")) m) (installed_request p code m)
          (error-IsAnswer p size (codes "invalid-initial-state") m refl (omega arith) h)
          (installed-IsAnswer code m h))
        (λ extra. error-IsAnswer p size (codes "wrong-input-state-size") m refl (omega arith) h)

  words-IsAnswer :
      (code : List ℕ) (m : Machine) (read : Words)
      → IsParsed state_words read
      → IsMachine size m
      → IsAnswer p size (words_request p code m read)
  unfolding words_request is_clean
  words-IsAnswer code m read r h =
      let stored = store_words read.parsed m in
      let stored_IsMachine = store_words-IsMachine size read m r h in
      option-IsAnswer p size read.cursor
        (reply (response_error (codes "malformed-input-state")) stored)
        (λ end. state_request p code stored end)
        (error-IsAnswer p size (codes "malformed-input-state") stored refl (omega arith)
          stored_IsMachine)
        (λ end. state_request-IsAnswer code stored end stored_IsMachine)

  decoded-IsAnswer :
      (rest : List ℕ) (m : Machine) (d : Decoded)
      → StaysInside d
      → IsMachine size m
      → IsAnswer p size (elim d as (λ x. Answer) [
        | malformed ↦ reply (response_error (codes "malformed-code")) m
        | code_overrun ↦ fault
        | decoded code ↦ words_request p code m (parse_words state_words rest)
      ])
  unfolding is_clean
  decoded-IsAnswer rest m (decoded code) inside h =
      words-IsAnswer code m (parse_words state_words rest) (parse_words_range state_words rest) h
  decoded-IsAnswer rest m malformed inside h =
      error-IsAnswer p size (codes "malformed-code") m refl (omega arith) h
  decoded-IsAnswer rest m code_overrun inside h = absurd inside

  -- Whatever a RUN line says, the request is answered by one line of the protocol and leaves a
  -- well-formed machine, with its arrays of the same sizes, or the injected code never returns, which
  -- takes a machine from which `rv32_run` does not return. In particular no byte is written past the
  -- end of code_buffer or of the digits of a number. The condition is that the assembly routine keeps
  -- machines well formed where it returns.
  pub execute_request_lem :
      (cursor : List ℕ) (m : Machine)
      → IsMachine size m
      → IsAnswer p size (execute_request p cursor m)
  unfolding execute_request is_clean
  execute_request_lem cursor m h =
      option-IsAnswer p size (next_token cursor) (reply (response_error (codes "malformed-code")) m)
        (λ t. elim (decode_code t.0) as (λ x. Answer) [
          | malformed ↦ reply (response_error (codes "malformed-code")) m
          | code_overrun ↦ fault
          | decoded code ↦ words_request p code m (parse_words state_words t.1)
        ])
        (error-IsAnswer p size (codes "malformed-code") m refl (omega arith) h)
        (λ t. decoded-IsAnswer t.1 m (decode_code t.0) (decode_code-StaysInside t.0) h)
