-- ===== src/Cosim/Monitor/Serve.antt =====
-- The loop of `main`: it comes to an end with the input, and every round is answered by one line.
use s2n_bignum.Prelude.{
  ℕ, zero, suc, ◌+◌, ◌<◌, ◌≡◌, refl, ap, sym, List, [], ◌∷◌, ◌++◌, Option, none, some, Bool, true,
  false, ◌==◌, leb, if◌then◌else◌, length, length-append, arith, All, ◌⊎◌, inl, inr, Bool-cases,
  lt→ltb, leb_false→lt,
}
use mathlib.Core.Path.{subst}
use s2n_bignum.Cosim.Text.{
  next_token, until_nul, string_equal, ReadLine, line, failed, read_loop, read_line, line_size,
  line_overrun, line_write,
}
use s2n_bignum.Cosim.Reply.{codes, response_error, send_ready}
use s2n_bignum.Cosim.Reply.Fits.{IsReply, ready-IsReply, is_clean}
use s2n_bignum.Cosim.Monitor.{
  Machine, Platform, Answer, reply, fault, no_return, execute_request, Round, answered, exit,
  command_round, Session, quit, crashed, running, send, main_loop, run_main,
}
use s2n_bignum.Cosim.Monitor.Install.{IsMachine}
use s2n_bignum.Cosim.Monitor.Request.{IsAnswer, MayRun, error-IsAnswer, execute_request_lem}

-- A line that is read leaves less input, and nothing is written past the end of input_line.
Consumes : ℕ → ReadLine → Type 0
Consumes n (failed rest) = Unit {0}
Consumes n line_overrun = ⊥
Consumes n (line text rest) = length rest < n

Consumes-suc : (n : ℕ) (r : ReadLine) → Consumes n r → Consumes (suc n) r
unfolding Consumes
Consumes-suc n (failed rest) h = tt
Consumes-suc n (line text rest) h = omega arith
Consumes-suc n line_overrun h = h

write-Consumes :
    (n i : ℕ) (r : ReadLine) → i < line_size → Consumes n r → Consumes n (line_write i r)
unfolding line_write
write-Consumes n i r room h = rw (lt→ltb i line_size room) h

if-Consumes :
    (n : ℕ) (b : Bool) (r s : ReadLine)
    → Consumes n r
    → Consumes n s
    → Consumes n (if b then r else s)
if-Consumes n true r s hr hs = hr
if-Consumes n false r s hr hs = hs

-- Behind the test of the length there is room for a character.
guarded-Consumes :
    (n i : ℕ) (r s : ReadLine)
    → Consumes n r
    → (i + 1 < line_size → Consumes n s)
    → Consumes n (if leb line_size (i + 1) then line_write 0 r else line_write i s)
guarded-Consumes n i r s hr hs = elim (Bool-cases (leb line_size (i + 1))) [
  | inl full ↦ rw full (write-Consumes n 0 r (omega arith) hr)
  | inr room ↦ rw room (
      write-Consumes n i s (omega (arith, leb_false→lt line_size (i + 1) room))
        (hs (leb_false→lt line_size (i + 1) room)))
]

read_loop-Consumes :
    (input done : List ℕ) → length done < line_size → Consumes (length input) (read_loop input done)
unfolding read_loop Consumes
read_loop-Consumes [] done inside = tt
read_loop-Consumes (c ∷ input) done inside =
    let n = suc (length input) in
    let i = length done in
    let next = read_loop input (done ++ c ∷ []) in
    let skip = read_loop input done in
    let rest = if leb line_size (i + 1) then line_write 0 (failed input) else line_write i next in
    if-Consumes n (c == 13) skip (if c == 10 then line_write i (line done input) else rest)
      (Consumes-suc (length input) skip (read_loop-Consumes input done inside))
      (if-Consumes n (c == 10) (line_write i (line done input)) rest
        (write-Consumes n i (line done input) inside (omega arith))
        (guarded-Consumes n i (failed input) next tt (λ room. Consumes-suc (length input) next (
          read_loop-Consumes input (done ++ c ∷ [])
            (omega (arith, length-append done (c ∷ []), room))))))

-- A round leaves, or is answered by one line.
IsRound : Platform → ℕ → Round → Type 0
IsRound p size exit = Unit {0}
IsRound p size (answered a) = IsAnswer p size a

if-IsRound :
    (p : Platform) (size : ℕ) (b : Bool) (x y : Round)
    → IsRound p size x
    → IsRound p size y
    → IsRound p size (if b then x else y)
if-IsRound p size true x y hx hy = hx
if-IsRound p size false x y hx hy = hy

option-IsRound :
    {A : Type 0} (p : Platform) (size : ℕ) (o : Option A) (n : Round) (f : A → Round)
    → IsRound p size n
    → ((a : A) → IsRound p size (f a))
    → IsRound p size (elim o as (λ x. Round) [ none ↦ n | some a ↦ f a ])
option-IsRound p size none n f hn hf = hn
option-IsRound p size (some a) n f hn hf = hf a

-- What the loop comes to: it quits, or it is in a run that does not return from some well-formed
-- machine; and every line sent is a reply of the protocol.
abbrev pub Serves : Platform → ℕ → Option Session → Type 0
Serves p size o =
    (sent : List (List ℕ)) × ((o ≡ some (quit sent)) ⊎ ((o ≡ some (running sent)) × MayRun p size))
    × All IsReply sent

send-Serves :
    (p : Platform) (size : ℕ) (text : List ℕ) (o : Option Session)
    → IsReply text
    → Serves p size o
    → Serves p size (send text o)
send-Serves p size text o h (sent, inl e, hs) =
    (text ∷ sent, inl (ap (λ (o : Option Session). send text o) e), (h, hs))
send-Serves p size text o h (sent, inr (e, may), hs) =
    (text ∷ sent, inr (ap (λ (o : Option Session). send text o) e, may), (h, hs))

module _ (p : Platform) (size : ℕ)
    (keeps : (m ran : Machine) → IsMachine size m → p.run m ≡ some ran → IsMachine size ran) where
  command-IsRound :
      (text : List ℕ) (m : Machine) → IsMachine size m → IsRound p size (command_round p text m)
  unfolding command_round IsRound is_clean
  command-IsRound text m h =
      let empty = answered (reply (response_error (codes "empty-command")) m) in
      let unknown = answered (reply (response_error (codes "unknown-command")) m) in
      let run = λ (t : List ℕ × List ℕ).
        if string_equal t.0 (codes "RUN") then answered (execute_request p t.1 m) else unknown in
      option-IsRound p size (next_token text) empty
        (λ t. if string_equal t.0 (codes "QUIT") then exit else run t)
        (error-IsAnswer p size (codes "empty-command") m refl (omega arith) h)
        (λ t. if-IsRound p size (string_equal t.0 (codes "QUIT")) exit (run t) tt (
          if-IsRound p size (string_equal t.0 (codes "RUN")) (answered (execute_request p t.1 m))
            unknown (execute_request_lem p size keeps t.1 m h)
            (error-IsAnswer p size (codes "unknown-command") m refl (omega arith) h)))

  round-Serves :
      (fuel : ℕ) (rest : List ℕ) (r : Round)
      → IsRound p size r
      → ((m : Machine) → IsMachine size m → Serves p size (main_loop p fuel rest m))
      → Serves p size (elim r as (λ x. Option Session) [
        | exit ↦ some (quit [])
        | answered fault ↦ some (crashed [])
        | answered no_return ↦ some (running [])
        | answered (reply sent m) ↦ send sent (main_loop p fuel rest m)
      ])
  unfolding IsRound
  round-Serves fuel rest exit h next = ([], inl refl, tt)
  round-Serves fuel rest (answered a) (inl (sent, after, e, reply_line, kept)) next =
      subst
        (λ (a : Answer). Serves p size (elim a as (λ x. Option Session) [
          | fault ↦ some (crashed [])
          | no_return ↦ some (running [])
          | reply sent m ↦ send sent (main_loop p fuel rest m)
        ]))
        (sym e) (send-Serves p size sent (main_loop p fuel rest after) reply_line (next after kept))
  round-Serves fuel rest (answered a) (inr (e, may)) next =
      subst
        (λ (a : Answer). Serves p size (elim a as (λ x. Option Session) [
          | fault ↦ some (crashed [])
          | no_return ↦ some (running [])
          | reply sent m ↦ send sent (main_loop p fuel rest m)
        ]))
        (sym e) ([], inr (refl, may), tt)

  line-Serves :
      (fuel n : ℕ) (m : Machine) (r : ReadLine)
      → Consumes n r
      → n < suc fuel
      → IsMachine size m
      → ((rest : List ℕ) (m : Machine)
          → length rest < fuel
          → IsMachine size m
          → Serves p size (main_loop p fuel rest m))
      → Serves p size (elim r as (λ x. Option Session) [
        | failed rest ↦ some (quit [])
        | line_overrun ↦ some (crashed [])
        | line text rest ↦ elim (command_round p (until_nul text) m) as (λ x. Option Session) [
          | exit ↦ some (quit [])
          | answered fault ↦ some (crashed [])
          | answered no_return ↦ some (running [])
          | answered (reply sent m') ↦ send sent (main_loop p fuel rest m')
        ]
      ])
  unfolding Consumes
  line-Serves fuel n m (failed rest) c lt h next = ([], inl refl, tt)
  line-Serves fuel n m line_overrun c lt h next = absurd c
  line-Serves fuel n m (line text rest) c lt h next =
      round-Serves fuel rest (command_round p (until_nul text) m)
        (command-IsRound (until_nul text) m h) (λ m' h'. next rest m' (omega (arith, c, lt)) h')

  main_loop-Serves :
      (fuel : ℕ) (input : List ℕ) (m : Machine)
      → length input < fuel
      → IsMachine size m
      → Serves p size (main_loop p fuel input m)
  unfolding main_loop read_line
  main_loop-Serves zero input m lt h = absurd (omega arith)
  main_loop-Serves (suc fuel) input m lt h =
      line-Serves fuel (length input) m (read_loop input [])
        (read_loop-Consumes input [] (omega arith)) lt h
        (λ rest m' lt' h'. main_loop-Serves fuel rest m' lt' h')

  -- On every input the monitor comes to an end by leaving, unless it is in a call of `rv32_run` that
  -- never returns, which takes a well-formed machine from which that routine does not return. Everything
  -- it sends is a sequence of complete one-line replies that fit the buffer, and no write is past the
  -- end of input_line, of code_buffer or of the digits of a number. The condition is that the assembly
  -- routine keeps machines well formed where it returns.
  pub run_main_lem :
      (input : List ℕ) (m : Machine) → IsMachine size m → Serves p size (run_main p input m)
  unfolding run_main
  run_main_lem input m h =
      send-Serves p size send_ready (main_loop p (suc (length input)) input m) ready-IsReply
        (main_loop-Serves (suc (length input)) input m (omega arith) h)
