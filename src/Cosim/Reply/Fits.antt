-- ===== src/Cosim/Reply/Fits.antt =====
-- The replies fit the response buffer, so that no character is dropped, and are one line each.
use s2n_bignum.Prelude.{
  ℕ, ◌+◌, ◌^◌, ◌≤◌, ◌<◌, ◌≡◌, refl, ap, sym, ◌∙◌, List, [], ◌∷◌, ◌++◌, Option, some, Bool, true,
  not, ◌&&◌, ◌==◌, length, length-append, arith,
}
use mathlib.Core.Path.{subst}
use s2n_bignum.Cosim.Text.Decimal.{u32_digits_lem, is_decimal, is_digit}
use s2n_bignum.Cosim.Reply.{
  codes, response_size, response_character, response_string, response_u32, response_send,
  response_error, send_trap, send_ready, ◌>>=◌, append_digits, u32_digits,
}
use mathlib.Core.List.{append_assoc, append-nil}

-- No newline stands in the text.
unfoldable pub is_clean : List ℕ → Bool
is_clean [] = true
is_clean (c ∷ text) = not (c == 10) && is_clean text

pub clean-append : (s t : List ℕ) → is_clean s ≡ true → is_clean t ≡ true → is_clean (s ++ t) ≡ true
unfolding is_clean
clean-append [] t hs ht = ht
clean-append (c ∷ s) t hs ht = ground (arith, clean-append s t)

pub decimal-clean : (s : List ℕ) → is_decimal s ≡ true → is_clean s ≡ true
unfolding is_clean is_decimal is_digit
decimal-clean [] h = refl
decimal-clean (c ∷ s) h = ground (arith, decimal-clean s)

pub response_character_lem :
    (c : ℕ) (r : List ℕ) → length r + 1 < response_size → response_character c r ≡ r ++ c ∷ []
unfolding response_character
response_character_lem c r h = ground arith

pub response_string_lem :
    (text r : List ℕ) → length r + length text < response_size → response_string text r ≡ r ++ text
unfolding response_string
response_string_lem [] r h = sym (append-nil r)
response_string_lem (c ∷ text) r h =
    let one = response_character_lem c r (omega arith) in
    ap (λ (s : List ℕ). response_string text s) one
    ∙ response_string_lem text (r ++ c ∷ []) (omega (arith, length-append r (c ∷ [])))
    ∙ append_assoc r (c ∷ []) text

-- A number is sent whole where the buffer has room for ten digits.
pub response_u32_lem :
    (v : ℕ) (digits r : List ℕ)
    → u32_digits v ≡ some digits
    → length digits ≤ 10
    → length r + 10 < response_size
    → response_u32 v r ≡ some (r ++ digits)
unfolding response_u32
response_u32_lem v digits r run small room =
    ap (λ (o : Option (List ℕ)). append_digits o r) run
    ∙ ap some (response_string_lem digits r (omega arith))

-- A reply of the protocol: one line, with its newline, within the buffer and its NUL.
pub record IsReply (text : List ℕ) : Type 0 where
  pub body : List ℕ
  pub ended : text ≡ body ++ 10 ∷ []
  pub clean : is_clean body ≡ true
  pub fits : length text < response_size

pub send-IsReply :
    (body : List ℕ)
    → is_clean body ≡ true
    → length body + 1 < response_size
    → IsReply (response_send body)
unfolding response_send
send-IsReply body clean fits =
    let whole = response_character_lem 10 body fits in
    record {
      body = body;
      ended = whole;
      clean = clean;
      fits = omega (arith, ap (λ (t : List ℕ). length t) whole, length-append body (10 ∷ []));
    }

error_text :
    (reason : List ℕ)
    → length reason < 100
    → response_error reason ≡ response_send (codes "ERROR " ++ reason)
unfolding response_error
error_text reason small =
    ap (λ (t : List ℕ). response_send (response_string reason t))
      (response_string_lem (codes "ERROR ") [] (omega arith))
    ∙ ap (λ (t : List ℕ). response_send t)
        (response_string_lem reason (codes "ERROR ") (omega arith))

error_clean : is_clean (codes "ERROR ") ≡ true
unfolding is_clean
error_clean = refl

pub error-IsReply :
    (reason : List ℕ)
    → is_clean reason ≡ true
    → length reason < 100
    → IsReply (response_error reason)
error-IsReply reason clean small =
    subst (λ (t : List ℕ). IsReply t) (sym (error_text reason small))
      (send-IsReply (codes "ERROR " ++ reason)
        (clean-append (codes "ERROR ") reason error_clean clean)
        (omega (arith, length-append (codes "ERROR ") reason)))

trap_text :
    (cause value : ℕ) (c v : List ℕ)
    → u32_digits cause ≡ some c
    → u32_digits value ≡ some v
    → length c ≤ 10
    → length v ≤ 10
    → send_trap cause value
      ≡ some (response_send (codes "TRAP mcause-" ++ c ++ codes " mtval-" ++ v))
unfolding send_trap
trap_text cause value c v hc hv sc sv =
    let start = response_string_lem (codes "TRAP mcause-") [] (omega arith) in
    let r1 = codes "TRAP mcause-" ++ c in
    let l1 = length-append (codes "TRAP mcause-") c in
    let r2 = r1 ++ codes " mtval-" in
    let second = response_string_lem (codes " mtval-") r1 (omega (arith, l1)) in
    ap
      (λ (t : List ℕ). response_u32 cause t >>= (λ r.
        response_u32 value (response_string (codes " mtval-") r)
        >>= (λ r'. some (response_send r'))))
      start
    ∙ ap
        (λ (o : Option (List ℕ)). o >>= (λ r.
          response_u32 value (response_string (codes " mtval-") r)
          >>= (λ r'. some (response_send r'))))
        (response_u32_lem cause c (codes "TRAP mcause-") hc sc (omega arith))
    ∙ ap (λ (t : List ℕ). response_u32 value t >>= (λ r'. some (response_send r'))) second
    ∙ ap (λ (o : Option (List ℕ)). o >>= (λ r'. some (response_send r')))
        (response_u32_lem value v r2 hv sv (omega (arith, l1, length-append r1 (codes " mtval-"))))

trap_clean : (is_clean (codes "TRAP mcause-") ≡ true) × (is_clean (codes " mtval-") ≡ true)
unfolding is_clean
trap_clean = (refl, refl)

-- The reply to a run that ends in a trap is one line within the buffer.
pub send_trap-IsReply :
    (cause value : ℕ)
    → cause < 2 ^ 32
    → value < 2 ^ 32
    → (text : List ℕ) × (send_trap cause value ≡ some text) × IsReply text
send_trap-IsReply cause value hc hv =
    let (c, rc, _, dc, _, sc) = u32_digits_lem cause hc in
    let (v, rv, _, dv, _, sv) = u32_digits_lem value hv in
    let r1 = codes "TRAP mcause-" ++ c in
    let r2 = r1 ++ codes " mtval-" in
    let clean1 = clean-append (codes "TRAP mcause-") c trap_clean.0 (decimal-clean c dc) in
    let clean2 = clean-append r1 (codes " mtval-") clean1 trap_clean.1 in
    (
      response_send (r2 ++ v),
      trap_text cause value c v rc rv sc sv,
      send-IsReply (r2 ++ v) (clean-append r2 v clean2 (decimal-clean v dv)) (
          omega (
            arith,
            sc,
            sv,
            length-append (codes "TRAP mcause-") c,
            length-append r1 (codes " mtval-"),
            length-append r2 v,
          )),
    )

pub ready-IsReply : IsReply send_ready
unfolding send_ready is_clean
ready-IsReply =
    let text = codes "READY 1 rv32im 95" in
    subst (λ (t : List ℕ). IsReply (response_send t))
      (sym (response_string_lem text [] (omega arith))) (send-IsReply text refl (omega arith))
