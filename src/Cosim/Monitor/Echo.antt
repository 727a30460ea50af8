-- ===== src/Cosim/Monitor/Echo.antt =====
-- Printed state words: the reply that reports a state fits the buffer and parses back as the state.
use s2n_bignum.Prelude.{
  ℕ, zero, suc, ◌+◌, ◌*◌, ◌^◌, ◌≤◌, ◌<◌, ◌≡◌, refl, ap, sym, ◌∙◌, List, [], ◌∷◌, ◌++◌, Option, some,
  true, length, length-append, arith, All,
}
use mathlib.Core.List.{append_assoc, append-nil}
use s2n_bignum.Cosim.Text.{next_token, parse_u32, take_token}
use s2n_bignum.Cosim.Text.Decimal.{is_decimal, u32_digits_lem}
use s2n_bignum.Cosim.Text.Token.{
  blank, Spaced, take_token-blank, take_token-end, next_token-blank, next_token-word,
}
use s2n_bignum.Cosim.Reply.{
  codes, response_size, response_u32, response_send, state_loop, send_state, ◌>>=◌,
}
use s2n_bignum.Cosim.Reply.Fits.{
  is_clean, clean-append, decimal-clean, response_character_lem, response_u32_lem, IsReply,
  response_string_lem,
}
use s2n_bignum.Cosim.Monitor.{Words, push_word, parse_words, state_words}

-- All words of a list parsed, and nothing left on the line.
abbrev pub whole_line : List ℕ → Words
whole_line words = record { parsed = words; cursor = some [] }

pub parse_words-suc :
    (n : ℕ) (cursor word rest : List ℕ) (w : ℕ)
    → next_token cursor ≡ some (word, rest)
    → parse_u32 word ≡ some w
    → parse_words (suc n) cursor ≡ push_word w (parse_words n rest)
unfolding parse_words
parse_words-suc n cursor word rest w h e = ground (arith, h, e)

parse_words-blank :
    (n : ℕ) (rest : List ℕ) → parse_words (suc n) (blank ∷ rest) ≡ parse_words (suc n) rest
unfolding parse_words
parse_words-blank n rest = ground (arith, next_token-blank rest)

-- The next word of a printed list is the one that was printed first.
word_token :
    (n : ℕ) (word text : List ℕ)
    → is_decimal word ≡ true
    → 0 < length word
    → Spaced n text
    → (words : List ℕ) → parse_words n text ≡ whole_line words
    → (rest : List ℕ) × (next_token (blank ∷ (word ++ text)) ≡ some (word, rest))
      × (parse_words n rest ≡ whole_line words)
unfolding parse_words
word_token zero word text dec pos h words e = (
  [],
  next_token-blank (word ++ text)
      ∙ next_token-word word text dec pos
      ∙ ap (λ (t : List ℕ). some (take_token t))
          (ap (λ (t : List ℕ). word ++ t) h ∙ append-nil word)
      ∙ ap some (take_token-end word dec),
  ap (λ (t : List ℕ). parse_words 0 t) (sym h) ∙ e,
)
word_token (suc n) word text dec pos (rest, h) words e = (
  rest,
  next_token-blank (word ++ text)
      ∙ next_token-word word text dec pos
      ∙ ap (λ (t : List ℕ). some (take_token (word ++ t))) h
      ∙ ap some (take_token-blank word rest dec),
  sym (parse_words-blank n rest) ∙ ap (λ (t : List ℕ). parse_words (suc n) t) (sym h) ∙ e,
)

abbrev pub IsWord : ℕ → Type 0
IsWord w = w < 2 ^ 32

-- The text that printing words adds to the buffer.
pub record IsPrinted (words text : List ℕ) : Type 0 where
  pub parses : parse_words (length words) text ≡ whole_line words
  pub spaced : Spaced (length words) text
  pub clean : is_clean text ≡ true
  pub fits : length text ≤ 11 * length words

state_loop-cons :
    (w : ℕ) (words r digits : List ℕ)
    → length r + 11 < response_size
    → response_u32 w (r ++ blank ∷ []) ≡ some (r ++ blank ∷ [] ++ digits)
    → state_loop (w ∷ words) r ≡ state_loop words (r ++ blank ∷ [] ++ digits)
unfolding state_loop
state_loop-cons w words r digits room sent =
    ap (λ (t : List ℕ). response_u32 w t >>= (λ r'. state_loop words r'))
      (response_character_lem blank r (omega arith))
    ∙ ap (λ (o : Option (List ℕ)). o >>= (λ r'. state_loop words r')) sent

cons-IsPrinted :
    (w : ℕ) (words digits text : List ℕ)
    → parse_u32 digits ≡ some w
    → is_decimal digits ≡ true
    → 0 < length digits
    → length digits ≤ 10
    → IsPrinted words text
    → IsPrinted (w ∷ words) (blank ∷ (digits ++ text))
unfolding is_clean
cons-IsPrinted w words digits text parsed dec pos small p =
    let (rest, token, more) =
      word_token (length words) digits text dec pos p.spaced words p.parses in
    record {
      parses =
          parse_words-suc (length words) (blank ∷ (digits ++ text)) digits rest w token parsed
          ∙ ap (λ (r : Words). push_word w r) more;
      spaced = (digits ++ text, refl);
      clean = clean-append digits text (decimal-clean digits dec) p.clean;
      fits = omega (arith, p.fits, length-append digits text);
    }

state_loop_lem :
    (words r : List ℕ)
    → All IsWord words
    → length r + 11 * length words + 1 < response_size
    → (text : List ℕ) × (state_loop words r ≡ some (r ++ text)) × IsPrinted words text
unfolding state_loop parse_words is_clean
state_loop_lem [] r h room = (
  [],
  ap some (sym (append-nil r)),
  record { parses = refl; spaced = refl; clean = refl; fits = omega arith },
)
state_loop_lem (w ∷ words) r (hw, hs) room =
    let (digits, run, parsed, dec, pos, small) = u32_digits_lem w hw in
    let r1 = r ++ blank ∷ [] in
    let sent =
      response_u32_lem w digits r1 run small (omega (arith, length-append r (blank ∷ []))) in
    let (text, more, p) =
      state_loop_lem words (r1 ++ digits) hs
        (omega (arith, length-append r (blank ∷ []), length-append r1 digits)) in
    (
      blank ∷ (digits ++ text),
      state_loop-cons w words r digits (omega arith) sent
          ∙ more
          ∙ ap some (append_assoc r1 digits text ∙ append_assoc r (blank ∷ []) (digits ++ text)),
      cons-IsPrinted w words digits text parsed dec pos small p,
    )

-- The reply to a run that ends normally reports all 95 state words: it is "OK" and a text that
-- parses back as exactly these words, on one line that fits the response buffer.
pub send_state_lem :
    (words : List ℕ)
    → All IsWord words
    → length words ≡ state_words
    → (text : List ℕ) × (send_state words ≡ some (codes "OK" ++ text ++ 10 ∷ []))
      × (parse_words state_words text ≡ whole_line words)
      × IsReply (codes "OK" ++ text ++ 10 ∷ [])
unfolding send_state is_clean response_send
send_state_lem words h count =
    let start = response_string_lem (codes "OK") [] (omega arith) in
    let (text, run, p) = state_loop_lem words (codes "OK") h (omega (arith, count)) in
    let body = codes "OK" ++ text in
    let room : length body + 1 < response_size = omega (arith, p.fits, count) in
    let whole = response_character_lem 10 body room in
    (
      text,
      ap (λ (t : List ℕ). state_loop words t >>= (λ r. some (response_send r))) start
          ∙ ap (λ (o : Option (List ℕ)). o >>= (λ r. some (response_send r))) run
          ∙ ap some whole,
      ap (λ (n : ℕ). parse_words n text) (sym count) ∙ p.parses,
      record {
        body = body;
        ended = refl;
        clean = p.clean;
        fits = omega (arith, room, length-append body (10 ∷ []));
      },
    )
