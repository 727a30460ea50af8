-- ===== src/Cosim/Monitor/Install.antt =====
-- Well-formed machines: storing parsed words and installing code keep them.
use s2n_bignum.Prelude.{
  ℕ, zero, suc, ◌+◌, ◌%◌, ◌^◌, ◌≤◌, ◌≡◌, sym, ◌∙◌, List, [], ◌++◌, none, some, ltb, length,
  length-append, arith, All, drop, All-append, All-drop, length-drop, Bool-cases, Option-cases, inl,
  inr, ltb_false→le, ◌⊎◌,
}
use mathlib.Core.Path.{subst}
use s2n_bignum.Cosim.Text.{next_token, parse_u32}
use s2n_bignum.Cosim.Text.Decimal.{decimal_word, parse_u32_lem}
use s2n_bignum.Cosim.Monitor.{
  Machine, Platform, Words, push_word, parse_words, state_words, install_code, store_words,
  store_u32_le, ebreak,
}
use s2n_bignum.Cosim.Monitor.Echo.{IsWord, parse_words-suc}

-- Words are 32 bits wide, and the arrays have their sizes; the slot's is the linker's.
pub record IsMachine (size : ℕ) (m : Machine) : Type 0 where
  pub state_length : length m.state ≡ state_words
  pub state_range : All IsWord m.state
  pub scratch_length : length m.scratch ≡ 64
  pub scratch_range : All IsWord m.scratch
  pub slot_length : length m.slot ≡ size
  pub cause_range : IsWord m.trap_cause
  pub value_range : IsWord m.trap_value

decimal_word-IsWord : (text : List ℕ) (w : ℕ) → decimal_word text ≡ some w → IsWord w
unfolding decimal_word
decimal_word-IsWord text w h = ground (arith, h)

parse_u32-IsWord : (text : List ℕ) (w : ℕ) → parse_u32 text ≡ some w → IsWord w
parse_u32-IsWord text w h = decimal_word-IsWord text w (sym (parse_u32_lem text) ∙ h)

pub IsParsed : ℕ → Words → Type 0
IsParsed n r = All IsWord r.parsed × (length r.parsed ≤ n)

push-IsParsed : (n w : ℕ) (r : Words) → IsWord w → IsParsed n r → IsParsed (suc n) (push_word w r)
unfolding IsParsed
push-IsParsed n w r hw (hs, le) = ((hw, hs), omega arith)

nothing_parsed : Words
nothing_parsed = record { parsed = []; cursor = none }

parse_words-end :
    (n : ℕ) (cursor : List ℕ)
    → next_token cursor ≡ none
    → parse_words (suc n) cursor ≡ nothing_parsed
unfolding parse_words nothing_parsed
parse_words-end n cursor h = ground (arith, h)

parse_words-bad :
    (n : ℕ) (cursor word rest : List ℕ)
    → next_token cursor ≡ some (word, rest)
    → parse_u32 word ≡ none
    → parse_words (suc n) cursor ≡ nothing_parsed
unfolding parse_words nothing_parsed
parse_words-bad n cursor word rest h e = ground (arith, h, e)

pub parse_words_range : (n : ℕ) (cursor : List ℕ) → IsParsed n (parse_words n cursor)
unfolding parse_words IsParsed nothing_parsed
parse_words_range zero cursor = (tt, omega arith)
parse_words_range (suc n) cursor = elim (Option-cases (next_token cursor)) [
  | inl h ↦
      subst (λ (r : Words). IsParsed (suc n) r) (sym (parse_words-end n cursor h)) (tt, omega arith)
  | inr ((word, rest), h) ↦ elim (Option-cases (parse_u32 word)) [
    | inl e ↦
        subst (λ (r : Words). IsParsed (suc n) r) (sym (parse_words-bad n cursor word rest h e))
          (tt, omega arith)
    | inr (w, e) ↦
        subst (λ (r : Words). IsParsed (suc n) r) (sym (parse_words-suc n cursor word rest w h e))
          (push-IsParsed n w (parse_words n rest) (parse_u32-IsWord word w e)
            (parse_words_range n rest))
  ]
]

-- Storing parsed words keeps the number of state words.
pub store_words-IsMachine :
    (size : ℕ) (r : Words) (m : Machine)
    → IsParsed state_words r
    → IsMachine size m
    → IsMachine size (store_words r.parsed m)
unfolding store_words IsParsed
store_words-IsMachine size r m (hs, le) h = record {
  state_length = omega (
    arith,
    le,
    h.state_length,
    length-append r.parsed (drop (length r.parsed) m.state),
    length-drop (length r.parsed) m.state,
  );
  state_range =
      All-append IsWord r.parsed (drop (length r.parsed) m.state) hs
        (All-drop IsWord (length r.parsed) m.state h.state_range);
  scratch_length = h.scratch_length;
  scratch_range = h.scratch_range;
  slot_length = h.slot_length;
  cause_range = h.cause_range;
  value_range = h.value_range;
}

-- The code and the `ebreak` behind it take as many bytes as they replace.
unfoldable installed_slot : List ℕ → List ℕ → List ℕ
installed_slot code slot = code ++ store_u32_le ebreak ++ drop (length code + 4) slot

length-installed :
    (code slot : List ℕ)
    → length code + 4 ≤ length slot
    → length (installed_slot code slot) ≡ length slot
unfolding installed_slot store_u32_le
length-installed code slot le = omega (
  arith,
  le,
  length-append (code ++ store_u32_le ebreak) (drop (length code + 4) slot),
  length-append code (store_u32_le ebreak),
  length-drop (length code + 4) slot,
)

pub install-IsMachine :
    (p : Platform) (size : ℕ) (code : List ℕ) (m : Machine)
    → IsMachine size m
    → (install_code p code m ≡ none)
      ⊎ ((m' : Machine) × (install_code p code m ≡ some m') × IsMachine size m')
unfolding install_code installed_slot
install-IsMachine p size code m h = elim (Bool-cases (ltb (length m.slot) (length code + 4))) [
  | inl big ↦ inl (ground (arith, big))
  | inr small ↦ inr (
    record m {
      slot = installed_slot code m.slot;
      expected_break = (p.slot_address + length code) % 2 ^ 32;
    },
    ground (arith, small),
    record {
      state_length = h.state_length;
      state_range = h.state_range;
      scratch_length = h.scratch_length;
      scratch_range = h.scratch_range;
      slot_length =
          length-installed code m.slot (ltb_false→le (length m.slot) (length code + 4) small)
          ∙ h.slot_length;
      cause_range = h.cause_range;
      value_range = h.value_range;
    },
  )
]
