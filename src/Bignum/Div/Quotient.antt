-- ===== src/Bignum/Div/Quotient.antt =====
-- Long division of a k-digit number: every bit is taken in, from the highest on.
use s2n_bignum.Prelude.{
  ℕ, zero, suc, ◌+◌, ◌*◌, ◌/◌, ◌%◌, ◌^◌, ◌≤◌, ◌<◌, ◌≡◌, sym, ap, ◌∙◌, List, arith,
}
use s2n_bignum.Prelude.{Bool-cases, Nat-cases, ==_iff, ◌==◌, inl, inr, bit_and, get_or, take, drop}
use s2n_bignum.Prelude.Powers.{mul_bound, mod_unique, div_unique, pow-suc-mul}
use s2n_bignum.Prelude.Bits.{bit_and-one, mod_pow-top}
use s2n_bignum.Word.{word_mod}
use s2n_bignum.Bignum.{val, digit, IsBignum, zeros}
use s2n_bignum.Bignum.Digits.{
  val-lt, digit-lt, digit_in_range, span, span-val, span-suc, zeros-IsBignum, val-zeros,
  word_pow_pos,
}
use s2n_bignum.Bignum.Split.{take-IsBignum, val-split}
use s2n_bignum.Bignum.Div.{
  DivState, div_step, bits_loop, words_loop, reference_divmod, reference_mod,
}
use s2n_bignum.Bignum.Div.Step.{Divides, div_step-Divides}
use native.Mathlib.Nat.{mod-eq_of_lt, one-le-pow}

module _ (k : ℕ) (y : List ℕ) (hy : IsBignum k y) where
  bits_loop-Divides :
      (w bit n : ℕ) (s : DivState)
      → Divides k y n s
      → n * 2 ^ bit + w % 2 ^ bit < word_mod ^ k
      → Divides k y (n * 2 ^ bit + w % 2 ^ bit) (bits_loop k y w bit s)
  unfolding bits_loop
  bits_loop-Divides w zero n s inv fits = let e : n * 1 + w % 1 ≡ n = omega arith in rw e inv
  bits_loop-Divides w (suc bit) n s inv fits =
      let b = bit_and (w / 2 ^ bit) 1 in
      let e : n * 2 ^ suc bit + w % 2 ^ suc bit ≡ (2 * n + b) * 2 ^ bit + w % 2 ^ bit = omega (
        arith,
        mod_pow-top bit w,
        bit_and-one (w / 2 ^ bit),
        ap (λ (t : ℕ). t * 2 ^ bit) (bit_and-one (w / 2 ^ bit)),
        pow-suc-mul 2 bit n,
      ) in
      rw e (
        bits_loop-Divides w bit (2 * n + b) (div_step k y b s)
          (div_step-Divides k y hy n b (omega (arith, bit_and-one (w / 2 ^ bit))) s inv (
            omega (
              arith,
              e,
              mul_bound (2 * n + b) 1 (2 * n + b) (2 ^ bit) (omega arith)
                  (one-le-pow bit 2 (omega arith)),
            )))
          (omega (arith, e)))

module _ (k : ℕ) (x y : List ℕ) (hx : IsBignum k x) (hy : IsBignum k y) where
  words_loop-Divides :
      (word n : ℕ) (s : DivState)
      → word ≤ k
      → Divides k y n s
      → n * word_mod ^ word + span k x word 0 < word_mod ^ k
      → Divides k y (n * word_mod ^ word + span k x word 0) (words_loop k x y word s)
  unfolding words_loop
  words_loop-Divides zero n s le inv fits =
      let e : n * 1 + span k x 0 0 ≡ n = unfold span in omega arith in rw e inv
  words_loop-Divides (suc word) n s le inv fits =
      let d = get_or x word 0 in
      let hd : digit k x word ≡ d = digit_in_range {k = k} x word le in
      let small : d < word_mod = omega (arith, hd, digit-lt x word hx) in
      let e : n * word_mod ^ suc word + span k x (suc word) 0
          ≡ (n * 2 ^ 64 + d % 2 ^ 64) * word_mod ^ word + span k x word 0 =
        omega (
          arith,
          span-suc k x word,
          pow-suc-mul word_mod word n,
          ap (λ (t : ℕ). word_mod ^ word * t) hd,
          ap (λ (t : ℕ). t * word_mod ^ word) (mod-eq_of_lt {n = d} {m = 2 ^ 64} small),
        ) in
      let bound : n * 2 ^ 64 + d % 2 ^ 64 < word_mod ^ k = omega (
        arith,
        e,
        mul_bound (n * 2 ^ 64 + d % 2 ^ 64) 1 (n * 2 ^ 64 + d % 2 ^ 64) (word_mod ^ word)
            (omega arith) (word_pow_pos word),
      ) in
      rw e (
        words_loop-Divides word (n * 2 ^ 64 + d % 2 ^ 64) (bits_loop k y d 64 s) (omega arith)
          (bits_loop-Divides k y hy d 64 n s inv bound) (omega (arith, e)))

  start-Divides : 0 < val y → Divides k y 0 (record { q = zeros k; a = zeros (suc k) })
  start-Divides pos = record {
    q_digits = zeros-IsBignum k;
    a_digits = zeros-IsBignum (suc k);
    total = omega (arith, val-zeros (suc k), ap (λ (t : ℕ). t * val y) (val-zeros k));
    below = omega (arith, val-zeros (suc k));
  }

  all_words-Divides :
      0 < val y
      → Divides k y (val x) (words_loop k x y k (record { q = zeros k; a = zeros (suc k) }))
  all_words-Divides pos =
      let e : 0 * word_mod ^ k + span k x k 0 ≡ val x = omega (arith, span-val x hx) in
      rw (← e)
        (words_loop-Divides k 0 _ (omega arith) (start-Divides pos) (omega (arith, e, val-lt x hx)))

  -- The low `k` digits of an accumulator that is below `y` are all of it.
  val-take_small : (a : List ℕ) → IsBignum (suc k) a → val a < val y → val (take k a) ≡ val a
  val-take_small a ha lt = elim (Nat-cases (val (drop k a))) [
    | inl e ↦ omega (arith, val-split k a (omega arith) ha, ap (λ (t : ℕ). word_mod ^ k * t) e)
    | inr e ↦ absurd (
        omega (
          arith,
          val-split k a (omega arith) ha,
          val-lt y hy,
          mul_bound (word_mod ^ k) 1 (word_mod ^ k) (val (drop k a)) (omega arith) e,
        ))
  ]

  divmod_nonempty :
      (s : DivState)
      → Divides k y (val x) s
      → (val s.q ≡ val x / val y)
        × (val (take k s.a) ≡ val x % val y)
        × IsBignum k s.q
        × IsBignum k (take k s.a)
  divmod_nonempty s inv = (
    sym (div_unique (val x) (val y) (val s.q) (val s.a) (omega (arith, inv.total)) inv.below),
    val-take_small s.a inv.a_digits inv.below
        ∙ sym (mod_unique (val x) (val y) (val s.q) (val s.a) (omega (arith, inv.total)) inv.below),
    inv.q_digits,
    take-IsBignum {k = suc k} k s.a (omega arith) inv.a_digits,
  )

  -- For k-digit numbers and a divisor that is not 0, `reference_divmod` writes the k digits of the
  -- quotient and of the remainder.
  pub divmod_lem :
      0 < val y
      → (val (reference_divmod k x y).q ≡ val x / val y)
        × (val (reference_divmod k x y).r ≡ val x % val y)
        × IsBignum k (reference_divmod k x y).q
        × IsBignum k (reference_divmod k x y).r
  unfolding reference_divmod
  divmod_lem pos = elim (Bool-cases (k == 0)) [
    | inl empty ↦
        let e : k ≡ 0 = (==_iff k 0).0 empty in
        absurd (omega (arith, ap (λ (j : ℕ). word_mod ^ j) e, val-lt y hy))
    | inr some_digits ↦ rw some_digits (divmod_nonempty _ (all_words-Divides pos))
  ]

  pub mod_lem :
      0 < val y → (val (reference_mod k x y) ≡ val x % val y) × IsBignum k (reference_mod k x y)
  unfolding reference_mod
  mod_lem pos = let (_, r, _, digits) = divmod_lem pos in (r, digits)
