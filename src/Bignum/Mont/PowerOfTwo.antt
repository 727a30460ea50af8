-- ===== src/Bignum/Mont/PowerOfTwo.antt =====
-- Powers of two modulo a number, by doubling.
use s2n_bignum.Prelude.{
  ℕ, zero, suc, ◌+◌, ◌-◌, ◌*◌, ◌%◌, ◌^◌, ◌≤◌, ◌<◌, ◌≡◌, refl, sym, ap, ◌∙◌, List, arith,
}
use s2n_bignum.Prelude.{
  leb, of_bool, nonzero, if◌then◌else◌, ◌==◌, Bool-cases, inl, inr, true, false, bit_or, ◌||◌, Bool,
  leb→le, leb_false→lt,
}
use s2n_bignum.Prelude.Powers.{mul-mod-mod, mod_unique, mul_bit}
use s2n_bignum.Word.{word_mod}
use s2n_bignum.Bignum.{val, IsBignum, reference_of_word}
use s2n_bignum.Bignum.Digits.{val-lt, val-of_word, of_word-IsBignum}
use s2n_bignum.Bignum.Add.{reference_adc, reference_optsub, adc-IsBignum, adc-carry}
use s2n_bignum.Bignum.Add.Laws.{val-adc_same, optsub_on, optsub_off, optsub-IsBignum}
use s2n_bignum.Bignum.Compare.{reference_le_samelen, samelen_lem}
use s2n_bignum.Bignum.Mont.{modpowtwo_loop, reference_modpowtwo}
use native.Mathlib.Nat.{zero-mod, pow-suc, mod-lt, mod-eq_of_lt}

flag-or : (c : ℕ) (b : Bool) → c ≤ 1 → nonzero (bit_or c (of_bool b)) ≡ (nonzero c || b)
flag-or zero true h = refl
flag-or zero false h = refl
flag-or (suc zero) true h = refl
flag-or (suc zero) false h = refl
flag-or (suc (suc c)) b h = absurd (omega arith)

-- A doubled number below `2 * m`, with its carry, is reduced by one conditional subtraction.
module _ (k : ℕ) (m : List ℕ) (hm : IsBignum k m) (z : List ℕ) (hz : IsBignum k z) (c : ℕ)
    (hc : c ≤ 1) (small : 2 * val z + c < 2 * val m) where
  abbrev sum : List ℕ
  sum = (reference_adc k k z k z c).z

  abbrev carry : ℕ
  carry = (reference_adc k k z k z c).c

  abbrev flag : ℕ
  flag = bit_or carry (reference_le_samelen k m sum)

  total : val sum + word_mod ^ k * carry ≡ 2 * val z + c
  total = omega (arith, val-adc_same k z z hz hz c hc)

  flag_lem : nonzero flag ≡ (nonzero carry || leb (val m) (val sum))
  flag_lem =
      rw (samelen_lem k m sum hm (adc-IsBignum k k z k z c)).2
        (flag-or carry (leb (val m) (val sum)) (adc-carry k k z k z c hc))

  above : val m ≤ 2 * val z + c → 2 * val z + c ≡ (2 * val z + c) % val m + val m
  above le = omega (
    arith,
    mod_unique (2 * val z + c) (val m) 1 (2 * val z + c - val m) (omega arith) (omega arith),
  )

  reduced_on :
      nonzero flag ≡ true
      → val m ≤ 2 * val z + c
      → val (reference_optsub k sum flag m).z ≡ (2 * val z + c) % val m
  reduced_on on le =
      optsub_on k sum m (adc-IsBignum k k z k z c) hm flag ((2 * val z + c) % val m) on
        (omega (arith, mod-lt (2 * val z + c) {m = val m} (omega arith), val-lt m hm))
        (ground (arith, total, above le, mul_bit (word_mod ^ k) carry (adc-carry k k z k z c hc)))

  reduced_off :
      nonzero flag ≡ false
      → carry ≡ 0
      → val sum < val m
      → val (reference_optsub k sum flag m).z ≡ (2 * val z + c) % val m
  reduced_off off e lt =
      let same : val sum ≡ 2 * val z + c =
        omega (arith, total, ap (λ (t : ℕ). word_mod ^ k * t) e) in
      optsub_off k sum m (adc-IsBignum k k z k z c) hm flag off
      ∙ same
      ∙ sym (mod-eq_of_lt {n = 2 * val z + c} {m = val m} (omega arith))

  reduce_once : val (reference_optsub k sum flag m).z ≡ (2 * val z + c) % val m
  reduce_once = elim (Bool-cases (leb (val m) (val sum))) [
    | inl ge ↦
        reduced_on (ground (arith, flag_lem)) (omega (arith, leb→le (val m) (val sum) ge, total))
    | inr lt ↦ elim (mul_bit (word_mod ^ k) carry (adc-carry k k z k z c hc)) [
      | inl (e, _) ↦ reduced_off (ground (arith, flag_lem)) e (leb_false→lt (val m) (val sum) lt)
      | inr (e, f) ↦ reduced_on (ground (arith, flag_lem)) (omega (arith, total, f, val-lt m hm))
    ]
  ]

-- What `z` holds before round `i`: 0 at first, and then a power of two.
abbrev residue : ℕ → ℕ → ℕ
residue m zero = 0
residue m (suc i) = 2 ^ i % m

residue_step :
    (m i v : ℕ)
    → 0 < m
    → v ≡ residue m i
    → ((2 * v + (if i == 0 then 1 else 0)) % m ≡ residue m (suc i))
      × (2 * v + (if i == 0 then 1 else 0) < 2 * m)
residue_step m zero v pos e = (ap (λ (t : ℕ). (2 * t + 1) % m) e, omega arith)
residue_step m (suc i) v pos e =
    let half : (2 * v + 0) % m ≡ 2 ^ suc i % m =
      ap (λ (t : ℕ). t % m) (omega arith)
      ∙ ap (λ (t : ℕ). (2 * t) % m) e
      ∙ mul-mod-mod 2 (2 ^ i) m
      ∙ ap (λ (t : ℕ). t % m) (omega (arith, pow-suc 2 i)) in
    (ground (arith, half), ground (arith, mod-lt (2 ^ i) pos))

module _ (k : ℕ) (m : List ℕ) (hm : IsBignum k m) (pos : 0 < val m) where
  modpowtwo_loop_lem :
      (left i j : ℕ) (z : List ℕ)
      → i + left ≡ j
      → IsBignum k z
      → val z ≡ residue (val m) i
      → IsBignum k (modpowtwo_loop k m left i z)
        × (val (modpowtwo_loop k m left i z) ≡ residue (val m) j)
  unfolding modpowtwo_loop
  modpowtwo_loop_lem zero i j z end hz e = (hz, e ∙ ap (residue (val m)) (omega arith))
  modpowtwo_loop_lem (suc left) i j z end hz e =
      let c : ℕ = if i == 0 then 1 else 0 in
      let hc : c ≤ 1 = ground arith in
      let (next, small) = residue_step (val m) i (val z) pos e in
      modpowtwo_loop_lem left (suc i) j _ (omega arith)
        (optsub-IsBignum k (sum k m hm z hz c hc small) m (adc-IsBignum k k z k z c) hm
          (flag k m hm z hz c hc small))
        (reduce_once k m hm z hz c hc small ∙ next)

  -- For a k-digit modulus that is not 0, `reference_modpowtwo` writes k digits with the value
  -- 2 ^ n modulo it, for every n.
  pub modpowtwo_lem :
      (n : ℕ)
      → IsBignum k (reference_modpowtwo k n m) × (val (reference_modpowtwo k n m) ≡ 2 ^ n % val m)
  unfolding reference_modpowtwo
  modpowtwo_lem n =
      modpowtwo_loop_lem (suc n) 0 (suc n) (reference_of_word k 0) (omega arith)
        (of_word-IsBignum k 0 (omega arith)) (val-of_word k 0 (omega arith) ∙ zero-mod _)
