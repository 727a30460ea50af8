-- ===== src/Bignum/OddGcd/Halving.antt =====
-- The shift by one bit halves, and the parity of the lowest digit is that of the number.
use s2n_bignum.Prelude.{
  ℕ, zero, suc, ◌+◌, ◌-◌, ◌*◌, ◌/◌, ◌%◌, ◌^◌, ◌≤◌, ◌<◌, ◌≡◌, refl, ap, List, [], ◌∷◌, get_or,
  bit_and, of_bool, nonzero, arith,
}
use s2n_bignum.Prelude.Bits.{bit_and-one}
use s2n_bignum.Prelude.Powers.{pow-suc-mul}
use s2n_bignum.Word.{word_mod, add64}
use s2n_bignum.Bignum.{val, IsBignum}
use s2n_bignum.Bignum.Digits.{digit_in_range, digit-lt, span, span-suc, span-val}
use s2n_bignum.Bignum.OddGcd.{shr_loop, reference_shr_samelen, reference_odd, reference_even}

half_digit :
    (d c : ℕ)
    → d < word_mod
    → c ≤ 1
    → 2 * add64 (d / 2) (c * 2 ^ 63 % word_mod) + d % 2 ≡ d + word_mod * c
half_digit d c hd hc = omega arith

module _ (k : ℕ) (x : List ℕ) (hx : IsBignum k x) where
  shr_loop_lem :
      (left c : ℕ) (done : List ℕ)
      → left ≤ k
      → c ≤ 1
      → ((shr_loop x left c done).c ≤ 1)
        × (2 * val (shr_loop x left c done).z + (shr_loop x left c done).c
            ≡ span k x left 0 + word_mod ^ left * (c + 2 * val done))
  unfolding shr_loop val
  shr_loop_lem zero c done le hc = unfold span in (hc, omega arith)
  shr_loop_lem (suc left) c done le hc =
      let d = get_or x left 0 in
      let same = digit_in_range {k = k} x left le in
      let hd : d < word_mod = omega (arith, same, digit-lt x left hx) in
      let q = add64 (d / 2) (c * 2 ^ 63 % word_mod) in
      let t = bit_and d 1 in
      let (bit, total) =
        shr_loop_lem left t (q ∷ done) (omega arith) (omega (arith, bit_and-one d)) in
      (
        bit,
        omega (
          arith,
          total,
          span-suc k x left,
          ap (λ (s : ℕ). word_mod ^ left * s) same,
          ap (λ (s : ℕ). word_mod ^ left * s) (bit_and-one d),
          ap (λ (s : ℕ). word_mod ^ left * s) (half_digit d c hd hc),
          pow-suc-mul word_mod left (c + 2 * val done),
        ),
      )

  shr_loop-IsBignum :
      (left c j : ℕ) (done : List ℕ)
      → IsBignum j done
      → IsBignum (left + j) (shr_loop x left c done).z
  unfolding shr_loop
  shr_loop-IsBignum zero c j done h = (omega arith, h.1)
  shr_loop-IsBignum (suc left) c j done h =
      let d = get_or x left 0 in
      let q = add64 (d / 2) (c * 2 ^ 63 % word_mod) in
      let wider : IsBignum (suc j) (q ∷ done) = (ap suc h.0, (omega arith, h.1)) in
      let rest = shr_loop-IsBignum left (bit_and d 1) (suc j) (q ∷ done) wider in
      (omega (arith, rest.0), rest.1)

  -- Shifting a k-digit number right by one bit, with a bit shifted in at the top if `cin` is not 0,
  -- halves the number with that bit in front; the bit that falls out is returned.
  pub shr_lem :
      (cin : ℕ)
      → ((reference_shr_samelen k x cin).c ≤ 1)
        × (2 * val (reference_shr_samelen k x cin).z + (reference_shr_samelen k x cin).c
            ≡ val x + word_mod ^ k * of_bool (nonzero cin))
  unfolding reference_shr_samelen val
  shr_lem cin =
      let (bit, total) = shr_loop_lem k (of_bool (nonzero cin)) [] (omega arith) (ground arith) in
      (bit, omega (arith, total, span-val x hx))

  pub shr-IsBignum : (cin : ℕ) → IsBignum k (reference_shr_samelen k x cin).z
  unfolding reference_shr_samelen
  shr-IsBignum cin =
      let h = shr_loop-IsBignum k (of_bool (nonzero cin)) 0 [] (refl, tt) in
      (omega (arith, h.0), h.1)

pub odd_lem : (k : ℕ) (x : List ℕ) → IsBignum k x → reference_odd k x ≡ val x % 2
unfolding reference_odd val
odd_lem k [] (e, w) = ground arith
odd_lem k (d ∷ ds) (e, w) = ground (arith, bit_and-one d)

pub even_lem : (k : ℕ) (x : List ℕ) → IsBignum k x → reference_even k x ≡ 1 - val x % 2
unfolding reference_even
even_lem k x h = ground (arith, odd_lem k x h)
