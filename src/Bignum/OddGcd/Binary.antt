-- ===== src/Bignum/OddGcd/Binary.antt =====
-- The binary algorithm: with one number odd, 128 * k rounds leave the greatest common divisor.
use s2n_bignum.Prelude.{
  ℕ, zero, suc, ◌+◌, ◌-◌, ◌*◌, ◌/◌, ◌%◌, ◌^◌, ◌≤◌, ◌<◌, ◌≡◌, ◌⊎◌, inl, inr, refl, sym, ap, ◌∙◌,
  List, of_bool, nonzero, ◌==◌, arith,
}
use s2n_bignum.Prelude.{true, false, ◌&&◌, Bool-cases, ==_iff, Nat-cases}
use s2n_bignum.Prelude.Powers.{mul_bound, pow-add}
use s2n_bignum.Word.{word_mod}
use s2n_bignum.Bignum.{val, IsBignum, reference_of_word}
use s2n_bignum.Bignum.Digits.{val-lt, copy_same, of_word-IsBignum, val-of_word}
use s2n_bignum.Bignum.Add.{reference_sub_samelen}
use s2n_bignum.Bignum.Add.Laws.{sub_samelen_lem, sub-IsBignum}
use s2n_bignum.Bignum.Compare.{samelen_lem}
use s2n_bignum.Bignum.Div.Gcd.{IsGcd}
use s2n_bignum.Bignum.OddGcd.{
  Pair, must_swap, reduce, oddgcd_step, oddgcd_loop, reference_oddgcd, reference_odd,
  reference_even, reference_coprime, reference_shr_samelen,
}
use s2n_bignum.Bignum.OddGcd.Halving.{shr_lem, shr-IsBignum, odd_lem, even_lem}
use Prim.Native.Nat.{◌∣◌}
use s2n_bignum.Bignum.Compare.{reference_eq_samelen}
use native.Mathlib.Nat.{
  mod-eq_of_lt, eq-one_of_dvd-one, dvd_refl, pow-suc, dvd-zero, dvd_trans, dvd_of_mod-eq-zero,
  mod-eq-zero_of_dvd, dvd-mul_left, dvd-sub, dvd-add, dvd-mul_left_of_dvd,
}
use mathlib.Core.Path.{subst}
use s2n_bignum.Prelude.{◌↔◌}

-- Two pairs with the same common divisors.
abbrev SameDivisors : ℕ → ℕ → ℕ → ℕ → Type 0
SameDivisors m n x y = (d : ℕ) → ((d ∣ m) × (d ∣ n)) ↔ ((d ∣ x) × (d ∣ y))

odd_divides_half : (d n h : ℕ) → n % 2 ≡ 1 → d ∣ n → d ∣ 2 * h → d ∣ h
odd_divides_half d n h odd p q = elim (Bool-cases (d % 2 == 0)) [
  | inl even ↦
      let two : 2 ∣ n = dvd_trans 2 (dvd_of_mod-eq-zero 2 ((==_iff (d % 2) 0).0 even)) p in
      absurd (omega (arith, mod-eq-zero_of_dvd 2 two))
  | inr d_odd ↦
      let e : d ≡ 2 * (d / 2) + 1 = ground arith in
      let rest : h * d - d / 2 * (2 * h) ≡ h = omega (arith, ap (λ (t : ℕ). h * t) e) in
      subst (λ (t : ℕ). d ∣ t) rest (dvd-sub d (dvd-mul_left d h) (dvd-mul_left_of_dvd d q (d / 2)))
]

SameDivisors-half : (m n : ℕ) → n % 2 ≡ 1 → m % 2 ≡ 0 → SameDivisors (m / 2) n m n
SameDivisors-half m n odd even d = (
  λ p. (subst (λ (t : ℕ). d ∣ t) (omega arith) (dvd-mul_left_of_dvd d p.0 2), p.1),
  λ p. (odd_divides_half d n (m / 2) odd p.1 (subst (λ (t : ℕ). d ∣ t) (omega arith) p.0), p.1),
)

SameDivisors-sub : (m n : ℕ) → n ≤ m → SameDivisors (m - n) n m n
SameDivisors-sub m n le d = (
  λ p. (subst (λ (t : ℕ). d ∣ t) (omega arith) (dvd-add d p.0 p.1), p.1),
  λ p. (dvd-sub d p.0 p.1, p.1),
)

-- Digits, an odd number among the two, and the common divisors that the run began with.
record Runs (k x y : ℕ) (p : Pair) : Type 0 where
  m_digits : IsBignum k p.m
  n_digits : IsBignum k p.n
  one_odd : (val p.m % 2 ≡ 1) ⊎ (val p.n % 2 ≡ 1)
  common : SameDivisors (val p.m) (val p.n) x y

module _ (k x y : ℕ) (p : Pair) (r : Runs k x y p) where
  swap_on : must_swap k p ≡ true → (val p.m % 2 ≡ 1) × (val p.n % 2 ≡ 1 → val p.m ≤ val p.n)
  unfolding must_swap
  swap_on h = ground (
    arith,
    r.one_odd,
    odd_lem k p.m r.m_digits,
    even_lem k p.n r.n_digits,
    (samelen_lem k p.m p.n r.m_digits r.n_digits).1,
  )

  swap_off : must_swap k p ≡ false → (val p.n % 2 ≡ 1) × (val p.m % 2 ≡ 1 → val p.n ≤ val p.m)
  unfolding must_swap
  swap_off h = ground (
    arith,
    r.one_odd,
    odd_lem k p.m r.m_digits,
    even_lem k p.n r.n_digits,
    (samelen_lem k p.m p.n r.m_digits r.n_digits).1,
  )

module _ (k x y : ℕ) (s : Pair) (r : Runs k x y s) (n_odd : val s.n % 2 ≡ 1)
    (order : val s.m % 2 ≡ 1 → val s.n ≤ val s.m) where
  halved :
      (m : List ℕ) → IsBignum k m → val m % 2 ≡ 0 → val (reference_shr_samelen k m 0).z ≡ val m / 2
  halved m h even = omega (arith, shr_lem k m h 0)

  shifted : (m : List ℕ) → Pair
  shifted m = record { m = (reference_shr_samelen k m 0).z; n = s.n }

  shifted-Runs :
      (m : List ℕ)
      → IsBignum k m
      → val m % 2 ≡ 0
      → val m ≤ val s.m
      → SameDivisors (val m) (val s.n) (val s.m) (val s.n)
      → Runs k x y (shifted m) × (2 * val (shifted m).m ≤ val s.m) × ((shifted m).n ≡ s.n)
  unfolding shifted
  shifted-Runs m h even le same =
      let half = halved m h even in
      (
        record {
          m_digits = shr-IsBignum k m h 0;
          n_digits = r.n_digits;
          one_odd = inr n_odd;
          common = λ d. (
            λ c. (r.common d).0 (
                (same d).0 (
                  (SameDivisors-half (val m) (val s.n) n_odd even d).0
                    (subst (λ (t : ℕ). d ∣ t) half c.0, c.1))),
            λ c.
                let both =
                  (SameDivisors-half (val m) (val s.n) n_odd even d).1
                    ((same d).1 ((r.common d).1 c)) in
                (subst (λ (t : ℕ). d ∣ t) (sym half) both.0, both.1),
          );
        },
        omega (arith, half),
        refl,
      )

  reduce-Runs :
      Runs k x y (reduce k s) × (2 * val (reduce k s).m ≤ val s.m) × ((reduce k s).n ≡ s.n)
  unfolding reduce shifted
  reduce-Runs = elim (Bool-cases (val s.m % 2 == 1)) [
    | inl odd ↦
        let le = order ((==_iff _ 1).0 odd) in
        let sub = (sub_samelen_lem k s.m s.n r.m_digits r.n_digits).1 le in
        let flag : nonzero (reference_odd k s.m) ≡ true =
          ground (arith, odd_lem k s.m r.m_digits) in
        rw flag (
          shifted-Runs (reference_sub_samelen k s.m s.n).z (sub-IsBignum k s.m s.n)
            (ground (arith, sub)) (omega (arith, sub))
            (subst (λ (t : ℕ). SameDivisors t (val s.n) (val s.m) (val s.n)) (sym sub)
              (SameDivisors-sub (val s.m) (val s.n) le)))
    | inr even ↦
        let flag : nonzero (reference_odd k s.m) ≡ false =
          ground (arith, odd_lem k s.m r.m_digits) in
        rw flag (shifted-Runs s.m r.m_digits (ground arith) (omega arith) (λ d. (λ c. c, λ c. c)))
  ]

  reduce_product :
      (2 * (val (reduce k s).m * val (reduce k s).n) ≤ val s.m * val s.n)
      × (val (reduce k s).n % 2 ≡ 1)
  reduce_product =
      let (_, half, same) = reduce-Runs in
      (
        omega (
          arith,
          mul_bound (2 * val (reduce k s).m) (val s.n) (val s.m) (val s.n) half (omega arith),
          ap (λ (t : List ℕ). val (reduce k s).m * val t) same,
        ),
        ap (λ (t : List ℕ). val t % 2) same ∙ n_odd,
      )

-- A round keeps what a run is about, halves the product of the two numbers and leaves `n` odd.
module _ (k x y : ℕ) (p : Pair) (r : Runs k x y p) where
  swapped-Runs : Runs k x y (record { m = p.n; n = p.m })
  swapped-Runs = record {
    m_digits = r.n_digits;
    n_digits = r.m_digits;
    one_odd = ground (arith, r.one_odd);
    common = λ d. (λ c. (r.common d).0 (c.1, c.0), λ c. let b = (r.common d).1 c in (b.1, b.0));
  }

  oddgcd_step-Runs :
      Runs k x y (oddgcd_step k p)
      × (2 * (val (oddgcd_step k p).m * val (oddgcd_step k p).n) ≤ val p.m * val p.n)
      × (val (oddgcd_step k p).n % 2 ≡ 1)
  unfolding oddgcd_step
  oddgcd_step-Runs = elim (Bool-cases (must_swap k p)) [
    | inl on ↦
        let s : Pair = record { m = p.n; n = p.m } in
        let (odd, order) = swap_on k x y p r on in
        let (less, stays) = reduce_product k x y s swapped-Runs odd order in
        rw on ((reduce-Runs k x y s swapped-Runs odd order).0, omega (arith, less), stays)
    | inr off ↦
        let (odd, order) = swap_off k x y p r off in
        let (less, stays) = reduce_product k x y p r odd order in
        rw off ((reduce-Runs k x y p r odd order).0, less, stays)
  ]

oddgcd_loop-Runs :
    (k x y left : ℕ) (p : Pair)
    → Runs k x y p
    → val p.n % 2 ≡ 1
    → val p.m * val p.n < 2 ^ left
    → Runs k x y (oddgcd_loop k left p) × (val (oddgcd_loop k left p).m ≡ 0)
unfolding oddgcd_loop
oddgcd_loop-Runs k x y zero p r odd lt =
    (r, omega (arith, mul_bound (val p.m) 1 (val p.m) (val p.n) (omega arith) (omega arith)))
oddgcd_loop-Runs k x y (suc left) p r odd lt =
    let (next, half, stays) = oddgcd_step-Runs k x y p r in
    oddgcd_loop-Runs k x y left (oddgcd_step k p) next stays (omega (arith, half, pow-suc 2 left))

more_bits : (k : ℕ) → 128 * suc k ≡ 128 + 128 * k
more_bits k = omega arith

bits_of_digits : (k : ℕ) → 2 ^ (128 * k) ≡ word_mod ^ k * word_mod ^ k
bits_of_digits zero = refl
bits_of_digits (suc k) = omega (
  arith,
  ap (λ (j : ℕ). 2 ^ j) (more_bits k),
  pow-add 2 128 (128 * k),
  bits_of_digits k,
  ap (λ (t : ℕ). t * t) (pow-suc word_mod k),
)

module _ (k : ℕ) (x y : List ℕ) (hx : IsBignum k x) (hy : IsBignum k y)
    (one : (val x % 2 ≡ 1) ⊎ (val y % 2 ≡ 1)) where
  abbrev first : Pair
  first = record { m = x; n = y }

  first-Runs : Runs k (val x) (val y) first
  first-Runs = record {
    m_digits = hx;
    n_digits = hy;
    one_odd = one;
    common = λ d. (λ c. c, λ c. c);
  }

  all_rounds :
      (j : ℕ)
      → 128 * k ≡ suc j
      → Runs k (val x) (val y) (oddgcd_loop k (suc j) first)
        × (val (oddgcd_loop k (suc j) first).m ≡ 0)
  unfolding oddgcd_loop
  all_rounds j e =
      let (next, half, stays) = oddgcd_step-Runs k (val x) (val y) first first-Runs in
      oddgcd_loop-Runs k (val x) (val y) j (oddgcd_step k first) next stays (
        omega (
          arith,
          half,
          bits_of_digits k,
          ap (λ (t : ℕ). 2 ^ t) e,
          pow-suc 2 j,
          mul_bound (val x + 1) (val y + 1) (word_mod ^ k) (word_mod ^ k)
              (omega (arith, val-lt x hx)) (omega (arith, val-lt y hy)),
        ))

  some_rounds : 128 * k ≡ suc (128 * k - 1)
  some_rounds = elim (Nat-cases k) [
    | inl e ↦ absurd (ground (arith, one, val-lt x hx, val-lt y hy, ap (λ (j : ℕ). word_mod ^ j) e))
    | inr pos ↦ omega arith
  ]

  -- For k-digit numbers of which one is odd, `reference_oddgcd` writes k digits, and the divisors of
  -- its result are the common divisors of the two numbers: 128 * k rounds are enough.
  pub oddgcd_lem :
      IsBignum k (reference_oddgcd k x y) × IsGcd (val x) (val y) (val (reference_oddgcd k x y))
  unfolding reference_oddgcd
  oddgcd_lem =
      let rounds : 128 * k ≡ suc (128 * k - 1) = some_rounds in
      let (r, m_zero) = all_rounds (128 * k - 1) rounds in
      let end = oddgcd_loop k (suc (128 * k - 1)) first in
      rw (copy_same k x hx, copy_same k y hy, rounds)
        (rw (copy_same k end.n r.n_digits) (
          r.n_digits,
          λ d. (
            λ h. (r.common d).0 (subst (λ (t : ℕ). d ∣ t) (sym m_zero) (dvd-zero d), h),
            λ h. ((r.common d).1 h).1,
          ),
        ))

module _ (k : ℕ) (x y : List ℕ) (hx : IsBignum k x) (hy : IsBignum k y)
    (one : (val x % 2 ≡ 1) ⊎ (val y % 2 ≡ 1)) where
  compares_with_one :
      reference_eq_samelen k (reference_of_word k 1) (reference_oddgcd k x y)
      ≡ of_bool (1 == val (reference_oddgcd k x y))
  compares_with_one =
      let z = reference_oddgcd k x y in
      let unit : val (reference_of_word k 1) ≡ 1 =
        val-of_word k 1 (omega arith)
        ∙ mod-eq_of_lt {n = 1} {m = word_mod ^ k} (ground (arith, one, val-lt x hx, val-lt y hy)) in
      (samelen_lem k (reference_of_word k 1) z (of_word-IsBignum k 1 (omega arith))
        (oddgcd_lem k x y hx hy one).0).0
      ∙ ap (λ (v : ℕ). of_bool (v == val z)) unit

  one_odd_coprime :
      (reference_eq_samelen k (reference_of_word k 1) (reference_oddgcd k x y) ≡ 1)
      ↔ ((d : ℕ) → d ∣ val x → d ∣ val y → d ≡ 1)
  one_odd_coprime =
      let g = val (reference_oddgcd k x y) in
      let gcd = (oddgcd_lem k x y hx hy one).1 in
      (
        λ h d p q.
            let unit : g ≡ 1 = ground (arith, compares_with_one) in
            eq-one_of_dvd-one (subst (λ (t : ℕ). d ∣ t) unit ((gcd d).1 (p, q))),
        λ all.
            let both = (gcd g).0 (dvd_refl g) in
            let unit = all g both.0 both.1 in ground (arith, compares_with_one),
      )

-- `reference_coprime` returns 1 for k-digit numbers whose only common divisor is 1, and only then.
pub coprime_lem :
    (k : ℕ) (x y : List ℕ)
    → IsBignum k x
    → IsBignum k y
    → (reference_coprime k x y ≡ 1) ↔ ((d : ℕ) → d ∣ val x → d ∣ val y → d ≡ 1)
unfolding reference_coprime
coprime_lem k x y hx hy =
    elim (Bool-cases (nonzero (reference_even k x) && nonzero (reference_even k y))) [
      | inl even ↦ rw even (
        λ h. absurd (omega arith),
        λ all.
            let x_even = dvd_of_mod-eq-zero 2 {n = val x} (ground (arith, even_lem k x hx)) in
            let y_even = dvd_of_mod-eq-zero 2 {n = val y} (ground (arith, even_lem k y hy)) in
            absurd (omega (arith, all 2 x_even y_even)),
      )
      | inr odd ↦
          let one : (val x % 2 ≡ 1) ⊎ (val y % 2 ≡ 1) =
            ground (arith, even_lem k x hx, even_lem k y hy) in
          rw odd (one_odd_coprime k x y hx hy one)
    ]
