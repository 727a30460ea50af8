-- ===== src/Bignum/Mont/WordInverse.antt =====
-- The negated inverse of an odd word, by Newton's iteration from five correct bits.
use s2n_bignum.Prelude.{
  ℕ, zero, suc, ◌+◌, ◌-◌, ◌*◌, ◌/◌, ◌%◌, ◌^◌, ◌<◌, ◌≡◌, refl, sym, ap, ap₂, ◌∙◌, arith, Bool, true,
  ◌&&◌, ◌==◌, bit_xor, ==_iff,
}
use s2n_bignum.Prelude.Bits.{bit_xor-zero, differ-zero, differ-one, xor-lowest}
use s2n_bignum.Prelude.Powers.{add-mul-mod_factor}
use s2n_bignum.Word.{word_mod, add64, sub64, mul64}
use s2n_bignum.Bignum.Mont.{reference_wordnegmodinv}
use native.Mathlib.Nat.{mod-add-mod, add-mul-mod_self_left, mod-add-div}

xor_two : (x : ℕ) → bit_xor x 2 ≡ x / 4 * 4 + (1 - x / 2 % 2) * 2 + x % 2
xor_two x = omega (
  arith,
  xor-lowest x 2,
  xor-lowest (x / 2) 1,
  bit_xor-zero (x / 2 / 2),
  differ-zero (x % 2),
  differ-one (x / 2 % 2) (omega arith),
)

-- What the starting value is modulo 32, by the odd residues of `a`.
all_odd : ℕ → (ℕ → Bool) → Bool
all_odd zero p = true
all_odd (suc n) p = p (2 * n + 1) && all_odd n p

all_odd_sound : (n : ℕ) (p : ℕ → Bool) (q : ℕ) → all_odd n p ≡ true → q < n → p (2 * q + 1) ≡ true
unfolding all_odd
all_odd_sound zero p q h lt = absurd (omega arith)
all_odd_sound (suc n) p q h lt = ground (arith, all_odd_sound n p q)

abbrev start : ℕ → ℕ
start x = x / 4 * 4 + (1 - x / 2 % 2) * 2 + x % 2

start_table : all_odd 16 (λ r. (r * start ((r + 128 - 4 * r) % 32) + 1) % 32 == 0) ≡ true
unfolding all_odd
start_table = refl

start-mod : (x : ℕ) → start x % 32 ≡ start (x % 32)
start-mod x = omega arith

five_bits : (a : ℕ) → a % 2 ≡ 1 → a < word_mod → (a * bit_xor (sub64 a (mul64 a 4)) 2 + 1) % 32 ≡ 0
five_bits a odd h =
    let x = sub64 a (mul64 a 4) in
    let r = a % 32 in
    let q = r / 2 in
    let s = start ((2 * q + 1 + 128 - 4 * (2 * q + 1)) % 32) in
    let residue : a % 32 ≡ 2 * q + 1 = omega arith in
    let low : start x % 32 ≡ s = omega arith in
    let table : ((2 * q + 1) * s + 1) % 32 ≡ 0 = (==_iff (((2 * q + 1) * s + 1) % 32) 0).0 (
      all_odd_sound 16 (λ r. (r * start ((r + 128 - 4 * r) % 32) + 1) % 32 == 0) q start_table
        (omega arith)) in
    ap (λ (t : ℕ). (a * t + 1) % 32) (xor_two x)
    ∙ ap (λ (t : ℕ). t % 32) (omega arith)
    ∙ sym (add-mul-mod_factor 1 (start x) a 32)
    ∙ ap (λ (t : ℕ). (1 + t * a) % 32) low
    ∙ ap (λ (t : ℕ). t % 32) (omega arith)
    ∙ sym (add-mul-mod_factor 1 a s 32)
    ∙ ap (λ (t : ℕ). (1 + t * s) % 32) residue
    ∙ ap (λ (t : ℕ). t % 32) (omega arith)
    ∙ table

-- One round: if `e` is what `a * x` lacks, then `e * e` is what it lacks after the round.
pub newton :
    (a x e q w : ℕ) → a * x + 1 ≡ e + w * q → a * (e * x + x) + 1 ≡ e * e + w * (q * (e + 1))
newton a x e q w h = omega (arith, ap (λ (t : ℕ). t * (e + 1)) h)

newton_mod :
    (a x e : ℕ) → (a * x + 1) % word_mod ≡ e → (a * add64 (mul64 e x) x + 1) % word_mod ≡ mul64 e e
newton_mod a x e h =
    ap (λ (t : ℕ). t % word_mod) (omega arith)
    ∙ add-mul-mod_factor 1 (e * x % word_mod + x) a word_mod
    ∙ ap (λ (t : ℕ). t % word_mod) (omega arith)
    ∙ add-mul-mod_factor (1 + x * a) (e * x) a word_mod
    ∙ ap (λ (t : ℕ). t % word_mod)
        (omega (arith, newton a x e ((a * x + 1) / word_mod) word_mod (omega (arith, h))))
    ∙ add-mul-mod_self_left (e * e) word_mod ((a * x + 1) / word_mod * (e + 1))

-- Squaring doubles the number of trailing zero bits, as far as a word goes.
square_zeros :
    (e : ℕ)
    → (e % 2 ^ 5 ≡ 0 → mul64 e e % 2 ^ 10 ≡ 0)
      × (e % 2 ^ 10 ≡ 0 → mul64 e e % 2 ^ 20 ≡ 0)
      × (e % 2 ^ 20 ≡ 0 → mul64 e e % 2 ^ 40 ≡ 0)
      × (e % 2 ^ 40 ≡ 0 → mul64 e e ≡ 0)
square_zeros e = (
  λ h. omega (arith, ap₂ (λ (s t : ℕ). s * t) (whole e (2 ^ 5) h) (whole e (2 ^ 5) h)),
  λ h. omega (arith, ap₂ (λ (s t : ℕ). s * t) (whole e (2 ^ 10) h) (whole e (2 ^ 10) h)),
  λ h. omega (arith, ap₂ (λ (s t : ℕ). s * t) (whole e (2 ^ 20) h) (whole e (2 ^ 20) h)),
  λ h. omega (arith, ap₂ (λ (s t : ℕ). s * t) (whole e (2 ^ 40) h) (whole e (2 ^ 40) h)),
)
  where
    whole : (e d : ℕ) → e % d ≡ 0 → e ≡ d * (e / d)
    whole e d h = omega (arith, mod-add-div e d)

-- For an odd word `a`, `a * reference_wordnegmodinv(a) + 1` is a multiple of 2 ^ 64.
pub wordnegmodinv_lem :
    (a : ℕ) → a % 2 ≡ 1 → a < word_mod → (a * reference_wordnegmodinv a + 1) % word_mod ≡ 0
unfolding reference_wordnegmodinv
wordnegmodinv_lem a odd h =
    let x0 = bit_xor (sub64 a (mul64 a 4)) 2 in
    let e0 = add64 (mul64 a x0) 1 in
    let x1 = add64 (mul64 e0 x0) x0 in
    let e1 = mul64 e0 e0 in
    let x2 = add64 (mul64 e1 x1) x1 in
    let e2 = mul64 e1 e1 in
    let x3 = add64 (mul64 e2 x2) x2 in
    let e3 = mul64 e2 e2 in
    let s0 : (a * x0 + 1) % word_mod ≡ e0 = sym (mod-add-mod (a * x0) word_mod 1) in
    let s1 = newton_mod a x0 e0 s0 in
    let s2 = newton_mod a x1 e1 s1 in
    let s3 = newton_mod a x2 e2 s2 in
    let z0 : e0 % 2 ^ 5 ≡ 0 = omega (arith, five_bits a odd h) in
    newton_mod a x3 e3 s3
    ∙ (square_zeros e3).3 ((square_zeros e2).2 ((square_zeros e1).1 ((square_zeros e0).0 z0)))

pub wordnegmodinv-lt : (a : ℕ) → reference_wordnegmodinv a < word_mod
unfolding reference_wordnegmodinv
wordnegmodinv-lt a = omega arith
