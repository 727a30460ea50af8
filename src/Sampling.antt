-- ===== src/Sampling.antt =====
-- tests/test.c, the references for rejection sampling: ML-KEM and ML-DSA coefficients from random
-- bytes. The buffer is the list of its `buflen` bytes, and the result is the written part r[0 .. ctr)
-- of the array, whose length is the count that the source returns.
pub mod Accept
pub mod Fields
use s2n_bignum.Prelude.{
  ℕ, zero, suc, ◌+◌, ◌-◌, ◌*◌, ◌/◌, ◌%◌, ◌^◌, List, [], ◌∷◌, ◌++◌, Bool, true, false, ◌&&◌, ltb,
  if◌then◌else◌, length, bit_and, bit_or,
}
use s2n_bignum.Prelude.Int.{ℤ, sub_ℕ}

abbrev pub target : ℕ
target = 256

-- if (ctr < 256 && test) r[ctr++] = value;
unfoldable pub offer {ℓ} : {A : Type ℓ} → Bool → A → List A → List A
offer test value r = if ltb (length r) target && test then r ++ value ∷ [] else r

-- if (test) r[ctr++] = value;
unfoldable pub write {ℓ} : {A : Type ℓ} → Bool → A → List A → List A
write test value r = if test then r ++ value ∷ [] else r

-- while (ctr < 256 && pos + 3 <= buflen) { ... }
pub rej_loop : List ℕ → List ℕ → List ℕ
rej_loop [] r = r
rej_loop (b0 ∷ []) r = r
rej_loop (b0 ∷ b1 ∷ []) r = r
rej_loop (b0 ∷ b1 ∷ b2 ∷ buf) r =
    let val0 = bit_and (bit_or b0 (2 ^ 8 * b1)) 0xFFF in
    let val1 = bit_and (bit_or (b1 / 2 ^ 4) (2 ^ 4 * b2)) 0xFFF in
    let more = rej_loop buf (offer (ltb val1 3329) val1 (write (ltb val0 3329) val0 r)) in
    if ltb (length r) target then more else r

unfoldable pub reference_rej_uniform : List ℕ → List ℕ
unfolding rej_loop
reference_rej_uniform buf = rej_loop buf []

pub mldsa_rej_loop : List ℕ → List ℕ → List ℕ
mldsa_rej_loop [] r = r
mldsa_rej_loop (b0 ∷ []) r = r
mldsa_rej_loop (b0 ∷ b1 ∷ []) r = r
mldsa_rej_loop (b0 ∷ b1 ∷ b2 ∷ buf) r =
    let val = bit_and (bit_or (bit_or b0 (2 ^ 8 * b1)) (2 ^ 16 * b2)) 0x7FFFFF in
    let more = mldsa_rej_loop buf (write (ltb val 8380417) val r) in
    if ltb (length r) target then more else r

unfoldable pub reference_mldsa_rej_uniform : List ℕ → List ℕ
unfolding mldsa_rej_loop
reference_mldsa_rej_uniform buf = mldsa_rej_loop buf []

-- for (pos = 0; pos < buflen && ctr < 256; ++pos) { ... }
pub eta4_loop : List ℕ → List ℤ → List ℤ
eta4_loop [] r = r
eta4_loop (b ∷ buf) r =
    let lo = bit_and b 0xF in
    let hi = bit_and (b / 2 ^ 4) 0xF in
    let more = eta4_loop buf (offer (ltb hi 9) (sub_ℕ 4 hi) (write (ltb lo 9) (sub_ℕ 4 lo) r)) in
    if ltb (length r) target then more else r

unfoldable pub reference_mldsa_rej_uniform_eta4 : List ℕ → List ℤ
unfolding eta4_loop
reference_mldsa_rej_uniform_eta4 buf = eta4_loop buf []

pub eta2_loop : List ℕ → List ℤ → List ℤ
eta2_loop [] r = r
eta2_loop (b ∷ buf) r =
    let lo = bit_and b 0xF in
    let hi = bit_and (b / 2 ^ 4) 0xF in
    let more =
      eta2_loop buf
        (offer (ltb hi 15) (sub_ℕ 2 (hi % 5)) (write (ltb lo 15) (sub_ℕ 2 (lo % 5)) r)) in
    if ltb (length r) target then more else r

unfoldable pub reference_mldsa_rej_uniform_eta2 : List ℕ → List ℤ
unfolding eta2_loop
reference_mldsa_rej_uniform_eta2 buf = eta2_loop buf []
