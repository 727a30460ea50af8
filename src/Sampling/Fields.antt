-- ===== src/Sampling/Fields.antt =====
-- The samplers by the fields that they read: 12, 23 or 4 bits of a little-endian buffer.
use s2n_bignum.Prelude.{
  ℕ, ◌+◌, ◌*◌, ◌/◌, ◌%◌, ◌^◌, ◌≤◌, ◌<◌, ◌≡◌, ap, ◌∙◌, List, [], ◌∷◌, ◌++◌, Bool, ltb, if◌then◌else◌,
  length, take, arith, All, bit_and, bit_or,
}
use s2n_bignum.Prelude.Int.{ℤ, sub_ℕ}
use s2n_bignum.Prelude.Bits.{bit_or-above, bit_and-mask}
use s2n_bignum.Sampling.{
  target, offer, write, rej_loop, reference_rej_uniform, mldsa_rej_loop,
  reference_mldsa_rej_uniform, eta4_loop, reference_mldsa_rej_uniform_eta4, eta2_loop,
  reference_mldsa_rej_uniform_eta2,
}
use s2n_bignum.Sampling.Accept.{accepted, until_full, ended, two_fields, one_field}

abbrev pub IsByte : ℕ → Type 0
IsByte b = b < 2 ^ 8

-- Three bytes as a number, and a whole number of such triples as fields of twelve bits or of 23.
abbrev pub three_bytes : ℕ → ℕ → ℕ → ℕ
three_bytes b0 b1 b2 = b0 + 2 ^ 8 * b1 + 2 ^ 16 * b2

abbrev pub twelve_bits : List ℕ → List ℕ
twelve_bits [] = []
twelve_bits (b0 ∷ []) = []
twelve_bits (b0 ∷ b1 ∷ []) = []
twelve_bits (b0 ∷ b1 ∷ b2 ∷ buf) =
    (three_bytes b0 b1 b2 % 2 ^ 12) ∷ (three_bytes b0 b1 b2 / 2 ^ 12) ∷ twelve_bits buf

abbrev pub low_23_bits : List ℕ → List ℕ
low_23_bits [] = []
low_23_bits (b0 ∷ []) = []
low_23_bits (b0 ∷ b1 ∷ []) = []
low_23_bits (b0 ∷ b1 ∷ b2 ∷ buf) = (three_bytes b0 b1 b2 % 2 ^ 23) ∷ low_23_bits buf

abbrev pub nibbles : List ℕ → List ℕ
nibbles [] = []
nibbles (b ∷ buf) = (b % 2 ^ 4) ∷ (b / 2 ^ 4) ∷ nibbles buf

low_field :
    (b0 b1 b2 : ℕ)
    → IsByte b0
    → bit_and (bit_or b0 (2 ^ 8 * b1)) 0xFFF ≡ three_bytes b0 b1 b2 % 2 ^ 12
low_field b0 b1 b2 h =
    bit_and-mask 12 (bit_or b0 (2 ^ 8 * b1))
    ∙ ap (λ (j : ℕ). j % 2 ^ 12) (bit_or-above 8 b0 b1 h)
    ∙ omega arith

high_field :
    (b0 b1 b2 : ℕ)
    → IsByte b0
    → IsByte b1
    → IsByte b2
    → bit_and (bit_or (b1 / 2 ^ 4) (2 ^ 4 * b2)) 0xFFF ≡ three_bytes b0 b1 b2 / 2 ^ 12
high_field b0 b1 b2 h0 h1 h2 =
    bit_and-mask 12 (bit_or (b1 / 2 ^ 4) (2 ^ 4 * b2))
    ∙ ap (λ (j : ℕ). j % 2 ^ 12) (bit_or-above 4 (b1 / 2 ^ 4) b2 (omega arith))
    ∙ omega arith

low_23_field :
    (b0 b1 b2 : ℕ)
    → IsByte b0
    → IsByte b1
    → bit_and (bit_or (bit_or b0 (2 ^ 8 * b1)) (2 ^ 16 * b2)) 0x7FFFFF
      ≡ three_bytes b0 b1 b2 % 2 ^ 23
low_23_field b0 b1 b2 h0 h1 =
    bit_and-mask 23 (bit_or (bit_or b0 (2 ^ 8 * b1)) (2 ^ 16 * b2))
    ∙ ap (λ (j : ℕ). bit_or j (2 ^ 16 * b2) % 2 ^ 23) (bit_or-above 8 b0 b1 h0)
    ∙ ap (λ (j : ℕ). j % 2 ^ 23) (bit_or-above 16 (b0 + 2 ^ 8 * b1) b2 (omega arith))

high_nibble : (b : ℕ) → IsByte b → bit_and (b / 2 ^ 4) 0xF ≡ b / 2 ^ 4
high_nibble b h = bit_and-mask 4 (b / 2 ^ 4) ∙ omega arith

abbrev pub below : ℕ → ℕ → Bool
below q v = ltb v q

rej_loop_lem :
    (buf r : List ℕ)
    → All IsByte buf
    → length r ≤ target
    → rej_loop buf r ≡ take target (r ++ accepted (below 3329) (λ v. v) (twelve_bits buf))
unfolding rej_loop
rej_loop_lem [] r h le = ended r le
rej_loop_lem (b0 ∷ []) r h le = ended r le
rej_loop_lem (b0 ∷ b1 ∷ []) r h le = ended r le
rej_loop_lem (b0 ∷ b1 ∷ b2 ∷ buf) r (h0, (h1, (h2, hs))) le =
    let c = three_bytes b0 b1 b2 % 2 ^ 12 in
    let d = three_bytes b0 b1 b2 / 2 ^ 12 in
    let test = below 3329 in
    let step =
      λ (val0 val1 : ℕ). rej_loop buf (offer (test val1) val1 (write (test val0) val0 r)) in
    ap
      (λ (v : ℕ).
        if ltb (length r) target
        then step v (bit_and (bit_or (b1 / 2 ^ 4) (2 ^ 4 * b2)) 0xFFF)
        else r)
      (low_field b0 b1 b2 h0)
    ∙ ap (λ (v : ℕ). if ltb (length r) target then step c v else r) (high_field b0 b1 b2 h0 h1 h2)
    ∙ until_full r (step c d) (accepted test (λ v. v) (c ∷ d ∷ twelve_bits buf)) le (λ room.
      two_fields test (λ v. v) c d (twelve_bits buf) r (step c d) room
        (λ fits. rej_loop_lem buf (offer (test d) d (write (test c) c r)) hs fits))

-- The ML-KEM sampler returns the first 256 of the 12-bit fields of the buffer that are below 3329,
-- in their order, or all of them if there are fewer; one or two bytes at the end are not read.
pub rej_uniform_lem :
    (buf : List ℕ)
    → All IsByte buf
    → reference_rej_uniform buf ≡ take target (accepted (below 3329) (λ v. v) (twelve_bits buf))
unfolding reference_rej_uniform
rej_uniform_lem buf h = rej_loop_lem buf [] h (omega arith)

mldsa_rej_loop_lem :
    (buf r : List ℕ)
    → All IsByte buf
    → length r ≤ target
    → mldsa_rej_loop buf r ≡ take target (r ++ accepted (below 8380417) (λ v. v) (low_23_bits buf))
unfolding mldsa_rej_loop
mldsa_rej_loop_lem [] r h le = ended r le
mldsa_rej_loop_lem (b0 ∷ []) r h le = ended r le
mldsa_rej_loop_lem (b0 ∷ b1 ∷ []) r h le = ended r le
mldsa_rej_loop_lem (b0 ∷ b1 ∷ b2 ∷ buf) r (h0, (h1, (h2, hs))) le =
    let c = three_bytes b0 b1 b2 % 2 ^ 23 in
    let test = below 8380417 in
    let step = λ (val : ℕ). mldsa_rej_loop buf (write (test val) val r) in
    ap (λ (v : ℕ). if ltb (length r) target then step v else r) (low_23_field b0 b1 b2 h0 h1)
    ∙ until_full r (step c) (accepted test (λ v. v) (c ∷ low_23_bits buf)) le (λ room.
      one_field test (λ v. v) c (low_23_bits buf) r (step c) room
        (λ fits. mldsa_rej_loop_lem buf (write (test c) c r) hs fits))

-- The ML-DSA sampler returns the first 256 of the buffer's 23-bit fields, one in every three bytes,
-- that are below 8380417, in their order, or all of them if there are fewer.
pub mldsa_rej_uniform_lem :
    (buf : List ℕ)
    → All IsByte buf
    → reference_mldsa_rej_uniform buf
      ≡ take target (accepted (below 8380417) (λ v. v) (low_23_bits buf))
unfolding reference_mldsa_rej_uniform
mldsa_rej_uniform_lem buf h = mldsa_rej_loop_lem buf [] h (omega arith)

abbrev pub eta4 : ℕ → ℤ
eta4 v = sub_ℕ 4 v

abbrev pub eta2 : ℕ → ℤ
eta2 v = sub_ℕ 2 (v % 5)

eta4_loop_lem :
    (buf : List ℕ) (r : List ℤ)
    → All IsByte buf
    → length r ≤ target
    → eta4_loop buf r ≡ take target (r ++ accepted (below 9) eta4 (nibbles buf))
unfolding eta4_loop
eta4_loop_lem [] r h le = ended r le
eta4_loop_lem (b ∷ buf) r (hb, hs) le =
    let c = b % 2 ^ 4 in
    let d = b / 2 ^ 4 in
    let test = below 9 in
    let step =
      λ (lo hi : ℕ). eta4_loop buf (offer (test hi) (eta4 hi) (write (test lo) (eta4 lo) r)) in
    ap (λ (v : ℕ). if ltb (length r) target then step v (bit_and d 0xF) else r) (bit_and-mask 4 b)
    ∙ ap (λ (v : ℕ). if ltb (length r) target then step c v else r) (high_nibble b hb)
    ∙ until_full r (step c d) (accepted test eta4 (c ∷ d ∷ nibbles buf)) le (λ room.
      two_fields test eta4 c d (nibbles buf) r (step c d) room
        (λ fits. eta4_loop_lem buf (offer (test d) (eta4 d) (write (test c) (eta4 c) r)) hs fits))

eta2_loop_lem :
    (buf : List ℕ) (r : List ℤ)
    → All IsByte buf
    → length r ≤ target
    → eta2_loop buf r ≡ take target (r ++ accepted (below 15) eta2 (nibbles buf))
unfolding eta2_loop
eta2_loop_lem [] r h le = ended r le
eta2_loop_lem (b ∷ buf) r (hb, hs) le =
    let c = b % 2 ^ 4 in
    let d = b / 2 ^ 4 in
    let test = below 15 in
    let step =
      λ (lo hi : ℕ). eta2_loop buf (offer (test hi) (eta2 hi) (write (test lo) (eta2 lo) r)) in
    ap (λ (v : ℕ). if ltb (length r) target then step v (bit_and d 0xF) else r) (bit_and-mask 4 b)
    ∙ ap (λ (v : ℕ). if ltb (length r) target then step c v else r) (high_nibble b hb)
    ∙ until_full r (step c d) (accepted test eta2 (c ∷ d ∷ nibbles buf)) le (λ room.
      two_fields test eta2 c d (nibbles buf) r (step c d) room
        (λ fits. eta2_loop_lem buf (offer (test d) (eta2 d) (write (test c) (eta2 c) r)) hs fits))

-- The ML-DSA samplers for eta = 4 and for eta = 2 return 4 - v for the half bytes v of the buffer that
-- are below 9, and 2 - v mod 5 for those below 15: the first 256 of them, lower half first.
pub mldsa_rej_uniform_eta_lem :
    (buf : List ℕ)
    → All IsByte buf
    → (reference_mldsa_rej_uniform_eta4 buf ≡ take target (accepted (below 9) eta4 (nibbles buf)))
      × (reference_mldsa_rej_uniform_eta2 buf
          ≡ take target (accepted (below 15) eta2 (nibbles buf)))
unfolding reference_mldsa_rej_uniform_eta4 reference_mldsa_rej_uniform_eta2
mldsa_rej_uniform_eta_lem buf h =
    (eta4_loop_lem buf [] h (omega arith), eta2_loop_lem buf [] h (omega arith))
