-- ===== src/Examples/Sampling.antt =====
-- The theorems on rejection sampling at a concrete buffer.
use s2n_bignum.Prelude.{ℕ, ◌≡◌, refl, List, [], ◌∷◌, arith, All}
use s2n_bignum.Sampling.{
  target, reference_rej_uniform, reference_mldsa_rej_uniform, reference_mldsa_rej_uniform_eta4,
  reference_mldsa_rej_uniform_eta2,
}
use s2n_bignum.Sampling.Fields.{IsByte}
use s2n_bignum.Contract.Lattice.{
  mlkem_rej_uniform_variable_time, mldsa_rej_uniform_variable_time,
  mldsa_rej_uniform_eta2_variable_time, mldsa_rej_uniform_eta4_variable_time,
}
use s2n_bignum.Contract.Lattice.Laws.{samplers-promised}

-- The first triple has a field that is too large, and the last byte belongs to no triple.
abbrev buffer : List ℕ
buffer = 0xFF ∷ 0x1F ∷ 0x80 ∷ 0x01 ∷ 0x20 ∷ 0x03 ∷ 0xE9 ∷ []

buffer_range : All IsByte buffer
buffer_range = (
  omega arith,
  (omega arith, (omega arith, (omega arith, (omega arith, (omega arith, (omega arith, tt)))))),
)

samplers-promised_example :
    (reference_rej_uniform buffer ≡ mlkem_rej_uniform_variable_time buffer)
    × (reference_mldsa_rej_uniform buffer ≡ mldsa_rej_uniform_variable_time buffer)
    × (reference_mldsa_rej_uniform_eta2 buffer ≡ mldsa_rej_uniform_eta2_variable_time buffer)
    × (reference_mldsa_rej_uniform_eta4 buffer ≡ mldsa_rej_uniform_eta4_variable_time buffer)
samplers-promised_example = samplers-promised buffer buffer_range

-- The run of the ML-KEM sampler: 4095 is rejected.
rej_uniform_run : reference_rej_uniform buffer ≡ 2049 ∷ 1 ∷ 50 ∷ []
unfolding reference_rej_uniform s2n_bignum.Sampling.offer s2n_bignum.Sampling.write
rej_uniform_run = refl
