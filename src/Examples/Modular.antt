-- ===== src/Examples/Modular.antt =====
-- The theorems on Montgomery arithmetic and common divisors at concrete inputs.
use s2n_bignum.Prelude.{ℕ, ◌≡◌, List, [], ◌∷◌, arith, ◌↔◌}
use s2n_bignum.Bignum.{val, IsBignum}
use s2n_bignum.Bignum.Mont.{}
use s2n_bignum.Bignum.Div.Gcd.{IsGcd}
use s2n_bignum.Bignum.OddGcd.{reference_oddgcd, reference_coprime}
use s2n_bignum.Bignum.OddGcd.Binary.{oddgcd_lem, coprime_lem}
use Prim.Native.Nat.{◌∣◌}

abbrev seven : List ℕ
seven = 7 ∷ []

abbrev six : List ℕ
six = 6 ∷ []

abbrev nine : List ℕ
nine = 9 ∷ 1 ∷ []

-- 7 * 7905747460161236407 is 3 * 2 ^ 64 + 1, so this is its negation.
abbrev seven_inverse : List ℕ
seven_inverse = 10540996613548315209 ∷ []

oddgcd_lem_example :
    IsBignum 1 (reference_oddgcd 1 six seven)
    × IsGcd (val six) (val seven) (val (reference_oddgcd 1 six seven))
unfolding val
oddgcd_lem_example = oddgcd_lem 1 six seven (omega arith) (omega arith) (omega arith)

coprime_lem_example :
    (reference_coprime 1 six seven ≡ 1) ↔ ((d : ℕ) → d ∣ val six → d ∣ val seven → d ≡ 1)
coprime_lem_example = coprime_lem 1 six seven (omega arith) (omega arith)
