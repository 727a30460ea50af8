-- ===== src/Sampling/Accept.antt =====
-- What the samplers return: the acceptable fields of the buffer in their order, at most 256 of them.
use s2n_bignum.Prelude.{
  ℕ, zero, suc, ◌≤◌, ◌<◌, ◌≡◌, refl, ap, sym, ◌∙◌, inl, inr, List, [], ◌∷◌, ◌++◌, Bool, true, false,
  ◌&&◌, ltb, if◌then◌else◌, length, take, length-append, arith, Bool-cases, ltb→lt, ltb_false→le,
}
use mathlib.Core.List.{append_assoc, append-nil}
use s2n_bignum.Sampling.{target, offer, write}

module _ {ℓ} {A : Type ℓ} where
  -- The values of the fields that pass a test.
  abbrev pub accepted : (ℕ → Bool) → (ℕ → A) → List ℕ → List A
  accepted test value [] = []
  accepted test value (c ∷ cs) =
      if test c then value c ∷ accepted test value cs else accepted test value cs

  take_all : (n : ℕ) (xs : List A) → length xs ≤ n → take n xs ≡ xs
  take_all zero [] h = refl
  take_all zero (x ∷ xs) h = absurd (omega arith)
  take_all (suc n) [] h = refl
  take_all (suc n) (x ∷ xs) h = ap (λ (t : List A). x ∷ t) (take_all n xs (omega arith))

  take_full : (n : ℕ) (xs ys : List A) → length xs ≡ n → take n (xs ++ ys) ≡ xs
  take_full zero [] ys h = refl
  take_full zero (x ∷ xs) ys h = absurd (omega arith)
  take_full (suc n) [] ys h = absurd (omega arith)
  take_full (suc n) (x ∷ xs) ys h = ap (λ (t : List A). x ∷ t) (take_full n xs ys (omega arith))

  write-append :
      (b : Bool) (x : A) (r rest : List A)
      → write b x r ++ rest ≡ r ++ (if b then x ∷ rest else rest)
  unfolding write
  write-append true x r rest = append_assoc r (x ∷ []) rest
  write-append false x r rest = refl

  length-write : (b : Bool) (x : A) (r : List A) → length r < target → length (write b x r) ≤ target
  unfolding write
  length-write true x r h = omega (arith, length-append r (x ∷ []))
  length-write false x r h = omega arith

  offer-room :
      (b : Bool) (x : A) (r : List A) → ltb (length r) target ≡ true → offer b x r ≡ write b x r
  unfolding offer write
  offer-room b x r h = ap (λ (c : Bool). if c && b then r ++ x ∷ [] else r) h

  offer-full : (b : Bool) (x : A) (r : List A) → ltb (length r) target ≡ false → offer b x r ≡ r
  unfolding offer
  offer-full b x r h = ap (λ (c : Bool). if c && b then r ++ x ∷ [] else r) h

  length-offer : (b : Bool) (x : A) (r : List A) → length r ≤ target → length (offer b x r) ≤ target
  length-offer b x r h = elim (Bool-cases (ltb (length r) target)) [
    | inl room ↦ omega (
      arith,
      ap (λ (t : List A). length t) (offer-room b x r room),
      length-write b x r (ltb→lt (length r) target room),
    )
    | inr full ↦ omega (arith, h, ap (λ (t : List A). length t) (offer-full b x r full))
  ]

  offer-take :
      (b : Bool) (x : A) (r rest : List A)
      → length r ≤ target
      → take target (offer b x r ++ rest) ≡ take target (r ++ (if b then x ∷ rest else rest))
  offer-take b x r rest h = elim (Bool-cases (ltb (length r) target)) [
    | inl room ↦
        ap (λ (t : List A). take target (t ++ rest)) (offer-room b x r room)
        ∙ ap (λ (t : List A). take target t) (write-append b x r rest)
    | inr full ↦
        let exact : length r ≡ target = omega (arith, h, ltb_false→le (length r) target full) in
        ap (λ (t : List A). take target (t ++ rest)) (offer-full b x r full)
        ∙ take_full target r rest exact
        ∙ sym (take_full target r (if b then x ∷ rest else rest) exact)
  ]

  -- The loop stops where the array is full, and goes on where it is not.
  pub until_full :
      (r more rest : List A)
      → length r ≤ target
      → (length r < target → more ≡ take target (r ++ rest))
      → (if ltb (length r) target then more else r) ≡ take target (r ++ rest)
  until_full r more rest h next = elim (Bool-cases (ltb (length r) target)) [
    | inl room ↦
        ap (λ (b : Bool). if b then more else r) room ∙ next (ltb→lt (length r) target room)
    | inr full ↦
        ap (λ (b : Bool). if b then more else r) full
        ∙ sym (take_full target r rest (omega (arith, h, ltb_false→le (length r) target full)))
  ]

  pub ended : (r : List A) → length r ≤ target → r ≡ take target (r ++ [])
  ended r h = sym (ap (λ (t : List A). take target t) (append-nil r) ∙ take_all target r h)

  -- A round of two fields, the second of which is not taken where the first has filled the array.
  pub two_fields :
      (test : ℕ → Bool) (value : ℕ → A) (c d : ℕ) (cs : List ℕ) (r more : List A)
      → length r < target
      → (length (offer (test d) (value d) (write (test c) (value c) r)) ≤ target
          → more
            ≡ take target
                (offer (test d) (value d) (write (test c) (value c) r) ++ accepted test value cs))
      → more ≡ take target (r ++ accepted test value (c ∷ d ∷ cs))
  two_fields test value c d cs r more room next =
      let first = write (test c) (value c) r in
      let below = length-write (test c) (value c) r room in
      next (length-offer (test d) (value d) first below)
      ∙ offer-take (test d) (value d) first (accepted test value cs) below
      ∙ ap (λ (t : List A). take target t)
          (write-append (test c) (value c) r (accepted test value (d ∷ cs)))

  pub one_field :
      (test : ℕ → Bool) (value : ℕ → A) (c : ℕ) (cs : List ℕ) (r more : List A)
      → length r < target
      → (length (write (test c) (value c) r) ≤ target
          → more ≡ take target (write (test c) (value c) r ++ accepted test value cs))
      → more ≡ take target (r ++ accepted test value (c ∷ cs))
  one_field test value c cs r more room next =
      next (length-write (test c) (value c) r room)
      ∙ ap (λ (t : List A). take target t)
          (write-append (test c) (value c) r (accepted test value cs))
