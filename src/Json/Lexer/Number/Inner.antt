-- ===== src/Json/Lexer/Number/Inner.antt =====
-- util/json/constants/JsonLiterals.h: no byte of a number ends a literal.
use openkit_native.Prelude.{
  All, Bool, Bool-cases, List, [], arith, false, inl, inr, is_empty, leb, refl, true, ℕ, ◌&&◌, ◌==◌,
  ◌||◌, ◌∷◌, ◌≡◌,
}
use openkit_native.Json.Lexer.Characters.{ends_literal}
use openkit_native.Json.Lexer.Number.{
  are_digits, is_digit, is_exponent, is_fraction, is_unsigned, matches_number_pattern, skip_digits,
}

-- The bytes of a number are digits, signs, a point and the letters of an exponent.
abbrev pub Inner : ℕ → Type 0
Inner c = ends_literal c ≡ false

skip_digits-Inner : (cs : List ℕ) → All Inner (skip_digits cs) → All Inner cs
unfolding skip_digits is_digit
skip_digits-Inner [] h = tt
skip_digits-Inner (c ∷ cs) h = elim (Bool-cases (leb 48 c && leb c 57)) [
  | inl digit ↦
      let inner : Inner c = unfold ends_literal in ground arith in
      (inner, skip_digits-Inner cs (rw digit at h))
  | inr other ↦ rw other at h
]

nothing-Inner : (cs : List ℕ) → is_empty (skip_digits cs) ≡ true → All Inner cs
nothing-Inner cs h = skip_digits-Inner cs (go (skip_digits cs) h)
  where
    go : (l : List ℕ) → is_empty l ≡ true → All Inner l
    go [] h = tt
    go (c ∷ l) h = cc

pub and-left : (a b : Bool) → (a && b) ≡ true → a ≡ true
and-left true b h = refl
and-left false b h = h

pub and-right : (a b : Bool) → (a && b) ≡ true → b ≡ true
and-right true b h = h
and-right false b h = cc

pub digit-Inner : (c : ℕ) → is_digit c ≡ true → Inner c
unfolding is_digit ends_literal
digit-Inner c h = ground arith

are_digits-Inner : (cs : List ℕ) → are_digits cs ≡ true → All Inner cs
unfolding are_digits
are_digits-Inner [] h = tt
are_digits-Inner (c ∷ cs) h =
    (digit-Inner c (and-left _ _ h), nothing-Inner cs (and-right (is_digit c) _ h))

is_exponent-Inner : (cs : List ℕ) → is_exponent cs ≡ true → All Inner cs
unfolding is_exponent
is_exponent-Inner [] h = tt
is_exponent-Inner (e ∷ []) h = cc
is_exponent-Inner (e ∷ s ∷ cs) h =
    let letter : Inner e =
      let k = and-left (e == 101 || e == 69) _ h in unfold ends_literal in ground arith in
    elim (Bool-cases (s == 43 || s == 45)) [
      | inl sign ↦
          let inner : Inner s = unfold ends_literal in ground arith in
          (letter, (inner, are_digits-Inner cs (rw sign at (and-right (e == 101 || e == 69) _ h))))
      | inr digit ↦
          (letter, are_digits-Inner (s ∷ cs) (rw digit at (and-right (e == 101 || e == 69) _ h)))
    ]

is_fraction-Inner : (cs : List ℕ) → is_fraction cs ≡ true → All Inner cs
unfolding is_fraction
is_fraction-Inner [] h = tt
is_fraction-Inner (p ∷ []) h = cc
is_fraction-Inner (p ∷ c ∷ cs) h = elim (Bool-cases (p == 46)) [
  | inl point ↦
      let k = rw point at h in
      let inner : Inner p = unfold ends_literal in ground arith in
      (
        inner,
        (
          digit-Inner c (and-left _ _ k),
          skip_digits-Inner cs (is_exponent-Inner (skip_digits cs) (and-right (is_digit c) _ k)),
        ),
      )
  | inr letter ↦ is_exponent-Inner (p ∷ c ∷ cs) (rw letter at h)
]

is_unsigned-Inner : (cs : List ℕ) → is_unsigned cs ≡ true → All Inner cs
unfolding is_unsigned
is_unsigned-Inner [] h = cc
is_unsigned-Inner (c ∷ cs) h = elim (Bool-cases (c == 48)) [
  | inl nought ↦
      let inner : Inner c = unfold ends_literal in ground arith in
      (inner, is_fraction-Inner cs (rw nought at h))
  | inr other ↦
      let k = rw other at h in
      (
        digit-Inner c (and-left _ _ k),
        skip_digits-Inner cs (is_fraction-Inner (skip_digits cs) (and-right (is_digit c) _ k)),
      )
]

pub matches-Inner : (cs : List ℕ) → matches_number_pattern cs ≡ true → All Inner cs
unfolding matches_number_pattern
matches-Inner [] h = tt
matches-Inner (c ∷ cs) h = elim (Bool-cases (c == 45)) [
  | inl minus ↦
      let inner : Inner c = unfold ends_literal in ground arith in
      (inner, is_unsigned-Inner cs (rw minus at h))
  | inr other ↦ is_unsigned-Inner (c ∷ cs) (rw other at h)
]
