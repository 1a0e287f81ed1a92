-- ===== src/UrlEncoding/Plain.antt =====
-- core/util/URLEncoding.cxx: what is encoded consists of characters of one byte.
use openkit_native.Prelude.{
  All, Bool, Bool-cases, List, [], arith, if-both, inl, inr, length, ltb, refl, true, ℕ, ◌%◌, ◌&&◌,
  ◌/◌, ◌<◌, ◌==◌, ◌*◌, ◌≤◌, ◌∷◌, ◌≡◌,
}
use openkit_native.Text.Parts.Plain.{IsPlain}
use openkit_native.UrlEncoding.{
  contains, hex_character, is_copied, unreserved_characters, encode_bytes,
}

all_plain : List ℕ → Bool
all_plain [] = true
all_plain (c ∷ cs) = (ltb 0 c && ltb c 128) && all_plain cs

contains-IsPlain : (c : ℕ) (cs : List ℕ) → all_plain cs ≡ true → contains c cs ≡ true → IsPlain c
unfolding contains all_plain
contains-IsPlain c [] h k = cc
contains-IsPlain c (d ∷ cs) h k = elim (Bool-cases (c == d)) [
  | inl same ↦ (ground arith, ground arith)
  | inr other ↦ contains-IsPlain c cs (ground arith) (ground arith)
]

is_copied-IsPlain : (additional : List ℕ) (c : ℕ) → is_copied additional c ≡ true → IsPlain c
unfolding is_copied unreserved_characters all_plain
is_copied-IsPlain additional c h = contains-IsPlain c unreserved_characters refl (ground arith)

hex_character-IsPlain : (d : ℕ) → d < 16 → IsPlain (hex_character d)
unfolding hex_character
hex_character-IsPlain d h = (ground arith, ground arith)

pub encode_bytes-IsPlain : (additional cs : List ℕ) → All IsPlain (encode_bytes additional cs)
unfolding encode_bytes
encode_bytes-IsPlain additional [] = tt
encode_bytes-IsPlain additional (c ∷ cs) =
    let rest = encode_bytes-IsPlain additional cs in
    if-both (All IsPlain) (is_copied additional c)
      (λ copied. (is_copied-IsPlain additional c copied, rest))
      (λ escaped. (
        (omega arith, omega arith),
        (
          hex_character-IsPlain (c / 16 % 16) (omega arith),
          (hex_character-IsPlain (c % 16) (omega arith), rest),
        ),
      ))

-- A byte becomes three characters at most.
pub length-encode_bytes :
    (additional cs : List ℕ) → length (encode_bytes additional cs) ≤ 3 * length cs
unfolding encode_bytes
length-encode_bytes additional [] = omega arith
length-encode_bytes additional (c ∷ cs) = ground (arith, length-encode_bytes additional cs)
