-- ===== src/Json/Lexer/Number.antt =====
-- util/json/constants/JsonLiterals.h: the pattern of a number,
-- an optional minus, 0 or digits that do not begin with 0, an optional fraction and an optional exponent.
use openkit_native.Prelude.{
  Bool, List, [], false, if◌then◌else◌, is_empty, leb, true, ℕ, ◌&&◌, ◌==◌, ◌||◌, ◌∷◌,
}
pub mod Inner

unfoldable pub is_digit : ℕ → Bool
is_digit c = leb 48 c && leb c 57

unfoldable pub skip_digits : List ℕ → List ℕ
skip_digits [] = []
skip_digits (c ∷ cs) = if is_digit c then skip_digits cs else c ∷ cs

-- digits to the end
unfoldable pub are_digits : List ℕ → Bool
unfolding is_digit
are_digits [] = false
are_digits (c ∷ cs) = is_digit c && is_empty (skip_digits cs)

unfoldable pub is_exponent : List ℕ → Bool
unfolding are_digits
is_exponent [] = true
is_exponent (e ∷ []) = false
is_exponent (e ∷ s ∷ cs) =
    (e == 101 || e == 69) && (if s == 43 || s == 45 then are_digits cs else are_digits (s ∷ cs))

unfoldable pub is_fraction : List ℕ → Bool
unfolding is_digit is_exponent
is_fraction [] = true
is_fraction (p ∷ []) = false
is_fraction (p ∷ c ∷ cs) =
    if p == 46 then is_digit c && is_exponent (skip_digits cs) else is_exponent (p ∷ c ∷ cs)

unfoldable pub is_unsigned : List ℕ → Bool
unfolding is_digit is_fraction
is_unsigned [] = false
is_unsigned (c ∷ cs) =
    if c == 48 then is_fraction cs else is_digit c && is_fraction (skip_digits cs)

unfoldable pub matches_number_pattern : List ℕ → Bool
unfolding is_unsigned
matches_number_pattern [] = false
matches_number_pattern (c ∷ cs) = if c == 45 then is_unsigned cs else is_unsigned (c ∷ cs)
