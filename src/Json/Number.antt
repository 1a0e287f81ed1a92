-- ===== src/Json/Number.antt =====
-- util/json/objects/JsonNumberValue.cxx: numbers from literals, and their text. What the standard library reads and
-- prints for a double are the parameters `read_double`, which gives bits, and `fixed_double`, which gives nothing for a
-- double that is not finite.
use openkit_native.Prelude.{
  Bool, List, Option, [], false, if◌then◌else◌, is_empty, leb, ltb, none, not, some, suc, zero, ℕ,
  ◌%◌, ◌&&◌, ◌*◌, ◌++◌, ◌+◌, ◌-◌, ◌/◌, ◌==◌, ◌^◌, ◌∷◌,
}
use openkit_native.Json.Lexer.Number.{matches_number_pattern, skip_digits}
use openkit_native.Json.Lexer.Stream.{null_literal}
use openkit_native.Json.Value.{JsonNumber, JsonValue, double, long, missing, number}
pub mod Decimal

unfoldable pub digits_value : ℕ → List ℕ → ℕ
digits_value acc [] = acc
digits_value acc (c ∷ cs) = digits_value (10 * acc + (c - 48)) cs

-- `iss >> parsedValue` of an `int64_t`, for a minus and digits or for digits: fails out of range
unfoldable pub read_long : List ℕ → Option ℕ
unfolding digits_value
read_long [] = none
read_long (c ∷ cs) =
    let negative = digits_value 0 cs in
    let positive = digits_value 0 (c ∷ cs) in
    if c == 45
    then (if leb negative (2 ^ 63) then some ((2 ^ 64 - negative) % 2 ^ 64) else none)
    else if ltb positive (2 ^ 63)
    then some positive
    else none

-- `!matches[2].matched && !matches[3].matched`: no fraction and no exponent
unfoldable pub is_integer_literal : List ℕ → Bool
is_integer_literal [] = false
is_integer_literal (c ∷ cs) = is_empty (skip_digits (if c == 45 then cs else c ∷ cs))

-- `parseLongValue` and `parseDoubleValue`: a null pointer where nothing was read
unfoldable pub number_or_missing : (ℕ → JsonNumber) → Option ℕ → JsonValue
number_or_missing k none = missing
number_or_missing k (some n) = number (k n)

module _ (read_double : List ℕ → Option ℕ) where
  unfoldable pub from_number_literal : List ℕ → JsonValue
  unfolding read_long is_integer_literal number_or_missing
  from_number_literal literal =
      if not (matches_number_pattern literal)
      then missing
      else if is_integer_literal literal
      then number_or_missing long (read_long literal)
      else number_or_missing double (read_double literal)

-- `oss << intValue` of a number below 10 to the power of the first argument
unfoldable pub decimal : ℕ → ℕ → List ℕ
decimal zero n = []
decimal (suc f) n =
    let front = decimal f (n / 10) in
    if ltb n 10 then (48 + n) ∷ [] else front ++ (48 + n % 10) ∷ []

-- `toInvariantString` of an `int64_t`, which has 19 digits at most
unfoldable pub long_to_invariant_string : ℕ → List ℕ
unfolding decimal
long_to_invariant_string n = if ltb n (2 ^ 63) then decimal 20 n else 45 ∷ decimal 20 (2 ^ 64 - n)

-- `str.erase(str.find_last_not_of(c) + 1, std::string::npos)`
unfoldable pub erase_trailing : ℕ → List ℕ → List ℕ
erase_trailing c [] = []
erase_trailing c (d ∷ ds) =
    let rest = erase_trailing c ds in if is_empty rest && d == c then [] else d ∷ rest

-- `toInvariantString` of a double
unfoldable pub double_to_invariant_string : List ℕ → List ℕ
unfolding erase_trailing
double_to_invariant_string fixed = erase_trailing b'.' (erase_trailing b'0' fixed)

module _ (fixed_double : ℕ → Option (List ℕ)) where
  -- `writeJsonString` of a JsonNumberValue
  unfoldable pub write_number : JsonNumber → List ℕ
  unfolding long_to_invariant_string double_to_invariant_string
  write_number (long n) = long_to_invariant_string n
  write_number (double bits) = elim (fixed_double bits) [
    | some fixed ↦ double_to_invariant_string fixed
    | none ↦ null_literal
  ]
