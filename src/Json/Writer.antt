-- ===== src/Json/Writer.antt =====
-- util/json/JsonWriter.cxx and `writeJsonString` of the values: text from values.
use openkit_native.Prelude.{
  Bool, List, Option, [], false, if◌then◌else◌, leb, ltb, true, ℕ, ◌%◌, ◌++◌, ◌+◌, ◌/◌, ◌==◌, ◌∷◌,
}
use openkit_native.Json.Lexer.Characters.{quotation_mark, reverse_solidus}
use openkit_native.Json.Lexer.Stream.{false_literal, null_literal, true_literal}
use openkit_native.Json.Number.{write_number}
use openkit_native.Json.Value.{
  Fields, Items, JsonValue, array, boolean, field, missing, no_fields, no_items, null, number,
  object, push_back, string,
}
pub mod Strings
pub mod Trees
pub mod Separated
pub mod RoundTrip

unfoldable pub lower_hex_character : ℕ → ℕ
lower_hex_character d = if ltb d 10 then 48 + d else 87 + d

-- `std::hex`, `std::setw(4)` and `std::setfill('0')` for a number below 256
unfoldable pub four_hex_characters : ℕ → List ℕ
unfolding lower_hex_character
four_hex_characters c = 48 ∷ 48 ∷ lower_hex_character (c / 16) ∷ lower_hex_character (c % 16) ∷ []

-- one round of `escapeString`
unfoldable pub escape_character : ℕ → List ℕ
unfolding four_hex_characters
escape_character c =
    if c == 8
    then reverse_solidus ∷ b'b' ∷ []
    else if c == 12
    then reverse_solidus ∷ b'f' ∷ []
    else if c == 10
    then reverse_solidus ∷ b'n' ∷ []
    else if c == 13
    then reverse_solidus ∷ b'r' ∷ []
    else if c == 9
    then reverse_solidus ∷ b't' ∷ []
    else if c == b'/'
    then reverse_solidus ∷ b'/' ∷ []
    else if c == quotation_mark
    then reverse_solidus ∷ quotation_mark ∷ []
    else if c == reverse_solidus
    then reverse_solidus ∷ reverse_solidus ∷ []
    else if leb c 31
    then reverse_solidus ∷ b'u' ∷ four_hex_characters c
    else c ∷ []

unfoldable pub escape_string : List ℕ → List ℕ
unfolding escape_character
escape_string [] = []
escape_string (c ∷ cs) = escape_character c ++ escape_string cs

-- `insertStringValue`, and `insertKey`, which writes the same
unfoldable pub insert_string_value : List ℕ → List ℕ
unfolding escape_string
insert_string_value s = quotation_mark ∷ (escape_string s ++ quotation_mark ∷ [])

-- `insertElementSeperator`, before every element but the first
unfoldable pub separator : Bool → List ℕ
separator first = if first then [] else b',' ∷ []

module _ (fixed_double : ℕ → Option (List ℕ)) where
  -- `writeJsonString` of each value; a map is written in the order of its list
  unfoldable mutual
    unfolding separator insert_string_value write_number

    pub write_json_string : JsonValue → List ℕ
    write_json_string missing = []
    write_json_string null = null_literal
    write_json_string (boolean b) = if b then true_literal else false_literal
    write_json_string (number n) = write_number fixed_double n
    write_json_string (string s) = insert_string_value s
    write_json_string (array items) = b'[' ∷ (write_items items ++ b']' ∷ [])
    write_json_string (object fields) = b'{' ∷ (write_fields true fields ++ b'}' ∷ [])

    pub write_items : Items → List ℕ
    write_items no_items = []
    write_items (push_back no_items v) = write_json_string v
    write_items (push_back (push_back items w) v) =
        write_items (push_back items w) ++ b',' ∷ write_json_string v

    pub write_fields : Bool → Fields → List ℕ
    write_fields first no_fields = []
    write_fields first (field k v fields) =
        separator first
        ++ (insert_string_value k ++ b':' ∷ (write_json_string v ++ write_fields false fields))
