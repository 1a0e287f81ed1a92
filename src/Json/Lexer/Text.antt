-- ===== src/Json/Lexer/Text.antt =====
-- util/json/lexer/JsonLexer.cxx: string tokens and their escape sequences.
use openkit_native.Prelude.{
  Bool, List, Option, [], if◌then◌else◌, leb, none, some, suc, zero, ℕ, ◌%◌, ◌&&◌, ◌*◌, ◌++◌, ◌+◌,
  ◌-◌, ◌/◌, ◌==◌, ◌||◌, ◌∷◌,
}
use openkit_native.Json.Lexer.{Lexed, lexed, lexer_exception, logic_error, out_of_fuel, then_lex}
use openkit_native.Json.Lexer.Characters.{
  is_character_that_needs_escaping, is_hex_character, quotation_mark, reverse_solidus,
}
use openkit_native.UrlEncoding.{hex_value}

-- `readUnicodeEscapeSequence`: as many hexadecimal characters as are left to read, and one more that is given back
unfoldable pub read_unicode_escape_sequence : ℕ → List ℕ → List ℕ → Lexed (List ℕ)
unfolding is_hex_character
read_unicode_escape_sequence left digits [] = lexer_exception
read_unicode_escape_sequence zero digits (c ∷ cs) = lexed digits (c ∷ cs)
read_unicode_escape_sequence (suc left) digits (c ∷ cs) =
    if is_hex_character c
    then read_unicode_escape_sequence left (digits ++ c ∷ []) cs
    else lexer_exception

abbrev pub num_unicode_characters : ℕ
num_unicode_characters = 4

-- `strtol` to the base 16, of characters that are all hexadecimal
unfoldable pub hex_number : ℕ → List ℕ → ℕ
unfolding hex_value
hex_number acc [] = acc
hex_number acc (c ∷ cs) = hex_number (16 * acc + hex_value c) cs

unfoldable pub is_high_surrogate_character : ℕ → Bool
is_high_surrogate_character c = leb 0xD800 c && leb c 0xDBFF

unfoldable pub is_low_surrogate_character : ℕ → Bool
is_low_surrogate_character c = leb 0xDC00 c && leb c 0xDFFF

-- `convertUtf16StringToUtf8String` of a surrogate pair: the four bytes of its character
unfoldable pub utf8_of_pair : ℕ → ℕ → List ℕ
utf8_of_pair high low =
    let point = 0x10000 + (high - 0xD800) * 0x400 + (low - 0xDC00) in
    (240 + point / 262144)
    ∷ (128 + point / 4096 % 64)
    ∷ (128 + point / 64 % 64)
    ∷ (128 + point % 64)
    ∷ []

-- `tryParseLowSurrogateChar`: `none` is no success. One byte can be given back, but not two.
unfoldable pub try_parse_low_surrogate_char : List ℕ → Lexed (Option ℕ)
unfolding read_unicode_escape_sequence hex_number
try_parse_low_surrogate_char [] = lexed none []
try_parse_low_surrogate_char (a ∷ []) = lexed none (a ∷ [])
try_parse_low_surrogate_char (a ∷ b ∷ rest) =
    if a == reverse_solidus
    then (if b == b'u'
        then then_lex (read_unicode_escape_sequence num_unicode_characters [] rest)
            (λ digits left. lexed (some (hex_number 0 digits)) left)
        else logic_error)
    else lexed none (a ∷ b ∷ rest)

-- after the high surrogate
unfoldable pub pair_with : ℕ → Option ℕ → List ℕ → Lexed (List ℕ)
unfolding is_low_surrogate_character utf8_of_pair
pair_with high none rest = lexer_exception
pair_with high (some low) rest =
    if is_low_surrogate_character low then lexed (utf8_of_pair high low) rest else lexer_exception

-- what the sequence of one character stands for: its two bytes, without the upper one if that is zero
unfoldable pub two_bytes : ℕ → List ℕ
two_bytes n = if n / 256 % 256 == 0 then n % 256 ∷ [] else n / 256 % 256 ∷ n % 256 ∷ []

unfoldable pub try_parse_unicode_escape_sequence : List ℕ → Lexed (List ℕ)
unfolding read_unicode_escape_sequence hex_number is_high_surrogate_character
    is_low_surrogate_character try_parse_low_surrogate_char pair_with two_bytes
try_parse_unicode_escape_sequence input =
    then_lex (read_unicode_escape_sequence num_unicode_characters [] input) (λ digits rest.
      let n = hex_number 0 digits in
      if is_high_surrogate_character n
      then then_lex (try_parse_low_surrogate_char rest) (pair_with n)
      else if is_low_surrogate_character n
      then lexer_exception
      else lexed (two_bytes n) rest)

-- `tryParseEscapeSequence`, after the reverse solidus: the bytes that are written
unfoldable pub try_parse_escape_sequence : List ℕ → Lexed (List ℕ)
unfolding try_parse_unicode_escape_sequence
try_parse_escape_sequence [] = lexer_exception
try_parse_escape_sequence (c ∷ cs) =
    if c == quotation_mark || c == reverse_solidus || c == b'/'
    then lexed (c ∷ []) cs
    else if c == b'b'
    then lexed (8 ∷ []) cs
    else if c == b'f'
    then lexed (12 ∷ []) cs
    else if c == b'n'
    then lexed (10 ∷ []) cs
    else if c == b'r'
    then lexed (13 ∷ []) cs
    else if c == b't'
    then lexed (9 ∷ []) cs
    else if c == b'u'
    then try_parse_unicode_escape_sequence cs
    else lexer_exception

-- `tryParseStringToken`, after the quotation mark, with what has been written so far
unfoldable pub try_parse_string_token : ℕ → List ℕ → List ℕ → Lexed (List ℕ)
unfolding try_parse_escape_sequence is_character_that_needs_escaping
try_parse_string_token zero written input = out_of_fuel
try_parse_string_token (suc fuel) written [] = lexer_exception
try_parse_string_token (suc fuel) written (c ∷ cs) =
    let escaped =
      then_lex (try_parse_escape_sequence cs)
        (λ bytes rest. try_parse_string_token fuel (written ++ bytes) rest) in
    let plain = try_parse_string_token fuel (written ++ c ∷ []) cs in
    if c == quotation_mark
    then lexed written cs
    else if c == reverse_solidus
    then escaped
    else if is_character_that_needs_escaping c
    then lexer_exception
    else plain
