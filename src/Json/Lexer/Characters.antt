-- ===== src/Json/Lexer/Characters.antt =====
-- util/json/lexer/JsonLexer.cxx: the classes of characters, white space and literals.
use openkit_native.Prelude.{Bool, List, [], if◌then◌else◌, leb, ℕ, ◌&&◌, ◌==◌, ◌||◌, ◌∷◌}

-- blank, tab, line feed, carriage return
unfoldable pub is_json_whitespace_character : ℕ → Bool
is_json_whitespace_character c = c == 32 || c == 9 || c == 10 || c == 13

-- [ ] { } : ,
unfoldable pub is_json_structural_character : ℕ → Bool
is_json_structural_character c = c == 91 || c == 93 || c == 123 || c == 125 || c == 58 || c == 44

unfoldable pub is_digit_or_minus : ℕ → Bool
is_digit_or_minus c = c == 45 || (leb 48 c && leb c 57)

abbrev pub quotation_mark : ℕ
quotation_mark = 34

abbrev pub reverse_solidus : ℕ
reverse_solidus = 92

unfoldable pub is_character_that_needs_escaping : ℕ → Bool
is_character_that_needs_escaping c = c == quotation_mark || c == reverse_solidus || leb c 31

unfoldable pub is_hex_character : ℕ → Bool
is_hex_character c = (leb 48 c && leb c 57) || (leb 97 c && leb c 102) || (leb 65 c && leb c 70)

-- `consumeWhitespaceCharacters`: what is left; nothing is the end of the file
unfoldable pub consume_whitespace_characters : List ℕ → List ℕ
consume_whitespace_characters [] = []
consume_whitespace_characters (c ∷ cs) =
    if is_json_whitespace_character c then consume_whitespace_characters cs else c ∷ cs

unfoldable pub ends_literal : ℕ → Bool
unfolding is_json_whitespace_character is_json_structural_character
ends_literal c = is_json_whitespace_character c || is_json_structural_character c

-- `parseLiteral`: the literal, and what is left
unfoldable pub parse_literal : List ℕ → List ℕ × List ℕ
unfolding ends_literal
parse_literal [] = ([], [])
parse_literal (c ∷ cs) =
    let (literal, rest) = parse_literal cs in
    if ends_literal c then ([], c ∷ cs) else (c ∷ literal, rest)
