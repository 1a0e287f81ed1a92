-- ===== src/Json/Lexer/Stream.antt =====
-- util/json/lexer/JsonLexer.cxx: `nextToken`, and all the tokens of a text.
use openkit_native.Prelude.{
  List, Option, [], false, if◌then◌else◌, length, none, some, suc, true, zero, ℕ, ◌+◌, ◌==◌, ◌||◌,
  ◌∷◌,
}
use openkit_native.Json.Lexer.{Lexed, lexed, lexer_exception, logic_error, out_of_fuel, then_lex}
use openkit_native.Json.Lexer.Characters.{
  consume_whitespace_characters, is_digit_or_minus, parse_literal, quotation_mark,
}
use openkit_native.Json.Lexer.Number.{matches_number_pattern}
use openkit_native.Json.Lexer.Text.{try_parse_string_token}
use openkit_native.Json.Parser.{
  JsonToken, Tokens, at_end, broken, colon, comma, crashed, left_brace, left_square_bracket,
  literal_boolean, literal_null, right_brace, right_square_bracket, token, value_number,
  value_string,
}
use openkit_native.Json.Value.{same_bytes}

pub data JsonLexerState : Type 0 where
  lexer_initial parsing end_of_file lexer_error : JsonLexerState

pub record JsonLexer : Type 0 where
  pub lexer_state : JsonLexerState
  pub unread : List ℕ

abbrev pub true_literal : List ℕ
true_literal = b't' ∷ b'r' ∷ b'u' ∷ b'e' ∷ []

abbrev pub false_literal : List ℕ
false_literal = b'f' ∷ b'a' ∷ b'l' ∷ b's' ∷ b'e' ∷ []

abbrev pub null_literal : List ℕ
null_literal = b'n' ∷ b'u' ∷ b'l' ∷ b'l' ∷ []

-- `tryParseBooleanLiteral`, `tryParseNullLiteral` and `tryParseNumberToken`, for a literal and what is left
unfoldable pub boolean_token : List ℕ → List ℕ → Lexed JsonToken
boolean_token literal rest =
    if same_bytes literal true_literal
    then lexed (literal_boolean true) rest
    else if same_bytes literal false_literal
    then lexed (literal_boolean false) rest
    else lexer_exception

unfoldable pub null_token : List ℕ → List ℕ → Lexed JsonToken
null_token literal rest =
    if same_bytes literal null_literal then lexed literal_null rest else lexer_exception

unfoldable pub number_token : List ℕ → List ℕ → Lexed JsonToken
number_token literal rest =
    if matches_number_pattern literal then lexed (value_number literal) rest else lexer_exception

unfoldable pub of_literal : (List ℕ → List ℕ → Lexed JsonToken) → List ℕ → Lexed JsonToken
unfolding parse_literal
of_literal k input = let (literal, rest) = parse_literal input in k literal rest

-- `doParseNextToken`, for a character and those after it
unfoldable pub do_parse_next_token : ℕ → List ℕ → Lexed JsonToken
unfolding of_literal boolean_token null_token number_token try_parse_string_token
do_parse_next_token c cs =
    if c == b'['
    then lexed left_square_bracket cs
    else if c == b']'
    then lexed right_square_bracket cs
    else if c == b'{'
    then lexed left_brace cs
    else if c == b'}'
    then lexed right_brace cs
    else if c == b':'
    then lexed colon cs
    else if c == b','
    then lexed comma cs
    else if c == b't' || c == b'f'
    then of_literal boolean_token (c ∷ cs)
    else if c == b'n'
    then of_literal null_token (c ∷ cs)
    else if c == quotation_mark
    then then_lex (try_parse_string_token (length cs + 1) [] cs)
        (λ s rest. lexed (value_string s) rest)
    else if is_digit_or_minus c
    then of_literal number_token (c ∷ cs)
    else lexer_exception

pub data NextToken : Type 0 where
  no_token throws_exception throws_logic_error starved : NextToken
  next : JsonToken → NextToken

-- What the `try` of `nextToken` makes of a token.
unfoldable pub after_token : Lexed JsonToken → List ℕ → NextToken × JsonLexer
after_token (lexed t rest) before = (next t, record { lexer_state = parsing; unread = rest })
after_token lexer_exception before =
    (throws_exception, record { lexer_state = lexer_error; unread = before })
after_token logic_error before =
    (throws_logic_error, record { lexer_state = parsing; unread = before })
after_token out_of_fuel before = (starved, record { lexer_state = parsing; unread = before })

unfoldable pub token_after_whitespace : List ℕ → NextToken × JsonLexer
unfolding after_token do_parse_next_token
token_after_whitespace [] = (no_token, record { lexer_state = end_of_file; unread = [] })
token_after_whitespace (c ∷ cs) = after_token (do_parse_next_token c cs) (c ∷ cs)

unfoldable pub next_token : JsonLexer → NextToken × JsonLexer
unfolding token_after_whitespace consume_whitespace_characters
next_token l = elim l.lexer_state [
  | lexer_error ↦ (throws_exception, l)
  | end_of_file ↦ (no_token, l)
  | other ↦ token_after_whitespace (consume_whitespace_characters l.unread)
]

unfoldable pub then_token : JsonToken → Option Tokens → Option Tokens
then_token t none = none
then_token t (some ts) = some (token t ts)

-- The tokens that `nextToken` gives, call after call, while the parser asks for them. Nothing is said of what comes
-- after a `std::logic_error`; `none` is a lack of fuel.
unfoldable pub all_tokens : ℕ → JsonLexer → Option Tokens
unfolding next_token then_token
all_tokens zero l = none
all_tokens (suc fuel) l =
    let (found, l') = next_token l in
    elim found [
      | next t ↦ then_token t (all_tokens fuel l')
      | no_token ↦ some at_end
      | throws_exception ↦ some broken
      | throws_logic_error ↦ some crashed
      | starved ↦ none
    ]

-- The tokens of a text: a new lexer, with a unit of fuel for each byte and one for the end.
unfoldable pub tokens_of_text : List ℕ → Option Tokens
unfolding all_tokens
tokens_of_text text =
    all_tokens (length text + 1) (record { lexer_state = lexer_initial; unread = text })
