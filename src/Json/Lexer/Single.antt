-- ===== src/Json/Lexer/Single.antt =====
-- util/json/lexer/JsonLexer.cxx: the text of one token is read as that token.
use mathlib.Core.Path.{}
use openkit_native.Prelude.{
  All, Bool, List, [], ap, append_assoc, arith, false, if-false, if-true, length, refl, sym, true,
  ℕ, ◌++◌, ◌+◌, ◌∙◌, ◌∷◌, ◌≡◌,
}
use openkit_native.Json.Lexer.{Lexed, lexed, then_lex}
use openkit_native.Json.Lexer.Characters.{
  consume_whitespace_characters, ends_literal, is_digit_or_minus, is_json_whitespace_character,
  parse_literal, quotation_mark,
}
use openkit_native.Json.Lexer.Number.{is_unsigned, matches_number_pattern}
use openkit_native.Json.Lexer.Number.Inner.{Inner, matches-Inner}
use openkit_native.Json.Lexer.Stream.{
  JsonLexerState, after_token, boolean_token, do_parse_next_token, false_literal, lexer_initial,
  next, next_token, null_literal, null_token, number_token, of_literal, parsing,
  token_after_whitespace, true_literal,
}
use openkit_native.Json.Parser.{
  JsonToken, colon, comma, left_brace, left_square_bracket, literal_boolean, literal_null,
  right_brace, right_square_bracket, value_number, value_string,
}
use openkit_native.Json.Value.{same_bytes}
use openkit_native.Json.Writer.{escape_string, insert_string_value}
use openkit_native.Json.Writer.Strings.{try_parse_string_token-escape_string}

-- The text of a token.
unfoldable pub token_text : JsonToken → List ℕ
token_text literal_null = null_literal
token_text (literal_boolean true) = true_literal
token_text (literal_boolean false) = false_literal
token_text (value_string s) = insert_string_value s
token_text (value_number n) = n
token_text left_brace = b'{' ∷ []
token_text right_brace = b'}' ∷ []
token_text left_square_bracket = b'[' ∷ []
token_text right_square_bracket = b']' ∷ []
token_text comma = b',' ∷ []
token_text colon = b':' ∷ []

-- A literal ends here.
unfoldable pub EndsHere : List ℕ → Type 0
EndsHere [] = Unit
EndsHere (c ∷ cs) = ends_literal c ≡ true

-- What a token needs: a number is one, and after null, true, false and a number something ends them.
unfoldable pub IsSingle : JsonToken → List ℕ → Type 0
unfolding EndsHere
IsSingle literal_null rest = EndsHere rest
IsSingle (literal_boolean b) rest = EndsHere rest
IsSingle (value_number n) rest = (matches_number_pattern n ≡ true) × EndsHere rest
IsSingle t rest = Unit

parse_literal-append :
    (literal rest : List ℕ)
    → All Inner literal
    → EndsHere rest
    → parse_literal (literal ++ rest) ≡ (literal, rest)
unfolding parse_literal EndsHere
parse_literal-append [] [] h e = refl
parse_literal-append [] (c ∷ cs) h e = if-true _ _ e
parse_literal-append (c ∷ cs) rest h e = rw (h.0, parse_literal-append cs rest h.1 e)

of_literal-append :
    (k : List ℕ → List ℕ → Lexed JsonToken) (literal rest : List ℕ)
    → All Inner literal
    → EndsHere rest
    → of_literal k (literal ++ rest) ≡ k literal rest
unfolding of_literal
of_literal-append k literal rest h e = ap (λ r. k r.0 r.1) (parse_literal-append literal rest h e)

-- A number begins with a minus or a digit.
pub number_head :
    (n : List ℕ)
    → matches_number_pattern n ≡ true
    → (c : ℕ) × (cs : List ℕ) × (n ≡ c ∷ cs) × (is_digit_or_minus c ≡ true)
unfolding matches_number_pattern is_unsigned is_digit_or_minus
number_head [] h = cc
number_head (c ∷ cs) h = (c, cs, refl, ground arith)

-- The first byte of a token's text, what follows, and what the lexer makes of them.
IsReadAs : JsonToken → List ℕ → List ℕ → Type 0
IsReadAs t text rest =
    (c : ℕ) × (cs : List ℕ) × (text ≡ c ∷ cs)
    × (is_json_whitespace_character c ≡ false)
    × (do_parse_next_token c cs ≡ lexed t rest)

number_token-matches :
    (n rest : List ℕ)
    → matches_number_pattern n ≡ true
    → number_token n rest ≡ lexed (value_number n) rest
unfolding number_token
number_token-matches n rest h = if-true _ _ h

digit-do_parse_next_token :
    (c : ℕ) (cs : List ℕ)
    → is_digit_or_minus c ≡ true
    → do_parse_next_token c cs ≡ of_literal number_token (c ∷ cs)
unfolding do_parse_next_token is_digit_or_minus
digit-do_parse_next_token c cs h = ground arith

digit-whitespace : (c : ℕ) → is_digit_or_minus c ≡ true → is_json_whitespace_character c ≡ false
unfolding is_digit_or_minus is_json_whitespace_character
digit-whitespace c h = ground arith

string-read :
    (s rest : List ℕ)
    → do_parse_next_token quotation_mark ((escape_string s ++ quotation_mark ∷ []) ++ rest)
      ≡ lexed (value_string s) rest
unfolding do_parse_next_token
string-read s rest =
    let text = escape_string s ++ quotation_mark ∷ rest in
    let whole : (escape_string s ++ quotation_mark ∷ []) ++ rest ≡ text =
      append_assoc (escape_string s) (quotation_mark ∷ []) rest in
    ap (do_parse_next_token quotation_mark) whole
    ∙ ap (λ r. then_lex r (λ x left. lexed (value_string x) left))
        (try_parse_string_token-escape_string s [] rest (length text + 1) (omega arith))

token_text-IsReadAs :
    (t : JsonToken) (rest : List ℕ) → IsSingle t rest → IsReadAs t (token_text t ++ rest) rest
unfolding IsReadAs token_text IsSingle is_json_whitespace_character do_parse_next_token
    boolean_token null_token ends_literal insert_string_value same_bytes
token_text-IsReadAs literal_null rest e = (
  b'n',
  _,
  refl,
  refl,
  of_literal-append null_token null_literal rest (refl, (refl, (refl, (refl, tt)))) e,
)
token_text-IsReadAs (literal_boolean true) rest e = (
  b't',
  _,
  refl,
  refl,
  of_literal-append boolean_token true_literal rest (refl, (refl, (refl, (refl, tt)))) e,
)
token_text-IsReadAs (literal_boolean false) rest e = (
  b'f',
  _,
  refl,
  refl,
  of_literal-append boolean_token false_literal rest (refl, (refl, (refl, (refl, (refl, tt))))) e,
)
token_text-IsReadAs (value_string s) rest h = (quotation_mark, _, refl, refl, string-read s rest)
token_text-IsReadAs (value_number n) rest (matched, e) =
    let (c, cs, head, first) = number_head n matched in
    (
      c,
      cs ++ rest,
      ap (λ l. l ++ rest) head,
      digit-whitespace c first,
      digit-do_parse_next_token c (cs ++ rest) first
          ∙ ap (λ l. of_literal number_token (l ++ rest)) (sym head)
          ∙ of_literal-append number_token n rest (matches-Inner n matched) e
          ∙ number_token-matches n rest matched,
    )
token_text-IsReadAs left_brace rest h = (b'{', rest, refl, refl, refl)
token_text-IsReadAs right_brace rest h = (b'}', rest, refl, refl, refl)
token_text-IsReadAs left_square_bracket rest h = (b'[', rest, refl, refl, refl)
token_text-IsReadAs right_square_bracket rest h = (b']', rest, refl, refl, refl)
token_text-IsReadAs comma rest h = (b',', rest, refl, refl, refl)
token_text-IsReadAs colon rest h = (b':', rest, refl, refl, refl)

token_after_whitespace-token_text :
    (t : JsonToken) (rest : List ℕ)
    → IsSingle t rest
    → token_after_whitespace (consume_whitespace_characters (token_text t ++ rest))
      ≡ (next t, record { lexer_state = parsing; unread = rest })
unfolding token_after_whitespace consume_whitespace_characters after_token IsReadAs
token_after_whitespace-token_text t rest h =
    let (c, cs, text, black, read) = token_text-IsReadAs t rest h in
    ap (λ l. token_after_whitespace (consume_whitespace_characters l)) text
    ∙ ap token_after_whitespace (if-false _ _ black)
    ∙ ap (λ r. after_token r (c ∷ cs)) read

-- a lexer that has not met an error or the end
unfoldable pub is_ready : JsonLexerState → Bool
is_ready lexer_initial = true
is_ready parsing = true
is_ready s = false

-- The next token of a text that begins with the text of a token.
pub next_token-token_text :
    (s : JsonLexerState) (t : JsonToken) (rest : List ℕ)
    → is_ready s ≡ true
    → IsSingle t rest
    → next_token (record { lexer_state = s; unread = token_text t ++ rest })
      ≡ (next t, record { lexer_state = parsing; unread = rest })
unfolding next_token is_ready
next_token-token_text lexer_initial t rest ready h = token_after_whitespace-token_text t rest h
next_token-token_text parsing t rest ready h = token_after_whitespace-token_text t rest h
next_token-token_text _ t rest ready h = cc
