-- ===== src/Json/Lexer/Several.antt =====
-- util/json/lexer/JsonLexer.cxx: the texts of tokens, one after the other, are read as those tokens.
use openkit_native.Prelude.{
  List, [], ap, arith, false, length, length-append, none, refl, some, suc, true, zero, ℕ, ◌++◌,
  ◌+◌, ◌<◌, ◌∙◌, ◌∷◌, ◌≡◌, ◌≤◌,
}
use openkit_native.Json.Lexer.Characters.{consume_whitespace_characters, ends_literal}
use openkit_native.Json.Lexer.Number.{matches_number_pattern}
use openkit_native.Json.Lexer.Single.{
  EndsHere, IsSingle, is_ready, next_token-token_text, number_head, token_text,
}
use openkit_native.Json.Lexer.Stream.{
  JsonLexer, JsonLexerState, all_tokens, lexer_initial, next, next_token, no_token, parsing,
  starved, then_token, throws_exception, throws_logic_error, token_after_whitespace, tokens_of_text,
}
use openkit_native.Json.Parser.{
  JsonToken, at_end, broken, colon, comma, crashed, left_brace, left_square_bracket,
  literal_boolean, literal_null, right_brace, right_square_bracket, value_number,
}
use openkit_native.Json.Parser.Grammar.{stream}
use openkit_native.Json.Writer.{insert_string_value}

unfoldable pub tokens_text : List JsonToken → List ℕ
unfolding token_text
tokens_text [] = []
tokens_text (t ∷ ts) = token_text t ++ tokens_text ts

-- After null, true, false and a number comes a structural character, or nothing.
unfoldable pub Separates : List JsonToken → Type 0
Separates [] = Unit
Separates (left_brace ∷ ts) = Unit
Separates (right_brace ∷ ts) = Unit
Separates (left_square_bracket ∷ ts) = Unit
Separates (right_square_bracket ∷ ts) = Unit
Separates (comma ∷ ts) = Unit
Separates (colon ∷ ts) = Unit
Separates (t ∷ ts) = ⊥

unfoldable pub AreSingle : List JsonToken → Type 0
unfolding Separates
AreSingle [] = Unit
AreSingle (literal_null ∷ ts) = Separates ts × AreSingle ts
AreSingle (literal_boolean b ∷ ts) = Separates ts × AreSingle ts
AreSingle (value_number n ∷ ts) = (matches_number_pattern n ≡ true) × Separates ts × AreSingle ts
AreSingle (t ∷ ts) = AreSingle ts

Separates-EndsHere : (ts : List JsonToken) → Separates ts → EndsHere (tokens_text ts)
unfolding Separates EndsHere tokens_text ends_literal
Separates-EndsHere [] h = tt
Separates-EndsHere (left_brace ∷ ts) h = refl
Separates-EndsHere (right_brace ∷ ts) h = refl
Separates-EndsHere (left_square_bracket ∷ ts) h = refl
Separates-EndsHere (right_square_bracket ∷ ts) h = refl
Separates-EndsHere (comma ∷ ts) h = refl
Separates-EndsHere (colon ∷ ts) h = refl
Separates-EndsHere (_ ∷ ts) h = absurd h

AreSingle-head :
    (t : JsonToken) (ts : List JsonToken) → AreSingle (t ∷ ts) → IsSingle t (tokens_text ts)
unfolding AreSingle IsSingle
AreSingle-head literal_null ts h = Separates-EndsHere ts h.0
AreSingle-head (literal_boolean b) ts h = Separates-EndsHere ts h.0
AreSingle-head (value_number n) ts h = (h.0, Separates-EndsHere ts h.1)
AreSingle-head _ ts h = tt

AreSingle-tail : (t : JsonToken) (ts : List JsonToken) → AreSingle (t ∷ ts) → AreSingle ts
unfolding AreSingle
AreSingle-tail literal_null ts h = h.1
AreSingle-tail (literal_boolean b) ts h = h.1
AreSingle-tail (value_number n) ts h = h.2
AreSingle-tail _ ts h = h

token_text-length : (t : JsonToken) (rest : List ℕ) → IsSingle t rest → 0 < length (token_text t)
unfolding token_text IsSingle insert_string_value
token_text-length (value_number n) rest (matched, e) =
    let (c, cs, head, first) = number_head n matched in rw head (omega arith)
token_text-length (literal_boolean true) rest h = omega arith
token_text-length (literal_boolean false) rest h = omega arith
token_text-length _ rest h = omega arith

length-tokens_text : (ts : List JsonToken) → AreSingle ts → length ts ≤ length (tokens_text ts)
unfolding tokens_text
length-tokens_text [] h = omega arith
length-tokens_text (t ∷ ts) h = omega (
  arith,
  length-append (token_text t) (tokens_text ts),
  token_text-length t (tokens_text ts) (AreSingle-head t ts h),
  length-tokens_text ts (AreSingle-tail t ts h),
)

all_tokens-next :
    (fuel : ℕ) (l l' : JsonLexer) (t : JsonToken)
    → next_token l ≡ (next t, l')
    → all_tokens (suc fuel) l ≡ then_token t (all_tokens fuel l')
unfolding all_tokens
all_tokens-next fuel l l' t h =
    ap
      (λ n. elim n.0 [
        | next u ↦ then_token u (all_tokens fuel n.1)
        | no_token ↦ some at_end
        | throws_exception ↦ some broken
        | throws_logic_error ↦ some crashed
        | starved ↦ none
      ])
      h

all_tokens-nothing :
    (fuel : ℕ) (s : JsonLexerState)
    → is_ready s ≡ true
    → all_tokens (suc fuel) (record { lexer_state = s; unread = [] }) ≡ some at_end
unfolding all_tokens next_token token_after_whitespace consume_whitespace_characters is_ready
all_tokens-nothing fuel lexer_initial h = refl
all_tokens-nothing fuel parsing h = refl
all_tokens-nothing fuel _ h = cc

all_tokens-tokens_text :
    (fuel : ℕ) (s : JsonLexerState) (ts : List JsonToken)
    → is_ready s ≡ true
    → length ts < fuel
    → AreSingle ts
    → all_tokens fuel (record { lexer_state = s; unread = tokens_text ts }) ≡ some (stream ts)
unfolding tokens_text stream then_token is_ready
all_tokens-tokens_text zero s ts ready enough h = absurd (omega arith)
all_tokens-tokens_text (suc fuel) s [] ready enough h = all_tokens-nothing fuel s ready
all_tokens-tokens_text (suc fuel) s (t ∷ ts) ready enough h =
    all_tokens-next fuel _ _ t
      (next_token-token_text s t (tokens_text ts) ready (AreSingle-head t ts h))
    ∙ ap (then_token t)
        (all_tokens-tokens_text fuel parsing ts refl (omega arith) (AreSingle-tail t ts h))

-- The texts of tokens that are apart from each other are read as these tokens.
pub tokens_of_text-tokens_text :
    (ts : List JsonToken) → AreSingle ts → tokens_of_text (tokens_text ts) ≡ some (stream ts)
unfolding tokens_of_text is_ready
tokens_of_text-tokens_text ts h =
    all_tokens-tokens_text (length (tokens_text ts) + 1) lexer_initial ts refl
      (omega (arith, length-tokens_text ts h)) h
