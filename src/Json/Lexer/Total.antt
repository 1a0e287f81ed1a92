-- ===== src/Json/Lexer/Total.antt =====
-- util/json/lexer/JsonLexer.cxx: every text has its tokens.
use openkit_native.Prelude.{
  List, Option, [], arith, false, length, none, refl, some, suc, true, zero, ℕ, ◌+◌, ◌<◌, ◌==◌,
  ◌||◌, ◌∷◌, ◌≡◌, ◌≤◌,
}
use openkit_native.Json.Lexer.{Lexed}
use openkit_native.Json.Lexer.Characters.{
  consume_whitespace_characters, ends_literal, is_digit_or_minus, parse_literal, quotation_mark,
}
use openkit_native.Json.Lexer.Fuel.{
  Leaves, Leaves-mono, crashed_there, if-Leaves, left_over, then_lex-Leaves, threw,
  try_parse_string_token-Leaves,
}
use openkit_native.Json.Lexer.Number.{matches_number_pattern}
use openkit_native.Json.Lexer.Stream.{
  JsonLexer, JsonLexerState, NextToken, after_token, all_tokens, boolean_token, do_parse_next_token,
  end_of_file, false_literal, lexer_error, lexer_initial, next, next_token, no_token, null_literal,
  null_token, number_token, of_literal, starved, then_token, throws_exception, throws_logic_error,
  token_after_whitespace, tokens_of_text, true_literal,
}
use openkit_native.Json.Parser.{JsonToken, Tokens, at_end, broken, crashed, token}
use openkit_native.Json.Value.{same_bytes}

parse_literal-le : (cs : List ℕ) → length (parse_literal cs).1 ≤ length cs
unfolding parse_literal
parse_literal-le [] = omega arith
parse_literal-le (c ∷ cs) = ground (arith, parse_literal-le cs)

-- A literal that does not begin with a blank or a bracket takes a byte.
parse_literal-lt :
    (c : ℕ) (cs : List ℕ) → ends_literal c ≡ false → length (parse_literal (c ∷ cs)).1 ≤ length cs
unfolding parse_literal
parse_literal-lt c cs h = rw h (parse_literal-le cs)

of_literal-Leaves :
    (k : List ℕ → List ℕ → Lexed JsonToken) (c : ℕ) (cs : List ℕ)
    → ends_literal c ≡ false
    → ((literal rest : List ℕ) → length rest ≤ length cs → Leaves (length cs) (k literal rest))
    → Leaves (length cs) (of_literal k (c ∷ cs))
unfolding of_literal
of_literal-Leaves k c cs h f =
    f (parse_literal (c ∷ cs)).0 (parse_literal (c ∷ cs)).1 (parse_literal-lt c cs h)

boolean-ends_literal : (c : ℕ) → c == b't' || c == b'f' ≡ true → ends_literal c ≡ false
unfolding ends_literal
boolean-ends_literal c h = ground arith

null-ends_literal : (c : ℕ) → c == b'n' ≡ true → ends_literal c ≡ false
unfolding ends_literal
null-ends_literal c h = ground arith

number-ends_literal : (c : ℕ) → is_digit_or_minus c ≡ true → ends_literal c ≡ false
unfolding ends_literal is_digit_or_minus
number-ends_literal c h = ground arith

do_parse_next_token-Leaves : (c : ℕ) (cs : List ℕ) → Leaves (length cs) (do_parse_next_token c cs)
unfolding do_parse_next_token boolean_token null_token number_token
do_parse_next_token-Leaves c cs =
    if-Leaves (c == b'[') (λ _. left_over (omega arith))
      (λ _.
        if-Leaves (c == b']') (λ _. left_over (omega arith))
          (λ _.
            if-Leaves (c == b'{') (λ _. left_over (omega arith))
              (λ _.
                if-Leaves (c == b'}') (λ _. left_over (omega arith))
                  (λ _.
                    if-Leaves (c == b':') (λ _. left_over (omega arith))
                      (λ _.
                        if-Leaves (c == b',') (λ _. left_over (omega arith))
                          (λ _.
                            if-Leaves (c == b't' || c == b'f')
                              (λ h.
                                of_literal-Leaves boolean_token c cs (boolean-ends_literal c h)
                                  (λ literal rest k.
                                    if-Leaves (same_bytes literal true_literal) (λ _. left_over k)
                                      (λ _.
                                        if-Leaves (same_bytes literal false_literal)
                                          (λ _. left_over k) (λ _. threw))))
                              (λ _.
                                if-Leaves (c == b'n')
                                  (λ h.
                                    of_literal-Leaves null_token c cs (null-ends_literal c h)
                                      (λ literal rest k.
                                        if-Leaves (same_bytes literal null_literal)
                                          (λ _. left_over k) (λ _. threw)))
                                  (λ _.
                                    if-Leaves (c == quotation_mark)
                                      (λ h.
                                        then_lex-Leaves
                                          (try_parse_string_token-Leaves (length cs + 1) [] cs
                                            (omega arith))
                                          (λ s rest k. left_over k))
                                      (λ _.
                                        if-Leaves (is_digit_or_minus c)
                                          (λ h.
                                            of_literal-Leaves number_token c cs
                                              (number-ends_literal c h)
                                              (λ literal rest k.
                                                if-Leaves (matches_number_pattern literal)
                                                  (λ _. left_over k) (λ _. threw)))
                                          (λ _. threw))))))))))

consume_whitespace_characters-le :
    (cs : List ℕ) → length (consume_whitespace_characters cs) ≤ length cs
unfolding consume_whitespace_characters
consume_whitespace_characters-le [] = omega arith
consume_whitespace_characters-le (c ∷ cs) = ground (arith, consume_whitespace_characters-le cs)

-- A token leaves fewer bytes than there were.
IsShorter : ℕ → NextToken × JsonLexer → Type 0
IsShorter n (next t, l) = length l.unread < n
IsShorter n (starved, l) = ⊥
IsShorter n (other, l) = Unit

after_token-IsShorter :
    (n : ℕ) (r : Lexed JsonToken) (before : List ℕ)
    → Leaves n r
    → IsShorter (suc n) (after_token r before)
unfolding IsShorter after_token
after_token-IsShorter n _ before (left_over h) = omega arith
after_token-IsShorter n _ before threw = tt
after_token-IsShorter n _ before crashed_there = tt

token_after_whitespace-IsShorter :
    (cs : List ℕ) (n : ℕ) → length cs ≤ n → IsShorter n (token_after_whitespace cs)
unfolding IsShorter token_after_whitespace
token_after_whitespace-IsShorter [] n h = tt
token_after_whitespace-IsShorter (c ∷ cs) zero h = absurd (omega arith)
token_after_whitespace-IsShorter (c ∷ cs) (suc n) h =
    after_token-IsShorter n (do_parse_next_token c cs) (c ∷ cs)
      (Leaves-mono (omega arith) (do_parse_next_token-Leaves c cs))

next_token-IsShorter : (l : JsonLexer) → IsShorter (length l.unread) (next_token l)
unfolding next_token IsShorter
next_token-IsShorter l = go l.lexer_state
  where
    go :
        (s : JsonLexerState)
        → IsShorter (length l.unread) (elim s [
          | lexer_error ↦ (throws_exception, l)
          | end_of_file ↦ (no_token, l)
          | other ↦ token_after_whitespace (consume_whitespace_characters l.unread)
        ])
    go lexer_error = tt
    go end_of_file = tt
    go _ =
        token_after_whitespace-IsShorter (consume_whitespace_characters l.unread) (length l.unread)
          (consume_whitespace_characters-le l.unread)

then_token-some :
    (t : JsonToken) (o : Option Tokens)
    → ((ts : Tokens) × (o ≡ some ts))
    → (ts : Tokens) × (then_token t o ≡ some ts)
unfolding then_token
then_token-some t o (ts, h) = (token t ts, rw h)

all_tokens-some :
    (fuel : ℕ) (l : JsonLexer)
    → length l.unread < fuel
    → (ts : Tokens) × (all_tokens fuel l ≡ some ts)
unfolding all_tokens IsShorter
all_tokens-some zero l h = absurd (omega arith)
all_tokens-some (suc fuel) l h =
    go (next_token l) (next_token-IsShorter l) (λ l' shorter. all_tokens-some fuel l' shorter)
  where
    go :
        (n : NextToken × JsonLexer)
        → IsShorter (length l.unread) n
        → ((l' : JsonLexer)
            → length l'.unread < fuel
            → (ts : Tokens) × (all_tokens fuel l' ≡ some ts))
        → (ts : Tokens) × ((elim n.0 [
          | next t ↦ then_token t (all_tokens fuel n.1)
          | no_token ↦ some at_end
          | throws_exception ↦ some broken
          | throws_logic_error ↦ some crashed
          | starved ↦ none
        ])
            ≡ some ts)
    go (next t, l') shorter ih = then_token-some t _ (ih l' (omega arith))
    go (no_token, l') shorter ih = (at_end, refl)
    go (throws_exception, l') shorter ih = (broken, refl)
    go (throws_logic_error, l') shorter ih = (crashed, refl)
    go (starved, l') shorter ih = absurd shorter

-- Every text has its tokens: the fuel is enough.
pub tokens_of_text-some : (text : List ℕ) → (ts : Tokens) × (tokens_of_text text ≡ some ts)
unfolding tokens_of_text
tokens_of_text-some text =
    all_tokens-some (length text + 1) (record { lexer_state = lexer_initial; unread = text })
      (omega arith)
