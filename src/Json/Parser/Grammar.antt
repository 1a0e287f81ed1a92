-- ===== src/Json/Parser/Grammar.antt =====
-- util/json/JsonParser.cxx: which texts the parser accepts, and what it gives for them.
use mathlib.Core.Path.{subst}
use openkit_native.Prelude.{
  List, Option, [], ap, append-nil, append_assoc, none, refl, some, sym, ℕ, ◌++◌, ◌∙◌, ◌∷◌, ◌≡◌,
}
use openkit_native.Json.Parser.{
  JsonParserState, JsonToken, ParserException, Stepped, Tokens, at_end, broken, crashed, error,
  fails, from_lexer, goes, no_object_decoded, parse_no_token, throws, token, unterminated_array,
  unterminated_object,
}
use openkit_native.Json.Parser.Loop.{
  Parsed, do_parse, end_of_tokens, lexer_failed, logic_failure, parsed, thrown, top_value,
}
use openkit_native.Json.Parser.Places.{
  Place, advance, at_array_delimiter, at_array_start, at_array_value, at_object_colon,
  at_object_delimiter, at_object_key, at_object_start, at_object_value, at_start, at_the_end,
  read_tokens,
}
use openkit_native.Json.Parser.Reading.{HasRead, advance-HasRead}
use openkit_native.Json.Parser.Simulation.{
  IsRefusal, Simulates, advance-Simulates, json_value-container_of, parser_at,
}
use openkit_native.Json.Parser.Syntax.{Tree, emit, value_of}
use openkit_native.Json.Value.{JsonValue}
use openkit_native.Objects.SessionProxy.Splitting.{}

-- Tokens that the lexer gives before it meets the end of its input.
unfoldable pub stream : List JsonToken → Tokens
stream [] = at_end
stream (t ∷ ts) = token t (stream ts)

-- Tokens, and what comes after them.
unfoldable pub follow : List JsonToken → Tokens → Tokens
follow [] rest = rest
follow (t ∷ ts) rest = token t (follow ts rest)

pub stream_lem : (ts : List JsonToken) → stream ts ≡ follow ts at_end
unfolding stream follow
stream_lem [] = refl
stream_lem (t ∷ ts) = ap (token t) (stream_lem ts)

-- The exceptions of `parse`, and the state in which each leaves the parser.
pub data IsFailure : ParserException → JsonParserState → Type 0 where
  refusal : {e : ParserException} {s : JsonParserState} → IsRefusal e s → IsFailure e s
  nothing_decoded : IsFailure no_object_decoded error
  array_not_closed : IsFailure unterminated_array error
  object_not_closed : IsFailure unterminated_object error
  lexer_threw : IsFailure from_lexer error

module _ (from_number_literal : List ℕ → JsonValue) where
  -- What `doParse` makes of the tokens that follow a place.
  pub data Explained (pl : Place) (ts : Tokens) (r : Parsed) : Type 0 where
    accepts :
        (v : Tree) (l : List JsonToken)
        → ts ≡ stream l
        → read_tokens pl ++ l ≡ emit v
        → r.answer ≡ parsed (value_of from_number_literal v)
        → Explained pl ts r
    fails_by :
        (e : ParserException) → r.answer ≡ thrown e → IsFailure e r.parser.state → Explained pl ts r
    lexer_fails : r.answer ≡ lexer_failed → Explained pl ts r
    reader_fails : r.answer ≡ logic_failure → Explained pl ts r

  later :
      (pl pl' : Place) (t : JsonToken) (ts : Tokens) (r : Parsed)
      → read_tokens pl' ≡ read_tokens pl ++ t ∷ []
      → Explained pl' ts r
      → Explained pl (token t ts) r
  unfolding stream
  later pl pl' t ts r one (accepts v l e whole a) =
      accepts v (t ∷ l) (ap (token t) e)
        (sym (append_assoc (read_tokens pl) (t ∷ []) l) ∙ ap (λ x. x ++ l) (sym one) ∙ whole) a
  later pl pl' t ts r one (fails_by e a h) = fails_by e a h
  later pl pl' t ts r one (lexer_fails a) = lexer_fails a
  later pl pl' t ts r one (reader_fails a) = reader_fails a

  unfoldable pub then_parse : Tokens → Stepped → Parsed
  then_parse ts s = elim s [
    | goes p' ↦ do_parse from_number_literal ts p'
    | throws e p' ↦ record { answer = thrown e; parser = p'; left = ts }
  ]

  step-Explained :
      (pl : Place) (t : JsonToken) (ts : Tokens) (o : Option Place) (s : Stepped)
      → HasRead (read_tokens pl ++ t ∷ []) o
      → Simulates from_number_literal o s
      → ((pl' : Place)
          → Explained pl' ts (do_parse from_number_literal ts (parser_at from_number_literal pl')))
      → Explained pl (token t ts) (then_parse ts s)
  unfolding then_parse HasRead Simulates
  step-Explained pl t ts (some pl') s one moved ih =
      subst (λ x. Explained pl (token t ts) (then_parse ts x)) (sym moved)
        (later pl pl' t ts _ one (ih pl'))
  step-Explained pl t ts none s one (e, p, thrown_by, h) ih =
      subst (λ x. Explained pl (token t ts) (then_parse ts x)) (sym thrown_by)
        (fails_by e refl (refusal h))

  do_parse-end :
      (pl : Place)
      → Explained pl at_end (do_parse from_number_literal at_end (parser_at from_number_literal pl))
  unfolding do_parse end_of_tokens parse_no_token parser_at fails read_tokens stream top_value
  do_parse-end at_start = fails_by no_object_decoded refl nothing_decoded
  do_parse-end (at_array_start fs) = fails_by unterminated_array refl array_not_closed
  do_parse-end (at_array_value ts v fs) = fails_by unterminated_array refl array_not_closed
  do_parse-end (at_array_delimiter ts v fs) = fails_by unterminated_array refl array_not_closed
  do_parse-end (at_object_start fs) = fails_by unterminated_object refl object_not_closed
  do_parse-end (at_object_key ms k fs) = fails_by unterminated_object refl object_not_closed
  do_parse-end (at_object_colon ms k fs) = fails_by unterminated_object refl object_not_closed
  do_parse-end (at_object_value ms k v fs) = fails_by unterminated_object refl object_not_closed
  do_parse-end (at_object_delimiter ms k v fs) = fails_by unterminated_object refl object_not_closed
  do_parse-end (at_the_end v) =
      accepts v [] refl (append-nil (emit v))
        (ap parsed (json_value-container_of from_number_literal v))

  pub do_parse-Explained :
      (pl : Place) (ts : Tokens)
      → Explained pl ts (do_parse from_number_literal ts (parser_at from_number_literal pl))
  unfolding do_parse then_parse
  do_parse-Explained pl at_end = do_parse-end pl
  do_parse-Explained pl broken = lexer_fails refl
  do_parse-Explained pl crashed = reader_fails refl
  do_parse-Explained pl (token t ts) =
      step-Explained pl t ts (advance from_number_literal pl t) _
        (advance-HasRead from_number_literal pl t) (advance-Simulates from_number_literal pl t)
        (λ pl'. do_parse-Explained pl' ts)
