-- ===== src/Json/Parser/Loop.antt =====
-- util/json/JsonParser.cxx: `doParse` and `parse`.
use openkit_native.Prelude.{List, [], ℕ, ◌∷◌}
use openkit_native.Json.Parser.{
  JsonParser, ParserException, Stepped, Tokens, at_end, broken, crashed, end, erroneous_state,
  error, from_lexer, goes, internal, json_value, parse_no_token, parse_token, stack_is_empty,
  throws, token,
}
use openkit_native.Json.Value.{JsonValue}

-- What a call gives: a value, an exception of the parser, an exception of the lexer that nobody has caught yet, or the
-- `std::logic_error` that nobody catches.
pub data Answer : Type 0 where
  parsed : JsonValue → Answer
  thrown : ParserException → Answer
  lexer_failed logic_failure : Answer

-- The parser after a call, and the tokens that are left.
pub record Parsed : Type 0 where
  pub answer : Answer
  pub parser : JsonParser
  pub left : Tokens

-- `ensureValueContainerStackIsNotEmpty`, and the value on top
unfoldable pub top_value : JsonParser → Answer
top_value p = elim p.value_stack [
  | [] ↦ thrown (internal stack_is_empty)
  | top ∷ below ↦ parsed (json_value top)
]

unfoldable pub end_of_tokens : Stepped → Parsed
end_of_tokens (goes p) = record { answer = top_value p; parser = p; left = at_end }
end_of_tokens (throws e p) = record { answer = thrown e; parser = p; left = at_end }

-- the `try` of `parse`
unfoldable pub after_answer : Answer → Parsed → Parsed
after_answer (parsed v) r = record r { parser = record r.parser { parsed_value = v } }
after_answer lexer_failed r = record r {
  answer = thrown from_lexer;
  parser = record r.parser { state = error };
}
after_answer (thrown e) r = r
after_answer logic_failure r = r

module _ (from_number_literal : List ℕ → JsonValue) where
  unfoldable pub do_parse : Tokens → JsonParser → Parsed
  unfolding end_of_tokens top_value parse_token parse_no_token
  do_parse at_end p = end_of_tokens (parse_no_token p.state p)
  do_parse broken p = record { answer = lexer_failed; parser = p; left = broken }
  do_parse crashed p = record { answer = logic_failure; parser = p; left = crashed }
  do_parse (token t ts) p = elim (parse_token from_number_literal p.state t p) [
    | goes p' ↦ do_parse ts p'
    | throws e p' ↦ record { answer = thrown e; parser = p'; left = ts }
  ]

  unfoldable pub parse : Tokens → JsonParser → Parsed
  unfolding do_parse after_answer
  parse ts p = elim p.state [
    | end ↦ record { answer = parsed p.parsed_value; parser = p; left = ts }
    | error ↦ record { answer = thrown erroneous_state; parser = p; left = ts }
    | other ↦ let r = do_parse ts p in after_answer r.answer r
  ]
