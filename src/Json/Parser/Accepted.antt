-- ===== src/Json/Parser/Accepted.antt =====
-- util/json/JsonParser.cxx: what `parse` of a new parser gives.
use mathlib.Core.Path.{subst}
use openkit_native.Prelude.{List, Option, [], ap, none, refl, some, sym, ℕ, ◌∙◌, ◌∷◌, ◌≡◌}
use openkit_native.Json.Parser.{
  JsonToken, ParserException, Stepped, Tokens, at_end, colon, error, from_lexer, goes, internal,
  key_not_set, left_brace, missing_part, new_json_parser, parse_in_object_value_state,
  parse_no_token, parse_token, right_brace, token, value_string, with_top_object,
}
use openkit_native.Json.Parser.Grammar.{
  Explained, IsFailure, accepts, do_parse-Explained, fails_by, follow, lexer_fails, lexer_threw,
  reader_fails, stream, stream_lem, then_parse,
}
use openkit_native.Json.Parser.Loop.{
  Answer, Parsed, after_answer, do_parse, end_of_tokens, parse, parsed, thrown, top_value,
}
use openkit_native.Json.Parser.Places.{
  Place, advance, advance_all, at_object_value, at_start, at_the_end, read_tokens,
}
use openkit_native.Json.Parser.Simulation.{
  Simulates, advance-Simulates, json_value-container_of, parser_at,
}
use openkit_native.Json.Parser.Syntax.{Tree, emit, no_members, value_of}
use openkit_native.Json.Value.{JsonValue}
use openkit_native.Json.Parser.Writing.{AreEntered, advance_all-emit, go-first_member}

module _ (from_number_literal : List ℕ → JsonValue) where
  abbrev outcome : Tokens → Parsed
  outcome ts = do_parse from_number_literal ts new_json_parser

  abbrev result : Tokens → Parsed
  result ts = parse from_number_literal ts new_json_parser

  explained : (ts : Tokens) → Explained from_number_literal at_start ts (outcome ts)
  unfolding parser_at
  explained ts = do_parse-Explained from_number_literal at_start ts

  -- What `parse` adds to `doParse`.
  after-IsEmitted :
      (ts : Tokens) (r : Parsed) (x : JsonValue)
      → Explained from_number_literal at_start ts r
      → (after_answer r.answer r).answer ≡ parsed x
      → (v : Tree) × (ts ≡ stream (emit v)) × (x ≡ value_of from_number_literal v)
  unfolding after_answer read_tokens
  after-IsEmitted ts r x (accepts v l e whole a) h =
      let same : (after_answer r.answer r).answer ≡ r.answer =
        ap (λ z. (after_answer z r).answer) a in
      (v, e ∙ ap stream whole, cc)
  after-IsEmitted ts r x (fails_by e a f) h =
      let same : (after_answer r.answer r).answer ≡ r.answer =
        ap (λ z. (after_answer z r).answer) a in
      cc
  after-IsEmitted ts r x (lexer_fails a) h =
      let other : (after_answer r.answer r).answer ≡ thrown from_lexer =
        ap (λ z. (after_answer z r).answer) a in
      cc
  after-IsEmitted ts r x (reader_fails a) h =
      let same : (after_answer r.answer r).answer ≡ r.answer =
        ap (λ z. (after_answer z r).answer) a in
      cc

  after-IsFailure :
      (ts : Tokens) (r : Parsed) (e : ParserException)
      → Explained from_number_literal at_start ts r
      → (after_answer r.answer r).answer ≡ thrown e
      → IsFailure e (after_answer r.answer r).parser.state
  unfolding after_answer
  after-IsFailure ts r e (accepts v l q whole a) h =
      let same : (after_answer r.answer r).answer ≡ r.answer =
        ap (λ z. (after_answer z r).answer) a in
      cc
  after-IsFailure ts r e (fails_by e' a f) h =
      let same : after_answer r.answer r ≡ r = ap (λ z. after_answer z r) a in
      subst (λ z. IsFailure e z.parser.state) (sym same)
        (subst (λ z. IsFailure z r.parser.state) (cc) f)
  after-IsFailure ts r e (lexer_fails a) h =
      let changed = ap (λ z. after_answer z r) a in
      subst (λ z. IsFailure e z.parser.state) (sym changed)
        (subst (λ z. IsFailure z error) (cc (ap (λ z. z.answer) changed)) lexer_threw)
  after-IsFailure ts r e (reader_fails a) h =
      let same : (after_answer r.answer r).answer ≡ r.answer =
        ap (λ z. (after_answer z r).answer) a in
      cc

  -- Whatever a new parser accepts is the tokens of a tree and nothing after them, and the value is that of the tree.
  pub parse-IsEmitted :
      (ts : Tokens) (x : JsonValue)
      → (result ts).answer ≡ parsed x
      → (v : Tree) × (ts ≡ stream (emit v)) × (x ≡ value_of from_number_literal v)
  unfolding parse
  parse-IsEmitted ts x h = after-IsEmitted ts (outcome ts) x (explained ts) h

  -- An exception of a new parser is one for an unexpected token, an end that comes too early, an exception of the lexer,
  -- an empty key or a null pointer as the value of a member, and no other check of the parser's own fails; the parser is
  -- left in its error state but after a token that may not follow a colon, an empty key or a null pointer.
  pub parse-IsFailure :
      (ts : Tokens) (e : ParserException)
      → (result ts).answer ≡ thrown e
      → IsFailure e (result ts).parser.state
  unfolding parse
  parse-IsFailure ts e h = after-IsFailure ts (outcome ts) e (explained ts) h

  -- The parser follows its places over any tokens that are let through.
  run-advance_all :
      (o : Option Place) (s : Stepped) (l : List JsonToken) (rest : Tokens) (pl : Place)
      → Simulates from_number_literal o s
      → advance_all from_number_literal o l ≡ some pl
      → then_parse from_number_literal (follow l rest) s
        ≡ do_parse from_number_literal rest (parser_at from_number_literal pl)
  unfolding advance_all Simulates then_parse follow do_parse
  run-advance_all none s l rest pl moved h = cc
  run-advance_all (some pl') s [] rest pl moved h =
      let ended : pl' ≡ pl = cc in
      ap (then_parse from_number_literal rest)
        (moved ∙ ap (λ q. goes (parser_at from_number_literal q)) ended)
  run-advance_all (some pl') s (t ∷ l) rest pl moved h =
      ap (then_parse from_number_literal (token t (follow l rest))) moved
      ∙ run-advance_all (advance from_number_literal pl' t) _ l rest pl
          (advance-Simulates from_number_literal pl' t) h

  outcome-advance_all :
      (l : List JsonToken) (rest : Tokens) (pl : Place)
      → advance_all from_number_literal (some at_start) l ≡ some pl
      → outcome (follow l rest)
        ≡ do_parse from_number_literal rest (parser_at from_number_literal pl)
  unfolding Simulates then_parse parser_at
  outcome-advance_all l rest pl h =
      run-advance_all (some at_start) (goes new_json_parser) l rest pl refl h

  result-outcome :
      (ts : Tokens) (a : Answer) → (outcome ts).answer ≡ a → result ts ≡ after_answer a (outcome ts)
  unfolding parse
  result-outcome ts a h = ap (λ z. after_answer z (outcome ts)) h

  -- A new parser gives the value of a tree for its tokens, if every member of an object has a key that is not empty and a
  -- value that is not a null pointer.
  pub parse-emit :
      (v : Tree)
      → AreEntered from_number_literal v
      → (result (stream (emit v))).answer ≡ parsed (value_of from_number_literal v)
  unfolding do_parse parser_at parse_no_token end_of_tokens top_value after_answer
  parse-emit v entered =
      let path =
        ap outcome (stream_lem (emit v))
        ∙ outcome-advance_all (emit v) at_end (at_the_end v)
            (advance_all-emit from_number_literal v entered) in
      let done : (outcome (stream (emit v))).answer ≡ parsed (value_of from_number_literal v) =
        ap (λ r. r.answer) path ∙ ap parsed (json_value-container_of from_number_literal v) in
      ap (λ r. r.answer) (result-outcome (stream (emit v)) _ done) ∙ done

  -- An object whose first member has an empty key is refused with an internal error, whatever follows the member, if the
  -- members of its value can be entered.
  pub parse-empty_key :
      (v : Tree) (rest : Tokens)
      → AreEntered from_number_literal v
      → (result
          (follow (left_brace ∷ value_string [] ∷ colon ∷ emit v) (token right_brace rest))).answer
        ≡ thrown (internal key_not_set)
  unfolding do_parse parser_at parse_token parse_in_object_value_state with_top_object missing_part
      after_answer
  parse-empty_key v rest entered =
      let l = left_brace ∷ value_string [] ∷ colon ∷ emit v in
      let path =
        outcome-advance_all l (token right_brace rest) (at_object_value no_members [] v [])
          (go-first_member from_number_literal [] v entered) in
      let done = ap (λ r. r.answer) path in ap (λ r. r.answer) (result-outcome _ _ done) ∙ done
