-- ===== src/Protocol/JsonResponse/Body/Results.antt =====
-- protocol/JsonResponseParser.cxx: what `parse` gives for a text.
use mathlib.Core.Path.{subst}
use openkit_native.Prelude.{List, Option, ap, refl, some, sym, ℕ, ◌∙◌, ◌≡◌, ◌≢◌}
use openkit_native.Json.Lexer.Stream.{tokens_of_text}
use openkit_native.Json.Lexer.Total.{tokens_of_text-some}
use openkit_native.Json.Number.{from_number_literal}
use openkit_native.Json.Parser.{Tokens, new_json_parser}
use openkit_native.Json.Parser.Accepted.{parse-IsEmitted, parse-emit}
use openkit_native.Json.Parser.Grammar.{stream}
use openkit_native.Json.Parser.Loop.{Answer, lexer_failed, logic_failure, parse, parsed, thrown}
use openkit_native.Json.Parser.Syntax.{Tree, emit, value_of}
use openkit_native.Json.Parser.Writing.{AreEntered}
use openkit_native.Json.Value.{
  Fields, JsonValue, array, boolean, missing, null, number, object, string,
}
use openkit_native.Json.Writer.{write_json_string}
use openkit_native.Json.Writer.RoundTrip.{parse-write_json_string}
use openkit_native.Json.Writer.Trees.{IsWritable}
use openkit_native.Protocol.JsonResponse.Body.{
  JsonResponse, exception_thrown, null_root, parse_json_response, parsed_response, response_of,
  response_of_answer,
}
use openkit_native.Protocol.JsonResponse.Configured.{json_attributes-configured}
use openkit_native.Protocol.JsonResponse.Settings.{configured}
use openkit_native.Text.{Utf8String}

unfoldable pub IsNoObject : JsonValue → Type 0
IsNoObject v = (fields : Fields) → v ≢ object fields

module _ (read_double : List ℕ → Option ℕ) (truncated : ℕ → ℕ) where
  abbrev pub number_value : List ℕ → JsonValue
  number_value = from_number_literal read_double

  -- The result of a text, by the tree that its tokens write: what the entries of the object configure, a null pointer
  -- followed at another value, or an exception where there is no tree.
  pub data IsOutcome (s : Utf8String) : JsonResponse → Type 0 where
    configures :
        (v : Tree) (fields : Fields)
        → tokens_of_text s.bytes ≡ some (stream (emit v))
        → value_of number_value v ≡ object fields
        → IsOutcome s (parsed_response (configured truncated fields))
    no_object :
        (v : Tree)
        → tokens_of_text s.bytes ≡ some (stream (emit v))
        → IsNoObject (value_of number_value v)
        → IsOutcome s null_root
    no_tree :
        (ts : Tokens)
        → tokens_of_text s.bytes ≡ some ts
        → ((v : Tree) → AreEntered number_value v → ts ≢ stream (emit v))
        → IsOutcome s exception_thrown

  response_of-IsOutcome :
      (s : Utf8String) (v : Tree) (x : JsonValue)
      → tokens_of_text s.bytes ≡ some (stream (emit v))
      → value_of number_value v ≡ x
      → IsOutcome s (response_of truncated x)
  unfolding response_of IsNoObject
  response_of-IsOutcome s v (object fields) t e =
      subst (λ a. IsOutcome s (parsed_response a))
        (sym (json_attributes-configured truncated fields)) (configures v fields t e)
  response_of-IsOutcome s v missing t e = no_object v t (λ fields h. cc)
  response_of-IsOutcome s v null t e = no_object v t (λ fields h. cc)
  response_of-IsOutcome s v (boolean b) t e = no_object v t (λ fields h. cc)
  response_of-IsOutcome s v (number n) t e = no_object v t (λ fields h. cc)
  response_of-IsOutcome s v (string text) t e = no_object v t (λ fields h. cc)
  response_of-IsOutcome s v (array items) t e = no_object v t (λ fields h. cc)

  -- An answer that is no value is one of a stream that no tree writes.
  no_tree-lem :
      (ts : Tokens) (a : Answer)
      → ((x : JsonValue) → a ≢ parsed x)
      → (parse number_value ts new_json_parser).answer ≡ a
      → (v : Tree) → AreEntered number_value v
      → ts ≢ stream (emit v)
  no_tree-lem ts a other e v h same = other (value_of number_value v) (
      sym e
      ∙ ap (λ z. (parse number_value z new_json_parser).answer) same
      ∙ parse-emit number_value v h)

  answer-IsOutcome :
      (s : Utf8String) (ts : Tokens) (a : Answer)
      → tokens_of_text s.bytes ≡ some ts
      → (parse number_value ts new_json_parser).answer ≡ a
      → IsOutcome s (response_of_answer truncated a)
  unfolding response_of_answer
  answer-IsOutcome s ts (parsed x) t e =
      let (v, written, value) = parse-IsEmitted number_value ts x e in
      response_of-IsOutcome s v x (t ∙ ap some written) (sym value)
  answer-IsOutcome s ts (thrown x) t e = no_tree ts t (no_tree-lem ts (thrown x) (λ y h. cc) e)
  answer-IsOutcome s ts lexer_failed t e = no_tree ts t (no_tree-lem ts lexer_failed (λ y h. cc) e)
  answer-IsOutcome s ts logic_failure t e =
      no_tree ts t (no_tree-lem ts logic_failure (λ y h. cc) e)

  -- Every text gives a result: if its tokens write a JSON tree, the attributes that the entries of the tree's object
  -- configure, or a null pointer is followed if the tree is no object; an exception only if they write no tree.
  pub parse_json_response-IsOutcome :
      (s : Utf8String)
      → (r : JsonResponse) × (parse_json_response read_double truncated s ≡ some r) × IsOutcome s r
  unfolding parse_json_response
  parse_json_response-IsOutcome s =
      let (ts, t) = tokens_of_text-some s.bytes in
      let a = (parse number_value ts new_json_parser).answer in
      (
        response_of_answer truncated a,
        rw (t, parse_json_response) refl,
        answer-IsOutcome s ts a t refl,
      )

  -- What a value says, written independently of the parser.
  unfoldable pub expected_response : JsonValue → JsonResponse
  expected_response (object fields) = parsed_response (configured truncated fields)
  expected_response v = null_root

  response_of-expected : (v : JsonValue) → response_of truncated v ≡ expected_response v
  unfolding response_of expected_response
  response_of-expected (object fields) =
      ap parsed_response (json_attributes-configured truncated fields)
  response_of-expected missing = refl
  response_of-expected null = refl
  response_of-expected (boolean b) = refl
  response_of-expected (number n) = refl
  response_of-expected (string text) = refl
  response_of-expected (array items) = refl

  -- The text of an object, as the writer writes it, configures what the object's entries say, each of the 15 attributes
  -- from its entry or by default; at the text of any other value a null pointer is followed. The value holds no null
  -- pointer and no double, its numbers have 64 bits, and the keys of each object are not empty and differ.
  pub parse_json_response-write_json_string :
      (fixed_double : ℕ → Option (List ℕ)) (v : JsonValue) (n : ℕ)
      → IsWritable v
      → parse_json_response read_double truncated
          (record { bytes = write_json_string fixed_double v; string_length = n })
        ≡ some (expected_response v)
  unfolding parse_json_response response_of_answer
  parse_json_response-write_json_string fixed_double v n h =
      let (ts, t, e) = parse-write_json_string read_double fixed_double v h in
      rw (t, parse_json_response)
        (ap some (ap (response_of_answer truncated) e ∙ response_of-expected v))
