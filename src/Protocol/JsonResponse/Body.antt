-- ===== src/Protocol/JsonResponse/Body.antt =====
-- protocol/JsonResponseParser.cxx: `parse` of the text of a response. The text is read by the lexer and the parser of
-- util/json. What the standard library reads for a double, and its conversion to an `int64_t`, are parameters.
pub mod Results
use openkit_native.Prelude.{List, Option, none, some, ℕ}
use openkit_native.Json.Lexer.Stream.{tokens_of_text}
use openkit_native.Json.Number.{from_number_literal}
use openkit_native.Json.Parser.{new_json_parser}
use openkit_native.Json.Parser.Loop.{Answer, lexer_failed, logic_failure, parse, parsed, thrown}
use openkit_native.Json.Value.{JsonValue, object}
use openkit_native.Protocol.Attributes.{ResponseAttributes}
use openkit_native.Protocol.JsonResponse.{json_attributes}
use openkit_native.Text.{Utf8String}

-- The attributes, an exception, or an access through a null pointer: the root object is null when the text holds another
-- value than an object.
pub data JsonResponse : Type 0 where
  parsed_response : ResponseAttributes → JsonResponse
  exception_thrown null_root : JsonResponse

module _ (truncated : ℕ → ℕ) where
  unfoldable pub response_of : JsonValue → JsonResponse
  response_of (object fields) = parsed_response (json_attributes truncated fields)
  response_of v = null_root

  unfoldable pub response_of_answer : Answer → JsonResponse
  unfolding response_of
  response_of_answer (parsed v) = response_of v
  response_of_answer (thrown e) = exception_thrown
  response_of_answer lexer_failed = exception_thrown
  response_of_answer logic_failure = exception_thrown

module _ (read_double : List ℕ → Option ℕ) (truncated : ℕ → ℕ) where
  -- none where the lexer runs out of fuel
  unfoldable pub parse_json_response : Utf8String → Option JsonResponse
  unfolding response_of_answer
  parse_json_response s = elim (tokens_of_text s.bytes) [
    | none ↦ none
    | some ts ↦ some (
        response_of_answer truncated
          (parse (from_number_literal read_double) ts new_json_parser).answer)
  ]
