-- ===== src/Protocol/Responses/Handling.antt =====
-- protocol/ResponseParser.cxx and `handleResponse` of protocol/HTTPClient.cxx: which answer is made for a response.
use mathlib.Core.Path.{}
use openkit_native.Prelude.{List, Option, [], false, none, slt32, some, true, ℕ, ◌-◌, ◌^◌, ◌≡◌, ◌≢◌}
use openkit_native.Json.Lexer.Stream.{tokens_of_text}
use openkit_native.Json.Number.{from_number_literal}
use openkit_native.Json.Parser.{Tokens}
use openkit_native.Json.Parser.Grammar.{stream}
use openkit_native.Json.Parser.Syntax.{Tree, emit, value_of}
use openkit_native.Json.Parser.Writing.{AreEntered}
use openkit_native.Json.Value.{Fields, JsonValue, object}
use openkit_native.Protocol.Attributes.{ResponseAttributes, undefined_defaults}
use openkit_native.Protocol.JsonResponse.Body.{JsonResponse}
use openkit_native.Protocol.JsonResponse.Body.Results.{IsNoObject}
use openkit_native.Protocol.JsonResponse.Settings.{configured}
use openkit_native.Protocol.KeyValueResponse.{Pairs, PairsRead, pairs_read, read_parts}
use openkit_native.Protocol.KeyValueResponse.Entries.{configured_by_pairs}
use openkit_native.Protocol.Responses.{
  HttpResponse, Reading, failed, get_retry_after_in_milliseconds, has_read,
  is_key_value_pair_response, stuck,
}
use openkit_native.Protocol.StatusResponse.{StatusResponse, http_bad_request}
use openkit_native.Text.{Utf8String}
use openkit_native.Text.Parts.{split}
use openkit_native.Text.Validation.{utf8_string}

abbrev pairs_of : Utf8String → PairsRead
pairs_of s = read_parts (split b'&' s) (pairs_read [])

module _ (read_double : List ℕ → Option ℕ) (truncated : ℕ → ℕ) where
  abbrev json_number : List ℕ → JsonValue
  json_number = from_number_literal read_double

  -- How a text is read: key-value pairs, of which the first with a key counts, or JSON.
  pub data IsReading (s : Utf8String) : Reading → Type 0 where
    from_pairs :
        (pairs : Pairs) (attributes : ResponseAttributes)
        → is_key_value_pair_response s ≡ true
        → pairs_of s ≡ pairs_read pairs
        → configured_by_pairs pairs ≡ some attributes
        → IsReading s (has_read attributes)
    bad_number :
        (pairs : Pairs)
        → is_key_value_pair_response s ≡ true
        → pairs_of s ≡ pairs_read pairs
        → configured_by_pairs pairs ≡ none
        → IsReading s failed
    bad_part :
        is_key_value_pair_response s ≡ true
        → ((pairs : Pairs) → pairs_of s ≢ pairs_read pairs)
        → IsReading s stuck
    from_json :
        (v : Tree) (fields : Fields)
        → is_key_value_pair_response s ≡ false
        → tokens_of_text s.bytes ≡ some (stream (emit v))
        → value_of json_number v ≡ object fields
        → IsReading s (has_read (configured truncated fields))
    other_json :
        (v : Tree)
        → is_key_value_pair_response s ≡ false
        → tokens_of_text s.bytes ≡ some (stream (emit v))
        → IsNoObject (value_of json_number v)
        → IsReading s stuck
    bad_json :
        (ts : Tokens)
        → is_key_value_pair_response s ≡ false
        → tokens_of_text s.bytes ≡ some ts
        → ((v : Tree) → AreEntered json_number v → ts ≢ stream (emit v))
        → IsReading s failed

  -- The answer that is made for a response, written out: an error by its code, the attributes that its
  -- body reads as, or an error of the largest code with the default delay of ten minutes.
  pub data IsHandled (r : HttpResponse) : Option StatusResponse → Type 0 where
    refused_by_code :
        slt32 r.status_code http_bad_request ≡ false
        → IsHandled r (
            some (record {
              response_attributes = undefined_defaults;
              response_code = r.status_code;
              retry_after = get_retry_after_in_milliseconds r.retry_after_header;
            }))
    taken_from_body :
        (attributes : ResponseAttributes)
        → slt32 r.status_code http_bad_request ≡ true
        → IsReading (utf8_string r.response_body) (has_read attributes)
        → IsHandled r (
            some (record {
              response_attributes = attributes;
              response_code = r.status_code;
              retry_after = get_retry_after_in_milliseconds r.retry_after_header;
            }))
    not_readable :
        slt32 r.status_code http_bad_request ≡ true
        → IsReading (utf8_string r.response_body) failed
        → IsHandled r (
            some (record {
              response_attributes = undefined_defaults;
              response_code = 2 ^ 31 - 1;
              retry_after = 600000;
            }))
    not_answered :
        slt32 r.status_code http_bad_request ≡ true
        → IsReading (utf8_string r.response_body) stuck
        → IsHandled r none
