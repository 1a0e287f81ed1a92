-- ===== src/Protocol/Responses.antt =====
-- protocol/ResponseParser.cxx, `handleResponse` of protocol/HTTPClient.cxx, and the answers that it makes with the
-- functions of protocol/StatusResponse.cxx.
pub mod Handling
use openkit_native.Prelude.{
  Bool, List, Option, [], false, if◌then◌else◌, none, not, sign_extend32, slt32, some, true, ℕ, ◌%◌,
  ◌&&◌, ◌*◌, ◌-◌, ◌==◌, ◌^◌, ◌||◌, ◌∷◌,
}
use openkit_native.Json.Value.{same_bytes}
use openkit_native.Protocol.Attributes.{ResponseAttributes, undefined_defaults}
use openkit_native.Protocol.JsonResponse.{codes}
use openkit_native.Protocol.JsonResponse.Body.{
  JsonResponse, exception_thrown, null_root, parse_json_response, parsed_response,
}
use openkit_native.Protocol.KeyValueResponse.{
  KeyValueResponse, hangs, pair_response, parse_key_value_response, reads_past, stoi,
  stoi_exception,
}
use openkit_native.Protocol.StatusResponse.{StatusResponse, http_bad_request}
use openkit_native.Text.{Utf8String}
use openkit_native.Text.Validation.{utf8_string}

unfoldable pub starts_with : List ℕ → List ℕ → Bool
starts_with [] text = true
starts_with (c ∷ cs) [] = false
starts_with (c ∷ cs) (d ∷ ds) = (c == d) && starts_with cs ds

unfoldable pub is_key_value_pair_response : Utf8String → Bool
unfolding starts_with same_bytes
is_key_value_pair_response s =
    same_bytes s.bytes (codes "type=m") || starts_with (codes "type=m&") s.bytes

-- Attributes, an exception of the standard library's kind, or no result: a null pointer is followed, memory behind a text
-- is read, or a loop does not end.
pub data Reading : Type 0 where
  has_read : ResponseAttributes → Reading
  failed : Reading
  stuck : Reading

unfoldable pub reading_of_pairs : KeyValueResponse → Reading
reading_of_pairs (pair_response attributes) = has_read attributes
reading_of_pairs stoi_exception = failed
reading_of_pairs reads_past = stuck
reading_of_pairs hangs = stuck

unfoldable pub reading_of_json : JsonResponse → Reading
reading_of_json (parsed_response attributes) = has_read attributes
reading_of_json exception_thrown = failed
reading_of_json null_root = stuck

-- the default of ten minutes
abbrev pub default_retry_after : ℕ
default_retry_after = 10 * 60 * 1000

-- `getRetryAfterInMilliseconds`, of the values of the header
unfoldable pub delay_of : Option ℕ → ℕ
delay_of none = default_retry_after
delay_of (some seconds) = sign_extend32 seconds * 1000 % 2 ^ 64

unfoldable pub get_retry_after_in_milliseconds : Option (List (List ℕ)) → ℕ
unfolding delay_of stoi
get_retry_after_in_milliseconds (some (value ∷ [])) = delay_of (stoi value)
get_retry_after_in_milliseconds values = default_retry_after

-- The parts of a HttpResponse that are used: the values of the header retry-after, if it is there.
pub record HttpResponse : Type 0 where
  pub status_code : ℕ
  pub retry_after_header : Option (List (List ℕ))
  pub response_body : List ℕ

unfoldable pub create_success_response :
    ResponseAttributes → ℕ → Option (List (List ℕ)) → StatusResponse
unfolding get_retry_after_in_milliseconds
create_success_response attributes code header = record {
  response_attributes = attributes;
  response_code = code;
  retry_after = get_retry_after_in_milliseconds header;
}

unfoldable pub create_error_response : ℕ → Option (List (List ℕ)) → StatusResponse
unfolding create_success_response
create_error_response code header = create_success_response undefined_defaults code header

-- the largest `int32_t` as the code
unfoldable pub unknown_error_response : StatusResponse
unfolding create_error_response
unknown_error_response = create_error_response (2 ^ 31 - 1) none

-- none where no answer is made
unfoldable pub answer_of : HttpResponse → Reading → Option StatusResponse
unfolding create_success_response unknown_error_response
answer_of r (has_read attributes) =
    some (create_success_response attributes r.status_code r.retry_after_header)
answer_of r failed = some unknown_error_response
answer_of r stuck = none

module _ (read_double : List ℕ → Option ℕ) (truncated : ℕ → ℕ) where
  unfoldable pub parse_response : Utf8String → Option Reading
  unfolding is_key_value_pair_response reading_of_pairs reading_of_json parse_key_value_response
      parse_json_response
  parse_response s =
      if is_key_value_pair_response s
      then some (reading_of_pairs (parse_key_value_response s))
      else elim (parse_json_response read_double truncated s) [
        | none ↦ none
        | some r ↦ some (reading_of_json r)
      ]

  -- none where the lexer runs out of fuel, or the answer that is made
  unfoldable pub handle_response : HttpResponse → Option (Option StatusResponse)
  unfolding answer_of create_error_response parse_response utf8_string slt32
  handle_response r =
      if not (slt32 r.status_code http_bad_request)
      then some (some (create_error_response r.status_code r.retry_after_header))
      else elim (parse_response (utf8_string r.response_body)) [
        | none ↦ none
        | some reading ↦ some (answer_of r reading)
      ]
