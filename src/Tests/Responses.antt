-- ===== src/Tests/Responses.antt =====
-- Texts and responses at concrete inputs.
use openkit_native.Prelude.{
  ◌<◌, ◌^◌, All, [], arith, false, length, ltb, none, refl, some, true, ℕ, ◌&&◌, ◌==◌, ◌∷◌, ◌≡◌,
  ◌≢◌,
}
use openkit_native.Tests.Json.{no_double}
use openkit_native.Json.Value.{
  JsonValue, field, find_field, long, no_fields, number, object, same_bytes,
}
use openkit_native.Json.Writer.{write_json_string}
use openkit_native.Json.Writer.Trees.{IsLong, IsWritable}
use openkit_native.Protocol.Attributes.{}
use openkit_native.Protocol.JsonResponse.{codes}
use openkit_native.Protocol.JsonResponse.Body.{parse_json_response}
use openkit_native.Protocol.JsonResponse.Body.Results.{
  expected_response, parse_json_response-write_json_string,
}
use openkit_native.Text.Validation.{utf8_string}
use openkit_native.Text.Validation.Characters.{
  character_bytes, IsCharacter, Utf8Character, text_bytes, two, utf8_string-text_bytes,
}
use openkit_native.Protocol.Responses.{HttpResponse}
use openkit_native.Protocol.StatusResponse.{StatusResponse}
use openkit_native.Protocol.KeyValueResponse.{Pairs, parse_key_value_response}
use openkit_native.Protocol.KeyValueResponse.Written.{
  IsPair, IsPlainWord, pair_text, pairs_text, parse_key_value_response-pairs_text,
  response_of_attributes,
}
use openkit_native.Protocol.KeyValueResponse.Entries.{configured_by_pairs}
use openkit_native.Text.Parts.Plain.{IsPlain}
use openkit_native.Configuration.Privacy.{opt_in_crashes, user_behavior}
use openkit_native.Configuration.Server.{default_server_configuration}
use openkit_native.Protocol.BeaconEvents.{BeaconView, literal_text}
use openkit_native.Protocol.BeaconEvents.Reports.{report-expected}
use openkit_native.Protocol.BeaconEvents.Expected.{expected_report}
use openkit_native.Protocol.BeaconEvents.Operations.{report, string_value}

-- "ä"
abbrev umlaut : Utf8Character
umlaut = two 0xC3 0xA4

umlaut-IsCharacter : IsCharacter umlaut
unfolding IsCharacter
umlaut-IsCharacter = (refl, (λ e. absurd (omega (arith, e))), refl)

utf8_string-text_bytes_example :
    (utf8_string (text_bytes (umlaut ∷ umlaut ∷ [])) ≡ record {
      bytes = text_bytes (umlaut ∷ umlaut ∷ []);
      string_length = length (umlaut ∷ umlaut ∷ []);
    })
    × (length (umlaut ∷ umlaut ∷ []) < 2 ^ 31)
utf8_string-text_bytes_example =
    utf8_string-text_bytes (umlaut ∷ umlaut ∷ []) (umlaut-IsCharacter, (umlaut-IsCharacter, tt))
      (unfold text_bytes character_bytes in omega arith)

-- There is no double to convert.
abbrev no_conversion : ℕ → ℕ
no_conversion bits = 0

-- {"timestamp": 7, "appConfig": {"capture": 1}}
abbrev small_response : JsonValue
small_response = object (
    field (codes "timestamp") (number (long 7)) (
      field (codes "appConfig") (object (field (codes "capture") (number (long 1)) no_fields))
        no_fields))

small_response-IsWritable : IsWritable small_response
unfolding IsWritable IsLong find_field same_bytes
small_response-IsWritable =
    (refl, omega arith, refl, (refl, (refl, omega arith, refl, tt), refl, tt))

parse_json_response-write_json_string_example :
    parse_json_response no_double no_conversion
      (record { bytes = write_json_string (λ bits. none) small_response; string_length = 44 })
    ≡ some (expected_response no_double no_conversion small_response)
parse_json_response-write_json_string_example =
    parse_json_response-write_json_string no_double no_conversion (λ bits. none) small_response 44
      small_response-IsWritable

-- The pairs type=m and bl=5
abbrev pair_response_200 : HttpResponse
pair_response_200 = record {
  status_code = 200;
  retry_after_header = none;
  response_body = codes "type=m&bl=5";
}

-- si=6 and cp=1, and another si that does not count
abbrev small_pairs : Pairs
small_pairs = (codes "si", codes "6") ∷ (codes "cp", codes "1") ∷ (codes "si", codes "x") ∷ []

apart_by : (c d : ℕ) → (c == d) ≡ false → c ≢ d
apart_by c d h e = ground arith

short-IsPlainWord : (a : ℕ) → IsPlain a → (a == b'&') ≡ false → IsPlainWord b'&' (a ∷ [])
short-IsPlainWord a h k = (refl, (h, tt), (apart_by a b'&' k, tt))

word-IsPlainWord :
    (a b : ℕ)
    → IsPlain a
    → IsPlain b
    → (a == b'&') ≡ false
    → (b == b'&') ≡ false
    → IsPlainWord b'&' (a ∷ b ∷ [])
word-IsPlainWord a b h h' k k' =
    (refl, (h, (h', tt)), (apart_by a b'&' k, (apart_by b b'&' k', tt)))

letter : (c : ℕ) → (ltb 0 c && ltb c 128) ≡ true → IsPlain c
letter c h = (ground arith, ground arith)

small_pairs-IsPair : All IsPair small_pairs
small_pairs-IsPair = (
  (
    word-IsPlainWord b's' b'i' (letter b's' refl) (letter b'i' refl) refl refl,
    (apart_by b's' b'=' refl, (apart_by b'i' b'=' refl, tt)),
    short-IsPlainWord b'6' (letter b'6' refl) refl,
  ),
  (
    (
      word-IsPlainWord b'c' b'p' (letter b'c' refl) (letter b'p' refl) refl refl,
      (apart_by b'c' b'=' refl, (apart_by b'p' b'=' refl, tt)),
      short-IsPlainWord b'1' (letter b'1' refl) refl,
    ),
    (
      (
        word-IsPlainWord b's' b'i' (letter b's' refl) (letter b'i' refl) refl refl,
        (apart_by b's' b'=' refl, (apart_by b'i' b'=' refl, tt)),
        short-IsPlainWord b'x' (letter b'x' refl) refl,
      ),
      tt,
    ),
  ),
)

parse_key_value_response-pairs_text_example :
    parse_key_value_response (record { bytes = pairs_text small_pairs; string_length = 14 })
    ≡ response_of_attributes (configured_by_pairs small_pairs)
unfolding pairs_text pair_text
parse_key_value_response-pairs_text_example =
    parse_key_value_response-pairs_text small_pairs 14 small_pairs-IsPair (omega arith)

-- A session whose user allows everything, on a server that takes everything.
abbrev open_view : BeaconView
open_view = record {
  thread_id = 7;
  session_start_time = 1000;
  now = 1500;
  sequence_number = 3;
  traffic_control_value = 0;
  privacy = record {
    data_collection_level = user_behavior;
    crash_reporting_level = opt_in_crashes;
  };
  server = default_server_configuration;
}

report-expected_example :
    report (string_value 1 (literal_text "a_b") (literal_text "&")) open_view
    ≡ expected_report (string_value 1 (literal_text "a_b") (literal_text "&")) open_view
report-expected_example =
    report-expected (string_value 1 (literal_text "a_b") (literal_text "&")) open_view
