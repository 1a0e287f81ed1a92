-- ===== src/Protocol/JsonResponse.antt =====
-- protocol/JsonResponseParser.cxx: the attributes that a JSON response sets. A double is converted to an `int64_t` by
-- the parameter `truncated`. The product of a number and a unit that does not fit into an `int32_t` wraps around here;
-- it is undefined in C++.
use Prim.Native.Char.{code}
use Prim.Native.String.{String}
use openkit_native.Prelude.{List, Option, [], none, not, some, ℕ, ◌%◌, ◌*◌, ◌==◌, ◌^◌, ◌∷◌}
use openkit_native.Json.Value.{
  Fields, JsonNumber, JsonValue, double, find_field, long, number, object, string,
}
use openkit_native.Protocol.Attributes.{
  ResponseAttributes, json_response_defaults, multiplicity, status, timestamp, with_application_id,
  with_capture, with_capture_crashes, with_capture_errors, with_max_beacon_size_in_bytes,
  with_max_events_per_session, with_max_session_duration_in_milliseconds, with_multiplicity,
  with_send_interval_in_milliseconds, with_server_id, with_session_timeout_in_milliseconds,
  with_status, with_timestamp_in_milliseconds, with_traffic_control_percentage,
  with_visit_store_version,
}
use openkit_native.Text.Validation.{utf8_string}
pub mod Settings
pub mod Entries
pub mod Sections
pub mod Configured
pub mod Body

abbrev pub codes : String → List ℕ
codes String.[] = []
codes (String.◌∷◌ c s) = code c ∷ codes s

-- `getJsonObjectFrom`, `getJsonStringFrom` and `getJsonNumberFrom`: nothing where another type is found
unfoldable pub as_object : Option JsonValue → Option Fields
as_object (some (object fields)) = some fields
as_object o = none

unfoldable pub as_string : Option JsonValue → Option (List ℕ)
as_string (some (string s)) = some s
as_string o = none

unfoldable pub as_number : Option JsonValue → Option JsonNumber
as_number (some (number n)) = some n
as_number o = none

unfoldable pub get_json_object_from : Fields → List ℕ → Option Fields
unfolding as_object find_field
get_json_object_from fields key = as_object (find_field key fields)

unfoldable pub get_json_string_from : Fields → List ℕ → Option (List ℕ)
unfolding as_string find_field
get_json_string_from fields key = as_string (find_field key fields)

unfoldable pub get_json_number_from : Fields → List ℕ → Option JsonNumber
unfolding as_number find_field
get_json_number_from fields key = as_number (find_field key fields)

-- `if (value == nullptr) { return; }`, and a call of the builder
unfoldable pub if_present {ℓ} :
    {A : Type ℓ}
    → (A → ResponseAttributes → ResponseAttributes)
    → Option A
    → ResponseAttributes
    → ResponseAttributes
if_present f none b = b
if_present f (some x) b = f x b

-- the bit pattern of an `int32_t` product
unfoldable pub scaled32 : ℕ → ℕ → ℕ
scaled32 unit x = x * unit % 2 ^ 32

module _ (truncated : ℕ → ℕ) where
  unfoldable pub get_long_value : JsonNumber → ℕ
  get_long_value (long n) = n
  get_long_value (double bits) = truncated bits

  unfoldable pub get_int32_value : JsonNumber → ℕ
  unfolding get_long_value
  get_int32_value n = get_long_value n % 2 ^ 32

  unfoldable pub apply_beacon_size_in_kb : Fields → ResponseAttributes → ResponseAttributes
  unfolding if_present
  apply_beacon_size_in_kb fields =
      if_present (λ n. with_max_beacon_size_in_bytes (scaled32 1024 (get_int32_value n)))
        (get_json_number_from fields (codes "maxBeaconSizeKb"))

  unfoldable pub apply_max_session_duration_in_min :
      Fields → ResponseAttributes → ResponseAttributes
  unfolding if_present
  apply_max_session_duration_in_min fields =
      if_present
        (λ n.
          with_max_session_duration_in_milliseconds
            (scaled32 1000 (scaled32 60 (get_int32_value n))))
        (get_json_number_from fields (codes "maxSessionDurationMins"))

  unfoldable pub apply_max_events_per_session : Fields → ResponseAttributes → ResponseAttributes
  unfolding if_present
  apply_max_events_per_session fields =
      if_present (λ n. with_max_events_per_session (get_int32_value n))
        (get_json_number_from fields (codes "maxEventsPerSession"))

  unfoldable pub apply_session_timeout_in_sec : Fields → ResponseAttributes → ResponseAttributes
  unfolding if_present
  apply_session_timeout_in_sec fields =
      if_present (λ n. with_session_timeout_in_milliseconds (scaled32 1000 (get_int32_value n)))
        (get_json_number_from fields (codes "sessionTimeoutSec"))

  unfoldable pub apply_send_interval_in_sec : Fields → ResponseAttributes → ResponseAttributes
  unfolding if_present
  apply_send_interval_in_sec fields =
      if_present (λ n. with_send_interval_in_milliseconds (scaled32 1000 (get_int32_value n)))
        (get_json_number_from fields (codes "sendIntervalSec"))

  unfoldable pub apply_visit_store_version_from : Fields → ResponseAttributes → ResponseAttributes
  unfolding if_present
  apply_visit_store_version_from fields =
      if_present (λ n. with_visit_store_version (get_int32_value n))
        (get_json_number_from fields (codes "visitStoreVersion"))

  unfoldable pub apply_agent_configuration : Option Fields → ResponseAttributes → ResponseAttributes
  apply_agent_configuration none b = b
  apply_agent_configuration (some fields) b = apply_visit_store_version_from fields (
      apply_send_interval_in_sec fields (
        apply_session_timeout_in_sec fields (
          apply_max_events_per_session fields
            (apply_max_session_duration_in_min fields (apply_beacon_size_in_kb fields b)))))

  unfoldable pub apply_capture_from : Fields → ResponseAttributes → ResponseAttributes
  unfolding if_present
  apply_capture_from fields =
      if_present (λ n. with_capture (get_int32_value n == 1))
        (get_json_number_from fields (codes "capture"))

  unfoldable pub apply_report_crashes : Fields → ResponseAttributes → ResponseAttributes
  unfolding if_present
  apply_report_crashes fields =
      if_present (λ n. with_capture_crashes (not (get_int32_value n == 0)))
        (get_json_number_from fields (codes "reportCrashes"))

  unfoldable pub apply_report_errors : Fields → ResponseAttributes → ResponseAttributes
  unfolding if_present
  apply_report_errors fields =
      if_present (λ n. with_capture_errors (not (get_int32_value n == 0)))
        (get_json_number_from fields (codes "reportErrors"))

  unfoldable pub apply_traffic_control : Fields → ResponseAttributes → ResponseAttributes
  unfolding if_present
  apply_traffic_control fields =
      if_present (λ n. with_traffic_control_percentage (get_int32_value n))
        (get_json_number_from fields (codes "trafficControlPercentage"))

  unfoldable pub apply_application_id_from : Fields → ResponseAttributes → ResponseAttributes
  unfolding if_present
  apply_application_id_from fields =
      if_present (λ s. with_application_id (utf8_string s))
        (get_json_string_from fields (codes "applicationId"))

  unfoldable pub apply_application_configuration :
      Option Fields → ResponseAttributes → ResponseAttributes
  apply_application_configuration none b = b
  apply_application_configuration (some fields) b = apply_application_id_from fields (
      apply_traffic_control fields
        (apply_report_errors fields (apply_report_crashes fields (apply_capture_from fields b))))

  unfoldable pub apply_multiplicity_from : Fields → ResponseAttributes → ResponseAttributes
  unfolding if_present
  apply_multiplicity_from fields =
      if_present (λ n. with_multiplicity (get_int32_value n))
        (get_json_number_from fields (codes "multiplicity"))

  unfoldable pub apply_server_id_from : Fields → ResponseAttributes → ResponseAttributes
  unfolding if_present
  apply_server_id_from fields =
      if_present (λ n. with_server_id (get_int32_value n))
        (get_json_number_from fields (codes "serverId"))

  unfoldable pub apply_status_from : Fields → ResponseAttributes → ResponseAttributes
  unfolding if_present
  apply_status_from fields =
      if_present (λ s. with_status (utf8_string s)) (get_json_string_from fields (codes "status"))

  unfoldable pub apply_dynamic_configuration :
      Option Fields → ResponseAttributes → ResponseAttributes
  apply_dynamic_configuration none b = b
  apply_dynamic_configuration (some fields) b =
      apply_status_from fields (apply_server_id_from fields (apply_multiplicity_from fields b))

  unfoldable pub apply_root_attributes : Fields → ResponseAttributes → ResponseAttributes
  unfolding if_present
  apply_root_attributes fields =
      if_present (λ n. with_timestamp_in_milliseconds (get_long_value n))
        (get_json_number_from fields (codes "timestamp"))

  unfoldable pub json_attributes : Fields → ResponseAttributes
  unfolding apply_agent_configuration apply_application_configuration apply_dynamic_configuration
      apply_root_attributes
  json_attributes root =
      let b1 =
        apply_agent_configuration (get_json_object_from root (codes "mobileAgentConfig"))
          json_response_defaults in
      let b2 = apply_application_configuration (get_json_object_from root (codes "appConfig")) b1 in
      let b3 = apply_dynamic_configuration (get_json_object_from root (codes "dynamicConfig")) b2 in
      apply_root_attributes root b3
