-- ===== src/Protocol/JsonResponse/Settings.antt =====
-- protocol/JsonResponseParser.cxx: what is set by a response, entry by entry.
use openkit_native.Prelude.{Bool, List, Option, false, none, not, some, true, ℕ, ◌==◌, ◌||◌}
use openkit_native.Json.Value.{Fields, JsonNumber}
use openkit_native.Protocol.Attributes.{
  ResponseAttribute, ResponseAttributes, application_id, is_capture, is_capture_crashes,
  is_capture_errors, json_response_defaults, max_beacon_size, max_events_per_session,
  max_session_duration, multiplicity, send_interval, server_id, session_idle_timeout, status,
  timestamp, traffic_control_percentage, visit_store_version,
}
use openkit_native.Protocol.JsonResponse.{
  codes, get_int32_value, get_json_number_from, get_json_object_from, get_json_string_from,
  get_long_value, scaled32,
}
use openkit_native.Text.Validation.{utf8_string}

-- A value that an entry may replace, and whether the entry is there.
unfoldable pub value_or {ℓ κ} : {A : Type ℓ} {B : Type κ} → (A → B) → B → Option A → B
value_or f d none = d
value_or f d (some x) = f x

unfoldable pub is_some {ℓ} : {A : Type ℓ} → Option A → Bool
is_some none = false
is_some (some x) = true

-- The entry of a section, if both are there.
unfoldable pub number_in : Option Fields → List ℕ → Option JsonNumber
number_in none key = none
number_in (some fields) key = get_json_number_from fields key

unfoldable pub string_in : Option Fields → List ℕ → Option (List ℕ)
string_in none key = none
string_in (some fields) key = get_json_string_from fields key

unfoldable pub agent_section : Fields → Option Fields
agent_section root = get_json_object_from root (codes "mobileAgentConfig")

unfoldable pub app_section : Fields → Option Fields
app_section root = get_json_object_from root (codes "appConfig")

unfoldable pub dynamic_section : Fields → Option Fields
dynamic_section root = get_json_object_from root (codes "dynamicConfig")

-- The entry of each attribute.
unfoldable pub number_of : ResponseAttribute → Fields → Option JsonNumber
unfolding number_in agent_section app_section dynamic_section
number_of max_beacon_size root = number_in (agent_section root) (codes "maxBeaconSizeKb")
number_of max_session_duration root =
    number_in (agent_section root) (codes "maxSessionDurationMins")
number_of max_events_per_session root = number_in (agent_section root) (codes "maxEventsPerSession")
number_of session_idle_timeout root = number_in (agent_section root) (codes "sessionTimeoutSec")
number_of send_interval root = number_in (agent_section root) (codes "sendIntervalSec")
number_of visit_store_version root = number_in (agent_section root) (codes "visitStoreVersion")
number_of is_capture root = number_in (app_section root) (codes "capture")
number_of is_capture_crashes root = number_in (app_section root) (codes "reportCrashes")
number_of is_capture_errors root = number_in (app_section root) (codes "reportErrors")
number_of traffic_control_percentage root =
    number_in (app_section root) (codes "trafficControlPercentage")
number_of multiplicity root = number_in (dynamic_section root) (codes "multiplicity")
number_of server_id root = number_in (dynamic_section root) (codes "serverId")
number_of timestamp root = get_json_number_from root (codes "timestamp")
number_of application_id root = none
number_of status root = none

unfoldable pub text_of : ResponseAttribute → Fields → Option (List ℕ)
unfolding string_in app_section dynamic_section
text_of application_id root = string_in (app_section root) (codes "applicationId")
text_of status root = string_in (dynamic_section root) (codes "status")
text_of a root = none

unfoldable pub has_entry : Fields → ResponseAttribute → Bool
unfolding is_some number_of text_of
has_entry root a = is_some (number_of a root) || is_some (text_of a root)

-- The attributes of a response: each from its entry, or by default.
unfoldable pub configured : (ℕ → ℕ) → Fields → ResponseAttributes
unfolding value_or has_entry
configured truncated root =
    let d = json_response_defaults in
    record {
      max_beacon_size_in_bytes =
          value_or (λ n. scaled32 1024 (get_int32_value truncated n)) d.max_beacon_size_in_bytes
            (number_of max_beacon_size root);
      max_session_duration_in_milliseconds =
          value_or (λ n. scaled32 1000 (scaled32 60 (get_int32_value truncated n)))
            d.max_session_duration_in_milliseconds (number_of max_session_duration root);
      max_events_per_session_value =
          value_or (λ n. get_int32_value truncated n) d.max_events_per_session_value
            (number_of max_events_per_session root);
      session_timeout_in_milliseconds =
          value_or (λ n. scaled32 1000 (get_int32_value truncated n))
            d.session_timeout_in_milliseconds (number_of session_idle_timeout root);
      send_interval_in_milliseconds =
          value_or (λ n. scaled32 1000 (get_int32_value truncated n))
            d.send_interval_in_milliseconds (number_of send_interval root);
      visit_store_version_value =
          value_or (λ n. get_int32_value truncated n) d.visit_store_version_value
            (number_of visit_store_version root);
      capture =
          value_or (λ n. get_int32_value truncated n == 1) d.capture (number_of is_capture root);
      capture_crashes =
          value_or (λ n. not (get_int32_value truncated n == 0)) d.capture_crashes
            (number_of is_capture_crashes root);
      capture_errors =
          value_or (λ n. not (get_int32_value truncated n == 0)) d.capture_errors
            (number_of is_capture_errors root);
      traffic_control_percentage_value =
          value_or (λ n. get_int32_value truncated n) d.traffic_control_percentage_value
            (number_of traffic_control_percentage root);
      application_id_value =
          value_or (λ n. utf8_string n) d.application_id_value (text_of application_id root);
      multiplicity_value =
          value_or (λ n. get_int32_value truncated n) d.multiplicity_value
            (number_of multiplicity root);
      server_id_value =
          value_or (λ n. get_int32_value truncated n) d.server_id_value (number_of server_id root);
      status_value = value_or (λ n. utf8_string n) d.status_value (text_of status root);
      timestamp_in_milliseconds =
          value_or (λ n. get_long_value truncated n) d.timestamp_in_milliseconds
            (number_of timestamp root);
      is_attribute_set = has_entry root;
    }
