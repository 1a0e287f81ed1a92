-- ===== src/Protocol/JsonResponse/Sections.antt =====
-- protocol/JsonResponseParser.cxx: the sections of a response one after the other.
use mathlib.Core.Path.{fun_ext}
use openkit_native.Prelude.{
  Bool, Option, ap, false, none, not, refl, some, ℕ, ◌&&◌, ◌==◌, ◌||◌, ◌∙◌, ◌≡◌,
}
use openkit_native.Json.Value.{Fields}
use openkit_native.Protocol.Attributes.{
  ResponseAttribute, ResponseAttributes, application_id, attribute_index, is_capture,
  is_capture_crashes, is_capture_errors, max_beacon_size, max_events_per_session,
  max_session_duration, multiplicity, send_interval, server_id, session_idle_timeout, status,
  traffic_control_percentage, visit_store_version,
}
use openkit_native.Protocol.JsonResponse.{
  apply_agent_configuration, apply_application_configuration, apply_application_id_from,
  apply_beacon_size_in_kb, apply_capture_from, apply_dynamic_configuration,
  apply_max_events_per_session, apply_max_session_duration_in_min, apply_multiplicity_from,
  apply_report_crashes, apply_report_errors, apply_send_interval_in_sec, apply_server_id_from,
  apply_session_timeout_in_sec, apply_status_from, apply_traffic_control,
  apply_visit_store_version_from, codes, get_int32_value, get_json_number_from,
  get_json_string_from, scaled32,
}
use openkit_native.Protocol.JsonResponse.Entries.{
  also, and_false, present-application_id, present-is_capture, present-is_capture_crashes,
  present-is_capture_errors, present-max_beacon_size, present-max_events_per_session,
  present-max_session_duration, present-multiplicity, present-send_interval, present-server_id,
  present-session_idle_timeout, present-status, present-traffic_control_percentage,
  present-visit_store_version,
}
use openkit_native.Protocol.JsonResponse.Settings.{is_some, number_in, string_in, value_or}
use openkit_native.Text.Validation.{utf8_string}

-- One more call that an equation describes.
pub and_then :
    {x y : ResponseAttributes} {f g : ResponseAttributes → ResponseAttributes}
    → x ≡ y
    → ((r : ResponseAttributes) → f r ≡ g r)
    → f x ≡ g y
and_then {y = y} {f = f} e h = ap f e ∙ h y

-- An entry that is not there sets nothing.
still :
    (a : ResponseAttribute) {s t : ResponseAttribute → Bool}
    → s ≡ t
    → s ≡ (λ b. ((attribute_index a == attribute_index b) && false) || t b)
still a {t = t} e = e ∙ fun_ext (λ b. and_false (attribute_index a == attribute_index b) (t b))

module _ (truncated : ℕ → ℕ) where
  -- what the agent section sets
  unfoldable pub agent_set : Option Fields → ResponseAttributes → ResponseAttributes
  unfolding value_or number_in string_in
  agent_set o r = record r {
    max_beacon_size_in_bytes =
        value_or (λ n. scaled32 1024 (get_int32_value truncated n)) r.max_beacon_size_in_bytes
          (number_in o (codes "maxBeaconSizeKb"));
    max_session_duration_in_milliseconds =
        value_or (λ n. scaled32 1000 (scaled32 60 (get_int32_value truncated n)))
          r.max_session_duration_in_milliseconds (number_in o (codes "maxSessionDurationMins"));
    max_events_per_session_value =
        value_or (λ n. get_int32_value truncated n) r.max_events_per_session_value
          (number_in o (codes "maxEventsPerSession"));
    session_timeout_in_milliseconds =
        value_or (λ n. scaled32 1000 (get_int32_value truncated n))
          r.session_timeout_in_milliseconds (number_in o (codes "sessionTimeoutSec"));
    send_interval_in_milliseconds =
        value_or (λ n. scaled32 1000 (get_int32_value truncated n)) r.send_interval_in_milliseconds
          (number_in o (codes "sendIntervalSec"));
    visit_store_version_value =
        value_or (λ n. get_int32_value truncated n) r.visit_store_version_value
          (number_in o (codes "visitStoreVersion"));
    is_attribute_set = also visit_store_version (number_in o (codes "visitStoreVersion")) (
        also send_interval (number_in o (codes "sendIntervalSec")) (
          also session_idle_timeout (number_in o (codes "sessionTimeoutSec")) (
            also max_events_per_session (number_in o (codes "maxEventsPerSession")) (
              also max_session_duration (number_in o (codes "maxSessionDurationMins")) (
                also max_beacon_size (number_in o (codes "maxBeaconSizeKb"))
                  (r.is_attribute_set))))));
  }

  pub apply_agent_configuration-set :
      (o : Option Fields) (r : ResponseAttributes)
      → apply_agent_configuration truncated o r ≡ agent_set o r
  unfolding apply_agent_configuration apply_beacon_size_in_kb apply_max_session_duration_in_min
      apply_max_events_per_session apply_session_timeout_in_sec apply_send_interval_in_sec
      apply_visit_store_version_from agent_set is_some
  apply_agent_configuration-set none r = λ i. record r {
    is_attribute_set =
        (still visit_store_version (
            still send_interval (
              still session_idle_timeout (
                still max_events_per_session (
                  still max_session_duration
                    (still max_beacon_size {t = r.is_attribute_set} (λ i. r.is_attribute_set)))))))
          i;
  }
  apply_agent_configuration-set (some fields) r =
      and_then
        (and_then
          (and_then
            (and_then
              (and_then
                (and_then (refl) (
                  present-max_beacon_size (λ n. scaled32 1024 (get_int32_value truncated n))
                    (get_json_number_from fields (codes "maxBeaconSizeKb"))))
                (present-max_session_duration
                  (λ n. scaled32 1000 (scaled32 60 (get_int32_value truncated n)))
                  (get_json_number_from fields (codes "maxSessionDurationMins"))))
              (present-max_events_per_session (λ n. get_int32_value truncated n)
                (get_json_number_from fields (codes "maxEventsPerSession"))))
            (present-session_idle_timeout (λ n. scaled32 1000 (get_int32_value truncated n))
              (get_json_number_from fields (codes "sessionTimeoutSec"))))
          (present-send_interval (λ n. scaled32 1000 (get_int32_value truncated n))
            (get_json_number_from fields (codes "sendIntervalSec"))))
        (present-visit_store_version (λ n. get_int32_value truncated n)
          (get_json_number_from fields (codes "visitStoreVersion")))

  -- what the application section sets
  unfoldable pub application_set : Option Fields → ResponseAttributes → ResponseAttributes
  unfolding value_or number_in string_in
  application_set o r = record r {
    capture =
        value_or (λ n. get_int32_value truncated n == 1) r.capture (number_in o (codes "capture"));
    capture_crashes =
        value_or (λ n. not (get_int32_value truncated n == 0)) r.capture_crashes
          (number_in o (codes "reportCrashes"));
    capture_errors =
        value_or (λ n. not (get_int32_value truncated n == 0)) r.capture_errors
          (number_in o (codes "reportErrors"));
    traffic_control_percentage_value =
        value_or (λ n. get_int32_value truncated n) r.traffic_control_percentage_value
          (number_in o (codes "trafficControlPercentage"));
    application_id_value =
        value_or (λ s. utf8_string s) r.application_id_value (string_in o (codes "applicationId"));
    is_attribute_set = also application_id (string_in o (codes "applicationId")) (
        also traffic_control_percentage (number_in o (codes "trafficControlPercentage")) (
          also is_capture_errors (number_in o (codes "reportErrors")) (
            also is_capture_crashes (number_in o (codes "reportCrashes"))
              (also is_capture (number_in o (codes "capture")) (r.is_attribute_set)))));
  }

  pub apply_application_configuration-set :
      (o : Option Fields) (r : ResponseAttributes)
      → apply_application_configuration truncated o r ≡ application_set o r
  unfolding apply_application_configuration apply_capture_from apply_report_crashes
      apply_report_errors apply_traffic_control apply_application_id_from application_set is_some
  apply_application_configuration-set none r = λ i. record r {
    is_attribute_set =
        (still application_id (
            still traffic_control_percentage (
              still is_capture_errors (
                still is_capture_crashes
                  (still is_capture {t = r.is_attribute_set} (λ i. r.is_attribute_set))))))
          i;
  }
  apply_application_configuration-set (some fields) r =
      and_then
        (and_then
          (and_then
            (and_then
              (and_then (refl) (
                present-is_capture (λ n. get_int32_value truncated n == 1)
                  (get_json_number_from fields (codes "capture"))))
              (present-is_capture_crashes (λ n. not (get_int32_value truncated n == 0))
                (get_json_number_from fields (codes "reportCrashes"))))
            (present-is_capture_errors (λ n. not (get_int32_value truncated n == 0))
              (get_json_number_from fields (codes "reportErrors"))))
          (present-traffic_control_percentage (λ n. get_int32_value truncated n)
            (get_json_number_from fields (codes "trafficControlPercentage"))))
        (present-application_id (λ s. utf8_string s)
          (get_json_string_from fields (codes "applicationId")))

  -- what the dynamic section sets
  unfoldable pub dynamic_set : Option Fields → ResponseAttributes → ResponseAttributes
  unfolding value_or number_in string_in
  dynamic_set o r = record r {
    multiplicity_value =
        value_or (λ n. get_int32_value truncated n) r.multiplicity_value
          (number_in o (codes "multiplicity"));
    server_id_value =
        value_or (λ n. get_int32_value truncated n) r.server_id_value
          (number_in o (codes "serverId"));
    status_value = value_or (λ s. utf8_string s) r.status_value (string_in o (codes "status"));
    is_attribute_set = also status (string_in o (codes "status")) (
        also server_id (number_in o (codes "serverId"))
          (also multiplicity (number_in o (codes "multiplicity")) (r.is_attribute_set)));
  }

  pub apply_dynamic_configuration-set :
      (o : Option Fields) (r : ResponseAttributes)
      → apply_dynamic_configuration truncated o r ≡ dynamic_set o r
  unfolding apply_dynamic_configuration apply_multiplicity_from apply_server_id_from
      apply_status_from dynamic_set is_some
  apply_dynamic_configuration-set none r = λ i. record r {
    is_attribute_set =
        (still status (
            still server_id
              (still multiplicity {t = r.is_attribute_set} (λ i. r.is_attribute_set))))
          i;
  }
  apply_dynamic_configuration-set (some fields) r =
      and_then
        (and_then
          (and_then (refl) (
            present-multiplicity (λ n. get_int32_value truncated n)
              (get_json_number_from fields (codes "multiplicity"))))
          (present-server_id (λ n. get_int32_value truncated n)
            (get_json_number_from fields (codes "serverId"))))
        (present-status (λ s. utf8_string s) (get_json_string_from fields (codes "status")))
