-- ===== src/Protocol/Attributes/Laws.antt =====
-- protocol/ResponseAttributes.cxx: what a merge keeps and what it takes over.
use mathlib.Core.Path.{fun_ext}
use openkit_native.Prelude.{Bool, if◌then◌else◌, refl, ◌||◌, ◌≡◌}
use openkit_native.Protocol.Attributes.{
  ResponseAttribute, ResponseAttributes, application_id, is_capture, is_capture_crashes,
  is_capture_errors, max_beacon_size, max_events_per_session, max_session_duration, merge,
  multiplicity, send_interval, server_id, session_idle_timeout, status, timestamp,
  traffic_control_percentage, visit_store_version,
}
use openkit_native.Protocol.Attributes.Apply.{
  apply_application_id-eq, apply_beacon_size-eq, apply_capture-eq, apply_capture_crashes-eq,
  apply_capture_errors-eq, apply_events_per_session-eq, apply_multiplicity-eq,
  apply_send_interval-eq, apply_server_id-eq, apply_session_duration-eq, apply_session_timeout-eq,
  apply_status-eq, apply_timestamp-eq, apply_traffic_control_percentage-eq,
  apply_visit_store_version-eq, joined,
}

-- What a merge is meant to give: every attribute that the response sets has its value, every other
-- one keeps the old value, and an attribute is set if either side sets it.
abbrev pub overlay : ResponseAttributes → ResponseAttributes → ResponseAttributes
overlay r s = record {
  max_beacon_size_in_bytes =
      if s.is_attribute_set max_beacon_size
      then s.max_beacon_size_in_bytes
      else r.max_beacon_size_in_bytes;
  max_session_duration_in_milliseconds =
      if s.is_attribute_set max_session_duration
      then s.max_session_duration_in_milliseconds
      else r.max_session_duration_in_milliseconds;
  max_events_per_session_value =
      if s.is_attribute_set max_events_per_session
      then s.max_events_per_session_value
      else r.max_events_per_session_value;
  session_timeout_in_milliseconds =
      if s.is_attribute_set session_idle_timeout
      then s.session_timeout_in_milliseconds
      else r.session_timeout_in_milliseconds;
  send_interval_in_milliseconds =
      if s.is_attribute_set send_interval
      then s.send_interval_in_milliseconds
      else r.send_interval_in_milliseconds;
  visit_store_version_value =
      if s.is_attribute_set visit_store_version
      then s.visit_store_version_value
      else r.visit_store_version_value;
  capture = if s.is_attribute_set is_capture then s.capture else r.capture;
  capture_crashes =
      if s.is_attribute_set is_capture_crashes then s.capture_crashes else r.capture_crashes;
  capture_errors =
      if s.is_attribute_set is_capture_errors then s.capture_errors else r.capture_errors;
  traffic_control_percentage_value =
      if s.is_attribute_set traffic_control_percentage
      then s.traffic_control_percentage_value
      else r.traffic_control_percentage_value;
  application_id_value =
      if s.is_attribute_set application_id then s.application_id_value else r.application_id_value;
  multiplicity_value =
      if s.is_attribute_set multiplicity then s.multiplicity_value else r.multiplicity_value;
  server_id_value = if s.is_attribute_set server_id then s.server_id_value else r.server_id_value;
  status_value = if s.is_attribute_set status then s.status_value else r.status_value;
  timestamp_in_milliseconds =
      if s.is_attribute_set timestamp
      then s.timestamp_in_milliseconds
      else r.timestamp_in_milliseconds;
  is_attribute_set = λ a. s.is_attribute_set a || r.is_attribute_set a;
}

abbrev joined_all : ResponseAttributes → ResponseAttributes → ResponseAttribute → Bool
joined_all r s = joined timestamp (s.is_attribute_set timestamp) (
    joined status (s.is_attribute_set status) (
      joined server_id (s.is_attribute_set server_id) (
        joined multiplicity (s.is_attribute_set multiplicity) (
          joined application_id (s.is_attribute_set application_id) (
            joined traffic_control_percentage (s.is_attribute_set traffic_control_percentage) (
              joined is_capture_errors (s.is_attribute_set is_capture_errors) (
                joined is_capture_crashes (s.is_attribute_set is_capture_crashes) (
                  joined is_capture (s.is_attribute_set is_capture) (
                    joined visit_store_version (s.is_attribute_set visit_store_version) (
                      joined send_interval (s.is_attribute_set send_interval) (
                        joined session_idle_timeout (s.is_attribute_set session_idle_timeout) (
                          joined max_events_per_session (s.is_attribute_set max_events_per_session)
                            (joined max_session_duration (s.is_attribute_set max_session_duration) (
                              joined max_beacon_size (s.is_attribute_set max_beacon_size)
                                r.is_attribute_set))))))))))))))

joined_all-eq :
    (r s : ResponseAttributes)
    → joined_all r s ≡ (λ a. s.is_attribute_set a || r.is_attribute_set a)
joined_all-eq r s = fun_ext (elim [
  | max_beacon_size ↦ refl
  | max_session_duration ↦ refl
  | max_events_per_session ↦ refl
  | session_idle_timeout ↦ refl
  | send_interval ↦ refl
  | visit_store_version ↦ refl
  | is_capture ↦ refl
  | is_capture_crashes ↦ refl
  | is_capture_errors ↦ refl
  | traffic_control_percentage ↦ refl
  | application_id ↦ refl
  | multiplicity ↦ refl
  | server_id ↦ refl
  | status ↦ refl
  | timestamp ↦ refl
])

pub merge-overlay : (r s : ResponseAttributes) → merge r s ≡ overlay r s
unfolding merge
merge-overlay r s = rw (
  apply_timestamp-eq,
  apply_status-eq,
  apply_server_id-eq,
  apply_multiplicity-eq,
  apply_application_id-eq,
  apply_traffic_control_percentage-eq,
  apply_capture_errors-eq,
  apply_capture_crashes-eq,
  apply_capture-eq,
  apply_visit_store_version-eq,
  apply_send_interval-eq,
  apply_session_timeout-eq,
  apply_events_per_session-eq,
  apply_session_duration-eq,
  apply_beacon_size-eq,
  joined_all-eq r s,
)
