-- ===== src/Configuration/Server.antt =====
-- core/configuration/ServerConfiguration.cxx: what the server lets a beacon do. Numbers are the bit
-- patterns of an `int32_t`. A builder is the configuration that it will build.
pub mod Merge
use openkit_native.Prelude.{Bool, slt32, ℕ, ◌&&◌}
use openkit_native.Protocol.Attributes.{
  ResponseAttributes, max_events_per_session, max_session_duration, session_idle_timeout,
  undefined_defaults,
}

pub record ServerConfiguration : Type 0 where
  pub is_capture_enabled : Bool
  pub is_crash_reporting_enabled : Bool
  pub is_error_reporting_enabled : Bool
  pub server_id_value : ℕ
  pub beacon_size_in_bytes : ℕ
  pub multiplicity_value : ℕ
  pub send_interval_in_milliseconds : ℕ
  pub max_session_duration_in_milliseconds : ℕ
  pub session_split_by_session_duration : Bool
  pub max_events_per_session_value : ℕ
  pub session_split_by_events : Bool
  pub session_timeout_in_milliseconds : ℕ
  pub session_split_by_idle_timeout : Bool
  pub visit_store_version_value : ℕ
  pub traffic_control_percentage_value : ℕ

-- `Builder(responseAttributes)`, built
unfoldable pub from_attributes : ResponseAttributes → ServerConfiguration
from_attributes a = record {
  is_capture_enabled = a.capture;
  is_crash_reporting_enabled = a.capture_crashes;
  is_error_reporting_enabled = a.capture_errors;
  server_id_value = a.server_id_value;
  beacon_size_in_bytes = a.max_beacon_size_in_bytes;
  multiplicity_value = a.multiplicity_value;
  send_interval_in_milliseconds = a.send_interval_in_milliseconds;
  max_session_duration_in_milliseconds = a.max_session_duration_in_milliseconds;
  session_split_by_session_duration = a.is_attribute_set max_session_duration;
  max_events_per_session_value = a.max_events_per_session_value;
  session_split_by_events = a.is_attribute_set max_events_per_session;
  session_timeout_in_milliseconds = a.session_timeout_in_milliseconds;
  session_split_by_idle_timeout = a.is_attribute_set session_idle_timeout;
  visit_store_version_value = a.visit_store_version_value;
  traffic_control_percentage_value = a.traffic_control_percentage_value;
}

abbrev pub default_server_configuration : ServerConfiguration
default_server_configuration = from_attributes undefined_defaults

unfoldable pub is_session_split_by_session_duration_enabled : ServerConfiguration → Bool
is_session_split_by_session_duration_enabled c =
    c.session_split_by_session_duration && slt32 0 c.max_session_duration_in_milliseconds

unfoldable pub is_session_split_by_events_enabled : ServerConfiguration → Bool
is_session_split_by_events_enabled c =
    c.session_split_by_events && slt32 0 c.max_events_per_session_value

unfoldable pub is_session_split_by_idle_timeout_enabled : ServerConfiguration → Bool
is_session_split_by_idle_timeout_enabled c =
    c.session_split_by_idle_timeout && slt32 0 c.session_timeout_in_milliseconds

unfoldable pub is_sending_data_allowed : ServerConfiguration → Bool
is_sending_data_allowed c = c.is_capture_enabled && slt32 0 c.multiplicity_value

unfoldable pub is_sending_crashes_allowed : ServerConfiguration → Bool
unfolding is_sending_data_allowed
is_sending_crashes_allowed c = c.is_crash_reporting_enabled && is_sending_data_allowed c

unfoldable pub is_sending_errors_allowed : ServerConfiguration → Bool
unfolding is_sending_data_allowed
is_sending_errors_allowed c = c.is_error_reporting_enabled && is_sending_data_allowed c

-- `Builder(serverConfiguration)`: the splits are read through the getters.
unfoldable pub from_configuration : ServerConfiguration → ServerConfiguration
unfolding is_session_split_by_session_duration_enabled is_session_split_by_events_enabled
    is_session_split_by_idle_timeout_enabled
from_configuration c = record c {
  session_split_by_session_duration = is_session_split_by_session_duration_enabled c;
  session_split_by_events = is_session_split_by_events_enabled c;
  session_split_by_idle_timeout = is_session_split_by_idle_timeout_enabled c;
}

unfoldable pub with_capture_state : Bool → ServerConfiguration → ServerConfiguration
with_capture_state state c = record c { is_capture_enabled = state }

-- Everything comes from the other configuration but what the builder is then given.
unfoldable pub merge_configuration : ServerConfiguration → ServerConfiguration → ServerConfiguration
unfolding from_configuration
merge_configuration c other = record (from_configuration other) {
  multiplicity_value = c.multiplicity_value;
  server_id_value = c.server_id_value;
  max_session_duration_in_milliseconds = c.max_session_duration_in_milliseconds;
  session_split_by_session_duration = is_session_split_by_session_duration_enabled c;
  max_events_per_session_value = c.max_events_per_session_value;
  session_split_by_events = is_session_split_by_events_enabled c;
  session_timeout_in_milliseconds = c.session_timeout_in_milliseconds;
  session_split_by_idle_timeout = is_session_split_by_idle_timeout_enabled c;
  visit_store_version_value = c.visit_store_version_value;
  traffic_control_percentage_value = c.traffic_control_percentage_value;
}
