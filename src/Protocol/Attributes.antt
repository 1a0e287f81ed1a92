-- ===== src/Protocol/Attributes.antt =====
-- protocol/ResponseAttributes.cxx, ResponseAttributesDefaults.cxx and ResponseAttribute.h: what a
-- status response configures, and which of its attributes the server has set. A number is the bit
-- pattern of an `int32_t`, the timestamp that of an `int64_t`.
mod Apply
pub mod Laws
use openkit_native.Prelude.{Bool, false, if◌then◌else◌, true, ℕ, ◌*◌, ◌-◌, ◌==◌, ◌^◌, ◌||◌}
use openkit_native.Text.{Utf8String, empty_string}

pub data ResponseAttribute : Type 0 where
  max_beacon_size : ResponseAttribute
  max_session_duration : ResponseAttribute
  max_events_per_session : ResponseAttribute
  session_idle_timeout : ResponseAttribute
  send_interval : ResponseAttribute
  visit_store_version : ResponseAttribute
  is_capture : ResponseAttribute
  is_capture_crashes : ResponseAttribute
  is_capture_errors : ResponseAttribute
  traffic_control_percentage : ResponseAttribute
  application_id : ResponseAttribute
  multiplicity : ResponseAttribute
  server_id : ResponseAttribute
  status : ResponseAttribute
  timestamp : ResponseAttribute

pub record ResponseAttributes : Type 0 where
  pub max_beacon_size_in_bytes : ℕ
  pub max_session_duration_in_milliseconds : ℕ
  pub max_events_per_session_value : ℕ
  pub session_timeout_in_milliseconds : ℕ
  pub send_interval_in_milliseconds : ℕ
  pub visit_store_version_value : ℕ
  pub capture : Bool
  pub capture_crashes : Bool
  pub capture_errors : Bool
  pub traffic_control_percentage_value : ℕ
  pub application_id_value : Utf8String
  pub multiplicity_value : ℕ
  pub server_id_value : ℕ
  pub status_value : Utf8String
  pub timestamp_in_milliseconds : ℕ
  pub is_attribute_set : ResponseAttribute → Bool

-- the place of an attribute in the enumeration
abbrev pub attribute_index : ResponseAttribute → ℕ
attribute_index max_beacon_size = 0
attribute_index max_session_duration = 1
attribute_index max_events_per_session = 2
attribute_index session_idle_timeout = 3
attribute_index send_interval = 4
attribute_index visit_store_version = 5
attribute_index is_capture = 6
attribute_index is_capture_crashes = 7
attribute_index is_capture_errors = 8
attribute_index traffic_control_percentage = 9
attribute_index application_id = 10
attribute_index multiplicity = 11
attribute_index server_id = 12
attribute_index status = 13
attribute_index timestamp = 14

-- `mSetAttributes.insert`
unfoldable pub set_attribute : ResponseAttribute → ResponseAttributes → ResponseAttributes
set_attribute a r = record r {
  is_attribute_set = λ b. (attribute_index a == attribute_index b) || r.is_attribute_set b;
}

unfoldable pub with_max_beacon_size_in_bytes : ℕ → ResponseAttributes → ResponseAttributes
unfolding set_attribute
with_max_beacon_size_in_bytes x r =
    set_attribute max_beacon_size (record r { max_beacon_size_in_bytes = x })

unfoldable pub apply_beacon_size : ResponseAttributes → ResponseAttributes → ResponseAttributes
unfolding with_max_beacon_size_in_bytes
apply_beacon_size attributes b =
    if attributes.is_attribute_set max_beacon_size
    then with_max_beacon_size_in_bytes attributes.max_beacon_size_in_bytes b
    else b

unfoldable pub with_max_session_duration_in_milliseconds :
    ℕ → ResponseAttributes → ResponseAttributes
unfolding set_attribute
with_max_session_duration_in_milliseconds x r =
    set_attribute max_session_duration (record r { max_session_duration_in_milliseconds = x })

unfoldable pub apply_session_duration : ResponseAttributes → ResponseAttributes → ResponseAttributes
unfolding with_max_session_duration_in_milliseconds
apply_session_duration attributes b =
    if attributes.is_attribute_set max_session_duration
    then with_max_session_duration_in_milliseconds attributes.max_session_duration_in_milliseconds b
    else b

unfoldable pub with_max_events_per_session : ℕ → ResponseAttributes → ResponseAttributes
unfolding set_attribute
with_max_events_per_session x r =
    set_attribute max_events_per_session (record r { max_events_per_session_value = x })

unfoldable pub apply_events_per_session :
    ResponseAttributes → ResponseAttributes → ResponseAttributes
unfolding with_max_events_per_session
apply_events_per_session attributes b =
    if attributes.is_attribute_set max_events_per_session
    then with_max_events_per_session attributes.max_events_per_session_value b
    else b

unfoldable pub with_session_timeout_in_milliseconds : ℕ → ResponseAttributes → ResponseAttributes
unfolding set_attribute
with_session_timeout_in_milliseconds x r =
    set_attribute session_idle_timeout (record r { session_timeout_in_milliseconds = x })

unfoldable pub apply_session_timeout : ResponseAttributes → ResponseAttributes → ResponseAttributes
unfolding with_session_timeout_in_milliseconds
apply_session_timeout attributes b =
    if attributes.is_attribute_set session_idle_timeout
    then with_session_timeout_in_milliseconds attributes.session_timeout_in_milliseconds b
    else b

unfoldable pub with_send_interval_in_milliseconds : ℕ → ResponseAttributes → ResponseAttributes
unfolding set_attribute
with_send_interval_in_milliseconds x r =
    set_attribute send_interval (record r { send_interval_in_milliseconds = x })

unfoldable pub apply_send_interval : ResponseAttributes → ResponseAttributes → ResponseAttributes
unfolding with_send_interval_in_milliseconds
apply_send_interval attributes b =
    if attributes.is_attribute_set send_interval
    then with_send_interval_in_milliseconds attributes.send_interval_in_milliseconds b
    else b

unfoldable pub with_visit_store_version : ℕ → ResponseAttributes → ResponseAttributes
unfolding set_attribute
with_visit_store_version x r =
    set_attribute visit_store_version (record r { visit_store_version_value = x })

unfoldable pub apply_visit_store_version :
    ResponseAttributes → ResponseAttributes → ResponseAttributes
unfolding with_visit_store_version
apply_visit_store_version attributes b =
    if attributes.is_attribute_set visit_store_version
    then with_visit_store_version attributes.visit_store_version_value b
    else b

unfoldable pub with_capture : Bool → ResponseAttributes → ResponseAttributes
unfolding set_attribute
with_capture x r = set_attribute is_capture (record r { capture = x })

unfoldable pub apply_capture : ResponseAttributes → ResponseAttributes → ResponseAttributes
unfolding with_capture
apply_capture attributes b =
    if attributes.is_attribute_set is_capture then with_capture attributes.capture b else b

unfoldable pub with_capture_crashes : Bool → ResponseAttributes → ResponseAttributes
unfolding set_attribute
with_capture_crashes x r = set_attribute is_capture_crashes (record r { capture_crashes = x })

unfoldable pub apply_capture_crashes : ResponseAttributes → ResponseAttributes → ResponseAttributes
unfolding with_capture_crashes
apply_capture_crashes attributes b =
    if attributes.is_attribute_set is_capture_crashes
    then with_capture_crashes attributes.capture_crashes b
    else b

unfoldable pub with_capture_errors : Bool → ResponseAttributes → ResponseAttributes
unfolding set_attribute
with_capture_errors x r = set_attribute is_capture_errors (record r { capture_errors = x })

unfoldable pub apply_capture_errors : ResponseAttributes → ResponseAttributes → ResponseAttributes
unfolding with_capture_errors
apply_capture_errors attributes b =
    if attributes.is_attribute_set is_capture_errors
    then with_capture_errors attributes.capture_errors b
    else b

unfoldable pub with_traffic_control_percentage : ℕ → ResponseAttributes → ResponseAttributes
unfolding set_attribute
with_traffic_control_percentage x r =
    set_attribute traffic_control_percentage (record r { traffic_control_percentage_value = x })

unfoldable pub apply_traffic_control_percentage :
    ResponseAttributes → ResponseAttributes → ResponseAttributes
unfolding with_traffic_control_percentage
apply_traffic_control_percentage attributes b =
    if attributes.is_attribute_set traffic_control_percentage
    then with_traffic_control_percentage attributes.traffic_control_percentage_value b
    else b

unfoldable pub with_application_id : Utf8String → ResponseAttributes → ResponseAttributes
unfolding set_attribute
with_application_id x r = set_attribute application_id (record r { application_id_value = x })

unfoldable pub apply_application_id : ResponseAttributes → ResponseAttributes → ResponseAttributes
unfolding with_application_id
apply_application_id attributes b =
    if attributes.is_attribute_set application_id
    then with_application_id attributes.application_id_value b
    else b

unfoldable pub with_multiplicity : ℕ → ResponseAttributes → ResponseAttributes
unfolding set_attribute
with_multiplicity x r = set_attribute multiplicity (record r { multiplicity_value = x })

unfoldable pub apply_multiplicity : ResponseAttributes → ResponseAttributes → ResponseAttributes
unfolding with_multiplicity
apply_multiplicity attributes b =
    if attributes.is_attribute_set multiplicity
    then with_multiplicity attributes.multiplicity_value b
    else b

unfoldable pub with_server_id : ℕ → ResponseAttributes → ResponseAttributes
unfolding set_attribute
with_server_id x r = set_attribute server_id (record r { server_id_value = x })

unfoldable pub apply_server_id : ResponseAttributes → ResponseAttributes → ResponseAttributes
unfolding with_server_id
apply_server_id attributes b =
    if attributes.is_attribute_set server_id then with_server_id attributes.server_id_value b else b

unfoldable pub with_status : Utf8String → ResponseAttributes → ResponseAttributes
unfolding set_attribute
with_status x r = set_attribute status (record r { status_value = x })

unfoldable pub apply_status : ResponseAttributes → ResponseAttributes → ResponseAttributes
unfolding with_status
apply_status attributes b =
    if attributes.is_attribute_set status then with_status attributes.status_value b else b

unfoldable pub with_timestamp_in_milliseconds : ℕ → ResponseAttributes → ResponseAttributes
unfolding set_attribute
with_timestamp_in_milliseconds x r =
    set_attribute timestamp (record r { timestamp_in_milliseconds = x })

unfoldable pub apply_timestamp : ResponseAttributes → ResponseAttributes → ResponseAttributes
unfolding with_timestamp_in_milliseconds
apply_timestamp attributes b =
    if attributes.is_attribute_set timestamp
    then with_timestamp_in_milliseconds attributes.timestamp_in_milliseconds b
    else b

-- The builder copies the attributes that it begins with, and `build` those that it ends with.
unfoldable pub merge : ResponseAttributes → ResponseAttributes → ResponseAttributes
merge r attributes =
    let b1 = apply_beacon_size attributes r in
    let b2 = apply_session_duration attributes b1 in
    let b3 = apply_events_per_session attributes b2 in
    let b4 = apply_session_timeout attributes b3 in
    let b5 = apply_send_interval attributes b4 in
    let b6 = apply_visit_store_version attributes b5 in
    let b7 = apply_capture attributes b6 in
    let b8 = apply_capture_crashes attributes b7 in
    let b9 = apply_capture_errors attributes b8 in
    let b10 = apply_traffic_control_percentage attributes b9 in
    let b11 = apply_application_id attributes b10 in
    let b12 = apply_multiplicity attributes b11 in
    let b13 = apply_server_id attributes b12 in
    let b14 = apply_status attributes b13 in let b15 = apply_timestamp attributes b14 in b15

-- the values that all three sets of defaults share
abbrev abstract_defaults : ℕ → ℕ → ℕ → ℕ → ℕ → ResponseAttributes
abstract_defaults beacon_size duration events timeout server = record {
  max_beacon_size_in_bytes = beacon_size;
  max_session_duration_in_milliseconds = duration;
  max_events_per_session_value = events;
  session_timeout_in_milliseconds = timeout;
  send_interval_in_milliseconds = 120 * 1000;
  visit_store_version_value = 1;
  capture = true;
  capture_crashes = true;
  capture_errors = true;
  traffic_control_percentage_value = 100;
  application_id_value = empty_string;
  multiplicity_value = 1;
  server_id_value = server;
  status_value = empty_string;
  timestamp_in_milliseconds = 0;
  is_attribute_set = λ a. false;
}

-- -1 as the bit pattern of an `int32_t`
abbrev pub minus_one32 : ℕ
minus_one32 = 2 ^ 32 - 1

abbrev pub json_response_defaults : ResponseAttributes
json_response_defaults = abstract_defaults (150 * 1024) (360 * 60 * 1000) 200 (600 * 1000) 1

abbrev pub key_value_response_defaults : ResponseAttributes
key_value_response_defaults = abstract_defaults (30 * 1024) minus_one32 minus_one32 minus_one32 1

abbrev pub undefined_defaults : ResponseAttributes
undefined_defaults = abstract_defaults (30 * 1024) minus_one32 minus_one32 minus_one32 minus_one32
