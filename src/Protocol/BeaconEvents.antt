-- ===== src/Protocol/BeaconEvents.antt =====
-- protocol/Beacon.cxx: the events that a beacon adds to the cache, as key-value pairs. A literal of ASCII characters is
-- taken as it is. The text of a double is what the parameter of the operation says.
pub mod Operations
pub mod Encoded
pub mod Written
pub mod Expected
pub mod Traced
pub mod Reports
use Prim.Native.String.{String}
use openkit_native.Prelude.{
  Bool, Option, [], if◌then◌else◌, length, ltb, sign_extend32, slt32, some, sub64, ℕ, ◌%◌, ◌&&◌,
  ◌+◌, ◌>>=◌, ◌^◌, ◌∷◌,
}
use openkit_native.Configuration.Privacy.{PrivacyConfiguration}
use openkit_native.Configuration.Server.{
  ServerConfiguration, is_sending_data_allowed, is_sending_errors_allowed,
}
use openkit_native.Json.Number.{long_to_invariant_string}
use openkit_native.Protocol.JsonResponse.{codes}
use openkit_native.Text.{Utf8String, concatenate, empty_string, is_empty_string}
use openkit_native.Text.Parts.{substring}
use openkit_native.Text.Validation.{utf8_string}
use openkit_native.UrlEncoding.{urlencode}

-- What the operations read: the thread, the start of the session, the clock at the call, the last sequence number, the
-- configurations, and the value that is compared with the percentage of traffic control.
pub record BeaconView : Type 0 where
  pub thread_id : ℕ
  pub session_start_time : ℕ
  pub now : ℕ
  pub sequence_number : ℕ
  pub traffic_control_value : ℕ
  pub privacy : PrivacyConfiguration
  pub server : ServerConfiguration

abbrev pub literal_text : String → Utf8String
literal_text s = record { bytes = codes s; string_length = length (codes s) }

unfoldable pub beacon_captures_data : BeaconView → Bool
unfolding is_sending_data_allowed slt32
beacon_captures_data v =
    is_sending_data_allowed v.server
    && slt32 v.traffic_control_value v.server.traffic_control_percentage_value

unfoldable pub beacon_captures_errors : BeaconView → Bool
unfolding is_sending_errors_allowed slt32
beacon_captures_errors v =
    is_sending_errors_allowed v.server
    && slt32 v.traffic_control_value v.server.traffic_control_percentage_value

unfoldable pub append_key : Utf8String → Utf8String → Utf8String
unfolding concatenate is_empty_string
append_key s key =
    let s' = if is_empty_string s then s else concatenate s (literal_text "&") in
    concatenate (concatenate s' key) (literal_text "=")

-- `urlencode` with the underscore reserved
unfoldable pub encoded_text : Utf8String → Utf8String
unfolding urlencode
encoded_text value = urlencode (b'_' ∷ []) value

unfoldable pub add_key_value_pair : Utf8String → Utf8String → Utf8String → Utf8String
unfolding append_key encoded_text concatenate
add_key_value_pair s key value = concatenate (append_key s key) (encoded_text value)

unfoldable pub add_key_value_pair_if_not_empty : Utf8String → Utf8String → Utf8String → Utf8String
unfolding add_key_value_pair
add_key_value_pair_if_not_empty s key value =
    if ltb 0 value.string_length then add_key_value_pair s key value else s

unfoldable pub long_text : ℕ → Utf8String
unfolding long_to_invariant_string utf8_string
long_text n = utf8_string (long_to_invariant_string n)

unfoldable pub int_text : ℕ → Utf8String
unfolding long_text sign_extend32
int_text n = long_text (sign_extend32 n)

-- none for a loop that does not end
unfoldable pub truncate : ℕ → Utf8String → Option Utf8String
unfolding substring
truncate size s = if ltb size s.string_length then substring 0 size s else some s

abbrev pub max_name_len : ℕ
max_name_len = 250

unfoldable pub create_basic_event_data_without_name : ℕ → BeaconView → Utf8String
unfolding add_key_value_pair int_text
create_basic_event_data_without_name event_type v =
    let s1 = add_key_value_pair empty_string (literal_text "et") (int_text event_type) in
    add_key_value_pair s1 (literal_text "it") (int_text v.thread_id)

unfoldable pub create_basic_event_data : ℕ → Utf8String → BeaconView → Option Utf8String
unfolding create_basic_event_data_without_name truncate add_key_value_pair is_empty_string
create_basic_event_data event_type event_name v =
    let s = create_basic_event_data_without_name event_type v in
    if is_empty_string event_name then some s else (do
      name ← truncate max_name_len event_name
      some (add_key_value_pair s (literal_text "na") name))

-- `++mSequenceNumber`
unfoldable pub create_sequence_number : BeaconView → ℕ
create_sequence_number v = (v.sequence_number + 1) % 2 ^ 32

unfoldable pub get_time_since_session_start_time : ℕ → BeaconView → ℕ
unfolding sub64
get_time_since_session_start_time timestamp v = sub64 timestamp v.session_start_time

-- The three pairs that most events have after the first ones
unfoldable pub add_place : ℕ → ℕ → BeaconView → Utf8String → Utf8String
unfolding add_key_value_pair int_text long_text create_sequence_number
add_place parent time v s =
    let s1 = add_key_value_pair s (literal_text "pa") (int_text parent) in
    let s2 = add_key_value_pair s1 (literal_text "s0") (int_text (create_sequence_number v)) in
    add_key_value_pair s2 (literal_text "t0") (long_text time)

unfoldable pub build_event : ℕ → Utf8String → ℕ → BeaconView → Option Utf8String
unfolding create_basic_event_data add_place get_time_since_session_start_time
build_event event_type name parent v = do
  s ← create_basic_event_data event_type name v
  some (add_place parent (get_time_since_session_start_time v.now v) v s)

-- `std::invalid_argument`, a return before anything is done, or the last sequence number after the call with the time and
-- the data of the event that is added to the cache, if one is; none stands for a loop that does not end.
pub data Reported : Type 0 where
  invalid_argument not_reported : Reported
  event_added : (sequence : ℕ) (timestamp : ℕ) (data_added : Utf8String) → Reported
  event_dropped : (sequence : ℕ) → Reported

-- `addEventData`, after a sequence number was taken
unfoldable pub add_beacon_event_data : ℕ → BeaconView → Utf8String → Reported
unfolding beacon_captures_data create_sequence_number
add_beacon_event_data timestamp v s =
    if beacon_captures_data v
    then event_added (create_sequence_number v) timestamp s
    else event_dropped (create_sequence_number v)
