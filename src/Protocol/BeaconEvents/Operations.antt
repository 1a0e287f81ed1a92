-- ===== src/Protocol/BeaconEvents/Operations.antt =====
-- protocol/Beacon.cxx: the operations that report an event.
use openkit_native.Prelude.{
  Bool, Option, if◌then◌else◌, not, sign_extend32, slt32, some, sub64, ℕ, ◌-◌, ◌>>=◌, ◌^◌, ◌||◌,
}
use openkit_native.Configuration.Privacy.{
  is_action_reporting_allowed, is_error_reporting_allowed, is_event_reporting_allowed,
  is_session_reporting_allowed, is_user_identification_allowed, is_value_reporting_allowed,
  is_web_request_tracing_allowed,
}
use openkit_native.Protocol.BeaconEvents.{
  BeaconView, Reported, add_beacon_event_data, add_key_value_pair, add_key_value_pair_if_not_empty,
  add_place, beacon_captures_data, beacon_captures_errors, build_event, create_basic_event_data,
  create_basic_event_data_without_name, event_added, event_dropped,
  get_time_since_session_start_time, int_text, invalid_argument, literal_text, long_text,
  not_reported,
}
use openkit_native.Text.{Utf8String, is_empty_string}

-- the three checks of an operation with a name
unfoldable pub checked : Utf8String → Bool → Bool → Option Reported → Option Reported
unfolding is_empty_string
checked name allowed enabled r =
    if is_empty_string name
    then some invalid_argument
    else if not allowed || not enabled
    then some not_reported
    else r

unfoldable pub report_long_value : ℕ → Utf8String → ℕ → BeaconView → Option Reported
unfolding checked is_value_reporting_allowed beacon_captures_data build_event add_key_value_pair
    long_text add_beacon_event_data
report_long_value action name value v =
    checked name (is_value_reporting_allowed v.privacy) (beacon_captures_data v) (do
      s ← build_event 12 name action v
      some (
          add_beacon_event_data v.now v
            (add_key_value_pair s (literal_text "vl") (long_text value))))

unfoldable pub report_int_value : ℕ → Utf8String → ℕ → BeaconView → Option Reported
unfolding report_long_value sign_extend32
report_int_value action name value v = report_long_value action name (sign_extend32 value) v

unfoldable pub report_double_value : ℕ → Utf8String → Utf8String → BeaconView → Option Reported
unfolding checked is_value_reporting_allowed beacon_captures_data build_event add_key_value_pair
    add_beacon_event_data
report_double_value action name double_text v =
    checked name (is_value_reporting_allowed v.privacy) (beacon_captures_data v) (do
      s ← build_event 13 name action v
      some (add_beacon_event_data v.now v (add_key_value_pair s (literal_text "vl") double_text)))

unfoldable pub report_string_value : ℕ → Utf8String → Utf8String → BeaconView → Option Reported
unfolding checked is_value_reporting_allowed beacon_captures_data build_event
    add_key_value_pair_if_not_empty add_beacon_event_data
report_string_value action name value v =
    checked name (is_value_reporting_allowed v.privacy) (beacon_captures_data v) (do
      s ← build_event 11 name action v
      some (
          add_beacon_event_data v.now v
            (add_key_value_pair_if_not_empty s (literal_text "vl") value)))

unfoldable pub report_event : ℕ → Utf8String → BeaconView → Option Reported
unfolding checked is_event_reporting_allowed beacon_captures_data build_event add_beacon_event_data
report_event action name v =
    checked name (is_event_reporting_allowed v.privacy) (beacon_captures_data v)
      (do s ← build_event 10 name action v; some (add_beacon_event_data v.now v s))

unfoldable pub report_error_code : ℕ → Utf8String → ℕ → BeaconView → Option Reported
unfolding checked is_error_reporting_allowed beacon_captures_errors build_event add_key_value_pair
    int_text add_beacon_event_data
report_error_code action name code_value v =
    checked name (is_error_reporting_allowed v.privacy) (beacon_captures_errors v) (do
      s ← build_event 40 name action v
      some (
          add_beacon_event_data v.now v (
            add_key_value_pair (add_key_value_pair s (literal_text "ev") (int_text code_value))
              (literal_text "tt") (literal_text "c"))))

unfoldable pub identify_user : Utf8String → BeaconView → Option Reported
unfolding is_user_identification_allowed beacon_captures_data create_basic_event_data add_place
    get_time_since_session_start_time add_beacon_event_data
identify_user tag v =
    if not (is_user_identification_allowed v.privacy) || not (beacon_captures_data v)
    then some not_reported
    else (do
      s ← create_basic_event_data 60 tag v
      some (
          add_beacon_event_data v.now v
            (add_place 0 (get_time_since_session_start_time v.now v) v s)))

unfoldable pub start_session : BeaconView → Reported
unfolding beacon_captures_data create_basic_event_data_without_name add_place add_beacon_event_data
start_session v =
    if not (beacon_captures_data v)
    then not_reported
    else add_beacon_event_data v.session_start_time v
        (add_place 0 0 v (create_basic_event_data_without_name 18 v))

unfoldable pub end_session_event : BeaconView → Reported
unfolding is_session_reporting_allowed beacon_captures_data create_basic_event_data_without_name
    add_place get_time_since_session_start_time add_beacon_event_data
end_session_event v =
    if not (is_session_reporting_allowed v.privacy) || not (beacon_captures_data v)
    then not_reported
    else add_beacon_event_data v.now v (
        add_place 0 (get_time_since_session_start_time v.now v) v
          (create_basic_event_data_without_name 19 v))

-- What `addAction` asks of an action, and `addWebRequest` of a tracer.
pub record ActionReport : Type 0 where
  pub action_name : Utf8String
  pub action_id : ℕ
  pub parent_id : ℕ
  pub start_sequence : ℕ
  pub end_sequence : ℕ
  pub start_time : ℕ
  pub end_time : ℕ

pub record WebRequest : Type 0 where
  pub url : Utf8String
  pub start_sequence_no : ℕ
  pub end_sequence_no : ℕ
  pub request_start : ℕ
  pub request_end : ℕ
  pub bytes_sent : ℕ
  pub bytes_received : ℕ
  pub status_of_answer : ℕ

-- `addActionData`, and `addEventData` without a sequence number of its own
unfoldable pub add_traced : ℕ → BeaconView → Utf8String → Reported
unfolding beacon_captures_data
add_traced stamp v s =
    if beacon_captures_data v
    then event_added v.sequence_number stamp s
    else event_dropped v.sequence_number

unfoldable pub add_action : ActionReport → BeaconView → Option Reported
unfolding checked is_action_reporting_allowed beacon_captures_data create_basic_event_data
    add_key_value_pair int_text long_text get_time_since_session_start_time sub64 add_traced
add_action a v =
    checked a.action_name (is_action_reporting_allowed v.privacy) (beacon_captures_data v) (do
      s ← create_basic_event_data 1 a.action_name v
      some (
          add_traced a.start_time v (
            add_key_value_pair
              (add_key_value_pair
                (add_key_value_pair
                  (add_key_value_pair
                    (add_key_value_pair
                      (add_key_value_pair s (literal_text "ca") (int_text a.action_id))
                      (literal_text "pa") (int_text a.parent_id))
                    (literal_text "s0") (int_text a.start_sequence))
                  (literal_text "t0")
                  (long_text (get_time_since_session_start_time a.start_time v)))
                (literal_text "s1") (int_text a.end_sequence))
              (literal_text "t1") (long_text (sub64 a.end_time a.start_time)))))

-- a pair for a number above -1
unfoldable pub add_if_set : Utf8String → Utf8String → ℕ → Utf8String
unfolding add_key_value_pair int_text slt32
add_if_set s key n = if slt32 (2 ^ 32 - 1) n then add_key_value_pair s key (int_text n) else s

unfoldable pub add_web_request : ℕ → WebRequest → BeaconView → Option Reported
unfolding checked is_web_request_tracing_allowed beacon_captures_data create_basic_event_data
    add_key_value_pair add_if_set int_text long_text get_time_since_session_start_time sub64
    add_traced
add_web_request parent w v =
    checked w.url (is_web_request_tracing_allowed v.privacy) (beacon_captures_data v) (do
      s ← create_basic_event_data 30 w.url v
      some (
          add_traced w.request_start v (
            add_if_set
              (add_if_set
                (add_if_set
                  (add_key_value_pair
                    (add_key_value_pair
                      (add_key_value_pair
                        (add_key_value_pair
                          (add_key_value_pair s (literal_text "pa") (int_text parent))
                          (literal_text "s0") (int_text w.start_sequence_no))
                        (literal_text "t0")
                        (long_text (get_time_since_session_start_time w.request_start v)))
                      (literal_text "s1") (int_text w.end_sequence_no))
                    (literal_text "t1") (long_text (sub64 w.request_end w.request_start)))
                  (literal_text "bs") w.bytes_sent)
                (literal_text "br") w.bytes_received)
              (literal_text "rc") w.status_of_answer)))

-- An operation that reports.
pub data Report : Type 0 where
  int_value : (action : ℕ) (name : Utf8String) (value : ℕ) → Report
  long_value : (action : ℕ) (name : Utf8String) (value : ℕ) → Report
  double_value : (action : ℕ) (name double_text : Utf8String) → Report
  string_value : (action : ℕ) (name value : Utf8String) → Report
  named_event : (action : ℕ) (name : Utf8String) → Report
  error_code : (action : ℕ) (name : Utf8String) (code_value : ℕ) → Report
  user : (tag : Utf8String) → Report
  action_left : ActionReport → Report
  web_request : (parent : ℕ) → WebRequest → Report
  session_start session_end : Report

unfoldable pub report : Report → BeaconView → Option Reported
unfolding report_int_value report_long_value report_double_value report_string_value report_event
    report_error_code identify_user start_session end_session_event add_action add_web_request
report (int_value action name value) v = report_int_value action name value v
report (long_value action name value) v = report_long_value action name value v
report (double_value action name double_text) v = report_double_value action name double_text v
report (string_value action name value) v = report_string_value action name value v
report (named_event action name) v = report_event action name v
report (error_code action name code_value) v = report_error_code action name code_value v
report (user tag) v = identify_user tag v
report (action_left a) v = add_action a v
report (web_request parent w) v = add_web_request parent w v
report session_start v = some (start_session v)
report session_end v = some (end_session_event v)
