-- ===== src/Protocol/BeaconEvents/Expected.antt =====
-- protocol/Beacon.cxx: what each operation should report.
use openkit_native.Prelude.{
  Bool, List, Option, [], if◌then◌else◌, ltb, not, slt32, some, sub64, ℕ, ◌&&◌, ◌++◌, ◌-◌, ◌>>=◌,
  ◌^◌, ◌∷◌,
}
use openkit_native.Configuration.Privacy.{
  is_action_reporting_allowed, is_error_reporting_allowed, is_event_reporting_allowed,
  is_session_reporting_allowed, is_user_identification_allowed, is_value_reporting_allowed,
  is_web_request_tracing_allowed,
}
use openkit_native.Protocol.BeaconEvents.{
  BeaconView, Reported, beacon_captures_data, beacon_captures_errors, create_sequence_number,
  event_added, get_time_since_session_start_time, int_text, invalid_argument, literal_text,
  long_text, not_reported,
}
use openkit_native.Protocol.BeaconEvents.Encoded.{encoded}
use openkit_native.Protocol.BeaconEvents.Written.{basic_pairs, name_pairs, place_pairs}
use openkit_native.Protocol.JsonResponse.{codes}
use openkit_native.Protocol.KeyValueResponse.{Pairs}
use openkit_native.Protocol.KeyValueResponse.Written.{pairs_text}
use openkit_native.Text.{Utf8String, empty_string, is_empty_string}
use openkit_native.Text.Parts.Plain.{plain_string}
use openkit_native.Caching.Eviction.{}
use openkit_native.Protocol.BeaconEvents.Operations.{
  ActionReport, Report, WebRequest, action_left, double_value, error_code, int_value, long_value,
  named_event, session_end, session_start, string_value, user, web_request,
}

-- Where nothing forbids it: the event with its type, thread, name, place and further pairs.
unfoldable pub expected_event :
    (may : Bool) (name : Utf8String) (event_type parent stamp time : ℕ) (extra : Pairs)
    → BeaconView
    → Option Reported
unfolding name_pairs basic_pairs place_pairs pairs_text create_sequence_number
expected_event may name event_type parent stamp time extra v =
    if not may then some not_reported else (do
      names ← name_pairs name
      some (
          event_added (create_sequence_number v) stamp (
            plain_string (
              pairs_text
                (((basic_pairs event_type v ++ names) ++ place_pairs parent time v) ++ extra)))))

unfoldable pub value_pairs : Utf8String → Pairs
unfolding encoded
value_pairs value = if ltb 0 value.string_length then encoded (codes "vl") value ∷ [] else []

-- Actions and web requests have sequence numbers of their own.
unfoldable pub expected_trace :
    (may : Bool) (name : Utf8String) (event_type stamp : ℕ) (pairs : Pairs)
    → BeaconView
    → Option Reported
unfolding name_pairs basic_pairs pairs_text
expected_trace may name event_type stamp pairs v = if not may then some not_reported else (do
  names ← name_pairs name
  some (
      event_added v.sequence_number stamp
        (plain_string (pairs_text ((basic_pairs event_type v ++ names) ++ pairs)))))

unfoldable pub action_pairs : ActionReport → BeaconView → Pairs
unfolding encoded int_text long_text get_time_since_session_start_time sub64
action_pairs a v =
    encoded (codes "ca") (int_text a.action_id)
    ∷ encoded (codes "pa") (int_text a.parent_id)
    ∷ encoded (codes "s0") (int_text a.start_sequence)
    ∷ encoded (codes "t0") (long_text (get_time_since_session_start_time a.start_time v))
    ∷ encoded (codes "s1") (int_text a.end_sequence)
    ∷ encoded (codes "t1") (long_text (sub64 a.end_time a.start_time))
    ∷ []

-- A number that is known is above -1.
unfoldable pub set_pairs : List ℕ → ℕ → Pairs
unfolding encoded int_text slt32
set_pairs key n = if slt32 (2 ^ 32 - 1) n then encoded key (int_text n) ∷ [] else []

unfoldable pub request_pairs : ℕ → WebRequest → BeaconView → Pairs
unfolding encoded int_text long_text get_time_since_session_start_time sub64
request_pairs parent w v =
    encoded (codes "pa") (int_text parent)
    ∷ encoded (codes "s0") (int_text w.start_sequence_no)
    ∷ encoded (codes "t0") (long_text (get_time_since_session_start_time w.request_start v))
    ∷ encoded (codes "s1") (int_text w.end_sequence_no)
    ∷ encoded (codes "t1") (long_text (sub64 w.request_end w.request_start))
    ∷ []

unfoldable pub known_pairs : WebRequest → Pairs
unfolding set_pairs
known_pairs w =
    set_pairs (codes "bs") w.bytes_sent
    ++ (set_pairs (codes "br") w.bytes_received ++ set_pairs (codes "rc") w.status_of_answer)

unfoldable pub unless_empty : Utf8String → Option Reported → Option Reported
unfolding is_empty_string
unless_empty name r = if is_empty_string name then some invalid_argument else r

-- What an operation should report.
unfoldable pub expected_report : Report → BeaconView → Option Reported
unfolding unless_empty expected_event expected_trace value_pairs action_pairs request_pairs
    known_pairs is_action_reporting_allowed is_web_request_tracing_allowed
    is_value_reporting_allowed is_event_reporting_allowed is_error_reporting_allowed
    is_user_identification_allowed is_session_reporting_allowed beacon_captures_errors
    beacon_captures_data get_time_since_session_start_time encoded long_text int_text
expected_report r v =
    let time = get_time_since_session_start_time v.now v in
    let captures = beacon_captures_data v in
    let values = is_value_reporting_allowed v.privacy && captures in
    elim r [
      | int_value action name value ↦ unless_empty name (
          expected_event values name 12 action v.now time
            (encoded (codes "vl") (int_text value) ∷ []) v)
      | long_value action name value ↦ unless_empty name (
          expected_event values name 12 action v.now time
            (encoded (codes "vl") (long_text value) ∷ []) v)
      | double_value action name double_text ↦ unless_empty name (
          expected_event values name 13 action v.now time (encoded (codes "vl") double_text ∷ []) v)
      | string_value action name value ↦
          unless_empty name (expected_event values name 11 action v.now time (value_pairs value) v)
      | named_event action name ↦ unless_empty name (
          expected_event (is_event_reporting_allowed v.privacy && captures) name 10 action v.now
            time [] v)
      | error_code action name code_value ↦ unless_empty name (
          expected_event (is_error_reporting_allowed v.privacy && beacon_captures_errors v) name 40
            action v.now time
            (encoded (codes "ev") (int_text code_value)
              ∷ encoded (codes "tt") (literal_text "c")
              ∷ [])
            v)
      | user tag ↦
          expected_event (is_user_identification_allowed v.privacy && captures) tag 60 0 v.now time
            [] v
      | action_left a ↦ unless_empty a.action_name (
          expected_trace (is_action_reporting_allowed v.privacy && captures) a.action_name 1
            a.start_time (action_pairs a v) v)
      | web_request parent w ↦ unless_empty w.url (
          expected_trace (is_web_request_tracing_allowed v.privacy && captures) w.url 30
            w.request_start (request_pairs parent w v ++ known_pairs w) v)
      | session_start ↦ expected_event captures empty_string 18 0 v.session_start_time 0 [] v
      | session_end ↦
          expected_event (is_session_reporting_allowed v.privacy && captures) empty_string 19 0
            v.now time [] v
    ]
