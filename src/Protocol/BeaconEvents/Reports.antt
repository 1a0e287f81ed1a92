-- ===== src/Protocol/BeaconEvents/Reports.antt =====
-- protocol/Beacon.cxx: what each operation reports, and when.
use openkit_native.Prelude.{
  Bool, Bool-cases, Option, [], ap, append-nil, append_assoc, arith, false, if-false, if-true,
  if◌then◌else◌, inl, inr, ltb, none, not, refl, some, sub64, sym, true, ℕ, ◌&&◌, ◌++◌, ◌>>=◌, ◌||◌,
  ◌∙◌, ◌∷◌, ◌≡◌,
}
use openkit_native.Configuration.Privacy.{
  is_action_reporting_allowed, is_error_reporting_allowed, is_event_reporting_allowed,
  is_session_reporting_allowed, is_user_identification_allowed, is_value_reporting_allowed,
  is_web_request_tracing_allowed,
}
use openkit_native.Configuration.Server.{is_sending_errors_allowed}
use openkit_native.Protocol.BeaconEvents.{
  BeaconView, Reported, add_beacon_event_data, add_key_value_pair_if_not_empty, add_place,
  beacon_captures_data, beacon_captures_errors, build_event, create_basic_event_data,
  create_basic_event_data_without_name, create_sequence_number, event_added,
  get_time_since_session_start_time, int_text, invalid_argument, literal_text, long_text,
  not_reported,
}
use openkit_native.Protocol.BeaconEvents.Encoded.{add_key_value_pair-Written, encoded}
use openkit_native.Protocol.BeaconEvents.Written.{
  add_place-Written, basic_pairs, build_event-Written, create_basic_event_data_without_name-Written,
  name_pairs, place_pairs,
}
use openkit_native.Protocol.JsonResponse.{codes}
use openkit_native.Protocol.KeyValueResponse.{Pairs}
use openkit_native.Protocol.KeyValueResponse.Written.{pairs_text}
use openkit_native.Text.{Utf8String, empty_string, is_empty_string}
use openkit_native.Text.Parts.Plain.{plain_string}
use openkit_native.Protocol.BeaconEvents.Expected.{
  action_pairs, expected_event, expected_report, known_pairs, request_pairs, unless_empty,
  value_pairs,
}
use openkit_native.Caching.Eviction.{}
use openkit_native.Protocol.BeaconEvents.Traced.{add_all-Written, request-Written, traced}
use openkit_native.Protocol.BeaconEvents.Operations.{
  Report, action_left, checked, double_value, end_session_event, error_code, identify_user,
  int_value, long_value, named_event, report, report_double_value, report_error_code, report_event,
  report_int_value, report_long_value, report_string_value, session_end, session_start,
  start_session, string_value, user, web_request,
}

-- An event with what an operation adds to it.
module _ (name : Utf8String) (event_type parent : ℕ) (extra : Pairs) (v : BeaconView)
    (f : Utf8String → Utf8String)
    (h : (ps : Pairs) (s : Utf8String)
      → s ≡ plain_string (pairs_text ps)
      → f s ≡ plain_string (pairs_text (ps ++ extra))) where
  built :
      (allowed enabled : Bool)
      → (enabled ≡ true → beacon_captures_data v ≡ true)
      → (if not allowed || not enabled
          then some not_reported
          else (build_event event_type name parent v
              >>= (λ s. some (add_beacon_event_data v.now v (f s)))))
        ≡ expected_event
            (allowed && enabled)
            name
            event_type
            parent
            v.now
            (get_time_since_session_start_time v.now v)
            extra
            v
  unfolding expected_event add_beacon_event_data
  built false enabled e = refl
  built true false e = refl
  built true true e =
      ap (λ o. o >>= (λ s. some (add_beacon_event_data v.now v (f s))))
        (build_event-Written event_type name parent v)
      ∙ go (name_pairs name)
    where
      go :
          (o : Option Pairs)
          → ((o >>= (λ names. some (
                plain_string (
                  pairs_text (
                    (basic_pairs event_type v ++ names)
                    ++ place_pairs parent (get_time_since_session_start_time v.now v) v)))))
              >>= (λ s. some (add_beacon_event_data v.now v (f s))))
            ≡ (o >>= (λ names. some (
                event_added (create_sequence_number v) v.now (
                  plain_string (
                    pairs_text (
                      ((basic_pairs event_type v ++ names)
                        ++ place_pairs parent (get_time_since_session_start_time v.now v) v)
                      ++ extra))))))
      go none = refl
      go (some names) = ap some (
          if-true {b = beacon_captures_data v} _ _ (e refl)
          ∙ ap (event_added (create_sequence_number v) v.now) (
              h
                ((basic_pairs event_type v ++ names)
                  ++ place_pairs parent (get_time_since_session_start_time v.now v) v)
                (plain_string (
                  pairs_text (
                    (basic_pairs event_type v ++ names)
                    ++ place_pairs parent (get_time_since_session_start_time v.now v) v)))
                refl))

nothing_added :
    (ps : Pairs) (s : Utf8String)
    → s ≡ plain_string (pairs_text ps)
    → s ≡ plain_string (pairs_text (ps ++ []))
nothing_added ps s h = h ∙ ap (λ l. plain_string (pairs_text l)) (sym (append-nil ps))

errors-data : (v : BeaconView) → beacon_captures_errors v ≡ true → beacon_captures_data v ≡ true
unfolding beacon_captures_errors beacon_captures_data is_sending_errors_allowed
errors-data v h = ground arith

value-Written :
    (value : Utf8String) (ps : Pairs) (s : Utf8String)
    → s ≡ plain_string (pairs_text ps)
    → add_key_value_pair_if_not_empty s (literal_text "vl") value
      ≡ plain_string (pairs_text (ps ++ value_pairs value))
unfolding add_key_value_pair_if_not_empty value_pairs
value-Written value ps s h = elim (Bool-cases (ltb 0 value.string_length)) [
  | inl e ↦
      if-true {b = ltb 0 value.string_length} _ _ e
      ∙ add_key_value_pair-Written ps (codes "vl") value h
      ∙ ap (λ l. plain_string (pairs_text (ps ++ l)))
          (sym (if-true {b = ltb 0 value.string_length} _ _ e))
  | inr e ↦
      if-false {b = ltb 0 value.string_length} _ _ e
      ∙ nothing_added ps s h
      ∙ ap (λ l. plain_string (pairs_text (ps ++ l)))
          (sym (if-false {b = ltb 0 value.string_length} _ _ e))
]

-- An operation with a name: refused if the name is empty.
named_report :
    (name : Utf8String) {x y : Option Reported}
    → x ≡ y
    → (if is_empty_string name then some invalid_argument else x) ≡ unless_empty name y
unfolding unless_empty
named_report name e = ap (λ r. if is_empty_string name then some invalid_argument else r) e

placed :
    (o : Option Utf8String) (p : Utf8String → Utf8String) (g : Utf8String → Reported)
    → (o >>= (λ s. some (g (p s)))) ≡ ((o >>= (λ s. some (p s))) >>= (λ s. some (g s)))
placed none p g = refl
placed (some s) p g = refl

not_both : (a b : Bool) → (not a || not b) ≡ not (a && b)
not_both true b = refl
not_both false b = refl

second : (a b : Bool) → (a && b) ≡ true → b ≡ true
second true b e = e
second false b e = cc

-- The start or the end of a session.
session_event :
    (may : Bool) (event_type stamp time : ℕ) (v : BeaconView)
    → (may ≡ true → beacon_captures_data v ≡ true)
    → some (
        if not may
        then not_reported
        else add_beacon_event_data stamp v
            (add_place 0 time v (create_basic_event_data_without_name event_type v)))
      ≡ expected_event may empty_string event_type 0 stamp time [] v
unfolding expected_event name_pairs add_beacon_event_data is_empty_string
session_event false event_type stamp time v e = refl
session_event true event_type stamp time v e =
    let basic = basic_pairs event_type v in
    let place = place_pairs 0 time v in
    ap some (
      if-true {b = beacon_captures_data v} _ _ (e refl)
      ∙ ap (event_added (create_sequence_number v) stamp) (
          add_place-Written basic 0 time v
            (create_basic_event_data_without_name-Written event_type v)
          ∙ ap (λ l. plain_string (pairs_text l))
              (ap (λ l. l ++ place) (sym (append-nil basic))
                ∙ sym (append-nil ((basic ++ []) ++ place)))))

-- An operation refuses an empty name, reports nothing where the privacy settings or the server forbid it, and otherwise
-- adds an event with the pairs of its type, thread, name, place and values, the values percent-encoded, for each of the
-- eleven operations; all but actions and web requests take a sequence number. A user without a tag has an event without
-- a name.
pub report-expected : (r : Report) (v : BeaconView) → report r v ≡ expected_report r v
unfolding report expected_report checked report_int_value report_long_value report_double_value
    report_string_value report_event report_error_code identify_user start_session end_session_event
    encoded
report-expected (int_value action name value) v = named_report name (
    built name 12 action (encoded (codes "vl") (int_text value) ∷ []) v _
      (λ ps s h. add_key_value_pair-Written ps (codes "vl") (int_text value) h)
      (is_value_reporting_allowed v.privacy) (beacon_captures_data v) (λ e. e))
report-expected (long_value action name value) v = named_report name (
    built name 12 action (encoded (codes "vl") (long_text value) ∷ []) v _
      (λ ps s h. add_key_value_pair-Written ps (codes "vl") (long_text value) h)
      (is_value_reporting_allowed v.privacy) (beacon_captures_data v) (λ e. e))
report-expected (double_value action name double_text) v = named_report name (
    built name 13 action (encoded (codes "vl") double_text ∷ []) v _
      (λ ps s h. add_key_value_pair-Written ps (codes "vl") double_text h)
      (is_value_reporting_allowed v.privacy) (beacon_captures_data v) (λ e. e))
report-expected (string_value action name value) v = named_report name (
    built name 11 action (value_pairs value) v _ (value-Written value)
      (is_value_reporting_allowed v.privacy) (beacon_captures_data v) (λ e. e))
report-expected (named_event action name) v = named_report name (
    built name 10 action [] v (λ s. s) nothing_added (is_event_reporting_allowed v.privacy)
      (beacon_captures_data v) (λ e. e))
report-expected (error_code action name code_value) v = named_report name (
    built name 40 action
      (encoded (codes "ev") (int_text code_value) ∷ encoded (codes "tt") (literal_text "c") ∷ []) v
      _
      (λ ps s h.
        add_key_value_pair-Written (ps ++ encoded (codes "ev") (int_text code_value) ∷ [])
          (codes "tt") (literal_text "c")
          (add_key_value_pair-Written ps (codes "ev") (int_text code_value) h)
        ∙ ap (λ l. plain_string (pairs_text l))
            (append_assoc ps (encoded (codes "ev") (int_text code_value) ∷ [])
              (encoded (codes "tt") (literal_text "c") ∷ [])))
      (is_error_reporting_allowed v.privacy) (beacon_captures_errors v) (errors-data v))
report-expected (user tag) v =
    ap
      (λ r.
        if not (is_user_identification_allowed v.privacy) || not (beacon_captures_data v)
        then some not_reported
        else r)
      (placed (create_basic_event_data 60 tag v)
        (add_place 0 (get_time_since_session_start_time v.now v) v) (add_beacon_event_data v.now v))
    ∙ built tag 60 0 [] v (λ s. s) nothing_added (is_user_identification_allowed v.privacy)
        (beacon_captures_data v) (λ e. e)
report-expected (action_left a) v = named_report a.action_name (
    traced a.action_name 1 a.start_time (action_pairs a v) v _
      (add_all-Written (
        (codes "ca", int_text a.action_id)
        ∷ (codes "pa", int_text a.parent_id)
        ∷ (codes "s0", int_text a.start_sequence)
        ∷ (codes "t0", long_text (get_time_since_session_start_time a.start_time v))
        ∷ (codes "s1", int_text a.end_sequence)
        ∷ (codes "t1", long_text (sub64 a.end_time a.start_time))
        ∷ []))
      (is_action_reporting_allowed v.privacy) (beacon_captures_data v) (λ e. e))
report-expected (web_request parent w) v = named_report w.url (
    traced w.url 30 w.request_start (request_pairs parent w v ++ known_pairs w) v _
      (request-Written parent w v) (is_web_request_tracing_allowed v.privacy)
      (beacon_captures_data v) (λ e. e))
report-expected session_start v =
    session_event (beacon_captures_data v) 18 v.session_start_time 0 v (λ e. e)
report-expected session_end v =
    ap
      (λ b. some (
        if b
        then not_reported
        else add_beacon_event_data v.now v (
            add_place 0 (get_time_since_session_start_time v.now v) v
              (create_basic_event_data_without_name 19 v))))
      (not_both (is_session_reporting_allowed v.privacy) (beacon_captures_data v))
    ∙ session_event (is_session_reporting_allowed v.privacy && beacon_captures_data v) 19 v.now
        (get_time_since_session_start_time v.now v) v
        (second (is_session_reporting_allowed v.privacy) (beacon_captures_data v))
