-- ===== src/Protocol/Attributes/Apply.antt =====
-- protocol/ResponseAttributes.cxx: each `apply` function as an update of its attribute's value and
-- of the set.
use mathlib.Core.Path.{fun_ext}
use openkit_native.Prelude.{
  Bool, Bool-cases, ap, false, if◌then◌else◌, inl, inr, refl, true, ◌&&◌, ◌==◌, ◌||◌, ◌≡◌,
}
use openkit_native.Protocol.Attributes.{
  ResponseAttribute, ResponseAttributes, application_id, apply_application_id, apply_beacon_size,
  apply_capture, apply_capture_crashes, apply_capture_errors, apply_events_per_session,
  apply_multiplicity, apply_send_interval, apply_server_id, apply_session_duration,
  apply_session_timeout, apply_status, apply_timestamp, apply_traffic_control_percentage,
  apply_visit_store_version, attribute_index, is_capture, is_capture_crashes, is_capture_errors,
  max_beacon_size, max_events_per_session, max_session_duration, multiplicity, send_interval,
  server_id, session_idle_timeout, status, timestamp, traffic_control_percentage,
  visit_store_version,
}

and_true : (b : Bool) → (b && true) ≡ b
and_true true = refl
and_true false = refl

and_false : (b : Bool) → (b && false) ≡ false
and_false true = refl
and_false false = refl

-- The attributes that are set once one more may have been set.
abbrev pub joined : ResponseAttribute → Bool → (ResponseAttribute → Bool) → ResponseAttribute → Bool
joined a new old b = ((attribute_index a == attribute_index b) && new) || old b

joined-true :
    (a : ResponseAttribute) (old : ResponseAttribute → Bool)
    → joined a true old ≡ (λ b. (attribute_index a == attribute_index b) || old b)
joined-true a old =
    fun_ext (λ b. ap (λ t. t || old b) (and_true (attribute_index a == attribute_index b)))

joined-false : (a : ResponseAttribute) (old : ResponseAttribute → Bool) → joined a false old ≡ old
joined-false a old =
    fun_ext (λ b. ap (λ t. t || old b) (and_false (attribute_index a == attribute_index b)))

pub apply_beacon_size-eq :
    (s b : ResponseAttributes)
    → apply_beacon_size s b ≡ record b {
      max_beacon_size_in_bytes =
          if s.is_attribute_set max_beacon_size
          then s.max_beacon_size_in_bytes
          else b.max_beacon_size_in_bytes;
      is_attribute_set =
          joined max_beacon_size (s.is_attribute_set max_beacon_size) b.is_attribute_set;
    }
unfolding apply_beacon_size
apply_beacon_size-eq s b = elim (Bool-cases (s.is_attribute_set max_beacon_size)) [
  | inl new ↦ rw (new, joined-true max_beacon_size b.is_attribute_set)
  | inr old ↦ rw (old, joined-false max_beacon_size b.is_attribute_set)
]

pub apply_session_duration-eq :
    (s b : ResponseAttributes)
    → apply_session_duration s b ≡ record b {
      max_session_duration_in_milliseconds =
          if s.is_attribute_set max_session_duration
          then s.max_session_duration_in_milliseconds
          else b.max_session_duration_in_milliseconds;
      is_attribute_set =
          joined max_session_duration (s.is_attribute_set max_session_duration) b.is_attribute_set;
    }
unfolding apply_session_duration
apply_session_duration-eq s b = elim (Bool-cases (s.is_attribute_set max_session_duration)) [
  | inl new ↦ rw (new, joined-true max_session_duration b.is_attribute_set)
  | inr old ↦ rw (old, joined-false max_session_duration b.is_attribute_set)
]

pub apply_events_per_session-eq :
    (s b : ResponseAttributes)
    → apply_events_per_session s b ≡ record b {
      max_events_per_session_value =
          if s.is_attribute_set max_events_per_session
          then s.max_events_per_session_value
          else b.max_events_per_session_value;
      is_attribute_set =
          joined max_events_per_session
            (s.is_attribute_set max_events_per_session)
            b.is_attribute_set;
    }
unfolding apply_events_per_session
apply_events_per_session-eq s b = elim (Bool-cases (s.is_attribute_set max_events_per_session)) [
  | inl new ↦ rw (new, joined-true max_events_per_session b.is_attribute_set)
  | inr old ↦ rw (old, joined-false max_events_per_session b.is_attribute_set)
]

pub apply_session_timeout-eq :
    (s b : ResponseAttributes)
    → apply_session_timeout s b ≡ record b {
      session_timeout_in_milliseconds =
          if s.is_attribute_set session_idle_timeout
          then s.session_timeout_in_milliseconds
          else b.session_timeout_in_milliseconds;
      is_attribute_set =
          joined session_idle_timeout (s.is_attribute_set session_idle_timeout) b.is_attribute_set;
    }
unfolding apply_session_timeout
apply_session_timeout-eq s b = elim (Bool-cases (s.is_attribute_set session_idle_timeout)) [
  | inl new ↦ rw (new, joined-true session_idle_timeout b.is_attribute_set)
  | inr old ↦ rw (old, joined-false session_idle_timeout b.is_attribute_set)
]

pub apply_send_interval-eq :
    (s b : ResponseAttributes)
    → apply_send_interval s b ≡ record b {
      send_interval_in_milliseconds =
          if s.is_attribute_set send_interval
          then s.send_interval_in_milliseconds
          else b.send_interval_in_milliseconds;
      is_attribute_set = joined send_interval (s.is_attribute_set send_interval) b.is_attribute_set;
    }
unfolding apply_send_interval
apply_send_interval-eq s b = elim (Bool-cases (s.is_attribute_set send_interval)) [
  | inl new ↦ rw (new, joined-true send_interval b.is_attribute_set)
  | inr old ↦ rw (old, joined-false send_interval b.is_attribute_set)
]

pub apply_visit_store_version-eq :
    (s b : ResponseAttributes)
    → apply_visit_store_version s b ≡ record b {
      visit_store_version_value =
          if s.is_attribute_set visit_store_version
          then s.visit_store_version_value
          else b.visit_store_version_value;
      is_attribute_set =
          joined visit_store_version (s.is_attribute_set visit_store_version) b.is_attribute_set;
    }
unfolding apply_visit_store_version
apply_visit_store_version-eq s b = elim (Bool-cases (s.is_attribute_set visit_store_version)) [
  | inl new ↦ rw (new, joined-true visit_store_version b.is_attribute_set)
  | inr old ↦ rw (old, joined-false visit_store_version b.is_attribute_set)
]

pub apply_capture-eq :
    (s b : ResponseAttributes)
    → apply_capture s b ≡ record b {
      capture = if s.is_attribute_set is_capture then s.capture else b.capture;
      is_attribute_set = joined is_capture (s.is_attribute_set is_capture) b.is_attribute_set;
    }
unfolding apply_capture
apply_capture-eq s b = elim (Bool-cases (s.is_attribute_set is_capture)) [
  | inl new ↦ rw (new, joined-true is_capture b.is_attribute_set)
  | inr old ↦ rw (old, joined-false is_capture b.is_attribute_set)
]

pub apply_capture_crashes-eq :
    (s b : ResponseAttributes)
    → apply_capture_crashes s b ≡ record b {
      capture_crashes =
          if s.is_attribute_set is_capture_crashes then s.capture_crashes else b.capture_crashes;
      is_attribute_set =
          joined is_capture_crashes (s.is_attribute_set is_capture_crashes) b.is_attribute_set;
    }
unfolding apply_capture_crashes
apply_capture_crashes-eq s b = elim (Bool-cases (s.is_attribute_set is_capture_crashes)) [
  | inl new ↦ rw (new, joined-true is_capture_crashes b.is_attribute_set)
  | inr old ↦ rw (old, joined-false is_capture_crashes b.is_attribute_set)
]

pub apply_capture_errors-eq :
    (s b : ResponseAttributes)
    → apply_capture_errors s b ≡ record b {
      capture_errors =
          if s.is_attribute_set is_capture_errors then s.capture_errors else b.capture_errors;
      is_attribute_set =
          joined is_capture_errors (s.is_attribute_set is_capture_errors) b.is_attribute_set;
    }
unfolding apply_capture_errors
apply_capture_errors-eq s b = elim (Bool-cases (s.is_attribute_set is_capture_errors)) [
  | inl new ↦ rw (new, joined-true is_capture_errors b.is_attribute_set)
  | inr old ↦ rw (old, joined-false is_capture_errors b.is_attribute_set)
]

pub apply_traffic_control_percentage-eq :
    (s b : ResponseAttributes)
    → apply_traffic_control_percentage s b ≡ record b {
      traffic_control_percentage_value =
          if s.is_attribute_set traffic_control_percentage
          then s.traffic_control_percentage_value
          else b.traffic_control_percentage_value;
      is_attribute_set =
          joined traffic_control_percentage
            (s.is_attribute_set traffic_control_percentage)
            b.is_attribute_set;
    }
unfolding apply_traffic_control_percentage
apply_traffic_control_percentage-eq s b =
    elim (Bool-cases (s.is_attribute_set traffic_control_percentage)) [
      | inl new ↦ rw (new, joined-true traffic_control_percentage b.is_attribute_set)
      | inr old ↦ rw (old, joined-false traffic_control_percentage b.is_attribute_set)
    ]

pub apply_application_id-eq :
    (s b : ResponseAttributes)
    → apply_application_id s b ≡ record b {
      application_id_value =
          if s.is_attribute_set application_id
          then s.application_id_value
          else b.application_id_value;
      is_attribute_set =
          joined application_id (s.is_attribute_set application_id) b.is_attribute_set;
    }
unfolding apply_application_id
apply_application_id-eq s b = elim (Bool-cases (s.is_attribute_set application_id)) [
  | inl new ↦ rw (new, joined-true application_id b.is_attribute_set)
  | inr old ↦ rw (old, joined-false application_id b.is_attribute_set)
]

pub apply_multiplicity-eq :
    (s b : ResponseAttributes)
    → apply_multiplicity s b ≡ record b {
      multiplicity_value =
          if s.is_attribute_set multiplicity then s.multiplicity_value else b.multiplicity_value;
      is_attribute_set = joined multiplicity (s.is_attribute_set multiplicity) b.is_attribute_set;
    }
unfolding apply_multiplicity
apply_multiplicity-eq s b = elim (Bool-cases (s.is_attribute_set multiplicity)) [
  | inl new ↦ rw (new, joined-true multiplicity b.is_attribute_set)
  | inr old ↦ rw (old, joined-false multiplicity b.is_attribute_set)
]

pub apply_server_id-eq :
    (s b : ResponseAttributes)
    → apply_server_id s b ≡ record b {
      server_id_value =
          if s.is_attribute_set server_id then s.server_id_value else b.server_id_value;
      is_attribute_set = joined server_id (s.is_attribute_set server_id) b.is_attribute_set;
    }
unfolding apply_server_id
apply_server_id-eq s b = elim (Bool-cases (s.is_attribute_set server_id)) [
  | inl new ↦ rw (new, joined-true server_id b.is_attribute_set)
  | inr old ↦ rw (old, joined-false server_id b.is_attribute_set)
]

pub apply_status-eq :
    (s b : ResponseAttributes)
    → apply_status s b ≡ record b {
      status_value = if s.is_attribute_set status then s.status_value else b.status_value;
      is_attribute_set = joined status (s.is_attribute_set status) b.is_attribute_set;
    }
unfolding apply_status
apply_status-eq s b = elim (Bool-cases (s.is_attribute_set status)) [
  | inl new ↦ rw (new, joined-true status b.is_attribute_set)
  | inr old ↦ rw (old, joined-false status b.is_attribute_set)
]

pub apply_timestamp-eq :
    (s b : ResponseAttributes)
    → apply_timestamp s b ≡ record b {
      timestamp_in_milliseconds =
          if s.is_attribute_set timestamp
          then s.timestamp_in_milliseconds
          else b.timestamp_in_milliseconds;
      is_attribute_set = joined timestamp (s.is_attribute_set timestamp) b.is_attribute_set;
    }
unfolding apply_timestamp
apply_timestamp-eq s b = elim (Bool-cases (s.is_attribute_set timestamp)) [
  | inl new ↦ rw (new, joined-true timestamp b.is_attribute_set)
  | inr old ↦ rw (old, joined-false timestamp b.is_attribute_set)
]
