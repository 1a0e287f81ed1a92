-- ===== src/Protocol/JsonResponse/Entries.antt =====
-- protocol/JsonResponseParser.cxx: the parser sets what the entries say.
use openkit_native.Prelude.{Bool, Option, false, none, refl, some, true, ℕ, ◌&&◌, ◌==◌, ◌||◌, ◌≡◌}
use openkit_native.Protocol.Attributes.{
  ResponseAttribute, ResponseAttributes, application_id, attribute_index, is_capture,
  is_capture_crashes, is_capture_errors, max_beacon_size, max_events_per_session,
  max_session_duration, multiplicity, send_interval, server_id, session_idle_timeout, status,
  timestamp, traffic_control_percentage, visit_store_version, with_application_id, with_capture,
  with_capture_crashes, with_capture_errors, with_max_beacon_size_in_bytes,
  with_max_events_per_session, with_max_session_duration_in_milliseconds, with_multiplicity,
  with_send_interval_in_milliseconds, with_server_id, with_session_timeout_in_milliseconds,
  with_status, with_timestamp_in_milliseconds, with_traffic_control_percentage,
  with_visit_store_version,
}
use openkit_native.Protocol.JsonResponse.{if_present}
use openkit_native.Protocol.JsonResponse.Settings.{is_some, value_or}
use openkit_native.Text.{Utf8String}

-- An attribute that one more entry may set.
abbrev pub also {ℓ} :
    {A : Type ℓ}
    → ResponseAttribute
    → Option A
    → (ResponseAttribute → Bool)
    → ResponseAttribute
    → Bool
also a o old b = ((attribute_index a == attribute_index b) && is_some o) || old b

pub and_false : (b c : Bool) → c ≡ ((b && false) || c)
and_false true c = refl
and_false false c = refl

and_true : (b c : Bool) → (b || c) ≡ ((b && true) || c)
and_true true c = refl
and_true false c = refl

pub or_false : (b : Bool) → (b || false) ≡ b
or_false true = refl
or_false false = refl

pub present-max_beacon_size {ℓ} :
    {A : Type ℓ} (f : A → ℕ) (o : Option A) (r : ResponseAttributes)
    → if_present (λ n. with_max_beacon_size_in_bytes (f n)) o r ≡ record r {
      max_beacon_size_in_bytes = value_or f r.max_beacon_size_in_bytes o;
      is_attribute_set = also max_beacon_size o r.is_attribute_set;
    }
unfolding if_present with_max_beacon_size_in_bytes value_or is_some
present-max_beacon_size f none r = λ i. record r {
  is_attribute_set = λ b.
      and_false (attribute_index max_beacon_size == attribute_index b) (r.is_attribute_set b) i;
}
present-max_beacon_size f (some x) r = λ i. record r {
  max_beacon_size_in_bytes = f x;
  is_attribute_set =
      λ b. and_true (attribute_index max_beacon_size == attribute_index b) (r.is_attribute_set b) i;
}

pub present-max_session_duration {ℓ} :
    {A : Type ℓ} (f : A → ℕ) (o : Option A) (r : ResponseAttributes)
    → if_present (λ n. with_max_session_duration_in_milliseconds (f n)) o r ≡ record r {
      max_session_duration_in_milliseconds = value_or f r.max_session_duration_in_milliseconds o;
      is_attribute_set = also max_session_duration o r.is_attribute_set;
    }
unfolding if_present with_max_session_duration_in_milliseconds value_or is_some
present-max_session_duration f none r = λ i. record r {
  is_attribute_set = λ b.
      and_false (attribute_index max_session_duration == attribute_index b) (r.is_attribute_set b)
        i;
}
present-max_session_duration f (some x) r = λ i. record r {
  max_session_duration_in_milliseconds = f x;
  is_attribute_set = λ b.
      and_true (attribute_index max_session_duration == attribute_index b) (r.is_attribute_set b) i;
}

pub present-max_events_per_session {ℓ} :
    {A : Type ℓ} (f : A → ℕ) (o : Option A) (r : ResponseAttributes)
    → if_present (λ n. with_max_events_per_session (f n)) o r ≡ record r {
      max_events_per_session_value = value_or f r.max_events_per_session_value o;
      is_attribute_set = also max_events_per_session o r.is_attribute_set;
    }
unfolding if_present with_max_events_per_session value_or is_some
present-max_events_per_session f none r = λ i. record r {
  is_attribute_set = λ b.
      and_false (attribute_index max_events_per_session == attribute_index b) (r.is_attribute_set b)
        i;
}
present-max_events_per_session f (some x) r = λ i. record r {
  max_events_per_session_value = f x;
  is_attribute_set = λ b.
      and_true (attribute_index max_events_per_session == attribute_index b) (r.is_attribute_set b)
        i;
}

pub present-session_idle_timeout {ℓ} :
    {A : Type ℓ} (f : A → ℕ) (o : Option A) (r : ResponseAttributes)
    → if_present (λ n. with_session_timeout_in_milliseconds (f n)) o r ≡ record r {
      session_timeout_in_milliseconds = value_or f r.session_timeout_in_milliseconds o;
      is_attribute_set = also session_idle_timeout o r.is_attribute_set;
    }
unfolding if_present with_session_timeout_in_milliseconds value_or is_some
present-session_idle_timeout f none r = λ i. record r {
  is_attribute_set = λ b.
      and_false (attribute_index session_idle_timeout == attribute_index b) (r.is_attribute_set b)
        i;
}
present-session_idle_timeout f (some x) r = λ i. record r {
  session_timeout_in_milliseconds = f x;
  is_attribute_set = λ b.
      and_true (attribute_index session_idle_timeout == attribute_index b) (r.is_attribute_set b) i;
}

pub present-send_interval {ℓ} :
    {A : Type ℓ} (f : A → ℕ) (o : Option A) (r : ResponseAttributes)
    → if_present (λ n. with_send_interval_in_milliseconds (f n)) o r ≡ record r {
      send_interval_in_milliseconds = value_or f r.send_interval_in_milliseconds o;
      is_attribute_set = also send_interval o r.is_attribute_set;
    }
unfolding if_present with_send_interval_in_milliseconds value_or is_some
present-send_interval f none r = λ i. record r {
  is_attribute_set =
      λ b. and_false (attribute_index send_interval == attribute_index b) (r.is_attribute_set b) i;
}
present-send_interval f (some x) r = λ i. record r {
  send_interval_in_milliseconds = f x;
  is_attribute_set =
      λ b. and_true (attribute_index send_interval == attribute_index b) (r.is_attribute_set b) i;
}

pub present-visit_store_version {ℓ} :
    {A : Type ℓ} (f : A → ℕ) (o : Option A) (r : ResponseAttributes)
    → if_present (λ n. with_visit_store_version (f n)) o r ≡ record r {
      visit_store_version_value = value_or f r.visit_store_version_value o;
      is_attribute_set = also visit_store_version o r.is_attribute_set;
    }
unfolding if_present with_visit_store_version value_or is_some
present-visit_store_version f none r = λ i. record r {
  is_attribute_set = λ b.
      and_false (attribute_index visit_store_version == attribute_index b) (r.is_attribute_set b) i;
}
present-visit_store_version f (some x) r = λ i. record r {
  visit_store_version_value = f x;
  is_attribute_set = λ b.
      and_true (attribute_index visit_store_version == attribute_index b) (r.is_attribute_set b) i;
}

pub present-is_capture {ℓ} :
    {A : Type ℓ} (f : A → Bool) (o : Option A) (r : ResponseAttributes)
    → if_present (λ n. with_capture (f n)) o r ≡ record r {
      capture = value_or f r.capture o;
      is_attribute_set = also is_capture o r.is_attribute_set;
    }
unfolding if_present with_capture value_or is_some
present-is_capture f none r = λ i. record r {
  is_attribute_set =
      λ b. and_false (attribute_index is_capture == attribute_index b) (r.is_attribute_set b) i;
}
present-is_capture f (some x) r = λ i. record r {
  capture = f x;
  is_attribute_set =
      λ b. and_true (attribute_index is_capture == attribute_index b) (r.is_attribute_set b) i;
}

pub present-is_capture_crashes {ℓ} :
    {A : Type ℓ} (f : A → Bool) (o : Option A) (r : ResponseAttributes)
    → if_present (λ n. with_capture_crashes (f n)) o r ≡ record r {
      capture_crashes = value_or f r.capture_crashes o;
      is_attribute_set = also is_capture_crashes o r.is_attribute_set;
    }
unfolding if_present with_capture_crashes value_or is_some
present-is_capture_crashes f none r = λ i. record r {
  is_attribute_set = λ b.
      and_false (attribute_index is_capture_crashes == attribute_index b) (r.is_attribute_set b) i;
}
present-is_capture_crashes f (some x) r = λ i. record r {
  capture_crashes = f x;
  is_attribute_set = λ b.
      and_true (attribute_index is_capture_crashes == attribute_index b) (r.is_attribute_set b) i;
}

pub present-is_capture_errors {ℓ} :
    {A : Type ℓ} (f : A → Bool) (o : Option A) (r : ResponseAttributes)
    → if_present (λ n. with_capture_errors (f n)) o r ≡ record r {
      capture_errors = value_or f r.capture_errors o;
      is_attribute_set = also is_capture_errors o r.is_attribute_set;
    }
unfolding if_present with_capture_errors value_or is_some
present-is_capture_errors f none r = λ i. record r {
  is_attribute_set = λ b.
      and_false (attribute_index is_capture_errors == attribute_index b) (r.is_attribute_set b) i;
}
present-is_capture_errors f (some x) r = λ i. record r {
  capture_errors = f x;
  is_attribute_set = λ b.
      and_true (attribute_index is_capture_errors == attribute_index b) (r.is_attribute_set b) i;
}

pub present-traffic_control_percentage {ℓ} :
    {A : Type ℓ} (f : A → ℕ) (o : Option A) (r : ResponseAttributes)
    → if_present (λ n. with_traffic_control_percentage (f n)) o r ≡ record r {
      traffic_control_percentage_value = value_or f r.traffic_control_percentage_value o;
      is_attribute_set = also traffic_control_percentage o r.is_attribute_set;
    }
unfolding if_present with_traffic_control_percentage value_or is_some
present-traffic_control_percentage f none r = λ i. record r {
  is_attribute_set = λ b.
      and_false (attribute_index traffic_control_percentage == attribute_index b)
        (r.is_attribute_set b) i;
}
present-traffic_control_percentage f (some x) r = λ i. record r {
  traffic_control_percentage_value = f x;
  is_attribute_set = λ b.
      and_true (attribute_index traffic_control_percentage == attribute_index b)
        (r.is_attribute_set b) i;
}

pub present-application_id {ℓ} :
    {A : Type ℓ} (f : A → Utf8String) (o : Option A) (r : ResponseAttributes)
    → if_present (λ n. with_application_id (f n)) o r ≡ record r {
      application_id_value = value_or f r.application_id_value o;
      is_attribute_set = also application_id o r.is_attribute_set;
    }
unfolding if_present with_application_id value_or is_some
present-application_id f none r = λ i. record r {
  is_attribute_set =
      λ b. and_false (attribute_index application_id == attribute_index b) (r.is_attribute_set b) i;
}
present-application_id f (some x) r = λ i. record r {
  application_id_value = f x;
  is_attribute_set =
      λ b. and_true (attribute_index application_id == attribute_index b) (r.is_attribute_set b) i;
}

pub present-multiplicity {ℓ} :
    {A : Type ℓ} (f : A → ℕ) (o : Option A) (r : ResponseAttributes)
    → if_present (λ n. with_multiplicity (f n)) o r ≡ record r {
      multiplicity_value = value_or f r.multiplicity_value o;
      is_attribute_set = also multiplicity o r.is_attribute_set;
    }
unfolding if_present with_multiplicity value_or is_some
present-multiplicity f none r = λ i. record r {
  is_attribute_set =
      λ b. and_false (attribute_index multiplicity == attribute_index b) (r.is_attribute_set b) i;
}
present-multiplicity f (some x) r = λ i. record r {
  multiplicity_value = f x;
  is_attribute_set =
      λ b. and_true (attribute_index multiplicity == attribute_index b) (r.is_attribute_set b) i;
}

pub present-server_id {ℓ} :
    {A : Type ℓ} (f : A → ℕ) (o : Option A) (r : ResponseAttributes)
    → if_present (λ n. with_server_id (f n)) o r ≡ record r {
      server_id_value = value_or f r.server_id_value o;
      is_attribute_set = also server_id o r.is_attribute_set;
    }
unfolding if_present with_server_id value_or is_some
present-server_id f none r = λ i. record r {
  is_attribute_set =
      λ b. and_false (attribute_index server_id == attribute_index b) (r.is_attribute_set b) i;
}
present-server_id f (some x) r = λ i. record r {
  server_id_value = f x;
  is_attribute_set =
      λ b. and_true (attribute_index server_id == attribute_index b) (r.is_attribute_set b) i;
}

pub present-status {ℓ} :
    {A : Type ℓ} (f : A → Utf8String) (o : Option A) (r : ResponseAttributes)
    → if_present (λ n. with_status (f n)) o r ≡ record r {
      status_value = value_or f r.status_value o;
      is_attribute_set = also status o r.is_attribute_set;
    }
unfolding if_present with_status value_or is_some
present-status f none r = λ i. record r {
  is_attribute_set =
      λ b. and_false (attribute_index status == attribute_index b) (r.is_attribute_set b) i;
}
present-status f (some x) r = λ i. record r {
  status_value = f x;
  is_attribute_set =
      λ b. and_true (attribute_index status == attribute_index b) (r.is_attribute_set b) i;
}

pub present-timestamp {ℓ} :
    {A : Type ℓ} (f : A → ℕ) (o : Option A) (r : ResponseAttributes)
    → if_present (λ n. with_timestamp_in_milliseconds (f n)) o r ≡ record r {
      timestamp_in_milliseconds = value_or f r.timestamp_in_milliseconds o;
      is_attribute_set = also timestamp o r.is_attribute_set;
    }
unfolding if_present with_timestamp_in_milliseconds value_or is_some
present-timestamp f none r = λ i. record r {
  is_attribute_set =
      λ b. and_false (attribute_index timestamp == attribute_index b) (r.is_attribute_set b) i;
}
present-timestamp f (some x) r = λ i. record r {
  timestamp_in_milliseconds = f x;
  is_attribute_set =
      λ b. and_true (attribute_index timestamp == attribute_index b) (r.is_attribute_set b) i;
}
