-- ===== src/Configuration/Server/Merge.antt =====
-- core/configuration/ServerConfiguration.cxx: what updates keep, and what they leave to the server.
use openkit_native.Prelude.{Bool, false, refl, true, ℕ, ◌&&◌, ◌≡◌}
use openkit_native.Configuration.Server.{
  ServerConfiguration, from_configuration, is_session_split_by_events_enabled,
  is_session_split_by_idle_timeout_enabled, is_session_split_by_session_duration_enabled,
  merge_configuration, with_capture_state,
}

-- What a beacon keeps from its first configuration on, as the getters report it.
pub record Fixed : Type 0 where
  pub server : ℕ
  pub multiplicity_kept : ℕ
  pub duration : ℕ
  pub events : ℕ
  pub timeout : ℕ
  pub split_by_duration : Bool
  pub split_by_events : Bool
  pub split_by_timeout : Bool
  pub store_version : ℕ
  pub traffic_control : ℕ

unfoldable pub fixed_of : ServerConfiguration → Fixed
fixed_of c = record {
  server = c.server_id_value;
  multiplicity_kept = c.multiplicity_value;
  duration = c.max_session_duration_in_milliseconds;
  events = c.max_events_per_session_value;
  timeout = c.session_timeout_in_milliseconds;
  split_by_duration = is_session_split_by_session_duration_enabled c;
  split_by_events = is_session_split_by_events_enabled c;
  split_by_timeout = is_session_split_by_idle_timeout_enabled c;
  store_version = c.visit_store_version_value;
  traffic_control = c.traffic_control_percentage_value;
}

and_twice : (a b : Bool) → ((a && b) && b) ≡ (a && b)
and_twice true true = refl
and_twice true false = refl
and_twice false true = refl
and_twice false false = refl

pub fixed_of-from_configuration :
    (c : ServerConfiguration) → fixed_of (from_configuration c) ≡ fixed_of c
unfolding fixed_of from_configuration
fixed_of-from_configuration c = rw (and_twice, and_twice, and_twice)

pub fixed_of-with_capture_state :
    (state : Bool) (c : ServerConfiguration) → fixed_of (with_capture_state state c) ≡ fixed_of c
unfolding fixed_of with_capture_state is_session_split_by_session_duration_enabled
    is_session_split_by_events_enabled is_session_split_by_idle_timeout_enabled
fixed_of-with_capture_state state c = refl

-- A merge keeps the fixed part.
pub fixed_of-merge : (c d : ServerConfiguration) → fixed_of (merge_configuration c d) ≡ fixed_of c
unfolding fixed_of merge_configuration
fixed_of-merge c d = rw (and_twice, and_twice, and_twice)

-- Of two configurations that are merged in one after the other, only the last one counts.
pub merge-merge :
    (c d e : ServerConfiguration)
    → merge_configuration (merge_configuration c d) e ≡ merge_configuration c e
unfolding merge_configuration
merge-merge c d e = rw (and_twice, and_twice, and_twice)
