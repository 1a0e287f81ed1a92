-- ===== src/Objects/SessionProxy.antt =====
-- core/objects/SessionProxy.cxx: when the current session is split. The server configuration is the one of the
-- first update, with what later updates may change; `split_requests` counts the calls of
-- `addToSplitByTimeout`. `session_start_time` is what the beacon of the current session returns.
use openkit_native.Prelude.{
  Bool, Option, add64, false, if◌then◌else◌, none, not, sign_extend32, slt32, some, ℕ, ◌%◌, ◌&&◌,
  ◌+◌, ◌-◌, ◌^◌, ◌||◌,
}
use openkit_native.Configuration.Server.{
  ServerConfiguration, is_session_split_by_events_enabled, is_session_split_by_idle_timeout_enabled,
  is_session_split_by_session_duration_enabled, merge_configuration,
}
use openkit_native.Watchdog.{min64}
pub mod Splitting
pub mod Updates

pub record SessionProxy : Type 0 where
  pub proxy_configuration : Option ServerConfiguration
  pub top_level_action_count : ℕ
  pub last_interaction_time : ℕ
  pub session_start_time : ℕ
  pub is_proxy_finished : Bool
  pub split_requests : ℕ

abbrev pub new_session_proxy : SessionProxy
new_session_proxy = record {
  proxy_configuration = none;
  top_level_action_count = 0;
  last_interaction_time = 0;
  session_start_time = 0;
  is_proxy_finished = false;
  split_requests = 0;
}

-- `addToSplitByTimeout` ignores a finished proxy, and so does this.
unfoldable pub on_server_configuration_update : ServerConfiguration → SessionProxy → SessionProxy
on_server_configuration_update c p = elim p.proxy_configuration [
  | some old ↦ record p { proxy_configuration = some (merge_configuration old c) }
  | none ↦
      let configured = record p { proxy_configuration = some c } in
      if p.is_proxy_finished
      then configured
      else if is_session_split_by_session_duration_enabled c
          || is_session_split_by_idle_timeout_enabled c
      then record configured { split_requests = p.split_requests + 1 }
      else configured
]

-- `mTopLevelActionCount` is an `int32_t`.
unfoldable pub record_top_level_action_event : ℕ → SessionProxy → SessionProxy
record_top_level_action_event time p = record p {
  top_level_action_count = (p.top_level_action_count + 1) % 2 ^ 32;
  last_interaction_time = time;
}

unfoldable pub record_top_level_event_interaction : ℕ → SessionProxy → SessionProxy
record_top_level_event_interaction time p = record p { last_interaction_time = time }

unfoldable pub is_session_split_by_events_required : SessionProxy → Bool
is_session_split_by_events_required p = elim p.proxy_configuration [
  | none ↦ false
  | some c ↦
      is_session_split_by_events_enabled c
      && not (slt32 p.top_level_action_count c.max_events_per_session_value)
]

abbrev pub no_split_time : ℕ
no_split_time = 2 ^ 64 - 1

unfoldable pub calculate_next_split_time : SessionProxy → ℕ
calculate_next_split_time p = elim p.proxy_configuration [
  | none ↦ no_split_time
  | some c ↦
      let split_by_idle_timeout = is_session_split_by_idle_timeout_enabled c in
      let split_by_session_duration = is_session_split_by_session_duration_enabled c in
      let idle_timeout =
        add64 p.last_interaction_time (sign_extend32 c.session_timeout_in_milliseconds) in
      let session_max_time =
        add64 p.session_start_time (sign_extend32 c.max_session_duration_in_milliseconds) in
      if split_by_idle_timeout && split_by_session_duration
      then min64 idle_timeout session_max_time
      else if split_by_idle_timeout
      then idle_timeout
      else if split_by_session_duration
      then session_max_time
      else no_split_time
]
