-- ===== src/Objects/Session.antt =====
-- core/objects/Session.cxx and the switches of protocol/Beacon.cxx that it reads: the life of a session.
-- What the session has collected is the entry of its beacon in the cache. A child (an action or a
-- web request) is a number: neither its own state nor what its `close` adds to the cache is modelled.
use openkit_native.Prelude.{
  Bool, List, Option, [], false, if◌then◌else◌, is_empty, none, not, slt32, some, true, ℕ, ◌%◌,
  ◌&&◌, ◌++◌, ◌+◌, ◌-◌, ◌==◌, ◌^◌, ◌||◌, ◌∷◌,
}
use openkit_native.Configuration.Beacon.{
  BeaconConfiguration, new_beacon_configuration, other_instance, server_configuration_or_default,
  update_capture_with, update_server_configuration,
}
use openkit_native.Caching.Cache.{Cache, delete_cache_entry, is_empty_entry}
use openkit_native.Caching.Key.{BeaconKey}
use openkit_native.Configuration.Server.{ServerConfiguration, is_sending_data_allowed}
use openkit_native.Caching.Cache
pub mod Life

-- The address is that of the object, which a `shared_ptr` to a session is compared by. The session number is a
-- part of the beacon key.
pub record Session : Type 0 where
  pub address : ℕ
  pub beacon_key : BeaconKey
  pub configuration : BeaconConfiguration
  pub traffic_control_value : ℕ
  pub num_remaining_new_session_requests : ℕ
  pub is_session_finishing : Bool
  pub is_session_finished : Bool
  pub was_tried_for_ending : Bool
  pub children : List ℕ
  pub split_by_events_grace_period_end_time : ℕ

abbrev pub max_new_session_requests : ℕ
max_new_session_requests = 4

abbrev pub new_session : ℕ → BeaconKey → ℕ → Session
new_session address key traffic = record {
  address = address;
  beacon_key = key;
  configuration = new_beacon_configuration;
  traffic_control_value = traffic;
  num_remaining_new_session_requests = max_new_session_requests;
  is_session_finishing = false;
  is_session_finished = false;
  was_tried_for_ending = false;
  children = [];
  split_by_events_grace_period_end_time = 2 ^ 64 - 1;
}

unfoldable pub is_finishing_or_finished : Session → Bool
is_finishing_or_finished s = s.is_session_finishing || s.is_session_finished

unfoldable pub is_configured : Session → Bool
is_configured s = s.configuration.is_server_configuration_set

unfoldable pub is_configured_and_finished : Session → Bool
unfolding is_configured
is_configured_and_finished s = is_configured s && s.is_session_finished

unfoldable pub is_configured_and_open : Session → Bool
unfolding is_configured
is_configured_and_open s = is_configured s && not s.is_session_finished

-- `Beacon::isDataCapturingEnabled`
unfoldable pub is_data_capturing_enabled : Session → Bool
is_data_capturing_enabled s =
    let c = server_configuration_or_default s.configuration in
    is_sending_data_allowed c && slt32 s.traffic_control_value c.traffic_control_percentage_value

unfoldable pub is_data_sending_allowed : Session → Bool
unfolding is_configured is_data_capturing_enabled
is_data_sending_allowed s = is_configured s && is_data_capturing_enabled s

unfoldable pub enable_capture : Session → Session
enable_capture s = record s { configuration = update_capture_with true s.configuration }

unfoldable pub disable_session_capture : Session → Session
disable_session_capture s = record s { configuration = update_capture_with false s.configuration }

unfoldable pub can_send_new_session_request : Session → Bool
can_send_new_session_request s = slt32 0 s.num_remaining_new_session_requests

unfoldable pub decrease_num_remaining_session_requests : Session → Session
decrease_num_remaining_session_requests s = record s {
  num_remaining_new_session_requests = (s.num_remaining_new_session_requests + 2 ^ 32 - 1) % 2 ^ 32;
}

unfoldable pub update_session_configuration : ServerConfiguration → Session → Option Session
update_session_configuration c s =
    elim (update_server_configuration (other_instance c) s.configuration) [
      | none ↦ none
      | some b ↦ some (record s { configuration = b })
    ]

unfoldable pub clear_captured_data : Session → Cache.Cache → Cache.Cache
clear_captured_data s c = Cache.delete_cache_entry s.beacon_key c

unfoldable pub session_is_empty : Session → Cache.Cache → Bool
session_is_empty s c = Cache.is_empty_entry s.beacon_key c

unfoldable pub remove_child : ℕ → List ℕ → List ℕ
remove_child child [] = []
remove_child child (x ∷ xs) =
    if x == child then remove_child child xs else x ∷ remove_child child xs

-- `enterAction` and `traceWebRequest` for a valid name or URL
unfoldable pub enter_child : ℕ → Session → Session
unfolding is_finishing_or_finished
enter_child child s =
    if is_finishing_or_finished s then s else record s { children = s.children ++ child ∷ [] }

-- What a session does, of the things that other objects see. The last is the call of the parent's
-- `onChildClosed`.
pub data SessionEvent : Type 0 where
  child_closed : ℕ → SessionEvent
  session_ended : SessionEvent
  parent_told : SessionEvent

pub record Ended : Type 0 where
  pub session : Session
  pub events : List SessionEvent

-- The loop over a copy of the children: each one that is closed calls `onChildClosed`, which takes it
-- off the list; the `end` inside that call finds the session finishing and returns.
unfoldable pub close_children : List ℕ → Session → Ended
close_children [] s = record { session = s; events = [] }
close_children (child ∷ others) s =
    let r = close_children others (record s { children = remove_child child s.children }) in
    record r { events = child_closed child ∷ r.events }

unfoldable pub end_session : Bool → Session → Ended
unfolding is_finishing_or_finished
end_session send_session_end_event s =
    let closed = close_children s.children (record s { is_session_finishing = true }) in
    if is_finishing_or_finished s then record { session = s; events = [] } else record {
      session = record closed.session { is_session_finished = true };
      events =
          closed.events
          ++ (if send_session_end_event
              then session_ended ∷ parent_told ∷ []
              else parent_told ∷ []);
    }

unfoldable pub try_end : Session → Bool × Ended
unfolding is_finishing_or_finished
try_end s =
    if is_finishing_or_finished s
    then (true, record { session = s; events = [] })
    else if is_empty s.children
    then (true, end_session false s)
    else (false, record { session = record s { was_tried_for_ending = true }; events = [] })

-- a child that is closed while the session is not being ended
unfoldable pub on_child_closed : ℕ → Session → Ended
on_child_closed child s =
    let removed = record s { children = remove_child child s.children } in
    if removed.was_tried_for_ending && is_empty removed.children
    then end_session true removed
    else record { session = removed; events = [] }
