-- ===== src/Communication/Context.antt =====
-- core/communication/BeaconSendingContext.cxx and the sending states as data: what the thread that talks
-- to the server works on. The configuration of its HTTP client is kept as its server and application.
-- `sleeps` lists how long the thread slept, and `polls`, `readings` and `requests` count how often it
-- asked for a shutdown, read the clock and made a request of its own.
use openkit_native.Prelude.{
  Bool, List, Option, [], false, if◌then◌else◌, none, not, some, true, ℕ, ◌&&◌, ◌++◌, ◌+◌, ◌-◌,
  ◌==◌, ◌||◌, ◌∷◌,
}
use openkit_native.Caching.Cache.{Cache, new_cache}
use openkit_native.Caching.Entry.Bytes.{merged}
use openkit_native.Configuration.Server.{
  ServerConfiguration, default_server_configuration, from_attributes, from_configuration,
  with_capture_state,
}
use openkit_native.Objects.Session.{
  Session, clear_captured_data, is_configured, is_configured_and_finished, is_configured_and_open,
}
use openkit_native.Protocol.Attributes.{
  ResponseAttributes, application_id, merge, undefined_defaults,
}
use openkit_native.Protocol.StatusResponse.{
  StatusResponse, bytes_eq, is_erroneous_response, is_successful,
}
use openkit_native.Text.{Utf8String}
use openkit_native.Caching.Cache
pub mod Clearing

-- The states of IBeaconSendingState.h with what they carry: the index of the delay before the next try,
-- and the time to sleep.
pub data SendingState : Type 0 where
  initial : ℕ → SendingState
  capture_on : SendingState
  capture_off : ℕ → SendingState
  flush_sessions : SendingState
  terminal : SendingState

pub record Context : Type 0 where
  pub current_state : SendingState
  pub next_state : Option SendingState
  pub is_shutdown : Bool
  pub init_succeeded : Bool
  pub init_count : ℕ
  pub server_configuration : ServerConfiguration
  pub client_server_id : ℕ
  pub client_application_id : Utf8String
  pub last_status_check_time : ℕ
  pub last_open_session_beacon_send_time : ℕ
  pub last_response_attributes : ResponseAttributes
  pub sessions : List Session
  pub cache : Cache.Cache
  pub sleeps : List ℕ
  pub polls : ℕ
  pub readings : ℕ
  pub requests : ℕ

-- What other threads, the clock and the server decide: whether a shutdown has been requested when the
-- thread asks for the n-th time, the n-th reading of the clock, and the answers to the n-th request.
-- `send_beacon` is what `Beacon::send` returns for a session and what it leaves in the cache, or none if
-- it does not return.
pub record Surroundings : Type 0 where
  pub shutdown : ℕ → Bool
  pub now : ℕ → ℕ
  pub has_client : ℕ → Bool
  pub status_answer : ℕ → Option StatusResponse
  pub new_session_answer : ℕ → Option StatusResponse
  pub send_beacon : ℕ → Session → Cache.Cache → Option (Option StatusResponse × Cache.Cache)

abbrev pub new_context : ℕ → Utf8String → Context
new_context server application = record {
  current_state = initial 0;
  next_state = none;
  is_shutdown = false;
  init_succeeded = false;
  init_count = 1;
  server_configuration = default_server_configuration;
  client_server_id = server;
  client_application_id = application;
  last_status_check_time = 0;
  last_open_session_beacon_send_time = 0;
  last_response_attributes = undefined_defaults;
  sessions = [];
  cache = Cache.new_cache;
  sleeps = [];
  polls = 0;
  readings = 0;
  requests = 0;
}

unfoldable pub is_terminal_state : SendingState → Bool
is_terminal_state terminal = true
is_terminal_state s = false

unfoldable pub is_in_terminal_state : Context → Bool
unfolding is_terminal_state
is_in_terminal_state c = is_terminal_state c.current_state

unfoldable pub request_shutdown : Context → Context
request_shutdown c = record c { is_shutdown = true }

unfoldable pub set_init_completed : Bool → Context → Context
set_init_completed success c = record c { init_succeeded = success; init_count = c.init_count - 1 }

unfoldable pub set_next_state : SendingState → Context → Context
set_next_state s c = record c { next_state = some s }

unfoldable pub sleep_for : ℕ → Context → Context
sleep_for ms c = record c { sleeps = c.sleeps ++ ms ∷ [] }

unfoldable pub is_capture_on : Context → Bool
is_capture_on c = c.server_configuration.is_capture_enabled

unfoldable pub disable_capture : Context → Context
disable_capture c = record c {
  server_configuration = with_capture_state false (from_configuration c.server_configuration);
}

-- The loop over a copy of the sessions: each one loses its data, and those that are finished go.
unfoldable pub clear_sessions : List Session → Cache.Cache → List Session × Cache.Cache
clear_sessions [] cache = ([], cache)
clear_sessions (s ∷ ss) cache =
    let r = clear_sessions ss (clear_captured_data s cache) in
    if s.is_session_finished then r else (s ∷ r.0, r.1)

unfoldable pub clear_all_session_data : Context → Context
clear_all_session_data c =
    let r = clear_sessions c.sessions c.cache in record c { sessions = r.0; cache = r.1 }

unfoldable pub disable_capture_and_clear : Context → Context
disable_capture_and_clear c = clear_all_session_data (disable_capture c)

unfoldable pub is_application_id_mismatch : ResponseAttributes → Context → Bool
is_application_id_mismatch a c =
    a.is_attribute_set application_id
    && not (bytes_eq c.client_application_id.bytes a.application_id_value.bytes)

unfoldable pub update_from : Option StatusResponse → Context → Context
update_from none c = c
update_from (some response) c =
    let merged = merge c.last_response_attributes response.response_attributes in
    let built = from_attributes merged in
    let configuration =
      if is_application_id_mismatch merged c then with_capture_state false built else built in
    if not (is_successful (some response)) then c else record c {
      last_response_attributes = merged;
      server_configuration = configuration;
      client_server_id = configuration.server_id_value;
    }

unfoldable pub handle_status_response : Option StatusResponse → Context → Context
handle_status_response none c = disable_capture_and_clear c
handle_status_response (some response) c =
    let updated = update_from (some response) c in
    if is_erroneous_response response
    then disable_capture_and_clear c
    else if not (is_capture_on updated)
    then clear_all_session_data updated
    else updated

unfoldable pub get_all_not_configured_sessions : List Session → List Session
get_all_not_configured_sessions [] = []
get_all_not_configured_sessions (s ∷ ss) =
    if is_configured s
    then get_all_not_configured_sessions ss
    else s ∷ get_all_not_configured_sessions ss

unfoldable pub get_all_open_and_configured_sessions : List Session → List Session
get_all_open_and_configured_sessions [] = []
get_all_open_and_configured_sessions (s ∷ ss) =
    if is_configured_and_open s
    then s ∷ get_all_open_and_configured_sessions ss
    else get_all_open_and_configured_sessions ss

unfoldable pub get_all_finished_and_configured_sessions : List Session → List Session
get_all_finished_and_configured_sessions [] = []
get_all_finished_and_configured_sessions (s ∷ ss) =
    if is_configured_and_finished s
    then s ∷ get_all_finished_and_configured_sessions ss
    else get_all_finished_and_configured_sessions ss

unfoldable pub add_session : Session → Context → Context
add_session s c = record c { sessions = c.sessions ++ s ∷ [] }

-- `SynchronizedQueue::remove`, which compares pointers: the first entry that is the object at the address goes
unfoldable pub remove_first : ℕ → List Session → List Session
remove_first n [] = []
remove_first n (s ∷ ss) = if s.address == n then ss else s ∷ remove_first n ss

unfoldable pub remove_session : Session → Context → Context
remove_session s c = record c { sessions = remove_first s.address c.sessions }

-- what a change of the shared session does to the list
unfoldable pub replace_session : Session → List Session → List Session
replace_session s [] = []
replace_session s (t ∷ ts) = (if t.address == s.address then s else t) ∷ replace_session s ts

module _ (w : Surroundings) where
  -- one reading of `mShutdown`, which other threads set
  unfoldable pub is_shutdown_requested : Context → Bool
  is_shutdown_requested c = c.is_shutdown || w.shutdown c.polls

  unfoldable pub polled : Context → Context
  polled c = record c { polls = c.polls + 1 }

  unfoldable pub get_current_timestamp : Context → ℕ × Context
  get_current_timestamp c = (w.now c.readings, record c { readings = c.readings + 1 })
