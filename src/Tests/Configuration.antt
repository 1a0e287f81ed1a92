-- ===== src/Tests/Configuration.antt =====
-- core/configuration and the life of a session at concrete inputs.
use openkit_native.Prelude.{
  List, [], add64, false, inl, map, rank64, refl, sign_extend32, slt32, slt64, some, true, ◌++◌,
  ◌+◌, ◌∷◌, ◌≡◌, ◌≤◌,
}
use openkit_native.Tests.Caching.{key_one}
use openkit_native.Configuration.Beacon.{
  BeaconConfiguration, default_instance, new_beacon_configuration, other_instance,
}
use openkit_native.Configuration.Beacon.Updates.{
  HasFixed, IsSound, Update, capture_with, initialize, run_updates, run_updates-HasFixed,
  run_updates-IsSound, set_callback, update,
}
use openkit_native.Configuration.Server.{
  ServerConfiguration, from_attributes, is_session_split_by_idle_timeout_enabled,
  is_session_split_by_session_duration_enabled,
}
use openkit_native.Configuration.Server.Merge.{fixed_of}
use openkit_native.Objects.Session.{
  Session, close_children, end_session, enter_child, is_finishing_or_finished, new_session,
  on_child_closed, remove_child, try_end,
}
use openkit_native.Objects.Session.Life.{
  IsSettled, LifeOperation, child_closes, end_with, enter, finished_count, perform_life, run_life,
  run_life-IsSettled, times_told, try_to_end,
}
use openkit_native.Protocol.Attributes.{json_response_defaults}
use openkit_native.Watchdog.{
  WatchdogContext, close_expired_sessions, min64, new_watchdog_context, watchdog_sleep_time,
}
use openkit_native.Watchdog.Closing.{WakesFor, close_expired_sessions-waiting, expired, waiting}
use openkit_native.Objects.SessionProxy.{SessionProxy, calculate_next_split_time, new_session_proxy}
use openkit_native.Objects.SessionProxy.Splitting.{
  IsFirst, calculate_next_split_time-IsFirst, deadlines,
}
use openkit_native.Objects.SessionProxy.Updates.{
  IsAlike, run_configurations, run_configurations-first, told, with_configuration,
}

abbrev first_configuration : ServerConfiguration
first_configuration = from_attributes json_response_defaults

abbrev later_configuration : ServerConfiguration
later_configuration =
    from_attributes
      (record json_response_defaults { multiplicity_value = 7; send_interval_in_milliseconds = 9 })

abbrev some_updates : List Update
some_updates =
    set_callback true
    ∷ initialize (other_instance later_configuration)
    ∷ update (other_instance later_configuration)
    ∷ capture_with false
    ∷ update default_instance
    ∷ []

run_updates-IsSound_example :
    (b : BeaconConfiguration) × (run_updates some_updates new_beacon_configuration ≡ some b)
    × IsSound b
run_updates-IsSound_example = run_updates-IsSound some_updates new_beacon_configuration (inl refl)

abbrev set_before : BeaconConfiguration
set_before = record new_beacon_configuration {
  server_configuration = some first_configuration;
  is_server_configuration_set = true;
}

run_updates-HasFixed_example :
    (b : BeaconConfiguration) × (run_updates some_updates set_before ≡ some b)
    × HasFixed (fixed_of first_configuration) b
run_updates-HasFixed_example =
    run_updates-HasFixed (fixed_of first_configuration) some_updates set_before
      (record { configuration = first_configuration; there = refl; set = refl; same = refl })

abbrev pub session_one : Session
session_one = new_session 1 key_one 0

abbrev some_life : List LifeOperation
some_life = enter 5 ∷ enter 6 ∷ try_to_end ∷ child_closes 5 ∷ child_closes 6 ∷ end_with true ∷ []

run_life-IsSettled_example :
    let r = run_life some_life session_one in
    IsSettled r.session
    × (times_told r.events + finished_count session_one ≡ finished_count r.session)
run_life-IsSettled_example =
    run_life-IsSettled some_life session_one (record { same = refl; no_children = inl refl })

-- Closing the last child ends the session that could not be ended before.
some_life_ends : (run_life some_life session_one).session.is_session_finished ≡ true
unfolding run_life perform_life enter_child try_end on_child_closed end_session close_children
    remove_child is_finishing_or_finished
some_life_ends = refl

-- The time of the first session has come, that of the second one comes later.
abbrev two_waiting : WatchdogContext
two_waiting = record new_watchdog_context {
  sessions_to_close =
      record session_one { split_by_events_grace_period_end_time = 100 }
      ∷ record (new_session 2 key_one 0) { split_by_events_grace_period_end_time = 900 }
      ∷ [];
}

close_expired_sessions-waiting_example :
    let (sleep, d) = close_expired_sessions (λ n. 200 + n) two_waiting in
    (d.sessions_to_close ≡ waiting (λ n. 200 + n) 0 two_waiting.sessions_to_close)
    × (d.closed
        ≡ [] ++ map (end_session false) (expired (λ n. 200 + n) 0 two_waiting.sessions_to_close))
    × (rank64 sleep ≤ rank64 watchdog_sleep_time)
    × WakesFor (λ n. 200 + n) 0 sleep two_waiting.sessions_to_close
close_expired_sessions-waiting_example =
    close_expired_sessions-waiting (λ n. 200 + n) two_waiting ((refl, tt), (tt, tt))

abbrev split_configuration : ServerConfiguration
split_configuration = record first_configuration {
  session_split_by_idle_timeout = true;
  session_timeout_in_milliseconds = 600;
  session_split_by_session_duration = true;
  max_session_duration_in_milliseconds = 1000;
}

abbrev busy_proxy : SessionProxy
busy_proxy = record new_session_proxy { session_start_time = 50; last_interaction_time = 100 }

calculate_next_split_time-IsFirst_example :
    IsFirst
      (calculate_next_split_time (with_configuration split_configuration busy_proxy))
      (deadlines (with_configuration split_configuration busy_proxy))
calculate_next_split_time-IsFirst_example =
    calculate_next_split_time-IsFirst (with_configuration split_configuration busy_proxy)

split_time_computed :
    calculate_next_split_time (with_configuration split_configuration busy_proxy) ≡ 700
unfolding calculate_next_split_time is_session_split_by_idle_timeout_enabled
    is_session_split_by_session_duration_enabled with_configuration slt32 min64 slt64 add64
    sign_extend32
split_time_computed = refl

run_configurations-first_example :
    IsAlike
      (run_configurations (split_configuration ∷ later_configuration ∷ []) busy_proxy)
      (told split_configuration busy_proxy)
run_configurations-first_example =
    run_configurations-first split_configuration (later_configuration ∷ []) busy_proxy refl
