-- ===== src/Communication/States/CaptureOn.antt =====
-- core/communication/BeaconSendingCaptureOnState.cxx
use openkit_native.Prelude.{
  List, Option, [], add64, if◌then◌else◌, none, not, sign_extend32, slt64, some, ℕ, ◌&&◌, ◌+◌, ◌-◌,
  ◌^◌, ◌||◌, ◌∷◌,
}
use openkit_native.Communication.Context.{
  Context, Surroundings, capture_off, get_all_finished_and_configured_sessions,
  get_all_not_configured_sessions, get_all_open_and_configured_sessions, get_current_timestamp,
  handle_status_response, is_capture_on, is_shutdown_requested, polled, replace_session,
  set_next_state, sleep_for, update_from,
}
use openkit_native.Communication.States.{Sent, forget_session, retry_after_of, send_session}
use openkit_native.Configuration.Server.{from_attributes}
use openkit_native.Objects.Session.{
  Session, can_send_new_session_request, clear_captured_data,
  decrease_num_remaining_session_requests, disable_session_capture, is_data_sending_allowed,
  session_is_empty, update_session_configuration,
}
use openkit_native.Protocol.StatusResponse.{StatusResponse, is_successful, is_too_many_requests}
use openkit_native.Caching.Cache
pub mod Finished

abbrev pub default_sleep_time : ℕ
default_sleep_time = 1000

module _ (w : Surroundings) where
  -- `sendNewSessionRequests`
  unfoldable pub send_new_session_requests :
      List Session → Option StatusResponse → Context → Option Sent
  send_new_session_requests [] last c = some (record { answer = last; context = c })
  send_new_session_requests (s ∷ ss) last c =
      let refused =
        send_new_session_requests ss last
          (record c { sessions = replace_session (disable_session_capture s) c.sessions }) in
      let answer = w.new_session_answer c.requests in
      let sent = record c { requests = c.requests + 1 } in
      let updated = update_from answer sent in
      let configured =
        update_session_configuration (from_attributes updated.last_response_attributes) s in
      let failed = send_new_session_requests ss answer (record sent {
        sessions = replace_session (decrease_num_remaining_session_requests s) sent.sessions;
      }) in
      if not (can_send_new_session_request s)
      then refused
      else if is_successful answer
      then elim configured [
        | none ↦ none
        | some s' ↦
            send_new_session_requests ss answer
              (record updated { sessions = replace_session s' updated.sessions })
      ]
      else if is_too_many_requests answer
      then some (record { answer = answer; context = sent })
      else failed

  -- `sendFinishedSessions`
  unfoldable pub send_finished_sessions :
      List Session → Option StatusResponse → Context → Option Sent
  send_finished_sessions [] last c = some (record { answer = last; context = c })
  send_finished_sessions (s ∷ ss) last c =
      let others = send_finished_sessions ss last (forget_session w s c) in
      let wanted : Option Sent = elim (send_session w s c) [
        | none ↦ none
        | some (answer, sent) ↦
            let others_sent = send_finished_sessions ss answer (forget_session w s sent) in
            if not (is_successful answer)
              && (is_too_many_requests answer || not (session_is_empty s sent.cache))
            then some (record { answer = answer; context = sent })
            else others_sent
      ] in
      if is_data_sending_allowed s then wanted else others

  unfoldable pub send_open_session_list :
      List Session → Option StatusResponse → Context → Option Sent
  send_open_session_list [] last c = some (record { answer = last; context = c })
  send_open_session_list (s ∷ ss) last c =
      let others =
        send_open_session_list ss last (record c { cache = clear_captured_data s c.cache }) in
      let wanted : Option Sent = elim (send_session w s c) [
        | none ↦ none
        | some (answer, sent) ↦
            let others_sent = send_open_session_list ss answer sent in
            if is_too_many_requests answer
            then some (record { answer = answer; context = sent })
            else others_sent
      ] in
      if is_data_sending_allowed s then wanted else others

  -- `sendOpenSessions`; the send interval is an `int32_t` that is added to an `int64_t`
  unfoldable pub send_open_sessions : Context → Option Sent
  send_open_sessions c =
      let (time, read) = get_current_timestamp w c in
      let due =
        add64 c.last_open_session_beacon_send_time
          (sign_extend32 c.last_response_attributes.send_interval_in_milliseconds) in
      let sent : Option Sent =
        elim (send_open_session_list (get_all_open_and_configured_sessions read.sessions) none
          read) [
            | none ↦ none
            | some r ↦ some (record r {
              context = record r.context { last_open_session_beacon_send_time = time };
            })
          ] in
      if not (slt64 due time) then some (record { answer = none; context = read }) else sent

  -- `handleStatusResponse` of the capture on state
  unfoldable pub handle_last_response : Option StatusResponse → Context → Context
  handle_last_response none c = c
  handle_last_response (some r) c =
      let handled = handle_status_response (some r) c in
      if not (is_capture_on handled)
      then set_next_state (capture_off (2 ^ 64 - 1)) handled
      else handled

  abbrev pub last_of :
      Option StatusResponse → Option StatusResponse → Option StatusResponse → Option StatusResponse
  last_of new_sessions finished (some open_sessions) = some open_sessions
  last_of new_sessions (some finished) none = some finished
  last_of new_sessions none none = new_sessions

  -- what follows the open sessions
  unfoldable pub after_open_sessions : Sent → Sent → Sent → Context
  after_open_sessions new_sessions finished opened =
      if is_too_many_requests opened.answer
      then set_next_state (capture_off (retry_after_of opened.answer)) opened.context
      else handle_last_response (last_of new_sessions.answer finished.answer opened.answer)
          opened.context

  -- what follows the finished sessions; the open ones are looked up when their loop begins
  unfoldable pub after_finished_sessions : Sent → Sent → Option Context
  after_finished_sessions new_sessions finished =
      let others : Option Context = elim (send_open_sessions finished.context) [
        | none ↦ none
        | some opened ↦ some (after_open_sessions new_sessions finished opened)
      ] in
      if is_too_many_requests finished.answer
      then some (set_next_state (capture_off (retry_after_of finished.answer)) finished.context)
      else others

  -- what follows the new sessions; the finished ones are looked up when their loop begins
  unfoldable pub after_new_sessions : Sent → Option Context
  after_new_sessions new_sessions =
      let d = new_sessions.context in
      let others : Option Context =
        elim (send_finished_sessions (get_all_finished_and_configured_sessions d.sessions) none d) [
          | none ↦ none
          | some finished ↦ after_finished_sessions new_sessions finished
        ] in
      if is_too_many_requests new_sessions.answer
      then some (set_next_state (capture_off (retry_after_of new_sessions.answer)) d)
      else others

  unfoldable pub do_execute_capture_on : Context → Option Context
  do_execute_capture_on c =
      let slept = sleep_for default_sleep_time c in
      let asked = polled w slept in
      if is_shutdown_requested w slept
      then some asked
      else elim (send_new_session_requests (get_all_not_configured_sessions asked.sessions) none
          asked) [ none ↦ none | some new_sessions ↦ after_new_sessions new_sessions ]
