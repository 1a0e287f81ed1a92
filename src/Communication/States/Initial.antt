-- ===== src/Communication/States/Initial.antt =====
-- core/communication/BeaconSendingInitialState.cxx
use openkit_native.Prelude.{
  Option, false, if◌then◌else◌, ltb, none, some, suc, true, zero, ℕ, ◌+◌, ◌-◌, ◌==◌, ◌^◌,
}
use openkit_native.Communication.Context.{
  Context, Surroundings, capture_off, capture_on, disable_capture_and_clear, get_current_timestamp,
  handle_status_response, initial, is_capture_on, is_shutdown_requested, polled, set_init_completed,
  set_next_state, sleep_for,
}
use openkit_native.Communication.Requests.{send_status_request}
use openkit_native.Communication.States.{
  Sent, initial_retry_sleep_time, retry_after_of, status_request_retries,
}
use openkit_native.Protocol.StatusResponse.{StatusResponse, is_successful, is_too_many_requests}

-- REINIT_DELAY_MILLISECONDS, whose index stays below 5
abbrev pub reinit_delay : ℕ → ℕ
reinit_delay i =
    if i == 0
    then 60000
    else if i == 1
    then 300000
    else if i == 2
    then 900000
    else if i == 3
    then 3600000
    else 7200000

abbrev pub next_delay_index : ℕ → ℕ
next_delay_index i = if ltb i 4 then i + 1 else 4

-- `mCurrentState` is not read while it is executed, but the initial state keeps its index there.
unfoldable pub set_delay_index : ℕ → Context → Context
set_delay_index i c = record c { current_state = initial i }

module _ (w : Surroundings) where
  -- `executeStatusRequest` of the initial state: the loop, on fuel
  unfoldable pub execute_status_request : ℕ → ℕ → Option StatusResponse → Context → Option Sent
  execute_status_request zero index last c = none
  execute_status_request (suc fuel) index last c =
      let asked = polled w c in
      let (time, read) = get_current_timestamp w asked in
      let noted = record read {
        last_open_session_beacon_send_time = time;
        last_status_check_time = time;
      } in
      let (answer, tried) =
        send_status_request w status_request_retries initial_retry_sleep_time noted in
      let busy = is_too_many_requests answer in
      let waited =
        sleep_for (if busy then retry_after_of answer else reinit_delay index)
          (if busy then disable_capture_and_clear tried else tried) in
      let again =
        execute_status_request fuel (next_delay_index index) answer
          (set_delay_index (next_delay_index index) waited) in
      if is_shutdown_requested w c
      then some (record { answer = last; context = asked })
      else if is_successful answer
      then some (record { answer = answer; context = tried })
      else again

  unfoldable pub do_execute_initial : ℕ → ℕ → Context → Option Context
  do_execute_initial fuel index c = elim (execute_status_request fuel index none c) [
    | none ↦ none
    | some r ↦
        let d = r.context in
        let asked = polled w d in
        let handled = handle_status_response r.answer asked in
        some (
          if is_shutdown_requested w d
          then set_init_completed false asked
          else if is_successful r.answer
          then set_init_completed true (
              set_next_state
                (if is_capture_on handled then capture_on else capture_off (2 ^ 64 - 1)) handled)
          else asked)
  ]
