-- ===== src/Communication/States/CaptureOff.antt =====
-- core/communication/BeaconSendingCaptureOffState.cxx
use openkit_native.Prelude.{
  Bool, Option, false, if◌then◌else◌, none, slt64, some, sub64, true, ℕ, ◌&&◌, ◌*◌,
}
use openkit_native.Communication.Context.{
  Context, Surroundings, capture_off, capture_on, disable_capture_and_clear, get_current_timestamp,
  handle_status_response, is_capture_on, is_shutdown_requested, polled, set_next_state, sleep_for,
}
use openkit_native.Communication.Requests.{send_status_request}
use openkit_native.Communication.States.{
  initial_retry_sleep_time, retry_after_of, status_request_retries,
}
use openkit_native.Protocol.StatusResponse.{StatusResponse, is_successful, is_too_many_requests}

abbrev pub status_check_interval : ℕ
status_check_interval = 2 * 60 * 60 * 1000

module _ (w : Surroundings) where
  abbrev pub answered : Option StatusResponse → Context → Context
  answered none c = c
  answered (some r) c = handle_status_response (some r) c

  -- `handleStatusResponse` of the capture off state
  unfoldable pub handle_off_response : Option StatusResponse → Context → Context
  handle_off_response answer c =
      let handled = answered answer c in
      if is_too_many_requests answer
      then set_next_state (capture_off (retry_after_of answer)) handled
      else if is_successful answer && is_capture_on handled
      then set_next_state capture_on handled
      else handled

  -- the sleep before the status request, and whether a shutdown was requested meanwhile
  unfoldable pub sleep_before_request : ℕ → Context → Bool × Context
  sleep_before_request delta c =
      let slept = sleep_for delta (polled w c) in
      if slt64 0 delta
      then (if is_shutdown_requested w c
          then (false, polled w c)
          else (is_shutdown_requested w slept, polled w slept))
      else (false, c)

  -- what follows the sleep, unless a shutdown was requested meanwhile
  unfoldable pub request_while_off : ℕ → Bool × Context → Context
  request_while_off time (true, awake) = awake
  request_while_off time (false, awake) =
      let (answer, tried) =
        send_status_request w status_request_retries initial_retry_sleep_time awake in
      record (handle_off_response answer tried) { last_status_check_time = time }

  unfoldable pub do_execute_capture_off : ℕ → Context → Option Context
  do_execute_capture_off sleep_time c =
      let (time, read) = get_current_timestamp w (disable_capture_and_clear c) in
      let delta =
        if slt64 0 sleep_time
        then sleep_time
        else sub64 status_check_interval (sub64 time read.last_status_check_time) in
      some (request_while_off time (sleep_before_request delta read))
