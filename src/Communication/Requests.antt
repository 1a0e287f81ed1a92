-- ===== src/Communication/Requests.antt =====
-- core/communication/BeaconSendingRequestUtil.cxx: a status request, tried again after a delay that doubles.
use openkit_native.Prelude.{
  Option, if◌then◌else◌, none, not, suc, zero, ℕ, ◌%◌, ◌*◌, ◌+◌, ◌^◌, ◌||◌,
}
use openkit_native.Communication.Context.{
  Context, Surroundings, is_shutdown_requested, polled, sleep_for,
}
use openkit_native.Protocol.StatusResponse.{StatusResponse, is_successful, is_too_many_requests}
pub mod Retries

module _ (w : Surroundings) where
  -- The loop, with the number of retries that are left, and the answer to the request before. A client is
  -- asked for after each poll.
  unfoldable pub attempts :
      ℕ → ℕ → Option StatusResponse → Context → Option StatusResponse × Context
  attempts zero delay last c =
      let asked = polled w c in
      if is_shutdown_requested w c
      then (last, asked)
      else if not (w.has_client c.polls)
      then (last, asked)
      else (w.status_answer c.requests, record asked { requests = c.requests + 1 })
  attempts (suc retries) delay last c =
      let asked = polled w c in
      let answer = w.status_answer c.requests in
      let sent = record asked { requests = c.requests + 1 } in
      let again = attempts retries (delay * 2 % 2 ^ 64) answer (sleep_for delay sent) in
      if is_shutdown_requested w c
      then (last, asked)
      else if not (w.has_client c.polls)
      then (last, asked)
      else if is_successful answer || is_too_many_requests answer
      then (answer, sent)
      else again

  unfoldable pub send_status_request : ℕ → ℕ → Context → Option StatusResponse × Context
  send_status_request num_retries initial_retry_delay c =
      attempts num_retries initial_retry_delay none c
