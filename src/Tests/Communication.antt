-- ===== src/Tests/Communication.antt =====
-- core/communication at concrete inputs.
use openkit_native.Prelude.{
  All, Option, [], arith, false, inl, none, rank32, refl, slt32, some, suc, true, zero, ℕ, ◌+◌, ◌<◌,
  ◌∷◌, ◌≡◌,
}
use openkit_native.Tests.Caching.{one_beacon}
use openkit_native.Tests.Configuration.{session_one}
use openkit_native.Tests.Protocol.{accepted_response}
use openkit_native.Caching.Cache.{}
use openkit_native.Caching.Cache.Run.{}
use openkit_native.Caching.Distinct.{Distinct, HasKeysOnce}
use openkit_native.Communication.Context.{
  Context, Surroundings, capture_off, disable_capture_and_clear, flush_sessions,
  get_all_finished_and_configured_sessions, get_all_not_configured_sessions,
  get_all_open_and_configured_sessions, is_capture_on, is_in_terminal_state, is_shutdown_requested,
  new_context, polled, set_next_state, terminal,
}
use openkit_native.Communication.Context.Clearing.{
  HasNoData, disable_capture_and_clear-HasNoData, unfinished,
}
use openkit_native.Communication.Machine.{
  do_execute, enter_next_state, execute, execute_current_state, run_sender,
}
use openkit_native.Communication.Machine.Arrows.{execute_current_state-Follows}
use openkit_native.Communication.Machine.Shutdown.{run_sender-shutdown}
use openkit_native.Communication.Machine.Steps.{Follows}
use openkit_native.Communication.Requests.{send_status_request}
use openkit_native.Communication.Requests.Retries.{
  after_retries, is_final, send_status_request-after,
}
use openkit_native.Communication.States.CaptureOn.{send_finished_sessions}
use openkit_native.Configuration.Beacon.{update_capture_with}
use openkit_native.Objects.Session.{Session}
use openkit_native.Protocol.StatusResponse.{
  StatusResponse, is_erroneous_response, is_successful, is_too_many_requests,
}
use openkit_native.Text.{empty_string}
use openkit_native.Caching.Key.{find}
use openkit_native.Communication.States.CaptureOn.Finished.{GivesUp, send_finished_sessions-GivesUp}
use openkit_native.Communication.States.Flush.{
  do_execute_flush_sessions, enable_all, end_all, flush_finished,
}
use openkit_native.Communication.States.{SendingReturns, Sent}

-- The server is busy at first, and then accepts everything; the clock ticks at each reading.
abbrev answers : ℕ → Option StatusResponse
answers zero = none
answers (suc i) = some accepted_response

abbrev quiet : Surroundings
quiet = record {
  shutdown = λ n. false;
  now = λ n. n;
  has_client = λ n. true;
  status_answer = answers;
  new_session_answer = answers;
  send_beacon = λ n s c. some (answers n, c);
}

quiet-SendingReturns : (s : Session) → SendingReturns quiet s
quiet-SendingReturns s n c = (_, refl)

abbrev start : Context
start = new_context 1 empty_string

failed_first : (i : ℕ) → i < 1 → is_final (answers (0 + i)) ≡ false
unfolding is_final is_successful is_too_many_requests
failed_first zero h = refl
failed_first (suc i) h = absurd (omega (arith, h))

answered_then : is_final (answers (0 + 1)) ≡ true
unfolding is_final is_successful is_erroneous_response slt32 rank32
answered_then = refl

send_status_request-after_example :
    send_status_request quiet 5 1000 start ≡ after_retries quiet 1 1000 start
send_status_request-after_example =
    send_status_request-after quiet (λ n. refl) (λ n. refl) 1 5 1000 start refl (omega arith)
      failed_first (inl answered_then)

abbrev stopping : Context
stopping = record start { current_state = capture_off 60000; is_shutdown = true }

run_sender-shutdown_example :
    (d : Context) × (run_sender quiet 1 2 stopping ≡ some d) × (is_in_terminal_state d ≡ true)
run_sender-shutdown_example = run_sender-shutdown quiet quiet-SendingReturns 0 0 stopping refl

abbrev flushing : Context
flushing = record start { current_state = flush_sessions }

abbrev flushed : Context
flushed = record start { current_state = terminal; next_state = some terminal; polls = 1 }

flushing-flushed : execute_current_state quiet 1 flushing ≡ some flushed
unfolding execute_current_state execute do_execute do_execute_flush_sessions
    get_all_not_configured_sessions get_all_open_and_configured_sessions
    get_all_finished_and_configured_sessions enable_all end_all flush_finished set_next_state
    is_shutdown_requested polled enter_next_state
flushing-flushed = refl

execute_current_state-Follows_example : Follows flush_sessions terminal
execute_current_state-Follows_example =
    execute_current_state-Follows quiet 1 flushing flushed flushing-flushed

-- A finished session, whose data the server takes.
abbrev closed_session : Session
closed_session = record session_one {
  configuration = update_capture_with true session_one.configuration;
  is_session_finishing = true;
  is_session_finished = true;
}

abbrev with_sessions : Context
with_sessions = record start { sessions = closed_session ∷ session_one ∷ []; cache = one_beacon }

send_finished_sessions-GivesUp_example :
    (r : Sent) × (send_finished_sessions quiet (closed_session ∷ []) none with_sessions ≡ some r)
    × GivesUp quiet (closed_session ∷ []) with_sessions r
send_finished_sessions-GivesUp_example =
    send_finished_sessions-GivesUp quiet (closed_session ∷ []) none with_sessions
      (quiet-SendingReturns closed_session, tt)

keys_once : HasKeysOnce one_beacon
keys_once = unfold Distinct find in (refl, tt)

disable_capture_and_clear-HasNoData_example :
    let d = disable_capture_and_clear with_sessions in
    (is_capture_on d ≡ false)
    × (d.sessions ≡ unfinished (closed_session ∷ session_one ∷ []))
    × All (HasNoData d.cache) (closed_session ∷ session_one ∷ [])
disable_capture_and_clear-HasNoData_example =
    disable_capture_and_clear-HasNoData with_sessions keys_once
