-- ===== src/Communication/Machine/Shutdown.antt =====
-- core/communication: a shutdown ends the sending thread.
use mathlib.Core.Path.{subst}
use openkit_native.Prelude.{
  ◌∷◌, ◌&&◌, ◌+◌, List, [], not, Bool, Option, false, if-both, if-false, if-true, if◌then◌else◌,
  none, refl, slt64, some, suc, sym, true, zero, ℕ, ◌∙◌, ◌≡◌,
}
use openkit_native.Communication.Context.{
  get_all_finished_and_configured_sessions, get_all_not_configured_sessions,
  get_all_open_and_configured_sessions, Context, SendingState, Surroundings, capture_off,
  capture_on, flush_sessions, get_current_timestamp, initial, is_in_terminal_state,
  is_shutdown_requested, is_terminal_state, polled, request_shutdown, set_init_completed,
  set_next_state, sleep_for, terminal,
}
use openkit_native.Communication.Machine.Frame.{
  Keeps, Keeps-same, Keeps-trans, sent-Keeps, forget-Keeps, disable-Keeps, enable_all-Keeps,
  end_all-Keeps,
}
use openkit_native.Communication.Requests.{attempts, send_status_request}
use openkit_native.Communication.States.{
  SendingReturns, forget_session, send_session, initial_retry_sleep_time, status_request_retries,
}
use openkit_native.Protocol.StatusResponse.{StatusResponse, is_successful, is_too_many_requests}
use openkit_native.Communication.Machine.{
  do_execute, enter_next_state, execute, execute_current_state, get_shutdown_state, run_sender,
}
use openkit_native.Communication.States.CaptureOff.{
  do_execute_capture_off, handle_off_response, request_while_off, sleep_before_request,
}
use openkit_native.Communication.States.CaptureOn.{default_sleep_time, do_execute_capture_on}
use openkit_native.Communication.States.Flush.{
  enable_all, end_all, flush_finished, do_execute_flush_sessions, do_execute_terminal,
}
use openkit_native.Communication.States.Initial.{do_execute_initial, execute_status_request}
use openkit_native.Objects.Session.{Session, is_data_sending_allowed}

-- A result that has the property.
abbrev Goes : (Context → Type 0) → Option Context → Type 0
Goes P o = (d : Context) × (o ≡ some d) × P d

abbrev IsShut : Context → Type 0
IsShut c = c.is_shutdown ≡ true

module _ (w : Surroundings) where
  requested : (c : Context) → IsShut c → is_shutdown_requested w c ≡ true
  unfolding is_shutdown_requested
  requested c shut = rw shut

  attempts-shut :
      (retries delay : ℕ) (last : Option StatusResponse) (c : Context)
      → IsShut c
      → attempts w retries delay last c ≡ (last, polled w c)
  unfolding attempts
  attempts-shut zero delay last c shut = if-true _ _ (requested c shut)
  attempts-shut (suc retries) delay last c shut = if-true _ _ (requested c shut)

  initial-IsShut :
      (fuel i : ℕ) (c : Context) → IsShut c → Goes IsShut (do_execute_initial w (suc fuel) i c)
  unfolding do_execute_initial execute_status_request polled set_init_completed
  initial-IsShut fuel i c shut =
      let e : execute_status_request w (suc fuel) i none c
          ≡ some (record { answer = none; context = polled w c }) =
        if-true _ _ (requested c shut) in
      rw (e, do_execute_initial)
        (_, refl, subst IsShut (sym (if-true _ _ (requested (polled w c) shut))) shut)

  capture_on-IsShut : (c : Context) → IsShut c → Goes IsShut (do_execute_capture_on w c)
  unfolding do_execute_capture_on polled sleep_for
  capture_on-IsShut c shut =
      (_, if-true _ _ (requested (sleep_for default_sleep_time c) shut), shut)

  -- A result that keeps what is said of the states.
  abbrev Kept : Context → Option Context → Type 0
  Kept c o = Goes (λ d. Keeps c d) o

  after-Kept : (c d : Context) (o : Option Context) → Keeps c d → Kept d o → Kept c o
  after-Kept c d o k (e, same, h) = (e, same, Keeps-trans k h)

  flush_finished-Kept :
      ((s : Session) → SendingReturns w s)
      → (ss : List Session) (too_many : Bool) (c : Context)
      → Kept c (flush_finished w ss too_many c)
  unfolding flush_finished send_session
  flush_finished-Kept returns [] too_many c = (c, refl, Keeps-same c)
  flush_finished-Kept returns (s ∷ ss) too_many c =
      if-both (Kept c) (not too_many && is_data_sending_allowed s)
        (λ sends.
          let ((answer, left), returned) = returns s c.requests c.cache in
          let sent = record c { cache = left; requests = c.requests + 1 } in
          rw returned (
            after-Kept c (forget_session w s sent) _ (sent-Keeps w s c left (c.requests + 1)) (
              flush_finished-Kept returns ss (is_too_many_requests answer)
                (forget_session w s sent))))
        (λ skips.
          after-Kept c (forget_session w s c) _ (forget-Keeps w s c)
            (flush_finished-Kept returns ss too_many (forget_session w s c)))

  flush-IsShut :
      ((s : Session) → SendingReturns w s)
      → (c : Context) → IsShut c
      → Goes IsShut (do_execute_flush_sessions w c)
  unfolding do_execute_flush_sessions set_next_state
  flush-IsShut returns c shut =
      let enabled = enable_all w (get_all_not_configured_sessions c.sessions) c in
      let closed = end_all w (get_all_open_and_configured_sessions enabled.sessions) enabled in
      let (d, done, kept) =
        flush_finished-Kept returns (get_all_finished_and_configured_sessions closed.sessions) false
          closed in
      rw (done, do_execute_flush_sessions)
        (
          _,
          refl,
          kept.flag ∙ ((end_all-Keeps w _ enabled).flag ∙ ((enable_all-Keeps w _ c).flag ∙ shut)),
        )

  off_answer-IsShut :
      (retries delay : ℕ) (c : Context)
      → IsShut c
      → let r = send_status_request w retries delay c in IsShut (handle_off_response w r.0 r.1)
  unfolding send_status_request handle_off_response polled is_too_many_requests is_successful
  off_answer-IsShut retries delay c shut = rw (attempts-shut retries delay none c shut) shut

  sleep-IsShut : (delta : ℕ) (c : Context) → IsShut c → IsShut (sleep_before_request w delta c).1
  unfolding sleep_before_request polled sleep_for
  sleep-IsShut delta c shut =
      if-both (λ (r : Bool × Context). IsShut r.1) (slt64 0 delta)
        (λ sleeps.
          if-both (λ (r : Bool × Context). IsShut r.1) (is_shutdown_requested w c) (λ y. shut)
            (λ n. shut))
        (λ up. shut)

  request-IsShut :
      (time : ℕ) (r : Bool × Context) → IsShut r.1 → IsShut (request_while_off w time r)
  unfolding request_while_off
  request-IsShut time (true, c) shut = shut
  request-IsShut time (false, c) shut =
      off_answer-IsShut status_request_retries initial_retry_sleep_time c shut

  capture_off-IsShut : (t : ℕ) (c : Context) → IsShut c → Goes IsShut (do_execute_capture_off w t c)
  unfolding do_execute_capture_off get_current_timestamp
  capture_off-IsShut t c shut =
      (_, refl, request-IsShut _ _ (sleep-IsShut _ _ ((disable-Keeps w c).flag ∙ shut)))

  terminal-IsShut : (c : Context) → Goes IsShut (do_execute_terminal w c)
  unfolding do_execute_terminal request_shutdown
  terminal-IsShut c = (_, refl, refl)

  module _ (returns : (s : Session) → SendingReturns w s) where
    do_execute-IsShut :
        (fuel : ℕ) (s : SendingState) (c : Context)
        → IsShut c
        → Goes IsShut (do_execute w (suc fuel) s c)
    unfolding do_execute
    do_execute-IsShut fuel (initial i) c shut = initial-IsShut fuel i c shut
    do_execute-IsShut fuel capture_on c shut = capture_on-IsShut c shut
    do_execute-IsShut fuel (capture_off t) c shut = capture_off-IsShut t c shut
    do_execute-IsShut fuel flush_sessions c shut = flush-IsShut returns c shut
    do_execute-IsShut fuel terminal c shut = terminal-IsShut c

    abbrev Entered : SendingState → Context → Type 0
    Entered s c = IsShut c × (c.current_state ≡ s)

    entered :
        (fuel : ℕ) (s : SendingState) (d : Context)
        → IsShut d
        → Entered s (
            enter_next_state w fuel
              (if is_shutdown_requested w d then set_next_state s (polled w d) else polled w d))
    unfolding enter_next_state set_next_state polled
    entered fuel s d shut =
        subst (λ x. Entered s (enter_next_state w fuel x)) (sym (if-true _ _ (requested d shut)))
          (shut, refl)

    execute_current_state-shut :
        (fuel : ℕ) (c : Context)
        → IsShut c
        → Goes (Entered (get_shutdown_state c.current_state)) (execute_current_state w (suc fuel) c)
    unfolding execute_current_state execute
    execute_current_state-shut fuel c shut =
        let (d, done, still) =
          do_execute-IsShut fuel c.current_state (record c { next_state = none }) shut in
        rw (done, execute_current_state, execute)
          (_, refl, entered (suc fuel) (get_shutdown_state c.current_state) d still)

    is_terminal : (c : Context) → c.current_state ≡ terminal → is_in_terminal_state c ≡ true
    unfolding is_in_terminal_state is_terminal_state
    is_terminal c h = rw h

    -- A round of the loop in a state that is not terminal, when the shutdown is requested.
    round-shut :
        (fuel rounds : ℕ) (s : SendingState) (c : Context)
        → IsShut c
        → c.current_state ≡ s
        → is_terminal_state s ≡ false
        → (d : Context) × (run_sender w (suc fuel) (suc rounds) c
            ≡ run_sender w (suc fuel) rounds d)
          × Entered (get_shutdown_state s) d
    unfolding run_sender
    round-shut fuel rounds s c shut here going =
        let (d, done, entered_next) = execute_current_state-shut fuel c shut in
        let open_state : is_in_terminal_state c ≡ false =
          unfold is_in_terminal_state in rw here going in
        (
          d,
          if-false _ _ open_state ∙ rw done,
          subst (λ x. Entered (get_shutdown_state x) d) here entered_next,
        )

    abbrev Ends : Option Context → Type 0
    Ends o = Goes (λ d. is_in_terminal_state d ≡ true) o

    run-terminal :
        (fuel rounds : ℕ) (c : Context)
        → c.current_state ≡ terminal
        → Ends (run_sender w fuel rounds c)
    unfolding run_sender
    run-terminal fuel zero c here = (c, if-true _ _ (is_terminal c here), is_terminal c here)
    run-terminal fuel (suc rounds) c here =
        (c, if-true _ _ (is_terminal c here), is_terminal c here)

    -- one more round, into a state from which the loop ends
    run-next :
        (fuel rounds : ℕ) (s : SendingState) (c : Context)
        → IsShut c
        → c.current_state ≡ s
        → is_terminal_state s ≡ false
        → ((d : Context)
            → IsShut d
            → d.current_state ≡ get_shutdown_state s
            → Ends (run_sender w (suc fuel) rounds d))
        → Ends (run_sender w (suc fuel) (suc rounds) c)
    run-next fuel rounds s c shut here going next =
        let (d, same, (shut', there)) = round-shut fuel rounds s c shut here going in
        let (e, result, over) = next d shut' there in (e, same ∙ result, over)

    run-flush :
        (fuel rounds : ℕ) (c : Context)
        → IsShut c
        → c.current_state ≡ flush_sessions
        → Ends (run_sender w (suc fuel) (suc rounds) c)
    unfolding get_shutdown_state is_terminal_state
    run-flush fuel rounds c shut here =
        run-next fuel rounds flush_sessions c shut here refl
          (λ d shut' there. run-terminal (suc fuel) rounds d there)

    run-shut :
        (fuel rounds : ℕ) (s : SendingState) (c : Context)
        → IsShut c
        → c.current_state ≡ s
        → Ends (run_sender w (suc fuel) (suc (suc rounds)) c)
    unfolding get_shutdown_state is_terminal_state
    run-shut fuel rounds (initial i) c shut here =
        run-next fuel (suc rounds) (initial i) c shut here refl
          (λ d shut' there. run-terminal (suc fuel) (suc rounds) d there)
    run-shut fuel rounds capture_on c shut here =
        run-next fuel (suc rounds) capture_on c shut here refl (λ d. run-flush fuel rounds d)
    run-shut fuel rounds (capture_off t) c shut here =
        run-next fuel (suc rounds) (capture_off t) c shut here refl (λ d. run-flush fuel rounds d)
    run-shut fuel rounds flush_sessions c shut here = run-flush fuel (suc rounds) c shut here
    run-shut fuel rounds terminal c shut here = run-terminal (suc fuel) (suc (suc rounds)) c here

    -- Once the shutdown is requested, and where every call of `Beacon::send` returns, the loop of the
    -- sending thread ends in the terminal state within two rounds, whatever the state it is in.
    pub run_sender-shutdown :
        (fuel rounds : ℕ) (c : Context)
        → c.is_shutdown ≡ true
        → (d : Context) × (run_sender w (suc fuel) (suc (suc rounds)) c ≡ some d)
          × (is_in_terminal_state d ≡ true)
    run_sender-shutdown fuel rounds c shut = run-shut fuel rounds c.current_state c shut refl
