-- ===== src/Communication/Machine/Steps.antt =====
-- core/communication: which state follows which.
use mathlib.Core.Path.{subst}
use openkit_native.Prelude.{
  Bool, Option, Option-cases, false, if-both, if◌then◌else◌, inl, inr, none, not, refl, slt64, some,
  sym, true, ℕ, ◌&&◌, ◌-◌, ◌^◌, ◌∙◌, ◌≡◌, ◌⊎◌,
}
use openkit_native.Communication.Context.{
  Context, SendingState, Surroundings, capture_off, capture_on, disable_capture_and_clear,
  flush_sessions, get_all_finished_and_configured_sessions, get_all_not_configured_sessions,
  handle_status_response, initial, is_capture_on, is_shutdown_requested, polled, set_next_state,
  sleep_for, terminal,
}
use openkit_native.Communication.Machine.{enter_next_state, get_shutdown_state}
use openkit_native.Communication.Machine.Frame.{Keeps, Keeps-same, Keeps-trans, disable-Keeps}
use openkit_native.Communication.Machine.Work.{
  SentKeeps, WherePresent, attempts-Keeps, handle_status_response-Keeps, polled-Keeps, read-Keeps,
  send_finished-Keeps, send_new-Keeps, send_open-Keeps, slept-Keeps,
}
use openkit_native.Communication.States.{Sent, initial_retry_sleep_time, status_request_retries}
use openkit_native.Protocol.StatusResponse.{StatusResponse, is_successful, is_too_many_requests}
use openkit_native.Communication.Requests.{send_status_request}
use openkit_native.Communication.States.CaptureOff.{
  answered, do_execute_capture_off, handle_off_response, request_while_off, sleep_before_request,
}
use openkit_native.Communication.States.CaptureOn.{
  after_open_sessions, after_finished_sessions, after_new_sessions, send_open_sessions,
  send_finished_sessions, default_sleep_time, do_execute_capture_on, handle_last_response,
  send_new_session_requests,
}

-- The arrows between the states. The delay index of the initial state and the time to sleep may change.
pub data Follows : SendingState → SendingState → Type 0 where
  still_initial : {i j : ℕ} → Follows (initial i) (initial j)
  initialized_on : {i : ℕ} → Follows (initial i) capture_on
  initialized_off : {i t : ℕ} → Follows (initial i) (capture_off t)
  given_up : {i : ℕ} → Follows (initial i) terminal
  still_on : Follows capture_on capture_on
  turned_off : {t : ℕ} → Follows capture_on (capture_off t)
  flushed_on : Follows capture_on flush_sessions
  still_off : {t u : ℕ} → Follows (capture_off t) (capture_off u)
  turned_on : {t : ℕ} → Follows (capture_off t) capture_on
  flushed_off : {t : ℕ} → Follows (capture_off t) flush_sessions
  all_flushed : Follows flush_sessions terminal
  still_terminal : Follows terminal terminal

-- What an execution of `doExecute` has decided: the next state follows, or there is none and the current
-- one does.
abbrev pub Decides : SendingState → Context → Type 0
Decides s d =
    ((d.next_state ≡ none) × Follows s d.current_state)
    ⊎ ((t : SendingState) × ((d.next_state ≡ some t) × Follows s t))

shutdown-Follows : (s : SendingState) → Follows s (get_shutdown_state s)
unfolding get_shutdown_state
shutdown-Follows (initial i) = given_up
shutdown-Follows capture_on = flushed_on
shutdown-Follows (capture_off t) = flushed_off
shutdown-Follows flush_sessions = all_flushed
shutdown-Follows terminal = still_terminal

module _ (w : Surroundings) where
  pub enter-Follows :
      (fuel : ℕ) (s : SendingState) (d : Context)
      → Decides s d
      → Follows s (enter_next_state w fuel d).current_state
  unfolding enter_next_state
  enter-Follows fuel s d (inl (none_next, follows)) = rw (none_next, enter_next_state) follows
  enter-Follows fuel s d (inr (t, (there, follows))) = rw (there, enter_next_state) follows

  pub polled-Decides :
      (s : SendingState) (d : Context)
      → Decides s d
      → Decides s (
          if is_shutdown_requested w d
          then set_next_state (get_shutdown_state s) (polled w d)
          else polled w d)
  unfolding set_next_state polled
  polled-Decides s d h =
      if-both (Decides s) (is_shutdown_requested w d)
        (λ stops. inr (get_shutdown_state s, (refl, shutdown-Follows s))) (λ goes_on. h)

  -- From a context that is in a state and has no next one, work that keeps both decides for the state.
  abbrev pub IsIn : SendingState → Context → Type 0
  IsIn s c = (c.current_state ≡ s) × (c.next_state ≡ none)

  IsIn-Keeps : (s : SendingState) (c d : Context) → IsIn s c → Keeps c d → IsIn s d
  IsIn-Keeps s c d h k = (k.current ∙ h.0, k.next ∙ h.1)

  pub stays : (s : SendingState) (d : Context) → Follows s s → IsIn s d → Decides s d
  stays s d same h = inl (h.1, subst (Follows s) (sym h.0) same)

  pub moves : (s t : SendingState) (d : Context) → Follows s t → Decides s (set_next_state t d)
  unfolding set_next_state
  moves s t d follows = inr (t, (refl, follows))

  last-Decides :
      (answer : Option StatusResponse) (c : Context)
      → IsIn capture_on c
      → Decides capture_on (handle_last_response w answer c)
  unfolding handle_last_response
  last-Decides none c h = stays capture_on c still_on h
  last-Decides (some r) c h =
      let handled = IsIn-Keeps capture_on c _ h (handle_status_response-Keeps w (some r) c) in
      if-both (Decides capture_on) (not (is_capture_on (handle_status_response (some r) c)))
        (λ off. moves capture_on (capture_off (2 ^ 64 - 1)) _ turned_off)
        (λ on. stays capture_on (handle_status_response (some r) c) still_on handled)

  -- the end of a run of the capture on state
  after_open-Decides :
      (new finished opened : Sent)
      → IsIn capture_on opened.context
      → Decides capture_on (after_open_sessions w new finished opened)
  unfolding after_open_sessions
  after_open-Decides new finished opened h =
      if-both (Decides capture_on) (is_too_many_requests opened.answer)
        (λ busy. moves capture_on _ opened.context turned_off)
        (λ fine. last-Decides _ opened.context h)

  after_finished-Decides :
      (new finished : Sent)
      → IsIn capture_on finished.context
      → WherePresent (Decides capture_on) (after_finished_sessions w new finished)
  unfolding after_finished_sessions
  after_finished-Decides new finished h =
      if-both (WherePresent (Decides capture_on)) (is_too_many_requests finished.answer)
        (λ busy. moves capture_on _ finished.context turned_off)
        (λ fine. elim (Option-cases (send_open_sessions w finished.context)) [
          | inl hangs ↦ rw hangs tt
          | inr (opened, got) ↦
              let k =
                subst (WherePresent (SentKeeps w finished.context)) got
                  (send_open-Keeps w finished.context) in
              rw got (
                after_open-Decides new finished opened
                  (IsIn-Keeps capture_on finished.context opened.context h k))
        ])

  after_new-Decides :
      (new : Sent)
      → IsIn capture_on new.context
      → WherePresent (Decides capture_on) (after_new_sessions w new)
  unfolding after_new_sessions
  after_new-Decides new h =
      let ss = get_all_finished_and_configured_sessions new.context.sessions in
      if-both (WherePresent (Decides capture_on)) (is_too_many_requests new.answer)
        (λ busy. moves capture_on _ new.context turned_off)
        (λ fine. elim (Option-cases (send_finished_sessions w ss none new.context)) [
          | inl hangs ↦ rw hangs tt
          | inr (finished, got) ↦
              let k =
                subst (WherePresent (SentKeeps w new.context)) got
                  (send_finished-Keeps w ss none new.context) in
              rw got (
                after_finished-Decides new finished
                  (IsIn-Keeps capture_on new.context finished.context h k))
        ])

  pub capture_on-Decides :
      (c : Context)
      → IsIn capture_on c
      → WherePresent (Decides capture_on) (do_execute_capture_on w c)
  unfolding do_execute_capture_on
  capture_on-Decides c h =
      let slept = sleep_for default_sleep_time c in
      let ready =
        IsIn-Keeps capture_on c (polled w slept) h
          (Keeps-trans (slept-Keeps w default_sleep_time c) (polled-Keeps w slept)) in
      if-both (WherePresent (Decides capture_on)) (is_shutdown_requested w slept)
        (λ stops. stays capture_on (polled w slept) still_on ready)
        (λ goes_on.
          let asked = polled w slept in
          let ss = get_all_not_configured_sessions asked.sessions in
          elim (Option-cases (send_new_session_requests w ss none asked)) [
            | inl crashed ↦ rw crashed tt
            | inr (new, got) ↦
                let k =
                  subst (WherePresent (SentKeeps w asked)) got (send_new-Keeps w ss none asked) in
                rw got (after_new-Decides new (IsIn-Keeps capture_on asked new.context ready k))
          ])

  answered-IsIn :
      (t : ℕ) (answer : Option StatusResponse) (c : Context)
      → IsIn (capture_off t) c
      → IsIn (capture_off t) (answered w answer c)
  answered-IsIn t none c h = h
  answered-IsIn t (some r) c h =
      IsIn-Keeps (capture_off t) c _ h (handle_status_response-Keeps w (some r) c)

  off_answer-Decides :
      (t : ℕ) (answer : Option StatusResponse) (c : Context)
      → IsIn (capture_off t) c
      → Decides (capture_off t) (handle_off_response w answer c)
  unfolding handle_off_response
  off_answer-Decides t answer c h =
      let handled : IsIn (capture_off t) (answered w answer c) = answered-IsIn t answer c h in
      if-both (Decides (capture_off t)) (is_too_many_requests answer)
        (λ busy. moves (capture_off t) _ _ still_off)
        (λ fine.
          if-both (Decides (capture_off t))
            (is_successful answer && is_capture_on (answered w answer c))
            (λ on. moves (capture_off t) capture_on _ turned_on)
            (λ off. stays (capture_off t) (answered w answer c) still_off handled))

  request-Decides :
      (t time : ℕ) (r : Bool × Context)
      → IsIn (capture_off t) r.1
      → Decides (capture_off t) (request_while_off w time r)
  unfolding request_while_off send_status_request
  request-Decides t time (true, c) h = stays (capture_off t) c still_off h
  request-Decides t time (false, c) h = off_answer-Decides t _ _ (
      IsIn-Keeps (capture_off t) c _ h
        (attempts-Keeps w status_request_retries initial_retry_sleep_time none c))

  sleep-Keeps : (delta : ℕ) (c : Context) → Keeps c (sleep_before_request w delta c).1
  unfolding sleep_before_request
  sleep-Keeps delta c =
      if-both (λ (r : Bool × Context). Keeps c r.1) (slt64 0 delta)
        (λ sleeps.
          if-both (λ (r : Bool × Context). Keeps c r.1) (is_shutdown_requested w c)
            (λ y. polled-Keeps w c)
            (λ n.
              Keeps-trans (Keeps-trans (polled-Keeps w c) (slept-Keeps w delta (polled w c)))
                (polled-Keeps w (sleep_for delta (polled w c)))))
        (λ up. Keeps-same c)

  pub capture_off-Decides :
      (t : ℕ) (c : Context)
      → IsIn (capture_off t) c
      → WherePresent (Decides (capture_off t)) (do_execute_capture_off w t c)
  unfolding do_execute_capture_off
  capture_off-Decides t c h = request-Decides t _ _ (
      IsIn-Keeps (capture_off t) c _ h (
        Keeps-trans (Keeps-trans (disable-Keeps w c) (read-Keeps w (disable_capture_and_clear c)))
          (sleep-Keeps _ _)))
