-- ===== src/Communication/Machine/Arrows.antt =====
-- core/communication: each execution follows an arrow between the states.
use mathlib.Core.Path.{subst}
use openkit_native.Prelude.{
  Bool, Option, Option-cases, false, if-both, if◌then◌else◌, inl, inr, none, refl, some, suc, sym,
  true, zero, ℕ, ◌-◌, ◌^◌, ◌∙◌, ◌≡◌,
}
use openkit_native.Communication.Context.{
  get_all_finished_and_configured_sessions, get_all_not_configured_sessions,
  get_all_open_and_configured_sessions, Context, SendingState, Surroundings, capture_off,
  capture_on, disable_capture_and_clear, flush_sessions, get_current_timestamp,
  handle_status_response, initial, is_capture_on, is_shutdown_requested, polled, request_shutdown,
  set_init_completed, set_next_state, sleep_for, terminal,
}
use openkit_native.Communication.Machine.{do_execute, execute, execute_current_state}
use openkit_native.Communication.Machine.Frame.{Keeps, Keeps-trans, disable-Keeps}
use openkit_native.Communication.Machine.Steps.{
  Decides, Follows, IsIn, all_flushed, capture_off-Decides, capture_on-Decides, enter-Follows,
  initialized_off, initialized_on, moves, polled-Decides, stays, still_initial, still_terminal,
}
use openkit_native.Communication.Machine.Work.{
  WherePresent, attempts-Keeps, polled-Keeps, read-Keeps, slept-Keeps,
}
use openkit_native.Communication.Requests.{attempts, send_status_request}
use openkit_native.Communication.States.{Sent, initial_retry_sleep_time, status_request_retries}
use openkit_native.Protocol.StatusResponse.{StatusResponse, is_successful, is_too_many_requests}
use openkit_native.Communication.States.Flush.{
  enable_all, end_all, flush_finished, do_execute_flush_sessions, do_execute_terminal,
}
use openkit_native.Communication.States.Initial.{
  do_execute_initial, execute_status_request, next_delay_index, set_delay_index,
}

module _ (w : Surroundings) where
  flush-Decides :
      (c : Context)
      → IsIn w flush_sessions c
      → WherePresent (Decides flush_sessions) (do_execute_flush_sessions w c)
  unfolding do_execute_flush_sessions
  flush-Decides c h =
      let enabled = enable_all w (get_all_not_configured_sessions c.sessions) c in
      let closed = end_all w (get_all_open_and_configured_sessions enabled.sessions) enabled in
      let ss = get_all_finished_and_configured_sessions closed.sessions in
      elim (Option-cases (flush_finished w ss false closed)) [
        | inl hangs ↦ rw (hangs, do_execute_flush_sessions) tt
        | inr (d, got) ↦
            rw (got, do_execute_flush_sessions) (moves w flush_sessions terminal d all_flushed)
      ]

  terminal-Decides :
      (c : Context) → IsIn w terminal c → WherePresent (Decides terminal) (do_execute_terminal w c)
  unfolding do_execute_terminal request_shutdown
  terminal-Decides c h = stays w terminal (record c { is_shutdown = true }) still_terminal h

  -- the loop of the initial state changes its index only
  IsInitial : Context → Type 0
  IsInitial c = ((j : ℕ) × (c.current_state ≡ initial j)) × (c.next_state ≡ none)

  IsInitial-Keeps : (c d : Context) → IsInitial c → Keeps c d → IsInitial d
  unfolding IsInitial
  IsInitial-Keeps c d h k = ((h.0.0, k.current ∙ h.0.1), k.next ∙ h.1)

  waited-IsInitial : (j : ℕ) (c : Context) → IsInitial c → IsInitial (set_delay_index j c)
  unfolding IsInitial set_delay_index
  waited-IsInitial j c h = ((j, refl), h.1)

  abbrev InitialSent : Sent → Type 0
  InitialSent r = IsInitial r.context

  noted-Keeps_both :
      (time : ℕ) (c : Context)
      → Keeps c
          (record c { last_open_session_beacon_send_time = time; last_status_check_time = time })
  noted-Keeps_both time c = record { current = refl; next = refl; flag = refl }

  waiting-Keeps :
      (busy : Bool) (ms : ℕ) (c : Context)
      → Keeps c (sleep_for ms (if busy then disable_capture_and_clear c else c))
  waiting-Keeps true ms c =
      Keeps-trans (disable-Keeps w c) (slept-Keeps w ms (disable_capture_and_clear c))
  waiting-Keeps false ms c = slept-Keeps w ms c

  loop-IsInitial :
      (fuel i : ℕ) (last : Option StatusResponse) (c : Context)
      → IsInitial c
      → WherePresent InitialSent (execute_status_request w fuel i last c)
  unfolding execute_status_request send_status_request
  loop-IsInitial zero i last c h = tt
  loop-IsInitial (suc fuel) i last c h =
      let asked = polled w c in
      let read = (get_current_timestamp w asked).1 in
      let noted = record read {
        last_open_session_beacon_send_time = (get_current_timestamp w asked).0;
        last_status_check_time = (get_current_timestamp w asked).0;
      } in
      let answer = (attempts w status_request_retries initial_retry_sleep_time none noted).0 in
      let tried = (attempts w status_request_retries initial_retry_sleep_time none noted).1 in
      let k =
        Keeps-trans (Keeps-trans (polled-Keeps w c) (read-Keeps w asked))
          (noted-Keeps_both (get_current_timestamp w asked).0 read) in
      let there : IsInitial tried = IsInitial-Keeps c tried h (
        Keeps-trans k
          (attempts-Keeps w status_request_retries initial_retry_sleep_time none noted)) in
      if-both (WherePresent InitialSent) (is_shutdown_requested w c)
        (λ stops. IsInitial-Keeps c asked h (polled-Keeps w c))
        (λ goes_on.
          if-both (WherePresent InitialSent) (is_successful answer) (λ ok. there)
            (λ failed. loop-IsInitial fuel (next_delay_index i) answer _ (
              waited-IsInitial (next_delay_index i) _ (
                IsInitial-Keeps tried _ there
                  (waiting-Keeps (is_too_many_requests answer) _ tried)))))

  done-Decides :
      (i : ℕ) (answer : Option StatusResponse) (c : Context)
      → IsInitial c
      → Decides (initial i) (
          if is_shutdown_requested w c
          then set_init_completed false (polled w c)
          else if is_successful answer
          then set_init_completed true (
              set_next_state
                (if is_capture_on (handle_status_response answer (polled w c))
                  then capture_on
                  else capture_off (2 ^ 64 - 1))
                (handle_status_response answer (polled w c)))
          else polled w c)
  unfolding set_init_completed set_next_state IsInitial polled
  done-Decides i answer c h =
      let unmoved : Follows (initial i) c.current_state =
        subst (Follows (initial i)) (sym h.0.1) still_initial in
      if-both (Decides (initial i)) (is_shutdown_requested w c) (λ stops. inl (h.1, unmoved))
        (λ goes_on.
          if-both (Decides (initial i)) (is_successful answer)
            (λ ok. inr (
              _,
              (
                refl,
                if-both (Follows (initial i))
                    (is_capture_on (handle_status_response answer (polled w c)))
                    (λ on. initialized_on) (λ off. initialized_off),
              ),
            ))
            (λ failed. inl (h.1, unmoved)))

  initial-Decides :
      (fuel i : ℕ) (c : Context)
      → IsIn w (initial i) c
      → WherePresent (Decides (initial i)) (do_execute_initial w fuel i c)
  unfolding do_execute_initial IsInitial
  initial-Decides fuel i c h = elim (Option-cases (execute_status_request w fuel i none c)) [
    | inl nothing ↦ rw (nothing, do_execute_initial) tt
    | inr (r, got) ↦
        rw (got, do_execute_initial)
          (done-Decides i r.answer r.context
            (subst (WherePresent InitialSent) got (loop-IsInitial fuel i none c ((i, h.0), h.1))))
  ]

  do_execute-Decides :
      (fuel : ℕ) (s : SendingState) (c : Context)
      → IsIn w s c
      → WherePresent (Decides s) (do_execute w fuel s c)
  unfolding do_execute
  do_execute-Decides fuel (initial i) c h = initial-Decides fuel i c h
  do_execute-Decides fuel capture_on c h = capture_on-Decides w c h
  do_execute-Decides fuel (capture_off t) c h = capture_off-Decides w t c h
  do_execute-Decides fuel flush_sessions c h = flush-Decides c h
  do_execute-Decides fuel terminal c h = terminal-Decides c h

  abbrev FollowsIn : Context → Context → Type 0
  FollowsIn c d = Follows c.current_state d.current_state

  executed-Follows :
      (fuel : ℕ) (c : Context) → WherePresent (FollowsIn c) (execute_current_state w fuel c)
  unfolding execute_current_state execute
  executed-Follows fuel c =
      let ready = record c { next_state = none } in
      elim (Option-cases (do_execute w fuel c.current_state ready)) [
        | inl nothing ↦ rw (nothing, execute_current_state, execute) tt
        | inr (e, got) ↦
            let decided : Decides c.current_state e =
              subst (WherePresent (Decides c.current_state)) got
                (do_execute-Decides fuel c.current_state ready (refl, refl)) in
            rw (got, execute_current_state, execute)
              (enter-Follows w fuel c.current_state _ (polled-Decides w c.current_state e decided))
      ]

  -- An execution of the current state, if it has a result, leads along one of the arrows between the states,
  -- whatever the server answers and whenever a shutdown is requested.
  pub execute_current_state-Follows :
      (fuel : ℕ) (c d : Context)
      → execute_current_state w fuel c ≡ some d
      → Follows c.current_state d.current_state
  execute_current_state-Follows fuel c d result =
      subst (WherePresent (FollowsIn c)) result (executed-Follows fuel c)
