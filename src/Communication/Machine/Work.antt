-- ===== src/Communication/Machine/Work.antt =====
-- core/communication: requests and the loops over sessions decide nothing about the states.
use mathlib.Core.Path.{subst}
use openkit_native.Prelude.{
  add64, slt64, sign_extend32, ◌≡◌, List, Option, Option-cases, [], if-both, inl, inr, none, not,
  refl, some, suc, zero, ℕ, ◌%◌, ◌&&◌, ◌*◌, ◌+◌, ◌^◌, ◌||◌, ◌∷◌,
}
use openkit_native.Caching.Cache.{Cache}
use openkit_native.Communication.Context.{
  Context, Surroundings, clear_all_session_data, get_all_open_and_configured_sessions,
  get_current_timestamp, handle_status_response, is_capture_on, is_shutdown_requested, polled,
  sleep_for, update_from,
}
use openkit_native.Communication.Machine.Frame.{
  Keeps, Keeps-same, Keeps-trans, disable-Keeps, forget-Keeps,
}
use openkit_native.Communication.Requests.{attempts}
use openkit_native.Communication.States.{Sent, forget_session, send_session}
use openkit_native.Objects.Session.{
  Session, can_send_new_session_request, clear_captured_data, is_data_sending_allowed,
  session_is_empty, update_session_configuration,
}
use openkit_native.Protocol.StatusResponse.{
  StatusResponse, is_erroneous_response, is_successful, is_too_many_requests,
}
use openkit_native.Configuration.Server.{from_attributes}
use openkit_native.Communication.States.CaptureOn.{
  send_finished_sessions, send_new_session_requests, send_open_session_list, send_open_sessions,
}
use openkit_native.Caching.Cache

-- A result, if there is one, has the property.
abbrev pub WherePresent {ℓ} : {A : Type ℓ} → (A → Type 0) → Option A → Type 0
WherePresent P none = Unit
WherePresent P (some a) = P a

plain_Keeps :
    (c : Context) (ss : List Session) (cache : Cache.Cache) (n : ℕ)
    → Keeps c (record c { sessions = ss; cache = cache; requests = n })
plain_Keeps c ss cache n = record { current = refl; next = refl; flag = refl }

pub update_from-Keeps :
    (answer : Option StatusResponse) (c : Context) → Keeps c (update_from answer c)
unfolding update_from
update_from-Keeps none c = Keeps-same c
update_from-Keeps (some r) c =
    if-both (Keeps c) (not (is_successful (some r))) (λ failed. Keeps-same c)
      (λ ok. record { current = refl; next = refl; flag = refl })

clear-Keeps : (c : Context) → Keeps c (clear_all_session_data c)
unfolding clear_all_session_data
clear-Keeps c = record { current = refl; next = refl; flag = refl }

module _ (w : Surroundings) where
  pub handle_status_response-Keeps :
      (answer : Option StatusResponse) (c : Context) → Keeps c (handle_status_response answer c)
  unfolding handle_status_response
  handle_status_response-Keeps none c = disable-Keeps w c
  handle_status_response-Keeps (some r) c =
      if-both (Keeps c) (is_erroneous_response r) (λ error. disable-Keeps w c)
        (λ fine.
          if-both (Keeps c) (not (is_capture_on (update_from (some r) c)))
            (λ off.
              Keeps-trans (update_from-Keeps (some r) c) (clear-Keeps (update_from (some r) c)))
            (λ on. update_from-Keeps (some r) c))

  abbrev SecondKeeps : Context → Option StatusResponse × Context → Type 0
  SecondKeeps c r = Keeps c r.1

  pub polled-Keeps : (c : Context) → Keeps c (polled w c)
  unfolding polled
  polled-Keeps c = record { current = refl; next = refl; flag = refl }

  requested-Keeps : (n : ℕ) (c : Context) → Keeps c (record (polled w c) { requests = n })
  unfolding polled
  requested-Keeps n c = record { current = refl; next = refl; flag = refl }

  pub slept-Keeps : (ms : ℕ) (c : Context) → Keeps c (sleep_for ms c)
  unfolding sleep_for
  slept-Keeps ms c = record { current = refl; next = refl; flag = refl }

  pub attempts-Keeps :
      (retries delay : ℕ) (last : Option StatusResponse) (c : Context)
      → Keeps c (attempts w retries delay last c).1
  unfolding attempts
  attempts-Keeps zero delay last c =
      if-both (SecondKeeps c) (is_shutdown_requested w c) (λ stops. polled-Keeps c)
        (λ goes_on.
          if-both (SecondKeeps c) (not (w.has_client c.polls)) (λ alone. polled-Keeps c)
            (λ served. requested-Keeps (c.requests + 1) c))
  attempts-Keeps (suc retries) delay last c =
      let sent = record (polled w c) { requests = c.requests + 1 } in
      if-both (SecondKeeps c) (is_shutdown_requested w c) (λ stops. polled-Keeps c)
        (λ goes_on.
          if-both (SecondKeeps c) (not (w.has_client c.polls)) (λ alone. polled-Keeps c)
            (λ served.
              if-both (SecondKeeps c)
                (is_successful (w.status_answer c.requests)
                  || is_too_many_requests (w.status_answer c.requests))
                (λ over. requested-Keeps (c.requests + 1) c)
                (λ failed.
                  Keeps-trans
                    (Keeps-trans (requested-Keeps (c.requests + 1) c) (slept-Keeps delay sent))
                    (attempts-Keeps retries (delay * 2 % 2 ^ 64) (w.status_answer c.requests)
                      (sleep_for delay sent)))))

  send-Keeps : (s : Session) (c : Context) → WherePresent (SecondKeeps c) (send_session w s c)
  unfolding send_session
  send-Keeps s c = elim (Option-cases (w.send_beacon c.requests s c.cache)) [
    | inl hangs ↦ rw (hangs, send_session) tt
    | inr (r, returned) ↦ rw (returned, send_session) (plain_Keeps c c.sessions _ _)
  ]

  sent_session-Keeps :
      (s : Session) (c : Context) (r : Option StatusResponse × Context)
      → send_session w s c ≡ some r
      → Keeps c r.1
  sent_session-Keeps s c r got = subst (WherePresent (SecondKeeps c)) got (send-Keeps s c)

  abbrev pub SentKeeps : Context → Sent → Type 0
  SentKeeps c r = Keeps c r.context

  after-Keeps :
      (c d : Context) (o : Option Sent)
      → Keeps c d
      → WherePresent (SentKeeps d) o
      → WherePresent (SentKeeps c) o
  after-Keeps c d none k h = tt
  after-Keeps c d (some r) k h = Keeps-trans k h

  pub send_finished-Keeps :
      (ss : List Session) (last : Option StatusResponse) (c : Context)
      → WherePresent (SentKeeps c) (send_finished_sessions w ss last c)
  unfolding send_finished_sessions
  send_finished-Keeps [] last c = Keeps-same c
  send_finished-Keeps (s ∷ ss) last c =
      if-both (WherePresent (SentKeeps c)) (is_data_sending_allowed s)
        (λ wanted. elim (Option-cases (send_session w s c)) [
          | inl hangs ↦ rw hangs tt
          | inr ((answer, sent), got) ↦
              let k : Keeps c sent = sent_session-Keeps s c (answer, sent) got in
              rw got (
                if-both (WherePresent (SentKeeps c))
                  (not (is_successful answer)
                    && (is_too_many_requests answer || not (session_is_empty s sent.cache)))
                  {x = some (record { answer = answer; context = sent })} (λ failed. k)
                  (λ passed.
                    after-Keeps c (forget_session w s sent) _
                      (Keeps-trans k (forget-Keeps w s sent))
                      (send_finished-Keeps ss answer (forget_session w s sent))))
        ])
        (λ unwanted. after-Keeps c _ _ (forget-Keeps w s c) (send_finished-Keeps ss last _))

  send_open_list-Keeps :
      (ss : List Session) (last : Option StatusResponse) (c : Context)
      → WherePresent (SentKeeps c) (send_open_session_list w ss last c)
  unfolding send_open_session_list
  send_open_list-Keeps [] last c = Keeps-same c
  send_open_list-Keeps (s ∷ ss) last c =
      if-both (WherePresent (SentKeeps c)) (is_data_sending_allowed s)
        (λ wanted. elim (Option-cases (send_session w s c)) [
          | inl hangs ↦ rw hangs tt
          | inr ((answer, sent), got) ↦
              let k : Keeps c sent = sent_session-Keeps s c (answer, sent) got in
              rw got (
                if-both (WherePresent (SentKeeps c)) (is_too_many_requests answer)
                  {x = some (record { answer = answer; context = sent })} (λ failed. k)
                  (λ passed. after-Keeps c sent _ k (send_open_list-Keeps ss answer sent)))
        ])
        (λ unwanted.
          after-Keeps c _ _ (plain_Keeps c c.sessions (clear_captured_data s c.cache) c.requests)
            (send_open_list-Keeps ss last _))

  -- after the loop the time is noted
  noted-Keeps :
      (time : ℕ) (c d : Context)
      → Keeps c d
      → Keeps c (record d { last_open_session_beacon_send_time = time })
  noted-Keeps time c d k = record { current = k.current; next = k.next; flag = k.flag }

  pub read-Keeps : (c : Context) → Keeps c (get_current_timestamp w c).1
  unfolding get_current_timestamp
  read-Keeps c = record { current = refl; next = refl; flag = refl }

  pub send_open-Keeps : (c : Context) → WherePresent (SentKeeps c) (send_open_sessions w c)
  unfolding send_open_sessions
  send_open-Keeps c =
      let time = (get_current_timestamp w c).0 in
      let read = (get_current_timestamp w c).1 in
      let due =
        add64 c.last_open_session_beacon_send_time
          (sign_extend32 c.last_response_attributes.send_interval_in_milliseconds) in
      let open_ones = get_all_open_and_configured_sessions read.sessions in
      if-both (WherePresent (SentKeeps c)) (not (slt64 due time))
        {x = some (record { answer = none; context = read })} (λ early. read-Keeps c)
        (λ due. elim (Option-cases (send_open_session_list w open_ones none read)) [
          | inl hangs ↦ rw hangs tt
          | inr (r, got) ↦
              let k : Keeps read r.context =
                subst (WherePresent (SentKeeps read)) got
                  (send_open_list-Keeps open_ones none read) in
              rw got (noted-Keeps time c r.context (Keeps-trans (read-Keeps c) k))
        ])

  more_sessions-Keeps :
      (c d : Context) (ss : List Session) → Keeps c d → Keeps c (record d { sessions = ss })
  more_sessions-Keeps c d ss k = record { current = k.current; next = k.next; flag = k.flag }

  more_requests-Keeps : (c : Context) → Keeps c (record c { requests = c.requests + 1 })
  more_requests-Keeps c = record { current = refl; next = refl; flag = refl }

  pub send_new-Keeps :
      (ss : List Session) (last : Option StatusResponse) (c : Context)
      → WherePresent (SentKeeps c) (send_new_session_requests w ss last c)
  unfolding send_new_session_requests
  send_new-Keeps [] last c = Keeps-same c
  send_new-Keeps (s ∷ ss) last c =
      let answer = w.new_session_answer c.requests in
      let sent = record c { requests = c.requests + 1 } in
      let updated = update_from answer sent in
      let k = Keeps-trans (more_requests-Keeps c) (update_from-Keeps answer sent) in
      if-both (WherePresent (SentKeeps c)) (not (can_send_new_session_request s))
        (λ refused.
          after-Keeps c _ _ (more_sessions-Keeps c c _ (Keeps-same c)) (send_new-Keeps ss last _))
        (λ asks.
          if-both (WherePresent (SentKeeps c)) (is_successful answer)
            (λ ok.
              elim (Option-cases (
                update_session_configuration (from_attributes updated.last_response_attributes)
                  s)) [
                    | inl crashed ↦ rw crashed tt
                    | inr (s', got) ↦ rw got (
                        after-Keeps c _ _ (more_sessions-Keeps c updated _ k)
                          (send_new-Keeps ss answer _))
                  ])
            (λ bad.
              if-both (WherePresent (SentKeeps c)) (is_too_many_requests answer)
                (λ busy. more_requests-Keeps c)
                (λ failed.
                  after-Keeps c _ _ (more_sessions-Keeps c sent _ (more_requests-Keeps c))
                    (send_new-Keeps ss answer _))))
