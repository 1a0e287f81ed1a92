-- ===== src/Communication/States/Flush.antt =====
-- core/communication/BeaconSendingFlushSessionsState.cxx and BeaconSendingTerminalState.cxx
use openkit_native.Prelude.{
  none, Bool, List, Option, [], false, if◌then◌else◌, not, some, ◌&&◌, ◌∷◌,
}
use openkit_native.Communication.Context.{
  Context, Surroundings, get_all_finished_and_configured_sessions, get_all_not_configured_sessions,
  get_all_open_and_configured_sessions, replace_session, request_shutdown, set_next_state, terminal,
}
use openkit_native.Communication.States.{forget_session, send_session}
use openkit_native.Objects.Session.{Session, enable_capture, end_session, is_data_sending_allowed}
use openkit_native.Protocol.StatusResponse.{is_too_many_requests}

module _ (w : Surroundings) where
  -- the sessions that the flush finds: those without a configuration get one, then those that are open end
  unfoldable pub enable_all : List Session → Context → Context
  enable_all [] c = c
  enable_all (s ∷ ss) c =
      enable_all ss (record c { sessions = replace_session (enable_capture s) c.sessions })

  unfoldable pub end_all : List Session → Context → Context
  end_all [] c = c
  end_all (s ∷ ss) c =
      end_all ss (record c { sessions = replace_session (end_session false s).session c.sessions })

  unfoldable pub flush_finished : List Session → Bool → Context → Option Context
  flush_finished [] too_many c = some c
  flush_finished (s ∷ ss) too_many c =
      let others = flush_finished ss too_many (forget_session w s c) in
      let wanted : Option Context = elim (send_session w s c) [
        | none ↦ none
        | some (answer, sent) ↦
            flush_finished ss (is_too_many_requests answer) (forget_session w s sent)
      ] in
      if not too_many && is_data_sending_allowed s then wanted else others

  unfoldable pub do_execute_flush_sessions : Context → Option Context
  do_execute_flush_sessions c =
      let enabled = enable_all (get_all_not_configured_sessions c.sessions) c in
      let closed = end_all (get_all_open_and_configured_sessions enabled.sessions) enabled in
      elim (flush_finished (get_all_finished_and_configured_sessions closed.sessions) false
        closed) [ none ↦ none | some flushed ↦ some (set_next_state terminal flushed) ]

  unfoldable pub do_execute_terminal : Context → Option Context
  do_execute_terminal c = some (request_shutdown c)
