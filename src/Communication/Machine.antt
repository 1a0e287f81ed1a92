-- ===== src/Communication/Machine.antt =====
-- core/communication/AbstractBeaconSendingState.cxx, `executeCurrentState` of BeaconSendingContext.cxx, and
-- the loop of core/BeaconSender.cxx.
use openkit_native.Prelude.{Option, if◌then◌else◌, none, some, suc, zero, ℕ}
use openkit_native.Communication.Context.{
  Context, SendingState, Surroundings, capture_off, capture_on, flush_sessions, initial,
  is_in_terminal_state, is_shutdown_requested, polled, set_next_state, terminal,
}
use openkit_native.Communication.States.CaptureOff.{do_execute_capture_off}
use openkit_native.Communication.States.CaptureOn.{do_execute_capture_on}
use openkit_native.Communication.States.Flush.{do_execute_flush_sessions, do_execute_terminal}
use openkit_native.Communication.States.Initial.{do_execute_initial}
pub mod Frame
pub mod Work
pub mod Shutdown
pub mod Steps
pub mod Arrows

-- `getShutdownState`
unfoldable pub get_shutdown_state : SendingState → SendingState
get_shutdown_state (initial i) = terminal
get_shutdown_state capture_on = flush_sessions
get_shutdown_state (capture_off t) = flush_sessions
get_shutdown_state flush_sessions = terminal
get_shutdown_state terminal = terminal

module _ (w : Surroundings) (fuel : ℕ) where
  unfoldable pub do_execute : SendingState → Context → Option Context
  do_execute (initial i) c = do_execute_initial w fuel i c
  do_execute capture_on c = do_execute_capture_on w c
  do_execute (capture_off t) c = do_execute_capture_off w t c
  do_execute flush_sessions c = do_execute_flush_sessions w c
  do_execute terminal c = do_execute_terminal w c

  unfoldable pub execute : SendingState → Context → Option Context
  execute s c = elim (do_execute s c) [
    | none ↦ none
    | some d ↦ some (
        if is_shutdown_requested w d
        then set_next_state (get_shutdown_state s) (polled w d)
        else polled w d)
  ]

  -- A next state is always a new object, so it differs from the current one.
  unfoldable pub enter_next_state : Context → Context
  enter_next_state c = elim c.next_state [ none ↦ c | some s ↦ record c { current_state = s } ]

  unfoldable pub execute_current_state : Context → Option Context
  execute_current_state c = elim (execute c.current_state (record c { next_state = none })) [
    | none ↦ none
    | some d ↦ some (enter_next_state d)
  ]

  -- The loop of the sending thread, where `rounds` bounds its rounds.
  unfoldable pub run_sender : ℕ → Context → Option Context
  run_sender zero c = if is_in_terminal_state c then some c else none
  run_sender (suc rounds) c =
      let executed = execute_current_state c in
      if is_in_terminal_state c
      then some c
      else elim executed [ none ↦ none | some d ↦ run_sender rounds d ]
