-- ===== src/Watchdog.antt =====
-- core/SessionWatchdogContext.cxx: the sessions that wait for their end. The n-th reading of the clock is
-- `now n`. A session is in the queue once; the `dequeueFromClosing` that its end causes finds nothing
-- then. The splitting by time, which runs in the same thread, is not modelled.
use openkit_native.Prelude.{
  Bool, List, [], add64, false, if◌then◌else◌, not, slt64, sub64, ℕ, ◌++◌, ◌+◌, ◌∷◌,
}
use openkit_native.Communication.Context.{remove_first}
use openkit_native.Objects.Session.{Ended, Session, end_session, try_end}
pub mod Closing

pub record WatchdogContext : Type 0 where
  pub is_watchdog_shutdown : Bool
  pub sessions_to_close : List Session
  pub clock_readings : ℕ
  pub closed : List Ended

abbrev pub new_watchdog_context : WatchdogContext
new_watchdog_context = record {
  is_watchdog_shutdown = false;
  sessions_to_close = [];
  clock_readings = 0;
  closed = [];
}

abbrev pub watchdog_sleep_time : ℕ
watchdog_sleep_time = 5000

-- `std::min` of two values of type `int64_t`
unfoldable pub min64 : ℕ → ℕ → ℕ
min64 a b = if slt64 b a then b else a

-- What the first loop of `closeExpiredSessions` finds.
pub record Scan : Type 0 where
  pub closable : List Session
  pub sleep_time : ℕ
  pub clock : ℕ

module _ (now : ℕ → ℕ) where
  unfoldable pub close_or_enqueue_for_closing : Session → ℕ → WatchdogContext → WatchdogContext
  close_or_enqueue_for_closing s grace_period c =
      let tried = try_end s in
      let waiting = record tried.1.session {
        split_by_events_grace_period_end_time = add64 (now c.clock_readings) grace_period;
      } in
      if tried.0 then record c { closed = c.closed ++ tried.1 ∷ [] } else record c {
        sessions_to_close = c.sessions_to_close ++ waiting ∷ [];
        clock_readings = c.clock_readings + 1;
      }

  unfoldable pub scan_sessions : ℕ → ℕ → List Session → Scan
  scan_sessions n sleep [] = record { closable = []; sleep_time = sleep; clock = n }
  scan_sessions n sleep (s ∷ ss) =
      let close_time = s.split_by_events_grace_period_end_time in
      let closing = scan_sessions (n + 1) sleep ss in
      let staying = scan_sessions (n + 1) (min64 sleep (sub64 close_time (now n))) ss in
      if not (slt64 (now n) close_time)
      then record closing { closable = s ∷ closing.closable }
      else staying

  unfoldable pub close_all : List Session → WatchdogContext → WatchdogContext
  close_all [] c = c
  close_all (s ∷ ss) c = close_all ss (record c {
    sessions_to_close = remove_first s.address c.sessions_to_close;
    closed = c.closed ++ end_session false s ∷ [];
  })

  -- the time to sleep, and the context
  unfoldable pub close_expired_sessions : WatchdogContext → ℕ × WatchdogContext
  close_expired_sessions c =
      let found = scan_sessions c.clock_readings watchdog_sleep_time c.sessions_to_close in
      (found.sleep_time, close_all found.closable (record c { clock_readings = found.clock }))

unfoldable pub dequeue_from_closing : Session → WatchdogContext → WatchdogContext
dequeue_from_closing s c = record c {
  sessions_to_close = remove_first s.address c.sessions_to_close;
}
